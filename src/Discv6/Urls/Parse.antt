-- ===== src/Discv6/Urls/Parse.antt =====
-- A reader of `tosnode` URLs, and the vectors of gen_discv6_vectors.rs against it.
use tos_spec.Base.{ℕ, ◌+◌, ◌-◌, ◌*◌, ◌≡◌, refl, List, [], ◌∷◌, length, All}
use tos_spec.Base.{Option, none, some, Bool, true, false, ◌&&◌, ◌||◌, leb, ltb, ◌==◌, if◌then◌else◌}
use tos_spec.Base.Options.{◌>>=◌}
use tos_spec.Base.Bytes.{codes, AreBytes}
use tos_spec.Crypto.{Curve, CurveLaws, Hex, HexLaws}
use tos_spec.Discv6.Vectors.Consistent.{
  IdentityAgrees, XorAgrees, Log2Agrees, generate_identity_vectors-IdentityAgrees,
  generate_xor_distance_vectors-XorAgrees, generate_log2_distance_vectors-Log2Agrees,
}
use tos_spec.Discv6.Urls.{
  UrlVector, tosnode_url, valid_url, invalid_url, generate_url_vectors, discv6_test_file,
}

abbrev pub is_digit : ℕ → Bool
is_digit c = leb b'0' c && leb c b'9'

abbrev pub is_hex : ℕ → Bool
is_hex c = is_digit c || (leb b'a' c && leb c b'f')

abbrev pub all : (ℕ → Bool) → List ℕ → Bool
all test [] = true
all test (c ∷ cs) = test c && all test cs

-- What stands before and behind the first `sep`.
unfoldable pub split_once : ℕ → List ℕ → Option (List ℕ × List ℕ)
split_once sep [] = none
split_once sep (c ∷ cs) =
    let rest = split_once sep cs in
    if c == sep then some ([], cs) else (do (front, back) ← rest; some (c ∷ front, back))

unfoldable pub strip_prefix : List ℕ → List ℕ → Option (List ℕ)
strip_prefix [] text = some text
strip_prefix (p ∷ ps) [] = none
strip_prefix (p ∷ ps) (c ∷ cs) = let rest = strip_prefix ps cs in if p == c then rest else none

unfoldable pub decimal : ℕ → List ℕ → Option ℕ
decimal n [] = some n
decimal n (c ∷ cs) =
    let rest = decimal (n * 10 + (c - b'0')) cs in if is_digit c then rest else none

-- A number in decimal digits, at least one of them, up to a bound.
unfoldable pub read_number : ℕ → List ℕ → Option ℕ
read_number bound text = do
  n ← decimal 0 text
  if ltb 0 (length text) && leb n bound then some n else none

-- Four numbers up to 255 between dots.
unfoldable pub read_ipv4 : List ℕ → Option (List ℕ)
read_ipv4 text = do
  (a, rest) ← split_once b'.' text
  (b, rest') ← split_once b'.' rest
  (c, d) ← split_once b'.' rest'
  _ ← read_number 255 a
  _ ← read_number 255 b
  _ ← read_number 255 c
  _ ← read_number 255 d
  some text

-- Hexadecimal digits and colons, with a colon.
unfoldable pub read_ipv6 : List ℕ → Option (List ℕ)
read_ipv6 text = do
  _ ← split_once b':' text
  if all (λ c. is_hex c || c == b':') text then some text else none

-- Address, port, and whether the address stands in brackets.
unfoldable pub read_address : List ℕ → Option (List ℕ × ℕ × Bool)
read_address [] = none
read_address (c ∷ cs) =
    if c == b'['
    then (do
      (host, rest) ← split_once b']' cs
      port_text ← strip_prefix (codes ":") rest
      ip ← read_ipv6 host
      port ← read_number 65535 port_text
      some (ip, port, true))
    else (do
      (host, port_text) ← split_once b':' (c ∷ cs)
      ip ← read_ipv4 host
      port ← read_number 65535 port_text
      some (ip, port, false))

-- `tosnode://`, 64 hexadecimal digits, `@`, and the address with its port.
unfoldable pub parse_url : List ℕ → Option (List ℕ × List ℕ × ℕ × Bool)
parse_url url = do
  rest ← strip_prefix (codes "tosnode://") url
  (node_id, address) ← split_once b'@' rest
  (ip, port, is_ipv6) ← read_address address
  if length node_id == 64 && all is_hex node_id then some (node_id, ip, port, is_ipv6) else none

-- The parts that a vector shows, where it shows all of them.
unfoldable pub parts : UrlVector → Option (List ℕ × List ℕ × ℕ × Bool)
parts v = do
  node_id ← v.node_id_hex
  ip ← v.ip
  port ← v.port
  is_ipv6 ← v.is_ipv6
  some (node_id, ip, port, is_ipv6)

abbrev pub is_some {ℓ} : {A : Type ℓ} → Option A → Bool
is_some none = false
is_some (some a) = true

-- The reader finds the parts that the vector shows, and the vector is marked as valid exactly if
-- there are such.
pub record UrlAgrees (v : UrlVector) : Type 0 where
  pub read : parse_url v.url ≡ parts v
  pub marked : v.valid ≡ is_some (parse_url v.url)

generate_url_vectors-UrlAgrees : All UrlAgrees generate_url_vectors
unfolding generate_url_vectors valid_url invalid_url tosnode_url parts parse_url read_address
    read_ipv4 read_ipv6 read_number decimal strip_prefix split_once
generate_url_vectors-UrlAgrees = (
  record { read = refl; marked = refl },
  (
    record { read = refl; marked = refl },
    (
      record { read = refl; marked = refl },
      (
        record { read = refl; marked = refl },
        (
          record { read = refl; marked = refl },
          (
            record { read = refl; marked = refl },
            (
              record { read = refl; marked = refl },
              (
                record { read = refl; marked = refl },
                (
                  record { read = refl; marked = refl },
                  (
                    record { read = refl; marked = refl },
                    (
                      record { read = refl; marked = refl },
                      (record { read = refl; marked = refl }, tt),
                    ),
                  ),
                ),
              ),
            ),
          ),
        ),
      ),
    ),
  ),
)

module _ (c : Curve) (laws : CurveLaws c) (hex : Hex) (hex_laws : HexLaws hex)
    (sha3_256 : List ℕ → List ℕ) (digest_bytes : (m : List ℕ) → AreBytes (sha3_256 m)) where
  -- With the laws of `CurveLaws` and `HexLaws` and a digest that is bytes, all vectors of the file of
  -- `main` agree: identities with their keys, distances and buckets with the identifiers, and each
  -- URL with its parts, which a reader of such URLs finds exactly where the vector is marked valid.
  pub discv6_test_file-Agrees :
      let file = discv6_test_file c hex sha3_256 in
      All (IdentityAgrees c hex sha3_256) file.identity_vectors
      × All (XorAgrees hex) file.xor_distance_vectors
      × All (Log2Agrees hex) file.log2_distance_vectors
      × All UrlAgrees file.url_vectors
  unfolding discv6_test_file
  discv6_test_file-Agrees = (
    (generate_identity_vectors-IdentityAgrees c laws hex hex_laws sha3_256 digest_bytes).0,
    generate_xor_distance_vectors-XorAgrees hex hex_laws,
    generate_log2_distance_vectors-Log2Agrees hex hex_laws,
    generate_url_vectors-UrlAgrees,
  )
