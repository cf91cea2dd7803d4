-- ===== src/Bech32.antt =====
-- rust_generators/crypto/gen_bech32_vectors.rs: the Bech32 encoder of addresses. Bytes and `u32`
-- words are numbers; a left shift of a word of `w` bits drops what passes `2 ^ w`. A text is the
-- list of its ASCII bytes.
pub mod Linear
pub mod Checksum
pub mod ConvertBits
pub mod Decode
pub mod Vectors
use tos_spec.Base.{ℕ, zero, suc, ◌+◌, ◌-◌, ◌*◌, ◌/◌, ◌%◌, ◌^◌, bit_and, bit_or, bit_xor}
use tos_spec.Base.{List, [], ◌∷◌, ◌++◌, map, replicate, get_elem?, Option, none, some, Bool, ◌&&◌}
use tos_spec.Base.{ltb, leb, ◌==◌, if◌then◌else◌}
use tos_spec.Base.Options.{◌>>=◌}
use tos_spec.Base.Bytes.{codes}

abbrev pub charset : List ℕ
charset = codes "qpzry9x8gf2tvdw0s3jn54khce6mua7l"

abbrev pub generator : List ℕ
generator = 0x3b6a57b2 ∷ 0x26508e6d ∷ 0x1ea119fa ∷ 0x3d4233dd ∷ 0x2a1462b3 ∷ []

-- The inner loop from index `i` on.
unfoldable pub add_generators : ℕ → ℕ → List ℕ → ℕ → ℕ
add_generators top i [] chk = chk
add_generators top i (item ∷ items) chk =
    add_generators top (i + 1) items
      (if bit_and (top / 2 ^ i) 1 == 1 then bit_xor chk item else chk)

-- One round of the outer loop.
unfoldable pub polymod_step : ℕ → ℕ → ℕ
polymod_step chk value =
    let top = chk / 2 ^ 25 in
    add_generators top 0 generator (bit_xor (bit_and chk 0x1ffffff * 2 ^ 5 % 2 ^ 32) value)

unfoldable pub polymod_from : ℕ → List ℕ → ℕ
polymod_from chk [] = chk
polymod_from chk (value ∷ values) = polymod_from (polymod_step chk value) values

unfoldable pub polymod : List ℕ → ℕ
polymod values = polymod_from 1 values

unfoldable pub hrp_expand : List ℕ → List ℕ
hrp_expand hrp = map (λ c. c / 2 ^ 5) hrp ++ (0 ∷ map (λ c. bit_and c 31) hrp)

-- The loop over the six places of the result.
unfoldable pub checksum_bytes : ℕ → List ℕ
checksum_bytes word =
    map (λ i. bit_and (word / 2 ^ (5 * (5 - i))) 31 % 2 ^ 8) (0 ∷ 1 ∷ 2 ∷ 3 ∷ 4 ∷ 5 ∷ [])

unfoldable pub create_checksum : List ℕ → List ℕ → List ℕ
create_checksum hrp bytes =
    checksum_bytes (bit_xor (polymod (hrp_expand hrp ++ (bytes ++ replicate 6 0))) 1)

-- `to_lowercase` of an ASCII text.
unfoldable pub to_lowercase : List ℕ → List ℕ
to_lowercase text = map (λ c. if leb b'A' c && leb c b'Z' then c + 32 else c) text

-- The characters of the values; `none` where `unwrap` panics, on a value of 32 or more.
unfoldable pub push_chars : List ℕ → Option (List ℕ)
push_chars [] = some []
push_chars (value ∷ values) = do
  c ← get_elem? charset value
  rest ← push_chars values
  some (c ∷ rest)

unfoldable pub encode : List ℕ → List ℕ → Option (List ℕ)
encode hrp bytes =
    let hrp' = to_lowercase hrp in
    do chars ← push_chars (bytes ++ create_checksum hrp' bytes); some (hrp' ++ (b'1' ∷ chars))
