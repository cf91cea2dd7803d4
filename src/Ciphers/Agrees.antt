-- ===== src/Ciphers/Agrees.antt =====
-- Facts on keys, nonces and the cutting of ciphertexts that the vectors of the ciphers share.
use tos_spec.Base.{ℕ, ◌^◌, ◌<◌, ◌≡◌, arith, List, [], ◌++◌, Option, none, some, length, take, drop}
use tos_spec.Base.{All-take, All-append_right, subst, sym}
use tos_spec.Base.Bytes.{AreBytes}
use tos_spec.Crypto.{Hex, HexLaws}
use tos_spec.Crypto.LowerHex.{lower_hex, WritesLowerHex, decode_text}
use tos_spec.Ciphers.{Aead, AeadLaws, split_tag, split_tag_lem, decode_array}

-- The additional data that a vector shows; none stands for the empty data.
pub data ShowsAad (hex : Hex) : Option (List ℕ) → List ℕ → Type 0 where
  no_aad : ShowsAad hex none []
  with_aad : {text aad : List ℕ} → hex.decode text ≡ some aad → ShowsAad hex (some text) aad

-- What a cipher gives for a text, cut into two parts.
pub record Sealed (a : Aead) (cipher : a.Cipher) (nonce aad text : List ℕ) : Type 0 where
  pub out : List ℕ
  pub front : List ℕ
  pub tag : List ℕ
  pub encrypted : a.encrypt cipher nonce aad text ≡ some out
  pub parts : split_tag out ≡ some (front, tag)
  pub front_bytes : AreBytes front
  pub tag_bytes : AreBytes tag
  pub front_size : length front ≡ length text
  pub tag_size : length tag ≡ 16
  pub decrypted : a.decrypt cipher nonce aad (front ++ tag) ≡ some text

pub sealed :
    (a : Aead) (key_size : ℕ) (laws : AeadLaws a key_size) (cipher : a.Cipher)
    (nonce aad text : List ℕ)
    → length nonce ≡ 12
    → AreBytes text
    → length text < 2 ^ 32
    → Sealed a cipher nonce aad text
sealed a key_size laws cipher nonce aad text hn ht small =
    let (out, e) = laws.encrypt_lem cipher nonce aad text hn ht small in
    let n = length text in
    let (parts, front_size, tag_size, joined) = split_tag_lem out n e.size in
    let whole : AreBytes (take n out ++ drop n out) = subst AreBytes (sym joined) e.bytes in
    record {
      out = out;
      front = take n out;
      tag = drop n out;
      encrypted = e.encrypted;
      parts = parts;
      front_bytes = All-take _ n out e.bytes;
      tag_bytes = All-append_right _ (take n out) (drop n out) whole;
      front_size = front_size;
      tag_size = tag_size;
      decrypted = rw joined e.decrypted;
    }

-- A literal in hexadecimal as an array.
pub decode_array_lem :
    (hex : Hex) (laws : HexLaws hex) (lower : WritesLowerHex hex) (text bytes : List ℕ) (n : ℕ)
    → AreBytes bytes
    → text ≡ lower_hex bytes
    → length bytes ≡ n
    → decode_array hex text n ≡ some bytes
unfolding decode_array
decode_array_lem hex laws lower text bytes n h e size =
    let decoded = decode_text hex laws lower text bytes h e in rw decoded (ground (arith, size))
