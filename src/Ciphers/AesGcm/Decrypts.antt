-- ===== src/Ciphers/AesGcm/Decrypts.antt =====
-- The vectors of gen_aes_gcm_vectors.rs against the decryption of the two ciphers.
use tos_spec.Base.{ℕ, ◌^◌, ◌<◌, ◌≡◌, arith, List, ◌++◌, String}
use tos_spec.Base.{Option, none, some, length}
use tos_spec.Base.Bytes.{AreBytes}
use tos_spec.Crypto.{Hex, HexLaws}
use tos_spec.Ciphers.{Aead, AeadLaws}
use tos_spec.Ciphers.Agrees.{sealed, ShowsAad, no_aad, with_aad}
use tos_spec.Ciphers.AesGcm.{TestVector, payload_aad, map_hex, gcm_vector}

-- The vector shows a key of the size that it gives, a nonce, additional data, a text and its length;
-- ciphertext and tag joined are decrypted to the text.
pub record GcmDecrypts (a : Aead) (hex : Hex) (nonce_size tag_size : ℕ) (v : TestVector)
    : Type 0 where
  pub cipher : a.Cipher
  pub key : List ℕ
  pub nonce : List ℕ
  pub aad : List ℕ
  pub text : List ℕ
  pub front : List ℕ
  pub tag : List ℕ
  pub key_shown : hex.decode v.key_hex ≡ some key
  pub key_made : a.new_from_slice key ≡ some cipher
  pub key_length : v.key_size ≡ length key
  pub nonce_shown : hex.decode v.nonce_hex ≡ some nonce
  pub nonce_length : length nonce ≡ nonce_size
  pub aad_shown : ShowsAad hex v.aad_hex aad
  pub text_shown : hex.decode v.plaintext_hex ≡ some text
  pub text_length : v.plaintext_length ≡ length text
  pub front_shown : hex.decode v.ciphertext_hex ≡ some front
  pub front_length : length front ≡ length text
  pub tag_shown : hex.decode v.tag_hex ≡ some tag
  pub tag_length : length tag ≡ tag_size
  pub decrypted : a.decrypt cipher nonce aad (front ++ tag) ≡ some text

abbrev pub IsAad : Option (List ℕ) → Type 0
IsAad none = Unit
IsAad (some aad) = AreBytes aad

map_hex-ShowsAad :
    (hex : Hex) (laws : HexLaws hex) (aad : Option (List ℕ))
    → IsAad aad
    → ShowsAad hex (map_hex hex aad) (payload_aad aad)
map_hex-ShowsAad hex laws none h = no_aad
map_hex-ShowsAad hex laws (some aad) h = with_aad (laws.decode-encode aad h)

module _ (a : Aead) (size : ℕ) (laws : AeadLaws a size) (hex : Hex) (hex_laws : HexLaws hex) where
  pub gcm_vector-GcmDecrypts :
      (name description : String) (key nonce : List ℕ) (aad : Option (List ℕ))
      (text text_hex : List ℕ) (n : ℕ) (cipher : a.Cipher)
      → a.new_from_slice key ≡ some cipher
      → AreBytes key
      → length key ≡ size
      → AreBytes nonce
      → length nonce ≡ 12
      → IsAad aad
      → AreBytes text
      → hex.decode text_hex ≡ some text
      → n ≡ length text
      → n < 2 ^ 32
      → (v : TestVector) × (gcm_vector a hex cipher name description key size nonce aad text
            text_hex n
          ≡ some v)
        × GcmDecrypts a hex 12 16 v
  unfolding gcm_vector
  gcm_vector-GcmDecrypts name description key nonce aad text text_hex n cipher made hk key_size hn
        nonce_size ha ht shown text_size small =
      let s = sealed a size laws cipher nonce (payload_aad aad) text nonce_size ht (omega arith) in
      (
        record {
          name = name;
          description = some description;
          key_hex = hex.encode key;
          key_size = size;
          nonce_hex = hex.encode nonce;
          aad_hex = map_hex hex aad;
          plaintext_hex = text_hex;
          plaintext_length = n;
          ciphertext_hex = hex.encode s.front;
          tag_hex = hex.encode s.tag;
        },
        rw (s.encrypted, s.parts),
        record {
          cipher = cipher;
          key = key;
          nonce = nonce;
          aad = payload_aad aad;
          text = text;
          front = s.front;
          tag = s.tag;
          key_shown = hex_laws.decode-encode key hk;
          key_made = made;
          key_length = omega arith;
          nonce_shown = hex_laws.decode-encode nonce hn;
          nonce_length = nonce_size;
          aad_shown = map_hex-ShowsAad hex hex_laws aad ha;
          text_shown = shown;
          text_length = text_size;
          front_shown = hex_laws.decode-encode s.front s.front_bytes;
          front_length = s.front_size;
          tag_shown = hex_laws.decode-encode s.tag s.tag_bytes;
          tag_length = s.tag_size;
          decrypted = s.decrypted;
        },
      )
