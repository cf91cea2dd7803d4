-- ===== src/Ciphers/Poly1305/Decrypts.antt =====
-- The vectors of gen_chacha20_poly1305_vectors.rs against the decryption of the cipher.
use tos_spec.Base.{ℕ, ◌^◌, ◌<◌, ◌≡◌, refl, arith, List, [], ◌++◌, String, none, some}
use tos_spec.Base.{length}
use tos_spec.Base.Bytes.{AreBytes}
use tos_spec.Crypto.{Hex, HexLaws}
use tos_spec.Ciphers.{Aead, AeadLaws}
use tos_spec.Ciphers.Agrees.{sealed, ShowsAad, no_aad, with_aad}
use tos_spec.Ciphers.Poly1305.{TestVector, plain_vector, aad_vector}

-- The vector shows a key, a nonce, additional data, a text and its length; ciphertext and tag
-- joined are decrypted to the text, and all sizes are those of the file.
pub record VectorDecrypts (a : Aead) (hex : Hex) (key_size nonce_size tag_size : ℕ) (v : TestVector)
    : Type 0 where
  pub cipher : a.Cipher
  pub key : List ℕ
  pub nonce : List ℕ
  pub aad : List ℕ
  pub text : List ℕ
  pub front : List ℕ
  pub tag : List ℕ
  pub key_shown : hex.decode v.key_hex ≡ some key
  pub key_made : a.new_from_slice key ≡ some cipher
  pub key_length : length key ≡ key_size
  pub nonce_shown : hex.decode v.nonce_hex ≡ some nonce
  pub nonce_length : length nonce ≡ nonce_size
  pub aad_shown : ShowsAad hex v.aad_hex aad
  pub text_shown : hex.decode v.plaintext_hex ≡ some text
  pub text_length : v.plaintext_length ≡ length text
  pub front_shown : hex.decode v.ciphertext_hex ≡ some front
  pub front_length : length front ≡ length text
  pub tag_shown : hex.decode v.tag_hex ≡ some tag
  pub tag_length : length tag ≡ tag_size
  pub decrypted : a.decrypt cipher nonce aad (front ++ tag) ≡ some text

module _ (a : Aead) (laws : AeadLaws a 32) (hex : Hex) (hex_laws : HexLaws hex) where
  abbrev pub Decrypts : TestVector → Type 0
  Decrypts = VectorDecrypts a hex 32 12 16

  pub plain_vector-Decrypts :
      (cipher : a.Cipher) (name description : String) (key nonce text text_hex : List ℕ) (n : ℕ)
      → a.new_from_slice key ≡ some cipher
      → AreBytes key
      → length key ≡ 32
      → AreBytes nonce
      → length nonce ≡ 12
      → AreBytes text
      → hex.decode text_hex ≡ some text
      → n ≡ length text
      → n < 2 ^ 32
      → (v : TestVector) × (plain_vector a hex cipher name description key nonce text text_hex n
          ≡ some v)
        × Decrypts v
  unfolding plain_vector
  plain_vector-Decrypts cipher name description key nonce text text_hex n made hk key_size hn
        nonce_size ht shown size small =
      let s = sealed a 32 laws cipher nonce [] text nonce_size ht (omega arith) in
      (
        record {
          name = name;
          description = some description;
          key_hex = hex.encode key;
          nonce_hex = hex.encode nonce;
          aad_hex = none;
          plaintext_hex = text_hex;
          plaintext_length = n;
          ciphertext_hex = hex.encode s.front;
          tag_hex = hex.encode s.tag;
        },
        rw (s.encrypted, s.parts),
        record {
          cipher = cipher;
          key = key;
          nonce = nonce;
          aad = [];
          text = text;
          front = s.front;
          tag = s.tag;
          key_shown = hex_laws.decode-encode key hk;
          key_made = made;
          key_length = key_size;
          nonce_shown = hex_laws.decode-encode nonce hn;
          nonce_length = nonce_size;
          aad_shown = no_aad;
          text_shown = shown;
          text_length = size;
          front_shown = hex_laws.decode-encode s.front s.front_bytes;
          front_length = s.front_size;
          tag_shown = hex_laws.decode-encode s.tag s.tag_bytes;
          tag_length = s.tag_size;
          decrypted = s.decrypted;
        },
      )

  pub aad_vector-Decrypts :
      (cipher : a.Cipher) (name description : String) (key nonce aad text : List ℕ)
      → a.new_from_slice key ≡ some cipher
      → AreBytes key
      → length key ≡ 32
      → AreBytes nonce
      → length nonce ≡ 12
      → AreBytes aad
      → AreBytes text
      → length text < 2 ^ 32
      → (v : TestVector) × (aad_vector a hex cipher name description key nonce aad text ≡ some v)
        × Decrypts v
  unfolding aad_vector
  aad_vector-Decrypts cipher name description key nonce aad text made hk key_size hn nonce_size ha
        ht small =
      let s = sealed a 32 laws cipher nonce aad text nonce_size ht small in
      (
        record {
          name = name;
          description = some description;
          key_hex = hex.encode key;
          nonce_hex = hex.encode nonce;
          aad_hex = some (hex.encode aad);
          plaintext_hex = hex.encode text;
          plaintext_length = length text;
          ciphertext_hex = hex.encode s.front;
          tag_hex = hex.encode s.tag;
        },
        rw (s.encrypted, s.parts),
        record {
          cipher = cipher;
          key = key;
          nonce = nonce;
          aad = aad;
          text = text;
          front = s.front;
          tag = s.tag;
          key_shown = hex_laws.decode-encode key hk;
          key_made = made;
          key_length = key_size;
          nonce_shown = hex_laws.decode-encode nonce hn;
          nonce_length = nonce_size;
          aad_shown = with_aad (hex_laws.decode-encode aad ha);
          text_shown = hex_laws.decode-encode text ht;
          text_length = refl;
          front_shown = hex_laws.decode-encode s.front s.front_bytes;
          front_length = s.front_size;
          tag_shown = hex_laws.decode-encode s.tag s.tag_bytes;
          tag_length = s.tag_size;
          decrypted = s.decrypted;
        },
      )
