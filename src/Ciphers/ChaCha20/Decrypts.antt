-- ===== src/Ciphers/ChaCha20/Decrypts.antt =====
-- The vectors of gen_chacha20_vectors.rs against the key stream of the key and the nonce shown.
use tos_spec.Base.{
  ℕ, suc, ◌+◌, ◌<◌, ◌∙◌, ap, ap₂, ◌≡◌, refl, arith, List, [], ◌∷◌, ◌++◌, String, Option, some,
}
use tos_spec.Base.{length, replicate, All}
use tos_spec.Base.Bits.{bit_xor-lt, bit_xor_cancel}
use tos_spec.Base.Bytes.{AreBytes, codes, sequence}
use tos_spec.Crypto.{Hex, HexLaws}
use tos_spec.Crypto.LowerHex.{WritesLowerHex}
use tos_spec.Ciphers.Agrees.{decode_array_lem}
use tos_spec.Ciphers.Poly1305.{rfc_text}
use tos_spec.Ciphers.ChaCha20.{
  StreamCipher, StreamCipherLaws, mask, TestVector, ChaCha20TestFile, chacha20_encrypt,
  stream_vector, rfc_stream_vector, stream_vectors, chacha20_test_file,
}

module _ (stream : ℕ → ℕ) (stream-lt : (i : ℕ) → stream i < 256) where
  length-mask : (i : ℕ) (text : List ℕ) → length (mask stream i text) ≡ length text
  length-mask i [] = refl
  length-mask i (b ∷ bs) = ap suc (length-mask (i + 1) bs)

  mask-AreBytes : (i : ℕ) (text : List ℕ) → AreBytes text → AreBytes (mask stream i text)
  mask-AreBytes i [] h = tt
  mask-AreBytes i (b ∷ bs) h =
      (bit_xor-lt 8 b (stream i) h.0 (stream-lt i), mask-AreBytes (i + 1) bs h.1)

  mask-mask : (i : ℕ) (text : List ℕ) → mask stream i (mask stream i text) ≡ text
  mask-mask i [] = refl
  mask-mask i (b ∷ bs) = ap₂ ◌∷◌ (bit_xor_cancel b (stream i)) (mask-mask (i + 1) bs)

-- The vector shows a key, a nonce, a text with its length, and a ciphertext: the text with the key
-- stream of key and nonce added byte by byte, which the cipher turns back into the text.
pub record StreamDecrypts (s : StreamCipher) (laws : StreamCipherLaws s) (hex : Hex)
    (key_size nonce_size : ℕ) (v : TestVector) : Type 0 where
  pub key : List ℕ
  pub nonce : List ℕ
  pub text : List ℕ
  pub ciphertext : List ℕ
  pub key_shown : hex.decode v.key_hex ≡ some key
  pub key_length : length key ≡ key_size
  pub nonce_shown : hex.decode v.nonce_hex ≡ some nonce
  pub nonce_length : length nonce ≡ nonce_size
  pub text_shown : hex.decode v.plaintext_hex ≡ some text
  pub text_length : v.plaintext_length ≡ length text
  pub ciphertext_shown : hex.decode v.ciphertext_hex ≡ some ciphertext
  pub ciphertext_length : length ciphertext ≡ length text
  pub masked : ciphertext ≡ mask (laws.keystream (s.start key nonce)) 0 text
  pub decrypted : s.apply_keystream (s.start key nonce) ciphertext ≡ text

module _ (s : StreamCipher) (laws : StreamCipherLaws s) (hex : Hex) (hex_laws : HexLaws hex) where
  stream_vector-StreamDecrypts :
      (name : String) (description : Option String) (key nonce text text_hex : List ℕ) (n : ℕ)
      → AreBytes key
      → length key ≡ 32
      → AreBytes nonce
      → length nonce ≡ 12
      → AreBytes text
      → hex.decode text_hex ≡ some text
      → n ≡ length text
      → StreamDecrypts s laws hex 32 12
          (stream_vector s hex name description key nonce text text_hex n)
  unfolding stream_vector chacha20_encrypt
  stream_vector-StreamDecrypts name description key nonce text text_hex n hk key_size hn nonce_size
        ht shown size =
      let cipher = s.start key nonce in
      let stream = laws.keystream cipher in
      let small = laws.keystream-lt cipher in
      let made : s.apply_keystream cipher text ≡ mask stream 0 text =
        laws.apply_keystream_lem cipher text ht in
      let out_bytes = mask-AreBytes stream small 0 text ht in
      record {
        key = key;
        nonce = nonce;
        text = text;
        ciphertext = mask stream 0 text;
        key_shown = hex_laws.decode-encode key hk;
        key_length = key_size;
        nonce_shown = hex_laws.decode-encode nonce hn;
        nonce_length = nonce_size;
        text_shown = shown;
        text_length = size;
        ciphertext_shown =
            ap (λ out. hex.decode (hex.encode out)) made
            ∙ hex_laws.decode-encode (mask stream 0 text) out_bytes;
        ciphertext_length = length-mask stream small 0 text;
        masked = refl;
        decrypted =
            laws.apply_keystream_lem cipher (mask stream 0 text) out_bytes
            ∙ mask-mask stream small 0 text;
      }

  -- A block whose text is written by `hex::encode`.
  full_vector-StreamDecrypts :
      (name : String) (description : Option String) (key nonce text : List ℕ) (n : ℕ)
      → AreBytes key
      → length key ≡ 32
      → AreBytes nonce
      → length nonce ≡ 12
      → AreBytes text
      → n ≡ length text
      → StreamDecrypts s laws hex 32 12
          (stream_vector s hex name description key nonce text (hex.encode text) n)
  full_vector-StreamDecrypts name description key nonce text n hk key_size hn nonce_size ht size =
      stream_vector-StreamDecrypts name description key nonce text (hex.encode text) n hk key_size
        hn nonce_size ht (hex_laws.decode-encode text ht) size

  stream_vectors-StreamDecrypts : All (StreamDecrypts s laws hex 32 12) (stream_vectors s hex)
  unfolding stream_vectors
  stream_vectors-StreamDecrypts =
      let full = full_vector-StreamDecrypts in
      let key : List ℕ = replicate 32 0x42 in
      let nonce : List ℕ = replicate 12 0x00 in
      let block_key : List ℕ = replicate 32 0x01 in
      let block_nonce : List ℕ = replicate 12 0x02 in
      (
        stream_vector-StreamDecrypts _ _ key nonce [] [] 0 (omega arith) refl (omega arith) refl tt
            hex_laws.decode_nil refl,
        (
          full _ _ key nonce (0xab ∷ []) 1 (omega arith) refl (omega arith) refl (omega arith) refl,
          (
            full _ _ block_key block_nonce (replicate 64 0) 64 (omega arith) refl (omega arith) refl
                (omega arith) refl,
            (
              full _ _ block_key block_nonce (replicate 128 0) 128 (omega arith) refl (omega arith)
                  refl (omega arith) refl,
              (
                full _ _ block_key block_nonce (replicate 65 0xff) 65 (omega arith) refl
                    (omega arith) refl (omega arith) refl,
                (
                  full _ _ (replicate 32 0) nonce (codes "Hello, world!") 13 (omega arith) refl
                      (omega arith) refl (omega arith) refl,
                  (
                    full _ _ key (sequence 12 0) (replicate 100 0x61) 100 (omega arith) refl
                        (omega arith) refl (omega arith) refl,
                    tt,
                  ),
                ),
              ),
            ),
          ),
        ),
      )

  -- With the laws of `HexLaws`, `WritesLowerHex` and of a stream cipher, `main` does not panic; each
  -- vector shows a key and a nonce of the sizes of the file, a text with its length, and as ciphertext
  -- the text with the key stream of this key and nonce added byte by byte, which `apply_keystream`
  -- under this key and nonce turns back into the text.
  pub chacha20_test_file-StreamDecrypts :
      (lower : WritesLowerHex hex)
      → (file : ChaCha20TestFile) × (chacha20_test_file s hex ≡ some file)
        × All (StreamDecrypts s laws hex file.key_size file.nonce_size) file.test_vectors
  unfolding chacha20_test_file rfc_stream_vector
  chacha20_test_file-StreamDecrypts lower =
      let key : List ℕ = sequence 32 0 in
      let nonce : List ℕ = replicate 7 0 ++ (0x4a ∷ replicate 4 0) in
      let key_read = decode_array_lem hex hex_laws lower _ key 32 (omega arith) refl refl in
      let nonce_read = decode_array_lem hex hex_laws lower _ nonce 12 (omega arith) refl refl in
      (
        record {
          algorithm = "ChaCha20";
          key_size = 32;
          nonce_size = 12;
          test_vectors =
              stream_vector s hex "rfc8439_test" (some "RFC 8439 test vector") key nonce rfc_text
                (hex.encode rfc_text) (length rfc_text)
              ∷ stream_vectors s hex;
        },
        rw (key_read, nonce_read),
        (
          full_vector-StreamDecrypts _ _ key nonce rfc_text _ (omega arith) refl (omega arith) refl
              (omega arith) refl,
          stream_vectors-StreamDecrypts,
        ),
      )
