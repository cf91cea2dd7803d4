-- ===== src/BlockHash/Shows.antt =====
-- One vector of gen_block_hash_vectors.rs against its block header.
use tos_spec.Base.{ℕ, ◌/◌, ◌%◌, ◌^◌, ◌<◌, ◌≡◌, refl, subst, sym, arith, List, [], ◌∷◌, map}
use tos_spec.Base.{some, All, length}
use tos_spec.Base.Bytes.{AreBytes}
use tos_spec.Crypto.{Hex, HexLaws}
use tos_spec.Crypto.LowerHex.{lower_hex, hex_digit-lt, WritesLowerHex}
use tos_spec.BlockHash.{
  Blocks, BlocksLaws, BlockHashVector, hash_to_hex, bytes_to_hex, generate_vector,
}
use tos_spec.BlockHash.Read.{NoBreak}
use tos_spec.BlockHash.Breaks.{IsWritable}

-- The texts show the given bytes, in the same order.
abbrev pub Show : Hex → List (List ℕ) → List (List ℕ) → Type 0
Show hex [] [] = Unit
Show hex [] (b ∷ bs) = ⊥
Show hex (t ∷ ts) [] = ⊥
Show hex (t ∷ ts) (b ∷ bs) = (hex.decode t ≡ some b) × Show hex ts bs

-- The vector shows the parts of a header, its nonce included, and the four hashes of this header.
pub record ShowsHeader (k : Blocks) (hex : Hex) (v : BlockHashVector) : Type 0 where
  pub version : k.Version
  pub extra_nonce : List ℕ
  pub miner : k.Key
  pub tips : k.IndexSet
  pub txs : k.IndexSet
  pub header : k.Header
  pub header_made :
      header
      ≡ k.with_nonce (k.header_new version v.height v.timestamp tips extra_nonce miner txs) v.nonce
  pub version_shown : v.version ≡ k.version_byte version
  pub extra_nonce_shown : hex.decode v.extra_nonce_hex ≡ some extra_nonce
  pub extra_nonce_size : length extra_nonce ≡ 32
  pub miner_shown : hex.decode v.miner_hex ≡ some (k.key_bytes miner)
  pub tips_shown : Show hex v.tips_hex (map k.hash_bytes (k.set_iter tips))
  pub txs_shown : Show hex v.txs_hashes_hex (map k.hash_bytes (k.set_iter txs))
  pub tips_hash_shown : hex.decode v.tips_hash_hex ≡ some (k.hash_bytes (k.tips_hash header))
  pub txs_hash_shown : hex.decode v.txs_hash_hex ≡ some (k.hash_bytes (k.txs_hash header))
  pub work_hash_shown : hex.decode v.work_hash_hex ≡ some (k.hash_bytes (k.work_hash header))
  pub block_hash_shown : hex.decode v.block_hash_hex ≡ some (k.hash_bytes (k.block_hash header))

lower_hex-NoBreak : (bytes : List ℕ) → AreBytes bytes → NoBreak (lower_hex bytes)
lower_hex-NoBreak [] h = tt
lower_hex-NoBreak (b ∷ bs) h =
    let high = hex_digit-lt (b / 16) (omega (arith, h.0)) in
    let low = hex_digit-lt (b % 16) (omega arith) in
    (ground (arith, high), (ground (arith, low), lower_hex-NoBreak bs h.1))

module _ (k : Blocks) (laws : BlocksLaws k) (hex : Hex) (hex_laws : HexLaws hex)
    (lower : WritesLowerHex hex) where
  encode-NoBreak : (bytes : List ℕ) → AreBytes bytes → NoBreak (hex.encode bytes)
  encode-NoBreak bytes h =
      subst NoBreak (sym (lower.encode_lem bytes h)) (lower_hex-NoBreak bytes h)

  shown : (h : k.Hash) → hex.decode (hash_to_hex k hex h) ≡ some (k.hash_bytes h)
  unfolding hash_to_hex
  shown h = hex_laws.decode-encode (k.hash_bytes h) (laws.hash_bytes-AreBytes h)

  unbroken : (h : k.Hash) → NoBreak (hash_to_hex k hex h)
  unfolding hash_to_hex
  unbroken h = encode-NoBreak (k.hash_bytes h) (laws.hash_bytes-AreBytes h)

  hexes_shown : (hs : List k.Hash) → Show hex (map (hash_to_hex k hex) hs) (map k.hash_bytes hs)
  hexes_shown [] = tt
  hexes_shown (h ∷ hs) = (shown h, hexes_shown hs)

  hexes_unbroken : (hs : List k.Hash) → All NoBreak (map (hash_to_hex k hex) hs)
  hexes_unbroken [] = tt
  hexes_unbroken (h ∷ hs) = (unbroken h, hexes_unbroken hs)

  abbrev pub Good : BlockHashVector → Type 0
  Good v = IsWritable v × ShowsHeader k hex v

  pub generate_vector-Good :
      (name description : List ℕ) (version : k.Version) (height timestamp nonce : ℕ)
      (extra_nonce : List ℕ) (miner : k.Key) (tips txs : k.IndexSet)
      → NoBreak name
      → NoBreak description
      → height < 2 ^ 64
      → timestamp < 2 ^ 64
      → nonce < 2 ^ 64
      → AreBytes extra_nonce
      → length extra_nonce ≡ 32
      → Good (
          generate_vector k hex name description version height timestamp nonce extra_nonce miner
            tips txs)
  unfolding generate_vector bytes_to_hex
  generate_vector-Good name description version height timestamp nonce extra_nonce miner tips txs hn
        hd hh ht hc he size =
      let header =
        k.with_nonce (k.header_new version height timestamp tips extra_nonce miner txs) nonce in
      let byte = laws.version_byte-IsByte version in
      (
        record {
          name = hn;
          description = hd;
          version = omega (arith, byte.0);
          height = hh;
          timestamp = ht;
          nonce = hc;
          extra_nonce_hex = encode-NoBreak extra_nonce he;
          miner_hex = encode-NoBreak (k.key_bytes miner) (laws.key_bytes-AreBytes miner);
          tips_hex = hexes_unbroken (k.set_iter tips);
          txs_hashes_hex = hexes_unbroken (k.set_iter txs);
          tips_hash_hex = unbroken (k.tips_hash header);
          txs_hash_hex = unbroken (k.txs_hash header);
          work_hash_hex = unbroken (k.work_hash header);
          block_hash_hex = unbroken (k.block_hash header);
        },
        record {
          version = version;
          extra_nonce = extra_nonce;
          miner = miner;
          tips = tips;
          txs = txs;
          header = header;
          header_made = refl;
          version_shown = refl;
          extra_nonce_shown = hex_laws.decode-encode extra_nonce he;
          extra_nonce_size = size;
          miner_shown = hex_laws.decode-encode (k.key_bytes miner) (laws.key_bytes-AreBytes miner);
          tips_shown = hexes_shown (k.set_iter tips);
          txs_shown = hexes_shown (k.set_iter txs);
          tips_hash_shown = shown (k.tips_hash header);
          txs_hash_shown = shown (k.txs_hash header);
          work_hash_shown = shown (k.work_hash header);
          block_hash_shown = shown (k.block_hash header);
        },
      )
