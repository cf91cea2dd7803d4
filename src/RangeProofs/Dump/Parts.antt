-- ===== src/RangeProofs/Dump/Parts.antt =====
-- The parts that dump_proof.rs cuts out of a proof.
use tos_spec.Base.{
  ℕ, zero, suc, ◌+◌, ◌-◌, ◌*◌, ◌≤◌, ◌<◌, ◌≡◌, refl, sym, subst, ap, ◌∙◌, arith, List, [], ◌∷◌,
}
use tos_spec.Base.{◌++◌, Option, none, some, true, length, take, drop, flatten}
use tos_spec.Base.{length-take, length-drop, All}
use tos_spec.Base.Options.{◌>>=◌}
use tos_spec.Crypto.{Hex}
use tos_spec.RangeProofs.{Bulletproofs}
use tos_spec.RangeProofs.Dump.{slice, same_bytes, ProofParts, dump_rounds, dump_parts, dump_proof}

slice_lem :
    (bytes : List ℕ) (first last : ℕ)
    → first ≤ last
    → last ≤ length bytes
    → slice bytes first last ≡ some (take (last - first) (drop first bytes))
unfolding slice
slice_lem bytes first last h h' = ground arith

slice_short :
    (bytes : List ℕ) (first last : ℕ) → length bytes < last → slice bytes first last ≡ none
unfolding slice
slice_short bytes first last h = ground arith

same_bytes_self : (bytes : List ℕ) → same_bytes bytes bytes ≡ true
same_bytes_self [] = refl
same_bytes_self (b ∷ bs) = ground (arith, same_bytes_self bs)

take-nil : (n : ℕ) → take {A = ℕ} n [] ≡ []
take-nil zero = refl
take-nil (suc n) = refl

take_add : (m n : ℕ) (bytes : List ℕ) → take (m + n) bytes ≡ take m bytes ++ take n (drop m bytes)
take_add zero n bytes = ap (λ (k : ℕ). take k bytes) (omega arith)
take_add (suc m) n [] = take-nil (suc m + n) ∙ sym (take-nil n)
take_add (suc m) n (b ∷ bs) =
    let size : suc m + n ≡ suc (m + n) = omega arith in
    ap (λ (k : ℕ). take k (b ∷ bs)) size ∙ ap (◌∷◌ b) (take_add m n bs)

drop-nil : (n : ℕ) → drop {A = ℕ} n [] ≡ []
drop-nil zero = refl
drop-nil (suc n) = refl

drop_add : (m n : ℕ) (bytes : List ℕ) → drop n (drop m bytes) ≡ drop (m + n) bytes
drop_add zero n bytes = let size : n ≡ 0 + n = omega arith in ap (λ (k : ℕ). drop k bytes) size
drop_add (suc m) n [] = drop-nil n ∙ sym (drop-nil (suc m + n))
drop_add (suc m) n (b ∷ bs) =
    let size : suc m + n ≡ suc (m + n) = omega arith in
    drop_add m n bs ∙ sym (ap (λ (k : ℕ). drop k (b ∷ bs)) size)

-- `n` pieces of 32 bytes from the place `m` on.
abbrev chunks : ℕ → ℕ → List ℕ → List (List ℕ)
chunks m zero bytes = []
chunks m (suc n) bytes = take 32 (drop m bytes) ∷ chunks (m + 32) n bytes

flatten-chunks :
    (m n : ℕ) (bytes : List ℕ) → flatten (chunks m n bytes) ≡ take (n * 32) (drop m bytes)
flatten-chunks m zero bytes = refl
flatten-chunks m (suc n) bytes =
    let size : suc n * 32 ≡ 32 + n * 32 = omega arith in
    ap (λ r. take 32 (drop m bytes) ++ r)
      (flatten-chunks (m + 32) n bytes ∙ ap (λ r. take (n * 32) r) (sym (drop_add m 32 bytes)))
    ∙ sym (ap (λ (k : ℕ). take k (drop m bytes)) size ∙ take_add 32 (n * 32) (drop m bytes))

abbrev pub two_each : List (List ℕ × List ℕ) → List (List ℕ)
two_each [] = []
two_each (round ∷ rounds) = round.0 ∷ round.1 ∷ two_each rounds

-- All parts in the order in which they are printed.
abbrev pub part_list : ProofParts → List (List ℕ)
part_list p =
    p.a_point
    ∷ p.s_point
    ∷ p.t1
    ∷ p.t2
    ∷ p.tx
    ∷ p.tx_blinding
    ∷ p.e_blinding
    ∷ (two_each p.rounds ++ (p.a ∷ p.b ∷ []))

length-take_least :
    (bytes : List ℕ) (m : ℕ) → m + 32 ≤ length bytes → length (take 32 (drop m bytes)) ≡ 32
length-take_least bytes m h = omega (arith, length-take 32 (drop m bytes), length-drop m bytes)

chunks-length :
    (bytes : List ℕ) (m n : ℕ)
    → m + n * 32 ≤ length bytes
    → All (λ part. length part ≡ 32) (chunks m n bytes)
chunks-length bytes m zero h = tt
chunks-length bytes m (suc n) h =
    (length-take_least bytes m (omega arith), chunks-length bytes (m + 32) n (omega arith))

dump_parts_lem :
    (total_size : ℕ) (bytes : List ℕ)
    → 672 ≤ length bytes
    → (parts : ProofParts) × (dump_parts total_size bytes ≡ some parts)
      × (parts.total_size ≡ total_size)
      × (part_list parts ≡ chunks 0 21 bytes)
unfolding dump_parts dump_rounds
dump_parts_lem total_size bytes h =
    let part = λ (first : ℕ). take 32 (drop first bytes) in
    let cut = λ (first : ℕ) (last : ℕ) (fits : (first ≤ last) × (last ≤ length bytes)).
      slice_lem bytes first last fits.0 fits.1 in
    (
      record {
        total_size = total_size;
        a_point = part 0;
        s_point = part 32;
        t1 = part 64;
        t2 = part 96;
        tx = part 128;
        tx_blinding = part 160;
        e_blinding = part 192;
        rounds =
            (part 224, part 256)
            ∷ (part 288, part 320)
            ∷ (part 352, part 384)
            ∷ (part 416, part 448)
            ∷ (part 480, part 512)
            ∷ (part 544, part 576)
            ∷ [];
        a = part 608;
        b = part 640;
      },
      rw (
        cut 0 32 (omega arith),
        cut 32 64 (omega arith),
        cut 64 96 (omega arith),
        cut 96 128 (omega arith),
        cut 128 160 (omega arith),
        cut 160 192 (omega arith),
        cut 192 224 (omega arith),
        cut 224 256 (omega arith),
        cut 256 288 (omega arith),
        cut 288 320 (omega arith),
        cut 320 352 (omega arith),
        cut 352 384 (omega arith),
        cut 384 416 (omega arith),
        cut 416 448 (omega arith),
        cut 448 480 (omega arith),
        cut 480 512 (omega arith),
        cut 512 544 (omega arith),
        cut 544 576 (omega arith),
        cut 576 608 (omega arith),
        cut 608 640 (omega arith),
        cut 640 672 (omega arith),
      ),
      refl,
      refl,
    )

bind_none {ℓ κ} :
    {A : Type ℓ} {B : Type κ} (o : Option A) (f : A → Option B)
    → ((a : A) → f a ≡ none)
    → (o >>= f) ≡ none
bind_none none f h = refl
bind_none (some a) f h = h a

dump_parts_short :
    (total_size : ℕ) (bytes : List ℕ) → length bytes < 672 → dump_parts total_size bytes ≡ none
unfolding dump_parts
dump_parts_short total_size bytes h = bind_none (slice bytes 0 32) _ (λ p0.
    bind_none (slice bytes 32 64) _ (λ p32. bind_none (slice bytes 64 96) _ (λ p64.
      bind_none (slice bytes 96 128) _ (λ p96. bind_none (slice bytes 128 160) _ (λ p128.
        bind_none (slice bytes 160 192) _ (λ p160. bind_none (slice bytes 192 224) _ (λ p192.
          bind_none (dump_rounds bytes 0 6) _ (λ rounds.
            bind_none (slice bytes 608 640) _ (λ a. rw (slice_short bytes 640 672 h))))))))))

-- For a text that is decoded to the bytes of a proof: with at least 672 bytes `main` does not panic,
-- the parts have 32 bytes each and are, joined in the order of printing, the first 672 bytes; with
-- fewer it panics.
pub dump_proof_lem :
    (bp : Bulletproofs) (hex : Hex) (proof_hex bytes : List ℕ) (proof : bp.Proof)
    → hex.decode proof_hex ≡ some bytes
    → bp.from_bytes bytes ≡ some proof
    → bp.to_bytes proof ≡ bytes
    → (672 ≤ length bytes
        → (parts : ProofParts) × (dump_proof bp hex proof_hex ≡ some parts)
          × (parts.total_size ≡ length bytes)
          × All (λ part. length part ≡ 32) (part_list parts)
          × (flatten (part_list parts) ≡ take 672 bytes))
      × (length bytes < 672 → dump_proof bp hex proof_hex ≡ none)
unfolding dump_proof
dump_proof_lem bp hex proof_hex bytes proof read parsed written = (
  λ enough.
      let (parts, made, total, cut) = dump_parts_lem (length bytes) bytes enough in
      (
        parts,
        rw (read, parsed, written, made, same_bytes_self bytes),
        total,
        subst (All (λ part. length part ≡ 32)) (sym cut) (chunks-length bytes 0 21 (omega arith)),
        ap flatten cut ∙ flatten-chunks 0 21 bytes,
      ),
  λ short. rw (read, parsed, written, dump_parts_short (length bytes) bytes short),
)
