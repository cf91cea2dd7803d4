-- ===== src/RangeProofs/Verify/Invariant.antt =====
-- The counts of verify_rangeproofs.rs along the turns of its loop.
use tos_spec.Base.{ℕ, ◌+◌, ◌≡◌, ◌↔◌, refl, subst, ◌∙◌, arith, List, [], ◌∷◌, Option, none, some}
use tos_spec.Base.{Bool, true, false, length, Option-cases, inl, inr}
use tos_spec.Crypto.{Hex}
use tos_spec.RangeProofs.{Bulletproofs}
use tos_spec.RangeProofs.Verify.{
  Entry, Counts, check_entry, count, check_from, verify_rangeproofs, Turn, turn, Turns, start, next,
}

abbrev pub zero_counts : Counts
zero_counts = record { passed = 0; failed = 0 }

module _ (b : Bulletproofs) (hex : Hex) where
  abbrev accepts : Option Bool → ℕ
  accepts none = 0
  accepts (some true) = 1
  accepts (some false) = 0

  abbrev rejects : Option Bool → ℕ
  rejects none = 0
  rejects (some true) = 0
  rejects (some false) = 1

  -- The number of entries whose proof is accepted, and of those whose proof is not.
  abbrev pub accepted : List Entry → ℕ
  accepted [] = 0
  accepted (e ∷ es) = accepts (check_entry b hex e) + accepted es

  abbrev pub rejected : List Entry → ℕ
  rejected [] = 0
  rejected (e ∷ es) = rejects (check_entry b hex e) + rejected es

  abbrev Tallies : Counts × List Entry → Counts × List Entry → Type 0
  Tallies s t =
      (t.0.passed + accepted t.1 ≡ s.0.passed + accepted s.1)
      × (t.0.failed + rejected t.1 ≡ s.0.failed + rejected s.1)
      × (t.0.passed + t.0.failed + length t.1 ≡ s.0.passed + s.0.failed + length s.1)
      × (check_from b hex s.0 s.1 ≡ check_from b hex t.0 t.1)

  Turn-Tallies : {s t : Counts × List Entry} → Turn b hex s t → Tallies s t
  unfolding check_from
  Turn-Tallies (turn {result = true} e) =
      (rw e (omega arith), rw e (omega arith), omega arith, rw e)
  Turn-Tallies (turn {result = false} e) =
      (rw e (omega arith), rw e (omega arith), omega arith, rw e)

  Turns-Tallies : {s t : Counts × List Entry} → Turns b hex s t → Tallies s t
  Turns-Tallies start = (refl, refl, refl, refl)
  Turns-Tallies (next before last) =
      let (p, f, n, c) = Turns-Tallies before in
      let (p', f', n', c') = Turn-Tallies last in (p' ∙ p, f' ∙ f, n' ∙ n, c ∙ c')

  -- Turns after a first one.
  first_turn : {s t u : Counts × List Entry} → Turn b hex s t → Turns b hex t u → Turns b hex s u
  first_turn first start = next start first
  first_turn first (next before last) = next (first_turn first before) last

  run :
      (s final : Counts) (es : List Entry)
      → check_from b hex s es ≡ some final
      → Turns b hex (s, es) (final, [])
  unfolding check_from
  run s final [] e = subst (λ (t : Counts). Turns b hex (s, []) (t, [])) (cc) start
  run s final (x ∷ es) e = elim (Option-cases (check_entry b hex x)) [
    | inl missing ↦ cc (rw missing at e)
    | inr (result, found) ↦
        first_turn (turn found) (run (count b hex s result) final es (rw found at e))
  ]

  -- The loop returns counts exactly where turns lead from no counts and all entries to these counts
  -- and no entries.
  pub verify_rangeproofs-Turns :
      (entries : List Entry) (final : Counts)
      → (verify_rangeproofs b hex entries ≡ some final)
        ↔ Turns b hex (zero_counts, entries) (final, [])
  unfolding verify_rangeproofs check_from
  verify_rangeproofs-Turns entries final =
      (λ e. run zero_counts final entries e, λ turns. (Turns-Tallies turns).3)

  -- In every state that turns reach from no counts and all entries, the accepted and the rejected
  -- entries are those counted and those left, and none is lost: passed, failed and left make up all
  -- entries. The loop returns counts exactly where such turns leave no entries.
  pub Turns-invariant :
      (entries : List Entry)
      → ((s : Counts) (left : List Entry)
          → Turns b hex (zero_counts, entries) (s, left)
          → (s.passed + accepted left ≡ accepted entries)
            × (s.failed + rejected left ≡ rejected entries)
            × (s.passed + s.failed + length left ≡ length entries))
        × ((final : Counts)
            → (verify_rangeproofs b hex entries ≡ some final)
              ↔ Turns b hex (zero_counts, entries) (final, []))
  Turns-invariant entries = (
    λ s left turns. let (p, f, n, c) = Turns-Tallies turns in omega (arith, p, f, n),
    verify_rangeproofs-Turns entries,
  )
