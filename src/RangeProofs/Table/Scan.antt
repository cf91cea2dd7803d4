-- ===== src/RangeProofs/Table/Scan.antt =====
-- A reader of the bytes `0x..` of a text, and the tables of gen_rangeproofs_table.rs.
use tos_spec.Base.{ℕ, ◌+◌, ◌-◌, ◌*◌, ◌/◌, ◌%◌, ◌<◌, ◌≡◌, refl, sym, ap, ◌∙◌, arith}
use tos_spec.Base.{
  true, false, List, [], ◌∷◌, ◌++◌, append_assoc, All, ltb, ◌==◌, if◌then◌else◌, flatten, map,
  ==_iff, eq_cases, Bool-cases, inl, inr,
}
use tos_spec.Base.Decimal.{decimal, IsDigit, decimal-IsDigit}
use tos_spec.Base.Tables.{all_below, all_below_sound}
use tos_spec.Crypto.LowerHex.{hex_digit}
use tos_spec.RangeProofs.Table.{byte_text}

-- The place of the reader: outside of a number, behind a `0`, behind `0x`, behind the first digit.
pub data Place : Type 0 where
  outside : Place
  after_zero : Place
  first : Place
  second : ℕ → Place

abbrev digit_value : ℕ → ℕ
digit_value c = if ltb c 58 then c - b'0' else c - 87

abbrev pub step : Place → ℕ → Place
step outside c = if c == b'0' then after_zero else outside
step after_zero c = if c == b'x' then first else if c == b'0' then after_zero else outside
step first c = second (digit_value c)
step (second d) c = outside

-- The bytes that are written as `0x` and two digits, from a place.
abbrev pub scan : Place → List ℕ → List ℕ
scan p [] = []
scan (second d) (c ∷ cs) = (d * 16 + digit_value c) ∷ scan outside cs
scan outside (c ∷ cs) = scan (step outside c) cs
scan after_zero (c ∷ cs) = scan (step after_zero c) cs
scan first (c ∷ cs) = scan (step first c) cs

digits_table : all_below 16 (λ d. digit_value (hex_digit d) == d) ≡ true
unfolding all_below
digits_table = refl

digit_value-hex_digit : (d : ℕ) → d < 16 → digit_value (hex_digit d) ≡ d
digit_value-hex_digit d h =
    (==_iff _ d).0 (all_below_sound (λ d. digit_value (hex_digit d) == d) 16 d h digits_table)

-- A text gives bytes, whatever follows it, and leaves the reader outside of a number.
abbrev pub Gives : List ℕ → List ℕ → Type 0
Gives text bytes = (rest : List ℕ) → scan outside (text ++ rest) ≡ bytes ++ scan outside rest

pub append-Gives : (s t a b : List ℕ) → Gives s a → Gives t b → Gives (s ++ t) (a ++ b)
append-Gives s t a b h g rest =
    ap (scan outside) (append_assoc s t rest)
    ∙ h (t ++ rest)
    ∙ ap (λ r. a ++ r) (g rest)
    ∙ sym (append_assoc a b (scan outside rest))

-- Texts and what each of them gives.
abbrev pub AllGive : List (List ℕ × List ℕ) → Type 0
AllGive = All (λ p. Gives p.0 p.1)

pub flatten-Gives :
    (ps : List (List ℕ × List ℕ))
    → AllGive ps
    → Gives (flatten (map (λ p. p.0) ps)) (flatten (map (λ p. p.1) ps))
flatten-Gives [] h = λ rest. refl
flatten-Gives (p ∷ ps) h = append-Gives p.0 _ p.1 _ h.0 (flatten-Gives ps h.1)

pub byte_text-Gives : (i b : ℕ) → b < 256 → Gives (byte_text i b) (b ∷ [])
byte_text-Gives i b h rest =
    let high = digit_value-hex_digit (b / 16) (omega arith) in
    let low = digit_value-hex_digit (b % 16) (omega arith) in
    let whole : b / 16 * 16 + b % 16 ≡ b = omega arith in
    elim (Bool-cases (ltb i 31)) [
      | inl e ↦ rw (e, high, low, whole)
      | inr e ↦ rw (e, high, low, whole)
    ]

pub step_outside : (c : ℕ) → (c == b'0') ≡ false → step outside c ≡ outside
step_outside c e = rw e refl

step_after_zero : (c : ℕ) → (c == b'x') ≡ false → (c == b'0') ≡ false → step after_zero c ≡ outside
step_after_zero c e e' = rw (e, e') refl

-- Digits, and then a closing bracket.
digits_closed :
    (cs rest : List ℕ)
    → All IsDigit cs
    → (scan outside (cs ++ (b']' ∷ rest)) ≡ scan outside rest)
      × (scan after_zero (cs ++ (b']' ∷ rest)) ≡ scan outside rest)
digits_closed [] rest h = (refl, refl)
digits_closed (c ∷ cs) rest h =
    let (from_outside, from_zero) = digits_closed cs rest h.1 in
    let onward = λ (p : Place). scan p (cs ++ (b']' ∷ rest)) in
    let not_x : (c == b'x') ≡ false = ground (arith, h.0) in
    elim (eq_cases c b'0') [
      | inl (e, same) ↦ (
        ap onward (ap (step outside) same) ∙ from_zero,
        ap onward (ap (step after_zero) same) ∙ from_zero,
      )
      | inr (e, other) ↦ (
        ap onward (step_outside c e) ∙ from_outside,
        ap onward (step_after_zero c not_x e) ∙ from_outside,
      )
    ]

-- A number in decimal before a closing bracket.
pub decimal-Gives :
    (n : ℕ) (rest : List ℕ) → scan outside (decimal n ++ (b']' ∷ rest)) ≡ scan outside rest
decimal-Gives n rest = (digits_closed (decimal n) rest (decimal-IsDigit n)).0
