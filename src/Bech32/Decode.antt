-- ===== src/Bech32/Decode.antt =====
-- The encoder of gen_bech32_vectors.rs against a decoder after BIP 173.
use tos_spec.Base.{ℕ, suc, ◌+◌, ◌-◌, ◌^◌, ◌<◌, ◌≡◌, refl, sym, ap, ◌∙◌, arith}
use tos_spec.Base.{
  List, [], ◌∷◌, ◌++◌, append_assoc, length, length-append, length-map, take, All-append,
}
use tos_spec.Base.{Option, some, none, true, false, ◌==◌, if◌then◌else◌, get_elem?}
use tos_spec.Base.{take-append_length, Option-cases, inl, inr}
use tos_spec.Base.Options.{◌>>=◌}
use tos_spec.Base.Bytes.{AreBytes, split_at?, split_at?-append}
use tos_spec.Base.Tables.{all_below, all_below_sound}
use tos_spec.Bech32.{
  charset, polymod, hrp_expand, create_checksum, to_lowercase, push_chars, encode,
}
use tos_spec.Bech32.Linear.{AreQuintets}
use tos_spec.Bech32.Checksum.{polymod-create_checksum, create_checksum_shape}

-- The place of a character in a table.
unfoldable pub index_of : ℕ → List ℕ → Option ℕ
index_of c [] = none
index_of c (x ∷ xs) =
    let rest = index_of c xs in if c == x then some 0 else (do i ← rest; some (i + 1))

-- The values of the characters; `none` on a character that is not in the table.
unfoldable pub read_chars : List ℕ → Option (List ℕ)
read_chars [] = some []
read_chars (c ∷ cs) = do v ← index_of c charset; vs ← read_chars cs; some (v ∷ vs)

-- The values of the data part of a text under a known prefix, its checksum checked and removed.
unfoldable pub decode : List ℕ → List ℕ → Option (List ℕ)
decode hrp text = do
  (prefix, rest) ← split_at? (length hrp + 1) text
  values ← read_chars rest
  if polymod (hrp_expand hrp ++ values) == 1 then some (take (length values - 6) values) else none

-- Every value below 32 has a character, whose place is the value.
charset_table :
    all_below 32 (λ v. elim (get_elem? charset v) [
      | none ↦ false
      | some c ↦ elim (index_of c charset) [ none ↦ false | some i ↦ i == v ]
    ])
    ≡ true
unfolding all_below index_of
charset_table = refl

charset_lem :
    (v : ℕ) → v < 32 → (c : ℕ) × (get_elem? charset v ≡ some c) × (index_of c charset ≡ some v)
charset_lem v h =
    let row = all_below_sound _ 32 v h charset_table in
    elim (Option-cases (get_elem? charset v)) [
      | inl e ↦ cc (rw e at row)
      | inr (c, e) ↦ elim (Option-cases (index_of c charset)) [
        | inl e' ↦ cc (rw (e, e') at row)
        | inr (i, e') ↦ (c, e, e' ∙ ap some (ground (arith, rw (e, e') at row)))
      ]
    ]

read_chars-push_chars :
    (vs : List ℕ)
    → AreQuintets vs
    → (cs : List ℕ) × (push_chars vs ≡ some cs)
      × (read_chars cs ≡ some vs)
      × (length cs ≡ length vs)
unfolding push_chars read_chars
read_chars-push_chars [] q = ([], refl, refl, refl)
read_chars-push_chars (v ∷ vs) q =
    let (c, ec, ev) = charset_lem v q.0 in
    let (cs, ecs, evs, size) = read_chars-push_chars vs q.1 in
    (c ∷ cs, rw (ec, ecs), rw (ev, evs), ap suc size)

to_lowercase-AreBytes : (cs : List ℕ) → AreBytes cs → AreBytes (to_lowercase cs)
unfolding to_lowercase
to_lowercase-AreBytes [] h = tt
to_lowercase-AreBytes (c ∷ cs) h = (ground (arith, h.0), to_lowercase-AreBytes cs h.1)

-- For a prefix of bytes and values of five bits `encode` does not panic; its text starts with the
-- prefix in lower case and the separator, has six characters more than values behind them, and the
-- decoder reads the values back from it.
pub decode-encode :
    (hrp values : List ℕ)
    → AreBytes hrp
    → AreQuintets values
    → (text : List ℕ) × (encode hrp values ≡ some text)
      × (take (length hrp + 1) text ≡ to_lowercase hrp ++ (b'1' ∷ []))
      × (length text ≡ length hrp + length values + 7)
      × (decode (to_lowercase hrp) text ≡ some values)
unfolding encode decode
decode-encode hrp values h q =
    let lower : List ℕ = to_lowercase hrp in
    let front : List ℕ = lower ++ (b'1' ∷ []) in
    let checksum : List ℕ = create_checksum lower values in
    let (six, small) = create_checksum_shape lower values in
    let all_small = All-append (λ v. v < 2 ^ 5) values checksum q small in
    let (chars, pushed, read, size) = read_chars-push_chars (values ++ checksum) all_small in
    let same : length lower ≡ length hrp = unfold to_lowercase in length-map hrp _ in
    let front_size : length front ≡ length hrp + 1 =
      omega (arith, length-append lower (b'1' ∷ [])) in
    let front_size' : length front ≡ length lower + 1 = omega (arith) in
    let regroup : lower ++ (b'1' ∷ chars) ≡ front ++ chars =
      sym (append_assoc lower (b'1' ∷ []) chars) in
    let valid = polymod-create_checksum lower values (to_lowercase-AreBytes hrp h) q in
    let accepted : (polymod (hrp_expand lower ++ (values ++ checksum)) == 1) ≡ true =
      ground (arith, valid) in
    let body : length (values ++ checksum) - 6 ≡ length values =
      omega (arith, length-append values checksum) in
    (
      front ++ chars,
      rw (pushed, regroup),
      take-append_length (length hrp + 1) front chars front_size,
      omega (arith, length-append front chars, length-append values checksum),
      rw (
        split_at?-append (length lower + 1) front chars front_size',
        read,
        accepted,
        body,
        take-append_length (length values) values checksum refl,
      ),
    )
