-- ===== src/Contract/Wire.antt =====
-- A reader of the wire formats at the top of gen_contract_vectors.rs, which the code does not have.
use tos_spec.Base.{
  ℕ, ◌*◌, ◌<◌, ◌≡◌, ◌≢◌, refl, ap, sym, subst, ◌∙◌, arith, List, [], ◌∷◌, ◌++◌, map,
}
use tos_spec.Base.{
  Option, none, some, length, length-append, flatten, All, replicate, ◌==◌, if◌then◌else◌, get_or,
  append_assoc,
}
use tos_spec.Base.Options.{◌>>=◌}
use tos_spec.Base.Bytes.{
  to_be_bytes, length-to_be_bytes, split_at?, split_at?-append, read_be?, read_be?-append,
}
use tos_spec.Contract.{Kernel, Serializer, Parts, WireLaws, entry_bytes, deposits_bytes}
use tos_spec.Contract.Vectors.{hash_from_bytes, deposits_of}

-- The number of deposits, and what follows them: each is an asset of 32 bytes, a tag and an amount.
abbrev pub read_deposits : List ℕ → Option (ℕ × List ℕ)
read_deposits bytes = do
  (count, rest) ← read_be? 1 bytes
  (entries, rest) ← split_at? (count * 41) rest
  some (count, rest)

-- Contract, number of deposits, entry, gas and number of parameters of an invocation.
pub record InvokeShape : Type 0 where
  pub contract : List ℕ
  pub deposits : ℕ
  pub entry_id : ℕ
  pub max_gas : ℕ
  pub parameters : ℕ

abbrev pub read_invoke : List ℕ → Option InvokeShape
read_invoke bytes = do
  (contract, rest) ← split_at? 32 bytes
  (deposits, rest) ← read_deposits rest
  (entry_id, rest) ← read_be? 2 rest
  (max_gas, rest) ← read_be? 8 rest
  (parameters, rest) ← read_be? 1 rest
  some record {
    contract = contract;
    deposits = deposits;
    entry_id = entry_id;
    max_gas = max_gas;
    parameters = parameters;
  }

abbrev read_gas : List ℕ → Option (Option (ℕ × ℕ))
read_gas bytes = do
  (max_gas, rest) ← read_be? 8 bytes
  (deposits, rest) ← read_deposits rest
  if length rest == 0 then some (some (max_gas, deposits)) else none

-- The code of a deployment, and gas and number of deposits of its constructor.
abbrev pub read_constructor : ℕ → List ℕ → Option (Option (ℕ × ℕ))
read_constructor tag bytes =
    if tag == 1
    then read_gas bytes
    else if tag == 0
    then if length bytes == 0 then some none else none
    else none

abbrev pub read_deploy : List ℕ → Option (List ℕ × Option (ℕ × ℕ))
read_deploy bytes = do
  (size, rest) ← read_be? 4 bytes
  (code, rest) ← split_at? size rest
  (tag, rest) ← read_be? 1 rest
  invoke ← read_constructor tag rest
  some (code, invoke)

-- Assets of 32 bytes.
abbrev pub AreAssets : List (List ℕ × ℕ) → Type 0
AreAssets = All (λ e. length e.0 ≡ 32)

entries-size :
    (es : List (List ℕ × ℕ)) → AreAssets es → length (flatten (map entry_bytes es)) ≡ length es * 41
entries-size [] h = omega arith
entries-size (e ∷ es) h =
    let amount : List ℕ = to_be_bytes 8 e.1 in
    omega (
      arith,
      h.0,
      length-append (entry_bytes e) (flatten (map entry_bytes es)),
      length-append e.0 (0 ∷ amount),
      length-to_be_bytes 8 e.1,
      entries-size es h.1,
    )

pub read_deposits-deposits_bytes :
    (es : List (List ℕ × ℕ)) (rest : List ℕ)
    → AreAssets es
    → length es < 256
    → read_deposits (deposits_bytes es ++ rest) ≡ some (length es, rest)
read_deposits-deposits_bytes es rest h small =
    let front : List ℕ = flatten (map entry_bytes es) in
    rw (
      append_assoc (to_be_bytes 1 (length es)) front rest,
      read_be?-append 1 (length es) (front ++ rest) (omega arith),
      split_at?-append (length es * 41) front rest (entries-size es h),
    )

module _ (k : Kernel) (s : Serializer k) (p : Parts k) (laws : WireLaws k s p) where
  abbrev pub filled_entry : ℕ × ℕ → List ℕ × ℕ
  filled_entry e = (replicate 32 e.0, e.1)

  -- A filled asset that was not there before.
  insert_entry :
      (d : k.Deposits) (b amount : ℕ)
      → b < 256
      → All (λ e. e.0 ≢ replicate 32 b) (p.entries d)
      → p.entries (k.deposits_insert d (hash_from_bytes k (replicate 32 b)) (k.deposit_new amount))
        ≡ p.entries d ++ (filled_entry (b, amount) ∷ [])
  unfolding hash_from_bytes
  insert_entry d b amount small fresh =
      let asset = laws.hash_bytes-hash_new (replicate 32 b) (omega arith) refl in
      let fresh_hash = subst (λ a. All (λ e. e.0 ≢ a) (p.entries d)) (sym asset) fresh in
      laws.entries-deposits_insert d (k.hash_new (replicate 32 b)) amount fresh_hash
      ∙ ap (λ a. p.entries d ++ ((a, amount) ∷ [])) asset

  -- At most two deposits, of different assets.
  pub data Inserted : List (ℕ × ℕ) → Type 0 where
    nothing : Inserted []
    one : {e : ℕ × ℕ} → e.0 < 256 → Inserted (e ∷ [])
    two : {e f : ℕ × ℕ} → e.0 < 256 → f.0 < 256 → e.0 ≢ f.0 → Inserted (e ∷ f ∷ [])

  pub entries-deposits_of :
      (es : List (ℕ × ℕ))
      → Inserted es
      → p.entries (deposits_of k k.deposits_new es) ≡ map filled_entry es
  entries-deposits_of _ nothing = laws.entries-deposits_new
  entries-deposits_of _ (one {e} h) =
      let none_yet = laws.entries-deposits_new in
      insert_entry k.deposits_new e.0 e.1 h (rw none_yet tt) ∙ rw none_yet
  entries-deposits_of _ (two {e} {f} h h' other) =
      let none_yet = laws.entries-deposits_new in
      let first : p.entries (deposits_of k k.deposits_new (e ∷ [])) ≡ filled_entry e ∷ [] =
        insert_entry k.deposits_new e.0 e.1 h (rw none_yet tt) ∙ rw none_yet in
      insert_entry (deposits_of k k.deposits_new (e ∷ [])) f.0 f.1 h'
        (rw first ((λ same. other (ap (λ bytes. get_or bytes 0 0) same)), tt))
      ∙ rw first

  pub filled-AreAssets : (es : List (ℕ × ℕ)) → AreAssets (map filled_entry es)
  filled-AreAssets [] = tt
  filled-AreAssets (e ∷ es) = (refl, filled-AreAssets es)
