-- ===== src/Signer/Result.antt =====
-- rust_py/tos_signer/src/lib.rs: `PyResult`. The messages of the `PyValueError`s are data with
-- the numbers that their texts show; an error that PyO3 raises itself is `raised`.
use tos_spec.Base.{ℕ, ◌≡◌, refl}

pub data Message : Type 0 where
  transfers_empty : Message
  -- `transfers[{i}]: expected a tuple`
  transfer_not_tuple : ℕ → Message
  -- `transfers[{i}]: expected 3 or 4 elements, got {n}`
  transfer_arity : ℕ → ℕ → Message
  -- `transfers[{i}].asset: expected 32 bytes, got {n}`
  transfer_asset : ℕ → ℕ → Message
  transfer_destination : ℕ → ℕ → Message
  private_key_length : ℕ → Message
  source_length : ℕ → Message
  ref_hash_length : ℕ → Message
  asset_length : ℕ → Message

pub data PyResult {ℓ} (E : Type 0) (A : Type ℓ) : Type ℓ where
  ok : A → PyResult E A
  value_error : Message → PyResult E A
  raised : E → PyResult E A

infixl 5 ◌>>=◌ ◌>>◌
abbrev pub ◌>>=◌ {ℓ κ} :
    {E : Type 0} {A : Type ℓ} {B : Type κ} → PyResult E A → (A → PyResult E B) → PyResult E B
ok a >>= f = f a
value_error m >>= f = value_error m
raised e >>= f = raised e

abbrev pub ◌>>◌ {ℓ} :
    {E : Type 0} {B : Type ℓ} → PyResult E (Unit {0}) → PyResult E B → PyResult E B
m >> k = m >>= λ _. k

-- Inversion of a successful chain.
pub >>=-eq-ok {ℓ κ} :
    {E : Type 0} {A : Type ℓ} {B : Type κ} (step : PyResult E A) (next : A → PyResult E B) {y : B}
    → (step >>= next) ≡ ok y
    → (x : A) × (step ≡ ok x) × (next x ≡ ok y)
>>=-eq-ok (value_error message) next success = cc
>>=-eq-ok (raised error) next success = cc
>>=-eq-ok (ok x) next success = (x, refl, success)

pub >>=_assoc {ℓ κ μ} :
    {E : Type 0} {A : Type ℓ} {B : Type κ} {C : Type μ} (m : PyResult E A) (f : A → PyResult E B)
    (g : B → PyResult E C)
    → (m >>= f >>= g) ≡ (m >>= λ a. f a >>= g)
>>=_assoc (ok a) f g = refl
>>=_assoc (value_error m) f g = refl
>>=_assoc (raised e) f g = refl

pub >>=_cong {ℓ κ} :
    {E : Type 0} {A : Type ℓ} {B : Type κ} (m : PyResult E A) {f g : A → PyResult E B}
    → ((a : A) → m ≡ ok a → f a ≡ g a)
    → (m >>= f) ≡ (m >>= g)
>>=_cong (ok a) h = h a refl
>>=_cong (value_error m) h = refl
>>=_cong (raised e) h = refl
