-- ===== src/Base/Bytes.antt =====
-- Bytes, numbers as bytes in big-endian and little-endian order, and the cutting of byte strings.
use Prim.Native.Char.{code}
use native.Mathlib.Nat.{pow-suc, mul_comm, mul_assoc}
use tos_spec.Base.Options.{◌>>=◌}
use tos_spec.Base.{ℕ, zero, suc, ◌+◌, ◌*◌, ◌/◌, ◌%◌, ◌^◌, ◌<◌, ◌≡◌, refl, arith}
use tos_spec.Base.{String, List, [], ◌∷◌, ◌++◌, Option, some, none}
use tos_spec.Base.{
  length, replicate, take, drop, All, All-append, length-append, if◌then◌else◌, ltb,
}
use tos_spec.Base.{take-append_length, drop-append_length}

abbrev pub IsByte : ℕ → Type 0
IsByte b = b < 256

abbrev pub AreBytes : List ℕ → Type 0
AreBytes = All IsByte

-- `start`, `start + 1`, ... as bytes.
abbrev pub sequence : ℕ → ℕ → List ℕ
sequence zero start = []
sequence (suc n) start = start % 256 ∷ sequence n (start + 1)

pub sequence-AreBytes : (n start : ℕ) → AreBytes (sequence n start)
sequence-AreBytes zero start = tt
sequence-AreBytes (suc n) start = (omega arith, sequence-AreBytes n (start + 1))

-- The bytes of an ASCII text.
abbrev pub codes : String → List ℕ
codes String.[] = []
codes (String.◌∷◌ c s) = code c ∷ codes s

-- `v.to_be_bytes()` of an unsigned integer of `k` bytes.
unfoldable pub to_be_bytes : ℕ → ℕ → List ℕ
to_be_bytes zero v = []
to_be_bytes (suc k) v = to_be_bytes k (v / 256) ++ (v % 256 ∷ [])

-- `v.to_le_bytes()` of an unsigned integer of `k` bytes.
unfoldable pub to_le_bytes : ℕ → ℕ → List ℕ
to_le_bytes zero v = []
to_le_bytes (suc k) v = v % 256 ∷ to_le_bytes k (v / 256)

-- The number that bytes in big-endian order stand for, with those already read in `acc`.
unfoldable pub be_value : ℕ → List ℕ → ℕ
be_value acc [] = acc
be_value acc (b ∷ bs) = be_value (acc * 256 + b) bs

unfoldable pub le_value : List ℕ → ℕ
le_value [] = 0
le_value (b ∷ bs) = b + 256 * le_value bs

pub be_value-append_one :
    (acc : ℕ) (bs : List ℕ) (b : ℕ) → be_value acc (bs ++ (b ∷ [])) ≡ be_value acc bs * 256 + b
unfolding be_value
be_value-append_one acc [] b = refl
be_value-append_one acc (x ∷ bs) b = be_value-append_one (acc * 256 + x) bs b

pub be_value-to_be_bytes : (k v : ℕ) → v < 256 ^ k → be_value 0 (to_be_bytes k v) ≡ v
unfolding be_value to_be_bytes
be_value-to_be_bytes zero v h = omega arith
be_value-to_be_bytes (suc k) v h = omega (
  arith,
  be_value-append_one 0 (to_be_bytes k (v / 256)) (v % 256),
  be_value-to_be_bytes k (v / 256) (omega (arith, pow-suc 256 k)),
)

pub length-to_be_bytes : (k v : ℕ) → length (to_be_bytes k v) ≡ k
unfolding to_be_bytes
length-to_be_bytes zero v = refl
length-to_be_bytes (suc k) v =
    omega (
      arith,
      length-append (to_be_bytes k (v / 256)) (v % 256 ∷ []),
      length-to_be_bytes k (v / 256),
    )

pub to_be_bytes-AreBytes : (k v : ℕ) → AreBytes (to_be_bytes k v)
unfolding to_be_bytes
to_be_bytes-AreBytes zero v = tt
to_be_bytes-AreBytes (suc k) v =
    All-append IsByte (to_be_bytes k (v / 256)) (v % 256 ∷ []) (to_be_bytes-AreBytes k (v / 256))
      (omega arith)

pub le_value-lt : (bs : List ℕ) → AreBytes bs → le_value bs < 256 ^ length bs
unfolding le_value
le_value-lt [] h = omega arith
le_value-lt (b ∷ bs) h = omega (arith, pow-suc 256 (length bs), le_value-lt bs h.1, h.0)

-- The first `k` bytes and the rest; `none` where there are fewer.
unfoldable pub split_at? : ℕ → List ℕ → Option (List ℕ × List ℕ)
split_at? k bs = if ltb (length bs) k then none else some (take k bs, drop k bs)

pub split_at?-append :
    (k : ℕ) (xs ys : List ℕ) → length xs ≡ k → split_at? k (xs ++ ys) ≡ some (xs, ys)
unfolding split_at?
split_at?-append k xs ys h =
    ground (arith, length-append xs ys, take-append_length k xs ys h, drop-append_length k xs ys h)

-- A number of `k` bytes in big-endian order, and the rest.
unfoldable pub read_be? : ℕ → List ℕ → Option (ℕ × List ℕ)
read_be? k bs = do (front, rest) ← split_at? k bs; some (be_value 0 front, rest)

pub read_be?-append :
    (k v : ℕ) (ys : List ℕ) → v < 256 ^ k → read_be? k (to_be_bytes k v ++ ys) ≡ some (v, ys)
unfolding read_be?
read_be?-append k v ys h =
    rw
      (split_at?-append k (to_be_bytes k v) ys (length-to_be_bytes k v), be_value-to_be_bytes k v h)

pub le_value-append :
    (xs ys : List ℕ) → le_value (xs ++ ys) ≡ le_value xs + 256 ^ length xs * le_value ys
unfolding le_value
le_value-append [] ys = omega arith
le_value-append (x ∷ xs) ys =
    let place : 256 ^ suc (length xs) * le_value ys ≡ 256 * (256 ^ length xs * le_value ys) =
      rw (pow-suc 256 (length xs), mul_comm (256 ^ length xs) 256)
        (mul_assoc 256 (256 ^ length xs) (le_value ys)) in
    omega (arith, le_value-append xs ys, place)

pub le_value-replicate : (n : ℕ) → le_value (replicate n 0) ≡ 0
unfolding le_value
le_value-replicate zero = refl
le_value-replicate (suc n) = omega (arith, le_value-replicate n)

pub le_value-to_le_bytes : (k v : ℕ) → v < 256 ^ k → le_value (to_le_bytes k v) ≡ v
unfolding le_value to_le_bytes
le_value-to_le_bytes zero v h = omega arith
le_value-to_le_bytes (suc k) v h =
    omega (arith, le_value-to_le_bytes k (v / 256) (omega (arith, pow-suc 256 k)))

pub to_le_bytes-AreBytes : (k v : ℕ) → AreBytes (to_le_bytes k v)
unfolding to_le_bytes
to_le_bytes-AreBytes zero v = tt
to_le_bytes-AreBytes (suc k) v = (omega arith, to_le_bytes-AreBytes k (v / 256))
