-- ===== src/Discv6/Distance.antt =====
-- rust_generators/crypto/gen_discv6_vectors.rs: `xor_distance` and `log2_distance`. A node
-- identifier, `[u8; 32]`, is a list of 32 bytes.
pub mod Metric
pub mod Bucket
use tos_spec.Base.{ℕ, ◌+◌, ◌-◌, ◌*◌, ◌%◌, ◌^◌, bit_xor, List, [], ◌∷◌, Option, none, some}
use tos_spec.Base.{leb, ◌==◌, if◌then◌else◌}

-- The loop goes over both arrays at once.
unfoldable pub xor_distance : List ℕ → List ℕ → List ℕ
xor_distance [] b = []
xor_distance (x ∷ a) [] = []
xor_distance (x ∷ a) (y ∷ b) = bit_xor x y ∷ xor_distance a b

-- `u8::leading_zeros`
unfoldable pub leading_zeros : ℕ → ℕ
leading_zeros b =
    if leb 128 b
    then 0
    else if leb 64 b
    then 1
    else if leb 32 b
    then 2
    else if leb 16 b
    then 3
    else if leb 8 b
    then 4
    else if leb 4 b
    then 5
    else if leb 2 b
    then 6
    else if leb 1 b
    then 7
    else 8

-- `saturating_mul`, `saturating_add` of `usize`
abbrev usize_max : ℕ
usize_max = 2 ^ 64 - 1

unfoldable pub saturate : ℕ → ℕ
saturate n = if leb usize_max n then usize_max else n

-- The bucket of a distance whose first non-zero byte is `byte` at index `i`; the last subtraction
-- saturates at 0, as `-` does here.
unfoldable pub bucket_of_byte : ℕ → ℕ → ℕ
unfolding saturate
bucket_of_byte i byte =
    let bit_position = saturate (saturate (i * 8) + leading_zeros byte) in 255 - bit_position % 256

-- The loop from index `i` on.
unfoldable pub first_bucket : ℕ → List ℕ → Option ℕ
first_bucket i [] = none
first_bucket i (byte ∷ rest) =
    if byte == 0 then first_bucket (i + 1) rest else some (bucket_of_byte i byte)

unfoldable pub log2_distance : List ℕ → List ℕ → Option ℕ
log2_distance a b = first_bucket 0 (xor_distance a b)
