-- ===== src/Signer/Writer.antt =====
-- rust_py/tos_signer/src/lib.rs: `Writer`, a buffer that bytes are appended to. The capacity is
-- only a hint to the allocator.
use tos_spec.Base.{ℕ, ◌%◌, ◌^◌, ◌≡◌, Bool, true, false, Option, none, some, List, [], ◌∷◌, ◌++◌}
use tos_spec.Base.{refl, length, if◌then◌else◌, append_assoc}
use tos_spec.Base.Bytes.{to_be_bytes}

pub record Writer : Type 0 where
  pub buf : List ℕ

unfoldable pub with_capacity : ℕ → Writer
with_capacity cap = record { buf = [] }

unfoldable pub write_u8 : Writer → ℕ → Writer
write_u8 w v = record w { buf = w.buf ++ (v ∷ []) }

unfoldable pub write_u16 : Writer → ℕ → Writer
write_u16 w v = record w { buf = w.buf ++ to_be_bytes 2 v }

unfoldable pub write_u64 : Writer → ℕ → Writer
write_u64 w v = record w { buf = w.buf ++ to_be_bytes 8 v }

unfoldable pub write_bytes : Writer → List ℕ → Writer
write_bytes w b = record w { buf = w.buf ++ b }

unfoldable pub write_bool : Writer → Bool → Writer
write_bool w v = record w { buf = w.buf ++ ((if v then 1 else 0) ∷ []) }

-- `data.len() as u16` keeps the low 16 bits of the length.
unfoldable pub write_optional_vec_u8 : Writer → Option (List ℕ) → Writer
write_optional_vec_u8 w none = write_bool w false
write_optional_vec_u8 w (some bytes) =
    write_bytes (write_u16 (write_bool w true) (length bytes % 2 ^ 16)) bytes

unfoldable pub into_vec : Writer → List ℕ
into_vec w = w.buf

-- What `write_optional_vec_u8` appends.
unfoldable pub optional_vec_u8 : Option (List ℕ) → List ℕ
optional_vec_u8 none = 0 ∷ []
optional_vec_u8 (some bytes) = 1 ∷ (to_be_bytes 2 (length bytes % 2 ^ 16) ++ bytes)

pub buf-write_optional_vec_u8 :
    (w : Writer) (value : Option (List ℕ))
    → (write_optional_vec_u8 w value).buf ≡ w.buf ++ optional_vec_u8 value
unfolding write_optional_vec_u8 optional_vec_u8 write_bool write_u16 write_bytes
buf-write_optional_vec_u8 w none = refl
buf-write_optional_vec_u8 w (some bytes) = simp append_assoc
