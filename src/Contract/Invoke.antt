-- ===== src/Contract/Invoke.antt =====
-- The invocation vectors of gen_contract_vectors.rs against the reader of the wire format.
use tos_spec.Base.{
  ℕ, ◌^◌, ◌<◌, ◌≡◌, refl, ap, ◌∙◌, arith, List, [], ◌∷◌, ◌++◌, map, length-map, String,
}
use tos_spec.Base.{some, true, length, flatten, All, replicate}
use tos_spec.Base.Bytes.{codes, to_be_bytes, split_at?-append, read_be?-append}
use tos_spec.Crypto.{Hex, HexLaws}
use tos_spec.Contract.{Kernel, InvokeContractPayload, Serializer, Parts, WireLaws, deposits_bytes}
use tos_spec.Contract.Vectors.{
  InvokeContractVector, hash_from_bytes, deposits_of, invoke_vector, first_invoke_vectors,
  last_invoke_vectors,
}
use tos_spec.Contract.Wire.{
  AreAssets, read_invoke, read_deposits-deposits_bytes, filled_entry, Inserted, nothing, one, two,
  entries-deposits_of, filled-AreAssets,
}

-- The vector shows a wire of the size that it gives, which is read as the contract shown, and the
-- numbers that the vector gives of deposits and parameters, its entry and its gas.
pub record InvokeAgrees (hex : Hex) (v : InvokeContractVector) : Type 0 where
  pub wire : List ℕ
  pub contract : List ℕ
  pub wire_shown : hex.decode v.wire_hex ≡ some wire
  pub wire_size : v.expected_size ≡ length wire
  pub contract_shown : hex.decode v.contract_hex ≡ some contract
  pub wire_read :
      read_invoke wire
      ≡ some record {
        contract = contract;
        deposits = v.deposits_count;
        entry_id = v.entry_id;
        max_gas = v.max_gas;
        parameters = v.parameters_count;
      }

read_invoke-wire :
    (contract : List ℕ) (es : List (List ℕ × ℕ)) (entry_id max_gas n : ℕ) (cells : List ℕ)
    → length contract ≡ 32
    → AreAssets es
    → length es < 256
    → entry_id < 2 ^ 16
    → max_gas < 2 ^ 64
    → n < 256
    → read_invoke (
        contract
        ++ (deposits_bytes es
            ++ (to_be_bytes 2 entry_id ++ (to_be_bytes 8 max_gas ++ (to_be_bytes 1 n ++ cells)))))
      ≡ some record {
        contract = contract;
        deposits = length es;
        entry_id = entry_id;
        max_gas = max_gas;
        parameters = n;
      }
read_invoke-wire contract es entry_id max_gas n cells size assets few hi hg hn =
    let last : List ℕ = to_be_bytes 1 n ++ cells in
    let third : List ℕ = to_be_bytes 8 max_gas ++ last in
    let second : List ℕ = to_be_bytes 2 entry_id ++ third in
    rw (
      split_at?-append 32 contract (deposits_bytes es ++ second) size,
      read_deposits-deposits_bytes es second assets few,
      read_be?-append 2 entry_id third (omega arith),
      read_be?-append 8 max_gas last (omega arith),
      read_be?-append 1 n cells (omega arith),
    )

module _ (k : Kernel) (s : Serializer k) (p : Parts k) (laws : WireLaws k s p) (hex : Hex)
    (hex_laws : HexLaws hex) where
  invoke_vector-InvokeAgrees :
      (name description : String) (fill : ℕ) (es : List (ℕ × ℕ))
      (deposits_count entry_id max_gas : ℕ) (parameters : List k.ValueCell) (parameters_count : ℕ)
      → fill < 256
      → Inserted k s p laws es
      → deposits_count ≡ length es
      → deposits_count < 256
      → entry_id < 2 ^ 16
      → max_gas < 2 ^ 64
      → parameters_count ≡ length parameters
      → parameters_count < 256
      → InvokeAgrees hex (
          invoke_vector k s hex name description fill es deposits_count entry_id max_gas parameters
            parameters_count)
  unfolding invoke_vector hash_from_bytes
  invoke_vector-InvokeAgrees name description fill es deposits_count entry_id max_gas parameters
        parameters_count hf he same small hi hg same_parameters few =
      let payload : InvokeContractPayload k = record {
        contract = hash_from_bytes k (replicate 32 fill);
        deposits = deposits_of k k.deposits_new es;
        entry_id = entry_id;
        max_gas = max_gas;
        parameters = parameters;
      } in
      let contract : List ℕ = replicate 32 fill in
      let kept = laws.hash_bytes-hash_new contract (omega arith) refl in
      let entries = entries-deposits_of k s p laws es he in
      let count : length (map (filled_entry k s p laws) es) ≡ deposits_count =
        omega (arith, length-map es (filled_entry k s p laws)) in
      let cells : List ℕ = flatten (map p.cell_bytes parameters) in
      let read =
        read_invoke-wire contract (map (filled_entry k s p laws) es) entry_id max_gas
          (length parameters) cells refl (filled-AreAssets k s p laws es) (omega arith) hi hg
          (omega arith) in
      record {
        wire = s.invoke_to_bytes payload;
        contract = contract;
        wire_shown = hex_laws.decode-encode _ (laws.invoke_to_bytes-AreBytes payload);
        wire_size = refl;
        contract_shown = rw kept (hex_laws.decode-encode contract (omega arith));
        wire_read =
            ap read_invoke (laws.invoke_wire payload ∙ rw (kept, entries))
            ∙ read
            ∙ rw (count, same_parameters);
      }

  -- The two halves of the invocation vectors.
  pub invoke_vectors-InvokeAgrees :
      All (InvokeAgrees hex) (first_invoke_vectors k s hex)
      × All (InvokeAgrees hex) (last_invoke_vectors k s hex)
  unfolding first_invoke_vectors last_invoke_vectors
  invoke_vectors-InvokeAgrees =
      let agrees =
        λ (name description : String) (fill : ℕ) (es : List (ℕ × ℕ)) (entry_id max_gas : ℕ)
            (parameters : List k.ValueCell) (he : Inserted k s p laws es)
            (small : (fill < 256) × (length es < 256) × (entry_id < 2 ^ 16) × (max_gas < 2 ^ 64))
            (few : length parameters < 256).
          invoke_vector-InvokeAgrees name description fill es (length es) entry_id max_gas
            parameters (length parameters) small.0 he refl small.1 small.2 small.3 refl few in
      (
        (
          agrees "minimal_invoke" "Minimal invoke with no deposits and no parameters" 0x11 [] 0
              1000000 [] nothing (omega arith) (omega arith),
          (
            agrees "invoke_with_deposit" "Invoke with single asset deposit" 0x22
                ((0xaa, 5000000000) ∷ []) 1 2000000 [] (one (omega arith)) (omega arith)
                (omega arith),
            (
              agrees "invoke_multi_deposit" "Invoke with multiple asset deposits" 0x33
                  ((0xa1, 1000000000) ∷ (0xa2, 2000000000) ∷ []) 100 5000000 []
                  (two (omega arith) (omega arith) (omega arith)) (omega arith) (omega arith),
              (
                agrees "invoke_with_primitives"
                    "Invoke with primitive parameters (U64, Boolean, U8)" 0x44 [] 5 3000000
                    (k.default (k.u64 12345678)
                      ∷ k.default (k.boolean true)
                      ∷ k.default (k.u8 42)
                      ∷ [])
                    nothing (omega arith) (omega arith),
                tt,
              ),
            ),
          ),
        ),
        (
          agrees "invoke_with_string" "Invoke with string parameter" 0x55 [] 10 1500000
              (k.default (k.string (codes "Hello, Contract!")) ∷ []) nothing (omega arith)
              (omega arith),
          (
            agrees "invoke_with_bytes" "Invoke with Bytes parameter" 0x66 [] 20 1000000
                (k.bytes (0xde ∷ 0xad ∷ 0xbe ∷ 0xef ∷ []) ∷ []) nothing (omega arith) (omega arith),
            (
              agrees "invoke_with_object" "Invoke with Object parameter (array of U32)" 0x77 [] 30
                  2000000
                  (k.object
                      (k.default (k.u32 100) ∷ k.default (k.u32 200) ∷ k.default (k.u32 300) ∷ [])
                    ∷ [])
                  nothing (omega arith) (omega arith),
              (
                agrees "invoke_complex" "Complex invoke with deposit and multiple parameters" 0x88
                    ((0xbb, 10000000000) ∷ []) 50 10000000
                    (k.default (k.u64 999)
                      ∷ k.default (k.string (codes "transfer"))
                      ∷ k.bytes (0x01 ∷ 0x02 ∷ 0x03 ∷ 0x04 ∷ 0x05 ∷ [])
                      ∷ [])
                    (one (omega arith)) (omega arith) (omega arith),
                tt,
              ),
            ),
          ),
        ),
      )
