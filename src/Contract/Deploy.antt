-- ===== src/Contract/Deploy.antt =====
-- The deployment vectors of gen_contract_vectors.rs against the reader of the wire format, and the
-- file.
use tos_spec.Base.{
  ℕ, ◌^◌, ◌<◌, ◌≡◌, refl, ap, sym, ◌∙◌, arith, List, [], ◌∷◌, ◌++◌, map, length-map, String,
}
use tos_spec.Base.{Option, none, some, Bool, true, false, length, take, All, All-append, append-nil}
use tos_spec.Base.Bytes.{to_be_bytes, split_at?-append, read_be?, read_be?-append}
use tos_spec.Crypto.{Hex, HexLaws}
use tos_spec.Contract.{Kernel, DeployContractPayload, Serializer, Parts, WireLaws, deposits_bytes}
use tos_spec.Contract.Elf.{make_minimal_elf, make_minimal_elf_lem}
use tos_spec.Contract.Vectors.{
  DeployContractVector, deposits_of, deploy_without_invoke, deploy_with_invoke,
  first_invoke_vectors, last_invoke_vectors, deploy_vectors, contract_vectors,
}
use tos_spec.Contract.Wire.{
  AreAssets, read_deploy, read_deposits, read_deposits-deposits_bytes, filled_entry, Inserted,
  nothing, one, two, entries-deposits_of, filled-AreAssets,
}
use tos_spec.Contract.Invoke.{InvokeAgrees, invoke_vectors-InvokeAgrees}

-- What a vector says of the constructor: gas and number of deposits, or that there is none.
pub data SaysInvoke : Bool → Option ℕ → Option ℕ → Option (ℕ × ℕ) → Type 0 where
  without : SaysInvoke false none none none
  with_invoke :
      {max_gas count : ℕ} → SaysInvoke true (some max_gas) (some count) (some (max_gas, count))

-- The vector shows a wire of the size that it gives, which is read as code of the length that it
-- gives, with the magic number of ELF, and as the constructor of which the vector speaks.
pub record DeployAgrees (hex : Hex) (v : DeployContractVector) : Type 0 where
  pub wire : List ℕ
  pub code : List ℕ
  pub invoke : Option (ℕ × ℕ)
  pub wire_shown : hex.decode v.wire_hex ≡ some wire
  pub wire_size : v.expected_size ≡ length wire
  pub wire_read : read_deploy wire ≡ some (code, invoke)
  pub code_size : v.module_len ≡ length code
  pub code_magic : take 4 code ≡ 0x7f ∷ b'E' ∷ b'L' ∷ b'F' ∷ []
  pub invoke_said : SaysInvoke v.has_invoke v.invoke_max_gas v.invoke_deposits_count invoke

tag_bytes : (tag : ℕ) (rest : List ℕ) → tag < 256 → tag ∷ rest ≡ to_be_bytes 1 tag ++ rest
unfolding to_be_bytes
tag_bytes tag rest h = ap (λ (b : ℕ). b ∷ rest) (omega arith)

read_tag : (tag : ℕ) (rest : List ℕ) → tag < 256 → read_be? 1 (tag ∷ rest) ≡ some (tag, rest)
read_tag tag rest h =
    ap (read_be? 1) (tag_bytes tag rest h) ∙ read_be?-append 1 tag rest (omega arith)

read_deploy-without :
    (code : List ℕ)
    → length code < 2 ^ 32
    → read_deploy (to_be_bytes 4 (length code) ++ (code ++ (0 ∷ []))) ≡ some (code, none)
read_deploy-without code small = rw (
  read_be?-append 4 (length code) (code ++ (0 ∷ [])) (omega arith),
  split_at?-append (length code) code (0 ∷ []) refl,
  read_tag 0 [] (omega arith),
)

read_deploy-with_invoke :
    (code : List ℕ) (max_gas : ℕ) (es : List (List ℕ × ℕ))
    → length code < 2 ^ 32
    → max_gas < 2 ^ 64
    → AreAssets es
    → length es < 256
    → read_deploy
        (to_be_bytes 4 (length code) ++ (code ++ (1 ∷ to_be_bytes 8 max_gas ++ deposits_bytes es)))
      ≡ some (code, some (max_gas, length es))
read_deploy-with_invoke code max_gas es small hg assets few =
    let last : List ℕ = to_be_bytes 8 max_gas ++ deposits_bytes es in
    let deposits : read_deposits (deposits_bytes es) ≡ some (length es, []) =
      ap read_deposits (sym (append-nil (deposits_bytes es)))
      ∙ read_deposits-deposits_bytes es [] assets few in
    rw (
      read_be?-append 4 (length code) (code ++ (1 ∷ last)) (omega arith),
      split_at?-append (length code) code (1 ∷ last) refl,
      read_tag 1 last (omega arith),
      read_be?-append 8 max_gas (deposits_bytes es) (omega arith),
      deposits,
    )

module _ (k : Kernel) (s : Serializer k) (p : Parts k) (laws : WireLaws k s p) (hex : Hex)
    (hex_laws : HexLaws hex) where
  deploy_without_invoke-DeployAgrees :
      (name description : String) (n : ℕ)
      → n < 2 ^ 16
      → DeployAgrees hex (deploy_without_invoke k s hex name description n)
  unfolding deploy_without_invoke
  deploy_without_invoke-DeployAgrees name description n small =
      let code : List ℕ = make_minimal_elf n in
      let (magic, size, code_bytes) = make_minimal_elf_lem n in
      let payload : DeployContractPayload k = record {
        module_code = k.from_bytecode code;
        invoke = none;
      } in
      record {
        wire = s.deploy_to_bytes payload;
        code = code;
        invoke = none;
        wire_shown = hex_laws.decode-encode _ (laws.deploy_to_bytes-AreBytes payload);
        wire_size = refl;
        wire_read =
            ap read_deploy
              (laws.deploy_wire payload ∙ rw (laws.bytecode-from_bytecode code code_bytes))
            ∙ read_deploy-without code (omega arith);
        code_size = refl;
        code_magic = magic;
        invoke_said = without;
      }

  deploy_with_invoke-DeployAgrees :
      (name description : String) (n max_gas : ℕ) (es : List (ℕ × ℕ))
      → n < 2 ^ 16
      → max_gas < 2 ^ 64
      → Inserted k s p laws es
      → length es < 256
      → DeployAgrees hex (deploy_with_invoke k s hex name description n max_gas es (length es))
  unfolding deploy_with_invoke
  deploy_with_invoke-DeployAgrees name description n max_gas es small hg he few =
      let code : List ℕ = make_minimal_elf n in
      let (magic, size, code_bytes) = make_minimal_elf_lem n in
      let entries : List (List ℕ × ℕ) = map (filled_entry k s p laws) es in
      let count : length entries ≡ length es = length-map es (filled_entry k s p laws) in
      let payload : DeployContractPayload k = record {
        module_code = k.from_bytecode code;
        invoke = some record { max_gas = max_gas; deposits = deposits_of k k.deposits_new es };
      } in
      record {
        wire = s.deploy_to_bytes payload;
        code = code;
        invoke = some (max_gas, length es);
        wire_shown = hex_laws.decode-encode _ (laws.deploy_to_bytes-AreBytes payload);
        wire_size = refl;
        wire_read =
            ap read_deploy (
              laws.deploy_wire payload
              ∙ rw (
                laws.bytecode-from_bytecode code code_bytes,
                entries-deposits_of k s p laws es he,
              ))
            ∙ read_deploy-with_invoke code max_gas entries (omega arith) hg
                (filled-AreAssets k s p laws es) (omega arith)
            ∙ rw count;
        code_size = refl;
        code_magic = magic;
        invoke_said = with_invoke;
      }

  deploy_vectors-DeployAgrees : All (DeployAgrees hex) (deploy_vectors k s hex)
  unfolding deploy_vectors
  deploy_vectors-DeployAgrees =
      let agrees = deploy_with_invoke-DeployAgrees in
      (
        deploy_without_invoke-DeployAgrees "deploy_no_invoke"
            "Deploy contract without constructor invocation" 16 (omega arith),
        (
          agrees "deploy_with_invoke" "Deploy contract with constructor (no deposits)" 32 5000000 []
              (omega arith) (omega arith) nothing (omega arith),
          (
            agrees "deploy_with_deposit" "Deploy contract with constructor and initial deposit" 48
                20000000 ((0xcc, 50000000000) ∷ []) (omega arith) (omega arith) (one (omega arith))
                (omega arith),
            (
              agrees "deploy_larger_module" "Deploy contract with larger bytecode module" 256
                  100000000 [] (omega arith) (omega arith) nothing (omega arith),
              (
                agrees "deploy_multi_deposit" "Deploy contract with multiple initial deposits" 64
                    30000000 ((0xd1, 10000000000) ∷ (0xd2, 20000000000) ∷ []) (omega arith)
                    (omega arith) (two (omega arith) (omega arith) (omega arith)) (omega arith),
                tt,
              ),
            ),
          ),
        ),
      )

  -- With the laws of `HexLaws`, and where the payloads are serialised as the comment of the source
  -- says (`WireLaws`), each vector shows a wire of the size that it gives. An invocation is read as
  -- the contract, the number of deposits, the entry, the gas and the number of parameters of its
  -- vector; a deployment as code of the given length that begins with the magic number of ELF, and as
  -- the constructor, with its gas and number of deposits, of which the vector speaks.
  pub contract_vectors-Agrees :
      let file = contract_vectors k s hex in
      All (InvokeAgrees hex) file.invoke_contract_vectors
      × All (DeployAgrees hex) file.deploy_contract_vectors
  unfolding contract_vectors
  contract_vectors-Agrees =
      let (first, last) = invoke_vectors-InvokeAgrees k s p laws hex hex_laws in
      (
        All-append (InvokeAgrees hex) (first_invoke_vectors k s hex) (last_invoke_vectors k s hex)
            first last,
        deploy_vectors-DeployAgrees,
      )
