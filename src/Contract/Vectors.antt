-- ===== src/Contract/Vectors.antt =====
-- gen_contract_vectors.rs: the vectors that `main` makes. Names are strings; texts in hexadecimal
-- are lists of codes.
use tos_spec.Base.{
  ℕ, List, [], ◌∷◌, ◌++◌, Bool, true, false, String, Option, none, some, length, replicate,
}
use tos_spec.Base.Bytes.{codes}
use tos_spec.Crypto.{Hex}
use tos_spec.Contract.{Kernel, InvokeContractPayload, DeployContractPayload, Serializer}
use tos_spec.Contract.Elf.{make_minimal_elf}

pub record InvokeContractVector : Type 0 where
  pub name : String
  pub description : String
  pub contract_hex : List ℕ
  pub deposits_count : ℕ
  pub entry_id : ℕ
  pub max_gas : ℕ
  pub parameters_count : ℕ
  pub wire_hex : List ℕ
  pub expected_size : ℕ

pub record DeployContractVector : Type 0 where
  pub name : String
  pub description : String
  pub module_len : ℕ
  pub has_invoke : Bool
  pub invoke_max_gas : Option ℕ
  pub invoke_deposits_count : Option ℕ
  pub wire_hex : List ℕ
  pub expected_size : ℕ

pub record ContractVectors : Type 0 where
  pub description : String
  pub invoke_contract_vectors : List InvokeContractVector
  pub deploy_contract_vectors : List DeployContractVector

module _ (k : Kernel) where
  unfoldable pub hash_from_bytes : List ℕ → k.Hash
  hash_from_bytes bytes = k.hash_new bytes

  -- `Deposits::new()` with deposits inserted in order, each a filled asset and its amount.
  abbrev pub deposits_of : k.Deposits → List (ℕ × ℕ) → k.Deposits
  deposits_of d [] = d
  deposits_of d (e ∷ es) =
      deposits_of (k.deposits_insert d (hash_from_bytes (replicate 32 e.0)) (k.deposit_new e.1)) es

module _ (k : Kernel) (s : Serializer k) (hex : Hex) where
  -- One block for an invocation, with the counts that it writes down. The payload and the vector
  -- have the same entry and gas.
  unfoldable pub invoke_vector :
      String → String → ℕ → List (ℕ × ℕ) → ℕ → ℕ → ℕ → List k.ValueCell → ℕ → InvokeContractVector
  invoke_vector name description fill inserted deposits_count entry_id max_gas parameters
        parameters_count =
      let contract = hash_from_bytes k (replicate 32 fill) in
      let payload : InvokeContractPayload k = record {
        contract = contract;
        deposits = deposits_of k k.deposits_new inserted;
        entry_id = entry_id;
        max_gas = max_gas;
        parameters = parameters;
      } in
      let wire = s.invoke_to_bytes payload in
      record {
        name = name;
        description = description;
        contract_hex = hex.encode (k.hash_bytes contract);
        deposits_count = deposits_count;
        entry_id = entry_id;
        max_gas = max_gas;
        parameters_count = parameters_count;
        wire_hex = hex.encode wire;
        expected_size = length wire;
      }

  -- The block of the first deployment, without a constructor.
  unfoldable pub deploy_without_invoke : String → String → ℕ → DeployContractVector
  deploy_without_invoke name description extra_size =
      let bytecode = make_minimal_elf extra_size in
      let payload : DeployContractPayload k = record {
        module_code = k.from_bytecode bytecode;
        invoke = none;
      } in
      let wire = s.deploy_to_bytes payload in
      record {
        name = name;
        description = description;
        module_len = length bytecode;
        has_invoke = false;
        invoke_max_gas = none;
        invoke_deposits_count = none;
        wire_hex = hex.encode wire;
        expected_size = length wire;
      }

  -- One block for a deployment with a constructor, with the count that it writes down.
  unfoldable pub deploy_with_invoke :
      String → String → ℕ → ℕ → List (ℕ × ℕ) → ℕ → DeployContractVector
  deploy_with_invoke name description extra_size max_gas inserted deposits_count =
      let bytecode = make_minimal_elf extra_size in
      let payload : DeployContractPayload k = record {
        module_code = k.from_bytecode bytecode;
        invoke =
            some record { max_gas = max_gas; deposits = deposits_of k k.deposits_new inserted };
      } in
      let wire = s.deploy_to_bytes payload in
      record {
        name = name;
        description = description;
        module_len = length bytecode;
        has_invoke = true;
        invoke_max_gas = some max_gas;
        invoke_deposits_count = some deposits_count;
        wire_hex = hex.encode wire;
        expected_size = length wire;
      }

  -- Vectors 1 to 4.
  unfoldable pub first_invoke_vectors : List InvokeContractVector
  first_invoke_vectors =
      invoke_vector "minimal_invoke" "Minimal invoke with no deposits and no parameters" 0x11 [] 0 0
        1000000 [] 0
      ∷ invoke_vector "invoke_with_deposit" "Invoke with single asset deposit" 0x22
          ((0xaa, 5000000000) ∷ []) 1 1 2000000 [] 0
      ∷ invoke_vector "invoke_multi_deposit" "Invoke with multiple asset deposits" 0x33
          ((0xa1, 1000000000) ∷ (0xa2, 2000000000) ∷ []) 2 100 5000000 [] 0
      ∷ invoke_vector "invoke_with_primitives" "Invoke with primitive parameters (U64, Boolean, U8)"
          0x44 [] 0 5 3000000
          (k.default (k.u64 12345678) ∷ k.default (k.boolean true) ∷ k.default (k.u8 42) ∷ []) 3
      ∷ []

  -- Vectors 5 to 8.
  unfoldable pub last_invoke_vectors : List InvokeContractVector
  last_invoke_vectors =
      invoke_vector "invoke_with_string" "Invoke with string parameter" 0x55 [] 0 10 1500000
        (k.default (k.string (codes "Hello, Contract!")) ∷ []) 1
      ∷ invoke_vector "invoke_with_bytes" "Invoke with Bytes parameter" 0x66 [] 0 20 1000000
          (k.bytes (0xde ∷ 0xad ∷ 0xbe ∷ 0xef ∷ []) ∷ []) 1
      ∷ invoke_vector "invoke_with_object" "Invoke with Object parameter (array of U32)" 0x77 [] 0
          30 2000000
          (k.object (k.default (k.u32 100) ∷ k.default (k.u32 200) ∷ k.default (k.u32 300) ∷ [])
            ∷ [])
          1
      ∷ invoke_vector "invoke_complex" "Complex invoke with deposit and multiple parameters" 0x88
          ((0xbb, 10000000000) ∷ []) 1 50 10000000
          (k.default (k.u64 999)
            ∷ k.default (k.string (codes "transfer"))
            ∷ k.bytes (0x01 ∷ 0x02 ∷ 0x03 ∷ 0x04 ∷ 0x05 ∷ [])
            ∷ [])
          3
      ∷ []

  unfoldable pub deploy_vectors : List DeployContractVector
  deploy_vectors =
      deploy_without_invoke "deploy_no_invoke" "Deploy contract without constructor invocation" 16
      ∷ deploy_with_invoke "deploy_with_invoke" "Deploy contract with constructor (no deposits)" 32
          5000000 [] 0
      ∷ deploy_with_invoke "deploy_with_deposit"
          "Deploy contract with constructor and initial deposit" 48 20000000
          ((0xcc, 50000000000) ∷ []) 1
      ∷ deploy_with_invoke "deploy_larger_module" "Deploy contract with larger bytecode module" 256
          100000000 [] 0
      ∷ deploy_with_invoke "deploy_multi_deposit" "Deploy contract with multiple initial deposits"
          64 30000000 ((0xd1, 10000000000) ∷ (0xd2, 20000000000) ∷ []) 2
      ∷ []

  -- `main` up to the writing of the file.
  unfoldable pub contract_vectors : ContractVectors
  contract_vectors = record {
    description = "TCK test vectors for InvokeContract (Type 3) and DeployContract (Type 4)";
    invoke_contract_vectors = first_invoke_vectors ++ last_invoke_vectors;
    deploy_contract_vectors = deploy_vectors;
  }
