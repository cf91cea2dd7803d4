-- ===== src/Contract.antt =====
-- rust_generators/crypto/gen_contract_vectors.rs: the vectors that `main` makes of payloads for the
-- invocation and the deployment of contracts. The payloads' serialisation, deposits, hashes and
-- modules of `tos_common` and `tos_kernel` are parameters.
pub mod Elf
pub mod Vectors
pub mod Wire
pub mod Invoke
pub mod Deploy
use tos_spec.Base.{
  ℕ, ◌≡◌, ◌≢◌, ◌<◌, ◌^◌, List, [], ◌∷◌, ◌++◌, map, Option, none, some, Bool, length, All,
}
use tos_spec.Base.{flatten}
use tos_spec.Base.Bytes.{AreBytes, to_be_bytes}

-- `Hash`, `Deposits` with `ContractDeposit`, `ValueCell` with `Primitive`, and `Module`.
pub record Kernel : Type 1 where
  pub Hash : Type 0
  pub hash_new : List ℕ → Hash
  pub hash_bytes : Hash → List ℕ
  pub ContractDeposit : Type 0
  pub deposit_new : ℕ → ContractDeposit
  pub Deposits : Type 0
  pub deposits_new : Deposits
  pub deposits_insert : Deposits → Hash → ContractDeposit → Deposits
  pub Primitive : Type 0
  pub u8 : ℕ → Primitive
  pub u32 : ℕ → Primitive
  pub u64 : ℕ → Primitive
  pub boolean : Bool → Primitive
  pub string : List ℕ → Primitive
  pub ValueCell : Type 0
  pub default : Primitive → ValueCell
  pub bytes : List ℕ → ValueCell
  pub object : List ValueCell → ValueCell
  pub Module : Type 0
  pub from_bytecode : List ℕ → Module

pub record InvokeContractPayload (k : Kernel) : Type 0 where
  pub contract : k.Hash
  pub deposits : k.Deposits
  pub entry_id : ℕ
  pub max_gas : ℕ
  pub parameters : List k.ValueCell

pub record InvokeConstructorPayload (k : Kernel) : Type 0 where
  pub max_gas : ℕ
  pub deposits : k.Deposits

pub record DeployContractPayload (k : Kernel) : Type 0 where
  pub module_code : k.Module
  pub invoke : Option (InvokeConstructorPayload k)

-- `to_bytes` of the two payloads.
pub record Serializer (k : Kernel) : Type 0 where
  pub invoke_to_bytes : InvokeContractPayload k → List ℕ
  pub deploy_to_bytes : DeployContractPayload k → List ℕ

-- The parts of the wire format: the assets and amounts of deposits, a value cell, the code of a
-- module.
pub record Parts (k : Kernel) : Type 0 where
  pub entries : k.Deposits → List (List ℕ × ℕ)
  pub cell_bytes : k.ValueCell → List ℕ
  pub bytecode : k.Module → List ℕ

-- One deposit: the asset, the tag of a plain amount, and the amount.
abbrev pub entry_bytes : List ℕ × ℕ → List ℕ
entry_bytes e = e.0 ++ (0 ∷ to_be_bytes 8 e.1)

abbrev pub deposits_bytes : List (List ℕ × ℕ) → List ℕ
deposits_bytes es = to_be_bytes 1 (length es) ++ flatten (map entry_bytes es)

module _ (k : Kernel) (p : Parts k) where
  abbrev pub constructor_bytes : Option (InvokeConstructorPayload k) → List ℕ
  constructor_bytes none = 0 ∷ []
  constructor_bytes (some c) = 1 ∷ to_be_bytes 8 c.max_gas ++ deposits_bytes (p.entries c.deposits)

-- The wire format at the top of the file, and what the constructors keep.
pub record WireLaws (k : Kernel) (s : Serializer k) (p : Parts k) : Type 0 where
  pub invoke_wire :
      (x : InvokeContractPayload k)
      → s.invoke_to_bytes x
        ≡ k.hash_bytes x.contract
          ++ (deposits_bytes (p.entries x.deposits)
              ++ (to_be_bytes 2 x.entry_id
                  ++ (to_be_bytes 8 x.max_gas
                      ++ (to_be_bytes 1 (length x.parameters)
                          ++ flatten (map p.cell_bytes x.parameters)))))
  pub deploy_wire :
      (x : DeployContractPayload k)
      → s.deploy_to_bytes x
        ≡ to_be_bytes 4 (length (p.bytecode x.module_code))
          ++ (p.bytecode x.module_code ++ constructor_bytes k p x.invoke)
  pub invoke_to_bytes-AreBytes : (x : InvokeContractPayload k) → AreBytes (s.invoke_to_bytes x)
  pub deploy_to_bytes-AreBytes : (x : DeployContractPayload k) → AreBytes (s.deploy_to_bytes x)
  pub bytecode-from_bytecode :
      (code : List ℕ) → AreBytes code → p.bytecode (k.from_bytecode code) ≡ code
  pub hash_bytes-hash_new :
      (b : List ℕ) → AreBytes b → length b ≡ 32 → k.hash_bytes (k.hash_new b) ≡ b
  pub entries-deposits_new : p.entries k.deposits_new ≡ []
  -- Another asset than those before is added at the end.
  pub entries-deposits_insert :
      (d : k.Deposits) (asset : k.Hash) (amount : ℕ)
      → All (λ e. e.0 ≢ k.hash_bytes asset) (p.entries d)
      → p.entries (k.deposits_insert d asset (k.deposit_new amount))
        ≡ p.entries d ++ ((k.hash_bytes asset, amount) ∷ [])
