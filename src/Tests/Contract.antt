-- ===== src/Tests/Contract.antt =====
-- An example for the contracts: payloads written as the wire format says, with cells of one zero.
use tos_spec.Base.{ℕ, ◌%◌, ◌≡◌, refl, ap, ap₂, arith, List, [], ◌∷◌, ◌++◌, map, Option, none, some}
use tos_spec.Base.{length, All, All-append, flatten}
use tos_spec.Base.Bytes.{AreBytes, to_be_bytes, to_be_bytes-AreBytes}
use tos_spec.Contract.{
  Kernel, InvokeContractPayload, InvokeConstructorPayload, DeployContractPayload, Serializer, Parts,
  WireLaws, entry_bytes, deposits_bytes, constructor_bytes,
}
use tos_spec.Contract.Vectors.{contract_vectors}
use tos_spec.Contract.Invoke.{InvokeAgrees}
use tos_spec.Contract.Deploy.{DeployAgrees, contract_vectors-Agrees}
use tos_spec.Tests.WrittenHex.{written_hex, written_hex_laws}

abbrev low_bytes : List ℕ → List ℕ
low_bytes = map (λ b. b % 256)

low_bytes-AreBytes : (bs : List ℕ) → AreBytes (low_bytes bs)
low_bytes-AreBytes [] = tt
low_bytes-AreBytes (b ∷ bs) = (omega arith, low_bytes-AreBytes bs)

low_bytes_same : (bs : List ℕ) → AreBytes bs → low_bytes bs ≡ bs
low_bytes_same [] h = refl
low_bytes_same (b ∷ bs) h = ap₂ ◌∷◌ (omega (arith, h.0)) (low_bytes_same bs h.1)

abbrev toy_kernel : Kernel
toy_kernel = record {
  Hash = List ℕ;
  hash_new = λ b. b;
  hash_bytes = low_bytes;
  ContractDeposit = ℕ;
  deposit_new = λ amount. amount;
  Deposits = List (List ℕ × ℕ);
  deposits_new = [];
  deposits_insert = λ d asset amount. d ++ ((asset, amount) ∷ []);
  Primitive = Unit;
  u8 = λ _. tt;
  u32 = λ _. tt;
  u64 = λ _. tt;
  boolean = λ _. tt;
  string = λ _. tt;
  ValueCell = Unit;
  default = λ _. tt;
  bytes = λ _. tt;
  object = λ _. tt;
  Module = List ℕ;
  from_bytecode = λ code. code;
}

abbrev toy_entry : List ℕ × ℕ → List ℕ × ℕ
toy_entry e = (low_bytes e.0, e.1)

abbrev toy_parts : Parts toy_kernel
toy_parts = record { entries = map toy_entry; cell_bytes = λ _. 0 ∷ []; bytecode = low_bytes }

abbrev toy_serializer : Serializer toy_kernel
toy_serializer = record {
  invoke_to_bytes = λ x.
      low_bytes x.contract
      ++ (deposits_bytes (map toy_entry x.deposits)
          ++ (to_be_bytes 2 x.entry_id
              ++ (to_be_bytes 8 x.max_gas
                  ++ (to_be_bytes 1 (length x.parameters)
                      ++ flatten (map toy_parts.cell_bytes x.parameters)))));
  deploy_to_bytes = λ x.
      to_be_bytes 4 (length (low_bytes x.module_code))
      ++ (low_bytes x.module_code ++ constructor_bytes toy_kernel toy_parts x.invoke);
}

entries_append :
    (d : List (List ℕ × ℕ)) (e : List ℕ × ℕ)
    → map toy_entry (d ++ (e ∷ [])) ≡ map toy_entry d ++ (toy_entry e ∷ [])
entries_append [] e = refl
entries_append (x ∷ xs) e = ap (◌∷◌ (toy_entry x)) (entries_append xs e)

entry_bytes-AreBytes :
    (d : List (List ℕ × ℕ)) → AreBytes (flatten (map entry_bytes (map toy_entry d)))
entry_bytes-AreBytes [] = tt
entry_bytes-AreBytes (e ∷ es) =
    All-append _ (entry_bytes (toy_entry e)) _
      (All-append _ (low_bytes e.0) (0 ∷ to_be_bytes 8 e.1) (low_bytes-AreBytes e.0)
        (omega arith, to_be_bytes-AreBytes 8 e.1))
      (entry_bytes-AreBytes es)

deposits_bytes-AreBytes : (d : List (List ℕ × ℕ)) → AreBytes (deposits_bytes (map toy_entry d))
deposits_bytes-AreBytes d =
    All-append _ (to_be_bytes 1 (length (map toy_entry d))) _ (to_be_bytes-AreBytes 1 _)
      (entry_bytes-AreBytes d)

cells-AreBytes : (cells : List Unit) → AreBytes (flatten (map toy_parts.cell_bytes cells))
cells-AreBytes [] = tt
cells-AreBytes (c ∷ cs) = (omega arith, cells-AreBytes cs)

constructor-AreBytes :
    (c : Option (InvokeConstructorPayload toy_kernel))
    → AreBytes (constructor_bytes toy_kernel toy_parts c)
constructor-AreBytes none = omega arith
constructor-AreBytes (some c) = (
  omega arith,
  All-append _ (to_be_bytes 8 c.max_gas) _ (to_be_bytes-AreBytes 8 c.max_gas)
      (deposits_bytes-AreBytes c.deposits),
)

invoke-AreBytes :
    (x : InvokeContractPayload toy_kernel) → AreBytes (toy_serializer.invoke_to_bytes x)
invoke-AreBytes x = All-append _ (low_bytes x.contract) _ (low_bytes-AreBytes x.contract) (
    All-append _ (deposits_bytes (map toy_entry x.deposits)) _ (deposits_bytes-AreBytes x.deposits)
      (All-append _ (to_be_bytes 2 x.entry_id) _ (to_be_bytes-AreBytes 2 x.entry_id) (
        All-append _ (to_be_bytes 8 x.max_gas) _ (to_be_bytes-AreBytes 8 x.max_gas) (
          All-append _ (to_be_bytes 1 (length x.parameters)) _ (to_be_bytes-AreBytes 1 _)
            (cells-AreBytes x.parameters)))))

deploy-AreBytes :
    (x : DeployContractPayload toy_kernel) → AreBytes (toy_serializer.deploy_to_bytes x)
deploy-AreBytes x =
    All-append _ (to_be_bytes 4 (length (low_bytes x.module_code))) _ (to_be_bytes-AreBytes 4 _) (
      All-append _ (low_bytes x.module_code) _ (low_bytes-AreBytes x.module_code)
        (constructor-AreBytes x.invoke))

toy_format : WireLaws toy_kernel toy_serializer toy_parts
toy_format = record {
  invoke_wire = λ x. refl;
  deploy_wire = λ x. refl;
  invoke_to_bytes-AreBytes = invoke-AreBytes;
  deploy_to_bytes-AreBytes = deploy-AreBytes;
  bytecode-from_bytecode = low_bytes_same;
  hash_bytes-hash_new = λ b h size. low_bytes_same b h;
  entries-deposits_new = refl;
  entries-deposits_insert = λ d asset amount fresh. entries_append d (asset, amount);
}

contract_vectors-Agrees_example :
    let file = contract_vectors toy_kernel toy_serializer written_hex in
    All (InvokeAgrees written_hex) file.invoke_contract_vectors
    × All (DeployAgrees written_hex) file.deploy_contract_vectors
contract_vectors-Agrees_example =
    contract_vectors-Agrees toy_kernel toy_serializer toy_parts toy_format written_hex
      written_hex_laws
