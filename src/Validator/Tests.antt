-- ===== src/Validator/Tests.antt =====
-- Tests of the verification of contract code.
use drt_go_chain_vm_v.Common.{[], false, none, not, refl, some, true, ◌&&◌, ◌||◌, ◌↔◌, ◌∷◌, ◌≡◌}
use drt_go_chain_vm_v.Common.Bytes.{Bytes}
use drt_go_chain_vm_v.Common.Dict.{Dict}
use drt_go_chain_vm_v.Common.Int.{pos}
use drt_go_chain_vm_v.Host.{RuntimeContext}
use drt_go_chain_vm_v.Validator.{Instance, new_reserved_functions, verify_contract_code}
use drt_go_chain_vm_v.Validator.Names.{dcdt_imports}
use drt_go_chain_vm_v.Example.{running}
use drt_go_chain_vm_v.Validator.Accepts.{verify_contract_code-accepts, all_of, is_acceptable}

-- A contract that exports one function and imports none of the listed ones.
abbrev contract : Instance
contract = record {
  has_memory = true;
  exports = (97 ∷ 98 ∷ []) ∷ [];
  get_signature = λ _. some (pos 0, pos 0);
  is_function_imported = λ _. false;
}

abbrev api : Dict Bytes Unit
api = (103 ∷ [], tt) ∷ []

abbrev unverified : RuntimeContext
unverified = record running { verify_code = true }

verify_contract_code-accepts_example :
    (let (err, r') =
        verify_contract_code (new_reserved_functions api []) false contract unverified in
      let accepted =
        contract.has_memory
        && all_of (is_acceptable (new_reserved_functions api []) contract) contract.exports
        && (false || all_of (λ name. not (contract.is_function_imported name)) dcdt_imports) in
      ((err ≡ none) ↔ (accepted ≡ true)) × (r' ≡ record unverified { verify_code = false }))
verify_contract_code-accepts_example =
    verify_contract_code-accepts (new_reserved_functions api []) false contract unverified refl
