-- ===== src/Validator/Accepts.antt =====
-- What the verification of contract code accepts.
use drt_go_chain_vm_v.Common.{
  Bool, List, [], arith, false, length, ltb, none, not, some, true, ◌&&◌, ◌||◌, ◌∷◌, ◌≡◌,
}
use drt_go_chain_vm_v.Common.Bytes.{Bytes, bytes_eq, bytes_eq_iff}
use drt_go_chain_vm_v.Common.Dict.{Dict, bytes_Eq, insert, int_Eq, lookup, lookup-insert}
use drt_go_chain_vm_v.Common.Int.{eq_ℤ, pos}
use drt_go_chain_vm_v.Host.{RuntimeContext}
use drt_go_chain_vm_v.Validator.{
  Instance, add_names, check_backward_compatibility, get_input_arity, get_output_arity,
  imports_none_of, is_ascii_string, is_reserved, new_reserved_functions, upgrade_function_name,
  verify_contract_code, verify_exports, verify_function, verify_functions,
  verify_memory_declaration, verify_valid_function_name, verify_void_function,
}
use drt_go_chain_vm_v.Validator.Names.{dcdt_imports}
use drt_go_chain_vm_v.Common.{◌↔◌}

-- Every element of a list satisfies a test.
unfoldable pub all_of : (Bytes → Bool) → List Bytes → Bool
all_of test [] = true
all_of test (x ∷ xs) = test x && all_of test xs

-- An exported function that a contract may have: its name is not empty, shorter than 256 bytes, in
-- ASCII and not reserved, and it takes and returns nothing.
unfoldable pub is_acceptable : Dict Bytes Unit → Instance → Bytes → Bool
is_acceptable reserved instance_ name =
    ltb 0 (length name)
    && ltb (length name) 256
    && is_ascii_string name
    && not (is_reserved name reserved)
    && elim (instance_.get_signature name) [
      | none ↦ false
      | some (inputs, outputs) ↦ eq_ℤ inputs (pos 0) && eq_ℤ outputs (pos 0)
    ]

verify_function-accepts :
    (reserved : Dict Bytes Unit) (instance_ : Instance) (name : Bytes)
    → (verify_function reserved instance_ name ≡ none)
      ↔ (is_acceptable reserved instance_ name ≡ true)
unfolding is_acceptable verify_function verify_valid_function_name verify_void_function
    get_input_arity get_output_arity
verify_function-accepts reserved instance_ name = ground arith

verify_exports-accepts :
    (reserved : Dict Bytes Unit) (instance_ : Instance) (names : List Bytes)
    → (verify_exports reserved instance_ names ≡ none)
      ↔ (all_of (is_acceptable reserved instance_) names ≡ true)
unfolding all_of verify_exports
verify_exports-accepts reserved instance_ [] = ground arith
verify_exports-accepts reserved instance_ (name ∷ names) = ground (
  arith,
  verify_function-accepts reserved instance_ name,
  verify_exports-accepts reserved instance_ names,
)

imports_none_of-accepts :
    (instance_ : Instance) (names : List Bytes)
    → (imports_none_of instance_ names ≡ none)
      ↔ (all_of (λ name. not (instance_.is_function_imported name)) names ≡ true)
unfolding all_of imports_none_of
imports_none_of-accepts instance_ [] = ground arith
imports_none_of-accepts instance_ (name ∷ names) =
    ground (arith, imports_none_of-accepts instance_ names)

-- A verification that is due accepts a contract exactly where it declares a memory, every function
-- that it exports is acceptable, and it imports none of the listed functions unless these are
-- enabled. It is not due again after that, whether the contract was accepted or not.
pub verify_contract_code-accepts :
    (reserved : Dict Bytes Unit) (enabled : Bool) (instance_ : Instance) (r : RuntimeContext)
    → r.verify_code ≡ true
    → let (err, r') = verify_contract_code reserved enabled instance_ r in
      let accepted =
        instance_.has_memory
        && all_of (is_acceptable reserved instance_) instance_.exports
        && (enabled || all_of (λ name. not (instance_.is_function_imported name)) dcdt_imports) in
      ((err ≡ none) ↔ (accepted ≡ true)) × (r' ≡ record r { verify_code = false })
unfolding verify_contract_code verify_memory_declaration verify_functions
    check_backward_compatibility
verify_contract_code-accepts reserved enabled instance_ r due = ground (
  arith,
  verify_exports-accepts reserved instance_ instance_.exports,
  imports_none_of-accepts instance_ dcdt_imports,
)

is_reserved-insert :
    (name k : Bytes) (v : Unit) (m : Dict Bytes Unit)
    → is_reserved name (insert k v m) ≡ (bytes_eq k name || is_reserved name m)
unfolding is_reserved
is_reserved-insert name k v m = ground (arith, lookup-insert k name v m, bytes_eq_iff k name)

is_reserved-add_names :
    (name : Bytes) (names m : Dict Bytes Unit)
    → is_reserved name (add_names names m) ≡ (is_reserved name names || is_reserved name m)
unfolding add_names is_reserved lookup
is_reserved-add_names name [] m = ground arith
is_reserved-add_names name ((k, v) ∷ names) m =
    ground (arith, is_reserved-add_names name names (insert k v m), is_reserved-insert name k v m)

-- The reserved names are those of the imports, those of the built-in functions and the name of the
-- upgrade function.
pub is_reserved-new_reserved_functions :
    (name : Bytes) (sc_api_names builtins : Dict Bytes Unit)
    → is_reserved name (new_reserved_functions sc_api_names builtins) ≡ (
        bytes_eq upgrade_function_name name
        || is_reserved name sc_api_names
        || is_reserved name builtins)
unfolding new_reserved_functions is_reserved lookup
is_reserved-new_reserved_functions name api builtins = ground (
  arith,
  is_reserved-insert name upgrade_function_name tt (add_names api (add_names builtins [])),
  is_reserved-add_names name api (add_names builtins []),
  is_reserved-add_names name builtins [],
)
