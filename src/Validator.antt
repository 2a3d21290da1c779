-- ===== src/Validator.antt =====
-- vmhost/contexts/reservedFunctions.go, vmhost/contexts/validator.go and the verification of contract
-- code of vmhost/contexts/runtime.go. A function name is the list of its bytes. The instance belongs
-- to the WASM engine and is a parameter: what its methods answer. A Go map is an association list in
-- the order in which a loop reads it. The text that an error adds to the one that it wraps is left
-- out.
mod Names
pub mod Accepts
mod Tests
use drt_go_chain_vm_v.Host.Vm.{Instance}
use drt_go_chain_vm_v.Common.{
  Bool, List, Option, [], false, if◌then◌else◌, leb, length, ltb, none, not, some, true, ◌&&◌, ◌==◌,
  ◌∷◌,
}
use drt_go_chain_vm_v.Common.Bytes.{Bytes}
use drt_go_chain_vm_v.Common.Dict.{Dict, bytes_Eq, insert, int_Eq, lookup}
use drt_go_chain_vm_v.Common.Int.{eq_ℤ, negsuc, pos, ℤ}
use drt_go_chain_vm_v.Host.{RuntimeContext, is_dcdt_functions_enabled}
use drt_go_chain_vm_v.Host.Error.{
  VmError, contract_invalid_error, func_not_found, function_nonvoid_signature,
  invalid_function_name, memory_declaration_missing,
}
use drt_go_chain_vm_v.Validator.Names.{dcdt_imports}

abbrev pub upgrade_function_name : Bytes
upgrade_function_name =
    117 ∷ 112 ∷ 103 ∷ 114 ∷ 97 ∷ 100 ∷ 101 ∷ 67 ∷ 111 ∷ 110 ∷ 116 ∷ 114 ∷ 97 ∷ 99 ∷ 116 ∷ []

-- The assignment of all names of a map to another map.
unfoldable pub add_names : Dict Bytes Unit → Dict Bytes Unit → Dict Bytes Unit
add_names [] result = result
add_names ((name, value) ∷ rest) result = add_names rest (insert name value result)

unfoldable pub new_reserved_functions : Dict Bytes Unit → Dict Bytes Unit → Dict Bytes Unit
unfolding add_names
new_reserved_functions sc_api_names protocol_builtin_functions =
    insert upgrade_function_name tt
      (add_names sc_api_names (add_names protocol_builtin_functions []))

unfoldable pub is_reserved : Bytes → Dict Bytes Unit → Bool
is_reserved function_name reserved = elim (lookup function_name reserved) [
  | some _ ↦ true
  | none ↦ false
]

unfoldable pub is_ascii_string : Bytes → Bool
is_ascii_string [] = true
is_ascii_string (b ∷ rest) = if ltb 127 b then false else is_ascii_string rest

unfoldable pub verify_valid_function_name : Dict Bytes Unit → Bytes → Option VmError
verify_valid_function_name reserved function_name =
    if length function_name == 0
    then some invalid_function_name
    else if leb 256 (length function_name)
    then some invalid_function_name
    else if not (is_ascii_string function_name)
    then some invalid_function_name
    else if is_reserved function_name reserved
    then some invalid_function_name
    else none

unfoldable pub get_input_arity : Instance → Bytes → ℤ × Option VmError
get_input_arity instance_ name = elim (instance_.get_signature name) [
  | none ↦ (negsuc 0, some func_not_found)
  | some (inputs, outputs) ↦ (inputs, none)
]

unfoldable pub get_output_arity : Instance → Bytes → ℤ × Option VmError
get_output_arity instance_ name = elim (instance_.get_signature name) [
  | none ↦ (negsuc 0, some func_not_found)
  | some (inputs, outputs) ↦ (outputs, none)
]

unfoldable pub verify_void_function : Instance → Bytes → Option VmError
verify_void_function instance_ name =
    let (in_arity, in_err) = get_input_arity instance_ name in
    let (out_arity, out_err) = get_output_arity instance_ name in
    elim in_err [
      | some e ↦ some e
      | none ↦ elim out_err [
        | some e ↦ some e
        | none ↦
            if eq_ℤ in_arity (pos 0) && eq_ℤ out_arity (pos 0)
            then none
            else some function_nonvoid_signature
      ]
    ]

unfoldable pub verify_function : Dict Bytes Unit → Instance → Bytes → Option VmError
verify_function reserved instance_ name = elim (verify_valid_function_name reserved name) [
  | some e ↦ some e
  | none ↦ verify_void_function instance_ name
]

-- The loop over the exports.
unfoldable pub verify_exports : Dict Bytes Unit → Instance → List Bytes → Option VmError
verify_exports reserved instance_ [] = none
verify_exports reserved instance_ (name ∷ names) =
    let rest = verify_exports reserved instance_ names in
    elim (verify_function reserved instance_ name) [ some e ↦ some e | none ↦ rest ]

unfoldable pub verify_functions : Dict Bytes Unit → Instance → Option VmError
verify_functions reserved instance_ = verify_exports reserved instance_ instance_.exports

unfoldable pub verify_memory_declaration : Instance → Option VmError
verify_memory_declaration instance_ =
    if not instance_.has_memory then some memory_declaration_missing else none

-- The tests of the imports, one after the other.
unfoldable pub imports_none_of : Instance → List Bytes → Option VmError
imports_none_of instance_ [] = none
imports_none_of instance_ (name ∷ names) =
    if instance_.is_function_imported name
    then some contract_invalid_error
    else imports_none_of instance_ names

unfoldable pub check_backward_compatibility : Bool → Instance → Option VmError
check_backward_compatibility is_dcdt_functions_enabled instance_ =
    if is_dcdt_functions_enabled then none else imports_none_of instance_ dcdt_imports

unfoldable pub verify_contract_code :
    Dict Bytes Unit → Bool → Instance → RuntimeContext → Option VmError × RuntimeContext
verify_contract_code reserved is_dcdt_functions_enabled instance_ r =
    let r' = record r { verify_code = false } in
    if not r.verify_code then (none, r) else elim (verify_memory_declaration instance_) [
      | some e ↦ (some e, r')
      | none ↦ elim (verify_functions reserved instance_) [
        | some e ↦ (some e, r')
        | none ↦ (check_backward_compatibility is_dcdt_functions_enabled instance_, r')
      ]
    ]
