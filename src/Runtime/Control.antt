-- ===== src/Runtime/Control.antt =====
-- vmhost/contexts/runtime.go: breakpoints, the failing of an execution, and the functions that the
-- running instance exports. With no instance a method call on it panics.
use Prim.Native.String.{String}
use drt_go_chain_vm_v.Blockchain.{set_output}
use drt_go_chain_vm_v.Common.{
  Bool, List, Option, [], false, if◌then◌else◌, none, not, some, true, ℕ, ◌||◌, ◌∷◌,
}
use drt_go_chain_vm_v.Common.Bytes.{Bytes, bytes_eq}
use drt_go_chain_vm_v.Host.{is_dynamic_gas_locking_enabled}
use drt_go_chain_vm_v.Host.Async.{AsyncCallInfo}
use drt_go_chain_vm_v.Host.Error.{
  VmError, func_not_found, invalid_upgrade_arguments, nil_callback_function,
}
use drt_go_chain_vm_v.Host.Runtime.{set_cell}
use drt_go_chain_vm_v.Host.Vm.{execution_failed, user_error}
use drt_go_chain_vm_v.Metering.{gas_left}
use drt_go_chain_vm_v.Metering.Usage.{
  compute_gas_locked_for_async, use_gas_bounded, use_gas_for_async_step,
}
use drt_go_chain_vm_v.Output.Account.{set_return_code, set_return_message}
use drt_go_chain_vm_v.Host.{Host, RuntimeContext}

-- vmhost.BreakpointValue, a uint64 of the instance.
abbrev pub breakpoint_none : ℕ
breakpoint_none = 0

abbrev pub breakpoint_execution_failed : ℕ
breakpoint_execution_failed = 1

abbrev pub breakpoint_async_call : ℕ
breakpoint_async_call = 2

abbrev pub breakpoint_signal_error : ℕ
breakpoint_signal_error = 3

abbrev pub breakpoint_out_of_gas : ℕ
breakpoint_out_of_gas = 4

abbrev pub set_runtime : RuntimeContext → Host → Host
set_runtime r h = record h { runtime = r }

unfoldable pub set_breakpoint : ℕ → Host → Host
set_breakpoint value h = elim h.runtime.instance_ref [
  | none ↦ record h { panicked = true }
  | some i ↦
      set_runtime (record (h.runtime) { breakpoints = set_cell h.runtime.breakpoints i value }) h
]

-- A method of the instance is called: with no instance that panics.
unfoldable pub on_instance : Host → Host
on_instance h = elim h.runtime.instance_ref [ none ↦ record h { panicked = true } | some _ ↦ h ]

unfoldable pub get_breakpoint : Host → ℕ × Host
unfolding on_instance
get_breakpoint h =
    (elim h.runtime.instance_ref [ none ↦ 0 | some i ↦ h.runtime.breakpoints i ], on_instance h)

-- The message is err.Error(), or a fixed text for a nil error.
unfoldable pub fail_execution : String → Host → Host
unfolding set_breakpoint
fail_execution message h =
    set_breakpoint breakpoint_execution_failed
      (set_output (set_return_message message (set_return_code execution_failed h.output)) h)

unfoldable pub signal_user_error : String → Host → Host
unfolding set_breakpoint
signal_user_error message h =
    set_breakpoint breakpoint_signal_error
      (set_output (set_return_message message (set_return_code user_error h.output)) h)

-- The code and its metadata, which leave the arguments.
unfoldable pub extract_code_upgrade_from_args :
    RuntimeContext → (Bytes × Bytes × Option VmError) × RuntimeContext
extract_code_upgrade_from_args r = elim r.vm_input.arguments [
  | [] ↦ (([], [], some invalid_upgrade_arguments), r)
  | code ∷ more ↦ elim more [
    | [] ↦ (([], [], some invalid_upgrade_arguments), r)
    | metadata ∷ rest ↦
        ((code, metadata, none), record r { vm_input = record (r.vm_input) { arguments = rest } })
  ]
]

unfoldable pub exports_function : Bytes → List Bytes → Bool
exports_function name [] = false
exports_function name (x ∷ xs) = bytes_eq x name || exports_function name xs

-- "callBack" and "init"
abbrev pub callback_function_name : Bytes
callback_function_name = 99 ∷ 97 ∷ 108 ∷ 108 ∷ 66 ∷ 97 ∷ 99 ∷ 107 ∷ []

abbrev pub init_function_name : Bytes
init_function_name = 105 ∷ 110 ∷ 105 ∷ 116 ∷ []

-- "solidity.ctor"
abbrev pub init_function_name_eth : Bytes
init_function_name_eth =
    115 ∷ 111 ∷ 108 ∷ 105 ∷ 100 ∷ 105 ∷ 116 ∷ 121 ∷ 46 ∷ 99 ∷ 116 ∷ 111 ∷ 114 ∷ []

-- The exports of the running instance, none where there is no instance. GetInitFunction and
-- HasCallbackMethod are called with an instance only: after it has started, and by its contract.
unfoldable pub current_exports : RuntimeContext → List Bytes
current_exports r = elim r.instance_ref [ none ↦ [] | some i ↦ (r.instances i).exports ]

-- The name of the function to call.
unfoldable pub get_function_to_call : Host → (Bytes × Option VmError) × Host
unfolding exports_function current_exports on_instance
get_function_to_call h =
    let r = h.runtime in
    (
      if exports_function r.call_function (current_exports r)
          then (r.call_function, none)
          else if bytes_eq r.call_function callback_function_name
          then ([], some nil_callback_function)
          else ([], some func_not_found),
      on_instance h,
    )

unfoldable pub get_init_function : RuntimeContext → Option Bytes
unfolding exports_function current_exports
get_init_function r =
    if exports_function init_function_name (current_exports r)
    then some init_function_name
    else none

unfoldable pub has_callback_method : RuntimeContext → Bool
unfolding exports_function current_exports
has_callback_method r = exports_function callback_function_name (current_exports r)

-- ExecuteAsyncCall: the gas of the call is locked, and the breakpoint stops the contract.
unfoldable pub execute_async_call : Bytes → Bytes → Bytes → Host → Option VmError × Host
execute_async_call address payload value h =
    let (err, h1) = use_gas_for_async_step h in
    let should_lock = has_callback_method h1.runtime || not (is_dynamic_gas_locking_enabled h1) in
    let to_lock = if should_lock then compute_gas_locked_for_async h1 else 0 in
    let (err2, h2) = if should_lock then use_gas_bounded to_lock h1 else (none, h1) in
    let info : AsyncCallInfo = record {
      destination = address;
      payload = payload;
      gas_limit = gas_left h2;
      gas_locked = to_lock;
      value_bytes = value;
    } in
    elim err [
      | some e ↦ (some e, h1)
      | none ↦ elim err2 [
        | some e ↦ (some e, h2)
        | none ↦ (
          none,
          set_breakpoint breakpoint_async_call
              (set_runtime (record (h2.runtime) { async_call_info = some info }) h2),
        )
      ]
    ]
