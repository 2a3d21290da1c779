-- ===== src/Execution/Contract.antt =====
-- vmhost/hostCore/execution.go and breakpoints.go: the running of a contract's functions. The
-- asynchronous calls of vmhost/hostCore/asyncCall.go start further calls, so here they are a
-- parameter, an interface of the operations that this file calls.
use drt_go_chain_vm_v.Blockchain.{set_output}
use drt_go_chain_vm_v.Common.{
  Bool, Option, false, if◌then◌else◌, length, ltb, none, not, some, true, ℕ, ◌&&◌, ◌==◌, ◌||◌,
}
use drt_go_chain_vm_v.Common.Bytes.{Bytes, bytes_eq}
use drt_go_chain_vm_v.Common.Dict.{Dict}
use drt_go_chain_vm_v.Execution.Builtin.{call_builtin_function, revert_dcdt_transfer}
use drt_go_chain_vm_v.Host.{CodeDeployInput, Host, is_vm_v2_enabled}
use drt_go_chain_vm_v.Host.Async.{AsyncContextInfo}
use drt_go_chain_vm_v.Host.Error.{
  VmError, callback_func_called_in_run, contract_invalid_error, error_is, execution_failed_error,
  init_func_called_in_run, invalid_upgrade_arguments, nil_callback_function, nil_contract,
  not_enough_gas, other_error, return_code_not_ok, signal_error, unhandled_runtime_breakpoint,
  upgrade_not_allowed,
}
use drt_go_chain_vm_v.Host.Runtime.{get_points_used}
use drt_go_chain_vm_v.Host.Vm.{
  CallType, ContractCallInput, absent, asynchronous_call, asynchronous_callback, failed, out_of_gas,
  present,
}
use drt_go_chain_vm_v.Metering.{init_state_from_contract_call_input, is_callback, use_gas}
use drt_go_chain_vm_v.Metering.Usage.{
  deduct_initial_gas_for_direct_deployment, deduct_initial_gas_for_execution,
}
use drt_go_chain_vm_v.Output.Account.{deploy_code, set_return_code}
use drt_go_chain_vm_v.Output.Finish.{is_return_ok}
use drt_go_chain_vm_v.Outside.{Outside}
use drt_go_chain_vm_v.Runtime.{init_state_from_call_input, must_verify_next_contract_code}
use drt_go_chain_vm_v.Runtime.Control.{
  breakpoint_async_call, breakpoint_execution_failed, breakpoint_none, breakpoint_out_of_gas,
  breakpoint_signal_error, callback_function_name, extract_code_upgrade_from_args, get_breakpoint,
  get_function_to_call, get_init_function, init_function_name, init_function_name_eth, set_runtime,
}
use drt_go_chain_vm_v.Runtime.Start.{get_sc_code, start_wasmer_instance}
use drt_go_chain_vm_v.Storage.{set_address}
use drt_go_chain_vm_v.Validator.{upgrade_function_name}

-- What processAsyncInfo leaves: the record it was given, the record of the pending calls, the error.
pub record ProcessResult : Type 0 where
  pub info : AsyncContextInfo
  pub pending : AsyncContextInfo
  pub error : Option VmError

pub record AsyncCalls : Type 0 where
  pub handle_async_call_breakpoint : Host → Option VmError × Host
  pub process_async_info : AsyncContextInfo → Host → ProcessResult × Host
  pub process_callback_stack : Host → Option VmError × Host
  pub send_callback_to_current_caller : Host → Option VmError × Host
  pub get_function_by_call_type : CallType → Host → (Bytes × Option VmError) × Host

-- host.isInitFunctionBeingCalled, and whether a function name is the one of an init function.
unfoldable pub is_init_name : Bytes → Bool
is_init_name name = bytes_eq name init_function_name || bytes_eq name init_function_name_eth

unfoldable pub verify_allowed_function_call : Host → Option VmError
unfolding is_init_name
verify_allowed_function_call h =
    let name = h.runtime.call_function in
    if is_init_name name
    then some init_func_called_in_run
    else if bytes_eq name callback_function_name && not (is_callback h.runtime.vm_input.call_type)
    then some callback_func_called_in_run
    else none

unfoldable pub check_final_gas_after_exit : Host → Option VmError
check_final_gas_after_exit h =
    if is_vm_v2_enabled h && ltb h.metering.gas_for_execution (get_points_used h)
    then some not_enough_gas
    else none

module _ (out : Outside) where
  -- function(): the call of an exported function of the running instance.
  unfoldable pub call_function : Bytes → Host → Option VmError × Host
  call_function name h = elim h.runtime.instance_ref [
    | none ↦ (none, record h { panicked = true })
    | some i ↦ out.engine.call (h.runtime.instances i) name h
  ]

  unfoldable pub check_upgrade_permission : ContractCallInput → Option VmError
  check_upgrade_permission input = elim (out.hook.get_user_account input.recipient_addr) [
    | failed e ↦ some e
    | absent ↦ some (other_error nil_contract)
    | present contract ↦
        if out.hook.metadata_upgradeable contract.code_metadata
          && bytes_eq input.vm_input.caller_addr contract.owner_address
        then none
        else some (other_error upgrade_not_allowed)
  ]

  module _ (async : AsyncCalls) where
    unfoldable pub handle_breakpoint : ℕ → Host → Option VmError × Host
    handle_breakpoint value h =
        if value == breakpoint_async_call
        then async.handle_async_call_breakpoint h
        else if value == breakpoint_execution_failed
        then (some execution_failed_error, h)
        else if value == breakpoint_signal_error
        then (some signal_error, h)
        else if value == breakpoint_out_of_gas
        then (some not_enough_gas, h)
        else (some (other_error unhandled_runtime_breakpoint), h)

    unfoldable pub handle_breakpoint_if_any : Option VmError → Host → Option VmError × Host
    unfolding handle_breakpoint
    handle_breakpoint_if_any none h = (none, h)
    handle_breakpoint_if_any (some e) h =
        let (value, h1) = get_breakpoint h in
        if value == breakpoint_none then (some e, h1) else handle_breakpoint value h1

    -- A function runs, and its breakpoint is handled.
    unfoldable pub run_function : Bytes → Host → Option VmError × Host
    unfolding call_function
    run_function name h = let (err, h1) = call_function name h in handle_breakpoint_if_any err h1

    unfoldable pub checked_exit : Option VmError × Host → Option VmError × Host
    checked_exit (some e, h) = (some e, h)
    checked_exit (none, h) = (check_final_gas_after_exit h, h)

    unfoldable pub call_init_function : Host → Option VmError × Host
    unfolding run_function
    call_init_function h = elim (get_init_function h.runtime) [
      | none ↦ (none, h)
      | some name ↦ checked_exit (run_function name h)
    ]

    unfoldable pub call_sc_method_indirect : Host → Option VmError × Host
    unfolding run_function
    call_sc_method_indirect h =
        let ((name, err), h1) = get_function_to_call h in
        elim err [
          | none ↦ run_function name h1
          | some e ↦ if error_is e nil_callback_function then (none, h1) else (some e, h1)
        ]

    -- What callSCMethod does once the function has ended well.
    after_method : CallType → Host → Option VmError × Host
    after_method asynchronous_call h =
        let (result, h1) = async.process_async_info h.runtime.async_context_info h in
        elim result.error [
          | some e ↦ (some e, h1)
          | none ↦
              if length result.pending.async_context_map == 0
              then async.send_callback_to_current_caller h1
              else (none, h1)
        ]
    after_method asynchronous_callback h = async.process_callback_stack h
    after_method _ h =
        let (result, h1) = async.process_async_info h.runtime.async_context_info h in
        (result.error, h1)

    -- What callSCMethod does without a function to call.
    no_method : CallType → VmError → Host → Option VmError × Host
    no_method call_type e h =
        if is_callback call_type && error_is e nil_callback_function
        then async.process_callback_stack h
        else (some e, h)

    unfoldable pub call_sc_method : Host → Option VmError × Host
    unfolding after_method no_method
    call_sc_method h =
        let call_type = h.runtime.vm_input.call_type in
        elim (verify_allowed_function_call h) [
          | some e ↦ (some e, h)
          | none ↦
              let ((name, err), h1) = async.get_function_by_call_type call_type h in
              elim err [
                | some e ↦ no_method call_type e h1
                | none ↦
                    let (failure, h2) = checked_exit (run_function name h1) in
                    elim failure [ some e ↦ (some e, h2) | none ↦ after_method call_type h2 ]
              ]
        ]

    module _ (reserved : Dict Bytes Unit) where
      -- The code is started and its init function is called, each with its own error.
      unfoldable pub start_and_init : Bytes → Host → Option VmError × Host
      start_and_init code h =
          let to_verify = set_runtime (must_verify_next_contract_code h.runtime) h in
          let (err, h1) =
            start_wasmer_instance out reserved code h.metering.gas_for_execution true to_verify in
          elim err [ some _ ↦ (some contract_invalid_error, h1) | none ↦ call_init_function h1 ]

      -- What follows the init function of an upgrade.
      unfoldable pub deploy_upgrade : CodeDeployInput → Host → Option VmError × Host
      deploy_upgrade deployed h =
          let h1 = set_output (deploy_code deployed h.output) h in
          if is_return_ok h1.output.output_state.return_code
          then (none, h1)
          else (some (other_error return_code_not_ok), h1)

      unfoldable pub execute_upgrade : ContractCallInput → Host → Option VmError × Host
      unfolding start_and_init
      execute_upgrade input h = elim (check_upgrade_permission input) [
        | some e ↦ (some e, h)
        | none ↦
            let ((code, metadata, err), r) = extract_code_upgrade_from_args h.runtime in
            let h1 = set_runtime r h in
            let deployed : CodeDeployInput = record {
              contract_code = code;
              contract_code_metadata = metadata;
              contract_address = input.recipient_addr;
              code_deployer_address = input.vm_input.caller_addr;
            } in
            let (short, h2) = deduct_initial_gas_for_direct_deployment code h1 in
            let (failure, h3) = start_and_init code h2 in
            elim err [
              | some _ ↦ (some invalid_upgrade_arguments, h1)
              | none ↦ elim short [
                | some e ↦ (some e, set_output (set_return_code out_of_gas h2.output) h2)
                | none ↦ elim failure [ some e ↦ (some e, h3) | none ↦ deploy_upgrade deployed h3 ]
              ]
            ]
      ]

      -- The instance of the contract is started and its function called.
      unfoldable pub start_and_call : Bytes → Host → Option VmError × Host
      start_and_call code h =
          let (err, h1) =
            start_wasmer_instance out reserved code h.metering.gas_for_execution false h in
          let (failure, h2) = call_sc_method_indirect h1 in
          elim err [
            | some e ↦ (some e, h1)
            | none ↦ elim failure [
              | some e ↦ (some e, h2)
              | none ↦
                  if is_return_ok h2.output.output_state.return_code
                  then (none, h2)
                  else (some (other_error return_code_not_ok), h2)
            ]
          ]

      unfoldable pub execute_smart_contract_call :
          ContractCallInput → Bool → Host → Option VmError × Host
      unfolding execute_upgrade
      execute_smart_contract_call input with_initial_gas_deduct h =
          let h1 = use_gas input.vm_input.gas_provided h in
          let ((code, err), h2) = get_sc_code out h1 in
          let (short, h3) =
            if with_initial_gas_deduct
            then deduct_initial_gas_for_execution code h2
            else (none, h2) in
          if is_init_name h.runtime.call_function && not input.allow_init_function
          then (some init_func_called_in_run, h)
          else if bytes_eq input.function upgrade_function_name
          then execute_upgrade input h1
          else elim err [
            | some e ↦ (some e, h2)
            | none ↦ elim short [ some e ↦ (some e, h3) | none ↦ start_and_call code h3 ]
          ]

      -- A contract is called after a built-in function, whose transfer is reverted on a failure.
      unfoldable pub call_after_builtin :
          ContractCallInput → ContractCallInput → Host → Option VmError × Host
      call_after_builtin input next h =
          let r = init_state_from_call_input next h.runtime in
          let (vm_input, m) = init_state_from_contract_call_input next.vm_input h.metering in
          let ready = record h {
            runtime = r;
            metering = m;
            storage = set_address r.sc_address h.storage;
          } in
          let (err, h1) =
            execute_smart_contract_call (record next { vm_input = vm_input }) false ready in
          elim err [ none ↦ (none, h1) | some e ↦ (some e, revert_dcdt_transfer out input h1) ]

      -- host.execute: the gas used before the reset, the error and the host.
      unfoldable pub execute : ContractCallInput → Host → (ℕ × Option VmError) × Host
      execute input h =
          let ((next, used, err), h1) = call_builtin_function out input h in
          let (failure, h2) = execute_smart_contract_call input true h in
          if out.is_builtin_function_name h.runtime.call_function
          then elim err [
            | some e ↦ ((used, some e), h1)
            | none ↦ elim next [
              | none ↦ ((used, none), h1)
              | some next_input ↦
                  let (stopped, h3) = call_after_builtin input next_input h1 in
                  ((used, stopped), h3)
            ]
          ]
          else ((0, failure), h2)
