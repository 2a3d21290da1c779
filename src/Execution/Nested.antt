-- ===== src/Execution/Nested.antt =====
-- vmhost/hostCore/execution.go: a call of a contract by another. The input is a pointer that
-- ExecuteOnDestContext writes to; no caller reads it after the call.
use drt_go_chain_vm_v.Metering.{set_total_used_gas}
use drt_go_chain_vm_v.Blockchain.{account_exists, increase_nonce, new_address, set_output}
use drt_go_chain_vm_v.Common.{Option, false, if◌then◌else◌, none, not, some, true, ℕ, ◌||◌}
use drt_go_chain_vm_v.Common.Bytes.{Bytes}
use drt_go_chain_vm_v.Common.Dict.{Dict}
use drt_go_chain_vm_v.Common.Int.{eq_ℤ, pos}
use drt_go_chain_vm_v.Execution.Contract.{AsyncCalls, execute}
use drt_go_chain_vm_v.Execution.Input.{copy_tx_hashes_from_context}
use drt_go_chain_vm_v.Host.{CodeDeployInput, Host, is_dcdt_functions_enabled}
use drt_go_chain_vm_v.Host.Async.{AsyncContextInfo}
use drt_go_chain_vm_v.Host.Error.{
  VmError, builtin_call_on_same_context_disallowed, deployment_over_existing_account,
  execution_failed_error, invalid_call_on_read_only_mode, other_error,
}
use drt_go_chain_vm_v.Host.Vm.{ContractCallInput, ContractCreateInput, VmOutput}
use drt_go_chain_vm_v.Metering.{
  forward_gas, init_state_from_contract_call_input, is_callback, restore_gas,
}
use drt_go_chain_vm_v.Metering.Usage.{
  deduct_initial_gas_for_indirect_deployment, gas_spent_by_contract,
}
use drt_go_chain_vm_v.Output.{censor_vm_output, pop_merge_active_state}
use drt_go_chain_vm_v.Output.Account.{delete_output_account, deploy_code}
use drt_go_chain_vm_v.Output.Finish.{
  create_vm_output_in_case_of_error, get_current_total_used_gas, get_vm_output, is_return_ok,
}
use drt_go_chain_vm_v.Output.Transfer.{transfer_value_only}
use drt_go_chain_vm_v.Outside.{Outside}
use drt_go_chain_vm_v.Runtime.{init_state_from_call_input, must_verify_next_contract_code}
use drt_go_chain_vm_v.Runtime.Control.{init_function_name}
use drt_go_chain_vm_v.Storage.{set_address}
use drt_go_chain_vm_v.BigInt
use drt_go_chain_vm_v.Output
use drt_go_chain_vm_v.Metering
use drt_go_chain_vm_v.Runtime
use drt_go_chain_vm_v.Storage

pub record DestResult : Type 0 where
  pub vm_output : VmOutput
  pub async_info : Option AsyncContextInfo
  pub gas_used_before_reset : ℕ
  pub error : Option VmError

-- computeGasUsedBefore
unfoldable pub compute_gas_used_before : Host → Host
compute_gas_used_before h = record h {
  metering = set_total_used_gas (get_current_total_used_gas h.output).0 h.metering;
}

-- What ExecuteOnDestContext does before the transfer of value: the input as it goes on, and the host.
unfoldable pub begin_on_dest_context : ContractCallInput → Host → ContractCallInput × Host
unfolding compute_gas_used_before
begin_on_dest_context input h =
    let copied = copy_tx_hashes_from_context (is_dcdt_functions_enabled h) h.runtime input in
    let r = init_state_from_call_input copied (Runtime.push_state h.runtime) in
    let (vm_input, m) =
      init_state_from_contract_call_input copied.vm_input (Metering.push_state h.metering) in
    (
      record copied { vm_input = vm_input },
      record (compute_gas_used_before (record h {
        big_int = BigInt.init_state (BigInt.push_state h.big_int);
        output = censor_vm_output (Output.push_state h.output);
        runtime = r;
        metering = m;
      })) { storage = set_address r.sc_address (Storage.push_state h.storage) },
    )

-- What ExecuteOnSameContext does before the transfer of value.
unfoldable pub begin_on_same_context : ContractCallInput → Host → ContractCallInput × Host
begin_on_same_context input h =
    let copied = copy_tx_hashes_from_context (is_dcdt_functions_enabled h) h.runtime input in
    let (vm_input, m) =
      init_state_from_contract_call_input copied.vm_input (Metering.push_state h.metering) in
    (
      record copied { vm_input = vm_input },
      record h {
        big_int = BigInt.push_state h.big_int;
        output = Output.push_state h.output;
        runtime = init_state_from_call_input copied (Runtime.push_state h.runtime);
        metering = m;
      },
    )

-- Every context but the output is popped.
unfoldable pub pop_contexts : Host → Host
pop_contexts h = record h {
  big_int = BigInt.pop_set_active_state h.big_int;
  metering = Metering.pop_set_active_state h.metering;
  runtime = Runtime.pop_set_active_state h.runtime;
  storage = Storage.pop_set_active_state h.storage;
}

module _ (out : Outside) where
  -- The output of a call that has ended: of an error, or of what it did.
  unfoldable pub output_of_call : Option VmError → Host → VmOutput × Host
  output_of_call none h = get_vm_output out.is_builtin_function_name out.text h
  output_of_call (some e) h = (create_vm_output_in_case_of_error out.text e h.output, h)

  -- The contexts but the output are popped, and the gas of the call is settled with the caller.
  unfoldable pub settle : VmOutput → Host → Host
  settle o h =
      let spent = if is_return_ok o.return_code then gas_spent_by_contract h else 0 in
      let paid = restore_gas o.gas_remaining (pop_contexts h) in
      forward_gas paid.runtime.sc_address h.runtime.sc_address spent paid

  -- What finishExecuteOnDestContext does with the output of the call.
  unfoldable pub leave_dest_context : VmOutput → Host → Host
  leave_dest_context o h =
      let settled = settle o h in
      if is_return_ok o.return_code
      then set_output (pop_merge_active_state settled.output) settled
      else set_output (Output.pop_set_active_state settled.output) settled

  unfoldable pub finish_execute_on_dest_context : Option VmError → Host → VmOutput × Host
  finish_execute_on_dest_context err h =
      let (o, h1) = output_of_call err h in (o, leave_dest_context o h1)

  -- The deferred function of ExecuteOnDestContext.
  unfoldable pub conclude_on_dest_context :
      Option AsyncContextInfo → ℕ → Option VmError → Host → DestResult × Host
  conclude_on_dest_context info used err h =
      let (o, h1) = finish_execute_on_dest_context err h in
      let concluded : Option VmError = elim err [
        | some e ↦ some e
        | none ↦ if is_return_ok o.return_code then none else some execution_failed_error
      ] in
      (
        record {
          vm_output = o;
          async_info = info;
          gas_used_before_reset = used;
          error = concluded;
        },
        record h1 { metering = set_total_used_gas 0 h1.metering },
      )

  unfoldable pub finish_execute_on_same_context : Option VmError → Host → Host
  finish_execute_on_same_context err h =
      let child = h.runtime.sc_address in
      let (o, h1) = get_vm_output out.is_builtin_function_name out.text h in
      let spent = if is_return_ok o.return_code then gas_spent_by_contract h1 else 0 in
      let popped : Host = record h1 {
        big_int = BigInt.pop_discard h1.big_int;
        output = Output.pop_discard h1.output;
        metering = Metering.pop_set_active_state h1.metering;
        runtime = Runtime.pop_set_active_state h1.runtime;
      } in
      let paid = restore_gas o.gas_remaining popped in
      let restored : Host = record h {
        big_int = BigInt.pop_set_active_state h.big_int;
        metering = Metering.pop_set_active_state h.metering;
        output = Output.pop_set_active_state h.output;
        runtime = Runtime.pop_set_active_state h.runtime;
      } in
      elim err [
        | some _ ↦ restored
        | none ↦
            if is_return_ok h.output.output_state.return_code
            then forward_gas paid.runtime.sc_address child spent paid
            else restored
      ]

  module _ (async : AsyncCalls) (reserved : Dict Bytes Unit) where
    -- What a call on the destination context does between its beginning and its end: the record of
    -- asynchronous calls, the gas used before the reset, the error and the host.
    unfoldable pub run_on_dest_context :
        ContractCallInput → Host → (Option AsyncContextInfo × ℕ × Option VmError) × Host
    run_on_dest_context input h =
        let pays =
          not (is_callback input.vm_input.call_type) || eq_ℤ input.vm_input.call_value (pos 0) in
        let (unpaid, h1) =
          if pays
          then transfer_value_only out.hook input.recipient_addr input.vm_input.caller_addr
              input.vm_input.call_value false h
          else (none, h) in
        let ((used, err), h2) = execute out async reserved input h1 in
        let (result, h3) = async.process_async_info h2.runtime.async_context_info h2 in
        elim unpaid [
          | some e ↦ ((none, 0, some e), h1)
          | none ↦ elim err [
            | some e ↦ ((none, used, some e), h2)
            | none ↦ ((some result.info, used, result.error), h3)
          ]
        ]

    unfoldable pub execute_on_dest_context : ContractCallInput → Host → DestResult × Host
    execute_on_dest_context input h =
        let (begun, h1) = begin_on_dest_context input h in
        let ((info, used, err), h2) = run_on_dest_context begun h1 in
        conclude_on_dest_context info used err h2

    unfoldable pub run_on_same_context : ContractCallInput → Host → Option VmError × Host
    run_on_same_context input h =
        let (unpaid, h1) =
          transfer_value_only out.hook input.recipient_addr input.vm_input.caller_addr
            input.vm_input.call_value false h in
        let ((_, err), h2) = execute out async reserved input h1 in
        elim unpaid [ some e ↦ (some e, h1) | none ↦ (err, h2) ]

    unfoldable pub execute_on_same_context :
        ContractCallInput → Host → (Option AsyncContextInfo × Option VmError) × Host
    execute_on_same_context input h =
        let (begun, h1) = begin_on_same_context input h in
        let (err, h2) = run_on_same_context begun h1 in
        let finished = finish_execute_on_same_context err h2 in
        if out.is_builtin_function_name input.function
        then ((none, some (other_error builtin_call_on_same_context_disallowed)), h)
        else elim err [
          | some e ↦ ((none, some e), finished)
          | none ↦ ((some h2.runtime.async_context_info, none), finished)
        ]

    -- The rest of CreateNewContract, once the address is known to be free.
    unfoldable pub deploy_at :
        ContractCreateInput → Bytes → Host → (Option Bytes × Option VmError) × Host
    deploy_at input address h =
        let deployed : CodeDeployInput = record {
          contract_code = input.contract_code;
          contract_code_metadata = input.contract_code_metadata;
          contract_address = address;
          code_deployer_address = input.vm_input.caller_addr;
        } in
        let ready : Host = record h {
          output = deploy_code deployed h.output;
          runtime = must_verify_next_contract_code h.runtime;
        } in
        let (result, h1) =
          execute_on_dest_context
            (record {
              vm_input = input.vm_input;
              recipient_addr = address;
              function = init_function_name;
              allow_init_function = true;
            })
            ready in
        elim result.error [
          | some e ↦ ((none, some e), set_output (delete_output_account address h1.output) h1)
          | none ↦ ((some address, none), increase_nonce out.hook input.vm_input.caller_addr h1)
        ]

    unfoldable pub create_new_contract :
        ContractCreateInput → Host → (Option Bytes × Option VmError) × Host
    create_new_contract input h =
        let (short, h1) = deduct_initial_gas_for_indirect_deployment input.contract_code h in
        let ((address, err), h2) = new_address out.hook input.vm_input.caller_addr h1 in
        elim short [
          | some e ↦ ((none, some e), h1)
          | none ↦
              if h1.runtime.read_only
              then ((none, some (other_error invalid_call_on_read_only_mode)), h1)
              else elim err [
                | some e ↦ ((none, some e), h2)
                | none ↦
                    if account_exists out.hook address
                    then ((none, some (other_error deployment_over_existing_account)), h2)
                    else deploy_at input address h2
              ]
        ]
