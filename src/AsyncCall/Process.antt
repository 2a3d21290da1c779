-- ===== src/AsyncCall/Process.antt =====
-- vmhost/hostCore/asyncCall.go: the sending of asynchronous calls, and the calls that are executed on
-- this host. A call on the destination context is a parameter here; the host fills it with
-- ExecuteOnDestContext.
use drt_go_chain_vm_v.Output.Transfer.{is_async}
use Prim.Native.String.{String}
use drt_go_chain_vm_v.AsyncCall.{
  AsyncCallExecutionMode, async_builtin_func_cross_shard, async_builtin_func_intra_shard,
  async_unknown, can_execute_synchronously, dcdt_transfer_on_call_back, get_pending_async_calls,
  info_of, sync_call,
}
use drt_go_chain_vm_v.AsyncCall.Inputs.{
  create_callback_contract_call_input, create_destination_contract_call_input,
}
use drt_go_chain_vm_v.Blockchain.{are_in_same_shard, set_output}
use drt_go_chain_vm_v.Common.{
  Bool, List, Option, [], false, if◌then◌else◌, length, none, not, some, true, ℕ, ◌%◌, ◌&&◌, ◌++◌,
  ◌+◌, ◌==◌, ◌^◌, ◌∷◌,
}
use drt_go_chain_vm_v.Common.Bytes.{Bytes, bytes_eq}
use drt_go_chain_vm_v.Common.Int.{pos}
use drt_go_chain_vm_v.Execution.{compute_gas_used_in_execution_before_reset}
use drt_go_chain_vm_v.Execution.Builtin.{fail_with}
use drt_go_chain_vm_v.Execution.Input.{is_dcdt_transfer, set_bytes}
use drt_go_chain_vm_v.Execution.Nested.{DestResult}
use drt_go_chain_vm_v.Host.{Host}
use drt_go_chain_vm_v.Host.Async.{
  AsyncCallInfo, AsyncGeneratedCall, async_call_rejected, async_call_resolved,
}
use drt_go_chain_vm_v.Host.Error.{VmError}
use drt_go_chain_vm_v.Host.Runtime.{set_points_used}
use drt_go_chain_vm_v.Host.Vm.{
  ContractCallInput, VmOutput, asynchronous_call, asynchronous_callback,
}
use drt_go_chain_vm_v.Memory.{fail, ok, panic}
use drt_go_chain_vm_v.Metering.{forward_gas, gas_left, use_gas}
use drt_go_chain_vm_v.Output.Account.{finish, prepend_finish, set_return_message}
use drt_go_chain_vm_v.Output.Finish.{create_vm_output_in_case_of_error, is_return_ok}
use drt_go_chain_vm_v.Output.Transfer.{transfer}
use drt_go_chain_vm_v.Outside.{Outside}
use drt_go_chain_vm_v.Runtime.Control.{
  breakpoint_none, callback_function_name, set_breakpoint, set_runtime,
}

-- The gas that is left is used and the execution fails with the error of a transfer.
unfoldable pub fail_transfer : (VmError → String) → VmError → Host → Option VmError × Host
fail_transfer text e h = (some e, fail_with (text e) h)

-- A transfer that was made forwards the gas that is left, with the given locked gas, and uses it.
unfoldable pub forward_all : Bytes → ℕ → Host → Host
forward_all destination locked h =
    let left = gas_left h in
    use_gas left (forward_gas h.runtime.sc_address destination ((left + locked) % 2 ^ 64) h)

-- processCallbackVMOutput, whose error is always nil.
unfoldable pub process_callback_vm_output : Outside → Option VmOutput → Option VmError → Host → Host
process_callback_vm_output out o none h = h
process_callback_vm_output out o (some e) h =
    let input = record (h.runtime.vm_input) { gas_provided = 0 } in
    let shown : VmOutput = elim o [
      | some given ↦ given
      | none ↦ create_vm_output_in_case_of_error out.text e h.output
    ] in
    let c = finish h.runtime.vm_input.current_tx_hash (
      finish (out.return_code_text shown.return_code)
        (set_return_message shown.return_message h.output)) in
    set_output c (set_runtime (record (h.runtime) { vm_input = input }) h)

module _ (out : Outside) where
  unfoldable pub send_async_call_to_destination : AsyncCallInfo → Host → Option VmError × Host
  unfolding fail_transfer forward_all
  send_async_call_to_destination info h =
      let (err, h1) =
        transfer out.hook info.destination h.runtime.sc_address info.gas_limit info.gas_locked
          (pos (set_bytes info.value_bytes)) info.payload asynchronous_call h in
      elim err [
        | some e ↦ fail_transfer out.text e h1
        | none ↦ (none, forward_all info.destination info.gas_locked h1)
      ]

  -- The result of a call, as the data of a transaction: "@code@data1@data2".
  unfoldable pub encode_results : List Bytes → Bytes
  encode_results [] = []
  encode_results (item ∷ items) = 64 ∷ out.hex item ++ encode_results items

  unfoldable pub send_callback_to_current_caller : Host → Option VmError × Host
  unfolding fail_transfer forward_all encode_results
  send_callback_to_current_caller h =
      let o = h.output.output_state in
      let results = encode_results (out.return_code_text o.return_code ∷ o.return_data) in
      let caller = h.runtime.vm_input.caller_addr in
      let (err, h1) =
        transfer out.hook caller h.runtime.sc_address (gas_left h) 0 h.runtime.vm_input.call_value
          results asynchronous_callback h in
      elim err [ some e ↦ fail_transfer out.text e h1 | none ↦ (none, forward_all caller 0 h1) ]

  unfoldable pub send_storage_callback_to_destination : Bytes → Bytes → Host → Option VmError × Host
  unfolding fail_transfer
  send_storage_callback_to_destination caller return_data h =
      let (err, h1) =
        transfer out.hook caller h.runtime.sc_address (gas_left h) 0 h.runtime.vm_input.call_value
          return_data asynchronous_callback h in
      elim err [ some e ↦ fail_transfer out.text e h1 | none ↦ (none, h1) ]

  -- The mode of a call of a built-in function.
  unfoldable pub builtin_mode : Bytes → AsyncCallInfo → Host → AsyncCallExecutionMode
  builtin_mode function info h =
      let input = h.runtime.vm_input in
      if not (are_in_same_shard out.hook h.runtime.sc_address info.destination)
      then async_builtin_func_cross_shard
      else if is_dcdt_transfer out function
          && is_async input.call_type
          && bytes_eq input.caller_addr info.destination
      then dcdt_transfer_on_call_back
      else async_builtin_func_intra_shard

  unfoldable pub determine_async_call_execution_mode :
      AsyncCallInfo → Host → (AsyncCallExecutionMode × Option VmError) × Host
  determine_async_call_execution_mode info h = elim (out.parse_data info.payload) [
    | none ↦ ((async_unknown, some out.parse_error), h)
    | some (function, _) ↦
        let (has_code, h1) = can_execute_synchronously out info.destination h in
        if out.is_builtin_function_name function
        then ((builtin_mode function info h, none), h)
        else if has_code
        then ((sync_call, none), h1)
        else ((async_unknown, none), h1)
  ]

  module _ (dest : ContractCallInput → Host → DestResult × Host) where
    unfoldable pub execute_sync_destination_call :
        AsyncCallInfo → Host → (Option VmOutput × ℕ × Option VmError) × Host
    execute_sync_destination_call info h =
        elim (create_destination_contract_call_input out info h) [
          | panic ↦ ((none, 0, none), record h { panicked = true })
          | fail e ↦ ((none, 0, some e), h)
          | ok input ↦
              let (result, h1) = dest input h in
              ((some result.vm_output, result.gas_used_before_reset, result.error), h1)
        ]

    -- The callback of a call that was executed here, with its output and error. With no output of
    -- the call, a nil pointer is read.
    unfoldable pub execute_sync_callback_call :
        AsyncCallInfo
        → Option VmOutput
        → Option VmError
        → Bool
        → Host
        → (Option VmOutput × Option VmError) × Host
    execute_sync_callback_call info none call_err intra_shard h =
        ((none, none), record h { panicked = true })
    execute_sync_callback_call info (some o) call_err intra_shard h =
        elim (create_callback_contract_call_input out info o info.destination callback_function_name
          call_err h) [
            | panic ↦ ((none, none), record h { panicked = true })
            | fail e ↦ ((none, some e), h)
            | ok input ↦
                let (used, h1) = compute_gas_used_in_execution_before_reset input h in
                let (result, h2) = dest input (set_points_used 0 h1) in
                let call_succeeded =
                  is_return_ok o.return_code && elim call_err [ none ↦ true | some _ ↦ false ] in
                let callback_succeeded =
                  is_return_ok result.vm_output.return_code
                  && elim result.error [ none ↦ true | some _ ↦ false ] in
                (
                  (some result.vm_output, result.error),
                  (if callback_succeeded && call_succeeded && not intra_shard
                      then use_gas used h2
                      else h2),
                )
          ]

    -- A built-in function that is executed in both shards.
    unfoldable pub cross_shard_call : AsyncCallInfo → Host → Option VmError × Host
    cross_shard_call info h =
        let ((o, used, err), h1) = execute_sync_destination_call info h in
        elim err [
          | some e ↦ (some e, h1)
          | none ↦ elim o [
            | none ↦ (none, h1)
            | some given ↦ (none, if is_return_ok given.return_code then use_gas used h1 else h1)
          ]
        ]

    -- The call is executed here and so is its callback.
    unfoldable pub call_and_callback : Bool → AsyncCallInfo → Host → Option VmError × Host
    call_and_callback intra_shard info h =
        let ((o, _, err), h1) = execute_sync_destination_call info h in
        let ((answer, failure), h2) = execute_sync_callback_call info o err intra_shard h1 in
        (none, process_callback_vm_output out answer failure h2)

    -- What handleAsyncCallBreakpoint does with the call that the contract has registered.
    unfoldable pub handle_async_call : AsyncCallInfo → Host → Option VmError × Host
    handle_async_call info h =
        let ((mode, err), h1) = determine_async_call_execution_mode info h in
        elim err [
          | some e ↦ (some e, h1)
          | none ↦ elim mode [
            | sync_call ↦ call_and_callback false info h1
            | async_builtin_func_intra_shard ↦ call_and_callback true info h1
            | async_builtin_func_cross_shard ↦ cross_shard_call info h1
            | dcdt_transfer_on_call_back ↦
                (none, set_output (prepend_finish info.payload h1.output) h1)
            | async_unknown ↦ send_async_call_to_destination info h1
          ]
        ]

    unfoldable pub handle_async_call_breakpoint : Host → Option VmError × Host
    handle_async_call_breakpoint h =
        let h1 = set_breakpoint breakpoint_none h in
        elim h.runtime.async_call_info [
          | none ↦ (none, record h1 { panicked = true })
          | some info ↦ handle_async_call info h1
        ]

    -- callbackAsync: the callback of a call that was executed here, which gets its new status.
    unfoldable pub callback_async :
        AsyncGeneratedCall
        → VmOutput
        → Option VmError
        → Host
        → (AsyncGeneratedCall × Option VmError) × Host
    callback_async call o call_err h =
        let resolved = is_return_ok o.return_code in
        let ended : AsyncGeneratedCall = record call {
          status = (if resolved then async_call_resolved else async_call_rejected);
        } in
        let function = if resolved then call.success_callback else call.error_callback in
        elim (create_callback_contract_call_input out (info_of call) o call.destination function
          call_err h) [
            | panic ↦ ((ended, none), record h { panicked = true })
            | fail e ↦ ((ended, some e), h)
            | ok input ↦
                let (result, h1) = dest input h in
                (
                  (ended, none),
                  process_callback_vm_output out (some result.vm_output) result.error h1,
                )
          ]

    -- processAsyncCall: the call as it is left, the error and the host. The error of the input is
    -- ignored, and a nil input is read; so is the record of asynchronous calls of a call that has
    -- failed before it had one.
    unfoldable pub process_async_call :
        AsyncGeneratedCall → Host → (AsyncGeneratedCall × Option VmError) × Host
    process_async_call call h = elim (create_destination_contract_call_input out (info_of call) h) [
      | panic ↦ ((call, none), record h { panicked = true })
      | fail e ↦ ((call, none), record h { panicked = true })
      | ok input ↦
          let (result, h1) = dest input h in
          elim result.async_info [
            | none ↦ ((call, none), record h1 { panicked = true })
            | some made ↦
                if length (get_pending_async_calls made).async_context_map == 0
                then callback_async call result.vm_output result.error h1
                else ((call, result.error), h1)
          ]
    ]
