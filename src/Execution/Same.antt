-- ===== src/Execution/Same.antt =====
-- What a call on the same context gives back to its caller: vmhost/hostCore/execution.go,
-- ExecuteOnSameContext.
use drt_go_chain_vm_v.Common.{Option, false, if◌then◌else◌, ◌∙◌}
use drt_go_chain_vm_v.Common.Bytes.{Bytes}
use drt_go_chain_vm_v.Common.Dict.{Dict}
use drt_go_chain_vm_v.Execution.Contract.{AsyncCalls}
use drt_go_chain_vm_v.Execution.Executed.{stacks-execute}
use drt_go_chain_vm_v.Execution.Frame.{frame-forward_gas, frame-restore_gas}
use drt_go_chain_vm_v.Execution.Kept.{KeepStacks}
use drt_go_chain_vm_v.Execution.Nested.{
  begin_on_same_context, execute_on_same_context, finish_execute_on_same_context,
  run_on_same_context,
}
use drt_go_chain_vm_v.Execution.Stacks.{stacks-get_vm_output, stacks-transfer_value_only}
use drt_go_chain_vm_v.Host.Error.{VmError}
use drt_go_chain_vm_v.Host.Vm.{ContractCallInput}
use drt_go_chain_vm_v.Metering.{
  init_state_from_contract_call_input, restore_gas, unlock_gas_if_async_callback,
}
use drt_go_chain_vm_v.Metering.Usage.{gas_spent_by_contract}
use drt_go_chain_vm_v.Output.Finish.{get_vm_output, is_return_ok}
use drt_go_chain_vm_v.Output.Transfer.{transfer_value_only}
use drt_go_chain_vm_v.Outside.{Outside}
use drt_go_chain_vm_v.Runtime.{init_state_from_call_input, set_vm_input}
use drt_go_chain_vm_v.BigInt.Handles.{pop_set_active_state-push_state_values}
use drt_go_chain_vm_v.Common.{[], ap, arith, ◌≡◌}
use drt_go_chain_vm_v.Execution.Frame.{Frame, frame_of, pushed_stacks}
use drt_go_chain_vm_v.Execution.Stacks.{Stacks, stacks_of}
use drt_go_chain_vm_v.Host.{Host}
use drt_go_chain_vm_v.Metering.Stack.{pop_set_active_state-push_state}
use drt_go_chain_vm_v.Runtime.Stack.{pop_set_active_state-push_state_runtime}
use drt_go_chain_vm_v.Output
use drt_go_chain_vm_v.BigInt
use drt_go_chain_vm_v.Metering
use drt_go_chain_vm_v.Runtime

-- The stacks once ExecuteOnSameContext has pushed the state of the host; those of the storage stay.
unfoldable pub same_stacks : Host → Stacks
same_stacks h = record (pushed_stacks h) { addresses = h.storage.state_stack }

-- What of its frame a caller has back for certain: all but the values of the big integers and the
-- address of the storage.
unfoldable pub stripped : Frame → Frame
stripped f = record f { big_int = record (f.big_int) { values = [] }; storage_address = [] }

unfoldable pub common_frame : Host → Frame
unfolding stripped
common_frame h = stripped (frame_of h)

-- The contexts that ExecuteOnSameContext has pushed are popped, the output as in both ends.
popped_same :
    (c h : Host)
    → stacks_of h ≡ same_stacks c
    → common_frame (record h {
      big_int = BigInt.pop_set_active_state h.big_int;
      metering = Metering.pop_set_active_state h.metering;
      output = Output.pop_set_active_state h.output;
      runtime = Runtime.pop_set_active_state h.runtime;
    })
      ≡ common_frame c
unfolding frame_of common_frame stacks_of same_stacks pushed_stacks Output.push_state
    Output.pop_set_active_state
popped_same c h e = ground (
  arith,
  pop_set_active_state-push_state_values c.big_int h.big_int (ap (λ (s : Stacks). s.big_ints) e),
  pop_set_active_state-push_state c.metering h.metering (ap (λ (s : Stacks). s.meterings) e),
  pop_set_active_state-push_state_runtime c.runtime h.runtime (ap (λ (s : Stacks). s.runtimes) e)
      (ap (λ (s : Stacks). s.instances) e),
  ap (λ (s : Stacks). s.outputs) e,
  ap (λ (s : Stacks). s.addresses) e,
)

discarded_same :
    (c h : Host)
    → stacks_of h ≡ same_stacks c
    → common_frame (record h {
      big_int = BigInt.pop_discard h.big_int;
      output = Output.pop_discard h.output;
      metering = Metering.pop_set_active_state h.metering;
      runtime = Runtime.pop_set_active_state h.runtime;
    })
      ≡ common_frame c
unfolding frame_of common_frame stacks_of same_stacks pushed_stacks Output.push_state
    Output.pop_discard BigInt.pop_discard BigInt.push_state
discarded_same c h e = ground (
  arith,
  pop_set_active_state-push_state c.metering h.metering (ap (λ (s : Stacks). s.meterings) e),
  pop_set_active_state-push_state_runtime c.runtime h.runtime (ap (λ (s : Stacks). s.runtimes) e)
      (ap (λ (s : Stacks). s.instances) e),
  ap (λ (s : Stacks). s.outputs) e,
  ap (λ (s : Stacks). s.big_ints) e,
  ap (λ (s : Stacks). s.addresses) e,
)

stacks-begin_on_same_context :
    (input : ContractCallInput) (h : Host)
    → stacks_of (begin_on_same_context input h).1 ≡ same_stacks h
unfolding begin_on_same_context stacks_of same_stacks pushed_stacks
    init_state_from_contract_call_input unlock_gas_if_async_callback init_state_from_call_input
    set_vm_input
stacks-begin_on_same_context input h = ground arith

module _ (out : Outside) where
  finish_execute_on_same_context-restores :
      (err : Option VmError) (c h : Host)
      → stacks_of h ≡ same_stacks c
      → common_frame (finish_execute_on_same_context out err h) ≡ common_frame c
  unfolding finish_execute_on_same_context common_frame
  finish_execute_on_same_context-restores err c h e =
      let (o, h1) = get_vm_output out.is_builtin_function_name out.text h in
      let spent = if is_return_ok o.return_code then gas_spent_by_contract h1 else 0 in
      let popped : Host = record h1 {
        big_int = BigInt.pop_discard h1.big_int;
        output = Output.pop_discard h1.output;
        metering = Metering.pop_set_active_state h1.metering;
        runtime = Runtime.pop_set_active_state h1.runtime;
      } in
      let paid = restore_gas o.gas_remaining popped in
      let succeeded =
        ap stripped (frame-forward_gas paid.runtime.sc_address h.runtime.sc_address spent paid)
        ∙ ap stripped (frame-restore_gas o.gas_remaining popped)
        ∙ discarded_same c h1 (stacks-get_vm_output out h ∙ e) in
      let failing = popped_same c h e in ground (arith, succeeded, failing)

  module _ (async : AsyncCalls) (keep : KeepStacks out async) (reserved : Dict Bytes Unit) where
    -- However a call on the same context ends, the caller has back its input, address, function,
    -- mode, records of asynchronous calls, instance, gas limits and all the state stacks, if contract
    -- code and asynchronous calls leave the state stacks as they found them.
    pub execute_on_same_context-restores :
        (input : ContractCallInput) (h : Host)
        → common_frame (execute_on_same_context out async reserved input h).1 ≡ common_frame h
    unfolding execute_on_same_context run_on_same_context
    execute_on_same_context-restores input h =
        let (begun, h1) = begin_on_same_context input h in
        let (_, h2) =
          transfer_value_only out.hook begun.recipient_addr begun.vm_input.caller_addr
            begun.vm_input.call_value false h1 in
        let (err, h3) = run_on_same_context out async reserved begun h1 in
        let run : stacks_of h3 ≡ same_stacks h = ground (
          arith,
          stacks-begin_on_same_context input h,
          stacks-transfer_value_only out.hook begun.recipient_addr begun.vm_input.caller_addr
              begun.vm_input.call_value false h1,
          stacks-execute out async keep reserved begun h2,
        ) in
        ground (arith, finish_execute_on_same_context-restores err h h3 run)
