-- ===== src/AsyncCall/Breakpoint.antt =====
-- The state stacks of the contexts through the calls that a contract registers with the breakpoint:
-- handleAsyncCallBreakpoint of vmhost/hostCore/asyncCall.go.
use drt_go_chain_vm_v.Execution.Kept.{stacks-compute_gas_used_in_execution_before_reset}
use drt_go_chain_vm_v.AsyncCall.Process.{
  call_and_callback, cross_shard_call, handle_async_call, handle_async_call_breakpoint,
}
use drt_go_chain_vm_v.Common.{false, ltb, not, true, ◌&&◌}
use drt_go_chain_vm_v.Execution.Kept.{stacks-fail_with}
use drt_go_chain_vm_v.Execution.Stacks.{
  same_output, stack-get_output_account, stacks-set_breakpoint, stacks-set_points_used,
  stacks-transfer_value_only,
}
use drt_go_chain_vm_v.Metering.{is_callback}
use drt_go_chain_vm_v.Output.Account.{prepend_finish, set_output_account}
use drt_go_chain_vm_v.Output.Transfer.{transfer_value_only}
use drt_go_chain_vm_v.Runtime.Control.{breakpoint_none, set_breakpoint}
use Prim.Native.String.{String}
use drt_go_chain_vm_v.AsyncCall.{can_execute_synchronously}
use drt_go_chain_vm_v.AsyncCall.Process.{
  determine_async_call_execution_mode, execute_sync_callback_call, execute_sync_destination_call,
  fail_transfer, forward_all, process_callback_vm_output, send_async_call_to_destination,
}
use drt_go_chain_vm_v.Common.{Bool, Option, arith, none, refl, some, ℕ, ◌%◌, ◌+◌, ◌^◌, ◌∙◌, ◌≡◌}
use drt_go_chain_vm_v.Common.Bytes.{Bytes}
use drt_go_chain_vm_v.Common.Int.{pos, ℤ}
use drt_go_chain_vm_v.Execution.Input.{set_bytes}
use drt_go_chain_vm_v.Execution.Nested.{DestResult}
use drt_go_chain_vm_v.Execution.Stacks.{
  stacks-forward_gas, stacks-get_code, stacks-panicked, stacks-use_gas, stacks_of,
}
use drt_go_chain_vm_v.Host.{Host}
use drt_go_chain_vm_v.Host.Async.{AsyncCallInfo}
use drt_go_chain_vm_v.Host.Error.{VmError}
use drt_go_chain_vm_v.Host.Vm.{CallType, ContractCallInput, VmOutput, asynchronous_call}
use drt_go_chain_vm_v.Metering.{forward_gas, gas_left}
use drt_go_chain_vm_v.Output.Account.{finish, set_return_message}
use drt_go_chain_vm_v.Output.Transfer.{transfer}
use drt_go_chain_vm_v.Outside.{Outside}

pub stacks-process_callback_vm_output :
    (out : Outside) (o : Option VmOutput) (e : Option VmError) (h : Host)
    → stacks_of (process_callback_vm_output out o e h) ≡ stacks_of h
unfolding stacks_of process_callback_vm_output finish set_return_message
stacks-process_callback_vm_output out o none h = refl
stacks-process_callback_vm_output out o (some e) h = refl

stacks-forward_all : (a : Bytes) (n : ℕ) (h : Host) → stacks_of (forward_all a n h) ≡ stacks_of h
unfolding forward_all
stacks-forward_all a n h =
    let left = gas_left h in
    let total = (left + n) % 2 ^ 64 in
    stacks-use_gas left (forward_gas h.runtime.sc_address a total h)
    ∙ stacks-forward_gas h.runtime.sc_address a total h

stacks-fail_transfer :
    (text : VmError → String) (e : VmError) (h : Host)
    → stacks_of (fail_transfer text e h).1 ≡ stacks_of h
unfolding fail_transfer
stacks-fail_transfer text e h = stacks-fail_with (text e) h

module _ (out : Outside) where
  stacks-transfer :
      (a b : Bytes) (gas locked : ℕ) (v : ℤ) (input : Bytes) (t : CallType) (h : Host)
      → stacks_of (transfer out.hook a b gas locked v input t h).1 ≡ stacks_of h
  unfolding transfer set_output_account stacks_of
  stacks-transfer a b gas locked v input t h =
      let check = ltb 0 gas && not (is_callback t) in
      let (_, h1) = transfer_value_only out.hook a b v check h in
      ground (
        arith,
        stacks-transfer_value_only out.hook a b v check h,
        stack-get_output_account a h1.output,
      )

  pub stacks-can_execute_synchronously :
      (a : Bytes) (h : Host) → stacks_of (can_execute_synchronously out a h).1 ≡ stacks_of h
  unfolding can_execute_synchronously
  stacks-can_execute_synchronously a h = stacks-get_code out.hook a h

  pub stacks-send_async_call_to_destination :
      (info : AsyncCallInfo) (h : Host)
      → stacks_of (send_async_call_to_destination out info h).1 ≡ stacks_of h
  unfolding send_async_call_to_destination
  stacks-send_async_call_to_destination info h =
      let (_, h1) =
        transfer out.hook info.destination h.runtime.sc_address info.gas_limit info.gas_locked
          (pos (set_bytes info.value_bytes)) info.payload asynchronous_call h in
      let sent =
        stacks-transfer info.destination h.runtime.sc_address info.gas_limit info.gas_locked
          (pos (set_bytes info.value_bytes)) info.payload asynchronous_call h in
      grind (
        arith,
        sent,
        stacks-fail_transfer out.text,
        stacks-forward_all info.destination info.gas_locked h1,
      )

  stacks-determine_async_call_execution_mode :
      (info : AsyncCallInfo) (h : Host)
      → stacks_of (determine_async_call_execution_mode out info h).1 ≡ stacks_of h
  unfolding determine_async_call_execution_mode
  stacks-determine_async_call_execution_mode info h =
      grind (arith, stacks-can_execute_synchronously info.destination h)

  module _ (dest : ContractCallInput → Host → DestResult × Host)
      (keeps : (input : ContractCallInput) (h : Host)
        → stacks_of (dest input h).1 ≡ stacks_of h) where
    stacks-execute_sync_destination_call :
        (info : AsyncCallInfo) (h : Host)
        → stacks_of (execute_sync_destination_call out dest info h).1 ≡ stacks_of h
    unfolding execute_sync_destination_call
    stacks-execute_sync_destination_call info h = grind (arith, keeps, stacks-panicked h)

    stacks-execute_sync_callback_call :
        (info : AsyncCallInfo) (o : Option VmOutput) (e : Option VmError) (intra : Bool) (h : Host)
        → stacks_of (execute_sync_callback_call out dest info o e intra h).1 ≡ stacks_of h
    unfolding execute_sync_callback_call
    stacks-execute_sync_callback_call info none e intra h = stacks-panicked h
    stacks-execute_sync_callback_call info (some o) e intra h = grind (
      arith,
      keeps,
      stacks-panicked h,
      stacks-use_gas,
      stacks-set_points_used 0,
      stacks-compute_gas_used_in_execution_before_reset,
    )

    stacks-cross_shard_call :
        (info : AsyncCallInfo) (h : Host)
        → stacks_of (cross_shard_call out dest info h).1 ≡ stacks_of h
    unfolding cross_shard_call
    stacks-cross_shard_call info h =
        let ((_, used, _), h1) = execute_sync_destination_call out dest info h in
        ground (arith, stacks-execute_sync_destination_call info h, stacks-use_gas used h1)

    stacks-call_and_callback :
        (intra : Bool) (info : AsyncCallInfo) (h : Host)
        → stacks_of (call_and_callback out dest intra info h).1 ≡ stacks_of h
    unfolding call_and_callback
    stacks-call_and_callback intra info h =
        let ((o, _, err), h1) = execute_sync_destination_call out dest info h in
        let ((answer, failure), h2) = execute_sync_callback_call out dest info o err intra h1 in
        stacks-process_callback_vm_output out answer failure h2
        ∙ stacks-execute_sync_callback_call info o err intra h1
        ∙ stacks-execute_sync_destination_call info h

    stacks-handle_async_call :
        (info : AsyncCallInfo) (h : Host)
        → stacks_of (handle_async_call out dest info h).1 ≡ stacks_of h
    unfolding handle_async_call prepend_finish
    stacks-handle_async_call info h =
        let (_, h1) = determine_async_call_execution_mode out info h in
        ground (
          arith,
          stacks-determine_async_call_execution_mode info h,
          stacks-call_and_callback false info h1,
          stacks-call_and_callback true info h1,
          stacks-cross_shard_call info h1,
          stacks-send_async_call_to_destination info h1,
          same_output (prepend_finish info.payload h1.output) h1 refl,
        )

    pub stacks-handle_async_call_breakpoint :
        (h : Host) → stacks_of (handle_async_call_breakpoint out dest h).1 ≡ stacks_of h
    unfolding handle_async_call_breakpoint
    stacks-handle_async_call_breakpoint h =
        let h1 = set_breakpoint breakpoint_none h in
        grind (
          arith,
          stacks-set_breakpoint breakpoint_none h,
          stacks-panicked h1,
          stacks-handle_async_call,
        )
