-- ===== src/Execution/Kept.antt =====
-- The state stacks of the contexts through the operations of vmhost/hostCore/execution.go.
use drt_go_chain_vm_v.Common.{Option}
use drt_go_chain_vm_v.Execution.Contract.{call_init_function, call_sc_method_indirect, checked_exit}
use drt_go_chain_vm_v.Execution.Stacks.{stacks-panicked}
use drt_go_chain_vm_v.Host.Error.{VmError}
use drt_go_chain_vm_v.Runtime.Control.{get_breakpoint, get_function_to_call}
use drt_go_chain_vm_v.Common.{arith, if◌then◌else◌, ltb, none, some}
use drt_go_chain_vm_v.Execution.Builtin.{forward_transfer}
use drt_go_chain_vm_v.Execution.Stacks.{
  stacks-add_to_active_state, stacks-forward_gas, stacks-set_points_used,
}
use drt_go_chain_vm_v.Host.Runtime.{set_points_used}
use drt_go_chain_vm_v.Metering.{is_callback}
use drt_go_chain_vm_v.Overflow.{add_uint64, sub_uint64}
use Prim.Native.String.{String}
use drt_go_chain_vm_v.Common.{Bool, List, [], refl, ℕ, ◌∙◌, ◌∷◌, ◌≡◌}
use drt_go_chain_vm_v.Common.Bytes.{Bytes}
use drt_go_chain_vm_v.Common.Dict.{Dict}
use drt_go_chain_vm_v.Execution.{compute_gas_used_in_execution_before_reset}
use drt_go_chain_vm_v.Execution.Builtin.{
  after_builtin, call_builtin_function, fail_with, forward_accounts, forward_transfers,
  revert_dcdt_transfer,
}
use drt_go_chain_vm_v.Execution.Contract.{
  AsyncCalls, call_function, handle_breakpoint, handle_breakpoint_if_any, run_function,
}
use drt_go_chain_vm_v.Execution.Stacks.{stacks-fail_execution, stacks-use_gas, stacks_of}
use drt_go_chain_vm_v.Host.{Host}
use drt_go_chain_vm_v.Host.Async.{AsyncContextInfo}
use drt_go_chain_vm_v.Host.Vm.{ContractCallInput, Instance, OutputAccount, OutputTransfer, VmOutput}
use drt_go_chain_vm_v.Metering.{gas_left, get_contract_gas_state, get_total_forwarded_gas, use_gas}
use drt_go_chain_vm_v.Metering.Usage.{gas_used_by_contract, gas_used_for_execution}
use drt_go_chain_vm_v.Outside.{Outside}

-- Contract code and the operations of asynchronous calls leave the stacks as they found them: each
-- pops what it has pushed.
pub record KeepStacks (out : Outside) (async : AsyncCalls) : Type 0 where
  pub call :
      (i : Instance) (name : Bytes) (h : Host)
      → stacks_of (out.engine.call i name h).1 ≡ stacks_of h
  pub breakpoint : (h : Host) → stacks_of (async.handle_async_call_breakpoint h).1 ≡ stacks_of h
  pub processed :
      (info : AsyncContextInfo) (h : Host)
      → stacks_of (async.process_async_info info h).1 ≡ stacks_of h

pub stacks-compute_gas_used_in_execution_before_reset :
    (input : ContractCallInput) (h : Host)
    → stacks_of (compute_gas_used_in_execution_before_reset input h).1 ≡ stacks_of h
unfolding stacks_of compute_gas_used_in_execution_before_reset gas_used_for_execution
    gas_used_by_contract get_total_forwarded_gas get_contract_gas_state
stacks-compute_gas_used_in_execution_before_reset input h = refl

stacks-forward_transfer :
    (callback : Bool) (t : OutputTransfer) (acc : ℕ × Host)
    → stacks_of (forward_transfer callback t acc).1 ≡ stacks_of acc.1
unfolding forward_transfer
stacks-forward_transfer callback t (gas, h) =
    ground
      (arith, stacks-forward_gas h.runtime.sc_address [] (add_uint64 t.gas_locked t.gas_limit) h)

stacks-forward_transfers :
    (callback : Bool) (ts : List OutputTransfer) (acc : ℕ × Host)
    → stacks_of (forward_transfers callback ts acc).1 ≡ stacks_of acc.1
unfolding forward_transfers
stacks-forward_transfers callback [] acc = refl
stacks-forward_transfers callback (t ∷ ts) acc =
    stacks-forward_transfers callback ts (forward_transfer callback t acc)
    ∙ stacks-forward_transfer callback t acc

stacks-forward_accounts :
    (callback : Bool) (m : Dict Bytes OutputAccount) (acc : ℕ × Host)
    → stacks_of (forward_accounts callback m acc).1 ≡ stacks_of acc.1
unfolding forward_accounts
stacks-forward_accounts callback [] acc = refl
stacks-forward_accounts callback ((k, a) ∷ m) acc =
    stacks-forward_accounts callback m (forward_transfers callback a.output_transfers acc)
    ∙ stacks-forward_transfers callback a.output_transfers acc

pub stacks-fail_with : (m : String) (h : Host) → stacks_of (fail_with m h) ≡ stacks_of h
unfolding fail_with
stacks-fail_with m h =
    stacks-fail_execution m (use_gas (gas_left h) h) ∙ stacks-use_gas (gas_left h) h

stacks-get_breakpoint : (h : Host) → stacks_of (get_breakpoint h).1 ≡ stacks_of h
unfolding get_breakpoint stacks_of
stacks-get_breakpoint h = ground arith

pub stacks-get_function_to_call : (h : Host) → stacks_of (get_function_to_call h).1 ≡ stacks_of h
unfolding get_function_to_call stacks_of
stacks-get_function_to_call h = ground arith

module _ (out : Outside) where
  stacks-after_builtin :
      (input : ContractCallInput) (o : VmOutput) (h : Host)
      → stacks_of (after_builtin out input o h).1 ≡ stacks_of h
  unfolding after_builtin
  stacks-after_builtin input o h =
      let callback = is_callback input.vm_input.call_type in
      let provided = input.vm_input.gas_provided in
      let start : ℕ × Host = ((sub_uint64 provided o.gas_remaining).0, h) in
      let (gas_consumed, h1) = forward_accounts callback o.output_accounts start in
      let h2 = if ltb o.gas_remaining provided then use_gas gas_consumed h1 else h1 in
      let paid : stacks_of h2 ≡ stacks_of h = ground (
        arith,
        stacks-use_gas gas_consumed h1,
        stacks-forward_accounts callback o.output_accounts start,
      ) in
      grind (arith, paid, stacks-panicked, stacks-add_to_active_state)

  pub stacks-call_builtin_function :
      (input : ContractCallInput) (h : Host)
      → stacks_of (call_builtin_function out input h).1 ≡ stacks_of h
  unfolding call_builtin_function
  stacks-call_builtin_function input h =
      let (_, h1) = compute_gas_used_in_execution_before_reset input h in
      let h2 = set_points_used 0 h1 in
      let reset : stacks_of h2 ≡ stacks_of h =
        stacks-set_points_used 0 h1 ∙ stacks-compute_gas_used_in_execution_before_reset input h in
      let (result, err) = out.hook.process_built_in_function input in
      grind (
        arith,
        reset,
        stacks-panicked h2,
        stacks-use_gas input.vm_input.gas_provided h2,
        stacks-after_builtin input,
      )

  pub stacks-revert_dcdt_transfer :
      (input : ContractCallInput) (h : Host)
      → stacks_of (revert_dcdt_transfer out input h) ≡ stacks_of h
  unfolding revert_dcdt_transfer
  stacks-revert_dcdt_transfer input h = grind (arith, stacks-fail_with)

  module _ (async : AsyncCalls) (keep : KeepStacks out async) where
    stacks-handle_breakpoint :
        (n : ℕ) (h : Host) → stacks_of (handle_breakpoint out async n h).1 ≡ stacks_of h
    unfolding handle_breakpoint
    stacks-handle_breakpoint n h = ground (arith, keep.breakpoint h)

    stacks-handle_breakpoint_if_any :
        (e : Option VmError) (h : Host)
        → stacks_of (handle_breakpoint_if_any out async e h).1 ≡ stacks_of h
    unfolding handle_breakpoint_if_any
    stacks-handle_breakpoint_if_any none h = refl
    stacks-handle_breakpoint_if_any (some e) h =
        let (value, h1) = get_breakpoint h in
        ground (arith, stacks-handle_breakpoint value h1, stacks-get_breakpoint h)

    stacks-call_function :
        (name : Bytes) (h : Host) → stacks_of (call_function out name h).1 ≡ stacks_of h
    unfolding call_function
    stacks-call_function name h = grind (arith, keep.call, stacks-panicked h)

    stacks-run_function :
        (name : Bytes) (h : Host) → stacks_of (run_function out async name h).1 ≡ stacks_of h
    unfolding run_function
    stacks-run_function name h =
        let (err, h1) = call_function out name h in
        stacks-handle_breakpoint_if_any err h1 ∙ stacks-call_function name h

    stacks-checked_exit :
        (r : Option VmError × Host) → stacks_of (checked_exit out async r).1 ≡ stacks_of r.1
    unfolding checked_exit
    stacks-checked_exit (some e, h) = refl
    stacks-checked_exit (none, h) = refl

    pub stacks-call_init_function :
        (h : Host) → stacks_of (call_init_function out async h).1 ≡ stacks_of h
    unfolding call_init_function
    stacks-call_init_function h = grind (arith, stacks-checked_exit, stacks-run_function)

    pub stacks-call_sc_method_indirect :
        (h : Host) → stacks_of (call_sc_method_indirect out async h).1 ≡ stacks_of h
    unfolding call_sc_method_indirect
    stacks-call_sc_method_indirect h =
        let ((name, _), h1) = get_function_to_call h in
        ground (arith, stacks-run_function name h1, stacks-get_function_to_call h)
