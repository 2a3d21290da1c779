-- ===== src/Execution/Tests.antt =====
-- Tests of the execution of contracts at concrete states.
use drt_go_chain_vm_v.Common.{[], none, refl, true, ◌↔◌, ◌≡◌}
use drt_go_chain_vm_v.Example.{call_of_bob, host, outside}
use drt_go_chain_vm_v.Execution.Called.{execute_on_dest_context-error}
use drt_go_chain_vm_v.Execution.Contract.{AsyncCalls}
use drt_go_chain_vm_v.Execution.Kept.{KeepStacks}
use drt_go_chain_vm_v.Execution.Nested.{execute_on_dest_context, execute_on_same_context}
use drt_go_chain_vm_v.Execution.Same.{common_frame, execute_on_same_context-restores}
use drt_go_chain_vm_v.Execution.Stacks.{stacks_of}
use drt_go_chain_vm_v.Execution.Transaction.{
  apply, execute_on_dest_context-refines, outcome_of, view_of,
}
use drt_go_chain_vm_v.Output.Account.{finish}
use drt_go_chain_vm_v.Output.Finish.{is_return_ok}
use drt_go_chain_vm_v.Output.Merge.{IsValid}

-- Contracts that record one more result, and no asynchronous call does anything.
abbrev no_async : AsyncCalls
no_async = record {
  handle_async_call_breakpoint = λ h. (none, h);
  process_async_info = λ info h. (record { info = info; pending = info; error = none }, h);
  process_callback_stack = λ h. (none, h);
  send_callback_to_current_caller = λ h. (none, h);
  get_function_by_call_type = λ _ h. ((h.runtime.call_function, none), h);
}

no_async_keeps : KeepStacks outside no_async
unfolding stacks_of finish
no_async_keeps = record { call = λ _ _ _. refl; breakpoint = λ _. refl; processed = λ _ _. refl }

host_IsValid : IsValid host.output.output_state
host_IsValid = record { distinct_addresses = tt; sound_accounts = tt; has_refund = λ e. cc e }

execute_on_dest_context-refines_example :
    let (result, h') = execute_on_dest_context outside no_async [] call_of_bob host in
    view_of h' ≡ apply (outcome_of result) (view_of host)
execute_on_dest_context-refines_example =
    execute_on_dest_context-refines outside no_async no_async_keeps [] call_of_bob host host_IsValid

execute_on_dest_context-error_example :
    let (result, _) = execute_on_dest_context outside no_async [] call_of_bob host in
    (result.error ≡ none) ↔ (is_return_ok result.vm_output.return_code ≡ true)
execute_on_dest_context-error_example =
    execute_on_dest_context-error outside no_async [] call_of_bob host

execute_on_same_context-restores_example :
    common_frame (execute_on_same_context outside no_async [] call_of_bob host).1
    ≡ common_frame host
execute_on_same_context-restores_example =
    execute_on_same_context-restores outside no_async no_async_keeps [] call_of_bob host
