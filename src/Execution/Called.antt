-- ===== src/Execution/Called.antt =====
-- A call of a contract by another, from beginning to end: vmhost/hostCore/execution.go,
-- ExecuteOnDestContext.
use drt_go_chain_vm_v.Execution.Restored.{leave_dest_context-frame, leave_dest_context-output}
use drt_go_chain_vm_v.Common.{Bool-cases, inl, inr, ℕ}
use drt_go_chain_vm_v.Execution.Restored.{kept_output, merged_output}
use drt_go_chain_vm_v.Host.Async.{AsyncContextInfo}
use drt_go_chain_vm_v.Common.{◌↔◌, ◌∙◌}
use drt_go_chain_vm_v.Execution.Frame.{frame-set_total_used_gas, pushed_stacks}
use drt_go_chain_vm_v.Execution.Nested.{begin_on_dest_context, leave_dest_context}
use drt_go_chain_vm_v.Execution.Restored.{
  leave_dest_context-frame, leave_dest_context-output, stacks-begin_on_dest_context,
  stacks-output_of_call,
}
use drt_go_chain_vm_v.Output.{merge_vm_outputs, new_vm_output}
use drt_go_chain_vm_v.Common.{Bool}
use drt_go_chain_vm_v.Host.Error.{not_enough_gas}
use Prim.Native.String.{String}
use drt_go_chain_vm_v.Common.{refl}
use drt_go_chain_vm_v.Host.{OutputContext}
use drt_go_chain_vm_v.Host.Vm.{VmOutput}
use drt_go_chain_vm_v.Output.Finish.{conclude}
use drt_go_chain_vm_v.Common.{Option, arith, false, if◌then◌else◌, none, not, some, true, ◌||◌, ◌≡◌}
use drt_go_chain_vm_v.Common.Bytes.{Bytes}
use drt_go_chain_vm_v.Common.Dict.{Dict}
use drt_go_chain_vm_v.Common.Int.{eq_ℤ, pos}
use drt_go_chain_vm_v.Execution.Contract.{AsyncCalls, execute}
use drt_go_chain_vm_v.Execution.Executed.{stacks-execute}
use drt_go_chain_vm_v.Execution.Frame.{frame_of}
use drt_go_chain_vm_v.Execution.Kept.{KeepStacks}
use drt_go_chain_vm_v.Execution.Nested.{
  conclude_on_dest_context, execute_on_dest_context, finish_execute_on_dest_context, output_of_call,
  run_on_dest_context,
}
use drt_go_chain_vm_v.Execution.Stacks.{stacks-transfer_value_only, stacks_of}
use drt_go_chain_vm_v.Host.{Host}
use drt_go_chain_vm_v.Host.Error.{VmError}
use drt_go_chain_vm_v.Host.Vm.{ContractCallInput}
use drt_go_chain_vm_v.Metering.{is_callback}
use drt_go_chain_vm_v.Output.Finish.{create_vm_output_in_case_of_error, get_vm_output, is_return_ok}
use drt_go_chain_vm_v.Output.Merge.{IsValid}
use drt_go_chain_vm_v.Output.Transfer.{transfer_value_only}
use drt_go_chain_vm_v.Outside.{Outside}

-- The output of an error never has the return code of a success.
create-not_ok :
    (text : VmError → String) (e : VmError) (c : OutputContext)
    → is_return_ok (create_vm_output_in_case_of_error text e c).return_code ≡ false
unfolding create_vm_output_in_case_of_error
create-not_ok text e c = ground arith

IsFaithful : VmOutput × Host → Type 0
IsFaithful (o, h) = is_return_ok o.return_code ≡ true → o ≡ h.output.output_state

conclude-IsFaithful :
    (f : Bytes → Bool) (text : VmError → String) (e : Option VmError) (h : Host)
    → IsFaithful (conclude f text e h)
unfolding conclude IsFaithful
conclude-IsFaithful f text none h succeeded = refl
conclude-IsFaithful f text (some e) h succeeded =
    ground (arith, succeeded, create-not_ok text e h.output)

either-IsFaithful :
    (b : Bool) (x y : VmOutput × Host)
    → IsFaithful x
    → IsFaithful y
    → IsFaithful (if b then x else y)
either-IsFaithful true x y p q = p
either-IsFaithful false x y p q = q

module _ (out : Outside) where
  -- The output of a call is that of its context, unless it is an error's.
  get_vm_output-IsFaithful :
      (h : Host) → IsFaithful (get_vm_output out.is_builtin_function_name out.text h)
  unfolding get_vm_output IsFaithful
  get_vm_output-IsFaithful h =
      either-IsFaithful _ _ _
        (conclude-IsFaithful out.is_builtin_function_name out.text (some not_enough_gas) _)
        (conclude-IsFaithful out.is_builtin_function_name out.text _ _)

  output_of_call-IsFaithful :
      (err : Option VmError) (h : Host) → IsFaithful (output_of_call out err h)
  unfolding output_of_call IsFaithful conclude
  output_of_call-IsFaithful none h = get_vm_output-IsFaithful h
  output_of_call-IsFaithful (some e) h =
      conclude-IsFaithful out.is_builtin_function_name out.text (some e) h

  output_left :
      (o : VmOutput) (c h : Host)
      → IsFaithful (o, h)
      → (leave_dest_context out o h).output
        ≡ (if is_return_ok o.return_code then merged_output c h else kept_output c h)
      → (leave_dest_context out o h).output.output_state ≡ (
          if is_return_ok o.return_code
          then merge_vm_outputs new_vm_output (merge_vm_outputs c.output.output_state o)
          else c.output.output_state)
  unfolding IsFaithful
  output_left o c h faithful left = elim (Bool-cases (is_return_ok o.return_code)) [
    | inl succeeded ↦ cc (left, succeeded, faithful succeeded)
    | inr failing ↦ cc (left, failing)
  ]

  error_iff_code :
      (info : Option AsyncContextInfo) (used : ℕ) (err : Option VmError) (h : Host)
      → let (result, _) = conclude_on_dest_context out info used err h in
        (result.error ≡ none) ↔ (is_return_ok result.vm_output.return_code ≡ true)
  unfolding conclude_on_dest_context finish_execute_on_dest_context output_of_call
  error_iff_code info used (some e) h = ground (arith, create-not_ok out.text e h.output)
  error_iff_code info used none h = ground arith

  -- A call reports an error exactly where the return code of its output is not Ok.
  pub execute_on_dest_context-error :
      (async : AsyncCalls) (reserved : Dict Bytes Unit) (input : ContractCallInput) (h : Host)
      → let (result, _) = execute_on_dest_context out async reserved input h in
        (result.error ≡ none) ↔ (is_return_ok result.vm_output.return_code ≡ true)
  unfolding execute_on_dest_context conclude_on_dest_context finish_execute_on_dest_context
  execute_on_dest_context-error async reserved input h =
      let (begun, h1) = begin_on_dest_context input h in
      let ((info, used, err), h2) = run_on_dest_context out async reserved begun h1 in
      error_iff_code info used err h2

  module _ (async : AsyncCalls) (keep : KeepStacks out async) (reserved : Dict Bytes Unit) where
    stacks-run_on_dest_context :
        (input : ContractCallInput) (h : Host)
        → stacks_of (run_on_dest_context out async reserved input h).1 ≡ stacks_of h
    unfolding run_on_dest_context
    stacks-run_on_dest_context input h =
        let pays =
          not (is_callback input.vm_input.call_type) || eq_ℤ input.vm_input.call_value (pos 0) in
        let (_, h1) =
          if pays
          then transfer_value_only out.hook input.recipient_addr input.vm_input.caller_addr
              input.vm_input.call_value false h
          else (none, h) in
        let (_, h2) = execute out async reserved input h1 in
        ground (
          arith,
          stacks-transfer_value_only out.hook input.recipient_addr input.vm_input.caller_addr
              input.vm_input.call_value false h,
          stacks-execute out async keep reserved input h1,
          keep.processed h2.runtime.async_context_info h2,
        )

    -- The host at the end of a call, before its contexts are popped.
    ended : ContractCallInput → Host → VmOutput × Host
    ended input h =
        let (begun, h1) = begin_on_dest_context input h in
        let ((_, _, err), h2) = run_on_dest_context out async reserved begun h1 in
        output_of_call out err h2

    stacks-ended :
        (input : ContractCallInput) (h : Host) → stacks_of (ended input h).1 ≡ pushed_stacks h
    unfolding ended
    stacks-ended input h =
        let (begun, h1) = begin_on_dest_context input h in
        let ((_, _, err), h2) = run_on_dest_context out async reserved begun h1 in
        stacks-output_of_call out err h2
        ∙ stacks-run_on_dest_context begun h1
        ∙ stacks-begin_on_dest_context input h

    -- Every call that a contract makes, however it ends, gives back to the caller all that is its
    -- own: the big integers, the input, the address, the function, the mode, the records of
    -- asynchronous calls, the instance, the storage address, the gas limits and all the state
    -- stacks, if contract code and asynchronous calls leave the state stacks as they found them.
    pub execute_on_dest_context-restores :
        (input : ContractCallInput) (h : Host)
        → frame_of (execute_on_dest_context out async reserved input h).1 ≡ frame_of h
    unfolding execute_on_dest_context conclude_on_dest_context finish_execute_on_dest_context ended
    execute_on_dest_context-restores input h =
        let (o, h3) = ended input h in
        frame-set_total_used_gas 0 (leave_dest_context out o h3)
        ∙ leave_dest_context-frame out o h h3 (stacks-ended input h)

    -- If contract code and asynchronous calls leave the state stacks as they found them and the
    -- caller's output is valid, then after a call the caller's output is what it was where the output of the call has
    -- a return code other than Ok, and otherwise it is merged with the output of the call.
    pub execute_on_dest_context-output :
        (input : ContractCallInput) (h : Host)
        → IsValid h.output.output_state
        → let (result, h') = execute_on_dest_context out async reserved input h in
          h'.output.output_state ≡ (
            if is_return_ok result.vm_output.return_code
            then merge_vm_outputs new_vm_output
                (merge_vm_outputs h.output.output_state result.vm_output)
            else h.output.output_state)
    unfolding execute_on_dest_context conclude_on_dest_context finish_execute_on_dest_context ended
        IsFaithful
    execute_on_dest_context-output input h v =
        let (o, h3) = ended input h in
        let kept = leave_dest_context-output out o h h3 v (stacks-ended input h) in
        output_left o h h3 (output_of_call-IsFaithful _ _) kept
