-- ===== src/Execution/Restored.antt =====
-- What a call of a contract by another gives back to its caller, whether it succeeds or fails:
-- vmhost/hostCore/execution.go, ExecuteOnDestContext.
use drt_go_chain_vm_v.Common.{Bool-cases, List, inl, inr}
use drt_go_chain_vm_v.Execution.Frame.{
  Frame, frame-forward_gas, frame-pop_contexts, frame-restore_gas, output-forward_gas,
  output-restore_gas,
}
use drt_go_chain_vm_v.Execution.Nested.{compute_gas_used_before}
use drt_go_chain_vm_v.Metering.{
  init_state_from_contract_call_input, set_total_used_gas, unlock_gas_if_async_callback,
}
use drt_go_chain_vm_v.Output.{censor_vm_output}
use drt_go_chain_vm_v.Runtime.{init_state_from_call_input, set_vm_input}
use drt_go_chain_vm_v.Storage.{set_address}
use drt_go_chain_vm_v.Blockchain.{set_output}
use drt_go_chain_vm_v.Common.{Option, ap, arith, if◌then◌else◌, none, refl, some, ◌∙◌, ◌≡◌}
use drt_go_chain_vm_v.Execution.Frame.{frame_of, pushed_stacks}
use drt_go_chain_vm_v.Execution.Nested.{
  begin_on_dest_context, leave_dest_context, output_of_call, pop_contexts, settle,
}
use drt_go_chain_vm_v.Execution.Stacks.{Stacks, stacks-get_vm_output, stacks_of}
use drt_go_chain_vm_v.Host.{Host, OutputContext}
use drt_go_chain_vm_v.Host.Error.{VmError}
use drt_go_chain_vm_v.Host.Vm.{ContractCallInput, VmOutput}
use drt_go_chain_vm_v.Metering.{restore_gas}
use drt_go_chain_vm_v.Metering.Usage.{gas_spent_by_contract}
use drt_go_chain_vm_v.Output.{merge_vm_outputs, new_vm_output, pop_merge_active_state}
use drt_go_chain_vm_v.Output.Finish.{is_return_ok}
use drt_go_chain_vm_v.Output.Merge.{
  IsValid, merge_vm_outputs-new, pop_set_active_state-push_state_output,
}
use drt_go_chain_vm_v.Outside.{Outside}
use drt_go_chain_vm_v.Output
use drt_go_chain_vm_v.BigInt

-- A host whose frame is another's but for the stack of outputs gets that frame with its output.
reframed :
    (o : OutputContext) (c h : Host) (outputs : List VmOutput)
    → frame_of h ≡ record (frame_of c) { stacks = record (stacks_of c) { outputs = outputs } }
    → o.state_stack ≡ c.output.state_stack
    → frame_of (set_output o h) ≡ frame_of c
unfolding frame_of stacks_of
reframed o c h outputs e s =
    ap (λ (f : Frame). record f { stacks = record (f.stacks) { outputs = o.state_stack } }) e
    ∙ ap
        (λ (t : List VmOutput). record (frame_of c) {
          stacks = record (stacks_of c) { outputs = t };
        })
        s

-- The output a failed call leaves, and the one a successful call leaves.
abbrev pub kept_output : Host → Host → OutputContext
kept_output c h = record (c.output) { code_updates = h.output.code_updates }

abbrev pub merged_output : Host → Host → OutputContext
merged_output c h = record (h.output) {
  output_state =
      merge_vm_outputs new_vm_output (merge_vm_outputs c.output.output_state h.output.output_state);
  state_stack = c.output.state_stack;
}

popped_stack :
    (c h : Host)
    → stacks_of h ≡ pushed_stacks c
    → ((Output.pop_set_active_state h.output).state_stack ≡ c.output.state_stack)
      × ((pop_merge_active_state h.output).state_stack ≡ c.output.state_stack)
unfolding stacks_of pushed_stacks pop_merge_active_state Output.push_state
    Output.pop_set_active_state
popped_stack c h e =
    let s : h.output.state_stack ≡ (Output.push_state c.output).state_stack =
      ap (λ (x : Stacks). x.outputs) e in
    ground (arith, s)

popped_output :
    (c h : Host)
    → IsValid c.output.output_state
    → stacks_of h ≡ pushed_stacks c
    → (Output.pop_set_active_state h.output ≡ kept_output c h)
      × (pop_merge_active_state h.output ≡ merged_output c h)
unfolding stacks_of pushed_stacks pop_merge_active_state Output.push_state
popped_output c h v e =
    let s : h.output.state_stack ≡ (Output.push_state c.output).state_stack =
      ap (λ (x : Stacks). x.outputs) e in
    (
      pop_set_active_state-push_state_output c.output h.output v s,
      ground (arith, s, merge_vm_outputs-new c.output.output_state v),
    )

module _ (out : Outside) where
  frame-settle :
      (o : VmOutput) (c h : Host)
      → stacks_of h ≡ pushed_stacks c
      → frame_of (settle out o h)
        ≡ record (frame_of c) { stacks = record (stacks_of c) { outputs = h.output.state_stack } }
  unfolding settle
  frame-settle o c h e =
      let paid = restore_gas o.gas_remaining (pop_contexts h) in
      let spent = if is_return_ok o.return_code then gas_spent_by_contract h else 0 in
      frame-forward_gas paid.runtime.sc_address h.runtime.sc_address spent paid
      ∙ frame-restore_gas o.gas_remaining (pop_contexts h)
      ∙ frame-pop_contexts c h e

  output-settle : (o : VmOutput) (h : Host) → (settle out o h).output ≡ h.output
  unfolding settle pop_contexts
  output-settle o h =
      let paid = restore_gas o.gas_remaining (pop_contexts h) in
      let spent = if is_return_ok o.return_code then gas_spent_by_contract h else 0 in
      output-forward_gas paid.runtime.sc_address h.runtime.sc_address spent paid
      ∙ output-restore_gas o.gas_remaining (pop_contexts h)

  -- The frame of the caller is back.
  pub leave_dest_context-frame :
      (o : VmOutput) (c h : Host)
      → stacks_of h ≡ pushed_stacks c
      → frame_of (leave_dest_context out o h) ≡ frame_of c
  unfolding leave_dest_context
  leave_dest_context-frame o c h e =
      let settled = settle out o h in
      let (kept, merges) = popped_stack c h e in
      let framed = frame-settle o c h e in
      let same = output-settle o h in
      let outputs = h.output.state_stack in
      let failed_frame =
        reframed (Output.pop_set_active_state settled.output) c settled outputs framed
          (ap (λ (x : OutputContext). (Output.pop_set_active_state x).state_stack) same ∙ kept) in
      let merged_frame =
        reframed (pop_merge_active_state settled.output) c settled outputs framed
          (ap (λ (x : OutputContext). (pop_merge_active_state x).state_stack) same ∙ merges) in
      elim (Bool-cases (is_return_ok o.return_code)) [
        | inl succeeded ↦ rw succeeded merged_frame
        | inr errs ↦ rw errs failed_frame
      ]

  -- The output is kept or merged, by the way the call ended.
  pub leave_dest_context-output :
      (o : VmOutput) (c h : Host)
      → IsValid c.output.output_state
      → stacks_of h ≡ pushed_stacks c
      → (leave_dest_context out o h).output
        ≡ (if is_return_ok o.return_code then merged_output c h else kept_output c h)
  unfolding leave_dest_context
  leave_dest_context-output o c h v e =
      let (keeps, merges) = popped_output c h v e in
      let same = output-settle o h in
      elim (Bool-cases (is_return_ok o.return_code)) [
        | inl succeeded ↦ rw succeeded (ap pop_merge_active_state same ∙ merges)
        | inr errs ↦ rw errs (ap Output.pop_set_active_state same ∙ keeps)
      ]

  pub stacks-output_of_call :
      (err : Option VmError) (h : Host) → stacks_of (output_of_call out err h).1 ≡ stacks_of h
  unfolding output_of_call
  stacks-output_of_call (some e) h = refl
  stacks-output_of_call none h = stacks-get_vm_output out h

pub stacks-begin_on_dest_context :
    (input : ContractCallInput) (h : Host)
    → stacks_of (begin_on_dest_context input h).1 ≡ pushed_stacks h
unfolding begin_on_dest_context stacks_of pushed_stacks compute_gas_used_before
    init_state_from_contract_call_input unlock_gas_if_async_callback init_state_from_call_input
    set_vm_input set_total_used_gas BigInt.init_state set_address censor_vm_output
stacks-begin_on_dest_context input h = ground arith
