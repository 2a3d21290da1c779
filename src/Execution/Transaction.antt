-- ===== src/Execution/Transaction.antt =====
-- ExecuteOnDestContext of vmhost/hostCore/execution.go as a transaction on what a caller sees.
use drt_go_chain_vm_v.Common.{arith, none, some, ◌≡◌}
use drt_go_chain_vm_v.Common.Bytes.{Bytes}
use drt_go_chain_vm_v.Common.Dict.{Dict}
use drt_go_chain_vm_v.Execution.Called.{
  execute_on_dest_context-error, execute_on_dest_context-output, execute_on_dest_context-restores,
}
use drt_go_chain_vm_v.Execution.Contract.{AsyncCalls}
use drt_go_chain_vm_v.Execution.Frame.{Frame, frame_of}
use drt_go_chain_vm_v.Execution.Kept.{KeepStacks}
use drt_go_chain_vm_v.Execution.Nested.{DestResult, execute_on_dest_context}
use drt_go_chain_vm_v.Host.{Host}
use drt_go_chain_vm_v.Host.Vm.{ContractCallInput, VmOutput}
use drt_go_chain_vm_v.Output.{merge_vm_outputs, new_vm_output}
use drt_go_chain_vm_v.Output.Merge.{IsValid}
use drt_go_chain_vm_v.Outside.{Outside}

-- What a contract that calls another sees of the host: its own frame and its output.
pub record View : Type 0 where
  pub frame : Frame
  pub output : VmOutput

unfoldable pub view_of : Host → View
view_of h = record { frame = frame_of h; output = h.output.output_state }

-- The outcome of a call: it is aborted, or it commits an output.
pub data CallOutcome : Type 0 where
  aborted : CallOutcome
  committed : VmOutput → CallOutcome

-- What a call promises: an aborted one changes nothing, and one that commits adds its output.
unfoldable pub apply : CallOutcome → View → View
apply aborted v = v
apply (committed o) v = record v {
  output = merge_vm_outputs new_vm_output (merge_vm_outputs v.output o);
}

-- The outcome that a call reports.
unfoldable pub outcome_of : DestResult → CallOutcome
outcome_of result = elim result.error [ none ↦ committed result.vm_output | some _ ↦ aborted ]

-- A call of a contract by another refines the transaction: what the caller sees after it is what its
-- reported outcome makes of what it saw before. This holds if the caller's output is valid and if
-- contract code and asynchronous calls leave the state stacks as they found them.
pub execute_on_dest_context-refines :
    (out : Outside) (async : AsyncCalls)
    → KeepStacks out async
    → (reserved : Dict Bytes Unit) (input : ContractCallInput) (h : Host)
    → IsValid h.output.output_state
    → let (result, h') = execute_on_dest_context out async reserved input h in
      view_of h' ≡ apply (outcome_of result) (view_of h)
unfolding view_of apply outcome_of
execute_on_dest_context-refines out async keep reserved input h v =
    let framed = execute_on_dest_context-restores out async keep reserved input h in
    let merged' = execute_on_dest_context-output out async keep reserved input h v in
    let coded = execute_on_dest_context-error out async reserved input h in
    ground (arith, framed, merged', coded)
