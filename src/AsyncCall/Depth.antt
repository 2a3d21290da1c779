-- ===== src/AsyncCall/Depth.antt =====
-- Calls of contracts by others, with the asynchronous calls that they make, nested to any depth:
-- vmhost/hostCore/execution.go and vmhost/hostCore/asyncCall.go.
use drt_go_chain_vm_v.AsyncCall.Breakpoint.{stacks-handle_async_call_breakpoint}
use drt_go_chain_vm_v.AsyncCall.Callback.{async_calls}
use drt_go_chain_vm_v.AsyncCall.Info.{stacks-process_async_info}
use drt_go_chain_vm_v.Common.{suc, zero, ℕ, ◌≡◌}
use drt_go_chain_vm_v.Common.Bytes.{Bytes}
use drt_go_chain_vm_v.Common.Dict.{Dict}
use drt_go_chain_vm_v.Execution.Called.{execute_on_dest_context-restores}
use drt_go_chain_vm_v.Execution.Frame.{frame_of, stacks-framed}
use drt_go_chain_vm_v.Execution.Kept.{KeepStacks}
use drt_go_chain_vm_v.Execution.Nested.{DestResult, execute_on_dest_context}
use drt_go_chain_vm_v.Execution.Stacks.{stacks_of}
use drt_go_chain_vm_v.Host.{Host}
use drt_go_chain_vm_v.Host.Vm.{ContractCallInput, Instance}
use drt_go_chain_vm_v.Outside.{Outside}

module _ (out : Outside) (reserved : Dict Bytes Unit) where
  -- ExecuteOnDestContext whose asynchronous calls are executed by it too, to a given depth, below
  -- which calls are the parameter's.
  unfoldable pub execute_at_depth :
      (ContractCallInput → Host → DestResult × Host)
      → ℕ
      → ContractCallInput
      → Host
      → DestResult × Host
  execute_at_depth below zero = below
  execute_at_depth below (suc n) =
      execute_on_dest_context out (async_calls out (execute_at_depth below n)) reserved

  module _
      (call : (i : Instance) (name : Bytes) (h : Host)
        → stacks_of (out.engine.call i name h).1 ≡ stacks_of h) where
    async_calls-KeepStacks :
        (dest : ContractCallInput → Host → DestResult × Host)
        → ((input : ContractCallInput) (h : Host) → stacks_of (dest input h).1 ≡ stacks_of h)
        → KeepStacks out (async_calls out dest)
    unfolding async_calls
    async_calls-KeepStacks dest keeps = record {
      call = call;
      breakpoint = stacks-handle_async_call_breakpoint out dest keeps;
      processed = stacks-process_async_info out dest keeps;
    }

    module _ (below : ContractCallInput → Host → DestResult × Host)
        (restores : (input : ContractCallInput) (h : Host)
          → frame_of (below input h).1 ≡ frame_of h) where
      -- Calls at every depth, with all the asynchronous calls and callbacks that they make, give back
      -- to the caller its frame, if contract code leaves the state stacks as it found them and the
      -- calls below the depth give back theirs.
      pub execute_at_depth-restores :
          (n : ℕ) (input : ContractCallInput) (h : Host)
          → frame_of (execute_at_depth below n input h).1 ≡ frame_of h
      unfolding execute_at_depth
      execute_at_depth-restores zero input h = restores input h
      execute_at_depth-restores (suc n) input h =
          execute_on_dest_context-restores out (async_calls out (execute_at_depth below n))
            (async_calls-KeepStacks (execute_at_depth below n) (λ i g.
              stacks-framed (execute_at_depth below n i g).1 g (execute_at_depth-restores n i g)))
            reserved input h
