-- ===== src/AsyncCall/Info.antt =====
-- The state stacks of the contexts through processAsyncInfo of vmhost/hostCore/asyncCall.go.
use drt_go_chain_vm_v.AsyncCall.Stored.{stacks-set_protected_storage}
use drt_go_chain_vm_v.AsyncCall.{
  async_storage_key, can_execute_synchronously, get_pending_async_calls, info_of,
  save_pending_async_calls, setup_async_calls_gas,
}
use drt_go_chain_vm_v.AsyncCall.Breakpoint.{
  stacks-can_execute_synchronously, stacks-process_callback_vm_output,
  stacks-send_async_call_to_destination,
}
use drt_go_chain_vm_v.AsyncCall.Callback.{
  process_async_info, process_calls, process_contexts, send_calls, send_contexts, send_pending,
}
use drt_go_chain_vm_v.AsyncCall.Process.{
  callback_async, process_async_call, send_async_call_to_destination,
}
use drt_go_chain_vm_v.Common.{List, Option, [], arith, if◌then◌else◌, none, refl, ◌∷◌, ◌≡◌}
use drt_go_chain_vm_v.Common.Bytes.{Bytes}
use drt_go_chain_vm_v.Common.Dict.{Dict}
use drt_go_chain_vm_v.Execution.Nested.{DestResult}
use drt_go_chain_vm_v.Execution.Stacks.{stacks-panicked, stacks_of}
use drt_go_chain_vm_v.Host.{Host}
use drt_go_chain_vm_v.Host.Async.{AsyncContext, AsyncContextInfo, AsyncGeneratedCall}
use drt_go_chain_vm_v.Host.Error.{VmError}
use drt_go_chain_vm_v.Host.Vm.{ContractCallInput, VmOutput}
use drt_go_chain_vm_v.Metering.{gas_left}
use drt_go_chain_vm_v.Outside.{Outside}

module _ (out : Outside) where
  stacks-save_pending_async_calls :
      (pending : AsyncContextInfo) (h : Host)
      → stacks_of (save_pending_async_calls out pending h).1 ≡ stacks_of h
  unfolding save_pending_async_calls
  stacks-save_pending_async_calls pending h =
      let (buff, err) = out.to_json pending in
      ground (arith, stacks-set_protected_storage out.hook (async_storage_key h) buff h)

  stacks-send_calls :
      (calls : List AsyncGeneratedCall) (h : Host)
      → stacks_of (send_calls out calls h).1 ≡ stacks_of h
  unfolding send_calls
  stacks-send_calls [] h = refl
  stacks-send_calls (call ∷ calls) h =
      let (here, h1) = can_execute_synchronously out call.destination h in
      let (err, h2) =
        if here then (none, h1) else send_async_call_to_destination out (info_of call) h1 in
      ground (
        arith,
        stacks-can_execute_synchronously out call.destination h,
        stacks-send_async_call_to_destination out (info_of call) h1,
        stacks-send_calls calls h2,
      )

  stacks-send_contexts :
      (m : Dict Bytes AsyncContext) (h : Host) → stacks_of (send_contexts out m h).1 ≡ stacks_of h
  unfolding send_contexts
  stacks-send_contexts [] h = refl
  stacks-send_contexts ((k, context) ∷ m) h =
      let (err, h1) = send_calls out context.async_calls h in
      ground (arith, stacks-send_calls context.async_calls h, stacks-send_contexts m h1)

  stacks-send_pending :
      (pending : AsyncContextInfo) (h : Host)
      → stacks_of (send_pending out pending h).1 ≡ stacks_of h
  unfolding send_pending
  stacks-send_pending pending h =
      let (_, h1) = save_pending_async_calls out pending h in
      let (contexts, _) = setup_async_calls_gas (gas_left h1) pending.async_context_map in
      ground (arith, stacks-save_pending_async_calls pending h, stacks-send_contexts contexts h1)

  module _ (dest : ContractCallInput → Host → DestResult × Host)
      (keeps : (input : ContractCallInput) (h : Host)
        → stacks_of (dest input h).1 ≡ stacks_of h) where
    stacks-callback_async :
        (call : AsyncGeneratedCall) (o : VmOutput) (e : Option VmError) (h : Host)
        → stacks_of (callback_async out dest call o e h).1 ≡ stacks_of h
    unfolding callback_async
    stacks-callback_async call o e h =
        grind (arith, keeps, stacks-panicked h, stacks-process_callback_vm_output out)

    stacks-process_async_call :
        (call : AsyncGeneratedCall) (h : Host)
        → stacks_of (process_async_call out dest call h).1 ≡ stacks_of h
    unfolding process_async_call
    stacks-process_async_call call h =
        grind (arith, keeps, stacks-panicked, stacks-callback_async call)

    stacks-process_calls :
        (calls : List AsyncGeneratedCall) (h : Host)
        → stacks_of (process_calls out dest calls h).1 ≡ stacks_of h
    unfolding process_calls
    stacks-process_calls [] h = refl
    stacks-process_calls (call ∷ calls) h =
        let (here, h1) = can_execute_synchronously out call.destination h in
        let (_, h2) = if here then process_async_call out dest call h1 else ((call, none), h1) in
        ground (
          arith,
          stacks-can_execute_synchronously out call.destination h,
          stacks-process_async_call call h1,
          stacks-process_calls calls h2,
        )

    stacks-process_contexts :
        (m : Dict Bytes AsyncContext) (h : Host)
        → stacks_of (process_contexts out dest m h).1 ≡ stacks_of h
    unfolding process_contexts
    stacks-process_contexts [] h = refl
    stacks-process_contexts ((k, context) ∷ m) h =
        let (_, h1) = process_calls out dest context.async_calls h in
        ground (arith, stacks-process_calls context.async_calls h, stacks-process_contexts m h1)

    pub stacks-process_async_info :
        (info : AsyncContextInfo) (h : Host)
        → stacks_of (process_async_info out dest info h).1 ≡ stacks_of h
    unfolding process_async_info
    stacks-process_async_info info h =
        let (contexts, _) = setup_async_calls_gas (gas_left h) info.async_context_map in
        let ((ended, _), h1) = process_contexts out dest contexts h in
        let processed : AsyncContextInfo = record info { async_context_map = ended } in
        ground (
          arith,
          stacks-process_contexts contexts h,
          stacks-send_pending (get_pending_async_calls processed) h1,
        )
