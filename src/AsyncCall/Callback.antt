-- ===== src/AsyncCall/Callback.antt =====
-- vmhost/hostCore/asyncCall.go: the processing of the calls that a contract has recorded, and the
-- callbacks that other hosts send.
use drt_go_chain_vm_v.Common.{get_elem?, suc, take, zero, ◌-◌}
use drt_go_chain_vm_v.AsyncCall.Process.{send_callback_to_current_caller}
use drt_go_chain_vm_v.AsyncCall.Process.{handle_async_call_breakpoint}
use drt_go_chain_vm_v.AsyncCall.{
  async_storage_key, can_execute_synchronously, get_current_async_info, get_pending_async_calls,
  info_of, save_pending_async_calls, setup_async_calls_gas,
}
use drt_go_chain_vm_v.AsyncCall.Process.{
  process_async_call, send_async_call_to_destination, send_storage_callback_to_destination,
}
use drt_go_chain_vm_v.Common.{
  List, Option, [], if◌then◌else◌, length, none, not, some, true, ℕ, ◌+◌, ◌==◌, ◌∷◌,
}
use drt_go_chain_vm_v.Common.Bytes.{Bytes, bytes_eq}
use drt_go_chain_vm_v.Common.Dict.{Dict, bytes_Eq, erase, int_Eq}
use drt_go_chain_vm_v.Execution.Contract.{AsyncCalls, ProcessResult}
use drt_go_chain_vm_v.Execution.Nested.{DestResult}
use drt_go_chain_vm_v.Host.{Host}
use drt_go_chain_vm_v.Host.Async.{AsyncContext, AsyncContextInfo, AsyncGeneratedCall}
use drt_go_chain_vm_v.Host.Error.{VmError, callback_func_not_expected, nil_callback_function}
use drt_go_chain_vm_v.Host.Vm.{CallType, ContractCallInput}
use drt_go_chain_vm_v.Metering.{gas_left, is_callback}
use drt_go_chain_vm_v.Outside.{Outside}
use drt_go_chain_vm_v.Runtime.{set_custom_call_function}
use drt_go_chain_vm_v.Runtime.Control.{get_function_to_call, set_runtime}
use drt_go_chain_vm_v.Storage.{get_storage_unmetered, set_protected_storage}

-- The first call of a context to a destination, by its position.
unfoldable pub position_of : Bytes → List AsyncGeneratedCall → ℕ → Option ℕ
position_of caller [] i = none
position_of caller (call ∷ calls) i =
    let rest = position_of caller calls (i + 1) in
    if bytes_eq caller call.destination then some i else rest

-- The first context with a call to the caller. A context with an empty identifier counts as none.
unfoldable pub find_context : Bytes → Dict Bytes AsyncContext → Option (Bytes × AsyncContext)
unfolding position_of
find_context caller [] = none
find_context caller ((identifier, context) ∷ m) =
    let rest = find_context caller m in
    elim (position_of caller context.async_calls 0) [
      | none ↦ rest
      | some _ ↦ if length identifier == 0 then rest else some (identifier, context)
    ]

-- The calls that stay once one of them is resolved: the last one takes its place.
unfoldable pub replace_at :
    ℕ → AsyncGeneratedCall → List AsyncGeneratedCall → List AsyncGeneratedCall
replace_at n call [] = []
replace_at zero call (_ ∷ calls) = call ∷ calls
replace_at (suc n) call (first ∷ calls) = first ∷ replace_at n call calls

unfoldable pub remove_call : Bytes → List AsyncGeneratedCall → List AsyncGeneratedCall
unfolding position_of replace_at
remove_call caller calls =
    let last = length calls - 1 in
    elim (position_of caller calls 0) [
      | none ↦ calls
      | some position ↦ elim (get_elem? calls last) [
        | none ↦ calls
        | some call ↦ take last (replace_at position call calls)
      ]
    ]

-- The first call to the caller in any context, as getFunctionByCallType looks for it.
unfoldable pub call_at : Bytes → List AsyncGeneratedCall → Option AsyncGeneratedCall
call_at caller [] = none
call_at caller (call ∷ calls) =
    let rest = call_at caller calls in if bytes_eq caller call.destination then some call else rest

unfoldable pub find_call : Bytes → Dict Bytes AsyncContext → Option AsyncGeneratedCall
unfolding call_at
find_call caller [] = none
find_call caller ((_, context) ∷ m) =
    let rest = find_call caller m in
    elim (call_at caller context.async_calls) [ none ↦ rest | some call ↦ some call ]

module _ (out : Outside) where
  -- getFunctionByCallType: the name of the function to call. A custom callback that the contract
  -- lacks is a nil function, whose call panics.
  unfoldable pub get_function_by_call_type : CallType → Host → (Bytes × Option VmError) × Host
  get_function_by_call_type call_type h =
      let ((info, err), h1) = get_current_async_info out h in
      let custom = find_call h.runtime.vm_input.caller_addr info.async_context_map in
      let h2 = elim custom as (λ _. Host) [
        | none ↦ h1
        | some call ↦ set_runtime (set_custom_call_function call.success_callback h1.runtime) h1
      ] in
      let ((name, missing), h3) = get_function_to_call h2 in
      if not (is_callback call_type) then get_function_to_call h else elim err [
        | some e ↦ (([], some e), h1)
        | none ↦ elim missing [
          | none ↦ ((name, none), h3)
          | some _ ↦ elim custom [
            | none ↦ (([], some nil_callback_function), h3)
            | some _ ↦ (([], none), record h3 { panicked = true })
          ]
        ]
      ]

  -- The loop of processAsyncInfo that sends the calls which leave this host.
  unfoldable pub send_calls : List AsyncGeneratedCall → Host → Option VmError × Host
  send_calls [] h = (none, h)
  send_calls (call ∷ calls) h =
      let (here, h1) = can_execute_synchronously out call.destination h in
      let (err, h2) =
        if here then (none, h1) else send_async_call_to_destination out (info_of call) h1 in
      let rest = send_calls calls h2 in elim err [ some e ↦ (some e, h2) | none ↦ rest ]

  unfoldable pub send_contexts : Dict Bytes AsyncContext → Host → Option VmError × Host
  send_contexts [] h = (none, h)
  send_contexts ((_, context) ∷ m) h =
      let (err, h1) = send_calls context.async_calls h in
      let rest = send_contexts m h1 in elim err [ some e ↦ (some e, h1) | none ↦ rest ]

  -- What processAsyncInfo does with the calls that stay pending: the calls with their gas.
  unfoldable pub send_pending : AsyncContextInfo → Host → (AsyncContextInfo × Option VmError) × Host
  send_pending pending h =
      let (failure, h1) = save_pending_async_calls out pending h in
      let (contexts, short) = setup_async_calls_gas (gas_left h1) pending.async_context_map in
      let (unsent, h2) = send_contexts contexts h1 in
      let provided : AsyncContextInfo = record pending { async_context_map = contexts } in
      elim failure [
        | some e ↦ ((pending, some e), h1)
        | none ↦ elim short [ some e ↦ ((provided, some e), h1) | none ↦ ((provided, unsent), h2) ]
      ]

  module _ (dest : ContractCallInput → Host → DestResult × Host) where
    -- The loop of processAsyncInfo that executes the calls to contracts of this host.
    unfoldable pub process_calls :
        List AsyncGeneratedCall → Host → (List AsyncGeneratedCall × Option VmError) × Host
    process_calls [] h = (([], none), h)
    process_calls (call ∷ calls) h =
        let (here, h1) = can_execute_synchronously out call.destination h in
        let ((ended, err), h2) =
          if here then process_async_call out dest call h1 else ((call, none), h1) in
        let ((rest, failure), h3) = process_calls calls h2 in
        elim err [ some e ↦ ((ended ∷ calls, some e), h2) | none ↦ ((ended ∷ rest, failure), h3) ]

    unfoldable pub process_contexts :
        Dict Bytes AsyncContext → Host → (Dict Bytes AsyncContext × Option VmError) × Host
    process_contexts [] h = (([], none), h)
    process_contexts ((identifier, context) ∷ m) h =
        let ((calls, err), h1) = process_calls context.async_calls h in
        let here : Bytes × AsyncContext = (identifier, record context { async_calls = calls }) in
        let ((rest, failure), h2) = process_contexts m h1 in
        elim err [ some e ↦ ((here ∷ m, some e), h1) | none ↦ ((here ∷ rest, failure), h2) ]

    -- The pending calls share their records with the ones given: the gas limits of the second
    -- split are written to both in Go, and only to the pending ones here, where they are read.
    unfoldable pub process_async_info : AsyncContextInfo → Host → ProcessResult × Host
    process_async_info info h =
        let (contexts, short) = setup_async_calls_gas (gas_left h) info.async_context_map in
        let ((ended, err), h1) = process_contexts contexts h in
        let provided : AsyncContextInfo = record info { async_context_map = contexts } in
        let processed : AsyncContextInfo = record info { async_context_map = ended } in
        let pending = get_pending_async_calls processed in
        let ((sent, unsent), h2) = send_pending pending h1 in
        if length info.async_context_map == 0
        then (record { info = info; pending = info; error = none }, h)
        else elim short [
          | some e ↦ (record { info = provided; pending = provided; error = some e }, h)
          | none ↦ elim err [
            | some e ↦ (record { info = processed; pending = processed; error = some e }, h1)
            | none ↦
                if length pending.async_context_map == 0
                then (record { info = processed; pending = pending; error = none }, h1)
                else (record { info = processed; pending = sent; error = unsent }, h2)
          ]
        ]

    -- Once no call of the record is pending: the stored record is erased and the callback of the
    -- first caller sent or executed. Its input is made from a nil call, which panics.
    unfoldable pub resolve_all : AsyncContextInfo → Host → Option VmError × Host
    resolve_all info h =
        let ((_, err), h1) = set_protected_storage out.hook (async_storage_key h) [] h in
        let (here, h2) = can_execute_synchronously out info.caller_addr h1 in
        elim err [
          | some e ↦ (some e, h1)
          | none ↦
              if here
              then (none, record h2 { panicked = true })
              else send_storage_callback_to_destination out info.caller_addr info.return_data h2
        ]

    -- The resolved call leaves the slice that the routine holds, which decides whether its context is
    -- done. The record in the storage is not written again.
    unfoldable pub process_callback_stack : Host → Option VmError × Host
    unfolding remove_call
    process_callback_stack h =
        let (buff, h1) = get_storage_unmetered out.hook (async_storage_key h) h in
        let caller = h.runtime.vm_input.caller_addr in
        if length buff == 0 then (none, h1) else elim (out.from_json buff) [
          | none ↦ (some out.json_error, h1)
          | some info ↦ elim (find_context caller info.async_context_map) [
            | none ↦ (some callback_func_not_expected, h1)
            | some (identifier, context) ↦
                let left =
                  if length (remove_call caller context.async_calls) == 0
                  then erase identifier info.async_context_map
                  else info.async_context_map in
                if length left == 0
                then resolve_all (record info { async_context_map = left }) h1
                else (none, h1)
          ]
        ]

    -- The operations that the running of contracts calls.
    unfoldable pub async_calls : AsyncCalls
    async_calls = record {
      handle_async_call_breakpoint = handle_async_call_breakpoint out dest;
      process_async_info = process_async_info;
      process_callback_stack = process_callback_stack;
      send_callback_to_current_caller = send_callback_to_current_caller out;
      get_function_by_call_type = get_function_by_call_type;
    }
