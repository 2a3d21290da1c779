-- ===== src/AsyncCall.antt =====
-- vmhost/hostCore/asyncCall.go: asynchronous calls, their gas, the record of those that are pending and
-- the inputs of the calls and of their callbacks.
pub mod Inputs
pub mod Process
pub mod Callback
pub mod Gas
pub mod Breakpoint
pub mod Stored
pub mod Info
pub mod Depth
mod Tests
pub mod Waiting
use drt_go_chain_vm_v.Host.Error.{addition_overflow}
use drt_go_chain_vm_v.Blockchain.{get_code}
use drt_go_chain_vm_v.Common.{
  Bool, List, Option, [], false, if◌then◌else◌, leb, length, ltb, none, some, true, ℕ, ◌%◌, ◌&&◌,
  ◌++◌, ◌+◌, ◌-◌, ◌/◌, ◌==◌, ◌^◌, ◌∷◌,
}
use drt_go_chain_vm_v.Common.Bytes.{Bytes}
use drt_go_chain_vm_v.Common.Dict.{Dict}
use drt_go_chain_vm_v.Helpers.{custom_storage_key}
use drt_go_chain_vm_v.Host.{Host}
use drt_go_chain_vm_v.Host.Async.{
  AsyncCallInfo, AsyncContext, AsyncContextInfo, AsyncGeneratedCall, async_call_pending,
  async_call_rejected, async_call_resolved,
}
use drt_go_chain_vm_v.Host.Error.{VmError, not_enough_gas, other_error}
use drt_go_chain_vm_v.Outside.{Outside}
use drt_go_chain_vm_v.Overflow.{add_uint64_with_err}
use drt_go_chain_vm_v.Runtime.{no_async_calls}
use drt_go_chain_vm_v.Storage.{
  get_storage_unmetered, protected_storage_prefix, set_protected_storage,
}

-- vmhost.AsyncCallExecutionMode
pub data AsyncCallExecutionMode : Type 0 where
  sync_call async_builtin_func_intra_shard async_builtin_func_cross_shard : AsyncCallExecutionMode
  dcdt_transfer_on_call_back async_unknown : AsyncCallExecutionMode

-- vmhost.AsyncDataPrefix, "ANDES@ASYNC"
abbrev async_data_prefix : Bytes
async_data_prefix = protected_storage_prefix ++ 65 ∷ 83 ∷ 89 ∷ 78 ∷ 67 ∷ []

-- What an AsyncGeneratedCall is through the interface AsyncCallInfoHandler: its locked gas is 0.
unfoldable pub info_of : AsyncGeneratedCall → AsyncCallInfo
info_of call = record {
  destination = call.destination;
  payload = call.payload;
  gas_limit = call.gas_limit;
  gas_locked = 0;
  value_bytes = call.value_bytes;
}

unfoldable pub async_storage_key : Host → Bytes
async_storage_key h = custom_storage_key async_data_prefix h.runtime.vm_input.original_tx_hash

-- The pending calls of a context, in their order.
unfoldable pub pending_calls : List AsyncGeneratedCall → List AsyncGeneratedCall
pending_calls [] = []
pending_calls (call ∷ calls) = elim call.status [
  | async_call_pending ↦ call ∷ pending_calls calls
  | async_call_resolved ↦ pending_calls calls
  | async_call_rejected ↦ pending_calls calls
]

-- A context without pending calls is left out.
unfoldable pub pending_contexts : Dict Bytes AsyncContext → Dict Bytes AsyncContext
unfolding pending_calls
pending_contexts [] = []
pending_contexts ((identifier, context) ∷ m) =
    let rest = pending_contexts m in
    let pending = pending_calls context.async_calls in
    if length pending == 0
    then rest
    else (identifier, record context { async_calls = pending }) ∷ rest

unfoldable pub get_pending_async_calls : AsyncContextInfo → AsyncContextInfo
unfolding pending_contexts
get_pending_async_calls info = record info {
  async_context_map = pending_contexts info.async_context_map;
}

-- The first loop of setupAsyncCallsGas over the calls of a context: the calls with the gas that they
-- provide, the gas needed and the number of calls without gas so far, and the error.
unfoldable pub provide_gas :
    ℕ → List AsyncGeneratedCall → ℕ × ℕ → (List AsyncGeneratedCall × ℕ × ℕ) × Option VmError
provide_gas left [] (needed, without) = (([], needed, without), none)
provide_gas left (call ∷ calls) (needed, without) =
    let (total, overflow) = add_uint64_with_err needed call.provided_gas in
    let is_zero = call.provided_gas == 0 in
    let next = if is_zero then (without + 1) % 2 ^ 64 else without in
    let set = if is_zero then call else record call { gas_limit = call.provided_gas } in
    let ((rest, needed', without'), err) = provide_gas left calls (total, next) in
    elim overflow [
      | some _ ↦ ((call ∷ calls, total, without), some (other_error addition_overflow))
      | none ↦
          if ltb left total
          then ((call ∷ calls, total, without), some not_enough_gas)
          else ((set ∷ rest, needed', without'), err)
    ]

unfoldable pub provide_gas_contexts :
    ℕ → Dict Bytes AsyncContext → ℕ × ℕ → (Dict Bytes AsyncContext × ℕ × ℕ) × Option VmError
unfolding provide_gas
provide_gas_contexts left [] (needed, without) = (([], needed, without), none)
provide_gas_contexts left ((identifier, context) ∷ m) acc =
    let ((calls, needed, without), err) = provide_gas left context.async_calls acc in
    let set : Bytes × AsyncContext = (identifier, record context { async_calls = calls }) in
    let ((rest, needed', without'), err') = provide_gas_contexts left m (needed, without) in
    elim err [
      | some e ↦ ((set ∷ m, needed, without), some e)
      | none ↦ ((set ∷ rest, needed', without'), err')
    ]

-- The second loop: every call without gas gets the share.
unfoldable pub share_gas : ℕ → List AsyncGeneratedCall → List AsyncGeneratedCall
share_gas share [] = []
share_gas share (call ∷ calls) =
    let rest = share_gas share calls in
    if call.provided_gas == 0 then record call { gas_limit = share } ∷ rest else call ∷ rest

unfoldable pub share_gas_contexts : ℕ → Dict Bytes AsyncContext → Dict Bytes AsyncContext
unfolding share_gas
share_gas_contexts share [] = []
share_gas_contexts share ((identifier, context) ∷ m) =
    (identifier, record context { async_calls = share_gas share context.async_calls })
    ∷ share_gas_contexts share m

-- setupAsyncCallsGas for the gas that is left: the calls with their gas limits, and the error.
unfoldable pub setup_async_calls_gas :
    ℕ → Dict Bytes AsyncContext → Dict Bytes AsyncContext × Option VmError
unfolding provide_gas_contexts share_gas_contexts
setup_async_calls_gas left contexts =
    let ((provided, needed, without), err) = provide_gas_contexts left contexts (0, 0) in
    elim err [
      | some e ↦ (provided, some e)
      | none ↦
          if without == 0
          then (provided, none)
          else if leb left needed
          then (provided, some not_enough_gas)
          else (share_gas_contexts ((left - needed) / without) provided, none)
    ]

module _ (out : Outside) where
  unfoldable pub can_execute_synchronously : Bytes → Host → Bool × Host
  can_execute_synchronously destination h =
      let ((code, err), h1) = get_code out.hook destination h in
      (ltb 0 (length code) && elim err [ none ↦ true | some _ ↦ false ], h1)

  unfoldable pub save_pending_async_calls : AsyncContextInfo → Host → Option VmError × Host
  save_pending_async_calls pending h =
      let (buff, err) = out.to_json pending in
      let ((_, failure), h1) = set_protected_storage out.hook (async_storage_key h) buff h in
      if length pending.async_context_map == 0
      then (none, h)
      else elim err [ some e ↦ (some e, h) | none ↦ (failure, h1) ]

  -- The current record of asynchronous calls that the storage holds, or an empty one.
  unfoldable pub get_current_async_info : Host → (AsyncContextInfo × Option VmError) × Host
  get_current_async_info h =
      let (buff, h1) = get_storage_unmetered out.hook (async_storage_key h) h in
      if length buff == 0 then ((no_async_calls [], none), h1) else elim (out.from_json buff) [
        | some info ↦ ((info, none), h1)
        | none ↦ ((no_async_calls [], some out.json_error), h1)
      ]
