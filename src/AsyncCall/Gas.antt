-- ===== src/AsyncCall/Gas.antt =====
-- setupAsyncCallsGas of vmhost/hostCore/asyncCall.go: how the gas is split between calls.
use drt_go_chain_vm_v.AsyncCall.{provide_gas_contexts, setup_async_calls_gas, share_gas_contexts}
use drt_go_chain_vm_v.Common.{◌-◌, ◌/◌}
use drt_go_chain_vm_v.Common.{arith, ◌%◌}
use drt_go_chain_vm_v.Overflow.{add_uint64_with_err}
use drt_go_chain_vm_v.Overflow.Unsigned.{add_uint64_with_err-exact}
use drt_go_chain_vm_v.AsyncCall.{provide_gas, share_gas}
use drt_go_chain_vm_v.Common.{
  List, [], if◌then◌else◌, none, ℕ, ◌*◌, ◌+◌, ◌<◌, ◌==◌, ◌^◌, ◌∷◌, ◌≡◌, ◌≤◌,
}
use drt_go_chain_vm_v.Common.Bytes.{Bytes}
use drt_go_chain_vm_v.Common.Dict.{Dict}
use drt_go_chain_vm_v.Host.Async.{AsyncContext, AsyncGeneratedCall}
use native.Mathlib.Nat.{div-mul-le_self, mul-add, mul-suc}

-- What calls get, what they ask for and how many ask for nothing.
unfoldable pub total_limit : List AsyncGeneratedCall → ℕ
total_limit [] = 0
total_limit (call ∷ calls) = call.gas_limit + total_limit calls

unfoldable pub total_provided : List AsyncGeneratedCall → ℕ
total_provided [] = 0
total_provided (call ∷ calls) = call.provided_gas + total_provided calls

unfoldable pub count_without : List AsyncGeneratedCall → ℕ
count_without [] = 0
count_without (call ∷ calls) = (if call.provided_gas == 0 then 1 else 0) + count_without calls

-- The same over the calls of all contexts.
unfoldable pub contexts_limit : Dict Bytes AsyncContext → ℕ
contexts_limit [] = 0
contexts_limit ((_, context) ∷ m) = total_limit context.async_calls + contexts_limit m

unfoldable pub contexts_provided : Dict Bytes AsyncContext → ℕ
contexts_provided [] = 0
contexts_provided ((_, context) ∷ m) = total_provided context.async_calls + contexts_provided m

unfoldable pub contexts_without : Dict Bytes AsyncContext → ℕ
contexts_without [] = 0
contexts_without ((_, context) ∷ m) = count_without context.async_calls + contexts_without m

-- The gas that each call provides is a uint64.
abbrev pub AreProvided : List AsyncGeneratedCall → Type 0
AreProvided [] = Unit
AreProvided (call ∷ calls) = (call.provided_gas < 2 ^ 64) × AreProvided calls

abbrev pub AreContextsProvided : Dict Bytes AsyncContext → Type 0
AreContextsProvided [] = Unit
AreContextsProvided ((_, context) ∷ m) = AreProvided context.async_calls × AreContextsProvided m

add_uint64_with_err-none :
    (a b : ℕ)
    → a < 2 ^ 64
    → b < 2 ^ 64
    → (add_uint64_with_err a b).1 ≡ none
    → ((add_uint64_with_err a b).0 ≡ a + b) × (a + b < 2 ^ 64)
add_uint64_with_err-none a b ha hb e = ground (arith, add_uint64_with_err-exact a b ha hb)

module _ (left share : ℕ) where
  provide_gas-counts :
      (calls : List AsyncGeneratedCall) (needed without : ℕ)
      → AreProvided calls
      → needed < 2 ^ 64
      → without + count_without calls < 2 ^ 64
      → let ((calls', needed', without'), err) = provide_gas left calls (needed, without) in
        err ≡ none
        → (needed' ≡ needed + total_provided calls)
          × (without' ≡ without + count_without calls)
          × (needed' < 2 ^ 64)
          × (needed ≤ left → needed' ≤ left)
  unfolding provide_gas total_provided count_without
  provide_gas-counts [] needed without p lt fits e = ground arith
  provide_gas-counts (call ∷ calls) needed without (here, p) lt fits e =
      let total = (add_uint64_with_err needed call.provided_gas).0 in
      let next = if call.provided_gas == 0 then (without + 1) % 2 ^ 64 else without in
      ground (
        arith,
        add_uint64_with_err-none needed call.provided_gas lt here,
        provide_gas-counts calls total next p,
      )

  provide_gas-limits :
      (calls : List AsyncGeneratedCall) (needed without : ℕ)
      → let ((calls', needed', without'), err) = provide_gas left calls (needed, without) in
        err ≡ none
        → (total_limit (share_gas share calls')
            ≡ total_provided calls + share * count_without calls)
          × (count_without calls ≡ 0 → total_limit calls' ≡ total_provided calls)
  unfolding provide_gas total_provided count_without share_gas total_limit
  provide_gas-limits [] needed without e = ground arith
  provide_gas-limits (call ∷ calls) needed without e =
      let total = (add_uint64_with_err needed call.provided_gas).0 in
      let next = if call.provided_gas == 0 then (without + 1) % 2 ^ 64 else without in
      ground (arith, provide_gas-limits calls total next, mul-suc share (count_without calls))

  contexts-counts :
      (m : Dict Bytes AsyncContext) (needed without : ℕ)
      → AreContextsProvided m
      → needed < 2 ^ 64
      → without + contexts_without m < 2 ^ 64
      → let ((m', needed', without'), err) = provide_gas_contexts left m (needed, without) in
        err ≡ none
        → (needed' ≡ needed + contexts_provided m)
          × (without' ≡ without + contexts_without m)
          × (needed ≤ left → needed' ≤ left)
  unfolding provide_gas_contexts contexts_provided contexts_without
  contexts-counts [] needed without p lt fits e = ground arith
  contexts-counts ((k, context) ∷ m) needed without (here, p) lt fits e =
      let ((_, needed1, without1), _) = provide_gas left context.async_calls (needed, without) in
      ground (
        arith,
        provide_gas-counts context.async_calls needed without here lt,
        contexts-counts m needed1 without1 p,
      )

  contexts-limits :
      (m : Dict Bytes AsyncContext) (needed without : ℕ)
      → let ((m', needed', without'), err) = provide_gas_contexts left m (needed, without) in
        err ≡ none
        → (contexts_limit (share_gas_contexts share m')
            ≡ contexts_provided m + share * contexts_without m)
          × (contexts_without m ≡ 0 → contexts_limit m' ≡ contexts_provided m)
  unfolding provide_gas_contexts contexts_provided contexts_without share_gas_contexts
      contexts_limit
  contexts-limits [] needed without e = ground arith
  contexts-limits ((k, context) ∷ m) needed without e =
      let ((_, needed1, without1), _) = provide_gas left context.async_calls (needed, without) in
      ground (
        arith,
        provide_gas-limits context.async_calls needed without,
        contexts-limits m needed1 without1,
        mul-add share (count_without context.async_calls) (contexts_without m),
      )

-- Where setupAsyncCallsGas gives no error, the gas limits of all calls add up to at most the gas that
-- is left; the gas that is provided to a call is a uint64 and so is the number of calls without any.
pub setup_async_calls_gas-within :
    (left : ℕ) (m : Dict Bytes AsyncContext)
    → AreContextsProvided m
    → contexts_without m < 2 ^ 64
    → let (m', err) = setup_async_calls_gas left m in err ≡ none → contexts_limit m' ≤ left
unfolding setup_async_calls_gas
setup_async_calls_gas-within left m p fits =
    let ((_, needed, without), _) = provide_gas_contexts left m (0, 0) in
    let share = (left - needed) / without in
    let share_le : share * without ≤ left - needed = div-mul-le_self (left - needed) without in
    ground (arith, contexts-counts left share m 0 0 p, contexts-limits left share m 0 0, share_le)
