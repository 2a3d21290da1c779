-- ===== src/AsyncCall/Waiting.antt =====
-- processCallbackStack of vmhost/hostCore/asyncCall.go: the callbacks of a record that waits for two
-- calls or more.
use drt_go_chain_vm_v.Common.{◌∙◌}
use drt_go_chain_vm_v.Storage.Cache.{
  get_storage_from_address_unmetered-reads, stored-get_storage_from_address_unmetered,
}
use drt_go_chain_vm_v.AsyncCall.{async_storage_key}
use drt_go_chain_vm_v.AsyncCall.Callback.{process_callback_stack}
use drt_go_chain_vm_v.Common.{false, ◌<◌, ◌==◌, ◌⊎◌}
use drt_go_chain_vm_v.Execution.Nested.{DestResult}
use drt_go_chain_vm_v.Host.{Host}
use drt_go_chain_vm_v.Host.Async.{AsyncContextInfo}
use drt_go_chain_vm_v.Host.Error.{callback_func_not_expected}
use drt_go_chain_vm_v.Host.Vm.{ContractCallInput}
use drt_go_chain_vm_v.Outside.{Outside}
use drt_go_chain_vm_v.Storage.{get_storage_unmetered}
use drt_go_chain_vm_v.Storage.Cache.{stored}
use drt_go_chain_vm_v.Common.{Option-cases, get_elem?, inl, inr}
use drt_go_chain_vm_v.Common.{length-take, ◌-◌, ◌≢◌}
use drt_go_chain_vm_v.Common.Bytes.{bytes_eq_iff}
use drt_go_chain_vm_v.Common.{
  List, [], ap, arith, length, none, refl, some, suc, zero, ℕ, ◌+◌, ◌∷◌, ◌≡◌, ◌≤◌,
}
use drt_go_chain_vm_v.Common.Bytes.{Bytes}
use drt_go_chain_vm_v.Common.Dict.{int_Eq}
use drt_go_chain_vm_v.AsyncCall.Callback.{find_context, position_of, remove_call, replace_at}
use drt_go_chain_vm_v.Common.Dict.{Dict, Distinct, bytes_Eq, erase, lookup}
use drt_go_chain_vm_v.Host.Async.{AsyncContext, AsyncGeneratedCall}

-- How many calls a record waits for.
unfoldable pub waiting : Dict Bytes AsyncContext → ℕ
waiting [] = 0
waiting ((_, context) ∷ m) = length context.async_calls + waiting m

length-replace_at :
    (n : ℕ) (call : AsyncGeneratedCall) (calls : List AsyncGeneratedCall)
    → length (replace_at n call calls) ≡ length calls
unfolding replace_at
length-replace_at n call [] = refl
length-replace_at zero call (_ ∷ calls) = refl
length-replace_at (suc n) call (_ ∷ calls) = ap suc (length-replace_at n call calls)

-- At most one call leaves.
length-remove_call :
    (caller : Bytes) (calls : List AsyncGeneratedCall)
    → length calls ≤ suc (length (remove_call caller calls))
unfolding remove_call
length-remove_call caller calls =
    let last = length calls - 1 in
    elim (Option-cases (position_of caller calls 0)) [
      | inl missing ↦ ground arith
      | inr (position, here) ↦ elim (Option-cases (get_elem? calls last)) [
        | inl missing ↦ ground arith
        | inr (call, found) ↦ ground (
          arith,
          length-take last (replace_at position call calls),
          length-replace_at position call calls,
        )
      ]
    ]

erase_absent :
    (identifier : Bytes) (m : Dict Bytes AsyncContext)
    → lookup identifier m ≡ none
    → erase identifier m ≡ m
unfolding erase lookup
erase_absent identifier [] free = refl
erase_absent identifier ((key, context) ∷ m) free = ground (arith, erase_absent identifier m)

found_present :
    (caller identifier : Bytes) (context : AsyncContext) (m : Dict Bytes AsyncContext)
    → find_context caller m ≡ some (identifier, context)
    → lookup identifier m ≢ none
unfolding find_context lookup
found_present caller identifier context [] found free = ground arith
found_present caller identifier context ((key, first) ∷ m) found free =
    ground (arith, found_present caller identifier context m, bytes_eq_iff key identifier)

-- What waits besides the calls of the context that was found.
waiting-erase :
    (caller identifier : Bytes) (context : AsyncContext) (m : Dict Bytes AsyncContext)
    → Distinct m
    → find_context caller m ≡ some (identifier, context)
    → waiting m ≤ waiting (erase identifier m) + length context.async_calls
unfolding find_context erase waiting
waiting-erase caller identifier context [] distinct found = ground arith
waiting-erase caller identifier context ((key, first) ∷ m) (fresh, distinct) found = ground (
  arith,
  waiting-erase caller identifier context m distinct,
  erase_absent identifier m,
  bytes_eq_iff key identifier,
  found_present caller identifier context m,
)

some_waiting : (m : Dict Bytes AsyncContext) → 0 < waiting m → (length m == 0) ≡ false
unfolding waiting
some_waiting [] more = ground arith
some_waiting (entry ∷ m) more = ground arith

module _ (out : Outside) (dest : ContractCallInput → Host → DestResult × Host) (h : Host)
    (info : AsyncContextInfo) where
  only_reads :
      out.from_json (get_storage_unmetered out.hook (async_storage_key h) h).0 ≡ some info
      → Distinct info.async_context_map
      → 1 < waiting info.async_context_map
      → let (err, h') = process_callback_stack out dest h in
        (h' ≡ (get_storage_unmetered out.hook (async_storage_key h) h).1)
        × ((err ≡ none) ⊎ (err ≡ some callback_func_not_expected))
  unfolding process_callback_stack
  only_reads parsed distinct more =
      let caller = h.runtime.vm_input.caller_addr in
      let m = info.async_context_map in
      elim (Option-cases (find_context caller m)) [
        | inl missing ↦ ground arith
        | inr ((identifier, context), found) ↦ ground (
          arith,
          waiting-erase caller identifier context m distinct found,
          length-remove_call caller context.async_calls,
          some_waiting (erase identifier m),
          some_waiting m,
        )
      ]

-- While a stored record, whose contexts have distinct identifiers, waits for two calls or more in
-- all, every callback that comes in does nothing but read the record: all that is stored stays, the
-- record with the resolved call included, and it ends with no error or with
-- ErrCallBackFuncNotExpected.
pub process_callback_stack-waits :
    (out : Outside) (dest : ContractCallInput → Host → DestResult × Host) (a k : Bytes) (h : Host)
    (info : AsyncContextInfo)
    → out.from_json (stored out.hook h.storage.address (async_storage_key h) h) ≡ some info
    → Distinct info.async_context_map
    → 1 < waiting info.async_context_map
    → let (err, h') = process_callback_stack out dest h in
      (h' ≡ (get_storage_unmetered out.hook (async_storage_key h) h).1)
      × (stored out.hook a k h' ≡ stored out.hook a k h)
      × ((err ≡ none) ⊎ (err ≡ some callback_func_not_expected))
unfolding get_storage_unmetered
process_callback_stack-waits out dest a k h info parsed distinct more =
    let key = async_storage_key h in
    let own = h.storage.address in
    let (only, err) =
      only_reads out dest h info
        (ap out.from_json (get_storage_from_address_unmetered-reads out.hook own key h) ∙ parsed)
        distinct more in
    (
      only,
      ap (stored out.hook a k) only
          ∙ stored-get_storage_from_address_unmetered out.hook a k own key h,
      err,
    )
