-- ===== src/Output/Merge.antt =====
-- mergeVMOutputs of vmhost/contexts/output.go as a copy: merging into a new output.
use drt_go_chain_vm_v.Common.{Option, ap}
use drt_go_chain_vm_v.Common.Dict.{insert}
use drt_go_chain_vm_v.Output.{or_blank}
use drt_go_chain_vm_v.Common.{[], arith, none, sym, ◌++◌, ◌∙◌, ◌∷◌, ◌≡◌, ◌≢◌}
use drt_go_chain_vm_v.Common.Bytes.{Bytes}
use drt_go_chain_vm_v.Common.Dict.{
  Dict, Distinct, Distinct-append_mid, bytes_Eq, insert-append_new, int_Eq, lookup,
}
use drt_go_chain_vm_v.Host.{OutputAccount, OutputContext, StorageUpdate, VmOutput}
use drt_go_chain_vm_v.Output.{
  blank_account, merge_accounts, merge_output_accounts, merge_storage_updates, merge_vm_outputs,
  new_vm_output, pop_set_active_state, push_state,
}
use mathlib.Core.List.{append-nil, append_assoc}

-- Merging updates under keys that are new to the left appends them.
merge_storage_updates-append :
    (left right : Dict Bytes StorageUpdate)
    → Distinct (left ++ right)
    → merge_storage_updates left right ≡ left ++ right
unfolding merge_storage_updates
merge_storage_updates-append left [] d = rw append-nil
merge_storage_updates-append left ((k, u) ∷ right) d =
    let new : lookup k left ≡ none = Distinct-append_mid k u left right d in
    let assoc : left ++ (k, u) ∷ right ≡ (left ++ (k, u) ∷ []) ++ right = rw append_assoc in
    rw (insert-append_new k u left new)
      (merge_storage_updates-append (left ++ (k, u) ∷ []) right (rw assoc at d) ∙ sym assoc)

-- What every account of an active output satisfies: its delta is not nil, and the keys of its
-- storage updates are distinct.
pub record IsSound (a : OutputAccount) : Type 0 where
  pub has_delta : a.balance_delta ≢ none
  pub distinct_keys : Distinct a.storage_updates

merge_output_accounts-blank :
    (a : OutputAccount) → IsSound a → merge_output_accounts blank_account a ≡ a
unfolding merge_output_accounts
merge_output_accounts-blank a s =
    ground (arith, s.has_delta, merge_storage_updates-append [] a.storage_updates s.distinct_keys)

-- Every account stands under its own address and is sound.
abbrev pub AreSound : Dict Bytes OutputAccount → Type 0
AreSound [] = Unit
AreSound ((k, a) ∷ m) = (a.address ≡ k) × IsSound a × AreSound m

-- What every active output satisfies.
pub record IsValid (o : VmOutput) : Type 0 where
  pub distinct_addresses : Distinct o.output_accounts
  pub sound_accounts : AreSound o.output_accounts
  pub has_refund : o.gas_refund ≢ none

insert_at_key :
    (k : Bytes) (a : OutputAccount) (left : Dict Bytes OutputAccount)
    → a.address ≡ k
    → insert a.address (merge_output_accounts (or_blank (lookup a.address left)) a) left
      ≡ insert k (merge_output_accounts (or_blank (lookup k left)) a) left
insert_at_key k a left e =
    ap (λ (x : Bytes). insert x (merge_output_accounts (or_blank (lookup x left)) a) left) e

merge_accounts-append :
    (left right : Dict Bytes OutputAccount)
    → Distinct (left ++ right)
    → AreSound right
    → merge_accounts left right ≡ left ++ right
unfolding merge_accounts
merge_accounts-append left [] d s = rw append-nil
merge_accounts-append left ((k, a) ∷ right) d (at_key, sound, rest) =
    let new : lookup k left ≡ none = Distinct-append_mid k a left right d in
    let assoc : left ++ (k, a) ∷ right ≡ (left ++ (k, a) ∷ []) ++ right = rw append_assoc in
    let step : insert a.address (merge_output_accounts (or_blank (lookup a.address left)) a) left
        ≡ left ++ (k, a) ∷ [] =
      cc (
        insert_at_key k a left at_key,
        ap (λ (o : Option OutputAccount). insert k (merge_output_accounts (or_blank o) a) left) new,
        ap (λ (b : OutputAccount). insert k b left) (merge_output_accounts-blank a sound),
        insert-append_new k a left new,
      ) in
    rw step (merge_accounts-append (left ++ (k, a) ∷ []) right (rw assoc at d) rest ∙ sym assoc)

-- Merging a valid output into a new one copies it.
pub merge_vm_outputs-new : (o : VmOutput) → IsValid o → merge_vm_outputs new_vm_output o ≡ o
unfolding merge_vm_outputs
merge_vm_outputs-new o v = ground (
  arith,
  v.has_refund,
  merge_accounts-append [] o.output_accounts v.distinct_addresses v.sound_accounts,
)

-- Whatever a nested call did to its output since PushState, provided that it left the state stack as
-- PushState made it, PopSetActiveState brings back the output and the stack of the caller exactly,
-- if that output was valid. The set of code updates stays the one of the nested call.
pub pop_set_active_state-push_state_output :
    (c nested : OutputContext)
    → IsValid c.output_state
    → nested.state_stack ≡ (push_state c).state_stack
    → pop_set_active_state nested ≡ record c { code_updates = nested.code_updates }
unfolding pop_set_active_state push_state
pop_set_active_state-push_state_output c nested v e =
    ground (arith, merge_vm_outputs-new c.output_state v)
