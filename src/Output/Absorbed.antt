-- ===== src/Output/Absorbed.antt =====
-- What AddToActiveState of vmhost/contexts/output.go leaves under each address.
use drt_go_chain_vm_v.Common.{ap}
use drt_go_chain_vm_v.Output.Active.{add_refund}
use drt_go_chain_vm_v.Common.{List, [], drop, if◌then◌else◌, length, ltb, ◌∷◌}
use drt_go_chain_vm_v.Host.{OutputTransfer}
use drt_go_chain_vm_v.Common.{Option, arith, length-append, none, refl, some, ◌++◌, ◌∙◌, ◌≡◌, ◌≢◌}
use drt_go_chain_vm_v.Common.Bytes.{Bytes}
use drt_go_chain_vm_v.Common.Dict.{Distinct, bytes_Eq, int_Eq, lookup}
use drt_go_chain_vm_v.Common.Int.{int_laws, pos, ℤ, ◌+ℤ◌}
use drt_go_chain_vm_v.Host.{Host, OutputAccount, VmOutput}
use drt_go_chain_vm_v.Output.{
  merge_accounts, merge_output_accounts, merge_vm_outputs, or_blank, or_else,
}
use drt_go_chain_vm_v.Output.Active.{
  AtKeys, absorb, absorb-AtKeys, absorb-Distinct, add_to_active_state, extended, extended_by,
  lookup-absorb, lookup-merge_accounts, merged, shifted, shifted_by,
}
use drt_go_chain_vm_v.Output.Balance.{HasDeltas, delta_of}
use drt_go_chain_vm_v.Output.Lookup.{or_new}
use drt_go_chain_vm_v.Output.Sent.{transfers_of}
use mathlib.Core.List.{append-nil}
use mathlib.Core.Path.{ap₂}
use drt_go_chain_vm_v.Output.Account.{or_nil}
use drt_go_chain_vm_v.Output.Lookup.{account_at}

or_nil_new : (d : Option ℤ) → or_nil (or_else d (some (pos 0))) ≡ pos 0 +ℤ or_nil d
or_nil_new none = omega int_laws
or_nil_new (some d) = omega int_laws

or_nil_add : (d : ℤ) → or_nil (some d) ≡ or_nil (some d) +ℤ pos 0
or_nil_add d = omega int_laws

add_swap : (x y : ℤ) → x +ℤ y ≡ y +ℤ x
add_swap x y = omega int_laws

delta_of_parts :
    (a : Bytes) (l r : Option OutputAccount)
    → (or_new a l).balance_delta ≢ none
    → or_nil (or_new a (merged (extended_by l r) (shifted_by l r))).balance_delta
      ≡ or_nil (or_new a l).balance_delta +ℤ or_nil (or_blank r).balance_delta
unfolding merged extended_by shifted_by shifted extended merge_output_accounts
delta_of_parts a none none d = omega int_laws
delta_of_parts a none (some r) d = or_nil_new r.balance_delta
delta_of_parts a (some l) none d = omega int_laws
delta_of_parts a (some l) (some r) d = ground (
  arith,
  or_nil_add (or_nil l.balance_delta),
  add_swap (or_nil r.balance_delta) (or_nil l.balance_delta),
)

kept : (ts : List OutputTransfer) → (if ltb 0 (length ts) then ts else []) ≡ ts
kept [] = refl
kept (t ∷ ts) = ground arith

-- The right transfers have been appended to the left ones, so merging appends nothing more.
appended_once :
    (ls rs : List OutputTransfer)
    → (let joined = if ltb 0 (length rs) then ls ++ rs else ls in
        if ltb (length joined) (length rs) then joined ++ drop (length joined) rs else joined)
      ≡ ls ++ rs
appended_once ls [] = ground (arith, append-nil ls)
appended_once ls (t ∷ ts) = ground (arith, length-append ls (t ∷ ts))

output_transfers-shifted :
    (l r : OutputAccount) → (shifted (some l) r).output_transfers ≡ r.output_transfers
unfolding shifted
output_transfers-shifted l r = ground arith

output_transfers-extended :
    (l r : OutputAccount)
    → (or_blank (extended (some l) r)).output_transfers ≡ (
        if ltb 0 (length r.output_transfers)
        then l.output_transfers ++ r.output_transfers
        else l.output_transfers)
unfolding extended
output_transfers-extended l r = ground arith

transfers_of_parts :
    (a : Bytes) (l r : Option OutputAccount)
    → (or_new a (merged (extended_by l r) (shifted_by l r))).output_transfers
      ≡ (or_new a l).output_transfers ++ (or_blank r).output_transfers
unfolding merged extended_by shifted_by merge_output_accounts
transfers_of_parts a none none = refl
transfers_of_parts a none (some r) = unfold shifted extended in kept r.output_transfers
transfers_of_parts a (some l) none = rw append-nil
transfers_of_parts a (some l) (some r) =
    rw (output_transfers-shifted l r, output_transfers-extended l r)
      (appended_once l.output_transfers r.output_transfers)

-- An output whose accounts have distinct addresses, each under its own, is added to an active output
-- with no nil delta address by address: the balance deltas add up and the transfers follow those that
-- stand there. The refunds add up where the added output has one, and where it has none the active
-- refund becomes zero.
pub add_to_active_state_adds :
    (a : Bytes) (right : VmOutput) (h : Host)
    → HasDeltas h.output
    → Distinct right.output_accounts
    → AtKeys right.output_accounts
    → let c = (add_to_active_state right h).output in
      let added = or_blank (lookup a right.output_accounts) in
      (delta_of a c ≡ delta_of a h.output +ℤ or_nil added.balance_delta)
      × (transfers_of a c ≡ transfers_of a h.output ++ added.output_transfers)
      × (c.output_state.gas_refund ≡ elim right.gas_refund [
        | none ↦ some (pos 0)
        | some refund ↦ some (refund +ℤ or_nil h.output.output_state.gas_refund)
      ])
unfolding add_to_active_state account_at merge_vm_outputs
add_to_active_state_adds a right h d distinct keys =
    let left = h.output.output_state.output_accounts in
    let accounts = right.output_accounts in
    let (left', right', _) = absorb left accounts in
    let found : lookup a (merge_accounts left' right')
        ≡ merged (extended_by (lookup a left) (lookup a accounts))
            (shifted_by (lookup a left) (lookup a accounts)) =
      lookup-merge_accounts a left' right' (absorb-Distinct left accounts distinct keys)
        (absorb-AtKeys left accounts keys)
      ∙ ap₂ merged (lookup-absorb a left accounts distinct keys).0
          (lookup-absorb a left accounts distinct keys).1 in
    (
      ap (λ (o : Option OutputAccount). or_nil (or_new a o).balance_delta) found
          ∙ delta_of_parts a (lookup a left) (lookup a accounts) (d a),
      ap (λ (o : Option OutputAccount). (or_new a o).output_transfers) found
          ∙ transfers_of_parts a (lookup a left) (lookup a accounts),
      unfold add_refund in ground arith,
    )
