-- ===== src/Output/Active.antt =====
-- AddToActiveState of vmhost/contexts/output.go: an output of the node is merged into the active one.
use drt_go_chain_vm_v.Common.{ap, ◌∙◌}
use drt_go_chain_vm_v.Common.{
  Bool, Option, [], arith, false, if◌then◌else◌, length, ltb, none, refl, some, true, ◌++◌, ◌||◌,
  ◌∷◌, ◌≡◌,
}
use drt_go_chain_vm_v.Common.Bytes.{Bytes, bytes_eq, bytes_eq_iff}
use drt_go_chain_vm_v.Common.Dict.{Dict, Distinct, bytes_Eq, insert, int_Eq, lookup, lookup-insert}
use drt_go_chain_vm_v.Common.Int.{ℤ, ◌+ℤ◌}
use drt_go_chain_vm_v.Host.{Host, OutputAccount, VmOutput}
use drt_go_chain_vm_v.Output.{merge_accounts, merge_output_accounts, merge_vm_outputs, or_blank}
use drt_go_chain_vm_v.Output.Account.{or_nil}

-- The delta that a right account gets from the left account of its address.
unfoldable pub shifted : Option OutputAccount → OutputAccount → OutputAccount
shifted none right = right
shifted (some left) right = elim right.balance_delta [
  | none ↦ right
  | some d ↦ record right { balance_delta = some (d +ℤ or_nil left.balance_delta) }
]

-- Adding a nil delta panics.
adds_nil : Option OutputAccount → OutputAccount → Bool
adds_nil none right = false
adds_nil (some left) right = elim right.balance_delta [
  | none ↦ false
  | some _ ↦ elim left.balance_delta [ none ↦ true | some _ ↦ false ]
]

unfoldable pub append_transfers :
    Option OutputAccount → OutputAccount → Dict Bytes OutputAccount → Dict Bytes OutputAccount
append_transfers none right accounts = accounts
append_transfers (some left) right accounts =
    if ltb 0 (length right.output_transfers)
    then insert right.address
        (record left { output_transfers = left.output_transfers ++ right.output_transfers })
        accounts
    else accounts

-- The loop of AddToActiveState: the left accounts, the right accounts, and whether it panics.
unfoldable pub absorb :
    Dict Bytes OutputAccount
    → Dict Bytes OutputAccount
    → Dict Bytes OutputAccount × Dict Bytes OutputAccount × Bool
unfolding shifted adds_nil append_transfers
absorb left [] = (left, [], false)
absorb left ((key, right_account) ∷ right) =
    let left_account = lookup right_account.address left in
    let (left', right', nil_delta) =
      absorb (append_transfers left_account right_account left) right in
    (
      left',
      (key, shifted left_account right_account) ∷ right',
      adds_nil left_account right_account || nil_delta,
    )

-- rightOutput.GasRefund.Add(rightOutput.GasRefund, context.outputState.GasRefund)
unfoldable pub add_refund : Option ℤ → Option ℤ → Option ℤ
add_refund none active = none
add_refund (some refund) active = some (refund +ℤ or_nil active)

unfoldable pub add_to_active_state : VmOutput → Host → Host
unfolding add_refund
add_to_active_state right h =
    let active = h.output.output_state in
    let (left_accounts, right_accounts, nil_delta) =
      absorb active.output_accounts right.output_accounts in
    let right' : VmOutput = record right {
      gas_remaining = 0;
      gas_refund = add_refund right.gas_refund active.gas_refund;
      output_accounts = right_accounts;
    } in
    record h {
      output = record (h.output) {
        output_state = merge_vm_outputs (record active { output_accounts = left_accounts }) right';
      };
      panicked = h.panicked || nil_delta;
    }

-- Every account stands under its own address.
abbrev pub AtKeys : Dict Bytes OutputAccount → Type 0
AtKeys [] = Unit
AtKeys ((k, a) ∷ m) = (a.address ≡ k) × AtKeys m

unfoldable pub merged : Option OutputAccount → Option OutputAccount → Option OutputAccount
merged left none = left
merged left (some right) = some (merge_output_accounts (or_blank left) right)

-- Merging lists of accounts with distinct addresses merges the accounts of each address.
pub lookup-merge_accounts :
    (a : Bytes) (left right : Dict Bytes OutputAccount)
    → Distinct right
    → AtKeys right
    → lookup a (merge_accounts left right) ≡ merged (lookup a left) (lookup a right)
unfolding merge_accounts merged lookup
lookup-merge_accounts a left [] d k = refl
lookup-merge_accounts a left ((k, r) ∷ right) (new, d) (at_key, ks) =
    let here = insert r.address (merge_output_accounts (or_blank (lookup r.address left)) r) left in
    ground (
      arith,
      lookup-merge_accounts a here right d ks,
      lookup-insert r.address a (merge_output_accounts (or_blank (lookup r.address left)) r) left,
      bytes_eq_iff r.address a,
      bytes_eq_iff k a,
      at_key,
      new,
    )

-- The left account of an address after the loop has met the right account of that address.
unfoldable pub extended : Option OutputAccount → OutputAccount → Option OutputAccount
extended none right = none
extended (some left) right =
    if ltb 0 (length right.output_transfers)
    then some (record left { output_transfers = left.output_transfers ++ right.output_transfers })
    else some left

lookup-append_transfers :
    (a : Bytes) (o : Option OutputAccount) (r : OutputAccount) (left : Dict Bytes OutputAccount)
    → lookup r.address left ≡ o
    → lookup a (append_transfers o r left)
      ≡ (if bytes_eq r.address a then extended o r else lookup a left)
unfolding append_transfers extended
lookup-append_transfers a none r left e = ground (arith, bytes_eq_iff r.address a)
lookup-append_transfers a (some l) r left e = ground (
  arith,
  bytes_eq_iff r.address a,
  lookup-insert r.address a
      (record l { output_transfers = l.output_transfers ++ r.output_transfers }) left,
)

unfoldable pub extended_by : Option OutputAccount → Option OutputAccount → Option OutputAccount
extended_by left none = left
extended_by left (some right) = extended left right

unfoldable pub shifted_by : Option OutputAccount → Option OutputAccount → Option OutputAccount
shifted_by left none = none
shifted_by left (some right) = some (shifted left right)

address-shifted : (o : Option OutputAccount) (r : OutputAccount) → (shifted o r).address ≡ r.address
unfolding shifted
address-shifted o r = ground arith

module _ (a : Bytes) where
  pub lookup-absorb :
      (left right : Dict Bytes OutputAccount)
      → Distinct right
      → AtKeys right
      → let (left', right', _) = absorb left right in
        (lookup a left' ≡ extended_by (lookup a left) (lookup a right))
        × (lookup a right' ≡ shifted_by (lookup a left) (lookup a right))
  unfolding absorb lookup extended_by shifted_by
  lookup-absorb left [] d k = (refl, refl)
  lookup-absorb left ((k, r) ∷ right) (new, d) (at_key, ks) =
      let next = append_transfers (lookup r.address left) r left in
      ground (
        arith,
        (lookup-absorb next right d ks).0,
        (lookup-absorb next right d ks).1,
        lookup-append_transfers a (lookup r.address left) r left refl,
        bytes_eq_iff r.address a,
        bytes_eq_iff k a,
        at_key,
        new,
      )

pub absorb-AtKeys :
    (left right : Dict Bytes OutputAccount) → AtKeys right → AtKeys (absorb left right).1
unfolding absorb
absorb-AtKeys left [] k = tt
absorb-AtKeys left ((k, r) ∷ right) (at_key, ks) = (
  address-shifted (lookup r.address left) r ∙ at_key,
  absorb-AtKeys (append_transfers (lookup r.address left) r left) right ks,
)

pub absorb-Distinct :
    (left right : Dict Bytes OutputAccount)
    → Distinct right
    → AtKeys right
    → Distinct (absorb left right).1
unfolding absorb shifted_by
absorb-Distinct left [] d k = tt
absorb-Distinct left ((k, r) ∷ right) (new, d) (at_key, ks) =
    let next = append_transfers (lookup r.address left) r left in
    (
      (lookup-absorb k next right d ks).1 ∙ ap (shifted_by (lookup k next)) new,
      absorb-Distinct next right d ks,
    )
