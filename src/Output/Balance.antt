-- ===== src/Output/Balance.antt =====
-- Value transfers of vmhost/contexts/output.go: what they do to the balance deltas.
use drt_go_chain_vm_v.Common.{Bool, false, true}
use drt_go_chain_vm_v.Blockchain.{set_output}
use drt_go_chain_vm_v.Common.{◌∙◌}
use drt_go_chain_vm_v.Common.Bytes.{bytes_eq_iff}
use drt_go_chain_vm_v.Common.Int.{int_laws}
use drt_go_chain_vm_v.Common.{arith, if◌then◌else◌, none, some, ◌≡◌, ◌≢◌}
use drt_go_chain_vm_v.Common.Bytes.{Bytes, bytes_eq}
use drt_go_chain_vm_v.Common.Int.{pos, ℤ, ◌+ℤ◌, ◌-ℤ◌}
use drt_go_chain_vm_v.Host.{Host, OutputAccount, OutputContext}
use drt_go_chain_vm_v.Output.Lookup.{
  account_at-get_output_account, account_at-set_output_account, get_output_account-eq-account_at,
}
use drt_go_chain_vm_v.Output.Transfer.{move_value, shift_delta}
use drt_go_chain_vm_v.Output.Account.{get_output_account, or_nil}
use drt_go_chain_vm_v.Output.Lookup.{account_at}

-- The balance delta of an address; an address with no account has none yet, which reads zero.
abbrev pub delta_of : Bytes → OutputContext → ℤ
delta_of a c = or_nil (account_at a c).balance_delta

-- No account of the output has a nil balance delta.
abbrev pub HasDeltas : OutputContext → Type 0
HasDeltas c = (a : Bytes) → (account_at a c).balance_delta ≢ none

unfoldable pub with_delta : ℤ → OutputAccount → OutputAccount
with_delta d acc = record acc { balance_delta = some d }

pub account_at-shift_delta :
    (f : ℤ → ℤ) (k a : Bytes) (h : Host)
    → (account_at k h.output).balance_delta ≢ none
    → account_at a (shift_delta f k h).output ≡ (
        if bytes_eq k a
        then with_delta (f (delta_of k h.output)) (account_at k h.output)
        else account_at a h.output)
unfolding shift_delta with_delta
account_at-shift_delta f k a h d = ground (
  arith,
  get_output_account-eq-account_at k h.output,
  account_at-get_output_account a k h.output,
  account_at-set_output_account a k (with_delta (f (delta_of k h.output)) (account_at k h.output))
      (get_output_account k h.output).1,
)

shift_delta_keeps :
    (f : ℤ → ℤ) (k : Bytes) (h : Host)
    → (account_at k h.output).balance_delta ≢ none
    → (shift_delta f k h).panicked ≡ h.panicked
unfolding shift_delta
shift_delta_keeps f k h d = ground (arith, get_output_account-eq-account_at k h.output)

pub shift_delta-HasDeltas :
    (f : ℤ → ℤ) (k : Bytes) (h : Host) → HasDeltas h.output → HasDeltas (shift_delta f k h).output
unfolding with_delta
shift_delta-HasDeltas f k h d a = ground (arith, account_at-shift_delta f k a h (d k), d a)

delta_of-shift_delta :
    (f : ℤ → ℤ) (k a : Bytes) (h : Host)
    → HasDeltas h.output
    → delta_of a (shift_delta f k h).output
      ≡ (if bytes_eq k a then f (delta_of a h.output) else delta_of a h.output)
unfolding with_delta
delta_of-shift_delta f k a h d =
    ground (arith, account_at-shift_delta f k a h (d k), bytes_eq_iff k a)

-- The host after the two look-ups of a transfer.
abbrev pub looked_up : Bytes → Bytes → Host → Host
looked_up destination sender h =
    set_output (get_output_account destination (get_output_account sender h.output).1).1 h

pub account_at-looked_up :
    (destination sender a : Bytes) (h : Host)
    → account_at a (looked_up destination sender h).output ≡ account_at a h.output
account_at-looked_up destination sender a h =
    account_at-get_output_account a destination (get_output_account sender h.output).1
    ∙ account_at-get_output_account a sender h.output

moved :
    (x value : ℤ) (paying paid : Bool)
    → (let rest = if paying then x -ℤ value else x in if paid then rest +ℤ value else rest)
      ≡ x -ℤ (if paying then value else pos 0) +ℤ (if paid then value else pos 0)
moved x value true true = omega int_laws
moved x value true false = omega int_laws
moved x value false true = omega int_laws
moved x value false false = omega int_laws

-- Moving a value takes it from the sender's delta and adds it to the destination's, which may be the
-- same account; the deltas of all other addresses stay, and nothing panics.
pub delta_of-move_value :
    (destination sender a : Bytes) (value : ℤ) (h : Host)
    → HasDeltas h.output
    → (delta_of a (move_value destination sender value h).output ≡ (
        let taken = if bytes_eq sender a then value else pos 0 in
        let given = if bytes_eq destination a then value else pos 0 in
        delta_of a h.output -ℤ taken +ℤ given))
      × ((move_value destination sender value h).panicked ≡ h.panicked)
unfolding move_value
delta_of-move_value destination sender a value h d =
    let start = looked_up destination sender h in
    let d0 : HasDeltas start.output = λ x. rw account_at-looked_up (d x) in
    let paid = shift_delta (λ z. z -ℤ value) sender start in
    let d1 = shift_delta-HasDeltas (λ z. z -ℤ value) sender start d0 in
    (
      rw
          (
            delta_of-shift_delta (λ z. z +ℤ value) destination a paid d1,
            delta_of-shift_delta (λ z. z -ℤ value) sender a start d0,
            account_at-looked_up destination sender a h,
          )
          (moved (delta_of a h.output) value (bytes_eq sender a) (bytes_eq destination a)),
      shift_delta_keeps (λ z. z +ℤ value) destination paid (d1 destination)
          ∙ shift_delta_keeps (λ z. z -ℤ value) sender start (d0 sender),
    )
