-- ===== src/Output/Funds.antt =====
-- TransferValueOnly of vmhost/contexts/output.go with the balance check of blockchain.go.
use drt_go_chain_vm_v.Output.Transfer.{pay}
use drt_go_chain_vm_v.Common.{Bool, false, if◌then◌else◌, true, ◌⊎◌}
use drt_go_chain_vm_v.Common.Bytes.{bytes_eq}
use drt_go_chain_vm_v.Common.Int.{leb_ℤ, ltb_ℤ, ◌+ℤ◌, ◌-ℤ◌, ◌≤ℤ◌}
use drt_go_chain_vm_v.Host.Error.{
  VmError, account_not_payable, transfer_insufficient_funds, transfer_negative_value,
}
use drt_go_chain_vm_v.Output.Balance.{HasDeltas, delta_of, delta_of-move_value}
use drt_go_chain_vm_v.Output.Transfer.{transfer_value_only}
use drt_go_chain_vm_v.Blockchain.{get_balance_big_int}
use drt_go_chain_vm_v.Common.{arith, none, some, ◌≡◌, ◌≢◌}
use drt_go_chain_vm_v.Common.Bytes.{Bytes, bytes_eq_iff}
use drt_go_chain_vm_v.Common.Int.{pos, ℤ}
use drt_go_chain_vm_v.Host.{AccountResult, BlockchainHook, Host, absent, failed, present}
use drt_go_chain_vm_v.Output.Lookup.{
  account_at-get_output_account, account_at-set_output_account, get_output_account-eq-account_at,
}
use drt_go_chain_vm_v.Output.Account.{get_output_account}
use drt_go_chain_vm_v.Output.Lookup.{account_at}

unfoldable pub user_balance : AccountResult → ℤ
user_balance (present user) = user.balance
user_balance (failed e) = pos 0
user_balance absent = pos 0

module _ (hook : BlockchainHook) where
  -- Reading a balance writes at most the balance cache.
  pub balance_delta-get_balance_big_int :
      (k a : Bytes) (h : Host)
      → (account_at a (get_balance_big_int hook k h).1.output).balance_delta
        ≡ (account_at a h.output).balance_delta
  unfolding get_balance_big_int user_balance
  balance_delta-get_balance_big_int k a h = ground (
    arith,
    get_output_account-eq-account_at k h.output,
    account_at-get_output_account a k h.output,
    bytes_eq_iff k a,
    account_at-set_output_account a k
        (record (get_output_account k h.output).0.0 {
          balance = some (user_balance (hook.get_user_account k));
        })
        (get_output_account k h.output).1,
  )

  panicked-get_balance_big_int :
      (k : Bytes) (h : Host)
      → (account_at k h.output).balance_delta ≢ none
      → (get_balance_big_int hook k h).1.panicked ≡ h.panicked
  unfolding get_balance_big_int
  panicked-get_balance_big_int k h d = ground (arith, get_output_account-eq-account_at k h.output)

  pub HasDeltas-get_balance_big_int :
      (k : Bytes) (h : Host)
      → HasDeltas h.output
      → HasDeltas (get_balance_big_int hook k h).1.output
  HasDeltas-get_balance_big_int k h d a = rw (balance_delta-get_balance_big_int k a h) (d a)

  -- A transfer that succeeds, from an output with no nil delta, moves a value that is not negative and
  -- that the sender's balance covers. The value leaves the sender's delta and enters the
  -- destination's, which may be the same account. The delta of every other address stays, and
  -- nothing panics.
  pub transfer_value_only-moves :
      (destination sender a : Bytes) (value : ℤ) (check_payable : Bool) (h : Host)
      → HasDeltas h.output
      → (transfer_value_only hook destination sender value check_payable h).0 ≡ none
      → let h' = (transfer_value_only hook destination sender value check_payable h).1 in
        (pos 0 ≤ℤ value)
        × (value ≤ℤ (get_balance_big_int hook sender h).0)
        × (delta_of a h'.output ≡ (
            let taken = if bytes_eq sender a then value else pos 0 in
            let given = if bytes_eq destination a then value else pos 0 in
            delta_of a h.output -ℤ taken +ℤ given))
        × (h'.panicked ≡ h.panicked)
  unfolding transfer_value_only pay
  transfer_value_only-moves destination sender a value check_payable h d e =
      let h1 = (get_balance_big_int hook sender h).1 in
      ground (
        arith,
        delta_of-move_value destination sender a value h1
            (HasDeltas-get_balance_big_int sender h d),
        panicked-get_balance_big_int sender h (d sender),
        balance_delta-get_balance_big_int sender a h,
      )

  -- A transfer that fails, from an output with no nil delta, leaves the delta of every address, and
  -- nothing panics. Its error says which check failed: the value is negative, the sender's balance
  -- does not cover it, the blockchain hook failed, or the destination may not be paid.
  pub transfer_value_only-fails :
      (destination sender a : Bytes) (value : ℤ) (check_payable : Bool) (h : Host) (err : VmError)
      → HasDeltas h.output
      → (transfer_value_only hook destination sender value check_payable h).0 ≡ some err
      → let h' = (transfer_value_only hook destination sender value check_payable h).1 in
        (delta_of a h'.output ≡ delta_of a h.output)
        × (h'.panicked ≡ h.panicked)
        × (((err ≡ transfer_negative_value) × (ltb_ℤ value (pos 0) ≡ true))
            ⊎ ((err ≡ transfer_insufficient_funds)
                × (leb_ℤ value (get_balance_big_int hook sender h).0 ≡ false))
            ⊎ ((hook.is_payable destination).1 ≡ some err)
            ⊎ ((err ≡ account_not_payable) × ((hook.is_payable destination).0 ≡ false)))
  unfolding transfer_value_only pay
  transfer_value_only-fails destination sender a value check_payable h err d e = ground (
    arith,
    panicked-get_balance_big_int sender h (d sender),
    balance_delta-get_balance_big_int sender a h,
  )
