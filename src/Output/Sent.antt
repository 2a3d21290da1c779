-- ===== src/Output/Sent.antt =====
-- Transfer of vmhost/contexts/output.go: the output transfers that it records.
use drt_go_chain_vm_v.Output.Transfer.{pay}
use drt_go_chain_vm_v.Common.{ltb, not, ◌&&◌}
use drt_go_chain_vm_v.Metering.{is_callback}
use drt_go_chain_vm_v.Blockchain.{get_balance_big_int}
use drt_go_chain_vm_v.Common.{
  Bool, List, [], ap, arith, if◌then◌else◌, none, some, ℕ, ◌++◌, ◌∙◌, ◌∷◌, ◌≡◌,
}
use drt_go_chain_vm_v.Common.Bytes.{Bytes, bytes_eq, bytes_eq_iff}
use drt_go_chain_vm_v.Common.Int.{ℤ, ◌+ℤ◌, ◌-ℤ◌}
use drt_go_chain_vm_v.Host.{
  BlockchainHook, CallType, Host, OutputAccount, OutputContext, OutputTransfer,
}
use drt_go_chain_vm_v.Output.Balance.{
  HasDeltas, account_at-looked_up, account_at-shift_delta, looked_up, shift_delta-HasDeltas,
  with_delta,
}
use drt_go_chain_vm_v.Output.Funds.{HasDeltas-get_balance_big_int, user_balance}
use drt_go_chain_vm_v.Output.Lookup.{
  account_at-get_output_account, account_at-set_output_account, get_output_account-eq-account_at,
}
use drt_go_chain_vm_v.Output.Transfer.{move_value, shift_delta, transfer, transfer_value_only}
use drt_go_chain_vm_v.Output.Account.{get_output_account}
use drt_go_chain_vm_v.Output.Lookup.{account_at}

abbrev pub transfers_of : Bytes → OutputContext → List OutputTransfer
transfers_of a c = (account_at a c).output_transfers

transfers_of-shift_delta :
    (f : ℤ → ℤ) (k a : Bytes) (h : Host)
    → HasDeltas h.output
    → transfers_of a (shift_delta f k h).output ≡ transfers_of a h.output
unfolding with_delta
transfers_of-shift_delta f k a h d =
    ground (arith, account_at-shift_delta f k a h (d k), bytes_eq_iff k a)

transfers_of-move_value :
    (destination sender a : Bytes) (value : ℤ) (h : Host)
    → HasDeltas h.output
    → transfers_of a (move_value destination sender value h).output ≡ transfers_of a h.output
unfolding move_value
transfers_of-move_value destination sender a value h d =
    let start = looked_up destination sender h in
    let d0 : HasDeltas start.output = λ x. rw account_at-looked_up (d x) in
    let d1 = shift_delta-HasDeltas (λ z. z -ℤ value) sender start d0 in
    transfers_of-shift_delta (λ z. z +ℤ value) destination a
      (shift_delta (λ z. z -ℤ value) sender start) d1
    ∙ transfers_of-shift_delta (λ z. z -ℤ value) sender a start d0
    ∙ ap (λ (x : OutputAccount). x.output_transfers) (account_at-looked_up destination sender a h)

module _ (hook : BlockchainHook) where
  transfers_of-get_balance_big_int :
      (k a : Bytes) (h : Host)
      → transfers_of a (get_balance_big_int hook k h).1.output ≡ transfers_of a h.output
  unfolding get_balance_big_int user_balance
  transfers_of-get_balance_big_int k a h = ground (
    arith,
    get_output_account-eq-account_at k h.output,
    account_at-get_output_account a k h.output,
    bytes_eq_iff k a,
    account_at-set_output_account a k
        (record (get_output_account k h.output).0.0 {
          balance = some (user_balance (hook.get_user_account k));
        })
        (get_output_account k h.output).1,
  )

  transfers_of-transfer_value_only :
      (destination sender a : Bytes) (value : ℤ) (check_payable : Bool) (h : Host)
      → HasDeltas h.output
      → transfers_of a (transfer_value_only hook destination sender value check_payable h).1.output
        ≡ transfers_of a h.output
  unfolding transfer_value_only pay
  transfers_of-transfer_value_only destination sender a value check_payable h d =
      let h1 = (get_balance_big_int hook sender h).1 in
      ground (
        arith,
        transfers_of-move_value destination sender a value h1
            (HasDeltas-get_balance_big_int hook sender h d),
        transfers_of-get_balance_big_int sender a h,
      )

  -- From an output with no nil delta, Transfer adds one output transfer to the destination where the
  -- value transfer succeeds, with the gas, the value, the input and the sender that it was given,
  -- after those that stand there. Where it fails it adds none, and the transfers of every other
  -- address stay in both cases.
  pub transfer_appends :
      (destination sender a input : Bytes) (gas_limit gas_locked : ℕ) (value : ℤ)
      (call_type : CallType) (h : Host)
      → HasDeltas h.output
      → let (err, h') =
          transfer hook destination sender gas_limit gas_locked value input call_type h in
        let sent : OutputTransfer = record {
          value = value;
          gas_limit = gas_limit;
          gas_locked = gas_locked;
          payload = input;
          call_type = call_type;
          sender_address = sender;
        } in
        transfers_of a h'.output ≡ elim err [
          | none ↦
              if bytes_eq destination a
              then transfers_of a h.output ++ sent ∷ []
              else transfers_of a h.output
          | some _ ↦ transfers_of a h.output
        ]
  unfolding transfer
  transfer_appends destination sender a input gas_limit gas_locked value call_type h d =
      let check = ltb 0 gas_limit && not (is_callback call_type) in
      let h1 = (transfer_value_only hook destination sender value check h).1 in
      let account = (get_output_account destination h1.output).0.0 in
      let sent : OutputTransfer = record {
        value = value;
        gas_limit = gas_limit;
        gas_locked = gas_locked;
        payload = input;
        call_type = call_type;
        sender_address = sender;
      } in
      ground (
        arith,
        account_at-set_output_account a destination
            (record account { output_transfers = account.output_transfers ++ sent ∷ [] })
            (get_output_account destination h1.output).1,
        account_at-get_output_account a destination h1.output,
        get_output_account-eq-account_at destination h1.output,
        transfers_of-transfer_value_only destination sender a value check h d,
        bytes_eq_iff destination a,
      )
