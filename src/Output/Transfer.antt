-- ===== src/Output/Transfer.antt =====
-- vmhost/contexts/output.go: value transfers. The node's blockchain hook is a parameter.
use drt_go_chain_vm_v.Common.{
  Bool, Option, [], false, if◌then◌else◌, ltb, none, not, some, true, ℕ, ◌&&◌, ◌++◌, ◌||◌, ◌∷◌,
}
use drt_go_chain_vm_v.Common.Bytes.{Bytes}
use drt_go_chain_vm_v.Common.Int.{leb_ℤ, ltb_ℤ, pos, ℤ, ◌+ℤ◌, ◌-ℤ◌}
use drt_go_chain_vm_v.Host.{
  BlockchainHook, CallType, Host, OutputTransfer, asynchronous_call, is_dcdt_functions_enabled,
  is_vm_v3_enabled,
}
use drt_go_chain_vm_v.Host.Error.{
  VmError, account_not_payable, transfer_insufficient_funds, transfer_negative_value,
}
use drt_go_chain_vm_v.Metering.{is_callback}
use drt_go_chain_vm_v.Output.Account.{get_output_account, set_output_account}
use drt_go_chain_vm_v.Blockchain.{set_output, get_balance_big_int}

-- account.BalanceDelta = f(account.BalanceDelta), through the pointer that GetOutputAccount
-- returns. A nil delta panics.
unfoldable pub shift_delta : (ℤ → ℤ) → Bytes → Host → Host
shift_delta f address h =
    let ((account, _), c) = get_output_account address h.output in
    elim account.balance_delta [
      | none ↦ record h { panicked = true }
      | some delta ↦
          set_output
            (set_output_account address (record account { balance_delta = some (f delta) }) c) h
    ]

unfoldable pub add_tx_value_to_account : Bytes → ℤ → Host → Host
unfolding shift_delta
add_tx_value_to_account address value h = shift_delta (λ d. d +ℤ value) address h

abbrev pub is_async : CallType → Bool
is_async asynchronous_call = true
is_async _ = false

-- The two pointers are taken before either delta is written, and they may be one pointer.
unfoldable pub move_value : Bytes → Bytes → ℤ → Host → Host
move_value destination sender value h =
    let (_, c1) = get_output_account sender h.output in
    let (_, c2) = get_output_account destination c1 in
    shift_delta (λ d. d +ℤ value) destination
      (shift_delta (λ d. d -ℤ value) sender (set_output c2 h))

module _ (hook : BlockchainHook) where
  unfoldable pub has_sufficient_balance : Bytes → ℤ → Host → Bool × Host
  has_sufficient_balance address value h =
      let (balance, h') = get_balance_big_int hook address h in (leb_ℤ value balance, h')

  -- What follows the check of the balance.
  unfoldable pub pay : Bytes → Bytes → ℤ → Bool → Host → Option VmError × Host
  pay destination sender value check_payable h =
      let (payable, err) = hook.is_payable destination in
      let is_async_call = is_vm_v3_enabled h && is_async h.runtime.vm_input.call_type in
      let check = check_payable || not (is_dcdt_functions_enabled h) in
      let has_value = ltb_ℤ (pos 0) value in
      elim err [
        | some e ↦ (some e, h)
        | none ↦
            if check && not payable && has_value && not is_async_call
            then (some account_not_payable, h)
            else (none, move_value destination sender value h)
      ]

  unfoldable pub transfer_value_only : Bytes → Bytes → ℤ → Bool → Host → Option VmError × Host
  unfolding has_sufficient_balance
  transfer_value_only destination sender value check_payable h =
      if ltb_ℤ value (pos 0)
      then (some transfer_negative_value, h)
      else (let (sufficient, h1) = has_sufficient_balance sender value h in
          if sufficient
          then pay destination sender value check_payable h1
          else (some transfer_insufficient_funds, h1))

  unfoldable pub transfer :
      Bytes → Bytes → ℕ → ℕ → ℤ → Bytes → CallType → Host → Option VmError × Host
  transfer destination sender gas_limit gas_locked value input call_type h =
      let check_payable = ltb 0 gas_limit && not (is_callback call_type) in
      let (err, h1) = transfer_value_only destination sender value check_payable h in
      elim err [
        | some e ↦ (some e, h1)
        | none ↦
            let ((account, _), c) = get_output_account destination h1.output in
            let output_transfer : OutputTransfer = record {
              value = value;
              gas_limit = gas_limit;
              gas_locked = gas_locked;
              payload = input;
              call_type = call_type;
              sender_address = sender;
            } in
            (
              none,
              set_output
                  (set_output_account destination
                    (record account {
                      output_transfers = account.output_transfers ++ output_transfer ∷ [];
                    })
                    c)
                  h1,
            )
      ]
