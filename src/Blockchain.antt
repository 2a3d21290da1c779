-- ===== src/Blockchain.antt =====
-- vmhost/contexts/blockchain.go: balances and nonces, read through the output accounts and written
-- back to them. The node's blockchain hook is a parameter.
use drt_go_chain_vm_v.Common.{[], length, ltb, not, ◌-◌}
use drt_go_chain_vm_v.Host.Error.{contract_not_found_error, invalid_account, other_error}
use drt_go_chain_vm_v.Common.{
  Bool, Option, false, if◌then◌else◌, none, some, true, ℕ, ◌%◌, ◌&&◌, ◌+◌, ◌==◌, ◌^◌, ◌||◌,
}
use drt_go_chain_vm_v.Common.Bytes.{Bytes}
use drt_go_chain_vm_v.Common.Int.{pos, ℤ, ◌+ℤ◌}
use drt_go_chain_vm_v.Host.{
  BlockchainHook, Host, OutputAccount, OutputContext, absent, failed, is_vm_v3_enabled, present,
}
use drt_go_chain_vm_v.Host.Error.{VmError}
use drt_go_chain_vm_v.Output.Account.{get_output_account, set_output_account}

abbrev pub set_output : OutputContext → Host → Host
set_output c h = record h { output = c }

-- The sum of a balance and the delta of the account. A nil delta panics.
add_delta : ℤ → OutputAccount → Host → ℤ × Host
add_delta balance account h = elim account.balance_delta [
  | some delta ↦ (balance +ℤ delta, h)
  | none ↦ (pos 0, record h { panicked = true })
]

module _ (hook : BlockchainHook) where
  unfoldable pub account_exists : Bytes → Bool
  account_exists address = elim (hook.get_user_account address) [
    | failed _ ↦ false
    | absent ↦ false
    | present _ ↦ true
  ]

  -- An account that the output holds.
  known_balance : Bytes → OutputAccount → Host → ℤ × Host
  unfolding add_delta
  known_balance address account h = elim account.balance [
    | some balance ↦ add_delta balance account h
    | none ↦ elim (hook.get_user_account address) [
      | failed _ ↦ (pos 0, h)
      | absent ↦ (pos 0, h)
      | present user ↦ add_delta user.balance account (
          set_output
            (set_output_account address (record account { balance = some user.balance }) h.output)
            h)
    ]
  ]

  -- An account that the output has just got.
  new_balance : Bytes → OutputAccount → Host → ℤ × Host
  new_balance address account h = elim (hook.get_user_account address) [
    | failed _ ↦ (pos 0, h)
    | absent ↦ (pos 0, h)
    | present user ↦ (
      user.balance,
      set_output
          (set_output_account address (record account { balance = some user.balance }) h.output) h,
    )
  ]

  unfoldable pub get_balance_big_int : Bytes → Host → ℤ × Host
  unfolding known_balance new_balance
  get_balance_big_int address h =
      let ((account, is_new), c) = get_output_account address h.output in
      if is_new
      then new_balance address account (set_output c h)
      else known_balance address account (set_output c h)

  read_nonce : Bytes → OutputAccount → Host → (ℕ × Option VmError) × Host
  read_nonce address account h = elim (hook.get_user_account address) [
    | failed e ↦ ((0, some e), h)
    | absent ↦ ((0, none), h)
    | present user ↦ (
      (user.nonce, none),
      set_output (set_output_account address (record account { nonce = user.nonce }) h.output) h,
    )
  ]

  unfoldable pub get_nonce : Bytes → Host → (ℕ × Option VmError) × Host
  unfolding read_nonce
  get_nonce address h =
      let ((account, is_new), c) = get_output_account address h.output in
      if is_new || account.nonce == 0 && is_vm_v3_enabled h
      then read_nonce address account (set_output c h)
      else ((account.nonce, none), set_output c h)

  -- The nonce is a uint64.
  unfoldable pub increase_nonce : Bytes → Host → Host
  unfolding get_nonce
  increase_nonce address h =
      let ((nonce, _), h1) = get_nonce address h in
      let ((account, _), c) = get_output_account address h1.output in
      set_output (set_output_account address (record account { nonce = (nonce + 1) % 2 ^ 64 }) c) h1

  -- A new address from the nonce of the creator, which a direct deployment has increased already.
  unfoldable pub new_address : Bytes → Host → (Bytes × Option VmError) × Host
  unfolding get_nonce
  new_address creator h =
      let ((nonce, err), h1) = get_nonce creator h in
      let is_indirect = hook.is_smart_contract creator && is_vm_v3_enabled h in
      let before = if not is_indirect && ltb 0 nonce then nonce - 1 else nonce in
      elim err [
        | some e ↦ (([], some e), h1)
        | none ↦ (hook.new_address creator before h.runtime.vm_type, h1)
      ]

  unfoldable pub get_code_hash : Bytes → Bytes
  get_code_hash address = elim (hook.get_user_account address) [
    | failed _ ↦ []
    | absent ↦ []
    | present user ↦ user.code_hash
  ]

  -- The code of an account of the output, or else of the node, which the output then holds.
  read_code : Bytes → OutputAccount → Host → (Bytes × Option VmError) × Host
  read_code address account h = elim (hook.get_user_account address) [
    | failed e ↦ (([], some e), h)
    | absent ↦ (([], some (other_error invalid_account)), h)
    | present user ↦
        let code = hook.get_code user in
        if length code == 0 then (([], some contract_not_found_error), h) else (
          (code, none),
          set_output (set_output_account address (record account { code = code }) h.output) h,
        )
  ]

  unfoldable pub get_code : Bytes → Host → (Bytes × Option VmError) × Host
  unfolding read_code
  get_code address h =
      let ((account, is_new), c) = get_output_account address h.output in
      if not is_new && ltb 0 (length account.code)
      then ((account.code, none), set_output c h)
      else read_code address account (set_output c h)

  -- GetOwnerAddress of the running contract.
  unfoldable pub get_owner_address : Host → Bytes × Option VmError
  get_owner_address h = elim (hook.get_user_account h.runtime.sc_address) [
    | failed e ↦ ([], some e)
    | absent ↦ ([], none)
    | present user ↦ (user.owner_address, none)
  ]

  -- AreInSameShard of vmhost/hostCore/host.go.
  unfoldable pub are_in_same_shard : Bytes → Bytes → Bool
  are_in_same_shard left right = hook.get_shard_of_address left == hook.get_shard_of_address right
