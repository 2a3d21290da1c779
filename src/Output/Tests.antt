-- ===== src/Output/Tests.antt =====
-- Tests of the output context: the contract of alice pays bob.
use drt_go_chain_vm_v.Output.Transfer.{pay}
use drt_go_chain_vm_v.Host.{CodeDeployInput}
use drt_go_chain_vm_v.Output.Account.{deploy_code}
use drt_go_chain_vm_v.Output.Finish.{remove_non_updated_code}
use drt_go_chain_vm_v.Output.Account.{get_output_account}
use drt_go_chain_vm_v.Overflow.{add_uint64, sub_uint64}
use drt_go_chain_vm_v.Blockchain.{get_balance_big_int}
use drt_go_chain_vm_v.Common.{
  [], arith, false, if◌then◌else◌, none, refl, some, true, ◌++◌, ◌+◌, ◌∷◌, ◌≡◌, ◌≤◌, ◌⊎◌,
}
use drt_go_chain_vm_v.Common.Bytes.{bytes_eq}
use drt_go_chain_vm_v.Common.Dict.{bytes_Eq, int_Eq, lookup}
use drt_go_chain_vm_v.Common.Int.{leb_ℤ, ltb_ℤ, negsuc, pos, ◌+ℤ◌, ◌-ℤ◌, ◌≤ℤ◌}
use drt_go_chain_vm_v.Host.{
  Host, OutputAccount, OutputContext, OutputTransfer, VmOutput, direct_call,
}
use drt_go_chain_vm_v.Host.Error.{
  account_not_payable, transfer_insufficient_funds, transfer_negative_value,
}
use drt_go_chain_vm_v.Output.{
  new_vm_output, new_vm_output_account, or_blank, pop_set_active_state, push_state, reset_gas,
}
use drt_go_chain_vm_v.Output.Account.{or_nil}
use drt_go_chain_vm_v.Output.Active.{add_to_active_state}
use drt_go_chain_vm_v.Output.Finish.{check_gas, get_current_total_used_gas}
use drt_go_chain_vm_v.Output.Lookup.{account_at}
use drt_go_chain_vm_v.Output.Total.{any_account_locked, sum_accounts, sum_transfers_of}
use drt_go_chain_vm_v.Output
use drt_go_chain_vm_v.Example.{alice, bob, host, chain, no_output}
use drt_go_chain_vm_v.Output.Funds.{transfer_value_only-moves, transfer_value_only-fails}
use drt_go_chain_vm_v.Output.Sent.{transfer_appends, transfers_of}
use drt_go_chain_vm_v.Output.Merge.{pop_set_active_state-push_state_output, IsValid}
use drt_go_chain_vm_v.Output.Absorbed.{add_to_active_state_adds}
use drt_go_chain_vm_v.Output.Total.{
  check_gas_bounds, get_current_total_used_gas-exact, get_current_total_used_gas-reset_gas,
  saturated,
}
use drt_go_chain_vm_v.Output.Deploy.{code_of, remove_non_updated_code-deploy_code}
use drt_go_chain_vm_v.Output.Transfer.{transfer, transfer_value_only}
use drt_go_chain_vm_v.Output.Balance.{HasDeltas, delta_of}

-- No account of an output without accounts has a nil delta.
starts_HasDeltas : HasDeltas no_output
unfolding account_at lookup
starts_HasDeltas a e = cc

pays : (transfer_value_only chain bob alice (pos 30) true host).0 ≡ none
unfolding transfer_value_only pay get_balance_big_int
    drt_go_chain_vm_v.Output.Account.get_output_account lookup bytes_eq
pays = refl

transfer_value_only-moves_example :
    (let h' = (transfer_value_only chain bob alice (pos 30) true host).1 in
      (pos 0 ≤ℤ pos 30)
      × (pos 30 ≤ℤ (get_balance_big_int chain alice host).0)
      × (delta_of bob h'.output ≡ delta_of bob no_output -ℤ pos 0 +ℤ pos 30)
      × (h'.panicked ≡ false))
unfolding bytes_eq
transfer_value_only-moves_example =
    transfer_value_only-moves chain bob alice bob (pos 30) true host starts_HasDeltas pays

refuses :
    (transfer_value_only chain bob alice (pos 101) true host).0 ≡ some transfer_insufficient_funds
unfolding transfer_value_only pay get_balance_big_int
    drt_go_chain_vm_v.Output.Account.get_output_account lookup bytes_eq
refuses = refl

transfer_value_only-fails_example :
    (let h' = (transfer_value_only chain bob alice (pos 101) true host).1 in
      (delta_of bob h'.output ≡ delta_of bob no_output)
      × (h'.panicked ≡ false)
      × (((transfer_insufficient_funds ≡ transfer_negative_value)
            × (ltb_ℤ (pos 101) (pos 0) ≡ true))
          ⊎ ((transfer_insufficient_funds ≡ transfer_insufficient_funds)
              × (leb_ℤ (pos 101) (get_balance_big_int chain alice host).0 ≡ false))
          ⊎ ((chain.is_payable bob).1 ≡ some transfer_insufficient_funds)
          ⊎ ((transfer_insufficient_funds ≡ account_not_payable)
              × ((chain.is_payable bob).0 ≡ false))))
transfer_value_only-fails_example =
    transfer_value_only-fails chain bob alice bob (pos 101) true host transfer_insufficient_funds
      starts_HasDeltas refuses

abbrev sent : OutputTransfer
sent = record {
  value = pos 30;
  gas_limit = 5;
  gas_locked = 0;
  payload = 9 ∷ [];
  call_type = direct_call;
  sender_address = alice;
}

transfer_appends_example :
    (let (err, h') = transfer chain bob alice 5 0 (pos 30) (9 ∷ []) direct_call host in
      transfers_of bob h'.output ≡ elim err [
        | none ↦
            if bytes_eq bob bob
            then transfers_of bob no_output ++ sent ∷ []
            else transfers_of bob no_output
        | some _ ↦ transfers_of bob no_output
      ])
transfer_appends_example =
    transfer_appends chain bob alice bob (9 ∷ []) 5 0 (pos 30) direct_call host starts_HasDeltas

-- An account that has paid, used gas and sent a transfer, and an output with this account.
abbrev bob_account : OutputAccount
bob_account = record (new_vm_output_account bob) {
  balance_delta = some (negsuc 6);
  gas_used = 11;
  output_transfers = sent ∷ [];
}

abbrev bob_output : VmOutput
bob_output = record new_vm_output { output_accounts = (bob, bob_account) ∷ []; gas_remaining = 3 }

abbrev bob_context : OutputContext
bob_context = record no_output { output_state = bob_output }

-- A nested call has cleared the accounts and returned data.
abbrev nested : OutputContext
nested = record (Output.push_state bob_context) {
  output_state = record new_vm_output { return_data = (1 ∷ []) ∷ [] };
}

bob_output-IsValid : IsValid bob_output
unfolding lookup
bob_output-IsValid = record {
  distinct_addresses = (refl, tt);
  sound_accounts = (refl, record { has_delta = λ e. cc; distinct_keys = tt }, tt);
  has_refund = λ e. cc;
}

pushed : nested.state_stack ≡ (Output.push_state bob_context).state_stack
pushed = refl

pop_set_active_state-push_state_output_example : Output.pop_set_active_state nested ≡ bob_context
unfolding push_state
pop_set_active_state-push_state_output_example =
    pop_set_active_state-push_state_output bob_context nested bob_output-IsValid pushed

add_to_active_state_adds_example :
    (let c = (add_to_active_state bob_output host).output in
      let added = or_blank (lookup bob bob_output.output_accounts) in
      (delta_of bob c ≡ delta_of bob no_output +ℤ or_nil added.balance_delta)
      × (transfers_of bob c ≡ transfers_of bob no_output ++ added.output_transfers)
      × (c.output_state.gas_refund ≡ some (pos 0 +ℤ pos 0)))
unfolding lookup
add_to_active_state_adds_example =
    add_to_active_state_adds bob bob_output host starts_HasDeltas (refl, tt) (refl, tt)

abbrev bob_host : Host
bob_host = record host { output = bob_context }

bob_checked : (check_gas (λ _. false) 1097 bob_host).0 ≡ none
unfolding check_gas get_current_total_used_gas drt_go_chain_vm_v.Overflow.sub_uint64
    drt_go_chain_vm_v.Overflow.add_uint64
bob_checked = refl

check_gas_bounds_example :
    sum_accounts bob_output.output_accounts
      + (check_gas (λ _. false) 1097 bob_host).1.output.output_state.gas_remaining
    ≤ 1100 + 0 + 0 + 1097
unfolding sum_accounts any_account_locked
check_gas_bounds_example =
    check_gas_bounds (λ _. false) 1097 bob_host refl
      (omega arith, (omega arith, omega arith, tt), tt) (omega arith) (omega arith) bob_checked

get_current_total_used_gas-exact_example : get_current_total_used_gas bob_context ≡ (
  saturated (sum_accounts bob_output.output_accounts),
  any_account_locked bob_output.output_accounts,
)
get_current_total_used_gas-exact_example =
    get_current_total_used_gas-exact bob_context (omega arith, (omega arith, omega arith, tt), tt)

get_current_total_used_gas-reset_gas_example :
    (get_current_total_used_gas (Output.reset_gas bob_context)).0
    ≡ saturated (sum_transfers_of bob_output.output_accounts)
get_current_total_used_gas-reset_gas_example =
    get_current_total_used_gas-reset_gas bob_context
      (omega arith, (omega arith, omega arith, tt), tt)

abbrev deployment : CodeDeployInput
deployment = record {
  contract_code = 97 ∷ 115 ∷ [];
  contract_code_metadata = 5 ∷ 0 ∷ [];
  contract_address = bob;
  code_deployer_address = alice;
}

remove_non_updated_code-deploy_code_example :
    (let c' = deploy_code deployment bob_context in
      code_of bob (remove_non_updated_code c'.code_updates c'.output_state.output_accounts) ≡ (
        if bytes_eq bob bob
        then 97 ∷ 115 ∷ []
        else code_of bob (remove_non_updated_code [] bob_output.output_accounts)))
remove_non_updated_code-deploy_code_example =
    remove_non_updated_code-deploy_code bob deployment bob_context
