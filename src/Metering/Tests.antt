-- ===== src/Metering/Tests.antt =====
-- Tests of the metering context, on a contract with 1000 gas.
use drt_go_chain_vm_v.Metering.{is_callback}
use drt_go_chain_vm_v.Common.{
  Option, [], arith, if◌then◌else◌, leb, none, refl, some, ℕ, ◌&&◌, ◌+◌, ◌-◌, ◌||◌, ◌∷◌, ◌≡◌, ◌⊎◌,
}
use drt_go_chain_vm_v.Common.Bytes.{bytes_eq}
use drt_go_chain_vm_v.Host.{MeteringContext, VmInput, asynchronous_callback}
use drt_go_chain_vm_v.Host.Error.{VmError, not_enough_gas}
use drt_go_chain_vm_v.Host.Runtime.{get_points_used, is_contract_on_the_stack}
use drt_go_chain_vm_v.Metering.{
  forward_gas, gas_left, init_state_from_contract_call_input, pop_set_active_state, push_state,
  restore_gas, use_gas,
}
use drt_go_chain_vm_v.Metering.Forward.{gas_state_of}
use drt_go_chain_vm_v.Metering.Usage.{
  compute_gas_locked_for_async, deduct_initial_gas, gas_spent_by_contract, gas_used_by_contract,
  use_gas_bounded,
}
use drt_go_chain_vm_v.Overflow.{add_uint64, sub_uint64}
use drt_go_chain_vm_v.Metering
use drt_go_chain_vm_v.Example.{alice, bob, host, metered, one_input}
use drt_go_chain_vm_v.Metering.Charge.{gas_left-use_gas_bounded}
use drt_go_chain_vm_v.Metering.Deduct.{
  deduct_initial_gas-exact, compute_gas_locked_for_async-exact, deduction,
}
use drt_go_chain_vm_v.Metering.Stack.{
  init_state_from_contract_call_input_gas, pop_set_active_state-push_state,
}
use drt_go_chain_vm_v.Metering.Forward.{gas_state_of-forward_gas, gas_used_by_contract_accounts}

-- A nested call has replaced the gas of the calling contract.
abbrev nested : MeteringContext
nested = record (Metering.push_state metered) { gas_for_execution = 5; initial_cost = 1 }

abbrev callback_input : VmInput
callback_input = record one_input { call_type = asynchronous_callback; gas_locked = 30 }

gas_left-use_gas_bounded_example :
    (let (e, h') = use_gas_bounded 993 host in
      ◌≡◌ {A = Option VmError × ℕ}
        (e, gas_left h')
        (if leb (gas_left host) 993
          then (some not_enough_gas, gas_left host)
          else (none, gas_left host - 993)))
unfolding get_points_used
gas_left-use_gas_bounded_example =
    gas_left-use_gas_bounded 993 0 host refl (omega arith) (omega arith) (omega arith)

deduct_initial_gas-exact_example :
    deduction (deduct_initial_gas (1 ∷ 2 ∷ 3 ∷ []) 50 4 host) ≡ (none, 62, 1038)
deduct_initial_gas-exact_example =
    deduct_initial_gas-exact (1 ∷ 2 ∷ 3 ∷ []) 50 4 host (omega arith) (omega arith) (omega arith)
      (omega arith)

compute_gas_locked_for_async-exact_example : compute_gas_locked_for_async host ≡ 120
compute_gas_locked_for_async-exact_example =
    compute_gas_locked_for_async-exact host (omega arith) (omega arith) (omega arith) (omega arith)
      (omega arith)

pushed : nested.state_stack ≡ (Metering.push_state metered).state_stack
pushed = refl

pop_set_active_state-push_state_example : Metering.pop_set_active_state nested ≡ record nested {
  state_stack = [];
  initial_gas_provided = 1100;
  initial_cost = 100;
  gas_for_execution = 1000;
}
pop_set_active_state-push_state_example = pop_set_active_state-push_state metered nested pushed

init_state_from_contract_call_input_gas_example :
    (let (input', m') = init_state_from_contract_call_input callback_input metered in
      (input'.gas_provided ≡ 1130)
      × (input'.gas_locked + 30 ≡ 30)
      × (m'.initial_gas_provided ≡ input'.gas_provided)
      × (m'.gas_for_execution ≡ input'.gas_provided)
      × (m'.initial_cost ≡ 0))
unfolding Metering.is_callback
init_state_from_contract_call_input_gas_example =
    init_state_from_contract_call_input_gas callback_input metered (omega arith)

gas_state_of-forward_gas_example :
    (let before = gas_state_of alice metered in
      let after = gas_state_of alice (forward_gas alice bob 40 host).metering in
      let returns = bytes_eq alice bob || is_contract_on_the_stack bob host in
      (after.forwarded
        ≡ (if bytes_eq alice alice then add_uint64 before.forwarded 40 else before.forwarded))
      × (after.returned ≡ (
          if returns && bytes_eq bob alice
          then add_uint64 before.returned 40
          else before.returned)))
gas_state_of-forward_gas_example = gas_state_of-forward_gas alice alice bob 40 host

gas_used_by_contract_accounts_example :
    (let ((used, remained), _) = gas_used_by_contract host in
      let state = gas_state_of alice metered in
      (used + (sub_uint64 state.forwarded state.returned).0 ≡ gas_spent_by_contract host + remained)
      × ((used ≡ 0) ⊎ (remained ≡ 0)))
gas_used_by_contract_accounts_example = gas_used_by_contract_accounts host
