-- ===== src/Metering/Stack.antt =====
-- The state stack and the initialisation of vmhost/contexts/metering.go.
use drt_go_chain_vm_v.Common.{◌+◌, ◌^◌, ◌<◌, ◌≡◌, arith, if◌then◌else◌}
use drt_go_chain_vm_v.Overflow.Unsigned.{add_uint64-saturates}
use drt_go_chain_vm_v.Host.{VmInput, MeteringContext}
use drt_go_chain_vm_v.Metering.{
  push_state, pop_set_active_state, init_state_from_contract_call_input, is_callback,
}

-- Whatever a nested call did to the metering context since PushState, provided that it left the
-- state stack as PushState made it, PopSetActiveState brings back the three saved gas values and the
-- stack, and keeps all else of the nested call: the gas states, the schedule and the totals.
pub pop_set_active_state-push_state :
    (m nested : MeteringContext)
    → nested.state_stack ≡ (push_state m).state_stack
    → pop_set_active_state nested ≡ record nested {
      state_stack = m.state_stack;
      initial_gas_provided = m.initial_gas_provided;
      initial_cost = m.initial_cost;
      gas_for_execution = m.gas_for_execution;
    }
unfolding pop_set_active_state push_state
pop_set_active_state-push_state m nested e = ground arith

-- The call input of an async callback gets its locked gas back before execution: for gas values
-- below 2 ^ 64 whose sum is too, both the provided gas and the gas for execution are the sum, and
-- nothing stays locked. Any other call starts with its provided gas, and the lock stays. The initial
-- cost is zero in both.
pub init_state_from_contract_call_input_gas :
    (input : VmInput) (m : MeteringContext)
    → input.gas_provided + input.gas_locked < 2 ^ 64
    → let (input', m') = init_state_from_contract_call_input input m in
      let unlocked = if is_callback input.call_type then input.gas_locked else 0 in
      (input'.gas_provided ≡ input.gas_provided + unlocked)
      × (input'.gas_locked + unlocked ≡ input.gas_locked)
      × (m'.initial_gas_provided ≡ input'.gas_provided)
      × (m'.gas_for_execution ≡ input'.gas_provided)
      × (m'.initial_cost ≡ 0)
unfolding init_state_from_contract_call_input
init_state_from_contract_call_input_gas input m lt =
    ground (arith, add_uint64-saturates input.gas_provided input.gas_locked)
