-- ===== src/Metering.antt =====
-- vmhost/contexts/metering.go: the gas of the running contract. A call that reaches another
-- context through `context.host` takes and returns the whole host.
pub mod Usage
pub mod Stack
pub mod Charge
pub mod Deduct
pub mod Forward
mod Tests
use drt_go_chain_vm_v.Common.Dict.{int_Eq}
use drt_go_chain_vm_v.Common.{
  ℕ, ◌+◌, ◌-◌, ◌%◌, ◌^◌, Bool, true, false, Option, none, some, List, [], ◌∷◌, ◌||◌, leb, ltb,
  length, if◌then◌else◌,
}
use drt_go_chain_vm_v.Common.Int.{ℤ, pos, negsuc}
use drt_go_chain_vm_v.Common.Bytes.{Bytes, bytes_eq}
use drt_go_chain_vm_v.Common.Dict.{lookup, insert, bytes_Eq}
use drt_go_chain_vm_v.Overflow.{add_uint64, sub_uint64, mul_uint64, bits64, from_bits64}
use drt_go_chain_vm_v.Host.{
  Host, VmInput, CallType, asynchronous_callback, MeteringContext, MeteringState, ContractGasState,
  GasSchedule, is_vm_v2_enabled, is_ahead_of_time_compile_enabled, is_dynamic_gas_locking_enabled,
}
use drt_go_chain_vm_v.Host.Error.{VmError, not_enough_gas}
use drt_go_chain_vm_v.Host.Runtime.{get_points_used, set_points_used, is_contract_on_the_stack}

-- The context with no gas, as NewMeteringContext leaves it for a schedule and a block limit.
unfoldable pub init_state : MeteringContext → MeteringContext
init_state m = record m {
  gas_states = [];
  initial_gas_provided = 0;
  initial_cost = 0;
  gas_for_execution = 0;
}

-- The stack grows at its head here, and at its end in Go.
unfoldable pub push_state : MeteringContext → MeteringContext
push_state m = record m {
  state_stack =
      record {
        initial_gas_provided = m.initial_gas_provided;
        initial_cost = m.initial_cost;
        gas_for_execution = m.gas_for_execution;
      }
      ∷ m.state_stack;
}

restore : MeteringContext → List MeteringState → MeteringContext
restore m [] = m
restore m (prev ∷ rest) = record m {
  state_stack = rest;
  initial_gas_provided = prev.initial_gas_provided;
  initial_cost = prev.initial_cost;
  gas_for_execution = prev.gas_for_execution;
}

unfoldable pub pop_set_active_state : MeteringContext → MeteringContext
unfolding restore
pop_set_active_state m = restore m m.state_stack

discard : MeteringContext → List MeteringState → MeteringContext
discard m [] = m
discard m (_ ∷ rest) = record m { state_stack = rest }

unfoldable pub pop_discard : MeteringContext → MeteringContext
unfolding discard
pop_discard m = discard m m.state_stack

unfoldable pub clear_state_stack : MeteringContext → MeteringContext
clear_state_stack m = record m { state_stack = [] }

unfoldable pub set_total_used_gas : ℕ → MeteringContext → MeteringContext
set_total_used_gas gas m = record m { total_used_gas = gas }

pub is_callback : CallType → Bool
is_callback asynchronous_callback = true
is_callback _ = false

-- Writes the input too, which the caller goes on with.
unfoldable pub unlock_gas_if_async_callback : VmInput → MeteringContext → VmInput × MeteringContext
unfolding is_callback
unlock_gas_if_async_callback input m =
    if is_callback input.call_type
    then (let gas_provided = add_uint64 input.gas_provided input.gas_locked in
        (
          record input { gas_provided = gas_provided; gas_locked = 0 },
          record m { gas_for_execution = gas_provided },
        ))
    else (input, m)

unfoldable pub init_state_from_contract_call_input :
    VmInput → MeteringContext → VmInput × MeteringContext
unfolding unlock_gas_if_async_callback
init_state_from_contract_call_input input m =
    let (input', m') = unlock_gas_if_async_callback input m in
    (
      input',
      record m' {
        initial_gas_provided = input'.gas_provided;
        gas_for_execution = input'.gas_provided;
        initial_cost = 0;
      },
    )

unfoldable pub use_gas : ℕ → Host → Host
use_gas gas h = set_points_used (add_uint64 (get_points_used h) gas) h

unfoldable pub restore_gas : ℕ → Host → Host
restore_gas gas h =
    let gas_used = get_points_used h in
    if leb gas gas_used then set_points_used (gas_used - gas) h else h

unfoldable pub gas_left : Host → ℕ
gas_left h =
    let gas_provided = h.metering.gas_for_execution in
    let gas_used = get_points_used h in
    if ltb gas_provided gas_used then 0 else gas_provided - gas_used

abbrev no_gas : ContractGasState
no_gas = record { forwarded = 0; returned = 0 }

or_no_gas : Option ContractGasState → ContractGasState
or_no_gas none = no_gas
or_no_gas (some s) = s

-- The entry that getContractGasState adds for a new address reads as no entry at all; what is
-- written to the entry goes back by `set_contract_gas_state`.
unfoldable pub get_contract_gas_state : Bytes → MeteringContext → ContractGasState × MeteringContext
unfolding or_no_gas
get_contract_gas_state address m =
    let state = or_no_gas (lookup address m.gas_states) in
    (state, record m { gas_states = insert address state m.gas_states })

set_contract_gas_state : Bytes → ContractGasState → MeteringContext → MeteringContext
set_contract_gas_state address state m = record m { gas_states = insert address state m.gas_states }

unfoldable pub add_forwarded_gas : Bytes → ℕ → MeteringContext → MeteringContext
unfolding get_contract_gas_state set_contract_gas_state
add_forwarded_gas address gas m =
    let (state, m') = get_contract_gas_state address m in
    set_contract_gas_state address (record state { forwarded = add_uint64 state.forwarded gas }) m'

unfoldable pub add_returned_gas : Bytes → ℕ → MeteringContext → MeteringContext
unfolding get_contract_gas_state set_contract_gas_state
add_returned_gas address gas m =
    let (state, m') = get_contract_gas_state address m in
    set_contract_gas_state address (record state { returned = add_uint64 state.returned gas }) m'

unfoldable pub get_total_forwarded_gas : Bytes → MeteringContext → ℕ × MeteringContext
unfolding get_contract_gas_state
get_total_forwarded_gas address m =
    let (state, m') = get_contract_gas_state address m in
    ((sub_uint64 state.forwarded state.returned).0, m')

unfoldable pub forward_gas : Bytes → Bytes → ℕ → Host → Host
unfolding add_forwarded_gas add_returned_gas
forward_gas source dest gas h =
    let m = add_forwarded_gas source gas h.metering in
    if bytes_eq source dest || is_contract_on_the_stack dest h
    then record h { metering = add_returned_gas dest gas m }
    else record h { metering = m }
