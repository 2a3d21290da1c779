-- ===== src/Metering/Usage.antt =====
-- vmhost/contexts/metering.go: what a contract has used, and the gas taken before it runs.
use drt_go_chain_vm_v.Common.{ℕ, ◌-◌, Option, none, some, leb, ltb, length, if◌then◌else◌}
use drt_go_chain_vm_v.Common.Int.{ℤ}
use drt_go_chain_vm_v.Common.Bytes.{Bytes}
use drt_go_chain_vm_v.Overflow.{add_uint64, sub_uint64, mul_uint64, bits64}
use drt_go_chain_vm_v.Host.{
  Host, is_vm_v2_enabled, is_ahead_of_time_compile_enabled, is_dynamic_gas_locking_enabled,
}
use drt_go_chain_vm_v.Host.Error.{VmError, not_enough_gas}
use drt_go_chain_vm_v.Host.Runtime.{get_points_used}
use drt_go_chain_vm_v.Metering.{gas_left, use_gas, get_total_forwarded_gas}

-- What execution cost, with the initial cost if the second version is enabled.
unfoldable pub gas_spent_by_contract : Host → ℕ
gas_spent_by_contract h =
    let gas_spent = if is_vm_v2_enabled h then h.metering.initial_cost else 0 in
    add_uint64 gas_spent (get_points_used h)

unfoldable pub gas_used_by_contract : Host → (ℕ × ℕ) × Host
gas_used_by_contract h =
    let initial = if is_vm_v2_enabled h then h.metering.initial_cost else 0 in
    let gas_used = add_uint64 initial (get_points_used h) in
    let (total_gas_forwarded, m) = get_total_forwarded_gas h.runtime.sc_address h.metering in
    (sub_uint64 gas_used total_gas_forwarded, record h { metering = m })

unfoldable pub gas_used_for_execution : Host → ℕ × Host
unfolding gas_used_by_contract
gas_used_for_execution h =
    let (used, h') = gas_used_by_contract h in ((sub_uint64 used.0 h.metering.initial_cost).0, h')

-- uint64(value) of an int64.
unfoldable pub bound_gas_limit : ℤ → Host → ℕ
bound_gas_limit value h =
    let left = gas_left h in let limit = bits64 value in if ltb left limit then left else limit

unfoldable pub use_gas_bounded : ℕ → Host → Option VmError × Host
use_gas_bounded gas_to_use h =
    if leb (gas_left h) gas_to_use then (some not_enough_gas, h) else (none, use_gas gas_to_use h)

unfoldable pub use_gas_for_async_step : Host → Option VmError × Host
unfolding use_gas_bounded
use_gas_for_async_step h = use_gas_bounded h.metering.gas_schedule.async_call_step h

unfoldable pub compute_gas_locked_for_async : Host → ℕ
compute_gas_locked_for_async h =
    let s = h.metering.gas_schedule in
    let cost_per_byte =
      if is_ahead_of_time_compile_enabled h then s.aot_prepare_per_byte else s.compile_per_byte in
    let compilation_gas_lock =
      if is_dynamic_gas_locking_enabled h
      then mul_uint64 h.runtime.code_size cost_per_byte
      else 0 in
    let execution_gas_lock = add_uint64 s.async_call_step s.async_callback_gas_lock in
    add_uint64 compilation_gas_lock execution_gas_lock

-- On an error nothing is changed.
unfoldable pub deduct_initial_gas : Bytes → ℕ → ℕ → Host → Option VmError × Host
deduct_initial_gas code base_cost cost_per_byte h =
    let gas_provided = h.runtime.vm_input.gas_provided in
    let code_cost = mul_uint64 (length code) cost_per_byte in
    let initial_cost = add_uint64 base_cost code_cost in
    if ltb gas_provided initial_cost then (some not_enough_gas, h) else (
      none,
      record h {
        metering = record (h.metering) {
          initial_cost = initial_cost;
          gas_for_execution = gas_provided - initial_cost;
        };
      },
    )

unfoldable pub deduct_initial_gas_for_execution : Bytes → Host → Option VmError × Host
unfolding deduct_initial_gas
deduct_initial_gas_for_execution contract h =
    let s = h.metering.gas_schedule in
    if is_ahead_of_time_compile_enabled h
    then deduct_initial_gas contract s.get_code s.aot_prepare_per_byte h
    else deduct_initial_gas contract 0 s.compile_per_byte h

unfoldable pub deduct_initial_gas_for_direct_deployment : Bytes → Host → Option VmError × Host
unfolding deduct_initial_gas
deduct_initial_gas_for_direct_deployment contract_code h =
    let s = h.metering.gas_schedule in
    deduct_initial_gas contract_code s.create_contract s.compile_per_byte h

unfoldable pub deduct_initial_gas_for_indirect_deployment : Bytes → Host → Option VmError × Host
unfolding deduct_initial_gas
deduct_initial_gas_for_indirect_deployment contract_code h =
    deduct_initial_gas contract_code 0 h.metering.gas_schedule.compile_per_byte h
