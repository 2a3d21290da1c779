-- ===== src/Metering/Deduct.antt =====
-- The initial deduction of vmhost/contexts/metering.go.
use drt_go_chain_vm_v.Common.{inl}
use drt_go_chain_vm_v.Common.{inr}
use drt_go_chain_vm_v.Common.{Bool-cases}
use drt_go_chain_vm_v.Overflow.{add_uint64}
use drt_go_chain_vm_v.Overflow.Unsigned.{add_uint64-lt}
use drt_go_chain_vm_v.Common.{ltb}
use drt_go_chain_vm_v.Host.{is_dynamic_gas_locking_enabled}
use drt_go_chain_vm_v.Host.{is_ahead_of_time_compile_enabled}
use drt_go_chain_vm_v.Metering.Usage.{compute_gas_locked_for_async}
use drt_go_chain_vm_v.Common.{
  ℕ, ◌+◌, ◌*◌, ◌-◌, ◌^◌, ◌<◌, ◌≡◌, Option, none, some, arith, leb, length, if◌then◌else◌,
}
use drt_go_chain_vm_v.Common.Bytes.{Bytes}
use drt_go_chain_vm_v.Overflow.{mul_uint64}
use drt_go_chain_vm_v.Overflow.Unsigned.{add_uint64-saturates, mul_uint64-saturates, mul_uint64-lt}
use drt_go_chain_vm_v.Host.{Host}
use drt_go_chain_vm_v.Host.Error.{VmError, not_enough_gas}
use drt_go_chain_vm_v.Metering.Usage.{deduct_initial_gas}

-- What the caller of deductInitialGas reads: the error, the cost and the gas for execution.
abbrev pub deduction : Option VmError × Host → Option VmError × ℕ × ℕ
deduction (e, h) = (e, h.metering.initial_cost, h.metering.gas_for_execution)

-- For a base cost, a code length and a price below 2 ^ 64 and provided gas below 2 ^ 64 - 1, the
-- initial deduction succeeds exactly where the exact cost, base plus length times price, is at most
-- the provided gas. Then the initial cost is that exact cost and the rest of the gas is for
-- execution. Otherwise the error is ErrNotEnoughGas and both stay.
pub deduct_initial_gas-exact :
    (code : Bytes) (base price : ℕ) (h : Host)
    → base < 2 ^ 64
    → price < 2 ^ 64
    → length code < 2 ^ 64
    → h.runtime.vm_input.gas_provided < 2 ^ 64 - 1
    → deduction (deduct_initial_gas code base price h) ≡ (
        let cost = base + length code * price in
        let provided = h.runtime.vm_input.gas_provided in
        if leb cost provided
        then (none, cost, provided - cost)
        else (some not_enough_gas, h.metering.initial_cost, h.metering.gas_for_execution))
unfolding deduct_initial_gas
deduct_initial_gas-exact code base price h hb hp hl hg = ground (
  arith,
  mul_uint64-lt (length code) price,
  mul_uint64-saturates (length code) price hl hp,
  add_uint64-saturates base (mul_uint64 (length code) price) hb,
)

-- The exact deduction of a cost from the provided gas.
abbrev pub deducted : ℕ → Host → Option VmError × ℕ × ℕ
deducted cost h =
    let provided = h.runtime.vm_input.gas_provided in
    if leb cost provided
    then (none, cost, provided - cost)
    else (some not_enough_gas, h.metering.initial_cost, h.metering.gas_for_execution)

-- A product and two summands, each step saturating, against the exact total.
saturated_total :
    (n price a b : ℕ)
    → n < 2 ^ 64
    → price < 2 ^ 64
    → a < 2 ^ 64
    → b < 2 ^ 64
    → add_uint64 (mul_uint64 n price) (add_uint64 a b)
      ≡ (let total = n * price + a + b in if ltb total (2 ^ 64) then total else 2 ^ 64 - 1)
saturated_total n price a b hn hp ha hb = ground (
  arith,
  mul_uint64-lt n price,
  mul_uint64-saturates n price hn hp,
  add_uint64-saturates a b ha hb,
  add_uint64-lt a b,
  add_uint64-saturates (mul_uint64 n price) (add_uint64 a b),
)

saturated_sum :
    (a b : ℕ)
    → a < 2 ^ 64
    → b < 2 ^ 64
    → add_uint64 0 (add_uint64 a b)
      ≡ (let total = 0 + a + b in if ltb total (2 ^ 64) then total else 2 ^ 64 - 1)
saturated_sum a b ha hb = ground (
  arith,
  add_uint64-saturates a b ha hb,
  add_uint64-lt a b,
  add_uint64-saturates 0 (add_uint64 a b),
)

-- For a schedule and a code size below 2 ^ 64, the gas locked for a callback is the cost of the
-- async step and of the callback lock, and with dynamic locking the price of compiling the code
-- again, by the ahead-of-time price where that is enabled. A total past 64 bits is the largest
-- uint64.
pub compute_gas_locked_for_async-exact :
    (h : Host)
    → h.runtime.code_size < 2 ^ 64
    → h.metering.gas_schedule.compile_per_byte < 2 ^ 64
    → h.metering.gas_schedule.aot_prepare_per_byte < 2 ^ 64
    → h.metering.gas_schedule.async_call_step < 2 ^ 64
    → h.metering.gas_schedule.async_callback_gas_lock < 2 ^ 64
    → compute_gas_locked_for_async h ≡ (
        let s = h.metering.gas_schedule in
        let price =
          if is_ahead_of_time_compile_enabled h
          then s.aot_prepare_per_byte
          else s.compile_per_byte in
        let compiling =
          if is_dynamic_gas_locking_enabled h then h.runtime.code_size * price else 0 in
        let total = compiling + s.async_call_step + s.async_callback_gas_lock in
        if ltb total (2 ^ 64) then total else 2 ^ 64 - 1)
unfolding compute_gas_locked_for_async
compute_gas_locked_for_async-exact h hc h1 h2 h3 h4 =
    let s = h.metering.gas_schedule in
    elim (Bool-cases (is_dynamic_gas_locking_enabled h)) [
      | inr fixed ↦ rw fixed (saturated_sum s.async_call_step s.async_callback_gas_lock h3 h4)
      | inl dynamic ↦ rw dynamic (elim (Bool-cases (is_ahead_of_time_compile_enabled h)) [
        | inl ahead ↦ rw ahead (saturated_total h.runtime.code_size _ _ _ hc h2 h3 h4)
        | inr compiled ↦ rw compiled (saturated_total h.runtime.code_size _ _ _ hc h1 h3 h4)
      ])
    ]
