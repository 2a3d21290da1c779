-- ===== src/Metering/Charge.antt =====
-- Charging gas: UseGas, RestoreGas, GasLeft and UseGasBounded of vmhost/contexts/metering.go.
use drt_go_chain_vm_v.Common.{
  ℕ, ◌+◌, ◌-◌, ◌^◌, ◌<◌, ◌≡◌, Option, none, some, arith, leb, if◌then◌else◌,
}
use drt_go_chain_vm_v.Overflow.Unsigned.{add_uint64-saturates}
use drt_go_chain_vm_v.Host.{Host}
use drt_go_chain_vm_v.Host.Error.{VmError, not_enough_gas}
use drt_go_chain_vm_v.Host.Runtime.{get_points_used, set_points_used}
use drt_go_chain_vm_v.Metering.{use_gas, restore_gas, gas_left}
use drt_go_chain_vm_v.Metering.Usage.{use_gas_bounded}

pub get_points_used-set_points_used :
    (g i : ℕ) (h : Host)
    → h.runtime.instance_ref ≡ some i
    → g < 2 ^ 63
    → get_points_used (set_points_used g h) ≡ g
unfolding get_points_used set_points_used
get_points_used-set_points_used g i h e lt = ground arith

pub get_points_used-use_gas :
    (g i : ℕ) (h : Host)
    → h.runtime.instance_ref ≡ some i
    → get_points_used h + g < 2 ^ 63
    → get_points_used (use_gas g h) ≡ get_points_used h + g
unfolding use_gas
get_points_used-use_gas g i h e lt = ground (
  arith,
  add_uint64-saturates (get_points_used h) g,
  get_points_used-set_points_used (get_points_used h + g) i h e,
)

-- UseGas takes its cost from the gas that is left, which stops at zero, and a counter past the
-- largest int64 is capped with no effect on it.
pub gas_left-use_gas :
    (g i : ℕ) (h : Host)
    → h.runtime.instance_ref ≡ some i
    → h.metering.gas_for_execution < 2 ^ 63
    → g < 2 ^ 64
    → get_points_used h < 2 ^ 63
    → gas_left (use_gas g h) ≡ gas_left h - g
unfolding gas_left use_gas get_points_used set_points_used
gas_left-use_gas g i h e lt lg lp = ground (arith, add_uint64-saturates (h.runtime.points_used i) g)

-- A running contract, whose provided gas and counter are below 2 ^ 63, is charged by UseGasBounded
-- exactly where the cost is below the gas that is left: the gas then falls by the cost. Otherwise
-- the error is ErrNotEnoughGas and the gas that is left stays.
pub gas_left-use_gas_bounded :
    (g i : ℕ) (h : Host)
    → h.runtime.instance_ref ≡ some i
    → h.metering.gas_for_execution < 2 ^ 63
    → get_points_used h < 2 ^ 63
    → g < 2 ^ 64
    → let (e, h') = use_gas_bounded g h in
      ◌≡◌ {A = Option VmError × ℕ}
        (e, gas_left h')
        (if leb (gas_left h) g then (some not_enough_gas, gas_left h) else (none, gas_left h - g))
unfolding use_gas_bounded
gas_left-use_gas_bounded g i h e lt lp lg = ground (arith, gas_left-use_gas g i h e lt lg lp)

-- Gas that a running contract was charged comes back by RestoreGas: after a charge that keeps the
-- counter below 2 ^ 63, restoring the same amount gives the gas that was left before.
pub restore_gas-use_gas :
    (g i : ℕ) (h : Host)
    → h.runtime.instance_ref ≡ some i
    → get_points_used h + g < 2 ^ 63
    → get_points_used (restore_gas g (use_gas g h)) ≡ get_points_used h
unfolding restore_gas use_gas get_points_used set_points_used
restore_gas-use_gas g i h e lt = ground (arith, add_uint64-saturates (h.runtime.points_used i) g)

-- With a running instance, RestoreGas of more than was used changes nothing, and otherwise the
-- counter falls by exactly the restored gas.
pub get_points_used-restore_gas :
    (g i : ℕ) (h : Host)
    → h.runtime.instance_ref ≡ some i
    → get_points_used h < 2 ^ 63
    → get_points_used (restore_gas g h)
      ≡ (if leb g (get_points_used h) then get_points_used h - g else get_points_used h)
unfolding restore_gas get_points_used set_points_used
get_points_used-restore_gas g i h e lt = ground arith
