-- ===== src/Metering/Forward.antt =====
-- Forwarded gas: ForwardGas and GasUsedByContract of vmhost/contexts/metering.go.
use drt_go_chain_vm_v.Common.{ℕ, ◌+◌, ◌≡◌, ◌⊎◌, ◌&&◌, ◌||◌, arith, if◌then◌else◌}
use drt_go_chain_vm_v.Common.Bytes.{Bytes, bytes_eq, bytes_eq_iff}
use drt_go_chain_vm_v.Common.Dict.{lookup, insert, lookup-insert, bytes_Eq}
use drt_go_chain_vm_v.Overflow.{add_uint64, sub_uint64}
use drt_go_chain_vm_v.Overflow.Unsigned.{sub_uint64_parts}
use drt_go_chain_vm_v.Host.{Host, ContractGasState, MeteringContext}
use drt_go_chain_vm_v.Host.Runtime.{is_contract_on_the_stack}
use drt_go_chain_vm_v.Metering.{
  forward_gas, add_forwarded_gas, add_returned_gas, get_total_forwarded_gas, or_no_gas,
}
use drt_go_chain_vm_v.Metering.Usage.{gas_used_by_contract, gas_spent_by_contract}

-- What the gas states record of an address.
pub gas_state_of : Bytes → MeteringContext → ContractGasState
unfolding or_no_gas
gas_state_of a m = or_no_gas (lookup a m.gas_states)

-- One write under the entry that getContractGasState adds.
gas_state_of-insert :
    (a k : Bytes) (s t : ContractGasState) (m : MeteringContext)
    → gas_state_of a (record m { gas_states = insert k s (insert k t m.gas_states) })
      ≡ (if bytes_eq k a then s else gas_state_of a m)
unfolding gas_state_of
gas_state_of-insert a k s t m =
    ground (arith, lookup-insert k a s (insert k t m.gas_states), lookup-insert k a t m.gas_states)

pub gas_state_of-add_forwarded_gas :
    (a source : Bytes) (gas : ℕ) (m : MeteringContext)
    → gas_state_of a (add_forwarded_gas source gas m) ≡ (
        let s = gas_state_of source m in
        if bytes_eq source a
        then record { forwarded = add_uint64 s.forwarded gas; returned = s.returned }
        else gas_state_of a m)
unfolding add_forwarded_gas
gas_state_of-add_forwarded_gas a source gas m =
    unfold gas_state_of in gas_state_of-insert a source _ _ m

pub gas_state_of-add_returned_gas :
    (a dest : Bytes) (gas : ℕ) (m : MeteringContext)
    → gas_state_of a (add_returned_gas dest gas m) ≡ (
        let s = gas_state_of dest m in
        if bytes_eq dest a
        then record { forwarded = s.forwarded; returned = add_uint64 s.returned gas }
        else gas_state_of a m)
unfolding add_returned_gas
gas_state_of-add_returned_gas a dest gas m = unfold gas_state_of in gas_state_of-insert a dest _ _ m

-- ForwardGas records the gas as forwarded by the source. It records it as returned to the
-- destination exactly where that is the source itself or stands on the execution stack. The records
-- of all other addresses stay.
pub gas_state_of-forward_gas :
    (a source dest : Bytes) (gas : ℕ) (h : Host)
    → let before = gas_state_of a h.metering in
      let after = gas_state_of a (forward_gas source dest gas h).metering in
      let returns = bytes_eq source dest || is_contract_on_the_stack dest h in
      (after.forwarded
        ≡ (if bytes_eq source a then add_uint64 before.forwarded gas else before.forwarded))
      × (after.returned ≡ (
          if returns && bytes_eq dest a then add_uint64 before.returned gas else before.returned))
unfolding forward_gas
gas_state_of-forward_gas a source dest gas h = ground (
  arith,
  bytes_eq_iff source a,
  bytes_eq_iff dest a,
  bytes_eq_iff source dest,
  gas_state_of-add_forwarded_gas a source gas h.metering,
  gas_state_of-add_forwarded_gas dest source gas h.metering,
  gas_state_of-add_returned_gas a dest gas (add_forwarded_gas source gas h.metering),
)

-- GasUsedByContract leaves nothing unaccounted: what it reports as used and the net gas that the
-- contract forwarded make up what it spent and what remained from the forwarded gas, and one of the
-- two reported values is zero.
pub gas_used_by_contract_accounts :
    (h : Host)
    → let ((used, remained), _) = gas_used_by_contract h in
      let state = gas_state_of h.runtime.sc_address h.metering in
      (used + (sub_uint64 state.forwarded state.returned).0 ≡ gas_spent_by_contract h + remained)
      × ((used ≡ 0) ⊎ (remained ≡ 0))
unfolding gas_used_by_contract gas_spent_by_contract get_total_forwarded_gas gas_state_of
gas_used_by_contract_accounts h =
    sub_uint64_parts (gas_spent_by_contract h)
      (get_total_forwarded_gas h.runtime.sc_address h.metering).0
