-- ===== src/Host/Runtime.antt =====
-- vmhost/contexts/runtime.go: the gas counter of the running instance, the addresses on the
-- execution stack, and the stacks of runtime states and of instances.
use drt_go_chain_vm_v.Common.{
  ℕ, ◌-◌, ◌^◌, Bool, true, false, none, some, List, [], ◌∷◌, ltb, ◌==◌, if◌then◌else◌,
}
use drt_go_chain_vm_v.Common.Bytes.{Bytes, bytes_eq}
use drt_go_chain_vm_v.Host.{Host, RuntimeState}

-- Writes one cell of the gas counters.
abbrev pub set_cell : (ℕ → ℕ) → ℕ → ℕ → ℕ → ℕ
set_cell f p v q = if p == q then v else f q

unfoldable pub get_points_used : Host → ℕ
get_points_used h = elim h.runtime.instance_ref [ none ↦ 0 | some p ↦ h.runtime.points_used p ]

-- The counter is capped at the largest int64. With no instance the method call panics.
unfoldable pub set_points_used : ℕ → Host → Host
set_points_used gas_points h =
    let capped = if ltb (2 ^ 63 - 1) gas_points then 2 ^ 63 - 1 else gas_points in
    elim h.runtime.instance_ref [
      | none ↦ record h { panicked = true }
      | some p ↦ record h {
        runtime = record (h.runtime) { points_used = set_cell h.runtime.points_used p capped };
      }
    ]

on_the_stack : Bytes → List RuntimeState → Bool
on_the_stack address [] = false
on_the_stack address (s ∷ rest) =
    if bytes_eq address s.sc_address then true else on_the_stack address rest

unfoldable pub is_contract_on_the_stack : Bytes → Host → Bool
unfolding on_the_stack
is_contract_on_the_stack address h = on_the_stack address h.runtime.state_stack
