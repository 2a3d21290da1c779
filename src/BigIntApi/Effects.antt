-- ===== src/BigIntApi/Effects.antt =====
-- What the imports of vmhost/vmhooks/bigIntOps.go do to the values that a contract sees under its
-- handles.
use drt_go_chain_vm_v.BigIntApi.{with_fault}
use drt_go_chain_vm_v.BigIntApi.Arith.{div_e, is_negative, mod_e, ◌*ℤ◌}
use drt_go_chain_vm_v.BigIntApi.Division.{div_mod, mod_bounds}
use drt_go_chain_vm_v.Common.{sym, true}
use drt_go_chain_vm_v.Common.Int.{◌+ℤ◌}
use drt_go_chain_vm_v.Host.Error.{div_zero, other_error}
use mathlib.Core.Path.{subst}
use drt_go_chain_vm_v.Common.{false}
use drt_go_chain_vm_v.Common.Int.{pos}
use drt_go_chain_vm_v.Common.{ap}
use Prim.Native.String.{String}
use drt_go_chain_vm_v.BigIntApi.Arith.{bit_len, magnitude}
use drt_go_chain_vm_v.Common.{arith, ◌/◌, ◌<◌, ◌∙◌}
use drt_go_chain_vm_v.Common.Dict.{bytes_Eq, int_Eq, lookup-insert}
use drt_go_chain_vm_v.Common.Int.{eq_ℤ_iff}
use drt_go_chain_vm_v.Host.Error.{VmError}
use drt_go_chain_vm_v.Host.Runtime.{set_points_used}
use drt_go_chain_vm_v.Overflow.{mul_uint64}
use drt_go_chain_vm_v.Common.{List, [], if◌then◌else◌, refl, ℕ, ◌∷◌, ◌≡◌}
use drt_go_chain_vm_v.Common.Int.{eq_ℤ, ℤ}
use drt_go_chain_vm_v.Host.{BigIntContext, Host}
use drt_go_chain_vm_v.Metering.{use_gas}
use drt_go_chain_vm_v.BigInt.{get_one, get_three}
use drt_go_chain_vm_v.BigInt.Handles.{get_one_observes, view}
use drt_go_chain_vm_v.BigIntApi.{
  big_int_e_div, big_int_e_mod, charged_three, division, set_value, use_extra_gas_for_operations,
}

use_gas-big_int : (gas : ℕ) (h : Host) → (use_gas gas h).big_int ≡ h.big_int
unfolding use_gas drt_go_chain_vm_v.Host.Runtime.set_points_used
use_gas-big_int gas h = ground arith

extra-big_int :
    (values : List ℤ) (h : Host) → (use_extra_gas_for_operations values h).big_int ≡ h.big_int
unfolding use_extra_gas_for_operations
extra-big_int [] h = refl
extra-big_int (value ∷ values) h =
    extra-big_int values _
    ∙ ground (
      arith,
      use_gas-big_int (mul_uint64 (bit_len value / 8) h.metering.gas_schedule.data_copy_per_byte) h,
    )

get_three_observes :
    (handle1 handle2 handle3 j : ℤ) (c : BigIntContext)
    → let ((x, y, z), c') = get_three handle1 handle2 handle3 c in
      (x ≡ view c handle1) × (y ≡ view c handle2) × (z ≡ view c handle3) × (view c' j ≡ view c j)
unfolding get_three
get_three_observes handle1 handle2 handle3 j c =
    let (_, c1) = get_one handle1 c in
    let (_, c2) = get_one handle2 c1 in
    let (x, e12, _) = get_one_observes handle1 handle2 c in
    let (_, e13, _) = get_one_observes handle1 handle3 c in
    let (_, e1j, _) = get_one_observes handle1 j c in
    let (y, e23, _) = get_one_observes handle2 handle3 c1 in
    let (_, e2j, _) = get_one_observes handle2 j c1 in
    let (z, e3j, _) = get_one_observes handle3 j c2 in (x, y ∙ e12, z ∙ e23 ∙ e13, e3j ∙ e2j ∙ e1j)

set_value-view :
    (handle value j : ℤ) (h : Host)
    → view (set_value handle value h).big_int j
      ≡ (if eq_ℤ handle j then value else view h.big_int j)
unfolding set_value
set_value-view handle value j h =
    ground (arith, lookup-insert handle j value h.big_int.values, eq_ℤ_iff handle j)

test_nonzero : (b : ℤ) → 0 < magnitude b → eq_ℤ b (pos 0) ≡ false
unfolding magnitude
test_nonzero b nonzero = ground arith

-- A division by a value that is not zero writes the result to the destination, and nothing else.
division-view :
    (text : VmError → String) (cost : ℕ) (f : ℤ → ℤ → ℤ) (destination op1 op2 j : ℤ) (h : Host)
    → 0 < magnitude (view h.big_int op2)
    → view (division text cost f destination op1 op2 h).big_int j ≡ (
        if eq_ℤ destination j
        then f (view h.big_int op1) (view h.big_int op2)
        else view h.big_int j)
unfolding division charged_three
division-view text cost f destination op1 op2 j h nonzero =
    let before = (use_gas cost h).big_int in
    let ((x, a, b), after) = get_three destination op1 op2 before in
    let h1 = record (use_gas cost h) { big_int = after } in
    let h2 = use_extra_gas_for_operations (x ∷ a ∷ b ∷ []) h1 in
    let (_, ea, eb, ej) = get_three_observes destination op1 op2 j before in
    let kept : view h2.big_int j ≡ view h.big_int j =
      ap (λ c. view c j) (extra-big_int (x ∷ a ∷ b ∷ []) h1)
      ∙ ej
      ∙ ap (λ c. view c j) (use_gas-big_int cost h) in
    let ea' : a ≡ view h.big_int op1 = ea ∙ ap (λ c. view c op1) (use_gas-big_int cost h) in
    let eb' : b ≡ view h.big_int op2 = eb ∙ ap (λ c. view c op2) (use_gas-big_int cost h) in
    let test = test_nonzero b (subst (λ t. 0 < magnitude t) (sym eb') nonzero) in
    ap
      (λ t.
        view
          (if t
            then with_fault text (other_error div_zero) h2
            else set_value destination (f a b) h2).big_int
          j)
      test
    ∙ set_value-view destination (f a b) j h2
    ∙ cc (ea', eb', kept)

-- bigIntEDiv and bigIntEMod with the same operands, the second of which is not zero: the values that
-- they write are the quotient and the remainder of the operands, the remainder is not negative and
-- below the magnitude of the divisor, and no other handle is seen to change. The destination may be
-- an operand.
pub big_int_e_div-big_int_e_mod :
    (text : VmError → String) (destination op1 op2 j : ℤ) (h : Host)
    → 0 < magnitude (view h.big_int op2)
    → let divided = (big_int_e_div text destination op1 op2 h).big_int in
      let reduced = (big_int_e_mod text destination op1 op2 h).big_int in
      let b = view h.big_int op2 in
      (view h.big_int op1 ≡ view divided destination *ℤ b +ℤ view reduced destination)
      × (is_negative (view reduced destination) ≡ false)
      × (magnitude (view reduced destination) < magnitude b)
      × (view divided j
          ≡ (if eq_ℤ destination j then view divided destination else view h.big_int j))
      × (view reduced j
          ≡ (if eq_ℤ destination j then view reduced destination else view h.big_int j))
unfolding big_int_e_div big_int_e_mod
big_int_e_div-big_int_e_mod text destination op1 op2 j h nonzero =
    let cost = h.metering.gas_schedule.big_int_api.big_int_sub in
    let a = view h.big_int op1 in
    let b = view h.big_int op2 in
    let same : eq_ℤ destination destination ≡ true =
      ground (arith, eq_ℤ_iff destination destination) in
    let q = division-view text cost div_e destination op1 op2 destination h nonzero in
    let r = division-view text cost mod_e destination op1 op2 destination h nonzero in
    let qj = division-view text cost div_e destination op1 op2 j h nonzero in
    let rj = division-view text cost mod_e destination op1 op2 j h nonzero in
    let (low, high) = mod_bounds a b nonzero in
    let exact = div_mod a b in
    let q' : view (big_int_e_div text destination op1 op2 h).big_int destination ≡ div_e a b =
      q ∙ ap (λ t. if t then div_e a b else view h.big_int destination) same in
    let r' : view (big_int_e_mod text destination op1 op2 h).big_int destination ≡ mod_e a b =
      r ∙ ap (λ t. if t then mod_e a b else view h.big_int destination) same in
    rw (q', r') (exact, low, high, qj, rj)
