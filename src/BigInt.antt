-- ===== src/BigInt.antt =====
-- vmhost/contexts/bigint.go: big integers by handle, as the host and the imports use them. A big.Int
-- is an integer, and the map holds the numbers themselves. BigInt/Store models the pointers and the
-- copies that PushState makes of the numbers.
pub mod Store
pub mod Shared
pub mod Handles
mod Tests
use drt_go_chain_vm_v.Host.{BigIntContext}
use drt_go_chain_vm_v.Common.Dict.{bytes_Eq}
use drt_go_chain_vm_v.Common.{zero}
use drt_go_chain_vm_v.Common.Int.{◌+ℤ◌}
use drt_go_chain_vm_v.Host.{present}
use drt_go_chain_vm_v.Common.{length}
use drt_go_chain_vm_v.Overflow.{wrap_int32}
use drt_go_chain_vm_v.Common.{none, some, suc, ◌∷◌}
use drt_go_chain_vm_v.Common.{List, Option, [], ℕ}
use drt_go_chain_vm_v.Common.Dict.{Dict, lookup, insert, int_Eq}
use drt_go_chain_vm_v.Common.Int.{ℤ, pos}

unfoldable pub init_state : BigIntContext → BigIntContext
init_state c = record c { values = [] }

unfoldable pub push_state : BigIntContext → BigIntContext
push_state c = record c { state_stack = c.values ∷ c.state_stack }

restore : BigIntContext → List (Dict ℤ ℤ) → BigIntContext
restore c [] = c
restore c (prev ∷ rest) = record { values = prev; state_stack = rest }

unfoldable pub pop_set_active_state : BigIntContext → BigIntContext
unfolding restore
pop_set_active_state c = restore c c.state_stack

discard : BigIntContext → List (Dict ℤ ℤ) → BigIntContext
discard c [] = c
discard c (_ ∷ rest) = record c { state_stack = rest }

unfoldable pub pop_discard : BigIntContext → BigIntContext
unfolding discard
pop_discard c = discard c c.state_stack

unfoldable pub clear_state_stack : BigIntContext → BigIntContext
clear_state_stack c = record c { state_stack = [] }

-- The loop of Put, with fuel: the first handle from `handle` on that the map does not hold.
unfoldable pub free_handle : {V : Type 0} → ℕ → ℤ → Dict ℤ V → Option ℤ
free_handle zero handle m = none
free_handle (suc fuel) handle m =
    let next = free_handle fuel (wrap_int32 (handle +ℤ pos 1)) m in
    elim (lookup handle m) [ none ↦ some handle | some _ ↦ next ]

-- `none` means that the loop did not end within one round more than there are values.
unfoldable pub put : ℤ → BigIntContext → Option (ℤ × BigIntContext)
unfolding free_handle
put value c =
    elim (free_handle (suc (length c.values)) (wrap_int32 (pos (length c.values))) c.values) [
      | none ↦ none
      | some handle ↦ some (handle, record c { values = insert handle value c.values })
    ]

abbrev pub or_zero : Option ℤ → ℤ
or_zero none = pos 0
or_zero (some v) = v

-- A handle with no value gets the value zero.
unfoldable pub get_one : ℤ → BigIntContext → ℤ × BigIntContext
get_one handle c =
    let present : BigIntContext = elim (lookup handle c.values) [
      | none ↦ record c { values = insert handle (pos 0) c.values }
      | some _ ↦ c
    ] in
    (or_zero (lookup handle present.values), present)

unfoldable pub get_two : ℤ → ℤ → BigIntContext → (ℤ × ℤ) × BigIntContext
unfolding get_one
get_two handle1 handle2 c =
    let (a, c1) = get_one handle1 c in let (b, c2) = get_one handle2 c1 in ((a, b), c2)

unfoldable pub get_three : ℤ → ℤ → ℤ → BigIntContext → (ℤ × ℤ × ℤ) × BigIntContext
unfolding get_one
get_three handle1 handle2 handle3 c =
    let (a, c1) = get_one handle1 c in
    let (b, c2) = get_one handle2 c1 in let (d, c3) = get_one handle3 c2 in ((a, b, d), c3)
