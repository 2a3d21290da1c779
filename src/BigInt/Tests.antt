-- ===== src/BigInt/Tests.antt =====
-- Tests of the big integer context.
use drt_go_chain_vm_v.Common.{◌==◌}
use drt_go_chain_vm_v.Host.{BigIntContext}
use drt_go_chain_vm_v.BigInt.{put}
use drt_go_chain_vm_v.Common.{[], arith, if◌then◌else◌, none, some, ◌∷◌, ◌≡◌}
use drt_go_chain_vm_v.Common.Dict.{bytes_Eq, int_Eq, lookup}
use drt_go_chain_vm_v.Common.Int.{eq_ℤ, negsuc, pos, ℤ}
use drt_go_chain_vm_v.BigInt.Handles.{put_fresh}
use drt_go_chain_vm_v.BigInt.Shared.{pop_set_active_state-push_state_numbers}
use drt_go_chain_vm_v.BigInt.Store
use drt_go_chain_vm_v.BigInt.Store.{
  BigIntStore, Run, calls, ended, inits, puts, run, seen_in, view, writes,
}

abbrev two_values : BigIntContext
two_values = record { values = (pos 0, pos 12) ∷ (pos 1, negsuc 4) ∷ []; state_stack = [] }

put_fresh_example :
    (handle : ℤ) × (c' : BigIntContext) × (put (pos 9) two_values ≡ some (handle, c'))
    × (lookup handle two_values.values ≡ none)
    × (lookup (pos 1) c'.values
        ≡ (if eq_ℤ handle (pos 1) then some (pos 9) else lookup (pos 1) two_values.values))
    × (c'.state_stack ≡ two_values.state_stack)
put_fresh_example = put_fresh (pos 9) (pos 1) two_values (omega arith)

-- The caller holds 12 and -4. The calls write through its pointers, call on with a new map and write
-- there too.
abbrev shared : BigIntStore
shared = record {
  values = (pos 0, 0) ∷ (pos 1, 1) ∷ [];
  state_stack = [];
  numbers = λ p. if p == 0 then pos 12 else negsuc 3;
  next = 2;
}

abbrev overwriting : Run
overwriting =
    writes (pos 0) (pos 7) (calls (inits (writes (pos 1) (pos 9) ended)) (puts (pos 5) ended))

pop_set_active_state-push_state_numbers_example :
    let s' = Store.pop_set_active_state (run overwriting (Store.push_state shared)) in
    (view s' (pos 0) ≡ some (pos 12)) × (s'.state_stack ≡ [])
unfolding seen_in
pop_set_active_state-push_state_numbers_example =
    pop_set_active_state-push_state_numbers overwriting (pos 0) shared
      (omega arith, (omega arith, tt))
