-- ===== src/BigInt/Handles.antt =====
-- The handles of vmhost/contexts/bigint.go: Put finds a free one, GetOne reads without forgetting.
use drt_go_chain_vm_v.BigInt.{pop_set_active_state, push_state}
use drt_go_chain_vm_v.BigInt.{BigIntContext, get_one, or_zero, put}
use drt_go_chain_vm_v.Common.{refl}
use drt_go_chain_vm_v.Common.Dict.{bytes_Eq, insert, int_Eq, lookup-insert}
use drt_go_chain_vm_v.Common.Int.{eq_ℤ}
use drt_go_chain_vm_v.Common.{
  Option-cases, [], arith, if◌then◌else◌, inl, inr, length, none, some, zero, ◌+◌, ◌<◌, ◌^◌, ◌∷◌,
  ◌≡◌, ◌≤◌,
}
use drt_go_chain_vm_v.Common.Int.{eq_ℤ_iff, leb_ℤ}
use drt_go_chain_vm_v.Overflow.{wrap_int32}
use drt_go_chain_vm_v.Common.{suc}
use drt_go_chain_vm_v.Common.Dict.{Dict}
use drt_go_chain_vm_v.BigInt.{free_handle}
use drt_go_chain_vm_v.Common.Int.{◌+ℤ◌}
use drt_go_chain_vm_v.Common.Dict.{lookup}
use drt_go_chain_vm_v.Common.{ℕ}
use drt_go_chain_vm_v.Common.Int.{ℤ, pos}

-- How many entries have a handle that is at least `n`.
count_from : ℕ → Dict ℤ ℤ → ℕ
count_from n [] = 0
count_from n ((handle, _) ∷ m) =
    if leb_ℤ (pos n) handle then suc (count_from n m) else count_from n m

count_from-le-length : (n : ℕ) (m : Dict ℤ ℤ) → count_from n m ≤ length m
unfolding count_from
count_from-le-length n [] = omega arith
count_from-le-length n ((k, _) ∷ m) = ground (arith, count_from-le-length n m)

count_from-suc-le : (n : ℕ) (m : Dict ℤ ℤ) → count_from (suc n) m ≤ count_from n m
unfolding count_from
count_from-suc-le n [] = omega arith
count_from-suc-le n ((k, _) ∷ m) = ground (arith, count_from-suc-le n m)

-- A handle that is taken is one entry fewer further on.
count_from-suc :
    (n : ℕ) (v : ℤ) (m : Dict ℤ ℤ)
    → lookup (pos n) m ≡ some v
    → count_from (suc n) m < count_from n m
unfolding count_from lookup
count_from-suc n v [] h = cc
count_from-suc n v ((k, w) ∷ m) h =
    ground (arith, count_from-suc n v m, count_from-suc-le n m, eq_ℤ_iff k (pos n))

wrap_suc : (n : ℕ) → suc n < 2 ^ 31 → wrap_int32 (pos n +ℤ pos 1) ≡ pos (suc n)
unfolding ◌+ℤ◌
wrap_suc n lt = ground arith

free_handle_total :
    (fuel n : ℕ) (m : Dict ℤ ℤ)
    → count_from n m < fuel
    → n + fuel ≤ 2 ^ 31
    → (handle : ℤ) × (free_handle fuel (pos n) m ≡ some handle) × (lookup handle m ≡ none)
unfolding free_handle
free_handle_total zero n m h lt = absurd (omega arith)
free_handle_total (suc fuel) n m h lt = elim (Option-cases (lookup (pos n) m)) [
  | inl free ↦ (pos n, ground arith, free)
  | inr (v, taken) ↦
      let (handle, runs, free) =
        free_handle_total fuel (suc n) m (omega (arith, count_from-suc n v m taken))
          (omega arith) in
      (handle, ground (arith, wrap_suc n), free)
]

-- With fewer than 2 ^ 30 values, Put always ends: it returns a handle that held no value, and
-- afterwards that handle holds the given value and every other handle what it held before. The
-- state stack stays.
pub put_fresh :
    (value j : ℤ) (c : BigIntContext)
    → length c.values < 2 ^ 30
    → (handle : ℤ) × (c' : BigIntContext) × (put value c ≡ some (handle, c'))
      × (lookup handle c.values ≡ none)
      × (lookup j c'.values ≡ (if eq_ℤ handle j then some value else lookup j c.values))
      × (c'.state_stack ≡ c.state_stack)
unfolding put
put_fresh value j c lt =
    let n = length c.values in
    let (handle, runs, free) =
      free_handle_total (suc n) n c.values (omega (arith, count_from-le-length n c.values))
        (omega arith) in
    (
      handle,
      record c { values = insert handle value c.values },
      ground arith,
      free,
      lookup-insert handle j value c.values,
      refl,
    )

-- What a contract sees under a handle: zero where there is no value.
abbrev pub view : BigIntContext → ℤ → ℤ
view c handle = or_zero (lookup handle c.values)

-- GetOne returns what a contract sees under the handle, changes nothing that it sees under any
-- handle, and afterwards the handle holds a value.
pub get_one_observes :
    (handle j : ℤ) (c : BigIntContext)
    → let (value, c') = get_one handle c in
      (value ≡ view c handle) × (view c' j ≡ view c j) × (lookup handle c'.values ≡ some value)
unfolding get_one
get_one_observes handle j c = ground (
  arith,
  lookup-insert handle j (pos 0) c.values,
  lookup-insert handle handle (pos 0) c.values,
  eq_ℤ_iff handle j,
  eq_ℤ_iff handle handle,
)

-- Popping a context whose stack is as PushState made it gives back the values and the stack.
pub pop_set_active_state-push_state_values :
    (c nested : BigIntContext)
    → nested.state_stack ≡ (push_state c).state_stack
    → pop_set_active_state nested ≡ c
unfolding pop_set_active_state push_state
pop_set_active_state-push_state_values c nested e = ground arith
