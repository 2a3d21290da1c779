-- ===== src/BigInt/Store.antt =====
-- vmhost/contexts/bigint.go with its pointers: the maps hold pointers to big integers, which the
-- imports of a contract change in place.
use drt_go_chain_vm_v.Common.Int.{eq_ℤ}
use drt_go_chain_vm_v.Common.{
  List, Option, [], if◌then◌else◌, length, none, some, suc, ℕ, ◌==◌, ◌∷◌,
}
use drt_go_chain_vm_v.Common.Dict.{bytes_Eq}
use drt_go_chain_vm_v.Memory.{copy}
use drt_go_chain_vm_v.BigInt.{free_handle}
use drt_go_chain_vm_v.Common.Dict.{Dict, insert, int_Eq, lookup}
use drt_go_chain_vm_v.Common.Int.{pos, ℤ}
use drt_go_chain_vm_v.Overflow.{wrap_int32}

-- `next` is the first pointer that is not in use.
pub record BigIntStore : Type 0 where
  pub values : Dict ℤ ℕ
  pub state_stack : List (Dict ℤ ℕ)
  pub numbers : ℕ → ℤ
  pub next : ℕ

-- The store with a number changed in place.
abbrev pub set_number : ℕ → ℤ → BigIntStore → BigIntStore
set_number p value s = record s { numbers = λ q. if p == q then value else s.numbers q }

-- big.NewInt
abbrev pub new_number : ℤ → BigIntStore → ℕ × BigIntStore
new_number value s = (s.next, record (set_number s.next value s) { next = suc s.next })

unfoldable pub init_state : BigIntStore → BigIntStore
init_state s = record s { values = [] }

-- A new map with new numbers.
unfoldable pub clone : Dict ℤ ℕ → BigIntStore → Dict ℤ ℕ × BigIntStore
clone [] s = ([], s)
clone ((handle, p) ∷ m) s =
    let (q, s1) = new_number (s.numbers p) s in
    let (rest, s2) = clone m s1 in ((handle, q) ∷ rest, s2)

unfoldable pub push_state : BigIntStore → BigIntStore
unfolding clone
push_state s =
    let (copy, s1) = clone s.values s in record s1 { state_stack = copy ∷ s1.state_stack }

restore : BigIntStore → List (Dict ℤ ℕ) → BigIntStore
restore s [] = s
restore s (prev ∷ rest) = record s { values = prev; state_stack = rest }

unfoldable pub pop_set_active_state : BigIntStore → BigIntStore
unfolding restore
pop_set_active_state s = restore s s.state_stack

-- The new number of Put, under the handle that its loop has found: it tries one handle more than
-- there are values, so one is free unless all 2 ^ 32 are taken.
unfoldable pub put_at : ℤ → Option ℤ → BigIntStore → BigIntStore
put_at value none s = s
put_at value (some handle) s =
    let (p, s1) = new_number value s in record s1 { values = insert handle p s1.values }

unfoldable pub put : ℤ → BigIntStore → BigIntStore
unfolding put_at
put value s =
    put_at value (free_handle (suc (length s.values)) (wrap_int32 (pos (length s.values))) s.values)
      s

-- The pointer that GetOne returns, from what the map holds.
unfoldable pub pointer : ℤ → Option ℕ → BigIntStore → ℕ × BigIntStore
pointer handle (some p) s = (p, s)
pointer handle none s =
    let (p, s1) = new_number (pos 0) s in (p, record s1 { values = insert handle p s1.values })

unfoldable pub get_one : ℤ → BigIntStore → ℕ × BigIntStore
unfolding pointer
get_one handle s = pointer handle (lookup handle s.values) s

-- The write of an import through the pointer of a handle.
unfoldable pub write : ℤ → ℤ → BigIntStore → BigIntStore
unfolding get_one
write handle value s = let (p, s1) = get_one handle s in set_number p value s1

-- What a contract and the calls that it makes do to the big integers: writes through a handle, new
-- numbers, a new map, and calls that push the state before and pop it after.
pub data Run : Type 0 where
  ended : Run
  writes : ℤ → ℤ → Run → Run
  puts : ℤ → Run → Run
  inits : Run → Run
  calls : Run → Run → Run

unfoldable pub run : Run → BigIntStore → BigIntStore
unfolding write put
run ended s = s
run (writes handle value rest) s = run rest (write handle value s)
run (puts value rest) s = run rest (put value s)
run (inits rest) s = run rest (init_state s)
run (calls inner rest) s = run rest (pop_set_active_state (run inner (push_state s)))

-- What is seen under a handle.
unfoldable pub seen_in : (ℕ → ℤ) → Dict ℤ ℕ → ℤ → Option ℤ
seen_in numbers [] handle = none
seen_in numbers ((k, p) ∷ m) handle =
    let rest = seen_in numbers m handle in if eq_ℤ k handle then some (numbers p) else rest

abbrev pub view : BigIntStore → ℤ → Option ℤ
view s handle = seen_in s.numbers s.values handle
