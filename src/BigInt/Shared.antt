-- ===== src/BigInt/Shared.antt =====
-- The copies that PushState of vmhost/contexts/bigint.go makes: no write in place reaches them.
use drt_go_chain_vm_v.BigInt.Store.{pointer, put_at}
use drt_go_chain_vm_v.Common.{List, sym}
use mathlib.Core.Path.{subst}
use drt_go_chain_vm_v.Common.{suc, ◌∙◌}
use drt_go_chain_vm_v.BigInt.Store.{seen_in}
use drt_go_chain_vm_v.Common.{ap, refl}
use drt_go_chain_vm_v.Common.{
  Bool-cases, Option, [], arith, inl, inr, none, some, ℕ, ◌<◌, ◌∷◌, ◌≡◌, ◌≤◌, ◌⊎◌,
}
use drt_go_chain_vm_v.Common.Dict.{bytes_Eq}
use drt_go_chain_vm_v.Common.Int.{eq_ℤ, ℤ}
use drt_go_chain_vm_v.Memory.{copy}
use drt_go_chain_vm_v.BigInt.Store.{
  BigIntStore, Run, calls, clone, ended, get_one, init_state, inits, new_number,
  pop_set_active_state, push_state, put, puts, run, set_number, view, write, writes,
}
use drt_go_chain_vm_v.Common.Dict.{Dict, insert, int_Eq, lookup}

-- No pointer of a map lies from `lo` to below `hi`.
abbrev pub Apart : ℕ → ℕ → Dict ℤ ℕ → Type 0
Apart lo hi [] = Unit
Apart lo hi ((_, p) ∷ m) = ((p < lo) ⊎ (hi ≤ p)) × Apart lo hi m

-- Every pointer of a map is below a bound.
abbrev pub Below : ℕ → Dict ℤ ℕ → Type 0
Below n [] = Unit
Below n ((_, p) ∷ m) = (p < n) × Below n m

Apart-of-Below : (n hi : ℕ) (m : Dict ℤ ℕ) → Below n m → Apart n hi m
Apart-of-Below n hi [] b = tt
Apart-of-Below n hi (entry ∷ m) (b, bs) = (inl b, Apart-of-Below n hi m bs)

Apart-of-fresh : (lo hi n : ℕ) (m : Dict ℤ ℕ) → hi ≤ n → Apart 0 n m → Apart lo hi m
Apart-of-fresh lo hi n [] le a = tt
Apart-of-fresh lo hi n (entry ∷ m) le (a, rest) = (ground arith, Apart-of-fresh lo hi n m le rest)

Below-suc : (n : ℕ) (m : Dict ℤ ℕ) → Below n m → Below (suc n) m
Below-suc n [] b = tt
Below-suc n (entry ∷ m) (b, bs) = (omega arith, Below-suc n m bs)

Apart-insert :
    (lo hi : ℕ) (handle : ℤ) (p : ℕ) (m : Dict ℤ ℕ)
    → ((p < lo) ⊎ (hi ≤ p))
    → Apart lo hi m
    → Apart lo hi (insert handle p m)
unfolding insert
Apart-insert lo hi handle p [] a rest = (a, tt)
Apart-insert lo hi handle p ((j, q) ∷ m) a (b, bs) = elim (Bool-cases (eq_ℤ j handle)) [
  | inl same ↦ rw same (a, bs)
  | inr other ↦ rw other (b, Apart-insert lo hi handle p m a bs)
]

Apart-lookup :
    (lo hi : ℕ) (handle : ℤ) (p : ℕ) (m : Dict ℤ ℕ)
    → Apart lo hi m
    → lookup handle m ≡ some p
    → (p < lo) ⊎ (hi ≤ p)
unfolding lookup
Apart-lookup lo hi handle p [] a found = ground arith
Apart-lookup lo hi handle p ((j, q) ∷ m) (a, rest) found =
    ground (arith, Apart-lookup lo hi handle p m rest)

seen-Below :
    (f g : ℕ → ℤ) (n : ℕ) (m : Dict ℤ ℕ) (j : ℤ)
    → ((q : ℕ) → q < n → f q ≡ g q)
    → Below n m
    → seen_in f m j ≡ seen_in g m j
unfolding seen_in
seen-Below f g n [] j same b = refl
seen-Below f g n ((k, p) ∷ m) j same (b, rest) = elim (Bool-cases (eq_ℤ k j)) [
  | inl here ↦ rw here (ap some (same p b))
  | inr other ↦ rw other (seen-Below f g n m j same rest)
]

-- The numbers of a map whose pointers lie from `lo` to below `hi`.
seen-between :
    (f g : ℕ → ℤ) (lo hi : ℕ) (m : Dict ℤ ℕ) (j : ℤ)
    → ((q : ℕ) → lo ≤ q → q < hi → f q ≡ g q)
    → Apart 0 lo m
    → Below hi m
    → seen_in f m j ≡ seen_in g m j
unfolding seen_in
seen-between f g lo hi [] j same a b = refl
seen-between f g lo hi ((k, p) ∷ m) j same (a, others) (b, rest) = elim (Bool-cases (eq_ℤ k j)) [
  | inl here ↦ rw here (ap some (same p (ground arith) b))
  | inr other ↦ rw other (seen-between f g lo hi m j same others rest)
]

-- What a step leaves as it is, apart from the pointers from `lo` to below `hi`: the stack and the
-- numbers there. The values stay apart from them.
abbrev Keeps : ℕ → ℕ → BigIntStore → BigIntStore → Type 0
Keeps lo hi s s' =
    (s'.state_stack ≡ s.state_stack)
    × ((q : ℕ) → lo ≤ q → q < hi → s'.numbers q ≡ s.numbers q)
    × Apart lo hi s'.values
    × (s.next ≤ s'.next)

-- What cloning does: the copies are new, hold the same numbers, and nothing else changes.
abbrev Clones : Dict ℤ ℕ → BigIntStore → Dict ℤ ℕ × BigIntStore → Type 0
Clones m s (copy, s') =
    (Below s.next m → (j : ℤ) → seen_in s'.numbers copy j ≡ seen_in s.numbers m j)
    × ((q : ℕ) → q < s.next → s'.numbers q ≡ s.numbers q)
    × Apart 0 s.next copy
    × Below s'.next copy
    × (s'.values ≡ s.values)
    × (s'.state_stack ≡ s.state_stack)
    × (s.next ≤ s'.next)

clone-Clones : (m : Dict ℤ ℕ) (s : BigIntStore) → Clones m s (clone m s)
unfolding clone seen_in
clone-Clones [] s = (λ b j. refl, λ q lt. refl, tt, tt, refl, refl, omega arith)
clone-Clones ((handle, p) ∷ m) s =
    let (_, s1) = new_number (s.numbers p) s in
    let (copy, s2) = clone m s1 in
    let (seen, same, fresh, below, values, stack, more) = clone-Clones m s1 in
    let old : (q : ℕ) → q < s.next → s1.numbers q ≡ s.numbers q = λ q lt. ground arith in
    let new : s2.numbers s.next ≡ s.numbers p = same s.next (omega arith) ∙ ground arith in
    (
      λ (b, bs) j. elim (Bool-cases (eq_ℤ handle j)) [
        | inl here ↦ rw here (ap some new)
        | inr other ↦
            rw other
              (seen (Below-suc s.next m bs) j ∙ seen-Below s1.numbers s.numbers s.next m j old bs)
      ],
      λ q lt. same q (omega arith) ∙ old q lt,
      (inr (omega arith), Apart-of-fresh 0 s.next (suc s.next) copy (omega arith) fresh),
      (omega arith, below),
      values,
      stack,
      omega arith,
    )

pointer-Keeps :
    (lo hi : ℕ) (handle value : ℤ) (found : Option ℕ) (s : BigIntStore)
    → lookup handle s.values ≡ found
    → Apart lo hi s.values
    → hi ≤ s.next
    → let (p, s1) = pointer handle found s in Keeps lo hi s (set_number p value s1)
unfolding pointer
pointer-Keeps lo hi handle value none s found a le =
    (refl, λ q l u. ground arith, Apart-insert lo hi handle s.next s.values (inr le) a, omega arith)
pointer-Keeps lo hi handle value (some p) s found a le =
    (refl, λ q l u. ground (arith, Apart-lookup lo hi handle p s.values a found), a, omega arith)

write-Keeps :
    (lo hi : ℕ) (handle value : ℤ) (s : BigIntStore)
    → Apart lo hi s.values
    → hi ≤ s.next
    → Keeps lo hi s (write handle value s)
unfolding write get_one
write-Keeps lo hi handle value s a le =
    pointer-Keeps lo hi handle value (lookup handle s.values) s refl a le

put_at-Keeps :
    (lo hi : ℕ) (value : ℤ) (found : Option ℤ) (s : BigIntStore)
    → Apart lo hi s.values
    → hi ≤ s.next
    → Keeps lo hi s (put_at value found s)
unfolding put_at
put_at-Keeps lo hi value none s a le = (refl, λ q l u. refl, a, omega arith)
put_at-Keeps lo hi value (some handle) s a le =
    (refl, λ q l u. ground arith, Apart-insert lo hi handle s.next s.values (inr le) a, omega arith)

Keeps-trans :
    (lo hi : ℕ) (s s1 s2 : BigIntStore) → Keeps lo hi s s1 → Keeps lo hi s1 s2 → Keeps lo hi s s2
Keeps-trans lo hi s s1 s2 (e, same, a, le) (e', same', a', le') =
    (e' ∙ e, λ q l u. same' q l u ∙ same q l u, a', omega arith)

popped :
    (s : BigIntStore) (copy : Dict ℤ ℕ) (rest : List (Dict ℤ ℕ))
    → s.state_stack ≡ copy ∷ rest
    → pop_set_active_state s ≡ record s { values = copy; state_stack = rest }
unfolding pop_set_active_state
popped s copy rest e = ground arith

-- A call keeps what its inner run keeps, since the map that is popped holds new pointers.
calls-Keeps :
    (lo hi : ℕ) (s after : BigIntStore)
    → hi ≤ s.next
    → Keeps lo hi (push_state s) after
    → Keeps lo hi s (pop_set_active_state after)
unfolding push_state pop_set_active_state
calls-Keeps lo hi s after le (e, same, a, more) =
    let (copy, s1) = clone s.values s in
    let (_, old, fresh, _, _, stack, next) = clone-Clones s.values s in
    subst (Keeps lo hi s) (sym (popped after copy s1.state_stack e)) (
      stack,
      λ q l u. same q l u ∙ old q (omega arith),
      Apart-of-fresh lo hi s.next copy le fresh,
      omega arith,
    )

run-Keeps :
    (r : Run) (lo hi : ℕ) (s : BigIntStore)
    → Apart lo hi s.values
    → hi ≤ s.next
    → Keeps lo hi s (run r s)
unfolding run put write push_state init_state
run-Keeps ended lo hi s a le = (refl, λ q l u. refl, a, omega arith)
run-Keeps (writes handle value rest) lo hi s a le =
    let kept = write-Keeps lo hi handle value s a le in
    Keeps-trans lo hi s _ _ kept (run-Keeps rest lo hi _ kept.2 (omega (arith, kept.3)))
run-Keeps (puts value rest) lo hi s a le =
    let kept = put_at-Keeps lo hi value _ s a le in
    Keeps-trans lo hi s _ _ kept (run-Keeps rest lo hi _ kept.2 (omega (arith, kept.3)))
run-Keeps (inits rest) lo hi s a le = run-Keeps rest lo hi (init_state s) tt le
run-Keeps (calls inner rest) lo hi s a le =
    let (_, _, _, _, values, _, next) = clone-Clones s.values s in
    let after = run inner (push_state s) in
    let kept =
      run-Keeps inner lo hi (push_state s) (subst (Apart lo hi) (sym values) a) (omega arith) in
    let called = calls-Keeps lo hi s after le kept in
    Keeps-trans lo hi s _ _ called
      (run-Keeps rest lo hi (pop_set_active_state after) called.2 (omega (arith, called.3)))

-- Where the pointers of the caller are in use, PopSetActiveState gives back to it the number that it
-- had under every handle, and the stack, whatever ran since PushState: writes in place through the
-- very pointers that the caller had, new numbers and maps, and further calls. The same holds for a
-- call that starts with a new map.
pub pop_set_active_state-push_state_numbers :
    (r : Run) (j : ℤ) (s : BigIntStore)
    → Below s.next s.values
    → let s' = pop_set_active_state (run r (push_state s)) in
      (view s' j ≡ view s j) × (s'.state_stack ≡ s.state_stack)
unfolding push_state
pop_set_active_state-push_state_numbers r j s below =
    let (copy, s1) = clone s.values s in
    let (seen, old, fresh, high, values, stack, next) = clone-Clones s.values s in
    let (e, same, _, _) =
      run-Keeps r s.next s1.next (push_state s)
        (subst (Apart s.next s1.next) (sym values) (Apart-of-Below s.next s1.next s.values below))
        (omega arith) in
    let after = run r (push_state s) in
    subst (λ (t : BigIntStore). (view t j ≡ view s j) × (t.state_stack ≡ s.state_stack))
      (sym (popped after copy s1.state_stack e))
      (
        seen-between after.numbers s1.numbers s.next s1.next copy j same fresh high ∙ seen below j,
        stack,
      )
