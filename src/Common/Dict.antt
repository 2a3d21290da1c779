-- ===== src/Common/Dict.antt =====
-- Go maps as association lists: the keys are compared by a Boolean equality.
use drt_go_chain_vm_v.Common.{◌++◌, ◌≢◌}
use drt_go_chain_vm_v.Common.Tests.{if◌then◌else◌}
use drt_go_chain_vm_v.Common.Int.{ℤ, eq_ℤ, eq_ℤ_iff}
use drt_go_chain_vm_v.Common.Bytes.{Bytes, bytes_eq, bytes_eq_iff}
use mathlib.Core.Path.{◌≡◌, refl}
use mathlib.Core.Logic.{◌↔◌}
use mathlib.Core.Bool.{Bool, true}
use mathlib.Core.Option.{Option, none, some}
use mathlib.Core.List.{List, [], ◌∷◌}
use native.Mathlib.Omega.{arith}

pub record Eq (K : Type 0) : Type 0 where
  pub beq : K → K → Bool
  pub beq_iff : (a b : K) → (beq a b ≡ true) ↔ (a ≡ b)

instance abbrev pub bytes_Eq : Eq Bytes
bytes_Eq = record { beq = bytes_eq; beq_iff = bytes_eq_iff }

instance abbrev pub int_Eq : Eq ℤ
int_Eq = record { beq = eq_ℤ; beq_iff = eq_ℤ_iff }

abbrev pub Dict : Type 0 → Type 0 → Type 0
Dict K V = List (K × V)

module _ {K V : Type 0} ⦃e : Eq K⦄ where
  -- v, ok := m[k]
  unfoldable pub lookup : K → Dict K V → Option V
  lookup k [] = none
  lookup k ((j, v) ∷ m) = if e.beq j k then some v else lookup k m

  -- m[k] = v
  unfoldable pub insert : K → V → Dict K V → Dict K V
  insert k v [] = (k, v) ∷ []
  insert k v ((j, w) ∷ m) = if e.beq j k then (k, v) ∷ m else (j, w) ∷ insert k v m

  -- delete(m, k), which removes every pair of the key
  unfoldable pub erase : K → Dict K V → Dict K V
  erase k [] = []
  erase k ((j, w) ∷ m) = let rest = erase k m in if e.beq j k then rest else (j, w) ∷ rest

  pub lookup-insert :
      (k j : K) (v : V) (m : Dict K V)
      → lookup j (insert k v m) ≡ (if e.beq k j then some v else lookup j m)
  unfolding lookup insert
  lookup-insert k j v [] = refl
  lookup-insert k j v ((i, w) ∷ m) =
      ground (arith, e.beq_iff k j, e.beq_iff i k, e.beq_iff i j, lookup-insert k j v m)

  pub lookup-insert_self : (k : K) (v : V) (m : Dict K V) → lookup k (insert k v m) ≡ some v
  lookup-insert_self k v m = ground (arith, lookup-insert k k v m, e.beq_iff k k)

  pub lookup-erase :
      (k j : K) (m : Dict K V) → lookup j (erase k m) ≡ (if e.beq k j then none else lookup j m)
  unfolding lookup erase
  lookup-erase k j [] = ground arith
  lookup-erase k j ((i, w) ∷ m) =
      ground (arith, e.beq_iff k j, e.beq_iff i k, e.beq_iff i j, lookup-erase k j m)

module _ {K V : Type 0} ⦃e : Eq K⦄ where
  -- No key stands twice.
  abbrev pub Distinct : Dict K V → Type 0
  Distinct [] = Unit
  Distinct ((k, _) ∷ m) = (lookup k m ≡ none) × Distinct m

  pub insert-append_new :
      (k : K) (v : V) (m : Dict K V) → lookup k m ≡ none → insert k v m ≡ m ++ (k, v) ∷ []
  unfolding lookup insert
  insert-append_new k v [] h = refl
  insert-append_new k v ((j, w) ∷ m) h = ground (arith, insert-append_new k v m)

  lookup-append_left : (k : K) (xs ys : Dict K V) → lookup k (xs ++ ys) ≡ none → lookup k xs ≡ none
  unfolding lookup
  lookup-append_left k [] ys h = refl
  lookup-append_left k ((j, w) ∷ xs) ys h = ground (arith, lookup-append_left k xs ys)

  lookup-append_mid : (k : K) (v : V) (xs ys : Dict K V) → lookup k (xs ++ (k, v) ∷ ys) ≢ none
  unfolding lookup
  lookup-append_mid k v [] ys h = ground (arith, e.beq_iff k k)
  lookup-append_mid k v ((j, w) ∷ xs) ys h = ground (arith, lookup-append_mid k v xs ys)

  -- In a list of distinct keys the key in the middle is not among those before it.
  pub Distinct-append_mid :
      (k : K) (v : V) (xs ys : Dict K V) → Distinct (xs ++ (k, v) ∷ ys) → lookup k xs ≡ none
  unfolding lookup
  Distinct-append_mid k v [] ys h = refl
  Distinct-append_mid k v ((j, w) ∷ xs) ys h =
      ground
        (arith, Distinct-append_mid k v xs ys h.1, lookup-append_mid k v xs ys, e.beq_iff j k, h.0)

  pub insert-Distinct : (k : K) (v : V) (m : Dict K V) → Distinct m → Distinct (insert k v m)
  unfolding insert lookup
  insert-Distinct k v [] h = (refl, tt)
  insert-Distinct k v ((j, w) ∷ m) h =
      ground (arith, insert-Distinct k v m h.1, lookup-insert k j v m, e.beq_iff k j, e.beq_iff j k)
