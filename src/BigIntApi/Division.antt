-- ===== src/BigIntApi/Division.antt =====
-- The divisions of vmhost/vmhooks/bigIntOps.go, as math/big has them.
use drt_go_chain_vm_v.BigIntApi.Arith.{div_e, mod_e}
use drt_go_chain_vm_v.Common.{◌<◌}
use drt_go_chain_vm_v.Common.Int.{+ℤ_parts, -ℤ_parts, eq_of_parts, ◌-ℤ◌}
use drt_go_chain_vm_v.Common.{ap, refl, sym, ◌%◌, ◌/◌}
use native.Mathlib.Nat.{add-mul, mod-add-div', mod-lt}
use drt_go_chain_vm_v.Common.{◌∙◌}
use drt_go_chain_vm_v.Common.Int.{sub_ℕ}
use drt_go_chain_vm_v.BigIntApi.Arith.{is_negative, magnitude, quo, rem, signed, ◌*ℤ◌}
use drt_go_chain_vm_v.Common.{Bool, arith, false, not, true, ℕ, ◌*◌, ◌+◌, ◌≡◌}
use drt_go_chain_vm_v.Common.Int.{neg_part, negsuc, pos, pos_part, ℤ, ◌+ℤ◌}

-- The sign of a product.
differs : Bool → Bool → Bool
differs true t = not t
differs false t = t

signed-parts :
    (n : ℕ)
    → (neg_part (signed true n) ≡ n)
      × (pos_part (signed true n) ≡ 0)
      × (neg_part (signed false n) ≡ 0)
      × (pos_part (signed false n) ≡ n)
unfolding signed
signed-parts n = ground arith

sub-signed : (n : ℕ) → (sub_ℕ 0 n ≡ signed true n) × (sub_ℕ n 0 ≡ signed false n)
unfolding signed
sub-signed n = ground arith

both : (x y u v : ℕ) → x ≡ u → y ≡ v → sub_ℕ x y ≡ sub_ℕ u v
both x y u v e f = cc (e, f)

mul-signed : (s t : Bool) (m n : ℕ) → signed s m *ℤ signed t n ≡ signed (differs s t) (m * n)
unfolding ◌*ℤ◌ differs
mul-signed true true m n =
    rw ((signed-parts m).0, (signed-parts m).1, (signed-parts n).0, (signed-parts n).1)
      (both (0 * 0 + m * n) (0 * n + m * 0) (m * n) 0 (omega arith) (omega arith)
        ∙ (sub-signed (m * n)).1)
mul-signed true false m n =
    rw ((signed-parts m).0, (signed-parts m).1, (signed-parts n).2, (signed-parts n).3)
      (both (0 * n + m * 0) (0 * 0 + m * n) 0 (m * n) (omega arith) (omega arith)
        ∙ (sub-signed (m * n)).0)
mul-signed false true m n =
    rw ((signed-parts m).2, (signed-parts m).3, (signed-parts n).0, (signed-parts n).1)
      (both (m * 0 + 0 * n) (m * n + 0 * 0) 0 (m * n) (omega arith) (omega arith)
        ∙ (sub-signed (m * n)).0)
mul-signed false false m n =
    rw ((signed-parts m).2, (signed-parts m).3, (signed-parts n).2, (signed-parts n).3)
      (both (m * n + 0 * 0) (m * 0 + 0 * n) (m * n) 0 (omega arith) (omega arith)
        ∙ (sub-signed (m * n)).1)

add-signed : (s : Bool) (m n : ℕ) → signed s m +ℤ signed s n ≡ signed s (m + n)
unfolding ◌+ℤ◌ signed
add-signed true m n = ground arith
add-signed false m n = ground arith

signed-id : (a : ℤ) → signed (is_negative a) (magnitude a) ≡ a
unfolding signed is_negative magnitude
signed-id (pos n) = ground arith
signed-id (negsuc n) = ground arith

differs-differs : (s t : Bool) → differs (differs s t) t ≡ s
unfolding differs
differs-differs true true = refl
differs-differs true false = refl
differs-differs false true = refl
differs-differs false false = refl

quo-signed :
    (a b : ℤ)
    → quo a b ≡ signed (differs (is_negative a) (is_negative b)) (magnitude a / magnitude b)
unfolding quo is_negative differs
quo-signed (pos n) b = refl
quo-signed (negsuc n) b = refl

-- The truncated quotient and remainder make up the dividend.
decomposed : (a b : ℤ) → a ≡ quo a b *ℤ b +ℤ rem a b
unfolding rem
decomposed a b =
    let s = is_negative a in
    let t = is_negative b in
    let m = magnitude a in
    let n = magnitude b in
    let product : quo a b *ℤ b ≡ signed s (m / n * n) =
      ap (λ (x : ℤ). x *ℤ b) (quo-signed a b)
      ∙ ap (λ (x : ℤ). signed (differs s t) (m / n) *ℤ x) (sym (signed-id b))
      ∙ mul-signed (differs s t) t (m / n) n
      ∙ ap (λ (u : Bool). signed u (m / n * n)) (differs-differs s t) in
    let total : m / n * n + m % n ≡ m = omega (arith, mod-add-div' m n) in
    sym (
      ap (λ (x : ℤ). x +ℤ signed s (m % n)) product
      ∙ add-signed s (m / n * n) (m % n)
      ∙ ap (signed s) total
      ∙ signed-id a)

*ℤ_parts :
    (a b : ℤ)
    → pos_part (a *ℤ b) + (pos_part a * neg_part b + neg_part a * pos_part b)
      ≡ neg_part (a *ℤ b) + (pos_part a * pos_part b + neg_part a * neg_part b)
unfolding ◌*ℤ◌
*ℤ_parts a b = ground arith

scaled : (p n x y k c : ℕ) → p + n ≡ x + y + k → p * c + n * c ≡ x * c + y * c + k * c
scaled p n x y k c e =
    omega (arith, add-mul p n c, ap (λ (z : ℕ). z * c) e, add-mul (x + y) k c, add-mul x y c)

quo_up : (x b : ℤ) → (x +ℤ pos 1) *ℤ b ≡ x *ℤ b +ℤ b
quo_up x b =
    let y = x +ℤ pos 1 in
    let moved : pos_part y + neg_part x ≡ neg_part y + pos_part x + 1 =
      omega (arith, +ℤ_parts x (pos 1)) in
    eq_of_parts (y *ℤ b) (x *ℤ b +ℤ b) (
      omega (
        arith,
        *ℤ_parts y b,
        *ℤ_parts x b,
        +ℤ_parts (x *ℤ b) b,
        scaled (pos_part y) (neg_part x) (neg_part y) (pos_part x) 1 (pos_part b) moved,
        scaled (pos_part y) (neg_part x) (neg_part y) (pos_part x) 1 (neg_part b) moved,
      ))

quo_down : (x b : ℤ) → (x -ℤ pos 1) *ℤ b ≡ x *ℤ b -ℤ b
quo_down x b =
    let y = x -ℤ pos 1 in
    let moved : neg_part y + pos_part x ≡ pos_part y + neg_part x + 1 =
      omega (arith, -ℤ_parts x (pos 1)) in
    eq_of_parts (y *ℤ b) (x *ℤ b -ℤ b) (
      omega (
        arith,
        *ℤ_parts y b,
        *ℤ_parts x b,
        -ℤ_parts (x *ℤ b) b,
        scaled (neg_part y) (pos_part x) (pos_part y) (neg_part x) 1 (pos_part b) moved,
        scaled (neg_part y) (pos_part x) (pos_part y) (neg_part x) 1 (neg_part b) moved,
      ))

-- Moving one divisor between the product and the remainder.
moved_up : (q b r : ℤ) → (q +ℤ b) +ℤ (r -ℤ b) ≡ q +ℤ r
moved_up q b r =
    eq_of_parts _ _
      (omega (arith, +ℤ_parts q b, -ℤ_parts r b, +ℤ_parts (q +ℤ b) (r -ℤ b), +ℤ_parts q r))

moved_down : (q b r : ℤ) → (q -ℤ b) +ℤ (r +ℤ b) ≡ q +ℤ r
moved_down q b r =
    eq_of_parts _ _
      (omega (arith, -ℤ_parts q b, +ℤ_parts r b, +ℤ_parts (q -ℤ b) (r +ℤ b), +ℤ_parts q r))

-- The Euclidean quotient and remainder make up the dividend.
pub div_mod : (a b : ℤ) → a ≡ div_e a b *ℤ b +ℤ mod_e a b
unfolding div_e mod_e
div_mod a b = ground (
  arith,
  decomposed a b,
  quo_up (quo a b) b,
  quo_down (quo a b) b,
  moved_up (quo a b *ℤ b) b (rem a b),
  moved_down (quo a b *ℤ b) b (rem a b),
)

-- The Euclidean remainder is not negative and below the divisor.
pub mod_bounds :
    (a b : ℤ)
    → 0 < magnitude b
    → (is_negative (mod_e a b) ≡ false) × (magnitude (mod_e a b) < magnitude b)
unfolding mod_e rem is_negative magnitude signed ◌+ℤ◌ ◌-ℤ◌
mod_bounds a b nonzero = ground (arith, mod-lt (magnitude a) nonzero)
