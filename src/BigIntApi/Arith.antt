-- ===== src/BigIntApi/Arith.antt =====
-- The operations of math/big that vmhost/vmhooks/bigIntOps.go uses, on integers.
use drt_go_chain_vm_v.Common.{
  Bool, false, if◌then◌else◌, not, suc, true, zero, ℕ, ◌%◌, ◌*◌, ◌+◌, ◌/◌, ◌==◌,
}
use drt_go_chain_vm_v.Common.Int.{ltb_ℤ, neg_part, negsuc, pos, pos_part, sub_ℕ, ℤ, ◌+ℤ◌, ◌-ℤ◌}

unfoldable pub magnitude : ℤ → ℕ
magnitude a = pos_part a + neg_part a

unfoldable pub is_negative : ℤ → Bool
is_negative (pos n) = false
is_negative (negsuc n) = true

-- The integer of a magnitude and a sign.
unfoldable pub signed : Bool → ℕ → ℤ
signed true n = sub_ℕ 0 n
signed false n = pos n

infixl 70 ◌*ℤ◌
unfoldable pub ◌*ℤ◌ : ℤ → ℤ → ℤ
a *ℤ b =
    sub_ℕ (pos_part a * pos_part b + neg_part a * neg_part b)
      (pos_part a * neg_part b + neg_part a * pos_part b)

-- Quo and Rem: division that truncates towards zero.
unfoldable pub quo : ℤ → ℤ → ℤ
unfolding magnitude is_negative signed
quo a b =
    let q = magnitude a / magnitude b in
    if is_negative a then signed (not (is_negative b)) q else signed (is_negative b) q

unfoldable pub rem : ℤ → ℤ → ℤ
unfolding magnitude is_negative signed
rem a b = signed (is_negative a) (magnitude a % magnitude b)

-- Div and Mod: Euclidean division, whose remainder is not negative.
unfoldable pub div_e : ℤ → ℤ → ℤ
unfolding quo rem is_negative
div_e a b =
    if is_negative (rem a b)
    then (if is_negative b then quo a b +ℤ pos 1 else quo a b -ℤ pos 1)
    else quo a b

unfoldable pub mod_e : ℤ → ℤ → ℤ
unfolding rem is_negative
mod_e a b =
    if is_negative (rem a b)
    then (if is_negative b then rem a b -ℤ b else rem a b +ℤ b)
    else rem a b

-- Sign and Cmp
unfoldable pub sign : ℤ → ℤ
sign (pos zero) = pos 0
sign (pos (suc n)) = pos 1
sign (negsuc n) = negsuc 0

unfoldable pub cmp : ℤ → ℤ → ℤ
cmp a b = if ltb_ℤ a b then negsuc 0 else if ltb_ℤ b a then pos 1 else pos 0

-- Not
unfoldable pub not_z : ℤ → ℤ
not_z a = pos 0 -ℤ a -ℤ pos 1

bit_count : ℕ → ℕ → ℕ
bit_count zero n = 0
bit_count (suc fuel) n = let rest = bit_count fuel (n / 2) in if n == 0 then 0 else suc rest

-- BitLen, the number of binary digits of the magnitude, which is at most the magnitude.
unfoldable pub bit_len : ℤ → ℕ
unfolding bit_count magnitude
bit_len a = bit_count (magnitude a) (magnitude a)
