-- ===== src/Overflow.antt =====
-- math/overflow.go and math/errors.go: checked arithmetic on machine integers. A uint64 is a
-- number below 2 ^ 64; an int32, int64 or int is the integer that its bits stand for. The log
-- lines are not modelled.
pub mod Unsigned
pub mod Signed
mod Tests
use drt_go_chain_vm_v.Common.{
  ℕ, ◌+◌, ◌-◌, ◌*◌, ◌/◌, ◌%◌, ◌^◌, Bool, Option, none, some, ◌&&◌, ◌||◌, ltb, leb, ◌==◌, bool_eq,
  if◌then◌else◌,
}
use drt_go_chain_vm_v.Common.Int.{ℤ, pos, negsuc, ◌+ℤ◌, ◌-ℤ◌, ltb_ℤ}

pub data MathError : Type 0 where
  addition_overflow multiplication_overflow : MathError

abbrev pub u64_mod : ℕ
u64_mod = 2 ^ 64

abbrev pub max_uint64 : ℕ
max_uint64 = 2 ^ 64 - 1

abbrev pub max_int64 : ℤ
max_int64 = pos (2 ^ 63 - 1)

abbrev pub min_int64 : ℤ
min_int64 = negsuc (2 ^ 63 - 1)

abbrev pub max_int32 : ℤ
max_int32 = pos (2 ^ 31 - 1)

abbrev pub min_int32 : ℤ
min_int32 = negsuc (2 ^ 31 - 1)

-- The 64 bits of an integer, and the int64 that 64 bits stand for.
abbrev pub bits64 : ℤ → ℕ
bits64 (pos n) = n % 2 ^ 64
bits64 (negsuc n) = 2 ^ 64 - 1 - n % 2 ^ 64

abbrev pub from_bits64 : ℕ → ℤ
from_bits64 b = if ltb b (2 ^ 63) then pos b else negsuc (2 ^ 64 - 1 - b)

-- int64(x), the wrap-around of Go's arithmetic on int64 and int.
abbrev pub wrap_int64 : ℤ → ℤ
wrap_int64 z = from_bits64 (bits64 z)

abbrev pub bits32 : ℤ → ℕ
bits32 (pos n) = n % 2 ^ 32
bits32 (negsuc n) = 2 ^ 32 - 1 - n % 2 ^ 32

abbrev pub from_bits32 : ℕ → ℤ
from_bits32 b = if ltb b (2 ^ 31) then pos b else negsuc (2 ^ 32 - 1 - b)

abbrev pub wrap_int32 : ℤ → ℤ
wrap_int32 z = from_bits32 (bits32 z)

unfoldable pub add_uint64_with_err : ℕ → ℕ → ℕ × Option MathError
add_uint64_with_err a b =
    let s = (a + b) % 2 ^ 64 in
    if leb a s && leb b s then (s, none) else (s, some addition_overflow)

unfoldable pub add_uint64 : ℕ → ℕ → ℕ
unfolding add_uint64_with_err
add_uint64 a b =
    let (res, e) = add_uint64_with_err a b in elim e [ none ↦ res | some _ ↦ max_uint64 ]

unfoldable pub add_int64 : ℤ → ℤ → ℤ
add_int64 a b =
    let res = wrap_int64 (a +ℤ b) in
    if bool_eq (ltb_ℤ a res) (ltb_ℤ (pos 0) b) then res else max_int64

unfoldable pub sub_uint64 : ℕ → ℕ → ℕ × ℕ
sub_uint64 a b = if leb b a then (a - b, 0) else (0, b - a)

unfoldable pub mul_uint64_with_err : ℕ → ℕ → ℕ × Option MathError
mul_uint64_with_err a b =
    let res = a * b % 2 ^ 64 in
    if a == 0 || b == 0 || a == res / b then (res, none) else (0, some multiplication_overflow)

unfoldable pub mul_uint64 : ℕ → ℕ → ℕ
unfolding mul_uint64_with_err
mul_uint64 a b =
    let (res, e) = mul_uint64_with_err a b in elim e [ none ↦ res | some _ ↦ max_uint64 ]

unfoldable pub add_int32_with_error : ℤ → ℤ → ℤ × Option MathError
add_int32_with_error a b =
    let res = wrap_int32 (a +ℤ b) in
    if bool_eq (ltb_ℤ a res) (ltb_ℤ (pos 0) b) then (res, none) else (pos 0, some addition_overflow)

unfoldable pub add_int32 : ℤ → ℤ → ℤ
unfolding add_int32_with_error
add_int32 a b =
    let (res, e) = add_int32_with_error a b in elim e [ none ↦ res | some _ ↦ max_int32 ]

-- Go's int has 64 bits.
unfoldable pub sub_int : ℤ → ℤ → ℤ
sub_int a b =
    let res = wrap_int64 (a -ℤ b) in
    if bool_eq (ltb_ℤ res a) (ltb_ℤ (pos 0) b) then res else min_int64
