-- ===== src/Overflow/Unsigned.antt =====
-- The unsigned routines of math/overflow.go against exact arithmetic.
use drt_go_chain_vm_v.Common.{
  ℕ, ◌+◌, ◌-◌, ◌*◌, ◌/◌, ◌%◌, ◌^◌, ◌≤◌, ◌<◌, ◌≡◌, ◌⊎◌, none, some, arith, ltb, if◌then◌else◌,
}
use drt_go_chain_vm_v.Overflow.{
  addition_overflow, multiplication_overflow, max_uint64, add_uint64_with_err, add_uint64,
  sub_uint64, mul_uint64_with_err, mul_uint64,
}

-- On uint64 arguments the routine gives the exact sum and no error where the sum fits 64 bits, and
-- otherwise the sum less 2 ^ 64 with the addition error.
pub add_uint64_with_err-exact :
    (a b : ℕ)
    → a < 2 ^ 64
    → b < 2 ^ 64
    → add_uint64_with_err a b
      ≡ (if ltb (a + b) (2 ^ 64) then (a + b, none) else (a + b - 2 ^ 64, some addition_overflow))
unfolding add_uint64_with_err
add_uint64_with_err-exact a b ha hb = ground arith

-- AddUint64 is addition that saturates at the largest uint64.
pub add_uint64-saturates :
    (a b : ℕ)
    → a < 2 ^ 64
    → b < 2 ^ 64
    → add_uint64 a b ≡ (if ltb (a + b) (2 ^ 64) then a + b else max_uint64)
unfolding add_uint64
add_uint64-saturates a b ha hb = ground arith

div-lt_of_lt_mul : (r a b : ℕ) → 0 < b → r < a * b → r / b < a
div-lt_of_lt_mul r a b hb h = grind arith

mul-div : (a b : ℕ) → 0 < b → a * b / b ≡ a
mul-div a b hb = grind arith

-- The division test finds a wrapped product: dividing it by `b` gives less than `a`.
wrapped_div : (a b : ℕ) → 0 < b → 2 ^ 64 ≤ a * b → a * b % 2 ^ 64 / b < a
wrapped_div a b hb h = div-lt_of_lt_mul (a * b % 2 ^ 64) a b hb (omega arith)

-- On uint64 arguments the routine gives the exact product and no error where the product fits 64
-- bits, and otherwise zero with the multiplication error.
pub mul_uint64_with_err-exact :
    (a b : ℕ)
    → a < 2 ^ 64
    → b < 2 ^ 64
    → mul_uint64_with_err a b
      ≡ (if ltb (a * b) (2 ^ 64) then (a * b, none) else (0, some multiplication_overflow))
unfolding mul_uint64_with_err
mul_uint64_with_err-exact a b ha hb = ground (arith, wrapped_div a b, mul-div a b)

-- MulUint64 is multiplication that saturates at the largest uint64.
pub mul_uint64-saturates :
    (a b : ℕ)
    → a < 2 ^ 64
    → b < 2 ^ 64
    → mul_uint64 a b ≡ (if ltb (a * b) (2 ^ 64) then a * b else max_uint64)
unfolding mul_uint64
mul_uint64-saturates a b ha hb = ground (arith, mul_uint64_with_err-exact a b ha hb)

-- SubUint64 splits the difference: the first result is what remains of `a`, the second what `b`
-- takes beyond it, one of them is zero, and the two account for both arguments.
pub sub_uint64_parts :
    (a b : ℕ)
    → let (rest, missing) = sub_uint64 a b in
      (rest + b ≡ a + missing) × ((rest ≡ 0) ⊎ (missing ≡ 0))
unfolding sub_uint64
sub_uint64_parts a b = ground arith

-- Saturating sums commute.
pub add_uint64_comm : (a b : ℕ) → a < 2 ^ 64 → b < 2 ^ 64 → add_uint64 a b ≡ add_uint64 b a
unfolding add_uint64
add_uint64_comm a b ha hb = ground arith

pub add_uint64-lt : (a b : ℕ) → add_uint64 a b < 2 ^ 64
unfolding add_uint64
add_uint64-lt a b = ground arith

pub mul_uint64-lt : (a b : ℕ) → mul_uint64 a b < 2 ^ 64
unfolding mul_uint64
mul_uint64-lt a b = ground arith

-- On uint64 arguments saturating sums regroup: a total does not depend on where the sums start.
pub add_uint64_assoc :
    (a b c : ℕ)
    → a < 2 ^ 64
    → b < 2 ^ 64
    → c < 2 ^ 64
    → add_uint64 (add_uint64 a b) c ≡ add_uint64 a (add_uint64 b c)
add_uint64_assoc a b c ha hb hc = ground (
  arith,
  add_uint64-lt a b,
  add_uint64-lt b c,
  add_uint64-saturates a b ha hb,
  add_uint64-saturates b c hb hc,
  add_uint64-saturates (add_uint64 a b) c,
  add_uint64-saturates a (add_uint64 b c),
)
