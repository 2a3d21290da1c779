-- ===== src/Overflow/Signed.antt =====
-- The signed routines of math/overflow.go against exact arithmetic on integers.
use drt_go_chain_vm_v.Common.{◌≡◌, ◌&&◌, none, some, arith, if◌then◌else◌}
use drt_go_chain_vm_v.Common.Int.{ℤ, pos, ◌+ℤ◌, ◌-ℤ◌, ◌≤ℤ◌, leb_ℤ}
use drt_go_chain_vm_v.Overflow.{
  addition_overflow, max_int64, min_int64, max_int32, min_int32, add_int64, add_int32_with_error,
  add_int32, sub_int,
}

-- AddInt64 gives the exact sum where it is an int64, and the largest int64 where it is not,
-- whatever the sign of the overflow.
pub add_int64-exact :
    (a b : ℤ)
    → min_int64 ≤ℤ a
    → a ≤ℤ max_int64
    → min_int64 ≤ℤ b
    → b ≤ℤ max_int64
    → add_int64 a b
      ≡ (if leb_ℤ min_int64 (a +ℤ b) && leb_ℤ (a +ℤ b) max_int64 then a +ℤ b else max_int64)
unfolding add_int64 ◌+ℤ◌
add_int64-exact a b la ha lb hb = ground arith

-- AddInt32WithError gives the exact sum and no error where the sum is an int32, and otherwise zero
-- with the addition error.
pub add_int32_with_error-exact :
    (a b : ℤ)
    → min_int32 ≤ℤ a
    → a ≤ℤ max_int32
    → min_int32 ≤ℤ b
    → b ≤ℤ max_int32
    → add_int32_with_error a b ≡ (
        if leb_ℤ min_int32 (a +ℤ b) && leb_ℤ (a +ℤ b) max_int32
        then (a +ℤ b, none)
        else (pos 0, some addition_overflow))
unfolding add_int32_with_error ◌+ℤ◌
add_int32_with_error-exact a b la ha lb hb = ground arith

-- AddInt32 gives the exact sum where it is an int32, and the largest int32 where it is not.
pub add_int32-exact :
    (a b : ℤ)
    → min_int32 ≤ℤ a
    → a ≤ℤ max_int32
    → min_int32 ≤ℤ b
    → b ≤ℤ max_int32
    → add_int32 a b
      ≡ (if leb_ℤ min_int32 (a +ℤ b) && leb_ℤ (a +ℤ b) max_int32 then a +ℤ b else max_int32)
unfolding add_int32 ◌+ℤ◌
add_int32-exact a b la ha lb hb = ground arith

-- SubInt gives the exact difference where it is an int, and the smallest int where it is not,
-- whatever the sign of the overflow.
pub sub_int-exact :
    (a b : ℤ)
    → min_int64 ≤ℤ a
    → a ≤ℤ max_int64
    → min_int64 ≤ℤ b
    → b ≤ℤ max_int64
    → sub_int a b
      ≡ (if leb_ℤ min_int64 (a -ℤ b) && leb_ℤ (a -ℤ b) max_int64 then a -ℤ b else min_int64)
unfolding sub_int ◌-ℤ◌
sub_int-exact a b la ha lb hb = ground arith
