-- ===== src/Overflow/Tests.antt =====
-- Tests of math/overflow.go.
use drt_go_chain_vm_v.Common.{arith, if◌then◌else◌, ltb, none, some, ◌+◌, ◌-◌, ◌≡◌}
use drt_go_chain_vm_v.Common.Int.{negsuc, ◌+ℤ◌}
use drt_go_chain_vm_v.Overflow.{add_int64, add_uint64_with_err, addition_overflow, max_int64}
use drt_go_chain_vm_v.Overflow.Unsigned.{add_uint64_with_err-exact}
use drt_go_chain_vm_v.Overflow.Signed.{add_int64-exact}
use Prim.Native.Nat.{◌^◌}

add_uint64_with_err-exact_example : add_uint64_with_err (2 ^ 64 - 1) 5 ≡ (
    if ltb (2 ^ 64 - 1 + 5) (2 ^ 64)
    then (2 ^ 64 - 1 + 5, none)
    else (2 ^ 64 - 1 + 5 - 2 ^ 64, some addition_overflow))
add_uint64_with_err-exact_example =
    add_uint64_with_err-exact (2 ^ 64 - 1) 5 (omega arith) (omega arith)

add_int64-exact_example : add_int64 (negsuc (2 ^ 63 - 1)) (negsuc 0) ≡ max_int64
unfolding ◌+ℤ◌
add_int64-exact_example =
    add_int64-exact (negsuc (2 ^ 63 - 1)) (negsuc 0) (omega arith) (omega arith) (omega arith)
      (omega arith)
