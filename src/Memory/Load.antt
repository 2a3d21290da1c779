-- ===== src/Memory/Load.antt =====
-- MemLoad of vmhost/contexts/runtime.go against a plain description of the bytes that it returns.
use drt_go_chain_vm_v.BigInt.Handles.{view}
use drt_go_chain_vm_v.Common.{[], if◌then◌else◌, length-drop, ◌<◌, ◌^◌, ◌||◌}
use drt_go_chain_vm_v.Common.Int.{eq_ℤ, ltb_ℤ, negsuc, pos_part, ℤ, ◌+ℤ◌, ◌≤ℤ◌}
use drt_go_chain_vm_v.Host.Error.{bad_bounds, negative_length}
use drt_go_chain_vm_v.Memory.{fail, mem_load}
use drt_go_chain_vm_v.Overflow.{max_int32, min_int32}
use drt_go_chain_vm_v.Overflow.Signed.{add_int32-exact}
use drt_go_chain_vm_v.Common.{
  arith, drop, drop-replicate, length, length-replicate, length-take, replicate, take, take_all, ℕ,
  ◌++◌, ◌+◌, ◌-◌, ◌≡◌, ◌≤◌,
}
use drt_go_chain_vm_v.Common.Bytes.{Bytes}
use drt_go_chain_vm_v.Common.Int.{pos}
use drt_go_chain_vm_v.Memory.{copy, copy_into, ok, slice}

-- The first `n` bytes of a list, filled up with zeros where there are fewer.
unfoldable pub padded : ℕ → Bytes → Bytes
padded n xs = take n xs ++ replicate (n - length xs) 0

abbrev pub nul : ℕ
nul = 0

copy-replicate : (n : ℕ) (xs : Bytes) → copy (replicate n nul) xs ≡ padded n xs
unfolding copy padded
copy-replicate n xs = rw (length-replicate n nul, drop-replicate (length xs) n nul)

padded-take : (n : ℕ) (xs : Bytes) → padded n (take n xs) ≡ padded n xs
unfolding padded
padded-take n xs =
    let short : length (take n xs) ≤ n = omega (arith, length-take n xs) in
    let fill : n - length (take n xs) ≡ n - length xs = omega (arith, length-take n xs) in
    rw (fill, take_all n (take n xs) short)

pub slice_within :
    (view : Bytes) (lo hi : ℕ)
    → lo ≤ hi
    → hi ≤ length view
    → slice view (pos lo) (pos hi) ≡ ok (take (hi - lo) (drop lo view))
unfolding slice
slice_within view lo hi a b = ground arith

-- The slice that MemLoad copies where the request ends within the memory, and where it does not.
load_within :
    (memory : Bytes) (o n : ℕ)
    → o + n ≤ length memory
    → copy_into (replicate n nul) (slice memory (pos o) (pos (o + n)))
      ≡ ok (padded n (drop o memory))
unfolding copy_into
load_within memory o n h =
    let width : o + n - o ≡ n = omega arith in
    rw (slice_within memory o (o + n) (omega arith) h, width, copy-replicate, padded-take)

load_past :
    (memory : Bytes) (o n : ℕ)
    → o ≤ length memory
    → copy_into (replicate n nul) (slice memory (pos o) (pos (length memory)))
      ≡ ok (padded n (drop o memory))
unfolding copy_into
load_past memory o n h =
    let all : length (drop o memory) ≤ length memory - o = omega (arith, length-drop o memory) in
    rw (
      slice_within memory o (length memory) h (omega arith),
      take_all (length memory - o) (drop o memory) all,
      copy-replicate,
    )

-- For a memory below 2 ^ 31 - 1 bytes and int32 arguments, MemLoad never panics. A zero length gives
-- no bytes. An offset that is negative or past the memory is ErrBadBounds, and else a negative length
-- ErrNegativeLength. In every other case it returns the first `len` bytes from the offset on, filled
-- up with zeros past the end of the memory.
pub mem_load-exact :
    (memory : Bytes) (offset len : ℤ)
    → length memory < 2 ^ 31 - 1
    → min_int32 ≤ℤ offset
    → offset ≤ℤ max_int32
    → min_int32 ≤ℤ len
    → len ≤ℤ max_int32
    → mem_load memory offset len ≡ (
        if eq_ℤ len (pos 0)
        then ok []
        else if ltb_ℤ offset (pos 0) || ltb_ℤ (pos (length memory)) offset
        then fail bad_bounds
        else if ltb_ℤ len (pos 0)
        then fail negative_length
        else ok (padded (pos_part len) (drop (pos_part offset) memory)))
unfolding mem_load ◌+ℤ◌
mem_load-exact memory (pos o) (pos n) small lo ho ln hn = ground (
  arith,
  load_within memory o n,
  load_past memory o n,
  add_int32-exact (pos o) (pos n) lo ho ln hn,
)
mem_load-exact memory (pos o) (negsuc n) small lo ho ln hn = ground arith
mem_load-exact memory (negsuc o) (pos n) small lo ho ln hn = ground arith
mem_load-exact memory (negsuc o) (negsuc n) small lo ho ln hn = ground arith
