-- ===== src/Helpers/Slices.antt =====
-- The byte slices of vmhost/helpers.go.
use drt_go_chain_vm_v.Common.{Bool-cases, inl, inr, length-append, length-replicate, ◌∙◌}
use drt_go_chain_vm_v.Helpers.{inverse_bytes}
use mathlib.Core.List.{append-nil}
use drt_go_chain_vm_v.Common.{
  [], arith, drop, if◌then◌else◌, length, ltb, refl, replicate, some, suc, take, zero, ℕ, ◌*◌, ◌++◌,
  ◌+◌, ◌-◌, ◌<◌, ◌^◌, ◌||◌, ◌∷◌, ◌≡◌, ◌≤◌,
}
use drt_go_chain_vm_v.Common.Bytes.{Bytes}
use drt_go_chain_vm_v.Common.Int.{ltb_ℤ, negsuc, pos, pos_part, ℤ, ◌+ℤ◌, ◌-ℤ◌, ◌≤ℤ◌}
use drt_go_chain_vm_v.Helpers.{
  bytes, guarded_get_bytes_slice, inverse_onto, of_slice, pad_bytes_left, slice_bad_bounds,
  slice_negative_length,
}
use drt_go_chain_vm_v.Memory.{slice}
use drt_go_chain_vm_v.Overflow.{max_int32, min_int32}
use drt_go_chain_vm_v.Memory.Load.{slice_within}
use drt_go_chain_vm_v.Overflow.Signed.{add_int32-exact, sub_int-exact}

slice_of :
    (content : Bytes) (o n : ℕ)
    → o + n ≤ length content
    → of_slice (slice content (pos o) (pos (o + n))) ≡ bytes (take n (drop o content))
unfolding of_slice
slice_of content o n h =
    let width : o + n - o ≡ n = omega arith in
    rw (slice_within content o (o + n) (omega arith) h, width) refl

-- For a slice below 2 ^ 31 - 1 bytes and int32 arguments, GuardedGetBytesSlice never panics. It
-- refuses an offset or an end that is negative or past the data, then a negative length, and
-- otherwise returns the `len` bytes from the offset on.
pub guarded_get_bytes_slice-exact :
    (content : Bytes) (offset len : ℤ)
    → length content < 2 ^ 31 - 1
    → min_int32 ≤ℤ offset
    → offset ≤ℤ max_int32
    → min_int32 ≤ℤ len
    → len ≤ℤ max_int32
    → guarded_get_bytes_slice content offset len ≡ (
        let end = offset +ℤ len in
        let size = pos (length content) in
        if ltb_ℤ offset (pos 0) || ltb_ℤ size offset || ltb_ℤ end (pos 0) || ltb_ℤ size end
        then slice_bad_bounds
        else if ltb_ℤ len (pos 0)
        then slice_negative_length
        else bytes (take (pos_part len) (drop (pos_part offset) content)))
unfolding guarded_get_bytes_slice ◌+ℤ◌
guarded_get_bytes_slice-exact content (pos o) (pos n) small lo ho ln hn =
    ground (arith, slice_of content o n, add_int32-exact (pos o) (pos n) lo ho ln hn)
guarded_get_bytes_slice-exact content (pos o) (negsuc n) small lo ho ln hn =
    ground (arith, add_int32-exact (pos o) (negsuc n) lo ho ln hn)
guarded_get_bytes_slice-exact content (negsuc o) (pos n) small lo ho ln hn = ground arith
guarded_get_bytes_slice-exact content (negsuc o) (negsuc n) small lo ho ln hn = ground arith

-- The number that bytes stand for, the first byte the most significant one.
unfoldable pub big_endian : Bytes → ℕ → ℕ
big_endian [] high = high
big_endian (b ∷ rest) high = big_endian rest (high * 256 + b)

big_endian-zeros : (n : ℕ) (xs : Bytes) → big_endian (replicate n 0 ++ xs) 0 ≡ big_endian xs 0
unfolding big_endian
big_endian-zeros zero xs = refl
big_endian-zeros (suc n) xs = big_endian-zeros n xs

-- Padding bytes that are not empty, of a length and to a size that fit an int, gives the larger of
-- the two lengths and bytes that stand for the same number.
pub pad_bytes_left-pads :
    (content : Bytes) (size : ℕ)
    → 0 < length content
    → length content < 2 ^ 63
    → size < 2 ^ 63
    → (out : Bytes) × (pad_bytes_left (some content) (pos size) ≡ some out)
      × (length out ≡ (if ltb size (length content) then length content else size))
      × (big_endian out 0 ≡ big_endian content 0)
unfolding pad_bytes_left ◌-ℤ◌
pad_bytes_left-pads content size some_bytes fits small =
    let n = length content in
    let difference =
      sub_int-exact (pos size) (pos n) (omega arith) (omega arith) (omega arith) (omega arith) in
    elim (Bool-cases (ltb n size)) [
      | inl longer ↦ (
        replicate (size - n) 0 ++ content,
        ground (arith, difference),
        ground (
          arith,
          length-append (replicate (size - n) 0) content,
          length-replicate {A = ℕ} (size - n) 0,
        ),
        big_endian-zeros (size - n) content,
      )
      | inr covered ↦ (content, ground (arith, difference), ground arith, refl)
    ]

inverse_onto-twice :
    (xs ys zs : Bytes) → inverse_onto (inverse_onto xs ys) zs ≡ inverse_onto ys (xs ++ zs)
unfolding inverse_onto
inverse_onto-twice [] ys zs = refl
inverse_onto-twice (x ∷ xs) ys zs = inverse_onto-twice xs (x ∷ ys) zs

-- Inverting bytes twice gives them back.
pub inverse_bytes_involutive : (xs : Bytes) → inverse_bytes (inverse_bytes xs) ≡ xs
unfolding inverse_bytes inverse_onto
inverse_bytes_involutive xs = inverse_onto-twice xs [] [] ∙ append-nil xs
