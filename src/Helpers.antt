-- ===== src/Helpers.antt =====
-- vmhost/helpers.go: the helpers on byte slices and the LEB128 encoding.
pub mod Encoding
pub mod Slices
mod Tests
use drt_go_chain_vm_v.Common.{
  Bool, Option, [], if◌then◌else◌, length, ltb, none, replicate, some, suc, zero, ℕ, ◌%◌, ◌++◌, ◌+◌,
  ◌/◌, ◌==◌, ◌^◌, ◌||◌, ◌∷◌,
}
use drt_go_chain_vm_v.Common.Bytes.{Bytes}
use drt_go_chain_vm_v.Common.Int.{leb_ℤ, ltb_ℤ, pos, pos_part, ℤ}
use drt_go_chain_vm_v.Overflow.{add_int32, bits32, sub_int}
use drt_go_chain_vm_v.Memory.{Outcome, slice, ok, fail, panic}

-- The two errors of GuardedGetBytesSlice, told apart by their text.
pub data SliceResult : Type 0 where
  bytes : Bytes → SliceResult
  slice_bad_bounds slice_negative_length slice_panic : SliceResult

of_slice : Outcome Bytes → SliceResult
of_slice (ok part) = bytes part
of_slice (fail e) = slice_panic
of_slice panic = slice_panic

unfoldable pub guarded_get_bytes_slice : Bytes → ℤ → ℤ → SliceResult
unfolding of_slice
guarded_get_bytes_slice content offset len =
    let data_length = length content % 2 ^ 32 in
    let is_offset_too_small = ltb_ℤ offset (pos 0) in
    let is_offset_too_large = ltb data_length (bits32 offset) in
    let requested_end = add_int32 offset len in
    let is_requested_end_too_large = ltb data_length (bits32 requested_end) in
    let is_length_negative = ltb_ℤ len (pos 0) in
    if is_offset_too_small || is_offset_too_large || is_requested_end_too_large
    then slice_bad_bounds
    else if is_length_negative
    then slice_negative_length
    else of_slice (slice content offset requested_end)

-- A nil slice is none.
unfoldable pub pad_bytes_left : Option Bytes → ℤ → Option Bytes
pad_bytes_left none size = none
pad_bytes_left (some content) size =
    let pad_size = sub_int size (pos (length content)) in
    if length content == 0
    then some []
    else if leb_ℤ pad_size (pos 0)
    then some content
    else some (replicate (pos_part pad_size) 0 ++ content)

-- The bytes written so far are the last ones of the result.
unfoldable pub inverse_onto : Bytes → Bytes → Bytes
inverse_onto [] written = written
inverse_onto (b ∷ rest) written = inverse_onto rest (b ∷ written)

unfoldable pub inverse_bytes : Bytes → Bytes
unfolding inverse_onto
inverse_bytes content = inverse_onto content []

-- The loop of the encoding, on fuel: none where the fuel does not suffice.
unfoldable pub leb128_loop : ℕ → ℕ → Option Bytes
leb128_loop zero n = none
leb128_loop (suc fuel) n =
    let b = n % 128 in
    let rest = leb128_loop fuel (n / 128) in
    if n / 128 == 0
    then some (b ∷ [])
    else elim rest [ none ↦ none | some out ↦ some ((b + 128) ∷ out) ]

-- A uint64 has ten groups of seven bits.
unfoldable pub u64_to_leb128 : ℕ → Option Bytes
unfolding leb128_loop
u64_to_leb128 n = leb128_loop 10 n

unfoldable pub boolean_to_int : Bool → ℕ
boolean_to_int b = if b then 1 else 0

-- The key type follows the associated key.
unfoldable pub custom_storage_key : Bytes → Bytes → Bytes
custom_storage_key key_type associated_key = associated_key ++ key_type
