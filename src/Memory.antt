-- ===== src/Memory.antt =====
-- The access to the WASM memory of vmhost/contexts/runtime.go: MemLoad, MemLoadMultiple, MemStore.
-- A memory is the list of its bytes. Growing it by a page is the WASM engine's, a parameter.
pub mod Load
pub mod Store
mod Tests
use drt_go_chain_vm_v.BigInt.Handles.{view}
use drt_go_chain_vm_v.Common.{
  Bool, List, [], drop, false, if◌then◌else◌, length, ltb, replicate, take, true, ◌++◌, ◌-◌, ◌||◌,
  ◌∷◌,
}
use drt_go_chain_vm_v.Common.Bytes.{Bytes}
use drt_go_chain_vm_v.Common.Int.{eq_ℤ, ltb_ℤ, pos, pos_part, ℤ, ◌+ℤ◌}
use drt_go_chain_vm_v.Host.Error.{
  VmError, bad_bounds, bad_lower_bounds, bad_upper_bounds, negative_length,
}
use drt_go_chain_vm_v.Overflow.{add_int32, bits32, wrap_int32}

-- What a Go function returns here, with the panic of a slice out of range as a value.
pub data Outcome (A : Type 0) : Type 0 where
  ok : A → Outcome A
  fail : VmError → Outcome A
  panic : Outcome A

-- view[lo:hi]
unfoldable pub slice : Bytes → ℤ → ℤ → Outcome Bytes
slice view lo hi =
    if ltb_ℤ lo (pos 0) || ltb_ℤ hi lo || ltb_ℤ (pos (length view)) hi
    then panic
    else ok (take (pos_part hi - pos_part lo) (drop (pos_part lo) view))

-- copy(dst, src), as the new content of dst.
unfoldable pub copy : Bytes → Bytes → Bytes
copy dst src = take (length dst) src ++ drop (length src) dst

copy_into : Bytes → Outcome Bytes → Outcome Bytes
copy_into dst (ok src) = ok (copy dst src)
copy_into dst (fail e) = fail e
copy_into dst panic = panic

unfoldable pub mem_load : Bytes → ℤ → ℤ → Outcome Bytes
unfolding copy_into
mem_load memory offset len =
    let memory_length = length memory in
    let requested_end = add_int32 offset len in
    let is_offset_too_small = ltb_ℤ offset (pos 0) in
    let is_offset_too_large = ltb memory_length (bits32 offset) in
    let is_requested_end_too_large = ltb memory_length (bits32 requested_end) in
    let result = replicate (pos_part len) 0 in
    if eq_ℤ len (pos 0)
    then ok []
    else if is_offset_too_small || is_offset_too_large
    then fail bad_bounds
    else if ltb_ℤ len (pos 0)
    then fail negative_length
    else if is_requested_end_too_large
    then copy_into result (slice memory offset (pos memory_length))
    else copy_into result (slice memory offset requested_end)

cons_outcome : Outcome Bytes → Outcome (List Bytes) → Outcome (List Bytes)
cons_outcome (ok x) (ok xs) = ok (x ∷ xs)
cons_outcome (ok x) (fail e) = fail e
cons_outcome (ok x) panic = panic
cons_outcome (fail e) _ = fail e
cons_outcome panic _ = panic

-- The offset is an int32, whose sum with a length wraps.
unfoldable pub mem_load_multiple : Bytes → ℤ → List ℤ → Outcome (List Bytes)
unfolding cons_outcome
mem_load_multiple memory offset [] = ok []
mem_load_multiple memory offset (len ∷ lengths) =
    cons_outcome (mem_load memory offset len)
      (mem_load_multiple memory (wrap_int32 (offset +ℤ len)) lengths)

-- copy(view[lo:hi], src): the new memory.
unfoldable pub overwrite : Bytes → ℤ → ℤ → Bytes → Outcome Bytes
overwrite view lo hi src = elim (slice view lo hi) [
  | ok part ↦ ok (take (pos_part lo) view ++ (copy part src ++ drop (pos_part hi) view))
  | fail e ↦ fail e
  | panic ↦ panic
]

-- The end of MemStore, with the memory that it found or grew.
store_into : ℤ → ℤ → Bytes → Outcome Bytes → Outcome Bytes
store_into offset requested_end content (ok view) =
    if ltb (length view) (bits32 requested_end)
    then fail bad_upper_bounds
    else overwrite view offset requested_end content
store_into offset requested_end content (fail e) = fail e
store_into offset requested_end content panic = panic

-- `grow` is memory.Grow(1): the larger memory, or its error.
module _ (grow : Bytes → Outcome Bytes) where
  grown : Bool → Bytes → Outcome Bytes
  grown true memory = grow memory
  grown false memory = ok memory

  -- The result is the memory after the store.
  unfoldable pub mem_store : Bytes → ℤ → Bytes → Outcome Bytes
  unfolding grown store_into
  mem_store memory offset content =
      let data_length = wrap_int32 (pos (length content)) in
      let requested_end = add_int32 offset data_length in
      let is_offset_too_small = ltb_ℤ offset (pos 0) in
      let is_new_page_necessary = ltb (length memory) (bits32 requested_end) in
      if eq_ℤ data_length (pos 0)
      then ok memory
      else if is_offset_too_small
      then fail bad_lower_bounds
      else store_into offset requested_end content (grown is_new_page_necessary memory)
