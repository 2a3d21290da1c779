-- ===== src/Memory/Store.antt =====
-- MemStore of vmhost/contexts/runtime.go: what it writes is what MemLoad reads.
use drt_go_chain_vm_v.Memory.{store_into}
use drt_go_chain_vm_v.Common.Int.{eq_ℤ, ltb_ℤ}
use drt_go_chain_vm_v.Common.Int.{◌+ℤ◌}
use drt_go_chain_vm_v.Common.{sym, ◌∙◌, ◌∷◌}
use drt_go_chain_vm_v.Overflow.{add_int32, bits32, wrap_int32}
use drt_go_chain_vm_v.Overflow.Signed.{add_int32-exact}
use drt_go_chain_vm_v.Common.{Bool-cases, inl, inr}
use drt_go_chain_vm_v.Memory.{grown, mem_store}
use drt_go_chain_vm_v.Common.{Bool, false, true}
use drt_go_chain_vm_v.Common.{if◌then◌else◌, ltb}
use drt_go_chain_vm_v.Host.Error.{bad_upper_bounds}
use drt_go_chain_vm_v.Memory.{Outcome, fail, panic}
use drt_go_chain_vm_v.BigInt.Handles.{view}
use drt_go_chain_vm_v.Common.{
  [], arith, drop, drop-append_self, drop_all, length, length-append, length-drop, length-take,
  refl, take, take-append_self, take_all, ℕ, ◌++◌, ◌+◌, ◌-◌, ◌<◌, ◌^◌, ◌≡◌, ◌≤◌,
}
use drt_go_chain_vm_v.Common.Bytes.{Bytes}
use drt_go_chain_vm_v.Common.Int.{pos}
use drt_go_chain_vm_v.Memory.{copy, mem_load, ok, overwrite}
use drt_go_chain_vm_v.Memory.Load.{mem_load-exact, padded, slice_within}
use mathlib.Core.List.{append-nil}

-- The memory after a store of the content at an offset.
abbrev pub spliced : ℕ → Bytes → Bytes → Bytes
spliced o content view = take o view ++ (content ++ drop (o + length content) view)

-- The copy into a slice as long as the content is the content.
copy_full : (part content : Bytes) → length part ≡ length content → copy part content ≡ content
unfolding copy
copy_full part content e =
    rw (take_all (length part) content (omega arith), drop_all (length content) part (omega arith))
      (append-nil content)

overwrite_within :
    (old content : Bytes) (o : ℕ)
    → o + length content ≤ length old
    → overwrite old (pos o) (pos (o + length content)) content ≡ ok (spliced o content old)
unfolding overwrite
overwrite_within old content o h =
    let n = length content in
    let part_length : length (take (o + n - o) (drop o old)) ≡ n =
      omega (arith, length-take (o + n - o) (drop o old), length-drop o old) in
    rw (slice_within old o (o + n) (omega arith) h, overwrite)
      (rw (copy_full (take (o + n - o) (drop o old)) content part_length))

padded-spliced :
    (o : ℕ) (content view : Bytes)
    → o ≤ length view
    → padded (length content) (drop o (spliced o content view)) ≡ content
unfolding padded
padded-spliced o content view h =
    let n = length content in
    let rest = drop (o + n) view in
    let at_offset : length (take o view) ≡ o = omega (arith, length-take o view) in
    let full : n - length (content ++ rest) ≡ 0 = omega (arith, length-append content rest) in
    rw
      (
        drop-append_self o (take o view) (content ++ rest) at_offset,
        take-append_self n content rest refl,
        full,
      )
      (append-nil content)

length-spliced :
    (o : ℕ) (content view : Bytes)
    → o + length content ≤ length view
    → length (spliced o content view) ≡ length view
length-spliced o content view h = omega (
  arith,
  length-append (take o view) (content ++ drop (o + length content) view),
  length-append content (drop (o + length content) view),
  length-take o view,
  length-drop (o + length content) view,
)

load_spliced :
    (o : ℕ) (content view : Bytes)
    → o + length content ≤ length view
    → length view < 2 ^ 31 - 1
    → mem_load (spliced o content view) (pos o) (pos (length content)) ≡ ok content
load_spliced o content view h small =
    let size = length-spliced o content view h in
    ground (
      arith,
      mem_load-exact (spliced o content view) (pos o) (pos (length content)) (omega (arith, size))
          (omega arith) (omega arith) (omega arith) (omega arith),
      padded-spliced o content view (omega arith),
      size,
    )

store_reads :
    (o : ℕ) (content old m : Bytes)
    → length old < 2 ^ 31 - 1
    → o + length content < 2 ^ 31
    → (if ltb (length old) (bits32 (pos (o + length content)))
        then fail bad_upper_bounds
        else overwrite old (pos o) (pos (o + length content)) content)
      ≡ ok m
    → mem_load m (pos o) (pos (length content)) ≡ ok content
store_reads o content old m small fits e =
    elim (Bool-cases (ltb (length old) (bits32 (pos (o + length content))))) [
      | inl t ↦ cc
      | inr f ↦
          (let h : o + length content ≤ length old = ground (arith, f) in
            let same = overwrite_within old content o h in
            let r = load_spliced o content old h small in cc)
    ]

-- What a store does with the memory that it finds or grows.
store_target :
    (o : ℕ) (content m : Bytes) (target : Outcome Bytes)
    → o + length content < 2 ^ 31
    → ((old : Bytes) → target ≡ ok old → length old < 2 ^ 31 - 1)
    → store_into (pos o) (pos (o + length content)) content target ≡ ok m
    → mem_load m (pos o) (pos (length content)) ≡ ok content
unfolding store_into
store_target o content m (fail x) fits small e = cc
store_target o content m panic fits small e = cc
store_target o content m (ok old) fits small e = store_reads o content old m (small old refl) fits e

small_of_ok :
    (memory old : Bytes)
    → length memory < 2 ^ 31 - 1
    → ◌≡◌ {A = Outcome Bytes} (ok memory) (ok old)
    → length old < 2 ^ 31 - 1
small_of_ok memory old small e = grind arith

grown_small :
    (grow : Bytes → Outcome Bytes) (memory : Bytes) (more : Bool)
    → length memory < 2 ^ 31 - 1
    → ((old : Bytes) → grow memory ≡ ok old → length old < 2 ^ 31 - 1)
    → (old : Bytes) → grown grow more memory ≡ ok old
    → length old < 2 ^ 31 - 1
unfolding grown
grown_small grow memory true small grows old e = grows old e
grown_small grow memory false small grows old e = small_of_ok memory old small e

end_within : (o n : ℕ) → o + n < 2 ^ 31 → add_int32 (pos o) (pos n) ≡ pos (o + n)
unfolding ◌+ℤ◌
end_within o n fits =
    ground (
      arith,
      add_int32-exact (pos o) (pos n) (omega arith) (omega arith) (omega arith) (omega arith),
    )

-- MemStore of some bytes at an offset whose end fits an int32.
mem_store_some :
    (grow : Bytes → Outcome Bytes) (memory rest : Bytes) (o x : ℕ)
    → o + length (x ∷ rest) < 2 ^ 31
    → mem_store grow memory (pos o) (x ∷ rest)
      ≡ store_into
          (pos o)
          (pos (o + length (x ∷ rest)))
          (x ∷ rest)
          (grown grow (ltb (length memory) (o + length (x ∷ rest))) memory)
unfolding mem_store
mem_store_some grow memory rest o x fits =
    let n = length (x ∷ rest) in
    let width : wrap_int32 (pos n) ≡ pos n = ground arith in
    let end = end_within o n fits in
    let bits : bits32 (pos (o + n)) ≡ o + n = ground arith in
    let some_bytes : eq_ℤ (pos n) (pos 0) ≡ false = ground arith in
    let not_negative : ltb_ℤ (pos o) (pos 0) ≡ false = ground arith in
    rw (width, end, bits, some_bytes, not_negative) refl

-- Where memories stay below 2 ^ 31 - 1 bytes, the bytes that a successful MemStore wrote at an int32
-- offset, with an end that fits an int32, are the bytes that MemLoad reads at that offset, whether
-- the store grew the memory or not.
pub mem_load-mem_store :
    (grow : Bytes → Outcome Bytes) (memory content m : Bytes) (o : ℕ)
    → length memory < 2 ^ 31 - 1
    → ((old : Bytes) → grow memory ≡ ok old → length old < 2 ^ 31 - 1)
    → o + length content < 2 ^ 31
    → mem_store grow memory (pos o) content ≡ ok m
    → mem_load m (pos o) (pos (length content)) ≡ ok content
unfolding mem_store
mem_load-mem_store grow memory [] m o small grows fits e =
    grind (arith, mem_load-exact m (pos o) (pos 0))
mem_load-mem_store grow memory (x ∷ rest) m o small grows fits e =
    store_target o (x ∷ rest) m (grown grow (ltb (length memory) (o + length (x ∷ rest))) memory)
      fits (grown_small grow memory _ small grows)
      (sym (mem_store_some grow memory rest o x fits) ∙ e)
