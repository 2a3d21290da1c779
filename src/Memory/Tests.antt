-- ===== src/Memory/Tests.antt =====
-- Tests of the memory access of runtime.go.
use drt_go_chain_vm_v.Common.Int.{◌+ℤ◌}
use drt_go_chain_vm_v.Memory.{copy, overwrite, slice}
use drt_go_chain_vm_v.Overflow.{add_int32}
use drt_go_chain_vm_v.BigInt.Handles.{view}
use drt_go_chain_vm_v.Common.{[], arith, length, refl, ◌-◌, ◌<◌, ◌^◌, ◌∷◌, ◌≡◌}
use drt_go_chain_vm_v.Common.Bytes.{Bytes}
use drt_go_chain_vm_v.Common.Int.{pos}
use drt_go_chain_vm_v.Memory.{Outcome, mem_load, mem_store, ok}
use drt_go_chain_vm_v.Memory.Load.{mem_load-exact, padded}
use drt_go_chain_vm_v.Memory.Store.{mem_load-mem_store}

abbrev memory : Bytes
memory = 1 ∷ 2 ∷ 3 ∷ []

abbrev grow : Bytes → Outcome Bytes
grow view = ok (1 ∷ 2 ∷ 3 ∷ 0 ∷ 0 ∷ 0 ∷ [])

abbrev stored_memory : Bytes
stored_memory = 1 ∷ 2 ∷ 8 ∷ 9 ∷ 0 ∷ 0 ∷ []

mem_load-exact_example : mem_load memory (pos 1) (pos 4) ≡ ok (padded 4 (2 ∷ 3 ∷ []))
mem_load-exact_example =
    mem_load-exact memory (pos 1) (pos 4) (omega arith) (omega arith) (omega arith) (omega arith)
      (omega arith)

grows : (old : Bytes) → grow memory ≡ ok old → length old < 2 ^ 31 - 1
grows old e = grind arith

stores : mem_store grow memory (pos 2) (8 ∷ 9 ∷ []) ≡ ok stored_memory
unfolding mem_store drt_go_chain_vm_v.Overflow.add_int32 drt_go_chain_vm_v.Common.Int.◌+ℤ◌
    drt_go_chain_vm_v.Memory.overwrite drt_go_chain_vm_v.Memory.slice drt_go_chain_vm_v.Memory.copy
stores = refl

mem_load-mem_store_example : mem_load stored_memory (pos 2) (pos 2) ≡ ok (8 ∷ 9 ∷ [])
mem_load-mem_store_example =
    mem_load-mem_store grow memory (8 ∷ 9 ∷ []) stored_memory 2 (omega arith) grows (omega arith)
      stores
