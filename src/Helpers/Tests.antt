-- ===== src/Helpers/Tests.antt =====
-- Tests of vmhost/helpers.go.
use drt_go_chain_vm_v.Common.{[], arith, length, refl, some, ◌∷◌, ◌≡◌, ◌≤◌}
use drt_go_chain_vm_v.Common.Bytes.{Bytes}
use drt_go_chain_vm_v.Common.Int.{pos, ◌+ℤ◌}
use drt_go_chain_vm_v.Helpers.{bytes, guarded_get_bytes_slice, u64_to_leb128}
use drt_go_chain_vm_v.Helpers.Encoding.{u64_to_leb128-decodes, leb128_value}
use drt_go_chain_vm_v.Helpers.Slices.{guarded_get_bytes_slice-exact}

encoded : u64_to_leb128 624485 ≡ some (229 ∷ 142 ∷ 38 ∷ [])
unfolding u64_to_leb128
encoded = refl

u64_to_leb128-decodes_example :
    (out : Bytes) × (u64_to_leb128 624485 ≡ some out)
    × (leb128_value out ≡ 624485)
    × (length out ≤ 10)
u64_to_leb128-decodes_example = u64_to_leb128-decodes 624485 (omega arith)

guarded_get_bytes_slice-exact_example :
    guarded_get_bytes_slice (1 ∷ 2 ∷ 3 ∷ []) (pos 1) (pos 2) ≡ bytes (2 ∷ 3 ∷ [])
unfolding ◌+ℤ◌
guarded_get_bytes_slice-exact_example =
    guarded_get_bytes_slice-exact (1 ∷ 2 ∷ 3 ∷ []) (pos 1) (pos 2) (omega arith) (omega arith)
      (omega arith) (omega arith) (omega arith)
