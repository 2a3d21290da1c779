-- ===== src/SmallIntApi/Tests.antt =====
-- Tests of the imports of vmhost/vmhooks/smallIntOps.go.
use drt_go_chain_vm_v.Common.Bytes.{has_prefix}
use drt_go_chain_vm_v.Common.Int.{◌+ℤ◌}
use drt_go_chain_vm_v.Memory.{copy, slice}
use drt_go_chain_vm_v.Overflow.{add_int32}
use Prim.Native.String.{String}
use drt_go_chain_vm_v.Common.{[], refl, ◌∷◌, ◌≡◌}
use drt_go_chain_vm_v.Common.Bytes.{Bytes}
use drt_go_chain_vm_v.Common.Int.{negsuc, pos, ℤ}
use drt_go_chain_vm_v.Host.Error.{VmError}
use drt_go_chain_vm_v.Example.{host, outside}
use drt_go_chain_vm_v.Storage.{is_protocol_protected_key, is_vm_protected_key}
use drt_go_chain_vm_v.Memory.{mem_load}
use drt_go_chain_vm_v.SmallIntApi.{
  small_int_storage_load_unsigned, small_int_storage_store_unsigned,
}
use drt_go_chain_vm_v.SmallIntApi.Stored.{
  small_int_storage_load_unsigned-small_int_storage_store_unsigned,
}

abbrev shown : VmError → String
shown e = "error"

-- The tests use unsigned values only.
abbrev no_twos : Bytes → ℤ
no_twos bs = pos 0

abbrev no_bytes : ℤ → Bytes
no_bytes value = []

-- A memory that holds the key 9 8 at the offset 1.
abbrev memory : Bytes
memory = 0 ∷ 9 ∷ 8 ∷ 0 ∷ []

small_int_storage_load_unsigned-small_int_storage_store_unsigned_example :
    (small_int_storage_load_unsigned shown no_twos no_bytes outside.hook memory
      (pos 1)
      (pos 2)
      (small_int_storage_store_unsigned shown no_twos no_bytes outside.hook memory
        (pos 1)
        (pos 2)
        (negsuc 4)
        host).1).0
    ≡ negsuc 4
unfolding mem_load is_protocol_protected_key is_vm_protected_key
    drt_go_chain_vm_v.Overflow.add_int32 drt_go_chain_vm_v.Common.Int.◌+ℤ◌
    drt_go_chain_vm_v.Memory.slice drt_go_chain_vm_v.Memory.copy
    drt_go_chain_vm_v.Common.Bytes.has_prefix
small_int_storage_load_unsigned-small_int_storage_store_unsigned_example =
    small_int_storage_load_unsigned-small_int_storage_store_unsigned shown no_twos no_bytes
      outside.hook memory (9 ∷ 8 ∷ []) (pos 1) (pos 2) (negsuc 4) host refl refl refl refl refl refl
