-- ===== src/Storage/Kept.antt =====
-- SetStorage of vmhost/contexts/storage.go leaves the state of the storage context as it is.
use drt_go_chain_vm_v.Common.{ap, arith, length, ℕ, ◌∙◌, ◌≡◌}
use drt_go_chain_vm_v.Common.Bytes.{Bytes}
use drt_go_chain_vm_v.Common.Int.{pos, ◌-ℤ◌}
use drt_go_chain_vm_v.Host.{StorageContext}
use drt_go_chain_vm_v.Metering.{use_gas}
use drt_go_chain_vm_v.Overflow.{add_uint64, bits64, mul_uint64, sub_int}
use drt_go_chain_vm_v.Storage.{charge_bytes, get_storage, get_storage_unmetered}
use drt_go_chain_vm_v.Storage.Cache.{get_storage_from_address_unmetered-reads, stored}
use drt_go_chain_vm_v.Storage.Update.{stored-charge_long_key}
use drt_go_chain_vm_v.Host.{BlockchainHook, Host}
use drt_go_chain_vm_v.Storage.{
  charge_change, charge_long_key, old_value, set_storage, store_value, write_update,
}
use drt_go_chain_vm_v.Storage.Cache.{storage-free_gas, storage-old_value, storage-use_gas}
use drt_go_chain_vm_v.Storage.Update.{storage-charge_long_key}

storage-charge_change : (m n : ℕ) (h : Host) → (charge_change m n h).storage ≡ h.storage
unfolding charge_change
storage-charge_change m n h =
    let s = h.metering.gas_schedule in
    let extra = sub_int (pos n) (pos m) in
    ground (
      arith,
      storage-use_gas
          (add_uint64 (mul_uint64 s.persist_per_byte m)
            (mul_uint64 s.store_per_byte (bits64 extra)))
          h,
      storage-use_gas (mul_uint64 s.persist_per_byte n) h,
      storage-free_gas (mul_uint64 s.release_per_byte (bits64 (pos 0 -ℤ extra)))
          (use_gas (mul_uint64 s.persist_per_byte n) h),
    )

storage-store_value :
    (key value old : Bytes) (h : Host) → (store_value key value old h).1.storage ≡ h.storage
unfolding store_value charge_bytes write_update
storage-store_value key value old h =
    let s = h.metering.gas_schedule in
    let written = write_update h.storage.address key value h in
    ground (
      arith,
      storage-use_gas (mul_uint64 s.data_copy_per_byte (length value)) h,
      storage-use_gas (mul_uint64 s.store_per_byte (length value)) written,
      storage-free_gas (mul_uint64 s.release_per_byte (length old)) written,
      storage-charge_change (length old) (length value) written,
    )

pub storage-set_storage :
    (hook : BlockchainHook) (key value : Bytes) (h : Host)
    → (set_storage hook key value h).1.storage ≡ h.storage
unfolding set_storage
storage-set_storage hook key value h =
    let h1 = charge_long_key key h in
    let (old, h2) = old_value hook key h1 in
    ground (
      arith,
      storage-store_value key value old h2,
      storage-old_value hook key h1,
      storage-charge_long_key hook key h,
    )

-- GetStorage returns what is stored under the key of the current address.
pub get_storage-reads :
    (hook : BlockchainHook) (key : Bytes) (h : Host)
    → (get_storage hook key h).0 ≡ stored hook h.storage.address key h
unfolding get_storage get_storage_unmetered
get_storage-reads hook key h =
    let h1 = charge_long_key key h in
    get_storage_from_address_unmetered-reads hook h1.storage.address key h1
    ∙ ap (λ (s : StorageContext). stored hook s.address key h1) (storage-charge_long_key hook key h)
    ∙ stored-charge_long_key hook h.storage.address key key h
