-- ===== src/Storage/Update.antt =====
-- SetStorage of vmhost/contexts/storage.go: what is stored afterwards, and the status it reports.
use drt_go_chain_vm_v.Common.{Option, ap, ◌∙◌}
use drt_go_chain_vm_v.Host.{StorageContext}
use drt_go_chain_vm_v.Host.Error.{VmError}
use drt_go_chain_vm_v.Storage.{old_value}
use drt_go_chain_vm_v.Storage.Cache.{old_value-reads, storage-old_value}
use drt_go_chain_vm_v.Common.{[], arith, false, if◌then◌else◌, length, none, ℕ, ◌&&◌, ◌-◌, ◌≡◌}
use drt_go_chain_vm_v.Common.Bytes.{Bytes, bytes_eq, bytes_eq_iff}
use drt_go_chain_vm_v.Common.Int.{pos, ◌-ℤ◌}
use drt_go_chain_vm_v.Host.{BlockchainHook, Host}
use drt_go_chain_vm_v.Overflow.{add_uint64, bits64, mul_uint64, sub_int}
use drt_go_chain_vm_v.Storage.{
  StorageStatus, address_len, charge_bytes, charge_change, charge_long_key, set_storage,
  storage_added, storage_deleted, storage_modified, storage_unchanged, store_value, write_update,
}
use drt_go_chain_vm_v.Storage.Cache.{
  storage-use_gas, stored, stored-free_gas, stored-use_gas, stored-write_update,
}
use drt_go_chain_vm_v.Metering.{use_gas}

-- The status that a write should report, from the old value and the new one.
unfoldable pub status_of : Bytes → Bytes → StorageStatus
status_of old value =
    if bytes_eq old value
    then storage_unchanged
    else if bytes_eq old []
    then storage_added
    else if bytes_eq value []
    then storage_deleted
    else storage_modified

module _ (hook : BlockchainHook) where
  stored-charge_bytes :
      (a k : Bytes) (per n : ℕ) (h : Host)
      → stored hook a k (charge_bytes per n h) ≡ stored hook a k h
  unfolding charge_bytes
  stored-charge_bytes a k per n h = stored-use_gas hook a k (mul_uint64 per n) h

  pub stored-charge_long_key :
      (a k key : Bytes) (h : Host) → stored hook a k (charge_long_key key h) ≡ stored hook a k h
  unfolding charge_long_key
  stored-charge_long_key a k key h = ground (
    arith,
    stored-use_gas hook a k
        (mul_uint64 h.metering.gas_schedule.data_copy_per_byte (length key - address_len)) h,
  )

  pub storage-charge_long_key :
      (key : Bytes) (h : Host) → (charge_long_key key h).storage ≡ h.storage
  unfolding charge_long_key
  storage-charge_long_key key h = ground (
    arith,
    storage-use_gas
        (mul_uint64 h.metering.gas_schedule.data_copy_per_byte (length key - address_len)) h,
  )

  stored-charge_change :
      (a k : Bytes) (m n : ℕ) (h : Host) → stored hook a k (charge_change m n h) ≡ stored hook a k h
  unfolding charge_change
  stored-charge_change a k m n h =
      let s = h.metering.gas_schedule in
      let extra = sub_int (pos n) (pos m) in
      ground (
        arith,
        stored-use_gas hook a k
            (add_uint64 (mul_uint64 s.persist_per_byte m)
              (mul_uint64 s.store_per_byte (bits64 extra)))
            h,
        stored-use_gas hook a k (mul_uint64 s.persist_per_byte n) h,
        stored-free_gas hook a k (mul_uint64 s.release_per_byte (bits64 (pos 0 -ℤ extra)))
            (use_gas (mul_uint64 s.persist_per_byte n) h),
      )

  stored-store_value :
      (a k key value : Bytes) (h : Host)
      → stored hook a k (store_value key value (stored hook h.storage.address key h) h).1
        ≡ (if bytes_eq h.storage.address a && bytes_eq key k then value else stored hook a k h)
  unfolding store_value
  stored-store_value a k key value h =
      let own = h.storage.address in
      let s = h.metering.gas_schedule in
      let old = stored hook own key h in
      let written = write_update own key value h in
      ground (
        arith,
        stored-write_update hook a k own key value h,
        stored-use_gas hook a k (mul_uint64 s.data_copy_per_byte (length value)) h,
        stored-use_gas hook a k (mul_uint64 s.store_per_byte (length value)) written,
        stored-free_gas hook a k (mul_uint64 s.release_per_byte (length old)) written,
        stored-charge_change a k (length old) (length value) written,
        bytes_eq_iff old value,
        bytes_eq_iff own a,
        bytes_eq_iff key k,
      )

  -- Past its guards SetStorage charges for a long key, finds the old value and stores.
  set_storage-accepted :
      (key value : Bytes) (h : Host)
      → h.runtime.read_only ≡ false
      → (set_storage hook key value h).0.1 ≡ none
      → set_storage hook key value h ≡ (
          let (old, h1) = old_value hook key (charge_long_key key h) in
          store_value key value old h1)
  unfolding set_storage
  set_storage-accepted key value h writable accepted = ground arith

  status-store_value :
      (key value old : Bytes) (h : Host) → (store_value key value old h).0.0 ≡ status_of old value
  unfolding store_value status_of
  status-store_value key value old h = ground arith

  -- SetStorage, where it is neither in read-only mode nor refused, stores the value under the key of
  -- the current address and changes what is stored nowhere else. The status tells the old value from
  -- the new one: unchanged, added, deleted or modified.
  pub set_storage_stores :
      (a k key value : Bytes) (h : Host)
      → h.runtime.read_only ≡ false
      → (set_storage hook key value h).0.1 ≡ none
      → let ((status, _), h') = set_storage hook key value h in
        (stored hook a k h'
          ≡ (if bytes_eq h.storage.address a && bytes_eq key k then value else stored hook a k h))
        × (status ≡ status_of (stored hook h.storage.address key h) value)
  set_storage_stores a k key value h writable accepted =
      let own = h.storage.address in
      let h1 = charge_long_key key h in
      let h2 = (old_value hook key h1).1 in
      let same : h2.storage.address ≡ own =
        ap (λ (s : StorageContext). s.address)
          (storage-old_value hook key h1 ∙ storage-charge_long_key key h) in
      let old : (old_value hook key h1).0 ≡ stored hook h2.storage.address key h2 = cc (
        same,
        ap (λ (s : StorageContext). s.address) (storage-charge_long_key key h),
        (old_value-reads hook a k key h1).0,
        (old_value-reads hook own key key h1).1,
      ) in
      let before = (old_value-reads hook a k key h1).1 ∙ stored-charge_long_key a k key h in
      let old_before : (old_value hook key h1).0 ≡ stored hook own key h = cc (
        ap (λ (s : StorageContext). s.address) (storage-charge_long_key key h),
        (old_value-reads hook a k key h1).0,
        stored-charge_long_key own key key h,
      ) in
      (
        ap (λ (r : (StorageStatus × Option VmError) × Host). stored hook a k r.1)
              (set_storage-accepted key value h writable accepted)
            ∙ ap (λ (o : Bytes). stored hook a k (store_value key value o h2).1) old
            ∙ stored-store_value a k key value h2
            ∙ cc (same, before),
        ap (λ (r : (StorageStatus × Option VmError) × Host). r.0.0)
              (set_storage-accepted key value h writable accepted)
            ∙ status-store_value key value (old_value hook key h1).0 h2
            ∙ ap (λ (o : Bytes). status_of o value) old_before,
      )
