-- ===== src/SmallIntApi/Stored.antt =====
-- Storing and loading of vmhost/vmhooks/smallIntOps.go.
use drt_go_chain_vm_v.Common.{some}
use drt_go_chain_vm_v.Storage.{get_storage}
use Prim.Native.String.{String}
use drt_go_chain_vm_v.Common.{ap, true, ◌∙◌}
use drt_go_chain_vm_v.Common.Bytes.{bytes_eq_iff}
use drt_go_chain_vm_v.Common.Int.{leb_ℤ, ℤ}
use drt_go_chain_vm_v.Host.{StorageContext}
use drt_go_chain_vm_v.Host.Error.{VmError}
use drt_go_chain_vm_v.Overflow.{max_int64, min_int64}
use drt_go_chain_vm_v.Storage.{store_value}
use drt_go_chain_vm_v.Common.{arith, false, none, ℕ, ◌&&◌, ◌≡◌}
use drt_go_chain_vm_v.Common.Bytes.{Bytes}
use drt_go_chain_vm_v.Host.Runtime.{set_points_used}
use drt_go_chain_vm_v.Metering.{use_gas}
use drt_go_chain_vm_v.Host.{BlockchainHook, Host}
use drt_go_chain_vm_v.Memory.{mem_load, ok}
use drt_go_chain_vm_v.SmallIntApi.{
  of_unsigned, small_int_storage_load_unsigned, small_int_storage_store_unsigned, storage_load,
  storage_store, to_unsigned, decoded,
}
use drt_go_chain_vm_v.SmallIntApi.Values.{of_unsigned-to_unsigned}
use drt_go_chain_vm_v.Storage.{is_protocol_protected_key, is_vm_protected_key, set_storage}
use drt_go_chain_vm_v.Storage.Update.{set_storage_stores}
use drt_go_chain_vm_v.Storage.Kept.{get_storage-reads, storage-set_storage}
use drt_go_chain_vm_v.Storage.Cache.{storage-use_gas, stored, stored-use_gas}

read_only-use_gas : (gas : ℕ) (h : Host) → (use_gas gas h).runtime.read_only ≡ h.runtime.read_only
unfolding use_gas drt_go_chain_vm_v.Host.Runtime.set_points_used
read_only-use_gas gas h = ground arith

-- The guards of SetStorage, after any charge.
accepted-use_gas :
    (hook : BlockchainHook) (key value : Bytes) (gas : ℕ) (h : Host)
    → h.runtime.read_only ≡ false
    → is_protocol_protected_key key h ≡ false
    → (is_vm_protected_key key && h.storage.vm_storage_protection_enabled) ≡ false
    → (set_storage hook key value (use_gas gas h)).0.1 ≡ none
unfolding set_storage is_protocol_protected_key drt_go_chain_vm_v.Storage.store_value
accepted-use_gas hook key value gas h writable free own =
    ground (arith, storage-use_gas gas h, read_only-use_gas gas h)

-- What is stored under the key after a store.
stored-storage_store :
    (hook : BlockchainHook) (key value : Bytes) (gas : ℕ) (h : Host)
    → h.runtime.read_only ≡ false
    → is_protocol_protected_key key h ≡ false
    → (is_vm_protected_key key && h.storage.vm_storage_protection_enabled) ≡ false
    → let h1 = (set_storage hook key value (use_gas gas h)).1 in
      stored hook h1.storage.address key h1 ≡ value
stored-storage_store hook key value gas h writable free own =
    let h0 = use_gas gas h in
    let h1 = (set_storage hook key value h0).1 in
    let here = ap (λ (s : StorageContext). s.address) (storage-set_storage hook key value h0) in
    let (written, _) =
      set_storage_stores hook h0.storage.address key key value h0
        (read_only-use_gas gas h ∙ writable)
        (accepted-use_gas hook key value gas h writable free own) in
    ap (λ a. stored hook a key h1) here
    ∙ written
    ∙ ground (arith, bytes_eq_iff h0.storage.address h0.storage.address, bytes_eq_iff key key)

storage_store-runs :
    (text : VmError → String) (set_twos : Bytes → ℤ) (twos_bytes : ℤ → Bytes)
    (hook : BlockchainHook) (memory key value : Bytes) (key_offset key_length : ℤ) (h : Host)
    → mem_load memory key_offset key_length ≡ ok key
    → (set_storage hook key value (use_gas h.metering.gas_schedule.int64_storage_store h)).0.1
      ≡ none
    → (storage_store text set_twos twos_bytes hook memory value key_offset key_length h).1
      ≡ (set_storage hook key value (use_gas h.metering.gas_schedule.int64_storage_store h)).1
unfolding storage_store
storage_store-runs text set_twos twos_bytes hook memory key value key_offset key_length h read
      accepted =
    ground arith

storage_load-reads :
    (text : VmError → String) (set_twos : Bytes → ℤ) (twos_bytes : ℤ → Bytes)
    (hook : BlockchainHook) (memory key : Bytes) (key_offset key_length value : ℤ) (h : Host)
    → mem_load memory key_offset key_length ≡ ok key
    → of_unsigned (stored hook h.storage.address key h) ≡ some value
    → (storage_load text set_twos twos_bytes hook memory of_unsigned key_offset key_length h).0
      ≡ value
unfolding storage_load decoded
storage_load-reads text set_twos twos_bytes hook memory key key_offset key_length value h read
      fits =
    let gas = h.metering.gas_schedule.int64_storage_load in
    let h1 = use_gas gas h in
    let found : of_unsigned (get_storage hook key h1).0 ≡ some value =
      ap of_unsigned (
        get_storage-reads hook key h1
        ∙ ap (λ (s : StorageContext). stored hook s.address key h1) (storage-use_gas gas h)
        ∙ stored-use_gas hook h.storage.address key gas h)
      ∙ fits in
    ground arith

-- An int64 that smallIntStorageStoreUnsigned stores is what smallIntStorageLoadUnsigned loads under
-- the same key afterwards, where the key can be read from the memory and is not protected, and the
-- mode is not read-only.
pub small_int_storage_load_unsigned-small_int_storage_store_unsigned :
    (text : VmError → String) (set_twos : Bytes → ℤ) (twos_bytes : ℤ → Bytes)
    (hook : BlockchainHook) (memory key : Bytes) (key_offset key_length value : ℤ) (h : Host)
    → mem_load memory key_offset key_length ≡ ok key
    → leb_ℤ min_int64 value ≡ true
    → leb_ℤ value max_int64 ≡ true
    → h.runtime.read_only ≡ false
    → is_protocol_protected_key key h ≡ false
    → (is_vm_protected_key key && h.storage.vm_storage_protection_enabled) ≡ false
    → let (_, h') =
        small_int_storage_store_unsigned text set_twos twos_bytes hook memory key_offset key_length
          value h in
      (small_int_storage_load_unsigned text set_twos twos_bytes hook memory key_offset key_length
        h').0
      ≡ value
unfolding small_int_storage_store_unsigned small_int_storage_load_unsigned storage_store
    storage_load
small_int_storage_load_unsigned-small_int_storage_store_unsigned text set_twos twos_bytes hook
      memory key key_offset key_length value h read low high writable free own =
    let bytes = to_unsigned value in
    let gas = h.metering.gas_schedule.int64_storage_store in
    let h1 = (set_storage hook key bytes (use_gas gas h)).1 in
    let runs =
      storage_store-runs text set_twos twos_bytes hook memory key bytes key_offset key_length h read
        (accepted-use_gas hook key bytes gas h writable free own) in
    ap
      (λ g.
        (storage_load text set_twos twos_bytes hook memory of_unsigned key_offset key_length g).0)
      runs
    ∙ storage_load-reads text set_twos twos_bytes hook memory key key_offset key_length value h1
        read
        (ap of_unsigned (stored-storage_store hook key bytes gas h writable free own)
          ∙ of_unsigned-to_unsigned value low high)
