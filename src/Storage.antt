-- ===== src/Storage.antt =====
-- vmhost/contexts/storage.go: the storage of the running contract, cached in the storage updates of
-- its output account, metered, and guarded by the protected keys. The node's blockchain hook is a
-- parameter. A nil value and an empty one are told apart nowhere here.
pub mod Protection
pub mod Cache
pub mod Kept
pub mod Update
mod Tests
use drt_go_chain_vm_v.Common.{
  Bool, List, Option, [], false, if◌then◌else◌, length, ltb, none, not, some, true, ℕ, ◌&&◌, ◌-◌,
  ◌∷◌,
}
use drt_go_chain_vm_v.Common.Bytes.{Bytes, bytes_eq, has_prefix}
use drt_go_chain_vm_v.Common.Dict.{Dict, bytes_Eq, insert, int_Eq, lookup}
use drt_go_chain_vm_v.Common.Int.{ltb_ℤ, pos, ◌-ℤ◌}
use drt_go_chain_vm_v.Host.{
  BlockchainHook, Host, StorageContext, StorageUpdate, absent, failed, present,
}
use drt_go_chain_vm_v.Host.Error.{VmError, cannot_write_protected_key, store_reserved_key}
use drt_go_chain_vm_v.Overflow.{add_uint64, bits64, mul_uint64, sub_int}
use drt_go_chain_vm_v.Output.Account.{get_output_account, set_output_account, free_gas}
use drt_go_chain_vm_v.Blockchain.{set_output}
use drt_go_chain_vm_v.Metering.{use_gas}

-- vmhost.StorageStatus
pub data StorageStatus : Type 0 where
  storage_unchanged storage_modified storage_added storage_deleted : StorageStatus

abbrev pub address_len : ℕ
address_len = 32

-- ProtectedStoragePrefix, "ANDES@"
abbrev pub protected_storage_prefix : Bytes
protected_storage_prefix = 65 ∷ 78 ∷ 68 ∷ 69 ∷ 83 ∷ 64 ∷ []

-- The state stack is modelled as in the other contexts.
unfoldable pub push_state : StorageContext → StorageContext
push_state s = record s { state_stack = s.address ∷ s.state_stack }

restore : StorageContext → List Bytes → StorageContext
restore s [] = s
restore s (prev ∷ rest) = record s { state_stack = rest; address = prev }

unfoldable pub pop_set_active_state : StorageContext → StorageContext
unfolding restore
pop_set_active_state s = restore s s.state_stack

discard : StorageContext → List Bytes → StorageContext
discard s [] = s
discard s (_ ∷ rest) = record s { state_stack = rest }

unfoldable pub pop_discard : StorageContext → StorageContext
unfolding discard
pop_discard s = discard s s.state_stack

unfoldable pub clear_state_stack : StorageContext → StorageContext
clear_state_stack s = record s { state_stack = [] }

unfoldable pub set_address : Bytes → StorageContext → StorageContext
set_address address s = record s { address = address }

-- The updates of the account, which is added to the output where it is missing.
unfoldable pub get_storage_updates : Bytes → Host → Dict Bytes StorageUpdate × Host
get_storage_updates address h =
    let ((account, _), c) = get_output_account address h.output in
    (account.storage_updates, set_output c h)

-- storageUpdates[key] = &StorageUpdate{Offset: key, Data: value}, in the map of the account that
-- GetStorageUpdates has returned.
unfoldable pub write_update : Bytes → Bytes → Bytes → Host → Host
write_update address key value h =
    let ((account, _), c) = get_output_account address h.output in
    set_output
      (set_output_account address
        (record account {
          storage_updates =
              insert key (record { offset = key; content = value }) account.storage_updates;
        })
        c)
      h

unfoldable pub is_vm_protected_key : Bytes → Bool
is_vm_protected_key key = has_prefix key protected_storage_prefix

unfoldable pub is_protocol_protected_key : Bytes → Host → Bool
is_protocol_protected_key key h = has_prefix key h.storage.protected_key_prefix

unfoldable pub set_protection : Bool → Host → Host
set_protection b h = record h { storage = record (h.storage) { vm_storage_protection_enabled = b } }

-- DataCopyPerByte times a length, MulUint64 and UseGas.
unfoldable pub charge_bytes : ℕ → ℕ → Host → Host
charge_bytes per_byte len h = use_gas (mul_uint64 per_byte len) h

-- The charge for a key that is longer than an address.
unfoldable pub charge_long_key : Bytes → Host → Host
unfolding charge_bytes
charge_long_key key h =
    if ltb address_len (length key)
    then charge_bytes h.metering.gas_schedule.data_copy_per_byte (length key - address_len) h
    else h

module _ (hook : BlockchainHook) where
  unfoldable pub get_storage_from_address_unmetered : Bytes → Bytes → Host → Bytes × Host
  get_storage_from_address_unmetered address key h =
      let (updates, h1) = get_storage_updates address h in
      elim (lookup key updates) [
        | some update ↦ (update.content, h1)
        | none ↦
            let value = hook.get_storage_data address key in
            (value, write_update address key value h1)
      ]

  unfoldable pub get_storage_unmetered : Bytes → Host → Bytes × Host
  get_storage_unmetered key h = get_storage_from_address_unmetered h.storage.address key h

  unfoldable pub get_storage : Bytes → Host → Bytes × Host
  get_storage key h =
      let (value, h1) = get_storage_unmetered key (charge_long_key key h) in
      (value, charge_bytes h.metering.gas_schedule.data_copy_per_byte (length value) h1)

  -- Whether another account's storage may be read: its code metadata is readable.
  is_readable : Bytes → Bool
  is_readable address = elim (hook.get_user_account address) [
    | failed _ ↦ false
    | absent ↦ false
    | present user ↦ hook.metadata_readable user.code_metadata
  ]

  unfoldable pub get_storage_from_address : Bytes → Bytes → Host → Bytes × Host
  unfolding is_readable
  get_storage_from_address address key h =
      let h1 = charge_long_key key h in
      if not (bytes_eq address h.storage.address) && not (is_readable address)
      then ([], h1)
      else (let (value, h2) =
            if is_protocol_protected_key key h
            then (hook.get_storage_data address key, h1)
            else get_storage_from_address_unmetered address key h1 in
          (value, charge_bytes h.metering.gas_schedule.data_copy_per_byte (length value) h2))

  -- The value under a key before it is written; a read from the node is cached, as SetStorage does
  -- with the value that GetStorageUnmetered has cached already.
  unfoldable pub old_value : Bytes → Host → Bytes × Host
  old_value key h =
      let (updates, h1) = get_storage_updates h.storage.address h in
      elim (lookup key updates) [
        | some update ↦ (update.content, h1)
        | none ↦
            let (value, h2) = get_storage_unmetered key h1 in
            (value, write_update h.storage.address key value h2)
      ]

-- The gas of a write that changes the length of a value that was not empty.
unfoldable pub charge_change : ℕ → ℕ → Host → Host
unfolding charge_bytes
charge_change length_old length h =
    let s = h.metering.gas_schedule in
    let extra = sub_int (pos length) (pos length_old) in
    if ltb_ℤ (pos 0) extra
    then use_gas
        (add_uint64 (mul_uint64 s.persist_per_byte length_old)
          (mul_uint64 s.store_per_byte (bits64 extra)))
        h
    else if ltb_ℤ extra (pos 0)
    then free_gas (mul_uint64 s.release_per_byte (bits64 (pos 0 -ℤ extra)))
        (use_gas (mul_uint64 s.persist_per_byte length) h)
    else h

-- What SetStorage does once the old value is known.
unfoldable pub store_value : Bytes → Bytes → Bytes → Host → (StorageStatus × Option VmError) × Host
unfolding charge_bytes charge_change
store_value key value old h =
    let s = h.metering.gas_schedule in
    let written = write_update h.storage.address key value h in
    if bytes_eq old value
    then ((storage_unchanged, none), charge_bytes s.data_copy_per_byte (length value) h)
    else if bytes_eq old []
    then ((storage_added, none), charge_bytes s.store_per_byte (length value) written)
    else if bytes_eq value []
    then ((storage_deleted, none), free_gas (mul_uint64 s.release_per_byte (length old)) written)
    else ((storage_modified, none), charge_change (length old) (length value) written)

module _ (hook : BlockchainHook) where
  unfoldable pub set_storage : Bytes → Bytes → Host → (StorageStatus × Option VmError) × Host
  set_storage key value h =
      if h.runtime.read_only
      then ((storage_unchanged, none), h)
      else if is_protocol_protected_key key h
      then ((storage_unchanged, some store_reserved_key), h)
      else if is_vm_protected_key key && h.storage.vm_storage_protection_enabled
      then ((storage_unchanged, some cannot_write_protected_key), h)
      else (let (old, h1) = old_value hook key (charge_long_key key h) in
          store_value key value old h1)

  -- The protection is off during the write and on after it.
  unfoldable pub set_protected_storage :
      Bytes → Bytes → Host → (StorageStatus × Option VmError) × Host
  unfolding set_protection
  set_protected_storage key value h =
      let (result, h1) = set_storage key value (set_protection false h) in
      (result, set_protection true h1)
