-- ===== src/Storage/Cache.antt =====
-- What a read of vmhost/contexts/storage.go sees: the cached storage update, or the node's value.
use drt_go_chain_vm_v.Storage.{old_value}
use drt_go_chain_vm_v.Storage.{get_storage_unmetered}
use drt_go_chain_vm_v.Common.{Option, arith, if◌then◌else◌, none, refl, some, ℕ, ◌&&◌, ◌≡◌}
use drt_go_chain_vm_v.Common.Bytes.{Bytes, bytes_eq, bytes_eq_iff}
use drt_go_chain_vm_v.Common.Dict.{bytes_Eq, insert, int_Eq, lookup, lookup-insert}
use drt_go_chain_vm_v.Host.{BlockchainHook, Host, StorageUpdate}
use drt_go_chain_vm_v.Host.Runtime.{set_points_used}
use drt_go_chain_vm_v.Output.Lookup.{
  account_at-get_output_account, account_at-set_output_account, get_output_account-eq-account_at,
}
use drt_go_chain_vm_v.Storage.{
  get_storage_from_address_unmetered, get_storage_updates, write_update,
}
use drt_go_chain_vm_v.Output.Account.{get_output_account, free_gas}
use drt_go_chain_vm_v.Output.Lookup.{account_at}
use drt_go_chain_vm_v.Metering.{use_gas}

pub output-use_gas : (g : ℕ) (h : Host) → (use_gas g h).output ≡ h.output
unfolding use_gas set_points_used
output-use_gas g h = ground arith

pub storage-use_gas : (g : ℕ) (h : Host) → (use_gas g h).storage ≡ h.storage
unfolding use_gas set_points_used
storage-use_gas g h = ground arith

pub storage-free_gas : (g : ℕ) (h : Host) → (free_gas g h).storage ≡ h.storage
unfolding free_gas
storage-free_gas g h = refl

pub account_at-free_gas :
    (a : Bytes) (g : ℕ) (h : Host) → account_at a (free_gas g h).output ≡ account_at a h.output
unfolding free_gas account_at
account_at-free_gas a g h = refl

pub account_at-write_update :
    (a address key value : Bytes) (h : Host)
    → (account_at a (write_update address key value h).output).storage_updates ≡ (
        if bytes_eq address a
        then insert key
            (record { offset = key; content = value })
            (account_at a h.output).storage_updates
        else (account_at a h.output).storage_updates)
unfolding write_update
account_at-write_update a address key value h = ground (
  arith,
  get_output_account-eq-account_at address h.output,
  account_at-get_output_account a address h.output,
  bytes_eq_iff address a,
  account_at-set_output_account a address
      (record (get_output_account address h.output).0.0 {
        storage_updates =
            insert key (record { offset = key; content = value })
              (get_output_account address h.output).0.0.storage_updates;
      })
      (get_output_account address h.output).1,
)

module _ (hook : BlockchainHook) where
  -- The value that a contract reads under a key of an address.
  abbrev pub cached : Bytes → Bytes → Option StorageUpdate → Bytes
  cached address key (some update) = update.content
  cached address key none = hook.get_storage_data address key

  unfoldable pub stored : Bytes → Bytes → Host → Bytes
  stored address key h =
      cached address key (lookup key (account_at address h.output).storage_updates)

  pub stored-use_gas : (a k : Bytes) (g : ℕ) (h : Host) → stored a k (use_gas g h) ≡ stored a k h
  unfolding stored
  stored-use_gas a k g h = rw (output-use_gas g h)

  pub stored-free_gas : (a k : Bytes) (g : ℕ) (h : Host) → stored a k (free_gas g h) ≡ stored a k h
  unfolding stored
  stored-free_gas a k g h = rw (account_at-free_gas a g h)

  -- A write is read back under its address and key, and under no other.
  pub stored-write_update :
      (a k address key value : Bytes) (h : Host)
      → stored a k (write_update address key value h)
        ≡ (if bytes_eq address a && bytes_eq key k then value else stored a k h)
  unfolding stored
  stored-write_update a k address key value h = ground (
    arith,
    account_at-write_update a address key value h,
    lookup-insert key k (record { offset = key; content = value })
        (account_at a h.output).storage_updates,
  )

  stored-get_storage_updates :
      (a k address : Bytes) (h : Host) → stored a k (get_storage_updates address h).1 ≡ stored a k h
  unfolding stored get_storage_updates
  stored-get_storage_updates a k address h = rw (account_at-get_output_account a address h.output)

  -- An unmetered read returns what is stored, and the cache entry that it may add changes nothing
  -- that is stored.
  pub get_storage_from_address_unmetered-reads :
      (address key : Bytes) (h : Host)
      → (get_storage_from_address_unmetered hook address key h).0 ≡ stored address key h
  unfolding get_storage_from_address_unmetered get_storage_updates stored
  get_storage_from_address_unmetered-reads address key h =
      ground (arith, get_output_account-eq-account_at address h.output)

  pub stored-get_storage_from_address_unmetered :
      (a k address key : Bytes) (h : Host)
      → stored a k (get_storage_from_address_unmetered hook address key h).1 ≡ stored a k h
  unfolding get_storage_from_address_unmetered
  stored-get_storage_from_address_unmetered a k address key h = ground (
    arith,
    stored-write_update a k address key (hook.get_storage_data address key)
        (get_storage_updates address h).1,
    stored-get_storage_updates a k address h,
    get_storage_from_address_unmetered-reads address key h,
    bytes_eq_iff address a,
    bytes_eq_iff key k,
  )

  storage-get_storage_from_address_unmetered :
      (address key : Bytes) (h : Host)
      → (get_storage_from_address_unmetered hook address key h).1.storage ≡ h.storage
  unfolding get_storage_from_address_unmetered get_storage_updates write_update
  storage-get_storage_from_address_unmetered address key h = ground arith

  address-get_storage_updates :
      (address : Bytes) (h : Host)
      → (get_storage_updates address h).1.storage.address ≡ h.storage.address
  unfolding get_storage_updates
  address-get_storage_updates address h = refl

  stored-eq-cached :
      (address key : Bytes) (h : Host)
      → stored address key h ≡ cached address key (lookup key (get_storage_updates address h).0)
  unfolding stored get_storage_updates
  stored-eq-cached address key h = ground (arith, get_output_account-eq-account_at address h.output)

  -- The value before a write is what is stored, and finding it changes nothing that is stored.
  pub old_value-reads :
      (a k key : Bytes) (h : Host)
      → ((old_value hook key h).0 ≡ stored h.storage.address key h)
        × (stored a k (old_value hook key h).1 ≡ stored a k h)
  unfolding old_value get_storage_unmetered
  old_value-reads a k key h =
      let own = h.storage.address in
      let h1 = (get_storage_updates own h).1 in
      let read = get_storage_from_address_unmetered hook own key h1 in
      ground (
        arith,
        address-get_storage_updates own h,
        stored-eq-cached own key h,
        get_storage_from_address_unmetered-reads own key h1,
        stored-get_storage_from_address_unmetered a k own key h1,
        stored-get_storage_updates a k own h,
        stored-get_storage_updates own key own h,
        stored-write_update a k own key read.0 read.1,
        bytes_eq_iff own a,
        bytes_eq_iff key k,
      )

  pub storage-old_value : (key : Bytes) (h : Host) → (old_value hook key h).1.storage ≡ h.storage
  unfolding old_value get_storage_unmetered get_storage_from_address_unmetered get_storage_updates
      write_update
  storage-old_value key h = ground arith
