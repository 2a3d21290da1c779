-- ===== src/AsyncCall/Stored.antt =====
-- The state stacks of the contexts through the writes of the storage context.
use drt_go_chain_vm_v.Common.{Bool, arith, false, length, refl, true, ℕ, ◌∙◌, ◌≡◌}
use drt_go_chain_vm_v.Common.Bytes.{Bytes}
use drt_go_chain_vm_v.Execution.Stacks.{stack-get_output_account, stacks-use_gas, stacks_of}
use drt_go_chain_vm_v.Host.{Host}
use drt_go_chain_vm_v.Host.Vm.{BlockchainHook}
use drt_go_chain_vm_v.Output.Account.{free_gas, set_output_account, set_refund}
use drt_go_chain_vm_v.Overflow.{mul_uint64}
use drt_go_chain_vm_v.Storage.{
  charge_bytes, charge_change, charge_long_key, get_storage_from_address_unmetered,
  get_storage_unmetered, get_storage_updates, old_value, set_protected_storage, set_protection,
  set_storage, store_value, write_update,
}

stacks-write_update :
    (a key value : Bytes) (h : Host) → stacks_of (write_update a key value h) ≡ stacks_of h
unfolding write_update set_output_account stacks_of
stacks-write_update a key value h = ground (arith, stack-get_output_account a h.output)

stacks-charge_bytes : (cost n : ℕ) (h : Host) → stacks_of (charge_bytes cost n h) ≡ stacks_of h
unfolding charge_bytes
stacks-charge_bytes cost n h = stacks-use_gas (mul_uint64 cost n) h

stacks-free_gas : (n : ℕ) (h : Host) → stacks_of (free_gas n h) ≡ stacks_of h
unfolding free_gas set_refund stacks_of
stacks-free_gas n h = refl

stacks-charge_long_key : (key : Bytes) (h : Host) → stacks_of (charge_long_key key h) ≡ stacks_of h
unfolding charge_long_key
stacks-charge_long_key key h = grind (arith, stacks-charge_bytes)

stacks-charge_change : (old new : ℕ) (h : Host) → stacks_of (charge_change old new h) ≡ stacks_of h
unfolding charge_change
stacks-charge_change old new h = grind (arith, stacks-use_gas, stacks-free_gas)

stacks-store_value :
    (key value old : Bytes) (h : Host) → stacks_of (store_value key value old h).1 ≡ stacks_of h
unfolding store_value
stacks-store_value key value old h = grind (
  arith,
  stacks-charge_bytes,
  stacks-free_gas,
  stacks-charge_change (length old) (length value),
  stacks-write_update h.storage.address key value h,
)

stacks-get_storage_updates :
    (a : Bytes) (h : Host) → stacks_of (get_storage_updates a h).1 ≡ stacks_of h
unfolding get_storage_updates stacks_of
stacks-get_storage_updates a h = ground (arith, stack-get_output_account a h.output)

module _ (hook : BlockchainHook) where
  stacks-get_storage_unmetered :
      (key : Bytes) (h : Host) → stacks_of (get_storage_unmetered hook key h).1 ≡ stacks_of h
  unfolding get_storage_unmetered get_storage_from_address_unmetered
  stacks-get_storage_unmetered key h =
      let (_, h1) = get_storage_updates h.storage.address h in
      ground (
        arith,
        stacks-get_storage_updates h.storage.address h,
        stacks-write_update h.storage.address key (hook.get_storage_data h.storage.address key) h1,
      )

  stacks-old_value : (key : Bytes) (h : Host) → stacks_of (old_value hook key h).1 ≡ stacks_of h
  unfolding old_value
  stacks-old_value key h =
      let (_, h1) = get_storage_updates h.storage.address h in
      let (value, h2) = get_storage_unmetered hook key h1 in
      ground (
        arith,
        stacks-get_storage_updates h.storage.address h,
        stacks-get_storage_unmetered key h1,
        stacks-write_update h.storage.address key value h2,
      )

  stacks-set_storage :
      (key value : Bytes) (h : Host) → stacks_of (set_storage hook key value h).1 ≡ stacks_of h
  unfolding set_storage
  stacks-set_storage key value h =
      let h1 = charge_long_key key h in
      let (old, h2) = old_value hook key h1 in
      ground (
        arith,
        stacks-charge_long_key key h,
        stacks-old_value key h1,
        stacks-store_value key value old h2,
      )

  stacks-set_protection : (b : Bool) (h : Host) → stacks_of (set_protection b h) ≡ stacks_of h
  unfolding set_protection stacks_of
  stacks-set_protection b h = refl

  pub stacks-set_protected_storage :
      (key value : Bytes) (h : Host)
      → stacks_of (set_protected_storage hook key value h).1 ≡ stacks_of h
  unfolding set_protected_storage
  stacks-set_protected_storage key value h =
      stacks-set_protection true (set_storage hook key value (set_protection false h)).1
      ∙ stacks-set_storage key value (set_protection false h)
      ∙ stacks-set_protection false h
