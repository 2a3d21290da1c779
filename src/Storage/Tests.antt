-- ===== src/Storage/Tests.antt =====
-- Tests of the storage context of the contract of alice.
use drt_go_chain_vm_v.Common.Bytes.{Bytes, has_prefix}
use drt_go_chain_vm_v.Common.Dict.{Dict, bytes_Eq, insert, int_Eq, lookup}
use drt_go_chain_vm_v.Output.Account.{get_output_account}
use drt_go_chain_vm_v.Storage.{
  charge_long_key, get_storage_from_address_unmetered, get_storage_unmetered, get_storage_updates,
  old_value, store_value,
}
use drt_go_chain_vm_v.Common.{[], false, if◌then◌else◌, inl, none, refl, true, ◌&&◌, ◌∷◌, ◌≡◌}
use drt_go_chain_vm_v.Common.Bytes.{bytes_eq}
use drt_go_chain_vm_v.Storage.{
  is_protocol_protected_key, is_vm_protected_key, protected_storage_prefix, set_protected_storage,
  set_storage,
}
use drt_go_chain_vm_v.Example.{alice, host, chain, plain_key, protocol_key}
use drt_go_chain_vm_v.Storage.Update.{set_storage_stores, status_of}
use drt_go_chain_vm_v.Storage.Protection.{
  set_storage_protects, set_storage_protects_vm_keys, set_protected_storage_stores,
}
use drt_go_chain_vm_v.Storage.Cache.{stored}

writes : (set_storage chain plain_key (4 ∷ 5 ∷ []) host).0.1 ≡ none
unfolding set_storage is_protocol_protected_key drt_go_chain_vm_v.Common.Bytes.has_prefix
    is_vm_protected_key drt_go_chain_vm_v.Storage.store_value bytes_eq
    drt_go_chain_vm_v.Storage.old_value drt_go_chain_vm_v.Common.Dict.lookup
    drt_go_chain_vm_v.Storage.get_storage_updates
    drt_go_chain_vm_v.Output.Account.get_output_account drt_go_chain_vm_v.Storage.charge_long_key
    drt_go_chain_vm_v.Storage.get_storage_unmetered
    drt_go_chain_vm_v.Storage.get_storage_from_address_unmetered
    drt_go_chain_vm_v.Common.Dict.insert
writes = refl

set_storage_stores_example :
    (let ((status, _), h') = set_storage chain plain_key (4 ∷ 5 ∷ []) host in
      (stored chain alice plain_key h' ≡ (
        if bytes_eq alice alice && bytes_eq plain_key plain_key
        then 4 ∷ 5 ∷ []
        else stored chain alice plain_key host))
      × (status ≡ status_of (stored chain alice plain_key host) (4 ∷ 5 ∷ [])))
set_storage_stores_example =
    set_storage_stores chain alice plain_key plain_key (4 ∷ 5 ∷ []) host refl writes

protocol_protects : is_protocol_protected_key protocol_key host ≡ true
unfolding is_protocol_protected_key drt_go_chain_vm_v.Common.Bytes.has_prefix
protocol_protects = refl

set_storage_protects_example :
    stored chain alice protocol_key (set_storage chain protocol_key (4 ∷ []) host).1
    ≡ stored chain alice protocol_key host
set_storage_protects_example =
    set_storage_protects chain alice protocol_key protocol_key (4 ∷ []) host (inl protocol_protects)

vm_protects : is_vm_protected_key protected_storage_prefix ≡ true
unfolding is_vm_protected_key drt_go_chain_vm_v.Common.Bytes.has_prefix
vm_protects = refl

set_storage_protects_vm_keys_example :
    stored chain alice protected_storage_prefix
      (set_storage chain protected_storage_prefix (4 ∷ []) host).1
    ≡ stored chain alice protected_storage_prefix host
set_storage_protects_vm_keys_example =
    set_storage_protects_vm_keys chain alice protected_storage_prefix protected_storage_prefix
      (4 ∷ []) host vm_protects refl

not_protocol_protected : is_protocol_protected_key protected_storage_prefix host ≡ false
unfolding is_protocol_protected_key drt_go_chain_vm_v.Common.Bytes.has_prefix
not_protocol_protected = refl

set_protected_storage_stores_example :
    (let ((_, err), h') = set_protected_storage chain protected_storage_prefix (4 ∷ []) host in
      (err ≡ none)
      × (stored chain alice protected_storage_prefix h' ≡ (
          if bytes_eq alice alice && bytes_eq protected_storage_prefix protected_storage_prefix
          then 4 ∷ []
          else stored chain alice protected_storage_prefix host))
      × (h'.storage.vm_storage_protection_enabled ≡ true))
set_protected_storage_stores_example =
    set_protected_storage_stores chain alice protected_storage_prefix protected_storage_prefix
      (4 ∷ []) host refl not_protocol_protected
