-- ===== src/Storage/Protection.antt =====
-- The protected keys of vmhost/contexts/storage.go.
use drt_go_chain_vm_v.Common.{
  Bool, Bool-cases, Option-cases, ap, arith, false, if◌then◌else◌, inl, inr, none, refl, some, true,
  ◌&&◌, ◌∙◌, ◌≡◌, ◌⊎◌,
}
use drt_go_chain_vm_v.Common.Bytes.{Bytes, bytes_eq, bytes_eq_iff}
use drt_go_chain_vm_v.Host.{BlockchainHook, Host}
use drt_go_chain_vm_v.Host.Error.{VmError}
use drt_go_chain_vm_v.Storage.{
  is_protocol_protected_key, is_vm_protected_key, set_protected_storage, set_protection,
  set_storage, store_value,
}
use drt_go_chain_vm_v.Storage.Cache.{stored}
use drt_go_chain_vm_v.Storage.Update.{set_storage_stores}

module _ (hook : BlockchainHook) where
  -- A write that returns an error has done nothing.
  pub set_storage_refused :
      (key value : Bytes) (h : Host) (err : VmError)
      → (set_storage hook key value h).0.1 ≡ some err
      → (set_storage hook key value h).1 ≡ h
  unfolding set_storage store_value
  set_storage_refused key value h err e = ground arith

  set_storage_read_only :
      (key value : Bytes) (h : Host)
      → h.runtime.read_only ≡ true
      → (set_storage hook key value h).1 ≡ h
  unfolding set_storage
  set_storage_read_only key value h e = ground arith

  set_storage_guard :
      (key value : Bytes) (h : Host)
      → h.runtime.read_only ≡ false
      → (set_storage hook key value h).0.1 ≡ none
      → (is_protocol_protected_key key h ≡ false)
        × ((is_vm_protected_key key && h.storage.vm_storage_protection_enabled) ≡ false)
  unfolding set_storage
  set_storage_guard key value h writable e = ground arith

  -- No SetStorage changes what is stored, at any address, under a key that the protocol protects, nor
  -- anything at all in read-only mode.
  pub set_storage_protects :
      (a k key value : Bytes) (h : Host)
      → ((is_protocol_protected_key k h ≡ true) ⊎ (h.runtime.read_only ≡ true))
      → stored hook a k (set_storage hook key value h).1 ≡ stored hook a k h
  set_storage_protects a k key value h protected = elim (Bool-cases h.runtime.read_only) [
    | inl read_only ↦
        ap (λ (g : Host). stored hook a k g) (set_storage_read_only key value h read_only)
    | inr writable ↦ elim (Option-cases (set_storage hook key value h).0.1) [
      | inr (err, refused) ↦
          ap (λ (g : Host). stored hook a k g) (set_storage_refused key value h err refused)
      | inl accepted ↦ ground (
        arith,
        (set_storage_guard key value h writable accepted).0,
        (set_storage_stores hook a k key value h writable accepted).0,
        bytes_eq_iff key k,
      )
    ]
  ]

  -- While the protection is on, no SetStorage changes what is stored, at any address, under a key with
  -- the VM's own prefix.
  pub set_storage_protects_vm_keys :
      (a k key value : Bytes) (h : Host)
      → is_vm_protected_key k ≡ true
      → h.storage.vm_storage_protection_enabled ≡ true
      → stored hook a k (set_storage hook key value h).1 ≡ stored hook a k h
  set_storage_protects_vm_keys a k key value h protected on =
      elim (Bool-cases h.runtime.read_only) [
        | inl read_only ↦
            ap (λ (g : Host). stored hook a k g) (set_storage_read_only key value h read_only)
        | inr writable ↦ elim (Option-cases (set_storage hook key value h).0.1) [
          | inr (err, refused) ↦
              ap (λ (g : Host). stored hook a k g) (set_storage_refused key value h err refused)
          | inl accepted ↦ ground (
            arith,
            (set_storage_guard key value h writable accepted).1,
            (set_storage_stores hook a k key value h writable accepted).0,
            bytes_eq_iff key k,
          )
        ]
      ]

  protected-accepted :
      (key value : Bytes) (h : Host)
      → h.runtime.read_only ≡ false
      → is_protocol_protected_key key h ≡ false
      → (set_storage hook key value (set_protection false h)).0.1 ≡ none
  unfolding set_storage set_protection is_protocol_protected_key store_value
  protected-accepted key value h writable free = ground arith

  stored-set_protection :
      (a k : Bytes) (b : Bool) (h : Host) → stored hook a k (set_protection b h) ≡ stored hook a k h
  unfolding set_protection stored
  stored-set_protection a k b h = refl

  -- SetProtectedStorage, out of read-only mode and for a key that the protocol does not protect,
  -- stores the value also under a key with the VM's prefix and changes nothing else that is stored.
  -- It returns no error, and the protection is on afterwards.
  pub set_protected_storage_stores :
      (a k key value : Bytes) (h : Host)
      → h.runtime.read_only ≡ false
      → is_protocol_protected_key key h ≡ false
      → let ((_, err), h') = set_protected_storage hook key value h in
        (err ≡ none)
        × (stored hook a k h'
            ≡ (if bytes_eq h.storage.address a && bytes_eq key k then value else stored hook a k h))
        × (h'.storage.vm_storage_protection_enabled ≡ true)
  unfolding set_protected_storage set_protection
  set_protected_storage_stores a k key value h writable free =
      let accepted = protected-accepted key value h writable free in
      let open_host = set_protection false h in
      (
        accepted,
        stored-set_protection a k true (set_storage hook key value open_host).1
            ∙ (set_storage_stores hook a k key value open_host writable accepted).0
            ∙ ap
                (λ (v : Bytes). if bytes_eq h.storage.address a && bytes_eq key k then value else v)
                (stored-set_protection a k false h),
        refl,
      )
