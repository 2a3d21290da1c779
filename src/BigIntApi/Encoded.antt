-- ===== src/BigIntApi/Encoded.antt =====
-- vmhost/vmhooks/bigIntOps.go: the imports that move the bytes of big integers to and from the
-- memory, the storage, the arguments and the output.
use Prim.Native.String.{String}
use drt_go_chain_vm_v.BigInt.{get_one}
use drt_go_chain_vm_v.BigIntApi.{magnitude_bytes}
use drt_go_chain_vm_v.BigIntApi.Arith.{is_negative}
use drt_go_chain_vm_v.Blockchain.{set_output}
use drt_go_chain_vm_v.Common.{get_elem?, if◌then◌else◌, length, none, some, true, ℕ}
use drt_go_chain_vm_v.Common.Bytes.{Bytes}
use drt_go_chain_vm_v.Common.Int.{leb_ℤ, negsuc, pos, pos_part, ℤ}
use drt_go_chain_vm_v.Execution.Input.{set_bytes}
use drt_go_chain_vm_v.Host.Error.{VmError}
use drt_go_chain_vm_v.Metering.{use_gas}
use drt_go_chain_vm_v.Output.Account.{finish}
use drt_go_chain_vm_v.Overflow.{mul_uint64, wrap_int32}
use drt_go_chain_vm_v.Storage.{address_len}
use drt_go_chain_vm_v.Storage.Cache.{stored}
use drt_go_chain_vm_v.BigIntApi.{charged_one, set_big_int, set_value, with_fault}
use drt_go_chain_vm_v.Host.{BlockchainHook, Host}
use drt_go_chain_vm_v.Memory.{Outcome, fail, mem_load, mem_store, ok, panic}
use drt_go_chain_vm_v.SmallIntApi.{status_number}
use drt_go_chain_vm_v.Storage.{get_storage, set_storage}
use drt_go_chain_vm_v.Blockchain.{get_balance_big_int}

abbrev stopped : Host → Host
stopped h = record h { panicked = true }

-- `text` is the text of an error, `set_twos` and `twos_bytes` the two's complement encoding of the
-- library twos-complement.
module _ (text : VmError → String) (set_twos : Bytes → ℤ) (twos_bytes : ℤ → Bytes) where
  unfoldable pub big_int_get_signed_argument : ℤ → ℤ → Host → Host
  big_int_get_signed_argument id destination h =
      let h1 = use_gas h.metering.gas_schedule.big_int_api.big_int_get_signed_argument h in
      let args = h.runtime.vm_input.arguments in
      let (_, c) = get_one destination h1.big_int in
      if leb_ℤ (wrap_int32 (pos (length args))) id
      then h1
      else if is_negative id
      then stopped h1
      else elim (get_elem? args (pos_part id)) [
        | none ↦ stopped h1
        | some arg ↦ set_value destination (set_twos arg) (set_big_int c h1)
      ]

  unfoldable pub big_int_signed_byte_length : ℤ → Host → ℤ × Host
  unfolding charged_one
  big_int_signed_byte_length reference h =
      let (value, h1) =
        charged_one h.metering.gas_schedule.big_int_api.big_int_signed_byte_length reference h in
      (wrap_int32 (pos (length (twos_bytes value))), h1)

  unfoldable pub big_int_finish_signed : ℤ → Host → Host
  unfolding charged_one
  big_int_finish_signed reference h =
      let (value, h1) =
        charged_one h.metering.gas_schedule.big_int_api.big_int_finish_signed reference h in
      use_gas (mul_uint64 h.metering.gas_schedule.persist_per_byte (length (twos_bytes value)))
        (set_output (finish (twos_bytes value) h1.output) h1)

  -- The bytes of a value to the memory; the result has the memory after it. `grow` is memory.Grow.
  get_bytes : (Bytes → Outcome Bytes) → ℕ → (ℤ → Bytes) → ℤ → ℤ → Bytes → Host → (ℤ × Bytes) × Host
  unfolding charged_one
  get_bytes grow cost encode reference byte_offset memory h =
      let (value, h1) = charged_one cost reference h in
      let content = encode value in
      elim (mem_store grow memory byte_offset content) [
        | panic ↦ ((pos 0, memory), stopped h1)
        | fail e ↦ ((pos 0, memory), with_fault text e h1)
        | ok stored ↦ (
          (wrap_int32 (pos (length content)), stored),
          use_gas (mul_uint64 h1.metering.gas_schedule.data_copy_per_byte (length content)) h1,
        )
      ]

  unfoldable pub big_int_get_unsigned_bytes :
      (Bytes → Outcome Bytes) → ℤ → ℤ → Bytes → Host → (ℤ × Bytes) × Host
  unfolding get_bytes
  big_int_get_unsigned_bytes grow reference byte_offset memory h =
      get_bytes grow h.metering.gas_schedule.big_int_api.big_int_get_unsigned_bytes magnitude_bytes
        reference byte_offset memory h

  unfoldable pub big_int_get_signed_bytes :
      (Bytes → Outcome Bytes) → ℤ → ℤ → Bytes → Host → (ℤ × Bytes) × Host
  unfolding get_bytes
  big_int_get_signed_bytes grow reference byte_offset memory h =
      get_bytes grow h.metering.gas_schedule.big_int_api.big_int_get_signed_bytes twos_bytes
        reference byte_offset memory h

  -- `memory` is the memory of the instance that runs.
  set_from_memory : ℕ → (Bytes → ℤ) → Bytes → ℤ → ℤ → ℤ → Host → Host
  set_from_memory cost decode memory destination byte_offset byte_length h =
      let h1 = use_gas cost h in
      elim (mem_load memory byte_offset byte_length) [
        | panic ↦ stopped h1
        | fail e ↦ with_fault text e h1
        | ok content ↦
            let (_, c) = get_one destination h1.big_int in
            use_gas (mul_uint64 h1.metering.gas_schedule.data_copy_per_byte (length content))
              (set_value destination (decode content) (set_big_int c h1))
      ]

  unfoldable pub big_int_set_unsigned_bytes : Bytes → ℤ → ℤ → ℤ → Host → Host
  unfolding set_from_memory
  big_int_set_unsigned_bytes memory destination byte_offset byte_length h =
      set_from_memory h.metering.gas_schedule.big_int_api.big_int_set_unsigned_bytes
        (λ content. pos (set_bytes content)) memory destination byte_offset byte_length h

  unfoldable pub big_int_set_signed_bytes : Bytes → ℤ → ℤ → ℤ → Host → Host
  unfolding set_from_memory
  big_int_set_signed_bytes memory destination byte_offset byte_length h =
      set_from_memory h.metering.gas_schedule.big_int_api.big_int_set_signed_bytes set_twos memory
        destination byte_offset byte_length h

  module _ (hook : BlockchainHook) (memory : Bytes) where
    -- A key that cannot be read gives 0, a value that cannot be stored gives -1.
    unfoldable pub big_int_storage_store_unsigned : ℤ → ℤ → ℤ → Host → ℤ × Host
    big_int_storage_store_unsigned key_offset key_length source h =
        let h1 = use_gas h.metering.gas_schedule.big_int_api.big_int_storage_store_unsigned h in
        elim (mem_load memory key_offset key_length) [
          | panic ↦ (pos 0, stopped h1)
          | fail e ↦ (pos 0, with_fault text e h1)
          | ok key ↦
              let (value, c) = get_one source h1.big_int in
              let ((status, err), h2) =
                set_storage hook key (magnitude_bytes value) (set_big_int c h1) in
              elim err [
                | some e ↦ (negsuc 0, with_fault text e h2)
                | none ↦ (status_number status, h2)
              ]
        ]

    unfoldable pub big_int_storage_load_unsigned : ℤ → ℤ → ℤ → Host → ℤ × Host
    big_int_storage_load_unsigned key_offset key_length destination h =
        let h1 = use_gas h.metering.gas_schedule.big_int_api.big_int_storage_load_unsigned h in
        elim (mem_load memory key_offset key_length) [
          | panic ↦ (pos 0, stopped h1)
          | fail e ↦ (pos 0, with_fault text e h1)
          | ok key ↦
              let (content, h2) = get_storage hook key h1 in
              let (_, c) = get_one destination h2.big_int in
              (
                wrap_int32 (pos (length content)),
                set_value destination (pos (set_bytes content)) (set_big_int c h2),
              )
        ]

    unfoldable pub big_int_get_external_balance : ℤ → ℤ → Host → Host
    big_int_get_external_balance address_offset result h =
        let h1 = use_gas h.metering.gas_schedule.big_int_api.big_int_get_external_balance h in
        elim (mem_load memory address_offset (pos address_len)) [
          | panic ↦ stopped h1
          | fail e ↦ with_fault text e h1
          | ok address ↦
              let (balance, h2) = get_balance_big_int hook address h1 in
              let (_, c) = get_one result h2.big_int in
              set_value result (pos (set_bytes (magnitude_bytes balance))) (set_big_int c h2)
        ]
