-- ===== src/SmallIntApi.antt =====
-- vmhost/vmhooks/smallIntOps.go: the imports of a contract for 64-bit integers.
pub mod Stored
pub mod Values
mod Tests
use drt_go_chain_vm_v.Overflow.{bits64}
use Prim.Native.String.{String}
use drt_go_chain_vm_v.BigIntApi.{with_fault}
use drt_go_chain_vm_v.BigIntApi.Arith.{is_negative}
use drt_go_chain_vm_v.Blockchain.{set_output}
use drt_go_chain_vm_v.Common.{
  Option, get_elem?, if◌then◌else◌, length, ltb, none, some, true, ℕ, ◌&&◌, ◌-◌, ◌^◌, ◌||◌,
}
use drt_go_chain_vm_v.Common.Bytes.{Bytes}
use drt_go_chain_vm_v.Execution.Input.{big_bytes, set_bytes}
use drt_go_chain_vm_v.Host.{Host}
use drt_go_chain_vm_v.Host.Error.{
  VmError, arg_index_out_of_range, arg_out_of_range, other_error, storage_value_out_of_range,
}
use drt_go_chain_vm_v.Host.Vm.{BlockchainHook}
use drt_go_chain_vm_v.Metering.{use_gas}
use drt_go_chain_vm_v.Output.Account.{finish}
use drt_go_chain_vm_v.Overflow.{max_int64, min_int64, wrap_int32, wrap_int64}
use drt_go_chain_vm_v.Common.Int.{negsuc, pos, pos_part, ℤ, leb_ℤ}
use drt_go_chain_vm_v.Memory.{Outcome, mem_load, ok, fail, panic}
use drt_go_chain_vm_v.Storage.{
  StorageStatus, get_storage, set_storage, storage_unchanged, storage_modified, storage_added,
  storage_deleted,
}

unfoldable pub status_number : StorageStatus → ℤ
status_number storage_unchanged = pos 0
status_number storage_modified = pos 1
status_number storage_added = pos 2
status_number storage_deleted = pos 3

-- value.IsUint64 and the value as an int64, none where it does not fit
unfoldable pub of_unsigned : Bytes → Option ℤ
of_unsigned bs =
    let value = set_bytes bs in if ltb value (2 ^ 64) then some (wrap_int64 (pos value)) else none

-- The bytes of uint64(value)
unfoldable pub to_unsigned : ℤ → Bytes
to_unsigned value = big_bytes (bits64 value)

abbrev panicking : Host → Host
panicking h = record h { panicked = true }

-- `text` is the text of an error, `set_twos` and `twos_bytes` the two's complement encoding of the
-- library twos-complement.
module _ (text : VmError → String) (set_twos : Bytes → ℤ) (twos_bytes : ℤ → Bytes) where
  unfoldable pub of_signed : Bytes → Option ℤ
  of_signed bs =
      let value = set_twos bs in
      if leb_ℤ min_int64 value && leb_ℤ value max_int64 then some value else none

  -- A value that does not fit is a fault, and the result is 0.
  decoded : VmError → Option ℤ → Host → ℤ × Host
  decoded e none h = (pos 0, with_fault text e h)
  decoded e (some value) h = (value, h)

  get_argument : (Bytes → Option ℤ) → ℤ → Host → ℤ × Host
  unfolding decoded
  get_argument decode id h =
      let h1 = use_gas h.metering.gas_schedule.int64_get_argument h in
      let args = h.runtime.vm_input.arguments in
      let out_of_range : ℤ × Host =
        (pos 0, with_fault text (other_error arg_index_out_of_range) h1) in
      if is_negative id || leb_ℤ (wrap_int32 (pos (length args))) id
      then out_of_range
      else elim (get_elem? args (pos_part id)) [
        | none ↦ (pos 0, panicking h1)
        | some arg ↦ decoded (other_error arg_out_of_range) (decode arg) h1
      ]

  unfoldable pub small_int_get_unsigned_argument : ℤ → Host → ℤ × Host
  unfolding get_argument
  small_int_get_unsigned_argument id h = get_argument of_unsigned id h

  unfoldable pub small_int_get_signed_argument : ℤ → Host → ℤ × Host
  unfolding get_argument
  small_int_get_signed_argument id h = get_argument of_signed id h

  finish_bytes : Bytes → Host → Host
  finish_bytes bs h =
      let h1 = use_gas h.metering.gas_schedule.int64_finish h in set_output (finish bs h1.output) h1

  unfoldable pub small_int_finish_unsigned : ℤ → Host → Host
  unfolding finish_bytes
  small_int_finish_unsigned value h = finish_bytes (to_unsigned value) h

  unfoldable pub small_int_finish_signed : ℤ → Host → Host
  unfolding finish_bytes
  small_int_finish_signed value h = finish_bytes (twos_bytes value) h

  -- The names of before
  unfoldable pub int64get_argument : ℤ → Host → ℤ × Host
  unfolding small_int_get_signed_argument
  int64get_argument id h = small_int_get_signed_argument id h

  unfoldable pub int64finish : ℤ → Host → Host
  unfolding small_int_finish_signed
  int64finish value h = small_int_finish_signed value h

  -- `memory` is the memory of the instance that runs.
  module _ (hook : BlockchainHook) (memory : Bytes) where
    storage_store : Bytes → ℤ → ℤ → Host → ℤ × Host
    storage_store value key_offset key_length h =
        let h1 = use_gas h.metering.gas_schedule.int64_storage_store h in
        elim (mem_load memory key_offset key_length) [
          | panic ↦ (pos 0, panicking h1)
          | fail e ↦ (negsuc 0, with_fault text e h1)
          | ok key ↦
              let ((status, err), h2) = set_storage hook key value h1 in
              elim err [
                | some e ↦ (negsuc 0, with_fault text e h2)
                | none ↦ (status_number status, h2)
              ]
        ]

    unfoldable pub small_int_storage_store_unsigned : ℤ → ℤ → ℤ → Host → ℤ × Host
    unfolding storage_store
    small_int_storage_store_unsigned key_offset key_length value h =
        storage_store (to_unsigned value) key_offset key_length h

    unfoldable pub small_int_storage_store_signed : ℤ → ℤ → ℤ → Host → ℤ × Host
    unfolding storage_store
    small_int_storage_store_signed key_offset key_length value h =
        storage_store (twos_bytes value) key_offset key_length h

    storage_load : (Bytes → Option ℤ) → ℤ → ℤ → Host → ℤ × Host
    unfolding decoded
    storage_load decode key_offset key_length h =
        let h1 = use_gas h.metering.gas_schedule.int64_storage_load h in
        elim (mem_load memory key_offset key_length) [
          | panic ↦ (pos 0, panicking h1)
          | fail e ↦ (pos 0, with_fault text e h1)
          | ok key ↦
              let (content, h2) = get_storage hook key h1 in
              decoded (other_error storage_value_out_of_range) (decode content) h2
        ]

    unfoldable pub small_int_storage_load_unsigned : ℤ → ℤ → Host → ℤ × Host
    unfolding storage_load
    small_int_storage_load_unsigned key_offset key_length h =
        storage_load of_unsigned key_offset key_length h

    unfoldable pub small_int_storage_load_signed : ℤ → ℤ → Host → ℤ × Host
    unfolding storage_load
    small_int_storage_load_signed key_offset key_length h =
        storage_load of_signed key_offset key_length h

    unfoldable pub int64storage_store : ℤ → ℤ → ℤ → Host → ℤ × Host
    unfolding small_int_storage_store_unsigned
    int64storage_store key_offset key_length value h =
        small_int_storage_store_unsigned key_offset key_length value h

    unfoldable pub int64storage_load : ℤ → ℤ → Host → ℤ × Host
    unfolding small_int_storage_load_unsigned
    int64storage_load key_offset key_length h =
        small_int_storage_load_unsigned key_offset key_length h
