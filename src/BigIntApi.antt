-- ===== src/BigIntApi.antt =====
-- vmhost/vmhooks/bigIntOps.go: the imports of a contract for big integers. A pointer that the
-- context returns for a handle is the handle: the routine reads the values of its operands and then
-- writes the destination.
pub mod Arith
pub mod Division
pub mod Encoded
pub mod Effects
mod Tests
use drt_go_chain_vm_v.BigIntApi.Arith.{
  bit_len, cmp, div_e, is_negative, magnitude, mod_e, not_z, quo, rem, sign, ◌*ℤ◌,
}
use Prim.Native.Nat.{bit_and, bit_or, bit_xor}
use Prim.Native.String.{String}
use drt_go_chain_vm_v.BigInt.{get_one, get_three, get_two, put}
use drt_go_chain_vm_v.Blockchain.{set_output}
use drt_go_chain_vm_v.Common.{
  List, Option, [], get_elem?, if◌then◌else◌, length, ltb, none, some, true, ℕ, ◌&&◌, ◌*◌, ◌+◌, ◌/◌,
  ◌^◌, ◌||◌, ◌∷◌,
}
use drt_go_chain_vm_v.Common.Bytes.{Bytes}
use drt_go_chain_vm_v.Common.Dict.{bytes_Eq, insert, int_Eq}
use drt_go_chain_vm_v.Common.Int.{eq_ℤ, leb_ℤ, neg_part, pos, pos_part, ℤ, ◌+ℤ◌, ◌-ℤ◌}
use drt_go_chain_vm_v.Execution.Input.{big_bytes, set_bytes}
use drt_go_chain_vm_v.Host.{BigIntContext, Host}
use drt_go_chain_vm_v.Host.Error.{VmError, bitwise_negative, div_zero, other_error, shift_negative}
use drt_go_chain_vm_v.Metering.{gas_left, use_gas}
use drt_go_chain_vm_v.Output.Account.{finish}
use drt_go_chain_vm_v.Overflow.{max_int64, min_int64, mul_uint64, wrap_int32, wrap_int64}
use drt_go_chain_vm_v.Runtime.Control.{fail_execution}

abbrev set_big_int : BigIntContext → Host → Host
set_big_int c h = record h { big_int = c }

-- The write through the pointer of a handle.
unfoldable pub set_value : ℤ → ℤ → Host → Host
set_value handle value h =
    set_big_int (record (h.big_int) { values = insert handle value h.big_int.values }) h

-- useExtraGasForOperations, with maxBigIntByteLenForNormalCost of 32
unfoldable pub use_extra_gas_for_operations : List ℤ → Host → Host
use_extra_gas_for_operations [] h = h
use_extra_gas_for_operations (value ∷ values) h =
    let byte_len = bit_len value / 8 in
    use_extra_gas_for_operations values (
      if ltb 32 byte_len
      then use_gas (mul_uint64 byte_len h.metering.gas_schedule.data_copy_per_byte) h
      else h)

-- WithFault of vmhost/helpers.go for an error, where the execution fails: BigIntAPIErrorShouldFailExecution
-- is always true.
unfoldable pub with_fault : (VmError → String) → VmError → Host → Host
with_fault text e h = fail_execution (text e) (use_gas (gas_left h) h)

-- The gas of a hook, and the operands with the destination in front.
charged_three : ℕ → ℤ → ℤ → ℤ → Host → (ℤ × ℤ × ℤ) × Host
charged_three cost destination op1 op2 h =
    let h1 = use_gas cost h in
    let (values, c) = get_three destination op1 op2 h1.big_int in (values, set_big_int c h1)

charged_two : ℕ → ℤ → ℤ → Host → (ℤ × ℤ) × Host
charged_two cost destination op h =
    let h1 = use_gas cost h in
    let (values, c) = get_two destination op h1.big_int in (values, set_big_int c h1)

charged_one : ℕ → ℤ → Host → ℤ × Host
charged_one cost handle h =
    let h1 = use_gas cost h in
    let (value, c) = get_one handle h1.big_int in (value, set_big_int c h1)

-- An operation on two operands that never fails.
total_three : ℕ → (ℤ → ℤ → ℤ) → ℤ → ℤ → ℤ → Host → Host
unfolding charged_three
total_three cost f destination op1 op2 h =
    let ((d, a, b), h1) = charged_three cost destination op1 op2 h in
    set_value destination (f a b) (use_extra_gas_for_operations (d ∷ a ∷ b ∷ []) h1)

-- An operation on one operand that never fails.
total_two : ℕ → (ℤ → ℤ) → ℤ → ℤ → Host → Host
unfolding charged_two
total_two cost f destination op h =
    let ((d, a), h1) = charged_two cost destination op h in
    set_value destination (f a) (use_extra_gas_for_operations (d ∷ a ∷ []) h1)

unfoldable pub big_int_new : ℤ → Host → Option (ℤ × Host)
big_int_new small_value h =
    let h1 = use_gas h.metering.gas_schedule.big_int_api.big_int_new h in
    elim (put small_value h1.big_int) [
      | none ↦ none
      | some (handle, c) ↦ some (handle, set_big_int c h1)
    ]

-- An argument that is missing leaves the destination. A negative index panics.
unfoldable pub big_int_get_unsigned_argument : ℤ → ℤ → Host → Host
big_int_get_unsigned_argument id destination h =
    let h1 = use_gas h.metering.gas_schedule.big_int_api.big_int_get_unsigned_argument h in
    let args = h.runtime.vm_input.arguments in
    let (_, c) = get_one destination h1.big_int in
    if leb_ℤ (wrap_int32 (pos (length args))) id
    then h1
    else if is_negative id
    then record h1 { panicked = true }
    else elim (get_elem? args (pos_part id)) [
      | none ↦ record h1 { panicked = true }
      | some arg ↦ set_value destination (pos (set_bytes arg)) (set_big_int c h1)
    ]

unfoldable pub big_int_get_call_value : ℤ → Host → Host
unfolding charged_one
big_int_get_call_value destination h =
    let (_, h1) =
      charged_one h.metering.gas_schedule.big_int_api.big_int_get_call_value destination h in
    set_value destination h.runtime.vm_input.call_value h1

-- value.Bytes(), the bytes of the magnitude.
abbrev magnitude_bytes : ℤ → Bytes
magnitude_bytes value = big_bytes (pos_part value + neg_part value)

-- The length is an int32.
unfoldable pub big_int_unsigned_byte_length : ℤ → Host → ℤ × Host
unfolding charged_one
big_int_unsigned_byte_length reference h =
    let (value, h1) =
      charged_one h.metering.gas_schedule.big_int_api.big_int_unsigned_byte_length reference h in
    (wrap_int32 (pos (length (magnitude_bytes value))), h1)

unfoldable pub big_int_is_int64 : ℤ → Host → ℤ × Host
unfolding charged_one
big_int_is_int64 destination h =
    let (value, h1) =
      charged_one h.metering.gas_schedule.big_int_api.big_int_is_int64 destination h in
    (if leb_ℤ min_int64 value && leb_ℤ value max_int64 then pos 1 else pos 0, h1)

-- Int64 gives the low 64 bits.
unfoldable pub big_int_get_int64 : ℤ → Host → ℤ × Host
unfolding charged_one
big_int_get_int64 destination h =
    let (value, h1) =
      charged_one h.metering.gas_schedule.big_int_api.big_int_get_int64 destination h in
    (wrap_int64 value, h1)

unfoldable pub big_int_set_int64 : ℤ → ℤ → Host → Host
unfolding charged_one
big_int_set_int64 destination value h =
    let (_, h1) = charged_one h.metering.gas_schedule.big_int_api.big_int_sub destination h in
    set_value destination value h1

unfoldable pub big_int_add : ℤ → ℤ → ℤ → Host → Host
unfolding total_three
big_int_add destination op1 op2 h =
    total_three h.metering.gas_schedule.big_int_api.big_int_sub (λ a b. a +ℤ b) destination op1 op2
      h

unfoldable pub big_int_sub : ℤ → ℤ → ℤ → Host → Host
unfolding total_three
big_int_sub destination op1 op2 h =
    total_three h.metering.gas_schedule.big_int_api.big_int_sub (λ a b. a -ℤ b) destination op1 op2
      h

unfoldable pub big_int_mul : ℤ → ℤ → ℤ → Host → Host
unfolding total_three
big_int_mul destination op1 op2 h =
    total_three h.metering.gas_schedule.big_int_api.big_int_mul (λ a b. a *ℤ b) destination op1 op2
      h

unfoldable pub big_int_abs : ℤ → ℤ → Host → Host
unfolding total_two
big_int_abs destination op h =
    total_two h.metering.gas_schedule.big_int_api.big_int_sub (λ a. pos (magnitude a)) destination
      op h

unfoldable pub big_int_neg : ℤ → ℤ → Host → Host
unfolding total_two
big_int_neg destination op h =
    total_two h.metering.gas_schedule.big_int_api.big_int_sub (λ a. pos 0 -ℤ a) destination op h

unfoldable pub big_int_sign : ℤ → Host → ℤ × Host
unfolding charged_one
big_int_sign op h =
    let (a, h1) = charged_one h.metering.gas_schedule.big_int_api.big_int_sign op h in
    (sign a, use_extra_gas_for_operations (a ∷ []) h1)

unfoldable pub big_int_cmp : ℤ → ℤ → Host → ℤ × Host
unfolding charged_two
big_int_cmp op1 op2 h =
    let ((a, b), h1) = charged_two h.metering.gas_schedule.big_int_api.big_int_cmp op1 op2 h in
    (cmp a b, use_extra_gas_for_operations (a ∷ b ∷ []) h1)

-- The bytes are the magnitude's; their copy is charged after they are returned.
unfoldable pub big_int_finish_unsigned : ℤ → Host → Host
unfolding charged_one
big_int_finish_unsigned reference h =
    let (value, h1) =
      charged_one h.metering.gas_schedule.big_int_api.big_int_finish_unsigned reference h in
    let content = magnitude_bytes value in
    use_gas (mul_uint64 h.metering.gas_schedule.persist_per_byte (length content))
      (set_output (finish content h1.output) h1)

-- `text` is the text of an error.
module _ (text : VmError → String) where
  -- A division, which refuses a zero divisor.
  division : ℕ → (ℤ → ℤ → ℤ) → ℤ → ℤ → ℤ → Host → Host
  unfolding charged_three
  division cost f destination op1 op2 h =
      let ((d, a, b), h1) = charged_three cost destination op1 op2 h in
      let h2 = use_extra_gas_for_operations (d ∷ a ∷ b ∷ []) h1 in
      if eq_ℤ b (pos 0)
      then with_fault text (other_error div_zero) h2
      else set_value destination (f a b) h2

  unfoldable pub big_int_t_div : ℤ → ℤ → ℤ → Host → Host
  unfolding division
  big_int_t_div destination op1 op2 h =
      division h.metering.gas_schedule.big_int_api.big_int_t_div quo destination op1 op2 h

  unfoldable pub big_int_t_mod : ℤ → ℤ → ℤ → Host → Host
  unfolding division
  big_int_t_mod destination op1 op2 h =
      division h.metering.gas_schedule.big_int_api.big_int_sub rem destination op1 op2 h

  unfoldable pub big_int_e_div : ℤ → ℤ → ℤ → Host → Host
  unfolding division
  big_int_e_div destination op1 op2 h =
      division h.metering.gas_schedule.big_int_api.big_int_sub div_e destination op1 op2 h

  unfoldable pub big_int_e_mod : ℤ → ℤ → ℤ → Host → Host
  unfolding division
  big_int_e_mod destination op1 op2 h =
      division h.metering.gas_schedule.big_int_api.big_int_sub mod_e destination op1 op2 h

  unfoldable pub big_int_not : ℤ → ℤ → Host → Host
  unfolding charged_two
  big_int_not destination op h =
      let ((d, a), h1) =
        charged_two h.metering.gas_schedule.big_int_api.big_int_sub destination op h in
      let h2 = use_extra_gas_for_operations (d ∷ a ∷ []) h1 in
      if is_negative a
      then with_fault text (other_error bitwise_negative) h2
      else set_value destination (not_z a) h2

  -- An operation on binary digits, which refuses negative operands.
  bitwise_three : (ℕ → ℕ → ℕ) → ℤ → ℤ → ℤ → Host → Host
  unfolding charged_three
  bitwise_three f destination op1 op2 h =
      let ((_, a, b), h1) =
        charged_three h.metering.gas_schedule.big_int_api.big_int_sub destination op1 op2 h in
      let h2 = use_extra_gas_for_operations (a ∷ b ∷ []) h1 in
      if is_negative a || is_negative b
      then with_fault text (other_error bitwise_negative) h2
      else set_value destination (pos (f (pos_part a) (pos_part b))) h2

  unfoldable pub big_int_and : ℤ → ℤ → ℤ → Host → Host
  unfolding bitwise_three
  big_int_and destination op1 op2 h = bitwise_three bit_and destination op1 op2 h

  unfoldable pub big_int_or : ℤ → ℤ → ℤ → Host → Host
  unfolding bitwise_three
  big_int_or destination op1 op2 h = bitwise_three bit_or destination op1 op2 h

  unfoldable pub big_int_xor : ℤ → ℤ → ℤ → Host → Host
  unfolding bitwise_three
  big_int_xor destination op1 op2 h = bitwise_three bit_xor destination op1 op2 h

  -- A shift by a number of bits, whose result is charged too.
  shift : (ℕ → ℕ → ℕ) → ℤ → ℤ → ℤ → Host → Host
  unfolding charged_two
  shift f destination op bits h =
      let ((_, a), h1) =
        charged_two h.metering.gas_schedule.big_int_api.big_int_sub destination op h in
      let h2 = use_extra_gas_for_operations (a ∷ []) h1 in
      let result = pos (f (pos_part a) (pos_part bits)) in
      if is_negative a || is_negative bits
      then with_fault text (other_error shift_negative) h2
      else use_extra_gas_for_operations (result ∷ []) (set_value destination result h2)

  unfoldable pub big_int_shr : ℤ → ℤ → ℤ → Host → Host
  unfolding shift
  big_int_shr destination op bits h = shift (λ a n. a / 2 ^ n) destination op bits h

  unfoldable pub big_int_shl : ℤ → ℤ → ℤ → Host → Host
  unfolding shift
  big_int_shl destination op bits h = shift (λ a n. a * 2 ^ n) destination op bits h
