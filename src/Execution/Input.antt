-- ===== src/Execution/Input.antt =====
-- vmhost/hostCore/execution.go: the inputs of calls, and the big-endian bytes of math/big.
use drt_go_chain_vm_v.Common.{
  Bool, List, Option, [], false, foldl, get_elem?, if◌then◌else◌, length, ltb, none, not, some, suc,
  take, zero, ℕ, ◌%◌, ◌*◌, ◌++◌, ◌+◌, ◌-◌, ◌/◌, ◌==◌, ◌^◌, ◌||◌, ◌∷◌,
}
use drt_go_chain_vm_v.Common.Bytes.{Bytes, bytes_eq}
use drt_go_chain_vm_v.Common.Int.{pos}
use drt_go_chain_vm_v.Host.{Host, RuntimeContext}
use drt_go_chain_vm_v.Host.Vm.{ContractCallInput, asynchronous_callback}
use drt_go_chain_vm_v.Metering.{is_callback}
use drt_go_chain_vm_v.Outside.{Outside}
use drt_go_chain_vm_v.Runtime.{empty_vm_input}

-- new(big.Int).SetBytes(bs)
unfoldable pub set_bytes : Bytes → ℕ
set_bytes bs = foldl (λ acc b. acc * 256 + b) 0 bs

unfoldable pub digits : ℕ → ℕ → Bytes → Bytes
digits zero n acc = acc
digits (suc fuel) n acc =
    let rest = digits fuel (n / 256) (n % 256 ∷ acc) in if n == 0 then acc else rest

-- The bytes of a big.Int that is not negative, the highest first. A number is below 256 to the
-- number, so the fuel is enough.
unfoldable pub big_bytes : ℕ → Bytes
unfolding digits
big_bytes n = digits n n []

-- The previous hash is never set in the input of a running contract, since SetVMInput leaves it out.
unfoldable pub copy_tx_hashes_from_context :
    Bool → RuntimeContext → ContractCallInput → ContractCallInput
copy_tx_hashes_from_context copy_enabled r input =
    let current = r.vm_input in
    if copy_enabled
    then record input {
      vm_input = record (input.vm_input) {
        original_tx_hash =
            (if ltb 0 (length current.original_tx_hash)
              then current.original_tx_hash
              else input.vm_input.original_tx_hash);
        current_tx_hash =
            (if ltb 0 (length current.current_tx_hash)
              then current.current_tx_hash
              else input.vm_input.current_tx_hash);
      };
    }
    else input

module _ (out : Outside) where
  unfoldable pub is_dcdt_transfer : Bytes → Bool
  is_dcdt_transfer function =
      bytes_eq function out.dcdt_transfer_name || bytes_eq function out.dcdt_nft_transfer_name

  -- fillWithDCDTValue: none where an argument is missing, which panics.
  unfoldable pub fill_with_dcdt_value :
      ContractCallInput → ContractCallInput → Option ContractCallInput
  unfolding is_dcdt_transfer
  fill_with_dcdt_value full new =
      let is_nft = bytes_eq full.function out.dcdt_nft_transfer_name in
      let filled : Bytes → ℕ → ℕ → ℕ → ContractCallInput = λ name token_type nonce value.
        record new {
          vm_input = record (new.vm_input) {
            dcdt_transfers =
                record {
                  dcdt_value = pos value;
                  dcdt_token_name = name;
                  dcdt_token_type = token_type;
                  dcdt_token_nonce = nonce;
                }
                ∷ [];
          };
        } in
      let argument : ℕ → Option Bytes = λ i. get_elem? full.vm_input.arguments i in
      if is_dcdt_transfer full.function
      then elim (argument 0) [
        | none ↦ none
        | some name ↦ elim (argument 1) [
          | none ↦ none
          | some first ↦
              if is_nft
              then elim (argument 2) [
                | none ↦ none
                | some second ↦
                    some
                      (filled name out.non_fungible (set_bytes first % 2 ^ 64) (set_bytes second))
              ]
              else some (filled name 0 0 (set_bytes first))
        ]
      ]
      else some new

  -- The input of RevertDCDTTransfer, none where it does nothing.
  unfoldable pub revert_input : ContractCallInput → Host → Option ContractCallInput
  unfolding is_dcdt_transfer
  revert_input input h =
      let is_nft = bytes_eq input.function out.dcdt_nft_transfer_name in
      let count = if is_nft then out.min_len_dcdt_nft_transfer else out.min_len_dcdt_transfer in
      let given = input.vm_input.arguments in
      let reverted : Bytes → Bytes → List Bytes → ContractCallInput = λ caller recipient arguments.
        record {
          vm_input = record empty_vm_input {
            caller_addr = caller;
            arguments = arguments;
            call_type = asynchronous_callback;
            gas_price = input.vm_input.gas_price;
            gas_provided = h.metering.block_gas_limit;
            original_tx_hash = input.vm_input.original_tx_hash;
            current_tx_hash = input.vm_input.current_tx_hash;
          };
          recipient_addr = recipient;
          function = input.function;
          allow_init_function = false;
        } in
      if not (is_dcdt_transfer input.function)
        || is_callback input.vm_input.call_type
        || ltb (length given) count
      then none
      else if is_nft
      then elim (get_elem? given (count - 1)) [
        | none ↦ none
        | some sender ↦
            some
              (reverted sender sender (take (count - 1) given ++ input.vm_input.caller_addr ∷ []))
      ]
      else some (reverted input.recipient_addr input.vm_input.caller_addr (take count given))
