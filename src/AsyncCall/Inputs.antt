-- ===== src/AsyncCall/Inputs.antt =====
-- vmhost/hostCore/asyncCall.go: the inputs of asynchronous calls and of their callbacks.
use drt_go_chain_vm_v.Common.{
  Bool, List, Option, [], drop, false, get_elem?, if◌then◌else◌, leb, length, ltb, none, not, some,
  true, ℕ, ◌%◌, ◌&&◌, ◌++◌, ◌+◌, ◌-◌, ◌==◌, ◌^◌, ◌||◌, ◌∷◌,
}
use drt_go_chain_vm_v.Common.Bytes.{Bytes, bytes_eq}
use drt_go_chain_vm_v.Common.Dict.{bytes_Eq, int_Eq, lookup}
use drt_go_chain_vm_v.Common.Int.{pos, ℤ}
use drt_go_chain_vm_v.Execution.Input.{big_bytes, set_bytes}
use drt_go_chain_vm_v.Host.{Host, is_vm_v3_enabled}
use drt_go_chain_vm_v.Host.Async.{AsyncCallInfo}
use drt_go_chain_vm_v.Host.Error.{VmError, not_enough_gas}
use drt_go_chain_vm_v.Host.Vm.{
  ContractCallInput, OutputTransfer, VmOutput, asynchronous_call, asynchronous_callback,
}
use drt_go_chain_vm_v.Memory.{Outcome, fail, ok}
use drt_go_chain_vm_v.Metering.{gas_left}
use drt_go_chain_vm_v.Output.Finish.{is_return_ok}
use drt_go_chain_vm_v.Outside.{Outside}
use drt_go_chain_vm_v.Overflow.{add_uint64, mul_uint64}
use drt_go_chain_vm_v.Runtime.{empty_vm_input}

unfoldable pub sum_lengths : List Bytes → ℕ → ℕ
sum_lengths [] n = n
sum_lengths (x ∷ xs) n = sum_lengths xs (add_uint64 n (length x))

unfoldable pub compute_data_length_from_arguments : Bytes → List Bytes → ℕ
unfolding sum_lengths
compute_data_length_from_arguments function arguments =
    sum_lengths arguments (add_uint64 (length function) (length arguments))

last_transfer : List OutputTransfer → Option OutputTransfer
last_transfer ts = get_elem? ts (length ts - 1)

-- The value that the last output transfer brought to the running contract.
unfoldable pub compute_call_value_from_last_output_transfer : VmOutput → Host → ℤ
unfolding last_transfer
compute_call_value_from_last_output_transfer o h =
    if not (is_vm_v3_enabled h) || ltb 0 (length o.return_data)
    then pos 0
    else elim (lookup h.runtime.sc_address o.output_accounts) [
      | none ↦ pos 0
      | some account ↦ elim (last_transfer account.output_transfers) [
        | none ↦ pos 0
        | some t ↦ if length t.payload == 0 then t.value else pos 0
      ]
    ]

module _ (out : Outside) where
  -- isDCDTTransferOnReturnDataWithNoAdditionalData: the function and the arguments of the transfer.
  unfoldable pub dcdt_transfer_on_return_data : VmOutput → Option (Bytes × List Bytes)
  dcdt_transfer_on_return_data o = elim o.return_data [
    | [] ↦ none
    | first ∷ _ ↦ elim (out.parse_data first) [
      | none ↦ none
      | some (function, args) ↦
          if bytes_eq function out.dcdt_transfer_name && length args == 2
            || bytes_eq function out.dcdt_nft_transfer_name && length args == 4
          then some (function, args)
          else none
    ]
  ]

  unfoldable pub create_destination_contract_call_input :
      AsyncCallInfo → Host → Outcome ContractCallInput
  create_destination_contract_call_input info h = elim (out.parse_data info.payload) [
    | none ↦ fail out.parse_error
    | some (function, arguments) ↦ ok (record {
      vm_input = record empty_vm_input {
        caller_addr = h.runtime.sc_address;
        arguments = arguments;
        call_value = pos (set_bytes info.value_bytes);
        call_type = asynchronous_call;
        gas_price = h.runtime.vm_input.gas_price;
        gas_provided = gas_left h;
        gas_locked = info.gas_locked;
        current_tx_hash = h.runtime.vm_input.current_tx_hash;
        original_tx_hash = h.runtime.vm_input.original_tx_hash;
      };
      recipient_addr = info.destination;
      function = function;
      allow_init_function = false;
    })
  ]

  -- The arguments of a callback: the return code, then the results or the message.
  unfoldable pub callback_arguments : VmOutput → Bool → List Bytes
  callback_arguments o succeeded =
      big_bytes (out.return_code_number o.return_code)
      ∷ (if succeeded then o.return_data else out.bytes_of_text o.return_message ∷ [])

  -- The arguments of a callback that carries a transfer of tokens.
  unfoldable pub transfer_arguments : Bytes → VmOutput → List Bytes → List Bytes
  transfer_arguments callback_function o args =
      args
      ++ callback_function ∷ big_bytes (out.return_code_number o.return_code) ∷ drop 1 o.return_data

  -- The gas of a callback, none where it is not enough. The sum is a uint64.
  unfoldable pub callback_gas : ℕ → VmOutput → Bytes → List Bytes → Host → Option ℕ
  callback_gas gas_locked o callback_function arguments h =
      let s = h.metering.gas_schedule in
      let gas_limit = (o.gas_remaining + gas_locked) % 2 ^ 64 in
      let copied =
        mul_uint64 s.data_copy_per_byte
          (compute_data_length_from_arguments callback_function arguments) in
      let gas_to_use = add_uint64 s.async_call_step copied in
      if leb gas_limit gas_to_use then none else some (gas_limit - gas_to_use)

  unfoldable pub create_callback_contract_call_input :
      AsyncCallInfo → VmOutput → Bytes → Bytes → Option VmError → Host → Outcome ContractCallInput
  unfolding callback_arguments transfer_arguments callback_gas
  create_callback_contract_call_input info o initiator callback_function destination_err h =
      let succeeded =
        is_return_ok o.return_code && elim destination_err [ none ↦ true | some _ ↦ false ] in
      let arguments = callback_arguments o succeeded in
      let transfer = if succeeded then dcdt_transfer_on_return_data o else none in
      elim (callback_gas info.gas_locked o callback_function arguments h) [
        | none ↦ fail not_enough_gas
        | some gas ↦
            let function : Bytes = elim transfer [
              | none ↦ callback_function
              | some (name, _) ↦ name
            ] in
            let passed : List Bytes = elim transfer [
              | none ↦ arguments
              | some (_, args) ↦ transfer_arguments callback_function o args
            ] in
            ok (record {
              vm_input = record empty_vm_input {
                caller_addr = initiator;
                arguments = passed;
                call_value = compute_call_value_from_last_output_transfer o h;
                call_type = asynchronous_callback;
                gas_price = h.runtime.vm_input.gas_price;
                gas_provided = gas;
                current_tx_hash = h.runtime.vm_input.current_tx_hash;
                original_tx_hash = h.runtime.vm_input.original_tx_hash;
              };
              recipient_addr = h.runtime.sc_address;
              function = function;
              allow_init_function = false;
            })
      ]
