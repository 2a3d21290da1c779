-- ===== src/Execution/Builtin.antt =====
-- vmhost/hostCore/execution.go: the built-in functions of the protocol, which the node processes.
use Prim.Native.String.{String}
use drt_go_chain_vm_v.Blockchain.{are_in_same_shard}
use drt_go_chain_vm_v.Common.{
  Bool, List, Option, [], false, get_elem?, if◌then◌else◌, length, ltb, none, not, some, true, ℕ,
  ◌&&◌, ◌++◌, ◌+◌, ◌==◌, ◌||◌, ◌∷◌,
}
use drt_go_chain_vm_v.Common.Bytes.{Bytes, bytes_eq}
use drt_go_chain_vm_v.Common.Dict.{Dict, bytes_Eq, insert, int_Eq, lookup}
use drt_go_chain_vm_v.Common.Int.{neg_part, pos, pos_part, ℤ}
use drt_go_chain_vm_v.Execution.{compute_gas_used_in_execution_before_reset}
use drt_go_chain_vm_v.Execution.Input.{
  big_bytes, fill_with_dcdt_value, is_dcdt_transfer, revert_input,
}
use drt_go_chain_vm_v.Host.{Host}
use drt_go_chain_vm_v.Host.Error.{VmError, execution_failed_error, not_enough_gas}
use drt_go_chain_vm_v.Host.Runtime.{set_points_used}
use drt_go_chain_vm_v.Host.Vm.{CallType, ContractCallInput, OutputAccount, OutputTransfer, VmOutput}
use drt_go_chain_vm_v.Memory.{Outcome, fail, ok, panic}
use drt_go_chain_vm_v.Metering.{forward_gas, gas_left, is_callback, use_gas}
use drt_go_chain_vm_v.Output.{blank_account}
use drt_go_chain_vm_v.Output.Active.{add_to_active_state}
use drt_go_chain_vm_v.Output.Finish.{is_return_ok}
use drt_go_chain_vm_v.Outside.{Outside}
use drt_go_chain_vm_v.Overflow.{add_uint64, sub_uint64}
use drt_go_chain_vm_v.Runtime.{empty_vm_input}
use drt_go_chain_vm_v.Runtime.Control.{fail_execution}

-- metering.UseGas(metering.GasLeft()), then runtime.FailExecution
unfoldable pub fail_with : String → Host → Host
fail_with message h = fail_execution message (use_gas (gas_left h) h)

-- The gas that the output transfers of a built-in function lock and forward. The destination of
-- the source's ForwardGas is nil.
unfoldable pub forward_transfer : Bool → OutputTransfer → ℕ × Host → ℕ × Host
forward_transfer callback t (gas_consumed, h) =
    let forwarded = add_uint64 t.gas_locked t.gas_limit in
    let with_locked = add_uint64 gas_consumed t.gas_locked in
    if ltb 0 t.gas_limit || ltb 0 t.gas_locked
    then (if callback
        then ((sub_uint64 with_locked t.gas_limit).0, h)
        else (with_locked, forward_gas h.runtime.sc_address [] forwarded h))
    else (gas_consumed, h)

unfoldable pub forward_transfers : Bool → List OutputTransfer → ℕ × Host → ℕ × Host
unfolding forward_transfer
forward_transfers callback [] acc = acc
forward_transfers callback (t ∷ ts) acc =
    forward_transfers callback ts (forward_transfer callback t acc)

unfoldable pub forward_accounts : Bool → Dict Bytes OutputAccount → ℕ × Host → ℕ × Host
forward_accounts callback [] acc = acc
forward_accounts callback ((_, a) ∷ m) acc =
    forward_accounts callback m (forward_transfers callback a.output_transfers acc)

unfoldable pub drop_transfers : Dict Bytes OutputAccount → Dict Bytes OutputAccount
drop_transfers [] = []
drop_transfers ((k, a) ∷ m) = (k, record a { output_transfers = [] }) ∷ drop_transfers m

-- The gas that the transfers of an output take from what a transfer of tokens consumed.
sub_transfers : List OutputTransfer → ℕ → ℕ
sub_transfers [] gas = gas
sub_transfers (t ∷ ts) gas = sub_transfers ts (sub_uint64 gas t.gas_limit).0

sub_accounts : Dict Bytes OutputAccount → ℕ → ℕ
sub_accounts [] gas = gas
sub_accounts ((_, a) ∷ m) gas = sub_accounts m (sub_transfers a.output_transfers gas)

module _ (out : Outside) where
  joined : List Bytes → Bytes
  joined [] = []
  joined (arg ∷ args) = 64 ∷ out.hex arg ++ joined args

  unfoldable pub add_output_transfer_to_vm_output :
      Bytes → List Bytes → Bytes → Bytes → CallType → VmOutput → VmOutput
  unfolding joined
  add_output_transfer_to_vm_output function arguments sender recipient call_type o =
      let account : OutputAccount = elim (lookup recipient o.output_accounts) [
        | some a ↦ a
        | none ↦ record blank_account { address = recipient }
      ] in
      let transfer : OutputTransfer = record {
        value = pos 0;
        gas_limit = 0;
        gas_locked = 0;
        payload = function ++ joined arguments;
        call_type = call_type;
        sender_address = sender;
      } in
      record o {
        output_accounts =
            insert recipient
              (record account { output_transfers = account.output_transfers ++ transfer ∷ [] })
              o.output_accounts;
      }

  unfoldable pub add_dcdt_transfer_to_vm_output : ContractCallInput → VmOutput → VmOutput
  unfolding add_output_transfer_to_vm_output
  add_dcdt_transfer_to_vm_output input o =
      let add : Bytes → VmOutput = λ recipient.
        add_output_transfer_to_vm_output input.function input.vm_input.arguments
          input.vm_input.caller_addr recipient input.vm_input.call_type o in
      if not (is_return_ok o.return_code)
        || not (are_in_same_shard out.hook input.recipient_addr input.vm_input.caller_addr)
        || not (is_dcdt_transfer out input.function)
      then o
      else if bytes_eq input.function out.dcdt_nft_transfer_name
      then (if length input.vm_input.arguments == 4
          then elim (get_elem? input.vm_input.arguments 3) [ none ↦ o | some r ↦ add r ]
          else o)
      else add input.recipient_addr

  -- The only output transfer of the recipient, which carries the call of a contract.
  call_transfer : Bytes → VmOutput → Option OutputTransfer
  call_transfer recipient o = elim (lookup recipient o.output_accounts) [
    | none ↦ none
    | some account ↦
        if length account.output_transfers == 1 then get_elem? account.output_transfers 0 else none
  ]

  -- The recipient of a call after a built-in function. A missing argument panics.
  call_recipient : ContractCallInput → Option Bytes
  call_recipient input =
      if bytes_eq input.function out.dcdt_nft_transfer_name
        && bytes_eq input.vm_input.caller_addr input.recipient_addr
      then get_elem? input.vm_input.arguments 3
      else some input.recipient_addr

  call_after : ContractCallInput → Bytes → OutputTransfer → Outcome (Option ContractCallInput)
  call_after input recipient t = elim (out.parse_data t.payload) [
    | none ↦ fail out.parse_error
    | some (function, arguments) ↦
        elim (fill_with_dcdt_value out input (record {
          vm_input = record empty_vm_input {
            caller_addr = input.vm_input.caller_addr;
            arguments = arguments;
            call_type = input.vm_input.call_type;
            gas_price = input.vm_input.gas_price;
            gas_provided = t.gas_limit;
            gas_locked = t.gas_locked;
            original_tx_hash = input.vm_input.original_tx_hash;
            current_tx_hash = input.vm_input.current_tx_hash;
          };
          recipient_addr = recipient;
          function = function;
          allow_init_function = false;
        })) [ none ↦ panic | some filled ↦ ok (some filled) ]
  ]

  unfoldable pub is_sc_execution_after_builtin_func :
      ContractCallInput → VmOutput → Outcome (Option ContractCallInput)
  unfolding call_transfer call_recipient call_after
  is_sc_execution_after_builtin_func input o =
      if not (is_return_ok o.return_code) then ok none else elim (call_recipient input) [
        | none ↦ panic
        | some recipient ↦
            if not (are_in_same_shard out.hook input.vm_input.caller_addr recipient)
              || not (out.hook.is_smart_contract recipient)
            then ok none
            else elim (call_transfer recipient o) [
              | none ↦ ok none
              | some t ↦ call_after input recipient t
            ]
      ]

  -- What follows the processing of a built-in function: the call of a contract to go on with, the
  -- error and the host.
  unfoldable pub after_builtin :
      ContractCallInput → VmOutput → Host → (Option ContractCallInput × Option VmError) × Host
  after_builtin input o h =
      let callback = is_callback input.vm_input.call_type in
      let provided = input.vm_input.gas_provided in
      let (gas_consumed, h1) =
        forward_accounts callback o.output_accounts ((sub_uint64 provided o.gas_remaining).0, h) in
      let h2 = if ltb o.gas_remaining provided then use_gas gas_consumed h1 else h1 in
      elim (is_sc_execution_after_builtin_func input o) [
        | panic ↦ ((none, none), record h2 { panicked = true })
        | fail e ↦ ((none, some e), h2)
        | ok next ↦
            let kept : VmOutput = elim next [
              | none ↦ o
              | some _ ↦ record o { output_accounts = drop_transfers o.output_accounts }
            ] in
            ((next, none), add_to_active_state (add_dcdt_transfer_to_vm_output input kept) h2)
      ]

  unfoldable pub call_builtin_function :
      ContractCallInput → Host → (Option ContractCallInput × ℕ × Option VmError) × Host
  call_builtin_function input h =
      let (used, h1) = compute_gas_used_in_execution_before_reset input h in
      let h2 = set_points_used 0 h1 in
      let (result, err) = out.hook.process_built_in_function input in
      elim err [
        | some e ↦ ((none, used, some e), use_gas input.vm_input.gas_provided h2)
        | none ↦ elim result [
          | none ↦ ((none, used, none), record h2 { panicked = true })
          | some o ↦
              let ((next, failure), h3) = after_builtin input o h2 in ((next, used, failure), h3)
        ]
      ]

  unfoldable pub revert_dcdt_transfer : ContractCallInput → Host → Host
  unfolding fail_with revert_input
  revert_dcdt_transfer input h = elim (revert_input out input h) [
    | none ↦ h
    | some reverted ↦
        let (result, err) = out.hook.process_built_in_function reverted in
        elim err [
          | some e ↦ fail_with (out.text e) h
          | none ↦ elim result [
            | none ↦ h
            | some o ↦ if is_return_ok o.return_code then h else fail_with o.return_message h
          ]
        ]
  ]

  -- The input of ExecuteDCDTTransfer.
  dcdt_transfer_input : Bytes → Bytes → Bytes → ℕ → ℤ → CallType → Bool → Host → ContractCallInput
  dcdt_transfer_input destination sender token nonce value call_type is_revert h =
      let value_bytes = big_bytes (pos_part value + neg_part value) in
      record {
        vm_input = record empty_vm_input {
          caller_addr = sender;
          arguments =
              (if ltb 0 nonce
                then token ∷ big_bytes nonce ∷ value_bytes ∷ destination ∷ []
                else token ∷ value_bytes ∷ []);
          call_type = call_type;
          gas_price = h.runtime.vm_input.gas_price;
          gas_provided = (if is_revert then h.metering.block_gas_limit else gas_left h);
        };
        recipient_addr = (if ltb 0 nonce then sender else destination);
        function = (if ltb 0 nonce then out.dcdt_nft_transfer_name else out.dcdt_transfer_name);
        allow_init_function = false;
      }

  -- The gas of a transfer that the node has made.
  charge_dcdt_transfer :
      CallType → Bool → ℕ → VmOutput → Host → (Option VmOutput × ℕ × Option VmError) × Host
  unfolding sub_accounts sub_transfers
  charge_dcdt_transfer call_type is_revert provided o h =
      let gas_consumed = sub_accounts o.output_accounts (sub_uint64 provided o.gas_remaining).0 in
      if not (is_callback call_type) && not is_revert
      then (if ltb (gas_left h) gas_consumed
          then ((some o, provided, some not_enough_gas), h)
          else ((some o, gas_consumed, none), use_gas gas_consumed h))
      else ((some o, gas_consumed, none), h)

  unfoldable pub execute_dcdt_transfer :
      Bytes
      → Bytes
      → Bytes
      → ℕ
      → ℤ
      → CallType
      → Bool
      → Host
      → (Option VmOutput × ℕ × Option VmError) × Host
  unfolding dcdt_transfer_input charge_dcdt_transfer
  execute_dcdt_transfer destination sender token nonce value call_type is_revert h =
      let input = dcdt_transfer_input destination sender token nonce value call_type is_revert h in
      let provided = input.vm_input.gas_provided in
      let (result, err) = out.hook.process_built_in_function input in
      elim err [
        | some e ↦ ((result, provided, some e), h)
        | none ↦ elim result [
          | none ↦ ((none, provided, none), record h { panicked = true })
          | some o ↦
              if is_return_ok o.return_code
              then charge_dcdt_transfer call_type is_revert provided o h
              else ((some o, provided, some execution_failed_error), h)
        ]
      ]
