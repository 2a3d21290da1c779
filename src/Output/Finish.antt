-- ===== src/Output/Finish.antt =====
-- vmhost/contexts/output.go: how an execution ends. GetVMOutput accounts for the gas, drops code
-- that was not deployed and checks the total.
use drt_go_chain_vm_v.Common.{length, true}
use drt_go_chain_vm_v.Metering.{gas_left}
use drt_go_chain_vm_v.Metering.Usage.{gas_used_by_contract}
use drt_go_chain_vm_v.Common.{
  Bool, List, Option, [], false, if◌then◌else◌, ltb, none, not, some, ℕ, ◌&&◌, ◌||◌, ◌∷◌,
}
use drt_go_chain_vm_v.Common.Bytes.{Bytes}
use drt_go_chain_vm_v.Common.Dict.{Dict, bytes_Eq, int_Eq, lookup}
use drt_go_chain_vm_v.Common.Int.{pos}
use drt_go_chain_vm_v.Host.{
  Host, OutputAccount, OutputContext, OutputTransfer, ReturnCode, VmOutput, contract_invalid,
  contract_not_found, execution_failed, function_not_found, function_wrong_signature,
  is_vm_v2_enabled, out_of_funds, out_of_gas, return_ok, upgrade_failed, user_error,
}
use drt_go_chain_vm_v.Host.Error.{
  VmError, contract_invalid_error, contract_not_found_error, error_is, func_not_found,
  function_nonvoid_signature, input_and_output_gas_does_not_match, invalid_function, not_enough_gas,
  signal_error, transfer_insufficient_funds, upgrade_failed_error,
}
use drt_go_chain_vm_v.Overflow.{add_uint64, sub_uint64}
use Prim.Native.String.{String}
use text.Mathlib.Text.{◌==◌ as str_eq}
use drt_go_chain_vm_v.Output.Account.{get_output_account, set_output_account}

-- The inner loop of GetCurrentTotalUsedGas.
unfoldable pub add_transfers : List OutputTransfer → ℕ × Bool → ℕ × Bool
add_transfers [] acc = acc
add_transfers (t ∷ ts) (gas_used, locked) =
    add_transfers ts
      (add_uint64 (add_uint64 gas_used t.gas_limit) t.gas_locked, locked || ltb 0 t.gas_locked)

unfoldable pub add_accounts : Dict Bytes OutputAccount → ℕ × Bool → ℕ × Bool
unfolding add_transfers
add_accounts [] acc = acc
add_accounts ((_, a) ∷ m) (gas_used, locked) =
    add_accounts m (add_transfers a.output_transfers (add_uint64 gas_used a.gas_used, locked))

unfoldable pub get_current_total_used_gas : OutputContext → ℕ × Bool
unfolding add_accounts
get_current_total_used_gas c = add_accounts c.output_state.output_accounts (0, false)

unfoldable pub remove_non_updated_code :
    Dict Bytes Unit → Dict Bytes OutputAccount → Dict Bytes OutputAccount
remove_non_updated_code code_updates [] = []
remove_non_updated_code code_updates ((address, account) ∷ m) =
    elim (lookup address code_updates) [
      | some _ ↦ (address, account)
      | none ↦
          (address, record account { code = []; code_metadata = []; code_deployer_address = none })
    ]
    ∷ remove_non_updated_code code_updates m

unfoldable pub resolve_return_code_from_error : Option VmError → ReturnCode
resolve_return_code_from_error none = return_ok
resolve_return_code_from_error (some err) =
    if error_is err signal_error
    then user_error
    else if error_is err func_not_found
    then function_not_found
    else if error_is err function_nonvoid_signature
    then function_wrong_signature
    else if error_is err invalid_function
    then user_error
    else if error_is err not_enough_gas
    then out_of_gas
    else if error_is err contract_not_found_error
    then contract_not_found
    else if error_is err contract_invalid_error
    then contract_invalid
    else if error_is err upgrade_failed_error
    then upgrade_failed
    else if error_is err transfer_insufficient_funds
    then out_of_funds
    else execution_failed

-- `text` is the text of an error, err.Error().
module _ (text : VmError → String) where
  unfoldable pub create_vm_output_in_case_of_error : VmError → OutputContext → VmOutput
  unfolding resolve_return_code_from_error
  create_vm_output_in_case_of_error err c = record {
    gas_remaining = 0;
    gas_refund = some (pos 0);
    return_code = resolve_return_code_from_error (some err);
    return_message =
        (if error_is err signal_error
          then c.output_state.return_message
          else if str_eq c.output_state.return_message ""
          then text err
          else c.output_state.return_message);
    return_data = [];
    output_accounts = [];
    logs = [];
  }

abbrev pub set_gas_remaining : ℕ → Host → Host
set_gas_remaining gas h = record h {
  output = record (h.output) {
    output_state = record (h.output.output_state) { gas_remaining = gas };
  };
}

abbrev pub is_return_ok : ReturnCode → Bool
is_return_ok return_ok = true
is_return_ok _ = false

-- The table of the protocol's built-in functions is a parameter: whether it holds a name.
module _ (is_builtin_function_name : Bytes → Bool) where
  unfoldable pub is_built_in_execution : Host → Bool
  is_built_in_execution h =
      if is_builtin_function_name h.runtime.call_function
      then true
      else ltb 0 (length h.runtime.vm_input.dcdt_transfers)

  unfoldable pub check_gas : ℕ → Host → Option VmError × Host
  unfolding is_built_in_execution
  check_gas remained_from_forwarded h =
      if not (is_vm_v2_enabled h)
      then (none, h)
      else (let (gas_used, gas_lock_sent_forward) = get_current_total_used_gas h.output in
          let gas_provided =
            if gas_lock_sent_forward && is_built_in_execution h
            then add_uint64 h.metering.initial_gas_provided h.runtime.vm_input.gas_locked
            else h.metering.initial_gas_provided in
          let (gas_remaining, remained) =
            sub_uint64 h.output.output_state.gas_remaining remained_from_forwarded in
          let total = add_uint64 gas_used gas_remaining in
          let without_remained = (sub_uint64 total remained).0 in
          let total_gas = (sub_uint64 without_remained h.metering.total_used_gas).0 in
          let h' = set_gas_remaining gas_remaining h in
          if ltb gas_provided total_gas
          then (some input_and_output_gas_does_not_match, h')
          else (none, h'))

  -- The accounting of the contract's gas: what remained from forwarded gas, the gas used and the host.
  account_gas : Host → (ℕ × ℕ) × Host
  account_gas h =
      let address = h.runtime.sc_address in
      let ((account, _), c) = get_output_account address h.output in
      if is_return_ok h.output.output_state.return_code
      then (let ((used, remained), h1) = gas_used_by_contract (record h { output = c }) in
          (
            (remained, used),
            set_gas_remaining (gas_left h1) (record h1 {
              output = set_output_account address (record account { gas_used = used }) h1.output;
            }),
          ))
      else (let used = add_uint64 account.gas_used h.metering.initial_gas_provided in
          (
            (0, used),
            record h { output = set_output_account address (record account { gas_used = used }) c },
          ))

  drop_code : Host → Host
  drop_code h = record h {
    output = record (h.output) {
      output_state = record (h.output.output_state) {
        output_accounts =
            remove_non_updated_code h.output.code_updates h.output.output_state.output_accounts;
      };
    };
  }

  module _ (text : VmError → String) where
    unfoldable pub conclude : Option VmError → Host → VmOutput × Host
    conclude none h = (h.output.output_state, h)
    conclude (some err) h = (create_vm_output_in_case_of_error text err h.output, h)

    unfoldable pub get_vm_output : Host → VmOutput × Host
    unfolding account_gas drop_code
    get_vm_output h =
        let ((remained, used), h1) = account_gas h in
        let (err, h2) = check_gas remained (drop_code h1) in
        let checked = conclude err h2 in
        if is_return_ok h.output.output_state.return_code
          && not (is_vm_v2_enabled h)
          && ltb h.metering.initial_gas_provided used
        then conclude (some not_enough_gas) h1
        else checked
