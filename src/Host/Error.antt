-- ===== src/Host/Error.antt =====
-- vmhost/errors.go: the errors of the VM, and how `fmt.Errorf("%w ...")` wraps one in another.
use drt_go_chain_vm_v.Common.{ℕ, ◌+◌, Bool, false, Option, none, some, ◌||◌, ◌==◌}

-- The errors that no code tells apart. None of them wraps another.
pub data OtherError : Type 0 where
  return_code_not_ok invalid_call_on_read_only_mode unhandled_runtime_breakpoint : OtherError
  non_payable_function_rewa non_payable_function_dcdt arg_index_out_of_range : OtherError
  arg_out_of_range storage_value_out_of_range div_zero bitwise_negative : OtherError
  shift_negative async_context_does_not_exist invalid_account : OtherError
  deployment_over_existing_account invalid_public_key_size upgrade_not_allowed : OtherError
  nil_contract builtin_call_on_same_context_disallowed : OtherError
  sync_execution_not_in_same_shard transfer_value_on_dcdt_call : OtherError
  nil_enable_epochs_handler addition_overflow : OtherError

-- `hook_error` stands for whatever error the node's blockchain hook returns.
pub data VmError : Type 0 where
  not_enough_gas signal_error execution_failed_error bad_bounds : VmError
  bad_lower_bounds bad_upper_bounds negative_length : VmError
  failed_transfer transfer_insufficient_funds transfer_negative_value : VmError
  upgrade_failed_error invalid_upgrade_arguments : VmError
  invalid_function init_func_called_in_run callback_func_called_in_run : VmError
  callback_func_not_expected func_not_found invalid_function_name : VmError
  function_nonvoid_signature : VmError
  contract_invalid_error contract_not_found_error memory_declaration_missing : VmError
  max_instances_reached store_reserved_key cannot_write_protected_key : VmError
  account_not_payable input_and_output_gas_does_not_match nil_callback_function : VmError
  other_error : OtherError → VmError
  hook_error : ℕ → VmError

-- The error that `%w` wraps.
abbrev pub unwrap : VmError → Option VmError
unwrap bad_lower_bounds = some bad_bounds
unwrap bad_upper_bounds = some bad_bounds
unwrap transfer_insufficient_funds = some failed_transfer
unwrap transfer_negative_value = some failed_transfer
unwrap invalid_upgrade_arguments = some upgrade_failed_error
unwrap init_func_called_in_run = some invalid_function
unwrap callback_func_called_in_run = some invalid_function
unwrap callback_func_not_expected = some invalid_function
unwrap func_not_found = some invalid_function
unwrap invalid_function_name = some invalid_function
unwrap function_nonvoid_signature = some invalid_function
unwrap contract_not_found_error = some contract_invalid_error
unwrap memory_declaration_missing = some contract_invalid_error
unwrap max_instances_reached = some execution_failed_error
unwrap _ = none

abbrev other_error_id : OtherError → ℕ
other_error_id return_code_not_ok = 28
other_error_id invalid_call_on_read_only_mode = 29
other_error_id unhandled_runtime_breakpoint = 30
other_error_id non_payable_function_rewa = 31
other_error_id non_payable_function_dcdt = 32
other_error_id arg_index_out_of_range = 33
other_error_id arg_out_of_range = 34
other_error_id storage_value_out_of_range = 35
other_error_id div_zero = 36
other_error_id bitwise_negative = 37
other_error_id shift_negative = 38
other_error_id async_context_does_not_exist = 39
other_error_id invalid_account = 40
other_error_id deployment_over_existing_account = 41
other_error_id invalid_public_key_size = 42
other_error_id upgrade_not_allowed = 43
other_error_id nil_contract = 44
other_error_id builtin_call_on_same_context_disallowed = 45
other_error_id sync_execution_not_in_same_shard = 46
other_error_id transfer_value_on_dcdt_call = 47
other_error_id nil_enable_epochs_handler = 48
other_error_id addition_overflow = 49

-- A number for each error, to compare errors by identity as Go compares pointers.
abbrev error_id : VmError → ℕ
error_id not_enough_gas = 0
error_id signal_error = 1
error_id execution_failed_error = 2
error_id bad_bounds = 3
error_id bad_lower_bounds = 4
error_id bad_upper_bounds = 5
error_id negative_length = 6
error_id failed_transfer = 7
error_id transfer_insufficient_funds = 8
error_id transfer_negative_value = 9
error_id upgrade_failed_error = 10
error_id invalid_upgrade_arguments = 11
error_id invalid_function = 12
error_id init_func_called_in_run = 13
error_id callback_func_called_in_run = 14
error_id callback_func_not_expected = 15
error_id func_not_found = 16
error_id invalid_function_name = 17
error_id function_nonvoid_signature = 18
error_id contract_invalid_error = 19
error_id contract_not_found_error = 20
error_id memory_declaration_missing = 21
error_id max_instances_reached = 22
error_id store_reserved_key = 23
error_id cannot_write_protected_key = 24
error_id account_not_payable = 25
error_id input_and_output_gas_does_not_match = 26
error_id nil_callback_function = 27
error_id (other_error e) = other_error_id e
error_id (hook_error n) = 50 + n

-- errors.Is(err, target): no error of the package wraps one that wraps another, so two links are
-- the whole chain.
abbrev pub error_is : VmError → VmError → Bool
error_is e target =
    error_id e == error_id target
    || elim (unwrap e) [ none ↦ false | some inner ↦ error_id inner == error_id target ]
