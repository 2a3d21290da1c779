-- ===== src/Example.antt =====
-- Concrete states of the host and of the blockchain hook, for the tests of the components.
use drt_go_chain_vm_v.Blockchain.{set_output}
use drt_go_chain_vm_v.Host.Vm.{ContractCallInput}
use drt_go_chain_vm_v.Output.Account.{finish}
use drt_go_chain_vm_v.Outside.{Outside}
use drt_go_chain_vm_v.Host.Error.{invalid_function}
use drt_go_chain_vm_v.Common.{[], false, if◌then◌else◌, none, some, true, ◌∷◌}
use drt_go_chain_vm_v.Common.Bytes.{Bytes, bytes_eq}
use drt_go_chain_vm_v.Common.Int.{pos}
use drt_go_chain_vm_v.Host.{
  BlockchainHook, Flags, GasSchedule, Host, MeteringContext, OutputContext, RuntimeContext,
  StorageContext, VmInput, absent, direct_call, present,
}
use drt_go_chain_vm_v.Output.{new_vm_output}

abbrev pub alice : Bytes
alice = 1 ∷ []

abbrev pub bob : Bytes
bob = 2 ∷ []

-- A key of an application, one of the VM and one of the protocol.
abbrev pub plain_key : Bytes
plain_key = 10 ∷ 11 ∷ []

abbrev pub protocol_key : Bytes
protocol_key = 77 ∷ 78 ∷ 79 ∷ []

abbrev pub one_input : VmInput
one_input = record {
  caller_addr = bob;
  arguments = [];
  gas_price = 1;
  original_tx_hash = [];
  current_tx_hash = [];
  call_value = pos 0;
  call_type = direct_call;
  gas_provided = 1100;
  gas_locked = 0;
  dcdt_transfers = [];
}

abbrev pub schedule : GasSchedule
schedule = record {
  store_per_byte = 5;
  release_per_byte = 1;
  data_copy_per_byte = 1;
  persist_per_byte = 2;
  compile_per_byte = 3;
  aot_prepare_per_byte = 1;
  get_code = 2;
  async_call_step = 40;
  async_callback_gas_lock = 60;
  create_contract = 50;
  int64_get_argument = 1;
  int64_storage_store = 6;
  int64_storage_load = 5;
  int64_finish = 1;
  big_int_api = record {
    big_int_new = 1;
    big_int_unsigned_byte_length = 1;
    big_int_is_int64 = 1;
    big_int_get_int64 = 1;
    big_int_sub = 2;
    big_int_mul = 3;
    big_int_t_div = 4;
    big_int_sign = 1;
    big_int_cmp = 1;
    big_int_finish_unsigned = 5;
    big_int_get_unsigned_argument = 1;
    big_int_get_call_value = 1;
    big_int_signed_byte_length = 2;
    big_int_get_unsigned_bytes = 2;
    big_int_get_signed_bytes = 2;
    big_int_set_unsigned_bytes = 2;
    big_int_set_signed_bytes = 2;
    big_int_finish_signed = 2;
    big_int_storage_load_unsigned = 2;
    big_int_storage_store_unsigned = 2;
    big_int_get_signed_argument = 2;
    big_int_get_external_balance = 2;
  };
}

abbrev pub running : RuntimeContext
running = record {
  instance_ref = some 0;
  points_used = λ _. 7;
  vm_input = one_input;
  sc_address = alice;
  code_size = 20;
  call_function = 100 ∷ [];
  read_only = false;
  state_stack = [];
  instance_stack = [];
  async_call_info = none;
  async_context_info = record { caller_addr = bob; return_data = []; async_context_map = [] };
  verify_code = false;
  vm_type = 5 ∷ 0 ∷ [];
  max_wasmer_instances = 10;
  use_warm_instance = false;
  warm_instance_address = none;
  warm_instance = none;
  cleaned = [];
  breakpoints = λ _. 0;
  gas_limits = λ _. 1000;
  instances = λ _. record {
    has_memory = true;
    exports = (100 ∷ []) ∷ [];
    get_signature = λ _. some (pos 0, pos 0);
    is_function_imported = λ _. false;
  };
  next_instance = 5;
}

abbrev pub metered : MeteringContext
metered = record {
  state_stack = [];
  gas_schedule = schedule;
  block_gas_limit = 100000;
  initial_gas_provided = 1100;
  initial_cost = 100;
  gas_for_execution = 1000;
  gas_states = [];
  total_used_gas = 0;
}

abbrev pub no_output : OutputContext
no_output = record { output_state = new_vm_output; state_stack = []; code_updates = [] }

abbrev pub no_storage : StorageContext
no_storage = record {
  address = alice;
  state_stack = [];
  protected_key_prefix = 77 ∷ 78 ∷ [];
  vm_storage_protection_enabled = true;
}

abbrev pub all_flags : Flags
all_flags = record {
  sc_deploy = true;
  built_in_functions = true;
  repair_callback = true;
  ahead_of_time_gas_usage = true;
}

-- The contract of alice runs with 1000 gas, of which it has used 7.
abbrev pub host : Host
host = record {
  big_int = record { values = []; state_stack = [] };
  runtime = running;
  metering = metered;
  output = no_output;
  storage = no_storage;
  flags = all_flags;
  panicked = false;
}

-- A chain on which alice owns 100, no one else exists and everyone may be paid.
abbrev pub chain : BlockchainHook
chain = record {
  get_user_account = λ a.
      if bytes_eq a alice
      then present (record {
        balance = pos 100;
        nonce = 3;
        code_metadata = [];
        code_hash = [];
        owner_address = bob;
      })
      else absent;
  get_storage_data = λ _ _. [];
  is_payable = λ _. (true, none);
  metadata_readable = λ _. true;
  metadata_upgradeable = λ _. true;
  new_address = λ creator _ _. (9 ∷ creator, none);
  get_code = λ _. 97 ∷ 115 ∷ 109 ∷ [];
  get_shard_of_address = λ _. 0;
  is_smart_contract = λ _. true;
  get_compiled_code = λ _. none;
  process_built_in_function = λ _. (none, some invalid_function);
}

-- A WASM engine whose contracts have the function 100, which returns 7, and libraries that know
-- nothing else. The contract of bob owns 5.
abbrev pub outside : Outside
outside = record {
  hook = record chain {
    get_user_account = λ a.
        if bytes_eq a bob
        then present (record {
          balance = pos 5;
          nonce = 0;
          code_metadata = [];
          code_hash = [];
          owner_address = alice;
        })
        else chain.get_user_account a;
  };
  engine = record {
    new_instance = λ _. some (running.instances 0);
    instance_from_compiled_code = λ _. none;
    instance_error = invalid_function;
    call = λ _ _ h. (none, set_output (finish (7 ∷ []) h.output) h);
  };
  text = λ _. "error";
  is_builtin_function_name = λ _. false;
  parse_data = λ _. none;
  parse_error = invalid_function;
  hex = λ bytes. bytes;
  bytes_of_text = λ _. [];
  sha256 = λ bytes. (bytes, none);
  to_json = λ _. ([], none);
  from_json = λ _. none;
  json_error = invalid_function;
  return_code_text = λ _. [];
  return_code_number = λ _. 0;
  dcdt_transfer_name = 68 ∷ [];
  dcdt_nft_transfer_name = 78 ∷ [];
  min_len_dcdt_transfer = 2;
  min_len_dcdt_nft_transfer = 4;
  non_fungible = 1;
}

-- The contract of alice calls function 100 of the contract of bob.
abbrev pub call_of_bob : ContractCallInput
call_of_bob = record {
  vm_input = record one_input { caller_addr = alice; gas_provided = 500; call_value = pos 10 };
  recipient_addr = bob;
  function = 100 ∷ [];
  allow_init_function = false;
}
