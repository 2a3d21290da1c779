-- ===== src/Host.antt =====
-- The state of the VM host (vmhost/hostCore/host.go) and of its contexts (vmhost/contexts). The
-- structs of the packages vm-common and core are records of the fields that the contexts use.
pub mod Error
pub mod Vm
pub mod Async
pub mod Runtime
pub use Vm.*
pub use Async.*
use drt_go_chain_vm_v.Common.{ℕ, Bool, Option, List}
use drt_go_chain_vm_v.Common.Int.{ℤ}
use drt_go_chain_vm_v.Common.Bytes.{Bytes}
use drt_go_chain_vm_v.Common.Dict.{Dict}
use drt_go_chain_vm_v.Host.Error.{VmError}
use Prim.Native.String.{String}

-- outputContext
pub record OutputContext : Type 0 where
  pub output_state : VmOutput
  pub state_stack : List VmOutput
  pub code_updates : Dict Bytes Unit

-- vmhost.CodeDeployInput. The deployer of a code that is deployed is never nil.
pub record CodeDeployInput : Type 0 where
  pub contract_code : Bytes
  pub contract_code_metadata : Bytes
  pub contract_address : Bytes
  pub code_deployer_address : Bytes

-- bigIntContext. Handles are int32, and a big.Int is an integer. The stack grows at its head here,
-- and at its end in Go.
pub record BigIntContext : Type 0 where
  pub values : Dict ℤ ℤ
  pub state_stack : List (Dict ℤ ℤ)

-- The fields of config.BigIntAPICost that the hooks of big integers read.
pub record BigIntApiCost : Type 0 where
  pub big_int_new : ℕ
  pub big_int_unsigned_byte_length : ℕ
  pub big_int_is_int64 : ℕ
  pub big_int_get_int64 : ℕ
  pub big_int_sub : ℕ
  pub big_int_mul : ℕ
  pub big_int_t_div : ℕ
  pub big_int_sign : ℕ
  pub big_int_cmp : ℕ
  pub big_int_finish_unsigned : ℕ
  pub big_int_get_unsigned_argument : ℕ
  pub big_int_get_call_value : ℕ
  pub big_int_signed_byte_length : ℕ
  pub big_int_get_unsigned_bytes : ℕ
  pub big_int_get_signed_bytes : ℕ
  pub big_int_set_unsigned_bytes : ℕ
  pub big_int_set_signed_bytes : ℕ
  pub big_int_finish_signed : ℕ
  pub big_int_storage_load_unsigned : ℕ
  pub big_int_storage_store_unsigned : ℕ
  pub big_int_get_signed_argument : ℕ
  pub big_int_get_external_balance : ℕ

-- The fields of config.GasCost that the contexts and the hooks read.
pub record GasSchedule : Type 0 where
  pub store_per_byte : ℕ
  pub release_per_byte : ℕ
  pub data_copy_per_byte : ℕ
  pub persist_per_byte : ℕ
  pub compile_per_byte : ℕ
  pub aot_prepare_per_byte : ℕ
  pub get_code : ℕ
  pub async_call_step : ℕ
  pub async_callback_gas_lock : ℕ
  pub create_contract : ℕ
  pub int64_get_argument : ℕ
  pub int64_storage_store : ℕ
  pub int64_storage_load : ℕ
  pub int64_finish : ℕ
  pub big_int_api : BigIntApiCost

-- contractGasState
pub record ContractGasState : Type 0 where
  pub forwarded : ℕ
  pub returned : ℕ

-- What meteringContext.PushState saves.
pub record MeteringState : Type 0 where
  pub initial_gas_provided : ℕ
  pub initial_cost : ℕ
  pub gas_for_execution : ℕ

-- meteringContext
pub record MeteringContext : Type 0 where
  pub state_stack : List MeteringState
  pub gas_schedule : GasSchedule
  pub block_gas_limit : ℕ
  pub initial_gas_provided : ℕ
  pub initial_cost : ℕ
  pub gas_for_execution : ℕ
  pub gas_states : Dict Bytes ContractGasState
  pub total_used_gas : ℕ

-- storageContext
pub record StorageContext : Type 0 where
  pub address : Bytes
  pub state_stack : List Bytes
  pub protected_key_prefix : Bytes
  pub vm_storage_protection_enabled : Bool

-- What runtimeContext.PushState saves.
pub record RuntimeState : Type 0 where
  pub vm_input : VmInput
  pub sc_address : Bytes
  pub call_function : Bytes
  pub read_only : Bool
  pub async_call_info : Option AsyncCallInfo
  pub async_context_info : AsyncContextInfo

-- runtimeContext. A wasmer instance is a number, its identity. `points_used`, `breakpoints` and `gas_limits` are
-- the gas counter, the breakpoint value and the gas limit of each instance, so two references to one instance share
-- them; `instances` is what the engine made of their code, and `next_instance` the identity of the
-- next one; `cleaned` lists the instances on which Clean was called, the last one first. The records
-- of asynchronous calls are values: PushState saves the pointers, and no routine writes through a
-- saved one, since every call starts with records of its own.
pub record RuntimeContext : Type 0 where
  pub instance_ref : Option ℕ
  pub points_used : ℕ → ℕ
  pub vm_input : VmInput
  pub sc_address : Bytes
  pub code_size : ℕ
  pub call_function : Bytes
  pub read_only : Bool
  pub state_stack : List RuntimeState
  pub instance_stack : List (Option ℕ)
  pub async_call_info : Option AsyncCallInfo
  pub async_context_info : AsyncContextInfo
  pub verify_code : Bool
  pub vm_type : Bytes
  pub max_wasmer_instances : ℕ
  pub use_warm_instance : Bool
  pub warm_instance_address : Option Bytes
  pub warm_instance : Option ℕ
  pub cleaned : List ℕ
  pub breakpoints : ℕ → ℕ
  pub gas_limits : ℕ → ℕ
  pub instances : ℕ → Instance
  pub next_instance : ℕ

-- The flags of enableEpochsHandler, by the host methods that read them. SCDeployFlag decides both
-- IsVMV2Enabled and IsDynamicGasLockingEnabled.
pub record Flags : Type 0 where
  pub sc_deploy : Bool
  pub built_in_functions : Bool
  pub repair_callback : Bool
  pub ahead_of_time_gas_usage : Bool

-- vmHost. `panicked` records that a nil pointer was read: the Go routine has panicked, and what the
-- model computes after that has no counterpart.
pub record Host : Type 0 where
  pub big_int : BigIntContext
  pub runtime : RuntimeContext
  pub metering : MeteringContext
  pub output : OutputContext
  pub storage : StorageContext
  pub flags : Flags
  pub panicked : Bool

-- host.IsVMV2Enabled and its companions
abbrev pub is_vm_v2_enabled : Host → Bool
is_vm_v2_enabled h = h.flags.sc_deploy

abbrev pub is_vm_v3_enabled : Host → Bool
is_vm_v3_enabled h = h.flags.repair_callback

abbrev pub is_ahead_of_time_compile_enabled : Host → Bool
is_ahead_of_time_compile_enabled h = h.flags.ahead_of_time_gas_usage

abbrev pub is_dynamic_gas_locking_enabled : Host → Bool
is_dynamic_gas_locking_enabled h = h.flags.sc_deploy

abbrev pub is_dcdt_functions_enabled : Host → Bool
is_dcdt_functions_enabled h = h.flags.built_in_functions
