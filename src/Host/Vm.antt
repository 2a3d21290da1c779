-- ===== src/Host/Vm.antt =====
-- The structs of the packages vm-common and core, as records of the fields that the host uses, the
-- node's blockchain hook, and what the WASM engine tells of an instance. An error is given with the result where Go returns both.
use drt_go_chain_vm_v.Common.{Bool, List, Option, ℕ}
use drt_go_chain_vm_v.Common.Bytes.{Bytes}
use drt_go_chain_vm_v.Common.Dict.{Dict}
use drt_go_chain_vm_v.Common.Int.{ℤ}
use drt_go_chain_vm_v.Host.Error.{VmError}
use Prim.Native.String.{String}

-- vm.CallType
pub data CallType : Type 0 where
  direct_call asynchronous_call asynchronous_callback : CallType
  dcdt_transfer_and_execute exec_on_dest_by_caller : CallType

-- vmcommon.ReturnCode
pub data ReturnCode : Type 0 where
  return_ok function_not_found function_wrong_signature contract_not_found user_error : ReturnCode
  out_of_gas out_of_funds contract_invalid execution_failed upgrade_failed : ReturnCode

-- vmcommon.DCDTTransfer
pub record DcdtTransfer : Type 0 where
  pub dcdt_value : ℤ
  pub dcdt_token_name : Bytes
  pub dcdt_token_type : ℕ
  pub dcdt_token_nonce : ℕ

-- vmcommon.VMInput
pub record VmInput : Type 0 where
  pub caller_addr : Bytes
  pub arguments : List Bytes
  pub gas_price : ℕ
  pub original_tx_hash : Bytes
  pub current_tx_hash : Bytes
  pub call_value : ℤ
  pub call_type : CallType
  pub gas_provided : ℕ
  pub gas_locked : ℕ
  pub dcdt_transfers : List DcdtTransfer

-- vmcommon.OutputTransfer
pub record OutputTransfer : Type 0 where
  pub value : ℤ
  pub gas_limit : ℕ
  pub gas_locked : ℕ
  pub payload : Bytes
  pub call_type : CallType
  pub sender_address : Bytes

-- vmcommon.StorageUpdate
pub record StorageUpdate : Type 0 where
  pub offset : Bytes
  pub content : Bytes

-- vmcommon.OutputAccount. A pointer that may be nil is an Option. A code that is nil and one that
-- is empty are told apart nowhere in the contexts.
pub record OutputAccount : Type 0 where
  pub address : Bytes
  pub nonce : ℕ
  pub balance : Option ℤ
  pub balance_delta : Option ℤ
  pub storage_updates : Dict Bytes StorageUpdate
  pub code : Bytes
  pub code_metadata : Bytes
  pub code_deployer_address : Option Bytes
  pub output_transfers : List OutputTransfer
  pub gas_used : ℕ

-- vmcommon.LogEntry
pub record LogEntry : Type 0 where
  pub address : Bytes
  pub identifier : Bytes
  pub topics : List Bytes
  pub content : List Bytes

-- vmcommon.VMOutput. Its lists of deleted and touched accounts are written by no context.
pub record VmOutput : Type 0 where
  pub return_data : List Bytes
  pub return_code : ReturnCode
  pub return_message : String
  pub gas_remaining : ℕ
  pub gas_refund : Option ℤ
  pub output_accounts : Dict Bytes OutputAccount
  pub logs : List LogEntry

-- vmcommon.UserAccountHandler
pub record UserAccount : Type 0 where
  pub balance : ℤ
  pub nonce : ℕ
  pub code_metadata : Bytes
  pub code_hash : Bytes
  pub owner_address : Bytes

-- What GetUserAccount returns: an error, a nil account or an account.
pub data AccountResult : Type 0 where
  failed : VmError → AccountResult
  absent : AccountResult
  present : UserAccount → AccountResult

-- vmcommon.ContractCallInput
pub record ContractCallInput : Type 0 where
  pub vm_input : VmInput
  pub recipient_addr : Bytes
  pub function : Bytes
  pub allow_init_function : Bool

-- vmcommon.ContractCreateInput
pub record ContractCreateInput : Type 0 where
  pub vm_input : VmInput
  pub contract_code : Bytes
  pub contract_code_metadata : Bytes

-- vmcommon.BlockchainHook, which the node implements: a parameter of every operation that calls it.
-- `metadata_readable` is the Readable flag of vmcommon.CodeMetadataFromBytes.
pub record BlockchainHook : Type 0 where
  pub get_user_account : Bytes → AccountResult
  pub get_storage_data : Bytes → Bytes → Bytes
  pub is_payable : Bytes → Bool × Option VmError
  pub metadata_readable : Bytes → Bool
  pub metadata_upgradeable : Bytes → Bool
  pub new_address : Bytes → ℕ → Bytes → Bytes × Option VmError
  pub get_code : UserAccount → Bytes
  pub get_shard_of_address : Bytes → ℕ
  pub is_smart_contract : Bytes → Bool
  pub get_compiled_code : Bytes → Option Bytes
  pub process_built_in_function : ContractCallInput → Option VmOutput × Option VmError

-- wasmer.InstanceHandler: GetExports, HasMemory, GetSignature and IsFunctionImported.
pub record Instance : Type 0 where
  pub has_memory : Bool
  pub exports : List Bytes
  pub get_signature : Bytes → Option (ℤ × ℤ)
  pub is_function_imported : Bytes → Bool
