-- ===== src/Outside.antt =====
-- What the host relies on and does not implement: the node, the WASM engine and the libraries of
-- other repositories.
use drt_go_chain_vm_v.Common.{ℕ}
use drt_go_chain_vm_v.Host.Vm.{ReturnCode}
use drt_go_chain_vm_v.Common.{Bool, List, Option}
use drt_go_chain_vm_v.Common.Bytes.{Bytes}
use drt_go_chain_vm_v.Host.{Host}
use drt_go_chain_vm_v.Host.Async.{AsyncContextInfo}
use drt_go_chain_vm_v.Host.Error.{VmError}
use drt_go_chain_vm_v.Host.Vm.{BlockchainHook, Instance}
use Prim.Native.String.{String}

-- The WASM engine: the instance of a bytecode or of a compiled code, the hash of a code, and the
-- call of an exported function of an instance, which reads and writes the host through the imports.
pub record Engine : Type 0 where
  pub new_instance : Bytes → Option Instance
  pub instance_from_compiled_code : Bytes → Option Instance
  pub instance_error : VmError
  pub call : Instance → Bytes → Host → Option VmError × Host

-- `dcdt_transfer_name`, `dcdt_nft_transfer_name`, the least numbers of their arguments and
-- `non_fungible` are constants of the package core; the numbers are positive.
-- `text` is the text of an error, `return_code_text` and `return_code_number` the text and the number of a return code, `parse_data` the parser of call data of vm-common, `hex` the hex
-- encoding, `to_json` and `from_json` the marshalling of records of asynchronous calls,
-- `is_builtin_function_name` the table of the protocol's built-in functions.
pub record Outside : Type 0 where
  pub hook : BlockchainHook
  pub engine : Engine
  pub text : VmError → String
  pub is_builtin_function_name : Bytes → Bool
  pub parse_data : Bytes → Option (Bytes × List Bytes)
  pub parse_error : VmError
  pub hex : Bytes → Bytes
  pub bytes_of_text : String → Bytes
  pub sha256 : Bytes → Bytes × Option VmError
  pub to_json : AsyncContextInfo → Bytes × Option VmError
  pub from_json : Bytes → Option AsyncContextInfo
  pub json_error : VmError
  pub return_code_text : ReturnCode → Bytes
  pub return_code_number : ReturnCode → ℕ
  pub dcdt_transfer_name : Bytes
  pub dcdt_nft_transfer_name : Bytes
  pub min_len_dcdt_transfer : ℕ
  pub min_len_dcdt_nft_transfer : ℕ
  pub non_fungible : ℕ
