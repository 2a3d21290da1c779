-- ===== src/Host/Async.antt =====
-- The records of asynchronous calls of vmhost/common.go. A function name is the list of its bytes.
use drt_go_chain_vm_v.Common.{List, ℕ}
use drt_go_chain_vm_v.Common.Bytes.{Bytes}
use drt_go_chain_vm_v.Common.Dict.{Dict}

-- vmhost.AsyncCallInfo
pub record AsyncCallInfo : Type 0 where
  pub destination : Bytes
  pub payload : Bytes
  pub gas_limit : ℕ
  pub gas_locked : ℕ
  pub value_bytes : Bytes

-- vmhost.AsyncCallStatus
pub data AsyncCallStatus : Type 0 where
  async_call_pending async_call_resolved async_call_rejected : AsyncCallStatus

-- vmhost.AsyncGeneratedCall
pub record AsyncGeneratedCall : Type 0 where
  pub status : AsyncCallStatus
  pub destination : Bytes
  pub payload : Bytes
  pub gas_limit : ℕ
  pub value_bytes : Bytes
  pub success_callback : Bytes
  pub error_callback : Bytes
  pub provided_gas : ℕ

-- vmhost.AsyncContext
pub record AsyncContext : Type 0 where
  pub callback : Bytes
  pub async_calls : List AsyncGeneratedCall

-- vmhost.AsyncContextInfo
pub record AsyncContextInfo : Type 0 where
  pub caller_addr : Bytes
  pub return_data : Bytes
  pub async_context_map : Dict Bytes AsyncContext
