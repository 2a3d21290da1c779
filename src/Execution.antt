-- ===== src/Execution.antt =====
-- vmhost/hostCore/execution.go, breakpoints.go and host.go: how the host runs contracts.
pub mod Input
pub mod Builtin
pub mod Contract
pub mod Nested
pub mod Run
pub mod Stacks
pub mod Started
pub mod Kept
pub mod Executed
pub mod Frame
pub mod Restored
pub mod Called
pub mod Transaction
pub mod Same
mod Tests
use drt_go_chain_vm_v.Common.{if◌then◌else◌, ℕ}
use drt_go_chain_vm_v.Host.Vm.{ContractCallInput}
use drt_go_chain_vm_v.Metering.Usage.{gas_used_for_execution}
use drt_go_chain_vm_v.Overflow.{sub_uint64}
use drt_go_chain_vm_v.Runtime.{clean_wasmer_instance, is_warm_instance}
use drt_go_chain_vm_v.Runtime.Control.{set_runtime}
use drt_go_chain_vm_v.Host.{Host}
use drt_go_chain_vm_v.BigInt
use drt_go_chain_vm_v.Output
use drt_go_chain_vm_v.Metering
use drt_go_chain_vm_v.Runtime
use drt_go_chain_vm_v.Storage

-- host.ClearContextStateStack
unfoldable pub clear_context_state_stack : Host → Host
clear_context_state_stack h = record h {
  big_int = BigInt.clear_state_stack h.big_int;
  output = Output.clear_state_stack h.output;
  metering = Metering.clear_state_stack h.metering;
  runtime = Runtime.clear_state_stack h.runtime;
  storage = Storage.clear_state_stack h.storage;
}

-- host.InitState. The state of the storage context that InitState resets is empty.
unfoldable pub init_contexts : Host → Host
unfolding clear_context_state_stack
init_contexts h =
    let h1 = clear_context_state_stack h in
    record h1 {
      big_int = BigInt.init_state h1.big_int;
      output = Output.init_state h1.output;
      metering = Metering.init_state h1.metering;
      runtime = Runtime.init_state h1.runtime;
    }

-- host.Clean
unfoldable pub clean : Host → Host
clean h = if is_warm_instance h.runtime then h else set_runtime (clean_wasmer_instance h.runtime) h

-- computeGasUsedInExecutionBeforeReset of vmhost/hostCore/asyncCall.go
unfoldable pub compute_gas_used_in_execution_before_reset : ContractCallInput → Host → ℕ × Host
compute_gas_used_in_execution_before_reset input h =
    let (used, h1) = gas_used_for_execution h in ((sub_uint64 used input.vm_input.gas_locked).0, h1)
