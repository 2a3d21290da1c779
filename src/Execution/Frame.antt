-- ===== src/Execution/Frame.antt =====
-- What a call of a contract by another gives back to its caller: vmhost/hostCore/execution.go,
-- ExecuteOnDestContext with its deferred function.
use drt_go_chain_vm_v.Metering.{set_total_used_gas}
use drt_go_chain_vm_v.Common.{refl}
use drt_go_chain_vm_v.Execution.Nested.{pop_contexts}
use drt_go_chain_vm_v.BigInt.Handles.{pop_set_active_state-push_state_values}
use drt_go_chain_vm_v.Common.{Bool, Option, ap, arith, ℕ, ◌≡◌}
use drt_go_chain_vm_v.Common.Bytes.{Bytes}
use drt_go_chain_vm_v.Execution.Stacks.{Stacks, stacks_of}
use drt_go_chain_vm_v.Host.{BigIntContext, Host}
use drt_go_chain_vm_v.Host.Async.{AsyncCallInfo, AsyncContextInfo}
use drt_go_chain_vm_v.Host.Runtime.{set_points_used}
use drt_go_chain_vm_v.Host.Vm.{VmInput}
use drt_go_chain_vm_v.Metering.{
  add_forwarded_gas, add_returned_gas, forward_gas, get_contract_gas_state, restore_gas,
}
use drt_go_chain_vm_v.Metering.Stack.{pop_set_active_state-push_state}
use drt_go_chain_vm_v.Runtime.Stack.{pop_set_active_state-push_state_runtime}
use drt_go_chain_vm_v.BigInt
use drt_go_chain_vm_v.Output
use drt_go_chain_vm_v.Metering
use drt_go_chain_vm_v.Runtime
use drt_go_chain_vm_v.Storage

-- The part of the host that belongs to the running call: its big integers, its input and identity,
-- its instance, its storage address, its gas limits, and every stack.
pub record Frame : Type 0 where
  pub big_int : BigIntContext
  pub vm_input : VmInput
  pub sc_address : Bytes
  pub call_function : Bytes
  pub read_only : Bool
  pub async_call_info : Option AsyncCallInfo
  pub async_context_info : AsyncContextInfo
  pub instance_ref : Option ℕ
  pub storage_address : Bytes
  pub initial_gas_provided : ℕ
  pub initial_cost : ℕ
  pub gas_for_execution : ℕ
  pub stacks : Stacks

unfoldable pub frame_of : Host → Frame
frame_of h = record {
  big_int = h.big_int;
  vm_input = h.runtime.vm_input;
  sc_address = h.runtime.sc_address;
  call_function = h.runtime.call_function;
  read_only = h.runtime.read_only;
  async_call_info = h.runtime.async_call_info;
  async_context_info = h.runtime.async_context_info;
  instance_ref = h.runtime.instance_ref;
  storage_address = h.storage.address;
  initial_gas_provided = h.metering.initial_gas_provided;
  initial_cost = h.metering.initial_cost;
  gas_for_execution = h.metering.gas_for_execution;
  stacks = stacks_of h;
}

-- The stacks once a call has pushed the state of the host.
unfoldable pub pushed_stacks : Host → Stacks
pushed_stacks h = record {
  big_ints = (BigInt.push_state h.big_int).state_stack;
  outputs = (Output.push_state h.output).state_stack;
  meterings = (Metering.push_state h.metering).state_stack;
  runtimes = (Runtime.push_state h.runtime).state_stack;
  instances = (Runtime.push_state h.runtime).instance_stack;
  addresses = (Storage.push_state h.storage).state_stack;
}

pub frame-restore_gas : (n : ℕ) (h : Host) → frame_of (restore_gas n h) ≡ frame_of h
unfolding restore_gas frame_of set_points_used stacks_of
frame-restore_gas n h = ground arith

pub frame-forward_gas :
    (a b : Bytes) (n : ℕ) (h : Host) → frame_of (forward_gas a b n h) ≡ frame_of h
unfolding forward_gas frame_of stacks_of add_forwarded_gas add_returned_gas get_contract_gas_state
frame-forward_gas a b n h = ground arith

pub output-restore_gas : (n : ℕ) (h : Host) → (restore_gas n h).output ≡ h.output
unfolding restore_gas set_points_used
output-restore_gas n h = ground arith

pub output-forward_gas : (a b : Bytes) (n : ℕ) (h : Host) → (forward_gas a b n h).output ≡ h.output
unfolding forward_gas add_forwarded_gas add_returned_gas get_contract_gas_state
output-forward_gas a b n h = ground arith

-- Popping brings back the frame of the host whose stacks were pushed, but for the stack of outputs.
pub frame-pop_contexts :
    (c h : Host)
    → stacks_of h ≡ pushed_stacks c
    → frame_of (pop_contexts h)
      ≡ record (frame_of c) { stacks = record (stacks_of c) { outputs = h.output.state_stack } }
unfolding frame_of pop_contexts stacks_of pushed_stacks Storage.push_state
    Storage.pop_set_active_state
frame-pop_contexts c h e = ground (
  arith,
  pop_set_active_state-push_state_values c.big_int h.big_int (ap (λ (s : Stacks). s.big_ints) e),
  pop_set_active_state-push_state c.metering h.metering (ap (λ (s : Stacks). s.meterings) e),
  pop_set_active_state-push_state_runtime c.runtime h.runtime (ap (λ (s : Stacks). s.runtimes) e)
      (ap (λ (s : Stacks). s.instances) e),
  ap (λ (s : Stacks). s.addresses) e,
)

pub frame_stacks : (h : Host) → (frame_of h).stacks ≡ stacks_of h
unfolding frame_of
frame_stacks h = refl

pub frame-set_total_used_gas :
    (n : ℕ) (h : Host)
    → frame_of (record h { metering = set_total_used_gas n h.metering }) ≡ frame_of h
unfolding frame_of stacks_of set_total_used_gas
frame-set_total_used_gas n h = refl

-- Hosts of one frame have the same stacks.
pub stacks-framed : (g h : Host) → frame_of g ≡ frame_of h → stacks_of g ≡ stacks_of h
unfolding frame_of
stacks-framed g h e = ap (λ (f : Frame). f.stacks) e
