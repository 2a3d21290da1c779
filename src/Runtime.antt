-- ===== src/Runtime.antt =====
-- vmhost/contexts/runtime.go: the stack of runtime states and the stack of WASM instances.
pub mod Stack
pub mod Start
pub mod Control
mod Tests
use drt_go_chain_vm_v.Common.Int.{pos}
use drt_go_chain_vm_v.Host.Async.{AsyncContextInfo}
use drt_go_chain_vm_v.Host.Vm.{direct_call}
use drt_go_chain_vm_v.Host.{ContractCallInput}
use drt_go_chain_vm_v.Common.{
  Bool, List, Option, [], false, if◌then◌else◌, length, map, none, some, true, ℕ, ◌%◌, ◌==◌, ◌^◌,
  ◌∷◌,
}
use drt_go_chain_vm_v.Common.Bytes.{Bytes}
use drt_go_chain_vm_v.Host.{RuntimeContext, RuntimeState, VmInput, DcdtTransfer}

unfoldable pub copy_dcdt_transfer : DcdtTransfer → DcdtTransfer
copy_dcdt_transfer t = record {
  dcdt_value = t.dcdt_value;
  dcdt_token_name = t.dcdt_token_name;
  dcdt_token_type = t.dcdt_token_type;
  dcdt_token_nonce = t.dcdt_token_nonce;
}

-- The copy of an input that SetVMInput makes. An input is never nil here.
unfoldable pub copy_vm_input : VmInput → VmInput
copy_vm_input input = record {
  caller_addr = input.caller_addr;
  arguments = input.arguments;
  gas_price = input.gas_price;
  original_tx_hash = input.original_tx_hash;
  current_tx_hash = input.current_tx_hash;
  call_value = input.call_value;
  call_type = input.call_type;
  gas_provided = input.gas_provided;
  gas_locked = input.gas_locked;
  dcdt_transfers = map copy_dcdt_transfer input.dcdt_transfers;
}

unfoldable pub set_vm_input : VmInput → RuntimeContext → RuntimeContext
set_vm_input input r = record r { vm_input = copy_vm_input input }

-- &vmcommon.VMInput{}
abbrev pub empty_vm_input : VmInput
empty_vm_input = record {
  caller_addr = [];
  arguments = [];
  gas_price = 0;
  original_tx_hash = [];
  current_tx_hash = [];
  call_value = pos 0;
  call_type = direct_call;
  gas_provided = 0;
  gas_locked = 0;
  dcdt_transfers = [];
}

abbrev pub no_async_calls : Bytes → AsyncContextInfo
no_async_calls caller = record { caller_addr = caller; return_data = []; async_context_map = [] }

unfoldable pub init_state : RuntimeContext → RuntimeContext
init_state r = record r {
  vm_input = empty_vm_input;
  sc_address = [];
  call_function = [];
  verify_code = false;
  read_only = false;
  async_call_info = none;
  async_context_info = no_async_calls [];
}

-- A call starts with a record of asynchronous calls of its own.
unfoldable pub init_state_from_call_input : ContractCallInput → RuntimeContext → RuntimeContext
init_state_from_call_input input r = record (set_vm_input input.vm_input r) {
  sc_address = input.recipient_addr;
  call_function = input.function;
  async_context_info = no_async_calls input.vm_input.caller_addr;
}

-- Comparison of two instance references, with nil equal to nil.
abbrev pub same_ref : Option ℕ → Option ℕ → Bool
same_ref none none = true
same_ref (some i) (some j) = i == j
same_ref _ _ = false

unfoldable pub is_warm_instance : RuntimeContext → Bool
is_warm_instance r = elim r.instance_ref [
  | none ↦ false
  | some i ↦ same_ref (some i) r.warm_instance
]

unfoldable pub clean_wasmer_instance : RuntimeContext → RuntimeContext
clean_wasmer_instance r = elim r.instance_ref [
  | none ↦ r
  | some i ↦
      if is_warm_instance r then r else record r { cleaned = i ∷ r.cleaned; instance_ref = none }
]

unfoldable pub push_instance : RuntimeContext → RuntimeContext
push_instance r = record r { instance_stack = r.instance_ref ∷ r.instance_stack }

unfoldable pub resume : RuntimeContext → List (Option ℕ) → RuntimeContext
resume r [] = r
resume r (prev ∷ rest) =
    let popped = record r { instance_stack = rest } in
    if same_ref prev r.instance_ref
    then popped
    else record (clean_wasmer_instance popped) { instance_ref = prev }

unfoldable pub pop_instance : RuntimeContext → RuntimeContext
pop_instance r = resume r r.instance_stack

unfoldable pub push_state : RuntimeContext → RuntimeContext
push_state r = push_instance (record r {
  state_stack =
      record {
        vm_input = copy_vm_input r.vm_input;
        sc_address = r.sc_address;
        call_function = r.call_function;
        read_only = r.read_only;
        async_call_info = r.async_call_info;
        async_context_info = r.async_context_info;
      }
      ∷ r.state_stack;
})

restore : RuntimeContext → List RuntimeState → RuntimeContext
restore r [] = r
restore r (prev ∷ rest) = pop_instance (record (set_vm_input prev.vm_input r) {
  state_stack = rest;
  sc_address = prev.sc_address;
  call_function = prev.call_function;
  read_only = prev.read_only;
  async_call_info = prev.async_call_info;
  async_context_info = prev.async_context_info;
})

unfoldable pub pop_set_active_state : RuntimeContext → RuntimeContext
unfolding restore
pop_set_active_state r = restore r r.state_stack

discard : RuntimeContext → List RuntimeState → RuntimeContext
discard r [] = r
discard r (_ ∷ rest) = pop_instance (record r { state_stack = rest })

unfoldable pub pop_discard : RuntimeContext → RuntimeContext
unfolding discard
pop_discard r = discard r r.state_stack

unfoldable pub clear_state_stack : RuntimeContext → RuntimeContext
clear_state_stack r = record r { state_stack = [] }

unfoldable pub running_instances_count : RuntimeContext → ℕ
running_instances_count r = length r.instance_stack % 2 ^ 64

unfoldable pub set_sc_address : Bytes → RuntimeContext → RuntimeContext
set_sc_address address r = record r { sc_address = address }

unfoldable pub set_custom_call_function : Bytes → RuntimeContext → RuntimeContext
set_custom_call_function function r = record r { call_function = function }

unfoldable pub set_read_only : Bool → RuntimeContext → RuntimeContext
set_read_only read_only r = record r { read_only = read_only }

unfoldable pub must_verify_next_contract_code : RuntimeContext → RuntimeContext
must_verify_next_contract_code r = record r { verify_code = true }
