-- ===== src/Execution/Stacks.antt =====
-- The state stacks of the contexts: which operations of the host leave them as they are.
use drt_go_chain_vm_v.Output.Finish.{conclude}
use drt_go_chain_vm_v.Metering.{get_total_forwarded_gas}
use drt_go_chain_vm_v.Metering.Usage.{gas_used_by_contract}
use drt_go_chain_vm_v.Output.Finish.{check_gas, get_vm_output}
use drt_go_chain_vm_v.Outside.{Outside}
use drt_go_chain_vm_v.Host.{CodeDeployInput}
use drt_go_chain_vm_v.Metering.Usage.{
  deduct_initial_gas_for_direct_deployment, deduct_initial_gas_for_execution,
}
use drt_go_chain_vm_v.Output.Account.{deploy_code}
use drt_go_chain_vm_v.Common.{true}
use drt_go_chain_vm_v.Blockchain.{set_output}
use drt_go_chain_vm_v.Common.{◌∙◌}
use drt_go_chain_vm_v.Common.Int.{◌+ℤ◌, ◌-ℤ◌}
use drt_go_chain_vm_v.Output.Transfer.{has_sufficient_balance, move_value, pay}
use Prim.Native.String.{String}
use drt_go_chain_vm_v.Blockchain.{get_balance_big_int, get_code}
use drt_go_chain_vm_v.Common.{Bool, List, Option, arith, refl, ℕ, ◌-◌, ◌≡◌}
use drt_go_chain_vm_v.Common.Bytes.{Bytes}
use drt_go_chain_vm_v.Common.Dict.{Dict}
use drt_go_chain_vm_v.Common.Int.{ℤ}
use drt_go_chain_vm_v.Host.{Host, MeteringState, OutputContext, RuntimeState}
use drt_go_chain_vm_v.Host.Runtime.{get_points_used, set_points_used}
use drt_go_chain_vm_v.Host.Vm.{BlockchainHook, VmOutput}
use drt_go_chain_vm_v.Metering.{
  add_forwarded_gas, add_returned_gas, forward_gas, get_contract_gas_state, restore_gas, use_gas,
}
use drt_go_chain_vm_v.Metering.Usage.{deduct_initial_gas}
use drt_go_chain_vm_v.Output.Account.{
  get_output_account, set_output_account, set_return_code, set_return_message,
}
use drt_go_chain_vm_v.Output.Active.{add_to_active_state}
use drt_go_chain_vm_v.Output.Transfer.{shift_delta, transfer_value_only}
use drt_go_chain_vm_v.Overflow.{add_uint64}
use drt_go_chain_vm_v.Runtime.Control.{fail_execution, set_breakpoint}

-- The stacks of saved states, and the stack of instances.
pub record Stacks : Type 0 where
  pub big_ints : List (Dict ℤ ℤ)
  pub outputs : List VmOutput
  pub meterings : List MeteringState
  pub runtimes : List RuntimeState
  pub instances : List (Option ℕ)
  pub addresses : List Bytes

unfoldable pub stacks_of : Host → Stacks
stacks_of h = record {
  big_ints = h.big_int.state_stack;
  outputs = h.output.state_stack;
  meterings = h.metering.state_stack;
  runtimes = h.runtime.state_stack;
  instances = h.runtime.instance_stack;
  addresses = h.storage.state_stack;
}

pub stacks-panicked : (h : Host) → stacks_of (record h { panicked = true }) ≡ stacks_of h
unfolding stacks_of
stacks-panicked h = refl

pub stacks-set_points_used : (n : ℕ) (h : Host) → stacks_of (set_points_used n h) ≡ stacks_of h
unfolding stacks_of set_points_used
stacks-set_points_used n h = ground arith

pub stacks-use_gas : (n : ℕ) (h : Host) → stacks_of (use_gas n h) ≡ stacks_of h
unfolding use_gas
stacks-use_gas n h = stacks-set_points_used (add_uint64 (get_points_used h) n) h

pub stacks-restore_gas : (n : ℕ) (h : Host) → stacks_of (restore_gas n h) ≡ stacks_of h
unfolding restore_gas
stacks-restore_gas n h = ground (arith, stacks-set_points_used (get_points_used h - n) h)

pub stacks-forward_gas :
    (a b : Bytes) (n : ℕ) (h : Host) → stacks_of (forward_gas a b n h) ≡ stacks_of h
unfolding stacks_of forward_gas add_forwarded_gas add_returned_gas get_contract_gas_state
stacks-forward_gas a b n h = ground arith

pub stacks-set_breakpoint : (n : ℕ) (h : Host) → stacks_of (set_breakpoint n h) ≡ stacks_of h
unfolding stacks_of set_breakpoint
stacks-set_breakpoint n h = ground arith

pub stacks-fail_execution : (m : String) (h : Host) → stacks_of (fail_execution m h) ≡ stacks_of h
unfolding stacks_of set_breakpoint fail_execution set_return_message set_return_code
stacks-fail_execution m h = ground arith

pub stack-get_output_account :
    (a : Bytes) (c : OutputContext) → (get_output_account a c).1.state_stack ≡ c.state_stack
unfolding get_output_account
stack-get_output_account a c = ground arith

pub same_output :
    (c : OutputContext) (h : Host)
    → c.state_stack ≡ h.output.state_stack
    → stacks_of (set_output c h) ≡ stacks_of h
unfolding stacks_of
same_output c h e = ground arith

pub stacks-shift_delta :
    (f : ℤ → ℤ) (a : Bytes) (h : Host) → stacks_of (shift_delta f a h) ≡ stacks_of h
unfolding shift_delta stacks_of set_output_account
stacks-shift_delta f a h = ground (arith, stack-get_output_account a h.output)

pub stacks-move_value :
    (a b : Bytes) (v : ℤ) (h : Host) → stacks_of (move_value a b v h) ≡ stacks_of h
unfolding move_value
stacks-move_value a b v h =
    let (_, c1) = get_output_account b h.output in
    let (_, c2) = get_output_account a c1 in
    let found : stacks_of (set_output c2 h) ≡ stacks_of h =
      same_output c2 h (stack-get_output_account a c1 ∙ stack-get_output_account b h.output) in
    stacks-shift_delta (λ d. d +ℤ v) a (shift_delta (λ d. d -ℤ v) b (set_output c2 h))
    ∙ stacks-shift_delta (λ d. d -ℤ v) b (set_output c2 h)
    ∙ found

pub stacks-add_to_active_state :
    (o : VmOutput) (h : Host) → stacks_of (add_to_active_state o h) ≡ stacks_of h
unfolding add_to_active_state stacks_of
stacks-add_to_active_state o h = refl

pub stacks-deduct_initial_gas :
    (code : Bytes) (base per : ℕ) (h : Host)
    → stacks_of (deduct_initial_gas code base per h).1 ≡ stacks_of h
unfolding deduct_initial_gas stacks_of
stacks-deduct_initial_gas code base per h = ground arith

pub stacks-deduct_for_execution :
    (code : Bytes) (h : Host) → stacks_of (deduct_initial_gas_for_execution code h).1 ≡ stacks_of h
unfolding deduct_initial_gas_for_execution deduct_initial_gas stacks_of
stacks-deduct_for_execution code h = ground arith

pub stacks-deduct_for_direct_deployment :
    (code : Bytes) (h : Host)
    → stacks_of (deduct_initial_gas_for_direct_deployment code h).1 ≡ stacks_of h
unfolding deduct_initial_gas_for_direct_deployment deduct_initial_gas stacks_of
stacks-deduct_for_direct_deployment code h = ground arith

pub stacks-deploy_code :
    (input : CodeDeployInput) (h : Host)
    → stacks_of (set_output (deploy_code input h.output) h) ≡ stacks_of h
unfolding deploy_code set_output_account stacks_of
stacks-deploy_code input h =
    ground (arith, stack-get_output_account input.contract_address h.output)

module _ (hook : BlockchainHook) where
  pub stacks-get_balance_big_int :
      (a : Bytes) (h : Host) → stacks_of (get_balance_big_int hook a h).1 ≡ stacks_of h
  unfolding stacks_of get_balance_big_int set_output_account
  stacks-get_balance_big_int a h = ground (arith, stack-get_output_account a h.output)

  pub stacks-get_code : (a : Bytes) (h : Host) → stacks_of (get_code hook a h).1 ≡ stacks_of h
  unfolding stacks_of get_code set_output_account
  stacks-get_code a h = ground (arith, stack-get_output_account a h.output)

  pub stacks-has_sufficient_balance :
      (a : Bytes) (v : ℤ) (h : Host) → stacks_of (has_sufficient_balance hook a v h).1 ≡ stacks_of h
  unfolding has_sufficient_balance
  stacks-has_sufficient_balance a v h = stacks-get_balance_big_int a h

  stacks-pay :
      (a b : Bytes) (v : ℤ) (p : Bool) (h : Host) → stacks_of (pay hook a b v p h).1 ≡ stacks_of h
  unfolding pay
  stacks-pay a b v p h = ground (arith, stacks-move_value a b v h)

  pub stacks-transfer_value_only :
      (a b : Bytes) (v : ℤ) (p : Bool) (h : Host)
      → stacks_of (transfer_value_only hook a b v p h).1 ≡ stacks_of h
  unfolding transfer_value_only
  stacks-transfer_value_only a b v p h =
      let (sufficient, h1) = has_sufficient_balance hook b v h in
      ground (arith, stacks-pay a b v p h1, stacks-has_sufficient_balance b v h)

pub stacks-get_vm_output :
    (out : Outside) (h : Host)
    → stacks_of (get_vm_output out.is_builtin_function_name out.text h).1 ≡ stacks_of h
unfolding stacks_of get_vm_output conclude set_output_account gas_used_by_contract
    get_total_forwarded_gas get_contract_gas_state check_gas
stacks-get_vm_output out h = ground (arith, stack-get_output_account h.runtime.sc_address h.output)
