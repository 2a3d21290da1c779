-- ===== src/Execution/Executed.antt =====
-- The state stacks of the contexts through executeSmartContractCall, executeUpgrade and execute of
-- vmhost/hostCore/execution.go.
use drt_go_chain_vm_v.Execution.Kept.{stacks-revert_dcdt_transfer}
use drt_go_chain_vm_v.Metering.{init_state_from_contract_call_input, unlock_gas_if_async_callback}
use drt_go_chain_vm_v.Runtime.{init_state_from_call_input, set_vm_input}
use drt_go_chain_vm_v.Storage.{set_address}
use drt_go_chain_vm_v.Common.{Bool, arith, false, if◌then◌else◌, none, refl, true, ◌≡◌}
use drt_go_chain_vm_v.Common.Bytes.{Bytes}
use drt_go_chain_vm_v.Common.Dict.{Dict}
use drt_go_chain_vm_v.Execution.Builtin.{call_builtin_function}
use drt_go_chain_vm_v.Execution.Contract.{
  AsyncCalls, call_after_builtin, deploy_upgrade, execute, execute_smart_contract_call,
  execute_upgrade, start_and_call, start_and_init,
}
use drt_go_chain_vm_v.Execution.Kept.{
  KeepStacks, stacks-call_builtin_function, stacks-call_init_function,
  stacks-call_sc_method_indirect,
}
use drt_go_chain_vm_v.Execution.Stacks.{
  same_output, stacks-deduct_for_direct_deployment, stacks-deduct_for_execution, stacks-deploy_code,
  stacks-use_gas, stacks_of,
}
use drt_go_chain_vm_v.Execution.Started.{
  stacks-extract_code_upgrade_from_args, stacks-get_sc_code, stacks-must_verify,
  stacks-start_wasmer_instance,
}
use drt_go_chain_vm_v.Host.{CodeDeployInput, Host}
use drt_go_chain_vm_v.Host.Vm.{ContractCallInput, out_of_gas}
use drt_go_chain_vm_v.Metering.{use_gas}
use drt_go_chain_vm_v.Metering.Usage.{
  deduct_initial_gas_for_direct_deployment, deduct_initial_gas_for_execution,
}
use drt_go_chain_vm_v.Output.Account.{set_return_code}
use drt_go_chain_vm_v.Outside.{Outside}
use drt_go_chain_vm_v.Runtime.{must_verify_next_contract_code}
use drt_go_chain_vm_v.Runtime.Control.{extract_code_upgrade_from_args, set_runtime}
use drt_go_chain_vm_v.Runtime.Start.{get_sc_code, start_wasmer_instance}

stacks-begin_after_builtin :
    (next : ContractCallInput) (h : Host)
    → stacks_of (record h {
      runtime = init_state_from_call_input next h.runtime;
      metering = (init_state_from_contract_call_input next.vm_input h.metering).1;
      storage = set_address (init_state_from_call_input next h.runtime).sc_address h.storage;
    })
      ≡ stacks_of h
unfolding stacks_of init_state_from_call_input set_vm_input init_state_from_contract_call_input
    unlock_gas_if_async_callback set_address
stacks-begin_after_builtin next h = ground arith

module _ (out : Outside) (async : AsyncCalls) (keep : KeepStacks out async)
    (reserved : Dict Bytes Unit) where
  stacks-start_and_init :
      (code : Bytes) (h : Host)
      → stacks_of (start_and_init out async reserved code h).1 ≡ stacks_of h
  unfolding start_and_init
  stacks-start_and_init code h =
      let to_verify = set_runtime (must_verify_next_contract_code h.runtime) h in
      let gas = h.metering.gas_for_execution in
      let (_, h1) = start_wasmer_instance out reserved code gas true to_verify in
      ground (
        arith,
        stacks-start_wasmer_instance out reserved code gas true to_verify,
        stacks-must_verify h,
        stacks-call_init_function out async keep h1,
      )

  stacks-start_and_call :
      (code : Bytes) (h : Host)
      → stacks_of (start_and_call out async reserved code h).1 ≡ stacks_of h
  unfolding start_and_call
  stacks-start_and_call code h =
      let gas = h.metering.gas_for_execution in
      let (_, h1) = start_wasmer_instance out reserved code gas false h in
      ground (
        arith,
        stacks-start_wasmer_instance out reserved code gas false h,
        stacks-call_sc_method_indirect out async keep h1,
      )

  stacks-deploy_upgrade :
      (deployed : CodeDeployInput) (h : Host)
      → stacks_of (deploy_upgrade out async reserved deployed h).1 ≡ stacks_of h
  unfolding deploy_upgrade
  stacks-deploy_upgrade deployed h = ground (arith, stacks-deploy_code deployed h)

  stacks-execute_upgrade :
      (input : ContractCallInput) (h : Host)
      → stacks_of (execute_upgrade out async reserved input h).1 ≡ stacks_of h
  unfolding execute_upgrade set_return_code
  stacks-execute_upgrade input h =
      let ((code, metadata, err), r) = extract_code_upgrade_from_args h.runtime in
      let h1 = set_runtime r h in
      let deployed : CodeDeployInput = record {
        contract_code = code;
        contract_code_metadata = metadata;
        contract_address = input.recipient_addr;
        code_deployer_address = input.vm_input.caller_addr;
      } in
      let (short, h2) = deduct_initial_gas_for_direct_deployment code h1 in
      let (failure, h3) = start_and_init out async reserved code h2 in
      ground (
        arith,
        stacks-extract_code_upgrade_from_args h,
        stacks-deduct_for_direct_deployment code h1,
        stacks-start_and_init code h2,
        stacks-deploy_upgrade deployed h3,
        same_output (set_return_code out_of_gas h2.output) h2 refl,
      )

  stacks-execute_smart_contract_call :
      (input : ContractCallInput) (deduct : Bool) (h : Host)
      → stacks_of (execute_smart_contract_call out async reserved input deduct h).1 ≡ stacks_of h
  unfolding execute_smart_contract_call
  stacks-execute_smart_contract_call input deduct h =
      let h1 = use_gas input.vm_input.gas_provided h in
      let ((code, err), h2) = get_sc_code out h1 in
      let (short, h3) = if deduct then deduct_initial_gas_for_execution code h2 else (none, h2) in
      ground (
        arith,
        stacks-use_gas input.vm_input.gas_provided h,
        stacks-execute_upgrade input h1,
        stacks-get_sc_code out h1,
        stacks-deduct_for_execution code h2,
        stacks-start_and_call code h3,
      )

  stacks-call_after_builtin :
      (input next : ContractCallInput) (h : Host)
      → stacks_of (call_after_builtin out async reserved input next h).1 ≡ stacks_of h
  unfolding call_after_builtin
  stacks-call_after_builtin input next h =
      let r = init_state_from_call_input next h.runtime in
      let (vm_input, m) = init_state_from_contract_call_input next.vm_input h.metering in
      let ready = record h {
        runtime = r;
        metering = m;
        storage = set_address r.sc_address h.storage;
      } in
      let next_input = record next { vm_input = vm_input } in
      let (_, h1) = execute_smart_contract_call out async reserved next_input false ready in
      ground (
        arith,
        stacks-execute_smart_contract_call next_input false ready,
        stacks-begin_after_builtin next h,
        stacks-revert_dcdt_transfer out input h1,
      )

  pub stacks-execute :
      (input : ContractCallInput) (h : Host)
      → stacks_of (execute out async reserved input h).1 ≡ stacks_of h
  unfolding execute
  stacks-execute input h =
      let ((next, used, err), h1) = call_builtin_function out input h in
      grind (
        arith,
        stacks-call_builtin_function out input h,
        stacks-execute_smart_contract_call input true h,
        stacks-call_after_builtin input,
      )
