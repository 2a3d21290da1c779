-- ===== src/Execution/Run.antt =====
-- vmhost/hostCore/execution.go and host.go: the calls, the deployments and the upgrades that the node
-- asks for. Each starts from contexts that are reset.
use drt_go_chain_vm_v.Blockchain.{new_address, set_output}
use drt_go_chain_vm_v.Common.{Bool, Option, false, if◌then◌else◌, ltb, none, some, ◌&&◌}
use drt_go_chain_vm_v.Common.Bytes.{Bytes, bytes_eq}
use drt_go_chain_vm_v.Common.Dict.{Dict}
use drt_go_chain_vm_v.Execution.{clean, init_contexts}
use drt_go_chain_vm_v.Execution.Contract.{AsyncCalls, call_sc_method, start_and_init}
use drt_go_chain_vm_v.Host.{CodeDeployInput, Host, is_vm_v2_enabled}
use drt_go_chain_vm_v.Host.Error.{
  VmError, contract_invalid_error, contract_not_found_error, invalid_upgrade_arguments,
  not_enough_gas,
}
use drt_go_chain_vm_v.Host.Vm.{ContractCallInput, ContractCreateInput, VmOutput, out_of_gas}
use drt_go_chain_vm_v.Metering.{init_state_from_contract_call_input}
use drt_go_chain_vm_v.Metering.Usage.{
  deduct_initial_gas_for_direct_deployment, deduct_initial_gas_for_execution,
}
use drt_go_chain_vm_v.Output.Account.{deploy_code, set_return_code}
use drt_go_chain_vm_v.Output.Finish.{create_vm_output_in_case_of_error, get_vm_output}
use drt_go_chain_vm_v.Output.Transfer.{add_tx_value_to_account}
use drt_go_chain_vm_v.Outside.{Outside}
use drt_go_chain_vm_v.Runtime.{
  clean_wasmer_instance, init_state_from_call_input, is_warm_instance, set_sc_address, set_vm_input,
}
use drt_go_chain_vm_v.Runtime.Control.{extract_code_upgrade_from_args, set_runtime}
use drt_go_chain_vm_v.Runtime.Start.{get_sc_code, reset_warm_instance, start_wasmer_instance}
use drt_go_chain_vm_v.Storage.{set_address}
use drt_go_chain_vm_v.Validator.{upgrade_function_name}
use text.Mathlib.Text.{◌==◌ as str_eq}

module _ (out : Outside) where
  fail_run : VmError → Host → VmOutput × Host
  fail_run e h = (create_vm_output_in_case_of_error out.text e h.output, clean h)

  -- output.GetVMOutput, runtime.CleanWasmerInstance and the deferred Clean
  end_run : Host → VmOutput × Host
  end_run h =
      let (o, h1) = get_vm_output out.is_builtin_function_name out.text h in
      (o, clean (set_runtime (clean_wasmer_instance h1.runtime) h1))

  unfoldable pub check_gas_for_get_code : ContractCallInput → Host → Option VmError
  check_gas_for_get_code input h =
      if is_vm_v2_enabled h && ltb input.vm_input.gas_provided h.metering.gas_schedule.get_code
      then some not_enough_gas
      else none

  -- How a call or an upgrade begins. The input is a pointer that the metering context may write to.
  unfoldable pub begin_run : ContractCallInput → Host → ContractCallInput × Host
  begin_run input h =
      let h1 = init_contexts h in
      let r = init_state_from_call_input input h1.runtime in
      let (vm_input, m) = init_state_from_contract_call_input input.vm_input h1.metering in
      let h2 =
        add_tx_value_to_account input.recipient_addr input.vm_input.call_value
          (record h1 { runtime = r; metering = m }) in
      (
        record input { vm_input = vm_input },
        record h2 { storage = set_address r.sc_address h2.storage },
      )

  module _ (async : AsyncCalls) (reserved : Dict Bytes Unit) where
    -- What performCodeDeployment does before the output of the deployment is made.
    unfoldable pub perform_code_deployment : CodeDeployInput → Host → Option VmError × Host
    perform_code_deployment input h =
        let (short, h1) = deduct_initial_gas_for_direct_deployment input.contract_code h in
        let (err, h2) = start_and_init out async reserved input.contract_code h1 in
        elim short [
          | some e ↦ (some e, set_output (set_return_code out_of_gas h1.output) h1)
          | none ↦ elim err [
            | some e ↦ (some e, h2)
            | none ↦ (none, set_output (deploy_code input h2.output) h2)
          ]
        ]

    end_deployment : Option VmError × Host → VmOutput × Host
    unfolding fail_run end_run
    end_deployment (some e, h) = fail_run e h
    end_deployment (none, h) = end_run h

    unfoldable pub do_run_smart_contract_create : ContractCreateInput → Host → VmOutput × Host
    unfolding perform_code_deployment end_deployment fail_run
    do_run_smart_contract_create input h =
        let ((address, err), h1) =
          new_address out.hook input.vm_input.caller_addr (init_contexts h) in
        let r = set_sc_address address (set_vm_input input.vm_input h1.runtime) in
        let (_, m) = init_state_from_contract_call_input input.vm_input h1.metering in
        let h2 =
          add_tx_value_to_account address input.vm_input.call_value
            (record h1 { runtime = r; metering = m }) in
        let h3 = record h2 { storage = set_address r.sc_address h2.storage } in
        elim err [
          | some e ↦ fail_run e h1
          | none ↦ end_deployment (
              perform_code_deployment
                (record {
                  contract_code = input.contract_code;
                  contract_code_metadata = input.contract_code_metadata;
                  contract_address = address;
                  code_deployer_address = input.vm_input.caller_addr;
                })
                h3)
        ]

    unfoldable pub do_run_smart_contract_upgrade : ContractCallInput → Host → VmOutput × Host
    unfolding perform_code_deployment end_deployment fail_run
    do_run_smart_contract_upgrade input h =
        let (_, h1) = begin_run input h in
        let ((code, metadata, err), r) = extract_code_upgrade_from_args h1.runtime in
        let h2 = set_runtime r h1 in
        elim err [
          | some _ ↦ fail_run invalid_upgrade_arguments h2
          | none ↦ end_deployment (
              perform_code_deployment
                (record {
                  contract_code = code;
                  contract_code_metadata = metadata;
                  contract_address = input.recipient_addr;
                  code_deployer_address = input.vm_input.caller_addr;
                })
                h2)
        ]

    -- The code is known and its gas paid: the contract runs.
    run_contract : Bytes → Host → VmOutput × Host
    unfolding fail_run end_run
    run_contract code h =
        let (err, h1) =
          start_wasmer_instance out reserved code h.metering.gas_for_execution false h in
        let (failure, h2) = call_sc_method out async h1 in
        elim err [
          | some _ ↦ fail_run contract_invalid_error h1
          | none ↦ elim failure [ some e ↦ fail_run e h2 | none ↦ end_run h2 ]
        ]

    unfoldable pub do_run_smart_contract_call : ContractCallInput → Host → VmOutput × Host
    unfolding run_contract fail_run
    do_run_smart_contract_call input h =
        let (begun, h1) = begin_run input h in
        let ((code, err), h2) = get_sc_code out h1 in
        let (short, h3) = deduct_initial_gas_for_execution code h2 in
        elim (check_gas_for_get_code begun h1) [
          | some _ ↦ fail_run not_enough_gas h1
          | none ↦ elim err [
            | some _ ↦ fail_run contract_not_found_error h2
            | none ↦ elim short [
              | some _ ↦ fail_run not_enough_gas h3
              | none ↦ run_contract code h3
            ]
          ]
        ]

    -- host.hasRetriableExecutionError
    unfoldable pub has_retriable_execution_error : VmOutput → Host → Bool
    has_retriable_execution_error o h =
        is_warm_instance h.runtime && str_eq o.return_message "allocation error"

    -- RunSmartContractCall: no output where the Go code panics, which it reports as an error.
    unfoldable pub run_smart_contract_call : ContractCallInput → Host → Option VmOutput × Host
    unfolding do_run_smart_contract_call do_run_smart_contract_upgrade
    run_smart_contract_call input h =
        let (upgraded, h1) = do_run_smart_contract_upgrade input h in
        let (o, h2) = do_run_smart_contract_call input h in
        let reset = set_runtime (reset_warm_instance h2.runtime) h2 in
        if bytes_eq input.function upgrade_function_name
        then (if h1.panicked then (none, h1) else (some upgraded, h1))
        else if h2.panicked
        then (none, h2)
        else if has_retriable_execution_error o h2
        then (some o, reset)
        else (some o, h2)

    unfoldable pub run_smart_contract_create : ContractCreateInput → Host → Option VmOutput × Host
    unfolding do_run_smart_contract_create
    run_smart_contract_create input h =
        let (o, h1) = do_run_smart_contract_create input h in
        if h1.panicked then (none, h1) else (some o, h1)
