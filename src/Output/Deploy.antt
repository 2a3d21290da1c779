-- ===== src/Output/Deploy.antt =====
-- The code that a contract execution hands over: DeployCode and removeNonUpdatedCode of
-- vmhost/contexts/output.go.
use drt_go_chain_vm_v.Common.{refl}
use drt_go_chain_vm_v.Common.Dict.{insert, lookup-insert}
use drt_go_chain_vm_v.Output.Account.{get_output_account, set_output_account}
use drt_go_chain_vm_v.Output.Lookup.{
  account_at, account_at-get_output_account, account_at-set_output_account,
}
use drt_go_chain_vm_v.Common.{[], arith, if◌then◌else◌, none, some, ◌∷◌, ◌≡◌}
use drt_go_chain_vm_v.Common.Bytes.{Bytes, bytes_eq, bytes_eq_iff}
use drt_go_chain_vm_v.Common.Dict.{Dict, bytes_Eq, int_Eq, lookup}
use drt_go_chain_vm_v.Host.{CodeDeployInput, OutputAccount, OutputContext}
use drt_go_chain_vm_v.Output.Account.{deploy_code}
use drt_go_chain_vm_v.Output.Finish.{remove_non_updated_code}
use drt_go_chain_vm_v.Output.Lookup.{or_new}

-- The code of an address in a list of accounts, empty where there is no account.
unfoldable pub code_of : Bytes → Dict Bytes OutputAccount → Bytes
code_of a m = (or_new a (lookup a m)).code

code_of-remove_non_updated_code :
    (a : Bytes) (updates : Dict Bytes Unit) (m : Dict Bytes OutputAccount)
    → code_of a (remove_non_updated_code updates m)
      ≡ elim (lookup a updates) [ some _ ↦ code_of a m | none ↦ [] ]
unfolding code_of remove_non_updated_code lookup
code_of-remove_non_updated_code a updates [] = ground arith
code_of-remove_non_updated_code a updates ((k, acc) ∷ m) =
    ground (arith, code_of-remove_non_updated_code a updates m, bytes_eq_iff k a)

code_updates-get_output_account :
    (k : Bytes) (c : OutputContext) → (get_output_account k c).1.code_updates ≡ c.code_updates
unfolding get_output_account
code_updates-get_output_account k c = ground arith

-- The code under an address after a deployment, and whether it counts as updated.
code_of-deploy_code :
    (a : Bytes) (input : CodeDeployInput) (c : OutputContext)
    → (account_at a (deploy_code input c)).code
      ≡ (if bytes_eq input.contract_address a then input.contract_code else (account_at a c).code)
unfolding deploy_code account_at
code_of-deploy_code a input c =
    let k = input.contract_address in
    let looked = get_output_account k c in
    ground (
      arith,
      account_at-get_output_account a k c,
      account_at-set_output_account a k
          (record (looked.0.0) {
            code = input.contract_code;
            code_metadata = input.contract_code_metadata;
            code_deployer_address = some input.code_deployer_address;
          })
          looked.1,
    )

code_updates-deploy_code :
    (input : CodeDeployInput) (c : OutputContext)
    → (deploy_code input c).code_updates ≡ insert input.contract_address tt c.code_updates
unfolding deploy_code set_output_account
code_updates-deploy_code input c =
    rw (code_updates-get_output_account input.contract_address c) refl

-- Once code is deployed, the removal of other code hands over this code under its address, and
-- under every other address what it would have handed over without the deployment.
pub remove_non_updated_code-deploy_code :
    (a : Bytes) (input : CodeDeployInput) (c : OutputContext)
    → let c' = deploy_code input c in
      code_of a (remove_non_updated_code c'.code_updates c'.output_state.output_accounts) ≡ (
        if bytes_eq input.contract_address a
        then input.contract_code
        else code_of a (remove_non_updated_code c.code_updates c.output_state.output_accounts))
unfolding account_at code_of
remove_non_updated_code-deploy_code a input c =
    let c' = deploy_code input c in
    ground (
      arith,
      code_of-remove_non_updated_code a c'.code_updates c'.output_state.output_accounts,
      code_of-remove_non_updated_code a c.code_updates c.output_state.output_accounts,
      code_of-deploy_code a input c,
      code_updates-deploy_code input c,
      lookup-insert input.contract_address a tt c.code_updates,
    )
