-- ===== src/Output/Lookup.antt =====
-- What the operations of vmhost/contexts/output.go on one account leave under each address.
use drt_go_chain_vm_v.Common.{Option, arith, if◌then◌else◌, none, some, ◌≡◌}
use drt_go_chain_vm_v.Common.Bytes.{Bytes, bytes_eq, bytes_eq_iff}
use drt_go_chain_vm_v.Common.Dict.{bytes_Eq, int_Eq, lookup, lookup-insert}
use drt_go_chain_vm_v.Host.{OutputAccount, OutputContext}
use drt_go_chain_vm_v.Output.{new_vm_output_account}
use drt_go_chain_vm_v.Output.Account.{get_output_account, set_output_account}

-- The account that GetOutputAccount would return, without adding it.
abbrev pub or_new : Bytes → Option OutputAccount → OutputAccount
or_new address none = new_vm_output_account address
or_new address (some a) = a

unfoldable pub account_at : Bytes → OutputContext → OutputAccount
account_at address c = or_new address (lookup address c.output_state.output_accounts)

pub get_output_account-eq-account_at :
    (a : Bytes) (c : OutputContext) → (get_output_account a c).0.0 ≡ account_at a c
unfolding get_output_account account_at
get_output_account-eq-account_at a c = ground arith

-- Looking an account up adds at most a new account, which every reader would have seen.
pub account_at-get_output_account :
    (a k : Bytes) (c : OutputContext) → account_at a (get_output_account k c).1 ≡ account_at a c
unfolding get_output_account account_at
account_at-get_output_account a k c = ground (
  arith,
  lookup-insert k a (new_vm_output_account k) c.output_state.output_accounts,
  bytes_eq_iff k a,
)

pub account_at-set_output_account :
    (a k : Bytes) (acc : OutputAccount) (c : OutputContext)
    → account_at a (set_output_account k acc c) ≡ (if bytes_eq k a then acc else account_at a c)
unfolding set_output_account account_at
account_at-set_output_account a k acc c =
    ground (arith, lookup-insert k a acc c.output_state.output_accounts)
