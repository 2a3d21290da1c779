-- ===== src/Output.antt =====
-- vmhost/contexts/output.go: the output of the running contract and the stack of outputs under it.
-- A Go map is an association list, and a loop over a map visits the entries in the list's order.
-- The stack grows at its head here, and at its end in Go.
pub mod Account
pub mod Merge
pub mod Transfer
pub mod Finish
pub mod Lookup
pub mod Balance
pub mod Funds
pub mod Sent
pub mod Total
pub mod Active
pub mod Absorbed
pub mod Deploy
mod Tests
use drt_go_chain_vm_v.Common.{
  List, Option, [], drop, if◌then◌else◌, length, ltb, none, some, ◌++◌, ◌∷◌,
}
use drt_go_chain_vm_v.Common.Bytes.{Bytes}
use drt_go_chain_vm_v.Common.Dict.{Dict, bytes_Eq, insert, int_Eq, lookup}
use drt_go_chain_vm_v.Common.Int.{pos}
use drt_go_chain_vm_v.Host.{OutputAccount, OutputContext, StorageUpdate, VmOutput, return_ok}
use Prim.Native.String.{String}

abbrev pub new_vm_output : VmOutput
new_vm_output = record {
  return_data = [];
  return_code = return_ok;
  return_message = "";
  gas_remaining = 0;
  gas_refund = some (pos 0);
  output_accounts = [];
  logs = [];
}

abbrev pub new_vm_output_account : Bytes → OutputAccount
new_vm_output_account address = record {
  address = address;
  nonce = 0;
  balance = none;
  balance_delta = some (pos 0);
  storage_updates = [];
  code = [];
  code_metadata = [];
  code_deployer_address = none;
  output_transfers = [];
  gas_used = 0;
}

-- &vmcommon.OutputAccount{}
abbrev pub blank_account : OutputAccount
blank_account = record {
  address = [];
  nonce = 0;
  balance = none;
  balance_delta = none;
  storage_updates = [];
  code = [];
  code_metadata = [];
  code_deployer_address = none;
  output_transfers = [];
  gas_used = 0;
}

unfoldable pub init_state : OutputContext → OutputContext
init_state c = record c { output_state = new_vm_output; code_updates = [] }

abbrev pub or_else {ℓ} : {A : Type ℓ} → Option A → Option A → Option A
or_else (some a) d = some a
or_else none d = d

abbrev pub or_bytes : Bytes → Bytes → Bytes
or_bytes [] d = d
or_bytes (x ∷ xs) d = x ∷ xs

pub merge_storage_updates :
    Dict Bytes StorageUpdate → Dict Bytes StorageUpdate → Dict Bytes StorageUpdate
merge_storage_updates left [] = left
merge_storage_updates left ((key, update) ∷ right) =
    merge_storage_updates (insert key update left) right

unfoldable pub merge_output_accounts : OutputAccount → OutputAccount → OutputAccount
unfolding merge_storage_updates
merge_output_accounts left right = record {
  address = or_bytes right.address left.address;
  nonce = if ltb left.nonce right.nonce then right.nonce else left.nonce;
  balance = or_else right.balance left.balance;
  balance_delta = or_else right.balance_delta (or_else left.balance_delta (some (pos 0)));
  storage_updates = merge_storage_updates left.storage_updates right.storage_updates;
  code = or_bytes right.code left.code;
  code_metadata = or_bytes right.code_metadata left.code_metadata;
  code_deployer_address = or_else right.code_deployer_address left.code_deployer_address;
  output_transfers =
      (if ltb (length left.output_transfers) (length right.output_transfers)
        then left.output_transfers ++ drop (length left.output_transfers) right.output_transfers
        else left.output_transfers);
  gas_used = right.gas_used;
}

abbrev pub or_blank : Option OutputAccount → OutputAccount
or_blank (some a) = a
or_blank none = blank_account

-- The loop of mergeVMOutputs over the accounts of the right output.
pub merge_accounts : Dict Bytes OutputAccount → Dict Bytes OutputAccount → Dict Bytes OutputAccount
merge_accounts left [] = left
merge_accounts left ((_, right_account) ∷ right) =
    let left_account = or_blank (lookup right_account.address left) in
    merge_accounts
      (insert right_account.address (merge_output_accounts left_account right_account) left) right

unfoldable pub merge_vm_outputs : VmOutput → VmOutput → VmOutput
unfolding merge_accounts
merge_vm_outputs left right = record {
  output_accounts = merge_accounts left.output_accounts right.output_accounts;
  logs = left.logs ++ right.logs;
  return_data = left.return_data ++ right.return_data;
  gas_remaining = right.gas_remaining;
  gas_refund = or_else right.gas_refund (some (pos 0));
  return_code = right.return_code;
  return_message = right.return_message;
}

unfoldable pub push_state : OutputContext → OutputContext
push_state c = record c {
  state_stack = merge_vm_outputs new_vm_output c.output_state ∷ c.state_stack;
}

restore : OutputContext → List VmOutput → OutputContext
restore c [] = c
restore c (prev ∷ rest) = record c { output_state = prev; state_stack = rest }

unfoldable pub pop_set_active_state : OutputContext → OutputContext
unfolding restore
pop_set_active_state c = restore c c.state_stack

merge_down : OutputContext → List VmOutput → OutputContext
merge_down c [] = c
merge_down c (prev ∷ rest) = record c {
  output_state = merge_vm_outputs new_vm_output (merge_vm_outputs prev c.output_state);
  state_stack = rest;
}

unfoldable pub pop_merge_active_state : OutputContext → OutputContext
unfolding merge_down
pop_merge_active_state c = merge_down c c.state_stack

discard : OutputContext → List VmOutput → OutputContext
discard c [] = c
discard c (_ ∷ rest) = record c { state_stack = rest }

unfoldable pub pop_discard : OutputContext → OutputContext
unfolding discard
pop_discard c = discard c c.state_stack

unfoldable pub clear_state_stack : OutputContext → OutputContext
clear_state_stack c = record c { state_stack = [] }

unfoldable pub censor_vm_output : OutputContext → OutputContext
censor_vm_output c = record c {
  output_state = record (c.output_state) {
    return_data = [];
    return_code = return_ok;
    return_message = "";
    gas_remaining = 0;
    gas_refund = some (pos 0);
    logs = [];
  };
}

-- The inner loop of ResetGas assigns to the fields of its loop variable, a copy of the transfer, so
-- the transfers of the account stay.
pub clear_gas : Dict Bytes OutputAccount → Dict Bytes OutputAccount
clear_gas [] = []
clear_gas ((k, a) ∷ m) = (k, record a { gas_used = 0 }) ∷ clear_gas m

unfoldable pub reset_gas : OutputContext → OutputContext
unfolding clear_gas
reset_gas c = record c {
  output_state = record (c.output_state) {
    output_accounts = clear_gas c.output_state.output_accounts;
  };
}
