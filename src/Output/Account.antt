-- ===== src/Output/Account.antt =====
-- vmhost/contexts/output.go: the accounts, the return data and the logs of the active output.
use drt_go_chain_vm_v.Host.{CodeDeployInput}
use drt_go_chain_vm_v.Common.{
  Bool, List, Option, [], false, if◌then◌else◌, none, some, true, ℕ, ◌++◌, ◌∷◌,
}
use drt_go_chain_vm_v.Common.Bytes.{Bytes}
use drt_go_chain_vm_v.Common.Dict.{bytes_Eq, erase, insert, int_Eq, lookup}
use drt_go_chain_vm_v.Common.Int.{pos, ℤ}
use drt_go_chain_vm_v.Host.{Host, LogEntry, OutputAccount, OutputContext, ReturnCode}
use drt_go_chain_vm_v.Output.{new_vm_output_account}
use drt_go_chain_vm_v.Overflow.{add_uint64, bits64, from_bits64}
use Prim.Native.String.{String}

-- The account, and whether it is new. A new account is added to the output.
unfoldable pub get_output_account : Bytes → OutputContext → (OutputAccount × Bool) × OutputContext
get_output_account address c = elim (lookup address c.output_state.output_accounts) [
  | some account ↦ ((account, false), c)
  | none ↦ (
    (new_vm_output_account address, true),
    record c {
      output_state = record (c.output_state) {
        output_accounts =
            insert address (new_vm_output_account address) c.output_state.output_accounts;
      };
    },
  )
]

-- A write through the account pointer that GetOutputAccount returned for the address.
unfoldable pub set_output_account : Bytes → OutputAccount → OutputContext → OutputContext
set_output_account address account c = record c {
  output_state = record (c.output_state) {
    output_accounts = insert address account c.output_state.output_accounts;
  };
}

unfoldable pub delete_output_account : Bytes → OutputContext → OutputContext
delete_output_account address c = record c {
  output_state = record (c.output_state) {
    output_accounts = erase address c.output_state.output_accounts;
  };
  code_updates = erase address c.code_updates;
}

abbrev pub or_nil : Option ℤ → ℤ
or_nil (some z) = z
or_nil none = pos 0

-- uint64(GasRefund.Int64()): the low 64 bits. The refund of an active output is never nil.
unfoldable pub get_refund : OutputContext → ℕ
get_refund c = bits64 (or_nil c.output_state.gas_refund)

-- big.NewInt(int64(refund))
unfoldable pub set_refund : ℕ → OutputContext → OutputContext
set_refund refund c = record c {
  output_state = record (c.output_state) { gas_refund = some (from_bits64 refund) };
}

unfoldable pub set_return_code : ReturnCode → OutputContext → OutputContext
set_return_code code c = record c { output_state = record (c.output_state) { return_code = code } }

unfoldable pub set_return_message : String → OutputContext → OutputContext
set_return_message message c = record c {
  output_state = record (c.output_state) { return_message = message };
}

unfoldable pub clear_return_data : OutputContext → OutputContext
clear_return_data c = record c { output_state = record (c.output_state) { return_data = [] } }

unfoldable pub finish : Bytes → OutputContext → OutputContext
finish item c = record c {
  output_state = record (c.output_state) { return_data = c.output_state.return_data ++ item ∷ [] };
}

unfoldable pub prepend_finish : Bytes → OutputContext → OutputContext
prepend_finish item c = record c {
  output_state = record (c.output_state) { return_data = item ∷ c.output_state.return_data };
}

new_log_entry : Bytes → List Bytes → Bytes → LogEntry
new_log_entry address [] item = record {
  address = address;
  identifier = [];
  topics = [];
  content = item ∷ [];
}
new_log_entry address (topic ∷ topics) item = record {
  address = address;
  identifier = topic;
  topics = topics;
  content = item ∷ [];
}

-- Nothing is written in read-only mode.
unfoldable pub write_log : Bytes → List Bytes → Bytes → Host → Host
unfolding new_log_entry
write_log address topics item h = if h.runtime.read_only then h else record h {
  output = record (h.output) {
    output_state = record (h.output.output_state) {
      logs = h.output.output_state.logs ++ new_log_entry address topics item ∷ [];
    };
  };
}

-- FreeGas of metering.go, which writes the refund here.
unfoldable pub free_gas : ℕ → Host → Host
unfolding get_refund set_refund
free_gas gas h = record h { output = set_refund (add_uint64 (get_refund h.output) gas) h.output }

unfoldable pub deploy_code : CodeDeployInput → OutputContext → OutputContext
deploy_code input c =
    let ((account, _), c') = get_output_account input.contract_address c in
    let deployed =
      set_output_account input.contract_address
        (record account {
          code = input.contract_code;
          code_metadata = input.contract_code_metadata;
          code_deployer_address = some input.code_deployer_address;
        })
        c' in
    record deployed { code_updates = insert input.contract_address tt deployed.code_updates }
