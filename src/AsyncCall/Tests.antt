-- ===== src/AsyncCall/Tests.antt =====
-- Tests of asynchronous calls at concrete states.
use drt_go_chain_vm_v.Common.Dict.{lookup}
use drt_go_chain_vm_v.Common.{◌⊎◌}
use drt_go_chain_vm_v.Common.Dict.{bytes_Eq, int_Eq}
use drt_go_chain_vm_v.Overflow.{add_uint64_with_err}
use drt_go_chain_vm_v.AsyncCall.{async_storage_key, setup_async_calls_gas}
use drt_go_chain_vm_v.AsyncCall.Callback.{process_callback_stack}
use drt_go_chain_vm_v.AsyncCall.Depth.{execute_at_depth, execute_at_depth-restores}
use drt_go_chain_vm_v.AsyncCall.Gas.{
  contexts_limit, contexts_without, count_without, setup_async_calls_gas-within,
}
use drt_go_chain_vm_v.AsyncCall.Waiting.{process_callback_stack-waits, waiting}
use drt_go_chain_vm_v.Common.{[], arith, none, refl, some, ℕ, ◌<◌, ◌^◌, ◌∷◌, ◌≡◌, ◌≤◌}
use drt_go_chain_vm_v.Common.Bytes.{Bytes}
use drt_go_chain_vm_v.Common.Dict.{Dict}
use drt_go_chain_vm_v.Example.{bob, call_of_bob, host, outside}
use drt_go_chain_vm_v.Execution.Frame.{frame_of}
use drt_go_chain_vm_v.Execution.Nested.{DestResult}
use drt_go_chain_vm_v.Execution.Stacks.{stacks_of}
use drt_go_chain_vm_v.Host.{Host}
use drt_go_chain_vm_v.Storage.Cache.{stored}
use drt_go_chain_vm_v.Host.Error.{callback_func_not_expected}
use drt_go_chain_vm_v.Host.Async.{
  AsyncContext, AsyncContextInfo, AsyncGeneratedCall, async_call_pending,
}
use drt_go_chain_vm_v.Host.Vm.{ContractCallInput, Instance}
use drt_go_chain_vm_v.Output.{new_vm_output}
use drt_go_chain_vm_v.Output.Account.{finish}
use drt_go_chain_vm_v.Outside.{Outside}
use drt_go_chain_vm_v.Storage.{get_storage_unmetered}

abbrev call_of : ℕ → AsyncGeneratedCall
call_of gas = record {
  status = async_call_pending;
  destination = bob;
  payload = [];
  gas_limit = 0;
  value_bytes = [];
  success_callback = [];
  error_callback = [];
  provided_gas = gas;
}

-- Two calls without gas and one with 300.
abbrev three_calls : Dict Bytes AsyncContext
three_calls =
    (1 ∷ [], record { callback = []; async_calls = call_of 0 ∷ call_of 300 ∷ [] })
    ∷ (2 ∷ [], record { callback = []; async_calls = call_of 0 ∷ [] })
    ∷ []

three_calls_succeed : (setup_async_calls_gas 1000 three_calls).1 ≡ none
unfolding setup_async_calls_gas add_uint64_with_err
three_calls_succeed = refl

counted : contexts_without three_calls < 2 ^ 64
unfolding contexts_without count_without
counted = omega arith

setup_async_calls_gas-within_example :
    contexts_limit (setup_async_calls_gas 1000 three_calls).0 ≤ 1000
setup_async_calls_gas-within_example =
    setup_async_calls_gas-within 1000 three_calls
      ((omega arith, (omega arith, tt)), ((omega arith, tt), tt)) counted three_calls_succeed

-- The stored record holds two calls to bob, whose callback comes in.
abbrev two_pending : AsyncContextInfo
two_pending = record {
  caller_addr = bob;
  return_data = [];
  async_context_map =
      (1 ∷ [], record { callback = []; async_calls = call_of 0 ∷ call_of 300 ∷ [] }) ∷ [];
}

abbrev with_record : Outside
with_record = record outside {
  hook = record (outside.hook) { get_storage_data = λ _ _. 1 ∷ [] };
  from_json = λ _. some two_pending;
}

no_dest : ContractCallInput → Host → DestResult × Host
no_dest input h = (
  record { vm_output = new_vm_output; async_info = none; gas_used_before_reset = 0; error = none },
  h,
)

process_callback_stack-waits_example :
    let (err, h') = process_callback_stack with_record no_dest host in
    (h' ≡ (get_storage_unmetered with_record.hook (async_storage_key host) host).1)
    × (stored with_record.hook bob (async_storage_key host) h'
        ≡ stored with_record.hook bob (async_storage_key host) host)
    × ((err ≡ none) ⊎ (err ≡ some callback_func_not_expected))
unfolding waiting drt_go_chain_vm_v.Common.Dict.lookup
process_callback_stack-waits_example =
    process_callback_stack-waits with_record no_dest bob (async_storage_key host) host two_pending
      refl (refl, tt) (omega arith)

engine_keeps :
    (i : Instance) (name : Bytes) (h : Host)
    → stacks_of (outside.engine.call i name h).1 ≡ stacks_of h
unfolding stacks_of finish
engine_keeps i name h = refl

no_dest_restores :
    (input : ContractCallInput) (h : Host) → frame_of (no_dest input h).1 ≡ frame_of h
unfolding no_dest
no_dest_restores input h = refl

execute_at_depth-restores_example :
    frame_of (execute_at_depth outside [] no_dest 3 call_of_bob host).1 ≡ frame_of host
execute_at_depth-restores_example =
    execute_at_depth-restores outside [] engine_keeps no_dest no_dest_restores 3 call_of_bob host
