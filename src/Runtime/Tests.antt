-- ===== src/Runtime/Tests.antt =====
-- Tests of the runtime stacks.
use drt_go_chain_vm_v.Runtime.{push_instance}
use drt_go_chain_vm_v.Runtime.Stack.{cleaned_after}
use drt_go_chain_vm_v.Common.{[], inl, refl, some, true, ◌∷◌, ◌≡◌}
use drt_go_chain_vm_v.Host.{RuntimeContext}
use drt_go_chain_vm_v.Runtime.{pop_set_active_state, push_state}
use drt_go_chain_vm_v.Example.{bob, running}
use drt_go_chain_vm_v.Runtime.Stack.{
  pop_set_active_state-push_state_runtime, resumed_not_cleaned, is_cleaned,
}

-- A nested call runs bob's contract on an instance of its own.
abbrev nested : RuntimeContext
nested = record (push_state running) { sc_address = bob; instance_ref = some 4; read_only = true }

pop_set_active_state-push_state_runtime_example :
    pop_set_active_state nested ≡ record running { cleaned = 4 ∷ [] }
unfolding push_state drt_go_chain_vm_v.Runtime.Stack.cleaned_after
    drt_go_chain_vm_v.Runtime.push_instance
pop_set_active_state-push_state_runtime_example =
    pop_set_active_state-push_state_runtime running nested refl refl

resumed_not_cleaned_example :
    is_cleaned 0 (pop_set_active_state nested).cleaned ≡ is_cleaned 0 nested.cleaned
resumed_not_cleaned_example = resumed_not_cleaned 0 running nested (inl refl) refl refl
