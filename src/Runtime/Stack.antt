-- ===== src/Runtime/Stack.antt =====
-- The stacks of vmhost/contexts/runtime.go: what a nested call leaves after PopSetActiveState.
use drt_go_chain_vm_v.Common.{
  Bool, List, Option, [], ap, arith, false, if◌then◌else◌, none, refl, some, true, ℕ, ◌==◌, ◌||◌,
  ◌∷◌, ◌≡◌, ◌⊎◌,
}
use drt_go_chain_vm_v.Runtime.{
  clean_wasmer_instance, copy_dcdt_transfer, copy_vm_input, is_warm_instance, pop_instance,
  push_instance, resume, same_ref, set_vm_input,
}
use drt_go_chain_vm_v.Host.{RuntimeContext, DcdtTransfer, VmInput}
use drt_go_chain_vm_v.Runtime.{push_state, pop_set_active_state, restore}
use mathlib.Core.List.{map}

map-copy_dcdt_transfer : (ts : List DcdtTransfer) → map copy_dcdt_transfer ts ≡ ts
unfolding copy_dcdt_transfer
map-copy_dcdt_transfer [] = refl
map-copy_dcdt_transfer (t ∷ ts) = ap (λ (x : List DcdtTransfer). t ∷ x) (map-copy_dcdt_transfer ts)

copy_vm_input_same : (input : VmInput) → copy_vm_input input ≡ input
unfolding copy_vm_input
copy_vm_input_same input = rw (map-copy_dcdt_transfer input.dcdt_transfers) refl

same_ref_sound : (a b : Option ℕ) → same_ref a b ≡ true → a ≡ b
same_ref_sound none none e = refl
same_ref_sound (some i) (some j) e = ap some (ground arith)
same_ref_sound none (some j) e = cc
same_ref_sound (some i) none e = cc

-- The instances cleaned once a nested call that began on the instance `before` has ended.
unfoldable pub cleaned_after : Option ℕ → RuntimeContext → List ℕ
cleaned_after before nested = elim nested.instance_ref [
  | none ↦ nested.cleaned
  | some i ↦
      if same_ref before (some i) || same_ref (some i) nested.warm_instance
      then nested.cleaned
      else i ∷ nested.cleaned
]

-- Whatever a nested call did since PushState, provided that it left both stacks as PushState made
-- them, PopSetActiveState brings back the input, the address, the function, the mode, the records of
-- asynchronous calls, the instance and both stacks. It cleans the instance of the nested call where
-- that is neither the one to resume on nor the warm one, and keeps all else of the nested call.
pub pop_set_active_state-push_state_runtime :
    (r nested : RuntimeContext)
    → nested.state_stack ≡ (push_state r).state_stack
    → nested.instance_stack ≡ (push_state r).instance_stack
    → pop_set_active_state nested ≡ record nested {
      vm_input = r.vm_input;
      sc_address = r.sc_address;
      call_function = r.call_function;
      read_only = r.read_only;
      async_call_info = r.async_call_info;
      async_context_info = r.async_context_info;
      state_stack = r.state_stack;
      instance_stack = r.instance_stack;
      instance_ref = r.instance_ref;
      cleaned = cleaned_after r.instance_ref nested;
    }
unfolding push_state push_instance pop_set_active_state restore pop_instance resume
    clean_wasmer_instance is_warm_instance set_vm_input cleaned_after
pop_set_active_state-push_state_runtime r nested s i =
    ground (arith, copy_vm_input_same r.vm_input, same_ref_sound r.instance_ref nested.instance_ref)

unfoldable pub is_cleaned : ℕ → List ℕ → Bool
is_cleaned i [] = false
is_cleaned i (j ∷ js) = i == j || is_cleaned i js

-- Ending a nested call that left both stacks as PushState made them never cleans the instance on
-- which the caller resumes, nor the warm instance.
pub resumed_not_cleaned :
    (i : ℕ) (r nested : RuntimeContext)
    → ((r.instance_ref ≡ some i) ⊎ (nested.warm_instance ≡ some i))
    → nested.state_stack ≡ (push_state r).state_stack
    → nested.instance_stack ≡ (push_state r).instance_stack
    → is_cleaned i (pop_set_active_state nested).cleaned ≡ is_cleaned i nested.cleaned
unfolding is_cleaned cleaned_after
resumed_not_cleaned i r nested w s t =
    ground (arith, pop_set_active_state-push_state_runtime r nested s t)
