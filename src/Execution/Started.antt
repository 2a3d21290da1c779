-- ===== src/Execution/Started.antt =====
-- The state stacks of the contexts through the start of a WASM instance.
use drt_go_chain_vm_v.Runtime.{must_verify_next_contract_code}
use drt_go_chain_vm_v.Runtime.Control.{extract_code_upgrade_from_args}
use drt_go_chain_vm_v.Blockchain.{get_code, get_code_hash}
use drt_go_chain_vm_v.Common.{Bool, arith, none, refl, ℕ, ◌≡◌}
use drt_go_chain_vm_v.Common.Bytes.{Bytes}
use drt_go_chain_vm_v.Common.Dict.{Dict}
use drt_go_chain_vm_v.Execution.Stacks.{stacks-get_code, stacks_of}
use drt_go_chain_vm_v.Host.{Host, RuntimeContext, is_dcdt_functions_enabled}
use drt_go_chain_vm_v.Host.Runtime.{set_points_used}
use drt_go_chain_vm_v.Host.Vm.{Instance}
use drt_go_chain_vm_v.Outside.{Outside}
use drt_go_chain_vm_v.Runtime.{clean_wasmer_instance}
use drt_go_chain_vm_v.Runtime.Control.{set_breakpoint, set_runtime}
use drt_go_chain_vm_v.Runtime.Start.{
  add_instance, finish_new_instance, get_sc_code, keep_warm, make_instance_from_compiled_code,
  make_instance_from_contract_byte_code, set_gas_limit, set_warm_instance_when_needed,
  start_wasmer_instance, verify_new_code,
}
use drt_go_chain_vm_v.Validator.{verify_contract_code}

same_runtime :
    (r : RuntimeContext) (h : Host)
    → r.state_stack ≡ h.runtime.state_stack
    → r.instance_stack ≡ h.runtime.instance_stack
    → stacks_of (set_runtime r h) ≡ stacks_of h
unfolding stacks_of
same_runtime r h s i = ground arith

pub stacks-must_verify :
    (h : Host) → stacks_of (set_runtime (must_verify_next_contract_code h.runtime) h) ≡ stacks_of h
unfolding stacks_of must_verify_next_contract_code
stacks-must_verify h = refl

pub stacks-extract_code_upgrade_from_args :
    (h : Host)
    → stacks_of (set_runtime (extract_code_upgrade_from_args h.runtime).1 h) ≡ stacks_of h
unfolding stacks_of extract_code_upgrade_from_args
stacks-extract_code_upgrade_from_args h = ground arith

pub stacks-clean_wasmer_instance :
    (h : Host) → stacks_of (set_runtime (clean_wasmer_instance h.runtime) h) ≡ stacks_of h
unfolding stacks_of clean_wasmer_instance
stacks-clean_wasmer_instance h = ground arith

stacks-set_warm_instance_when_needed :
    (gas : ℕ) (h : Host) → stacks_of (set_warm_instance_when_needed gas h).1 ≡ stacks_of h
unfolding stacks_of set_warm_instance_when_needed set_points_used set_breakpoint set_gas_limit
stacks-set_warm_instance_when_needed gas h = ground arith

verify_contract_code_stacks :
    (reserved : Dict Bytes Unit) (dcdt : Bool) (made : Instance) (r : RuntimeContext)
    → ((verify_contract_code reserved dcdt made r).1.state_stack ≡ r.state_stack)
      × ((verify_contract_code reserved dcdt made r).1.instance_stack ≡ r.instance_stack)
unfolding verify_contract_code
verify_contract_code_stacks reserved dcdt made r = ground arith

stacks-add_instance :
    (made : Instance) (gas : ℕ) (h : Host)
    → stacks_of (set_runtime (add_instance made gas h.runtime) h) ≡ stacks_of h
unfolding stacks_of add_instance
stacks-add_instance made gas h = refl

module _ (out : Outside) where
  stacks-make_instance_from_compiled_code :
      (hash : Bytes) (gas : ℕ) (new_code : Bool) (h : Host)
      → stacks_of (make_instance_from_compiled_code out hash gas new_code h).1 ≡ stacks_of h
  unfolding stacks_of make_instance_from_compiled_code add_instance
  stacks-make_instance_from_compiled_code hash gas new_code h = ground arith

  stacks-keep_warm : (h : Host) → stacks_of (keep_warm out h) ≡ stacks_of h
  unfolding stacks_of keep_warm
  stacks-keep_warm h = ground arith

  pub stacks-get_sc_code : (h : Host) → stacks_of (get_sc_code out h).1 ≡ stacks_of h
  unfolding get_sc_code stacks_of
  stacks-get_sc_code h =
      let (_, h1) = get_code out.hook h.runtime.sc_address h in
      ground (arith, stacks-get_code out.hook h.runtime.sc_address h)

  module _ (reserved : Dict Bytes Unit) where
    stacks-verify_new_code :
        (made : Instance) (h : Host)
        → stacks_of (verify_new_code out reserved made h).1 ≡ stacks_of h
    unfolding verify_new_code
    stacks-verify_new_code made h =
        let v = verify_contract_code_stacks reserved (is_dcdt_functions_enabled h) made h.runtime in
        same_runtime (verify_contract_code reserved (is_dcdt_functions_enabled h) made h.runtime).1
          h v.0 v.1

    stacks-finish_new_instance :
        (contract hash : Bytes) (new_code : Bool) (made : Instance) (h : Host)
        → stacks_of (finish_new_instance out reserved contract hash new_code made h).1 ≡ stacks_of h
    unfolding finish_new_instance
    stacks-finish_new_instance contract hash new_code made h =
        let verified = (verify_new_code out reserved made h).1 in
        ground (
          arith,
          stacks-clean_wasmer_instance h,
          stacks-clean_wasmer_instance verified,
          stacks-keep_warm h,
          stacks-keep_warm verified,
          stacks-verify_new_code made h,
        )

    stacks-make_instance_from_contract_byte_code :
        (contract hash : Bytes) (gas : ℕ) (new_code : Bool) (h : Host)
        → stacks_of
            (make_instance_from_contract_byte_code out reserved contract hash gas new_code h).1
          ≡ stacks_of h
    unfolding make_instance_from_contract_byte_code
    stacks-make_instance_from_contract_byte_code contract hash gas new_code h = grind (
      arith,
      same_runtime (record (h.runtime) { instance_ref = none }) h refl refl,
      stacks-finish_new_instance contract hash new_code,
      stacks-add_instance,
    )

    pub stacks-start_wasmer_instance :
        (contract : Bytes) (gas : ℕ) (new_code : Bool) (h : Host)
        → stacks_of (start_wasmer_instance out reserved contract gas new_code h).1 ≡ stacks_of h
    unfolding start_wasmer_instance
    stacks-start_wasmer_instance contract gas new_code h =
        let (_, h1) = set_warm_instance_when_needed gas h in
        let code_hash = get_code_hash out.hook h.runtime.sc_address in
        let (_, h2) = make_instance_from_compiled_code out code_hash gas new_code h1 in
        ground (
          arith,
          stacks-set_warm_instance_when_needed gas h,
          stacks-make_instance_from_compiled_code code_hash gas new_code h1,
          stacks-make_instance_from_contract_byte_code contract code_hash gas new_code h2,
          same_runtime (record (h.runtime) { instance_ref = none }) h refl refl,
        )
