-- ===== src/Runtime/Start.antt =====
-- vmhost/contexts/runtime.go: the WASM instance of a contract, from the warm one, from compiled code
-- or from the bytecode. The compiled code that the node keeps is the node's: saving it changes
-- nothing here. The options of the compilation but the gas limit are constants of the engine.
use drt_go_chain_vm_v.Blockchain.{get_code, get_code_hash}
use drt_go_chain_vm_v.Common.{
  Bool, Option, [], false, if◌then◌else◌, leb, length, none, not, some, suc, true, ℕ, ◌%◌, ◌&&◌,
  ◌==◌, ◌^◌, ◌||◌, ◌∷◌,
}
use drt_go_chain_vm_v.Common.Bytes.{Bytes, bytes_eq}
use drt_go_chain_vm_v.Common.Dict.{Dict}
use drt_go_chain_vm_v.Host.{is_ahead_of_time_compile_enabled, is_dcdt_functions_enabled}
use drt_go_chain_vm_v.Host.Error.{VmError, max_instances_reached}
use drt_go_chain_vm_v.Host.Runtime.{set_cell, set_points_used}
use drt_go_chain_vm_v.Host.Vm.{Instance}
use drt_go_chain_vm_v.Runtime.{clean_wasmer_instance, running_instances_count}
use drt_go_chain_vm_v.Runtime.Control.{breakpoint_none, set_breakpoint, set_runtime}
use drt_go_chain_vm_v.Validator.{verify_contract_code}
use drt_go_chain_vm_v.Host.{Host, RuntimeContext}
use drt_go_chain_vm_v.Outside.{Outside}

-- A new instance, with no gas used, no breakpoint and the given gas limit.
unfoldable pub add_instance : Instance → ℕ → RuntimeContext → RuntimeContext
add_instance made gas_limit r =
    let i = r.next_instance in
    record r {
      instance_ref = some i;
      instances = λ q. if i == q then made else r.instances q;
      points_used = set_cell r.points_used i 0;
      breakpoints = set_cell r.breakpoints i breakpoint_none;
      gas_limits = set_cell r.gas_limits i gas_limit;
      next_instance = suc i;
    }

-- SetGasLimit of the running instance.
unfoldable pub set_gas_limit : ℕ → RuntimeContext → RuntimeContext
set_gas_limit gas_limit r = elim r.instance_ref [
  | none ↦ r
  | some i ↦ record r { gas_limits = set_cell r.gas_limits i gas_limit }
]

is_warm_address : RuntimeContext → Bool
is_warm_address r = elim r.warm_instance_address [
  | none ↦ false
  | some address ↦ bytes_eq r.sc_address address
]

-- Whether the warm instance is used, and the host.
unfoldable pub set_warm_instance_when_needed : ℕ → Host → Bool × Host
unfolding is_warm_address set_gas_limit
set_warm_instance_when_needed gas_limit h =
    let warm = record (h.runtime) { instance_ref = h.runtime.warm_instance } in
    let reset = set_points_used 0 (set_runtime warm h) in
    if h.runtime.use_warm_instance && is_warm_address h.runtime
    then (
      true,
      set_breakpoint breakpoint_none (set_runtime (set_gas_limit gas_limit reset.runtime) reset),
    )
    else (false, h)

module _ (out : Outside) where
  unfoldable pub make_instance_from_compiled_code : Bytes → ℕ → Bool → Host → Bool × Host
  unfolding add_instance
  make_instance_from_compiled_code code_hash gas_limit new_code h =
      if not (is_ahead_of_time_compile_enabled h) || new_code || length code_hash == 0
      then (false, h)
      else elim (out.hook.get_compiled_code code_hash) [
        | none ↦ (false, h)
        | some compiled ↦ elim (out.engine.instance_from_compiled_code compiled) [
          | none ↦ (false, h)
          | some made ↦ (
            true,
            set_runtime (record (add_instance made gas_limit h.runtime) { verify_code = false }) h,
          )
        ]
      ]

  unfoldable pub keep_warm : Host → Host
  keep_warm h =
      if h.runtime.use_warm_instance
      then set_runtime
          (record (h.runtime) {
            warm_instance_address = some h.runtime.sc_address;
            warm_instance = h.runtime.instance_ref;
          })
          h
      else h

  -- The verification of new code, with the names that are reserved.
  unfoldable pub verify_new_code : Dict Bytes Unit → Instance → Host → Option VmError × Host
  verify_new_code reserved made h =
      let (err, r) = verify_contract_code reserved (is_dcdt_functions_enabled h) made h.runtime in
      (err, set_runtime r h)

  module _ (reserved : Dict Bytes Unit) where
    -- What follows the creation of an instance from bytecode.
    unfoldable pub finish_new_instance :
        Bytes → Bytes → Bool → Instance → Host → Option VmError × Host
    finish_new_instance contract code_hash new_code made h =
        let (_, hash_err) =
          if new_code || length code_hash == 0 then out.sha256 contract else (code_hash, none) in
        let (err, h1) = if new_code then verify_new_code reserved made h else (none, h) in
        elim hash_err [
          | some e ↦ (some e, set_runtime (clean_wasmer_instance h.runtime) h)
          | none ↦ elim err [
            | some e ↦ (some e, set_runtime (clean_wasmer_instance h1.runtime) h1)
            | none ↦ (none, keep_warm h1)
          ]
        ]

    unfoldable pub make_instance_from_contract_byte_code :
        Bytes → Bytes → ℕ → Bool → Host → Option VmError × Host
    unfolding add_instance
    make_instance_from_contract_byte_code contract code_hash gas_limit new_code h =
        elim (out.engine.new_instance contract) [
          | none ↦ (
            some out.engine.instance_error,
            set_runtime (record (h.runtime) { instance_ref = none }) h,
          )
          | some made ↦
              finish_new_instance contract code_hash new_code made
                (set_runtime (add_instance made gas_limit h.runtime) h)
        ]

    unfoldable pub start_wasmer_instance : Bytes → ℕ → Bool → Host → Option VmError × Host
    start_wasmer_instance contract gas_limit new_code h =
        let (warm, h1) = set_warm_instance_when_needed gas_limit h in
        let code_hash = get_code_hash out.hook h.runtime.sc_address in
        let (compiled, h2) = make_instance_from_compiled_code code_hash gas_limit new_code h1 in
        if leb h.runtime.max_wasmer_instances (running_instances_count h.runtime)
        then (
          some max_instances_reached,
          set_runtime (record (h.runtime) { instance_ref = none }) h,
        )
        else if warm
        then (none, h1)
        else if compiled
        then (none, h2)
        else make_instance_from_contract_byte_code contract code_hash gas_limit new_code h2

  unfoldable pub get_sc_code : Host → (Bytes × Option VmError) × Host
  get_sc_code h =
      let ((code, err), h1) = get_code out.hook h.runtime.sc_address h in
      elim err [
        | some e ↦ (([], some e), h1)
        | none ↦ (
          (code, none),
          set_runtime (record (h1.runtime) { code_size = length code % 2 ^ 64 }) h1,
        )
      ]

unfoldable pub reset_warm_instance : RuntimeContext → RuntimeContext
reset_warm_instance r = elim r.instance_ref [
  | none ↦ r
  | some i ↦ record r {
    cleaned = i ∷ r.cleaned;
    instance_ref = none;
    warm_instance_address = none;
    warm_instance = none;
  }
]
