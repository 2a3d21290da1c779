-- ===== src/BigIntApi/Tests.antt =====
-- Tests of the imports of vmhost/vmhooks/bigIntOps.go.
use drt_go_chain_vm_v.BigIntApi.Arith.{bit_len}
use drt_go_chain_vm_v.Common.Dict.{Dict, bytes_Eq, insert, int_Eq, lookup}
use drt_go_chain_vm_v.Common.Int.{◌-ℤ◌}
use drt_go_chain_vm_v.Host.Runtime.{set_points_used}
use drt_go_chain_vm_v.Metering.{use_gas}
use drt_go_chain_vm_v.BigInt.{get_one, get_three}
use drt_go_chain_vm_v.BigIntApi.Arith.{div_e, is_negative, magnitude, mod_e, quo, rem, signed, ◌*ℤ◌}
use drt_go_chain_vm_v.Common.{arith, false, ◌<◌, ◌≡◌}
use drt_go_chain_vm_v.Common.Int.{◌+ℤ◌}
use Prim.Native.String.{String}
use drt_go_chain_vm_v.Common.{[], ◌∷◌}
use drt_go_chain_vm_v.Common.Int.{negsuc, pos}
use drt_go_chain_vm_v.Host.{Host}
use drt_go_chain_vm_v.Host.Error.{VmError}
use drt_go_chain_vm_v.BigIntApi.{
  big_int_e_div, big_int_e_mod, division, charged_three, use_extra_gas_for_operations, set_value,
}
use drt_go_chain_vm_v.BigIntApi.Effects.{big_int_e_div-big_int_e_mod}
use drt_go_chain_vm_v.Example.{host}

-- The values -7 and 2 under the handles 0 and 1.
abbrev operands : Host
operands = record host {
  big_int = record { values = (pos 0, negsuc 6) ∷ (pos 1, pos 2) ∷ []; state_stack = [] };
}

abbrev shown : VmError → String
shown e = "error"

big_int_e_div-big_int_e_mod_example :
    (negsuc 6 ≡ negsuc 3 *ℤ pos 2 +ℤ pos 1)
    × (false ≡ false)
    × (1 < 2)
    × (pos 2 ≡ pos 2)
    × (pos 2 ≡ pos 2)
unfolding big_int_e_div big_int_e_mod division charged_three use_extra_gas_for_operations set_value
    get_three get_one magnitude is_negative div_e mod_e quo rem signed
    drt_go_chain_vm_v.Common.Dict.lookup ◌*ℤ◌ ◌+ℤ◌ drt_go_chain_vm_v.Metering.use_gas
    drt_go_chain_vm_v.Host.Runtime.set_points_used drt_go_chain_vm_v.Common.Dict.insert
    drt_go_chain_vm_v.BigIntApi.Arith.bit_len drt_go_chain_vm_v.Common.Int.◌-ℤ◌
big_int_e_div-big_int_e_mod_example =
    big_int_e_div-big_int_e_mod shown (pos 0) (pos 0) (pos 1) (pos 1) operands (omega arith)
