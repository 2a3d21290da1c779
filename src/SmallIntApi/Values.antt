-- ===== src/SmallIntApi/Values.antt =====
-- The stored and returned values of vmhost/vmhooks/smallIntOps.go.
use drt_go_chain_vm_v.Common.{◌%◌, ◌-◌, ◌/◌, ◌^◌, ◌∷◌}
use drt_go_chain_vm_v.Common.Int.{negsuc, pos}
use drt_go_chain_vm_v.Common.{[], ap, arith, foldl, some, suc, true, zero, ℕ, ◌*◌, ◌+◌, ◌≡◌, ◌≤◌}
use drt_go_chain_vm_v.Common.Bytes.{Bytes}
use drt_go_chain_vm_v.Common.Int.{leb_ℤ, ℤ}
use drt_go_chain_vm_v.Overflow.{max_int64, min_int64}
use drt_go_chain_vm_v.Execution.Input.{big_bytes, digits, set_bytes}
use drt_go_chain_vm_v.SmallIntApi.{of_unsigned, to_unsigned}

join : ℕ → ℕ → ℕ
join acc b = acc * 256 + b

-- The digits in front of others stand for the number.
foldl-digits :
    (fuel n : ℕ) (acc : Bytes) → n ≤ fuel → foldl join 0 (digits fuel n acc) ≡ foldl join n acc
unfolding digits join
foldl-digits zero n acc le = ap (λ m. foldl join m acc) (omega arith)
foldl-digits (suc fuel) n acc le = ground (arith, foldl-digits fuel (n / 256) (n % 256 ∷ acc))

set_bytes-big_bytes : (n : ℕ) → set_bytes (big_bytes n) ≡ n
unfolding set_bytes big_bytes join
set_bytes-big_bytes n = foldl-digits n n [] (omega arith)

pub of_unsigned-to_unsigned :
    (value : ℤ)
    → leb_ℤ min_int64 value ≡ true
    → leb_ℤ value max_int64 ≡ true
    → of_unsigned (to_unsigned value) ≡ some value
unfolding of_unsigned to_unsigned
of_unsigned-to_unsigned (pos n) low high = rw (set_bytes-big_bytes (n % 2 ^ 64)) (ground arith)
of_unsigned-to_unsigned (negsuc n) low high =
    rw (set_bytes-big_bytes (2 ^ 64 - 1 - n % 2 ^ 64)) (ground arith)
