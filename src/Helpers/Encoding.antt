-- ===== src/Helpers/Encoding.antt =====
-- The LEB128 encoding of vmhost/helpers.go against its decoding.
use drt_go_chain_vm_v.Common.{Bool-cases, arith, inl, inr, refl, ◌%◌, ◌==◌}
use drt_go_chain_vm_v.Common.{
  Option, [], if◌then◌else◌, length, ltb, some, suc, zero, ℕ, ◌*◌, ◌+◌, ◌-◌, ◌/◌, ◌<◌, ◌^◌, ◌∷◌,
  ◌≡◌, ◌≤◌,
}
use drt_go_chain_vm_v.Common.Bytes.{Bytes}
use drt_go_chain_vm_v.Helpers.{leb128_loop, u64_to_leb128}

-- The number that LEB128 bytes stand for.
unfoldable pub leb128_value : Bytes → ℕ
leb128_value [] = 0
leb128_value (b ∷ rest) = if ltb b 128 then b else b - 128 + 128 * leb128_value rest

-- 128 to the power of the fuel.
unfoldable pub groups_bound : ℕ → ℕ
groups_bound zero = 1
groups_bound (suc fuel) = 128 * groups_bound fuel

abbrev pub Decodes : ℕ → ℕ → Option Bytes → Type 0
Decodes n fuel o = (out : Bytes) × (o ≡ some out) × (leb128_value out ≡ n) × (length out ≤ fuel)

leb128_step :
    (fuel n : ℕ)
    → (0 < n / 128 → Decodes (n / 128) fuel (leb128_loop fuel (n / 128)))
    → Decodes n (suc fuel) (leb128_loop (suc fuel) n)
unfolding leb128_loop leb128_value
leb128_step fuel n ih = elim (Bool-cases (n / 128 == 0)) [
  | inl last ↦ (n % 128 ∷ [], rw last refl, ground arith, omega arith)
  | inr more ↦
      (let (rest, done, value, short) = ih (ground arith) in
        ((n % 128 + 128) ∷ rest, rw (more, done) refl, ground arith, omega arith))
]

leb128_loop-Decodes :
    (fuel n : ℕ) → n < groups_bound (suc fuel) → Decodes n (suc fuel) (leb128_loop (suc fuel) n)
unfolding groups_bound
leb128_loop-Decodes zero n h = leb128_step zero n (λ more. absurd (omega arith))
leb128_loop-Decodes (suc fuel) n h =
    leb128_step (suc fuel) n (λ _. leb128_loop-Decodes fuel (n / 128) (omega arith))

-- Every uint64 has an encoding, of at most ten bytes, and the encoding stands for the number.
pub u64_to_leb128-decodes :
    (n : ℕ)
    → n < 2 ^ 64
    → (out : Bytes) × (u64_to_leb128 n ≡ some out) × (leb128_value out ≡ n) × (length out ≤ 10)
unfolding u64_to_leb128 groups_bound
u64_to_leb128-decodes n h = leb128_loop-Decodes 9 n (omega arith)
