-- ===== src/Output/Total.antt =====
-- The gas total of vmhost/contexts/output.go against an exact sum, and the check that rests on it.
use drt_go_chain_vm_v.Common.{length, ◌&&◌}
use drt_go_chain_vm_v.Output.Finish.{is_built_in_execution}
use drt_go_chain_vm_v.Overflow.{sub_uint64}
use drt_go_chain_vm_v.Common.{ap, none, refl, true, ◌∙◌, ◌≤◌}
use drt_go_chain_vm_v.Host.{Host, OutputContext, is_vm_v2_enabled}
use drt_go_chain_vm_v.Output.{clear_gas, reset_gas}
use drt_go_chain_vm_v.Output.Finish.{check_gas}
use drt_go_chain_vm_v.Common.{
  Bool, List, [], arith, false, if◌then◌else◌, ltb, ℕ, ◌+◌, ◌-◌, ◌<◌, ◌^◌, ◌||◌, ◌∷◌, ◌≡◌,
}
use drt_go_chain_vm_v.Common.Bytes.{Bytes}
use drt_go_chain_vm_v.Common.Dict.{Dict}
use drt_go_chain_vm_v.Host.{OutputAccount, OutputTransfer}
use drt_go_chain_vm_v.Overflow.{add_uint64}
use drt_go_chain_vm_v.Overflow.Unsigned.{add_uint64-saturates}
use drt_go_chain_vm_v.Output.Finish.{add_transfers, add_accounts, get_current_total_used_gas}

abbrev pub saturated : ℕ → ℕ
saturated x = if ltb x (2 ^ 64) then x else 2 ^ 64 - 1

-- The exact gas of the transfers of an account, and of all accounts.
unfoldable pub sum_transfers : List OutputTransfer → ℕ
sum_transfers [] = 0
sum_transfers (t ∷ ts) = t.gas_limit + t.gas_locked + sum_transfers ts

unfoldable pub sum_accounts : Dict Bytes OutputAccount → ℕ
unfolding sum_transfers
sum_accounts [] = 0
sum_accounts ((_, a) ∷ m) = a.gas_used + sum_transfers a.output_transfers + sum_accounts m

-- Some transfer has locked gas.
unfoldable pub any_locked : List OutputTransfer → Bool
any_locked [] = false
any_locked (t ∷ ts) = ltb 0 t.gas_locked || any_locked ts

unfoldable pub any_account_locked : Dict Bytes OutputAccount → Bool
unfolding any_locked
any_account_locked [] = false
any_account_locked ((_, a) ∷ m) = any_locked a.output_transfers || any_account_locked m

-- Every gas field is a uint64.
abbrev pub TransfersFit : List OutputTransfer → Type 0
TransfersFit [] = Unit
TransfersFit (t ∷ ts) = (t.gas_limit < 2 ^ 64) × (t.gas_locked < 2 ^ 64) × TransfersFit ts

abbrev pub AccountsFit : Dict Bytes OutputAccount → Type 0
AccountsFit [] = Unit
AccountsFit ((_, a) ∷ m) = (a.gas_used < 2 ^ 64) × TransfersFit a.output_transfers × AccountsFit m

add_uint64-saturated : (a b : ℕ) → b < 2 ^ 64 → add_uint64 (saturated a) b ≡ saturated (a + b)
add_uint64-saturated a b h = ground (arith, add_uint64-saturates (saturated a) b)

or_assoc : (a b c : Bool) → ((a || b) || c) ≡ (a || (b || c))
or_assoc a b c = ground arith

add_transfers-eq-sum :
    (ts : List OutputTransfer) (g : ℕ) (l : Bool)
    → TransfersFit ts
    → add_transfers ts (saturated g, l) ≡ (saturated (g + sum_transfers ts), l || any_locked ts)
unfolding add_transfers sum_transfers any_locked
add_transfers-eq-sum [] g l f = ground arith
add_transfers-eq-sum (t ∷ ts) g l (fl, fk, fs) =
    let steps : add_uint64 (add_uint64 (saturated g) t.gas_limit) t.gas_locked
        ≡ saturated (g + t.gas_limit + t.gas_locked) =
      cc (
        add_uint64-saturated g t.gas_limit fl,
        add_uint64-saturated (g + t.gas_limit) t.gas_locked fk,
      ) in
    let regroup : g + (t.gas_limit + t.gas_locked + sum_transfers ts)
        ≡ g + t.gas_limit + t.gas_locked + sum_transfers ts =
      omega arith in
    rw (steps, regroup, ← or_assoc l (ltb 0 t.gas_locked) (any_locked ts))
      (add_transfers-eq-sum ts (g + t.gas_limit + t.gas_locked) (l || ltb 0 t.gas_locked) fs)

add_accounts-eq-sum :
    (m : Dict Bytes OutputAccount) (g : ℕ) (l : Bool)
    → AccountsFit m
    → add_accounts m (saturated g, l) ≡ (saturated (g + sum_accounts m), l || any_account_locked m)
unfolding add_accounts sum_accounts any_account_locked
add_accounts-eq-sum [] g l f = ground arith
add_accounts-eq-sum ((k, a) ∷ m) g l (fg, ft, fm) =
    let regroup : g + (a.gas_used + sum_transfers a.output_transfers + sum_accounts m)
        ≡ g + a.gas_used + sum_transfers a.output_transfers + sum_accounts m =
      omega arith in
    rw
      (
        add_uint64-saturated g a.gas_used fg,
        add_transfers-eq-sum a.output_transfers (g + a.gas_used) l ft,
        regroup,
        ← or_assoc l (any_locked a.output_transfers) (any_account_locked m),
      )
      (add_accounts-eq-sum m (g + a.gas_used + sum_transfers a.output_transfers)
        (l || any_locked a.output_transfers) fm)

-- Where every gas field is a uint64, the current total is the exact sum of the gas used by all
-- accounts and of the gas and the locked gas of all their transfers, or the largest uint64 where the
-- sum is past 64 bits, and the flag says whether some transfer has locked gas. So neither depends on
-- the order in which the map is visited.
pub get_current_total_used_gas-exact :
    (c : OutputContext)
    → AccountsFit c.output_state.output_accounts
    → get_current_total_used_gas c ≡ (
      saturated (sum_accounts c.output_state.output_accounts),
      any_account_locked c.output_state.output_accounts,
    )
unfolding get_current_total_used_gas
get_current_total_used_gas-exact c f =
    let m = c.output_state.output_accounts in
    let zero : 0 + sum_accounts m ≡ sum_accounts m = omega arith in
    add_accounts-eq-sum m 0 false f ∙ ap (λ (n : ℕ). (saturated n, any_account_locked m)) zero

-- The gas of the transfers alone.
unfoldable pub sum_transfers_of : Dict Bytes OutputAccount → ℕ
unfolding sum_transfers
sum_transfers_of [] = 0
sum_transfers_of ((_, a) ∷ m) = sum_transfers a.output_transfers + sum_transfers_of m

sum_accounts-clear_gas :
    (m : Dict Bytes OutputAccount) → sum_accounts (clear_gas m) ≡ sum_transfers_of m
unfolding sum_accounts clear_gas sum_transfers_of
sum_accounts-clear_gas [] = refl
sum_accounts-clear_gas ((k, a) ∷ m) = omega (arith, sum_accounts-clear_gas m)

AccountsFit-clear_gas : (m : Dict Bytes OutputAccount) → AccountsFit m → AccountsFit (clear_gas m)
unfolding clear_gas
AccountsFit-clear_gas [] f = tt
AccountsFit-clear_gas ((k, a) ∷ m) (fg, ft, fm) = (omega arith, ft, AccountsFit-clear_gas m fm)

-- After ResetGas, where every gas field is a uint64, the current total is not zero but the exact sum
-- of the gas and the locked gas of all transfers, or the largest uint64 where it is past 64 bits.
pub get_current_total_used_gas-reset_gas :
    (c : OutputContext)
    → AccountsFit c.output_state.output_accounts
    → (get_current_total_used_gas (reset_gas c)).0
      ≡ saturated (sum_transfers_of c.output_state.output_accounts)
unfolding reset_gas
get_current_total_used_gas-reset_gas c f =
    let m = c.output_state.output_accounts in
    ap (λ (r : ℕ × Bool). r.0)
      (get_current_total_used_gas-exact (reset_gas c) (AccountsFit-clear_gas m f))
    ∙ ap saturated (sum_accounts-clear_gas m)

-- The arithmetic of the check, with the provided gas.
budget :
    (used remaining remained total_used provided : ℕ)
    → used + remaining < 2 ^ 64
    → let (left, over) = sub_uint64 remaining remained in
      ltb provided (sub_uint64 (sub_uint64 (add_uint64 used left) over).0 total_used).0 ≡ false
      → used + left ≤ provided + total_used + remained
unfolding sub_uint64
budget used remaining remained total_used provided small =
    ground (arith, add_uint64-saturates used (remaining - remained), add_uint64-saturates used 0)

-- With the second version enabled, every gas field a uint64 and the sums within 64 bits, an execution
-- that checkGas accepts has used no more gas than it was given: what all accounts used and sent,
-- with the gas that remains, is at most the provided gas, the gas used before and what remained from
-- forwarded gas. The locked gas of the input counts as provided only where some transfer has locked
-- gas and the execution is that of a built-in function or of a transfer of tokens.
pub check_gas_bounds :
    (is_builtin : Bytes → Bool) (remained : ℕ) (h : Host)
    → is_vm_v2_enabled h ≡ true
    → AccountsFit h.output.output_state.output_accounts
    → sum_accounts h.output.output_state.output_accounts + h.output.output_state.gas_remaining
      < 2 ^ 64
    → h.metering.initial_gas_provided + h.runtime.vm_input.gas_locked < 2 ^ 64
    → (check_gas is_builtin remained h).0 ≡ none
    → sum_accounts h.output.output_state.output_accounts
        + (check_gas is_builtin remained h).1.output.output_state.gas_remaining
      ≤ h.metering.initial_gas_provided
        + (if any_account_locked h.output.output_state.output_accounts
              && (is_builtin h.runtime.call_function
                  || ltb 0 (length h.runtime.vm_input.dcdt_transfers))
            then h.runtime.vm_input.gas_locked
            else 0)
        + h.metering.total_used_gas
        + remained
unfolding check_gas sub_uint64 is_built_in_execution
check_gas_bounds is_builtin remained h v2 fit small small_lock e =
    let accounts = h.output.output_state.output_accounts in
    let used = sum_accounts accounts in
    let forwards =
      any_account_locked accounts
      && (is_builtin h.runtime.call_function || ltb 0 (length h.runtime.vm_input.dcdt_transfers)) in
    let exact = get_current_total_used_gas-exact h.output fit in
    let lock = add_uint64-saturates h.metering.initial_gas_provided h.runtime.vm_input.gas_locked in
    let within =
      budget used h.output.output_state.gas_remaining remained h.metering.total_used_gas in
    ground (
      arith,
      exact,
      lock,
      within h.metering.initial_gas_provided,
      within (h.metering.initial_gas_provided + h.runtime.vm_input.gas_locked),
    )
