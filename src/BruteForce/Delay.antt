-- ===== src/BruteForce/Delay.antt =====
-- internal/bruteforce/protector.go: the progressive delay, and what it hides.
use deploypilot.Base.{
  ℕ, zero, suc, ◌*◌, ◌^◌, ◌≤◌, ◌<◌, ◌≡◌, refl, true, false, some, String, lookup, arith,
}
use native.Mathlib.Nat.{mod-eq_of_lt, pow-suc, pow-le-pow_right}
use native.Mathlib.Decide.{dec_lt}
use Prim.Native.Nat.{min}
use deploypilot.BruteForce.{
  Config, AccountState, Protector, check, check_account, check_delay, calculate_delay, is_locked,
  count_recent, delayed_result, int64,
}

wrap_fits : (b x : ℕ) → x < 2 ^ 64 → b * x < 2 ^ 63 → int64 (b * int64 x) ≡ b * x
wrap_fits b x l h = rw (mod-eq_of_lt l) (mod-eq_of_lt (omega arith))

pow_below : (n : ℕ) → n < 64 → 2 ^ n < 2 ^ 64
pow_below n l = omega (arith, pow-le-pow_right {n = 2} (omega arith) {i = n} {j = 63} (omega arith))

-- While the product fits an int64, the delay doubles with each failure up to the maximum.
pub calculate_delay_doubles :
    (c : Config) (n : ℕ)
    → c.progressive_delay ≡ true
    → n < 64
    → c.base_delay * 2 ^ n < 2 ^ 63
    → calculate_delay c (suc n) ≡ min (c.base_delay * 2 ^ n) c.max_delay
unfolding calculate_delay
calculate_delay_doubles c n p l h =
    rw (p, wrap_fits c.base_delay (2 ^ n) (pow_below n l) h) (ground arith)

shifted_out : (n : ℕ) → 64 ≤ n → int64 (2 ^ n) ≡ 0
shifted_out zero l = absurd (omega arith)
shifted_out (suc n) l = elim (dec_lt n 64) [
  | yes h ↦ let e : suc n ≡ 64 = omega arith in rw e
  | no h ↦ omega (arith, shifted_out n (omega arith), pow-suc 2 n)
]

-- From 65 failures on the shift yields 0, so that there is no delay at all.
pub calculate_delay_overflows : (c : Config) (n : ℕ) → 65 ≤ n → calculate_delay c n ≡ 0
unfolding calculate_delay
calculate_delay_overflows c zero l = refl
calculate_delay_overflows c (suc n) l = rw (shifted_out n (omega arith)) (ground arith)

-- An account with failures in the window whose delay is positive is let in with that delay even where
-- the address is blocked.
pub delay_hides_ip_block :
    (p : Protector) (username ip : String) (now : ℕ) (s t : AccountState)
    → lookup username p.accounts ≡ some s
    → lookup ip p.ips ≡ some t
    → is_locked t now ≡ true
    → is_locked s now ≡ false
    → p.config.progressive_delay ≡ true
    → let n = count_recent p.config s.attempts now in
      let delay = calculate_delay p.config n in
      0 < n → 0 < delay → delay < 2 ^ 63 → (check p username ip now).allowed ≡ true
unfolding check check_account check_delay delayed_result
delay_hides_ip_block p username ip now s t f g b l d n v w = ground arith
