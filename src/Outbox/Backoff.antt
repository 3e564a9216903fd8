-- ===== src/Outbox/Backoff.antt =====
-- The retry delays of the outbox.
use telegram_presence.Base.{ℕ, zero, suc, ◌-◌, ◌*◌, ◌^◌, ◌≤◌, ◌≡◌, arith, min}
use telegram_presence.Base.Result.{ok}
use telegram_presence.Base.Value.{Value}
use telegram_presence.Outbox.{Config, configure, positive_count, duration, retry_delay}
use native.Mathlib.Nat.{pow-suc}

pow_two_pos : (n : ℕ) → 1 ≤ 2 ^ n
pow_two_pos zero = omega arith
pow_two_pos (suc n) = omega (arith, pow-suc 2 n, pow_two_pos n)

pow_two_step : (n : ℕ) → 2 ^ suc n ≡ 2 * 2 ^ n
pow_two_step n = omega (arith, pow-suc 2 n)

-- What the constructor's checks leave of a configuration.
pub record IsConfigured (c : Config) : Type 0 where
  pub some_attempt : 1 ≤ c.max_attempts
  pub positive : 1 ≤ c.base_retry_seconds
  pub capped : c.base_retry_seconds ≤ c.max_retry_seconds

positive_count-le : (v : Value) (n : ℕ) → positive_count v ≡ ok n → 1 ≤ n
unfolding positive_count
positive_count-le v n h = ground arith

duration-le : (v : Value) (n : ℕ) → duration v ≡ ok n → 1 ≤ n
unfolding duration
duration-le v n h = ground arith

pub configure-IsConfigured :
    (attempts base cap timeout : Value) (c : Config)
    → configure attempts base cap timeout ≡ ok c
    → IsConfigured c
unfolding configure
configure-IsConfigured attempts base cap timeout c h = grind (arith, positive_count-le, duration-le)

scaled_ge : (b m n : ℕ) → b ≤ m → b ≤ min m (b * 2 ^ n)
scaled_ge b m n h = grind (arith, pow_two_pos n)

doubling : (b m n : ℕ) → min m (b * 2 ^ (suc (suc n) - 1)) ≡ min m (2 * min m (b * 2 ^ (suc n - 1)))
doubling b m n =
    let one : suc (suc n) - 1 ≡ suc n = omega arith in
    let two : suc n - 1 ≡ n = omega arith in rw (one, two, pow_two_step n) (omega arith)

-- Under a configuration that the constructor accepts, the delay after any number of attempts lies
-- between the base delay and the cap; after the first attempt it is the base delay; one more attempt
-- doubles it, up to the cap.
pub retry_delay_exact :
    (attempts base cap timeout : Value) (c : Config) (n : ℕ)
    → configure attempts base cap timeout ≡ ok c
    → (c.base_retry_seconds ≤ retry_delay c n)
      × (retry_delay c n ≤ c.max_retry_seconds)
      × (retry_delay c 1 ≡ c.base_retry_seconds)
      × (retry_delay c (suc (suc n)) ≡ min c.max_retry_seconds (2 * retry_delay c (suc n)))
unfolding retry_delay
retry_delay_exact attempts base cap timeout c n made =
    let k = configure-IsConfigured attempts base cap timeout c made in
    (
      scaled_ge c.base_retry_seconds c.max_retry_seconds (n - 1) k.capped,
      omega arith,
      omega (arith, k.capped),
      doubling c.base_retry_seconds c.max_retry_seconds n,
    )
