-- ===== src/Queue/Backoff.antt =====
-- pkg/queue/queue.go: the delay before a retry, 2^attempts seconds as a 64-bit number of nanoseconds.
use native.Mathlib.Nat.{pow-suc, pow-le-pow_right, mul-mod_left, suc-add}
use vikram.Base.{ℕ, zero, suc, ◌+◌, ◌-◌, ◌*◌, ◌^◌, ◌≤◌, ◌<◌, ◌≡◌, refl, arith, ◌∙◌, ap}
use vikram.Base.Int.{pos, negsuc, int64}
use vikram.Base.Time.{second}
use vikram.Queue.{backoff}

int64_small : (n : ℕ) → n < 2 ^ 63 → int64 n ≡ pos n
int64_small n h = ground arith

pow_high : (k : ℕ) → 2 ^ (k + 55) * second ≡ 2 ^ k * 1_953_125 * 2 ^ 64
pow_high zero = refl
pow_high (suc k) = rw (suc-add k 55, pow-suc 2 (k + 55), pow-suc 2 k) (omega (arith, pow_high k))

-- Up to the 33rd attempt the delay is exactly 2^attempts seconds.
pub backoff_exact : (attempts : ℕ) → attempts ≤ 33 → backoff attempts ≡ pos (2 ^ attempts * second)
unfolding backoff
backoff_exact a h =
    int64_small (2 ^ a * second) (omega (arith, pow-le-pow_right {n = 2} (omega arith) h))

-- From the 55th attempt on every delay is 0, because the product is a multiple of 2^64.
pub backoff_zero : (attempts : ℕ) → 55 ≤ attempts → backoff attempts ≡ pos 0
unfolding backoff
backoff_zero a h =
    let e : a ≡ (a - 55) + 55 = omega arith in
    ap (λ k. int64 (2 ^ k * second)) e
    ∙ ap int64 (pow_high (a - 55))
    ∙ wrapped (2 ^ (a - 55) * 1_953_125)
  where
    wrapped : (n : ℕ) → int64 (n * 2 ^ 64) ≡ pos 0
    wrapped n = ground (arith, mul-mod_left n (2 ^ 64))

-- At the 34th attempt the delay is negative: the job is scheduled in the past.
backoff_34 : backoff 34 ≡ negsuc (2 ^ 64 - 2 ^ 34 * second - 1)
unfolding backoff
backoff_34 = refl
