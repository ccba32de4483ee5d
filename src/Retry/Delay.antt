-- ===== src/Retry/Delay.antt =====
-- The delays of backoffFor (common/retry.go).
use native.Mathlib.Nat.{pow-suc}
use nitejaguar.Base.{
  ℕ, zero, suc, ◌+◌, ◌-◌, ◌*◌, ◌^◌, ◌≤◌, ◌<◌, min, ℤ, pos, double64, ltb_int, ◌≡◌, ap, arith,
  nat_of, if◌then◌else◌, Bool-cases, inl, inr, leb, true,
}
use nitejaguar.Retry.{RetryPolicy, base_of, cap_of, backoff_rounds, backoff_for}

double64-pos : (n : ℕ) → n < 2 ^ 62 → double64 (pos n) ≡ pos (2 * n)
double64-pos n h = ground arith

pub one-le-pow : (n : ℕ) → 1 ≤ 2 ^ n
one-le-pow zero = omega arith
one-le-pow (suc n) = rw pow-suc (omega (arith, one-le-pow n))

-- d ≤ d * 2 ^ n
le-mul-pow : (d n : ℕ) → d ≤ d * 2 ^ n
le-mul-pow d n = let h = one-le-pow n in grind arith

-- the last test of backoffFor
abbrev capped : ℤ → ℤ → ℤ
capped max d = if ltb_int max d then max else d

rounds-min :
    (n d max : ℕ)
    → max ≤ 2 ^ 62
    → capped (pos max) (backoff_rounds n (pos max) (pos d)) ≡ pos (min (d * 2 ^ n) max)
unfolding backoff_rounds
rounds-min zero d max h = ground arith
rounds-min (suc n) d max h = elim (Bool-cases (leb max d)) [
  | inl reached ↦ ground (arith, le-mul-pow d (suc n))
  | inr below ↦
      rw (below, double64-pos d (ground arith))
        (rw (rounds-min n (2 * d) max h) (rw pow-suc (ap (λ t. pos (min t max)) (omega arith))))
]

base_of-pos : (p : RetryPolicy) → base_of p ≡ pos (nat_of (base_of p))
base_of-pos p = ground arith

cap_of-pos : (p : RetryPolicy) → cap_of p ≡ pos (nat_of (cap_of p))
cap_of-pos p = ground arith

-- Where the cap is at most 2^62 nanoseconds, the delay after an attempt is the base delay doubled
-- once for each earlier attempt, cut off at the cap; defaults stand for unset durations.
pub backoff_for-min :
    (p : RetryPolicy) (attempt : ℕ)
    → nat_of (cap_of p) ≤ 2 ^ 62
    → backoff_for p attempt ≡ pos (min (nat_of (base_of p) * 2 ^ (attempt - 1)) (nat_of (cap_of p)))
unfolding backoff_for
backoff_for-min p attempt h =
    rw (cap_of-pos p, base_of-pos p)
      (rounds-min (attempt - 1) (nat_of (base_of p)) (nat_of (cap_of p)) h)

base_of_positive : (p : RetryPolicy) → 1 ≤ nat_of (base_of p)
base_of_positive p = ground arith

cap_of_positive : (p : RetryPolicy) → 1 ≤ nat_of (cap_of p)
cap_of_positive p = ground arith

-- 2 ^ (attempt - 1) grows with the attempt
pow_pred-le : (attempt : ℕ) → 1 ≤ attempt → 2 ^ (attempt - 1) ≤ 2 ^ (attempt + 1 - 1)
pow_pred-le attempt h =
    let e : attempt + 1 - 1 ≡ suc (attempt - 1) = omega arith in rw e (rw pow-suc (omega arith))

min_bounds :
    (b c x y : ℕ)
    → 1 ≤ b
    → 1 ≤ c
    → 1 ≤ x
    → x ≤ y
    → (1 ≤ min (b * x) c) × (min (b * x) c ≤ c) × (min (b * x) c ≤ min (b * y) c)
min_bounds b c x y hb hc hx hy =
    let p : 1 ≤ b * x = grind arith in let q : b * x ≤ b * y = grind arith in omega arith

-- Where the cap is at most 2^62 nanoseconds, every delay is positive and at most the cap, and no
-- delay is longer than the next one.
pub backoff_for_bounds :
    (p : RetryPolicy) (attempt : ℕ)
    → nat_of (cap_of p) ≤ 2 ^ 62
    → 1 ≤ attempt
    → (1 ≤ nat_of (backoff_for p attempt))
      × (nat_of (backoff_for p attempt) ≤ nat_of (cap_of p))
      × (nat_of (backoff_for p attempt) ≤ nat_of (backoff_for p (attempt + 1)))
backoff_for_bounds p attempt h k =
    rw (backoff_for-min p attempt h, backoff_for-min p (attempt + 1) h)
      (min_bounds (nat_of (base_of p)) (nat_of (cap_of p)) _ _ (base_of_positive p)
        (cap_of_positive p) (one-le-pow (attempt - 1)) (pow_pred-le attempt k))

-- A base from 2^62 nanoseconds on, with a larger cap that still fits an int64, makes the doubling
-- wrap: the delay after the second attempt is negative.
pub backoff_for_overflow :
    (p : RetryPolicy)
    → 2 ^ 62 ≤ nat_of p.backoff
    → nat_of p.backoff < nat_of p.backoff_max
    → nat_of p.backoff_max < 2 ^ 63
    → ltb_int (backoff_for p 2) (pos 0) ≡ true
unfolding backoff_for backoff_rounds
backoff_for_overflow p h k l = ground arith
