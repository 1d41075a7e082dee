-- ===== src/Scheduler/Backoff.antt =====
-- `backoffDelay` and `floorDelay` of backend/internal/scheduler/scheduler.go. A `time.Duration` is
-- an int64 of nanoseconds. What `isTransientError` says of the cause is an argument.
use marauder.Prelude.{
  ℕ, zero, suc, ◌+◌, ◌*◌, ◌/◌, ◌^◌, ◌≤◌, ◌<◌, min, ◌≡◌, refl, ap, ◌∙◌, ◌⊎◌, inl, inr, Bool, true,
  false, not, ◌&&◌, arith, ltb, leb, if◌then◌else◌, leb→le, Bool-cases,
}
use marauder.Prelude.Int.{
  ℤ, pos, negsuc, pos_part, ◌+ℤ◌, ◌*ℤ◌, ◌≤ℤ◌, ltb_ℤ, leb_ℤ, max_int, wrap64, wrap64_pos,
}
use native.Mathlib.Nat.{pow-suc, pow-le-pow_right, le-div_iff_mul-le, div-lt_iff_lt-mul}

-- time.Second
abbrev pub second : ℕ
second = 1000000000

abbrev pub transient_retry_delay : ℤ
transient_retry_delay = pos (60 * second)

abbrev pub transient_retry_max : ℤ
transient_retry_max = pos 5

abbrev pub default_max_backoff : ℤ
default_max_backoff = pos (6 * 3600 * second)

-- `floorDelay(d)`.
unfoldable pub floor_delay : ℤ → ℤ
floor_delay d = if leb_ℤ d (pos 0) then transient_retry_delay else d

-- The configured ceiling, or the default where it is missing or not positive.
unfoldable pub ceiling : ℤ → ℤ
ceiling max_backoff = if leb_ℤ max_backoff (pos 0) then default_max_backoff else max_backoff

-- The delay of a durable failure before `floorDelay`: `base` doubled `attempt` times, while that
-- stays below the ceiling. The ceiling is positive, so Go's division is that of the numbers.
unfoldable pub grown_delay : ℤ → ℤ → ℤ → ℤ
grown_delay base limit attempt =
    let mult = 2 ^ pos_part attempt in
    if leb_ℤ (pos 1) attempt && ltb_ℤ attempt (pos 63)
    then (if leb_ℤ base (pos (pos_part limit / mult)) then wrap64 (base *ℤ pos mult) else limit)
    else limit

-- `backoffDelay`: the check interval in seconds, the consecutive errors, `config.CheckMaxBackoff`,
-- whether the check failed, and whether the cause is transient.
unfoldable pub backoff_delay : ℤ → ℤ → ℤ → Bool → Bool → ℤ
backoff_delay interval errors max_backoff failure transient =
    let base = wrap64 (interval *ℤ pos second) in
    if not failure
    then floor_delay base
    else if transient && ltb_ℤ errors transient_retry_max
    then transient_retry_delay
    else floor_delay (grown_delay base (ceiling max_backoff) (wrap64 (errors +ℤ pos 1)))

floor_positive : (d : ℤ) → pos 1 ≤ℤ floor_delay d
unfolding floor_delay
floor_positive (pos n) = ground arith
floor_positive (negsuc n) = ground arith

-- Whatever the check interval, the count of failures, the ceiling and the cause are, the delay
-- to the next check is positive.
pub backoff_positive :
    (interval errors max_backoff : ℤ) (failure transient : Bool)
    → pos 1 ≤ℤ backoff_delay interval errors max_backoff failure transient
unfolding backoff_delay
backoff_positive interval errors max_backoff failure transient = ground (
  arith,
  floor_positive (wrap64 (interval *ℤ pos second)),
  floor_positive (
      grown_delay (wrap64 (interval *ℤ pos second)) (ceiling max_backoff)
        (wrap64 (errors +ℤ pos 1))),
)

mul_pos : (a b : ℕ) → pos a *ℤ pos b ≡ pos (a * b)
unfolding ◌*ℤ◌
mul_pos a b = ground arith

add_pos : (a b : ℕ) → pos a +ℤ pos b ≡ pos (a + b)
unfolding ◌+ℤ◌
add_pos a b = ground arith

pow_pos : (k : ℕ) → 0 < 2 ^ k
pow_pos zero = omega arith
pow_pos (suc k) = simp pow-suc (omega (arith, pow_pos k))

pow_large : (a : ℕ) → 63 ≤ a → 2 ^ 63 ≤ 2 ^ a
pow_large a h = pow-le-pow_right (let e : 0 < 2 = omega arith in e) {i = 63} h

le_mul : (b c : ℕ) → 0 < b → c ≤ b * c
le_mul zero c h = elim h [ ]
le_mul (suc b) c h = grind arith

positive_product : (a b : ℕ) → 0 < a → 0 < b → 0 < a * b
positive_product zero b h k = elim h [ ]
positive_product (suc a) zero h k = elim k [ ]
positive_product (suc a) (suc b) h k = grind arith

-- The growth loop-free: doubling `attempt` times, capped.
grown_exact :
    (b m a : ℕ)
    → 0 < b
    → m ≤ max_int
    → 1 ≤ a
    → grown_delay (pos b) (pos m) (pos a) ≡ pos (min (b * 2 ^ a) m)
unfolding grown_delay
grown_exact b m a hb hm ha = elim (Bool-cases (ltb a 63)) [
  | inl small ↦ elim (Bool-cases (leb b (m / 2 ^ a))) [
    | inl fits ↦
        let le : b * 2 ^ a ≤ m = (le-div_iff_mul-le (pow_pos a)).0 (leb→le b (m / 2 ^ a) fits) in
        let product : wrap64 (pos b *ℤ pos (2 ^ a)) ≡ pos (b * 2 ^ a) =
          ap wrap64 (mul_pos b (2 ^ a)) ∙ wrap64_pos (b * 2 ^ a) (omega arith) in
        ground (arith, product, le, fits)
    | inr over ↦
        let lt : m < b * 2 ^ a =
          (div-lt_iff_lt-mul (pow_pos a)).0 (let h : m / 2 ^ a < b = ground arith in h) in
        ground (arith, lt, over)
  ]
  | inr large ↦ ground (arith, large, pow_large a (ground arith), le_mul b (2 ^ a) hb)
]

-- The delay of a failure after `n` earlier ones is the interval doubled `n + 1` times, or the
-- ceiling where that is less: the doubling saturates and never wraps. The interval is at least a
-- second and fits a `time.Duration`, the ceiling is positive, the numbers are in the range of 64
-- bits, and the cause is not transient or the fast retries are used up.
pub backoff_durable :
    (interval n ceil : ℕ) (transient : Bool)
    → 0 < interval
    → interval * second ≤ max_int
    → 0 < ceil
    → ceil ≤ max_int
    → n < max_int
    → ((transient ≡ false) ⊎ (5 ≤ n))
    → backoff_delay (pos interval) (pos n) (pos ceil) true transient
      ≡ pos (min (interval * second * 2 ^ (n + 1)) ceil)
unfolding backoff_delay floor_delay ceiling
backoff_durable interval n ceil transient hi hb hc hm hn slow =
    let b = interval * second in
    let base : wrap64 (pos interval *ℤ pos second) ≡ pos b =
      ap wrap64 (mul_pos interval second) ∙ wrap64_pos b hb in
    let attempt : wrap64 (pos n +ℤ pos 1) ≡ pos (n + 1) =
      ap wrap64 (add_pos n 1) ∙ wrap64_pos (n + 1) (omega arith) in
    ground (
      arith,
      base,
      attempt,
      grown_exact b ceil (n + 1) (omega arith) hm (omega arith),
      le_mul b (2 ^ (n + 1)) (omega arith),
      pow_pos (n + 1),
      positive_product b (2 ^ (n + 1)) (omega arith) (pow_pos (n + 1)),
    )

-- Of two counts of durable failures, the greater never has the shorter delay. The interval is at
-- least a second and fits a `time.Duration`, the ceiling is positive, and both numbers and the
-- counts are in the range of 64 bits.
pub backoff_monotone :
    (interval n k ceil : ℕ)
    → 0 < interval
    → interval * second ≤ max_int
    → 0 < ceil
    → ceil ≤ max_int
    → n ≤ k
    → k < max_int
    → backoff_delay (pos interval) (pos n) (pos ceil) true false
      ≤ℤ backoff_delay (pos interval) (pos k) (pos ceil) true false
backoff_monotone interval n k ceil hi hb hc hm le hk =
    rw
      (
        backoff_durable interval n ceil false hi hb hc hm (omega arith) (inl refl),
        backoff_durable interval k ceil false hi hb hc hm hk (inl refl),
      )
      (let p : 2 ^ (n + 1) ≤ 2 ^ (k + 1) =
          pow-le-pow_right (let e : 0 < 2 = omega arith in e) {i = n + 1} (omega arith) in
        let q : interval * second * 2 ^ (n + 1) ≤ interval * second * 2 ^ (k + 1) =
          grind (arith, p) in
        omega arith)
