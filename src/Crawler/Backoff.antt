-- ===== src/Crawler/Backoff.antt =====
-- internal/crawler/engine.go: `backoffDuration`. Durations are nanoseconds in an int64; none here is
-- negative, and the doubling wraps at 64 bits.
use native.Mathlib.Nat.{pow-suc}
use ardvark.Prelude.{
  ℕ, zero, suc, ◌*◌, ◌%◌, ◌^◌, ◌≡◌, inl, inr, ◌≤◌, ap, ◌∙◌, Bool-cases, arith, ltb, if◌then◌else◌,
}

abbrev pub cap_duration : ℕ
cap_duration = 30000000000

abbrev pub wrap : ℕ → ℕ
wrap n = n % 18446744073709551616

-- `for i := 1; i < attempt && d < capDuration; i++ { d *= 2 }`, with `attempt - i` rounds left.
unfoldable pub doubled : ℕ → ℕ → ℕ
doubled zero d = d
doubled (suc rounds) d = if ltb d cap_duration then doubled rounds (wrap (d * 2)) else d

unfoldable pub backoff_duration : ℕ → ℕ → ℕ
unfolding doubled
backoff_duration zero base = 0
backoff_duration (suc rounds) base =
    let d = doubled rounds base in if ltb cap_duration d then cap_duration else d

abbrev pub capped : ℕ → ℕ
capped d = if ltb cap_duration d then cap_duration else d

power_step : (rounds d : ℕ) → d * 2 ^ suc rounds ≡ (d * 2) * 2 ^ rounds
power_step rounds d = ap (λ p. d * p) (pow-suc 2 rounds) ∙ ring_step (2 ^ rounds) d
  where
    ring_step : (p d : ℕ) → d * (p * 2) ≡ (d * 2) * p
    ring_step p d = grind arith

power-ge : (rounds d : ℕ) → d ≤ d * 2 ^ rounds
power-ge zero d = omega arith
power-ge (suc rounds) d = omega (arith, power_step rounds d, power-ge rounds (d * 2))

doubled_lem : (rounds d : ℕ) → capped (doubled rounds d) ≡ capped (d * 2 ^ rounds)
unfolding doubled
doubled_lem zero d = let once : d ≡ d * 2 ^ 0 = omega arith in ap capped once
doubled_lem (suc rounds) d = elim (Bool-cases (ltb d cap_duration)) [
  | inl h ↦
      let same : wrap (d * 2) ≡ d * 2 = ground arith in
      rw (h, same, power_step rounds d) (doubled_lem rounds (d * 2))
  | inr h ↦ rw h (ground (arith, power-ge (suc rounds) d))
]

-- The delay before attempt `rounds + 1` (attempts are counted from 1) is the base doubled once for
-- each earlier attempt, or 30 seconds if that is less; no round of the loop overflows.
pub backoff_duration_lem :
    (rounds base : ℕ) → backoff_duration (suc rounds) base ≡ capped (base * 2 ^ rounds)
unfolding backoff_duration
backoff_duration_lem = doubled_lem
