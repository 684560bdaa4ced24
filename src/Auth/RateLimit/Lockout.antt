-- ===== src/Auth/RateLimit/Lockout.antt =====
-- When a name is locked out, and when it is not.
use t.Prelude.{
  ℕ, ◌+◌, ◌-◌, ◌≤◌, ◌≡◌, true, false, none, some, List, [], ◌∷◌, Bytes, ltb, bytes_eq,
  bytes_eq_refl, if◌then◌else◌, arith, le→ltb_false,
}
use t.Prelude.Dict.{lookup, remove, lookup-insert}
use t.Auth.RateLimit.{
  RateLimiter, is_locked, record_failure, after_failure, failure_window, lockout_duration,
}

-- Failures at these times, the earliest first.
unfoldable pub record_failures : RateLimiter → List ℕ → Bytes → RateLimiter
record_failures rl [] username = rl
record_failures rl (t ∷ ts) username = record_failures (record_failure rl t username) ts username

lookup-record_failure :
    (rl : RateLimiter) (now : ℕ) (name j : Bytes)
    → lookup j (record_failure rl now name)
      ≡ (if bytes_eq name j then some (after_failure now (lookup name rl)) else lookup j rl)
unfolding record_failure
lookup-record_failure rl now name j = lookup-insert name j (after_failure now (lookup name rl)) rl

module _ (rl : RateLimiter) (name : Bytes) (t1 t2 t3 t4 t5 : ℕ) where
  abbrev five : RateLimiter
  five = record_failures rl (t1 ∷ t2 ∷ t3 ∷ t4 ∷ t5 ∷ []) name

  lookup-five :
      lookup name rl ≡ none
      → t2 - t1 ≤ failure_window
      → t3 - t1 ≤ failure_window
      → t4 - t1 ≤ failure_window
      → t5 - t1 ≤ failure_window
      → lookup name five
        ≡ some
            (record { failures = 5; first_fail = t1; locked_until = some (t5 + lockout_duration) })
  unfolding record_failures after_failure
  lookup-five fresh h2 h3 h4 h5 =
      simp (lookup-record_failure, bytes_eq_refl, fresh)
        (rw (
          le→ltb_false failure_window (t2 - t1) h2,
          le→ltb_false failure_window (t3 - t1) h3,
          le→ltb_false failure_window (t4 - t1) h4,
          le→ltb_false failure_window (t5 - t1) h5,
        ))

  -- Five failures of a name without a record, none later than the window after the first, lock
  -- it from then until the lockout has passed; the check at that time clears the record. What is
  -- known of the other names stays.
  pub five_failures_lock :
      lookup name rl ≡ none
      → t2 - t1 ≤ failure_window
      → t3 - t1 ≤ failure_window
      → t4 - t1 ≤ failure_window
      → t5 - t1 ≤ failure_window
      → (now : ℕ) (j : Bytes)
      → (is_locked five now name
          ≡ (if ltb now (t5 + lockout_duration) then (five, true) else (remove name five, false)))
        × (bytes_eq name j ≡ false → lookup j five ≡ lookup j rl)
  unfolding is_locked
  five_failures_lock fresh h2 h3 h4 h5 now j = (
    rw (lookup-five fresh h2 h3 h4 h5),
    λ other. unfold record_failures in simp (lookup-record_failure, other),
  )

  -- Four failures do not lock, whenever they are made.
  pub four_failures_open :
      lookup name rl ≡ none
      → (now : ℕ)
      → (is_locked (record_failures rl (t1 ∷ t2 ∷ t3 ∷ t4 ∷ []) name) now name).1 ≡ false
  unfolding is_locked record_failures
  four_failures_open fresh now =
      simp (lookup-record_failure, bytes_eq_refl, fresh) (unfold after_failure in ground arith)
