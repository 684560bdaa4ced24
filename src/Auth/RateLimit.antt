-- ===== src/Auth/RateLimit.antt =====
-- etcd/auth/ratelimit.go: the lockout after repeated failures. A time is a number of nanoseconds,
-- read once in each call, and the zero Time is `none`.
pub mod Lockout
use t.Prelude.{
  ℕ, ◌+◌, ◌-◌, ◌*◌, Bool, true, false, Option, none, some, [], Bytes, ltb, leb, if◌then◌else◌,
}
use t.Prelude.Word.{add64, le64}
use t.Prelude.Dict.{Dict, lookup, insert, remove}

abbrev pub max_failures : ℕ
max_failures = 5

-- time.Minute
abbrev pub minute : ℕ
minute = 60 * 1000000000

abbrev pub failure_window : ℕ
failure_window = 5 * minute

abbrev pub lockout_duration : ℕ
lockout_duration = 15 * minute

pub record AuthAttempt : Type 0 where
  pub failures : ℕ
  pub first_fail : ℕ
  pub locked_until : Option ℕ

abbrev pub RateLimiter : Type 0
RateLimiter = Dict AuthAttempt

-- `now.Before(t)`; no time is before the zero Time
abbrev pub before : ℕ → Option ℕ → Bool
before now none = false
before now (some u) = ltb now u

abbrev pub is_zero : Option ℕ → Bool
is_zero none = true
is_zero (some u) = false

-- IsLocked, once the attempt is looked up
abbrev pub check_attempt : RateLimiter → ℕ → Bytes → Option AuthAttempt → RateLimiter × Bool
check_attempt rl now username none = (rl, false)
check_attempt rl now username (some a) =
    if before now a.locked_until
    then (rl, true)
    else (if is_zero a.locked_until then rl else remove username rl, false)

unfoldable pub is_locked : RateLimiter → ℕ → Bytes → RateLimiter × Bool
is_locked rl now username = check_attempt rl now username (lookup username rl)

-- The attempt after one more failure.
unfoldable pub after_failure : ℕ → Option AuthAttempt → AuthAttempt
after_failure now none = record { failures = 1; first_fail = now; locked_until = none }
after_failure now (some a) =
    let failures = add64 a.failures 1 in
    if ltb failure_window (now - a.first_fail)
    then record { failures = 1; first_fail = now; locked_until = none }
    else record a {
      failures = failures;
      locked_until =
          if le64 max_failures failures then some (now + lockout_duration) else a.locked_until;
    }

unfoldable pub record_failure : RateLimiter → ℕ → Bytes → RateLimiter
unfolding after_failure
record_failure rl now username = insert username (after_failure now (lookup username rl)) rl

unfoldable pub record_success : RateLimiter → Bytes → RateLimiter
record_success rl username = remove username rl
