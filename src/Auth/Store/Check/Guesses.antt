-- ===== src/Auth/Store/Check/Guesses.antt =====
-- Wrong passwords, and the lockout that they lead to.
use t.Prelude.{
  ℕ, ◌+◌, ◌-◌, ◌≤◌, ◌<◌, ◌≡◌, refl, false, Option, none, some, List, [], ◌∷◌, Bytes, length, map,
  All, bytes_eq_refl, arith, lt→ltb, Option-cases, inl, inr,
}
use t.Prelude.Dict.{Dict, lookup, lookup-insert}
use t.Auth.{User}
use t.Auth.RateLimit.{
  RateLimiter, AuthAttempt, check_attempt, is_locked, record_failure, after_failure, failure_window,
  lockout_duration,
}
use t.Auth.RateLimit.Lockout.{record_failures, five_failures_lock}
use t.Auth.Store.{KvNode, Store, authentication_failed, too_many_attempts}
use t.Auth.Store.Check.{check_password}

-- At most `k` failures are known, and no lockout.
Quiet : ℕ → Option AuthAttempt → Type 0
Quiet k none = Unit
Quiet k (some a) = (a.failures ≤ k) × (a.locked_until ≡ none)

Quiet-check :
    (k : ℕ) (rl : RateLimiter) (now : ℕ) (name : Bytes) (o : Option AuthAttempt)
    → Quiet k o
    → check_attempt rl now name o ≡ (rl, false)
unfolding Quiet
Quiet-check k rl now name none q = refl
Quiet-check k rl now name (some a) (f, z) = simp z refl

Quiet-is_locked :
    (k : ℕ) (rl : RateLimiter) (now : ℕ) (name : Bytes)
    → Quiet k (lookup name rl)
    → is_locked rl now name ≡ (rl, false)
unfolding is_locked Quiet
Quiet-is_locked k rl now name q = Quiet-check k rl now name (lookup name rl) q

Quiet-after_failure :
    (k now : ℕ) (o : Option AuthAttempt)
    → k < 4
    → Quiet k o
    → Quiet (k + 1) (some (after_failure now o))
unfolding Quiet after_failure
Quiet-after_failure k now none h q = (omega arith, refl)
Quiet-after_failure k now (some a) h (f, z) = ground arith

Quiet-record_failure :
    (k now : ℕ) (rl : RateLimiter) (name : Bytes)
    → k < 4
    → Quiet k (lookup name rl)
    → Quiet (k + 1) (lookup name (record_failure rl now name))
unfolding record_failure
Quiet-record_failure k now rl name h q =
    rw (lookup-insert name name (after_failure now (lookup name rl)) rl, bytes_eq_refl name)
      (Quiet-after_failure k now (lookup name rl) h q)

module _ (n : KvNode) where
  open n use {State, matches_hash}

  -- The password is not that of the user, who may be missing.
  abbrev pub IsWrong : Dict User → Bytes → Bytes → Type 0
  IsWrong users name password =
      (u : User) → lookup name users ≡ some u → matches_hash u.password_hash password ≡ false

  -- The state after checks of passwords at these times.
  unfoldable pub check_passwords : Store State → List (ℕ × Bytes) → Bytes → Store State
  unfolding check_password
  check_passwords s [] name = s
  check_passwords s ((t, password) ∷ rest) name =
      check_passwords (check_password n s t name password).0 rest name

  wrong_password :
      (s : Store State) (now : ℕ) (name password : Bytes)
      → IsWrong s.users name password
      → is_locked s.rate_lim now name ≡ (s.rate_lim, false)
      → check_password n s now name password
        ≡ (record s { rate_lim = record_failure s.rate_lim now name }, some authentication_failed)
  unfolding check_password
  wrong_password s now name password wrong unlocked = elim (Option-cases (lookup name s.users)) [
    | inl e ↦ simp (unlocked, e) refl
    | inr (u, e) ↦ simp (unlocked, e, wrong u e) refl
  ]

  -- Wrong passwords, as long as none of the checks finds a lockout, are recorded one by one.
  check_passwords-wrong :
      (k : ℕ) (s : Store State) (guesses : List (ℕ × Bytes)) (name : Bytes)
      → k + length guesses ≤ 5
      → Quiet k (lookup name s.rate_lim)
      → All (λ (g : ℕ × Bytes). IsWrong s.users name g.1) guesses
      → check_passwords s guesses name ≡ record s {
        rate_lim = record_failures s.rate_lim (map (λ (g : ℕ × Bytes). g.0) guesses) name;
      }
  unfolding check_passwords record_failures
  check_passwords-wrong k s [] name h q wrong = refl
  check_passwords-wrong k s ((t, p) ∷ []) name h q wrong =
      rw
        (check_passwords, wrong_password s t name p wrong.0 (Quiet-is_locked k s.rate_lim t name q))
        refl
  check_passwords-wrong k s ((t, p) ∷ g ∷ rest) name h q wrong =
      rw
        (check_passwords, wrong_password s t name p wrong.0 (Quiet-is_locked k s.rate_lim t name q))
        (check_passwords-wrong (k + 1) (record s { rate_lim = record_failure s.rate_lim t name })
          (g ∷ rest) name (omega arith) (Quiet-record_failure k t s.rate_lim name (omega arith) q)
          wrong.1)

module _ (n : KvNode) (s : Store n.State) (name : Bytes) (t1 t2 t3 t4 t5 : ℕ) where
  -- Five wrong passwords for a name without a record of failures, none later than the window
  -- after the first, lock the name out: until the lockout has passed, every further check is
  -- refused, that of the right password too, and changes nothing.
  pub five_guesses_lock :
      (p1 p2 p3 p4 p5 : Bytes)
      → lookup name s.rate_lim ≡ none
      → All (IsWrong n s.users name) (p1 ∷ p2 ∷ p3 ∷ p4 ∷ p5 ∷ [])
      → t2 - t1 ≤ failure_window
      → t3 - t1 ≤ failure_window
      → t4 - t1 ≤ failure_window
      → t5 - t1 ≤ failure_window
      → (now : ℕ) (password : Bytes) → now < t5 + lockout_duration
      → let s' =
          check_passwords n s ((t1, p1) ∷ (t2, p2) ∷ (t3, p3) ∷ (t4, p4) ∷ (t5, p5) ∷ []) name in
        check_password n s' now name password ≡ (s', some too_many_attempts)
  unfolding check_password Quiet
  five_guesses_lock p1 p2 p3 p4 p5 fresh wrong h2 h3 h4 h5 now password h =
      rw
        (check_passwords-wrong n 0 s ((t1, p1) ∷ (t2, p2) ∷ (t3, p3) ∷ (t4, p4) ∷ (t5, p5) ∷ [])
          name (omega arith) (rw fresh tt) wrong)
        (rw
          (
            (five_failures_lock s.rate_lim name t1 t2 t3 t4 t5 fresh h2 h3 h4 h5 now []).0,
            lt→ltb now (t5 + lockout_duration) h,
          )
          refl)
