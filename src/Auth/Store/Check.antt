-- ===== src/Auth/Store/Check.antt =====
-- etcd/auth/store.go: the checks of a password and of a permission.
pub mod Permits
pub mod Guesses
use t.Prelude.{
  ℕ, Bool, true, false, Option, none, some, List, [], ◌∷◌, Bytes, not, has_prefix, if◌then◌else◌,
}
use t.Prelude.Dict.{Dict, lookup}
use t.Auth.{User, Role, PermType, has_permission}
use t.Auth.RateLimit.{RateLimiter, is_locked, record_failure, record_success}
use t.Auth.Store.{
  KvNode, Store, Failure, too_many_attempts, authentication_failed, user_not_found,
  permission_denied, auth_prefix,
}

-- IsAuthPrefix
unfoldable pub is_auth_prefix : Bytes → Bool
is_auth_prefix key = has_prefix key auth_prefix

-- The loop over the roles of a user: one that is not stored is passed over.
unfoldable pub any_role_permits : Dict Role → List Bytes → Bytes → PermType → Bool
any_role_permits roles [] key pt = false
any_role_permits roles (name ∷ names) key pt =
    let rest = any_role_permits roles names key pt in
    elim (lookup name roles) [
      | none ↦ rest
      | some r ↦ if has_permission r key pt then true else rest
    ]

abbrev pub user_permitted : Dict Role → Option User → Bytes → PermType → Failure
user_permitted roles none key pt = some user_not_found
user_permitted roles (some u) key pt =
    if any_role_permits roles u.roles key pt then none else some permission_denied

unfoldable pub check_permission : {S : Type 0} → Store S → Bytes → Bytes → PermType → Failure
unfolding any_role_permits
check_permission s user_name key pt =
    if not s.enabled then none else user_permitted s.roles (lookup user_name s.users) key pt

module _ (n : KvNode) where
  open n use {State, matches_hash}

  abbrev failed : Store State → ℕ → Bytes → Store State × Failure
  failed s now name =
      (record s { rate_lim = record_failure s.rate_lim now name }, some authentication_failed)

  abbrev compare_password : Store State → ℕ → Bytes → Bytes → Option User → Store State × Failure
  compare_password s now name password none = failed s now name
  compare_password s now name password (some u) =
      if matches_hash u.password_hash password
      then (record s { rate_lim = record_success s.rate_lim name }, none)
      else failed s now name

  abbrev unless_locked :
      Store State → ℕ → Bytes → Bytes → RateLimiter × Bool → Store State × Failure
  unless_locked s now name password (rl, true) =
      (record s { rate_lim = rl }, some too_many_attempts)
  unless_locked s now name password (rl, false) =
      compare_password (record s { rate_lim = rl }) now name password (lookup name s.users)

  unfoldable pub check_password : Store State → ℕ → Bytes → Bytes → Store State × Failure
  check_password s now name password =
      unless_locked s now name password (is_locked s.rate_lim now name)
