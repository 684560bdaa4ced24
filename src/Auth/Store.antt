-- ===== src/Auth/Store.antt =====
-- etcd/auth/store.go: the state of the auth store, its helpers and the operations on the users.
-- `n` is the node: what of it the store calls is the interface `KvNode`. Strings are bytes.
pub mod Roles
pub mod Check
pub mod Failures
use t.Prelude.{
  ℕ, Bool, true, false, Option, none, some, List, [], ◌∷◌, ◌++◌, map, Bytes, length, drop, not,
  ◌&&◌, ascii, bytes_eq, if◌then◌else◌,
}
use t.Prelude.Dict.{Dict, lookup, insert, remove}
use t.Auth.{User, Role, Permission, root_role, root_user, has_role}
use t.Auth.RateLimit.{RateLimiter}

pub data AuthError : Type 0 where
  node_failed root_user_missing user_not_found role_not_found root_protected : AuthError
  hash_failed too_many_attempts authentication_failed permission_denied : AuthError

-- `nil` or an error
abbrev pub Failure : Type 0
Failure = Option AuthError

-- The node and the libraries that the store calls: Put and Delete of the node, `none` for an
-- error; the JSON of a user and of a role; bcrypt.
pub record KvNode : Type 1 where
  pub State : Type 0
  pub put : State → Bytes → Bytes → Option State
  pub delete : State → Bytes → Option State
  pub encode_user : User → Bytes
  pub encode_role : Role → Bytes
  pub hash_password : Bytes → Option Bytes
  pub matches_hash : Bytes → Bytes → Bool

abbrev pub auth_prefix : Bytes
auth_prefix = 0 ∷ ascii "auth/"

abbrev pub enabled_key : Bytes
enabled_key = 0 ∷ ascii "auth/enabled"

abbrev pub users_prefix : Bytes
users_prefix = 0 ∷ ascii "auth/users/"

abbrev pub roles_prefix : Bytes
roles_prefix = 0 ∷ ascii "auth/roles/"

pub record Store (S : Type 0) : Type 0 where
  pub node : S
  pub enabled : Bool
  pub users : Dict User
  pub roles : Dict Role
  pub rate_lim : RateLimiter

-- A slice that was filtered in place, as one that shares its array sees it: what was kept, then
-- the old tail.
abbrev pub overwritten {ℓ} : {A : Type ℓ} → List A → List A → List A
overwritten old kept = kept ++ drop (length kept) old

module _ (n : KvNode) where
  open n use {State, put, delete, encode_user, encode_role, hash_password}

  abbrev Op : Type 0
  Op = Store State × Failure

  -- The end of a call of the node: its error, or what to do with its new state.
  abbrev pub stored : Store State → Option State → (State → Store State) → Op
  stored s none f = (s, some node_failed)
  stored s (some st) f = (f st, none)

  unfoldable pub put_user : Store State → User → Op
  put_user s u =
      stored s (put s.node (users_prefix ++ u.name) (encode_user u))
        (λ st. record s { node = st; users = insert u.name u s.users })

  unfoldable pub put_role : Store State → Role → Op
  put_role s r =
      stored s (put s.node (roles_prefix ++ r.name) (encode_role r))
        (λ st. record s { node = st; roles = insert r.name r s.roles })

  unfoldable pub set_enabled : Store State → Bool → Op
  set_enabled s on =
      stored s (put s.node enabled_key (if on then ascii "1" else ascii "0"))
        (λ st. record s { node = st; enabled = on })

  abbrev after_root_role : Op → Op
  after_root_role (s, none) = set_enabled s true
  after_root_role (s, some e) = (s, some e)

  -- Enable, once the root role is looked up: it is made if it is missing.
  abbrev with_root_role : Store State → Option Role → Op
  with_root_role s (some r) = set_enabled s true
  with_root_role s none =
      after_root_role (put_role s (record { name = root_role; permissions = [] }))

  abbrev with_root_user : Store State → Option User → Op
  with_root_user s none = (s, some root_user_missing)
  with_root_user s (some u) = with_root_role s (lookup root_role s.roles)

  unfoldable pub enable : Store State → Op
  unfolding set_enabled put_role
  enable s = if s.enabled then (s, none) else with_root_user s (lookup root_user s.users)

  unfoldable pub disable : Store State → Op
  unfolding set_enabled
  disable s = if not s.enabled then (s, none) else set_enabled s false

  abbrev hashed : Store State → User → Option Bytes → Op
  hashed s u none = (s, some hash_failed)
  hashed s u (some h) = put_user s (record u { password_hash = h })

  -- PutUser: the empty password keeps the hash.
  unfoldable pub put_user_password : Store State → User → Bytes → Op
  unfolding put_user
  put_user_password s u password =
      if bytes_eq password [] then put_user s u else hashed s u (hash_password password)

  abbrev delete_found_user : Store State → Bytes → Option User → Op
  delete_found_user s name none = (s, some user_not_found)
  delete_found_user s name (some u) =
      stored s (delete s.node (users_prefix ++ name))
        (λ st. record s { node = st; users = remove name s.users })

  unfoldable pub delete_user : Store State → Bytes → Op
  delete_user s name =
      if s.enabled && bytes_eq name root_user
      then (s, some root_protected)
      else delete_found_user s name (lookup name s.users)

  abbrev grant_found : Store State → Bytes → Option User → Option Role → Op
  grant_found s role_name none r = (s, some user_not_found)
  grant_found s role_name (some u) none = (s, some role_not_found)
  grant_found s role_name (some u) (some r) =
      if has_role u role_name
      then (s, none)
      else put_user s (record u { roles = u.roles ++ role_name ∷ [] })

  unfoldable pub grant_role : Store State → Bytes → Bytes → Op
  unfolding put_user has_role
  grant_role s user_name role_name =
      grant_found s role_name (lookup user_name s.users) (lookup role_name s.roles)

  unfoldable pub without : List Bytes → Bytes → List Bytes
  without [] name = []
  without (r ∷ rs) name =
      let rest = without rs name in if not (bytes_eq r name) then r ∷ rest else rest

  -- The roles are filtered in the array that the stored user shares, before the write.
  abbrev revoke_found : Store State → Bytes → Bytes → Option User → Op
  revoke_found s user_name role_name none = (s, some user_not_found)
  revoke_found s user_name role_name (some u) =
      let kept = without u.roles role_name in
      put_user
        (record s {
          users = insert user_name (record u { roles = overwritten u.roles kept }) s.users;
        })
        (record u { roles = kept })

  unfoldable pub revoke_role : Store State → Bytes → Bytes → Op
  unfolding put_user without
  revoke_role s user_name role_name = revoke_found s user_name role_name (lookup user_name s.users)
