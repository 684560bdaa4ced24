-- ===== src/Auth.antt =====
-- etcd/auth/types.go: permissions, roles and users.
pub mod RateLimit
pub mod Tokens
pub mod Interceptor
pub mod Store
use t.Prelude.{
  Bool, true, false, List, [], ◌∷◌, Bytes, ℕ, not, ◌&&◌, ◌||◌, ◌==◌, ascii, bytes_eq, bytes_lt,
  if◌then◌else◌,
}

-- authpb.Permission_Type, an int32 that a client may set to any value
pub data PermType : Type 0 where
  read write readwrite : PermType
  unrecognized : ℕ → PermType

pub record Permission : Type 0 where
  pub key : Bytes
  pub range_end : Bytes
  pub perm_type : PermType

pub record Role : Type 0 where
  pub name : Bytes
  pub permissions : List Permission

pub record User : Type 0 where
  pub name : Bytes
  pub password_hash : Bytes
  pub roles : List Bytes

abbrev pub root_role : Bytes
root_role = ascii "root"

abbrev pub root_user : Bytes
root_user = ascii "root"

abbrev pub same_type : PermType → PermType → Bool
same_type read read = true
same_type write write = true
same_type readwrite readwrite = true
same_type (unrecognized a) (unrecognized b) = a == b
same_type _ _ = false

abbrev pub perm_includes : PermType → PermType → Bool
perm_includes have want = same_type have readwrite || same_type have want

unfoldable pub covers : Permission → Bytes → PermType → Bool
covers p key pt =
    if not (perm_includes p.perm_type pt)
    then false
    else if bytes_eq p.range_end []
    then bytes_eq key p.key
    else if bytes_eq p.range_end (0 ∷ [])
    then not (bytes_lt key p.key)
    else not (bytes_lt key p.key) && bytes_lt key p.range_end

-- The loop over the permissions of a role.
unfoldable pub any_covers : List Permission → Bytes → PermType → Bool
unfolding covers
any_covers [] key pt = false
any_covers (p ∷ ps) key pt = if covers p key pt then true else any_covers ps key pt

unfoldable pub has_permission : Role → Bytes → PermType → Bool
unfolding any_covers
has_permission r key pt =
    if bytes_eq r.name root_role then true else any_covers r.permissions key pt

unfoldable pub contains : List Bytes → Bytes → Bool
contains [] k = false
contains (x ∷ xs) k = if bytes_eq x k then true else contains xs k

unfoldable pub has_role : User → Bytes → Bool
unfolding contains
has_role u role_name = contains u.roles role_name
