-- ===== src/Auth/Store/Failures.antt =====
-- What a refused or failed operation of the auth store leaves.
use mathlib.Core.List.{Memᴰ}
use mathlib.Core.List.Memᴰ
use t.Prelude.{
  ◌≡◌, refl, ap, ◌∙◌, inl, inr, true, false, none, some, List, [], ◌∷◌, ◌++◌, Bytes, bytes_eq,
  bytes_eq_refl, Bool-cases,
}
use t.Prelude.Dict.{lookup, lookup-insert}
use t.Auth.{
  User, Role, Permission, PermType, covers, any_covers, has_permission, root_role, root_user,
}
use t.Auth.Store.Check.{check_permission}
use t.Auth.Store.Check.Permits.{check_permission_iff}
use t.Auth.Store.{
  KvNode, Store, node_failed, root_protected, put_user, put_role, delete_user, revoke_role, without,
  overwritten, users_prefix, roles_prefix,
}
use t.Auth.Store.Roles.{delete_role, grant_permission, same_range, replace_permission, grant_into}

covers_later :
    (q : Permission) (ps : List Permission) (key : Bytes) (pt : PermType)
    → any_covers ps key pt ≡ true
    → any_covers (q ∷ ps) key pt ≡ true
unfolding any_covers
covers_later q ps key pt any = elim (Bool-cases (covers q key pt)) [
  | inl c ↦ simp c refl
  | inr c ↦ simp c any
]

any-has_permission :
    (r : Role) (key : Bytes) (pt : PermType)
    → any_covers r.permissions key pt ≡ true
    → has_permission r key pt ≡ true
unfolding has_permission
any-has_permission r key pt any = elim (Bool-cases (bytes_eq r.name root_role)) [
  | inl root ↦ simp root refl
  | inr plain ↦ simp plain any
]

elsewhere :
    (q : Permission) (qs : List Permission) (p old : Permission)
    → Memᴰ old (q ∷ qs)
    → same_range old p.key p.range_end ≡ true
    → same_range q p.key p.range_end ≡ false
    → Memᴰ old qs
elsewhere q qs p old (Memᴰ.head e) same differ =
    absurd (cc (ap (λ x. same_range x p.key p.range_end) e, same, differ))
elsewhere q qs p old (Memᴰ.tail i) same differ = i

-- A permission that replaces an entry of the same range is found by the loop over the permissions.
replaced_covers :
    (qs : List Permission) (p old : Permission) (key : Bytes) (pt : PermType)
    → Memᴰ old qs
    → same_range old p.key p.range_end ≡ true
    → covers p key pt ≡ true
    → (ps : List Permission) × (replace_permission qs p ≡ some ps) × (any_covers ps key pt ≡ true)
unfolding replace_permission any_covers
replaced_covers [] p old key pt i same covered = absurd (Memᴰ.not-nil i)
replaced_covers (q ∷ qs) p old key pt i same covered =
    elim (Bool-cases (same_range q p.key p.range_end)) [
      | inl here ↦ (p ∷ qs, rw here refl, rw covered refl)
      | inr not_here ↦
          let j = elsewhere q qs p old i same not_here in
          let (ps, replaced, any) = replaced_covers qs p old key pt j same covered in
          (q ∷ ps, rw (not_here, replaced) refl, covers_later q ps key pt any)
    ]

module _ (n : KvNode) (s : Store n.State) where
  open n use {put, encode_user, encode_role}

  -- While access control is on, the root user and the root role cannot be deleted.
  root_stays :
      s.enabled ≡ true
      → (delete_user n s root_user ≡ (s, some root_protected))
        × (delete_role n s root_role ≡ (s, some root_protected))
  unfolding delete_user delete_role bytes_eq
  root_stays on = simp on (refl, refl)

  failed_grant_stores :
      (role_name : Bytes) (p : Permission) (r : Role) (ps : List Permission)
      → lookup role_name s.roles ≡ some r
      → replace_permission r.permissions p ≡ some ps
      → put s.node (roles_prefix ++ r.name) (encode_role (record r { permissions = ps })) ≡ none
      → let after = grant_permission n s role_name p in
        (after.1 ≡ some node_failed)
        × (after.0.node ≡ s.node)
        × (after.0.users ≡ s.users)
        × (lookup role_name after.0.roles ≡ some (record r { permissions = ps }))
  unfolding grant_permission grant_into put_role
  failed_grant_stores role_name p r ps found replaced fails =
      rw (found, replaced, fails)
        (
          refl,
          refl,
          refl,
          rw
              (
                lookup-insert role_name role_name (record r { permissions = ps }) s.roles,
                bytes_eq_refl role_name,
              )
              refl,
        )

  -- A permission for a range that a stored role has an entry for is in force as soon as it is
  -- granted, although the node takes no write and the call returns its error: the state of the node
  -- is as before, and a stored user with the role may access every key that the permission covers.
  pub failed_grant_applies :
      (role_name : Bytes) (p old : Permission) (r : Role)
      → lookup role_name s.roles ≡ some r
      → Memᴰ old r.permissions
      → same_range old p.key p.range_end ≡ true
      → ((k v : Bytes) → put s.node k v ≡ none)
      → (user_name key : Bytes) (pt : PermType) (u : User) → lookup user_name s.users ≡ some u
      → Memᴰ role_name u.roles
      → covers p key pt ≡ true
      → let after = grant_permission n s role_name p in
        (after.1 ≡ some node_failed)
        × (after.0.node ≡ s.node)
        × (check_permission after.0 user_name key pt ≡ none)
  failed_grant_applies role_name p old r found i same fails user_name key pt u user has_role
        covered =
      let (ps, replaced, any) = replaced_covers r.permissions p old key pt i same covered in
      let r' = record r { permissions = ps } in
      let (failed, kept, users, now) =
        failed_grant_stores role_name p r ps found replaced (fails _ _) in
      (
        failed,
        kept,
        (check_permission_iff (grant_permission n s role_name p).0 user_name key pt).1 (
            inr (
              u,
              ap (lookup user_name) users ∙ user,
              (role_name, r', has_role, now, any-has_permission r' key pt any),
            )),
      )

  -- A revocation of a role from a cached user whose write to the node fails rewrites the roles that
  -- the cached user has: the role is dropped from the front part and the old tail stays behind it.
  pub failed_revoke_applies :
      (user_name role_name : Bytes) (u : User)
      → lookup user_name s.users ≡ some u
      → put s.node
          (users_prefix ++ u.name)
          (encode_user (record u { roles = without n u.roles role_name }))
        ≡ none
      → let after = revoke_role n s user_name role_name in
        (after.1 ≡ some node_failed)
        × (after.0.node ≡ s.node)
        × (lookup user_name after.0.users
            ≡ some (record u { roles = overwritten u.roles (without n u.roles role_name) }))
  unfolding revoke_role put_user
  failed_revoke_applies user_name role_name u found fails =
      rw (found, fails)
        (
          refl,
          refl,
          rw
              (
                lookup-insert user_name user_name
                    (record u { roles = overwritten u.roles (without n u.roles role_name) })
                    s.users,
                bytes_eq_refl user_name,
              )
              refl,
        )
