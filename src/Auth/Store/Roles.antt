-- ===== src/Auth/Store/Roles.antt =====
-- etcd/auth/store.go: the operations on the roles.
use t.Prelude.{
  Bool, Option, none, some, List, [], ◌∷◌, ◌++◌, Bytes, not, ◌&&◌, ◌||◌, bytes_eq, if◌then◌else◌,
}
use t.Prelude.Dict.{lookup, insert, remove}
use t.Auth.{Role, Permission, root_role}
use t.Auth.Store.{
  KvNode, Store, Failure, role_not_found, root_protected, roles_prefix, stored, put_role,
  overwritten,
}

-- `existing.Key == p.Key && existing.RangeEnd == p.RangeEnd`
abbrev pub same_range : Permission → Bytes → Bytes → Bool
same_range p key range_end = bytes_eq p.key key && bytes_eq p.range_end range_end

-- The loop of GrantPermission: the first entry of the range replaced, `none` if there is none.
unfoldable pub replace_permission : List Permission → Permission → Option (List Permission)
replace_permission [] p = none
replace_permission (q ∷ qs) p =
    let rest = replace_permission qs p in
    if same_range q p.key p.range_end
    then some (p ∷ qs)
    else elim rest [ none ↦ none | some ps ↦ some (q ∷ ps) ]

unfoldable pub without_range : List Permission → Bytes → Bytes → List Permission
without_range [] key range_end = []
without_range (p ∷ ps) key range_end =
    let rest = without_range ps key range_end in
    if not (bytes_eq p.key key) || not (bytes_eq p.range_end range_end) then p ∷ rest else rest

module _ (n : KvNode) where
  open n use {State, delete}

  abbrev delete_found_role : Store State → Bytes → Option Role → Store State × Failure
  delete_found_role s name none = (s, some role_not_found)
  delete_found_role s name (some r) =
      stored n s (delete s.node (roles_prefix ++ name))
        (λ st. record s { node = st; roles = remove name s.roles })

  unfoldable pub delete_role : Store State → Bytes → Store State × Failure
  delete_role s name =
      if s.enabled && bytes_eq name root_role
      then (s, some root_protected)
      else delete_found_role s name (lookup name s.roles)

  -- A replaced entry is written into the array that the stored role shares, before the write; an
  -- appended one is not seen there.
  unfoldable pub grant_into :
      Store State → Bytes → Role → Permission → Option (List Permission) → Store State × Failure
  unfolding put_role
  grant_into s role_name r p (some ps) =
      let r' = record r { permissions = ps } in
      put_role n (record s { roles = insert role_name r' s.roles }) r'
  grant_into s role_name r p none =
      put_role n s (record r { permissions = r.permissions ++ p ∷ [] })

  abbrev grant_found_role : Store State → Bytes → Permission → Option Role → Store State × Failure
  grant_found_role s role_name p none = (s, some role_not_found)
  grant_found_role s role_name p (some r) =
      grant_into s role_name r p (replace_permission r.permissions p)

  unfoldable pub grant_permission : Store State → Bytes → Permission → Store State × Failure
  unfolding replace_permission grant_into
  grant_permission s role_name p = grant_found_role s role_name p (lookup role_name s.roles)

  -- The permissions are filtered in the array that the stored role shares, before the write.
  abbrev revoke_found_role :
      Store State → Bytes → Bytes → Bytes → Option Role → Store State × Failure
  revoke_found_role s role_name key range_end none = (s, some role_not_found)
  revoke_found_role s role_name key range_end (some r) =
      let kept = without_range r.permissions key range_end in
      put_role n
        (record s {
          roles =
              insert role_name (record r { permissions = overwritten r.permissions kept }) s.roles;
        })
        (record r { permissions = kept })

  unfoldable pub revoke_permission : Store State → Bytes → Bytes → Bytes → Store State × Failure
  unfolding put_role without_range
  revoke_permission s role_name key range_end =
      revoke_found_role s role_name key range_end (lookup role_name s.roles)
