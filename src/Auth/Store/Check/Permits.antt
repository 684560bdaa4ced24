-- ===== src/Auth/Store/Check/Permits.antt =====
-- Which requests the stored users and roles permit.
use t.Prelude.{
  ◌≡◌, refl, sym, ap, ◌∙◌, ◌↔◌, ◌⊎◌, inl, inr, Bool, true, false, Option, none, some, List, [], ◌∷◌,
  Bytes, arith, if◌then◌else◌, Bool-cases,
}
use t.Prelude.Dict.{Dict, lookup}
use mathlib.Core.List.{Memᴰ}
use mathlib.Core.List.Memᴰ
use t.Auth.{User, Role, PermType, has_permission}
use t.Auth.Store.{Store}
use t.Auth.Store.Check.{check_permission, any_role_permits, user_permitted}

-- One of the names is that of a stored role that permits the access.
abbrev pub Grants : Dict Role → List Bytes → Bytes → PermType → Type 0
Grants roles names key pt =
    (name : Bytes) × (r : Role) × Memᴰ name names
    × (lookup name roles ≡ some r)
    × (has_permission r key pt ≡ true)

module _ (roles : Dict Role) (key : Bytes) (pt : PermType) where
  later :
      (name : Bytes) (names : List Bytes)
      → Grants roles names key pt
      → Grants roles (name ∷ names) key pt
  later name names (m, r, i, e, p) = (m, r, Memᴰ.tail i, e, p)

  -- The test of one name, once its role is looked up.
  first_permits :
      (name : Bytes) (names : List Bytes) (rest : Bool) (o : Option Role)
      → lookup name roles ≡ o
      → (rest ≡ true → Grants roles names key pt)
      → elim o [ none ↦ rest | some r ↦ if has_permission r key pt then true else rest ] ≡ true
      → Grants roles (name ∷ names) key pt
  first_permits name names rest none e ih h = later name names (ih h)
  first_permits name names rest (some r) e ih h = elim (Bool-cases (has_permission r key pt)) [
    | inl p ↦ (name, r, Memᴰ.head refl, e, p)
    | inr q ↦ later name names (ih (rw q at h))
  ]

  permits→Grants :
      (names : List Bytes) → any_role_permits roles names key pt ≡ true → Grants roles names key pt
  unfolding any_role_permits
  permits→Grants [] h = absurd (ground arith)
  permits→Grants (name ∷ names) h =
      first_permits name names (any_role_permits roles names key pt) (lookup name roles) refl
        (permits→Grants names) h

  first_grants :
      (rest : Bool) (o : Option Role) (r : Role)
      → o ≡ some r
      → has_permission r key pt ≡ true
      → elim o [ none ↦ rest | some r ↦ if has_permission r key pt then true else rest ] ≡ true
  first_grants rest o r e p = rw (e, p) refl

  later_grants :
      (rest : Bool) (o : Option Role)
      → rest ≡ true
      → elim o [ none ↦ rest | some r ↦ if has_permission r key pt then true else rest ] ≡ true
  later_grants rest none h = h
  later_grants rest (some r) h = ground arith

  Grants→permits :
      (names : List Bytes) → Grants roles names key pt → any_role_permits roles names key pt ≡ true
  unfolding any_role_permits
  Grants→permits [] (m, r, i, e, p) = absurd (Memᴰ.not-nil i)
  Grants→permits (name ∷ names) (m, r, Memᴰ.head same, e, p) =
      first_grants (any_role_permits roles names key pt) (lookup name roles) r
        (ap (λ k. lookup k roles) (sym same) ∙ e) p
  Grants→permits (name ∷ names) (m, r, Memᴰ.tail i, e, p) =
      later_grants (any_role_permits roles names key pt) (lookup name roles)
        (Grants→permits names (m, r, i, e, p))

permitted→Grants :
    (roles : Dict Role) (users : Dict User) (user_name key : Bytes) (pt : PermType)
    (o : Option User)
    → lookup user_name users ≡ o
    → user_permitted roles o key pt ≡ none
    → (u : User) × (lookup user_name users ≡ some u) × Grants roles u.roles key pt
permitted→Grants roles users user_name key pt none e h = absurd (ground arith)
permitted→Grants roles users user_name key pt (some u) e h =
    (u, e, permits→Grants roles key pt u.roles (ground arith))

-- The name may access the key exactly if access control is off, or the name is that of a stored
-- user of which some role is stored and permits the access.
pub check_permission_iff :
    {S : Type 0} (s : Store S) (user_name key : Bytes) (pt : PermType)
    → (check_permission s user_name key pt ≡ none) ↔ (
        (s.enabled ≡ false)
        ⊎ ((u : User) × (lookup user_name s.users ≡ some u) × Grants s.roles u.roles key pt))
unfolding check_permission
check_permission_iff s user_name key pt = (
  λ h. elim (Bool-cases s.enabled) [
    | inl on ↦ inr (permitted→Grants s.roles s.users user_name key pt _ refl (rw on at h))
    | inr off ↦ inl off
  ],
  λ h. elim h [
    | inl off ↦ rw off refl
    | inr (u, e, g) ↦ rw (e, Grants→permits s.roles key pt u.roles g) (ground arith)
  ],
)
