-- ===== src/Tests/AuthTests.antt =====
-- Runs of the auth store over a node that is a map and that can refuse every write.
use mathlib.Core.List.{Memᴰ}
use t.Prelude.{
  ◌≡◌, ◌↔◌, ◌⊎◌, refl, ap, sym, ◌∙◌, Bool, true, false, Option, none, some, [], ◌∷◌, ◌++◌, Bytes,
  ascii, bytes_eq, arith, if◌then◌else◌,
}
use t.Prelude.Dict.{Dict, lookup, insert, remove}
use t.Auth.{
  User, Role, Permission, PermType, read, write, covers, readwrite, root_user, root_role,
  has_permission,
}
use t.Auth.RateLimit.{RateLimiter}
use t.Auth.RateLimit.Lockout.{record_failures}
use t.Auth.Store.{
  KvNode, Store, node_failed, permission_denied, root_protected, too_many_attempts, delete_user,
  revoke_role, overwritten, without,
}
use t.Auth.Store.Roles.{grant_permission}
use t.Auth.Store.Failures.{failed_grant_applies}
use t.Auth.Store.Check.{check_password, check_permission}
use t.Auth.Store.Check.Permits.{Grants, check_permission_iff}
use t.Auth.Store.Check.Guesses.{IsWrong, check_passwords, five_guesses_lock}

-- A node that takes every write or none; a password is its own hash.
abbrev map_node : Bool → KvNode
map_node works = record {
  State = Dict Bytes;
  put = λ st key value. if works then some (insert key value st) else none;
  delete = λ st key. if works then some (remove key st) else none;
  encode_user = λ u. u.name ++ u.password_hash;
  encode_role = λ r. r.name;
  hash_password = λ p. some p;
  matches_hash = bytes_eq;
}

abbrev alice : User
alice = record {
  name = ascii "alice";
  password_hash = ascii "secret";
  roles = ascii "reader" ∷ ascii "writer" ∷ [];
}

abbrev narrow : Permission
narrow = record { key = ascii "a"; range_end = []; perm_type = read }

abbrev reader : Role
reader = record { name = ascii "reader"; permissions = narrow ∷ [] }

abbrev users_and_roles : Store (Dict Bytes)
users_and_roles = record {
  node = [];
  enabled = true;
  users = (ascii "alice", alice) ∷ [];
  roles = (ascii "reader", reader) ∷ [];
  rate_lim = [];
}

check_permission_iff_example :
    (check_permission users_and_roles (ascii "alice") (ascii "a") read ≡ none) ↔ (
      (true ≡ false)
      ⊎ ((u : User) × (lookup (ascii "alice") users_and_roles.users ≡ some u)
          × Grants users_and_roles.roles u.roles (ascii "a") read))
check_permission_iff_example = check_permission_iff users_and_roles (ascii "alice") (ascii "a") read

alice_reads_a : check_permission users_and_roles (ascii "alice") (ascii "a") read ≡ none
unfolding check_permission lookup bytes_eq has_permission
alice_reads_a = refl

abbrev guessed : Store (Dict Bytes)
guessed =
    check_passwords (map_node true) users_and_roles
      ((0, ascii "1") ∷ (1, ascii "2") ∷ (2, ascii "3") ∷ (3, ascii "4") ∷ (4, ascii "5") ∷ [])
      (ascii "alice")

abbrev hash_of : Option User → Bytes
hash_of none = []
hash_of (some u) = u.password_hash

guess-IsWrong :
    (password : Bytes)
    → bytes_eq (ascii "secret") password ≡ false
    → IsWrong (map_node true) users_and_roles.users (ascii "alice") password
unfolding lookup bytes_eq
guess-IsWrong password h u found = ap (λ o. bytes_eq (hash_of o) password) (sym found) ∙ h

five_guesses_lock_example :
    check_password (map_node true) guessed 5 (ascii "alice") (ascii "secret")
    ≡ (guessed, some too_many_attempts)
unfolding lookup bytes_eq
five_guesses_lock_example =
    five_guesses_lock (map_node true) users_and_roles (ascii "alice") 0 1 2 3 4 (ascii "1")
      (ascii "2") (ascii "3") (ascii "4") (ascii "5") refl
      (
        guess-IsWrong (ascii "1") refl,
        (
          guess-IsWrong (ascii "2") refl,
          (
            guess-IsWrong (ascii "3") refl,
            (guess-IsWrong (ascii "4") refl, (guess-IsWrong (ascii "5") refl, tt)),
          ),
        ),
      )
      (omega arith) (omega arith) (omega arith) (omega arith) 5 (ascii "secret") (omega arith)

abbrev failures : RateLimiter
failures = record_failures [] (0 ∷ 1 ∷ 2 ∷ 3 ∷ 4 ∷ []) (ascii "alice")

abbrev wider : Permission
wider = record { key = ascii "a"; range_end = []; perm_type = readwrite }

abbrev after_grant : Store (Dict Bytes) × Option t.Auth.Store.AuthError
after_grant = grant_permission (map_node false) users_and_roles (ascii "reader") wider

-- Before the grant that fails, the user may not write the key.
write_denied :
    check_permission users_and_roles (ascii "alice") (ascii "a") write ≡ some permission_denied
unfolding check_permission has_permission lookup bytes_eq
write_denied = refl

failed_grant_applies_example :
    (after_grant.1 ≡ some node_failed)
    × (after_grant.0.node ≡ [])
    × (check_permission after_grant.0 (ascii "alice") (ascii "a") write ≡ none)
unfolding lookup bytes_eq covers
failed_grant_applies_example =
    failed_grant_applies (map_node false) users_and_roles (ascii "reader") wider narrow reader refl
      (Memᴰ.head refl) refl (λ k v. refl) (ascii "alice") (ascii "a") write alice refl
      (Memᴰ.head refl) refl

abbrev after_revoke : Store (Dict Bytes) × Option t.Auth.Store.AuthError
after_revoke = revoke_role (map_node false) users_and_roles (ascii "alice") (ascii "reader")

-- The cached user then has the other role twice.
writer_twice :
    overwritten alice.roles (without (map_node false) alice.roles (ascii "reader"))
    ≡ ascii "writer" ∷ ascii "writer" ∷ []
unfolding without bytes_eq
writer_twice = refl
