-- ===== src/Tests/AccessTests.antt =====
-- Runs of the interceptor and of the tokens.
use t.Prelude.{
  ◌≡◌, ◌↔◌, refl, true, none, some, [], ◌∷◌, ascii, bytes_eq, has_prefix, bytes_lt, Bytes,
}
use t.Prelude.Dict.{lookup, insert}
use t.Result.{ok}
use t.Auth.{readwrite, contains, has_permission}
use t.Auth.Store.{Store}
use t.Auth.Store.Check.{check_permission, is_auth_prefix}
use t.Auth.Tokens.{TokenStore, generate, lookup_token}
use t.Auth.Interceptor.{
  Request, RequestOp, put_op, txn_op, no_ops, op_then, txn_request, txn_method, internal_namespace,
  range_request, check_auth, check_stream, token_from_ctx, range_method, watch_method,
  auth_disable_method, open_method, extract_keys, method_perm,
}
use t.Auth.Interceptor.Guards.{MayRequest, check_auth_iff, watch_unchecked}

-- "bob" may access every key from the null byte on.
abbrev access : Store (Unit {0})
access = record {
  node = tt;
  enabled = true;
  users =
      (ascii "bob", record { name = ascii "bob"; password_hash = []; roles = ascii "all" ∷ [] })
      ∷ [];
  roles =
      (
        ascii "all",
        record {
          name = ascii "all";
          permissions = (record { key = 0 ∷ []; range_end = 0 ∷ []; perm_type = readwrite }) ∷ [];
        },
      )
      ∷ [];
  rate_lim = [];
}

abbrev no_tokens : TokenStore
no_tokens = record { tokens = []; ttl = 100 }

abbrev tokens : TokenStore
tokens = generate no_tokens 0 (ascii "f00d") (ascii "bob")

abbrev whole_range : Request
whole_range = range_request (record { key = 0 ∷ []; range_end = 0 ∷ [] })

check_auth_iff_example :
    (check_auth access tokens 5 (some (ascii "f00d" ∷ [])) range_method (some whole_range) ≡ none)
    ↔ ((username : Bytes) × (token_from_ctx tokens 5 (some (ascii "f00d" ∷ [])) ≡ ok username)
        × MayRequest access username range_method (some whole_range))
unfolding open_method bytes_eq
check_auth_iff_example =
    check_auth_iff access tokens 5 (some (ascii "f00d" ∷ [])) range_method (some whole_range) refl
      refl

-- The range from the null byte on holds the keys of the auth store, and is admitted.
whole_range_admitted :
    check_auth access tokens 5 (some (ascii "f00d" ∷ [])) range_method (some whole_range) ≡ none
unfolding check_auth open_method bytes_eq token_from_ctx lookup_token generate insert lookup
    extract_keys method_perm has_prefix is_auth_prefix check_permission bytes_lt has_permission
whole_range_admitted = refl

abbrev internal_put : RequestOp
internal_put = put_op (some (0 ∷ ascii "auth/x"))

-- A put into the namespace of the auth store is found in a branch, but not in a nested transaction.
branch_refused :
    check_auth access tokens 5
      (some (ascii "f00d" ∷ []))
      txn_method
      (some (txn_request [] no_ops (op_then internal_put no_ops)))
    ≡ some internal_namespace
unfolding check_auth open_method bytes_eq token_from_ctx lookup_token generate insert lookup
    extract_keys method_perm has_prefix is_auth_prefix check_permission bytes_lt has_permission
    contains
branch_refused = refl

nested_passed_over :
    check_auth access tokens 5 (some (ascii "f00d" ∷ [])) txn_method (
      some
        (txn_request [] no_ops (op_then (txn_op [] (op_then internal_put no_ops) no_ops) no_ops)))
    ≡ none
unfolding check_auth open_method bytes_eq token_from_ctx lookup_token generate insert lookup
    extract_keys method_perm has_prefix is_auth_prefix check_permission bytes_lt has_permission
nested_passed_over = refl

disable_open : check_auth access tokens 5 none auth_disable_method none ≡ none
unfolding check_auth open_method bytes_eq
disable_open = refl

watch_unchecked_example :
    check_stream access tokens 5 (some (ascii "f00d" ∷ [])) watch_method ≡ none
unfolding lookup_token generate lookup insert bytes_eq
watch_unchecked_example = watch_unchecked access tokens 5 (ascii "bob") (ascii "f00d") [] refl refl
