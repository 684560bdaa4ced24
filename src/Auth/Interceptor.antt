-- ===== src/Auth/Interceptor.antt =====
-- etcd/auth/interceptor.go: which requests reach a handler. Of a request the model has what the
-- interceptor reads, and the ends of its ranges, which it does not. `md` is the values of the
-- metadata key "token", none without metadata.
pub mod Names
pub mod Needs
pub mod Guards
use t.Prelude.{
  ℕ, Bool, true, false, not, Option, none, some, List, [], ◌∷◌, ◌++◌, ◌||◌, Bytes, ascii, bytes_eq,
  has_prefix, if◌then◌else◌,
}
use t.Result.{Result, ok, err}
use t.Auth.{PermType, read, write, contains}
use t.Auth.Tokens.{TokenStore, lookup_token}
use t.Auth.Store.{Store, Failure}
use t.Auth.Store.Check.{is_auth_prefix, check_permission}

-- A key and the end of its range
pub record KeyRange : Type 0 where
  pub key : Bytes
  pub range_end : Bytes

-- `RequestOp`, and a list of them; a pointer may be nil, and `no_op` is an operation that is not
-- set, or a nested transaction that is nil.
mutual
  pub data RequestOp : Type 0 where
    range_op delete_range_op : Option KeyRange → RequestOp
    put_op : Option Bytes → RequestOp
    txn_op : (compare : List Bytes) (success failure : Ops) → RequestOp
    no_op : RequestOp

  pub data Ops : Type 0 where
    no_ops : Ops
    op_then : RequestOp → Ops → Ops

pub data Request : Type 0 where
  range_request delete_range_request : KeyRange → Request
  put_request : Bytes → Request
  txn_request : (compare : List Bytes) (success failure : Ops) → Request
  watch_request : Option Bytes → Request
  other_request : Request

pub data Refusal : Type 0 where
  missing_metadata missing_token invalid_token internal_namespace : Refusal
  key_denied : Bytes → Refusal

abbrev pub range_method : Bytes
range_method = ascii "/etcdserverpb.KV/Range"

abbrev pub put_method : Bytes
put_method = ascii "/etcdserverpb.KV/Put"

abbrev pub delete_range_method : Bytes
delete_range_method = ascii "/etcdserverpb.KV/DeleteRange"

abbrev pub txn_method : Bytes
txn_method = ascii "/etcdserverpb.KV/Txn"

abbrev pub watch_method : Bytes
watch_method = ascii "/etcdserverpb.Watch/Watch"

abbrev pub auth_disable_method : Bytes
auth_disable_method = ascii "/etcdserverpb.Auth/AuthDisable"

-- `methodPerm`
unfoldable pub method_perm : Bytes → Option PermType
method_perm m =
    if bytes_eq m range_method
    then some read
    else if bytes_eq m put_method || bytes_eq m delete_range_method || bytes_eq m txn_method
    then some write
    else if bytes_eq m watch_method
    then some read
    else none

-- `openMethods`
unfoldable pub open_method : Bytes → Bool
open_method m =
    bytes_eq m (ascii "/etcdserverpb.Auth/Authenticate")
    || bytes_eq m (ascii "/etcdserverpb.Auth/AuthEnable")
    || bytes_eq m auth_disable_method
    || bytes_eq m (ascii "/etcdserverpb.Auth/AuthStatus")
    || bytes_eq m (ascii "/grpc.health.v1.Health/Check")
    || bytes_eq m (ascii "/grpc.health.v1.Health/Watch")

-- opKeys: a nested transaction is passed over.
unfoldable pub op_keys : RequestOp → List Bytes
op_keys (range_op (some r)) = r.key ∷ []
op_keys (delete_range_op (some r)) = r.key ∷ []
op_keys (put_op (some key)) = key ∷ []
op_keys _ = []

-- `add`
unfoldable pub add_key : List Bytes → Bytes → List Bytes
add_key keys k = if contains keys k then keys else keys ++ k ∷ []

unfoldable pub add_keys : List Bytes → List Bytes → List Bytes
unfolding add_key
add_keys keys [] = keys
add_keys keys (k ∷ ks) = add_keys (add_key keys k) ks

unfoldable pub add_ops : List Bytes → Ops → List Bytes
unfolding op_keys add_keys
add_ops keys no_ops = keys
add_ops keys (op_then op ops) = add_ops (add_keys keys (op_keys op)) ops

unfoldable pub txn_keys : List Bytes → Ops → Ops → List Bytes
unfolding add_ops
txn_keys compare success failure = add_ops (add_ops (add_keys [] compare) success) failure

-- extractKeys: nothing for a request that is not of its method's type.
unfoldable pub extract_keys : Bytes → Option Request → List Bytes
unfolding txn_keys
extract_keys m none = []
extract_keys m (some (range_request r)) = if bytes_eq m range_method then r.key ∷ [] else []
extract_keys m (some (put_request key)) = if bytes_eq m put_method then key ∷ [] else []
extract_keys m (some (delete_range_request r)) =
    if bytes_eq m delete_range_method then r.key ∷ [] else []
extract_keys m (some (txn_request compare success failure)) =
    if bytes_eq m txn_method then txn_keys compare success failure else []
extract_keys m (some (watch_request (some key))) = if bytes_eq m watch_method then key ∷ [] else []
extract_keys m (some (watch_request none)) = []
extract_keys m (some other_request) = []

-- The loop of checkAuthKeyAccess
unfoldable pub refuse_internal : List Bytes → Option Refusal
unfolding is_auth_prefix
refuse_internal [] = none
refuse_internal (k ∷ ks) =
    let rest = refuse_internal ks in if is_auth_prefix k then some internal_namespace else rest

-- checkAuthKeyAccess
unfoldable pub check_auth_key_access : Bytes → Option Request → Option Refusal
unfolding extract_keys refuse_internal
check_auth_key_access m none = none
check_auth_key_access m (some req) =
    if not (has_prefix m (ascii "/etcdserverpb.KV/"))
    then none
    else refuse_internal (extract_keys m (some req))

abbrev valid_user : Option Bytes → Result Refusal Bytes
valid_user none = err invalid_token
valid_user (some username) = ok username

unfoldable pub token_from_ctx : TokenStore → ℕ → Option (List Bytes) → Result Refusal Bytes
unfolding lookup_token
token_from_ctx tokens now none = err missing_metadata
token_from_ctx tokens now (some []) = err missing_token
token_from_ctx tokens now (some (tok ∷ toks)) = valid_user (lookup_token tokens now tok)

-- The result of CheckPermission, as the loop uses it
abbrev pub deny : Bytes → Failure → Option Refusal → Option Refusal
deny key none rest = rest
deny key (some e) rest = some (key_denied key)

module _ {S : Type 0} (s : Store S) where
  unfoldable pub check_keys : Bytes → PermType → List Bytes → Option Refusal
  unfolding check_permission
  check_keys username pt [] = none
  check_keys username pt (key ∷ keys) =
      let rest = check_keys username pt keys in deny key (check_permission s username key pt) rest

  abbrev pub check_method : Bytes → List Bytes → Option PermType → Option Refusal
  check_method username keys none = none
  check_method username keys (some pt) = check_keys username pt keys

  -- What follows the check of the namespace
  abbrev pub check_user : Bytes → Bytes → Option Request → Option Refusal → Option Refusal
  check_user username m req (some e) = some e
  check_user username m req none = check_method username (extract_keys m req) (method_perm m)

  abbrev pub check_token : Bytes → Option Request → Result Refusal Bytes → Option Refusal
  check_token m req (err e) = some e
  check_token m req (ok username) = check_user username m req (check_auth_key_access m req)

  -- checkAuth
  unfoldable pub check_auth :
      TokenStore → ℕ → Option (List Bytes) → Bytes → Option Request → Option Refusal
  unfolding open_method token_from_ctx check_auth_key_access method_perm check_keys
  check_auth tokens now md m req =
      if open_method m
      then none
      else if not s.enabled
      then check_auth_key_access m req
      else check_token m req (token_from_ctx tokens now md)

  -- What the interceptor of a stream checks: it has no request yet.
  unfoldable pub check_stream : TokenStore → ℕ → Option (List Bytes) → Bytes → Option Refusal
  unfolding check_auth
  check_stream tokens now md m = check_auth tokens now md m none
