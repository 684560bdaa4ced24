-- ===== src/Node/Txn/Conditions.antt =====
-- node.go and writes.go: the conditions of a transaction.
use t.Prelude.{ℕ, Bool, false, Option, none, some, [], Bytes, not, ◌==◌, bytes_eq, if◌then◌else◌}
use t.Prelude.Word.{lt64}
use t.Store.KeyValue.{KeyValue}
use t.Node.{kv_version}

-- TxnCondMod, TxnCondVersion, TxnCondCreate, TxnCondValue, TxnCondLease
abbrev pub cond_mod : ℕ
cond_mod = 0

abbrev pub cond_version : ℕ
cond_version = 1

abbrev pub cond_create : ℕ
cond_create = 2

abbrev pub cond_value : ℕ
cond_value = 3

abbrev pub cond_lease : ℕ
cond_lease = 4

-- TxnCondEqual, TxnCondNotEqual, TxnCondGreater, TxnCondLess
abbrev pub cond_equal : ℕ
cond_equal = 0

abbrev pub cond_not_equal : ℕ
cond_not_equal = 1

abbrev pub cond_greater : ℕ
cond_greater = 2

abbrev pub cond_less : ℕ
cond_less = 3

pub record TxnCondition : Type 0 where
  pub key : Bytes
  pub target : ℕ
  pub result : ℕ
  pub mod_revision : ℕ
  pub create_revision : ℕ
  pub version : ℕ
  pub value : Bytes
  pub lease : ℕ

-- A field of the value that is there, or the zero value.
abbrev pub field_or : (KeyValue → ℕ) → Option KeyValue → ℕ
field_or f none = 0
field_or f (some kv) = f kv

abbrev pub value_or : Option KeyValue → Bytes
value_or none = []
value_or (some kv) = kv.value

abbrev pub compare_ints : ℕ → ℕ → ℕ → Bool
compare_ints result lhs rhs =
    if result == cond_equal
    then lhs == rhs
    else if result == cond_not_equal
    then not (lhs == rhs)
    else if result == cond_greater
    then lt64 rhs lhs
    else if result == cond_less
    then lt64 lhs rhs
    else false

-- An order of values is not supported.
abbrev pub compare_values : ℕ → Bytes → Bytes → Bool
compare_values result lhs rhs =
    if result == cond_equal
    then bytes_eq lhs rhs
    else if result == cond_not_equal
    then not (bytes_eq lhs rhs)
    else false

unfoldable pub txn_cond_matches : TxnCondition → Option KeyValue → Bool
unfolding kv_version
txn_cond_matches cond existing =
    if cond.target == cond_mod
    then compare_ints cond.result (field_or (λ kv. kv.revision) existing) cond.mod_revision
    else if cond.target == cond_version
    then compare_ints cond.result (kv_version existing) cond.version
    else if cond.target == cond_create
    then compare_ints cond.result (field_or (λ kv. kv.create_revision) existing)
        cond.create_revision
    else if cond.target == cond_lease
    then compare_ints cond.result (field_or (λ kv. kv.lease) existing) cond.lease
    else if cond.target == cond_value
    then compare_values cond.result (value_or existing) cond.value
    else false
