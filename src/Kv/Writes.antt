-- ===== src/Kv/Writes.antt =====
-- Put and DeleteRange of etcd/kv.go. What they call of the node besides the reads of a lease is a
-- parameter.
pub mod Chunks
use t.Prelude.{
  ℕ, zero, suc, ◌+◌, ◌-◌, Bool, true, false, not, Option, none, some, List, [], ◌∷◌, ◌++◌, map,
  Bytes, bytes_eq, ◌==◌, if◌then◌else◌,
}
use t.Prelude.Word.{lt64}
use t.Result.{Result, ok, err, ◌>>=◌}
use t.Store.KeyValue.{KeyValue}
use t.Node.{NodeError}
use t.Checkpoint.{contains}
use t.Lease.{LeaseNode, LeaseJson, LeaseError, validate_user_key, get_lease}
use t.Kv.{
  KvError, ReadError, ProtoKv, to_etcd_revision, kv_to_proto, kv_error, match_range,
  range_scan_prefix,
}

-- A transaction of deletes answers its revision and the keys that it has deleted; a delete
-- answers zero for a key that is not there.
pub record WriteNode : Type 1 where
  pub leases : LeaseNode
  pub current_revision : leases.State → ℕ
  pub put : leases.State → Bytes → Bytes → ℕ → leases.State × Result ReadError ℕ
  pub delete : leases.State → Bytes → leases.State × Result ReadError ℕ
  pub delete_all : leases.State → List Bytes → leases.State × Result ReadError (ℕ × List Bytes)

pub data WriteError : Type 0 where
  refused : LeaseError → WriteError
  get_failed : NodeError → WriteError
  write_failed : KvError → WriteError

pub record PutRequest : Type 0 where
  pub key : Bytes
  pub value : Bytes
  pub lease : ℕ
  pub prev_kv : Bool

pub record PutResponse : Type 0 where
  pub revision : ℕ
  pub prev_kv : Option ProtoKv

pub record DeleteRequest : Type 0 where
  pub key : Bytes
  pub range_end : Bytes
  pub prev_kv : Bool

pub record DeleteResponse : Type 0 where
  pub revision : ℕ
  pub prev_kvs : List ProtoKv
  pub deleted : ℕ

abbrev pub max_txn_ops : ℕ
max_txn_ops = 65535

abbrev pub or_refused : {A : Type 0} → Result LeaseError A → Result WriteError A
or_refused (ok a) = ok a
or_refused (err e) = err (refused e)

abbrev pub or_get_failed : {A : Type 0} → Result NodeError A → Result WriteError A
or_get_failed (ok a) = ok a
or_get_failed (err e) = err (get_failed e)

unfoldable pub or_write_failed : {A : Type 0} → Result ReadError A → Result WriteError A
unfolding kv_error
or_write_failed (ok a) = ok a
or_write_failed (err e) = err (write_failed (kv_error e))

unfoldable pub maybe_proto : Option KeyValue → Option ProtoKv
unfolding kv_to_proto
maybe_proto none = none
maybe_proto (some kv) = some (kv_to_proto kv)

-- A first element put on the first of the lists
abbrev pub on_first {ℓ} : {A : Type ℓ} → A → List (List A) → List (List A)
on_first x [] = (x ∷ []) ∷ []
on_first x (c ∷ cs) = (x ∷ c) ∷ cs

-- The chunks of a list; the first one takes `left` elements, each other one more than `size`.
unfoldable pub chunks {ℓ} : {A : Type ℓ} → ℕ → ℕ → List A → List (List A)
chunks size left [] = [] ∷ []
chunks size zero (x ∷ xs) = [] ∷ on_first x (chunks size size xs)
chunks size (suc left) (x ∷ xs) = on_first x (chunks size left xs)

unfoldable pub matching : Bytes → Bytes → List KeyValue → List KeyValue
unfolding match_range
matching key range_end [] = []
matching key range_end (kv ∷ all) =
    let rest = matching key range_end all in
    if match_range kv key range_end then kv ∷ rest else rest

-- The values of a chunk that the transaction has deleted
unfoldable pub tally : Bool → List Bytes → List KeyValue → DeleteResponse → DeleteResponse
unfolding contains kv_to_proto
tally prev_kv deleted_keys [] resp = resp
tally prev_kv deleted_keys (kv ∷ chunk) resp = tally prev_kv deleted_keys chunk (
    if contains kv.key deleted_keys
    then record resp {
      prev_kvs = if prev_kv then resp.prev_kvs ++ kv_to_proto kv ∷ [] else resp.prev_kvs;
      deleted = resp.deleted + 1;
    }
    else resp)

module _ (n : WriteNode) (json : LeaseJson) where
  abbrev State : Type 0
  State = n.leases.State

  unfoldable pub lease_exists : State → ℕ → ℕ → Result WriteError (Unit {0})
  unfolding get_lease
  lease_exists s lease now =
      if lease == 0
      then ok tt
      else (or_refused (get_lease n.leases json s lease true now) >>= λ rec. ok tt)

  unfoldable pub previous : State → Bool → Bytes → Result WriteError (Option KeyValue)
  previous s prev_kv key = if prev_kv then or_get_failed (n.leases.get false s key) else ok none

  unfoldable pub put : State → PutRequest → ℕ → State × Result WriteError PutResponse
  unfolding validate_user_key lease_exists previous or_write_failed maybe_proto
  put s r now =
      let checked = or_refused (validate_user_key r.key) >>= λ _.
      lease_exists s r.lease now >>= λ _. previous s r.prev_kv r.key in
      elim checked [
        | err e ↦ (s, err e)
        | ok prev ↦
            let (s', written) = n.put s r.key r.value r.lease in
            (
              s',
              or_write_failed written >>= λ rev.
                  ok record { revision = to_etcd_revision rev; prev_kv = maybe_proto prev },
            )
      ]

  -- A revision of zero: the key was not there, and the header has the current revision.
  unfoldable pub delete_answer : State → Option KeyValue → ℕ → DeleteResponse
  unfolding kv_to_proto
  delete_answer s prev rev = record {
    revision = to_etcd_revision (if lt64 0 rev then rev else n.current_revision s);
    prev_kvs = elim prev [ none ↦ [] | some kv ↦ kv_to_proto kv ∷ [] ];
    deleted = if lt64 0 rev then 1 else 0;
  }

  unfoldable pub delete_one : State → DeleteRequest → State × Result WriteError DeleteResponse
  unfolding validate_user_key previous or_write_failed delete_answer
  delete_one s r =
      let checked = or_refused (validate_user_key r.key) >>= λ _. previous s r.prev_kv r.key in
      elim checked [
        | err e ↦ (s, err e)
        | ok prev ↦
            let (s', deleted) = n.delete s r.key in
            (s', or_write_failed deleted >>= λ rev. ok (delete_answer s' prev rev))
      ]

  -- A transaction for each chunk; an error leaves those before it committed.
  unfoldable pub delete_chunks :
      Bool
      → List (List KeyValue)
      → ℕ
      → DeleteResponse
      → State
      → State × Result WriteError DeleteResponse
  unfolding or_write_failed tally
  delete_chunks prev_kv [] last_rev resp s = (
    s,
    ok (if lt64 0 last_rev then record resp { revision = to_etcd_revision last_rev } else resp),
  )
  delete_chunks prev_kv (chunk ∷ cs) last_rev resp s =
      let (s', answer) = n.delete_all s (map (λ kv. kv.key) chunk) in
      elim (or_write_failed answer) [
        | err e ↦ (s', err e)
        | ok (rev, deleted_keys) ↦
            delete_chunks prev_kv cs rev (tally prev_kv deleted_keys chunk resp) s'
      ]

  unfoldable pub delete_matched :
      Bool → List KeyValue → DeleteResponse → State → State × Result WriteError DeleteResponse
  unfolding chunks delete_chunks
  delete_matched prev_kv [] resp s = (s, ok resp)
  delete_matched prev_kv (kv ∷ matched) resp s =
      delete_chunks prev_kv (chunks (max_txn_ops - 1) max_txn_ops (kv ∷ matched)) 0 resp s

  unfoldable pub delete_range : State → DeleteRequest → State × Result WriteError DeleteResponse
  unfolding delete_one range_scan_prefix matching delete_matched bytes_eq
  delete_range s r =
      if bytes_eq r.range_end []
      then delete_one s r
      else elim (n.leases.list false s (range_scan_prefix r.key r.range_end)) [
        | err e ↦ (s, err (get_failed e))
        | ok all ↦
            delete_matched r.prev_kv (matching r.key r.range_end all)
              record {
                revision = to_etcd_revision (n.current_revision s);
                prev_kvs = [];
                deleted = 0;
              }
              s
      ]
