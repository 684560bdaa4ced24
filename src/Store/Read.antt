-- ===== src/Store/Read.antt =====
-- The read path of internal/store/store.go: the lookups of a key at the current and at an earlier
-- revision, and the bounds on the revisions that can be read.
use t.Prelude.{
  ℕ, ◌+◌, Bool, true, false, not, ◌&&◌, Option, none, some, List, [], ◌∷◌, ◌++◌, Bytes, bytes_eq,
  ◌==◌, if◌then◌else◌,
}
use t.Prelude.Word.{lt64}
use t.Result.{Result, ok, err, ◌>>=◌}
use t.Store.Keys.{prefix_log, log_key, log_key_with_sub, idx_key, decode_rev, decode_log_key}
use t.Store.Record.{unmarshal_record}
use t.Store.KeyValue.{KeyValue, record_to_kv}
use t.Store.Pebble.{Pebble}
use t.Store.Apply.{Store, StoreError, compacted, future_revision, not_in_txn, decode_record}

abbrev pub log_lower : Bytes
log_lower = log_key 0

abbrev pub log_upper : Bytes
log_upper = (prefix_log + 1) ∷ []

-- The scan of getLogEntry: a record that cannot be read is passed over.
unfoldable pub find_sub_op : Bytes → ℕ → List (Bytes × Bytes) → Result StoreError (Option KeyValue)
unfolding record_to_kv
find_sub_op key rev [] = err (not_in_txn key rev)
find_sub_op key rev ((k, v) ∷ kvs) =
    let rest = find_sub_op key rev kvs in
    elim (unmarshal_record v) [
      | err e ↦ rest
      | ok r ↦ if bytes_eq r.key key then ok (some (record_to_kv key rev r)) else rest
    ]

-- `iter.Last` and `iter.Prev`: the list from its end
unfoldable pub backwards {ℓ} : {A : Type ℓ} → List A → List A
backwards [] = []
backwards (x ∷ xs) = backwards xs ++ x ∷ []

-- The loop of getAtRevision, from the newest record on
unfoldable pub newest_of_key : Bytes → List (Bytes × Bytes) → Result StoreError (Option KeyValue)
unfolding record_to_kv decode_log_key
newest_of_key key [] = ok none
newest_of_key key ((k, v) ∷ kvs) =
    let rest = newest_of_key key kvs in
    decode_record v >>= λ r.
    if not (bytes_eq r.key key)
    then rest
    else if r.delete
    then ok none
    else ok (some (record_to_kv r.key (decode_log_key k) r))

abbrev decoded_rev : Option Bytes → ℕ
decoded_rev none = 0
decoded_rev (some v) = decode_rev v

abbrev is_some {ℓ} : {A : Type ℓ} → Option A → Bool
is_some none = false
is_some (some a) = true

module _ (p : Pebble) where
  -- 0 for a key that is not live
  unfoldable pub get_idx_rev : p.Db → Bytes → ℕ
  unfolding decode_rev
  get_idx_rev db key = decoded_rev (p.get db (idx_key key))

  unfoldable pub get_log_entry : p.Db → Bytes → ℕ → Result StoreError (Option KeyValue)
  unfolding find_sub_op record_to_kv
  get_log_entry db key rev = elim (p.get db (log_key rev)) [
    | some v ↦ decode_record v >>= λ r. ok (some (record_to_kv key rev r))
    | none ↦ find_sub_op key rev (p.iter db (log_key_with_sub rev 0, log_key (rev + 1)))
  ]

  unfoldable pub get : Store p → Bytes → Result StoreError (Option KeyValue)
  unfolding get_idx_rev get_log_entry
  get s key =
      let rev = get_idx_rev s.db key in if rev == 0 then ok none else get_log_entry s.db key rev

  unfoldable pub resolve_read_revision : Store p → ℕ → Result StoreError ℕ
  resolve_read_revision s revision =
      if revision == 0
      then ok s.current_rev
      else if lt64 0 s.compact_rev && lt64 revision s.compact_rev
      then err compacted
      else if lt64 s.current_rev revision
      then err future_revision
      else ok revision

  unfoldable pub get_at_revision : Store p → Bytes → ℕ → Result StoreError (Option KeyValue)
  unfolding newest_of_key backwards
  get_at_revision s key target_rev =
      newest_of_key key (backwards (p.iter s.db (log_lower, log_key (target_rev + 1))))

  unfoldable pub get_at : Store p → Bytes → ℕ → Result StoreError (Option KeyValue)
  unfolding get get_at_revision resolve_read_revision
  get_at s key revision = resolve_read_revision s revision >>= λ target_rev.
      if revision == 0 then get s key else get_at_revision s key target_rev

  unfoldable pub exists : Store p → Bytes → Result StoreError Bool
  unfolding get_idx_rev
  exists s key = ok (not (get_idx_rev s.db key == 0))

  unfoldable pub exists_at : Store p → Bytes → ℕ → Result StoreError Bool
  unfolding exists get_at
  exists_at s key revision =
      if revision == 0 then exists s key else get_at s key revision >>= λ kv. ok (is_some kv)
