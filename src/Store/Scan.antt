-- ===== src/Store/Scan.antt =====
-- internal/store/store.go: the scan of the log for the events of a watch, and the reads of many
-- keys. `sort_strings` is sort.Strings; a Go map is an association list, whose order the sort
-- forgets.
use t.Prelude.{
  ℕ, suc, ◌+◌, Bool, true, false, not, ◌&&◌, Option, none, some, List, [], ◌∷◌, ◌++◌, Bytes,
  bytes_eq, bytes_lt, has_prefix, ◌==◌, length, drop, if◌then◌else◌,
}
use t.Prelude.Dict.{Dict, lookup, insert, remove}
use t.Prelude.Word.{add64, lt64, le64}
use t.Result.{Result, ok, err, ◌>>=◌}
use t.Store.Keys.{log_key, idx_bounds, decode_rev, decode_log_key}
use t.Store.Record.{Record}
use t.Store.KeyValue.{KeyValue, record_to_kv}
use t.Store.Pebble.{Pebble}
use t.Store.Apply.{
  Store, StoreError, empty_history_key, bad_from_revision, bad_to_revision, decode_record,
}
use t.Store.Read.{get_log_entry, resolve_read_revision}

pub data EventType : Type 0 where
  event_put event_delete : EventType

pub record Event : Type 0 where
  pub event_type : EventType
  pub kv : KeyValue
  pub prev_kv : Option KeyValue

-- An entry that was compacted is no error here.
abbrev or_none : Result StoreError (Option KeyValue) → Option KeyValue
or_none (ok kv) = kv
or_none (err e) = none

-- The conditions of the loop of listCurrent and ListRange: a limit that is reached
abbrev pub reached : ℕ → ℕ → Bool
reached limit n = lt64 0 limit && le64 limit n

-- The value of a live key; the lookup cannot answer nil.
abbrev with_found : Option KeyValue → List KeyValue → List KeyValue
with_found none kvs = kvs
with_found (some kv) kvs = kv ∷ kvs

abbrev note_event : Dict KeyValue → Event → Dict KeyValue
note_event latest ev = elim ev.event_type [
  | event_delete ↦ remove ev.kv.key latest
  | event_put ↦ insert ev.kv.key ev.kv latest
]

-- The loop over the events
unfoldable pub latest_of : Dict KeyValue → List Event → Dict KeyValue
unfolding insert remove
latest_of latest [] = latest
latest_of latest (ev ∷ evs) = latest_of (note_event latest ev) evs

abbrev keys_of : Dict KeyValue → List Bytes
keys_of [] = []
keys_of ((k, v) ∷ m) = k ∷ keys_of m

-- The loop over the sorted keys, after `n` of them are in the result
unfoldable pub select_keys : Bytes → ℕ → Dict KeyValue → ℕ → List Bytes → List KeyValue
unfolding lookup
select_keys from_key limit latest n [] = []
select_keys from_key limit latest n (key ∷ keys) =
    let skip = select_keys from_key limit latest n keys in
    let next = select_keys from_key limit latest (suc n) keys in
    if not (bytes_eq from_key []) && bytes_lt key from_key
    then skip
    else if reached limit n
    then []
    else with_found (lookup key latest) next

unfoldable pub events_of_key : Bytes → List Event → List Event
events_of_key key [] = []
events_of_key key (ev ∷ evs) =
    let rest = events_of_key key evs in if bytes_eq ev.kv.key key then ev ∷ rest else rest

-- ReadOptions
pub record ReadOptions : Type 0 where
  pub revision : ℕ
  pub from_key : Bytes
  pub limit : ℕ

module _ (p : Pebble) where
  unfoldable pub event_of : p.Db → Bool → ℕ → Record → Event
  unfolding record_to_kv get_log_entry
  event_of db with_prev_kv rev r = record {
    event_type = if r.delete then event_delete else event_put;
    kv = record_to_kv r.key rev r;
    prev_kv =
        if with_prev_kv && lt64 0 r.prev_revision
        then or_none (get_log_entry p db r.key r.prev_revision)
        else none;
  }

  -- The loop of scanLog; the number of the records that were scanned is for the metrics alone.
  unfoldable pub scan_records :
      p.Db → Bytes → Bool → List (Bytes × Bytes) → Result StoreError (List Event)
  unfolding event_of decode_log_key
  scan_records db prefix with_prev_kv [] = ok []
  scan_records db prefix with_prev_kv ((k, v) ∷ kvs) =
      let rest = scan_records db prefix with_prev_kv kvs in
      decode_record v >>= λ r. rest >>= λ evs.
      ok (
        if has_prefix r.key prefix
        then event_of db with_prev_kv (decode_log_key k) r ∷ evs
        else evs)

  unfoldable pub scan_log : p.Db → Bytes → ℕ → ℕ → Bool → Result StoreError (List Event)
  unfolding scan_records
  scan_log db prefix from_rev to_rev with_prev_kv =
      scan_records db prefix with_prev_kv (p.iter db (log_key from_rev, log_key (to_rev + 1)))

  -- watchLoop: the stores are what it finds at the wake-ups, the next revision is awaited until the
  -- current one has reached it. An error ends it.
  unfoldable pub watch_loop : Bytes → Bool → ℕ → List (Store p) → List Event
  unfolding scan_log
  watch_loop prefix with_prev_kv next_rev [] = []
  watch_loop prefix with_prev_kv next_rev (s ∷ ss) =
      let waiting = watch_loop prefix with_prev_kv next_rev ss in
      let rest = watch_loop prefix with_prev_kv (add64 s.current_rev 1) ss in
      if lt64 s.current_rev next_rev
      then waiting
      else elim (scan_log s.db prefix next_rev s.current_rev with_prev_kv) [
        | err e ↦ []
        | ok evs ↦ evs ++ rest
      ]

  unfoldable pub watch : Bytes → ℕ → Bool → List (Store p) → List Event
  unfolding watch_loop
  watch prefix start_rev with_prev_kv ss = watch_loop prefix with_prev_kv (add64 start_rev 1) ss

  -- The loop of listCurrent, after `n` keys are in the result
  unfoldable pub list_live : p.Db → ℕ → ℕ → List (Bytes × Bytes) → Result StoreError (List KeyValue)
  unfolding get_log_entry decode_rev
  list_live db limit n [] = ok []
  list_live db limit n ((k, v) ∷ kvs) =
      let rest = list_live db limit (suc n) kvs in
      if reached limit n
      then ok []
      else get_log_entry p db (drop 1 k) (decode_rev v) >>= λ kv.
          rest >>= λ out. ok (with_found kv out)

  unfoldable pub list_current : p.Db → Bytes → Bytes → ℕ → Result StoreError (List KeyValue)
  unfolding list_live idx_bounds
  list_current db prefix from_key limit =
      list_live db limit 0 (p.iter db (idx_bounds prefix from_key))

  unfoldable pub count_current : p.Db → Bytes → Bytes → ℕ
  unfolding idx_bounds
  count_current db prefix from_key = length (p.iter db (idx_bounds prefix from_key))

  unfoldable pub history : Store p → Bytes → Result StoreError (List Event)
  unfolding scan_log events_of_key
  history s key =
      if bytes_eq key []
      then err empty_history_key
      else scan_log s.db [] 1 s.current_rev true >>= λ evs. ok (events_of_key key evs)

  unfoldable pub changes : Store p → Bytes → ℕ → ℕ → Result StoreError (List Event)
  unfolding scan_log
  changes s prefix from_rev to_rev =
      if le64 from_rev 0
      then err bad_from_revision
      else if lt64 to_rev from_rev
      then err bad_to_revision
      else if s.current_rev == 0
      then ok []
      else if lt64 s.current_rev from_rev
      then ok []
      else scan_log s.db prefix from_rev
          (if lt64 s.current_rev to_rev then s.current_rev else to_rev) true

  module _ (sort_strings : List Bytes → List Bytes) where
    unfoldable pub list_range : Store p → Bytes → ReadOptions → Result StoreError (List KeyValue)
    unfolding resolve_read_revision list_current scan_log latest_of select_keys
    list_range s prefix opts = resolve_read_revision p s opts.revision >>= λ target_rev.
        if opts.revision == 0
        then list_current s.db prefix opts.from_key opts.limit
        else scan_log s.db prefix 1 target_rev false >>= λ evs.
            (let latest = latest_of [] evs in
              ok (select_keys opts.from_key opts.limit latest 0 (sort_strings (keys_of latest))))

    unfoldable pub list_limit : Store p → Bytes → ℕ → Result StoreError (List KeyValue)
    unfolding list_range
    list_limit s prefix limit =
        list_range s prefix (record { revision = 0; from_key = []; limit = limit })

    unfoldable pub list : Store p → Bytes → Result StoreError (List KeyValue)
    unfolding list_limit
    list s prefix = list_limit s prefix 0

    unfoldable pub count_range : Store p → Bytes → ReadOptions → Result StoreError ℕ
    unfolding count_current list_range
    count_range s prefix opts =
        if opts.revision == 0
        then ok (count_current s.db prefix opts.from_key)
        else list_range s prefix (record opts { limit = 0 }) >>= λ kvs. ok (length kvs)

    unfoldable pub count : Store p → Bytes → Result StoreError ℕ
    unfolding count_range
    count s prefix = count_range s prefix (record { revision = 0; from_key = []; limit = 0 })
