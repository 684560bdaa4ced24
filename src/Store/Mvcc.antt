-- ===== src/Store/Mvcc.antt =====
-- What the contents of Pebble mean: the records of the log, the newest record of a key, and the
-- entry of the index that points to it. Contents are what a lookup finds, so that a batch that is
-- not committed yet has contents as well. The entries are single writes and compactions.
pub mod Keys
pub mod Search
pub mod Compaction
pub mod Deletions
pub mod Writes
pub mod Past
pub mod Stored
pub mod Loop
pub mod Refinement
pub mod Visits
pub mod Backwards
pub mod GetAt
pub mod Lowered
pub mod Listing
pub mod Replayed
pub mod Events
pub mod Watch
use t.Prelude.{
  ℕ, ◌+◌, ◌-◌, ◌≤◌, ◌<◌, ◌^◌, ◌≡◌, ◌≢◌, ◌⊎◌, Bool, true, false, Option, none, some, List, [], ◌∷◌,
  Bytes, bytes_eq, ◌==◌, if◌then◌else◌,
}
use t.Prelude.Word.{sign_bit}
use t.Wal.{Entry, op_create, op_update, op_delete, op_compact}
use t.Store.Keys.{log_key, idx_key, encode_rev}
use t.Store.Record.{Record, marshal_record, looks_valid}
use t.Store.Record.RoundTrip.{Fits}
use t.Store.KeyValue.{KeyValue, record_to_kv}
use t.Store.Apply.{record_of}

abbrev pub Contents : Type 0
Contents = Bytes → Option Bytes

-- A record that is read back as it was written
pub record IsReadable (r : Record) : Type 0 where
  pub fits : Fits r
  pub valid : looks_valid r.version r.create_revision r.prev_revision r.delete ≡ true

-- The log holds the record at the revision.
pub record Holds (g : Contents) (rev : ℕ) (r : Record) : Type 0 where
  pub at : g (log_key rev) ≡ some (marshal_record r)
  pub readable : IsReadable r

-- No record of the key between the two revisions, the first not included
unfoldable pub NoneWithin : Contents → Bytes → ℕ → ℕ → Type 0
NoneWithin g key rev top =
    (rev' : ℕ) (r : Record) → rev < rev' → rev' ≤ top → Holds g rev' r → r.key ≢ key

-- The entry of the log under a key of Pebble, at a revision that is not above `cur`
pub record IsLogEntry (cur : ℕ) (k v : Bytes) : Type 0 where
  pub rev : ℕ
  pub r : Record
  pub key : k ≡ log_key rev
  pub value : v ≡ marshal_record r
  pub readable : IsReadable r
  pub positive : 0 < rev
  pub bounded : rev ≤ cur

-- All that is kept below 'l' is an entry of the log.
unfoldable pub IsLog : ℕ → Contents → Type 0
IsLog cur g = (k v : Bytes) → g (108 ∷ k) ≡ some v → IsLogEntry cur (108 ∷ k) v

abbrev pub max_rev : ℕ
max_rev = sign_bit - 1

-- The index points to the newest record of a live key. `old` are the contents before a batch, `g`
-- those with what the batch has so far.
pub record IsLive (old g : Contents) (cur : ℕ) (key : Bytes) (kv : KeyValue) : Type 0 where
  pub rev : ℕ
  pub r : Record
  pub index : g (idx_key key) ≡ some (encode_rev rev)
  pub holds : Holds g rev r
  pub key_eq : r.key ≡ key
  pub positive : 0 < rev
  pub bounded : rev ≤ cur
  pub newest : NoneWithin g key rev max_rev
  pub newest_old : NoneWithin old key rev max_rev
  pub kv_eq : kv ≡ record_to_kv key rev r

unfoldable pub IsCurrent : Contents → Contents → ℕ → Bytes → Option KeyValue → Type 0
IsCurrent old g cur key none = g (idx_key key) ≡ none
IsCurrent old g cur key (some kv) = IsLive old g cur key kv

-- The map from the live keys to their values, which forgets the log
abbrev pub Current : Type 0
Current = Bytes → Option KeyValue

-- The contents stand for the map: they hold a log, and an index of it.
pub record Represents (old g : Contents) (cur : ℕ) (m : Current) : Type 0 where
  pub log : IsLog cur g
  pub log_old : IsLog cur old
  pub current : (key : Bytes) → IsCurrent old g cur key (m key)
  -- a batch has changed no record that was there but by deleting it
  pub kept : (k v : Bytes) → old (108 ∷ k) ≡ some v → (g (108 ∷ k) ≡ some v) ⊎ (g (108 ∷ k) ≡ none)

-- What an entry does to the map
unfoldable pub spec_one : Entry → Current → Current
unfolding record_of record_to_kv
spec_one e m key =
    if e.op == op_compact
    then m key
    else if bytes_eq e.key key
    then if e.op == op_delete then none else some (record_to_kv key e.revision (record_of e))
    else m key

unfoldable pub spec : List Entry → Current → Current
unfolding spec_one
spec [] m = m
spec (e ∷ es) m = spec es (spec_one e m)

-- An entry that may follow the revision `cur`
pub data IsNext (cur : ℕ) (e : Entry) : Type 0 where
  compaction : e.op ≡ op_compact → e.prev_revision < sign_bit → IsNext cur e
  write :
      (e.op ≡ op_create) ⊎ (e.op ≡ op_update) ⊎ (e.op ≡ op_delete)
      → cur < e.revision
      → e.revision < sign_bit
      → IsReadable (record_of e)
      → IsNext cur e

abbrev pub revision_after : ℕ → Entry → ℕ
revision_after cur e = if e.op == op_compact then cur else e.revision

unfoldable pub AreNext : ℕ → List Entry → Type 0
AreNext cur [] = Unit
AreNext cur (e ∷ es) = IsNext cur e × AreNext (revision_after cur e) es

unfoldable pub revision_after_all : ℕ → List Entry → ℕ
revision_after_all cur [] = cur
revision_after_all cur (e ∷ es) = revision_after_all (revision_after cur e) es
