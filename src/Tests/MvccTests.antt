-- ===== src/Tests/MvccTests.antt =====
-- Runs of the store over a Pebble in memory.
use mathlib.Core.List.{Memᴰ}
use t.Prelude.{
  take, ℕ, ◌≤◌, ◌<◌, ◌^◌, ◌≡◌, refl, inl, inr, true, Bool, ◌&&◌, ltb, leb, not, has_prefix,
  AreBytes, length, bytes_eq, bytes_lt, Option, none, some, List, [], ◌∷◌, Bytes, ascii, arith,
}
use t.Prelude.Dict.{lookup, remove}
use t.Result.{ok, err}
use t.Wal.{Entry, sequence, Op, op_create, op_update, op_delete, op_compact}
use t.Store.Record.{looks_valid, Record, unmarshal_record, marshal_record, read_body, entry_version}
use t.Store.Keys.{log_key, idx_key, encode_rev, decode_log_key}
use t.Prelude.BigEndian.{put_be, from_be, from_be_acc}
use t.Store.KeyValue.{KeyValue, record_to_kv}
use t.Store.Apply.{
  Store, compacted, apply, record_of, apply_loop, apply_one, apply_compact, delete_superseded,
  has_later_revision_at_or_before, any_of_key, apply_entry, commit_batch,
}
use t.Store.Read.{get, get_at, get_at_revision, resolve_read_revision, newest_of_key, backwards}
use t.Store.Mvcc.{
  Current, IsReadable, compaction, write, AreNext, spec, revision_after_all, IsLog, IsCurrent,
  NoneWithin,
}
use t.Store.Mvcc.Past.{History, Remembers, spec_past, low_after_all}
use t.Store.Mvcc.Stored.{IsStored}
use t.Store.Mvcc.Refinement.{apply-IsStored, get-apply}
use t.Store.Scan.{list_current, count_current}
use t.Store.Mvcc.Lowered.{resolve_read_revision-lowered}
use t.Store.Recover.{recover}
use t.Store.Mvcc.Replayed.{recover-apply}
use t.Store.Mvcc.Listing.{list_current_iff, list_current-take}
use t.Store.Mvcc.GetAt.{get_at-apply}
use t.Tests.MemPebble.{mem_pebble, mem_pebble-Lawful}

abbrev pub empty_store : Store mem_pebble
empty_store = record { db = ([], tt); current_rev = 0; compact_rev = 0; last_seq = 0 }

abbrev pub no_keys : Current
no_keys key = none

abbrev pub no_history : History
no_history top = no_keys

nothing_stored : {A : Type 0} → {v : Bytes} → Path (Option Bytes) none (some v) → A
nothing_stored e = absurd (cc e)

lt_of : {a b : ℕ} → ltb a b ≡ true → a < b
lt_of h = ground (arith, h)

le_of : {a b : ℕ} → leb a b ≡ true → a ≤ b
le_of h = ground (arith, h)

pub empty_store-IsStored : IsStored mem_pebble empty_store no_keys 0 no_history
unfolding IsLog IsCurrent NoneWithin Remembers lookup
empty_store-IsStored = record {
  represents = record {
    log = λ k v e. nothing_stored e;
    log_old = λ k v e. nothing_stored e;
    current = λ key. refl;
    kept = λ k v e. nothing_stored e;
  };
  remembers = λ key top from to.
      inl (
        (λ rev r above le h. nothing_stored h.at),
        (λ rev r above le h. nothing_stored h.at),
        refl,
      );
  fits = omega arith;
  compacted = omega arith;
  low_fits = omega arith;
}

abbrev pub entry_at : ℕ → Op → Bytes → Bytes → ℕ → ℕ → ℕ → Entry
entry_at rev op key value created prev version = record {
  id = rev;
  revision = rev;
  term = 1;
  op = op;
  key = key;
  value = value;
  lease = 0;
  create_revision = created;
  prev_revision = prev;
  version = version;
}

abbrev entries : List Entry
entries =
    entry_at 1 op_create (ascii "a") (ascii "x") 1 0 1
    ∷ entry_at 2 op_create (ascii "b") (ascii "y") 2 0 1
    ∷ entry_at 3 op_update (ascii "a") (ascii "z") 1 1 2
    ∷ entry_at 4 op_compact [] [] 0 2 0
    ∷ entry_at 4 op_delete (ascii "b") [] 2 2 1
    ∷ []

abbrev pub is_readable : Record → Bool
is_readable r =
    ltb r.create_revision (2 ^ 64)
    && (ltb r.prev_revision (2 ^ 64)
        && (ltb r.version (2 ^ 64)
            && (ltb r.lease (2 ^ 64)
                && (ltb (length r.key) (2 ^ 32)
                    && looks_valid r.version r.create_revision r.prev_revision r.delete))))

pub is_readable→IsReadable : (r : Record) → is_readable r ≡ true → IsReadable r
is_readable→IsReadable r h = record {
  fits = record {
    create_fits = ground (arith, h);
    prev_fits = ground (arith, h);
    version_fits = ground (arith, h);
    lease_fits = ground (arith, h);
    key_fits = ground (arith, h);
  };
  valid = ground (arith, h);
}

entries-AreNext : AreNext 0 entries
unfolding AreNext record_of looks_valid
entries-AreNext = (
  write (inl refl) (omega arith) (omega arith) (is_readable→IsReadable _ refl),
  (
    write (inl refl) (omega arith) (omega arith) (is_readable→IsReadable _ refl),
    (
      write (inr (inl refl)) (omega arith) (omega arith) (is_readable→IsReadable _ refl),
      (
        compaction refl (omega arith),
        (write (inr (inr refl)) (omega arith) (omega arith) (is_readable→IsReadable _ refl), tt),
      ),
    ),
  ),
)

apply-IsStored_example :
    ((apply mem_pebble empty_store entries).1 ≡ none)
    × IsStored mem_pebble
        (apply mem_pebble empty_store entries).0
        (spec entries no_keys)
        (low_after_all 0 entries)
        (spec_past entries no_history)
    × ((apply mem_pebble empty_store entries).0.current_rev ≡ revision_after_all 0 entries)
apply-IsStored_example =
    apply-IsStored mem_pebble mem_pebble-Lawful empty_store no_keys 0 no_history entries
      empty_store-IsStored entries-AreNext

get-apply_example :
    ((apply mem_pebble empty_store entries).1 ≡ none)
    × (get mem_pebble (apply mem_pebble empty_store entries).0 (ascii "a")
        ≡ ok (spec entries no_keys (ascii "a")))
get-apply_example =
    get-apply mem_pebble mem_pebble-Lawful empty_store no_keys 0 no_history entries (ascii "a")
      empty_store-IsStored entries-AreNext

get_at-apply_example :
    ((apply mem_pebble empty_store entries).1 ≡ none)
    × (get_at mem_pebble (apply mem_pebble empty_store entries).0 (ascii "a") 2
        ≡ ok (spec_past entries no_history 2 (ascii "a")))
unfolding low_after_all revision_after_all
get_at-apply_example =
    get_at-apply mem_pebble mem_pebble-Lawful empty_store no_keys 0 no_history entries (ascii "a") 2
      empty_store-IsStored entries-AreNext (omega arith) (omega arith) (omega arith)

abbrev value_of : Option KeyValue → Bytes
value_of none = []
value_of (some kv) = kv.value

-- At revision 2 the key has its first value.
past_value : value_of (spec_past entries no_history 2 (ascii "a")) ≡ ascii "x"
unfolding spec_past bytes_eq
past_value = refl

-- A store that was compacted at 3
abbrev pub three_writes : List Entry
three_writes =
    entry_at 1 op_create (ascii "a") (ascii "x") 1 0 1
    ∷ entry_at 2 op_create (ascii "b") (ascii "y") 2 0 1
    ∷ entry_at 3 op_update (ascii "a") (ascii "z") 1 1 2
    ∷ []

pub three_writes-AreNext : AreNext 0 three_writes
unfolding AreNext record_of looks_valid
three_writes-AreNext = (
  write (inl refl) (omega arith) (omega arith) (is_readable→IsReadable _ refl),
  (
    write (inl refl) (omega arith) (omega arith) (is_readable→IsReadable _ refl),
    (write (inr (inl refl)) (omega arith) (omega arith) (is_readable→IsReadable _ refl), tt),
  ),
)

abbrev at_three : List Entry
at_three = entry_at 4 op_compact [] [] 0 3 0 ∷ []

abbrev pub written_store : Store mem_pebble
written_store = (apply mem_pebble empty_store three_writes).0

abbrev pub compacted_store : Store mem_pebble
compacted_store = (apply mem_pebble written_store at_three).0

abbrev compacted_map : Current
compacted_map = spec at_three (spec three_writes no_keys)

abbrev compacted_low : ℕ
compacted_low = low_after_all (low_after_all 0 three_writes) at_three

abbrev compacted_maps : History
compacted_maps = spec_past at_three (spec_past three_writes no_history)

compacted_store-IsStored :
    IsStored mem_pebble compacted_store compacted_map compacted_low compacted_maps
unfolding AreNext
compacted_store-IsStored =
    let written =
      apply-IsStored mem_pebble mem_pebble-Lawful empty_store no_keys 0 no_history three_writes
        empty_store-IsStored three_writes-AreNext in
    (apply-IsStored mem_pebble mem_pebble-Lawful written_store (spec three_writes no_keys)
      (low_after_all 0 three_writes) (spec_past three_writes no_history) at_three written.1 next).1
  where
    next : AreNext written_store.current_rev at_three
    next = (compaction refl (omega arith), tt)

abbrev back_to_one : Entry
back_to_one = entry_at 5 op_compact [] [] 0 1 0

resolve_read_revision-lowered_example :
    (resolve_read_revision mem_pebble compacted_store 2 ≡ err compacted)
    × (resolve_read_revision mem_pebble (apply mem_pebble compacted_store (back_to_one ∷ [])).0 2
        ≡ ok 2)
unfolding apply apply_loop apply_one apply_compact delete_superseded has_later_revision_at_or_before
    any_of_key apply_entry record_of commit_batch sequence get_at get_at_revision
    resolve_read_revision newest_of_key backwards unmarshal_record marshal_record read_body
    looks_valid put_be from_be from_be_acc log_key idx_key encode_rev decode_log_key lookup remove
    bytes_eq bytes_lt entry_version record_to_kv
resolve_read_revision-lowered_example =
    resolve_read_revision-lowered mem_pebble mem_pebble-Lawful compacted_store compacted_map
      compacted_low compacted_maps back_to_one 2 compacted_store-IsStored refl (omega arith)
      (omega arith) (lt_of refl) (le_of refl)

-- The record of the key at revision 1 is gone then.
lost_read :
    get_at mem_pebble (apply mem_pebble compacted_store (back_to_one ∷ [])).0 (ascii "a") 2
    ≡ ok none
unfolding apply apply_loop apply_one apply_compact delete_superseded has_later_revision_at_or_before
    any_of_key apply_entry record_of commit_batch sequence get_at get_at_revision
    resolve_read_revision newest_of_key backwards unmarshal_record marshal_record read_body
    looks_valid put_be from_be from_be_acc log_key idx_key encode_rev decode_log_key lookup remove
    bytes_eq bytes_lt entry_version record_to_kv
lost_read = refl

list_current_iff_example :
    (out : List KeyValue) × (list_current mem_pebble compacted_store.db (ascii "a") [] 0 ≡ ok out)
    × (length out ≡ count_current mem_pebble compacted_store.db (ascii "a") [])
    × ((kv : KeyValue)
        → Memᴰ kv out
        → (key : Bytes) × (compacted_map key ≡ some kv)
          × (AreBytes key → (has_prefix key (ascii "a") && not (bytes_lt key [])) ≡ true))
    × ((key : Bytes) (kv : KeyValue)
        → AreBytes key
        → compacted_map key ≡ some kv
        → (has_prefix key (ascii "a") && not (bytes_lt key [])) ≡ true
        → Memᴰ kv out)
list_current_iff_example =
    list_current_iff mem_pebble mem_pebble-Lawful compacted_store compacted_map compacted_low
      compacted_maps compacted_store-IsStored (ascii "a") [] (omega arith, tt)

list_current-take_example :
    (out : List KeyValue) × (list_current mem_pebble compacted_store.db [] [] 0 ≡ ok out)
    × (list_current mem_pebble compacted_store.db [] [] 1 ≡ ok (take 1 out))
list_current-take_example =
    list_current-take mem_pebble mem_pebble-Lawful compacted_store compacted_map compacted_low
      compacted_maps compacted_store-IsStored [] [] 1 (omega arith) (omega arith)

recover-apply_example :
    recover mem_pebble empty_store entries ≡ apply mem_pebble empty_store entries
recover-apply_example =
    recover-apply mem_pebble empty_store no_keys 0 no_history entries empty_store-IsStored
      entries-AreNext
