-- ===== src/Tests/WatchTests.antt =====
-- Runs of the scan of the log and of a watch.
use mathlib.Core.List.{Memᴰ}
use mathlib.Core.List.Memᴰ
use mathlib.Core.Path.{subst}
use t.Prelude.{
  sym, refl, ap, bytes_eq, bytes_lt, ℕ, ◌≤◌, ◌≡◌, true, List, [], ◌∷◌, ascii, has_prefix, arith,
}
use t.Result.{ok}
use t.Store.Record.{Record, looks_valid, marshal_record, entry_version}
use t.Prelude.Dict.{lookup, remove}
use t.Prelude.BigEndian.{put_be}
use t.Wal.{sequence, op_create}
use t.Store.Keys.{log_key, idx_key, encode_rev}
use t.Store.Apply.{Store, apply, apply_loop, apply_one, apply_entry, record_of, commit_batch}
use t.Store.Scan.{Event, event_of, scan_log, watch}
use t.Store.Mvcc.{Current, Holds, spec, revision_after_all}
use t.Store.Mvcc.Past.{History, spec_past, low_after_all}
use t.Store.Mvcc.Stored.{IsStored}
use t.Store.Mvcc.Refinement.{apply-IsStored}
use t.Store.Mvcc.Events.{AreRising, scan_log_iff}
use t.Store.Mvcc.Watch.{IsSound, watch_delivers}
use t.Tests.MemPebble.{mem_pebble, mem_pebble-Lawful}
use t.Tests.MvccTests.{
  empty_store, no_keys, no_history, written_store, three_writes, empty_store-IsStored,
  three_writes-AreNext, entry_at, is_readable→IsReadable,
}

abbrev written_map : Current
written_map = spec three_writes no_keys

abbrev written_maps : History
written_maps = spec_past three_writes no_history

abbrev written_low : ℕ
written_low = low_after_all 0 three_writes

written_store-IsStored : IsStored mem_pebble written_store written_map written_low written_maps
written_store-IsStored =
    (apply-IsStored mem_pebble mem_pebble-Lawful empty_store no_keys 0 no_history three_writes
      empty_store-IsStored three_writes-AreNext).1

scan_log_iff_example :
    (evs : List Event) × (scan_log mem_pebble written_store.db (ascii "a") 1 3 true ≡ ok evs)
    × AreRising evs
    × ((rev : ℕ) (r : Record)
        → 1 ≤ rev
        → rev ≤ 3
        → Holds (mem_pebble.get written_store.db) rev r
        → has_prefix r.key (ascii "a") ≡ true
        → Memᴰ (event_of mem_pebble written_store.db true rev r) evs)
    × ((ev : Event)
        → Memᴰ ev evs
        → (rev : ℕ) × (r : Record) × (1 ≤ rev)
          × (rev ≤ 3)
          × Holds (mem_pebble.get written_store.db) rev r
          × (has_prefix r.key (ascii "a") ≡ true)
          × (ev ≡ event_of mem_pebble written_store.db true rev r))
scan_log_iff_example =
    scan_log_iff mem_pebble mem_pebble-Lawful written_store written_map written_low written_maps
      (ascii "a") 1 3 true written_store-IsStored (omega arith) (omega arith)

abbrev wake_ups : List (Store mem_pebble)
wake_ups = empty_store ∷ written_store ∷ []

current_three : written_store.current_rev ≡ 3
unfolding revision_after_all
current_three =
    (apply-IsStored mem_pebble mem_pebble-Lawful empty_store no_keys 0 no_history three_writes
      empty_store-IsStored three_writes-AreNext).2

written_store-IsSound : IsSound mem_pebble written_store
written_store-IsSound =
    (omega (arith, current_three), written_map, written_low, written_maps, written_store-IsStored)

empty_store-IsSound : IsSound mem_pebble empty_store
empty_store-IsSound = (omega arith, no_keys, 0, no_history, empty_store-IsStored)

-- The first record, as the log has it
abbrev first_record : Record
first_record = record_of (entry_at 1 op_create (ascii "a") (ascii "x") 1 0 1)

written_holds : Holds (mem_pebble.get written_store.db) 1 first_record
unfolding apply apply_loop apply_one apply_entry record_of commit_batch sequence looks_valid
    marshal_record put_be log_key idx_key encode_rev lookup remove bytes_eq bytes_lt entry_version
written_holds = record { at = refl; readable = is_readable→IsReadable first_record refl }

first-Holds :
    (s : Store mem_pebble)
    → Memᴰ s wake_ups
    → 1 ≤ s.current_rev
    → Holds (mem_pebble.get s.db) 1 first_record
first-Holds s (Memᴰ.head e) le =
    absurd (omega (arith, le, ap (λ (x : Store mem_pebble). x.current_rev) e))
first-Holds s (Memᴰ.tail (Memᴰ.head e)) le =
    subst (λ (x : Store mem_pebble). Holds (mem_pebble.get x.db) 1 first_record) (sym e)
      written_holds
first-Holds s (Memᴰ.tail (Memᴰ.tail i)) le = absurd (Memᴰ.not-nil i)

watch_delivers_example :
    AreRising (watch mem_pebble (ascii "a") 0 true wake_ups)
    × ((s' : Store mem_pebble) × Memᴰ
          (event_of mem_pebble s'.db true 1 first_record)
          (watch mem_pebble (ascii "a") 0 true wake_ups))
unfolding record_of has_prefix
watch_delivers_example =
    watch_delivers mem_pebble mem_pebble-Lawful (ascii "a") true 0 wake_ups 1 first_record
      written_store (omega arith) (omega arith) (empty_store-IsSound, (written_store-IsSound, tt))
      refl (Memᴰ.tail (Memᴰ.head refl)) (omega (arith, current_three)) first-Holds
