-- ===== src/Tests/RestoreTests.antt =====
-- Runs that write a checkpoint and restore it, over the store in memory of CheckpointTests. The text
-- of a manifest or an index is its numbers, the lengths of its strings and the strings.
use mathlib.Core.List.{Memᴰ, append_assoc}
use t.Prelude.{
  ℕ, zero, suc, ◌≡◌, refl, Option, none, some, List, [], ◌∷◌, ◌++◌, Bytes, ascii, bytes_eq,
  bytes_eq_refl, length, take, drop, take-append_self, drop-append_self, arith,
}
use t.Prelude.Dict.{lookup, insert, lookup-insert}
use t.Result.{ok}
use t.Checkpoint.{
  Json, Manifest, CheckpointIndex, PutsObjects, IsDecoded, contains, has_suffix, read_manifest,
  read_checkpoint_index, write_manifest, checkpoint_key, checkpoint_index_key,
}
use t.Checkpoint.Write.{
  Walked, write_at_sequence, write_file, walk, write_index, content_sst_key, known_sst_sets,
  meta_key,
}
use t.Checkpoint.Write.ReadBack.{IsRecorded}
use t.Checkpoint.Write.Latest.{IsLatest, write_at_sequence-IsLatest}
use t.Checkpoint.Restore.{
  restore, restore_from_index, download_files, base, after_slash, trim_slashes, meta_prefix,
}
use t.Fmt.{pad_ten, pad_twenty, digits}
use t.Tests.CheckpointTests.{mem_store}

abbrev put_list : List Bytes → Bytes
put_list [] = []
put_list (k ∷ ks) = length k ∷ (k ++ put_list ks)

abbrev take_list : ℕ → Bytes → List Bytes
take_list zero b = []
take_list (suc n) [] = []
take_list (suc n) (l ∷ b) = take l b ∷ take_list n (drop l b)

abbrev after_list : ℕ → Bytes → Bytes
after_list zero b = b
after_list (suc n) [] = []
after_list (suc n) (l ∷ b) = after_list n (drop l b)

list_read :
    (ks : List Bytes) (rest : Bytes)
    → (take_list (length ks) (put_list ks ++ rest) ≡ ks)
      × (after_list (length ks) (put_list ks ++ rest) ≡ rest)
list_read [] rest = (refl, refl)
list_read (k ∷ ks) rest =
    let (read, after) = list_read ks rest in
    let joined = append_assoc k (put_list ks) rest in
    (
      rw
          (
            joined,
            take-append_self k (put_list ks ++ rest),
            drop-append_self k (put_list ks ++ rest),
            read,
          )
          refl,
      rw (joined, drop-append_self k (put_list ks ++ rest)) after,
    )

abbrev decode_manifest : Bytes → Option Manifest
decode_manifest (version ∷ revision ∷ sequence ∷ term ∷ l ∷ b) = some (record {
  format_version = version;
  checkpoint_key = take l b;
  revision = revision;
  last_sequence = sequence;
  term = term;
  last_wal_key = drop l b;
})
decode_manifest _ = none

abbrev decode_index : Bytes → Option CheckpointIndex
decode_index (version ∷ term ∷ revision ∷ sequence ∷ ssts ∷ ancestors ∷ metas ∷ b) = some (record {
  format_version = version;
  term = term;
  revision = revision;
  last_sequence = sequence;
  sst_files = take_list ssts b;
  ancestor_sst_files = take_list ancestors (after_list ssts b);
  pebble_meta = take_list metas (after_list ancestors (after_list ssts b));
})
decode_index _ = none

abbrev marshal_index : CheckpointIndex → Bytes
marshal_index idx =
    idx.format_version
    ∷ idx.term
    ∷ idx.revision
    ∷ idx.last_sequence
    ∷ length idx.sst_files
    ∷ length idx.ancestor_sst_files
    ∷ length idx.pebble_meta
    ∷ (put_list idx.sst_files
        ++ (put_list idx.ancestor_sst_files ++ (put_list idx.pebble_meta ++ [])))

abbrev json : Json
json = record {
  marshal_manifest = λ m.
      m.format_version
      ∷ m.revision
      ∷ m.last_sequence
      ∷ m.term
      ∷ length m.checkpoint_key
      ∷ (m.checkpoint_key ++ m.last_wal_key);
  decode_manifest = decode_manifest;
  marshal_index = marshal_index;
  decode_index = decode_index;
  marshal_branch = λ e. e.ancestor_checkpoint_key;
  decode_branch = λ b. some (record { ancestor_checkpoint_key = b });
}

json-IsDecoded : IsDecoded json
json-IsDecoded = record {
  manifest = λ m.
      rw
        (
          take-append_self m.checkpoint_key m.last_wal_key,
          drop-append_self m.checkpoint_key m.last_wal_key,
        )
        refl;
  index = λ idx.
      let metas = list_read idx.pebble_meta [] in
      let ancestors = list_read idx.ancestor_sst_files (put_list idx.pebble_meta ++ []) in
      let ssts =
        list_read idx.sst_files
          (put_list idx.ancestor_sst_files ++ (put_list idx.pebble_meta ++ [])) in
      rw (ssts.0, ssts.1, ancestors.0, ancestors.1, metas.0) refl;
}

mem_store-PutsObjects : PutsObjects mem_store
mem_store-PutsObjects = record {
  written = λ m k b done. rw (lookup-insert k k b m, bytes_eq_refl k) refl;
  others = λ m k b j done differ. rw (lookup-insert k j b m, differ) refl;
}

-- A digest of one byte
abbrev sum_hex : Bytes → Bytes
sum_hex b = length b ∷ []

abbrev files : List (Bytes × Bytes)
files = (ascii "1.sst", ascii "one") ∷ (ascii "CURRENT", ascii "x") ∷ []

written : (write_at_sequence mem_store json sum_hex 1 5 7 [] none files []).1 ≡ none
unfolding write_at_sequence write_file walk write_index write_manifest known_sst_sets read_manifest
    lookup bytes_eq contains has_suffix content_sst_key meta_key
written = refl

write_at_sequence-IsLatest_example :
    (w : Walked) × IsLatest mem_store json sum_hex mem_store-PutsObjects json-IsDecoded 1 5 7 []
      (omega arith)
      (write_at_sequence mem_store json sum_hex 1 5 7 [] none files []).0
      w
    × ((name content : Bytes)
        → Memᴰ (name, content) files
        → IsRecorded mem_store json sum_hex w name content)
write_at_sequence-IsLatest_example =
    write_at_sequence-IsLatest mem_store json sum_hex mem_store-PutsObjects json-IsDecoded 1 5 7 []
      (omega arith) none files [] written

-- The restore of what was written
restored :
    restore mem_store json
      (write_at_sequence mem_store json sum_hex 1 5 7 [] none files []).0
      (checkpoint_index_key 1 5)
    ≡ ok (1, 5, files)
unfolding restore restore_from_index download_files base after_slash trim_slashes meta_prefix
    write_at_sequence write_file walk write_index write_manifest known_sst_sets read_manifest
    read_checkpoint_index lookup insert bytes_eq contains has_suffix content_sst_key meta_key
    checkpoint_index_key checkpoint_key pad_ten pad_twenty digits
restored = refl
