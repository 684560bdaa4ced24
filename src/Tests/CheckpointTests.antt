-- ===== src/Tests/CheckpointTests.antt =====
-- Runs of the collection of checkpoints over a store in memory. The text of an index is the names
-- of its files, one byte each; that of a manifest and of a branch is the key.
use mathlib.Core.List.{Memᴰ}
use t.Prelude.{
  ℕ, ◌≡◌, refl, true, false, Option, none, some, List, [], ◌∷◌, ◌++◌, Bytes, String, ascii, map,
  bytes_eq, has_prefix, if◌then◌else◌, arith, inl,
}
use t.Prelude.Dict.{Dict, lookup, insert, remove, lookup-remove}
use t.Result.{Result, ok, err}
use t.Checkpoint.{
  ObjectStore, Json, Manifest, CheckpointIndex, CheckpointError, not_found, contains, add_key,
  add_all, has_suffix, read_manifest, read_checkpoint_index, RemovesMany, checkpoint_index_key,
  checkpoint_key,
}
use t.Checkpoint.Branch.{branch_key, register_branch, read_branch_entries, read_entries}
use t.Checkpoint.Gc.{
  gc_inputs, gc_checkpoints, gc_orphan_ssts, gc_loop, live_ssts, harvest, delete_checkpoint, dir_of,
  manifests_in, pinned_keys, list_remote, collect, is_manifest_key,
}
use t.Checkpoint.Gc.Orphans.{gc_orphan_ssts-kept, oldest_file-removed}
use t.Fmt.{digits, pad_ten, pad_twenty}

abbrev remove_all : List Bytes → Dict Bytes → Dict Bytes
remove_all [] m = m
remove_all (k ∷ ks) m = remove_all ks (remove k m)

abbrev keys_under : Bytes → Dict Bytes → List Bytes
keys_under prefix [] = []
keys_under prefix ((k, b) ∷ m) =
    let rest = keys_under prefix m in if has_prefix k prefix then k ∷ rest else rest

abbrev found : Option Bytes → Result CheckpointError Bytes
found none = err not_found
found (some b) = ok b

abbrev pub mem_store : ObjectStore
mem_store = record {
  State = Dict Bytes;
  get = λ m k. found (lookup k m);
  put = λ m k b. (insert k b m, true);
  delete_many = λ m ks. (remove_all ks m, true);
  list = λ m prefix. some (keys_under prefix m);
}

lookup-remove_all :
    (k : Bytes) (ks : List Bytes) (m : Dict Bytes)
    → lookup k (remove_all ks m) ≡ (if contains k ks then none else lookup k m)
unfolding contains
lookup-remove_all k [] m = refl
lookup-remove_all k (j ∷ ks) m =
    rw (lookup-remove_all k ks (remove j m), lookup-remove j k m) (ground arith)

mem_store-RemovesMany : RemovesMany mem_store
mem_store-RemovesMany = record {
  removed = λ m ks k there done. rw (lookup-remove_all k ks m, there) refl;
  left = λ m ks k absent. rw (lookup-remove_all k ks m, absent) refl;
}

abbrev zero_index : CheckpointIndex
zero_index = record {
  format_version = 1;
  term = 0;
  revision = 0;
  last_sequence = 1;
  sst_files = [];
  ancestor_sst_files = [];
  pebble_meta = [];
}

abbrev zero_manifest : Manifest
zero_manifest = record {
  format_version = 1;
  checkpoint_key = [];
  revision = 0;
  last_sequence = 1;
  term = 0;
  last_wal_key = [];
}

abbrev join_names : List Bytes → Bytes
join_names [] = []
join_names (f ∷ fs) = f ++ join_names fs

abbrev json : Json
json = record {
  marshal_manifest = λ m. m.checkpoint_key;
  decode_manifest = λ b. some (record zero_manifest { checkpoint_key = b });
  marshal_index = λ idx. join_names idx.sst_files;
  decode_index = λ b. some (record zero_index { sst_files = map (λ (c : ℕ). c ∷ []) b });
  marshal_branch = λ e. e.ancestor_checkpoint_key;
  decode_branch = λ b. some (record { ancestor_checkpoint_key = b });
}

-- The keys come sorted here.
abbrev sort_strings : List Bytes → List Bytes
sort_strings ks = ks

abbrev index_key : String → Bytes
index_key name = ascii "checkpoint/" ++ (ascii name ++ ascii "/manifest.json")

-- The manifest names the second of four checkpoints, which shares the file "x" with the first.
abbrev four : Dict Bytes
four =
    (ascii "manifest/latest", index_key "2")
    ∷ (index_key "1", ascii "xy")
    ∷ (index_key "2", ascii "x")
    ∷ (index_key "3", ascii "z")
    ∷ (index_key "4", ascii "yz")
    ∷ (ascii "x", ascii "X")
    ∷ (ascii "y", ascii "Y")
    ∷ (ascii "z", ascii "Z")
    ∷ []

abbrev index_keys : List Bytes
index_keys = index_key "1" ∷ index_key "2" ∷ index_key "3" ∷ index_key "4" ∷ []

abbrev latest : Manifest
latest = record zero_manifest { checkpoint_key = index_key "2" }

four_inputs : gc_inputs mem_store json sort_strings four ≡ ok (some latest, [], index_keys)
unfolding gc_inputs read_manifest read_branch_entries read_entries pinned_keys list_remote
    manifests_in has_suffix lookup bytes_eq has_prefix
four_inputs = refl

abbrev index_of : List Bytes → CheckpointIndex
index_of files = record zero_index { sst_files = files }

fourth_index :
    read_checkpoint_index mem_store json four (index_key "4")
    ≡ ok (index_of (ascii "y" ∷ ascii "z" ∷ []))
unfolding read_checkpoint_index lookup bytes_eq
fourth_index = refl

first_index :
    read_checkpoint_index mem_store json four (index_key "1")
    ≡ ok (index_of (ascii "x" ∷ ascii "y" ∷ []))
unfolding read_checkpoint_index lookup bytes_eq
first_index = refl

gc_orphan_ssts-kept_example :
    mem_store.get
      (gc_orphan_ssts mem_store json sort_strings
        (gc_checkpoints mem_store json sort_strings four 2).0
        (gc_checkpoints mem_store json sort_strings four 2).1.orphans).0
      (ascii "y")
    ≡ mem_store.get (gc_checkpoints mem_store json sort_strings four 2).0 (ascii "y")
gc_orphan_ssts-kept_example =
    gc_orphan_ssts-kept mem_store json sort_strings four 2 (some latest) [] index_keys
      (index_key "4") (ascii "y") (index_of (ascii "y" ∷ ascii "z" ∷ [])) mem_store-RemovesMany
      four_inputs (inl (Memᴰ.tail (Memᴰ.head refl))) fourth_index (Memᴰ.head refl)

not_latest : is_manifest_key (some latest) (index_key "1") ≡ false
unfolding bytes_eq
not_latest = refl

not_live :
    contains (ascii "x") (
      live_ssts mem_store json sort_strings four []
        (live_ssts mem_store json sort_strings four (index_key "3" ∷ index_key "4" ∷ []) []))
    ≡ false
unfolding live_ssts read_checkpoint_index add_all add_key contains lookup bytes_eq
not_live = refl

not_pinned : contains (index_key "1") [] ≡ false
unfolding contains
not_pinned = refl

oldest_file-removed_example :
    (contains (ascii "x") (gc_checkpoints mem_store json sort_strings four 2).1.orphans ≡ true)
    × (mem_store.get
          (gc_orphan_ssts mem_store json sort_strings
            (gc_checkpoints mem_store json sort_strings four 2).0
            (gc_checkpoints mem_store json sort_strings four 2).1.orphans).0
          (ascii "x")
        ≡ err not_found)
oldest_file-removed_example =
    oldest_file-removed mem_store json sort_strings four 2 (some latest) []
      (index_key "2" ∷ index_key "3" ∷ index_key "4" ∷ []) (index_key "1") (ascii "x")
      (index_of (ascii "x" ∷ ascii "y" ∷ [])) mem_store-RemovesMany four_inputs (omega arith)
      not_latest not_pinned first_index (Memᴰ.head refl) not_live refl

-- The checkpoint that the manifest names is there after the collection, and its file is not.
latest_broken :
    (read_checkpoint_index mem_store json (collect mem_store json sort_strings four) (index_key "2")
      ≡ ok (index_of (ascii "x" ∷ [])))
    × (mem_store.get (collect mem_store json sort_strings four) (ascii "x") ≡ err not_found)
unfolding collect gc_checkpoints gc_orphan_ssts gc_inputs gc_loop live_ssts harvest
    delete_checkpoint dir_of manifests_in pinned_keys list_remote read_manifest
    read_checkpoint_index read_branch_entries read_entries add_all add_key contains has_suffix
    lookup remove bytes_eq has_prefix
latest_broken = (refl, refl)

-- A branch that was registered pins its checkpoint.
branched :
    read_branch_entries mem_store json
      (register_branch mem_store json [] (ascii "b1") (index_key "1")).0
    ≡ ok ((ascii "b1", record { ancestor_checkpoint_key = index_key "1" }) ∷ [])
unfolding read_branch_entries read_entries register_branch branch_key insert lookup bytes_eq
    has_prefix
branched = refl

first_key :
    checkpoint_index_key 3 42 ≡ ascii "checkpoint/0000000003/00000000000000000042/manifest.json"
unfolding checkpoint_index_key checkpoint_key pad_ten pad_twenty digits
first_key = refl
