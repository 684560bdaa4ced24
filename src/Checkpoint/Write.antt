-- ===== src/Checkpoint/Write.antt =====
-- Write and WriteWithRegistry of internal/checkpoint/checkpoint.go. `files` are the names and the
-- contents of what Pebble has put into the directory of a checkpoint, in the order of
-- filepath.Walk, and `sha_hex` gives the first 16 hexadecimal digits of SHA-256; errors of the file
-- system are left out. A store and its ancestor are states of the same kind of store.
pub mod ReadBack
pub mod Latest
use t.Prelude.{
  ℕ, ◌≡◌, Bool, true, false, not, ◌&&◌, Option, none, some, List, [], ◌∷◌, ◌++◌, Bytes, ascii, ◌==◌,
  length, if◌then◌else◌,
}
use t.Prelude.Dict.{Dict, lookup}
use t.Fmt.{pad_ten, pad_twenty}
use t.Result.{Result, ok, err, ◌>>=◌}
use t.Checkpoint.{
  ObjectStore, Json, Manifest, CheckpointIndex, CheckpointError, list_failed, contains, add_all,
  has_suffix, checkpoint_format_version, checkpoint_key, checkpoint_index_key, put_object,
  read_manifest, write_manifest, read_checkpoint_index,
}

-- What the walk has found
pub record Walked : Type 0 where
  pub sst_files : List Bytes
  pub ancestor_sst_files : List Bytes
  pub meta_files : List Bytes

abbrev pub nothing_walked : Walked
nothing_walked = record { sst_files = []; ancestor_sst_files = []; meta_files = [] }

abbrev pub with_sst : Bytes → Walked → Walked
with_sst key w = record w { sst_files = w.sst_files ++ key ∷ [] }

abbrev pub with_ancestor : Bytes → Walked → Walked
with_ancestor key w = record w { ancestor_sst_files = w.ancestor_sst_files ++ key ∷ [] }

abbrev pub with_meta : Bytes → Walked → Walked
with_meta name w = record w { meta_files = w.meta_files ++ name ∷ [] }

abbrev pub is_sst : Bytes → Bool
is_sst name = has_suffix name (ascii ".sst")

unfoldable pub meta_key : ℕ → ℕ → Bytes → Bytes
unfolding checkpoint_key
meta_key term revision name = checkpoint_key term revision ++ (ascii "/" ++ name)

module _ (o : ObjectStore) (json : Json) (sha_hex : Bytes → Bytes) where
  unfoldable pub content_sst_key : Bytes → Bytes → Bytes
  content_sst_key name content = ascii "sst/" ++ (sha_hex content ++ (ascii "/" ++ name))

  unfoldable pub list_sst_set : o.State → Result CheckpointError (List Bytes)
  unfolding add_all
  list_sst_set s = elim (o.list s (ascii "sst/")) [
    | none ↦ err list_failed
    | some keys ↦ ok (add_all keys [])
  ]

  -- The two sets of the previous index; an error counts as none.
  abbrev index_sets : Result CheckpointError CheckpointIndex → List Bytes × List Bytes
  index_sets (err e) = ([], [])
  index_sets (ok idx) = (add_all idx.sst_files [], add_all idx.ancestor_sst_files [])

  abbrev manifest_sets :
      o.State → Result CheckpointError (Option Manifest) → List Bytes × List Bytes
  manifest_sets s (err e) = ([], [])
  manifest_sets s (ok none) = ([], [])
  manifest_sets s (ok (some m)) = index_sets (read_checkpoint_index o json s m.checkpoint_key)

  abbrev ancestor_listed :
      List Bytes → List Bytes → Option o.State → Result CheckpointError (List Bytes × List Bytes)
  ancestor_listed known (k ∷ ks) a = ok (known, k ∷ ks)
  ancestor_listed known [] none = ok (known, [])
  ancestor_listed known [] (some a) = list_sst_set a >>= λ ks. ok (known, ks)

  unfoldable pub known_sst_sets :
      o.State → Option o.State → Result CheckpointError (List Bytes × List Bytes)
  unfolding read_manifest read_checkpoint_index list_sst_set
  known_sst_sets s ancestor =
      let (known, inherited) = manifest_sets s (read_manifest o json s) in
      ancestor_listed known inherited ancestor

  -- A file that is not an SST is put under its name beside the index.
  abbrev pub put_meta :
      ℕ → ℕ → Bytes → Bytes → o.State → Walked → o.State × Walked × Option CheckpointError
  put_meta term revision name content s w =
      let (s', failed) = put_object o json s (meta_key term revision name) content in
      (s', with_meta name w, failed)

  abbrev pub put_sst : Bytes → Bytes → o.State → Walked → o.State × Walked × Option CheckpointError
  put_sst key content s w =
      let (s', failed) = put_object o json s key content in (s', with_sst key w, failed)

  -- A file of the walk in Write
  unfoldable pub write_file :
      ℕ
      → ℕ
      → List Bytes
      → List Bytes
      → Bytes
      → Bytes
      → o.State
      → Walked
      → o.State × Walked × Option CheckpointError
  unfolding content_sst_key contains meta_key
  write_file term revision known inherited name content s w =
      let key = content_sst_key name content in
      if not (is_sst name)
      then put_meta term revision name content s w
      else if contains key known
      then (s, with_sst key w, none)
      else if contains key inherited
      then (s, with_ancestor key w, none)
      else put_sst key content s w

  -- A file of the walk in WriteWithRegistry
  unfoldable pub register_file :
      ℕ
      → ℕ
      → Dict Bytes
      → Dict Bytes
      → Bytes
      → Bytes
      → o.State
      → Walked
      → o.State × Walked × Option CheckpointError
  unfolding content_sst_key lookup meta_key
  register_file term revision known inherited name content s w =
      if not (is_sst name)
      then put_meta term revision name content s w
      else elim (lookup name inherited) [
        | some key ↦ (s, with_ancestor key w, none)
        | none ↦ elim (lookup name known) [
          | some key ↦ (s, with_sst key w, none)
          | none ↦ put_sst (content_sst_key name content) content s w
        ]
      ]

  -- filepath.Walk stops at the first error.
  unfoldable pub walk :
      (Bytes → Bytes → o.State → Walked → o.State × Walked × Option CheckpointError)
      → List (Bytes × Bytes)
      → o.State
      → Walked
      → o.State × Walked × Option CheckpointError
  walk visit [] s w = (s, w, none)
  walk visit ((name, content) ∷ files) s w =
      let (s', w', failed) = visit name content s w in
      elim failed [ none ↦ walk visit files s' w' | some e ↦ (s', w', some e) ]

  abbrev pub index_for : ℕ → ℕ → ℕ → Walked → CheckpointIndex
  index_for term revision sequence w = record {
    format_version = checkpoint_format_version;
    term = term;
    revision = revision;
    last_sequence = sequence;
    sst_files = w.sst_files;
    ancestor_sst_files = w.ancestor_sst_files;
    pebble_meta = w.meta_files;
  }

  abbrev pub manifest_for : ℕ → ℕ → ℕ → Bytes → Manifest
  manifest_for term revision sequence last_wal_key = record {
    format_version = checkpoint_format_version;
    checkpoint_key = checkpoint_index_key term revision;
    revision = revision;
    last_sequence = sequence;
    term = term;
    last_wal_key = last_wal_key;
  }

  unfoldable pub write_index :
      ℕ → ℕ → ℕ → Bytes → Walked → o.State → o.State × Option CheckpointError
  unfolding write_manifest checkpoint_index_key
  write_index term revision sequence last_wal_key w s =
      let (s', failed) =
        put_object o json s (checkpoint_index_key term revision)
          (json.marshal_index (index_for term revision sequence w)) in
      elim failed [
        | none ↦ write_manifest o json s' (manifest_for term revision sequence last_wal_key)
        | some e ↦ (s', some e)
      ]

  abbrev pub indexed :
      ℕ
      → ℕ
      → ℕ
      → Bytes
      → o.State × Walked × Option CheckpointError
      → o.State × Option CheckpointError
  indexed term revision sequence last_wal_key (s, w, none) =
      write_index term revision sequence last_wal_key w s
  indexed term revision sequence last_wal_key (s, w, some e) = (s, some e)

  unfoldable pub write_at_sequence :
      ℕ
      → ℕ
      → ℕ
      → Bytes
      → Option o.State
      → List (Bytes × Bytes)
      → o.State
      → o.State × Option CheckpointError
  unfolding known_sst_sets write_file walk write_index
  write_at_sequence term revision sequence last_wal_key ancestor files s =
      elim (known_sst_sets s ancestor) [
        | err e ↦ (s, some e)
        | ok (known, inherited) ↦
            indexed term revision sequence last_wal_key
              (walk (write_file term revision known inherited) files s nothing_walked)
      ]

  unfoldable pub write :
      ℕ
      → ℕ
      → Bytes
      → Option o.State
      → List (Bytes × Bytes)
      → o.State
      → o.State × Option CheckpointError
  unfolding write_at_sequence
  write term revision last_wal_key ancestor files s =
      write_at_sequence term revision revision last_wal_key ancestor files s

  unfoldable pub write_with_registry_at_sequence :
      ℕ
      → ℕ
      → ℕ
      → Bytes
      → Dict Bytes
      → Dict Bytes
      → List (Bytes × Bytes)
      → o.State
      → o.State × Option CheckpointError
  unfolding register_file walk write_index
  write_with_registry_at_sequence term revision sequence last_wal_key known inherited files s =
      indexed term revision sequence last_wal_key
        (walk (register_file term revision known inherited) files s nothing_walked)

  unfoldable pub write_with_registry :
      ℕ
      → ℕ
      → Bytes
      → Dict Bytes
      → Dict Bytes
      → List (Bytes × Bytes)
      → o.State
      → o.State × Option CheckpointError
  unfolding write_with_registry_at_sequence
  write_with_registry term revision last_wal_key known inherited files s =
      write_with_registry_at_sequence term revision revision last_wal_key known inherited files s
