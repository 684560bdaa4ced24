-- ===== src/Checkpoint/Restore.antt =====
-- Restore, RestoreBranch and RestoreVersioned of internal/checkpoint/checkpoint.go. The directory
-- that is filled is a map from names to contents; errors of the file system are left out.
use t.Prelude.{
  ℕ, ◌-◌, Bool, true, false, not, ◌&&◌, Option, none, some, List, [], ◌∷◌, ◌++◌, Bytes, ascii,
  bytes_eq, ◌==◌, ltb, length, take, map, if◌then◌else◌,
}
use t.Prelude.Dict.{Dict, lookup, insert}
use t.Result.{Result, ok, err, ◌>>=◌}
use t.Checkpoint.{
  ObjectStore, Json, CheckpointIndex, CheckpointError, bad_index_key, missing_pin, decode_failed,
  has_suffix, read_checkpoint_index,
}

-- filepath.Base
unfoldable pub trim_slashes : Bytes → Bytes
trim_slashes [] = []
trim_slashes (c ∷ s) =
    let rest = trim_slashes s in if c == 47 && bytes_eq rest [] then [] else c ∷ rest

unfoldable pub after_slash : Bytes → Bytes → Bytes
after_slash part [] = part
after_slash part (c ∷ s) = after_slash (if c == 47 then [] else part ++ c ∷ []) s

unfoldable pub base : Bytes → Bytes
unfolding trim_slashes after_slash
base s =
    if bytes_eq s []
    then ascii "."
    else if bytes_eq (trim_slashes s) []
    then ascii "/"
    else after_slash [] (trim_slashes s)

-- strings.TrimSuffix(key, "manifest.json")
unfoldable pub meta_prefix : Bytes → Bytes
unfolding has_suffix
meta_prefix key = if has_suffix key (ascii "manifest.json") then take (length key - 13) key else key

-- How a key is read
abbrev pub Reader : Type 0
Reader = Bytes → Result CheckpointError Bytes

-- The downloads of a list of keys, each under a name
unfoldable pub download_files :
    Reader → List (Bytes × Bytes) → Dict Bytes → Result CheckpointError (Dict Bytes)
unfolding insert
download_files read [] dir = ok dir
download_files read ((key, name) ∷ keys) dir =
    read key >>= λ content. download_files read keys (insert name content dir)

abbrev pub by_base : List Bytes → List (Bytes × Bytes)
by_base keys = map (λ k. (k, base k)) keys

abbrev pub by_prefix : Bytes → List Bytes → List (Bytes × Bytes)
by_prefix prefix names = map (λ n. (prefix ++ n, n)) names

-- The term, the revision and the directory
abbrev pub Restored : Type 0
Restored = Result CheckpointError (ℕ × ℕ × Dict Bytes)

module _ (o : ObjectStore) (json : Json) where
  -- A branch reads inherited files from its ancestor.
  abbrev ancestor_or : o.State → Option o.State → o.State
  ancestor_or s none = s
  ancestor_or s (some a) = a

  unfoldable pub restore_from_index : o.State → Option o.State → Bytes → Restored
  unfolding read_checkpoint_index download_files base meta_prefix
  restore_from_index s ancestor index_key =
      if not (has_suffix index_key (ascii "manifest.json"))
      then err bad_index_key
      else read_checkpoint_index o json s index_key >>= λ idx.
          download_files (o.get s) (by_base idx.sst_files) [] >>= λ dir.
          download_files (o.get (ancestor_or s ancestor)) (by_base idx.ancestor_sst_files) dir
          >>= λ dir.
              download_files (o.get s) (by_prefix (meta_prefix index_key) idx.pebble_meta) dir
              >>= λ dir. ok (idx.term, idx.revision, dir)

  unfoldable pub restore : o.State → Bytes → Restored
  unfolding restore_from_index
  restore s key = restore_from_index s none key

  unfoldable pub restore_branch : o.State → o.State → Bytes → Restored
  unfolding restore_from_index
  restore_branch s ancestor key = restore_from_index s (some ancestor) key

  -- `get_versioned` is GetVersioned of the store.
  module _ (get_versioned : o.State → Bytes → Bytes → Result CheckpointError Bytes) where
    unfoldable pub read_versioned_or_live : o.State → Dict Bytes → Reader
    unfolding lookup
    read_versioned_or_live s versions key = elim (lookup key versions) [
      | none ↦ o.get s key
      | some v ↦ if bytes_eq v [] then o.get s key else get_versioned s key v
    ]

    unfoldable pub all_pinned : Dict Bytes → List (Bytes × Bytes) → Bool
    unfolding lookup
    all_pinned versions [] = true
    all_pinned versions ((key, name) ∷ keys) =
        let rest = all_pinned versions keys in
        elim (lookup key versions) [ none ↦ false | some v ↦ rest ]

    abbrev decoded : Option CheckpointIndex → Result CheckpointError CheckpointIndex
    decoded none = err decode_failed
    decoded (some idx) = ok idx

    -- With versions, each key of the index must have one before anything is downloaded.
    unfoldable pub restore_versioned : o.State → Bytes → Bytes → Dict Bytes → Restored
    unfolding read_versioned_or_live all_pinned download_files base meta_prefix
    restore_versioned s key version versions =
        if not (has_suffix key (ascii "manifest.json"))
        then err bad_index_key
        else (get_versioned s key version >>= λ b. decoded (json.decode_index b)) >>= λ idx.
            (let keys = by_base idx.sst_files ++ by_prefix (meta_prefix key) idx.pebble_meta in
              if ltb 0 (length versions) && not (all_pinned versions keys)
              then err missing_pin
              else download_files (read_versioned_or_live s versions) keys [] >>= λ dir.
                  ok (idx.term, idx.revision, dir))
