-- ===== src/Checkpoint/Gc.antt =====
-- GCCheckpoints and GCOrphanSSTs of internal/checkpoint/checkpoint.go, and their call in leader.go.
-- `sort_strings` is sort.Strings.
pub mod Kept
pub mod Orphans
use t.Prelude.{
  ℕ, zero, suc, ◌+◌, ◌-◌, Bool, true, false, not, ◌&&◌, ◌||◌, Option, none, some, List, [], ◌∷◌,
  ◌++◌, Bytes, ascii, bytes_eq, ltb, leb, ◌==◌, length, take, drop, if◌then◌else◌,
}
use t.Prelude.Dict.{Dict}
use t.Prelude.Word.{lt64}
use t.Result.{Result, ok, err, ◌>>=◌}
use t.Checkpoint.{
  ObjectStore, Json, Manifest, CheckpointIndex, BranchEntry, CheckpointError, list_failed,
  delete_failed, contains, add_key, add_all, has_suffix, read_manifest, read_checkpoint_index,
}
use t.Checkpoint.Branch.{read_branch_entries}

-- The result of GCCheckpoints: how many were deleted, and the candidates for GCOrphanSSTs. It comes
-- with the error where there is one.
pub record Collected : Type 0 where
  pub deleted : ℕ
  pub orphans : List Bytes
  pub error : Option CheckpointError

abbrev pub nothing_collected : Option CheckpointError → Collected
nothing_collected e = record { deleted = 0; orphans = []; error = e }

unfoldable pub manifests_in : List Bytes → List Bytes
unfolding has_suffix
manifests_in [] = []
manifests_in (k ∷ ks) =
    let rest = manifests_in ks in if has_suffix k (ascii "/manifest.json") then k ∷ rest else rest

-- The keys that the branches pin
unfoldable pub pinned_keys : Dict BranchEntry → List Bytes
unfolding add_key
pinned_keys [] = []
pinned_keys ((id, e) ∷ entries) =
    let rest = pinned_keys entries in
    if bytes_eq e.ancestor_checkpoint_key [] then rest else add_key e.ancestor_checkpoint_key rest

-- `key[:strings.LastIndex(key, "/")+1]`
unfoldable pub dir_of : Bytes → Bytes
dir_of [] = []
dir_of (c ∷ s) =
    let rest = dir_of s in if c == 47 then c ∷ rest else elim rest [ [] ↦ [] | d ∷ ds ↦ c ∷ d ∷ ds ]

abbrev pub is_manifest_key : Option Manifest → Bytes → Bool
is_manifest_key none k = false
is_manifest_key (some m) k = bytes_eq k m.checkpoint_key

-- The files of an index that are not live become candidates.
unfoldable pub harvest : List Bytes → List Bytes → List Bytes → List Bytes
unfolding contains add_key
harvest live [] orphans = orphans
harvest live (f ∷ fs) orphans =
    harvest live fs (if contains f live then orphans else add_key f orphans)

-- The files of an index, none where it cannot be read
abbrev pub files_in : Result CheckpointError CheckpointIndex → List Bytes
files_in (err e) = []
files_in (ok idx) = idx.sst_files

module _ (o : ObjectStore) (json : Json) (sort_strings : List Bytes → List Bytes) where
  unfoldable pub list_remote : o.State → Result CheckpointError (List Bytes)
  unfolding manifests_in
  list_remote s = elim (o.list s (ascii "checkpoint/")) [
    | none ↦ err list_failed
    | some keys ↦ ok (sort_strings (manifests_in keys))
  ]

  -- An index that cannot be read is passed over.
  unfoldable pub live_ssts : o.State → List Bytes → List Bytes → List Bytes
  unfolding read_checkpoint_index add_all
  live_ssts s [] live = live
  live_ssts s (k ∷ ks) live =
      live_ssts s ks (add_all (files_in (read_checkpoint_index o json s k)) live)

  unfoldable pub delete_checkpoint : o.State → Bytes → o.State × Option CheckpointError
  unfolding dir_of
  delete_checkpoint s key = elim (o.list s (dir_of key)) [
    | none ↦ (s, some list_failed)
    | some subkeys ↦
        let (s', done) = o.delete_many s subkeys in (s', if done then none else some delete_failed)
  ]

  -- The loop over the checkpoints outside the window
  unfoldable pub gc_loop :
      Option Manifest
      → List Bytes
      → List Bytes
      → List Bytes
      → o.State
      → ℕ
      → List Bytes
      → o.State × Collected
  unfolding harvest
  gc_loop m pinned live [] s deleted orphans =
      (s, record { deleted = deleted; orphans = orphans; error = none })
  gc_loop m pinned live (k ∷ ks) s deleted orphans =
      let orphans' = harvest live (files_in (read_checkpoint_index o json s k)) orphans in
      let (s', failed) = delete_checkpoint s k in
      let kept = gc_loop m pinned live ks s deleted orphans in
      let rest = gc_loop m pinned live ks s' (deleted + 1) orphans' in
      if is_manifest_key m k then kept else if contains k pinned then kept else elim failed [
        | none ↦ rest
        | some e ↦ (s', record { deleted = deleted; orphans = orphans'; error = some e })
      ]

  -- `keep` is an int that is raised to 1.
  abbrev pub window : ℕ → ℕ
  window keep = if lt64 keep 1 then 1 else keep

  abbrev pub gc_listed :
      o.State → ℕ → Option Manifest → List Bytes → List Bytes → o.State × Collected
  gc_listed s keep m pinned keys =
      let n = length keys - keep in
      let live = live_ssts s pinned (live_ssts s (drop n keys) []) in
      if leb (length keys) keep
      then (s, nothing_collected none)
      else gc_loop m pinned live (take n keys) s 0 []

  -- The manifest, the pinned keys and the keys of the checkpoints, or the first error
  unfoldable pub gc_inputs :
      o.State → Result CheckpointError (Option Manifest × List Bytes × List Bytes)
  unfolding read_manifest read_branch_entries pinned_keys list_remote
  gc_inputs s = read_manifest o json s >>= λ m. read_branch_entries o json s >>= λ branches.
      list_remote s >>= λ keys. ok (m, pinned_keys branches, keys)

  unfoldable pub gc_checkpoints : o.State → ℕ → o.State × Collected
  unfolding gc_inputs live_ssts gc_loop
  gc_checkpoints s keep = elim (gc_inputs s) [
    | err e ↦ (s, nothing_collected (some e))
    | ok (m, pinned, keys) ↦ gc_listed s (window keep) m pinned keys
  ]

  unfoldable pub gc_orphan_ssts : o.State → List Bytes → o.State × Result CheckpointError ℕ
  gc_orphan_ssts s [] = (s, ok 0)
  gc_orphan_ssts s (k ∷ ks) =
      let (s', done) = o.delete_many s (k ∷ ks) in
      (s', if done then ok (length (k ∷ ks)) else err delete_failed)

  -- The end of checkpointAndGC in leader.go: the files go where checkpoints went.
  unfoldable pub collect : o.State → o.State
  unfolding gc_checkpoints gc_orphan_ssts
  collect s =
      let (s', c) = gc_checkpoints s 2 in
      if ltb 0 c.deleted && ltb 0 (length c.orphans) then (gc_orphan_ssts s' c.orphans).0 else s'
