-- ===== src/Checkpoint/Gc/Orphans.antt =====
-- The files that a collection removes, against the checkpoints that refer to them.
use mathlib.Core.List.{Memᴰ}
use mathlib.Core.Path.{subst}
use t.Prelude.{
  ℕ, suc, ◌+◌, ◌-◌, ◌≤◌, ◌≡◌, ◌⊎◌, refl, sym, true, false, Option, List, [], ◌∷◌, Bytes, leb,
  length, take, drop, arith, Bool-cases, Option-cases, inl, inr,
}
use t.Result.{ok, err}
use t.Checkpoint.{
  ObjectStore, Json, Manifest, CheckpointIndex, not_found, contains, read_checkpoint_index,
  RemovesMany,
}
use t.Checkpoint.Gc.{
  live_ssts, files_in, delete_checkpoint, gc_loop, gc_listed, gc_inputs, window, harvest,
  gc_checkpoints, gc_orphan_ssts, is_manifest_key,
}
use t.Checkpoint.Gc.Kept.{harvest-free, live_ssts-contains, gc_loop-live, gc_loop-orphan}

module _ (o : ObjectStore) (json : Json) (sort_strings : List Bytes → List Bytes) where
  -- The keys of the checkpoints in the window and of those that a branch pins
  abbrev pub IsKept : ℕ → List Bytes → List Bytes → Bytes → Type 0
  IsKept keep pinned keys k =
      Memᴰ k (drop (length keys - window o json sort_strings keep) keys) ⊎ Memᴰ k pinned

  gc_orphan_ssts-left :
      RemovesMany o
      → (s : o.State) (orphans : List Bytes) (f : Bytes) → contains f orphans ≡ false
      → o.get (gc_orphan_ssts o json sort_strings s orphans).0 f ≡ o.get s f
  unfolding gc_orphan_ssts
  gc_orphan_ssts-left removes s [] f free = refl
  gc_orphan_ssts-left removes s (k ∷ ks) f free = removes.left s (k ∷ ks) f free

  gc_orphan_ssts-removed :
      RemovesMany o
      → (s : o.State) (orphans : List Bytes) (f : Bytes) → contains f orphans ≡ true
      → (o.delete_many s orphans).1 ≡ true
      → o.get (gc_orphan_ssts o json sort_strings s orphans).0 f ≡ err not_found
  unfolding gc_orphan_ssts contains
  gc_orphan_ssts-removed removes s [] f there done = absurd (cc there)
  gc_orphan_ssts-removed removes s (k ∷ ks) f there done = removes.removed s (k ∷ ks) f there done

  listed-kept :
      (s : o.State) (keep : ℕ) (m : Option Manifest) (pinned keys : List Bytes) (k f : Bytes)
      → IsKept keep pinned keys k
      → Memᴰ f (files_in (read_checkpoint_index o json s k))
      → contains f
          (gc_listed o json sort_strings s
            (window o json sort_strings keep)
            m
            pinned
            keys).1.orphans
        ≡ false
  unfolding contains
  listed-kept s keep m pinned keys k f kept i =
      let w = window o json sort_strings keep in
      let newest = drop (length keys - w) keys in
      elim (Bool-cases (leb (length keys) w)) [
        | inl few ↦ rw few refl
        | inr many ↦ rw many (
            gc_loop-live o json sort_strings m pinned _ (take (length keys - w) keys) s 0 [] f
              (live_ssts-contains o json sort_strings s pinned
                (live_ssts o json sort_strings s newest []) f
                (elim kept [
                  | inl new ↦
                      inl (live_ssts-contains o json sort_strings s newest [] f (inr (k, new, i)))
                  | inr pin ↦ inr (k, pin, i)
                ]))
              refl)
      ]

  -- If the inputs of GCCheckpoints can be read, then a file of a checkpoint among the newest, as
  -- many as are to be kept, or of one that a branch pins, whose index can be read at the start, is
  -- as after GCCheckpoints when GCOrphanSSTs has removed the candidates; removals do what
  -- pkg/object promises.
  pub gc_orphan_ssts-kept :
      (s : o.State) (keep : ℕ) (m : Option Manifest) (pinned keys : List Bytes) (k f : Bytes)
      (idx : CheckpointIndex)
      → RemovesMany o
      → gc_inputs o json sort_strings s ≡ ok (m, pinned, keys)
      → IsKept keep pinned keys k
      → read_checkpoint_index o json s k ≡ ok idx
      → Memᴰ f idx.sst_files
      → o.get
          (gc_orphan_ssts o json sort_strings
            (gc_checkpoints o json sort_strings s keep).0
            (gc_checkpoints o json sort_strings s keep).1.orphans).0
          f
        ≡ o.get (gc_checkpoints o json sort_strings s keep).0 f
  unfolding gc_checkpoints
  gc_orphan_ssts-kept s keep m pinned keys k f idx removes inputs kept read i =
      rw (gc_checkpoints, inputs)
        (gc_orphan_ssts-left removes
          (gc_listed o json sort_strings s (window o json sort_strings keep) m pinned keys).0
          (gc_listed o json sort_strings s (window o json sort_strings keep) m pinned
            keys).1.orphans
          f (listed-kept s keep m pinned keys k f kept (rw read i)))

  gc_loop-first :
      (m : Option Manifest) (pinned live : List Bytes) (k : Bytes) (ks : List Bytes) (s : o.State)
      (n : ℕ) (orphans : List Bytes) (f : Bytes)
      → contains f live ≡ false
      → is_manifest_key m k ≡ false
      → contains k pinned ≡ false
      → Memᴰ f (files_in (read_checkpoint_index o json s k))
      → contains f (gc_loop o json sort_strings m pinned live (k ∷ ks) s n orphans).1.orphans ≡ true
  unfolding gc_loop
  gc_loop-first m pinned live k ks s n orphans f dead other free i =
      let files = files_in (read_checkpoint_index o json s k) in
      let there = harvest-free live files orphans f dead (inr i) in
      elim (Option-cases (delete_checkpoint o json sort_strings s k).1) [
        | inl done ↦
            rw (other, free, done)
              (gc_loop-orphan o json sort_strings m pinned live ks
                (delete_checkpoint o json sort_strings s k).0 (n + 1) (harvest live files orphans) f
                dead there)
        | inr (e, failed) ↦ rw (other, free, failed) there
      ]

  oldest-orphan :
      (s : o.State) (w : ℕ) (m : Option Manifest) (pinned keys : List Bytes) (k f : Bytes)
      → w ≤ length keys
      → is_manifest_key m k ≡ false
      → contains k pinned ≡ false
      → Memᴰ f (files_in (read_checkpoint_index o json s k))
      → contains f (
          live_ssts o json sort_strings s pinned
            (live_ssts o json sort_strings s (drop (length (k ∷ keys) - w) (k ∷ keys)) []))
        ≡ false
      → contains f (gc_listed o json sort_strings s w m pinned (k ∷ keys)).1.orphans ≡ true
  unfolding gc_loop
  oldest-orphan s w m pinned keys k f many other free i dead =
      let more : leb (length (k ∷ keys)) w ≡ false = ground (arith, many) in
      let first : length (k ∷ keys) - w ≡ suc (length keys - w) = omega (arith, many) in
      let live =
        live_ssts o json sort_strings s pinned
          (live_ssts o json sort_strings s (drop (length (k ∷ keys) - w) (k ∷ keys)) []) in
      let oldest =
        gc_loop-first m pinned live k (take (length keys - w) keys) s 0 [] f dead other free i in
      rw more (
        subst
          (λ (n : ℕ).
            contains f
              (gc_loop o json sort_strings m pinned live (take n (k ∷ keys)) s 0 []).1.orphans
            ≡ true)
          (sym first) oldest)

  -- If GCCheckpoints deletes the oldest checkpoint, that is, there are more than are to be kept and
  -- the manifest does not name it and no branch pins it: a file of its index that no checkpoint
  -- kept by its age or by a branch has becomes a candidate, and GCOrphanSSTs removes it where the
  -- store removes what it is asked to. Whether the checkpoint that the manifest names has the file
  -- makes no difference.
  pub oldest_file-removed :
      (s : o.State) (keep : ℕ) (m : Option Manifest) (pinned keys : List Bytes) (k f : Bytes)
      (idx : CheckpointIndex)
      → RemovesMany o
      → gc_inputs o json sort_strings s ≡ ok (m, pinned, k ∷ keys)
      → window o json sort_strings keep ≤ length keys
      → is_manifest_key m k ≡ false
      → contains k pinned ≡ false
      → read_checkpoint_index o json s k ≡ ok idx
      → Memᴰ f idx.sst_files
      → contains f (
          live_ssts o json sort_strings s pinned (
            live_ssts o json sort_strings s
              (drop (length (k ∷ keys) - window o json sort_strings keep) (k ∷ keys))
              []))
        ≡ false
      → (o.delete_many
          (gc_checkpoints o json sort_strings s keep).0
          (gc_checkpoints o json sort_strings s keep).1.orphans).1
        ≡ true
      → (contains f (gc_checkpoints o json sort_strings s keep).1.orphans ≡ true)
        × (o.get
              (gc_orphan_ssts o json sort_strings
                (gc_checkpoints o json sort_strings s keep).0
                (gc_checkpoints o json sort_strings s keep).1.orphans).0
              f
            ≡ err not_found)
  unfolding gc_checkpoints
  oldest_file-removed s keep m pinned keys k f idx removes inputs many other free read i dead done =
      let orphan : contains f (gc_checkpoints o json sort_strings s keep).1.orphans ≡ true =
        rw (gc_checkpoints, inputs)
          (oldest-orphan s (window o json sort_strings keep) m pinned keys k f many other free
            (rw read i) dead) in
      (orphan, gc_orphan_ssts-removed removes _ _ f orphan done)
