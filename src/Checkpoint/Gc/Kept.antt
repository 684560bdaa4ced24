-- ===== src/Checkpoint/Gc/Kept.antt =====
-- The files of the checkpoints that a collection keeps.
use mathlib.Core.List.{Memᴰ}
use mathlib.Core.List.Memᴰ
use mathlib.Core.Path.{subst}
use t.Prelude.{
  ℕ, ◌+◌, ◌≡◌, ◌⊎◌, refl, sym, true, false, Option, List, [], ◌∷◌, Bytes, bytes_eq, bytes_eq_iff,
  if◌then◌else◌, arith, Bool-cases, Option-cases, inl, inr,
}
use t.Checkpoint.{ObjectStore, Json, Manifest, contains, add_key, add_all, read_checkpoint_index}
use t.Checkpoint.Gc.{harvest, live_ssts, files_in, delete_checkpoint, gc_loop, is_manifest_key}

contains-add_key :
    (k j : Bytes) (ks : List Bytes)
    → contains k (add_key j ks) ≡ (if bytes_eq j k then true else contains k ks)
unfolding add_key contains
contains-add_key k j ks = elim (Bool-cases (contains j ks)) [
  | inr new ↦ rw new (ground arith)
  | inl old ↦ elim (Bool-cases (bytes_eq j k)) [
    | inl same ↦ rw (old, same) (subst (λ x. contains x ks ≡ true) ((bytes_eq_iff j k).0 same) old)
    | inr differ ↦ rw (old, differ) refl
  ]
]

-- A key of the list that is added, or of the other
contains-add_all :
    (k : Bytes) (js ks : List Bytes)
    → (contains k ks ≡ true) ⊎ Memᴰ k js
    → contains k (add_all js ks) ≡ true
unfolding add_all
contains-add_all k [] ks (inl old) = old
contains-add_all k [] ks (inr i) = absurd (Memᴰ.not-nil i)
contains-add_all k (j ∷ js) ks h = contains-add_all k js (add_key j ks) (moved h)
  where
    moved :
        (contains k ks ≡ true) ⊎ Memᴰ k (j ∷ js) → (contains k (add_key j ks) ≡ true) ⊎ Memᴰ k js
    moved (inl old) = inl (rw (contains-add_key k j ks) (ground (arith, old)))
    moved (inr (Memᴰ.head e)) =
        inl (rw (contains-add_key k j ks) (ground (arith, (bytes_eq_iff j k).1 (sym e))))
    moved (inr (Memᴰ.tail i)) = inr i

-- A live file does not become a candidate.
harvest-live :
    (live fs orphans : List Bytes) (k : Bytes)
    → contains k live ≡ true
    → contains k orphans ≡ false
    → contains k (harvest live fs orphans) ≡ false
unfolding harvest
harvest-live live [] orphans k h new = new
harvest-live live (f ∷ fs) orphans k h new = elim (Bool-cases (contains f live)) [
  | inl kept ↦ rw kept (harvest-live live fs orphans k h new)
  | inr free ↦ rw free (
      harvest-live live fs (add_key f orphans) k h (elim (Bool-cases (bytes_eq f k)) [
        | inl same ↦
            absurd (cc (subst (λ x. contains x live ≡ false) ((bytes_eq_iff f k).0 same) free, h))
        | inr differ ↦ rw (contains-add_key k f orphans, differ) new
      ]))
]

-- A candidate stays one, and a file of the index that is not live becomes one.
pub harvest-free :
    (live fs orphans : List Bytes) (k : Bytes)
    → contains k live ≡ false
    → (contains k orphans ≡ true) ⊎ Memᴰ k fs
    → contains k (harvest live fs orphans) ≡ true
unfolding harvest
harvest-free live [] orphans k free (inl old) = old
harvest-free live [] orphans k free (inr i) = absurd (Memᴰ.not-nil i)
harvest-free live (f ∷ fs) orphans k free h = elim (Bool-cases (contains f live)) [
  | inl kept ↦ rw kept (harvest-free live fs orphans k free (passed kept h))
  | inr new ↦ rw new (harvest-free live fs (add_key f orphans) k free (taken h))
]
  where
    passed :
        contains f live ≡ true
        → (contains k orphans ≡ true) ⊎ Memᴰ k (f ∷ fs)
        → (contains k orphans ≡ true) ⊎ Memᴰ k fs
    passed kept (inl old) = inl old
    passed kept (inr (Memᴰ.head e)) =
        absurd (cc (subst (λ x. contains x live ≡ true) (sym e) kept, free))
    passed kept (inr (Memᴰ.tail i)) = inr i

    taken :
        (contains k orphans ≡ true) ⊎ Memᴰ k (f ∷ fs)
        → (contains k (add_key f orphans) ≡ true) ⊎ Memᴰ k fs
    taken (inl old) = inl (rw (contains-add_key k f orphans) (ground (arith, old)))
    taken (inr (Memᴰ.head e)) =
        inl (rw (contains-add_key k f orphans) (ground (arith, (bytes_eq_iff f k).1 (sym e))))
    taken (inr (Memᴰ.tail i)) = inr i

module _ (o : ObjectStore) (json : Json) (sort_strings : List Bytes → List Bytes) where
  pub live_ssts-contains :
      (s : o.State) (ks live : List Bytes) (f : Bytes)
      → (contains f live ≡ true)
        ⊎ ((k : Bytes) × Memᴰ k ks × Memᴰ f (files_in (read_checkpoint_index o json s k)))
      → contains f (live_ssts o json sort_strings s ks live) ≡ true
  unfolding live_ssts
  live_ssts-contains s [] live f (inl old) = old
  live_ssts-contains s [] live f (inr (k, i, j)) = absurd (Memᴰ.not-nil i)
  live_ssts-contains s (k ∷ ks) live f h =
      live_ssts-contains s ks (add_all (files_in (read_checkpoint_index o json s k)) live) f
        (moved h)
    where
      moved :
          (contains f live ≡ true)
            ⊎ ((j : Bytes) × Memᴰ j (k ∷ ks) × Memᴰ f (files_in (read_checkpoint_index o json s j)))
          → (contains f (add_all (files_in (read_checkpoint_index o json s k)) live) ≡ true)
            ⊎ ((j : Bytes) × Memᴰ j ks × Memᴰ f (files_in (read_checkpoint_index o json s j)))
      moved (inl old) =
          inl (contains-add_all f (files_in (read_checkpoint_index o json s k)) live (inl old))
      moved (inr (j, Memᴰ.head e, i)) = inl (
          contains-add_all f (files_in (read_checkpoint_index o json s k)) live
            (inr (subst (λ x. Memᴰ f (files_in (read_checkpoint_index o json s x))) e i)))
      moved (inr (j, Memᴰ.tail at, i)) = inr (j, at, i)

  -- A live file is no candidate at the end.
  pub gc_loop-live :
      (m : Option Manifest) (pinned live ks : List Bytes) (s : o.State) (n : ℕ)
      (orphans : List Bytes) (f : Bytes)
      → contains f live ≡ true
      → contains f orphans ≡ false
      → contains f (gc_loop o json sort_strings m pinned live ks s n orphans).1.orphans ≡ false
  unfolding gc_loop
  gc_loop-live m pinned live [] s n orphans f h new = new
  gc_loop-live m pinned live (k ∷ ks) s n orphans f h new =
      elim (Bool-cases (is_manifest_key m k)) [
        | inl latest ↦ rw latest (gc_loop-live m pinned live ks s n orphans f h new)
        | inr other ↦ elim (Bool-cases (contains k pinned)) [
          | inl pin ↦ rw (other, pin) (gc_loop-live m pinned live ks s n orphans f h new)
          | inr free ↦
              let files = files_in (read_checkpoint_index o json s k) in
              let new' = harvest-live live files orphans f h new in
              elim (Option-cases (delete_checkpoint o json sort_strings s k).1) [
                | inl done ↦
                    rw (other, free, done)
                      (gc_loop-live m pinned live ks (delete_checkpoint o json sort_strings s k).0
                        (n + 1) (harvest live files orphans) f h new')
                | inr (e, failed) ↦ rw (other, free, failed) new'
              ]
        ]
      ]

  -- A candidate stays one.
  pub gc_loop-orphan :
      (m : Option Manifest) (pinned live ks : List Bytes) (s : o.State) (n : ℕ)
      (orphans : List Bytes) (f : Bytes)
      → contains f live ≡ false
      → contains f orphans ≡ true
      → contains f (gc_loop o json sort_strings m pinned live ks s n orphans).1.orphans ≡ true
  unfolding gc_loop
  gc_loop-orphan m pinned live [] s n orphans f h old = old
  gc_loop-orphan m pinned live (k ∷ ks) s n orphans f h old =
      elim (Bool-cases (is_manifest_key m k)) [
        | inl latest ↦ rw latest (gc_loop-orphan m pinned live ks s n orphans f h old)
        | inr other ↦ elim (Bool-cases (contains k pinned)) [
          | inl pin ↦ rw (other, pin) (gc_loop-orphan m pinned live ks s n orphans f h old)
          | inr free ↦
              let files = files_in (read_checkpoint_index o json s k) in
              let old' = harvest-free live files orphans f h (inl old) in
              elim (Option-cases (delete_checkpoint o json sort_strings s k).1) [
                | inl done ↦
                    rw (other, free, done)
                      (gc_loop-orphan m pinned live ks (delete_checkpoint o json sort_strings s k).0
                        (n + 1) (harvest live files orphans) f h old')
                | inr (e, failed) ↦ rw (other, free, failed) old'
              ]
        ]
      ]
