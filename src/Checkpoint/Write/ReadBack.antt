-- ===== src/Checkpoint/Write/ReadBack.antt =====
-- The walk over the files of a checkpoint, against the lists of its index.
use mathlib.Core.List.{Memᴰ}
use mathlib.Core.List.Memᴰ
use mathlib.Core.Path.{subst}
use t.Prelude.{
  ℕ, ◌≡◌, ◌⊎◌, refl, sym, true, false, Option, none, List, [], ◌∷◌, Bytes, Bool-cases, Option-cases,
  inl, inr,
}
use t.Checkpoint.{ObjectStore, Json, CheckpointError, contains}
use t.Checkpoint.Write.{
  Walked, with_sst, with_ancestor, with_meta, is_sst, content_sst_key, write_file, walk,
}

module _ (o : ObjectStore) (json : Json) (sha_hex : Bytes → Bytes) where
  -- A file of the walk stands in the lists of the index.
  abbrev pub IsRecorded : Walked → Bytes → Bytes → Type 0
  IsRecorded w name content =
      ((is_sst name ≡ true)
        × (Memᴰ (content_sst_key o json sha_hex name content) w.sst_files
            ⊎ Memᴰ (content_sst_key o json sha_hex name content) w.ancestor_sst_files))
      ⊎ ((is_sst name ≡ false) × Memᴰ name w.meta_files)

  module _ (term revision : ℕ) (known inherited : List Bytes) where
    write_file-IsRecorded :
        (name content : Bytes) (s : o.State) (w : Walked)
        → IsRecorded
            (write_file o json sha_hex term revision known inherited name content s w).1
            name
            content
    unfolding write_file
    write_file-IsRecorded name content s w =
        let key = content_sst_key o json sha_hex name content in
        elim (Bool-cases (is_sst name)) [
          | inr meta ↦
              rw (write_file, meta) (inr (refl, Memᴰ.append_right w.meta_files (Memᴰ.head refl)))
          | inl sst ↦ elim (Bool-cases (contains key known)) [
            | inl there ↦
                rw (write_file, sst, there)
                  (inl (refl, inl (Memᴰ.append_right w.sst_files (Memᴰ.head refl))))
            | inr new ↦ elim (Bool-cases (contains key inherited)) [
              | inl there ↦
                  rw (write_file, sst, new, there)
                    (inl (refl, inr (Memᴰ.append_right w.ancestor_sst_files (Memᴰ.head refl))))
              | inr fresh ↦
                  rw (write_file, sst, new, fresh)
                    (inl (refl, inl (Memᴰ.append_right w.sst_files (Memᴰ.head refl))))
            ]
          ]
        ]

    with_sst-IsRecorded :
        (key : Bytes) (w : Walked) (n c : Bytes)
        → IsRecorded w n c
        → IsRecorded (with_sst key w) n c
    with_sst-IsRecorded key w n c (inl (sst, inl i)) =
        inl (sst, inl (Memᴰ.append_left (key ∷ []) i))
    with_sst-IsRecorded key w n c (inl (sst, inr i)) = inl (sst, inr i)
    with_sst-IsRecorded key w n c (inr (meta, i)) = inr (meta, i)

    with_ancestor-IsRecorded :
        (key : Bytes) (w : Walked) (n c : Bytes)
        → IsRecorded w n c
        → IsRecorded (with_ancestor key w) n c
    with_ancestor-IsRecorded key w n c (inl (sst, inl i)) = inl (sst, inl i)
    with_ancestor-IsRecorded key w n c (inl (sst, inr i)) =
        inl (sst, inr (Memᴰ.append_left (key ∷ []) i))
    with_ancestor-IsRecorded key w n c (inr (meta, i)) = inr (meta, i)

    with_meta-IsRecorded :
        (name : Bytes) (w : Walked) (n c : Bytes)
        → IsRecorded w n c
        → IsRecorded (with_meta name w) n c
    with_meta-IsRecorded name w n c (inl (sst, i)) = inl (sst, i)
    with_meta-IsRecorded name w n c (inr (meta, i)) = inr (meta, Memᴰ.append_left (name ∷ []) i)

    -- A visit of another file leaves what is recorded.
    write_file-keeps :
        (name content : Bytes) (s : o.State) (w : Walked) (n c : Bytes)
        → IsRecorded w n c
        → IsRecorded
            (write_file o json sha_hex term revision known inherited name content s w).1
            n
            c
    unfolding write_file
    write_file-keeps name content s w n c h =
        let key = content_sst_key o json sha_hex name content in
        elim (Bool-cases (is_sst name)) [
          | inr meta ↦ rw (write_file, meta) (with_meta-IsRecorded name w n c h)
          | inl sst ↦ elim (Bool-cases (contains key known)) [
            | inl there ↦ rw (write_file, sst, there) (with_sst-IsRecorded key w n c h)
            | inr new ↦ elim (Bool-cases (contains key inherited)) [
              | inl there ↦ rw (write_file, sst, new, there) (with_ancestor-IsRecorded key w n c h)
              | inr fresh ↦ rw (write_file, sst, new, fresh) (with_sst-IsRecorded key w n c h)
            ]
          ]
        ]

    abbrev pub visit : Bytes → Bytes → o.State → Walked → o.State × Walked × Option CheckpointError
    visit = write_file o json sha_hex term revision known inherited

    walk-keeps :
        (files : List (Bytes × Bytes)) (s : o.State) (w : Walked) (n c : Bytes)
        → IsRecorded w n c
        → IsRecorded (walk o json sha_hex visit files s w).1 n c
    unfolding walk
    walk-keeps [] s w n c h = h
    walk-keeps ((name, content) ∷ files) s w n c h =
        let kept = write_file-keeps name content s w n c h in
        elim (Option-cases (visit name content s w).2) [
          | inl done ↦
              rw (walk, done)
                (walk-keeps files (visit name content s w).0 (visit name content s w).1 n c kept)
          | inr (e, failed) ↦ rw (walk, failed) kept
        ]

    -- A walk with no error has recorded every file.
    pub walk-IsRecorded :
        (files : List (Bytes × Bytes)) (s : o.State) (w : Walked) (n c : Bytes)
        → (walk o json sha_hex visit files s w).2 ≡ none
        → Memᴰ (n, c) files
        → IsRecorded (walk o json sha_hex visit files s w).1 n c
    unfolding walk
    walk-IsRecorded [] s w n c ends i = absurd (Memᴰ.not-nil i)
    walk-IsRecorded ((name, content) ∷ files) s w n c ends i =
        elim (Option-cases (visit name content s w).2) [
          | inr (e, failed) ↦ absurd (cc (rw (walk, failed) at ends))
          | inl done ↦
              let s' = (visit name content s w).0 in
              let w' = (visit name content s w).1 in
              let ends' = rw (walk, done) at ends in
              rw (walk, done)
                (elim i [
                  | Memᴰ.head e ↦ walk-keeps files s' w' n c (
                      subst (λ (f : Bytes × Bytes). IsRecorded w' f.0 f.1) (sym e)
                        (write_file-IsRecorded name content s w))
                  | Memᴰ.tail j ↦ walk-IsRecorded files s' w' n c ends' j
                ])
        ]
