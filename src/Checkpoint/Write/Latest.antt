-- ===== src/Checkpoint/Write/Latest.antt =====
-- A checkpoint that was written, against the manifest and the index that are read afterwards.
use mathlib.Core.List.{Memᴰ}
use t.Prelude.{
  ℕ, ◌<◌, ◌≡◌, refl, ◌∙◌, false, Option, none, some, List, Bytes, ◌==◌, ltb, bytes_eq, arith,
  Bool-cases, Option-cases, inl, inr,
}
use t.Result.{ok, ◌>>=◌, Result-cases}
use t.Checkpoint.{
  ObjectStore, Json, Manifest, CheckpointIndex, checkpoint_index_key, checkpoint_key, manifest_key,
  manifest_in, read_manifest, write_manifest, read_checkpoint_index, PutsObjects, IsDecoded,
}
use t.Checkpoint.Write.{
  Walked, nothing_walked, known_sst_sets, walk, index_for, manifest_for, write_index, indexed,
  write_at_sequence,
}
use t.Checkpoint.Write.ReadBack.{IsRecorded, walk-IsRecorded, visit}

manifest_key-ne-index :
    (term revision : ℕ) → bytes_eq manifest_key (checkpoint_index_key term revision) ≡ false
unfolding checkpoint_index_key checkpoint_key bytes_eq
manifest_key-ne-index term revision = refl

module _ (o : ObjectStore) (json : Json) (sha_hex : Bytes → Bytes) (puts : PutsObjects o)
    (decoded : IsDecoded json) where
  read_manifest-put :
      (s : o.State) (m : Manifest)
      → m.format_version ≡ 1
      → 0 < m.last_sequence
      → o.get s manifest_key ≡ ok (json.marshal_manifest m)
      → read_manifest o json s ≡ ok (some m)
  unfolding read_manifest
  read_manifest-put s m version positive at =
      let known : ltb 1 m.format_version ≡ false = ground (arith, version) in
      let given : (m.last_sequence == 0) ≡ false = ground (arith, positive) in
      rw (read_manifest, at, manifest_in, decoded.manifest m, known, given) refl

  read_checkpoint_index-put :
      (s : o.State) (key : Bytes) (idx : CheckpointIndex)
      → idx.format_version ≡ 1
      → 0 < idx.last_sequence
      → o.get s key ≡ ok (json.marshal_index idx)
      → read_checkpoint_index o json s key ≡ ok idx
  unfolding read_checkpoint_index
  read_checkpoint_index-put s key idx version positive at =
      let known : ltb 1 idx.format_version ≡ false = ground (arith, version) in
      let given : (idx.last_sequence == 0) ≡ false = ground (arith, positive) in
      rw (read_checkpoint_index, at, ◌>>=◌, decoded.index idx, known, given) refl

  module _ (term revision sequence : ℕ) (last_wal_key : Bytes) (positive : 0 < sequence) where
    -- The manifest and the index that are read
    abbrev pub IsLatest : o.State → Walked → Type 0
    IsLatest s w =
        (read_manifest o json s
          ≡ ok (some (manifest_for o json sha_hex term revision sequence last_wal_key)))
        × (read_checkpoint_index o json s (checkpoint_index_key term revision)
            ≡ ok (index_for o json sha_hex term revision sequence w))

    write_index-IsLatest :
        (w : Walked) (s : o.State)
        → (write_index o json sha_hex term revision sequence last_wal_key w s).1 ≡ none
        → IsLatest (write_index o json sha_hex term revision sequence last_wal_key w s).0 w
    unfolding write_index write_manifest
    write_index-IsLatest w s ends =
        let key = checkpoint_index_key term revision in
        let idx = index_for o json sha_hex term revision sequence w in
        let m = manifest_for o json sha_hex term revision sequence last_wal_key in
        let s1 = (o.put s key (json.marshal_index idx)).0 in
        elim (Bool-cases (o.put s key (json.marshal_index idx)).1) [
          | inr failed ↦ absurd (cc (rw (write_index, failed) at ends))
          | inl put_index ↦ elim (Bool-cases (o.put s1 manifest_key (json.marshal_manifest m)).1) [
            | inr failed ↦ absurd (cc (rw (write_index, put_index, write_manifest, failed) at ends))
            | inl put_manifest ↦
                let index_there =
                  puts.others s1 manifest_key (json.marshal_manifest m) key put_manifest
                    (manifest_key-ne-index term revision)
                  ∙ puts.written s key (json.marshal_index idx) put_index in
                let manifest_there =
                  puts.written s1 manifest_key (json.marshal_manifest m) put_manifest in
                let s2 = (o.put s1 manifest_key (json.marshal_manifest m)).0 in
                rw (write_index, put_index)
                  (
                    read_manifest-put s2 m refl positive manifest_there,
                    read_checkpoint_index-put s2 key idx refl positive index_there,
                  )
          ]
        ]

    -- If a checkpoint of a positive sequence is written with no error, then the manifest that is
    -- read names it with its term, revision and sequence; the index that is read under that name
    -- holds lists in which each file of the checkpoint stands, an SST under its content's key among
    -- the store's or the ancestor's files and any other file under its name; writes of the object
    -- store and the JSON encoding do what `PutsObjects` and `IsDecoded` say.
    pub write_at_sequence-IsLatest :
        (ancestor : Option o.State) (files : List (Bytes × Bytes)) (s : o.State)
        → (write_at_sequence o json sha_hex term revision sequence last_wal_key ancestor files s).1
          ≡ none
        → (w : Walked) × IsLatest
            (write_at_sequence o json sha_hex term revision sequence last_wal_key ancestor files
              s).0
            w
          × ((name content : Bytes)
              → Memᴰ (name, content) files
              → IsRecorded o json sha_hex w name content)
    unfolding write_at_sequence
    write_at_sequence-IsLatest ancestor files s ends =
        elim (Result-cases (known_sst_sets o json sha_hex s ancestor)) [
          | inr (e, failed) ↦ absurd (cc (rw (write_at_sequence, failed) at ends))
          | inl ((known, inherited), sets) ↦
              let walked =
                walk o json sha_hex (visit o json sha_hex term revision known inherited) files s
                  nothing_walked in
              elim (Option-cases walked.2) [
                | inr (e, failed) ↦
                    absurd (cc (rw (write_at_sequence, sets, indexed, failed) at ends))
                | inl went ↦ (
                  walked.1,
                  rw (write_at_sequence, sets, indexed, went)
                      (write_index-IsLatest walked.1 walked.0
                        (rw (write_at_sequence, sets, indexed, went) at ends)),
                  λ name content i.
                      walk-IsRecorded o json sha_hex term revision known inherited files s
                        nothing_walked name content went i,
                )
              ]
        ]
