-- ===== src/Wal/Gc.antt =====
-- internal/wal/gc.go: the segments that a checkpoint covers. `keys` is what the store lists.
pub mod Covered
use t.Prelude.{
  ℕ, Bool, true, false, Option, none, some, List, [], ◌∷◌, Bytes, ascii, length, if◌then◌else◌,
}
use t.Prelude.Word.{sub64, le64}
use t.Wal.ObjectKey.{parse_first_rev}

-- The loop: a segment goes if the next one starts at or below the checkpoint.
unfoldable pub to_delete : List Bytes → ℕ → List Bytes
unfolding parse_first_rev
to_delete [] checkpoint_seq = []
to_delete (key ∷ []) checkpoint_seq = []
to_delete (key ∷ next ∷ keys) checkpoint_seq =
    let rest = to_delete (next ∷ keys) checkpoint_seq in
    if le64 (sub64 (parse_first_rev next) 1) checkpoint_seq then key ∷ rest else rest

-- An object store, `none` for an error
pub record Objects : Type 1 where
  pub State : Type 0
  pub list : State → Bytes → Option (List Bytes)
  pub delete_many : State → List Bytes → Option State

module _ (o : Objects) where
  open o use {State, list, delete_many}

  abbrev deleted : State → List Bytes → Option State → Option ℕ × State
  deleted st keys none = (some 0, st)
  deleted st keys (some st') = (some (length keys), st')

  abbrev delete_found : State → List Bytes → Option ℕ × State
  delete_found st [] = (some 0, st)
  delete_found st (key ∷ keys) = deleted st (key ∷ keys) (delete_many st (key ∷ keys))

  abbrev gc_listed : State → ℕ → Option (List Bytes) → Option ℕ × State
  gc_listed st checkpoint_seq none = (none, st)
  gc_listed st checkpoint_seq (some keys) = delete_found st (to_delete keys checkpoint_seq)

  -- GCSegments: the number of segments that were deleted, `none` for an error.
  unfoldable pub gc_segments : State → ℕ → Option ℕ × State
  unfolding to_delete
  gc_segments st checkpoint_seq = gc_listed st checkpoint_seq (list st (ascii "wal/"))
