-- ===== src/Checkpoint/Branch.antt =====
-- internal/checkpoint/branch.go: the registry of the branches of a store.
use t.Prelude.{
  Option, none, some, List, [], ◌∷◌, ◌++◌, Bytes, ascii, drop, has_prefix, if◌then◌else◌,
}
use t.Prelude.Dict.{Dict, insert}
use t.Result.{Result, ok, err, ◌>>=◌}
use t.Checkpoint.{
  ObjectStore, Json, BranchEntry, CheckpointError, not_found, list_failed, delete_failed,
  decode_failed, put_object,
}

abbrev pub branches : Bytes
branches = ascii "branches/"

unfoldable pub branch_key : Bytes → Bytes
branch_key id = branches ++ id

-- strings.TrimPrefix(k, "branches/")
abbrev branch_id : Bytes → Bytes
branch_id k = if has_prefix k branches then drop 9 k else k

module _ (o : ObjectStore) (json : Json) where
  unfoldable pub register_branch : o.State → Bytes → Bytes → o.State × Option CheckpointError
  unfolding branch_key
  register_branch s id ancestor =
      put_object o json s (branch_key id)
        (json.marshal_branch (record { ancestor_checkpoint_key = ancestor }))

  -- Delete, as DeleteMany of one key
  unfoldable pub unregister_branch : o.State → Bytes → o.State × Option CheckpointError
  unfolding branch_key
  unregister_branch s id =
      let (s', done) = o.delete_many s (branch_key id ∷ []) in
      (s', if done then none else some delete_failed)

  -- The loop over the keys: an object that has gone since they were listed is passed over.
  abbrev entered :
      Bytes
      → Result CheckpointError (Dict BranchEntry)
      → Option BranchEntry
      → Result CheckpointError (Dict BranchEntry)
  entered k rest none = err decode_failed
  entered k rest (some e) = rest >>= λ entries. ok (insert (branch_id k) e entries)

  abbrev read_entry :
      Bytes
      → Result CheckpointError (Dict BranchEntry)
      → Result CheckpointError Bytes
      → Result CheckpointError (Dict BranchEntry)
  read_entry k rest (err not_found) = rest
  read_entry k rest (err e) = err e
  read_entry k rest (ok b) = entered k rest (json.decode_branch b)

  unfoldable pub read_entries : o.State → List Bytes → Result CheckpointError (Dict BranchEntry)
  unfolding insert
  read_entries s [] = ok []
  read_entries s (k ∷ ks) = read_entry k (read_entries s ks) (o.get s k)

  unfoldable pub read_branch_entries : o.State → Result CheckpointError (Dict BranchEntry)
  unfolding read_entries
  read_branch_entries s = elim (o.list s branches) [
    | none ↦ err list_failed
    | some keys ↦ read_entries s keys
  ]
