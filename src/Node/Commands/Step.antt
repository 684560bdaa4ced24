-- ===== src/Node/Commands/Step.antt =====
-- One command, a write of the node, sends one entry or nothing.
use t.Prelude.{
  ℕ, ◌≡◌, refl, ◌⊎◌, inl, inr, Bool, true, false, Option, none, some, List, [], ◌∷◌, ◌++◌, Bytes,
  not, ◌&&◌, ◌==◌, bytes_eq, if◌then◌else◌, ltb, length,
}
use t.Prelude.Word.{add64}
use t.Result.{Result, ok, err, ◌>>=◌}
use t.Wal.{Entry, op_compact}
use t.Store.KeyValue.{KeyValue}
use t.Node.{Database, Node, NodeError, too_many_ops, is_follower, read_key, send}
use t.Node.Writes.{
  put, create, update, send_put, put_entry, create_read, update_read, prepare_put, prepare_delete,
  delete_entry,
}
use t.Node.Deletes.{
  delete, delete_if_revision, compact, delete_prepared, delete_read, delete_kv, compact_entry,
}
use t.Node.Txn.{
  txn, txn_prepared, commit_active, Resolved, find_duplicate, commit_unique, resolve_ops,
  drop_skipped, eval_conditions,
}
use t.Node.Txn.Forwarding.{TxnRequest}
use t.Node.Commands.{
  Command, put_key, create_key, update_key, delete_key, delete_key_if, compact_to, transact, exec,
}

-- The revision of an entry after one of revision `rev`: a compaction takes none.
abbrev pub follows_rev : Entry → ℕ → ℕ
follows_rev e rev = if e.op == op_compact then rev else add64 rev 1

-- One command sends nothing and changes nothing, or sends one entry.
pub record Appends {Db : Type 0} (n n' : Node Db) : Type 0 where
  pub entry : Entry
  pub sent : n'.write_c ≡ n.write_c ++ entry ∷ []
  pub seq : entry.id ≡ add64 n.next_seq 1
  pub rev : entry.revision ≡ follows_rev entry n.next_rev
  pub next_seq : n'.next_seq ≡ entry.id
  pub next_rev : n'.next_rev ≡ entry.revision

abbrev pub Step : {Db : Type 0} → Node Db → Node Db → Type 0
Step n n' = (n' ≡ n) ⊎ Appends n n'

module _ {Db : Type 0} {A : Type 0} {n : Node Db} where
  if_Step : (c : Bool) (x y : A × Node Db) → Step n x.1 → Step n y.1 → Step n (if c then x else y).1
  if_Step true x y hx hy = hx
  if_Step false x y hx hy = hy

-- An entry that takes the next sequence and the next revision, and the counters after it.
sends_next :
    {Db : Type 0} {n n' : Node Db} (e : Entry)
    → n'.write_c ≡ n.write_c ++ e ∷ []
    → (e.op == op_compact) ≡ false
    → e.id ≡ add64 n.next_seq 1
    → e.revision ≡ add64 n.next_rev 1
    → n'.next_seq ≡ e.id
    → n'.next_rev ≡ e.revision
    → Step n n'
sends_next e sent write id rev next_seq next_rev = inr (record {
  entry = e;
  sent = sent;
  seq = id;
  rev = rw write rev;
  next_seq = next_seq;
  next_rev = next_rev;
})

-- The commands that do not delete the empty key.
abbrev pub NamesKey : Command → Type 0
NamesKey (delete_key k) = bytes_eq k [] ≡ false
NamesKey (delete_key_if k rev) = bytes_eq k [] ≡ false
NamesKey _ = Unit

module _ (b : Database) (n : Node b.Db) where
  put-Step :
      (key value : Bytes) (lease : ℕ) (r : Result NodeError (Option KeyValue))
      → Step n (send_put b n (r >>= λ existing. ok (put_entry n key value lease existing))).1
  unfolding put_entry
  put-Step key value lease (err e) = inl refl
  put-Step key value lease (ok none) = sends_next _ refl refl refl refl refl refl
  put-Step key value lease (ok (some kv)) = sends_next _ refl refl refl refl refl refl

  create-Step :
      (key value : Bytes) (lease : ℕ) (r : Result NodeError (Option KeyValue))
      → Step n (create_read b n key value lease r).1
  unfolding create_read
  create-Step key value lease (err e) = inl refl
  create-Step key value lease (ok none) = sends_next _ refl refl refl refl refl refl
  create-Step key value lease (ok (some kv)) = inl refl

  update-Step :
      (key value : Bytes) (revision lease : ℕ) (r : Result NodeError (Option KeyValue))
      → Step n (update_read b n key value revision lease r).1
  unfolding update_read
  update-Step key value revision lease (err e) = inl refl
  update-Step key value revision lease (ok none) = inl refl
  update-Step key value revision lease (ok (some kv)) =
      if_Step (kv.revision == revision) _ _ (sends_next _ refl refl refl refl refl refl) (inl refl)

  delete-Step :
      (key : Bytes) (r : Result NodeError (Option KeyValue))
      → bytes_eq key [] ≡ false
      → Step n (delete_prepared b n (r >>= λ existing. ok (delete_entry n key existing))).1
  unfolding delete_prepared delete_entry bytes_eq
  delete-Step key (err e) h = inl refl
  delete-Step key (ok none) h = inl refl
  delete-Step key (ok (some kv)) h = rw h (sends_next _ refl refl refl refl refl refl)

  delete_kv-Step :
      (key : Bytes) (kv : KeyValue) (r : Result NodeError (Option KeyValue))
      → bytes_eq key [] ≡ false
      → Step n (delete_kv b n kv (r >>= λ existing. ok (delete_entry n key existing))).1
  unfolding delete_kv delete_entry bytes_eq
  delete_kv-Step key kv (err e) h = inl refl
  delete_kv-Step key kv (ok none) h = inl refl
  delete_kv-Step key kv (ok (some old)) h = rw h (sends_next _ refl refl refl refl refl refl)

  delete_read-Step :
      (key : Bytes) (revision : ℕ) (r : Result NodeError (Option KeyValue))
      → bytes_eq key [] ≡ false
      → Step n (delete_read b n key revision r).1
  unfolding delete_read prepare_delete
  delete_read-Step key revision (err e) h = inl refl
  delete_read-Step key revision (ok none) h = inl refl
  delete_read-Step key revision (ok (some kv)) h =
      if_Step (not (revision == 0) && not (kv.revision == revision)) _ _ (inl refl)
        (delete_kv-Step key kv (read_key b n key) h)

  plan-Step :
      (s : Bool) (active : List Resolved) → Step n (txn_prepared b n (commit_active n s active)).1
  unfolding txn_prepared commit_active
  plan-Step s [] = inl refl
  plan-Step s (r ∷ rs) = plan_cases (ltb 65535 (length (r ∷ rs))) (find_duplicate [] (r ∷ rs))
    where
      plan_cases :
          (c : Bool) (d : Option Bytes)
          → Step n
              (txn_prepared b n (if c then err too_many_ops else commit_unique n s (r ∷ rs) d)).1
      plan_cases true d = inl refl
      plan_cases false (some key) = inl refl
      plan_cases false none = sends_next _ refl refl refl refl refl refl

  txn-Step :
      (req : TxnRequest) (r : Result NodeError Bool)
      → Step n
          (txn_prepared b n (do
            s ← r
            resolved ← resolve_ops b n (if s then req.success else req.failure)
            commit_active n s (drop_skipped resolved))).1
  unfolding txn_prepared
  txn-Step req (err e) = inl refl
  txn-Step req (ok s) = resolved-Step (resolve_ops b n (if s then req.success else req.failure))
    where
      resolved-Step :
          (r : Result NodeError (List Resolved))
          → Step n (txn_prepared b n (do resolved ← r; commit_active n s (drop_skipped resolved))).1
      resolved-Step (err e) = inl refl
      resolved-Step (ok resolved) = plan-Step s (drop_skipped resolved)

  compact-Step :
      (rev : ℕ) → Step n (send (compact_entry n rev) (record n { next_seq = add64 n.next_seq 1 }))
  unfolding compact_entry
  compact-Step rev = inr (record {
    entry = compact_entry n rev;
    sent = refl;
    seq = refl;
    rev = refl;
    next_seq = refl;
    next_rev = refl;
  })

  pub exec-Step : (c : Command) → NamesKey c → Step n (exec b n c)
  unfolding exec put create update delete delete_if_revision compact txn prepare_put prepare_delete
  exec-Step (put_key k v lease) h = if_Step n.is_closed _ _ (inl refl) (
      if_Step (is_follower n.role) _ _ (inl refl)
        (if_Step n.is_closed _ _ (inl refl) (put-Step k v lease (read_key b n k))))
  exec-Step (create_key k v lease) h =
      if_Step (is_follower n.role) _ _ (inl refl)
        (if_Step n.is_closed _ _ (inl refl) (create-Step k v lease (read_key b n k)))
  exec-Step (update_key k v rev lease) h =
      if_Step (is_follower n.role) _ _ (inl refl)
        (if_Step n.is_closed _ _ (inl refl) (update-Step k v rev lease (read_key b n k)))
  exec-Step (delete_key k) h =
      if_Step (is_follower n.role) _ _ (inl refl)
        (if_Step n.is_closed _ _ (inl refl) (delete-Step k (read_key b n k) h))
  exec-Step (delete_key_if k rev) h =
      if_Step (is_follower n.role) _ _ (inl refl)
        (if_Step n.is_closed _ _ (inl refl) (delete_read-Step k rev (read_key b n k) h))
  exec-Step (compact_to rev) h =
      if_Step (is_follower n.role) _ _ (inl refl)
        (if_Step n.is_closed _ _ (inl refl) (compact-Step rev))
  exec-Step (transact req) h = if_Step n.is_closed _ _ (inl refl) (
      if_Step (is_follower n.role) _ _ (inl refl)
        (if_Step n.is_closed _ _ (inl refl) (txn-Step req (eval_conditions b n req.conditions))))
