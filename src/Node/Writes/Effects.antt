-- ===== src/Node/Writes/Effects.antt =====
-- What Put, Create, Update and Delete of a node that serves writes leave to be read.
use t.Prelude.{
  ℕ, ◌≡◌, refl, Bool, true, false, Option, none, some, [], Bytes, ◌==◌, bytes_eq, if◌then◌else◌,
  bytes_eq_refl, inl, inr, Bool-cases,
}
use t.Prelude.Word.{add64}
use t.Result.{ok, err}
use t.Wal.{Entry}
use t.Store.KeyValue.{KeyValue}
use t.Node.{
  Database, Node, key_exists, Outcome, return, await, is_follower, read_key, next_put_version,
}
use t.Node.Writes.{
  put, create, update, prepare_put, prepare_delete, put_entry, put_kv, update_kv, delete_entry,
  create_read, update_read, Cas,
}
use t.Node.Writes.Reads.{read_key-reserve}
use t.Node.Deletes.{delete, delete_prepared}

-- The node is open and leads or stands alone.
pub record Serves {Db : Type 0} (n : Node Db) : Type 0 where
  pub is_open : n.is_closed ≡ false
  pub leads : is_follower n.role ≡ false

module _ (b : Database) where
  open b use {Db, current_revision}

  -- After a write of one key, it reads as given and every other key as before.
  abbrev pub Sets : Node Db → Node Db → Bytes → Option KeyValue → Type 0
  Sets n n' key v =
      (j : Bytes) → read_key b n' j ≡ (if bytes_eq key j then ok v else read_key b n j)

  -- The value that a write at the next revision stores over `old`.
  abbrev pub next_kv : Node Db → Bytes → Bytes → ℕ → Option KeyValue → KeyValue
  next_kv n key value lease old = record {
    key = key;
    value = value;
    revision = add64 n.next_rev 1;
    create_revision = elim old [ none ↦ add64 n.next_rev 1 | some kv ↦ kv.create_revision ];
    prev_revision = elim old [ none ↦ 0 | some kv ↦ kv.revision ];
    version = next_put_version old;
    lease = lease;
  }

  -- What a create may do, by what the key read before.
  abbrev pub Creates : Node Db → Bytes → Bytes → ℕ → Option KeyValue → Outcome ℕ × Node Db → Type 0
  Creates n key value lease (some kv) (o, n') = (o ≡ return (err key_exists)) × (n' ≡ n)
  Creates n key value lease none (o, n') =
      ((e : Entry) × (o ≡ await e (add64 n.next_rev 1)))
      × Sets n n' key (some (next_kv n key value lease none))

  -- What an update may do, by whether the revision of the stored value is the one expected.
  abbrev pub Updates :
      Node Db → Bytes → Bytes → ℕ → KeyValue → Bool → Outcome Cas × Node Db → Type 0
  Updates n key value lease kv true (o, n') =
      ((e : Entry) × (o ≡ await e (add64 n.next_rev 1, some kv, true)))
      × Sets n n' key (some (next_kv n key value lease (some kv)))
  Updates n key value lease kv false (o, n') =
      (o ≡ return (ok (current_revision n.db, some kv, false))) × (n' ≡ n)

  -- What a delete may do, by what the key read before.
  abbrev pub Deletes : Node Db → Bytes → Option KeyValue → Outcome ℕ × Node Db → Type 0
  Deletes n key none (o, n') = (o ≡ return (ok 0)) × (n' ≡ n)
  Deletes n key (some kv) (o, n') =
      ((e : Entry) × (o ≡ await e (add64 n.next_rev 1))) × Sets n n' key none

  module _ (n : Node Db) (serves : Serves n) (key value : Bytes) (lease : ℕ) where
    -- On a node that serves writes, Put of a key that can be read waits for its entry, which
    -- carries the next revision, and sets the key: its creation revision and version go on from the
    -- value before.
    put-Sets :
        (old : Option KeyValue)
        → read_key b n key ≡ ok old
        → let (o, n') = put b n key value lease in
          ((e : Entry) × (o ≡ await e (add64 n.next_rev 1)))
          × Sets n n' key (some (next_kv n key value lease old))
    unfolding put prepare_put put_entry put_kv next_put_version read_key
    put-Sets none found =
        simp (serves.is_open, serves.leads, found) ((_, refl), λ j. read_key-reserve b n key j _)
    put-Sets (some kv) found =
        simp (serves.is_open, serves.leads, found) ((_, refl), λ j. read_key-reserve b n key j _)

    -- On a node that serves writes, for a key that can be read: Create refuses a key that is there
    -- and changes nothing; else it sets the key, at version 1 and created at the next revision.
    create-Sets :
        (old : Option KeyValue)
        → read_key b n key ≡ ok old
        → Creates n key value lease old (create b n key value lease)
    unfolding create create_read put_kv next_put_version read_key
    create-Sets none found =
        simp (serves.is_open, serves.leads, found) ((_, refl), λ j. read_key-reserve b n key j _)
    create-Sets (some kv) found = simp (serves.is_open, serves.leads, found) (refl, refl)

    -- On a node that serves writes, for a key that is there: Update writes exactly if the revision
    -- of the stored value is the one expected. It then sets the key and returns the value before;
    -- else nothing changes, and the value that is there is returned with the revision of the
    -- database.
    pub update-Sets :
        (revision : ℕ) (kv : KeyValue)
        → read_key b n key ≡ ok (some kv)
        → Updates n key value lease kv
            (kv.revision == revision)
            (update b n key value revision lease)
    unfolding update update_read update_kv put_kv next_put_version read_key
    update-Sets revision kv found = elim (Bool-cases (kv.revision == revision)) [
      | inl same ↦
          simp (serves.is_open, serves.leads, found, same)
            ((_, refl), λ j. read_key-reserve b n key j _)
      | inr other ↦ simp (serves.is_open, serves.leads, found, other) (refl, refl)
    ]

  -- On a node that serves writes, Delete of a key that is not empty and can be read: where it is
  -- there the call waits for its entry, which carries the next revision, and the key then reads as
  -- missing; where it is missing nothing changes.
  delete-Sets :
      (n : Node Db) (key : Bytes) (old : Option KeyValue)
      → Serves n
      → bytes_eq key [] ≡ false
      → read_key b n key ≡ ok old
      → Deletes n key old (delete b n key)
  unfolding delete delete_prepared prepare_delete delete_entry read_key
  delete-Sets n key none serves named found =
      simp (serves.is_open, serves.leads, found, bytes_eq_refl []) (refl, refl)
  delete-Sets n key (some kv) serves named found =
      simp (serves.is_open, serves.leads, found, named)
        ((_, refl), λ j. read_key-reserve b n key j _)
