-- ===== src/Node/Deletes/EmptyKey.antt =====
-- The deletion of a key that is empty.
use t.Prelude.{◌≡◌, refl, true, false, none, some, [], bytes_eq}
use t.Prelude.Word.{add64}
use t.Result.{ok}
use t.Store.KeyValue.{KeyValue}
use t.Node.{Database, Node, return, is_follower, read_key}
use t.Node.Writes.{prepare_delete, delete_entry}
use t.Node.Deletes.{delete, delete_prepared}
use t.Node.Writes.Reads.{read_key-reserve}

-- Deleting the empty key where it is stored spends a sequence and a revision on nothing: no entry
-- is sent, the call reports that nothing was deleted, and yet the key reads as deleted.
pub delete_empty_key :
    (b : Database) (n : Node b.Db) (kv : KeyValue)
    → n.is_closed ≡ false
    → is_follower n.role ≡ false
    → read_key b n [] ≡ ok (some kv)
    → ((delete b n []).0 ≡ return (ok 0))
      × ((delete b n []).1.write_c ≡ n.write_c)
      × ((delete b n []).1.next_seq ≡ add64 n.next_seq 1)
      × ((delete b n []).1.next_rev ≡ add64 n.next_rev 1)
      × (read_key b (delete b n []).1 [] ≡ ok none)
unfolding delete delete_prepared delete_entry prepare_delete bytes_eq read_key
delete_empty_key b n kv open_node serves found =
    simp (serves, open_node, found)
      (
        refl,
        refl,
        refl,
        refl,
        read_key-reserve b n [] [] (record { rev = add64 n.next_rev 1; deleted = true; kv = none }),
      )
