-- ===== src/Tests/NodeTests.antt =====
-- Runs of the write path over a database that is a map.
use t.Prelude.{◌≡◌, refl, true, false, none, some, List, [], ◌∷◌, ascii, map, bytes_eq}
use t.Prelude.Dict.{Dict, lookup, insert}
use t.Result.{ok}
use t.Wal.{Entry, op_txn, op_create, op_delete}
use t.Wal.TxnOps.{encode_txn_ops}
use t.Store.KeyValue.{KeyValue}
use t.Node.{Database, Node, leader, read_key, return}
use t.Node.Writes.{put, create, update, zero_entry, prepare_delete}
use t.Node.Writes.Effects.{Serves, Updates, update-Sets}
use t.Node.Deletes.{delete, delete_if_revision, compact}
use t.Node.Commands.{
  Command, run, put_key, create_key, update_key, delete_key, delete_key_if, compact_to, transact,
}
use t.Node.Commands.Sequence.{Leads, run-Leads}
use t.Node.Deletes.EmptyKey.{delete_empty_key}
use t.Node.Txn.{txn, sub_op_of, stage, Resolved}
use t.Node.Txn.Conditions.{cond_mod, cond_equal}
use t.Node.Txn.Forwarding.{TxnRequest, txn_put, txn_delete}

abbrev pub memory : Database
memory = record {
  Db = Dict KeyValue;
  get = λ db key. ok (lookup key db);
  current_revision = λ db. 7;
}

abbrev stored_kv : KeyValue
stored_kv = record {
  key = ascii "a";
  value = ascii "1";
  revision = 3;
  create_revision = 2;
  prev_revision = 2;
  version = 2;
  lease = 0;
}

abbrev empty_kv : KeyValue
empty_kv = record stored_kv { key = [] }

abbrev pub node : Node (Dict KeyValue)
node = record {
  is_closed = false;
  role = leader;
  term = 1;
  next_rev = 7;
  next_seq = 9;
  pending = [];
  write_c = [];
  db = (ascii "a", stored_kv) ∷ ([], empty_kv) ∷ [];
}

node-Serves : Serves node
node-Serves = record { is_open = refl; leads = refl }

reads_a : read_key memory node (ascii "a") ≡ ok (some stored_kv)
unfolding read_key lookup bytes_eq
reads_a = refl

reads_b : read_key memory node (ascii "b") ≡ ok none
unfolding read_key lookup bytes_eq
reads_b = refl

reads_empty : read_key memory node [] ≡ ok (some empty_kv)
unfolding read_key lookup bytes_eq
reads_empty = refl

update-Sets_example :
    Updates memory node
      (ascii "a")
      (ascii "2")
      0
      stored_kv
      true
      (update memory node (ascii "a") (ascii "2") 3 0)
update-Sets_example =
    update-Sets memory node node-Serves (ascii "a") (ascii "2") 0 3 stored_kv reads_a

delete_empty_key_example :
    ((delete memory node []).0 ≡ return (ok 0))
    × ((delete memory node []).1.write_c ≡ [])
    × ((delete memory node []).1.next_seq ≡ 10)
    × ((delete memory node []).1.next_rev ≡ 8)
    × (read_key memory (delete memory node []).1 [] ≡ ok none)
delete_empty_key_example = delete_empty_key memory node empty_kv refl refl reads_empty

-- If "a" is at revision 3, "a" is deleted and "b" put; else nothing.
abbrev request : TxnRequest
request = record {
  conditions =
      (record {
        key = ascii "a";
        target = cond_mod;
        result = cond_equal;
        mod_revision = 3;
        create_revision = 0;
        version = 0;
        value = [];
        lease = 0;
      })
      ∷ [];
  success =
      (record { type = txn_delete; key = ascii "a"; value = []; lease = 0 })
      ∷ (record { type = txn_put; key = ascii "b"; value = ascii "3"; lease = 0 })
      ∷ [];
  failure = [];
}

abbrev resolved_ops : List Resolved
resolved_ops =
    (record {
      wal_op = op_delete;
      key = ascii "a";
      value = [];
      lease = 0;
      create_revision = 2;
      prev_revision = 3;
      version = 2;
      skip = false;
    })
    ∷ (record {
      wal_op = op_create;
      key = ascii "b";
      value = ascii "3";
      lease = 0;
      create_revision = 0;
      prev_revision = 0;
      version = 1;
      skip = false;
    })
    ∷ []

abbrev txn_entry : Entry
txn_entry = record zero_entry {
  id = 10;
  revision = 8;
  term = 1;
  op = op_txn;
  value = encode_txn_ops (map (sub_op_of 8) resolved_ops);
}

abbrev after_txn : Node (Dict KeyValue)
after_txn = record node { next_rev = 8; next_seq = 10; pending = stage 8 resolved_ops [] }

abbrev commands : List Command
commands =
    put_key (ascii "b") (ascii "2") 0
    ∷ create_key (ascii "a") (ascii "2") 0
    ∷ update_key (ascii "a") (ascii "2") 3 0
    ∷ delete_key_if (ascii "b") 5
    ∷ compact_to 4
    ∷ delete_key (ascii "b")
    ∷ transact request
    ∷ []

abbrev after : Node (Dict KeyValue)
after = run memory node commands

run-Leads_example : Leads 9 7 after.write_c after.next_seq after.next_rev
run-Leads_example =
    run-Leads memory 9 7 commands node
      (tt, (tt, (tt, (unfold bytes_eq in refl, (tt, (unfold bytes_eq in refl, (tt, tt)))))))
      (refl, refl)

-- Put, Update, Compact and Delete sent their entries.
sent_four : map (λ (e : Entry). e.id) after.write_c ≡ 10 ∷ 11 ∷ 12 ∷ 13 ∷ []
unfolding run txn delete compact delete_if_revision update create put read_key lookup insert
    bytes_eq prepare_delete
sent_four = refl
