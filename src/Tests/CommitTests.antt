-- ===== src/Tests/CommitTests.antt =====
-- Runs of the commit loop.
use t.Prelude.{◌≡◌, refl, Option, none, some, List, [], ◌∷◌, ascii, arith, true, bytes_eq}
use t.Prelude.Dict.{Dict, lookup}
use t.Wal.{Entry, op_create}
use t.Store.KeyValue.{KeyValue}
use t.Node.{PendingKv}
use t.Node.Writes.{zero_entry}
use t.Node.Deletes.{compact, compact_entry}
use t.Node.Commands.{compact_to, exec}
use t.Node.Commit.{Leader, clear_pending_batch, commit_batch}
use t.Node.Commit.Clearing.{clear_pending_batch-lookup, batch_writes, unless_written}
use t.Node.Commit.Holes.{abandoned_leaves_hole, after_abandoned, after_both}
use t.Replay.{find_hole, missing_sequence}
use t.Tests.NodeTests.{memory, node}

-- The store takes every batch.
abbrev keeps : Dict KeyValue → List Entry → Option (Dict KeyValue)
keeps db es = some db

abbrev fresh : Leader (Dict KeyValue)
fresh = record { node = node; log = [] }

abbrev first : Entry
first = compact_entry node 3

abbrev second : Entry
second = compact_entry (after_abandoned memory keeps fresh (compact_to 3)).node 4

abandoned_leaves_hole_example :
    ((after_both memory keeps fresh (compact_to 3) (compact_to 4)).log ≡ second ∷ [])
    × (find_hole 10 (second ∷ []) ≡ some (missing_sequence 10 11))
unfolding exec commit_batch compact
abandoned_leaves_hole_example =
    abandoned_leaves_hole memory keeps fresh (compact_to 3) (compact_to 4) first second tt tt
      (omega arith) refl refl refl

abbrev written_a : Entry
written_a = record zero_entry { id = 10; revision = 8; op = op_create; key = ascii "a" }

abbrev newer : PendingKv
newer = record { rev = 9; deleted = true; kv = none }

clear_pending_batch-lookup_example :
    lookup (ascii "a") (clear_pending_batch (written_a ∷ []) ((ascii "a", newer) ∷ []))
    ≡ unless_written
        (λ r. batch_writes (written_a ∷ []) (ascii "a") r)
        (lookup (ascii "a") ((ascii "a", newer) ∷ []))
clear_pending_batch-lookup_example =
    clear_pending_batch-lookup (written_a ∷ []) ((ascii "a", newer) ∷ []) (ascii "a")

-- A newer value of the key stays.
newer_stays :
    lookup (ascii "a") (clear_pending_batch (written_a ∷ []) ((ascii "a", newer) ∷ [])) ≡ some newer
unfolding clear_pending_batch lookup bytes_eq
newer_stays = refl

-- A pending value of the empty key stays although its entry is committed.
empty_key_stays :
    lookup [] (
      clear_pending_batch
        (record written_a { key = [] } ∷ [])
        (([], record newer { rev = 8 }) ∷ []))
    ≡ some (record newer { rev = 8 })
unfolding clear_pending_batch lookup bytes_eq
empty_key_stays = refl
