-- ===== src/Tests/ReplayTests.antt =====
-- A replay of two terms that overlap.
use t.Prelude.{true, ◌<◌, ◌≡◌, refl, ℕ, List, [], ◌∷◌, Bytes, ascii}
use t.Prelude.Word.{lt64}
use t.Wal.ObjectKey.{parse_wal_key}
use t.Result.{ok}
use t.Wal.{Entry, op_create, sequence}
use t.Replay.{replay_remote}
use t.Replay.Superseded.{replay_remote_superseded}
use t.Replay.Merged.{replay_remote_sound, Consecutive, collected, Covers}
use mathlib.Core.List.{Memᴰ}

abbrev at_sequence : ℕ → ℕ → Entry
at_sequence term s = record {
  id = s;
  revision = s;
  term = term;
  op = op_create;
  key = ascii "a";
  value = [];
  lease = 0;
  create_revision = s;
  prev_revision = 0;
  version = 1;
}

abbrev segments : List (Bytes × List Entry)
segments =
    (
      ascii "wal/0000000001/00000000000000000001",
      at_sequence 1 1 ∷ at_sequence 1 2 ∷ at_sequence 1 3 ∷ [],
    )
    ∷ (ascii "wal/0000000002/00000000000000000003", at_sequence 2 3 ∷ [])
    ∷ []

abbrev replayed : List Entry
replayed = at_sequence 1 2 ∷ at_sequence 2 3 ∷ []

-- The collected entries are in order already.
abbrev unsorted : List Entry → List Entry
unsorted es = es

replays : replay_remote unsorted segments 1 ≡ ok replayed
unfolding replay_remote sequence
replays = refl

replay_remote_sound_example :
    Consecutive 2 replayed
    × ((y : Entry) → Memᴰ y replayed → Memᴰ y (collected segments 1))
    × ((x : Entry) → Memᴰ x (collected segments 1) → Covers replayed x)
replay_remote_sound_example =
    replay_remote_sound unsorted segments 1 replayed (λ xs x. (λ i. i, λ i. i)) replays

replay_remote_superseded_example :
    (key : Bytes) × (written : List Entry) × Memᴰ (key, written) segments
    × Memᴰ (at_sequence 1 2) written
    × (lt64 1 (sequence (at_sequence 1 2)) ≡ true)
    × ((newer : Bytes) (others : List Entry)
        → Memᴰ (newer, others) segments
        → (parse_wal_key key).0 < (parse_wal_key newer).0
        → lt64 (sequence (at_sequence 1 2)) (parse_wal_key newer).1 ≡ true)
replay_remote_superseded_example =
    replay_remote_superseded unsorted segments 1 replayed (at_sequence 1 2)
      (λ xs x. (λ i. i, λ i. i)) replays (Memᴰ.head refl)
