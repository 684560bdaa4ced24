-- ===== src/Tests/PeerTests.antt =====
-- Runs of the stream of the log between a leader and a follower.
use mathlib.Core.List.{Memᴰ}
use t.Prelude.{
  ℕ, ◌+◌, ◌*◌, ◌<◌, ◌≡◌, ◌⊎◌, refl, true, false, none, some, List, [], ◌∷◌, ascii, length, arith,
  bytes_eq,
}
use t.Prelude.Word.{lt64}
use t.Prelude.Dict.{lookup, insert}
use t.Result.{ok}
use t.Wal.{Entry, op_create, sequence}
use t.Peer.Stream.{
  FollowRequest, entry_to_msg, commit_msg, snapshot_msgs, msg_to_entry, since, from_first, push,
}
use t.Peer.Server.{
  Server, Stream, wait_quorum, wait_all, new_server, set_chan, no_channel, join, broadcast,
  broadcast_commit, on_ack, wait_for_followers, ids_of, relay, enough, retain, send_all, fan_out,
  try_send, wait_passes, required_follower_acks, leave,
}
use t.Peer.Server.Quorum.{acked_by, waiting_for, wait_for_followers-quorum}
use t.Peer.Follower.{
  Follower, resync_required, Calls, Session, stream_closed, is_consecutive, follow, follow_once,
  on_msgs, on_msg, on_commit, deliver, drop_below, take_upto, drop_upto, is_range, is_final,
}
use t.Peer.Follower.Applied.{Holds, follow-Holds}
use t.Peer.Follower.CatchUp.{all_succeed, succeeding, Took, join-Took}
use t.Peer.Runs.{IsRun}

abbrev entry : ℕ → Entry
entry n = record {
  id = n;
  revision = n;
  term = 1;
  op = op_create;
  key = ascii "k";
  value = ascii "v";
  lease = 0;
  create_revision = n;
  prev_revision = 0;
  version = 1;
}

-- A leader that has committed three entries before its followers join
abbrev committed : Server
committed = record (new_server 8) {
  buf = record { entries = entry 5 ∷ entry 6 ∷ entry 7 ∷ []; cap = 8 };
  max_broadcast_rev = 7;
  start_rev = 5;
}

abbrev late : Follower
late = record { next_rev = 6; staged = []; node_rev = 6; log = []; acks = []; applied = [] }

abbrev joined_server : Server
joined_server = record committed {
  followers = (ascii "two", 0) ∷ [];
  chans = set_chan committed.chans 0 no_channel;
  next_chan = 1;
}

abbrev late_request : FollowRequest
late_request = record { from_revision = 6; node_id = ascii "two" }

abbrev late_stream : Stream
late_stream = record {
  node_id = ascii "two";
  chan = 0;
  snapshot = entry 6 ∷ entry 7 ∷ [];
  max_sent = 7;
}

join_late : join late_request committed ≡ ok (joined_server, late_stream)
unfolding join since from_first insert new_server sequence
join_late = refl

committed-IsRun : IsRun 5 committed.buf.entries
unfolding sequence new_server
committed-IsRun = (refl, (refl, (refl, omega arith)))

join-Took_example :
    (f' : Follower) × (follow_once
        (record { msgs = succeeding (snapshot_msgs late_stream.snapshot); end = stream_closed })
        late
      ≡ (f', stream_closed))
    × Took 6 late_stream.snapshot late f'
    × ((e : Entry)
        → Memᴰ e committed.buf.entries
        → Memᴰ e late_stream.snapshot ⊎ (lt64 (sequence e) 6 ≡ true))
join-Took_example =
    join-Took committed joined_server late_stream (ascii "two") 5 late stream_closed committed-IsRun
      (omega arith) (omega arith) (omega arith) refl join_late

-- The first session breaks at Apply, so that its batch is in the log and not applied; the second
-- brings the entry after it.
abbrev apply_fails : Calls
apply_fails = record { appends = true; sends = true; applies = false }

abbrev broken : List Session
broken =
    record {
      msgs = (all_succeed, entry_to_msg (entry 6)) ∷ (apply_fails, commit_msg 6 6) ∷ [];
      end = stream_closed;
    }
    ∷ record { msgs = succeeding (snapshot_msgs (entry 7 ∷ [])); end = stream_closed }
    ∷ []

late_holds : Holds 6 late
unfolding is_consecutive
late_holds = record { consecutive = refl; next = refl }

follow-Holds_example : Holds 6 (follow 0 0 broken late).0
follow-Holds_example = follow-Holds 6 0 0 broken late late_holds

-- The entry after the batch is refused, and Follow returns.
broken_resync : follow 0 0 broken late ≡ (
  record late { next_rev = 7; staged = entry 7 ∷ []; log = entry 6 ∷ []; acks = 6 ∷ [] },
  some resync_required,
)
unfolding follow follow_once on_msgs on_msg on_commit deliver drop_below take_upto drop_upto
    is_range is_consecutive is_final snapshot_msgs entry_to_msg msg_to_entry sequence
broken_resync = refl

-- Two followers, of which one has acknowledged
abbrev two_followers : Server
two_followers = record committed {
  followers = (ascii "two", 0) ∷ (ascii "six", 1) ∷ [];
  follower_ack_revs = (ascii "two", 7) ∷ [];
  next_chan = 2;
}

two_followers-done :
    wait_for_followers 7 wait_quorum two_followers (two_followers ∷ []) ≡ some two_followers
unfolding wait_for_followers wait_passes enough required_follower_acks lookup bytes_eq new_server
two_followers-done = refl

wait_for_followers-quorum_example :
    Memᴰ two_followers (two_followers ∷ two_followers ∷ [])
    × ((length two_followers.followers + 1
          < 2 * (acked_by two_followers 7 (ids_of two_followers.followers) + 1))
        ⊎ (waiting_for two_followers 7 (ids_of two_followers.followers) ≡ 0))
wait_for_followers-quorum_example =
    wait_for_followers-quorum 7 two_followers (two_followers ∷ []) two_followers two_followers-done

-- One acknowledgement of two is not enough where all are awaited.
one_waits : wait_for_followers 7 wait_all two_followers (two_followers ∷ []) ≡ none
unfolding wait_for_followers wait_passes enough required_follower_acks lookup bytes_eq new_server
one_waits = refl

-- A broadcast and its commit: the entry is in the buffer, and both messages are on their way.
abbrev live : Server
live = broadcast_commit 8 8 (broadcast (entry 8) joined_server)

live_queue : (live.chans 0).queue ≡ entry_to_msg (entry 8) ∷ commit_msg 8 8 ∷ []
unfolding broadcast_commit broadcast retain send_all fan_out try_send push new_server sequence
live_queue = refl

live_buffer : live.buf.entries ≡ entry 5 ∷ entry 6 ∷ entry 7 ∷ entry 8 ∷ []
unfolding broadcast_commit broadcast retain send_all fan_out try_send push new_server sequence
live_buffer = refl

-- The commit of what the snapshot had is sent, the entry is not.
relayed : relay 7 (entry_to_msg (entry 7) ∷ commit_msg 7 7 ∷ []) ≡ commit_msg 7 7 ∷ []
unfolding relay entry_to_msg sequence
relayed = refl

acked_twice :
    (on_ack late_stream 6 (on_ack late_stream 7 joined_server)).follower_ack_revs
    ≡ (ascii "two", 7) ∷ []
unfolding on_ack lookup insert bytes_eq new_server
acked_twice = refl

gone : (leave late_stream joined_server).disconnect_c ≡ true
unfolding leave lookup bytes_eq new_server
gone = refl
