-- ===== src/Peer/Server.antt =====
-- internal/peer/server.go: what the leader keeps of its followers. A section under the mutex is one
-- function. A channel is the list of the messages in it; the stream of a follower holds its channel
-- by number, also after the map has another one or none for its id. The order in which Go goes
-- over a map is that of the list. The metrics and the forward handler are left out.
pub mod Quorum
use t.Prelude.{
  ℕ, ◌+◌, ◌-◌, ◌/◌, Bool, true, false, not, ◌&&◌, ◌||◌, Option, none, some, List, [], ◌∷◌, ◌++◌,
  Bytes, ◌==◌, ltb, leb, bytes_eq, length, if◌then◌else◌,
}
use t.Prelude.Word.{sign_bit, add64, sub64, lt64, le64}
use t.Prelude.Dict.{Dict, lookup, insert, remove}
use t.Result.{Result, ok, err}
use t.Wal.{Entry, sequence}
use t.Peer.Stream.{
  FollowRequest, WalEntryMsg, EntryBuffer, entry_to_msg, commit_msg, empty_msg, push, since,
  last_sequence,
}
use t.Peer.Follower.{FollowError, resync_required}

pub data WaitMode : Type 0 where
  wait_none wait_quorum wait_all wait_default : WaitMode

pub record Channel : Type 0 where
  pub queue : List WalEntryMsg
  pub is_closed : Bool

-- The capacity of a follower's channel
abbrev pub channel_cap : ℕ
channel_cap = 512

-- `chans` are all channels that were made, the next one with the number `next_chan`. The channels
-- of capacity 1, `ack_notify` and `disconnect_c`, hold a value or not.
pub record Server : Type 0 where
  pub buf : EntryBuffer
  pub pending : List Entry
  pub followers : Dict ℕ
  pub follower_ack_revs : Dict ℕ
  pub max_broadcast_rev : ℕ
  pub start_rev : ℕ
  pub graceful_goodbyes : Dict (Unit {0})
  pub is_shutdown : Bool
  pub ack_notify : Bool
  pub disconnect_c : Bool
  pub chans : ℕ → Channel
  pub next_chan : ℕ

abbrev pub no_channel : Channel
no_channel = record { queue = []; is_closed = false }

unfoldable pub new_server : ℕ → Server
new_server cap = record {
  buf = record { entries = []; cap = cap };
  pending = [];
  followers = [];
  follower_ack_revs = [];
  max_broadcast_rev = 0;
  start_rev = 0;
  graceful_goodbyes = [];
  is_shutdown = false;
  ack_notify = false;
  disconnect_c = false;
  chans = λ c. no_channel;
  next_chan = 0;
}

unfoldable pub connected_followers : Server → ℕ
connected_followers s = length s.followers

unfoldable pub set_start_rev : ℕ → Server → Server
set_start_rev rev s = record s { start_rev = rev }

abbrev pub set_chan : (ℕ → Channel) → ℕ → Channel → ℕ → Channel
set_chan chans c ch d = if c == d then ch else chans d

-- `select { case ch <- msg: default: }`, `none` where the channel is full
unfoldable pub try_send : WalEntryMsg → Channel → Option Channel
try_send msg ch =
    if ltb (length ch.queue) channel_cap
    then some (record ch { queue = ch.queue ++ msg ∷ [] })
    else none

-- The loop over the followers: a full channel is closed, and its follower leaves the map.
unfoldable pub fan_out : WalEntryMsg → Dict ℕ → (ℕ → Channel) → Dict ℕ × (ℕ → Channel)
unfolding try_send
fan_out msg [] chans = ([], chans)
fan_out msg ((id, c) ∷ fs) chans = elim (try_send msg (chans c)) [
  | some ch ↦ let (fs', chans') = fan_out msg fs (set_chan chans c ch) in ((id, c) ∷ fs', chans')
  | none ↦ fan_out msg fs (set_chan chans c (record (chans c) { is_closed = true }))
]

unfoldable pub send_all : WalEntryMsg → Server → Server
unfolding fan_out
send_all msg s =
    let (fs, chans) = fan_out msg s.followers s.chans in record s { followers = fs; chans = chans }

unfoldable pub broadcast : Entry → Server → Server
unfolding send_all entry_to_msg
broadcast e s = send_all (entry_to_msg e) (record s { pending = s.pending ++ e ∷ [] })

-- The loop over the pending entries: older ones go, those of the range are kept for replay.
unfoldable pub retain : ℕ → ℕ → List Entry → EntryBuffer → ℕ → EntryBuffer × ℕ × List Entry
unfolding push
retain start rev [] buf max = (buf, max, [])
retain start rev (e ∷ es) buf max =
    let dropped = retain start rev es buf max in
    let pushed =
      retain start rev es (push e buf) (if lt64 max (sequence e) then sequence e else max) in
    let (buf', max', keep) = retain start rev es buf max in
    if lt64 (sequence e) start
    then dropped
    else if le64 (sequence e) rev
    then pushed
    else (buf', max', e ∷ keep)

unfoldable pub broadcast_commit : ℕ → ℕ → Server → Server
unfolding retain send_all
broadcast_commit start rev s =
    let (buf, max, keep) = retain start rev s.pending s.buf s.max_broadcast_rev in
    send_all (commit_msg start rev)
      (record s { buf = buf; max_broadcast_rev = max; pending = keep })

-- The first section of Follow: the snapshot, the channel and the greatest sequence sent.
pub record Stream : Type 0 where
  pub node_id : Bytes
  pub chan : ℕ
  pub snapshot : List Entry
  pub max_sent : ℕ

abbrev joined : FollowRequest → Server → List Entry → Server × Stream
joined req s snapshot = (
  record s {
    followers = insert req.node_id s.next_chan s.followers;
    chans = set_chan s.chans s.next_chan no_channel;
    next_chan = s.next_chan + 1;
  },
  record {
    node_id = req.node_id;
    chan = s.next_chan;
    snapshot = snapshot;
    max_sent = last_sequence (sub64 req.from_revision 1) snapshot;
  },
)

unfoldable pub join : FollowRequest → Server → Result FollowError (Server × Stream)
unfolding since insert
join req s =
    if lt64 0 s.start_rev && lt64 req.from_revision s.start_rev
    then err resync_required
    else elim (since req.from_revision s.buf.entries) [
      | none ↦ err resync_required
      | some snapshot ↦ ok (joined req s snapshot)
    ]

-- The loop of Follow over what its channel holds: an entry that the snapshot had is passed over.
unfoldable pub relay : ℕ → List WalEntryMsg → List WalEntryMsg
relay max_sent [] = []
relay max_sent (m ∷ ms) =
    let rest = relay max_sent ms in
    let sent = relay (if m.commit then max_sent else m.id) ms in
    if not m.commit && le64 m.id max_sent then rest else m ∷ sent

-- The deferred function of Follow
abbrev pub owns : Stream → Server → Bool
owns st s = elim (lookup st.node_id s.followers) [ none ↦ false | some c ↦ c == st.chan ]

abbrev said_goodbye : Bytes → Server → Bool
said_goodbye id s = elim (lookup id s.graceful_goodbyes) [ none ↦ false | some u ↦ true ]

unfoldable pub leave : Stream → Server → Server
unfolding lookup remove
leave st s = if not (owns st s) then s else record s {
  followers = remove st.node_id s.followers;
  follower_ack_revs = remove st.node_id s.follower_ack_revs;
  graceful_goodbyes = remove st.node_id s.graceful_goodbyes;
  disconnect_c = if said_goodbye st.node_id s then s.disconnect_c else true;
  ack_notify = true;
}

-- `m[k]`, 0 for a key that is missing
abbrev pub ack_rev : Bytes → Server → ℕ
ack_rev id s = elim (lookup id s.follower_ack_revs) [ none ↦ 0 | some rev ↦ rev ]

-- An acknowledgement that the goroutine of a stream receives
unfoldable pub on_ack : Stream → ℕ → Server → Server
unfolding lookup insert
on_ack st rev s = if not (owns st s) then s else record s {
  follower_ack_revs =
      if lt64 (ack_rev st.node_id s) rev
      then insert st.node_id rev s.follower_ack_revs
      else s.follower_ack_revs;
  ack_notify = true;
}

unfoldable pub good_bye : Bytes → Server → Server
unfolding insert
good_bye id s = record s { graceful_goodbyes = insert id tt s.graceful_goodbyes }

-- A second call finds the channel closed.
unfoldable pub broadcast_shutdown : Server → Server
broadcast_shutdown s = record s { is_shutdown = true }

unfoldable pub required_follower_acks : ℕ → WaitMode → ℕ
required_follower_acks connected wait_none = 0
required_follower_acks connected wait_all = connected
required_follower_acks connected _ = (connected + 1) / 2

abbrev pub is_connected : Bytes → Server → Bool
is_connected id s = elim (lookup id s.followers) [ none ↦ false | some c ↦ true ]

-- One pass over the followers that were connected at the call: true where WaitForFollowers
-- returns, at the last of the acknowledgements that it needs, or with none left to wait for.
unfoldable pub enough : Server → ℕ → ℕ → List Bytes → ℕ → ℕ → Bool
unfolding lookup
enough s rev target [] acked pending = leb target acked || pending == 0
enough s rev target (id ∷ ids) acked pending =
    let skip = enough s rev target ids acked pending in
    let ack =
      if leb target (acked + 1) then true else enough s rev target ids (acked + 1) pending in
    let wait = enough s rev target ids acked (pending + 1) in
    if not (is_connected id s) then skip else if le64 rev (ack_rev id s) then ack else wait

-- WaitForFollowers: the states are those that its passes find, `none` where the context ends
-- before enough followers have acknowledged.
unfoldable pub wait_passes : ℕ → ℕ → List Bytes → List Server → Option Server
unfolding enough
wait_passes rev target ids [] = none
wait_passes rev target ids (s ∷ ss) =
    let rest = wait_passes rev target ids ss in if enough s rev target ids 0 0 then some s else rest

abbrev pub ids_of : Dict ℕ → List Bytes
ids_of [] = []
ids_of ((id, c) ∷ fs) = id ∷ ids_of fs

unfoldable pub wait_for_followers : ℕ → WaitMode → Server → List Server → Option Server
unfolding wait_passes required_follower_acks
wait_for_followers rev mode s ss =
    let target = required_follower_acks (length s.followers) mode in
    if target == 0 then some s else wait_passes rev target (ids_of s.followers) ss

-- The loop of MinFollowerAppliedRev
unfoldable pub min_acked : Server → List Bytes → ℕ → ℕ
unfolding lookup
min_acked s [] min = min
min_acked s (id ∷ ids) min = min_acked s ids (if lt64 (ack_rev id s) min then ack_rev id s else min)

unfoldable pub min_follower_applied_rev : Server → ℕ
unfolding min_acked
min_follower_applied_rev s = min_acked s (ids_of s.followers) (sign_bit - 1)
