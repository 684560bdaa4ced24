-- ===== src/Peer/Follower.antt =====
-- internal/peer/client.go, Follow and followOnce, with the two functions that followLoop of
-- follower.go hands them: a follower that stages entries until their commit arrives. The messages
-- of a session are those that its loop takes; its end is an error of the stream or a shutdown.
pub mod Applied
pub mod CatchUp
use t.Prelude.{
  ℕ, ◌+◌, Bool, true, false, not, ◌&&◌, ◌||◌, Option, none, some, List, [], ◌∷◌, ◌++◌, ◌==◌, leb,
  ltb, if◌then◌else◌,
}
use t.Prelude.Word.{add64, lt64, le64}
use t.Wal.{Entry, sequence}
use t.Peer.Stream.{WalEntryMsg, msg_to_entry, last_sequence}

pub data FollowError : Type 0 where
  resync_required leader_shutdown leader_unreachable : FollowError
  wal_failed send_failed apply_failed stream_closed : FollowError

-- `next_rev` is the fromRev of Follow and `node_rev` that of followLoop, the variable that only
-- its applyFn moves; `log` and `applied` are what the node has appended and applied.
pub record Follower : Type 0 where
  pub next_rev : ℕ
  pub staged : List Entry
  pub node_rev : ℕ
  pub log : List Entry
  pub acks : List ℕ
  pub applied : List Entry

-- How the calls end that a commit makes: the append to the log, the acknowledgement, Apply
pub record Calls : Type 0 where
  pub appends : Bool
  pub sends : Bool
  pub applies : Bool

-- `for drop < len(staged) && staged[drop].Sequence() < startRev`
unfoldable pub drop_below : ℕ → List Entry → List Entry
drop_below start [] = []
drop_below start (e ∷ es) =
    let rest = drop_below start es in if lt64 (sequence e) start then rest else e ∷ es

-- `for cut < len(staged) && staged[cut].Sequence() <= msg.CommitRevision`, and what it leaves
unfoldable pub take_upto : ℕ → List Entry → List Entry
take_upto rev [] = []
take_upto rev (e ∷ es) =
    let rest = take_upto rev es in if le64 (sequence e) rev then e ∷ rest else []

unfoldable pub drop_upto : ℕ → List Entry → List Entry
drop_upto rev [] = []
drop_upto rev (e ∷ es) =
    let rest = drop_upto rev es in if le64 (sequence e) rev then rest else e ∷ es

-- `e.Sequence() != start+int64(i)`, for no entry
unfoldable pub is_consecutive : ℕ → List Entry → Bool
is_consecutive start [] = true
is_consecutive start (e ∷ es) = sequence e == start && is_consecutive (add64 start 1) es

-- walFn, the acknowledgement and applyFn on a batch; an error carries what the session returns.
unfoldable pub deliver :
    Calls → ℕ → List Entry → List Entry → Follower → Follower × Option FollowError
unfolding is_consecutive
deliver calls start batch rest f =
    let last = last_sequence start batch in
    let logged = record f {
      log = f.log ++ batch;
      next_rev = if lt64 f.next_rev (add64 last 1) then add64 last 1 else f.next_rev;
    } in
    let acked = record logged { acks = f.acks ++ last ∷ [] } in
    if not (is_consecutive f.node_rev batch)
    then (record f { next_rev = start }, some resync_required)
    else if not calls.appends
    then (record f { next_rev = start }, some wal_failed)
    else if not calls.sends
    then (logged, some send_failed)
    else if not calls.applies
    then (acked, some apply_failed)
    else (
      record acked { applied = f.applied ++ batch; node_rev = add64 last 1; staged = rest },
      none,
    )

-- `cut == 0 || staged[0].Sequence() != startRev || staged[cut-1].Sequence() != msg.CommitRevision`
unfoldable pub is_range : ℕ → ℕ → List Entry → Bool
is_range start rev [] = false
is_range start rev (e ∷ es) = sequence e == start && last_sequence (sequence e) es == rev

-- A commit message, its start read as the code reads it
unfoldable pub on_commit : Calls → ℕ → ℕ → Follower → Follower × Option FollowError
on_commit calls start rev f =
    let staged = drop_below start f.staged in
    let batch = take_upto rev staged in
    if lt64 rev f.next_rev
    then (f, none)
    else if not (is_range start rev batch && is_consecutive start batch)
    then (f, some resync_required)
    else deliver calls start batch (drop_upto rev staged) f

unfoldable pub on_msg : Calls → WalEntryMsg → Follower → Follower × Option FollowError
unfolding on_commit msg_to_entry
on_msg calls m f =
    if not m.commit
    then (record f { staged = f.staged ++ msg_to_entry m ∷ [] }, none)
    else on_commit calls
        (if m.commit_start_revision == 0 then m.commit_revision else m.commit_start_revision)
        m.commit_revision f

unfoldable pub on_msgs : List (Calls × WalEntryMsg) → Follower → Follower × Option FollowError
unfolding on_msg
on_msgs [] f = (f, none)
on_msgs ((calls, m) ∷ ms) f =
    let (f', failed) = on_msg calls m f in
    elim failed [ none ↦ on_msgs ms f' | some e ↦ (f', some e) ]

pub record Session : Type 0 where
  pub msgs : List (Calls × WalEntryMsg)
  pub end : FollowError

-- A session starts with nothing staged and ends with an error.
unfoldable pub follow_once : Session → Follower → Follower × FollowError
unfolding on_msgs
follow_once s f =
    let (f', failed) = on_msgs s.msgs (record f { staged = [] }) in
    (f', elim failed [ none ↦ s.end | some e ↦ e ])

-- The errors that Follow returns without another attempt
unfoldable pub is_final : FollowError → Bool
is_final resync_required = true
is_final leader_shutdown = true
is_final _ = false

-- Follow: `failures` attempts in a row have brought nothing; `max_retries` 0 means no limit. The
-- context ends where the sessions do.
unfoldable pub follow : ℕ → ℕ → List Session → Follower → Follower × Option FollowError
unfolding follow_once is_final
follow max_retries failures [] f = (f, none)
follow max_retries failures (s ∷ ss) f =
    let (f', e) = follow_once s f in
    let failures' = if lt64 f.next_rev f'.next_rev then 0 else failures + 1 in
    let rest = follow max_retries failures' ss f' in
    if is_final e
    then (f', some e)
    else if ltb 0 max_retries && leb max_retries failures'
    then (f', some leader_unreachable)
    else rest
