-- ===== src/Peer/Follower/CatchUp.antt =====
-- A follower that joins, and one that takes a committed batch: what it appends and applies.
use mathlib.Core.List.{Memᴰ, append_assoc, append-nil}
use mathlib.Core.Option.{some-injective}
use mathlib.Core.Path.{subst}
use t.Prelude.{
  ℕ, suc, ◌+◌, ◌≤◌, ◌<◌, ◌≡◌, ◌⊎◌, refl, sym, ap, ◌∙◌, true, false, ◌&&◌, Option, none, some, List,
  [], ◌∷◌, ◌++◌, ◌==◌, ==_refl, map, Bytes, length, arith, Bool-cases, Option-cases, inl, inr,
}
use t.Prelude.Word.{sign_bit, add64, lt64}
use t.Wal.{Entry, sequence}
use t.Peer.Stream.{
  WalEntryMsg, entry_to_msg, commit_msg, last_sequence, snapshot_msgs, from_first, since,
  FollowRequest,
}
use t.Result.{ok, ok_unique}
use t.Peer.Server.{Server, Stream, join}
use t.Peer.Runs.{
  from_first-IsRun, from_first-all, IsRun, IsRun-fits, IsRun-consecutive, drop_below-IsRun,
  take_upto-IsRun, last_sequence-IsRun, carried, IsRun-carried, last_sequence-carried,
}
use t.Peer.Follower.{
  Follower, FollowError, Calls, Session, is_consecutive, is_range, deliver, on_commit, on_msg,
  on_msgs, follow_once,
}

abbrev pub all_succeed : Calls
all_succeed = record { appends = true; sends = true; applies = true }

-- Messages whose calls all succeed
abbrev pub succeeding : List WalEntryMsg → List (Calls × WalEntryMsg)
succeeding ms = map (λ m. (all_succeed, m)) ms

on_msgs-entries :
    (es : List Entry) (ms : List WalEntryMsg) (f : Follower)
    → on_msgs (succeeding (map entry_to_msg es ++ ms)) f
      ≡ on_msgs (succeeding ms) (record f { staged = f.staged ++ map carried es })
unfolding on_msgs on_msg entry_to_msg
on_msgs-entries [] ms f =
    ap (λ l. on_msgs (succeeding ms) (record f { staged = l })) (sym (append-nil f.staged))
on_msgs-entries (e ∷ es) ms f =
    on_msgs-entries es ms (record f { staged = f.staged ++ carried e ∷ [] })
    ∙ ap (λ l. on_msgs (succeeding ms) (record f { staged = l }))
        (append_assoc f.staged (carried e ∷ []) (map carried es))

-- The follower that has taken a batch
abbrev pub took : ℕ → List Entry → Follower → Follower
took last es f = record {
  next_rev = suc last;
  staged = [];
  node_rev = suc last;
  log = f.log ++ es;
  acks = f.acks ++ last ∷ [];
  applied = f.applied ++ es;
}

deliver-took :
    (start : ℕ) (es : List Entry) (f : Follower)
    → is_consecutive f.node_rev es ≡ true
    → lt64 f.next_rev (add64 (last_sequence start es) 1) ≡ true
    → add64 (last_sequence start es) 1 ≡ suc (last_sequence start es)
    → deliver all_succeed start es [] f ≡ (took (last_sequence start es) es f, none)
unfolding deliver
deliver-took start es f taken moves one_more = rw (taken, moves, one_more) refl

is_range-last :
    (start : ℕ) (e : Entry) (es : List Entry)
    → sequence e ≡ start
    → is_range start (last_sequence start (e ∷ es)) (e ∷ es) ≡ true
unfolding is_range
is_range-last start e es first =
    let here : (sequence e == start) ≡ true = ground (arith, first) in
    rw (here, ==_refl (last_sequence (sequence e) es)) refl

on_commit-IsRun :
    (start : ℕ) (e : Entry) (es : List Entry) (f : Follower)
    → IsRun start (e ∷ es)
    → f.next_rev ≡ start
    → f.node_rev ≡ start
    → on_commit all_succeed start (last_sequence start (e ∷ es)) (record f { staged = e ∷ es })
      ≡ (took (last_sequence start (e ∷ es)) (e ∷ es) f, none)
unfolding on_commit
on_commit-IsRun start e es f run next node =
    let last = last_sequence start (e ∷ es) in
    let len : suc last ≡ start + length (e ∷ es) = last_sequence-IsRun start start e es run in
    let fits = IsRun-fits start (e ∷ es) run in
    let (all, nothing) = take_upto-IsRun last start (e ∷ es) run (omega arith) (omega arith) in
    let new : lt64 last f.next_rev ≡ false = ground (arith, len, fits, next) in
    let moves : lt64 f.next_rev (add64 last 1) ≡ true = ground (arith, len, fits, next) in
    let one_more : add64 last 1 ≡ suc last = omega arith in
    let consecutive = IsRun-consecutive start (e ∷ es) run in
    let at_node : is_consecutive f.node_rev (e ∷ es) ≡ true = rw node consecutive in
    rw
      (
        drop_below-IsRun start start (e ∷ es) (omega arith) run,
        all,
        nothing,
        new,
        is_range-last start e es run.0,
        consecutive,
      )
      (deliver-took start (e ∷ es) (record f { staged = e ∷ es }) at_node moves one_more)

on_msgs-one :
    (calls : Calls) (m : WalEntryMsg) (f f' : Follower)
    → on_msg calls m f ≡ (f', none)
    → on_msgs ((calls, m) ∷ []) f ≡ (f', none)
unfolding on_msgs
on_msgs-one calls m f f' taken =
    let done : (on_msg calls m f).1 ≡ none = cc taken in
    let same : (on_msg calls m f).0 ≡ f' = cc taken in
    let nothing : Option FollowError = none in
    rw (on_msgs, done) (ap (λ (x : Follower). (x, nothing)) same)

on_msg-commit :
    (start last : ℕ) (f : Follower)
    → 0 < start
    → on_msg all_succeed (commit_msg start last) f ≡ on_commit all_succeed start last f
unfolding on_msg
on_msg-commit start last f positive =
    let given : (start == 0) ≡ false = ground (arith, positive) in rw (on_msg, given) refl

on_msgs-commit :
    (start last : ℕ) (f f' : Follower)
    → 0 < start
    → on_commit all_succeed start last f ≡ (f', none)
    → on_msgs (succeeding (commit_msg start last ∷ [])) f ≡ (f', none)
on_msgs-commit start last f f' positive taken =
    on_msgs-one all_succeed (commit_msg start last) f f'
      (on_msg-commit start last f positive ∙ taken)

follow_once-on_msgs :
    (s : Session) (f f' : Follower)
    → on_msgs s.msgs (record f { staged = [] }) ≡ (f', none)
    → follow_once s f ≡ (f', s.end)
unfolding follow_once
follow_once-on_msgs s f f' taken = rw taken refl

-- The messages of a run and its commit, taken by a follower that awaits the first of them
on_msgs-IsRun :
    (start : ℕ) (e : Entry) (es : List Entry) (f : Follower)
    → IsRun start (e ∷ es)
    → 0 < start
    → f.next_rev ≡ start
    → f.node_rev ≡ start
    → on_msgs
        (succeeding
          (map entry_to_msg (e ∷ es) ++ commit_msg start (last_sequence start (e ∷ es)) ∷ []))
        (record f { staged = [] })
      ≡ (took (last_sequence start (e ∷ es)) (map carried (e ∷ es)) f, none)
on_msgs-IsRun start e es f run positive next node =
    let last = last_sequence start (e ∷ es) in
    let same : last_sequence start (map carried (e ∷ es)) ≡ last =
      last_sequence-carried start (e ∷ es) in
    let at_last =
      subst
        (λ (n : ℕ).
          on_commit all_succeed start n (record f { staged = map carried (e ∷ es) })
          ≡ (took n (map carried (e ∷ es)) f, none))
        same
        (on_commit-IsRun start (carried e) (map carried es) f (IsRun-carried start (e ∷ es) run)
          next node) in
    on_msgs-entries (e ∷ es) (commit_msg start last ∷ []) (record f { staged = [] })
    ∙ on_msgs-commit start last (record f { staged = map carried (e ∷ es) }) _ positive at_last

snapshot_msgs-IsRun :
    (start : ℕ) (e : Entry) (es : List Entry)
    → sequence e ≡ start
    → snapshot_msgs (e ∷ es)
      ≡ map entry_to_msg (e ∷ es) ++ commit_msg start (last_sequence start (e ∷ es)) ∷ []
unfolding snapshot_msgs
snapshot_msgs-IsRun start e es first =
    ap (λ (n : ℕ). map entry_to_msg (e ∷ es) ++ commit_msg n (last_sequence start (e ∷ es)) ∷ [])
      first

-- A follower after a session that has brought it a list of entries
pub record Took (start : ℕ) (es : List Entry) (f f' : Follower) : Type 0 where
  pub log : f'.log ≡ f.log ++ map carried es
  pub applied : f'.applied ≡ f.applied ++ map carried es
  pub next : f'.next_rev ≡ start + length es
  pub node : f'.node_rev ≡ start + length es

snapshot-Took :
    (start : ℕ) (es : List Entry) (f : Follower) (end : FollowError)
    → IsRun start es
    → 0 < start
    → f.next_rev ≡ start
    → f.node_rev ≡ start
    → (f' : Follower) × (follow_once (record { msgs = succeeding (snapshot_msgs es); end = end }) f
        ≡ (f', end))
      × Took start es f f'
unfolding snapshot_msgs on_msgs
snapshot-Took start [] f end run positive next node = (
  record f { staged = [] },
  follow_once-on_msgs (record { msgs = []; end = end }) f (record f { staged = [] }) refl,
  record {
    log = sym (append-nil f.log);
    applied = sym (append-nil f.applied);
    next = omega (arith, next);
    node = omega (arith, node);
  },
)
snapshot-Took start (e ∷ es) f end run positive next node =
    let last = last_sequence start (e ∷ es) in
    let len = last_sequence-IsRun start start e es run in
    let msgs = snapshot_msgs-IsRun start e es run.0 in
    (
      took last (map carried (e ∷ es)) f,
      follow_once-on_msgs (record { msgs = succeeding (snapshot_msgs (e ∷ es)); end = end }) f _
          (ap (λ ms. on_msgs (succeeding ms) (record f { staged = [] })) msgs
            ∙ on_msgs-IsRun start e es f run positive next node),
      record { log = refl; applied = refl; next = len; node = len },
    )

since-from_first :
    (from : ℕ) (es snapshot : List Entry)
    → since from es ≡ some snapshot
    → snapshot ≡ from_first from es
unfolding since from_first
since-from_first from [] snapshot h = sym (some-injective _ _ h)
since-from_first from (e ∷ es) snapshot h = elim (Bool-cases (lt64 from (sequence e))) [
  | inl early ↦ absurd (cc (rw early at h))
  | inr covered ↦ sym (some-injective _ _ (rw covered at h))
]

join-snapshot :
    (req : FollowRequest) (s s' : Server) (st : Stream)
    → join req s ≡ ok (s', st)
    → st.snapshot ≡ from_first req.from_revision s.buf.entries
unfolding join
join-snapshot req s s' st joins =
    elim (Bool-cases (lt64 0 s.start_rev && lt64 req.from_revision s.start_rev)) [
      | inl behind ↦ absurd (cc (rw (join, behind) at joins))
      | inr there ↦ elim (Option-cases (since req.from_revision s.buf.entries)) [
        | inl missed ↦ absurd (cc (rw (join, there, missed) at joins))
        | inr (snapshot, found) ↦
            let same = rw (join, there, found) at joins in
            ap (λ (r : Server × Stream). r.1.snapshot) (sym (ok_unique _ _ _ refl same))
            ∙ since-from_first req.from_revision s.buf.entries snapshot found
      ]
    ]

-- A follower joins a leader whose ring buffer holds consecutive sequences and does not start after
-- the one that the follower awaits, a positive int64. If its calls succeed and the stream ends with
-- an error after the snapshot and its commit, then it has appended and applied the snapshot's
-- entries, and awaits the sequence after them; every entry of the buffer that is not in the snapshot
-- is below the one that it awaited.
pub join-Took :
    (s s' : Server) (st : Stream) (id : Bytes) (first : ℕ) (f : Follower) (end : FollowError)
    → IsRun first s.buf.entries
    → first ≤ f.next_rev
    → 0 < f.next_rev
    → f.next_rev < sign_bit
    → f.node_rev ≡ f.next_rev
    → join (record { from_revision = f.next_rev; node_id = id }) s ≡ ok (s', st)
    → (f' : Follower) × (follow_once
          (record { msgs = succeeding (snapshot_msgs st.snapshot); end = end })
          f
        ≡ (f', end))
      × Took f.next_rev st.snapshot f f'
      × ((e : Entry)
          → Memᴰ e s.buf.entries
          → Memᴰ e st.snapshot ⊎ (lt64 (sequence e) f.next_rev ≡ true))
join-Took s s' st id first f end run le positive fits node joins =
    let snapshot =
      join-snapshot (record { from_revision = f.next_rev; node_id = id }) s s' st joins in
    let there =
      subst (λ es. IsRun f.next_rev es) (sym snapshot)
        (from_first-IsRun f.next_rev first s.buf.entries le fits run) in
    let (f', ends, took) = snapshot-Took f.next_rev st.snapshot f end there positive refl node in
    (
      f',
      ends,
      took,
      λ e i.
          subst (λ es. Memᴰ e es ⊎ (lt64 (sequence e) f.next_rev ≡ true)) (sym snapshot)
            (from_first-all f.next_rev s.buf.entries e i),
    )
