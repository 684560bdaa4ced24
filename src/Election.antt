-- ===== src/Election.antt =====
-- internal/election/election.go: the leader lock, one object that is written under a condition on
-- its ETag. The JSON encoding is a parameter. A uint64 term wraps. The store has conditional
-- writes; without them the code falls back to a write that it reads back, which is not modelled.
pub mod Winning
pub mod Runs
use t.Prelude.{
  ℕ, ◌+◌, ◌%◌, ◌≡◌, [], Bool, true, false, not, ◌&&◌, Option, none, some, Bytes, ascii, bytes_eq,
  ltb, leb, if◌then◌else◌,
}
use t.Prelude.Word.{add64, lt64}
use t.Result.{Result, ok, err, ◌>>=◌}
use t.Object.{ConditionalStore}

abbrev pub lock_key : Bytes
lock_key = ascii "leader-lock"

pub record LockRecord : Type 0 where
  pub node_id : Bytes
  pub term : ℕ
  pub leader_addr : Bytes
  pub last_seen_nano : ℕ
  pub committed_rev : ℕ

-- `none` for an object that is absent
abbrev pub Observed : Type 0
Observed = Option (LockRecord × Bytes)

pub data ElectionError : Type 0 where
  decode_lock precondition_failed : ElectionError

-- encoding/json on the lock record
pub record LockJson : Type 0 where
  pub marshal : LockRecord → Bytes
  pub decode : Bytes → Option LockRecord

pub record Lock : Type 0 where
  pub node_id : Bytes
  pub advertise_addr : Bytes

abbrev pub record_in : Observed → Option LockRecord
record_in none = none
record_in (some (rec, etag)) = some rec

-- floorTerm + 1, or one more than a term that is not below it
unfoldable pub new_term : ℕ → Observed → ℕ
new_term floor_term none = add64 floor_term 1
new_term floor_term (some (rec, etag)) =
    if leb (add64 floor_term 1) rec.term then add64 rec.term 1 else add64 floor_term 1

-- The lock of another node that TryAcquire leaves alone
unfoldable pub held_by_other : Lock → Observed → Bool
held_by_other l none = false
held_by_other l (some (rec, etag)) = not (bytes_eq rec.node_id l.node_id)

-- The lock of another node that TakeOver leaves alone: of a higher term, or ahead of this node
unfoldable pub backs_off : Lock → ℕ → ℕ → Observed → Bool
backs_off l floor_term committed_rev none = false
backs_off l floor_term committed_rev (some (rec, etag)) =
    not (bytes_eq rec.node_id l.node_id)
    && (if ltb floor_term rec.term then true else lt64 committed_rev rec.committed_rev)

-- The answer of an attempt: the record of the lock, and whether this node has won it
abbrev pub Outcome : Type 0
Outcome = Result ElectionError (Option LockRecord × Bool)

module _ (o : ConditionalStore) (json : LockJson) where
  abbrev pub decoded : Option (Bytes × Bytes) → Result ElectionError Observed
  decoded none = ok none
  decoded (some (content, etag)) = elim (json.decode content) [
    | none ↦ err decode_lock
    | some rec ↦ ok (some (rec, etag))
  ]

  unfoldable pub read_with_etag : o.State → Result ElectionError Observed
  read_with_etag s = decoded (o.get_etag s lock_key)

  unfoldable pub read : o.State → Result ElectionError (Option LockRecord)
  unfolding read_with_etag
  read s = read_with_etag s >>= λ cur. ok (record_in cur)

  abbrev pub lock_record : Lock → ℕ → ℕ → ℕ → LockRecord
  lock_record l term committed_rev now = record {
    node_id = l.node_id;
    term = term;
    leader_addr = l.advertise_addr;
    last_seen_nano = now;
    committed_rev = committed_rev;
  }

  unfoldable pub put_observed : o.State → Bytes → Observed → Option o.State
  put_observed s b none = o.put_if_absent s lock_key b
  put_observed s b (some (rec, etag)) = o.put_if_match s lock_key b etag

  -- The write of the record, and the read of the winner's where the condition failed
  abbrev pub settle : o.State → LockRecord → Option o.State → o.State × Outcome
  settle s rec (some s') = (s', ok (some rec, true))
  settle s rec none = (s, (read s >>= λ winner. ok (winner, false)))

  unfoldable pub write_atomic : Lock → ℕ → ℕ → ℕ → Observed → o.State → o.State × Outcome
  unfolding put_observed read
  write_atomic l term committed_rev now observed s =
      let rec = lock_record l term committed_rev now in
      settle s rec (put_observed s (json.marshal rec) observed)

  -- TryAcquire and TakeOver read the store in one state and write it in a later one: between the
  -- two, other nodes may have written.
  unfoldable pub try_acquire : Lock → ℕ → ℕ → ℕ → o.State → o.State → o.State × Outcome
  unfolding read_with_etag held_by_other new_term write_atomic
  try_acquire l floor_term committed_rev now at_read s = elim (read_with_etag at_read) [
    | err e ↦ (s, err e)
    | ok cur ↦
        if held_by_other l cur
        then (s, ok (record_in cur, false))
        else write_atomic l (new_term floor_term cur) committed_rev now cur s
  ]

  unfoldable pub take_over : Lock → ℕ → ℕ → ℕ → o.State → o.State → o.State × Outcome
  unfolding read_with_etag backs_off new_term write_atomic
  take_over l floor_term committed_rev now at_read s = elim (read_with_etag at_read) [
    | err e ↦ (s, err e)
    | ok cur ↦
        if backs_off l floor_term committed_rev cur
        then (s, ok (record_in cur, false))
        else write_atomic l (new_term floor_term cur) committed_rev now cur s
  ]

  unfoldable pub release : o.State → o.State
  release s = o.delete s lock_key

  unfoldable pub touch : Lock → ℕ → Bytes → ℕ → ℕ → o.State → o.State
  touch l term leader_addr committed_rev now s =
      o.put s lock_key
        (json.marshal (record (lock_record l term committed_rev now) { leader_addr = leader_addr }))

  unfoldable pub touch_if_match :
      Lock → ℕ → Bytes → Bytes → ℕ → ℕ → o.State → Result ElectionError o.State
  unfolding touch
  touch_if_match l term leader_addr etag committed_rev now s =
      if bytes_eq etag []
      then ok (touch l term leader_addr committed_rev now s)
      else elim (o.put_if_match s lock_key
          (json.marshal
            (record (lock_record l term committed_rev now) { leader_addr = leader_addr }))
          etag) [ none ↦ err precondition_failed | some s' ↦ ok s' ]
