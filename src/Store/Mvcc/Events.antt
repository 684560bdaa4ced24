-- ===== src/Store/Mvcc/Events.antt =====
-- The scan of the log for a watch: one event for each record between two revisions, in order.
use mathlib.Core.List.{Memᴰ}
use mathlib.Core.List.Memᴰ
use t.Prelude.{
  ℕ, ◌≤◌, ◌<◌, ◌≡◌, refl, ap, ◌∙◌, inl, inr, Bool, true, List, [], ◌∷◌, Bytes, has_prefix, arith,
  Bool-cases, if◌then◌else◌,
}
use t.Prelude.Word.{sign_bit}
use t.Result.{ok}
use t.Store.Keys.{log_key}
use t.Store.Record.{Record, marshal_record}
use t.Store.Pebble.{Pebble, Lawful}
use t.Store.Apply.{Store}
use t.Store.Scan.{Event, event_of, scan_records, scan_log}
use t.Store.Mvcc.{Holds, IsReadable, Current}
use t.Store.Mvcc.Keys.{decode_log_key-log_key}
use t.Store.Mvcc.Search.{decode_record-marshal_record}
use t.Store.Mvcc.Past.{History}
use t.Store.Mvcc.Stored.{IsStored}
use t.Store.Mvcc.Visits.{
  IsSorted, empty, entry, Among, visited, visited-IsSorted, Among→Holds, Holds→Among, head_or_tail,
}

-- The revisions of the events rise strictly.
abbrev pub AreRising : List Event → Type 0
AreRising [] = Unit
AreRising (ev ∷ evs) = ((x : Event) → Memᴰ x evs → ev.kv.revision < x.kv.revision) × AreRising evs

module _ (p : Pebble) (db : p.Db) (prefix : Bytes) (with_prev_kv : Bool) where
  -- The event of a record of the pairs that has the prefix
  record IsEvent (kvs : List (Bytes × Bytes)) (ev : Event) : Type 0 where
    rev : ℕ
    r : Record
    among : Among kvs rev r
    under : has_prefix r.key prefix ≡ true
    event : ev ≡ event_of p db with_prev_kv rev r

  record Scanned (kvs : List (Bytes × Bytes)) : Type 0 where
    evs : List Event
    done : scan_records p db prefix with_prev_kv kvs ≡ ok evs
    sound : (ev : Event) → Memᴰ ev evs → IsEvent kvs ev
    complete :
        (rev : ℕ) (r : Record)
        → Among kvs rev r
        → has_prefix r.key prefix ≡ true
        → Memᴰ (event_of p db with_prev_kv rev r) evs
    rising : AreRising evs

  scan_records-cons :
      (rev : ℕ) (r : Record) (kvs : List (Bytes × Bytes)) (evs : List Event)
      → rev < sign_bit
      → IsReadable r
      → scan_records p db prefix with_prev_kv kvs ≡ ok evs
      → scan_records p db prefix with_prev_kv ((log_key rev, marshal_record r) ∷ kvs)
        ≡ ok (if has_prefix r.key prefix then event_of p db with_prev_kv rev r ∷ evs else evs)
  unfolding scan_records
  scan_records-cons rev r kvs evs small readable done =
      rw
        (
          decode_record-marshal_record r readable,
          decode_log_key-log_key rev (omega (arith, small)),
          done,
        )
        refl

  event_revision : (rev : ℕ) (r : Record) → (event_of p db with_prev_kv rev r).kv.revision ≡ rev
  unfolding event_of
  event_revision rev r = refl

  later-IsEvent :
      (x : Bytes × Bytes) (kvs : List (Bytes × Bytes)) (ev : Event)
      → IsEvent kvs ev
      → IsEvent (x ∷ kvs) ev
  unfolding Among
  later-IsEvent x kvs ev e = record {
    rev = e.rev;
    r = e.r;
    among = (e.among.0, e.among.1, Memᴰ.tail e.among.2);
    under = e.under;
    event = e.event;
  }

  scan_one :
      (rev : ℕ) (r : Record) (kvs : List (Bytes × Bytes))
      → rev < sign_bit
      → IsReadable r
      → ((rev' : ℕ) (s : Record)
          → rev' < sign_bit
          → Memᴰ (log_key rev', marshal_record s) kvs
          → rev < rev')
      → Scanned kvs
      → Scanned ((log_key rev, marshal_record r) ∷ kvs)
  unfolding Among
  scan_one rev r kvs small readable first rest = elim (Bool-cases (has_prefix r.key prefix)) [
    | inl under ↦ record {
      evs = event_of p db with_prev_kv rev r ∷ rest.evs;
      done = scan_records-cons rev r kvs rest.evs small readable rest.done ∙ rw under refl;
      sound = λ ev i. elim i [
        | Memᴰ.head e ↦ record {
          rev = rev;
          r = r;
          among = (small, readable, Memᴰ.head refl);
          under = under;
          event = e;
        }
        | Memᴰ.tail i ↦ later-IsEvent (log_key rev, marshal_record r) kvs ev (rest.sound ev i)
      ];
      complete = λ rev' s among u. elim (head_or_tail rev rev' r s kvs small readable among) [
        | inl (e, e') ↦ Memᴰ.head (cc (e, e'))
        | inr later ↦ Memᴰ.tail (rest.complete rev' s later u)
      ];
      rising = (
        (λ x i.
            let e = rest.sound x i in
            omega (
              arith,
              event_revision rev r,
              event_revision e.rev e.r,
              ap (λ (y : Event). y.kv.revision) e.event,
              first e.rev e.r e.among.0 e.among.2,
            )),
        rest.rising,
      );
    }
    | inr apart ↦ record {
      evs = rest.evs;
      done = scan_records-cons rev r kvs rest.evs small readable rest.done ∙ rw apart refl;
      sound = λ ev i. later-IsEvent (log_key rev, marshal_record r) kvs ev (rest.sound ev i);
      complete = λ rev' s among u. elim (head_or_tail rev rev' r s kvs small readable among) [
        | inl (e, e') ↦ absurd (cc (apart, u, e'))
        | inr later ↦ rest.complete rev' s later u
      ];
      rising = rest.rising;
    }
  ]

  scan_records-total : (kvs : List (Bytes × Bytes)) → IsSorted kvs → Scanned kvs
  unfolding scan_records Among
  scan_records-total _ empty = record {
    evs = [];
    done = refl;
    sound = λ ev i. absurd (Memᴰ.not-nil i);
    complete = λ rev r (small, readable, i) u. absurd (Memᴰ.not-nil i);
    rising = tt;
  }
  scan_records-total _ (entry rev r kvs small readable first sorted) =
      scan_one rev r kvs small readable first (scan_records-total kvs sorted)

-- On a store that stands for a map, the scan of the log from one revision to another, both below
-- 2 ^ 63, gives no error and events whose revisions rise strictly: for every record that the log
-- holds between the two, under a key with the prefix, its event, and no other.
pub scan_log_iff :
    (p : Pebble)
    → Lawful p
    → (s : Store p) (m : Current) (low : ℕ) (hist : History) (prefix : Bytes) (from_rev to_rev : ℕ)
      (with_prev_kv : Bool)
    → IsStored p s m low hist
    → from_rev < sign_bit
    → to_rev < sign_bit
    → (evs : List Event) × (scan_log p s.db prefix from_rev to_rev with_prev_kv ≡ ok evs)
      × AreRising evs
      × ((rev : ℕ) (r : Record)
          → from_rev ≤ rev
          → rev ≤ to_rev
          → Holds (p.get s.db) rev r
          → has_prefix r.key prefix ≡ true
          → Memᴰ (event_of p s.db with_prev_kv rev r) evs)
      × ((ev : Event)
          → Memᴰ ev evs
          → (rev : ℕ) × (r : Record) × (from_rev ≤ rev)
            × (rev ≤ to_rev)
            × Holds (p.get s.db) rev r
            × (has_prefix r.key prefix ≡ true)
            × (ev ≡ event_of p s.db with_prev_kv rev r))
unfolding scan_log visited
scan_log_iff p lawful s m low hist prefix from_rev to_rev with_prev_kv stored from to =
    let log = stored.represents.log in
    let x =
      scan_records-total p s.db prefix with_prev_kv
        (visited p lawful s stored.fits log from_rev to_rev from to)
        (visited-IsSorted p lawful s stored.fits log from_rev to_rev from to) in
    (
      x.evs,
      x.done,
      x.rising,
      (λ rev r ge le holds under.
          x.complete rev r
            (Holds→Among p lawful s stored.fits log from_rev to_rev from to rev r ge le holds)
            under),
      λ ev i.
          let e = x.sound ev i in
          let (holds, positive, ge, le) =
            Among→Holds p lawful s stored.fits log from_rev to_rev from to e.rev e.r e.among in
          (e.rev, e.r, ge, le, holds, e.under, e.event),
    )
