-- ===== src/Tests/ElectionTests.antt =====
-- Runs of the election over the object store in memory; the tag of a content is the content.
use mathlib.Core.List.{Memᴰ}
use t.Prelude.{
  ◌≡◌, ◌≢◌, ◌↔◌, refl, inl, inr, Option, none, some, List, [], ◌∷◌, ◌++◌, Bytes, ascii, length,
  take, drop, take-append_self, drop-append_self, arith, bytes_eq,
}
use t.Prelude.Dict.{lookup, insert}
use t.Result.{ok}
use t.Object.{ConditionalStore}
use t.Object.Mem.Swap.{IsWritten, compare_and_swap}
use t.Object.Mem.{Mem, get_etag, put_if_absent, put_if_match}
use t.Object.Mem.Conditional.{mem_store, mem_store-IsConditional, IsTagged, with_tag}
use t.Election.{
  Lock, LockRecord, LockJson, lock_record, read_with_etag, try_acquire, take_over, write_atomic,
  put_observed, held_by_other, backs_off, new_term,
}
use t.Election.Winning.{AreDescending}
use t.Election.Runs.{Run, absent, acquire, Run-AreDescending}

abbrev same_bytes : Bytes → Bytes
same_bytes b = b

abbrev store : ConditionalStore
store = mem_store same_bytes

same_bytes_inj : (c d : Bytes) → same_bytes c ≡ same_bytes d → c ≡ d
same_bytes_inj c d e = e

-- One object
abbrev one_object : Mem
one_object = insert (ascii "k") (record { content = ascii "v"; etag = ascii "v" }) []

compare_and_swap_example :
    (IsWritten same_bytes
        (put_if_absent same_bytes one_object (ascii "k") (ascii "w"))
        one_object
        (ascii "k")
        (ascii "w")
      ↔ (get_etag one_object (ascii "k") ≡ none))
    × ((put_if_absent same_bytes one_object (ascii "k") (ascii "w") ≡ none)
        ↔ (get_etag one_object (ascii "k") ≢ none))
    × (IsWritten same_bytes
          (put_if_match same_bytes one_object (ascii "k") (ascii "w") (ascii "v"))
          one_object
          (ascii "k")
          (ascii "w")
        ↔ ((c : Bytes) × (get_etag one_object (ascii "k") ≡ some (c, ascii "v"))))
    × ((put_if_match same_bytes one_object (ascii "k") (ascii "w") (ascii "v") ≡ none)
        ↔ ¬ ((c : Bytes) × (get_etag one_object (ascii "k") ≡ some (c, ascii "v"))))
compare_and_swap_example =
    compare_and_swap same_bytes one_object (ascii "k") (ascii "w") (ascii "v")

-- A list of numbers in place of the JSON text
abbrev marshal : LockRecord → Bytes
marshal r =
    r.term ∷ r.last_seen_nano ∷ r.committed_rev ∷ length r.node_id ∷ (r.node_id ++ r.leader_addr)

abbrev decode : Bytes → Option LockRecord
decode (term ∷ seen ∷ rev ∷ n ∷ rest) = some record {
  node_id = take n rest;
  term = term;
  leader_addr = drop n rest;
  last_seen_nano = seen;
  committed_rev = rev;
}
decode _ = none

abbrev json : LockJson
json = record { marshal = marshal; decode = decode }

decode-marshal : (rec : LockRecord) → decode (marshal rec) ≡ some rec
decode-marshal rec =
    rw (take-append_self rec.node_id rec.leader_addr, drop-append_self rec.node_id rec.leader_addr)
      refl

abbrev one : Lock
one = record { node_id = ascii "one"; advertise_addr = ascii "one:1" }

abbrev two : Lock
two = record { node_id = ascii "two"; advertise_addr = ascii "two:1" }

nothing_tagged : IsTagged same_bytes []
unfolding IsTagged lookup
nothing_tagged k obj e = absurd (cc e)

abbrev empty : store.State
empty = ([], nothing_tagged)

abbrev after_one : store.State
after_one = (try_acquire store json one 0 5 100 empty empty).0

abbrev after_two : store.State
after_two = (take_over store json two 1 5 200 after_one after_one).0

first : read_with_etag store json empty ≡ ok none
unfolding read_with_etag get_etag lookup
first = refl

abbrev record_one : LockRecord
record_one = lock_record store json one 1 5 100

second : read_with_etag store json after_one ≡ ok (some (record_one, marshal record_one))
unfolding read_with_etag get_etag lookup try_acquire write_atomic put_observed put_if_absent insert
    bytes_eq with_tag new_term held_by_other
second = refl

abbrev record_two : LockRecord
record_two = lock_record store json two 2 5 200

abbrev states : List store.State
states = after_two ∷ after_one ∷ empty ∷ []

first-Run : Run store json (after_one ∷ empty ∷ []) (1 ∷ [])
unfolding read_with_etag get_etag lookup try_acquire write_atomic put_observed put_if_absent insert
    bytes_eq with_tag new_term held_by_other
first-Run =
    acquire one 0 5 100 empty after_one empty none record_one [] [] (absent empty refl)
      (Memᴰ.head refl) first (omega arith) (inl refl)

both-Run : Run store json states (2 ∷ 1 ∷ [])
unfolding read_with_etag get_etag lookup take_over try_acquire write_atomic put_observed
    put_if_absent put_if_match insert bytes_eq with_tag new_term held_by_other backs_off
both-Run =
    acquire two 1 5 200 after_one after_two after_one (some (record_one, marshal record_one))
      record_two (empty ∷ []) (1 ∷ []) first-Run (Memᴰ.head refl) second (omega arith, omega arith)
      (inr refl)

Run-AreDescending_example : AreDescending (2 ∷ 1 ∷ [])
Run-AreDescending_example =
    Run-AreDescending store json (mem_store-IsConditional same_bytes same_bytes_inj) decode-marshal
      after_two (after_one ∷ empty ∷ []) (2 ∷ 1 ∷ []) both-Run
