-- ===== src/Replay.antt =====
-- wal_replay.go: replayRemote, which rebuilds the log from the segments of the object store.
-- `sort` is sort.Slice with the order by sequence, then by term.
pub mod Merged
pub mod Cutoff
pub mod Superseded
use t.Prelude.{
  ℕ, ◌^◌, ◌-◌, Bool, true, false, Option, none, some, List, [], ◌∷◌, ◌++◌, Bytes, map, ltb, leb,
  not, ◌&&◌, ◌==◌, if◌then◌else◌,
}
use t.Prelude.Word.{add64, sign_bit, lt64, le64}
use t.Result.{Result, ok, err}
use t.Wal.{Entry, sequence}
use t.Wal.ObjectKey.{parse_wal_key}

-- A Go map from terms.
abbrev pub TermMap : Type 0
TermMap = List (ℕ × ℕ)

unfoldable pub at_term : TermMap → ℕ → Option ℕ
at_term [] term = none
at_term ((t, v) ∷ m) term = if t == term then some v else at_term m term

unfoldable pub set_term : TermMap → ℕ → ℕ → TermMap
set_term [] term v = (term, v) ∷ []
set_term ((t, w) ∷ m) term v = if t == term then (t, v) ∷ m else (t, w) ∷ set_term m term v

abbrev pub is_less : ℕ → Option ℕ → Bool
is_less first none = true
is_less first (some existing) = lt64 first existing

abbrev pub note_first : TermMap → ℕ × ℕ → TermMap
note_first m (term, first) = if is_less first (at_term m term) then set_term m term first else m

-- The least first sequence of each term
unfoldable pub min_first : TermMap → List Bytes → TermMap
unfolding at_term set_term parse_wal_key
min_first m [] = m
min_first m (key ∷ keys) = min_first (note_first m (parse_wal_key key)) keys

-- The inner loop of walTermCutoffs
unfoldable pub lower_cutoff : ℕ → ℕ → TermMap → ℕ
lower_cutoff term c [] = c
lower_cutoff term c ((t, first) ∷ m) =
    lower_cutoff term (if ltb term t && lt64 first c then first else c) m

unfoldable pub wal_term_cutoffs : List Bytes → TermMap
unfolding min_first lower_cutoff
wal_term_cutoffs keys =
    let firsts = min_first [] keys in
    map (λ (p : ℕ × ℕ). (p.0, lower_cutoff p.0 (sign_bit - 1) firsts)) firsts

-- `cutoff[term]`, 0 for a term that is missing
abbrev or_zero : Option ℕ → ℕ
or_zero none = 0
or_zero (some c) = c

unfoldable pub cutoff_of : TermMap → Bytes → ℕ
unfolding at_term parse_wal_key
cutoff_of cutoffs key = or_zero (at_term cutoffs (parse_wal_key key).0)

-- An entry that is neither covered nor superseded
abbrev pub applies : ℕ → ℕ → Entry → Bool
applies after_seq cutoff e =
    if le64 (sequence e) after_seq then false else if le64 cutoff (sequence e) then false else true

unfoldable pub applicable : ℕ → ℕ → List Entry → List Entry
applicable after_seq cutoff [] = []
applicable after_seq cutoff (e ∷ es) =
    let rest = applicable after_seq cutoff es in
    if applies after_seq cutoff e then e ∷ rest else rest

-- The loop over the segments, each its key and the entries that were read of it.
unfoldable pub collect : ℕ → TermMap → List (Bytes × List Entry) → List Entry
unfolding applicable cutoff_of
collect after_seq cutoffs [] = []
collect after_seq cutoffs ((key, es) ∷ segments) =
    applicable after_seq (cutoff_of cutoffs key) es ++ collect after_seq cutoffs segments

-- The loop that merges; `last` is the end of `merged`.
unfoldable pub merge_from : Entry → List Entry → List Entry
merge_from last [] = last ∷ []
merge_from last (e ∷ es) = elim (sequence last == sequence e) [
  | true ↦ merge_from (if leb last.term e.term then e else last) es
  | false ↦ last ∷ merge_from e es
]

unfoldable pub merge : List Entry → List Entry
unfolding merge_from
merge [] = []
merge (e ∷ es) = merge_from e es

pub data ReplayError : Type 0 where
  -- expected, got
  missing_sequence : ℕ → ℕ → ReplayError

-- The first entry that is not the expected one.
unfoldable pub find_hole : ℕ → List Entry → Option ReplayError
find_hole expected [] = none
find_hole expected (e ∷ es) =
    let rest = find_hole (add64 expected 1) es in
    if sequence e == expected then rest else some (missing_sequence expected (sequence e))

abbrev pub unless_hole : List Entry → Option ReplayError → Result ReplayError (List Entry)
unless_hole es none = ok es
unless_hole es (some e) = err e

module _ (sort : List Entry → List Entry) where
  -- The entries that are given to Recover; with none of them it is not called.
  unfoldable pub replay_remote : List (Bytes × List Entry) → ℕ → Result ReplayError (List Entry)
  unfolding wal_term_cutoffs collect merge find_hole
  replay_remote segments after_seq =
      let cutoffs = wal_term_cutoffs (map (λ (s : Bytes × List Entry). s.0) segments) in
      let merged = merge (sort (collect after_seq cutoffs segments)) in
      unless_hole merged (find_hole (add64 after_seq 1) merged)
