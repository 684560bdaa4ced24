-- ===== src/Peer/Runs.antt =====
-- Entries whose sequences are consecutive int64 values, in the follower's loops and the ring buffer.
use mathlib.Core.List.{Memᴰ}
use mathlib.Core.List.Memᴰ
use mathlib.Core.Path.{subst}
use t.Prelude.{
  ℕ, suc, ◌+◌, ◌≤◌, ◌<◌, ◌≡◌, refl, ap, ◌∙◌, true, List, [], ◌∷◌, map, length, arith, Bool-cases,
  inl, inr, ◌⊎◌,
}
use t.Prelude.Word.{sign_bit, add64, lt64, le64}
use t.Wal.{Entry, sequence}
use t.Peer.Stream.{entry_to_msg, msg_to_entry, last_sequence, from_first}
use t.Peer.Follower.{drop_below, take_upto, drop_upto, is_consecutive}

-- The sequences of the entries are those from a number on, and what comes after is an int64 too.
abbrev pub IsRun : ℕ → List Entry → Type 0
IsRun n [] = n < sign_bit
IsRun n (e ∷ es) = (sequence e ≡ n) × IsRun (suc n) es

pub IsRun-fits : (n : ℕ) (es : List Entry) → IsRun n es → n + length es < sign_bit
IsRun-fits n [] h = omega arith
IsRun-fits n (e ∷ es) (s, h) = omega (arith, IsRun-fits (suc n) es h)

pub IsRun-consecutive : (n : ℕ) (es : List Entry) → IsRun n es → is_consecutive n es ≡ true
unfolding is_consecutive
IsRun-consecutive n [] h = refl
IsRun-consecutive n (e ∷ es) (s, h) =
    let fits = IsRun-fits (suc n) es h in
    let next : add64 n 1 ≡ suc n = omega arith in
    rw (next, s, IsRun-consecutive (suc n) es h) (ground arith)

pub drop_below-IsRun :
    (start n : ℕ) (es : List Entry) → start ≤ n → IsRun n es → drop_below start es ≡ es
unfolding drop_below
drop_below-IsRun start n [] le h = refl
drop_below-IsRun start n (e ∷ es) le (s, h) = ground (arith, s, IsRun-fits (suc n) es h)

pub take_upto-IsRun :
    (rev n : ℕ) (es : List Entry)
    → IsRun n es
    → n + length es ≤ suc rev
    → rev < sign_bit
    → (take_upto rev es ≡ es) × (drop_upto rev es ≡ [])
unfolding take_upto drop_upto
take_upto-IsRun rev n [] h le fits = (refl, refl)
take_upto-IsRun rev n (e ∷ es) (s, h) le fits =
    let (t, d) = take_upto-IsRun rev (suc n) es h (omega arith) fits in
    let test : le64 (sequence e) rev ≡ true = ground (arith, s, le, fits) in
    (rw (test, t) refl, rw (test, d) refl)

pub last_sequence-IsRun :
    (n d : ℕ) (e : Entry) (es : List Entry)
    → IsRun n (e ∷ es)
    → suc (last_sequence d (e ∷ es)) ≡ n + length (e ∷ es)
last_sequence-IsRun n d e [] (s, h) = omega (arith, s)
last_sequence-IsRun n d e (x ∷ es) (s, h) =
    omega (arith, last_sequence-IsRun (suc n) (sequence e) x es h)

-- An entry after the stream: its id is its sequence.
abbrev pub carried : Entry → Entry
carried e = msg_to_entry (entry_to_msg e)

sequence-carried : (e : Entry) → sequence (carried e) ≡ sequence e
unfolding sequence entry_to_msg msg_to_entry
sequence-carried e = ground arith

pub IsRun-carried : (n : ℕ) (es : List Entry) → IsRun n es → IsRun n (map carried es)
IsRun-carried n [] h = h
IsRun-carried n (e ∷ es) (s, h) = (sequence-carried e ∙ s, IsRun-carried (suc n) es h)

pub last_sequence-carried :
    (d : ℕ) (es : List Entry) → last_sequence d (map carried es) ≡ last_sequence d es
last_sequence-carried d [] = refl
last_sequence-carried d (e ∷ es) =
    ap (λ s. last_sequence s (map carried es)) (sequence-carried e)
    ∙ last_sequence-carried (sequence e) es

-- The part of a run from a number on is a run from there, and what is before it is below.
pub from_first-IsRun :
    (from n : ℕ) (es : List Entry)
    → n ≤ from
    → from < sign_bit
    → IsRun n es
    → IsRun from (from_first from es)
unfolding from_first
from_first-IsRun from n [] le fits h = fits
from_first-IsRun from n (e ∷ es) le fits (s, h) = elim (Bool-cases (le64 from (sequence e))) [
  | inl first ↦
      let same : n ≡ from = ground (arith, first, s, le, fits, IsRun-fits (suc n) es h) in
      rw first (subst (λ m. IsRun m (e ∷ es)) same (s, h))
  | inr below ↦
      let later : suc n ≤ from = ground (arith, below, s, fits, IsRun-fits (suc n) es h) in
      rw below (from_first-IsRun from (suc n) es later fits h)
]

-- What is before that part is below the number.
pub from_first-all :
    (from : ℕ) (es : List Entry) (e : Entry)
    → Memᴰ e es
    → Memᴰ e (from_first from es) ⊎ (lt64 (sequence e) from ≡ true)
unfolding from_first
from_first-all from [] e i = absurd (Memᴰ.not-nil i)
from_first-all from (x ∷ es) e i = elim (Bool-cases (le64 from (sequence x))) [
  | inl first ↦ inl (rw first i)
  | inr below ↦ elim i [
    | Memᴰ.head same ↦ inr (ground (arith, below, ap sequence same))
    | Memᴰ.tail j ↦ elim (from_first-all from es e j) [
      | inl there ↦ inl (rw below there)
      | inr less ↦ inr less
    ]
  ]
]
