-- ===== src/Replay/Superseded.antt =====
-- What a replay applies was written before any newer term began.
use mathlib.Core.List.{Memᴰ}
use mathlib.Core.List.Memᴰ
use t.Prelude.{
  ℕ, ◌<◌, ◌≡◌, refl, ap, ◌↔◌, Bool, true, false, List, [], ◌∷◌, Bytes, map, if◌then◌else◌, arith,
  inl, inr,
}
use t.Prelude.Word.{lt64, le64}
use t.Result.{ok}
use t.Wal.{Entry, sequence}
use t.Wal.ObjectKey.{parse_wal_key}
use t.Replay.{TermMap, replay_remote, wal_term_cutoffs, cutoff_of, applies, applicable, collect}
use t.Replay.Cutoff.{cutoff_of-newer}
use t.Replay.Merged.{replay_remote_sound}

kept :
    (x e : Entry) (c : Bool) (es : List Entry) {P : Type 0}
    → (x ≡ e → c ≡ true → P)
    → (Memᴰ x es → P)
    → Memᴰ x (if c then e ∷ es else es)
    → P
kept x e true es here rest (Memᴰ.head same) = here same refl
kept x e true es here rest (Memᴰ.tail j) = rest j
kept x e false es here rest j = rest j

applicable-Memᴰ :
    (after_seq cutoff : ℕ) (es : List Entry) (x : Entry)
    → Memᴰ x (applicable after_seq cutoff es)
    → Memᴰ x es × (applies after_seq cutoff x ≡ true)
unfolding applicable
applicable-Memᴰ after_seq cutoff [] x i = absurd (Memᴰ.not-nil i)
applicable-Memᴰ after_seq cutoff (e ∷ es) x i =
    kept x e (applies after_seq cutoff e) (applicable after_seq cutoff es)
      (λ same good. (Memᴰ.head same, rw same good))
      (λ j. let (k, good) = applicable-Memᴰ after_seq cutoff es x j in (Memᴰ.tail k, good)) i

abbrev Segments : Type 0
Segments = List (Bytes × List Entry)

-- The segment that an entry was collected from
abbrev From : ℕ → TermMap → Segments → Entry → Type 0
From after_seq cutoffs segments x =
    (key : Bytes) × (es : List Entry) × Memᴰ (key, es) segments
    × Memᴰ x es
    × (applies after_seq (cutoff_of cutoffs key) x ≡ true)

collect-From :
    (after_seq : ℕ) (cutoffs : TermMap) (segments : Segments) (x : Entry)
    → Memᴰ x (collect after_seq cutoffs segments)
    → From after_seq cutoffs segments x
unfolding collect
collect-From after_seq cutoffs [] x i = absurd (Memᴰ.not-nil i)
collect-From after_seq cutoffs ((key, es) ∷ segments) x i =
    elim (Memᴰ.append_cases (applicable after_seq (cutoff_of cutoffs key) es) i) [
      | inl j ↦
          let (k, good) = applicable-Memᴰ after_seq (cutoff_of cutoffs key) es x j in
          (key, es, Memᴰ.head refl, k, good)
      | inr j ↦
          let (key', es', k, l, good) = collect-From after_seq cutoffs segments x j in
          (key', es', Memᴰ.tail k, l, good)
    ]

key-Memᴰ :
    (segments : Segments) (key : Bytes) (es : List Entry)
    → Memᴰ (key, es) segments
    → Memᴰ key (map (λ (s : Bytes × List Entry). s.0) segments)
key-Memᴰ [] key es i = absurd (Memᴰ.not-nil i)
key-Memᴰ (s ∷ segments) key es (Memᴰ.head same) =
    Memᴰ.head (ap (λ (s : Bytes × List Entry). s.0) same)
key-Memᴰ (s ∷ segments) key es (Memᴰ.tail i) = Memᴰ.tail (key-Memᴰ segments key es i)

applies_after :
    (after_seq cutoff : ℕ) (x : Entry)
    → applies after_seq cutoff x ≡ true
    → lt64 after_seq (sequence x) ≡ true
applies_after after_seq cutoff x h = ground (arith, h)

applies_below :
    (after_seq cutoff first : ℕ) (x : Entry)
    → applies after_seq cutoff x ≡ true
    → le64 cutoff first ≡ true
    → lt64 (sequence x) first ≡ true
applies_below after_seq cutoff first x h k = ground (arith, h, k)

-- Every entry that a replay gives to Recover is in some segment, has a sequence above the last
-- one applied, and has one below the first sequence, as the key tells it, of every segment of a
-- newer term. The sort need only keep the entries.
pub replay_remote_superseded :
    (sort : List Entry → List Entry) (segments : List (Bytes × List Entry)) (after_seq : ℕ)
    (es : List Entry) (x : Entry)
    → ((xs : List Entry) (x : Entry) → Memᴰ x (sort xs) ↔ Memᴰ x xs)
    → replay_remote sort segments after_seq ≡ ok es
    → Memᴰ x es
    → (key : Bytes) × (written : List Entry) × Memᴰ (key, written) segments
      × Memᴰ x written
      × (lt64 after_seq (sequence x) ≡ true)
      × ((newer : Bytes) (others : List Entry)
          → Memᴰ (newer, others) segments
          → (parse_wal_key key).0 < (parse_wal_key newer).0
          → lt64 (sequence x) (parse_wal_key newer).1 ≡ true)
replay_remote_superseded sort segments after_seq es x keeps h i =
    let keys : List Bytes = map (λ (s : Bytes × List Entry). s.0) segments in
    let (consecutive, origin, covers) = replay_remote_sound sort segments after_seq es keeps h in
    let (key, written, j, k, good) =
      collect-From after_seq (wal_term_cutoffs keys) segments x (origin x i) in
    (
      key,
      written,
      j,
      k,
      applies_after after_seq (cutoff_of (wal_term_cutoffs keys) key) x good,
      λ newer others l lt.
          applies_below after_seq (cutoff_of (wal_term_cutoffs keys) key) (parse_wal_key newer).1 x
            good
            (cutoff_of-newer keys key newer (key-Memᴰ segments key written j)
              (key-Memᴰ segments newer others l) lt),
    )
