-- ===== src/Replay/Merged.antt =====
-- What a replay that succeeds applies.
use t.Prelude.{
  ℕ, ◌≤◌, ◌≡◌, refl, sym, ap, ◌∙◌, ◌↔◌, Bool, true, false, Option, none, some, List, [], ◌∷◌, Bytes,
  leb, ◌==◌, arith, if◌then◌else◌, Bool-cases, inl, inr, map, ==_iff,
}
use mathlib.Core.Path.{subst}
use t.Prelude.Word.{add64}
use t.Result.{ok}
use t.Wal.{Entry, sequence}
use mathlib.Core.List.{Memᴰ}
use mathlib.Core.List.Memᴰ
use t.Replay.{
  replay_remote, merge, merge_from, find_hole, unless_hole, collect, wal_term_cutoffs, ReplayError,
}

-- The sequences count up by one from the first one given.
abbrev pub Consecutive : ℕ → List Entry → Type 0
Consecutive s [] = Unit
Consecutive s (e ∷ es) = (sequence e ≡ s) × Consecutive (add64 s 1) es

find_hole-none : (s : ℕ) (es : List Entry) → find_hole s es ≡ none → Consecutive s es
unfolding find_hole
find_hole-none s [] h = tt
find_hole-none s (e ∷ es) h = elim (Bool-cases (sequence e == s)) [
  | inl q ↦ ((==_iff (sequence e) s).0 q, find_hole-none (add64 s 1) es (rw q at h))
  | inr q ↦ absurd (ground arith)
]

-- The entry that stands for `x`: it has the sequence of `x` and a term that is no lower.
abbrev pub StandsFor : Entry → Entry → Type 0
StandsFor x y = (sequence x ≡ sequence y) × (x.term ≤ y.term)

StandsFor-trans : (x y z : Entry) → StandsFor x y → StandsFor y z → StandsFor x z
StandsFor-trans x y z (p, q) (r, s) = (p ∙ r, omega arith)

-- The entry that is kept of two with the same sequence.
abbrev higher : Entry → Entry → Entry
higher last e = if leb last.term e.term then e else last

higher-origin :
    (c : Bool) (last e : Entry) (es : List Entry) (y : Entry)
    → Memᴰ y ((if c then e else last) ∷ es)
    → Memᴰ y (last ∷ e ∷ es)
higher-origin true last e es y i = Memᴰ.tail i
higher-origin false last e es y (Memᴰ.head same) = Memᴰ.head same
higher-origin false last e es y (Memᴰ.tail j) = Memᴰ.tail (Memᴰ.tail j)

higher-last : (last e : Entry) → sequence last ≡ sequence e → StandsFor last (higher last e)
higher-last last e same = elim (Bool-cases (leb last.term e.term)) [
  | inl h ↦ rw h (same, ground arith)
  | inr h ↦ rw h (refl, omega arith)
]

higher-next : (last e : Entry) → sequence last ≡ sequence e → StandsFor e (higher last e)
higher-next last e same = elim (Bool-cases (leb last.term e.term)) [
  | inl h ↦ rw h (refl, omega arith)
  | inr h ↦ rw h (sym same, ground arith)
]

origin_step :
    (c : Bool) (last e : Entry) (es : List Entry) (y : Entry)
    → ((l : Entry) → Memᴰ y (merge_from l es) → Memᴰ y (l ∷ es))
    → Memᴰ y (elim c [ true ↦ merge_from (higher last e) es | false ↦ last ∷ merge_from e es ])
    → Memᴰ y (last ∷ e ∷ es)
origin_step true last e es y ih i =
    higher-origin (leb last.term e.term) last e es y (ih (higher last e) i)
origin_step false last e es y ih (Memᴰ.head same) = Memᴰ.head same
origin_step false last e es y ih (Memᴰ.tail j) = Memᴰ.tail (ih e j)

merge_from-origin :
    (last : Entry) (es : List Entry) (y : Entry) → Memᴰ y (merge_from last es) → Memᴰ y (last ∷ es)
unfolding merge_from
merge_from-origin last [] y i = i
merge_from-origin last (e ∷ es) y i =
    origin_step (sequence last == sequence e) last e es y (λ l. merge_from-origin l es y) i

-- Some entry of the list stands for `x`.
abbrev pub Covers : List Entry → Entry → Type 0
Covers es x = (y : Entry) × Memᴰ y es × StandsFor x y

through : (es : List Entry) (x l : Entry) → StandsFor x l → Covers es l → Covers es x
through es x l s (y, i, t) = (y, i, StandsFor-trans x l y s t)

Covers-step :
    (c : Bool) (last e : Entry) (es : List Entry) (x : Entry)
    → (sequence last == sequence e) ≡ c
    → ((l : Entry) (x : Entry) → Memᴰ x (l ∷ es) → Covers (merge_from l es) x)
    → Memᴰ x (last ∷ e ∷ es)
    → Covers (elim c [ true ↦ merge_from (higher last e) es | false ↦ last ∷ merge_from e es ]) x
Covers-step true last e es x q ih (Memᴰ.head same) =
    through (merge_from (higher last e) es) x (higher last e)
      (rw same (higher-last last e ((==_iff (sequence last) (sequence e)).0 q)))
      (ih (higher last e) (higher last e) (Memᴰ.head refl))
Covers-step true last e es x q ih (Memᴰ.tail (Memᴰ.head same)) =
    through (merge_from (higher last e) es) x (higher last e)
      (rw same (higher-next last e ((==_iff (sequence last) (sequence e)).0 q)))
      (ih (higher last e) (higher last e) (Memᴰ.head refl))
Covers-step true last e es x q ih (Memᴰ.tail (Memᴰ.tail j)) = ih (higher last e) x (Memᴰ.tail j)
Covers-step false last e es x q ih (Memᴰ.head same) =
    (last, Memᴰ.head refl, (ap sequence same, ground (arith, same)))
Covers-step false last e es x q ih (Memᴰ.tail j) = later last (merge_from e es) x (ih e x j)
  where
    later : (l : Entry) (es : List Entry) (x : Entry) → Covers es x → Covers (l ∷ es) x
    later l es x (y, i, s) = (y, Memᴰ.tail i, s)

merge_from-Covers :
    (last : Entry) (es : List Entry) (x : Entry)
    → Memᴰ x (last ∷ es)
    → Covers (merge_from last es) x
unfolding merge_from
merge_from-Covers last [] x i = (x, i, (refl, omega arith))
merge_from-Covers last (e ∷ es) x i =
    Covers-step (sequence last == sequence e) last e es x refl (λ l y. merge_from-Covers l es y) i

merge-origin : (es : List Entry) (y : Entry) → Memᴰ y (merge es) → Memᴰ y es
unfolding merge
merge-origin [] y i = i
merge-origin (e ∷ es) y i = merge_from-origin e es y i

merge-Covers : (es : List Entry) (x : Entry) → Memᴰ x es → Covers (merge es) x
unfolding merge
merge-Covers [] x i = absurd (Memᴰ.not-nil i)
merge-Covers (e ∷ es) x i = merge_from-Covers e es x i

-- The entries that the loop over the segments collects.
abbrev pub collected : List (Bytes × List Entry) → ℕ → List Entry
collected segments after_seq =
    collect after_seq (wal_term_cutoffs (map (λ (s : Bytes × List Entry). s.0) segments)) segments

checked :
    (merged es : List Entry) (o : Option ReplayError)
    → unless_hole merged o ≡ ok es
    → (merged ≡ es) × (o ≡ none)
checked merged es none h = (ground arith, refl)
checked merged es (some e) h = absurd (ground arith)

-- What a replay that succeeds gives to Recover: the sequences count up by one from that after
-- the last one applied; every entry was collected from a segment; and every collected entry is
-- replaced by nothing but an entry with its sequence and a term that is no lower. The sort need
-- only keep the entries.
pub replay_remote_sound :
    (sort : List Entry → List Entry) (segments : List (Bytes × List Entry)) (after_seq : ℕ)
    (es : List Entry)
    → ((xs : List Entry) (x : Entry) → Memᴰ x (sort xs) ↔ Memᴰ x xs)
    → replay_remote sort segments after_seq ≡ ok es
    → Consecutive (add64 after_seq 1) es
      × ((y : Entry) → Memᴰ y es → Memᴰ y (collected segments after_seq))
      × ((x : Entry) → Memᴰ x (collected segments after_seq) → Covers es x)
unfolding replay_remote
replay_remote_sound sort segments after_seq es keeps h =
    let all = collected segments after_seq in
    let (same, no_hole) = checked (merge (sort all)) es _ h in
    (
      subst (Consecutive (add64 after_seq 1)) same
          (find_hole-none (add64 after_seq 1) (merge (sort all)) no_hole),
      λ y i. (keeps all y).0 (merge-origin (sort all) y (subst (Memᴰ y) (sym same) i)),
      λ x i. subst (λ l. Covers l x) same (merge-Covers (sort all) x ((keeps all x).1 i)),
    )
