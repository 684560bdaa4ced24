-- ===== src/Replay/Cutoff.antt =====
-- Which entries of an old term a replay leaves out.
use mathlib.Core.List.{Memᴰ}
use mathlib.Core.List.Memᴰ
use t.Prelude.{
  ℕ, ◌<◌, ◌-◌, ◌≡◌, refl, sym, ap, ◌∙◌, Bool, true, false, Option, none, some, List, [], ◌∷◌, Bytes,
  map, ltb, ◌==◌, ◌&&◌, if◌then◌else◌, arith, Bool-cases, inl, inr, ==_iff,
}
use t.Prelude.Word.{lt64, le64, sign_bit}
use t.Wal.ObjectKey.{parse_wal_key}
use t.Replay.{
  TermMap, is_less, at_term, set_term, note_first, min_first, lower_cutoff, wal_term_cutoffs,
  cutoff_of,
}

le64_refl : (a : ℕ) → le64 a a ≡ true
le64_refl a = ground arith

le64_trans : (a b c : ℕ) → le64 a b ≡ true → le64 b c ≡ true → le64 a c ≡ true
le64_trans a b c h k = ground arith

lt64→le64 : (a b : ℕ) → lt64 a b ≡ true → le64 a b ≡ true
lt64→le64 a b h = ground arith

lt64_false→le64 : (a b : ℕ) → lt64 a b ≡ false → le64 b a ≡ true
lt64_false→le64 a b h = ground arith

at_term-set_term :
    (m : TermMap) (t v u : ℕ)
    → at_term (set_term m t v) u ≡ (if t == u then some v else at_term m u)
unfolding at_term set_term
at_term-set_term [] t v u = ground arith
at_term-set_term ((s, w) ∷ m) t v u = ground (arith, at_term-set_term m t v u)

-- The map has a first sequence of the term that is at or below `first`.
HasAtMost : TermMap → ℕ → ℕ → Type 0
HasAtMost m t first = (g : ℕ) × (at_term m t ≡ some g) × (le64 g first ≡ true)

note_first-HasAtMost : (m : TermMap) (t first : ℕ) → HasAtMost (note_first m (t, first)) t first
unfolding HasAtMost
note_first-HasAtMost m t first = cases (at_term m t) refl
  where
    cases : (o : Option ℕ) → at_term m t ≡ o → HasAtMost (note_first m (t, first)) t first
    cases none e = rw e (first, at_term-set_term m t first t ∙ ground arith, le64_refl first)
    cases (some g) e = elim (Bool-cases (lt64 first g)) [
      | inl less ↦
          rw (e, less) (first, at_term-set_term m t first t ∙ ground arith, le64_refl first)
      | inr more ↦ rw (e, more) (g, e, lt64_false→le64 first g more)
    ]

note_first-keeps :
    (m : TermMap) (t first u f : ℕ) → HasAtMost m u f → HasAtMost (note_first m (t, first)) u f
unfolding HasAtMost
note_first-keeps m t first u f (g, at, le) = cases (is_less first (at_term m t)) refl
  where
    set_case :
        (c : Bool)
        → (t == u) ≡ c
        → is_less first (at_term m t) ≡ true
        → HasAtMost (set_term m t first) u f
    set_case true same less = (
      first,
      at_term-set_term m t first u ∙ rw same refl,
      le64_trans first g f
          (lt64→le64 first g
            (sym (ap (is_less first) (ap (at_term m) ((==_iff t u).0 same) ∙ at)) ∙ less))
          le,
    )
    set_case false differ less = (g, at_term-set_term m t first u ∙ rw differ at, le)

    cases :
        (c : Bool)
        → is_less first (at_term m t) ≡ c
        → HasAtMost (if c then set_term m t first else m) u f
    cases true less = set_case (t == u) refl less
    cases false less = (g, at, le)

min_first-keeps :
    (keys : List Bytes) (m : TermMap) (u f : ℕ) → HasAtMost m u f → HasAtMost (min_first m keys) u f
unfolding min_first
min_first-keeps [] m u f h = h
min_first-keeps (key ∷ keys) m u f h =
    min_first-keeps keys (note_first m (parse_wal_key key)) u f
      (note_first-keeps m (parse_wal_key key).0 (parse_wal_key key).1 u f h)

min_first-HasAtMost :
    (keys : List Bytes) (m : TermMap) (key : Bytes)
    → Memᴰ key keys
    → HasAtMost (min_first m keys) (parse_wal_key key).0 (parse_wal_key key).1
unfolding min_first
min_first-HasAtMost [] m key i = absurd (Memᴰ.not-nil i)
min_first-HasAtMost (k ∷ keys) m key (Memᴰ.head same) = rw same (
    min_first-keeps keys (note_first m (parse_wal_key k)) (parse_wal_key k).0 (parse_wal_key k).1
      (note_first-HasAtMost m (parse_wal_key k).0 (parse_wal_key k).1))
min_first-HasAtMost (k ∷ keys) m key (Memᴰ.tail i) =
    min_first-HasAtMost keys (note_first m (parse_wal_key k)) key i

lower_cutoff-start : (term c : ℕ) (m : TermMap) → le64 (lower_cutoff term c m) c ≡ true
unfolding lower_cutoff
lower_cutoff-start term c [] = le64_refl c
lower_cutoff-start term c ((t, first) ∷ m) =
    le64_trans (lower_cutoff term c' m) c' c (lower_cutoff-start term c' m) (ground arith)
  where
    c' : ℕ
    c' = if ltb term t && lt64 first c then first else c

lower_cutoff-newer :
    (term c : ℕ) (m : TermMap) (t g : ℕ)
    → term < t
    → at_term m t ≡ some g
    → le64 (lower_cutoff term c m) g ≡ true
unfolding lower_cutoff at_term
lower_cutoff-newer term c [] t g lt h = absurd (ground arith)
lower_cutoff-newer term c ((u, first) ∷ m) t g lt h = elim (Bool-cases (u == t)) [
  | inl same ↦
      le64_trans (lower_cutoff term c' m) c' g (lower_cutoff-start term c' m) (ground (arith, h))
  | inr differ ↦ lower_cutoff-newer term c' m t g lt (rw differ at h)
]
  where
    c' : ℕ
    c' = if ltb term u && lt64 first c then first else c

-- The map of the cutoffs has for a term what the loop computes for it.
at_term-map :
    (cutoff : ℕ → ℕ) (m : TermMap) (t g : ℕ)
    → at_term m t ≡ some g
    → at_term (map (λ (p : ℕ × ℕ). (p.0, cutoff p.0)) m) t ≡ some (cutoff t)
unfolding at_term
at_term-map cutoff [] t g h = absurd (ground arith)
at_term-map cutoff ((u, first) ∷ m) t g h = elim (Bool-cases (u == t)) [
  | inl same ↦ rw same (ap (λ k. some (cutoff k)) ((==_iff u t).0 same))
  | inr differ ↦ rw differ (at_term-map cutoff m t g (rw differ at h))
]

-- The cutoff of a listed key is at or below the first sequence of every listed key of a newer
-- term.
pub cutoff_of-newer :
    (keys : List Bytes) (key newer : Bytes)
    → Memᴰ key keys
    → Memᴰ newer keys
    → (parse_wal_key key).0 < (parse_wal_key newer).0
    → le64 (cutoff_of (wal_term_cutoffs keys) key) (parse_wal_key newer).1 ≡ true
unfolding cutoff_of wal_term_cutoffs HasAtMost
cutoff_of-newer keys key newer i j lt =
    let firsts = min_first [] keys in
    let term = (parse_wal_key key).0 in
    let cutoff : ℕ → ℕ = λ t. lower_cutoff t (sign_bit - 1) firsts in
    let (f, at_key, le_key) = min_first-HasAtMost keys [] key i in
    let (g, at_newer, le_newer) = min_first-HasAtMost keys [] newer j in
    rw (at_term-map cutoff firsts term f at_key) (
      le64_trans (cutoff term) g (parse_wal_key newer).1
        (lower_cutoff-newer term (sign_bit - 1) firsts (parse_wal_key newer).0 g lt at_newer)
        le_newer)
