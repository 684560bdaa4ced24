-- ===== src/Wal/Gc/Covered.antt =====
-- A deleted segment holds nothing that the checkpoint does not.
use t.Prelude.{
  ℕ, ◌+◌, ◌≤◌, ◌<◌, ◌≡◌, refl, Bool, true, false, List, [], ◌∷◌, Bytes, All, arith, if◌then◌else◌,
}
use t.Prelude.Word.{IsNonneg, le64, sub64}
use mathlib.Core.List.{Memᴰ}
use mathlib.Core.List.Memᴰ
use t.Wal.ObjectKey.{parse_first_rev}
use t.Wal.Gc.{to_delete}

-- The sequences of a segment stay below the first sequence of the next one, an int64 that is
-- positive.
abbrev pub IsChained : (Bytes → List ℕ) → List Bytes → Type 0
IsChained content [] = Unit
IsChained content (key ∷ []) = Unit
IsChained content (key ∷ next ∷ keys) =
    (0 < parse_first_rev next)
    × IsNonneg (parse_first_rev next)
    × All (λ s. s < parse_first_rev next) (content key)
    × IsChained content (next ∷ keys)

All-le :
    (first cp : ℕ) (ss : List ℕ) → first ≤ cp + 1 → All (λ s. s < first) ss → All (λ s. s ≤ cp) ss
All-le first cp [] h b = tt
All-le first cp (s ∷ ss) h (b, bs) = (omega arith, All-le first cp ss h bs)

-- The test of the loop, for sequences that are positive.
first_le :
    (first cp : ℕ)
    → 0 < first
    → IsNonneg first
    → IsNonneg cp
    → le64 (sub64 first 1) cp ≡ true
    → first ≤ cp + 1
first_le first cp p nn nc h = ground arith

-- One round of the loop: the segment is chosen or not, and so for the rest.
chosen :
    (content : Bytes → List ℕ) (k key : Bytes) (keys : List Bytes) (cp : ℕ) (c : Bool)
    → (c ≡ true → All (λ s. s ≤ cp) (content k))
    → (Memᴰ key keys → All (λ s. s ≤ cp) (content key))
    → Memᴰ key (if c then k ∷ keys else keys)
    → All (λ s. s ≤ cp) (content key)
chosen content k key keys cp true here rest (Memᴰ.head same) = rw same (here refl)
chosen content k key keys cp true here rest (Memᴰ.tail j) = rest j
chosen content k key keys cp false here rest j = rest j

-- Where the sequences of every listed segment stay below the first sequence of the next one, as its
-- key tells it, and the checkpoint is not negative: every sequence in a segment that is chosen for
-- deletion is at or below the checkpoint.
pub to_delete-covered :
    (content : Bytes → List ℕ) (keys : List Bytes) (cp : ℕ) (key : Bytes)
    → IsNonneg cp
    → IsChained content keys
    → Memᴰ key (to_delete keys cp)
    → All (λ s. s ≤ cp) (content key)
unfolding to_delete
to_delete-covered content [] cp key nc h i = absurd (Memᴰ.not-nil i)
to_delete-covered content (k ∷ []) cp key nc h i = absurd (Memᴰ.not-nil i)
to_delete-covered content (k ∷ next ∷ keys) cp key nc (p, nn, b, h) i =
    chosen content k key (to_delete (next ∷ keys) cp) cp (le64 (sub64 (parse_first_rev next) 1) cp)
      (λ e.
        All-le (parse_first_rev next) cp (content k) (first_le (parse_first_rev next) cp p nn nc e)
          b)
      (to_delete-covered content (next ∷ keys) cp key nc h) i
