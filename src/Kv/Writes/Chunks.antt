-- ===== src/Kv/Writes/Chunks.antt =====
-- The transactions that DeleteRange of etcd/kv.go cuts a range into.
use t.Prelude.{ℕ, zero, suc, ◌≤◌, ◌≡◌, refl, ap, ◌∙◌, List, [], ◌∷◌, ◌++◌, length, All, arith}
use t.Kv.Writes.{on_first, chunks}

abbrev flatten {ℓ} : {A : Type ℓ} → List (List A) → List A
flatten [] = []
flatten (c ∷ cs) = c ++ flatten cs

-- A first list of at most `left` elements, and others of at most one more than `size`
abbrev AreWithin {ℓ} : {A : Type ℓ} → ℕ → ℕ → List (List A) → Type 0
AreWithin size left [] = Unit {0}
AreWithin size left (c ∷ cs) = (length c ≤ left) × All (λ d. length d ≤ suc size) cs

module _ {ℓ} {A : Type ℓ} where
  flatten-on_first : (x : A) (cs : List (List A)) → flatten (on_first x cs) ≡ x ∷ flatten cs
  flatten-on_first x [] = refl
  flatten-on_first x (c ∷ cs) = refl

  -- The chunks are the list, cut.
  pub flatten-chunks : (size left : ℕ) (xs : List A) → flatten (chunks size left xs) ≡ xs
  unfolding chunks
  flatten-chunks size left [] = refl
  flatten-chunks size zero (x ∷ xs) =
      flatten-on_first x (chunks size size xs) ∙ ap (◌∷◌ x) (flatten-chunks size size xs)
  flatten-chunks size (suc left) (x ∷ xs) =
      flatten-on_first x (chunks size left xs) ∙ ap (◌∷◌ x) (flatten-chunks size left xs)

  on_first-AreWithin :
      (size left : ℕ) (x : A) (cs : List (List A))
      → AreWithin size left cs
      → AreWithin size (suc left) (on_first x cs)
  on_first-AreWithin size left x [] h = (omega arith, tt)
  on_first-AreWithin size left x (c ∷ cs) (h, hs) = (omega (arith, h), hs)

  new_chunk-AreWithin :
      (size : ℕ) (cs : List (List A)) → AreWithin size (suc size) cs → AreWithin size zero ([] ∷ cs)
  new_chunk-AreWithin size [] h = (omega arith, tt)
  new_chunk-AreWithin size (c ∷ cs) (h, hs) = (omega arith, (h, hs))

  -- No chunk is longer than its bound.
  pub chunks-AreWithin : (size left : ℕ) (xs : List A) → AreWithin size left (chunks size left xs)
  unfolding chunks
  chunks-AreWithin size left [] = (omega arith, tt)
  chunks-AreWithin size zero (x ∷ xs) =
      new_chunk-AreWithin size (on_first x (chunks size size xs))
        (on_first-AreWithin size size x (chunks size size xs) (chunks-AreWithin size size xs))
  chunks-AreWithin size (suc left) (x ∷ xs) =
      on_first-AreWithin size left x (chunks size left xs) (chunks-AreWithin size left xs)
