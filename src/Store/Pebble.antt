-- ===== src/Store/Pebble.antt =====
-- What internal/store uses of Pebble: a lookup, an iteration between two bounds, and a batch of
-- writes that is committed as a whole. Pebble is not part of the repository: these are parameters,
-- and `Lawful` is its documented behaviour.
use mathlib.Core.List.{Memᴰ}
use t.Prelude.{
  ◌≡◌, true, Option, some, none, List, [], ◌∷◌, ◌++◌, Bytes, bytes_eq, bytes_lt, if◌then◌else◌,
  refl,
}
use t.Store.Keys.{visits}

pub data BatchOp : Type 0 where
  set : Bytes → Bytes → BatchOp
  delete : Bytes → BatchOp

abbrev pub Batch : Type 0
Batch = List BatchOp

pub record Pebble : Type 1 where
  pub Db : Type 0
  pub get : Db → Bytes → Option Bytes
  -- the keys between the bounds and their values, in ascending order
  pub iter : Db → Bytes × Bytes → List (Bytes × Bytes)
  pub commit : Batch → Db → Db

-- A write as a change of what a lookup of `k` finds
abbrev pub effect : BatchOp → Bytes → Option Bytes → Option Bytes
effect (set j v) k old = if bytes_eq j k then some v else old
effect (delete j) k old = if bytes_eq j k then none else old

-- Later writes of a batch come over earlier ones.
abbrev pub effects : Batch → Bytes → Option Bytes → Option Bytes
effects [] k old = old
effects (o ∷ b) k old = effects b k (effect o k old)

-- The keys ascend.
abbrev pub IsAscending : List (Bytes × Bytes) → Type 0
IsAscending [] = Unit
IsAscending (x ∷ xs) = ((y : Bytes × Bytes) → Memᴰ y xs → bytes_lt x.0 y.0 ≡ true) × IsAscending xs

pub record Lawful (p : Pebble) : Type 0 where
  pub get-commit :
      (b : Batch) (db : p.Db) (k : Bytes) → p.get (p.commit b db) k ≡ effects b k (p.get db k)
  pub iter-get :
      (db : p.Db) (bounds : Bytes × Bytes) (k v : Bytes)
      → Memᴰ (k, v) (p.iter db bounds)
      → (p.get db k ≡ some v) × (visits bounds k ≡ true)
  pub get-iter :
      (db : p.Db) (bounds : Bytes × Bytes) (k v : Bytes)
      → p.get db k ≡ some v
      → visits bounds k ≡ true
      → Memᴰ (k, v) (p.iter db bounds)
  pub iter-IsAscending : (db : p.Db) (bounds : Bytes × Bytes) → IsAscending (p.iter db bounds)

pub effects-append :
    (b c : Batch) (k : Bytes) (old : Option Bytes)
    → effects (b ++ c) k old ≡ effects c k (effects b k old)
effects-append [] c k old = refl
effects-append (o ∷ b) c k old = effects-append b c k (effect o k old)
