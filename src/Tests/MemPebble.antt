-- ===== src/Tests/MemPebble.antt =====
-- A Pebble whose contents are an association list in ascending order: the laws can hold.
use mathlib.Core.List.{Memᴰ}
use mathlib.Core.List.Memᴰ
use mathlib.Core.Option.{some-injective}
use t.Prelude.{
  ◌≡◌, refl, sym, ap, ◌∙◌, ◌⊎◌, inl, inr, Bool, true, false, some, [], ◌∷◌, Bytes, bytes_eq,
  bytes_lt, bytes_eq_iff, bytes_lt_trans, bytes_lt_irrefl, if◌then◌else◌, arith, Bool-cases,
}
use t.Prelude.Dict.{Dict, lookup, remove, lookup-remove}
use t.Store.Keys.{visits}
use t.Store.Pebble.{BatchOp, set, delete, Batch, Pebble, Lawful, IsAscending, effects}

total : (j k : Bytes) → bytes_eq j k ≡ false → bytes_lt j k ≡ false → bytes_lt k j ≡ true
unfolding bytes_eq bytes_lt
total [] [] e l = absurd (ground (arith, e))
total [] (y ∷ k) e l = absurd (ground (arith, l))
total (x ∷ j) [] e l = refl
total (x ∷ j) (y ∷ k) e l = ground (arith, total j k)

abbrev pub insert_sorted : Bytes → Bytes → Dict Bytes → Dict Bytes
insert_sorted k v [] = (k, v) ∷ []
insert_sorted k v ((j, w) ∷ m) =
    let rest = insert_sorted k v m in
    if bytes_eq j k then (k, v) ∷ m else if bytes_lt k j then (k, v) ∷ (j, w) ∷ m else (j, w) ∷ rest

abbrev pub put_op : BatchOp → Dict Bytes → Dict Bytes
put_op (set k v) m = insert_sorted k v m
put_op (delete k) m = remove k m

abbrev pub put_all : Batch → Dict Bytes → Dict Bytes
put_all [] m = m
put_all (o ∷ b) m = put_all b (put_op o m)

abbrev pub select : Bytes × Bytes → Dict Bytes → Dict Bytes
select bounds [] = []
select bounds ((k, v) ∷ m) =
    let rest = select bounds m in if visits bounds k then (k, v) ∷ rest else rest

lookup-insert_sorted :
    (k v : Bytes) (m : Dict Bytes) (j : Bytes)
    → lookup j (insert_sorted k v m) ≡ (if bytes_eq k j then some v else lookup j m)
unfolding lookup
lookup-insert_sorted k v [] j = refl
lookup-insert_sorted k v ((i, w) ∷ m) j =
    ground
      (arith, bytes_eq_iff k j, bytes_eq_iff i k, bytes_eq_iff i j, lookup-insert_sorted k v m j)

Mem-insert_sorted :
    (k v : Bytes) (m : Dict Bytes) (x : Bytes × Bytes)
    → Memᴰ x (insert_sorted k v m)
    → (x ≡ (k, v)) ⊎ Memᴰ x m
Mem-insert_sorted k v [] x (Memᴰ.head e) = inl e
Mem-insert_sorted k v [] x (Memᴰ.tail i) = absurd (Memᴰ.not-nil i)
Mem-insert_sorted k v ((j, w) ∷ m) x i =
    cases (Mem-insert_sorted k v m x) (bytes_eq j k) (bytes_lt k j) i
  where
    cases :
        (Memᴰ x (insert_sorted k v m) → (x ≡ (k, v)) ⊎ Memᴰ x m)
        → (c d : Bool)
        → Memᴰ x (
            if c
            then (k, v) ∷ m
            else if d
            then (k, v) ∷ (j, w) ∷ m
            else (j, w) ∷ insert_sorted k v m)
        → (x ≡ (k, v)) ⊎ Memᴰ x ((j, w) ∷ m)
    cases rest true d (Memᴰ.head e) = inl e
    cases rest true d (Memᴰ.tail i) = inr (Memᴰ.tail i)
    cases rest false true (Memᴰ.head e) = inl e
    cases rest false true (Memᴰ.tail i) = inr i
    cases rest false false (Memᴰ.head e) = inr (Memᴰ.head e)
    cases rest false false (Memᴰ.tail i) = elim (rest i) [
      | inl e ↦ inl e
      | inr i ↦ inr (Memᴰ.tail i)
    ]

insert_sorted-IsAscending :
    (k v : Bytes) (m : Dict Bytes) → IsAscending m → IsAscending (insert_sorted k v m)
insert_sorted-IsAscending k v [] asc = ((λ y i. absurd (Memᴰ.not-nil i)), tt)
insert_sorted-IsAscending k v ((j, w) ∷ m) (first, asc) = elim (Bool-cases (bytes_eq j k)) [
  | inl same ↦ rw same ((λ y i. rw (sym ((bytes_eq_iff j k).0 same)) (first y i)), asc)
  | inr differ ↦ elim (Bool-cases (bytes_lt k j)) [
    | inl below ↦
        rw (differ, below)
          (
            (λ y i. elim (mem-cons_cases i) [
              | inl e ↦ rw e below
              | inr later ↦ bytes_lt_trans k j y.0 below (first y later)
            ]),
            (first, asc),
          )
    | inr above ↦
        rw (differ, above)
          (
            (λ y i. elim (Mem-insert_sorted k v m y i) [
              | inl e ↦
                  rw e
                    (total k j (ground (arith, differ, bytes_eq_iff j k, bytes_eq_iff k j)) above)
              | inr later ↦ first y later
            ]),
            insert_sorted-IsAscending k v m asc,
          )
  ]
]
  where
    mem-cons_cases :
        {x y : Bytes × Bytes} → {xs : Dict Bytes} → Memᴰ y (x ∷ xs) → (y ≡ x) ⊎ Memᴰ y xs
    mem-cons_cases (Memᴰ.head e) = inl e
    mem-cons_cases (Memᴰ.tail i) = inr i

Mem-remove : (k : Bytes) (m : Dict Bytes) (x : Bytes × Bytes) → Memᴰ x (remove k m) → Memᴰ x m
unfolding remove
Mem-remove k [] x i = i
Mem-remove k ((j, w) ∷ m) x i = cases (Mem-remove k m x) (bytes_eq j k) i
  where
    cases :
        (Memᴰ x (remove k m) → Memᴰ x m)
        → (c : Bool) → Memᴰ x (if c then remove k m else (j, w) ∷ remove k m)
        → Memᴰ x ((j, w) ∷ m)
    cases rest true i = Memᴰ.tail (rest i)
    cases rest false (Memᴰ.head e) = Memᴰ.head e
    cases rest false (Memᴰ.tail i) = Memᴰ.tail (rest i)

remove-IsAscending : (k : Bytes) (m : Dict Bytes) → IsAscending m → IsAscending (remove k m)
unfolding remove
remove-IsAscending k [] asc = asc
remove-IsAscending k ((j, w) ∷ m) (first, asc) = elim (Bool-cases (bytes_eq j k)) [
  | inl same ↦ rw same (remove-IsAscending k m asc)
  | inr differ ↦ rw differ ((λ y i. first y (Mem-remove k m y i)), remove-IsAscending k m asc)
]

put_op-IsAscending : (o : BatchOp) (m : Dict Bytes) → IsAscending m → IsAscending (put_op o m)
put_op-IsAscending (set k v) m asc = insert_sorted-IsAscending k v m asc
put_op-IsAscending (delete k) m asc = remove-IsAscending k m asc

pub put_all-IsAscending : (b : Batch) (m : Dict Bytes) → IsAscending m → IsAscending (put_all b m)
put_all-IsAscending [] m asc = asc
put_all-IsAscending (o ∷ b) m asc = put_all-IsAscending b (put_op o m) (put_op-IsAscending o m asc)

lookup-put_all :
    (b : Batch) (m : Dict Bytes) (k : Bytes) → lookup k (put_all b m) ≡ effects b k (lookup k m)
lookup-put_all [] m k = refl
lookup-put_all (set j v ∷ b) m k =
    lookup-put_all b (insert_sorted j v m) k ∙ ap (effects b k) (lookup-insert_sorted j v m k)
lookup-put_all (delete j ∷ b) m k =
    lookup-put_all b (remove j m) k ∙ ap (effects b k) (lookup-remove j k m)

Mem-select :
    (bounds : Bytes × Bytes) (m : Dict Bytes) (x : Bytes × Bytes)
    → Memᴰ x (select bounds m)
    → Memᴰ x m × (visits bounds x.0 ≡ true)
Mem-select bounds [] x i = absurd (Memᴰ.not-nil i)
Mem-select bounds ((k, v) ∷ m) x i = cases (Mem-select bounds m x) (visits bounds k) refl i
  where
    cases :
        (Memᴰ x (select bounds m) → Memᴰ x m × (visits bounds x.0 ≡ true))
        → (c : Bool) → visits bounds k ≡ c
        → Memᴰ x (if c then (k, v) ∷ select bounds m else select bounds m)
        → Memᴰ x ((k, v) ∷ m) × (visits bounds x.0 ≡ true)
    cases rest true h (Memᴰ.head e) =
        (Memᴰ.head e, ap (λ (y : Bytes × Bytes). visits bounds y.0) e ∙ h)
    cases rest true h (Memᴰ.tail i) = let (j, w) = rest i in (Memᴰ.tail j, w)
    cases rest false h i = let (j, w) = rest i in (Memᴰ.tail j, w)

pair_eq : {a b c d : Bytes} → a ≡ b → c ≡ d → Path (Bytes × Bytes) (a, c) (b, d)
pair_eq e f = cc (e, f)

select-Mem :
    (bounds : Bytes × Bytes) (m : Dict Bytes) (k v : Bytes)
    → lookup k m ≡ some v
    → visits bounds k ≡ true
    → Memᴰ (k, v) (select bounds m)
unfolding lookup
select-Mem bounds [] k v e h = absurd (ground (arith, e))
select-Mem bounds ((j, w) ∷ m) k v e h = elim (Bool-cases (bytes_eq j k)) [
  | inl same ↦
      let jk = (bytes_eq_iff j k).0 same in
      let found = rw same at e in
      rw (ap (visits bounds) jk ∙ h) (Memᴰ.head (pair_eq (sym jk) (sym (some-injective w v found))))
  | inr differ ↦ elim (Bool-cases (visits bounds j)) [
    | inl seen ↦ rw seen (Memᴰ.tail (select-Mem bounds m k v (rw differ at e) h))
    | inr out ↦ rw out (select-Mem bounds m k v (rw differ at e) h)
  ]
]

lookup-Mem : (m : Dict Bytes) (k v : Bytes) → IsAscending m → Memᴰ (k, v) m → lookup k m ≡ some v
unfolding lookup
lookup-Mem [] k v asc i = absurd (Memᴰ.not-nil i)
lookup-Mem ((j, w) ∷ m) k v (first, asc) (Memᴰ.head e) =
    rw ((bytes_eq_iff j k).1 (sym (ap (λ (x : Bytes × Bytes). x.0) e)))
      (ap (λ (x : Bytes × Bytes). some x.1) (sym e))
lookup-Mem ((j, w) ∷ m) k v (first, asc) (Memᴰ.tail i) = elim (Bool-cases (bytes_eq j k)) [
  | inl same ↦ absurd (cc (first (k, v) i, bytes_lt_irrefl k, (bytes_eq_iff j k).0 same))
  | inr differ ↦ rw differ (lookup-Mem m k v asc i)
]

select-IsAscending :
    (bounds : Bytes × Bytes) (m : Dict Bytes) → IsAscending m → IsAscending (select bounds m)
select-IsAscending bounds [] asc = asc
select-IsAscending bounds ((k, v) ∷ m) (first, asc) = elim (Bool-cases (visits bounds k)) [
  | inl seen ↦
      rw seen ((λ y i. first y (Mem-select bounds m y i).0), select-IsAscending bounds m asc)
  | inr out ↦ rw out (select-IsAscending bounds m asc)
]

abbrev pub mem_pebble : Pebble
mem_pebble = record {
  Db = (m : Dict Bytes) × IsAscending m;
  get = λ db k. lookup k db.0;
  iter = λ db bounds. select bounds db.0;
  commit = λ b db. (put_all b db.0, put_all-IsAscending b db.0 db.1);
}

pub mem_pebble-Lawful : Lawful mem_pebble
mem_pebble-Lawful = record {
  get-commit = λ b db k. lookup-put_all b db.0 k;
  iter-get = λ db bounds k v i.
      let (j, seen) = Mem-select bounds db.0 (k, v) i in (lookup-Mem db.0 k v db.1 j, seen);
  get-iter = λ db bounds k v e h. select-Mem bounds db.0 k v e h;
  iter-IsAscending = λ db bounds. select-IsAscending bounds db.0 db.1;
}
