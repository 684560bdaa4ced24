-- ===== src/Object/Mem/Swap.antt =====
-- When the conditional writes of pkg/object/mem.go are made, and what is read after them.
use t.Prelude.{
  ◌≡◌, ◌≢◌, ◌↔◌, true, false, refl, ap, ◌∙◌, inl, inr, Option, none, some, Bytes, bytes_eq,
  bytes_eq_iff, if◌then◌else◌, Bool-cases, Option-cases,
}
use t.Prelude.Dict.{lookup, insert, lookup-insert}
use t.Object.Mem.{Mem, MemObj, get_etag, put_if_absent, put_if_match}

module _ (md5_hex : Bytes → Bytes) where
  -- The write was made: the key has the data with its tag, and every other key what it had.
  abbrev pub IsWritten : Option Mem → Mem → Bytes → Bytes → Type 0
  IsWritten answer m k d =
      (m' : Mem) × (answer ≡ some m')
      × ((j : Bytes) → get_etag m' j ≡ (if bytes_eq k j then some (d, md5_hex d) else get_etag m j))

  written : Mem → Bytes → Bytes → Mem
  unfolding insert
  written m k d = insert k (record { content = d; etag = md5_hex d }) m

  get_etag-none : (m : Mem) (k : Bytes) → lookup k m ≡ none → get_etag m k ≡ none
  unfolding get_etag
  get_etag-none m k e = rw (get_etag, e) refl

  get_etag-some :
      (m : Mem) (k : Bytes) (obj : MemObj)
      → lookup k m ≡ some obj
      → get_etag m k ≡ some (obj.content, obj.etag)
  unfolding get_etag
  get_etag-some m k obj e = rw (get_etag, e) refl

  get_etag-agree :
      (m m' : Mem) (k : Bytes) → lookup k m ≡ lookup k m' → get_etag m k ≡ get_etag m' k
  unfolding get_etag
  get_etag-agree m m' k e = rw (get_etag, e) refl

  get_etag-written :
      (m : Mem) (k d j : Bytes)
      → get_etag (written m k d) j ≡ (if bytes_eq k j then some (d, md5_hex d) else get_etag m j)
  unfolding written
  get_etag-written m k d j =
      let obj : MemObj = record { content = d; etag = md5_hex d } in
      let seen = lookup-insert k j obj m in
      elim (Bool-cases (bytes_eq k j)) [
        | inl same ↦ simp same (get_etag-some (written m k d) j obj (rw same at seen))
        | inr differ ↦ simp differ (get_etag-agree (written m k d) m j (rw differ at seen))
      ]

  made :
      (answer : Option Mem) (m : Mem) (k d : Bytes)
      → answer ≡ some (written m k d)
      → IsWritten answer m k d
  made answer m k d e = (written m k d, e, get_etag-written m k d)

  not_made :
      (answer : Option Mem) (m : Mem) (k d : Bytes) → answer ≡ none → ¬ IsWritten answer m k d
  not_made answer m k d e (m', e', get) = cc (e, e')

  absent_new :
      (m : Mem) (k d : Bytes)
      → lookup k m ≡ none
      → put_if_absent md5_hex m k d ≡ some (written m k d)
  unfolding put_if_absent written
  absent_new m k d e = rw (put_if_absent, e) refl

  absent_old :
      (m : Mem) (k d : Bytes) (obj : MemObj)
      → lookup k m ≡ some obj
      → put_if_absent md5_hex m k d ≡ none
  unfolding put_if_absent
  absent_old m k d obj e = rw (put_if_absent, e) refl

  match_missing :
      (m : Mem) (k d tag : Bytes) → lookup k m ≡ none → put_if_match md5_hex m k d tag ≡ none
  unfolding put_if_match
  match_missing m k d tag e = rw (put_if_match, e) refl

  match_same :
      (m : Mem) (k d tag : Bytes) (obj : MemObj)
      → lookup k m ≡ some obj
      → bytes_eq obj.etag tag ≡ true
      → put_if_match md5_hex m k d tag ≡ some (written m k d)
  unfolding put_if_match written
  match_same m k d tag obj e same = rw (put_if_match, e, same) refl

  match_differ :
      (m : Mem) (k d tag : Bytes) (obj : MemObj)
      → lookup k m ≡ some obj
      → bytes_eq obj.etag tag ≡ false
      → put_if_match md5_hex m k d tag ≡ none
  unfolding put_if_match
  match_differ m k d tag obj e differ = rw (put_if_match, e, differ) refl

  other_tag :
      (m : Mem) (k tag : Bytes) (obj : MemObj)
      → get_etag m k ≡ some (obj.content, obj.etag)
      → bytes_eq obj.etag tag ≡ false
      → (c : Bytes) → ¬ (get_etag m k ≡ some (c, tag))
  other_tag m k tag obj seen differ c g = cc (differ, (bytes_eq_iff obj.etag tag).1 (cc (seen, g)))

  module _ (m : Mem) (k d : Bytes) where
    absent_iff :
        (IsWritten (put_if_absent md5_hex m k d) m k d ↔ (get_etag m k ≡ none))
        × ((put_if_absent md5_hex m k d ≡ none) ↔ (get_etag m k ≢ none))
    absent_iff = elim (Option-cases (lookup k m)) [
      | inl e ↦
          let new = absent_new m k d e in
          let seen = get_etag-none m k e in
          ((λ w. seen, λ h. made _ m k d new), (λ h. absurd (cc (new, h)), λ h. absurd (h seen)))
      | inr (obj, e) ↦
          let old = absent_old m k d obj e in
          let seen = get_etag-some m k obj e in
          (
            (λ w. absurd (not_made _ m k d old w), λ h. absurd (cc (seen, h))),
            (λ h g. cc (seen, g), λ h. old),
          )
    ]

    match_iff :
        (tag : Bytes)
        → (IsWritten (put_if_match md5_hex m k d tag) m k d
            ↔ ((c : Bytes) × (get_etag m k ≡ some (c, tag))))
          × ((put_if_match md5_hex m k d tag ≡ none)
              ↔ ¬ ((c : Bytes) × (get_etag m k ≡ some (c, tag))))
    match_iff tag = elim (Option-cases (lookup k m)) [
      | inl e ↦
          let refused = match_missing m k d tag e in
          let seen = get_etag-none m k e in
          (
            (λ w. absurd (not_made _ m k d refused w), λ (c, h). absurd (cc (seen, h))),
            (λ h (c, g). cc (seen, g), λ h. refused),
          )
      | inr (obj, e) ↦
          let seen = get_etag-some m k obj e in
          elim (Bool-cases (bytes_eq obj.etag tag)) [
            | inl same ↦
                let new = match_same m k d tag obj e same in
                let here =
                  seen ∙ ap (λ t. some (obj.content, t)) ((bytes_eq_iff obj.etag tag).0 same) in
                (
                  (λ w. (obj.content, here), λ h. made _ m k d new),
                  (λ h. absurd (cc (new, h)), λ h. absurd (h (obj.content, here))),
                )
            | inr differ ↦
                let refused = match_differ m k d tag obj e differ in
                let other = other_tag m k tag obj seen differ in
                (
                  (λ w. absurd (not_made _ m k d refused w), λ (c, g). absurd (other c g)),
                  (λ h (c, g). other c g, λ h. refused),
                )
          ]
    ]

  -- In the store in memory a write on condition that the key is absent is made exactly if no object
  -- is read at the key, and answers a failed precondition exactly if one is; a write on condition of
  -- a tag is made exactly if an object with that tag is read, and fails exactly if none is. After a
  -- write that was made, the key reads as the data with the tag of the data, and every other key as
  -- before. The hash that makes the tags is any.
  pub compare_and_swap :
      (m : Mem) (k d tag : Bytes)
      → (IsWritten (put_if_absent md5_hex m k d) m k d ↔ (get_etag m k ≡ none))
        × ((put_if_absent md5_hex m k d ≡ none) ↔ (get_etag m k ≢ none))
        × (IsWritten (put_if_match md5_hex m k d tag) m k d
            ↔ ((c : Bytes) × (get_etag m k ≡ some (c, tag))))
        × ((put_if_match md5_hex m k d tag ≡ none)
            ↔ ¬ ((c : Bytes) × (get_etag m k ≡ some (c, tag))))
  compare_and_swap m k d tag =
      ((absent_iff m k d).0, (absent_iff m k d).1, (match_iff m k d tag).0, (match_iff m k d tag).1)
