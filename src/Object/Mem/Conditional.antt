-- ===== src/Object/Mem/Conditional.antt =====
-- The store in memory against what pkg/object promises of a conditional write.
use mathlib.Core.Option.{some-injective}
use mathlib.Core.Path.{subst}
use t.Prelude.{
  ◌≡◌, refl, sym, ap, ◌∙◌, inl, inr, Option, none, some, Bytes, bytes_eq, bytes_eq_iff,
  bytes_eq_refl, if◌then◌else◌, Bool-cases, Option-cases,
}
use t.Prelude.Dict.{lookup, lookup-insert, lookup-remove}
use t.Object.{ConditionalStore, IsConditional}
use t.Object.Mem.{Mem, MemObj, get_etag, put, put_if_absent, put_if_match, delete}

module _ (md5_hex : Bytes → Bytes) where
  -- Each object has the tag of its content.
  unfoldable pub IsTagged : Mem → Type 0
  IsTagged m = (k : Bytes) (obj : MemObj) → lookup k m ≡ some obj → obj.etag ≡ md5_hex obj.content

  tagged_obj : Bytes → MemObj
  tagged_obj content = record { content = content; etag = md5_hex content }

  lookup-put :
      (m : Mem) (key content k : Bytes)
      → lookup k (put md5_hex m key content)
        ≡ (if bytes_eq key k then some (tagged_obj content) else lookup k m)
  unfolding put tagged_obj
  lookup-put m key content k = lookup-insert key k (tagged_obj content) m

  pub put-IsTagged :
      (m : Mem) (key content : Bytes) → IsTagged m → IsTagged (put md5_hex m key content)
  unfolding IsTagged tagged_obj
  put-IsTagged m key content tagged k obj e =
      let e' = sym (lookup-put m key content k) ∙ e in
      elim (Bool-cases (bytes_eq key k)) [
        | inl same ↦
            let written = some-injective (tagged_obj content) obj (rw same at e') in
            subst (λ (x : MemObj). x.etag ≡ md5_hex x.content) written refl
        | inr differ ↦ tagged k obj (rw differ at e')
      ]

  pub put_if_absent-put :
      (m m' : Mem) (key content : Bytes)
      → put_if_absent md5_hex m key content ≡ some m'
      → (lookup key m ≡ none) × (m' ≡ put md5_hex m key content)
  unfolding put put_if_absent
  put_if_absent-put m m' key content e = elim (Option-cases (lookup key m)) [
    | inl absent ↦ (absent, cc (rw (put_if_absent, absent) at e))
    | inr (obj, at) ↦ absurd (cc (rw (put_if_absent, at) at e))
  ]

  pub put_if_match-put :
      (m m' : Mem) (key content match_etag : Bytes)
      → put_if_match md5_hex m key content match_etag ≡ some m'
      → ((obj : MemObj) × (lookup key m ≡ some obj) × (obj.etag ≡ match_etag))
        × (m' ≡ put md5_hex m key content)
  unfolding put put_if_match
  put_if_match-put m m' key content match_etag e = elim (Option-cases (lookup key m)) [
    | inl absent ↦ absurd (cc (rw (put_if_match, absent) at e))
    | inr (obj, at) ↦ elim (Bool-cases (bytes_eq obj.etag match_etag)) [
      | inl same ↦ (
        (obj, at, (bytes_eq_iff obj.etag match_etag).0 same),
        cc (rw (put_if_match, at, same) at e),
      )
      | inr differ ↦ absurd (cc (rw (put_if_match, at, differ) at e))
    ]
  ]

  get_etag-put :
      (m : Mem) (key content : Bytes)
      → get_etag (put md5_hex m key content) key ≡ some (content, md5_hex content)
  unfolding get_etag tagged_obj
  get_etag-put m key content = rw (get_etag, lookup-put m key content key, bytes_eq_refl key) refl

  pub delete-IsTagged : (m : Mem) (key : Bytes) → IsTagged m → IsTagged (delete m key)
  unfolding IsTagged delete
  delete-IsTagged m key tagged k obj e =
      let e' = sym (lookup-remove key k m) ∙ e in
      elim (Bool-cases (bytes_eq key k)) [
        | inl same ↦ absurd (cc (rw same at e'))
        | inr differ ↦ tagged k obj (rw differ at e')
      ]

  unfoldable pub with_tag :
      (x : Option Mem) → ((m : Mem) → x ≡ some m → IsTagged m) → Option ((m : Mem) × IsTagged m)
  with_tag none h = none
  with_tag (some m) h = some (m, h m refl)

  with_tag-some :
      (x : Option Mem) (h : (m : Mem) → x ≡ some m → IsTagged m) (s : (m : Mem) × IsTagged m)
      → with_tag x h ≡ some s
      → x ≡ some s.0
  unfolding with_tag
  with_tag-some none h s e = absurd (cc e)
  with_tag-some (some m) h s e =
      ap some (ap (λ (y : (m : Mem) × IsTagged m). y.0) (some-injective _ _ e))

  -- The store in memory as the interface, its objects tagged
  abbrev pub mem_store : ConditionalStore
  mem_store = record {
    State = (m : Mem) × IsTagged m;
    get_etag = λ s. get_etag s.0;
    put = λ s key content. (put md5_hex s.0 key content, put-IsTagged s.0 key content s.1);
    put_if_absent = λ s key content. with_tag (put_if_absent md5_hex s.0 key content) (λ m e.
        subst IsTagged (sym (put_if_absent-put s.0 m key content e).1)
          (put-IsTagged s.0 key content s.1));
    put_if_match = λ s key content etag.
        with_tag (put_if_match md5_hex s.0 key content etag) (λ m e.
          subst IsTagged (sym (put_if_match-put s.0 m key content etag e).1)
            (put-IsTagged s.0 key content s.1));
    delete = λ s key. (delete s.0 key, delete-IsTagged s.0 key s.1);
  }

  get_etag-none : (m : Mem) (k : Bytes) → lookup k m ≡ none → get_etag m k ≡ none
  unfolding get_etag
  get_etag-none m k e = rw (get_etag, e) refl

  get_etag-some :
      (m : Mem) (k : Bytes) (obj : MemObj)
      → lookup k m ≡ some obj
      → get_etag m k ≡ some (obj.content, obj.etag)
  unfolding get_etag
  get_etag-some m k obj e = rw (get_etag, e) refl

  get_etag-lookup :
      (m : Mem) (k d e : Bytes)
      → get_etag m k ≡ some (d, e)
      → (obj : MemObj) × (lookup k m ≡ some obj) × (obj.content ≡ d) × (obj.etag ≡ e)
  unfolding get_etag
  get_etag-lookup m k d e h = elim (Option-cases (lookup k m)) [
    | inl absent ↦ absurd (cc (rw (get_etag, absent) at h))
    | inr (obj, at) ↦ (obj, at, cc (rw (get_etag, at) at h), cc (rw (get_etag, at) at h))
  ]

  -- For a hash without collisions in place of MD5, the store in memory is an instance of the
  -- interface, tags included.
  pub mem_store-IsConditional :
      ((c d : Bytes) → md5_hex c ≡ md5_hex d → c ≡ d) → IsConditional mem_store
  unfolding IsTagged get_etag
  mem_store-IsConditional inj = record {
    put_if_absent-get = λ s s' k d w.
        let (absent, same) =
          put_if_absent-put s.0 s'.0 k d (with_tag-some (put_if_absent md5_hex s.0 k d) _ s' w) in
        (
          get_etag-none s.0 k absent,
          (md5_hex d, ap (λ m. get_etag m k) same ∙ get_etag-put s.0 k d),
        );
    put_if_match-get = λ s s' k d e w.
        let ((obj, at, tag), same) =
          put_if_match-put s.0 s'.0 k d e (with_tag-some (put_if_match md5_hex s.0 k d e) _ s' w) in
        (
          (obj.content, get_etag-some s.0 k obj at ∙ ap (λ t. some (obj.content, t)) tag),
          (md5_hex d, ap (λ m. get_etag m k) same ∙ get_etag-put s.0 k d),
        );
    same_etag = λ s s' k d d' e at at'.
        let (obj, found, content, tag) = get_etag-lookup s.0 k d e at in
        let (obj', found', content', tag') = get_etag-lookup s'.0 k d' e at' in
        sym content
        ∙ inj obj.content obj'.content (sym (s.1 k obj found) ∙ tag ∙ sym tag' ∙ s'.1 k obj' found')
        ∙ content';
  }
