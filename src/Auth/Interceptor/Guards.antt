-- ===== src/Auth/Interceptor/Guards.antt =====
-- What the interceptor guards, and what it does not.
use t.Prelude.{
  ℕ, ◌≡◌, refl, ◌↔◌, sym, ◌∙◌, ◌&&◌, Bool, true, false, not, Option, none, some, List, [], ◌∷◌,
  Bytes, All, ascii, has_prefix, bytes_eq, if◌then◌else◌, arith,
}
use mathlib.Core.Option.{some-injective}
use mathlib.Core.Path.{subst}
use t.Result.{Result, ok, err}
use t.Auth.{PermType}
use t.Auth.Tokens.{TokenStore, lookup_token}
use t.Auth.Store.{Store, Failure}
use t.Auth.Store.Check.{is_auth_prefix, check_permission}
use t.Auth.Interceptor.Names.{Names, extract_keys-Names}
use t.Auth.Interceptor.Needs.{Needs, method_perm-Needs}
use t.Auth.Interceptor.{
  Request, Refusal, extract_keys, refuse_internal, check_auth_key_access, token_from_ctx,
  check_keys, check_method, check_user, check_token, check_auth, check_stream, method_perm,
  open_method, watch_method, deny,
}

module _ {P : Bytes → Type 0} where
  All-true : (ks : List Bytes) → ((k : Bytes) → P k) → All P ks
  All-true [] f = tt
  All-true (k ∷ ks) f = (f k, All-true ks f)

  module _ {Q : Bytes → Type 0} where
    All-map : (ks : List Bytes) → ((k : Bytes) → P k → Q k) → All P ks → All Q ks
    All-map [] f h = tt
    All-map (k ∷ ks) f h = (f k h.0, All-map ks f h.1)

All-both : (P Q : Bytes → Type 0) (ks : List Bytes) → All P ks → All Q ks → All (λ k. P k × Q k) ks
All-both P Q [] h g = tt
All-both P Q (k ∷ ks) h g = ((h.0, g.0), All-both P Q ks h.1 g.1)

refuse_internal_iff :
    (keys : List Bytes) → (refuse_internal keys ≡ none) ↔ All (λ k. is_auth_prefix k ≡ false) keys
unfolding refuse_internal
refuse_internal_iff [] = (λ h. tt, λ h. refl)
refuse_internal_iff (k ∷ ks) = cases (is_auth_prefix k) (refuse_internal_iff ks)
  where
    cases :
        (c : Bool)
        → (refuse_internal ks ≡ none) ↔ All (λ k. is_auth_prefix k ≡ false) ks
        → ((if c then some Refusal.internal_namespace else refuse_internal ks) ≡ none)
          ↔ ((c ≡ false) × All (λ k. is_auth_prefix k ≡ false) ks)
    cases true ih = (λ h. absurd (ground arith), λ h. absurd (ground arith))
    cases false ih = (λ h. (refl, ih.0 h), λ h. ih.1 h.1)

-- The keys that may not be of the auth store's namespace.
abbrev pub kv_keys : Bytes → Option Request → List Bytes
kv_keys m req = if has_prefix m (ascii "/etcdserverpb.KV/") then extract_keys m req else []

access_iff :
    (m : Bytes) (req : Option Request)
    → (check_auth_key_access m req ≡ none) ↔ All (λ k. is_auth_prefix k ≡ false) (kv_keys m req)
unfolding check_auth_key_access extract_keys
access_iff m none = nothing (has_prefix m (ascii "/etcdserverpb.KV/"))
  where
    nothing :
        (c : Bool)
        → (check_auth_key_access m none ≡ none)
          ↔ All (λ k. is_auth_prefix k ≡ false) (if c then extract_keys m none else [])
    nothing true = (λ h. tt, λ h. refl)
    nothing false = (λ h. tt, λ h. refl)
access_iff m (some req) = cases (has_prefix m (ascii "/etcdserverpb.KV/"))
  where
    cases :
        (c : Bool)
        → ((if not c then none else refuse_internal (extract_keys m (some req))) ≡ none)
          ↔ All (λ k. is_auth_prefix k ≡ false) (if c then extract_keys m (some req) else [])
    cases true = refuse_internal_iff (extract_keys m (some req))
    cases false = (λ h. tt, λ h. refl)

module _ {S : Type 0} (s : Store S) where
  check_keys_iff :
      (username : Bytes) (pt : PermType) (keys : List Bytes)
      → (check_keys s username pt keys ≡ none)
        ↔ All (λ k. check_permission s username k pt ≡ none) keys
  unfolding check_keys
  check_keys_iff username pt [] = (λ h. tt, λ h. refl)
  check_keys_iff username pt (k ∷ ks) =
      cases (check_permission s username k pt) (check_keys_iff username pt ks)
    where
      cases :
          (f : Failure)
          → (check_keys s username pt ks ≡ none)
            ↔ All (λ k. check_permission s username k pt ≡ none) ks
          → (deny k f (check_keys s username pt ks) ≡ none)
            ↔ ((f ≡ none) × All (λ k. check_permission s username k pt ≡ none) ks)
      cases none ih = (λ h. (refl, ih.0 h), λ h. ih.1 h.1)
      cases (some e) ih = (λ h. absurd (ground arith), λ h. absurd (ground arith))

  -- Whatever permission the method needs, the user has it for the keys.
  abbrev pub Permitted : Bytes → List Bytes → Option PermType → Type 0
  Permitted username keys none = Unit
  Permitted username keys (some pt) = All (λ k. check_permission s username k pt ≡ none) keys

  check_method_iff :
      (username : Bytes) (keys : List Bytes) (o : Option PermType)
      → (check_method s username keys o ≡ none) ↔ Permitted username keys o
  check_method_iff username keys none = (λ h. tt, λ h. refl)
  check_method_iff username keys (some pt) = check_keys_iff username pt keys

  check_user_iff :
      (username m : Bytes) (req : Option Request) (o : Option Refusal)
      → (check_user s username m req o ≡ none)
        ↔ ((o ≡ none) × Permitted username (extract_keys m req) (method_perm m))
  check_user_iff username m req none =
      let (to, from) = check_method_iff username (extract_keys m req) (method_perm m) in
      (λ h. (refl, to h), λ h. from h.1)
  check_user_iff username m req (some e) = (λ h. absurd (ground arith), λ h. absurd (ground arith))

  -- The request is from this user, touches no key of the auth store's namespace, and the user may
  -- access the keys that it names.
  abbrev pub Admits : Bytes → Bytes → Option Request → Type 0
  Admits username m req =
      All (λ k. is_auth_prefix k ≡ false) (kv_keys m req)
      × Permitted username (extract_keys m req) (method_perm m)

  check_token_iff :
      (m : Bytes) (req : Option Request) (r : Result Refusal Bytes)
      → (check_token s m req r ≡ none)
        ↔ ((username : Bytes) × (r ≡ ok username) × Admits username m req)
  check_token_iff m req (err e) =
      (λ h. absurd (ground arith), λ (u, same, a). absurd (ground arith))
  check_token_iff m req (ok username) = (
    λ h.
        let (clean, permitted) =
          (check_user_iff username m req (check_auth_key_access m req)).0 h in
        (username, refl, ((access_iff m req).0 clean, permitted)),
    λ (u, same, (clean, permitted)).
        let same_user : u ≡ username = ground arith in
        (check_user_iff username m req (check_auth_key_access m req)).1 (
          (access_iff m req).1 clean,
          subst (λ v. Permitted v (extract_keys m req) (method_perm m)) same_user permitted,
        ),
  )

  -- The user may make the request: no key that it names is of the auth store's namespace if the
  -- method is one of the key-value service, and the user has, for every key that it names, the
  -- permission that the method needs.
  abbrev pub MayRequest : Bytes → Bytes → Option Request → Type 0
  MayRequest username m req =
      (k : Bytes)
      → Names m k req
      → ((has_prefix m (ascii "/etcdserverpb.KV/") && is_auth_prefix k) ≡ false)
        × ((pt : PermType) → Needs m pt → check_permission s username k pt ≡ none)

  Permitted-Needs :
      (username m : Bytes) (keys : List Bytes) (o : Option PermType)
      → method_perm m ≡ o
      → Permitted username keys o
        ↔ All (λ k. (pt : PermType) → Needs m pt → check_permission s username k pt ≡ none) keys
  Permitted-Needs username m keys none e =
      (λ h. All-true keys (λ k pt n. absurd (cc (e, (method_perm-Needs m pt).1 n))), λ h. tt)
  Permitted-Needs username m keys (some pt) e = (
    λ h.
        All-map keys
          (λ k allowed pt' n.
            subst (λ q. check_permission s username k q ≡ none)
              (some-injective pt pt' (sym e ∙ (method_perm-Needs m pt').1 n)) allowed)
          h,
    λ h. All-map keys (λ k f. f pt ((method_perm-Needs m pt).0 e)) h,
  )

  clean_iff :
      (m : Bytes) (req : Option Request)
      → All (λ k. is_auth_prefix k ≡ false) (kv_keys m req)
        ↔ All
            (λ k. (has_prefix m (ascii "/etcdserverpb.KV/") && is_auth_prefix k) ≡ false)
            (extract_keys m req)
  clean_iff m req = cases (has_prefix m (ascii "/etcdserverpb.KV/"))
    where
      cases :
          (c : Bool)
          → All (λ k. is_auth_prefix k ≡ false) (if c then extract_keys m req else [])
            ↔ All (λ k. (c && is_auth_prefix k) ≡ false) (extract_keys m req)
      cases true = (λ h. h, λ h. h)
      cases false = (λ h. All-true (extract_keys m req) (λ k. refl), λ h. tt)

  Admits-MayRequest :
      (username m : Bytes) (req : Option Request)
      → Admits username m req ↔ MayRequest username m req
  Admits-MayRequest username m req =
      let keys = extract_keys m req in
      let (clean, clean') = clean_iff m req in
      let (need, need') = Permitted-Needs username m keys (method_perm m) refl in
      let (named, named') =
        extract_keys-Names
          (λ k.
            ((has_prefix m (ascii "/etcdserverpb.KV/") && is_auth_prefix k) ≡ false)
            × ((pt : PermType) → Needs m pt → check_permission s username k pt ≡ none))
          m req in
      (
        λ h. named (All-both _ _ keys (clean h.0) (need h.1)),
        λ h. (
          clean' (All-map keys (λ k b. b.0) (named' h)),
          need' (All-map keys (λ k b. b.1) (named' h)),
        ),
      )

  module _ (tokens : TokenStore) (now : ℕ) where
    check_auth-check_token :
        (md : Option (List Bytes)) (m : Bytes) (req : Option Request)
        → s.enabled ≡ true
        → open_method m ≡ false
        → check_auth s tokens now md m req ≡ check_token s m req (token_from_ctx tokens now md)
    unfolding check_auth
    check_auth-check_token md m req on guarded = simp (guarded, on) refl

    -- While access control is on, a method that is not open is admitted exactly if the request
    -- carries a good token, and every key that it names is none of the auth store's namespace, if
    -- the method is one of the key-value service, and one for which the token's user has the
    -- permission that the method needs. A request names its key, or the start of its range but not
    -- the end, a transaction those of its comparisons and of the operations of both branches; what
    -- a transaction nested in it names does not count.
    pub check_auth_iff :
        (md : Option (List Bytes)) (m : Bytes) (req : Option Request)
        → s.enabled ≡ true
        → open_method m ≡ false
        → (check_auth s tokens now md m req ≡ none) ↔ (
            (username : Bytes) × (token_from_ctx tokens now md ≡ ok username)
            × MayRequest username m req)
    check_auth_iff md m req on guarded =
        let (to, from) = check_token_iff m req (token_from_ctx tokens now md) in
        let same = check_auth-check_token md m req on guarded in
        (
          λ h. let (u, e, a) = to (sym same ∙ h) in (u, e, (Admits-MayRequest u m req).0 a),
          λ (u, e, a). same ∙ from (u, e, (Admits-MayRequest u m req).1 a),
        )

    -- While access control is on, a stream of watches is opened for every user with a good token:
    -- no key and no permission is looked at, since a stream has no request when it is checked.
    pub watch_unchecked :
        (username tok : Bytes) (toks : List Bytes)
        → s.enabled ≡ true
        → lookup_token tokens now tok ≡ some username
        → check_stream s tokens now (some (tok ∷ toks)) watch_method ≡ none
    unfolding check_stream check_auth open_method bytes_eq token_from_ctx check_auth_key_access
        method_perm extract_keys check_keys
    watch_unchecked username tok toks on good = simp (on, good) refl
