-- ===== src/Auth/Tokens/Validity.antt =====
-- How long a token is good for.
use t.Prelude.{
  ℕ, ◌+◌, ◌≤◌, ◌≡◌, refl, sym, ap, ◌∙◌, none, some, [], ◌∷◌, Bytes, ltb, bytes_eq, bytes_eq_iff,
  if◌then◌else◌, arith, inl, inr, Bool-cases,
}
use t.Prelude.Dict.{Dict, lookup, lookup-insert, lookup-remove}
use t.Auth.Tokens.{
  TokenEntry, TokenStore, generate, user_of, lookup_token, revoke, unexpired, evict,
}

-- A token is good for its user up to the end of its time to live and not afterwards, until it is
-- revoked; the other tokens are not touched by either.
generate-revoke :
    (ts : TokenStore) (now t : ℕ) (tok other username : Bytes)
    → (lookup_token (generate ts now tok username) t other ≡ (
        if bytes_eq tok other
        then (if ltb (now + ts.ttl) t then none else some username)
        else lookup_token ts t other))
      × (lookup_token (revoke ts tok) t other
          ≡ (if bytes_eq tok other then none else lookup_token ts t other))
unfolding generate revoke lookup_token
generate-revoke ts now t tok other username =
    rw
      (
        lookup-insert tok other (record { username = username; expiry = now + ts.ttl }) ts.tokens,
        lookup-remove tok other ts.tokens,
      )
      (
        elim (Bool-cases (bytes_eq tok other)) [
          | inl same ↦ rw same refl
          | inr differ ↦ rw differ refl
        ],
        elim (Bool-cases (bytes_eq tok other)) [
          | inl same ↦ rw same refl
          | inr differ ↦ rw differ refl
        ],
      )

-- Every key stands once, as in a Go map.
abbrev pub IsMap : Dict TokenEntry → Type 0
IsMap [] = Unit
IsMap ((tok, e) ∷ m) = (lookup tok m ≡ none) × IsMap m

unexpired_missing :
    (now : ℕ) (m : Dict TokenEntry) (tok : Bytes)
    → lookup tok m ≡ none
    → lookup tok (unexpired now m) ≡ none
unfolding unexpired lookup
unexpired_missing now [] tok h = refl
unexpired_missing now ((k, e) ∷ m) tok h = elim (Bool-cases (bytes_eq k tok)) [
  | inl same ↦ absurd (ground (arith, h))
  | inr other ↦ elim (Bool-cases (ltb e.expiry now)) [
    | inl dead ↦ rw dead (unexpired_missing now m tok (rw other at h))
    | inr live ↦ rw (live, lookup, other) (unexpired_missing now m tok (rw other at h))
  ]
]

user_of-unexpired :
    (now t : ℕ) (m : Dict TokenEntry) (tok : Bytes)
    → IsMap m
    → now ≤ t
    → user_of t (lookup tok (unexpired now m)) ≡ user_of t (lookup tok m)
unfolding unexpired lookup
user_of-unexpired now t [] tok d h = refl
user_of-unexpired now t ((k, e) ∷ m) tok (fresh, d) h = elim (Bool-cases (ltb e.expiry now)) [
  | inl dead ↦ elim (Bool-cases (bytes_eq k tok)) [
    | inl same ↦
        rw
          (
            dead,
            same,
            unexpired_missing now m tok
                (ap (λ j. lookup j m) (sym ((bytes_eq_iff k tok).0 same)) ∙ fresh),
          )
          (ground arith)
    | inr other ↦ rw (dead, other) (user_of-unexpired now t m tok d h)
  ]
  | inr live ↦ elim (Bool-cases (bytes_eq k tok)) [
    | inl same ↦ rw (live, lookup, same) refl
    | inr other ↦ rw (live, lookup, other) (user_of-unexpired now t m tok d h)
  ]
]

-- Eviction is not seen: from then on every token is good for whom it was good for.
lookup_token-evict :
    (ts : TokenStore) (now t : ℕ) (tok : Bytes)
    → IsMap ts.tokens
    → now ≤ t
    → lookup_token (evict ts now) t tok ≡ lookup_token ts t tok
unfolding lookup_token evict
lookup_token-evict ts now t tok d h = user_of-unexpired now t ts.tokens tok d h
