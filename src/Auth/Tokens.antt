-- ===== src/Auth/Tokens.antt =====
-- etcd/auth/tokens.go: the tokens in memory. A time is a number of nanoseconds; the 32 random bytes
-- of a new token, in hexadecimal, are an argument.
pub mod Validity
use t.Prelude.{ℕ, ◌+◌, Bool, true, false, Option, none, some, [], ◌∷◌, Bytes, ltb, if◌then◌else◌}
use t.Prelude.Dict.{Dict, lookup, insert, remove}

-- `tokenEntry`
pub record TokenEntry : Type 0 where
  pub username : Bytes
  pub expiry : ℕ

pub record TokenStore : Type 0 where
  pub tokens : Dict TokenEntry
  pub ttl : ℕ

unfoldable pub generate : TokenStore → ℕ → Bytes → Bytes → TokenStore
generate ts now tok username = record ts {
  tokens = insert tok (record { username = username; expiry = now + ts.ttl }) ts.tokens;
}

-- `time.Now().After(e.expiry)` ends a token.
abbrev pub user_of : ℕ → Option TokenEntry → Option Bytes
user_of now none = none
user_of now (some e) = if ltb e.expiry now then none else some e.username

-- Lookup
unfoldable pub lookup_token : TokenStore → ℕ → Bytes → Option Bytes
lookup_token ts now token = user_of now (lookup token ts.tokens)

unfoldable pub revoke : TokenStore → Bytes → TokenStore
revoke ts token = record ts { tokens = remove token ts.tokens }

unfoldable pub unexpired : ℕ → Dict TokenEntry → Dict TokenEntry
unexpired now [] = []
unexpired now ((tok, e) ∷ m) =
    let rest = unexpired now m in if ltb e.expiry now then rest else (tok, e) ∷ rest

unfoldable pub evict : TokenStore → ℕ → TokenStore
unfolding unexpired
evict ts now = record ts { tokens = unexpired now ts.tokens }
