-- ===== src/Object/Mem.antt =====
-- pkg/object/mem.go: the object store in memory. `md5_hex` is the hexadecimal MD5 of the data.
pub mod Conditional
pub mod Swap
use t.Prelude.{
  ◌≡◌, refl, sym, ap, ◌∙◌, Bool, true, false, not, Option, none, some, List, [], ◌∷◌, Bytes,
  bytes_eq, bytes_eq_iff, bytes_eq_refl, has_prefix, if◌then◌else◌, arith, Bool-cases, inl, inr,
}
use t.Prelude.Dict.{Dict, lookup, insert, remove, lookup-insert}

pub record MemObj : Type 0 where
  pub content : Bytes
  pub etag : Bytes

abbrev pub Mem : Type 0
Mem = Dict MemObj

unfoldable pub get : Mem → Bytes → Option Bytes
unfolding lookup
get m key = elim (lookup key m) [ none ↦ none | some obj ↦ some obj.content ]

unfoldable pub get_etag : Mem → Bytes → Option (Bytes × Bytes)
unfolding lookup
get_etag m key = elim (lookup key m) [ none ↦ none | some obj ↦ some (obj.content, obj.etag) ]

unfoldable pub delete : Mem → Bytes → Mem
unfolding remove
delete m key = remove key m

-- The loop over the keys
unfoldable pub delete_many : Mem → List Bytes → Mem
unfolding remove
delete_many m [] = m
delete_many m (k ∷ ks) = delete_many (remove k m) ks

unfoldable pub keys_under : Bytes → Mem → List Bytes
keys_under prefix [] = []
keys_under prefix ((k, obj) ∷ m) =
    let rest = keys_under prefix m in if has_prefix k prefix then k ∷ rest else rest

-- `sort_strings` is sort.Strings, which forgets the order of the map.
unfoldable pub list : (List Bytes → List Bytes) → Mem → Bytes → List Bytes
unfolding keys_under
list sort_strings m prefix = sort_strings (keys_under prefix m)

module _ (md5_hex : Bytes → Bytes) where
  unfoldable pub put : Mem → Bytes → Bytes → Mem
  unfolding insert
  put m key content = insert key (record { content = content; etag = md5_hex content }) m

  unfoldable pub put_if_absent : Mem → Bytes → Bytes → Option Mem
  unfolding insert lookup
  put_if_absent m key content = elim (lookup key m) [
    | some obj ↦ none
    | none ↦ some (insert key (record { content = content; etag = md5_hex content }) m)
  ]

  unfoldable pub put_if_match : Mem → Bytes → Bytes → Bytes → Option Mem
  unfolding insert lookup
  put_if_match m key content match_etag = elim (lookup key m) [
    | none ↦ none
    | some obj ↦
        if not (bytes_eq obj.etag match_etag)
        then none
        else some (insert key (record { content = content; etag = md5_hex content }) m)
  ]
