-- ===== src/Object.antt =====
-- pkg/object: the object store with conditional writes that the election uses.
pub mod Mem
use t.Prelude.{◌≡◌, Bool, Option, none, some, Bytes}

-- object.ErrNotFound is `none`, object.ErrPreconditionFailed is the answer `none` of a write. Other
-- errors of a store are left out.
pub record ConditionalStore : Type 1 where
  pub State : Type 0
  -- the data and the ETag
  pub get_etag : State → Bytes → Option (Bytes × Bytes)
  pub put : State → Bytes → Bytes → State
  pub put_if_absent : State → Bytes → Bytes → Option State
  pub put_if_match : State → Bytes → Bytes → Bytes → Option State
  pub delete : State → Bytes → State

-- What pkg/object promises of a conditional write of one key
pub record IsConditional (o : ConditionalStore) : Type 0 where
  pub put_if_absent-get :
      (s s' : o.State) (k d : Bytes)
      → o.put_if_absent s k d ≡ some s'
      → (o.get_etag s k ≡ none) × ((e : Bytes) × (o.get_etag s' k ≡ some (d, e)))
  pub put_if_match-get :
      (s s' : o.State) (k d e : Bytes)
      → o.put_if_match s k d e ≡ some s'
      → ((d' : Bytes) × (o.get_etag s k ≡ some (d', e)))
        × ((e' : Bytes) × (o.get_etag s' k ≡ some (d, e')))
  -- An ETag names the content of the object.
  pub same_etag :
      (s s' : o.State) (k d d' e : Bytes)
      → o.get_etag s k ≡ some (d, e)
      → o.get_etag s' k ≡ some (d', e)
      → d ≡ d'
