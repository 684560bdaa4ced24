-- ===== src/Checkpoint.antt =====
-- internal/checkpoint/checkpoint.go and branch.go: the manifest, the index of a checkpoint and what
-- is kept of them in an object store. The store, encoding/json and SHA-256 are parameters; log
-- messages are left out.
pub mod Gc
pub mod Branch
pub mod Write
pub mod Restore
use t.Prelude.{
  ℕ, zero, suc, ◌≡◌, ◌+◌, ◌-◌, ◌/◌, ◌%◌, Bool, true, false, ◌&&◌, ◌||◌, Option, none, some, List,
  [], ◌∷◌, ◌++◌, Bytes, ascii, bytes_eq, has_prefix, ltb, leb, ◌==◌, length, if◌then◌else◌,
}
use t.Prelude.Word.{sign_bit, u64_mod}
use t.Fmt.{pad_ten, pad_twenty}
use t.Result.{Result, ok, err, ◌>>=◌}

pub data CheckpointError : Type 0 where
  not_found read_failed put_failed list_failed delete_failed : CheckpointError
  decode_failed too_new bad_index_key missing_pin : CheckpointError

-- pkg/object without conditional writes. A write that fails may have changed the store.
pub record ObjectStore : Type 1 where
  pub State : Type 0
  pub get : State → Bytes → Result CheckpointError Bytes
  pub put : State → Bytes → Bytes → State × Bool
  pub delete_many : State → List Bytes → State × Bool
  pub list : State → Bytes → Option (List Bytes)

pub record Manifest : Type 0 where
  pub format_version : ℕ
  pub checkpoint_key : Bytes
  pub revision : ℕ
  pub last_sequence : ℕ
  pub term : ℕ
  pub last_wal_key : Bytes

pub record CheckpointIndex : Type 0 where
  pub format_version : ℕ
  pub term : ℕ
  pub revision : ℕ
  pub last_sequence : ℕ
  pub sst_files : List Bytes
  pub ancestor_sst_files : List Bytes
  pub pebble_meta : List Bytes

pub record BranchEntry : Type 0 where
  pub ancestor_checkpoint_key : Bytes

-- encoding/json on the three; an absent field is zero.
pub record Json : Type 0 where
  pub marshal_manifest : Manifest → Bytes
  pub decode_manifest : Bytes → Option Manifest
  pub marshal_index : CheckpointIndex → Bytes
  pub decode_index : Bytes → Option CheckpointIndex
  pub marshal_branch : BranchEntry → Bytes
  pub decode_branch : Bytes → Option BranchEntry

abbrev pub checkpoint_format_version : ℕ
checkpoint_format_version = 1

abbrev pub manifest_key : Bytes
manifest_key = ascii "manifest/latest"

unfoldable pub checkpoint_key : ℕ → ℕ → Bytes
unfolding pad_ten pad_twenty
checkpoint_key term revision =
    ascii "checkpoint/" ++ (pad_ten term ++ (ascii "/" ++ pad_twenty revision))

unfoldable pub checkpoint_index_key : ℕ → ℕ → Bytes
unfolding checkpoint_key
checkpoint_index_key term revision = checkpoint_key term revision ++ ascii "/manifest.json"

-- A `map[string]struct{}` is the list of its keys.
unfoldable pub contains : Bytes → List Bytes → Bool
contains k [] = false
contains k (j ∷ ks) = bytes_eq j k || contains k ks

unfoldable pub add_key : Bytes → List Bytes → List Bytes
unfolding contains
add_key k ks = if contains k ks then ks else k ∷ ks

unfoldable pub add_all : List Bytes → List Bytes → List Bytes
unfolding add_key
add_all [] ks = ks
add_all (j ∷ js) ks = add_all js (add_key j ks)

-- strings.HasSuffix(k, "/manifest.json"), the suffix read from the end
unfoldable pub has_suffix : Bytes → Bytes → Bool
has_suffix [] suffix = bytes_eq [] suffix
has_suffix (c ∷ s) suffix = bytes_eq (c ∷ s) suffix || has_suffix s suffix

-- What pkg/object promises of a removal of several objects
pub record RemovesMany (o : ObjectStore) : Type 0 where
  pub removed :
      (s : o.State) (ks : List Bytes) (k : Bytes)
      → contains k ks ≡ true
      → (o.delete_many s ks).1 ≡ true
      → o.get (o.delete_many s ks).0 k ≡ err not_found
  pub left :
      (s : o.State) (ks : List Bytes) (k : Bytes)
      → contains k ks ≡ false
      → o.get (o.delete_many s ks).0 k ≡ o.get s k

-- What pkg/object promises of a write, and encoding/json of the manifest and the index
pub record PutsObjects (o : ObjectStore) : Type 0 where
  pub written :
      (s : o.State) (k b : Bytes) → (o.put s k b).1 ≡ true → o.get (o.put s k b).0 k ≡ ok b
  pub others :
      (s : o.State) (k b j : Bytes)
      → (o.put s k b).1 ≡ true
      → bytes_eq k j ≡ false
      → o.get (o.put s k b).0 j ≡ o.get s j

pub record IsDecoded (json : Json) : Type 0 where
  pub manifest : (m : Manifest) → json.decode_manifest (json.marshal_manifest m) ≡ some m
  pub index : (idx : CheckpointIndex) → json.decode_index (json.marshal_index idx) ≡ some idx

module _ (o : ObjectStore) (json : Json) where
  -- `none` where no manifest was written yet
  abbrev pub manifest_of : Manifest → Result CheckpointError (Option Manifest)
  manifest_of m =
      if ltb checkpoint_format_version m.format_version
      then err too_new
      else if m.last_sequence == 0
      then ok (some (record m { last_sequence = m.revision }))
      else ok (some m)

  abbrev pub manifest_in : Result CheckpointError Bytes → Result CheckpointError (Option Manifest)
  manifest_in (err not_found) = ok none
  manifest_in (err e) = err e
  manifest_in (ok b) = elim (json.decode_manifest b) [
    | none ↦ err decode_failed
    | some m ↦ manifest_of m
  ]

  unfoldable pub read_manifest : o.State → Result CheckpointError (Option Manifest)
  read_manifest s = manifest_in (o.get s manifest_key)

  abbrev pub put_object : o.State → Bytes → Bytes → o.State × Option CheckpointError
  put_object s key b =
      let (s', done) = o.put s key b in (s', if done then none else some put_failed)

  unfoldable pub write_manifest : o.State → Manifest → o.State × Option CheckpointError
  write_manifest s m = put_object s manifest_key (json.marshal_manifest m)

  abbrev index_of : CheckpointIndex → Result CheckpointError CheckpointIndex
  index_of idx =
      if ltb checkpoint_format_version idx.format_version
      then err too_new
      else if idx.last_sequence == 0
      then ok (record idx { last_sequence = idx.revision })
      else ok idx

  abbrev index_in : Option CheckpointIndex → Result CheckpointError CheckpointIndex
  index_in none = err decode_failed
  index_in (some idx) = index_of idx

  unfoldable pub read_checkpoint_index : o.State → Bytes → Result CheckpointError CheckpointIndex
  read_checkpoint_index s key = o.get s key >>= λ b. index_in (json.decode_index b)
