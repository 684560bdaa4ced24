-- ===== src/Lease.antt =====
-- etcd/lease_state.go and etcd/lease.go: leases as records in the store of the node. The node is a
-- parameter, with a flag for its linearizable reads; so are encoding/json and `ceil_seconds`, the
-- ceiling of the seconds of a duration, which the code takes in floating point. A time is its
-- nanoseconds since 1970, an int64.
pub mod Granted
pub mod Revoked
use t.Prelude.{
  ℕ, zero, suc, ◌+◌, ◌-◌, ◌*◌, ◌%◌, ◌^◌, ◌≡◌, Bool, true, false, not, ◌&&◌, ◌||◌, Option, none,
  some, List, [], ◌∷◌, ◌++◌, Bytes, ascii, bytes_eq, has_prefix, ◌==◌, if◌then◌else◌,
}
use t.Prelude.Word.{sign_bit, u64_mod, add64, sub64, lt64, le64}
use t.Result.{Result, ok, err, ◌>>=◌}
use t.Fmt.{pad_twenty}
use t.Store.KeyValue.{KeyValue}
use t.Node.{NodeError, key_exists}

-- The gRPC codes, and the errors of the node that are passed on
pub data LeaseError : Type 0 where
  invalid_argument not_found already_exists internal : LeaseError
  node_failed : NodeError → LeaseError

pub record LeaseRecord : Type 0 where
  pub id : ℕ
  pub granted_ttl : ℕ
  pub expiry_unix_ns : ℕ

-- What the leases call of the node; a transaction deletes the keys.
pub record LeaseNode : Type 1 where
  pub State : Type 0
  pub get : Bool → State → Bytes → Result NodeError (Option KeyValue)
  pub list : Bool → State → Bytes → Result NodeError (List KeyValue)
  pub put : State → Bytes → Bytes → State × Result NodeError ℕ
  pub create : State → Bytes → Bytes → State × Result NodeError ℕ
  pub txn_delete : State → List Bytes → State × Result NodeError ℕ
  pub is_leader : State → Bool

pub record LeaseJson : Type 0 where
  pub marshal : LeaseRecord → Bytes
  pub decode : Bytes → Option LeaseRecord

-- "\x00t4/"
abbrev pub internal_prefix : Bytes
internal_prefix = 0 ∷ ascii "t4/"

abbrev pub lease_prefix : Bytes
lease_prefix = internal_prefix ++ ascii "lease/"

abbrev pub is_internal_key : Bytes → Bool
is_internal_key key = has_prefix key internal_prefix

unfoldable pub lease_key : ℕ → Bytes
unfolding pad_twenty
lease_key id = lease_prefix ++ pad_twenty id

unfoldable pub validate_user_key : Bytes → Result LeaseError (Unit {0})
validate_user_key key = if is_internal_key key then err invalid_argument else ok tt

unfoldable pub validate_lease_id : ℕ → Result LeaseError (Unit {0})
validate_lease_id id = if le64 id 0 then err invalid_argument else ok tt

-- time.Now().Add(time.Duration(ttl) * time.Second).UnixNano(), which wraps
unfoldable pub expiry : ℕ → ℕ → ℕ
expiry now ttl = add64 now ((ttl * 1000000000) % u64_mod)

-- The random number of newLeaseID, its sign bit cleared
unfoldable pub lease_id_of : ℕ → ℕ
lease_id_of bits = if bits % sign_bit == 0 then 1 else bits % sign_bit

abbrev pub of_node : {A : Type 0} → Result NodeError A → Result LeaseError A
of_node (ok a) = ok a
of_node (err e) = err (node_failed e)

-- time.Unix(0, expiry).Sub(now), a duration above zero or not
unfoldable pub ttl_remaining : (ℕ → ℕ) → LeaseRecord → ℕ → ℕ
ttl_remaining ceil_seconds rec now =
    let secs = ceil_seconds (sub64 rec.expiry_unix_ns now) in
    if le64 rec.expiry_unix_ns now then 0 else if lt64 secs 1 then 1 else secs

abbrev pub unexpired : ℕ → Option LeaseRecord → Result LeaseError LeaseRecord
unexpired now none = err not_found
unexpired now (some rec) = if le64 rec.expiry_unix_ns now then err not_found else ok rec

abbrev pub answered : Result NodeError ℕ → Option LeaseError
answered (ok rev) = none
answered (err e) = some (node_failed e)

unfoldable pub attached : ℕ → List KeyValue → List Bytes
attached id [] = []
attached id (kv ∷ kvs) =
    let rest = attached id kvs in
    if is_internal_key kv.key then rest else if kv.lease == id then kv.key ∷ rest else rest

abbrev pub created : Result NodeError ℕ → Option LeaseError
created (ok rev) = none
created (err key_exists) = some already_exists
created (err e) = some internal

abbrev pub lease_record : ℕ → ℕ → ℕ → LeaseRecord
lease_record id ttl now = record { id = id; granted_ttl = ttl; expiry_unix_ns = expiry now ttl }

abbrev pub is_already_exists : LeaseError → Bool
is_already_exists already_exists = true
is_already_exists _ = false

unfoldable pub unexpired_ids : (ℕ → ℕ) → ℕ → List LeaseRecord → List ℕ
unfolding ttl_remaining
unexpired_ids ceil_seconds now [] = []
unexpired_ids ceil_seconds now (rec ∷ recs) =
    let rest = unexpired_ids ceil_seconds now recs in
    if lt64 0 (ttl_remaining ceil_seconds rec now) then rec.id ∷ rest else rest

module _ (n : LeaseNode) (json : LeaseJson) where
  -- `none` for a missing record
  abbrev pub decode_lease : Option KeyValue → Result LeaseError (Option LeaseRecord)
  decode_lease none = ok none
  decode_lease (some kv) = elim (json.decode kv.value) [
    | none ↦ err internal
    | some rec ↦ ok (some rec)
  ]

  unfoldable pub get_lease : n.State → ℕ → Bool → ℕ → Result LeaseError LeaseRecord
  unfolding validate_lease_id lease_key
  get_lease s id linearizable now = validate_lease_id id >>= λ _.
      of_node (n.get linearizable s (lease_key id)) >>= λ kv.
      decode_lease kv >>= λ rec. unexpired now rec

  unfoldable pub put_lease : n.State → LeaseRecord → n.State × Option LeaseError
  unfolding lease_key
  put_lease s rec = let (s', r) = n.put s (lease_key rec.id) (json.marshal rec) in (s', answered r)

  unfoldable pub decode_leases : List KeyValue → Result LeaseError (List LeaseRecord)
  decode_leases [] = ok []
  decode_leases (kv ∷ kvs) =
      let rest = decode_leases kvs in
      elim (json.decode kv.value) [
        | none ↦ err internal
        | some rec ↦ rest >>= λ recs. ok (rec ∷ recs)
      ]

  unfoldable pub list_leases : n.State → Bool → Result LeaseError (List LeaseRecord)
  unfolding decode_leases
  list_leases s linearizable = of_node (n.list linearizable s lease_prefix) >>= decode_leases

  unfoldable pub collect_lease_keys : n.State → ℕ → Bool → Result LeaseError (List Bytes)
  unfolding attached
  collect_lease_keys s id linearizable =
      of_node (n.list linearizable s []) >>= λ kvs. ok (attached id kvs)

  unfoldable pub revoke_lease : n.State → ℕ → n.State × Option LeaseError
  unfolding collect_lease_keys lease_key
  revoke_lease s id = elim (collect_lease_keys s id true) [
    | err e ↦ (s, some e)
    | ok keys ↦ let (s', r) = n.txn_delete s (keys ++ lease_key id ∷ []) in (s', answered r)
  ]

  -- The leases that a tick of the loop finds expired are revoked; errors are passed over.
  unfoldable pub revoke_expired : (ℕ → ℕ) → ℕ → n.State → List LeaseRecord → n.State
  unfolding revoke_lease ttl_remaining
  revoke_expired ceil_seconds now s [] = s
  revoke_expired ceil_seconds now s (rec ∷ recs) =
      let revoked = revoke_expired ceil_seconds now (revoke_lease s rec.id).0 recs in
      let kept = revoke_expired ceil_seconds now s recs in
      if ttl_remaining ceil_seconds rec now == 0 then revoked else kept

  -- A tick of leaseLoop
  unfoldable pub lease_tick : (ℕ → ℕ) → ℕ → n.State → n.State
  unfolding list_leases revoke_expired
  lease_tick ceil_seconds now s = if not (n.is_leader s) then s else elim (list_leases s false) [
    | err e ↦ s
    | ok recs ↦ revoke_expired ceil_seconds now s recs
  ]

  unfoldable pub create_lease : n.State → LeaseRecord → n.State × Option LeaseError
  unfolding lease_key
  create_lease s rec =
      let (s', r) = n.create s (lease_key rec.id) (json.marshal rec) in (s', created r)

  -- The attempts with a random id: each draws its bits, `none` for an error, and reads the clock.
  unfoldable pub allocate :
      ℕ → (ℕ → Option ℕ × ℕ) → ℕ → n.State → n.State × Result LeaseError LeaseRecord
  unfolding create_lease lease_id_of expiry
  allocate zero draws ttl s = (s, err internal)
  allocate (suc left) draws ttl s = elim (draws left).0 [
    | none ↦ (s, err internal)
    | some bits ↦
        let rec = lease_record (lease_id_of bits) ttl (draws left).1 in
        let (s', failed) = create_lease s rec in
        let again = allocate left draws ttl s' in
        elim failed [
          | none ↦ (s', ok rec)
          | some e ↦ if is_already_exists e then again else (s', err e)
        ]
  ]

  -- LeaseGrant: the record of the answer
  unfoldable pub lease_grant :
      (ℕ → Option ℕ × ℕ) → ℕ → ℕ → ℕ → n.State → n.State × Result LeaseError LeaseRecord
  unfolding allocate create_lease validate_lease_id expiry
  lease_grant draws id ttl now s =
      let allocated = allocate 16 draws ttl s in
      let rec = lease_record id ttl now in
      let (s', failed) = create_lease s rec in
      if le64 ttl 0
      then (s, err invalid_argument)
      else if id == 0
      then allocated
      else if le64 id 0
      then (s, err invalid_argument)
      else (s', elim failed [ none ↦ ok rec | some e ↦ err e ])

  unfoldable pub lease_revoke : ℕ → ℕ → n.State → n.State × Option LeaseError
  unfolding get_lease revoke_lease
  lease_revoke id now s = elim (get_lease s id true now) [
    | err e ↦ (s, some e)
    | ok rec ↦ revoke_lease s id
  ]

  -- A message of LeaseKeepAlive, read at one time and written at a later one
  unfoldable pub lease_keep_alive : ℕ → ℕ → ℕ → n.State → n.State × Result LeaseError LeaseRecord
  unfolding get_lease put_lease expiry
  lease_keep_alive id now later s = elim (get_lease s id true now) [
    | err e ↦ (s, err e)
    | ok rec ↦
        let rec' = record rec { expiry_unix_ns = expiry later rec.granted_ttl } in
        let (s', failed) = put_lease s rec' in (s', elim failed [ none ↦ ok rec' | some e ↦ err e ])
  ]

  -- The granted and the remaining time, and the keys where they are asked for
  unfoldable pub lease_time_to_live :
      (ℕ → ℕ) → ℕ → Bool → ℕ → ℕ → n.State → Result LeaseError (ℕ × ℕ × List Bytes)
  unfolding get_lease ttl_remaining collect_lease_keys
  lease_time_to_live ceil_seconds id keys now later s = get_lease s id true now >>= λ rec.
      (if keys then collect_lease_keys s id true else ok []) >>= λ found.
      ok (rec.granted_ttl, ttl_remaining ceil_seconds rec later, found)

  unfoldable pub lease_leases : (ℕ → ℕ) → ℕ → n.State → Result LeaseError (List ℕ)
  unfolding list_leases unexpired_ids
  lease_leases ceil_seconds now s =
      list_leases s true >>= λ recs. ok (unexpired_ids ceil_seconds now recs)
