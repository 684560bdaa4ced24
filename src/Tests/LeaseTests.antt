-- ===== src/Tests/LeaseTests.antt =====
-- Runs of the leases over a map from keys to values; the text of a record is three numbers.
use mathlib.Core.List.{Memᴰ}
use mathlib.Core.List.Memᴰ
use mathlib.Core.Path.{subst}
use t.Prelude.{
  ℕ, ◌+◌, ◌/◌, ◌≡◌, ◌⊎◌, refl, sym, ap, ◌∙◌, true, false, Option, none, some, List, [], ◌∷◌, Bytes,
  ascii, bytes_eq, bytes_eq_iff, bytes_eq_refl, has_prefix, if◌then◌else◌, arith, Bool-cases, inl,
  inr,
}
use t.Prelude.Word.{le64}
use t.Prelude.Dict.{Dict, lookup, insert, remove, lookup-insert, lookup-remove}
use t.Result.{Result, ok, err, ok_unique}
use t.Store.KeyValue.{KeyValue}
use t.Node.{NodeError, key_exists}
use t.Fmt.{digits, pad_twenty}
use t.Lease.{
  LeaseNode, LeaseJson, LeaseRecord, not_found, lease_key, lease_grant, get_lease, create_lease,
  validate_lease_id, lease_id_of, allocate, expiry, lease_record, revoke_lease, collect_lease_keys,
  attached, is_internal_key, lease_tick, list_leases, decode_leases, revoke_expired, ttl_remaining,
  lease_time_to_live,
}
use t.Lease.Granted.{KeepsCreated, IsDecoded, lease_grant-get_lease, lease_grant-wraps}
use t.Lease.Revoked.{DeletesMany, revoke_lease-get}

abbrev value_at : Bytes → Bytes → ℕ → KeyValue
value_at key value lease = record {
  key = key;
  value = value;
  revision = 1;
  create_revision = 1;
  prev_revision = 0;
  version = 1;
  lease = lease;
}

-- A value with a lease under a key
abbrev Mem : Type 0
Mem = Dict (Bytes × ℕ)

abbrev kv_of : Bytes → Option (Bytes × ℕ) → Option KeyValue
kv_of k none = none
kv_of k (some (v, lease)) = some (value_at k v lease)

-- The value of each key that the map has, as often as the key stands there
abbrev with_kv : Option KeyValue → List KeyValue → List KeyValue
with_kv none kvs = kvs
with_kv (some kv) kvs = kv ∷ kvs

abbrev values : Mem → Mem → List KeyValue
values m [] = []
values m ((k, v) ∷ rest) = with_kv (kv_of k (lookup k m)) (values m rest)

abbrev remove_all : List Bytes → Mem → Mem
remove_all [] m = m
remove_all (k ∷ ks) m = remove_all ks (remove k m)

abbrev create_in : Mem → Bytes → Bytes → Option (Bytes × ℕ) → Mem × Result NodeError ℕ
create_in m k v none = (insert k (v, 0) m, ok 1)
create_in m k v (some w) = (m, err key_exists)

abbrev mem_node : LeaseNode
mem_node = record {
  State = Mem;
  get = λ linearizable m k. ok (kv_of k (lookup k m));
  list = λ linearizable m prefix. ok (values m m);
  put = λ m k v. (insert k (v, 0) m, ok 1);
  create = λ m k v. create_in m k v (lookup k m);
  txn_delete = λ m ks. (remove_all ks m, ok 1);
  is_leader = λ m. true;
}

abbrev decode_three : Bytes → Option LeaseRecord
decode_three (id ∷ ttl ∷ at ∷ []) =
    some (record { id = id; granted_ttl = ttl; expiry_unix_ns = at })
decode_three _ = none

abbrev json : LeaseJson
json = record {
  marshal = λ rec. rec.id ∷ rec.granted_ttl ∷ rec.expiry_unix_ns ∷ [];
  decode = λ b. decode_three b;
}

json_decodes : IsDecoded json
json_decodes rec = refl

value-mem :
    (m : Mem) (k : Bytes) (o : Option (Bytes × ℕ)) (kv : KeyValue) (kvs : List KeyValue)
    → lookup k m ≡ o
    → Memᴰ kv (with_kv (kv_of k o) kvs)
    → Memᴰ kv kvs ⊎ (kv_of kv.key (lookup kv.key m) ≡ some kv)
value-mem m k none kv kvs at i = inl i
value-mem m k (some v) kv kvs at (Memᴰ.tail i) = inl i
value-mem m k (some v) kv kvs at (Memᴰ.head e) =
    inr (subst (λ (x : KeyValue). kv_of x.key (lookup x.key m) ≡ some x) (sym e) (ap (kv_of k) at))

values-stored :
    (m rest : Mem) (kv : KeyValue)
    → Memᴰ kv (values m rest)
    → kv_of kv.key (lookup kv.key m) ≡ some kv
values-stored m [] kv i = absurd (Memᴰ.not-nil i)
values-stored m ((k, v) ∷ rest) kv i = elim (value-mem m k (lookup k m) kv (values m rest) refl i) [
  | inl j ↦ values-stored m rest kv j
  | inr stored ↦ stored
]

with_kv-tail :
    (o : Option KeyValue) (kv : KeyValue) (kvs : List KeyValue)
    → Memᴰ kv kvs
    → Memᴰ kv (with_kv o kvs)
with_kv-tail none kv kvs i = i
with_kv-tail (some x) kv kvs i = Memᴰ.tail i

values-listed :
    (m rest : Mem) (k : Bytes) (kv : KeyValue) (w : Bytes × ℕ)
    → lookup k rest ≡ some w
    → kv_of k (lookup k m) ≡ some kv
    → Memᴰ kv (values m rest)
unfolding lookup
values-listed m [] k kv w at stored = absurd (cc at)
values-listed m ((j, v) ∷ rest) k kv w at stored = elim (Bool-cases (bytes_eq j k)) [
  | inl same ↦
      let here =
        subst (λ x. kv_of x (lookup x m) ≡ some kv) (sym ((bytes_eq_iff j k).0 same)) stored in
      subst (λ o. Memᴰ kv (with_kv o (values m rest))) (sym here) (Memᴰ.head refl)
  | inr differ ↦
      with_kv-tail (kv_of j (lookup j m)) kv (values m rest)
        (values-listed m rest k kv w (rw differ at at) stored)
]

kv_of-some :
    (k : Bytes) (o : Option (Bytes × ℕ)) (kv : KeyValue)
    → kv_of k o ≡ some kv
    → (kv.key ≡ k) × ((w : Bytes × ℕ) × (o ≡ some w))
kv_of-some k none kv h = absurd (cc h)
kv_of-some k (some w) kv h = (cc h, (w, refl))

remove_all-none :
    (k : Bytes) (ks : List Bytes) (m : Mem) → lookup k m ≡ none → lookup k (remove_all ks m) ≡ none
remove_all-none k [] m h = h
remove_all-none k (j ∷ ks) m h =
    remove_all-none k ks (remove j m) (rw (lookup-remove j k m, h) (ground arith))

remove_all-deleted :
    (k : Bytes) (ks : List Bytes) (m : Mem) → Memᴰ k ks → lookup k (remove_all ks m) ≡ none
remove_all-deleted k [] m i = absurd (Memᴰ.not-nil i)
remove_all-deleted k (j ∷ ks) m (Memᴰ.head e) =
    remove_all-none k ks (remove j m) (rw (lookup-remove j k m, (bytes_eq_iff j k).1 (sym e)) refl)
remove_all-deleted k (j ∷ ks) m (Memᴰ.tail i) = remove_all-deleted k ks (remove j m) i

remove_all-left :
    (k : Bytes) (ks : List Bytes) (m : Mem) → ¬ Memᴰ k ks → lookup k (remove_all ks m) ≡ lookup k m
remove_all-left k [] m absent = refl
remove_all-left k (j ∷ ks) m absent = elim (Bool-cases (bytes_eq j k)) [
  | inl same ↦ absurd (absent (Memᴰ.head (sym ((bytes_eq_iff j k).0 same))))
  | inr differ ↦
      remove_all-left k ks (remove j m) (λ i. absent (Memᴰ.tail i))
      ∙ rw (lookup-remove j k m, differ) refl
]

mem_node-DeletesMany : DeletesMany mem_node
mem_node-DeletesMany = record {
  listed = λ m kvs k kv lists at.
      let stored = ok_unique _ _ _ at refl in
      let (key, (w, there)) = kv_of-some k (lookup k m) kv (sym stored) in
      let all = ok_unique _ _ _ refl lists in
      (subst (Memᴰ kv) all (values-listed m m k kv w there (sym stored)), key);
  stored = λ m kvs kv lists i.
      let all = ok_unique _ _ _ refl lists in
      ap ok (values-stored m m kv (subst (Memᴰ kv) (sym all) i));
  deleted = λ m ks rev k done i. ap (λ o. ok (kv_of k o)) (remove_all-deleted k ks m i);
  left = λ m ks k absent. ap (λ o. ok (kv_of k o)) (remove_all-left k ks m absent);
}

create_in-created :
    (m : Mem) (k v : Bytes) (rev : ℕ) (o : Option (Bytes × ℕ))
    → (create_in m k v o).1 ≡ ok rev
    → (kv : KeyValue) × (mem_node.get true (create_in m k v o).0 k ≡ ok (some kv)) × (kv.value ≡ v)
create_in-created m k v rev (some w) h = absurd (cc h)
create_in-created m k v rev none h =
    (value_at k v 0, rw (lookup-insert k k (v, 0) m, bytes_eq_refl k) refl, refl)

mem_node-KeepsCreated : KeepsCreated mem_node
mem_node-KeepsCreated = record {
  created = λ m k v rev h. create_in-created m k v rev (lookup k m) h;
}

-- A clock in 2025, a random number, and a lease of ten seconds
abbrev now : ℕ
now = 1750000000000000000

abbrev draws : ℕ → Option ℕ × ℕ
draws left = (some 12, now)

abbrev ten : LeaseRecord
ten = record { id = 7; granted_ttl = 10; expiry_unix_ns = 1750000010000000000 }

granted : (lease_grant mem_node json draws 7 10 now []).1 ≡ ok ten
unfolding lease_grant create_lease lease_key pad_twenty digits lookup insert expiry
granted = refl

drawn :
    (lease_grant mem_node json draws 0 10 now []).1
    ≡ ok (record { id = 12; granted_ttl = 10; expiry_unix_ns = 1750000010000000000 })
unfolding lease_grant allocate create_lease lease_key pad_twenty digits lookup insert expiry
    lease_id_of
drawn = refl

lease_grant-get_lease_example :
    get_lease mem_node json (lease_grant mem_node json draws 7 10 now []).0 7 true (now + 5)
    ≡ (if le64 1750000010000000000 (now + 5) then err not_found else ok ten)
lease_grant-get_lease_example =
    lease_grant-get_lease mem_node json mem_node-KeepsCreated json_decodes draws 7 10 now [] ten
      (now + 5) (omega arith) granted

-- The greatest time to live that etcd takes
abbrev nine_billion : LeaseRecord
nine_billion = lease_record 7 9000000000 now

granted_long : (lease_grant mem_node json draws 7 9000000000 now []).1 ≡ ok nine_billion
unfolding lease_grant create_lease lease_key pad_twenty digits lookup insert expiry
granted_long = refl

lease_grant-wraps_example :
    get_lease mem_node json (lease_grant mem_node json draws 7 9000000000 now []).0 7 true now
    ≡ err not_found
lease_grant-wraps_example =
    lease_grant-wraps mem_node json mem_node-KeepsCreated json_decodes draws 7 9000000000 now []
      nine_billion now (omega arith) (omega arith) (omega arith) (omega arith) (omega arith)
      granted_long

-- Two keys, one of them attached to the lease 7
abbrev attached_map : Mem
attached_map =
    (lease_key 7, (7 ∷ 10 ∷ 1750000010000000000 ∷ [], 0))
    ∷ (ascii "a", (ascii "x", 7))
    ∷ (ascii "b", (ascii "y", 0))
    ∷ []

a_user : is_internal_key (ascii "a") ≡ false
unfolding has_prefix
a_user = refl

a_there :
    mem_node.get true attached_map (ascii "a") ≡ ok (some (value_at (ascii "a") (ascii "x") 7))
unfolding lookup lease_key pad_twenty digits bytes_eq
a_there = refl

a_revoked : (revoke_lease mem_node json attached_map 7).1 ≡ none
unfolding revoke_lease collect_lease_keys
a_revoked = refl

revoke_lease-get_example :
    (mem_node.get true (revoke_lease mem_node json attached_map 7).0 (lease_key 7) ≡ ok none)
    × (mem_node.get true (revoke_lease mem_node json attached_map 7).0 (ascii "a") ≡ ok none)
revoke_lease-get_example =
    revoke_lease-get mem_node json mem_node-DeletesMany attached_map 7 (ascii "a")
      (value_at (ascii "a") (ascii "x") 7) a_user a_there a_revoked

-- A tick of the loop at the expiry
ticked :
    lease_tick mem_node json
      (λ d. d / 1000000000)
      1750000010000000000
      ((lease_key 7, (7 ∷ 10 ∷ 1750000010000000000 ∷ [], 0)) ∷ [])
    ≡ []
unfolding lease_tick list_leases decode_leases revoke_expired revoke_lease collect_lease_keys
    attached ttl_remaining lease_key pad_twenty digits lookup remove bytes_eq has_prefix
ticked = refl

-- Five seconds and a part of one are left.
remaining :
    lease_time_to_live mem_node json
      (λ d. (d + 999999999) / 1000000000)
      7
      true
      now
      (now + 4200000000)
      attached_map
    ≡ ok (10, 6, ascii "a" ∷ [])
unfolding lease_time_to_live get_lease validate_lease_id collect_lease_keys attached ttl_remaining
    lease_key pad_twenty digits lookup bytes_eq has_prefix
remaining = refl
