-- ===== src/Lease/Granted.antt =====
-- A lease that is granted, read back at a later time.
use mathlib.Core.Path.{subst}
use t.Prelude.{
  ℕ, zero, suc, ◌+◌, ◌*◌, ◌%◌, ◌≤◌, ◌<◌, ◌≡◌, refl, sym, true, false, Option, none, some, Bytes,
  ◌==◌, if◌then◌else◌, arith, Bool-cases, Option-cases, inl, inr,
}
use t.Prelude.Word.{sign_bit, u64_mod, le64}
use t.Result.{Result, ok, err, ◌>>=◌, ok_unique}
use t.Store.KeyValue.{KeyValue}
use t.Node.{NodeError, key_exists}
use t.Lease.{
  LeaseNode, LeaseJson, LeaseRecord, not_found, lease_key, lease_id_of, validate_lease_id,
  get_lease, lease_record, create_lease, created, allocate, lease_grant, expiry, decode_lease,
  of_node, is_already_exists,
}

-- What the node promises: a key that was created is read back. So it is on a single node and on the
-- leader; the wait of a follower for the leader, which may fail, is left out.
pub record KeepsCreated (n : LeaseNode) : Type 0 where
  pub created :
      (s : n.State) (k v : Bytes) (rev : ℕ)
      → (n.create s k v).1 ≡ ok rev
      → (kv : KeyValue) × (n.get true (n.create s k v).0 k ≡ ok (some kv)) × (kv.value ≡ v)

abbrev pub IsDecoded : LeaseJson → Type 0
IsDecoded json = (rec : LeaseRecord) → json.decode (json.marshal rec) ≡ some rec

lease_id_of_pos : (bits : ℕ) → (0 < lease_id_of bits) × (lease_id_of bits < sign_bit)
unfolding lease_id_of
lease_id_of_pos bits = ground arith

-- A lifetime that fits, and one that reaches past the greatest int64
expiry_fits :
    (now ttl : ℕ) → now + ttl * 1000000000 < sign_bit → expiry now ttl ≡ now + ttl * 1000000000
unfolding expiry
expiry_fits now ttl h = omega arith

expiry_wraps :
    (now ttl t : ℕ)
    → sign_bit ≤ now + ttl * 1000000000
    → now + ttl * 1000000000 < u64_mod
    → t < sign_bit
    → le64 (expiry now ttl) t ≡ true
unfolding expiry
expiry_wraps now ttl t h k fits =
    let same : (now + (ttl * 1000000000) % u64_mod) % u64_mod ≡ now + ttl * 1000000000 =
      omega arith in
    rw same (ground (arith, h, k, fits))

created-none : (r : Result NodeError ℕ) → created r ≡ none → (rev : ℕ) × (r ≡ ok rev)
created-none (ok rev) h = (rev, refl)
created-none (err key_exists) h = absurd (cc h)
created-none (err NodeError.closed) h = absurd (cc h)
created-none (err NodeError.read_failed) h = absurd (cc h)
created-none (err NodeError.too_many_ops) h = absurd (cc h)
created-none (err (NodeError.duplicate_key k)) h = absurd (cc h)

module _ (n : LeaseNode) (json : LeaseJson) (keeps : KeepsCreated n)
    (decoded : IsDecoded json) where
  -- The lease is found until it expires.
  abbrev pub Found : n.State → ℕ → LeaseRecord → Type 0
  Found s t rec =
      get_lease n json s rec.id true t
      ≡ (if le64 rec.expiry_unix_ns t then err not_found else ok rec)

  -- A lease that was written is found until it expires.
  create_lease-get_lease :
      (s : n.State) (rec : LeaseRecord) (t : ℕ)
      → 0 < rec.id
      → rec.id < sign_bit
      → (create_lease n json s rec).1 ≡ none
      → Found (create_lease n json s rec).0 t rec
  unfolding create_lease get_lease validate_lease_id
  create_lease-get_lease s rec t positive fits none_failed =
      let (rev, done) =
        created-none (n.create s (lease_key rec.id) (json.marshal rec)).1 none_failed in
      let (kv, at, value) = keeps.created s (lease_key rec.id) (json.marshal rec) rev done in
      let valid : le64 rec.id 0 ≡ false = ground (arith, positive, fits) in
      let read : json.decode kv.value ≡ some rec = rw value (decoded rec) in
      rw (get_lease, valid, at, of_node, ◌>>=◌, decode_lease, read) refl

  allocate-get_lease :
      (draws : ℕ → Option ℕ × ℕ) (left ttl : ℕ) (s : n.State) (rec : LeaseRecord) (t : ℕ)
      → (allocate n json left draws ttl s).1 ≡ ok rec
      → Found (allocate n json left draws ttl s).0 t rec
  unfolding allocate
  allocate-get_lease draws zero ttl s rec t h = absurd (cc h)
  allocate-get_lease draws (suc left) ttl s rec t h = elim (Option-cases (draws left).0) [
    | inl failed ↦ absurd (cc (rw (allocate, failed) at h))
    | inr (bits, drawn) ↦
        let (positive, fits) = lease_id_of_pos bits in
        let rec' = lease_record (lease_id_of bits) ttl (draws left).1 in
        elim (Option-cases (create_lease n json s rec').1) [
          | inl done ↦
              let same = ok_unique rec' rec _ refl (rw (allocate, drawn, done) at h) in
              rw (allocate, drawn, done)
                (subst (Found (create_lease n json s rec').0 t) same
                  (create_lease-get_lease s rec' t positive fits done))
          | inr (e, failed) ↦ elim (Bool-cases (is_already_exists e)) [
            | inl taken ↦
                rw (allocate, drawn, failed, taken)
                  (allocate-get_lease draws left ttl (create_lease n json s rec').0 rec t
                    (rw (allocate, drawn, failed, taken) at h))
            | inr other ↦ absurd (cc (rw (allocate, drawn, failed, other) at h))
          ]
        ]
  ]

  -- If LeaseGrant answers with a lease, then a linearizable read of it at any time finds that lease,
  -- or finds none where it has expired by then; a node reads back what it has created, and the
  -- encoding of a record is decoded.
  pub lease_grant-get_lease :
      (draws : ℕ → Option ℕ × ℕ) (id ttl now : ℕ) (s : n.State) (rec : LeaseRecord) (t : ℕ)
      → id < u64_mod
      → (lease_grant n json draws id ttl now s).1 ≡ ok rec
      → get_lease n json (lease_grant n json draws id ttl now s).0 rec.id true t
        ≡ (if le64 rec.expiry_unix_ns t then err not_found else ok rec)
  unfolding lease_grant
  lease_grant-get_lease draws id ttl now s rec t fits h = elim (Bool-cases (le64 ttl 0)) [
    | inl short ↦ absurd (cc (rw (lease_grant, short) at h))
    | inr lasts ↦ elim (Bool-cases (id == 0)) [
      | inl any ↦
          rw (lease_grant, lasts, any)
            (allocate-get_lease draws 16 ttl s rec t (rw (lease_grant, lasts, any) at h))
      | inr given ↦ elim (Bool-cases (le64 id 0)) [
        | inl negative ↦ absurd (cc (rw (lease_grant, lasts, given, negative) at h))
        | inr positive ↦
            let rec' = lease_record id ttl now in
            elim (Option-cases (create_lease n json s rec').1) [
              | inr (e, failed) ↦
                  absurd (cc (rw (lease_grant, lasts, given, positive, failed) at h))
              | inl done ↦
                  let same =
                    ok_unique rec' rec _ refl
                      (rw (lease_grant, lasts, given, positive, done) at h) in
                  rw (lease_grant, lasts, given, positive)
                    (subst (Found (create_lease n json s rec').0 t) same (
                      create_lease-get_lease s rec' t (ground (arith, positive, given, fits))
                        (ground (arith, positive, given, fits)) done))
            ]
      ]
    ]
  ]

  lease_grant-record :
      (draws : ℕ → Option ℕ × ℕ) (id ttl now : ℕ) (s : n.State) (rec : LeaseRecord)
      → 0 < id
      → id < sign_bit
      → (lease_grant n json draws id ttl now s).1 ≡ ok rec
      → lease_record id ttl now ≡ rec
  unfolding lease_grant
  lease_grant-record draws id ttl now s rec positive fits h =
      let given : (id == 0) ≡ false = ground (arith, positive) in
      let valid : le64 id 0 ≡ false = ground (arith, positive, fits) in
      elim (Bool-cases (le64 ttl 0)) [
        | inl short ↦ absurd (cc (rw (lease_grant, short) at h))
        | inr lasts ↦ elim (Option-cases (create_lease n json s (lease_record id ttl now)).1) [
          | inr (e, failed) ↦ absurd (cc (rw (lease_grant, lasts, given, valid, failed) at h))
          | inl done ↦
              ok_unique (lease_record id ttl now) rec _ refl
                (rw (lease_grant, lasts, given, valid, done) at h)
        ]
      ]

  -- A time to live that takes the expiry past the greatest int64, and not past the greatest uint64:
  -- a lease that LeaseGrant grants under an id that the client gives is not found at any time that
  -- is an int64 and not negative; a node reads back what it has created, and the encoding of a
  -- record is decoded.
  pub lease_grant-wraps :
      (draws : ℕ → Option ℕ × ℕ) (id ttl now : ℕ) (s : n.State) (rec : LeaseRecord) (t : ℕ)
      → 0 < id
      → id < sign_bit
      → sign_bit ≤ now + ttl * 1000000000
      → now + ttl * 1000000000 < u64_mod
      → t < sign_bit
      → (lease_grant n json draws id ttl now s).1 ≡ ok rec
      → get_lease n json (lease_grant n json draws id ttl now s).0 id true t ≡ err not_found
  unfolding lease_grant
  lease_grant-wraps draws id ttl now s rec t positive fits past wraps later h =
      let s' = (lease_grant n json draws id ttl now s).0 in
      let found = lease_grant-get_lease draws id ttl now s rec t (omega (arith, fits)) h in
      let same = lease_grant-record draws id ttl now s rec positive fits h in
      rw (expiry_wraps now ttl t past wraps later) at (subst (Found s' t) (sym same) found)
