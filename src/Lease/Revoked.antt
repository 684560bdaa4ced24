-- ===== src/Lease/Revoked.antt =====
-- A lease that is revoked, with the keys that are attached to it.
use mathlib.Core.List.{Memᴰ}
use mathlib.Core.List.Memᴰ
use mathlib.Core.Path.{subst}
use t.Prelude.{
  ℕ, ◌≡◌, ◌⊎◌, refl, sym, ap, ◌∙◌, Bool, true, false, none, some, List, [], ◌∷◌, ◌++◌, Bytes,
  has_prefix, ◌==◌, ==_iff, if◌then◌else◌, Bool-cases, inl, inr,
}
use t.Result.{Result, ok, err, Result-cases}
use t.Store.KeyValue.{KeyValue}
use t.Node.{NodeError}
use t.Lease.{
  LeaseNode, LeaseJson, lease_key, is_internal_key, attached, collect_lease_keys, revoke_lease,
  answered,
}

-- What the node promises of a linearizable listing of all keys and of a transaction of deletes, as a
-- single node or the leader keeps it; the wait of a follower for the leader is left out.
pub record DeletesMany (n : LeaseNode) : Type 0 where
  pub listed :
      (s : n.State) (kvs : List KeyValue) (k : Bytes) (kv : KeyValue)
      → n.list true s [] ≡ ok kvs
      → n.get true s k ≡ ok (some kv)
      → Memᴰ kv kvs × (kv.key ≡ k)
  pub stored :
      (s : n.State) (kvs : List KeyValue) (kv : KeyValue)
      → n.list true s [] ≡ ok kvs
      → Memᴰ kv kvs
      → n.get true s kv.key ≡ ok (some kv)
  pub deleted :
      (s : n.State) (ks : List Bytes) (rev : ℕ) (k : Bytes)
      → (n.txn_delete s ks).1 ≡ ok rev
      → Memᴰ k ks
      → n.get true (n.txn_delete s ks).0 k ≡ ok none
  pub left :
      (s : n.State) (ks : List Bytes) (k : Bytes)
      → ¬ Memᴰ k ks
      → n.get true (n.txn_delete s ks).0 k ≡ n.get true s k

attached-mem :
    (id : ℕ) (kvs : List KeyValue) (kv : KeyValue)
    → Memᴰ kv kvs
    → is_internal_key kv.key ≡ false
    → kv.lease ≡ id
    → Memᴰ kv.key (attached id kvs)
unfolding attached
attached-mem id [] kv i user lease = absurd (Memᴰ.not-nil i)
attached-mem id (x ∷ kvs) kv (Memᴰ.head e) user lease =
    let key : kv.key ≡ x.key = ap (λ (y : KeyValue). y.key) e in
    let public : is_internal_key x.key ≡ false = subst (λ k. is_internal_key k ≡ false) key user in
    let has : (x.lease == id) ≡ true =
      (==_iff x.lease id).1 (ap (λ (y : KeyValue). y.lease) (sym e) ∙ lease) in
    rw (public, has) (Memᴰ.head key)
attached-mem id (x ∷ kvs) kv (Memᴰ.tail i) user lease =
    let rest = attached-mem id kvs kv i user lease in
    elim (Bool-cases (is_internal_key x.key)) [
      | inl hidden ↦ rw hidden rest
      | inr public ↦ elim (Bool-cases (x.lease == id)) [
        | inl has ↦ rw (public, has) (Memᴰ.tail rest)
        | inr other ↦ rw (public, other) rest
      ]
    ]

-- A key that is attached belongs to a listed value with the lease, and is a user's.
abbrev IsAttached : ℕ → List KeyValue → Bytes → Type 0
IsAttached id kvs k =
    (kv : KeyValue) × Memᴰ kv kvs × (kv.key ≡ k) × (kv.lease ≡ id) × (is_internal_key k ≡ false)

later :
    (id : ℕ) (x : KeyValue) (kvs : List KeyValue) (k : Bytes)
    → IsAttached id kvs k
    → IsAttached id (x ∷ kvs) k
later id x kvs k (kv, i, key, lease, user) = (kv, Memᴰ.tail i, key, lease, user)

attached-cases :
    (hidden has : Bool) (x k : Bytes) (rest : List Bytes)
    → Memᴰ k (if hidden then rest else if has then x ∷ rest else rest)
    → Memᴰ k rest ⊎ ((k ≡ x) × (hidden ≡ false) × (has ≡ true))
attached-cases true has x k rest i = inl i
attached-cases false true x k rest (Memᴰ.head e) = inr (e, refl, refl)
attached-cases false true x k rest (Memᴰ.tail i) = inl i
attached-cases false false x k rest i = inl i

mem-attached :
    (id : ℕ) (kvs : List KeyValue) (k : Bytes) → Memᴰ k (attached id kvs) → IsAttached id kvs k
unfolding attached
mem-attached id [] k i = absurd (Memᴰ.not-nil i)
mem-attached id (x ∷ kvs) k i =
    elim (attached-cases (is_internal_key x.key) (x.lease == id) x.key k (attached id kvs) i) [
      | inl j ↦ later id x kvs k (mem-attached id kvs k j)
      | inr (same, public, has) ↦ (
        x,
        Memᴰ.head refl,
        sym same,
        (==_iff x.lease id).0 has,
        subst (λ j. is_internal_key j ≡ false) (sym same) public,
      )
    ]

-- The key of a lease is internal.
lease_key-internal : (id : ℕ) → is_internal_key (lease_key id) ≡ true
unfolding lease_key has_prefix
lease_key-internal id = refl

module _ (n : LeaseNode) (json : LeaseJson) (deletes : DeletesMany n) where
  -- What is deleted, where the listing and the transaction came through
  record Deleted (s : n.State) (id : ℕ) : Type 0 where
    kvs : List KeyValue
    rev : ℕ
    listed : n.list true s [] ≡ ok kvs
    done : (n.txn_delete s (attached id kvs ++ lease_key id ∷ [])).1 ≡ ok rev
    state : (revoke_lease n json s id).0 ≡ (n.txn_delete s (attached id kvs ++ lease_key id ∷ [])).0

  answered-none : (r : Result NodeError ℕ) → answered r ≡ none → (rev : ℕ) × (r ≡ ok rev)
  answered-none (ok rev) h = (rev, refl)
  answered-none (err e) h = absurd (cc h)

  revoke_lease-Deleted : (s : n.State) (id : ℕ) → (revoke_lease n json s id).1 ≡ none → Deleted s id
  unfolding revoke_lease collect_lease_keys
  revoke_lease-Deleted s id h = elim (Result-cases (n.list true s [])) [
    | inr (e, failed) ↦ absurd (cc (rw (revoke_lease, collect_lease_keys, failed) at h))
    | inl (kvs, listed) ↦
        let (rev, done) =
          answered-none (n.txn_delete s (attached id kvs ++ lease_key id ∷ [])).1
            (rw (revoke_lease, collect_lease_keys, listed) at h) in
        record {
          kvs = kvs;
          rev = rev;
          listed = listed;
          done = done;
          state = rw (revoke_lease, collect_lease_keys, listed) refl;
        }
  ]

  not-Deleted :
      (s : n.State) (id : ℕ) (k : Bytes) (kv : KeyValue) (d : Deleted s id)
      → is_internal_key k ≡ false
      → n.get true s k ≡ ok (some kv)
      → (kv.lease == id) ≡ false
      → ¬ Memᴰ k (attached id d.kvs ++ lease_key id ∷ [])
  not-Deleted s id k kv d user at other i = elim (Memᴰ.append_cases (attached id d.kvs) i) [
    | inr (Memᴰ.head e) ↦ cc (subst (λ j. is_internal_key j ≡ false) e user, lease_key-internal id)
    | inr (Memᴰ.tail j) ↦ Memᴰ.not-nil j
    | inl j ↦
        let (kv', listed, key, lease, public) = mem-attached id d.kvs k j in
        let stored = deletes.stored s d.kvs kv' d.listed listed in
        let same : kv' ≡ kv = cc (subst (λ j. n.get true s j ≡ ok (some kv')) key stored, at) in
        cc (other, (==_iff kv.lease id).1 (ap (λ (y : KeyValue). y.lease) (sym same) ∙ lease))
  ]

  -- If a revocation gives no error: a linearizable read finds no record of the lease any more; a
  -- user's key that had a value with the lease has none, and one with another lease or none has the
  -- value that it had; listings and transactions of the node do what `DeletesMany` says.
  pub revoke_lease-get :
      (s : n.State) (id : ℕ) (k : Bytes) (kv : KeyValue)
      → is_internal_key k ≡ false
      → n.get true s k ≡ ok (some kv)
      → (revoke_lease n json s id).1 ≡ none
      → (n.get true (revoke_lease n json s id).0 (lease_key id) ≡ ok none)
        × (n.get true (revoke_lease n json s id).0 k
            ≡ (if kv.lease == id then ok none else ok (some kv)))
  revoke_lease-get s id k kv user at h =
      let d = revoke_lease-Deleted s id h in
      let keys = attached id d.kvs ++ lease_key id ∷ [] in
      (
        ap (λ (t : n.State). n.get true t (lease_key id)) d.state
            ∙ deletes.deleted s keys d.rev (lease_key id) d.done
                (Memᴰ.append_right (attached id d.kvs) (Memᴰ.head refl)),
        ap (λ (t : n.State). n.get true t k) d.state ∙ elim (Bool-cases (kv.lease == id)) [
          | inl has ↦
              let (listed, key) = deletes.listed s d.kvs k kv d.listed at in
              let i =
                attached-mem id d.kvs kv listed
                  (subst (λ j. is_internal_key j ≡ false) (sym key) user)
                  ((==_iff kv.lease id).0 has) in
              rw has (
                deletes.deleted s keys d.rev k d.done (
                  Memᴰ.append_left (lease_key id ∷ [])
                    (subst (λ j. Memᴰ j (attached id d.kvs)) key i)))
          | inr other ↦
              rw other (deletes.left s keys k (not-Deleted s id k kv d user at other) ∙ at)
        ],
      )
