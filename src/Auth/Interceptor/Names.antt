-- ===== src/Auth/Interceptor/Names.antt =====
-- The keys that a request names, as relations, and that the functions of
-- etcd/auth/interceptor.go find them.
use mathlib.Core.List.{Memᴰ}
use mathlib.Core.List.Memᴰ
use mathlib.Core.Path.{subst}
use t.Prelude.{
  ◌≡◌, refl, sym, ◌↔◌, true, Option, none, some, List, [], ◌∷◌, ◌++◌, Bytes, All, bytes_eq,
  bytes_eq→eq, bytes_eq_iff, if◌then◌else◌, arith, Bool-cases, inl, inr,
}
use t.Auth.{contains}
use t.Auth.Interceptor.{
  KeyRange, RequestOp, Ops, Request, range_op, delete_range_op, put_op, txn_op, no_op, no_ops,
  op_then, range_request, put_request, delete_range_request, txn_request, watch_request,
  other_request, range_method, put_method, delete_range_method, txn_method, watch_method, op_keys,
  add_key, add_keys, add_ops, txn_keys, extract_keys,
}

-- An operation names the key that it reads, writes or deletes from. What a nested transaction
-- names is left out.
pub data OpNames (k : Bytes) : RequestOp → Type 0 where
  ranged : (r : KeyRange) → r.key ≡ k → OpNames k (range_op (some r))
  put_at : (key : Bytes) → key ≡ k → OpNames k (put_op (some key))
  deleted : (r : KeyRange) → r.key ≡ k → OpNames k (delete_range_op (some r))

pub data OpsName (k : Bytes) : Ops → Type 0 where
  first : {op : RequestOp} {ops : Ops} → OpNames k op → OpsName k (op_then op ops)
  later : {op : RequestOp} {ops : Ops} → OpsName k ops → OpsName k (op_then op ops)

-- A request of the type that belongs to its method names its key, the start of its range, or the
-- keys of its comparisons and operations.
pub data Names (m k : Bytes) : Option Request → Type 0 where
  of_range : (r : KeyRange) → m ≡ range_method → r.key ≡ k → Names m k (some (range_request r))
  of_put : (key : Bytes) → m ≡ put_method → key ≡ k → Names m k (some (put_request key))
  of_delete :
      (r : KeyRange)
      → m ≡ delete_range_method
      → r.key ≡ k
      → Names m k (some (delete_range_request r))
  of_compare :
      {compare : List Bytes} {success failure : Ops}
      → m ≡ txn_method
      → Memᴰ k compare
      → Names m k (some (txn_request compare success failure))
  of_success :
      {compare : List Bytes} {success failure : Ops}
      → m ≡ txn_method
      → OpsName k success
      → Names m k (some (txn_request compare success failure))
  of_failure :
      {compare : List Bytes} {success failure : Ops}
      → m ≡ txn_method
      → OpsName k failure
      → Names m k (some (txn_request compare success failure))
  of_watch :
      (key : Bytes) → m ≡ watch_method → key ≡ k → Names m k (some (watch_request (some key)))

module _ (P : Bytes → Type 0) where
  All-append : (ks ls : List Bytes) → All P (ks ++ ls) ↔ (All P ks × All P ls)
  All-append [] ls = (λ h. (tt, h), λ h. h.1)
  All-append (k ∷ ks) ls =
      let (to, from) = All-append ks ls in
      (λ h. ((h.0, (to h.1).0), (to h.1).1), λ h. (h.0.0, from (h.0.1, h.1)))

  All-member : (ks : List Bytes) (k : Bytes) → All P ks → Memᴰ k ks → P k
  All-member [] k h i = absurd (Memᴰ.not-nil i)
  All-member (x ∷ ks) k h (Memᴰ.head same) = subst P (sym same) h.0
  All-member (x ∷ ks) k h (Memᴰ.tail i) = All-member ks k h.1 i

  All-of_members : (ks : List Bytes) → ((k : Bytes) → Memᴰ k ks → P k) → All P ks
  All-of_members [] f = tt
  All-of_members (k ∷ ks) f = (f k (Memᴰ.head refl), All-of_members ks (λ l i. f l (Memᴰ.tail i)))

  contained : (ks : List Bytes) (k : Bytes) → contains ks k ≡ true → All P ks → P k
  unfolding contains
  contained [] k h all = absurd (ground arith)
  contained (x ∷ ks) k h all = elim (Bool-cases (bytes_eq x k)) [
    | inl same ↦ subst P (bytes_eq→eq x k same) all.0
    | inr differ ↦ contained ks k (rw differ at h) all.1
  ]

  All-add_key : (ks : List Bytes) (k : Bytes) → All P (add_key ks k) ↔ (All P ks × P k)
  unfolding add_key
  All-add_key ks k = elim (Bool-cases (contains ks k)) [
    | inl known ↦ rw known (λ h. (h, contained ks k known h), λ h. h.0)
    | inr new ↦
        let (to, from) = All-append ks (k ∷ []) in
        rw new (λ h. ((to h).0, (to h).1.0), λ h. from (h.0, (h.1, tt)))
  ]

  All-add_keys : (ks ls : List Bytes) → All P (add_keys ks ls) ↔ (All P ks × All P ls)
  unfolding add_keys
  All-add_keys ks [] = (λ h. (h, tt), λ h. h.0)
  All-add_keys ks (l ∷ ls) =
      let (to, from) = All-add_key ks l in
      let (to', from') = All-add_keys (add_key ks l) ls in
      (
        λ h. ((to (to' h).0).0, ((to (to' h).0).1, (to' h).1)),
        λ h. from' (from (h.0, h.1.0), h.1.1),
      )

  op_named : (op : RequestOp) (k : Bytes) → All P (op_keys op) → OpNames k op → P k
  unfolding op_keys
  op_named op k h (ranged r same) = subst P same h.0
  op_named op k h (put_at key same) = subst P same h.0
  op_named op k h (deleted r same) = subst P same h.0

  op_found : (op : RequestOp) → ((k : Bytes) → OpNames k op → P k) → All P (op_keys op)
  unfolding op_keys
  op_found (range_op (some r)) f = (f r.key (ranged r refl), tt)
  op_found (range_op none) f = tt
  op_found (delete_range_op (some r)) f = (f r.key (deleted r refl), tt)
  op_found (delete_range_op none) f = tt
  op_found (put_op (some key)) f = (f key (put_at key refl), tt)
  op_found (put_op none) f = tt
  op_found (txn_op compare success failure) f = tt
  op_found no_op f = tt

  ops_kept : (ks : List Bytes) (ops : Ops) → All P (add_ops ks ops) → All P ks
  unfolding add_ops
  ops_kept ks no_ops h = h
  ops_kept ks (op_then op ops) h =
      ((All-add_keys ks (op_keys op)).0 (ops_kept (add_keys ks (op_keys op)) ops h)).0

  ops_named :
      (ks : List Bytes) (ops : Ops) (k : Bytes) → All P (add_ops ks ops) → OpsName k ops → P k
  unfolding add_ops
  ops_named ks no_ops k h n = elim n [ ]
  ops_named ks (op_then op ops) k h (first n) =
      op_named op k ((All-add_keys ks (op_keys op)).0 (ops_kept (add_keys ks (op_keys op)) ops h)).1
        n
  ops_named ks (op_then op ops) k h (later n) = ops_named (add_keys ks (op_keys op)) ops k h n

  ops_found :
      (ks : List Bytes) (ops : Ops)
      → All P ks
      → ((k : Bytes) → OpsName k ops → P k)
      → All P (add_ops ks ops)
  unfolding add_ops
  ops_found ks no_ops h f = h
  ops_found ks (op_then op ops) h f =
      ops_found (add_keys ks (op_keys op)) ops
        ((All-add_keys ks (op_keys op)).1 (h, op_found op (λ k n. f k (first n))))
        (λ k n. f k (later n))

  -- The keys of a request that is only read when the method is this one
  guarded :
      (m c : Bytes) (ks : List Bytes) → All P (if bytes_eq m c then ks else []) ↔ (m ≡ c → All P ks)
  guarded m c ks = elim (Bool-cases (bytes_eq m c)) [
    | inl same ↦ rw same (λ h e. h, λ f. f (bytes_eq→eq m c same))
    | inr differ ↦ rw differ (λ h e. absurd (cc (differ, (bytes_eq_iff m c).1 e)), λ f. tt)
  ]

  txn_named :
      (compare : List Bytes) (success failure : Ops)
      → All P (txn_keys compare success failure) ↔ (
          All P compare
          × ((k : Bytes) → OpsName k success → P k)
          × ((k : Bytes) → OpsName k failure → P k))
  unfolding txn_keys
  txn_named compare success failure =
      let given = add_keys [] compare in
      let done = add_ops given success in
      (
        λ h.
            let kept = ops_kept done failure h in
            (
              ((All-add_keys [] compare).0 (ops_kept given success kept)).1,
              λ k n. ops_named given success k kept n,
              λ k n. ops_named done failure k h n,
            ),
        λ h.
            ops_found done failure
              (ops_found given success ((All-add_keys [] compare).1 (tt, h.0)) h.1) h.2,
      )

  request_named :
      (m : Bytes) (req : Option Request) (k : Bytes)
      → All P (extract_keys m req)
      → Names m k req
      → P k
  unfolding extract_keys
  request_named m req k h (of_range r at same) =
      subst P same ((guarded m range_method (r.key ∷ [])).0 h at).0
  request_named m req k h (of_put key at same) =
      subst P same ((guarded m put_method (key ∷ [])).0 h at).0
  request_named m req k h (of_delete r at same) =
      subst P same ((guarded m delete_range_method (r.key ∷ [])).0 h at).0
  request_named m (some (txn_request compare success failure)) k h (of_compare at i) =
      All-member compare k
        ((txn_named compare success failure).0
          ((guarded m txn_method (txn_keys compare success failure)).0 h at)).0
        i
  request_named m (some (txn_request compare success failure)) k h (of_success at i) =
      ((txn_named compare success failure).0
          ((guarded m txn_method (txn_keys compare success failure)).0 h at)).1
        k i
  request_named m (some (txn_request compare success failure)) k h (of_failure at i) =
      ((txn_named compare success failure).0
          ((guarded m txn_method (txn_keys compare success failure)).0 h at)).2
        k i
  request_named m req k h (of_watch key at same) =
      subst P same ((guarded m watch_method (key ∷ [])).0 h at).0

  request_found :
      (m : Bytes) (req : Option Request)
      → ((k : Bytes) → Names m k req → P k)
      → All P (extract_keys m req)
  unfolding extract_keys
  request_found m none f = tt
  request_found m (some (range_request r)) f =
      (guarded m range_method (r.key ∷ [])).1 (λ at. (f r.key (of_range r at refl), tt))
  request_found m (some (put_request key)) f =
      (guarded m put_method (key ∷ [])).1 (λ at. (f key (of_put key at refl), tt))
  request_found m (some (delete_range_request r)) f =
      (guarded m delete_range_method (r.key ∷ [])).1 (λ at. (f r.key (of_delete r at refl), tt))
  request_found m (some (txn_request compare success failure)) f =
      (guarded m txn_method (txn_keys compare success failure)).1 (λ at.
        (txn_named compare success failure).1 (
          All-of_members compare (λ k i. f k (of_compare at i)),
          λ k n. f k (of_success at n),
          λ k n. f k (of_failure at n),
        ))
  request_found m (some (watch_request (some key))) f =
      (guarded m watch_method (key ∷ [])).1 (λ at. (f key (of_watch key at refl), tt))
  request_found m (some (watch_request none)) f = tt
  request_found m (some other_request) f = tt

  -- Something holds of the keys that are found exactly if it holds of every key that is named.
  pub extract_keys-Names :
      (m : Bytes) (req : Option Request)
      → All P (extract_keys m req) ↔ ((k : Bytes) → Names m k req → P k)
  extract_keys-Names m req = (λ h k n. request_named m req k h n, request_found m req)
