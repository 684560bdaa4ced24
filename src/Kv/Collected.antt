-- ===== src/Kv/Collected.antt =====
-- The loops of Range of etcd/kv.go over what the node lists.
use mathlib.Core.List.{append_assoc, append-nil}
use t.Prelude.{
  ℕ, zero, suc, ◌+◌, ◌-◌, ◌≤◌, ◌≡◌, inl, inr, refl, sym, ap, ◌∙◌, true, false, ◌&&◌, List, [], ◌∷◌,
  ◌++◌, map, length, length-append, take, leb, arith, Bool-cases,
}
use t.Prelude.Word.{lt64}
use t.Store.KeyValue.{KeyValue}
use t.Kv.Matches.{keep}
use t.Kv.{
  RangeRequest, ProtoKv, kv_to_proto_for_range, match_range, count_matches, collect_one, collect,
}

take_nil {ℓ} : {A : Type ℓ} (n : ℕ) → take {A = A} n [] ≡ []
take_nil zero = refl
take_nil (suc n) = refl

pair_eq {ℓ κ} :
    {A : Type ℓ} {B : Type κ} {a c : A} {b d : B} → a ≡ c → b ≡ d → ◌≡◌ {A = A × B} (a, b) (c, d)
pair_eq h k = cc (h, k)

pub count_matches-keep :
    (r : RangeRequest) (kvs : List KeyValue) (c : ℕ)
    → count_matches r.key r.range_end kvs c
      ≡ c + length (keep (λ kv. match_range kv r.key r.range_end) kvs)
unfolding count_matches
count_matches-keep r [] c = omega arith
count_matches-keep r (kv ∷ kvs) c = elim (Bool-cases (match_range kv r.key r.range_end)) [
  | inl e ↦ simp (e, count_matches-keep r kvs (c + 1)) (omega arith)
  | inr e ↦ simp (e, count_matches-keep r kvs c) refl
]

module _ (r : RangeRequest) where
  one_skipped :
      (kv : KeyValue) (total : ℕ) (acc : List ProtoKv)
      → match_range kv r.key r.range_end ≡ false
      → collect_one r kv (total, acc) ≡ (total, acc)
  unfolding collect_one
  one_skipped kv total acc e = simp e refl

  one_over :
      (kv : KeyValue) (total : ℕ) (acc : List ProtoKv)
      → match_range kv r.key r.range_end ≡ true
      → (lt64 0 r.limit && leb r.limit (length acc)) ≡ true
      → collect_one r kv (total, acc) ≡ (total + 1, acc)
  unfolding collect_one
  one_over kv total acc e full = simp (e, full) refl

  one_taken :
      (kv : KeyValue) (total : ℕ) (acc : List ProtoKv)
      → match_range kv r.key r.range_end ≡ true
      → (lt64 0 r.limit && leb r.limit (length acc)) ≡ false
      → collect_one r kv (total, acc)
        ≡ (total + 1, acc ++ kv_to_proto_for_range r.keys_only kv ∷ [])
  unfolding collect_one
  one_taken kv total acc e room = simp (e, room) refl

  pub collect_all :
      (kvs : List KeyValue) (total : ℕ) (acc : List ProtoKv)
      → lt64 0 r.limit ≡ false
      → let ms = keep (λ kv. match_range kv r.key r.range_end) kvs in
        collect r kvs (total, acc)
        ≡ (total + length ms, acc ++ map (kv_to_proto_for_range r.keys_only) ms)
  unfolding collect
  collect_all [] total acc h = pair_eq (omega arith) (sym (append-nil acc))
  collect_all (kv ∷ kvs) total acc h =
      let next = acc ++ kv_to_proto_for_range r.keys_only kv ∷ [] in
      elim (Bool-cases (match_range kv r.key r.range_end)) [
        | inl e ↦
            ap (collect r kvs) (one_taken kv total acc e (cc h))
            ∙ collect_all kvs (total + 1) next h
            ∙ simp e (pair_eq (omega arith) (append_assoc acc _ _))
        | inr e ↦
            ap (collect r kvs) (one_skipped kv total acc e)
            ∙ collect_all kvs total acc h
            ∙ simp e refl
      ]

  pub collect_page :
      (kvs : List KeyValue) (total : ℕ) (acc : List ProtoKv)
      → lt64 0 r.limit ≡ true
      → length acc ≤ r.limit
      → let ms = keep (λ kv. match_range kv r.key r.range_end) kvs in
        collect r kvs (total, acc) ≡ (
          total + length ms,
          acc ++ take (r.limit - length acc) (map (kv_to_proto_for_range r.keys_only) ms),
        )
  unfolding collect
  collect_page [] total acc h fits =
      pair_eq (omega arith)
        (simp (take_nil {A = ProtoKv} (r.limit - length acc)) (sym (append-nil acc)))
  collect_page (kv ∷ kvs) total acc h fits =
      let shown = kv_to_proto_for_range r.keys_only kv in
      let longer = length-append acc (shown ∷ []) in
      elim (Bool-cases (match_range kv r.key r.range_end)) [
        | inl e ↦ elim (Bool-cases (leb r.limit (length acc))) [
          | inl full ↦
              let none_left : r.limit - length acc ≡ 0 = ground arith in
              ap (collect r kvs) (one_over kv total acc e (cc (h, full)))
              ∙ collect_page kvs (total + 1) acc h fits
              ∙ simp (e, none_left) (pair_eq (omega arith) refl)
          | inr room ↦
              let more : r.limit - length acc ≡ suc (r.limit - length (acc ++ shown ∷ [])) =
                ground arith in
              ap (collect r kvs) (one_taken kv total acc e (cc (h, room)))
              ∙ collect_page kvs (total + 1) (acc ++ shown ∷ []) h (ground arith)
              ∙ simp (e, more) (pair_eq (omega arith) (append_assoc acc _ _))
        ]
        | inr e ↦
            ap (collect r kvs) (one_skipped kv total acc e)
            ∙ collect_page kvs total acc h fits
            ∙ simp e refl
      ]
