-- ===== src/Store/Mvcc/Writes.antt =====
-- A record that is written is what the map has for its key from then on.
use mathlib.Core.Option.{some-injective}
use mathlib.Core.Path.{subst}
use t.Prelude.{
  ℕ, ◌≤◌, ◌<◌, ◌≡◌, refl, sym, ◌∙◌, ◌⊎◌, inl, inr, Bool, true, false, Option, none, some, ◌∷◌,
  Bytes, bytes_eq, bytes_eq_iff, bytes_eq_refl, if◌then◌else◌, arith, Bool-cases,
}
use t.Prelude.BigEndian.{put_be}
use t.Prelude.Word.{sign_bit}
use t.Store.Keys.{log_key, idx_key, encode_rev}
use t.Store.Record.{Record, marshal_record}
use t.Store.KeyValue.{KeyValue, record_to_kv}
use t.Store.Apply.{write_record}
use t.Store.Mvcc.{
  Contents, IsReadable, Holds, NoneWithin, IsLog, IsLive, IsCurrent, Current, Represents, max_rev,
}
use t.Store.Mvcc.Keys.{log_key_inj, log_key-idx_key, idx_key-idx_key, idx_key-log}
use t.Store.Mvcc.Search.{marshal_record_inj}
use t.Store.Mvcc.Deletions.{after, above-IsLog}

pub above-Holds {ℓ} :
    {A : Type ℓ}
    → (cur : ℕ) (h : Contents) (rev : ℕ) (s : Record) → IsLog cur h
    → cur < rev
    → rev < sign_bit
    → Holds h rev s
    → A
unfolding log_key
above-Holds cur h rev s log above fits holds =
    above-IsLog cur h rev (put_be 8 rev) (marshal_record s) log above fits refl holds.at

-- The map after a write of a record
abbrev pub written : Current → ℕ → Record → Current
written m rev r key =
    if bytes_eq r.key key then (if r.delete then none else some (record_to_kv key rev r)) else m key

module _ (old g : Contents) (cur : ℕ) (m : Current) (rep : Represents old g cur m) (rev : ℕ)
    (r : Record) (hc : cur < rev) (hr : rev < sign_bit) (readable : IsReadable r) where
  -- The contents with the record in the batch
  abbrev pub g_after : Contents
  g_after = after (write_record (log_key rev) rev r) g

  at_log :
      (k : Bytes)
      → g_after (108 ∷ k)
        ≡ (if bytes_eq (log_key rev) (108 ∷ k) then some (marshal_record r) else g (108 ∷ k))
  at_log k = elim (Bool-cases r.delete) [
    | inl d ↦ rw (d, idx_key-log r.key k) refl
    | inr d ↦ rw (d, idx_key-log r.key k) refl
  ]

  at_idx :
      (key : Bytes)
      → g_after (idx_key key) ≡ (
          if bytes_eq r.key key
          then (if r.delete then none else some (encode_rev rev))
          else g (idx_key key))
  at_idx key = rw (log_key-idx_key rev key) (elim (Bool-cases r.delete) [
    | inl d ↦ rw (d, idx_key-idx_key r.key key) refl
    | inr d ↦ rw (d, idx_key-idx_key r.key key) refl
  ])

  -- What the log has under a key: the new record, or what it had
  log-cases :
      (k v : Bytes)
      → g_after (108 ∷ k) ≡ some v
      → ((log_key rev ≡ 108 ∷ k) × (v ≡ marshal_record r)) ⊎ (g (108 ∷ k) ≡ some v)
  log-cases k v e = elim (Bool-cases (bytes_eq (log_key rev) (108 ∷ k))) [
    | inl same ↦
        inl ((bytes_eq_iff _ _).0 same, some-injective _ _ (sym e ∙ at_log k ∙ rw same refl))
    | inr differ ↦ inr (sym (at_log k ∙ rw differ refl) ∙ e)
  ]

  pub Holds-cases :
      (rev' : ℕ) (s : Record)
      → rev' < sign_bit
      → Holds g_after rev' s
      → ((rev' ≡ rev) × (s ≡ r)) ⊎ Holds g rev' s
  unfolding log_key
  Holds-cases rev' s h' h = elim (log-cases (put_be 8 rev') (marshal_record s) h.at) [
    | inl (k, v) ↦ inl (
      log_key_inj rev' rev (omega (arith, h')) (omega (arith, hr)) (sym k),
      marshal_record_inj s r h.readable readable v,
    )
    | inr e ↦ inr (record { at = e; readable = h.readable })
  ]

  new-IsLog : IsLog rev g_after
  unfolding IsLog
  new-IsLog k v e = elim (log-cases k v e) [
    | inl (k, v) ↦ record {
      rev = rev;
      r = r;
      key = sym k;
      value = v;
      readable = readable;
      positive = omega (arith, hc);
      bounded = omega arith;
    }
    | inr found ↦
        let entry = rep.log k v found in
        record {
          rev = entry.rev;
          r = entry.r;
          key = entry.key;
          value = entry.value;
          readable = entry.readable;
          positive = entry.positive;
          bounded = omega (arith, entry.bounded, hc);
        }
  ]

  pub at_new : g_after (log_key rev) ≡ some (marshal_record r)
  unfolding log_key
  at_new = at_log (put_be 8 rev) ∙ rw (bytes_eq_refl (log_key rev)) refl

  -- A record of an earlier revision stays.
  pub keeps-Holds : (rev' : ℕ) (s : Record) → rev' ≤ cur → Holds g rev' s → Holds g_after rev' s
  unfolding log_key
  keeps-Holds rev' s le h = elim (Bool-cases (bytes_eq (log_key rev) (log_key rev'))) [
    | inl same ↦
        let e =
          log_key_inj rev rev' (omega (arith, hr)) (omega (arith, hr, le, hc))
            ((bytes_eq_iff (log_key rev) (log_key rev')).0 same) in
        absurd (omega (arith, e, hc, le))
    | inr differ ↦ record { at = at_log (put_be 8 rev') ∙ rw differ h.at; readable = h.readable }
  ]

  -- No record is newer than the one that is written.
  pub new-NoneWithin :
      (key : Bytes) (top : ℕ)
      → top ≤ max_rev
      → NoneWithin g_after key rev top × NoneWithin old key rev top
  unfolding NoneWithin
  new-NoneWithin key top to = (
    λ rev' s above le h same. elim (Holds-cases rev' s (omega (arith, le, to)) h) [
      | inl (e, same_record) ↦ absurd (omega (arith, above, e))
      | inr found ↦
          above-Holds cur g rev' s rep.log (omega (arith, hc, above)) (omega (arith, le, to)) found
    ],
    λ rev' s above le h same.
        above-Holds cur old rev' s rep.log_old (omega (arith, hc, above)) (omega (arith, le, to)) h,
  )

  is_live : r.delete ≡ false → IsLive old g_after rev r.key (record_to_kv r.key rev r)
  is_live put = record {
    rev = rev;
    r = r;
    index = at_idx r.key ∙ rw (bytes_eq_refl r.key, put) refl;
    holds = record { at = at_new; readable = readable };
    key_eq = refl;
    positive = omega (arith, hc);
    bounded = omega arith;
    newest = (new-NoneWithin r.key max_rev (omega arith)).0;
    newest_old = (new-NoneWithin r.key max_rev (omega arith)).1;
    kv_eq = refl;
  }

  stays-IsLive :
      (key : Bytes) (kv : KeyValue)
      → bytes_eq r.key key ≡ false
      → IsLive old g cur key kv
      → IsLive old g_after rev key kv
  unfolding NoneWithin
  stays-IsLive key kv differ live = record {
    rev = live.rev;
    r = live.r;
    index = at_idx key ∙ rw differ live.index;
    holds = keeps-Holds live.rev live.r live.bounded live.holds;
    key_eq = live.key_eq;
    positive = live.positive;
    bounded = omega (arith, live.bounded, hc);
    newest = λ rev' s above le h same. elim (Holds-cases rev' s (omega (arith, le)) h) [
      | inl (e, same_record) ↦ absurd (cc (differ, bytes_eq_refl key, same, same_record))
      | inr found ↦ live.newest rev' s above le found same
    ];
    newest_old = live.newest_old;
    kv_eq = live.kv_eq;
  }

  stays-IsCurrent :
      (key : Bytes) (o : Option KeyValue)
      → bytes_eq r.key key ≡ false
      → IsCurrent old g cur key o
      → IsCurrent old g_after rev key o
  unfolding IsCurrent
  stays-IsCurrent key none differ e = at_idx key ∙ rw differ e
  stays-IsCurrent key (some kv) differ live = stays-IsLive key kv differ live

  new-IsCurrent :
      (d : Bool)
      → r.delete ≡ d
      → IsCurrent old g_after rev r.key (if d then none else some (record_to_kv r.key rev r))
  unfolding IsCurrent
  new-IsCurrent true d = at_idx r.key ∙ rw (bytes_eq_refl r.key, d) refl
  new-IsCurrent false d = is_live d

  written-IsCurrent : (key : Bytes) → IsCurrent old g_after rev key (written m rev r key)
  written-IsCurrent key = elim (Bool-cases (bytes_eq r.key key)) [
    | inl same ↦ rw same (
        subst
          (λ k.
            IsCurrent old g_after rev k (if r.delete then none else some (record_to_kv k rev r)))
          ((bytes_eq_iff r.key key).0 same) (new-IsCurrent r.delete refl))
    | inr differ ↦ rw differ (stays-IsCurrent key (m key) differ (rep.current key))
  ]

  pub write_record-Represents : Represents old g_after rev (written m rev r)
  unfolding IsLog
  write_record-Represents = record {
    log = new-IsLog;
    log_old = λ k v e.
        let entry = rep.log_old k v e in
        record {
          rev = entry.rev;
          r = entry.r;
          key = entry.key;
          value = entry.value;
          readable = entry.readable;
          positive = entry.positive;
          bounded = omega (arith, entry.bounded, hc);
        };
    current = written-IsCurrent;
    kept = λ k v e. elim (Bool-cases (bytes_eq (log_key rev) (108 ∷ k))) [
      | inl same ↦
          above-IsLog cur old rev k v rep.log_old hc hr
            (sym ((bytes_eq_iff (log_key rev) (108 ∷ k)).0 same)) e
      | inr differ ↦ elim (rep.kept k v e) [
        | inl stays ↦ inl (at_log k ∙ rw differ stays)
        | inr gone ↦ inr (at_log k ∙ rw differ gone)
      ]
    ];
  }
