-- ===== src/Store/Mvcc/Deletions.antt =====
-- The deletions of a compaction against the map that the store stands for.
use mathlib.Core.Path.{subst}
use mathlib.Core.Option.{some-injective}
use t.Prelude.{
  ℕ, ◌≤◌, ◌<◌, ◌≡◌, sym, ap, ◌∙◌, ◌⊎◌, inl, inr, Option, none, some, ◌∷◌, Bytes, bytes_eq_refl,
  arith,
}
use t.Prelude.BigEndian.{put_be}
use t.Prelude.Word.{sign_bit}
use t.Store.Keys.{log_key, idx_key}
use t.Store.Record.{Record, marshal_record}
use t.Store.KeyValue.{KeyValue}
use t.Store.Pebble.{Batch, effects}
use t.Store.Mvcc.{
  Contents, Holds, NoneWithin, IsLog, IsLive, IsCurrent, Current, Represents, max_rev,
}
use t.Store.Mvcc.Keys.{log_key_inj, log_key-cons, log_key-idx_key}
use t.Store.Mvcc.Search.{marshal_record_inj}
use t.Store.Mvcc.Compaction.{OnlyDeletes}

-- What the batch makes of the contents
abbrev pub after : Batch → Contents → Contents
after b g k = effects b k (g k)

-- A log has no record above its last revision.
pub above-IsLog {ℓ} :
    {A : Type ℓ}
    → (cur : ℕ) (h : Contents) (rev : ℕ) (k v : Bytes) → IsLog cur h
    → cur < rev
    → rev < sign_bit
    → 108 ∷ k ≡ log_key rev
    → h (108 ∷ k) ≡ some v
    → A
unfolding IsLog
above-IsLog cur h rev k v log hc hr e found =
    let entry = log k v found in
    let same =
      log_key_inj rev entry.rev (omega (arith, hr)) (omega (arith, hr, hc, entry.bounded))
        (sym e ∙ entry.key) in
    absurd (omega (arith, same, hc, entry.bounded))

-- A record that was there before the batch and after it is the same.
kept-Holds :
    (old g : Contents) (cur : ℕ) (m : Current) (rev : ℕ) (r s : Record)
    → Represents old g cur m
    → Holds g rev r
    → Holds old rev s
    → s ≡ r
kept-Holds old g cur m rev r s rep h o =
    from (rep.kept _ (marshal_record s) (ap old (sym (log_key-cons rev)) ∙ o.at))
  where
    from :
        (g (108 ∷ put_be 8 rev) ≡ some (marshal_record s)) ⊎ (g (108 ∷ put_be 8 rev) ≡ none) → s ≡ r
    from (inl e) =
        marshal_record_inj s r o.readable h.readable
          (some-injective _ _ (sym e ∙ ap g (sym (log_key-cons rev)) ∙ h.at))
    from (inr e) = absurd (cc (sym e ∙ ap g (sym (log_key-cons rev)) ∙ h.at))

module _ (old g : Contents) (cur : ℕ) (m : Current) (fits : cur < sign_bit)
    (rep : Represents old g cur m) where
  module _ (top : ℕ) (b : Batch) (ht : top < sign_bit)
      (logs : (k : Bytes) → OnlyDeletes old top b (108 ∷ k))
      (index : (k : Bytes) → OnlyDeletes old top b (idx_key k)) where
    -- What is left of the log was there.
    before : (k v : Bytes) → after b g (108 ∷ k) ≡ some v → g (108 ∷ k) ≡ some v
    before k v e = elim (logs k (g (108 ∷ k))) [
      | inl same ↦ sym same ∙ e
      | inr (gone, s) ↦ absurd (cc (sym gone ∙ e))
    ]

    pub before-Holds : (rev : ℕ) (r : Record) → Holds (after b g) rev r → Holds g rev r
    unfolding log_key
    before-Holds rev r h = record {
      at = before (put_be 8 rev) (marshal_record r) h.at;
      readable = h.readable;
    }

    -- A record that no newer one supersedes stays.
    pub still :
        (rev : ℕ) (r : Record) (key : Bytes) (at : ℕ)
        → rev < sign_bit
        → top ≤ at
        → Holds g rev r
        → r.key ≡ key
        → NoneWithin old key rev at
        → Holds (after b g) rev r
    unfolding log_key NoneWithin
    still rev r key at small le h e newest = elim (logs (put_be 8 rev) (g (log_key rev))) [
      | inl same ↦ record { at = same ∙ h.at; readable = h.readable }
      | inr (gone, s) ↦
          let same_rev =
            log_key_inj rev s.rev (omega (arith, small)) (omega (arith, s.fits)) s.key in
          let same =
            kept-Holds old g cur m rev r s.r rep h
              (subst (λ x. Holds old x s.r) (sym same_rev) s.holds) in
          absurd (
            newest s.newer s.s (omega (arith, s.above, same_rev)) (omega (arith, s.bounded, le))
              s.holds_newer (s.key_eq ∙ ap (λ (x : Record). x.key) same ∙ e))
    ]

    stays :
        (key : Bytes) (kv : KeyValue) → IsLive old g cur key kv → IsLive old (after b g) cur key kv
    unfolding NoneWithin
    stays key kv live = record {
      rev = live.rev;
      r = live.r;
      index = elim (index key (g (idx_key key))) [
        | inl same ↦ same ∙ live.index
        | inr (gone, s) ↦
            absurd (cc (log_key-idx_key s.rev key, bytes_eq_refl (idx_key key), s.key))
      ];
      holds =
          still live.rev live.r key max_rev (omega (arith, live.bounded, fits)) (omega (arith, ht))
            live.holds live.key_eq live.newest_old;
      key_eq = live.key_eq;
      positive = live.positive;
      bounded = live.bounded;
      newest = λ rev' r' above le h. live.newest rev' r' above le (before-Holds rev' r' h);
      newest_old = live.newest_old;
      kv_eq = live.kv_eq;
    }

    stays-IsCurrent :
        (key : Bytes) (o : Option KeyValue)
        → IsCurrent old g cur key o
        → IsCurrent old (after b g) cur key o
    unfolding IsCurrent
    stays-IsCurrent key none e = elim (index key (g (idx_key key))) [
      | inl same ↦ same ∙ e
      | inr (gone, s) ↦ gone
    ]
    stays-IsCurrent key (some kv) live = stays key kv live

    -- A batch that deletes superseded records only leaves the map as it is.
    pub deletes-Represents : Represents old (after b g) cur m
    unfolding IsLog
    deletes-Represents = record {
      log = λ k v e. rep.log k v (before k v e);
      log_old = rep.log_old;
      current = λ key. stays-IsCurrent key (m key) (rep.current key);
      kept = λ k v e. elim (logs k (g (108 ∷ k))) [
        | inl same ↦ elim (rep.kept k v e) [ inl x ↦ inl (same ∙ x) | inr x ↦ inr (same ∙ x) ]
        | inr (gone, s) ↦ inr gone
      ];
    }
