-- ===== src/Election/Winning.antt =====
-- The write that wins the lock against the record that it replaces.
use mathlib.Core.Option.{some-injective}
use t.Prelude.{
  ℕ, ◌+◌, ◌<◌, ◌^◌, ◌≡◌, refl, sym, ap, ◌∙◌, ◌⊎◌, inl, inr, Bool, true, false, Option, none, some,
  List, [], ◌∷◌, Bytes, bytes_eq, arith, if◌then◌else◌, All,
}
use t.Result.{Result, ok, err, ◌>>=◌}
use t.Object.{ConditionalStore, IsConditional}
use t.Election.{
  decode_lock, Lock, LockRecord, LockJson, Observed, ElectionError, lock_key, lock_record, new_term,
  held_by_other, backs_off, read_with_etag, put_observed, write_atomic, try_acquire, take_over,
  touch_if_match, decoded, Outcome, settle, read, record_in, precondition_failed,
}

-- Terms that do not wrap
abbrev pub TermFits : ℕ → Observed → Type 0
TermFits floor_term none = floor_term + 1 < 2 ^ 64
TermFits floor_term (some (rec, etag)) = (floor_term + 1 < 2 ^ 64) × (rec.term + 1 < 2 ^ 64)

-- The first term is above all the others, and so on.
abbrev pub AreDescending : List ℕ → Type 0
AreDescending [] = Unit
AreDescending (t ∷ ts) = All (λ u. u < t) ts × AreDescending ts

All-mono : {t u : ℕ} → (ts : List ℕ) → t < u → All (λ x. x < t) ts → All (λ x. x < u) ts
All-mono [] h all = tt
All-mono (x ∷ ts) h (below, all) = (omega (arith, below, h), All-mono ts h all)

module _ (o : ConditionalStore) (json : LockJson) (conditional : IsConditional o)
    (json_back : (rec : LockRecord) → json.decode (json.marshal rec) ≡ some rec) where
  -- The lock is absent while no term was won, and has the last one that was won.
  unfoldable pub Holds : o.State → List ℕ → Type 0
  Holds s [] = o.get_etag s lock_key ≡ none
  Holds s (t ∷ ts) =
      (rec : LockRecord) × (etag : Bytes) × (o.get_etag s lock_key ≡ some (json.marshal rec, etag))
      × (rec.term ≡ t)

  -- The record that was observed is the one that the condition finds.
  observed_is_current :
      (s at_read : o.State) (d etag : Bytes) (seen : LockRecord)
      → read_with_etag o json at_read ≡ ok (some (seen, etag))
      → o.get_etag s lock_key ≡ some (d, etag)
      → json.decode d ≡ some seen
  unfolding read_with_etag
  observed_is_current s at_read d etag seen r now = from (o.get_etag at_read lock_key) refl r
    where
      from :
          (x : Option (Bytes × Bytes))
          → o.get_etag at_read lock_key ≡ x
          → decoded o json x ≡ ok (some (seen, etag))
          → json.decode d ≡ some seen
      from none e h = absurd (cc h)
      from (some (content, etag')) e h = by_decode (json.decode content) refl h
        where
          by_decode :
              (y : Option LockRecord)
              → json.decode content ≡ y
              → elim y as (λ z. Result ElectionError Observed) [
                | none ↦ err decode_lock
                | some rec ↦ ok (some (rec, etag'))
              ]
                ≡ ok (some (seen, etag))
              → json.decode d ≡ some seen
          by_decode none e' h = absurd (cc h)
          by_decode (some rec) e' h =
              let same_rec : rec ≡ seen = cc h in
              let same_tag : etag' ≡ etag = cc h in
              let same =
                conditional.same_etag at_read s lock_key content d etag
                  (e ∙ ap (λ (x : Bytes). some (content, x)) same_tag) now in
              ap json.decode (sym same) ∙ e' ∙ ap some same_rec

  -- The term that was last won is the one that the node has read.
  last_term :
      (s at_read : o.State) (d etag : Bytes) (seen : LockRecord) (t : ℕ) (ts : List ℕ)
      → read_with_etag o json at_read ≡ ok (some (seen, etag))
      → o.get_etag s lock_key ≡ some (d, etag)
      → Holds s (t ∷ ts)
      → seen.term ≡ t
  unfolding Holds
  last_term s at_read d etag seen t ts r now (rec, etag', held, e) =
      let same : d ≡ json.marshal rec =
        ap (λ (x : Bytes × Bytes). x.0) (some-injective _ _ (sym now ∙ held)) in
      let same_record = some-injective seen rec (
        sym (observed_is_current s at_read d etag seen r now)
        ∙ ap json.decode same
        ∙ json_back rec) in
      ap (λ (x : LockRecord). x.term) same_record ∙ e

  -- A write under the condition of an earlier read, of a higher term than the one read
  pub write-Holds :
      (s s' at_read : o.State) (rec : LockRecord) (floor_term : ℕ) (cur : Observed) (terms : List ℕ)
      → read_with_etag o json at_read ≡ ok cur
      → TermFits floor_term cur
      → rec.term ≡ new_term floor_term cur
      → Holds s terms × AreDescending terms
      → put_observed o json s (json.marshal rec) cur ≡ some s'
      → Holds s' (rec.term ∷ terms) × AreDescending (rec.term ∷ terms)
  unfolding Holds put_observed new_term
  write-Holds s s' at_read rec floor_term none [] r fits higher (h, d) w =
      let (was, (e, now)) = conditional.put_if_absent-get s s' lock_key (json.marshal rec) w in
      ((rec, e, now, refl), (tt, tt))
  write-Holds s s' at_read rec floor_term none (t ∷ ts) r fits higher ((held, etag, at, same), d)
        w =
      let (was, (e, now)) = conditional.put_if_absent-get s s' lock_key (json.marshal rec) w in
      absurd (cc (was, at))
  write-Holds s s' at_read rec floor_term (some (seen, etag)) [] r fits higher (h, d) w =
      let ((content, was), (e, now)) =
        conditional.put_if_match-get s s' lock_key (json.marshal rec) etag w in
      absurd (cc (was, h))
  write-Holds s s' at_read rec floor_term (some (seen, etag)) (t ∷ ts) r fits higher (h, (below, d))
        w =
      let ((content, was), (e, now)) =
        conditional.put_if_match-get s s' lock_key (json.marshal rec) etag w in
      let last = last_term s at_read content etag seen t ts r was h in
      let above : t < rec.term = ground (arith, last, higher, fits) in
      ((rec, e, now, refl), ((above, All-mono ts above below), (below, d)))

  settle-won :
      (s s' : o.State) (rec won_rec : LockRecord) (x : Option o.State)
      → settle o json s rec x ≡ (s', ok (some won_rec, true))
      → (x ≡ some s') × (won_rec ≡ rec)
  settle-won s s' rec won_rec (some s'') e = (cc e, cc e)
  settle-won s s' rec won_rec none e =
      absurd (lost (read o json s) (ap (λ (y : o.State × Outcome). y.1) e))
    where
      lost :
          (r : Result ElectionError (Option LockRecord))
          → Path Outcome (r >>= λ winner. ok (winner, false)) (ok (some won_rec, true))
          → ⊥
      lost (err e) h = cc h
      lost (ok w) h = cc h

  write_atomic-won :
      (l : Lock) (term committed_rev now : ℕ) (s s' : o.State) (cur : Observed) (rec : LockRecord)
      (b : Bool)
      → Path
          (o.State × Outcome)
          (if b
            then (s, ok (record_in cur, false))
            else write_atomic o json l term committed_rev now cur s)
          (s', ok (some rec, true))
      → (put_observed o json s (json.marshal rec) cur ≡ some s') × (rec.term ≡ term)
  unfolding write_atomic
  write_atomic-won l term committed_rev now s s' cur rec true e = absurd (cc e)
  write_atomic-won l term committed_rev now s s' cur rec false e =
      let mine = lock_record o json l term committed_rev now in
      let (put, same) =
        settle-won s s' mine rec (put_observed o json s (json.marshal mine) cur) e in
      (
        ap (λ (x : LockRecord). put_observed o json s (json.marshal x) cur) same ∙ put,
        ap (λ (x : LockRecord). x.term) same,
      )

  pub won :
      (l : Lock) (floor_term committed_rev now : ℕ) (s s' at_read : o.State) (cur : Observed)
      (rec : LockRecord)
      → read_with_etag o json at_read ≡ ok cur
      → (try_acquire o json l floor_term committed_rev now at_read s ≡ (s', ok (some rec, true)))
        ⊎ (take_over o json l floor_term committed_rev now at_read s ≡ (s', ok (some rec, true)))
      → (put_observed o json s (json.marshal rec) cur ≡ some s')
        × (rec.term ≡ new_term floor_term cur)
  unfolding try_acquire take_over
  won l floor_term committed_rev now s s' at_read cur rec r (inl w) =
      write_atomic-won l (new_term floor_term cur) committed_rev now s s' cur rec
        (held_by_other l cur) (rw (try_acquire, r) at w)
  won l floor_term committed_rev now s s' at_read cur rec r (inr w) =
      write_atomic-won l (new_term floor_term cur) committed_rev now s s' cur rec
        (backs_off l floor_term committed_rev cur) (rw (take_over, r) at w)

  -- A write of the term that was read, under its ETag
  matched-Holds :
      (s s' at_read : o.State) (rec seen : LockRecord) (etag : Bytes) (terms : List ℕ)
      → read_with_etag o json at_read ≡ ok (some (seen, etag))
      → rec.term ≡ seen.term
      → o.put_if_match s lock_key (json.marshal rec) etag ≡ some s'
      → Holds s terms
      → Holds s' terms
  unfolding Holds
  matched-Holds s s' at_read rec seen etag [] r e w h =
      let ((content, was), now) =
        conditional.put_if_match-get s s' lock_key (json.marshal rec) etag w in
      absurd (cc (was, h))
  matched-Holds s s' at_read rec seen etag (t ∷ ts) r e w h =
      let ((content, was), (etag', now)) =
        conditional.put_if_match-get s s' lock_key (json.marshal rec) etag w in
      (rec, etag', now, e ∙ last_term s at_read content etag seen t ts r was h)

  pub touch-Holds :
      (l : Lock) (leader_addr etag : Bytes) (committed_rev now : ℕ) (s s' at_read : o.State)
      (seen : LockRecord) (terms : List ℕ)
      → read_with_etag o json at_read ≡ ok (some (seen, etag))
      → bytes_eq etag [] ≡ false
      → touch_if_match o json l seen.term leader_addr etag committed_rev now s ≡ ok s'
      → Holds s terms
      → Holds s' terms
  unfolding touch_if_match
  touch-Holds l leader_addr etag committed_rev now s s' at_read seen terms r given w h =
      stays terms h (o.put_if_match s lock_key (json.marshal mine) etag) refl (rw given at w)
    where
      mine : LockRecord
      mine = record (lock_record o json l seen.term committed_rev now) { leader_addr = leader_addr }

      stays :
          (terms : List ℕ)
          → Holds s terms
          → (x : Option o.State) → o.put_if_match s lock_key (json.marshal mine) etag ≡ x
          → Path
              (Result ElectionError o.State)
              (elim x [ none ↦ err precondition_failed | some s' ↦ ok s' ])
              (ok s')
          → Holds s' terms
      stays terms h none e w = absurd (cc w)
      stays terms h (some s'') e w =
          let same : s'' ≡ s' = cc w in
          matched-Holds s s' at_read mine seen etag terms r refl (e ∙ ap some same) h
