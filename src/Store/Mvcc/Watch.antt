-- ===== src/Store/Mvcc/Watch.antt =====
-- What a watch delivers, over the stores that it finds when it wakes.
use mathlib.Core.List.{Memᴰ}
use mathlib.Core.List.Memᴰ
use mathlib.Core.Path.{subst}
use t.Prelude.{
  ℕ, ◌+◌, ◌≤◌, ◌<◌, ◌≡◌, refl, sym, ap, ◌∙◌, inl, inr, Bool, true, List, [], ◌∷◌, ◌++◌, Bytes,
  has_prefix, arith, Bool-cases, leb, All,
}
use t.Prelude.Word.{sign_bit, lt64, add64}
use t.Result.{Result, ok}
use t.Store.Record.{Record}
use t.Store.Pebble.{Pebble, Lawful}
use t.Store.Apply.{Store, StoreError}
use t.Store.Scan.{Event, event_of, scan_log, watch_loop, watch}
use t.Store.Mvcc.{Holds, Current}
use t.Store.Mvcc.Past.{History}
use t.Store.Mvcc.Stored.{IsStored}
use t.Store.Mvcc.Events.{AreRising, scan_log_iff}

-- A store that stands for some map, with a revision left
abbrev pub IsSound : (p : Pebble) → Store p → Type 0
IsSound p s =
    (s.current_rev + 1 < sign_bit)
    × (m : Current) × (low : ℕ) × (hist : History) × IsStored p s m low hist

AreRising-append :
    (xs ys : List Event)
    → AreRising xs
    → AreRising ys
    → ((x y : Event) → Memᴰ x xs → Memᴰ y ys → x.kv.revision < y.kv.revision)
    → AreRising (xs ++ ys)
AreRising-append [] ys hx hy apart = hy
AreRising-append (x ∷ xs) ys (first, hx) hy apart = (
  (λ y i. elim (Memᴰ.append_cases xs i) [
    | inl j ↦ first y j
    | inr j ↦ apart x y (Memᴰ.head refl) j
  ]),
  AreRising-append xs ys hx hy (λ x y i j. apart x y (Memᴰ.tail i) j),
)

module _ (p : Pebble) (lawful : Lawful p) (prefix : Bytes) (with_prev_kv : Bool) where
  event_revision :
      (db : p.Db) (rev : ℕ) (r : Record) → (event_of p db with_prev_kv rev r).kv.revision ≡ rev
  unfolding event_of
  event_revision db rev r = refl

  -- What a watch from `next_rev` on has to deliver
  record Delivers (next_rev : ℕ) (ss : List (Store p)) (out : List Event) : Type 0 where
    rising : AreRising out
    from_next : (ev : Event) → Memᴰ ev out → next_rev ≤ ev.kv.revision
    complete :
        (rev : ℕ) (r : Record) (s : Store p)
        → next_rev ≤ rev
        → has_prefix r.key prefix ≡ true
        → Memᴰ s ss
        → rev ≤ s.current_rev
        → ((s' : Store p) → Memᴰ s' ss → rev ≤ s'.current_rev → Holds (p.get s'.db) rev r)
        → (s' : Store p) × Memᴰ (event_of p s'.db with_prev_kv rev r) out

  waits :
      (next_rev : ℕ) (s : Store p) (ss : List (Store p)) (out : List Event)
      → s.current_rev < next_rev
      → Delivers next_rev ss out
      → Delivers next_rev (s ∷ ss) out
  waits next_rev s ss out below d = record {
    rising = d.rising;
    from_next = d.from_next;
    complete = λ rev r x ge under i le held. elim i [
      | Memᴰ.head e ↦ absurd (omega (arith, below, ge, le, ap (λ (y : Store p). y.current_rev) e))
      | Memᴰ.tail j ↦ d.complete rev r x ge under j le (λ s' k. held s' (Memᴰ.tail k))
    ];
  }

  -- The window that is scanned, then the rest
  scans :
      (next_rev : ℕ) (s : Store p) (ss : List (Store p)) (evs rest : List Event) (m : Current)
      (low : ℕ) (hist : History)
      → IsStored p s m low hist
      → next_rev ≤ s.current_rev
      → scan_log p s.db prefix next_rev s.current_rev with_prev_kv ≡ ok evs
      → Delivers (s.current_rev + 1) ss rest
      → Delivers next_rev (s ∷ ss) (evs ++ rest)
  scans next_rev s ss evs rest m low hist stored above done d =
      let (evs', done', rising, all, only) =
        scan_log_iff p lawful s m low hist prefix next_rev s.current_rev with_prev_kv stored
          (omega (arith, above, stored.fits)) stored.fits in
      let same : evs' ≡ evs = ok_inj (sym done' ∙ done) in
      let revision = λ (x : Event) (i : Memᴰ x evs).
        (let (rev, r, ge, le, holds, under, e) = only x (subst (Memᴰ x) (sym same) i) in
          (between next_rev s.current_rev x rev r e ge le)) in
      record {
        rising =
            AreRising-append evs rest (subst AreRising same rising) d.rising
              (λ x y i j. omega (arith, (revision x i).1, d.from_next y j));
        from_next = λ ev i. elim (Memᴰ.append_cases evs i) [
          | inl j ↦ (revision ev j).0
          | inr j ↦ omega (arith, above, d.from_next ev j)
        ];
        complete = λ rev r x ge under i le held. elim (Bool-cases (leb rev s.current_rev)) [
          | inl now ↦ (
            s,
            Memᴰ.append_left rest (
                subst (Memᴰ _) same (
                  all rev r ge (ground (arith, now)) (held s (Memᴰ.head refl) (ground (arith, now)))
                    under)),
          )
          | inr later ↦ elim i [
            | Memᴰ.head e ↦
                absurd (ground (arith, later, le, ap (λ (y : Store p). y.current_rev) e))
            | Memᴰ.tail j ↦
                let (s', k) =
                  d.complete rev r x (ground (arith, later)) under j le
                    (λ s' k. held s' (Memᴰ.tail k)) in
                (s', Memᴰ.append_right evs k)
          ]
        ];
      }
    where
      ok_inj : {a b : List Event} → Path (Result StoreError (List Event)) (ok a) (ok b) → a ≡ b
      ok_inj h = cc h

      between :
          (lo hi : ℕ) (x : Event) (rev : ℕ) (r : Record)
          → x ≡ event_of p s.db with_prev_kv rev r
          → lo ≤ rev
          → rev ≤ hi
          → (lo ≤ x.kv.revision) × (x.kv.revision ≤ hi)
      between lo hi x rev r e ge le =
          let same = ap (λ (y : Event). y.kv.revision) e ∙ event_revision s.db rev r in
          (omega (arith, same, ge), omega (arith, same, le))

  watch_loop-Delivers :
      (next_rev : ℕ) (ss : List (Store p))
      → next_rev < sign_bit
      → All (IsSound p) ss
      → Delivers next_rev ss (watch_loop p prefix with_prev_kv next_rev ss)
  unfolding watch_loop
  watch_loop-Delivers next_rev [] small all = record {
    rising = tt;
    from_next = λ ev i. absurd (Memᴰ.not-nil i);
    complete = λ rev r s ge under i le held. absurd (Memᴰ.not-nil i);
  }
  watch_loop-Delivers next_rev (s ∷ ss) small ((left, m, low, hist, stored), all) =
      elim (Bool-cases (lt64 s.current_rev next_rev)) [
        | inl below ↦
            rw (watch_loop, below)
              (waits next_rev s ss (watch_loop p prefix with_prev_kv next_rev ss)
                (ground (arith, below, small, stored.fits))
                (watch_loop-Delivers next_rev ss small all))
        | inr reached ↦
            let (evs, done, rising, every, only) =
              scan_log_iff p lawful s m low hist prefix next_rev s.current_rev with_prev_kv stored
                small stored.fits in
            let one_more : add64 s.current_rev 1 ≡ s.current_rev + 1 = omega (arith, left) in
            rw (watch_loop, reached, done, one_more)
              (scans next_rev s ss evs (watch_loop p prefix with_prev_kv (s.current_rev + 1) ss) m
                low hist stored (ground (arith, reached, small, stored.fits)) done
                (watch_loop-Delivers (s.current_rev + 1) ss left all))
      ]

  -- A watch from a revision below 2 ^ 63 - 1 on, over stores that each stand for some map and have a
  -- revision left, delivers events whose revisions rise strictly; and a record under a key with the
  -- prefix, above the start, that one of the stores has reached and that every store that has
  -- reached its revision holds, is delivered.
  pub watch_delivers :
      (start_rev : ℕ) (ss : List (Store p)) (rev : ℕ) (r : Record) (s : Store p)
      → start_rev < rev
      → start_rev + 1 < sign_bit
      → All (IsSound p) ss
      → has_prefix r.key prefix ≡ true
      → Memᴰ s ss
      → rev ≤ s.current_rev
      → ((s' : Store p) → Memᴰ s' ss → rev ≤ s'.current_rev → Holds (p.get s'.db) rev r)
      → AreRising (watch p prefix start_rev with_prev_kv ss)
        × ((s' : Store p) × Memᴰ
              (event_of p s'.db with_prev_kv rev r)
              (watch p prefix start_rev with_prev_kv ss))
  unfolding watch
  watch_delivers start_rev ss rev r s above small all under i le held =
      let one_more : add64 start_rev 1 ≡ start_rev + 1 = omega (arith, small) in
      let d = watch_loop-Delivers (start_rev + 1) ss small all in
      rw one_more (d.rising, d.complete rev r s (omega (arith, above)) under i le held)
