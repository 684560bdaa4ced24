-- ===== src/Peer/Follower/Applied.antt =====
-- What a follower applies, whatever it receives.
use t.Prelude.{
  ℕ, ◌≡◌, refl, sym, ap, ◌∙◌, true, not, ◌&&◌, some, List, [], ◌∷◌, ◌++◌, if◌then◌else◌, arith,
  Bool-cases, Option-cases, inl, inr, ltb, leb, ◌+◌,
}
use t.Prelude.Word.{add64, lt64}
use t.Wal.{Entry, sequence}
use t.Peer.Stream.{WalEntryMsg, last_sequence}
use t.Peer.Follower.{
  Follower, Calls, Session, is_consecutive, is_range, deliver, resync_required, on_commit, on_msg,
  on_msgs, follow_once, follow, is_final,
}

-- The sequence after those of a list that starts at the number given
abbrev pub next_after : ℕ → List Entry → ℕ
next_after start [] = start
next_after start (e ∷ es) = next_after (add64 start 1) es

is_consecutive-append :
    (start : ℕ) (xs ys : List Entry)
    → is_consecutive start xs ≡ true
    → is_consecutive (next_after start xs) ys ≡ true
    → is_consecutive start (xs ++ ys) ≡ true
unfolding is_consecutive
is_consecutive-append start [] ys h k = k
is_consecutive-append start (x ∷ xs) ys h k =
    ground (arith, h, is_consecutive-append (add64 start 1) xs ys, k)

next_after-append :
    (start : ℕ) (xs ys : List Entry)
    → next_after start (xs ++ ys) ≡ next_after (next_after start xs) ys
next_after-append start [] ys = refl
next_after-append start (x ∷ xs) ys = next_after-append (add64 start 1) xs ys

-- The last sequence of a consecutive list
last_sequence-next_after :
    (start d : ℕ) (e : Entry) (es : List Entry)
    → is_consecutive start (e ∷ es) ≡ true
    → add64 (last_sequence d (e ∷ es)) 1 ≡ next_after start (e ∷ es)
unfolding is_consecutive
last_sequence-next_after start d e [] h = ground (arith, h)
last_sequence-next_after start d e (x ∷ es) h =
    last_sequence-next_after (add64 start 1) (sequence e) x es (ground (arith, h))

-- What was applied is consecutive from the start on, and `node_rev` is what comes after it.
pub record Holds (start : ℕ) (f : Follower) : Type 0 where
  pub consecutive : is_consecutive start f.applied ≡ true
  pub next : f.node_rev ≡ next_after start f.applied

module _ (start : ℕ) where
  deliver-Holds :
      (calls : Calls) (from : ℕ) (e : Entry) (es rest : List Entry) (f : Follower)
      → Holds start f
      → Holds start (deliver calls from (e ∷ es) rest f).0
  unfolding deliver
  deliver-Holds calls from e es rest f h = elim (Bool-cases (is_consecutive f.node_rev (e ∷ es))) [
    | inr refused ↦ rw refused (record { consecutive = h.consecutive; next = h.next })
    | inl taken ↦ elim (Bool-cases calls.appends) [
      | inr failed ↦ rw (taken, failed) (record { consecutive = h.consecutive; next = h.next })
      | inl logged ↦ elim (Bool-cases calls.sends) [
        | inr failed ↦
            rw (taken, logged, failed) (record { consecutive = h.consecutive; next = h.next })
        | inl acked ↦ elim (Bool-cases calls.applies) [
          | inr failed ↦
              rw (taken, logged, acked, failed)
                (record { consecutive = h.consecutive; next = h.next })
          | inl applied ↦
              let goes_on = rw h.next at taken in
              rw (taken, logged, acked, applied)
                record {
                  consecutive =
                      is_consecutive-append start f.applied (e ∷ es) h.consecutive goes_on;
                  next =
                      last_sequence-next_after f.node_rev from e es taken
                      ∙ ap (λ n. next_after n (e ∷ es)) h.next
                      ∙ sym (next_after-append start f.applied (e ∷ es));
                }
        ]
      ]
    ]
  ]

  range-Holds :
      (calls : Calls) (from rev : ℕ) (batch rest : List Entry) (f : Follower)
      → Holds start f
      → Holds start
          (if not (is_range from rev batch && is_consecutive from batch)
            then (f, some resync_required)
            else deliver calls from batch rest f).0
  unfolding is_range
  range-Holds calls from rev [] rest f h = h
  range-Holds calls from rev (e ∷ es) rest f h =
      elim (Bool-cases (is_range from rev (e ∷ es) && is_consecutive from (e ∷ es))) [
        | inr refused ↦ rw refused h
        | inl taken ↦ rw taken (deliver-Holds calls from e es rest f h)
      ]

  on_msg-Holds :
      (calls : Calls) (m : WalEntryMsg) (f : Follower)
      → Holds start f
      → Holds start (on_msg calls m f).0
  unfolding on_msg on_commit
  on_msg-Holds calls m f h = elim (Bool-cases m.commit) [
    | inr entry ↦ rw entry (record { consecutive = h.consecutive; next = h.next })
    | inl commit ↦ elim (Bool-cases (lt64 m.commit_revision f.next_rev)) [
      | inl old ↦ rw (commit, old) h
      | inr new ↦ rw (commit, new) (range-Holds calls _ m.commit_revision _ _ f h)
    ]
  ]

  on_msgs-Holds :
      (ms : List (Calls × WalEntryMsg)) (f : Follower)
      → Holds start f
      → Holds start (on_msgs ms f).0
  unfolding on_msgs
  on_msgs-Holds [] f h = h
  on_msgs-Holds ((calls, m) ∷ ms) f h = elim (Option-cases (on_msg calls m f).1) [
    | inl went ↦
        rw (went, on_msgs) (on_msgs-Holds ms (on_msg calls m f).0 (on_msg-Holds calls m f h))
    | inr (e, failed) ↦ rw (failed, on_msgs) (on_msg-Holds calls m f h)
  ]

  -- Whatever messages a follower takes in any number of sessions, and whichever of its appends,
  -- acknowledgements and applies fail: the sequences of the entries that it has applied are
  -- consecutive from the start on, if they were before, and the next one it takes comes after them.
  pub follow-Holds :
      (max_retries failures : ℕ) (ss : List Session) (f : Follower)
      → Holds start f
      → Holds start (follow max_retries failures ss f).0
  unfolding follow follow_once
  follow-Holds max_retries failures [] f h = h
  follow-Holds max_retries failures (s ∷ ss) f h =
      let f' = (follow_once s f).0 in
      let e = (follow_once s f).1 in
      let failures' = if lt64 f.next_rev f'.next_rev then 0 else failures + 1 in
      let held : Holds start f' =
        on_msgs-Holds s.msgs (record f { staged = [] })
          (record { consecutive = h.consecutive; next = h.next }) in
      elim (Bool-cases (is_final e)) [
        | inl final ↦ rw final held
        | inr goes_on ↦ elim (Bool-cases (ltb 0 max_retries && leb max_retries failures')) [
          | inl gave_up ↦ rw (goes_on, gave_up) held
          | inr again ↦ rw (goes_on, again) (follow-Holds max_retries failures' ss f' held)
        ]
      ]
