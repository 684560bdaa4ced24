-- ===== src/Election/Runs.antt =====
-- Runs of several nodes that contend for the lock, and the terms that they win.
use mathlib.Core.List.{Memᴰ}
use t.Prelude.{ℕ, ◌≡◌, ◌⊎◌, true, false, none, some, List, [], ◌∷◌, Bytes, bytes_eq}
use t.Result.{ok}
use t.Object.{ConditionalStore, IsConditional}
use t.Election.{
  Lock, LockRecord, LockJson, Observed, lock_key, read_with_etag, try_acquire, take_over,
  touch_if_match,
}
use t.Election.Winning.{TermFits, AreDescending, Holds, write-Holds, won, touch-Holds}

module _ (o : ConditionalStore) (json : LockJson) where
  -- The states that the store has been in, the newest first, and the terms that were won. A node
  -- reads the lock in one of them and writes it in the newest.
  pub data Run : List o.State → List ℕ → Type 0 where
    absent : (s : o.State) → o.get_etag s lock_key ≡ none → Run (s ∷ []) []
    acquire :
        (l : Lock) (floor_term committed_rev now : ℕ) (s s' at_read : o.State) (cur : Observed)
        (rec : LockRecord) (past : List o.State) (terms : List ℕ)
        → Run (s ∷ past) terms
        → Memᴰ at_read (s ∷ past)
        → read_with_etag o json at_read ≡ ok cur
        → TermFits floor_term cur
        → (try_acquire o json l floor_term committed_rev now at_read s ≡ (s', ok (some rec, true)))
          ⊎ (take_over o json l floor_term committed_rev now at_read s ≡ (s', ok (some rec, true)))
        → Run (s' ∷ s ∷ past) (rec.term ∷ terms)
    -- The leader that finds its own term in the lock
    touched :
        (l : Lock) (leader_addr etag : Bytes) (committed_rev now : ℕ) (s s' at_read : o.State)
        (rec : LockRecord) (past : List o.State) (terms : List ℕ)
        → Run (s ∷ past) terms
        → Memᴰ at_read (s ∷ past)
        → read_with_etag o json at_read ≡ ok (some (rec, etag))
        → bytes_eq etag [] ≡ false
        → touch_if_match o json l rec.term leader_addr etag committed_rev now s ≡ ok s'
        → Run (s' ∷ s ∷ past) terms

  module _ (conditional : IsConditional o)
      (json_back : (rec : LockRecord) → json.decode (json.marshal rec) ≡ some rec) where
    HoldsAt : List o.State → List ℕ → Type 0
    HoldsAt [] terms = Unit
    HoldsAt (s ∷ past) terms = Holds o json conditional json_back s terms × AreDescending terms

    Run-Holds : (states : List o.State) (terms : List ℕ) → Run states terms → HoldsAt states terms
    unfolding HoldsAt Holds
    Run-Holds _ _ (absent s e) = (e, tt)
    Run-Holds _ _
          (acquire l floor_term committed_rev now s s' at_read cur rec past terms run i r fits w) =
        let (put, term) =
          won o json conditional json_back l floor_term committed_rev now s s' at_read cur rec r
            w in
        write-Holds o json conditional json_back s s' at_read rec floor_term cur terms r fits term
          (Run-Holds (s ∷ past) terms run) put
    Run-Holds _ _
          (touched l leader_addr etag committed_rev now s s' at_read rec past terms run i r given
            w) =
        let (h, d) = Run-Holds (s ∷ past) terms run in
        (
          touch-Holds o json conditional json_back l leader_addr etag committed_rev now s s' at_read
              rec terms r given w h,
          d,
        )

    -- In every run of nodes that start from an absent lock, acquire it or take it over by a read in
    -- some state and a conditional write in a later one, and touch it under an ETag they have read,
    -- with terms that do not wrap, the terms that are won rise strictly: no two are equal. The
    -- lock is not released in between.
    pub Run-AreDescending :
        (s : o.State) (past : List o.State) (terms : List ℕ)
        → Run (s ∷ past) terms
        → AreDescending terms
    unfolding HoldsAt
    Run-AreDescending s past terms run = (Run-Holds (s ∷ past) terms run).1
