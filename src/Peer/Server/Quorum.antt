-- ===== src/Peer/Server/Quorum.antt =====
-- What the wait for the followers says when it ends.
use mathlib.Core.List.{Memᴰ}
use mathlib.Core.Option.{some-injective}
use mathlib.Core.Path.{subst}
use t.Prelude.{
  ℕ, ◌+◌, ◌*◌, ◌/◌, ◌≤◌, ◌<◌, ◌≡◌, ◌⊎◌, sym, true, not, ◌&&◌, some, List, [], ◌∷◌, Bytes, ◌==◌, leb,
  length, if◌then◌else◌, arith, Bool-cases, inl, inr,
}
use t.Prelude.Word.{le64}
use t.Peer.Server.{
  Server, wait_quorum, enough, wait_passes, wait_for_followers, required_follower_acks,
  is_connected, ack_rev, ids_of,
}

-- The followers of a list that are connected and have acknowledged a sequence
unfoldable pub acked_by : Server → ℕ → List Bytes → ℕ
acked_by s rev [] = 0
acked_by s rev (id ∷ ids) =
    (if is_connected id s && le64 rev (ack_rev id s) then 1 else 0) + acked_by s rev ids

-- Those that are connected and have not
unfoldable pub waiting_for : Server → ℕ → List Bytes → ℕ
waiting_for s rev [] = 0
waiting_for s rev (id ∷ ids) =
    (if is_connected id s && not (le64 rev (ack_rev id s)) then 1 else 0) + waiting_for s rev ids

-- The early return does not change what is counted.
enough-count :
    (s : Server) (rev target : ℕ) (ids : List Bytes) (acked pending : ℕ)
    → enough s rev target ids acked pending ≡ true
    → (target ≤ acked + acked_by s rev ids) ⊎ (pending + waiting_for s rev ids ≡ 0)
unfolding enough acked_by waiting_for
enough-count s rev target [] acked pending h = ground (arith, h)
enough-count s rev target (id ∷ ids) acked pending h = elim (Bool-cases (is_connected id s)) [
  | inr gone ↦ elim (enough-count s rev target ids acked pending (rw gone at h)) [
    | inl reached ↦ inl (rw gone (omega (arith, reached)))
    | inr none_left ↦ inr (rw gone (omega (arith, none_left)))
  ]
  | inl here ↦ elim (Bool-cases (le64 rev (ack_rev id s))) [
    | inr waits ↦ elim (enough-count s rev target ids acked (pending + 1) (rw (here, waits) at h)) [
      | inl reached ↦ inl (rw (here, waits) (omega (arith, reached)))
      | inr none_left ↦ absurd (omega arith)
    ]
    | inl acks ↦ elim (Bool-cases (leb target (acked + 1))) [
      | inl reached ↦ inl (rw (here, acks) (ground (arith, reached)))
      | inr more ↦
          elim (enough-count s rev target ids (acked + 1) pending (rw (here, acks, more) at h)) [
            | inl reached ↦ inl (rw (here, acks) (omega (arith, reached)))
            | inr none_left ↦ inr (rw (here, acks) (omega (arith, none_left)))
          ]
    ]
  ]
]

wait_passes-enough :
    (rev target : ℕ) (ids : List Bytes) (ss : List Server) (s' : Server)
    → wait_passes rev target ids ss ≡ some s'
    → Memᴰ s' ss × (enough s' rev target ids 0 0 ≡ true)
unfolding wait_passes
wait_passes-enough rev target ids [] s' h = absurd (cc h)
wait_passes-enough rev target ids (s ∷ ss) s' h = elim (Bool-cases (enough s rev target ids 0 0)) [
  | inl done ↦
      let same = some-injective s s' (rw done at h) in
      (Memᴰ.head (sym same), subst (λ x. enough x rev target ids 0 0 ≡ true) same done)
  | inr more ↦
      let (i, done) = wait_passes-enough rev target ids ss s' (rw more at h) in (Memᴰ.tail i, done)
]

-- Where WaitForFollowers returns with no error in the mode of a quorum: at the call or at one of
-- its passes, either the leader and the followers that were connected at the call, are connected
-- still and have acknowledged the sequence are more than half of the leader and the followers
-- connected at the call; or of the latter none is connected still without having acknowledged it.
pub wait_for_followers-quorum :
    (rev : ℕ) (s : Server) (ss : List Server) (s' : Server)
    → wait_for_followers rev wait_quorum s ss ≡ some s'
    → Memᴰ s' (s ∷ ss)
      × ((length s.followers + 1 < 2 * (acked_by s' rev (ids_of s.followers) + 1))
          ⊎ (waiting_for s' rev (ids_of s.followers) ≡ 0))
unfolding wait_for_followers required_follower_acks
wait_for_followers-quorum rev s ss s' h =
    let n = length s.followers in
    elim (Bool-cases ((n + 1) / 2 == 0)) [
      | inl zero ↦
          (Memᴰ.head (sym (some-injective s s' (rw zero at h))), inl (ground (arith, zero)))
      | inr some_needed ↦
          let (i, done) =
            wait_passes-enough rev ((n + 1) / 2) (ids_of s.followers) ss s' (rw some_needed at h) in
          (
            Memᴰ.tail i,
            elim (enough-count s' rev ((n + 1) / 2) (ids_of s.followers) 0 0 done) [
              | inl reached ↦ inl (omega arith)
              | inr none_left ↦ inr (omega arith)
            ],
          )
    ]
