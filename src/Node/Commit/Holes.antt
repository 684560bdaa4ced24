-- ===== src/Node/Commit/Holes.antt =====
-- A batch that is given up leaves a hole in the log.
use t.Prelude.{
  ℕ, ◌+◌, ◌<◌, ◌^◌, ◌≡◌, refl, sym, ap, ◌∙◌, Option, some, List, [], ◌∷◌, ◌++◌, arith, inl, inr,
  length,
}
use t.Prelude.Word.{add64}
use t.Wal.{Entry, sequence}
use t.Node.{Database, Node}
use t.Node.Commands.{Command, exec}
use t.Node.Commands.Step.{Step, NamesKey, exec-Step}
use t.Node.Commit.{Leader, commit_batch, logged, abandoned}
use t.Replay.{find_hole, missing_sequence}

abbrev first_id : List Entry → ℕ
first_id [] = 0
first_id (e ∷ es) = e.id

-- A command that leaves one entry in an empty queue gave it the next sequence.
sent-Step :
    {Db : Type 0} {n n' : Node Db} (e : Entry)
    → n.write_c ≡ []
    → n'.write_c ≡ e ∷ []
    → Step n n'
    → (e.id ≡ add64 n.next_seq 1) × (n'.next_seq ≡ e.id)
sent-Step e empty one (inl same) =
    let one_is_none : 1 ≡ 0 =
      ap (λ (q : List Entry). length q) (sym one ∙ ap (λ m. m.write_c) same ∙ empty) in
    absurd (omega (arith, one_is_none))
sent-Step e empty one (inr a) =
    let same_id : e.id ≡ a.entry.id =
      sym (ap first_id one)
      ∙ ap first_id a.sent
      ∙ ap (λ (q : List Entry). first_id (q ++ a.entry ∷ [])) empty in
    (same_id ∙ a.seq, a.next_seq ∙ sym same_id)

module _ (b : Database) (apply : b.Db → List Entry → Option b.Db) (l : Leader b.Db) where
  -- One command, then a round of the commit loop that ends so
  abbrev pub after_abandoned : Command → Leader b.Db
  after_abandoned c = commit_batch apply (record l { node = exec b l.node c }) abandoned

  abbrev pub after_both : Command → Command → Leader b.Db
  after_both c d =
      let l' = after_abandoned c in
      commit_batch apply (record l' { node = exec b l'.node d }) logged

  -- From an empty queue and sequences that do not wrap: a write whose batch is abandoned, since a
  -- caller gave up, keeps its sequence: the next write is logged with a sequence that is one too
  -- high, and a replay of the log from there refuses it. The commands may not delete the empty key.
  pub abandoned_leaves_hole :
      (c d : Command) (first second : Entry)
      → NamesKey c
      → NamesKey d
      → l.node.next_seq + 2 < 2 ^ 64
      → l.node.write_c ≡ []
      → (exec b l.node c).write_c ≡ first ∷ []
      → (exec b (after_abandoned c).node d).write_c ≡ second ∷ []
      → ((after_both c d).log ≡ l.log ++ second ∷ [])
        × (find_hole (l.node.next_seq + 1) (second ∷ [])
            ≡ some (missing_sequence (l.node.next_seq + 1) (l.node.next_seq + 2)))
  unfolding commit_batch find_hole sequence
  abandoned_leaves_hole c d first second hc hd fits empty one two =
      let (id1, seq1) = sent-Step first empty one (exec-Step b l.node c hc) in
      let (id2, seq2) = sent-Step second refl two (exec-Step b (after_abandoned c).node d hd) in
      let next : second.id ≡ l.node.next_seq + 2 =
        id2 ∙ ap (λ (x : ℕ). add64 x 1) (seq1 ∙ id1) ∙ omega (arith, fits) in
      (ap (λ (q : List Entry). l.log ++ q) two, rw next (ground arith))
