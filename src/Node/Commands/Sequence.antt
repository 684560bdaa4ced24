-- ===== src/Node/Commands/Sequence.antt =====
-- The entries that are sent to the commit loop carry consecutive sequences and revisions.
use t.Prelude.{ℕ, ◌≡◌, refl, sym, ap, ◌∙◌, inl, inr, List, [], ◌∷◌, ◌++◌, All}
use t.Prelude.Word.{add64}
use t.Wal.{Entry}
use t.Node.{Database, Node}
use t.Node.Commands.{Command, exec, run}
use t.Node.Commands.Step.{Step, NamesKey, exec-Step, follows_rev}

-- The entries, oldest first, lead from one pair of counters to another.
abbrev pub Leads : ℕ → ℕ → List Entry → ℕ → ℕ → Type 0
Leads seq rev [] seq' rev' = (seq ≡ seq') × (rev ≡ rev')
Leads seq rev (e ∷ es) seq' rev' =
    (e.id ≡ add64 seq 1) × (e.revision ≡ follows_rev e rev) × Leads e.id e.revision es seq' rev'

Leads-snoc :
    (seq rev : ℕ) (es : List Entry) (s r : ℕ) (e : Entry)
    → Leads seq rev es s r
    → e.id ≡ add64 s 1
    → e.revision ≡ follows_rev e r
    → Leads seq rev (es ++ e ∷ []) e.id e.revision
Leads-snoc seq rev [] s r e (p, q) hs hr =
    (hs ∙ ap (λ (x : ℕ). add64 x 1) (sym p), hr ∙ ap (follows_rev e) (sym q), (refl, refl))
Leads-snoc seq rev (d ∷ es) s r e (p, q, h) hs hr =
    (p, q, Leads-snoc d.id d.revision es s r e h hs hr)

Step-Leads :
    {Db : Type 0} (seq rev : ℕ) {n n' : Node Db}
    → Step n n'
    → Leads seq rev n.write_c n.next_seq n.next_rev
    → Leads seq rev n'.write_c n'.next_seq n'.next_rev
Step-Leads seq rev (inl same) h = rw same h
Step-Leads seq rev {n} (inr a) h =
    rw (a.sent, a.next_seq, a.next_rev)
      (Leads-snoc seq rev n.write_c n.next_seq n.next_rev a.entry h a.seq a.rev)

-- From a node whose queue leads from a pair of counters to the node's own, any writes, refused or
-- not, leave such a queue: the entries carry consecutive sequences, and consecutive revisions but
-- for compactions, with no gap. The writes may not delete the empty key.
pub run-Leads :
    (b : Database) (seq rev : ℕ) (cs : List Command) (n : Node b.Db)
    → All NamesKey cs
    → Leads seq rev n.write_c n.next_seq n.next_rev
    → Leads seq rev (run b n cs).write_c (run b n cs).next_seq (run b n cs).next_rev
unfolding run
run-Leads b seq rev [] n names h = h
run-Leads b seq rev (c ∷ cs) n names h =
    run-Leads b seq rev cs (exec b n c) names.1 (Step-Leads seq rev (exec-Step b n c names.0) h)
