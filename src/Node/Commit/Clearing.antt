-- ===== src/Node/Commit/Clearing.antt =====
-- What a round of the commit loop leaves pending.
use t.Prelude.{
  ℕ, ◌≡◌, refl, sym, ap, ◌∙◌, Bool, true, false, Option, none, some, List, [], ◌∷◌, Bytes, not,
  ◌&&◌, ◌||◌, ◌==◌, bytes_eq, bytes_eq_iff, if◌then◌else◌, arith, Bool-cases, inl, inr,
}
use t.Prelude.Dict.{Dict, lookup, lookup-remove}
use t.Wal.{Entry, op_txn}
use t.Wal.TxnOps.{TxnSubOp, decode_txn_ops}
use t.Node.{PendingKv}
use t.Node.Commit.{clear_found, clear_key, clear_ops, decoded_ops, clear_entry, clear_pending_batch}

-- One of the operations writes the key.
unfoldable pub ops_name : List TxnSubOp → Bytes → Bool
ops_name [] key = false
ops_name (op ∷ ops) key = bytes_eq op.key key || ops_name ops key

-- The entry writes the key; an entry with the empty key, such as a compaction, writes none.
unfoldable pub entry_names : Entry → Bytes → Bool
unfolding ops_name
entry_names e key =
    if e.op == op_txn
    then ops_name (decoded_ops (decode_txn_ops e.value)) key
    else not (bytes_eq e.key []) && bytes_eq e.key key

-- An entry of the batch writes the key at the revision.
unfoldable pub batch_writes : List Entry → Bytes → ℕ → Bool
unfolding entry_names
batch_writes [] key rev = false
batch_writes (e ∷ es) key rev = (entry_names e key && rev == e.revision) || batch_writes es key rev

-- What is left of a pending value, by whether it is cleared.
abbrev pub unless_written : (ℕ → Bool) → Option PendingKv → Option PendingKv
unless_written cleared none = none
unless_written cleared (some p) = if cleared p.rev then none else some p

unless_written-false : (o : Option PendingKv) → unless_written (λ r. false) o ≡ o
unless_written-false none = refl
unless_written-false (some p) = refl

-- The test of clear_key, once the key is looked up.
clear_found-lookup :
    (key j : Bytes) (rev : ℕ) (m : Dict PendingKv) (o : Option PendingKv)
    → lookup key m ≡ o
    → lookup j (clear_found key rev m o)
      ≡ unless_written (λ r. bytes_eq key j && r == rev) (lookup j m)
clear_found-lookup key j rev m o e = elim (Bool-cases (bytes_eq key j)) [
  | inl same ↦
      let at_j : lookup j m ≡ o = ap (λ k. lookup k m) (sym ((bytes_eq_iff key j).0 same)) ∙ e in
      found o same at_j
  | inr other ↦ other_key o other
]
  where
    found :
        (o : Option PendingKv)
        → bytes_eq key j ≡ true
        → lookup j m ≡ o
        → lookup j (clear_found key rev m o)
          ≡ unless_written (λ r. bytes_eq key j && r == rev) (lookup j m)
    found none same at = rw at refl
    found (some p) same at = elim (Bool-cases (p.rev == rev)) [
      | inl hit ↦ rw (hit, lookup-remove key j m, at, same, hit) refl
      | inr miss ↦ rw (miss, at, same, miss) refl
    ]

    other_key :
        (o : Option PendingKv)
        → bytes_eq key j ≡ false
        → lookup j (clear_found key rev m o)
          ≡ unless_written (λ r. bytes_eq key j && r == rev) (lookup j m)
    other_key none other = rw other (sym (unless_written-false (lookup j m)))
    other_key (some p) other = elim (Bool-cases (p.rev == rev)) [
      | inl hit ↦ rw (hit, lookup-remove key j m, other) (sym (unless_written-false (lookup j m)))
      | inr miss ↦ rw (miss, other) (sym (unless_written-false (lookup j m)))
    ]

-- Two rounds of clearing are one, for a value that either clears.
unless_written-twice :
    (f g : ℕ → Bool) (o : Option PendingKv)
    → unless_written g (unless_written f o) ≡ unless_written (λ r. f r || g r) o
unless_written-twice f g none = refl
unless_written-twice f g (some p) = elim (Bool-cases (f p.rev)) [
  | inl hit ↦ rw hit refl
  | inr miss ↦ rw miss refl
]

same_test :
    (f g : ℕ → Bool) (o : Option PendingKv)
    → ((r : ℕ) → f r ≡ g r)
    → unless_written f o ≡ unless_written g o
same_test f g none h = refl
same_test f g (some p) h = rw (h p.rev) refl

clear_ops-lookup :
    (ops : List TxnSubOp) (rev : ℕ) (m : Dict PendingKv) (j : Bytes)
    → lookup j (clear_ops ops rev m) ≡ unless_written (λ r. ops_name ops j && r == rev) (lookup j m)
unfolding clear_ops clear_key ops_name
clear_ops-lookup [] rev m j = sym (unless_written-false (lookup j m))
clear_ops-lookup (op ∷ ops) rev m j =
    clear_ops-lookup ops rev (clear_key op.key rev m) j
    ∙ ap (unless_written (λ r. ops_name ops j && r == rev))
        (clear_found-lookup op.key j rev m (lookup op.key m) refl)
    ∙ unless_written-twice (λ r. bytes_eq op.key j && r == rev) (λ r. ops_name ops j && r == rev)
        (lookup j m)
    ∙ same_test _ _ (lookup j m) (λ r. both (bytes_eq op.key j) (ops_name ops j) (r == rev))
  where
    both : (a b c : Bool) → (a && c || b && c) ≡ ((a || b) && c)
    both a b c = ground arith

clear_entry-lookup :
    (e : Entry) (m : Dict PendingKv) (j : Bytes)
    → lookup j (clear_entry e m)
      ≡ unless_written (λ r. entry_names e j && r == e.revision) (lookup j m)
unfolding clear_entry clear_key entry_names
clear_entry-lookup e m j = elim (Bool-cases (e.op == op_txn)) [
  | inl txn ↦ rw txn (clear_ops-lookup (decoded_ops (decode_txn_ops e.value)) e.revision m j)
  | inr single ↦ elim (Bool-cases (bytes_eq e.key [])) [
    | inl unnamed ↦ rw (single, unnamed) (sym (unless_written-false (lookup j m)))
    | inr named ↦ rw (single, named) (clear_found-lookup e.key j e.revision m (lookup e.key m) refl)
  ]
]

-- After a batch is cleared, a pending value is gone exactly if an entry of the batch writes its
-- key at its revision; a newer value of the key stays, and so do the other keys. An entry with
-- the empty key clears nothing.
pub clear_pending_batch-lookup :
    (batch : List Entry) (m : Dict PendingKv) (j : Bytes)
    → lookup j (clear_pending_batch batch m)
      ≡ unless_written (λ r. batch_writes batch j r) (lookup j m)
unfolding clear_pending_batch batch_writes
clear_pending_batch-lookup [] m j = sym (unless_written-false (lookup j m))
clear_pending_batch-lookup (e ∷ es) m j =
    clear_pending_batch-lookup es (clear_entry e m) j
    ∙ ap (unless_written (λ r. batch_writes es j r)) (clear_entry-lookup e m j)
    ∙ unless_written-twice (λ r. entry_names e j && r == e.revision) (λ r. batch_writes es j r)
        (lookup j m)
