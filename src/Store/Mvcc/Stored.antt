-- ===== src/Store/Mvcc/Stored.antt =====
-- The store between two batches: it stands for the current map and for those at earlier revisions.
use t.Prelude.{ℕ, ◌≤◌, ◌<◌}
use t.Prelude.Word.{sign_bit}
use t.Store.Pebble.{Pebble}
use t.Store.Apply.{Store}
use t.Store.Mvcc.{Current, Represents}
use t.Store.Mvcc.Past.{History, Remembers}

-- `low` is the highest revision that the store was compacted at.
pub record IsStored (p : Pebble) (s : Store p) (m : Current) (low : ℕ) (hist : History)
    : Type 0 where
  pub represents : Represents (p.get s.db) (p.get s.db) s.current_rev m
  pub remembers : Remembers (p.get s.db) (p.get s.db) low hist
  pub fits : s.current_rev < sign_bit
  pub compacted : s.compact_rev ≤ low
  pub low_fits : low < sign_bit
