-- ===== src/Store/KeyValue.antt =====
-- internal/store/store.go: the result of a lookup. Numbers are the bit patterns of int64 values.
use t.Prelude.{ℕ, Bytes}
use t.Store.Record.{Record, record_version}

pub record KeyValue : Type 0 where
  pub key : Bytes
  pub value : Bytes
  pub revision : ℕ
  pub create_revision : ℕ
  pub prev_revision : ℕ
  pub version : ℕ
  pub lease : ℕ

unfoldable pub record_to_kv : Bytes → ℕ → Record → KeyValue
unfolding record_version
record_to_kv key rev r = record {
  key = key;
  value = r.value;
  revision = rev;
  create_revision = r.create_revision;
  prev_revision = r.prev_revision;
  version = record_version r;
  lease = r.lease;
}
