-- ===== src/Tests/StoreTests.antt =====
-- Runs of the store's keys and records.
use t.Prelude.{◌≡◌, refl, false, ascii, arith, AreBytes}
use t.Result.{ok}
use t.Store.Record.{looks_valid, Record, marshal_record, unmarshal_record}
use t.Store.Record.RoundTrip.{Fits, unmarshal_record-marshal_record}

a_bytes : AreBytes (ascii "a")
a_bytes = (omega arith, tt)

ab_bytes : AreBytes (ascii "ab")
ab_bytes = (omega arith, (omega arith, tt))

abbrev entry : Record
entry = record {
  key = ascii "a";
  value = ascii "1";
  create_revision = 3;
  prev_revision = 5;
  version = 2;
  lease = 0;
  create = false;
  delete = false;
}

unmarshal_record-marshal_record_example : unmarshal_record (marshal_record entry) ≡ ok entry
unfolding looks_valid
unmarshal_record-marshal_record_example = unmarshal_record-marshal_record entry fits refl
  where
    fits : Fits entry
    fits = record {
      create_fits = omega arith;
      prev_fits = omega arith;
      version_fits = omega arith;
      lease_fits = omega arith;
      key_fits = omega arith;
    }
