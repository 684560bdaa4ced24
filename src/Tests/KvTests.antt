-- ===== src/Tests/KvTests.antt =====
-- Runs of Range over a node that holds a list of values, one of them internal.
use t.Prelude.{
  ◌≡◌, refl, true, false, none, List, [], ◌∷◌, ◌++◌, has_prefix, if◌then◌else◌, length, Bytes,
  bytes_eq, ascii, arith,
}
use t.Result.{ok, err}
use t.Store.KeyValue.{KeyValue}
use t.Checkpoint.{contains}
use t.Lease.{LeaseJson, internal_prefix, invalid_argument, not_found}
use t.Kv.{RangeNode, RangeRequest, range, range_guard, kv_to_proto, prefix_range_end}
use t.Kv.Matches.{cut, under, wanted}
use t.Kv.Writes.{WriteNode, refused, delete_range, put}
use t.Kv.Listed.{answer, range-answer}

abbrev value_at : Bytes → KeyValue
value_at key = record {
  key = key;
  value = ascii "v";
  revision = 4;
  create_revision = 4;
  prev_revision = 0;
  version = 1;
  lease = 0;
}

abbrev list_node : RangeNode
list_node = record {
  State = List KeyValue;
  compact_revision = λ s. 0;
  current_revision = λ s. 4;
  is_serializable = λ s. false;
  get = λ lin s key rev. ok none;
  exists = λ lin s key rev. ok false;
  list = λ lin s prefix limit rev. ok (cut limit (under prefix s));
  count = λ lin s prefix rev. ok (length (under prefix s));
}

abbrev four_values : List KeyValue
four_values =
    value_at internal_prefix
    ∷ value_at (ascii "a1")
    ∷ value_at (ascii "a2")
    ∷ value_at (ascii "b")
    ∷ []

abbrev one_of_prefix : RangeRequest
one_of_prefix = record {
  key = ascii "a";
  range_end = ascii "b";
  limit = 1;
  revision = 0;
  serializable = false;
  keys_only = false;
  count_only = false;
}

first_of_two :
    range list_node four_values one_of_prefix
    ≡ ok record {
      revision = 5;
      kvs = kv_to_proto (value_at (ascii "a1")) ∷ [];
      count = 2;
      more = true;
    }
unfolding range under kv_to_proto
first_of_two = refl

all_but_internal :
    range list_node four_values
      record one_of_prefix { key = 0 ∷ []; range_end = 0 ∷ []; count_only = true }
    ≡ ok record { revision = 5; kvs = []; count = 3; more = false }
unfolding range under
all_but_internal = refl

end_of_last_byte : prefix_range_end (ascii "a" ++ 255 ∷ []) ≡ ascii "b"
unfolding prefix_range_end
end_of_last_byte = refl

range-answer_example :
    range list_node four_values one_of_prefix
    ≡ ok (answer one_of_prefix 4 (wanted one_of_prefix four_values))
unfolding range_guard bytes_eq
range-answer_example =
    range-answer list_node four_values one_of_prefix four_values refl refl
      (λ lin prefix. (λ limit. refl, refl)) (omega arith, tt)
      (
        (omega arith, (omega arith, (omega arith, (omega arith, tt)))),
        (
          (omega arith, (omega arith, tt)),
          ((omega arith, (omega arith, tt)), ((omega arith, tt), tt)),
        ),
      )

abbrev without_keys : List Bytes → List KeyValue → List KeyValue
without_keys keys [] = []
without_keys keys (kv ∷ kvs) =
    let rest = without_keys keys kvs in if contains kv.key keys then rest else kv ∷ rest

-- A node without leases, whose deletes are found
abbrev write_node : WriteNode
write_node = record {
  leases = record {
    State = List KeyValue;
    get = λ lin s key. ok none;
    list = λ lin s prefix. ok (under prefix s);
    put = λ s key value. (s, ok 5);
    create = λ s key value. (s, ok 5);
    txn_delete = λ s keys. (without_keys keys s, ok 5);
    is_leader = λ s. true;
  };
  current_revision = λ s. 4;
  put = λ s key value lease. (value_at key ∷ s, ok 5);
  delete = λ s key. (without_keys (key ∷ []) s, ok 5);
  delete_all = λ s keys. (without_keys keys s, ok (5, keys));
}

abbrev no_json : LeaseJson
no_json = record { marshal = λ rec. []; decode = λ text. none }

range_deleted :
    delete_range write_node no_json four_values
      record { key = ascii "a"; range_end = ascii "b"; prev_kv = true }
    ≡ (
      value_at internal_prefix ∷ value_at (ascii "b") ∷ [],
      ok record {
        revision = 6;
        prev_kvs = kv_to_proto (value_at (ascii "a1")) ∷ kv_to_proto (value_at (ascii "a2")) ∷ [];
        deleted = 2;
      },
    )
unfolding under contains delete_range kv_to_proto
range_deleted = refl

internal_key_refused :
    put write_node no_json four_values
      record { key = internal_prefix; value = []; lease = 0; prev_kv = false }
      0
    ≡ (four_values, err (refused invalid_argument))
unfolding put has_prefix
internal_key_refused = refl

unknown_lease_refused :
    put write_node no_json four_values
      record { key = ascii "a"; value = []; lease = 7; prev_kv = false }
      0
    ≡ (four_values, err (refused not_found))
unfolding put has_prefix
unknown_lease_refused = refl
