-- ===== src/Kv.antt =====
-- Range of etcd/kv.go, with the conversions of etcd/server.go and prefixRangeEnd of etcd/watch.go. The
-- node is a parameter; the reads that wait for the leader and the local ones are told apart by a
-- flag. The reads of one Range see one state of it: no write comes between them. A count is the
-- length of a list that is in memory, so it does not wrap.
pub mod Matches
pub mod Collected
pub mod Listed
pub mod Writes
use t.Prelude.{
  ℕ, zero, suc, ◌+◌, Bool, true, false, not, ◌&&◌, Option, none, some, List, [], ◌∷◌, ◌++◌, map,
  length, Bytes, bytes_eq, bytes_lt, has_prefix, ltb, leb, ◌==◌, if◌then◌else◌,
}
use t.Prelude.Word.{add64, sub64, lt64, le64}
use t.Result.{Result, ok, err, ◌>>=◌}
use t.Store.Keys.{upper_bound}
use t.Store.KeyValue.{KeyValue}
use t.Lease.{is_internal_key}

-- What a read of the node may answer; any other error is passed on.
pub data ReadError : Type 0 where
  no_leader compacted future_revision other : ReadError

-- The errors of gRPC
pub data KvError : Type 0 where
  grpc_no_leader grpc_compacted grpc_future_rev : KvError
  read_failed : ReadError → KvError

-- What Range calls of the node; a limit or a revision of zero is none.
pub record RangeNode : Type 1 where
  pub State : Type 0
  pub compact_revision : State → ℕ
  pub current_revision : State → ℕ
  pub is_serializable : State → Bool
  pub get : Bool → State → Bytes → ℕ → Result ReadError (Option KeyValue)
  pub exists : Bool → State → Bytes → ℕ → Result ReadError Bool
  pub list : Bool → State → Bytes → ℕ → ℕ → Result ReadError (List KeyValue)
  pub count : Bool → State → Bytes → ℕ → Result ReadError ℕ

pub record RangeRequest : Type 0 where
  pub key : Bytes
  pub range_end : Bytes
  pub limit : ℕ
  pub revision : ℕ
  pub serializable : Bool
  pub keys_only : Bool
  pub count_only : Bool

-- mvccpb.KeyValue
pub record ProtoKv : Type 0 where
  pub key : Bytes
  pub value : Bytes
  pub mod_revision : ℕ
  pub create_revision : ℕ
  pub lease : ℕ
  pub version : ℕ

-- `revision` is the one of the header.
pub record RangeResponse : Type 0 where
  pub revision : ℕ
  pub kvs : List ProtoKv
  pub count : ℕ
  pub more : Bool

abbrev pub to_etcd_revision : ℕ → ℕ
to_etcd_revision rev = add64 rev 1

abbrev pub from_etcd_revision : ℕ → ℕ
from_etcd_revision rev = if le64 rev 0 then 0 else sub64 rev 1

unfoldable pub kv_to_proto : KeyValue → ProtoKv
kv_to_proto kv = record {
  key = kv.key;
  value = kv.value;
  mod_revision = to_etcd_revision kv.revision;
  create_revision = to_etcd_revision kv.create_revision;
  lease = kv.lease;
  version = if le64 kv.version 0 then 1 else kv.version;
}

unfoldable pub kv_to_proto_for_range : Bool → KeyValue → ProtoKv
unfolding kv_to_proto
kv_to_proto_for_range keys_only kv =
    let pb = kv_to_proto kv in if keys_only then record pb { value = [] } else pb

unfoldable pub kv_error : ReadError → KvError
kv_error no_leader = grpc_no_leader
kv_error compacted = grpc_compacted
kv_error future_revision = grpc_future_rev
kv_error e = read_failed e

unfoldable pub of_read : {A : Type 0} → Result ReadError A → Result KvError A
unfolding kv_error
of_read (ok a) = ok a
of_read (err e) = err (kv_error e)

abbrev pub end_of : Option Bytes → Bytes
end_of none = 0 ∷ []
end_of (some ub) = ub

-- The bound is the one that the store takes for a prefix, but "\x00" where there is none.
unfoldable pub prefix_range_end : Bytes → Bytes
unfolding upper_bound
prefix_range_end prefix = end_of (upper_bound prefix)

unfoldable pub is_prefix_range_end : Bytes → Bytes → Bool
unfolding prefix_range_end bytes_eq
is_prefix_range_end prefix end = bytes_eq (prefix_range_end prefix) end

unfoldable pub is_exact_prefix_range : Bytes → Bytes → Bool
unfolding is_prefix_range_end
is_exact_prefix_range [] range_end = false
is_exact_prefix_range (b ∷ bs) range_end =
    if b == 0 then false else is_prefix_range_end (b ∷ bs) range_end

unfoldable pub range_scan_prefix : Bytes → Bytes → Bytes
unfolding is_prefix_range_end
range_scan_prefix key range_end = if is_prefix_range_end key range_end then key else []

unfoldable pub match_range : KeyValue → Bytes → Bytes → Bool
unfolding has_prefix bytes_eq bytes_lt
match_range kv key range_end =
    if is_internal_key kv.key
    then false
    else if bytes_eq range_end (0 ∷ [])
    then not (bytes_lt kv.key key)
    else not (bytes_lt kv.key key) && bytes_lt kv.key range_end

-- `for _, kv := range all` of a count
unfoldable pub count_matches : Bytes → Bytes → List KeyValue → ℕ → ℕ
unfolding match_range
count_matches key range_end [] count = count
count_matches key range_end (kv ∷ all) count =
    count_matches key range_end all (if match_range kv key range_end then count + 1 else count)

-- One pass of the loop that collects: the total, and the values up to the limit.
unfoldable pub collect_one : RangeRequest → KeyValue → ℕ × List ProtoKv → ℕ × List ProtoKv
unfolding match_range kv_to_proto_for_range
collect_one r kv (total, kvs) =
    if not (match_range kv r.key r.range_end)
    then (total, kvs)
    else if lt64 0 r.limit && leb r.limit (length kvs)
    then (total + 1, kvs)
    else (total + 1, kvs ++ kv_to_proto_for_range r.keys_only kv ∷ [])

unfoldable pub collect : RangeRequest → List KeyValue → ℕ × List ProtoKv → ℕ × List ProtoKv
unfolding collect_one
collect r [] acc = acc
collect r (kv ∷ all) acc = collect r all (collect_one r kv acc)

abbrev pub just_count : ℕ → ℕ → RangeResponse
just_count rev count = record {
  revision = to_etcd_revision rev;
  kvs = [];
  count = count;
  more = false;
}

unfoldable pub of_found : Bool → ℕ → Option KeyValue → RangeResponse
unfolding kv_to_proto_for_range
of_found keys_only rev none = just_count rev 0
of_found keys_only rev (some kv) = record {
  revision = to_etcd_revision rev;
  kvs = kv_to_proto_for_range keys_only kv ∷ [];
  count = 1;
  more = false;
}

module _ (n : RangeNode) where
  -- The revision of rangeHeader, before it is shifted
  abbrev pub range_header : n.State → ℕ → ℕ
  range_header s read_rev = if lt64 0 read_rev then read_rev else n.current_revision s

  -- The two early returns for a revision that is asked for
  unfoldable pub range_guard : n.State → RangeRequest → Option (Result KvError RangeResponse)
  range_guard s r =
      let read_rev = from_etcd_revision r.revision in
      let compact_rev = n.compact_revision s in
      if not (lt64 0 r.revision)
      then none
      else if lt64 0 compact_rev && lt64 read_rev compact_rev
      then some (err grpc_compacted)
      else if read_rev == 0
      then some (ok (just_count 0 0))
      else none

  abbrev pub is_linearizable : n.State → RangeRequest → Bool
  is_linearizable s r = not r.serializable && not (n.is_serializable s)

  -- A lookup of one key
  unfoldable pub range_one : n.State → RangeRequest → Result KvError RangeResponse
  unfolding has_prefix of_read of_found
  range_one s r =
      let rev = from_etcd_revision r.revision in
      let header = range_header s rev in
      let lin = is_linearizable s r in
      if is_internal_key r.key
      then ok (just_count header 0)
      else if r.count_only
      then (of_read (n.exists lin s r.key rev) >>= λ found.
          ok (just_count header (if found then 1 else 0)))
      else of_read (n.get lin s r.key rev) >>= λ kv. ok (of_found r.keys_only header kv)

  unfoldable pub range_count_only : n.State → RangeRequest → Result KvError RangeResponse
  unfolding of_read is_exact_prefix_range range_scan_prefix count_matches
  range_count_only s r =
      let rev = from_etcd_revision r.revision in
      let header = range_header s rev in
      let lin = is_linearizable s r in
      let prefix = range_scan_prefix r.key r.range_end in
      if is_exact_prefix_range r.key r.range_end
      then (of_read (n.count lin s prefix rev) >>= λ count. ok (just_count header count))
      else of_read (n.list lin s prefix 0 rev) >>= λ all.
          ok (just_count header (count_matches r.key r.range_end all 0))

  -- A page of a prefix: the node counts and cuts.
  unfoldable pub range_page : n.State → RangeRequest → Result KvError RangeResponse
  unfolding of_read range_scan_prefix kv_to_proto_for_range
  range_page s r =
      let rev = from_etcd_revision r.revision in
      let lin = is_linearizable s r in
      let prefix = range_scan_prefix r.key r.range_end in
      of_read (n.count lin s prefix rev) >>= λ total.
      of_read (n.list lin s prefix r.limit rev) >>= λ all. ok record {
        revision = to_etcd_revision (range_header s rev);
        kvs = map (kv_to_proto_for_range r.keys_only) all;
        count = total;
        more = ltb r.limit total;
      }

  unfoldable pub range_scan : n.State → RangeRequest → Result KvError RangeResponse
  unfolding of_read range_scan_prefix collect
  range_scan s r =
      let rev = from_etcd_revision r.revision in
      let prefix = range_scan_prefix r.key r.range_end in
      of_read (n.list (is_linearizable s r) s prefix 0 rev) >>= λ all.
      let (total, kvs) = collect r all (0, []) in
      ok record {
        revision = to_etcd_revision (range_header s rev);
        kvs = kvs;
        count = total;
        more = lt64 0 r.limit && ltb r.limit total;
      }

  unfoldable pub range_of_keys : n.State → RangeRequest → Result KvError RangeResponse
  unfolding range_one range_count_only range_page range_scan is_exact_prefix_range bytes_eq
  range_of_keys s r =
      if bytes_eq r.range_end []
      then range_one s r
      else if r.count_only
      then range_count_only s r
      else if is_exact_prefix_range r.key r.range_end && lt64 0 r.limit
      then range_page s r
      else range_scan s r

  unfoldable pub range : n.State → RangeRequest → Result KvError RangeResponse
  unfolding range_guard range_of_keys
  range s r = elim (range_guard s r) [ some answer ↦ answer | none ↦ range_of_keys s r ]
