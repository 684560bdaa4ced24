-- ===== src/Node/Txn/Forwarding.antt =====
-- node.go and writes.go: a transaction request, and its message to the leader and back.
use t.Prelude.{ℕ, ◌≡◌, refl, ap, some, List, [], ◌∷◌, map, Bytes}
use t.Peer.{ForwardRequest, TxnCondMsg, TxnOpMsg, TxnReqMsg, forward_txn}
use t.Node.Writes.{empty_request}
use t.Node.Txn.Conditions.{TxnCondition}

-- TxnPut and TxnDelete
abbrev pub txn_put : ℕ
txn_put = 0

abbrev pub txn_delete : ℕ
txn_delete = 1

pub record TxnOp : Type 0 where
  pub type : ℕ
  pub key : Bytes
  pub value : Bytes
  pub lease : ℕ

pub record TxnRequest : Type 0 where
  pub conditions : List TxnCondition
  pub success : List TxnOp
  pub failure : List TxnOp

cond_to_msg : TxnCondition → TxnCondMsg
cond_to_msg c = record {
  key = c.key;
  target = c.target;
  result = c.result;
  mod_revision = c.mod_revision;
  create_revision = c.create_revision;
  version = c.version;
  value = c.value;
  lease = c.lease;
}

txn_ops_to_msg : List TxnOp → List TxnOpMsg
txn_ops_to_msg =
    map (λ op. record { type = op.type; key = op.key; value = op.value; lease = op.lease })

unfoldable pub txn_to_msg : TxnRequest → TxnReqMsg
unfolding cond_to_msg txn_ops_to_msg
txn_to_msg req = record {
  conditions = map cond_to_msg req.conditions;
  success = txn_ops_to_msg req.success;
  failure = txn_ops_to_msg req.failure;
}

unfoldable pub txn_to_forward_request : TxnRequest → ForwardRequest
unfolding txn_to_msg
txn_to_forward_request req = record empty_request {
  op = forward_txn;
  txn_req = some (txn_to_msg req);
}

msg_to_cond : TxnCondMsg → TxnCondition
msg_to_cond c = record {
  key = c.key;
  target = c.target;
  result = c.result;
  mod_revision = c.mod_revision;
  create_revision = c.create_revision;
  version = c.version;
  value = c.value;
  lease = c.lease;
}

msg_to_txn_ops : List TxnOpMsg → List TxnOp
msg_to_txn_ops = map (λ m. record { type = m.type; key = m.key; value = m.value; lease = m.lease })

unfoldable pub forward_msg_to_txn_request : TxnReqMsg → TxnRequest
unfolding msg_to_cond msg_to_txn_ops
forward_msg_to_txn_request m = record {
  conditions = map msg_to_cond m.conditions;
  success = msg_to_txn_ops m.success;
  failure = msg_to_txn_ops m.failure;
}

conds_back : (cs : List TxnCondition) → map msg_to_cond (map cond_to_msg cs) ≡ cs
unfolding msg_to_cond cond_to_msg
conds_back [] = refl
conds_back (c ∷ cs) = ap (◌∷◌ c) (conds_back cs)

ops_back : (ops : List TxnOp) → msg_to_txn_ops (txn_ops_to_msg ops) ≡ ops
unfolding msg_to_txn_ops txn_ops_to_msg
ops_back [] = refl
ops_back (o ∷ ops) = ap (◌∷◌ o) (ops_back ops)

-- The leader reads from a follower's message the transaction that the client sent.
forward-back : (req : TxnRequest) → forward_msg_to_txn_request (txn_to_msg req) ≡ req
unfolding forward_msg_to_txn_request txn_to_msg
forward-back req = λ i. record {
  conditions = conds_back req.conditions i;
  success = ops_back req.success i;
  failure = ops_back req.failure i;
}
