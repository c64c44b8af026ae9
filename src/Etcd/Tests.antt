-- ===== src/Etcd/Tests.antt =====
-- An etcd of one server, and runs of EtcdClient's operations on it.
use mathlib.Core.List.{Memᴰ}
use snet_daemon.Prelude.{
  ℕ, suc, String, true, false, ◌≡◌, refl, ap, ◌∙◌, arith, inl, inr, Option, none, some, List, [],
  ◌∷◌, map, str_eq, eq_iff, Bool-cases, Option-cases, if◌then◌else◌,
}
use snet_daemon.Effects.{ok, Action}
use snet_daemon.Storage.Interface.{KeyValueData, CasRequest}
use snet_daemon.Storage.Contract.{set_value, IsKeyValueStorage}
use snet_daemon.Etcd.{
  EtcdClient, EtcdTransaction, KeyValue, TxnResponse, Cmp, Op, op_get, op_put, etcd_storage,
  start_transaction, complete_transaction, execute_transaction, check_txn_response, collect_states,
  get_state,
}
use snet_daemon.Etcd.Contract.{Versioned, View, values_of, kvs_of, all_hold, apply_ops, IsEtcd}
use snet_daemon.Etcd.Operations.{values, etcd-IsKeyValueStorage, one_round_is_enough}
use snet_daemon.Etcd.Interference.{NoRevisionReused, complete_transaction_isolated}

-- A value and its revisions less one.
record Stored : Type 0 where
  value : String
  created : ℕ
  modified : ℕ

-- `revision` is the number of writes so far.
record Server : Type 0 where
  revision : ℕ
  stored : String → Option Stored

abbrev versioned : Option Stored → Option Versioned
versioned none = none
versioned (some x) =
    some
      (record { value = x.value; create_revision = suc x.created; mod_revision = suc x.modified })

abbrev server_view : Server → View
server_view s = λ key. versioned (s.stored key)

abbrev new_stored : ℕ → String → Option Stored → Stored
new_stored revision value none = record { value = value; created = revision; modified = revision }
new_stored revision value (some x) = record {
  value = value;
  created = x.created;
  modified = revision;
}

abbrev write : String → String → Server → Server
write key value s = record {
  revision = suc s.revision;
  stored =
      λ j. if str_eq key j then some (new_stored s.revision value (s.stored key)) else s.stored j;
}

abbrev forget : String → Server → Server
forget key s = record s { stored = λ j. if str_eq key j then none else s.stored j }

abbrev run_op : Op → Server → Server
run_op (op_get key) s = s
run_op (op_put key value) s = write key value s

abbrev run_ops : List Op → Server → Server
run_ops [] s = s
run_ops (op ∷ ops) s = run_ops ops (run_op op s)

abbrev answer : View → Op → List KeyValue
answer v (op_get key) = kvs_of v key
answer v (op_put key value) = []

abbrev run_txn : List Cmp → List Op → List Op → Action Server TxnResponse
run_txn cmps thens elses s =
    if all_hold (server_view s) cmps
    then (
      ok (record { succeeded = true; responses = map (answer (server_view s)) thens }),
      run_ops thens s,
    )
    else (
      ok (record { succeeded = false; responses = map (answer (server_view s)) elses }),
      run_ops elses s,
    )

abbrev server_client : EtcdClient Server
server_client = record {
  etcd_get = λ key s. (ok (kvs_of (server_view s) key), s);
  etcd_get_range = λ from to s. (ok [], s);
  etcd_put = λ key value s. (ok tt, write key value s);
  etcd_delete = λ key s. (ok tt, forget key s);
  txn = run_txn;
  get_prefix_range_end = λ key. key;
  map_order = λ keys. keys;
}

write_at :
    (key value : String) (s : Server) (j : String)
    → values_of (server_view (write key value s)) j
      ≡ set_value key (some value) (values_of (server_view s)) j
write_at key value s j = elim (Bool-cases (str_eq key j)) [
  | inl same ↦ elim (Option-cases (s.stored key)) [
    | inl gone ↦ ground (arith, same, gone)
    | inr (x, there) ↦ ground (arith, same, there)
  ]
  | inr other ↦ ground (arith, other)
]

write_sets :
    (key value : String) (s : Server)
    → values_of (server_view (write key value s))
      ≡ set_value key (some value) (values_of (server_view s))
write_sets key value s = λ i j. write_at key value s j i

forget_at :
    (key : String) (s : Server) (j : String)
    → values_of (server_view (forget key s)) j ≡ set_value key none (values_of (server_view s)) j
forget_at key s j = ground arith

forget_sets :
    (key : String) (s : Server)
    → values_of (server_view (forget key s)) ≡ set_value key none (values_of (server_view s))
forget_sets key s = λ i j. forget_at key s j i

run_ops_lem :
    (ops : List Op) (s : Server)
    → values_of (server_view (run_ops ops s)) ≡ apply_ops ops (values_of (server_view s))
run_ops_lem [] s = refl
run_ops_lem (op_get key ∷ ops) s = run_ops_lem ops s
run_ops_lem (op_put key value ∷ ops) s =
    run_ops_lem ops (write key value s) ∙ ap (apply_ops ops) (write_sets key value s)

gets_keep : (keys : List String) (s : Server) → run_ops (map op_get keys) s ≡ s
gets_keep [] s = refl
gets_keep (key ∷ keys) s = gets_keep keys s

gets_answer :
    (v : View) (keys : List String) → map (answer v) (map op_get keys) ≡ map (kvs_of v) keys
gets_answer v [] = refl
gets_answer v (key ∷ keys) = ap (λ rest. kvs_of v key ∷ rest) (gets_answer v keys)

held_run :
    (cmps : List Cmp) (thens elses : List Op) (s : Server)
    → all_hold (server_view s) cmps ≡ true
    → (run_txn cmps thens elses s).1 ≡ run_ops thens s
held_run cmps thens elses s held = rw held refl

failed_run :
    (cmps : List Cmp) (thens elses : List Op) (s : Server)
    → all_hold (server_view s) cmps ≡ false
    → (run_txn cmps thens elses s).1 ≡ run_ops elses s
failed_run cmps thens elses s failed = rw failed refl

server-IsEtcd : IsEtcd server_client server_view
server-IsEtcd = record {
  positive = λ key s v e. elim (Option-cases (s.stored key)) [
    | inl gone ↦ absurd (ground (arith, e, gone))
    | inr (x, there) ↦ (ground (arith, e, there), ground (arith, e, there))
  ];
  get_shows = λ key s kvs e. cc;
  get_keeps = λ key s. refl;
  put_done = λ key new s e. write_sets key new s;
  delete_done = λ key s e. forget_sets key s;
  reads_show = λ keys s response e. ground (arith, e) ∙ gets_answer (server_view s) keys;
  reads_keep = λ keys s. ap server_view (gets_keep keys s);
  txn_applied = λ cmps thens keys s response e done.
      let run = run_txn cmps thens (map op_get keys) s in
      elim (Bool-cases (all_hold (server_view s) cmps)) [
        | inl held ↦ (
          held,
          ap (λ (t : Server). values_of (server_view t))
                (held_run cmps thens (map op_get keys) s held)
              ∙ run_ops_lem thens s,
        )
        | inr failed ↦ absurd (ground (arith, e, done, failed))
      ];
  txn_refused = λ cmps thens keys s response e done.
      elim (Bool-cases (all_hold (server_view s) cmps)) [
        | inl held ↦ absurd (ground (arith, e, done, held))
        | inr failed ↦ (
          failed,
          ap server_view (failed_run cmps thens (map op_get keys) s failed ∙ gets_keep keys s),
          ground (arith, e, failed, gets_answer (server_view s) keys),
        )
      ];
  txn_failed = λ cmps thens keys s x e. elim (Bool-cases (all_hold (server_view s) cmps)) [
    | inl held ↦ absurd (ground (arith, e, held))
    | inr failed ↦ absurd (ground (arith, e, failed))
  ];
  order_one = λ key. refl;
  order_none = refl;
  order_all = λ m. m;
  order_only = λ m. m;
}

-- One key, written at the first revision.
abbrev start : Server
start = write "a" "1" (record { revision = 0; stored = λ j. none })

-- Another client has written a second key.
abbrev later : Server
later = write "b" "2" start

abbrev update_of_a : List KeyValueData
update_of_a = record { key = "a"; value = "3"; present = true } ∷ []

abbrev begun : EtcdTransaction
begun = record {
  condition_values = record { key = "a"; value = "1"; present = true; version = 1 } ∷ [];
  condition_keys = "a" ∷ [];
}

fresh : NoRevisionReused (server_view start) (server_view later)
fresh key v v' before after same = elim (Bool-cases (str_eq "a" key)) [
  | inl is_a ↦
      let at : "a" ≡ key = (eq_iff "a" key).0 is_a in
      ground (arith, before, after, ap (server_view start) at, ap (server_view later) at)
  | inr other ↦ absurd (ground (arith, before, other))
]

complete_transaction_isolated_example :
    ((key : String)
      → Memᴰ key ("a" ∷ [])
      → values_of (server_view later) key ≡ values_of (server_view start) key)
    × (values_of (server_view (complete_transaction server_client begun update_of_a later).1)
        ≡ set_value "a" (some "3") (values_of (server_view later)))
unfolding start_transaction check_txn_response collect_states get_state complete_transaction
complete_transaction_isolated_example =
    complete_transaction_isolated server_client server_view server-IsEtcd ("a" ∷ []) update_of_a
      start later begun begun refl fresh refl

etcd-IsKeyValueStorage_example :
    IsKeyValueStorage
      (etcd_storage server_client 1)
      (values server_client server_view server-IsEtcd)
etcd-IsKeyValueStorage_example = etcd-IsKeyValueStorage server_client server_view server-IsEtcd 1

abbrev rewrite_a : CasRequest
rewrite_a = record {
  retry_till_success_or_error = true;
  update = λ old. ok (update_of_a, true);
  condition_keys = "a" ∷ "b" ∷ [];
}

one_round_is_enough_example :
    execute_transaction server_client 7 rewrite_a start
    ≡ execute_transaction server_client 1 rewrite_a start
one_round_is_enough_example =
    one_round_is_enough server_client server_view server-IsEtcd rewrite_a 6 start
