-- ===== src/Etcd/Interference.antt =====
-- The transactions of etcddb/etcddb_client.go when other clients write between StartTransaction and
-- CompleteTransaction.
use mathlib.Core.List.{Memᴰ}
use mathlib.Core.List.Memᴰ
use mathlib.Core.List.Memᴰ.{head, tail}
use snet_daemon.Prelude.{
  String, true, ◌≡◌, ap, sym, ◌∙◌, arith, inl, inr, some, List, [], ◌∷◌, map, Bool-cases,
  Option-cases, subst,
}
use snet_daemon.Effects.{ok, Result-cases}
use snet_daemon.Storage.Interface.{KeyValueData}
use snet_daemon.Etcd.{
  EtcdClient, EtcdTransaction, TxnResponse, Cmp, op_get, check_txn_response, if_compare,
  put_of_data, start_transaction, complete_transaction,
}
use snet_daemon.Etcd.Contract.{
  Versioned, View, values_of, kvs_of, holds, all_hold, apply_ops, IsEtcd,
}
use snet_daemon.Etcd.Snapshot.{state_of, snapshot-covers}

-- No revision of a key is used for a second value.
abbrev pub NoRevisionReused : View → View → Type 0
NoRevisionReused before after =
    (key : String) (v v' : Versioned)
    → before key ≡ some v
    → after key ≡ some v'
    → v.mod_revision ≡ v'.mod_revision
    → v.value ≡ v'.value

hold_member :
    (view : View) (cmp : Cmp) (cmps : List Cmp)
    → Memᴰ cmp cmps
    → all_hold view cmps ≡ true
    → holds view cmp ≡ true
hold_member view cmp [] m h = elim m [ ]
hold_member view cmp (x ∷ cmps) (head e) h = rw e (ground (arith, h))
hold_member view cmp (x ∷ cmps) (tail m) h = hold_member view cmp cmps m (ground (arith, h))

module _ {S : Type 0} (client : EtcdClient S) (view : S → View) (w : IsEtcd client view) where
  same_value :
      (s s' : S) (key : String)
      → NoRevisionReused (view s) (view s')
      → holds (view s') (if_compare (state_of (view s) key)) ≡ true
      → values_of (view s') key ≡ values_of (view s) key
  same_value s s' key fresh h = elim (Option-cases (view s key)) [
    | inl gone ↦ elim (Option-cases (view s' key)) [
      | inl still ↦ ground (arith, gone, still)
      | inr (v', new) ↦ absurd (ground (arith, gone, new, h, w.positive key s' v' new))
    ]
    | inr (v, there) ↦ elim (Option-cases (view s' key)) [
      | inl lost ↦ absurd (ground (arith, there, lost, h, w.positive key s v there))
      | inr (v', new) ↦ ground (arith, there, new, h, fresh key v v' there new)
    ]
  ]

  started :
      (keys : List String) (s : S) (t : EtcdTransaction)
      → (start_transaction client keys s).0 ≡ ok t
      → (response : TxnResponse) × (response.responses ≡ map (kvs_of (view s)) keys)
        × (t.condition_values ≡ check_txn_response client keys response)
        × (t.condition_keys ≡ keys)
  unfolding start_transaction
  started keys s t e = elim (Result-cases (client.txn [] (map op_get keys) [] s).0) [
    | inr (x, bad) ↦ absurd (ground (arith, bad))
    | inl (response, good) ↦
        (response, w.reads_show keys s response good, ground (arith, good), ground (arith, good))
  ]

  completed :
      (t : EtcdTransaction) (update : List KeyValueData) (s : S) (t' : EtcdTransaction)
      → (complete_transaction client t update s).0 ≡ ok (true, t')
      → (all_hold (view s) (map if_compare t.condition_values) ≡ true)
        × (values_of (view (complete_transaction client t update s).1)
            ≡ apply_ops (map put_of_data update) (values_of (view s)))
  unfolding complete_transaction
  completed t update s t' e =
      let cmps = map if_compare t.condition_values in
      let puts = map put_of_data update in
      elim (Result-cases (client.txn cmps puts (map op_get t.condition_keys) s).0) [
        | inr (x, bad) ↦ absurd (ground (arith, bad))
        | inl (response, good) ↦ elim (Bool-cases response.succeeded) [
          | inr failed ↦ absurd (ground (arith, good, failed))
          | inl done ↦
              let facts = w.txn_applied cmps puts t.condition_keys s response good done in
              (facts.0, ap (λ v. values_of (view v)) (ground (arith, good, done)) ∙ facts.1)
        ]
      ]

  -- Where etcd keeps its contract and uses no revision of a key twice: a transaction that was
  -- started in one state, and that CompleteTransaction reports as done in a later one, with anything
  -- written by others in between, has found every condition key with the value, or without one, as
  -- it was read at the start, and it has written exactly its update.
  pub complete_transaction_isolated :
      (keys : List String) (update : List KeyValueData) (s s' : S) (t t' : EtcdTransaction)
      → (start_transaction client keys s).0 ≡ ok t
      → NoRevisionReused (view s) (view s')
      → (complete_transaction client t update s').0 ≡ ok (true, t')
      → ((key : String) → Memᴰ key keys → values_of (view s') key ≡ values_of (view s) key)
        × (values_of (view (complete_transaction client t update s').1)
            ≡ apply_ops (map put_of_data update) (values_of (view s')))
  complete_transaction_isolated keys update s s' t t' begun fresh done =
      let (response, shows, states, same_keys) = started keys s t begun in
      let (compared, wrote) = completed t update s' t' done in
      (
        λ key m.
            let covered = snapshot-covers client view w s keys response shows key m in
            same_value s s' key fresh (
              hold_member (view s') (if_compare (state_of (view s) key))
                (map if_compare t.condition_values)
                (subst (λ c. Memᴰ (if_compare (state_of (view s) key)) (map if_compare c))
                  (sym states) (Memᴰ.map if_compare covered))
                compared),
        wrote,
      )
