-- ===== src/Etcd/Operations.antt =====
-- etcddb/etcddb_client.go keeps the contract of AtomicStorage, and how often ExecuteTransaction goes
-- round.
use snet_daemon.Prelude.{
  ℕ, suc, String, true, false, ◌≡◌, ◌≢◌, ◌⊎◌, refl, ap, sym, ◌∙◌, arith, inl, inr, Option, none,
  some, List, [], ◌∷◌, map, str_eq, eq_iff, Bool-cases, Option-cases, subst,
}
use snet_daemon.Effects.{Error, ok, err, Result-cases}
use snet_daemon.Storage.Interface.{KeyValueData, UpdateFunc, CasRequest}
use snet_daemon.Storage.Contract.{Values, set_value, IsKeyValueStorage}
use snet_daemon.Etcd.{
  EtcdClient, EtcdTransaction, TxnResponse, op_get, if_compare, put_of_data, check_txn_response,
  condition_data, get, put, delete, put_if_absent, compare_and_swap, absent_values, swap_values,
  etcd_storage, get_condition_values, start_transaction, complete_transaction, execute_rounds,
  execute_transaction,
}
use snet_daemon.Etcd.Contract.{View, values_of, all_hold, apply_ops, IsEtcd}
use snet_daemon.Etcd.Snapshot.{state_of, state_holds, one_key, snapshot-current}

-- What the update of a one-key request is called with.
abbrev pub data_at : String → Option String → KeyValueData
data_at key none = record { key = key; value = ""; present = false }
data_at key (some value) = record { key = key; value = value; present = true }

abbrev one_request : String → UpdateFunc → CasRequest
one_request key update = record {
  retry_till_success_or_error = false;
  update = update;
  condition_keys = key ∷ [];
}

module _ {S : Type 0} (client : EtcdClient S) (view : S → View) (w : IsEtcd client view) where
  abbrev pub values : S → Values
  values s = values_of (view s)

  abbrev after_start : List String → S → S
  after_start keys s = (client.txn [] (map op_get keys) [] s).1

  abbrev one_transaction : String → S → EtcdTransaction
  one_transaction key s = record {
    condition_values = state_of (view s) key ∷ [];
    condition_keys = key ∷ [];
  }

  start_one :
      (key : String) (s : S) (response : TxnResponse)
      → (client.txn [] (map op_get (key ∷ [])) [] s).0 ≡ ok response
      → start_transaction client (key ∷ []) s
        ≡ (ok (one_transaction key s), after_start (key ∷ []) s)
  unfolding start_transaction
  start_one key s response e =
      ground (arith, e, one_key client view w s key response (w.reads_show (key ∷ []) s response e))

  data_of_state :
      (key : String) (s : S)
      → get_condition_values (one_transaction key s) ≡ ok (data_at key (values s key) ∷ [])
  unfolding get_condition_values
  data_of_state key s = elim (Option-cases (view s key)) [
    | inl gone ↦ ground (arith, gone)
    | inr (v, there) ↦ ground (arith, there)
  ]

  -- How CompleteTransaction ends where the condition values are still the stored ones.
  pub complete_current :
      (t : EtcdTransaction) (update : List KeyValueData) (s : S)
      → all_hold (view s) (map if_compare t.condition_values) ≡ true
      → let run = complete_transaction client t update s in
        ((run.0 ≡ ok (true, t)) × (values run.1 ≡ apply_ops (map put_of_data update) (values s)))
        ⊎ ((e : Error) × (run.0 ≡ err e)
            × ((values run.1 ≡ values s)
                ⊎ (values run.1 ≡ apply_ops (map put_of_data update) (values s))))
  unfolding complete_transaction
  complete_current t update s current =
      let cmps = map if_compare t.condition_values in
      let puts = map put_of_data update in
      elim (Result-cases (client.txn cmps puts (map op_get t.condition_keys) s).0) [
        | inr (e, bad) ↦ inr (
          e,
          ground (arith, bad),
          elim (w.txn_failed cmps puts t.condition_keys s e bad) [
            | inl kept ↦ inl (ap values (ground (arith, bad)) ∙ ap values_of kept)
            | inr (held, wrote) ↦ inr (ap values (ground (arith, bad)) ∙ wrote)
          ],
        )
        | inl (response, good) ↦ elim (Bool-cases response.succeeded) [
          | inr failed ↦ absurd (
              ground
                (arith, current, w.txn_refused cmps puts t.condition_keys s response good failed))
          | inl done ↦ inl (
            ground (arith, good, done),
            ap values (ground (arith, good, done))
                ∙ (w.txn_applied cmps puts t.condition_keys s response good done).1,
          )
        ]
      ]

  view_started : (keys : List String) (s : S) → values (after_start keys s) ≡ values s
  view_started keys s = ap values_of (w.reads_keep keys s)

  state_still_holds :
      (key : String) (s : S)
      → all_hold
          (view (after_start (key ∷ []) s))
          (map if_compare (one_transaction key s).condition_values)
        ≡ true
  state_still_holds key s =
      subst (λ v. all_hold v (map if_compare (state_of (view s) key ∷ [])) ≡ true)
        (sym (w.reads_keep (key ∷ []) s)) (ground (arith, state_holds (view s) key))

  accepts :
      (key : String) (update : UpdateFunc) (new : List KeyValueData) (s : S)
      → update (data_at key (values s key) ∷ []) ≡ ok (new, true)
      → let run = execute_transaction client 1 (one_request key update) s in
        let wrote = apply_ops (map put_of_data new) (values s) in
        ((run.0 ≡ ok true) × (values run.1 ≡ wrote))
        ⊎ ((e : Error) × (run.0 ≡ err e) × ((values run.1 ≡ values s) ⊎ (values run.1 ≡ wrote)))
  unfolding execute_transaction execute_rounds
  accepts key update new s accepted =
      let s1 = after_start (key ∷ []) s in
      let t = one_transaction key s in
      elim (Result-cases (client.txn [] (map op_get (key ∷ [])) [] s).0) [
        | inr (e, bad) ↦ inr (
          e,
          unfold start_transaction in ground (arith, bad),
          inl (unfold start_transaction in ground (arith, bad, view_started (key ∷ []) s)),
        )
        | inl (response, good) ↦
            let begun = start_one key s response good in
            let same = view_started (key ∷ []) s in
            elim (complete_current t new s1 (state_still_holds key s)) [
              | inl (done, wrote) ↦ inl (
                ground (arith, begun, data_of_state key s, accepted, done),
                ap values (ground (arith, begun, data_of_state key s, accepted, done))
                    ∙ wrote
                    ∙ ap (apply_ops (map put_of_data new)) same,
              )
              | inr (e, failed, kept) ↦ inr (
                e,
                ground (arith, begun, data_of_state key s, accepted, failed),
                elim kept [
                  | inl unchanged ↦ inl (
                      ap values (ground (arith, begun, data_of_state key s, accepted, failed))
                      ∙ unchanged
                      ∙ same)
                  | inr wrote ↦ inr (
                      ap values (ground (arith, begun, data_of_state key s, accepted, failed))
                      ∙ wrote
                      ∙ ap (apply_ops (map put_of_data new)) same)
                ],
              )
            ]
      ]

  refuses :
      (key : String) (update : UpdateFunc) (new : List KeyValueData) (s : S)
      → update (data_at key (values s key) ∷ []) ≡ ok (new, false)
      → let run = execute_transaction client 1 (one_request key update) s in
        (run.0 ≢ ok true) × (values run.1 ≡ values s)
  unfolding execute_transaction execute_rounds
  refuses key update new s refused =
      let s1 = after_start (key ∷ []) s in
      elim (Result-cases (client.txn [] (map op_get (key ∷ [])) [] s).0) [
        | inr (e, bad) ↦ (
          λ succeeded. unfold start_transaction in ground (arith, bad),
          unfold start_transaction in ground (arith, bad, view_started (key ∷ []) s),
        )
        | inl (response, good) ↦
            let begun = start_one key s response good in
            (
              λ succeeded. ground (arith, begun, data_of_state key s, refused),
              ap values (ground (arith, begun, data_of_state key s, refused))
                  ∙ view_started (key ∷ []) s,
            )
      ]

  absent_cases :
      (key new : String) (s : S)
      → let run = put_if_absent client key new s in
        let wrote = set_value key (some new) (values s) in
        ((values s key ≡ none)
          × (((run.0 ≡ ok true) × (values run.1 ≡ wrote))
              ⊎ ((e : Error) × (run.0 ≡ err e)
                  × ((values run.1 ≡ values s) ⊎ (values run.1 ≡ wrote)))))
        ⊎ ((values s key ≢ none) × (run.0 ≢ ok true) × (values run.1 ≡ values s))
  unfolding put_if_absent
  absent_cases key new s = elim (Option-cases (values s key)) [
    | inl gone ↦ inl (
      gone,
      accepts key (absent_values key new) (record { key = key; value = new; present = false } ∷ [])
          s (ground (arith, gone)),
    )
    | inr (v, there) ↦
        let refusal = refuses key (absent_values key new) [] s (ground (arith, there)) in
        inr (λ gone. ground (arith, gone, there), refusal.0, refusal.1)
  ]

  swap_cases :
      (key prev new : String) (s : S)
      → let run = compare_and_swap client key prev new s in
        let wrote = set_value key (some new) (values s) in
        ((values s key ≡ some prev)
          × (((run.0 ≡ ok true) × (values run.1 ≡ wrote))
              ⊎ ((e : Error) × (run.0 ≡ err e)
                  × ((values run.1 ≡ values s) ⊎ (values run.1 ≡ wrote)))))
        ⊎ ((values s key ≢ some prev) × (run.0 ≢ ok true) × (values run.1 ≡ values s))
  unfolding compare_and_swap
  swap_cases key prev new s = elim (Option-cases (values s key)) [
    | inl gone ↦
        let refusal = refuses key (swap_values key prev new) [] s (ground (arith, gone)) in
        inr (λ there. ground (arith, gone, there), refusal.0, refusal.1)
    | inr (v, there) ↦ elim (Bool-cases (str_eq v prev)) [
      | inl same ↦ inl (
        there ∙ ap some ((eq_iff v prev).0 same),
        accepts key (swap_values key prev new)
            (record { key = key; value = new; present = false } ∷ []) s
            (ground (arith, there, same)),
      )
      | inr other ↦
          let refusal =
            refuses key (swap_values key prev new) [] s (ground (arith, there, other)) in
          inr (λ at. ground (arith, at, there, other, eq_iff v prev), refusal.0, refusal.1)
    ]
  ]

  -- Where etcd keeps its contract, EtcdClient keeps that of AtomicStorage: a read shows the value,
  -- Put and Delete set it, PutIfAbsent and CompareAndSwap write exactly if they return true, which
  -- they do only if the key is absent, or holds the expected value, and a call that fails has
  -- written all or nothing.
  pub etcd-IsKeyValueStorage : (rounds : ℕ) → IsKeyValueStorage (etcd_storage client rounds) values
  unfolding get put delete
  etcd-IsKeyValueStorage rounds = record {
    get_shows = λ key s found e. elim (Result-cases (client.etcd_get key s).0) [
      | inr (x, bad) ↦ absurd (ground (arith, bad))
      | inl (kvs, good) ↦ elim (Option-cases (view s key)) [
        | inl gone ↦ ground (arith, good, e, w.get_shows key s kvs good, gone)
        | inr (v, there) ↦ ground (arith, good, e, w.get_shows key s kvs good, there)
      ]
    ];
    get_keeps = λ key s. elim (Result-cases (client.etcd_get key s).0) [
      | inr (x, bad) ↦ ap values (ground (arith, bad)) ∙ ap values_of (w.get_keeps key s)
      | inl (kvs, good) ↦ ap values (ground (arith, good)) ∙ ap values_of (w.get_keeps key s)
    ];
    put_done = w.put_done;
    absent_done = λ key new s e. elim (absent_cases key new s) [
      | inl (gone, inl (succeeded, wrote)) ↦ (gone, wrote)
      | inl (gone, inr (x, failed, kept)) ↦ absurd (ground (arith, e, failed))
      | inr (there, refusal, kept) ↦ absurd (refusal e)
    ];
    absent_refused = λ key new s e. elim (absent_cases key new s) [
      | inl (gone, inl (succeeded, wrote)) ↦ absurd (ground (arith, e, succeeded))
      | inl (gone, inr (x, failed, kept)) ↦ absurd (ground (arith, e, failed))
      | inr (there, refusal, kept) ↦ (there, kept)
    ];
    absent_failed = λ key new s x e. elim (absent_cases key new s) [
      | inl (gone, inl (succeeded, wrote)) ↦ inr (gone, wrote)
      | inl (gone, inr (y, failed, inl kept)) ↦ inl kept
      | inl (gone, inr (y, failed, inr wrote)) ↦ inr (gone, wrote)
      | inr (there, refusal, kept) ↦ inl kept
    ];
    swap_done = λ key prev new s e. elim (swap_cases key prev new s) [
      | inl (there, inl (succeeded, wrote)) ↦ (there, wrote)
      | inl (there, inr (x, failed, kept)) ↦ absurd (ground (arith, e, failed))
      | inr (other, refusal, kept) ↦ absurd (refusal e)
    ];
    swap_refused = λ key prev new s e. elim (swap_cases key prev new s) [
      | inl (there, inl (succeeded, wrote)) ↦ absurd (ground (arith, e, succeeded))
      | inl (there, inr (x, failed, kept)) ↦ absurd (ground (arith, e, failed))
      | inr (other, refusal, kept) ↦ (other, kept)
    ];
    swap_failed = λ key prev new s x e. elim (swap_cases key prev new s) [
      | inl (there, inl (succeeded, wrote)) ↦ inr (there, wrote)
      | inl (there, inr (y, failed, inl kept)) ↦ inl kept
      | inl (there, inr (y, failed, inr wrote)) ↦ inr (there, wrote)
      | inr (other, refusal, kept) ↦ inl kept
    ];
    delete_done = w.delete_done;
  }

  first_round :
      (request : CasRequest) (t : EtcdTransaction) (rounds : ℕ) (s : S)
      → all_hold (view s) (map if_compare t.condition_values) ≡ true
      → execute_rounds client (suc rounds) request t s ≡ execute_rounds client 1 request t s
  unfolding execute_rounds get_condition_values
  first_round request t rounds s current =
      elim (Result-cases (request.update (map condition_data t.condition_values))) [
        | inr (e, bad) ↦ rw bad refl
        | inl ((new, updated), good) ↦ elim (Bool-cases updated) [
          | inr no_update ↦ ground (arith, good, no_update)
          | inl update ↦ elim (complete_current t new s current) [
            | inl (done, _) ↦ ground (arith, good, update, done)
            | inr (e, failed, _) ↦ ground (arith, good, update, failed)
          ]
        ]
      ]

  -- Where etcd keeps its contract and no other client comes in between, ExecuteTransaction ends in
  -- its first round, whether or not it may retry: any number of further rounds leaves its result and
  -- its writes as they are.
  pub one_round_is_enough :
      (request : CasRequest) (rounds : ℕ) (s : S)
      → execute_transaction client (suc rounds) request s ≡ execute_transaction client 1 request s
  unfolding execute_transaction execute_rounds
  one_round_is_enough request rounds s =
      let keys = request.condition_keys in
      let s1 = after_start keys s in
      elim (Result-cases (client.txn [] (map op_get keys) [] s).0) [
        | inr (e, bad) ↦ unfold start_transaction in ground (arith, bad)
        | inl (response, good) ↦
            let t : EtcdTransaction = record {
              condition_values = check_txn_response client keys response;
              condition_keys = keys;
            } in
            let begun : start_transaction client keys s ≡ (ok t, s1) =
              unfold start_transaction in ground (arith, good) in
            let current =
              subst (λ v. all_hold v (map if_compare t.condition_values) ≡ true)
                (sym (w.reads_keep keys s))
                (snapshot-current client view w s keys response
                  (w.reads_show keys s response good)) in
            rw begun (first_round request t rounds s1 current)
      ]
