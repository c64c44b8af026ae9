-- ===== src/Etcd/Snapshot.antt =====
-- What StartTransaction of etcddb/etcddb_client.go has read, by the contract of etcd.
use mathlib.Core.List.{Memᴰ}
use mathlib.Core.List.Memᴰ
use mathlib.Core.List.Memᴰ.{head, tail, append_left, append_right, not-nil, cases_cons}
use snet_daemon.Prelude.{
  String, true, false, ◌≡◌, refl, ap, sym, ◌∙◌, arith, inl, inr, Option, none, some, List, [], ◌∷◌,
  ◌++◌, map, str_eq, eq_iff, Bool-cases, Option-cases, All, subst, if◌then◌else◌,
}
use snet_daemon.Etcd.{
  EtcdClient, KeyValueVersion, TxnResponse, remove_key, key_set, absent_state, get_state,
  collect_states, check_txn_response, if_compare,
}
use snet_daemon.Etcd.Contract.{Versioned, View, kvs_of, holds, all_hold, IsEtcd}

-- The condition value of a key.
abbrev pub state_at : String → Option Versioned → KeyValueVersion
state_at key none = absent_state key
state_at key (some v) = record {
  key = key;
  value = v.value;
  present = true;
  version = v.mod_revision;
}

module _ (view : View) where
  abbrev pub state_of : String → KeyValueVersion
  state_of key = state_at key (view key)

  pub state_holds : (key : String) → holds view (if_compare (state_of key)) ≡ true
  state_holds key = elim (Option-cases (view key)) [
    | inl gone ↦ ground (arith, gone)
    | inr (v, there) ↦ ground (arith, there)
  ]

  get_none :
      (set : List String) (key : String)
      → view key ≡ none
      → get_state set (kvs_of view key) ≡ ([], set)
  unfolding get_state
  get_none set key gone = ground (arith, gone)

  get_some :
      (set : List String) (key : String) (v : Versioned)
      → view key ≡ some v
      → get_state set (kvs_of view key) ≡ (state_of key ∷ [], remove_key key set)
  unfolding get_state
  get_some set key v there = ground (arith, there)

  apart :
      (key k : String) (v : Versioned) → view k ≡ none → view key ≡ some v → str_eq k key ≡ false
  apart key k v gone there = elim (Bool-cases (str_eq k key)) [
    | inl same ↦ absurd (ground (arith, gone, there, ap view ((eq_iff k key).0 same)))
    | inr other ↦ other
  ]

  remove_other :
      (key k : String) (set : List String)
      → str_eq k key ≡ false
      → Memᴰ k set
      → Memᴰ k (remove_key key set)
  remove_other key k [] other m = elim m [ ]
  remove_other key k (x ∷ set) other (head e) =
      subst (λ b. Memᴰ k (if b then remove_key key set else x ∷ remove_key key set))
        (sym (subst (λ y. str_eq y key ≡ false) e other)) (head e)
  remove_other key k (x ∷ set) other (tail m) = elim (Bool-cases (str_eq x key)) [
    | inl same ↦ rw same (remove_other key k set other m)
    | inr differs ↦ rw differs (tail (remove_other key k set other m))
  ]

  removed :
      (key k : String) (set : List String)
      → Memᴰ k (remove_key key set)
      → Memᴰ k set × (str_eq k key ≡ false)
  removed key k [] m = absurd (not-nil m)
  removed key k (x ∷ set) m = elim (Bool-cases (str_eq x key)) [
    | inl same ↦ let below = removed key k set (rw same at m) in (tail below.0, below.1)
    | inr differs ↦ elim (cases_cons (rw differs at m)) [
      | inl e ↦ (head e, rw e differs)
      | inr m' ↦ let below = removed key k set m' in (tail below.0, below.1)
    ]
  ]

  abbrev collected : List String → List String → List KeyValueVersion × List String
  collected set keys = collect_states set (map (kvs_of view) keys)

  collect_absent :
      (set : List String) (key : String) (keys : List String)
      → view key ≡ none
      → collected set (key ∷ keys) ≡ collected set keys
  unfolding collect_states
  collect_absent set key keys gone = rw (get_none set key gone) refl

  collect_stored :
      (set : List String) (key : String) (keys : List String) (v : Versioned)
      → view key ≡ some v
      → collected set (key ∷ keys) ≡ (
        state_of key ∷ (collected (remove_key key set) keys).0,
        (collected (remove_key key set) keys).1,
      )
  unfolding collect_states
  collect_stored set key keys v there = rw (get_some set key v there) refl

  abbrev HoldAll : List KeyValueVersion × List String → Type 0
  HoldAll p = All (λ c. holds view (if_compare c) ≡ true) p.0

  states_hold :
      (set keys : List String) → All (λ c. holds view (if_compare c) ≡ true) (collected set keys).0
  states_hold set [] = unfold collect_states in tt
  states_hold set (key ∷ keys) = elim (Option-cases (view key)) [
    | inl gone ↦ subst HoldAll (sym (collect_absent set key keys gone)) (states_hold set keys)
    | inr (v, there) ↦
        subst HoldAll (sym (collect_stored set key keys v there))
          (state_holds key, states_hold (remove_key key set) keys)
  ]

  -- A key that was asked for and is stored has a state.
  stored_covered :
      (set keys : List String) (k : String) (v : Versioned)
      → view k ≡ some v
      → Memᴰ k keys
      → Memᴰ (state_of k) (collected set keys).0
  stored_covered set [] k v stored m = elim m [ ]
  stored_covered set (key ∷ keys) k v stored m = elim (Option-cases (view key)) [
    | inl gone ↦ rw (collect_absent set key keys gone) elim (cases_cons m) [
      | inl e ↦ absurd (ground (arith, stored, gone, ap view e))
      | inr m' ↦ stored_covered set keys k v stored m'
    ]
    | inr (w, there) ↦ rw (collect_stored set key keys w there) elim (cases_cons m) [
      | inl e ↦ head (ap state_of e)
      | inr m' ↦ tail (stored_covered (remove_key key set) keys k v stored m')
    ]
  ]

  -- A key of the set that is not stored is left over.
  absent_left :
      (set keys : List String) (k : String)
      → view k ≡ none
      → Memᴰ k set
      → Memᴰ k (collected set keys).1
  unfolding collect_states
  absent_left set [] k gone m = m
  absent_left set (key ∷ keys) k gone m = elim (Option-cases (view key)) [
    | inl nothing ↦ rw (collect_absent set key keys nothing) (absent_left set keys k gone m)
    | inr (v, there) ↦ rw (collect_stored set key keys v there) (
        absent_left (remove_key key set) keys k gone
          (remove_other key k set (apart key k v gone there) m))
  ]

  -- What is left over is of the set, and is not stored if it was asked for.
  left_absent :
      (set keys : List String) (k : String)
      → Memᴰ k (collected set keys).1
      → Memᴰ k set × (Memᴰ k keys → view k ≡ none)
  unfolding collect_states
  left_absent set [] k m = (m, λ asked. absurd (not-nil asked))
  left_absent set (key ∷ keys) k m = elim (Option-cases (view key)) [
    | inl nothing ↦
        let below = left_absent set keys k (rw (collect_absent set key keys nothing) at m) in
        (
          below.0,
          λ asked. elim (cases_cons asked) [ inl e ↦ ap view e ∙ nothing | inr m' ↦ below.1 m' ],
        )
    | inr (v, there) ↦
        let below =
          left_absent (remove_key key set) keys k (rw (collect_stored set key keys v there) at m) in
        let out = removed key k set below.0 in
        (
          out.0,
          λ asked. elim (cases_cons asked) [
            | inl e ↦ absurd (ground (arith, out.1, eq_iff k key, e))
            | inr m' ↦ below.1 m'
          ],
        )
  ]

  key_set-all : (keys : List String) (k : String) → Memᴰ k keys → Memᴰ k (key_set keys)
  key_set-all [] k m = elim m [ ]
  key_set-all (key ∷ keys) k m = elim (Bool-cases (str_eq k key)) [
    | inl same ↦ head ((eq_iff k key).0 same)
    | inr other ↦ elim (cases_cons m) [
      | inl e ↦ head e
      | inr m' ↦ tail (remove_other key k (key_set keys) other (key_set-all keys k m'))
    ]
  ]

  key_set-only : (keys : List String) (k : String) → Memᴰ k (key_set keys) → Memᴰ k keys
  key_set-only [] k m = m
  key_set-only (key ∷ keys) k m = elim (cases_cons m) [
    | inl e ↦ head e
    | inr m' ↦ tail (key_set-only keys k (removed key k (key_set keys) m').0)
  ]

hold_append :
    (view : View) (xs ys : List KeyValueVersion)
    → HoldAll view (xs, [])
    → HoldAll view (ys, [])
    → all_hold view (map if_compare (xs ++ ys)) ≡ true
hold_append view [] [] hx hy = refl
hold_append view [] (y ∷ ys) hx hy = rw hy.0 (hold_append view [] ys hx hy.1)
hold_append view (x ∷ xs) ys hx hy = rw hx.0 (hold_append view xs ys hx.1 hy)

absent_hold :
    (view : View) (keys : List String)
    → ((k : String) → Memᴰ k keys → view k ≡ none)
    → HoldAll view (map absent_state keys, [])
absent_hold view [] gone = tt
absent_hold view (k ∷ keys) gone =
    (ground (arith, gone k (head refl)), absent_hold view keys (λ j m. gone j (tail m)))

module _ {S : Type 0} (client : EtcdClient S) (view : S → View) (w : IsEtcd client view) (s : S)
    (keys : List String) (response : TxnResponse)
    (shows : response.responses ≡ map (kvs_of (view s)) keys) where
  states_shown :
      check_txn_response client keys response
      ≡ (collected (view s) (key_set keys) keys).0
        ++ map absent_state (client.map_order (collected (view s) (key_set keys) keys).1)
  unfolding check_txn_response
  states_shown =
      ap
        (λ responses.
          (collect_states (key_set keys) responses).0
          ++ map absent_state (client.map_order (collect_states (key_set keys) responses).1))
        shows

  -- Every condition value is as it is stored.
  pub snapshot-current :
      all_hold (view s) (map if_compare (check_txn_response client keys response)) ≡ true
  snapshot-current =
      let left = (collected (view s) (key_set keys) keys).1 in
      ap (λ states. all_hold (view s) (map if_compare states)) states_shown
      ∙ hold_append (view s) (collected (view s) (key_set keys) keys).0
          (map absent_state (client.map_order left)) (states_hold (view s) (key_set keys) keys)
          (absent_hold (view s) (client.map_order left) λ k m.
            let out = left_absent (view s) (key_set keys) keys k (w.order_only m) in
            out.1 (key_set-only (view s) keys k out.0))

  -- Every condition key has a condition value.
  pub snapshot-covers :
      (k : String)
      → Memᴰ k keys
      → Memᴰ (state_of (view s) k) (check_txn_response client keys response)
  snapshot-covers k m =
      let left = (collected (view s) (key_set keys) keys).1 in
      subst (λ states. Memᴰ (state_of (view s) k) states) (sym states_shown)
        (elim (Option-cases (view s k)) [
          | inr (v, there) ↦
              append_left (map absent_state (client.map_order left))
                (stored_covered (view s) (key_set keys) keys k v there m)
          | inl gone ↦ append_right (collected (view s) (key_set keys) keys).0 (
              subst (λ c. Memᴰ c (map absent_state (client.map_order left)))
                (ap (state_at k) (sym gone))
                (Memᴰ.map absent_state (
                  w.order_all (
                    absent_left (view s) (key_set keys) keys k gone
                      (key_set-all (view s) keys k m)))))
        ])

-- The one condition value of one condition key.
pub one_key :
    {S : Type 0} (client : EtcdClient S) (view : S → View) (w : IsEtcd client view) (s : S)
    (key : String) (response : TxnResponse)
    → response.responses ≡ kvs_of (view s) key ∷ []
    → check_txn_response client (key ∷ []) response ≡ state_of (view s) key ∷ []
unfolding check_txn_response collect_states get_state
one_key client view w s key response shows = elim (Option-cases (view s key)) [
  | inl gone ↦ ground (arith, shows, gone, w.order_one key)
  | inr (v, there) ↦ ground (arith, shows, there, w.order_none, eq_iff key key)
]
