-- ===== src/Storage/Memory/Transactions.antt =====
-- The transactions of storage/memory_storage.go: what ExecuteTransaction writes when no other client
-- comes in between, and what CompleteTransaction leaves alone.
use snet_daemon.Prelude.{
  ℕ, suc, String, Bool, true, false, none, some, ap, sym, ◌∙◌, ◌≢◌, ◌≡◌, refl, inl, inr, arith,
  eq_iff, str_eq, List, [], ◌∷◌, map, Bool-cases, Option-cases, All,
}
use snet_daemon.Effects.{Error, ok, err, Verdict-cases}
use snet_daemon.Storage.Interface.{KeyValueData, UpdateFunc, CasRequest}
use snet_daemon.Storage.Dict.{lookup, insert, lookup-insert}
use snet_daemon.Storage.Memory.{
  Data, MemoryStorageTransaction, snapshot, get_value_data_for_key, complete_one, complete_all,
  complete_transaction, start_transaction, get_condition_values, attempt, execute_transaction,
  put_if_absent,
}

-- What an update writes: the entry of each condition key, in the order of the condition keys.
abbrev pub write_one : List KeyValueData → String → Data → Data
write_one update key s = elim (get_value_data_for_key key update) [
  | some d ↦ insert key d.value s
  | none ↦ s
]

abbrev pub written : List KeyValueData → List String → Data → Data
written update [] s = s
written update (key ∷ keys) s = written update keys (write_one update key s)

-- No key is listed twice.
abbrev pub AreDistinct : List String → Type 0
AreDistinct [] = Unit
AreDistinct (key ∷ keys) = All (λ other. str_eq key other ≡ false) keys × AreDistinct keys

-- The values at the keys are as at the start.
abbrev IsCurrent : Data → Data → List String → Type 0
IsCurrent start s keys = All (λ key. lookup key s ≡ lookup key start) keys

found_key :
    (key : String) (update : List KeyValueData) (d : KeyValueData)
    → get_value_data_for_key key update ≡ some d
    → d.key ≡ key
found_key key [] d e = absurd (ground arith)
found_key key (x ∷ update) d e = elim (Bool-cases (str_eq x.key key)) [
  | inl same ↦ ground (arith, same, eq_iff x.key key)
  | inr other ↦ found_key key update d (ground (arith, other))
]

-- What the storage holds now is not what this condition value recorded.
abbrev pub IsStale : Data → KeyValueData → Type 0
IsStale s old =
    (old.present ≡ true → lookup old.key s ≢ some old.value)
    × (old.present ≡ false → lookup old.key s ≢ none)

write_elsewhere :
    (old d : KeyValueData) (key : String) (s : Data)
    → str_eq old.key key ≡ false
    → d.key ≡ old.key
    → lookup key (insert d.key d.value s) ≡ lookup key s
write_elsewhere old d key s other same = rw (lookup-insert d.key key d.value s, same, other) refl

other_one :
    (old : KeyValueData) (update : List KeyValueData) (s : Data) (key : String)
    → str_eq old.key key ≡ false
    → lookup key (complete_one old update s).1 ≡ lookup key s
unfolding complete_one put_if_absent
other_one old update s key other = elim (Option-cases (get_value_data_for_key old.key update)) [
  | inl nothing ↦ ground (arith, nothing)
  | inr (d, new) ↦
      let same = found_key old.key update d new in
      ground (arith, new, same, other, write_elsewhere old d key s other same)
]

stale_one :
    (old : KeyValueData) (update : List KeyValueData) (s : Data)
    → IsStale s old
    → (complete_one old update s).1 ≡ s
unfolding complete_one put_if_absent
stale_one old update s stale = elim (Bool-cases old.present) [
  | inl was ↦ elim (Option-cases (lookup old.key s)) [
    | inl gone ↦ ground (arith, was, gone)
    | inr (current, found) ↦ elim (Bool-cases (str_eq current old.value)) [
      | inr differs ↦ ground (arith, was, found, differs)
      | inl same ↦ absurd (stale.0 was (found ∙ ap some ((eq_iff current old.value).0 same)))
    ]
  ]
  | inr was_not ↦ elim (Option-cases (lookup old.key s)) [
    | inl absent ↦ absurd (stale.1 was_not absent)
    | inr (current, found) ↦ elim (Option-cases (get_value_data_for_key old.key update)) [
      | inl nothing ↦ ground (arith, was_not, nothing)
      | inr (d, new) ↦ ground (arith, was_not, new, found, found_key old.key update d new)
    ]
  ]
]

one_keeps :
    (old : KeyValueData) (update : List KeyValueData) (s : Data) (key : String)
    → (old.key ≡ key → IsStale s old)
    → lookup key (complete_one old update s).1 ≡ lookup key s
one_keeps old update s key h = elim (Bool-cases (str_eq old.key key)) [
  | inl same ↦ ap (lookup key) (stale_one old update s (h ((eq_iff old.key key).0 same)))
  | inr other ↦ other_one old update s key other
]

-- Staleness of a value of `key` depends on what is stored for `key` alone.
still-IsStale :
    (old : KeyValueData) (key : String) (s s' : Data)
    → lookup key s' ≡ lookup key s
    → (old.key ≡ key → IsStale s old)
    → old.key ≡ key
    → IsStale s' old
still-IsStale old key s s' same h is =
    let now = h is in
    let here = ap (λ k. lookup k s') is ∙ same ∙ ap (λ k. lookup k s) (sym is) in
    (λ was e. now.0 was (sym here ∙ e), λ was_not e. now.1 was_not (sym here ∙ e))

rest-IsStale :
    (olds : List KeyValueData) (key : String) (s s' : Data)
    → lookup key s' ≡ lookup key s
    → All (λ (old : KeyValueData). old.key ≡ key → IsStale s old) olds
    → All (λ (old : KeyValueData). old.key ≡ key → IsStale s' old) olds
rest-IsStale [] key s s' same h = tt
rest-IsStale (old ∷ olds) key s s' same h =
    (still-IsStale old key s s' same h.0, rest-IsStale olds key s s' same h.1)

loop_keeps :
    (olds update : List KeyValueData) (s : Data) (key : String)
    → All (λ (old : KeyValueData). old.key ≡ key → IsStale s old) olds
    → lookup key (complete_all olds update s).1 ≡ lookup key s
unfolding complete_all
loop_keeps [] update s key h = refl
loop_keeps (old ∷ olds) update s key h =
    let s1 = (complete_one old update s).1 in
    let kept = one_keeps old update s key h.0 in
    let rest = loop_keeps olds update s1 key (rest-IsStale olds key s s1 kept h.1) in
    elim (Verdict-cases (complete_one old update s).0) [
      | inl done ↦ ground (arith, done, kept, rest)
      | inr (inl ended) ↦ ground (arith, ended, kept)
      | inr (inr (x, broken)) ↦ ground (arith, broken, kept)
    ]

-- CompleteTransaction, whatever it returns, does not change what is stored for a key all of whose
-- condition values are stale, by a change, a deletion or an insertion since they were read, nor for
-- a key that is not among the condition values, whatever the update contains and whatever happened
-- to the other keys.
pub stale_key_kept :
    (t : MemoryStorageTransaction) (update : List KeyValueData) (s : Data) (key : String)
    → All (λ (old : KeyValueData). old.key ≡ key → IsStale s old) t.condition_values
    → lookup key (complete_transaction t update s).1 ≡ lookup key s
unfolding complete_transaction
stale_key_kept t update s key h = ground (arith, loop_keeps t.condition_values update s key h)

current_one :
    (start s : Data) (key : String) (update : List KeyValueData)
    → lookup key s ≡ lookup key start
    → complete_one (snapshot start key) update s ≡ (ok true, write_one update key s)
unfolding complete_one put_if_absent
current_one start s key update same = elim (Option-cases (get_value_data_for_key key update)) [
  | inl nothing ↦ elim (Option-cases (lookup key start)) [
    | inl absent ↦ ground (arith, nothing, absent, same)
    | inr (v, there) ↦ ground (arith, nothing, there, same, eq_iff v v)
  ]
  | inr (d, new) ↦ elim (Option-cases (lookup key start)) [
    | inl absent ↦ ground (arith, new, absent, same, found_key key update d new)
    | inr (v, there) ↦ ground (arith, new, there, same, eq_iff v v, found_key key update d new)
  ]
]

stays-IsCurrent :
    (start s : Data) (key : String) (keys : List String) (update : List KeyValueData)
    → All (λ other. str_eq key other ≡ false) keys
    → IsCurrent start s keys
    → IsCurrent start (write_one update key s) keys
stays-IsCurrent start s key [] update apart h = tt
stays-IsCurrent start s key (other ∷ keys) update apart h = (
  elim (Option-cases (get_value_data_for_key key update)) [
    | inl nothing ↦ ground (arith, nothing, h.0)
    | inr (d, new) ↦ ground (arith, new, h.0, apart.0, lookup-insert key other d.value s)
  ],
  stays-IsCurrent start s key keys update apart.1 h.1,
)

current_all :
    (start s : Data) (keys : List String) (update : List KeyValueData)
    → AreDistinct keys
    → IsCurrent start s keys
    → complete_all (map (snapshot start) keys) update s ≡ (ok true, written update keys s)
unfolding complete_all
current_all start s [] update apart h = refl
current_all start s (key ∷ keys) update apart h = rw (current_one start s key update h.0) (
    current_all start (write_one update key s) keys update apart.1
      (stays-IsCurrent start s key keys update apart.0 h.1))

start-IsCurrent : (s : Data) (keys : List String) → IsCurrent s s keys
start-IsCurrent s [] = tt
start-IsCurrent s (key ∷ keys) = (refl, start-IsCurrent s keys)

attempt_writes :
    (rounds : ℕ) (retry : Bool) (update : UpdateFunc) (keys : List String) (new : List KeyValueData)
    (s : Data)
    → AreDistinct keys
    → update (map (snapshot s) keys) ≡ ok (new, true)
    → attempt
        (suc rounds)
        retry
        update
        (record { condition_values = map (snapshot s) keys; condition_keys = keys })
        s
      ≡ (ok true, written new keys s)
unfolding attempt get_condition_values complete_transaction
attempt_writes rounds retry update keys new s apart e =
    rw (e, current_all s s keys new apart (start-IsCurrent s keys)) refl

attempt_fails :
    (rounds : ℕ) (retry : Bool) (update : UpdateFunc) (t : MemoryStorageTransaction) (x : Error)
    (s : Data)
    → update t.condition_values ≡ err x
    → attempt (suc rounds) retry update t s ≡ (err x, s)
unfolding attempt get_condition_values
attempt_fails rounds retry update t x s e = rw e refl

-- ExecuteTransaction on distinct condition keys, with an update that accepts the current values:
-- it returns true after one round, and exactly the update's entries for the condition keys are
-- written.
pub execute_writes :
    (request : CasRequest) (new : List KeyValueData) (s : Data)
    → AreDistinct request.condition_keys
    → request.update (map (snapshot s) request.condition_keys) ≡ ok (new, true)
    → execute_transaction request s ≡ (ok true, written new request.condition_keys s)
unfolding execute_transaction start_transaction
execute_writes request new s apart e =
    attempt_writes 99 request.retry_till_success_or_error request.update request.condition_keys new
      s apart e

-- An update that fails ends ExecuteTransaction with its error, and nothing is written.
pub execute_fails :
    (request : CasRequest) (x : Error) (s : Data)
    → request.update (map (snapshot s) request.condition_keys) ≡ err x
    → execute_transaction request s ≡ (err x, s)
unfolding execute_transaction start_transaction
execute_fails request x s e =
    attempt_fails 99 request.retry_till_success_or_error request.update _ x s e
