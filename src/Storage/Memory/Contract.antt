-- ===== src/Storage/Memory/Contract.antt =====
-- storage/memory_storage.go keeps the contract of AtomicStorage.
use snet_daemon.Prelude.{
  String, true, false, none, some, ◌≡◌, ◌≢◌, refl, ap, ◌∙◌, inl, inr, arith, eq_iff, str_eq,
  Bool-cases, Option-cases,
}
use snet_daemon.Effects.{ok}
use snet_daemon.Storage.Dict.{lookup, insert, erase, lookup-insert, lookup-erase}
use snet_daemon.Storage.Contract.{Values, set_value, IsKeyValueStorage}
use snet_daemon.Storage.Memory.{
  Data, memory_storage, get, put, put_if_absent, compare_and_swap, delete,
}

abbrev pub values : Data → Values
values s = λ key. lookup key s

insert_sets :
    (key new : String) (s : Data) → values (insert key new s) ≡ set_value key (some new) (values s)
insert_sets key new s = λ i j. lookup-insert key j new s i

erase_sets : (key : String) (s : Data) → values (erase key s) ≡ set_value key none (values s)
erase_sets key s = λ i j. lookup-erase key j s i

absent_done :
    (key new : String) (s : Data)
    → (put_if_absent key new s).0 ≡ ok true
    → (lookup key s ≡ none)
      × (values (put_if_absent key new s).1 ≡ set_value key (some new) (values s))
unfolding put_if_absent
absent_done key new s e = elim (Option-cases (lookup key s)) [
  | inl eq ↦ (eq, ap values (ground (arith, eq)) ∙ insert_sets key new s)
  | inr (v, eq) ↦ absurd (ground (arith, eq))
]

absent_refused :
    (key new : String) (s : Data)
    → (put_if_absent key new s).0 ≡ ok false
    → (lookup key s ≢ none) × (values (put_if_absent key new s).1 ≡ values s)
unfolding put_if_absent
absent_refused key new s e = elim (Option-cases (lookup key s)) [
  | inl eq ↦ absurd (ground (arith, eq))
  | inr (v, eq) ↦ (λ h. ground (arith, eq), ap values (ground (arith, eq)))
]

swap_done :
    (key prev new : String) (s : Data)
    → (compare_and_swap key prev new s).0 ≡ ok true
    → (lookup key s ≡ some prev)
      × (values (compare_and_swap key prev new s).1 ≡ set_value key (some new) (values s))
unfolding compare_and_swap
swap_done key prev new s e = elim (Option-cases (lookup key s)) [
  | inl eq ↦ absurd (ground (arith, eq))
  | inr (v, eq) ↦ elim (Bool-cases (str_eq v prev)) [
    | inl same ↦ (
      ground (arith, eq, same, eq_iff v prev),
      ap values (ground (arith, eq, same)) ∙ insert_sets key new s,
    )
    | inr other ↦ absurd (ground (arith, eq, other))
  ]
]

swap_refused :
    (key prev new : String) (s : Data)
    → (compare_and_swap key prev new s).0 ≡ ok false
    → (lookup key s ≢ some prev) × (values (compare_and_swap key prev new s).1 ≡ values s)
unfolding compare_and_swap
swap_refused key prev new s e = elim (Option-cases (lookup key s)) [
  | inl eq ↦ (λ h. ground (arith, eq), ap values (ground (arith, eq)))
  | inr (v, eq) ↦ elim (Bool-cases (str_eq v prev)) [
    | inl same ↦ absurd (ground (arith, eq, same))
    | inr other ↦ (λ h. ground (arith, eq, eq_iff v prev), ap values (ground (arith, eq, other)))
  ]
]

-- Every operation on a key of the in-memory storage does to the stored values what the interface
-- says: a read shows the value, Put and Delete set it, and PutIfAbsent and CompareAndSwap write
-- exactly if they return true, which is exactly if the key is absent, or holds the expected value.
pub memory-IsKeyValueStorage : IsKeyValueStorage memory_storage values
unfolding get put put_if_absent compare_and_swap delete
memory-IsKeyValueStorage = record {
  get_shows = λ key s found e. ground arith;
  get_keeps = λ key s. refl;
  put_done = λ key new s e. insert_sets key new s;
  absent_done = absent_done;
  absent_refused = absent_refused;
  absent_failed = λ key new s x e. elim (Option-cases (lookup key s)) [
    | inl eq ↦ absurd (ground (arith, eq))
    | inr (v, eq) ↦ absurd (ground (arith, eq))
  ];
  swap_done = swap_done;
  swap_refused = swap_refused;
  swap_failed = λ key prev new s x e. elim (Option-cases (lookup key s)) [
    | inl eq ↦ absurd (ground (arith, eq))
    | inr (v, eq) ↦ absurd (ground (arith, eq))
  ];
  delete_done = λ key s e. erase_sets key s;
}
