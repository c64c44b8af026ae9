-- ===== src/Storage/Contract.antt =====
-- What the interface AtomicStorage of storage/atomic_storage.go documents of its operations, over
-- the values that a state holds. An operation that fails may or may not have written.
use snet_daemon.Prelude.{
  String, true, false, Option, none, some, ◌≡◌, ◌≢◌, ◌⊎◌, str_eq, if◌then◌else◌,
}
use snet_daemon.Effects.{Error, ok, err}
use snet_daemon.Storage.Interface.{AtomicStorage}

abbrev pub Values : Type 0
Values = String → Option String

abbrev pub set_value : String → Option String → Values → Values
set_value key new values = λ j. if str_eq key j then new else values j

pub record IsKeyValueStorage {S T : Type 0} (storage : AtomicStorage S T) (values : S → Values)
    : Type 0 where
  pub get_shows :
      (key : String) (s : S) (found : Option String)
      → (storage.get key s).0 ≡ ok found
      → found ≡ values s key
  pub get_keeps : (key : String) (s : S) → values (storage.get key s).1 ≡ values s
  pub put_done :
      (key new : String) (s : S)
      → (storage.put key new s).0 ≡ ok tt
      → values (storage.put key new s).1 ≡ set_value key (some new) (values s)
  pub absent_done :
      (key new : String) (s : S)
      → (storage.put_if_absent key new s).0 ≡ ok true
      → (values s key ≡ none)
        × (values (storage.put_if_absent key new s).1 ≡ set_value key (some new) (values s))
  pub absent_refused :
      (key new : String) (s : S)
      → (storage.put_if_absent key new s).0 ≡ ok false
      → (values s key ≢ none) × (values (storage.put_if_absent key new s).1 ≡ values s)
  pub absent_failed :
      (key new : String) (s : S) (e : Error)
      → (storage.put_if_absent key new s).0 ≡ err e
      → (values (storage.put_if_absent key new s).1 ≡ values s)
        ⊎ ((values s key ≡ none)
            × (values (storage.put_if_absent key new s).1 ≡ set_value key (some new) (values s)))
  pub swap_done :
      (key prev new : String) (s : S)
      → (storage.compare_and_swap key prev new s).0 ≡ ok true
      → (values s key ≡ some prev)
        × (values (storage.compare_and_swap key prev new s).1 ≡ set_value key (some new) (values s))
  pub swap_refused :
      (key prev new : String) (s : S)
      → (storage.compare_and_swap key prev new s).0 ≡ ok false
      → (values s key ≢ some prev) × (values (storage.compare_and_swap key prev new s).1 ≡ values s)
  pub swap_failed :
      (key prev new : String) (s : S) (e : Error)
      → (storage.compare_and_swap key prev new s).0 ≡ err e
      → (values (storage.compare_and_swap key prev new s).1 ≡ values s)
        ⊎ ((values s key ≡ some prev)
            × (values (storage.compare_and_swap key prev new s).1
                ≡ set_value key (some new) (values s)))
  pub delete_done :
      (key : String) (s : S)
      → (storage.delete key s).0 ≡ ok tt
      → values (storage.delete key s).1 ≡ set_value key none (values s)
