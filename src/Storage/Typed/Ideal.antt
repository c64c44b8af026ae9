-- ===== src/Storage/Typed/Ideal.antt =====
-- A typed storage that never fails, which meets what storage/atomic_storage.go documents of
-- ExecuteTransaction.
use snet_daemon.Prelude.{Bool, true, false, Option, List, [], ◌≡◌, ◌≢◌, refl, arith, inl}
use snet_daemon.Effects.{Result, ok, err}
use snet_daemon.Storage.Typed.{TypedKeyValueData, TypedAtomicStorage}
use snet_daemon.Storage.Typed.Contract.{current, written, IsTransactional}

module _ {K V : Type 0} (same : K → K → Bool) where
  abbrev pub outcome :
      (K → Option V) → Result (List (TypedKeyValueData K V) × Bool) → Result Bool × (K → Option V)
  outcome s (ok (new, true)) = (ok true, written same new s)
  outcome s (ok (new, false)) = (ok false, s)
  outcome s (err e) = (err e, s)

  abbrev pub ideal_typed : TypedAtomicStorage (K → Option V) K V
  ideal_typed = record {
    get = λ key s. (ok (s key), s);
    get_all = λ s. (ok [], s);
    put = λ key value s. (ok tt, s);
    put_if_absent = λ key value s. (ok false, s);
    compare_and_swap = λ key prev new s. (ok false, s);
    delete = λ key s. (ok tt, s);
    execute_transaction =
        λ request s. outcome s (request.update (current same s request.condition_keys));
  }

  abbrev pub plain_view : (K → Option V) → K → Option V
  plain_view s = s

  outcome_done :
      (s : K → Option V) (r : Result (List (TypedKeyValueData K V) × Bool))
      → (outcome s r).0 ≡ ok true
      → (new : List (TypedKeyValueData K V)) × (r ≡ ok (new, true))
        × ((outcome s r).1 ≡ written same new s)
  outcome_done s (ok (new, true)) e = (new, refl, refl)
  outcome_done s (ok (new, false)) e = absurd (ground arith)
  outcome_done s (err x) e = absurd (ground arith)

  outcome_undone :
      (s : K → Option V) (r : Result (List (TypedKeyValueData K V) × Bool))
      → (outcome s r).0 ≢ ok true
      → (outcome s r).1 ≡ s
  outcome_undone s (ok (new, true)) e = absurd (e refl)
  outcome_undone s (ok (new, false)) e = refl
  outcome_undone s (err x) e = refl

  pub ideal_typed-IsTransactional : IsTransactional same ideal_typed plain_view
  ideal_typed-IsTransactional = record {
    executed =
        λ request s e. outcome_done s (request.update (current same s request.condition_keys)) e;
    not_executed = λ request s e.
        inl (outcome_undone s (request.update (current same s request.condition_keys)) e);
  }
