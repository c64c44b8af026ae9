-- ===== src/Escrow/Tests/Prepaid.antt =====
-- Prepaid usage on channel 7 in a storage that never fails.
use snet_daemon.Prelude.{
  true, false, none, some, List, [], ◌∷◌, ◌≡◌, ◌≢◌, refl, arith, inl, Bool, if◌then◌else◌,
}
use snet_daemon.Prelude.Int.{pos, ◌+ℤ◌}
use snet_daemon.Effects.{Result, ok, err}
use snet_daemon.Storage.Typed.{TypedAtomicStorage}
use snet_daemon.Storage.Typed.Contract.{current, written, IsTransactional}
use snet_daemon.Escrow.Prepaid.{
  PrePaidData, PrePaidDataKey, Entry, update_usage, condition_func, increment_used_amount,
  convert_typed_data_to_prepaid_usage, read_entries, read_entry, update_details,
  build_old_and_new_values_for_cas, get_amount_for_usage_type,
}
use snet_daemon.Escrow.Prepaid.Usage.{Usages, same_key, HasAdded, update_usage_ok}
use snet_daemon.Escrow.Prepaid.History.{IsCovered, UsageUpdate, run_usage, run_usage-IsCovered}

abbrev pub outcome : Usages → Result (List Entry × Bool) → Result Bool × Usages
outcome s (ok (new, true)) = (ok true, written same_key new s)
outcome s (ok (new, false)) = (ok false, s)
outcome s (err e) = (err e, s)

abbrev pub storage : TypedAtomicStorage Usages PrePaidDataKey PrePaidData
storage = record {
  get = λ key s. (ok (s key), s);
  get_all = λ s. (ok [], s);
  put = λ key value s. (ok tt, s);
  put_if_absent = λ key value s. (ok false, s);
  compare_and_swap = λ key prev new s. (ok false, s);
  delete = λ key s. (ok tt, s);
  execute_transaction =
      λ request s. outcome s (request.update (current same_key s request.condition_keys));
}

pub outcome_done :
    (s : Usages) (r : Result (List Entry × Bool))
    → (outcome s r).0 ≡ ok true
    → (new : List Entry) × (r ≡ ok (new, true)) × ((outcome s r).1 ≡ written same_key new s)
outcome_done s (ok (new, true)) e = (new, refl, refl)
outcome_done s (ok (new, false)) e = absurd (ground arith)
outcome_done s (err x) e = absurd (ground arith)

pub outcome_undone :
    (s : Usages) (r : Result (List Entry × Bool)) → (outcome s r).0 ≢ ok true → (outcome s r).1 ≡ s
outcome_undone s (ok (new, true)) e = absurd (e refl)
outcome_undone s (ok (new, false)) e = refl
outcome_undone s (err x) e = refl

abbrev pub plain_view : Usages → Usages
plain_view s = s

pub transactional : IsTransactional same_key storage plain_view
transactional = record {
  executed =
      λ request s e. outcome_done s (request.update (current same_key s request.condition_keys)) e;
  not_executed = λ request s e.
      inl (outcome_undone s (request.update (current same_key s request.condition_keys)) e);
}

-- 5 tokens are planned on channel 7, and 2 are used.
abbrev pub usages : Usages
usages key =
    if same_key (record { channel_id = pos 7; usage_type = "P" }) key
    then some (record { amount = pos 5 })
    else if same_key (record { channel_id = pos 7; usage_type = "U" }) key
    then some (record { amount = pos 2 })
    else none

update_usage_ok_example :
    HasAdded storage plain_view transactional
      (pos 7)
      (pos 3)
      "U"
      usages
      (update_usage storage (pos 7) (pos 3) "U" usages).1
unfolding update_usage condition_func increment_used_amount convert_typed_data_to_prepaid_usage
    read_entries read_entry update_details build_old_and_new_values_for_cas
    get_amount_for_usage_type ◌+ℤ◌
update_usage_ok_example =
    update_usage_ok storage plain_view transactional (pos 7) (pos 3) "U" usages refl

abbrev nothing : Usages
nothing key = none

nothing-IsCovered : IsCovered nothing
unfolding ◌+ℤ◌
nothing-IsCovered id = omega arith

abbrev calls : List UsageUpdate
calls =
    record { id = pos 7; revised_amount = pos 5; usage_type = "P" }
    ∷ record { id = pos 7; revised_amount = pos 3; usage_type = "U" }
    ∷ record { id = pos 7; revised_amount = pos 3; usage_type = "U" }
    ∷ record { id = pos 7; revised_amount = pos 3; usage_type = "R" }
    ∷ []

run_usage-IsCovered_example : IsCovered (run_usage storage plain_view transactional calls nothing)
run_usage-IsCovered_example =
    run_usage-IsCovered storage plain_view transactional calls nothing
      (omega arith, (omega arith, (omega arith, (omega arith, tt)))) nothing-IsCovered
