-- ===== src/License/Updates.antt =====
-- UpdateLicenseUsage of license_server/license_service.go: what it writes.
use snet_daemon.Prelude.{
  String, true, false, Option, ◌≡◌, ◌∙◌, refl, ap, sym, subst, inl, inr, arith, eq_iff,
}
use snet_daemon.Prelude.Int.{ℤ}
use snet_daemon.Effects.{Error, ok, err, Result-cases, Verdict-cases}
use snet_daemon.Storage.Typed.Contract.{current, written, HasWritten, IsTransactional}
use snet_daemon.License.{
  LicenseUsageTrackerKey, ConditionFuncForLicense, usage_key, get_all_license_keys, condition_for,
  license_request,
}
use snet_daemon.License.Service.{LockingLicenseService, update_license_usage}
use snet_daemon.License.Counters.{Counters, same_key, count_of, IsCounted, one_entry, Counts}
use snet_daemon.License.Counting.{type-cases}

module _ {S L : Type 0} (h : LockingLicenseService S L) (values : S → Counters)
    (w : IsTransactional same_key h.usage_storage values) where
  -- The count of one type has changed, and no other usage of any channel and service.
  abbrev pub HasCounted : ℤ → String → Option ℤ → String → Counters → Counters → Type 0
  HasCounted id sid increment t before after =
      IsCounted increment (count_of before id sid "P") (count_of before id sid "U")
        (count_of before id sid "R") t (count_of after id sid t)
      × ((key : LicenseUsageTrackerKey)
          → same_key (usage_key id sid t) key ≡ false
          → after key ≡ before key)

  same_key_refl :
      (id : ℤ) (sid t : String) → same_key (usage_key id sid t) (usage_key id sid t) ≡ true
  same_key_refl id sid t = ground (arith, eq_iff sid sid, eq_iff t t)

  written-HasCounted :
      (condition : ConditionFuncForLicense) (t : String) (id : ℤ) (sid : String)
      (increment : Option ℤ) (before after : Counters)
      → Counts condition t
      → HasWritten same_key (license_request condition id sid increment) before after
      → HasCounted id sid increment t before after
  written-HasCounted condition t id sid increment before after counts (new, accepted, is_after) =
      let values = current same_key before (get_all_license_keys id sid) in
      elim (Result-cases (condition values increment id sid)) [
        | inr (x, e) ↦ absurd (ground (arith, e, accepted))
        | inl (made, e) ↦
            let (u, is_made, counted) = counts before id sid increment made e in
            let same : one_entry id sid t u ≡ new = is_made ∙ ground (arith, e, accepted) in
            let sets : written same_key (one_entry id sid t u) before ≡ after =
              ap (λ l. written same_key l before) same ∙ sym is_after in
            subst (HasCounted id sid increment t before) sets (
              subst
                  (IsCounted increment (count_of before id sid "P") (count_of before id sid "U")
                    (count_of before id sid "R") t)
                  (rw (same_key_refl id sid t) refl) counted,
              λ key other. rw other refl,
            )
      ]

  known_run :
      (id : ℤ) (sid : String) (increment : Option ℤ) (t : String)
      (condition : ConditionFuncForLicense) (s : S)
      → condition_for t ≡ ok condition
      → let run =
          h.usage_storage.execute_transaction (license_request condition id sid increment) s in
        ((update_license_usage h id sid increment t s).1 ≡ run.1)
        × ((update_license_usage h id sid increment t s).0 ≡ ok tt → run.0 ≡ ok true)
  unfolding update_license_usage
  known_run id sid increment t condition s known =
      elim (Verdict-cases
        (h.usage_storage.execute_transaction (license_request condition id sid increment) s).0) [
          | inl done ↦ (ground (arith, known, done), λ _. done)
          | inr (inl undone) ↦
              (ground (arith, known, undone), λ e. absurd (ground (arith, known, undone)))
          | inr (inr (x, broken)) ↦
              (ground (arith, known, broken), λ e. absurd (ground (arith, known, broken)))
        ]

  unknown_run :
      (id : ℤ) (sid : String) (increment : Option ℤ) (t : String) (x : Error) (s : S)
      → condition_for t ≡ err x
      → update_license_usage h id sid increment t s ≡ (err x, s)
  unfolding update_license_usage
  unknown_run id sid increment t x s unknown = ground (arith, unknown)

  -- Over a storage whose transactions are atomic, UpdateLicenseUsage that succeeds changes the
  -- usage of its type for this channel and service alone: it sets what is planned to the
  -- increment, whatever was planned before; it adds a positive increment to what is refunded; it
  -- adds a positive increment to the int64 of what is used, which is what is used if this is from 0
  -- to 2^63 - 1, and only within what is planned and refunded; and it sets what is used or refunded
  -- to 0 for any other increment.
  pub update_license_usage_ok :
      (id : ℤ) (sid : String) (increment : Option ℤ) (t : String) (s : S)
      → (update_license_usage h id sid increment t s).0 ≡ ok tt
      → HasCounted id sid increment t
          (values s)
          (values (update_license_usage h id sid increment t s).1)
  update_license_usage_ok id sid increment t s e = elim (type-cases t) [
    | inr (x, unknown) ↦ absurd (ground (arith, unknown_run id sid increment t x s unknown))
    | inl (condition, known, counts) ↦
        let run = known_run id sid increment t condition s known in
        let request = license_request condition id sid increment in
        subst (HasCounted id sid increment t (values s)) (ap values (sym run.0)) (
          written-HasCounted condition t id sid increment (values s) _ counts
            (w.executed request s (run.1 e)))
  ]
