-- ===== src/Escrow/Prepaid/Usage.antt =====
-- UpdateUsage of escrow/prepaid_service.go: what it writes, and that a channel's used amount stays
-- within what was planned and refunded.
use snet_daemon.Prelude.{
  String, Bool, true, Option, none, some, List, [], ◌∷◌, ◌≡◌, ◌≢◌, ◌∙◌, ◌&&◌, ◌⊎◌, refl, ap, sym,
  subst, inl, inr, arith, eq_iff, str_eq, if◌then◌else◌, Bool-cases,
}
use snet_daemon.Prelude.Int.{ℤ, pos, ◌+ℤ◌, ◌≤ℤ◌, ltb_ℤ, eqb_ℤ}
use snet_daemon.Effects.{Error, plain, Result, ok, err, Result-cases, Verdict-cases}
use snet_daemon.Storage.Typed.{TypedAtomicStorage}
use snet_daemon.Storage.Typed.Contract.{current, written, HasWritten, IsTransactional}
use snet_daemon.Escrow.Prepaid.{
  PrePaidData, PrePaidDataKey, Entry, ConditionFunc, used_amount_type, planned_amount_type,
  refund_amount_type, no_usage, read_entry, read_entries, convert_typed_data_to_prepaid_usage,
  get_amount_for_usage_type, update_details, build_old_and_new_values_for_cas,
  increment_used_amount, increment_planned_amount, increment_refund_amount, condition_func,
  usage_request, get_all_keys, update_usage,
}

abbrev pub same_key : PrePaidDataKey → PrePaidDataKey → Bool
same_key a b = eqb_ℤ a.channel_id b.channel_id && str_eq a.usage_type b.usage_type

-- What is stored of the usages; a missing amount counts as 0.
abbrev pub Usages : Type 0
Usages = PrePaidDataKey → Option PrePaidData

abbrev amount_in : Option PrePaidData → ℤ
amount_in none = pos 0
amount_in (some data') = data'.amount

abbrev pub amount_of : Usages → ℤ → String → ℤ
amount_of values id usage_type =
    amount_in (values (record { channel_id = id; usage_type = usage_type }))

-- One amount is set.
abbrev pub set_amount : ℤ → String → ℤ → Usages → Usages
set_amount id usage_type amount values key =
    if same_key (record { channel_id = id; usage_type = usage_type }) key
    then some (record { amount = amount })
    else values key

abbrev entries_of : ℤ → (refund planned used : Option PrePaidData) → List Entry
entries_of id refund planned used =
    record { key = record { channel_id = id; usage_type = refund_amount_type }; value = refund }
    ∷ record { key = record { channel_id = id; usage_type = planned_amount_type }; value = planned }
    ∷ record { key = record { channel_id = id; usage_type = used_amount_type }; value = used }
    ∷ []

-- The three amounts are read, in whatever combination they are stored.
convert-entries_of :
    (id : ℤ) (refund planned used : Option PrePaidData)
    → convert_typed_data_to_prepaid_usage (entries_of id refund planned used)
      ≡ ok (record no_usage {
        channel_id = id;
        planned_amount = amount_in planned;
        used_amount = amount_in used;
        refund_amount = amount_in refund;
      })
unfolding convert_typed_data_to_prepaid_usage read_entries read_entry
convert-entries_of id none none none = refl
convert-entries_of id none none (some u) = refl
convert-entries_of id none (some p) none = refl
convert-entries_of id none (some p) (some u) = refl
convert-entries_of id (some r) none none = refl
convert-entries_of id (some r) none (some u) = refl
convert-entries_of id (some r) (some p) none = refl
convert-entries_of id (some r) (some p) (some u) = refl

-- The usage types that UpdateUsage knows.
abbrev pub IsUsageType : String → Type 0
IsUsageType t = (t ≡ used_amount_type) ⊎ (t ≡ planned_amount_type) ⊎ (t ≡ refund_amount_type)

abbrev one_entry : ℤ → String → ℤ → List Entry
one_entry id usage_type amount =
    record {
      key = record { channel_id = id; usage_type = usage_type };
      value = some (record { amount = amount });
    }
    ∷ []

-- The condition function adds to the amount of this type and changes nothing else, and the used
-- amount only up to what was planned and refunded.
abbrev Adds : ConditionFunc → String → Type 0
Adds condition usage_type =
    (values : Usages) (id r : ℤ) (new : List Entry)
    → condition (current same_key values (get_all_keys id)) r id ≡ ok new
    → (written same_key new values
        ≡ set_amount id usage_type (r +ℤ amount_of values id usage_type) values)
      × (usage_type ≡ used_amount_type
          → r +ℤ amount_of values id "U" ≤ℤ amount_of values id "P" +ℤ amount_of values id "R")

result_of :
    {x y : List Entry} (values : Usages)
    → ok x ≡ ok y
    → written same_key y values ≡ written same_key x values
result_of values e = ground arith

planned-Adds : Adds increment_planned_amount planned_amount_type
unfolding increment_planned_amount update_details build_old_and_new_values_for_cas
    get_amount_for_usage_type
planned-Adds values id r new e =
    let out : increment_planned_amount (current same_key values (get_all_keys id)) r id
        ≡ ok (one_entry id "P" (r +ℤ amount_of values id "P")) =
      rw (convert-entries_of id _ _ _) refl in
    (
      result_of values (sym out ∙ e),
      λ q. ground (arith, eq_iff planned_amount_type used_amount_type),
    )

refund-Adds : Adds increment_refund_amount refund_amount_type
unfolding increment_refund_amount update_details build_old_and_new_values_for_cas
    get_amount_for_usage_type
refund-Adds values id r new e =
    let out : increment_refund_amount (current same_key values (get_all_keys id)) r id
        ≡ ok (one_entry id "R" (r +ℤ amount_of values id "R")) =
      rw (convert-entries_of id _ _ _) refl in
    (
      result_of values (sym out ∙ e),
      λ q. ground (arith, eq_iff refund_amount_type used_amount_type),
    )

used_amount_lem :
    (values : Usages) (id r : ℤ)
    → increment_used_amount (current same_key values (get_all_keys id)) r id ≡ (
        if ltb_ℤ (amount_of values id "P" +ℤ amount_of values id "R") (r +ℤ amount_of values id "U")
        then err (plain "Usage Exceeded on channel Id %v")
        else ok (one_entry id "U" (r +ℤ amount_of values id "U")))
unfolding increment_used_amount update_details build_old_and_new_values_for_cas
    get_amount_for_usage_type
used_amount_lem values id r = rw (convert-entries_of id _ _ _) refl

used-Adds : Adds increment_used_amount used_amount_type
used-Adds values id r new e =
    let budget = amount_of values id "P" +ℤ amount_of values id "R" in
    let total = r +ℤ amount_of values id "U" in
    let out = sym (used_amount_lem values id r) ∙ e in
    elim (Bool-cases (ltb_ℤ budget total)) [
      | inl over ↦ absurd (ground (arith, over, out))
      | inr within ↦ (
        result_of {x = one_entry id "U" total} values (ground (arith, within, out)),
        λ q. ground (arith, within),
      )
    ]

-- Every usage type has a condition function that adds to it, or is refused.
type-cases :
    (t : String)
    → ((condition : ConditionFunc) × (condition_func t ≡ ok condition) × Adds condition t)
      ⊎ ((e : Error) × (condition_func t ≡ err e))
unfolding condition_func
type-cases t = elim (Bool-cases (str_eq t "U")) [
  | inl is_u ↦ inl (
    increment_used_amount,
    rw is_u refl,
    subst (Adds increment_used_amount) (sym ((eq_iff t "U").0 is_u)) used-Adds,
  )
  | inr not_u ↦ elim (Bool-cases (str_eq t "P")) [
    | inl is_p ↦ inl (
      increment_planned_amount,
      rw (not_u, is_p) refl,
      subst (Adds increment_planned_amount) (sym ((eq_iff t "P").0 is_p)) planned-Adds,
    )
    | inr not_p ↦ elim (Bool-cases (str_eq t "R")) [
      | inl is_r ↦ inl (
        increment_refund_amount,
        rw (not_u, not_p, is_r) refl,
        subst (Adds increment_refund_amount) (sym ((eq_iff t "R").0 is_r)) refund-Adds,
      )
      | inr not_r ↦ inr (plain "Unknown Update type %v", rw (not_u, not_p, not_r) refl)
    ]
  ]
]

module _ {S : Type 0} (storage : TypedAtomicStorage S PrePaidDataKey PrePaidData)
    (values : S → Usages) (w : IsTransactional same_key storage values) where
  -- A change that the usage type allows.
  abbrev pub HasAdded : ℤ → ℤ → String → Usages → Usages → Type 0
  HasAdded id r t before after =
      (after ≡ set_amount id t (r +ℤ amount_of before id t) before)
      × (t ≡ used_amount_type
          → r +ℤ amount_of before id "U" ≤ℤ amount_of before id "P" +ℤ amount_of before id "R")

  written-HasAdded :
      (condition : ConditionFunc) (t : String) (id r : ℤ) (before after : Usages)
      → Adds condition t
      → HasWritten same_key (usage_request condition id r) before after
      → HasAdded id r t before after
  written-HasAdded condition t id r before after adds (new, accepted, is_after) =
      elim (Result-cases (condition (current same_key before (get_all_keys id)) r id)) [
        | inl (made, e) ↦
            let same : written same_key new before ≡ written same_key made before =
              result_of before (ground (arith, e, accepted)) in
            let (sets, within) = adds before id r made e in (is_after ∙ same ∙ sets, within)
        | inr (x, e) ↦ absurd (ground (arith, e, accepted))
      ]

  -- UpdateUsage is the transaction of its condition function.
  known_run :
      (id r : ℤ) (t : String) (condition : ConditionFunc) (s : S)
      → condition_func t ≡ ok condition
      → let run = storage.execute_transaction (usage_request condition id r) s in
        ((update_usage storage id r t s).1 ≡ run.1)
        × ((update_usage storage id r t s).0 ≡ ok tt → run.0 ≡ ok true)
  unfolding update_usage
  known_run id r t condition s known =
      elim (Verdict-cases (storage.execute_transaction (usage_request condition id r) s).0) [
        | inl done ↦ (ground (arith, known, done), λ _. done)
        | inr (inl undone) ↦
            (ground (arith, known, undone), λ e. absurd (ground (arith, known, undone)))
        | inr (inr (x, broken)) ↦
            (ground (arith, known, broken), λ e. absurd (ground (arith, known, broken)))
      ]

  unknown_run :
      (id r : ℤ) (t : String) (x : Error) (s : S)
      → condition_func t ≡ err x
      → update_usage storage id r t s ≡ (err x, s)
  unfolding update_usage
  unknown_run id r t x s unknown = ground (arith, unknown)

  -- Over a storage whose transactions are atomic, UpdateUsage that succeeds adds the revised
  -- amount to the amount of its type, and changes no other amount of any channel; a used amount
  -- goes up only if it stays within what was planned and refunded.
  pub update_usage_ok :
      (id r : ℤ) (t : String) (s : S)
      → (update_usage storage id r t s).0 ≡ ok tt
      → HasAdded id r t (values s) (values (update_usage storage id r t s).1)
  update_usage_ok id r t s e = elim (type-cases t) [
    | inr (x, unknown) ↦ absurd (ground (arith, unknown_run id r t x s unknown))
    | inl (condition, known, adds) ↦
        let run = known_run id r t condition s known in
        let added =
          written-HasAdded condition t id r (values s) _ adds
            (w.executed (usage_request condition id r) s (run.1 e)) in
        (ap values run.0 ∙ added.0, added.1)
  ]

  -- Whatever UpdateUsage returns, it has added the revised amount or changed nothing.
  pub update_usage_changes :
      (id r : ℤ) (t : String) (s : S)
      → (values (update_usage storage id r t s).1 ≡ values s)
        ⊎ HasAdded id r t (values s) (values (update_usage storage id r t s).1)
  update_usage_changes id r t s = elim (type-cases t) [
    | inr (x, unknown) ↦
        inl (ap (λ (p : Result (Unit {0}) × S). values p.1) (unknown_run id r t x s unknown))
    | inl (condition, known, adds) ↦
        let request = usage_request condition id r in
        let run = known_run id r t condition s known in
        let added : HasWritten same_key request (values s)
              (values (storage.execute_transaction request s).1)
            → HasAdded id r t (values s) (values (update_usage storage id r t s).1) =
          λ k.
            let parts = written-HasAdded condition t id r (values s) _ adds k in
            (ap values run.0 ∙ parts.0, parts.1) in
        let failure : (storage.execute_transaction request s).0 ≢ ok true
            → (values (update_usage storage id r t s).1 ≡ values s)
              ⊎ HasAdded id r t (values s) (values (update_usage storage id r t s).1) =
          λ not_done. elim (w.not_executed request s not_done) [
            | inl kept ↦ inl (ap values run.0 ∙ kept)
            | inr k ↦ inr (added k)
          ] in
        elim (Verdict-cases (storage.execute_transaction request s).0) [
          | inl done ↦ inr (added (w.executed request s done))
          | inr (inl undone) ↦ failure (λ q. ground (arith, undone))
          | inr (inr (x, broken)) ↦ failure (λ q. ground (arith, broken))
        ]
  ]
