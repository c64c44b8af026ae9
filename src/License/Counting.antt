-- ===== src/License/Counting.antt =====
-- What the condition functions of license_server/license_service.go count.
use snet_daemon.Prelude.{
  String, Option, none, some, List, ◌≡◌, ◌∙◌, ◌⊎◌, refl, ap, sym, subst, inl, inr, arith, eq_iff,
  str_eq, if◌then◌else◌, Bool-cases, Option-cases,
}
use snet_daemon.Prelude.Int.{ℤ, pos, ◌+ℤ◌, ltb_ℤ}
use snet_daemon.Effects.{Error, plain, ok, err}
use snet_daemon.License.{
  Usage, usage_in_calls, get_usage, get_usage_type, set_usage, not_nil, int64_of, clone,
  LicenseUsageTrackerData, Entry, ConditionFuncForLicense, get_usage_for_usage_type, clone_usages,
  build_new_usage_values, add_usage, update_license_usage_data, check_usage, usage_key,
  increment_used_usage, update_planned_usage, increment_refund_usage, condition_for,
}
use snet_daemon.License.Counters.{
  usage_or_zero, count_in, count_of, IsCounted, planned_set, used_added, int64_exact, used_reset,
  refund_added, refund_reset, entries_of, convert-entries_of, get-usage_or_zero, get-set_usage,
  cloned, clone-cases, one_entry, Counts,
}

planned_lem :
    (id : ℤ) (sid : String) (refund planned used : Option LicenseUsageTrackerData)
    (increment : Option ℤ) (new : List Entry)
    → update_planned_usage (entries_of id sid refund planned used) increment id sid ≡ ok new
    → (u : Usage) × (one_entry id sid "P" (set_usage increment u) ≡ new)
unfolding update_planned_usage update_license_usage_data build_new_usage_values
    get_usage_for_usage_type clone_usages
planned_lem id sid refund planned used increment new e =
    let read = convert-entries_of id sid refund planned used in
    elim (clone-cases (usage_or_zero "P" planned)) [
      | inr (x, bad) ↦ absurd (ground (arith, read, bad, e))
      | inl (p, _, cp) ↦ elim (clone-cases (usage_or_zero "U" used)) [
        | inr (x, bad) ↦ absurd (ground (arith, read, cp, bad, e))
        | inl (n, _, cu) ↦ elim (clone-cases (usage_or_zero "R" refund)) [
          | inr (x, bad) ↦ absurd (ground (arith, read, cp, cu, bad, e))
          | inl (r, _, cr) ↦
              (cloned (usage_or_zero "P" planned) p, ground (arith, read, cp, cu, cr, e))
        ]
      ]
    ]

planned-Counts : Counts update_planned_usage "P"
planned-Counts values id sid increment new e =
    let (u, same) = planned_lem id sid _ _ _ increment new e in
    (
      set_usage increment u,
      same,
      subst
          (IsCounted increment (count_of values id sid "P") (count_of values id sid "U")
            (count_of values id sid "R") "P")
          (sym (get-set_usage increment u)) planned_set,
    )

refund_written :
    (id : ℤ) (sid : String) (refund planned used : Option LicenseUsageTrackerData)
    (increment : Option ℤ) (new : List Entry)
    → increment_refund_usage (entries_of id sid refund planned used) increment id sid ≡ ok new
    → (n : ℤ) × (one_entry id sid "R" (set_usage (some n) (usage_or_zero "R" refund)) ≡ new)
      × IsCounted increment (count_in planned) (count_in used) (count_in refund) "R" (some n)
unfolding increment_refund_usage update_license_usage_data build_new_usage_values
    get_usage_for_usage_type add_usage not_nil
refund_written id sid refund planned used none new e =
    absurd (ground (arith, convert-entries_of id sid refund planned used, e))
refund_written id sid refund planned used (some i) new e =
    let read = convert-entries_of id sid refund planned used in
    let u = usage_or_zero "R" refund in
    elim (Bool-cases (ltb_ℤ (pos 0) i)) [
      | inr below ↦
          (pos 0, ground (arith, read, below, e), refund_reset i refl (ground (arith, below)))
      | inl above ↦ elim (Option-cases (get_usage u)) [
        | inl missing ↦ absurd (ground (arith, read, above, missing, e))
        | inr (r, there) ↦ (
          r +ℤ i,
          ground (arith, read, above, there, e),
          refund_added i r refl (sym (get-usage_or_zero "R" refund) ∙ there)
              (ground (arith, above)),
        )
      ]
    ]

refund-Counts : Counts increment_refund_usage "R"
refund-Counts values id sid increment new e =
    let (n, same, counted) = refund_written id sid _ _ _ increment new e in
    (
      set_usage (some n) (usage_or_zero "R" (values (usage_key id sid "R"))),
      same,
      subst
          (IsCounted increment (count_of values id sid "P") (count_of values id sid "U")
            (count_of values id sid "R") "R")
          (sym (get-set_usage (some n) _)) counted,
    )

-- IncrementUsedUsage where no number is nil.
used_run :
    (id : ℤ) (sid : String) (refund planned used : Option LicenseUsageTrackerData) (i p n r : ℤ)
    → get_usage (usage_or_zero "P" planned) ≡ some p
    → get_usage (usage_or_zero "R" refund) ≡ some r
    → clone (usage_or_zero "P" planned) ≡ ok (cloned (usage_or_zero "P" planned) p)
    → clone (usage_or_zero "U" used) ≡ ok (cloned (usage_or_zero "U" used) n)
    → clone (usage_or_zero "R" refund) ≡ ok (cloned (usage_or_zero "R" refund) r)
    → increment_used_usage (entries_of id sid refund planned used) (some i) id sid ≡ (
        let to : ℤ → Usage =
          λ k. usage_in_calls (get_usage_type (usage_or_zero "U" used)) (some k) in
        if ltb_ℤ (pos 0) i
        then (if ltb_ℤ (p +ℤ r) (int64_of n +ℤ i)
            then err (plain "usage exceeded on channel Id %v")
            else ok (one_entry id sid "U" (to (int64_of n +ℤ i))))
        else ok (one_entry id sid "U" (to (pos 0))))
unfolding increment_used_usage update_license_usage_data build_new_usage_values
    get_usage_for_usage_type add_usage not_nil check_usage clone_usages get_usage set_usage
used_run id sid refund planned used i p n r is_p is_r cp cu cr =
    let read = convert-entries_of id sid refund planned used in
    ground (arith, read, is_p, is_r, cp, cu, cr)

used_nil :
    (id : ℤ) (sid : String) (refund planned used : Option LicenseUsageTrackerData)
    (increment : Option ℤ) (new : List Entry)
    → increment_used_usage (entries_of id sid refund planned used) increment id sid ≡ ok new
    → (i p n r : ℤ) × (increment ≡ some i)
      × (get_usage (usage_or_zero "P" planned) ≡ some p)
      × (get_usage (usage_or_zero "U" used) ≡ some n)
      × (get_usage (usage_or_zero "R" refund) ≡ some r)
      × (clone (usage_or_zero "P" planned) ≡ ok (cloned (usage_or_zero "P" planned) p))
      × (clone (usage_or_zero "U" used) ≡ ok (cloned (usage_or_zero "U" used) n))
      × (clone (usage_or_zero "R" refund) ≡ ok (cloned (usage_or_zero "R" refund) r))
unfolding increment_used_usage clone_usages not_nil
used_nil id sid refund planned used increment new e =
    let read = convert-entries_of id sid refund planned used in
    elim (clone-cases (usage_or_zero "P" planned)) [
      | inr (x, bad) ↦ absurd (ground (arith, read, bad, e))
      | inl (p, is_p, cp) ↦ elim (clone-cases (usage_or_zero "U" used)) [
        | inr (x, bad) ↦ absurd (ground (arith, read, cp, bad, e))
        | inl (n, is_n, cu) ↦ elim (clone-cases (usage_or_zero "R" refund)) [
          | inr (x, bad) ↦ absurd (ground (arith, read, cp, cu, bad, e))
          | inl (r, is_r, cr) ↦ elim (Option-cases increment) [
            | inl missing ↦ absurd (ground (arith, read, cp, cu, cr, missing, e))
            | inr (i, there) ↦ (i, p, n, r, there, is_p, is_n, is_r, cp, cu, cr)
          ]
        ]
      ]
    ]

used_written :
    (id : ℤ) (sid : String) (refund planned used : Option LicenseUsageTrackerData)
    (increment : Option ℤ) (new : List Entry)
    → increment_used_usage (entries_of id sid refund planned used) increment id sid ≡ ok new
    → (n : ℤ) × (one_entry id sid "U"
          (usage_in_calls (get_usage_type (usage_or_zero "U" used)) (some n))
        ≡ new)
      × IsCounted increment (count_in planned) (count_in used) (count_in refund) "U" (some n)
used_written id sid refund planned used increment new e =
    let (i, p, n, r, there, is_p, is_n, is_r, cp, cu, cr) =
      used_nil id sid refund planned used increment new e in
    let out =
      sym (used_run id sid refund planned used i p n r is_p is_r cp cu cr)
      ∙ ap (λ k. increment_used_usage (entries_of id sid refund planned used) k id sid) (sym there)
      ∙ e in
    let count = λ (t : String) (o : Option LicenseUsageTrackerData). sym (get-usage_or_zero t o) in
    elim (Bool-cases (ltb_ℤ (pos 0) i)) [
      | inr below ↦ (pos 0, ground (arith, below, out), used_reset i there (ground (arith, below)))
      | inl above ↦ elim (Bool-cases (ltb_ℤ (p +ℤ r) (int64_of n +ℤ i))) [
        | inl over ↦ absurd (ground (arith, above, over, out))
        | inr within ↦ (
          int64_of n +ℤ i,
          ground (arith, above, within, out),
          used_added i p n r there (count "P" planned ∙ is_p) (count "U" used ∙ is_n)
              (count "R" refund ∙ is_r) (ground (arith, above)) (int64_exact n)
              (ground (arith, within)),
        )
      ]
    ]

used-Counts : Counts increment_used_usage "U"
unfolding get_usage
used-Counts values id sid increment new e =
    let (n, same, counted) = used_written id sid _ _ _ increment new e in (_, same, counted)

-- Every usage type has a condition function that counts it, or is refused.
pub type-cases :
    (t : String)
    → ((condition : ConditionFuncForLicense) × (condition_for t ≡ ok condition)
        × Counts condition t)
      ⊎ ((e : Error) × (condition_for t ≡ err e))
unfolding condition_for
type-cases t = elim (Bool-cases (str_eq t "U")) [
  | inl is_u ↦ inl (
    increment_used_usage,
    rw is_u refl,
    subst (Counts increment_used_usage) (sym ((eq_iff t "U").0 is_u)) used-Counts,
  )
  | inr not_u ↦ elim (Bool-cases (str_eq t "P")) [
    | inl is_p ↦ inl (
      update_planned_usage,
      rw (not_u, is_p) refl,
      subst (Counts update_planned_usage) (sym ((eq_iff t "P").0 is_p)) planned-Counts,
    )
    | inr not_p ↦ elim (Bool-cases (str_eq t "R")) [
      | inl is_r ↦ inl (
        increment_refund_usage,
        rw (not_u, not_p, is_r) refl,
        subst (Counts increment_refund_usage) (sym ((eq_iff t "R").0 is_r)) refund-Counts,
      )
      | inr not_r ↦ inr (plain "unknown update type %v", rw (not_u, not_p, not_r) refl)
    ]
  ]
]
