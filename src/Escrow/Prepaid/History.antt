-- ===== src/Escrow/Prepaid/History.antt =====
-- Any sequence of UpdateUsage calls of escrow/prepaid_service.go, on any channels.
use snet_daemon.Prelude.{
  String, false, List, [], ◌∷◌, ◌≡◌, subst, sym, inl, inr, arith, eq_iff, str_eq, All, Bool-cases,
  if◌then◌else◌,
}
use snet_daemon.Prelude.Int.{ℤ, pos, ◌+ℤ◌, ◌≤ℤ◌, eqb_ℤ, int_laws, eq_of_parts}
use snet_daemon.Storage.Typed.{TypedAtomicStorage}
use snet_daemon.Storage.Typed.Contract.{IsTransactional}
use snet_daemon.Escrow.Prepaid.{PrePaidData, PrePaidDataKey, update_usage}
use snet_daemon.Escrow.Prepaid.Usage.{Usages, same_key, amount_of, set_amount, update_usage_changes}

-- No channel has used more than was planned and refunded on it.
abbrev pub IsCovered : Usages → Type 0
IsCovered values =
    (id : ℤ) → amount_of values id "U" ≤ℤ amount_of values id "P" +ℤ amount_of values id "R"

-- One call of UpdateUsage.
pub record UsageUpdate : Type 0 where
  pub id : ℤ
  pub revised_amount : ℤ
  pub usage_type : String

more_planned : (r u p q : ℤ) → pos 0 ≤ℤ r → u ≤ℤ p +ℤ q → u ≤ℤ r +ℤ p +ℤ q
more_planned r u p q positive h = omega int_laws

more_refund : (r u p q : ℤ) → pos 0 ≤ℤ r → u ≤ℤ p +ℤ q → u ≤ℤ p +ℤ (r +ℤ q)
more_refund r u p q positive h = omega int_laws

-- An amount of one channel after an update of the type `t`.
abbrev amount_after : ℤ → Usages → ℤ → String → String → ℤ
amount_after r values id t k =
    if str_eq t k then r +ℤ amount_of values id t else amount_of values id k

abbrev IsCoveredAfter : ℤ → Usages → ℤ → String → Type 0
IsCoveredAfter r values id t =
    amount_after r values id t "U"
    ≤ℤ amount_after r values id t "P" +ℤ amount_after r values id t "R"

update-IsCoveredAfter :
    (r : ℤ) (t : String) (values : Usages) (id : ℤ)
    → pos 0 ≤ℤ r
    → (t ≡ "U" → r +ℤ amount_of values id "U" ≤ℤ amount_of values id "P" +ℤ amount_of values id "R")
    → IsCovered values
    → IsCoveredAfter r values id t
update-IsCoveredAfter r t values id positive within covered = elim (Bool-cases (str_eq t "U")) [
  | inl is_u ↦
      let q = (eq_iff t "U").0 is_u in subst (IsCoveredAfter r values id) (sym q) (within q)
  | inr not_u ↦ elim (Bool-cases (str_eq t "P")) [
    | inl is_p ↦
        subst (IsCoveredAfter r values id) (sym ((eq_iff t "P").0 is_p))
          (more_planned r _ _ _ positive (covered id))
    | inr not_p ↦ elim (Bool-cases (str_eq t "R")) [
      | inl is_r ↦
          subst (IsCoveredAfter r values id) (sym ((eq_iff t "R").0 is_r))
            (more_refund r _ _ _ positive (covered id))
      | inr not_r ↦ rw (not_u, not_p, not_r) (covered id)
    ]
  ]
]

set_here :
    (id a : ℤ) (t k : String) (values : Usages)
    → amount_of (set_amount id t a values) id k ≡ (if str_eq t k then a else amount_of values id k)
set_here id a t k values = ground arith

set_elsewhere :
    (id j a : ℤ) (t k : String) (values : Usages)
    → eqb_ℤ id j ≡ false
    → amount_of (set_amount id t a values) j k ≡ amount_of values j k
set_elsewhere id j a t k values other = ground (arith, other)

same_order : {u u' p p' q q' : ℤ} → u ≡ u' → p ≡ p' → q ≡ q' → u' ≤ℤ p' +ℤ q' → u ≤ℤ p +ℤ q
same_order {u} {u'} {p} {p'} {q} {q'} e f g h =
    subst (λ x. x ≤ℤ p +ℤ q) (sym e)
      (subst (λ y. u' ≤ℤ y +ℤ q) (sym f) (subst (λ z. u' ≤ℤ p' +ℤ z) (sym g) h))

IsCovered-set_amount :
    (id r : ℤ) (t : String) (values : Usages)
    → pos 0 ≤ℤ r
    → (t ≡ "U" → r +ℤ amount_of values id "U" ≤ℤ amount_of values id "P" +ℤ amount_of values id "R")
    → IsCovered values
    → IsCovered (set_amount id t (r +ℤ amount_of values id t) values)
IsCovered-set_amount id r t values positive within covered j =
    let a = r +ℤ amount_of values id t in
    elim (Bool-cases (eqb_ℤ id j)) [
      | inl same ↦
          subst
            (λ n.
              amount_of (set_amount id t a values) n "U"
              ≤ℤ amount_of (set_amount id t a values) n "P"
                +ℤ amount_of (set_amount id t a values) n "R")
            (eq_of_parts id j (ground (arith, same)))
            (same_order (set_here id a t "U" values) (set_here id a t "P" values)
              (set_here id a t "R" values)
              (update-IsCoveredAfter r t values id positive within covered))
      | inr other ↦
          same_order (set_elsewhere id j a t "U" values other)
            (set_elsewhere id j a t "P" values other) (set_elsewhere id j a t "R" values other)
            (covered j)
    ]

module _ {S : Type 0} (storage : TypedAtomicStorage S PrePaidDataKey PrePaidData)
    (values : S → Usages) (w : IsTransactional same_key storage values) where
  -- The calls one after another; a call that fails does not stop the others.
  unfoldable pub run_usage : List UsageUpdate → S → S
  run_usage [] s = s
  run_usage (u ∷ updates) s =
      run_usage updates (update_usage storage u.id u.revised_amount u.usage_type s).1

  update-IsCovered :
      (u : UsageUpdate) (s : S)
      → pos 0 ≤ℤ u.revised_amount
      → IsCovered (values s)
      → IsCovered (values (update_usage storage u.id u.revised_amount u.usage_type s).1)
  update-IsCovered u s positive covered =
      elim (update_usage_changes storage values w u.id u.revised_amount u.usage_type s) [
        | inl kept ↦ subst IsCovered (sym kept) covered
        | inr (sets, within) ↦ subst IsCovered (sym sets) (
            IsCovered-set_amount u.id u.revised_amount u.usage_type (values s) positive within
              covered)
      ]

  -- Over a storage whose transactions are atomic, from a state in which no channel has used more
  -- than was planned and refunded: calls of UpdateUsage with revised amounts that are not
  -- negative, of any usage types on any channels, in any order and whatever they return, keep it
  -- so.
  pub run_usage-IsCovered :
      (updates : List UsageUpdate) (s : S)
      → All (λ (u : UsageUpdate). pos 0 ≤ℤ u.revised_amount) updates
      → IsCovered (values s)
      → IsCovered (values (run_usage updates s))
  unfolding run_usage
  run_usage-IsCovered [] s positive covered = covered
  run_usage-IsCovered (u ∷ updates) s positive covered =
      run_usage-IsCovered updates _ positive.1 (update-IsCovered u s positive.0 covered)
