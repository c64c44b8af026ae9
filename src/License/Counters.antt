-- ===== src/License/Counters.antt =====
-- What is stored of the usages of license_server/license_storage.go, and how it may change.
use snet_daemon.Prelude.{
  ◌^◌, ap, ◌∙◌, String, Bool, Option, none, some, List, [], ◌∷◌, ◌≡◌, ◌&&◌, ◌⊎◌, refl, inl, inr,
  arith, str_eq, Option-cases,
}
use snet_daemon.Prelude.Int.{negsuc, to_int64, to_uint64, ℤ, pos, ◌+ℤ◌, ◌≤ℤ◌, ◌<ℤ◌, eqb_ℤ}
use snet_daemon.Effects.{Error, plain, ok, err}
use snet_daemon.Storage.Typed.Contract.{current}
use snet_daemon.License.{
  Usage, usage_in_amount, usage_in_calls, get_usage, get_usage_type, set_usage, not_nil, int64_of,
  clone, LicenseUsageTrackerKey, LicenseUsageTrackerData, LicenseUsageData, Entry,
  ConditionFuncForLicense, no_usages, read_usage, read_usages,
  convert_typed_data_to_license_data_usage, usage_key, get_all_license_keys,
}

abbrev pub same_key : LicenseUsageTrackerKey → LicenseUsageTrackerKey → Bool
same_key a b =
    eqb_ℤ a.channel_id b.channel_id
    && (str_eq a.service_id b.service_id && str_eq a.usage_type b.usage_type)

-- What is stored of the usages.
abbrev pub Counters : Type 0
Counters = LicenseUsageTrackerKey → Option LicenseUsageTrackerData

abbrev pub usage_or_zero : String → Option LicenseUsageTrackerData → Usage
usage_or_zero usage_type none = usage_in_amount usage_type (some (pos 0))
usage_or_zero usage_type (some data') = data'.usage

-- The count of a type; a missing one is 0.
abbrev pub count_in : Option LicenseUsageTrackerData → Option ℤ
count_in none = some (pos 0)
count_in (some data') = get_usage data'.usage

abbrev pub count_of : Counters → ℤ → String → String → Option ℤ
count_of values channel_id service_id usage_type =
    count_in (values (usage_key channel_id service_id usage_type))

-- The new count of a type, from the increment and the three counts before.
pub data IsCounted (increment planned used refund : Option ℤ) : String → Option ℤ → Type 0 where
  planned_set : IsCounted increment planned used refund "P" increment
  used_added :
      (i p u r : ℤ)
      → increment ≡ some i
      → planned ≡ some p
      → used ≡ some u
      → refund ≡ some r
      → pos 0 <ℤ i
      → (pos 0 ≤ℤ u → u <ℤ pos (2 ^ 63) → int64_of u ≡ u)
      → int64_of u +ℤ i ≤ℤ p +ℤ r
      → IsCounted increment planned used refund "U" (some (int64_of u +ℤ i))
  used_reset :
      (i : ℤ)
      → increment ≡ some i
      → i ≤ℤ pos 0
      → IsCounted increment planned used refund "U" (some (pos 0))
  refund_added :
      (i r : ℤ)
      → increment ≡ some i
      → refund ≡ some r
      → pos 0 <ℤ i
      → IsCounted increment planned used refund "R" (some (r +ℤ i))
  refund_reset :
      (i : ℤ)
      → increment ≡ some i
      → i ≤ℤ pos 0
      → IsCounted increment planned used refund "R" (some (pos 0))

-- Int64 of a number that an int64 can hold.
pub int64_exact : (u : ℤ) → pos 0 ≤ℤ u → u <ℤ pos (2 ^ 63) → int64_of u ≡ u
unfolding int64_of
int64_exact (pos n) positive below =
    let small : to_uint64 (pos n) ≡ n = omega (arith, below) in
    let fits : to_int64 n ≡ pos n = ground (arith, below) in ap to_int64 small ∙ fits
int64_exact (negsuc n) positive below = absurd (omega (arith, positive))

abbrev pub entries_of :
    ℤ → String → (refund planned used : Option LicenseUsageTrackerData) → List Entry
entries_of id sid refund planned used =
    record { key = usage_key id sid "R"; value = refund }
    ∷ record { key = usage_key id sid "P"; value = planned }
    ∷ record { key = usage_key id sid "U"; value = used }
    ∷ []

abbrev pub read_of :
    ℤ → String → (refund planned used : Option LicenseUsageTrackerData) → LicenseUsageData
read_of id sid refund planned used = record no_usages {
  channel_id = id;
  service_id = sid;
  planned = usage_or_zero "P" planned;
  used = usage_or_zero "U" used;
  refund = usage_or_zero "R" refund;
}

-- The three usages are read, in whatever combination they are stored.
pub convert-entries_of :
    (id : ℤ) (sid : String) (refund planned used : Option LicenseUsageTrackerData)
    → convert_typed_data_to_license_data_usage (entries_of id sid refund planned used)
      ≡ ok (read_of id sid refund planned used)
unfolding convert_typed_data_to_license_data_usage read_usages read_usage
convert-entries_of id sid none none none = refl
convert-entries_of id sid none none (some u) = refl
convert-entries_of id sid none (some p) none = refl
convert-entries_of id sid none (some p) (some u) = refl
convert-entries_of id sid (some r) none none = refl
convert-entries_of id sid (some r) none (some u) = refl
convert-entries_of id sid (some r) (some p) none = refl
convert-entries_of id sid (some r) (some p) (some u) = refl

pub get-usage_or_zero :
    (t : String) (o : Option LicenseUsageTrackerData) → get_usage (usage_or_zero t o) ≡ count_in o
unfolding get_usage
get-usage_or_zero t none = refl
get-usage_or_zero t (some data') = refl

pub get-set_usage : (n : Option ℤ) (u : Usage) → get_usage (set_usage n u) ≡ n
unfolding get_usage set_usage
get-set_usage n (usage_in_amount t a) = refl
get-set_usage n (usage_in_calls t c) = refl

abbrev pub cloned : Usage → ℤ → Usage
cloned u n = usage_in_calls (get_usage_type u) (some (int64_of n))

pub clone-cases :
    (u : Usage)
    → ((n : ℤ) × (get_usage u ≡ some n) × (clone u ≡ ok (cloned u n)))
      ⊎ ((e : Error) × (clone u ≡ err e))
unfolding clone not_nil
clone-cases u = elim (Option-cases (get_usage u)) [
  | inl missing ↦
      inr (plain "invalid memory address or nil pointer dereference", ground (arith, missing))
  | inr (n, there) ↦ inl (n, there, ground (arith, there))
]

abbrev pub one_entry : ℤ → String → String → Usage → List Entry
one_entry id sid t u =
    record {
      key = usage_key id sid t;
      value = some (record { channel_id = id; service_id = sid; usage = u });
    }
    ∷ []

-- A condition function writes the usage of its type alone.
abbrev pub Counts : ConditionFuncForLicense → String → Type 0
Counts condition t =
    (values : Counters) (id : ℤ) (sid : String) (increment : Option ℤ) (new : List Entry)
    → condition (current same_key values (get_all_license_keys id sid)) increment id sid ≡ ok new
    → (u : Usage) × (one_entry id sid t u ≡ new)
      × IsCounted increment (count_of values id sid "P") (count_of values id sid "U")
          (count_of values id sid "R") t (get_usage u)
