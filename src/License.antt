-- ===== src/License.antt =====
-- The usages of license_server/license_storage.go, and the condition functions of
-- license_server/license_service.go: what is planned, used and refunded under a license.
pub mod Service
pub mod Counters
pub mod Counting
pub mod Updates
pub mod Tests
use Prim.Native.String.{◌++◌}
use snet_daemon.Prelude.{
  ℕ, String, Bool, true, false, not, Option, none, some, List, [], ◌∷◌, map, ◌^◌, ltb, str_eq, ◌&&◌,
  ◌-◌, ◌%◌, if◌then◌else◌,
}
use snet_daemon.Prelude.Int.{ℤ, pos, negsuc, ◌+ℤ◌, ltb_ℤ, to_int64, to_uint64}
use snet_daemon.Prelude.Decimal.{render}
use snet_daemon.Effects.{Result, ok, err, plain, Action, pure, fail, lift, bind_result, ◌>>=◌}
use snet_daemon.Storage.Typed.{TypedKeyValueData, TypedCasRequest, TypedAtomicStorage}

abbrev pub used_type : String
used_type = "U"

abbrev pub planned_type : String
planned_type = "P"

abbrev pub refund_type : String
refund_type = "R"

-- UsageInAmount and UsageInCalls, the implementations of the interface Usage. A number is `none`
-- where its pointer is nil.
pub data Usage : Type 0 where
  usage_in_amount : String → Option ℤ → Usage
  usage_in_calls : String → Option ℤ → Usage

abbrev pub get_usage_type : Usage → String
get_usage_type (usage_in_amount usage_type _) = usage_type
get_usage_type (usage_in_calls usage_type _) = usage_type

-- GetUsage
unfoldable pub get_usage : Usage → Option ℤ
get_usage (usage_in_amount _ amount) = amount
get_usage (usage_in_calls _ calls) = calls

-- SetUsage
unfoldable pub set_usage : Option ℤ → Usage → Usage
set_usage number (usage_in_amount usage_type _) = usage_in_amount usage_type number
set_usage number (usage_in_calls usage_type _) = usage_in_calls usage_type number

-- A use of a number that may be nil, where Go would panic.
unfoldable pub not_nil : Option ℤ → Result ℤ
not_nil none = err (plain "invalid memory address or nil pointer dereference")
not_nil (some number) = ok number

-- x.Int64() of a big.Int: the low 64 bits of the absolute value, with the sign, as an int64.
unfoldable pub int64_of : ℤ → ℤ
int64_of (pos n) = to_int64 (to_uint64 (pos n))
int64_of (negsuc n) = to_int64 ((2 ^ 64 - to_uint64 (negsuc n)) % 2 ^ 64)

-- Clone of both implementations: a UsageInCalls either way.
unfoldable pub clone : Usage → Result Usage
clone usage =
    bind_result (not_nil (get_usage usage))
      λ number. ok (usage_in_calls (get_usage_type usage) (some (int64_of number)))

pub record LicenseUsageTrackerKey : Type 0 where
  pub channel_id : ℤ
  pub service_id : String
  pub usage_type : String

-- LicenseUsageTrackerKey.String(), "{ID:%v/%v/%v}", which is also serializeLicenseUsageTrackerKey.
unfoldable pub tracker_key_string : LicenseUsageTrackerKey → String
unfolding render
tracker_key_string key =
    "{ID:"
    ++ (render key.channel_id ++ ("/" ++ (key.service_id ++ ("/" ++ (key.usage_type ++ "}")))))

pub record LicenseUsageTrackerData : Type 0 where
  pub channel_id : ℤ
  pub service_id : String
  pub usage : Usage

pub record LicenseUsageData : Type 0 where
  pub channel_id : ℤ
  pub service_id : String
  pub planned : Usage
  pub used : Usage
  pub refund : Usage
  pub update_usage_type : String

unfoldable pub get_usage_for_usage_type : LicenseUsageData → Result Usage
get_usage_for_usage_type usages =
    if str_eq usages.update_usage_type planned_type
    then ok usages.planned
    else if str_eq usages.update_usage_type refund_type
    then ok usages.refund
    else if str_eq usages.update_usage_type used_type
    then ok usages.used
    else err (plain "Unknown Usage Type %v")

-- LicenseUsageData.Clone
unfoldable pub clone_usages : LicenseUsageData → Result LicenseUsageData
clone_usages usages = bind_result (clone usages.planned) λ planned.
    bind_result (clone usages.used) λ used.
      bind_result (clone usages.refund)
        λ refund. ok (record usages { planned = planned; used = used; refund = refund })

abbrev pub Entry : Type 0
Entry = TypedKeyValueData LicenseUsageTrackerKey LicenseUsageTrackerData

-- ConditionFuncForLicense; the increment may be nil.
abbrev pub ConditionFuncForLicense : Type 0
ConditionFuncForLicense = List Entry → Option ℤ → ℤ → String → Result (List Entry)

-- One round of the loop of convertTypedDataToLicenseDataUsage.
unfoldable pub read_usage : Entry → LicenseUsageData → Result LicenseUsageData
read_usage entry usages =
    let seen = record usages {
      channel_id = entry.key.channel_id;
      service_id = entry.key.service_id;
    } in
    elim entry.value [
      | none ↦ ok seen
      | some data' ↦
          if str_eq entry.key.usage_type used_type
          then ok (record seen { used = data'.usage })
          else if str_eq entry.key.usage_type planned_type
          then ok (record seen { planned = data'.usage })
          else if str_eq entry.key.usage_type refund_type
          then ok (record seen { refund = data'.usage })
          else err (plain "unknown usage type %v")
    ]

unfoldable pub read_usages : List Entry → LicenseUsageData → Result LicenseUsageData
read_usages [] usages = ok usages
read_usages (entry ∷ entries) usages = bind_result (read_usage entry usages) (read_usages entries)

-- The three usages that convertTypedDataToLicenseDataUsage starts with; a nil channel id is 0.
abbrev pub no_usages : LicenseUsageData
no_usages = record {
  channel_id = pos 0;
  service_id = "";
  planned = usage_in_amount planned_type (some (pos 0));
  used = usage_in_amount used_type (some (pos 0));
  refund = usage_in_amount refund_type (some (pos 0));
  update_usage_type = "";
}

unfoldable pub convert_typed_data_to_license_data_usage : List Entry → Result LicenseUsageData
convert_typed_data_to_license_data_usage entries = read_usages entries no_usages

-- BuildOldAndNewLicenseUsageValuesForCAS
unfoldable pub build_new_usage_values : LicenseUsageData → Result (List Entry)
build_new_usage_values usages = bind_result (get_usage_for_usage_type usages) λ usage. ok (
    record {
      key = record {
        channel_id = usages.channel_id;
        service_id = usages.service_id;
        usage_type = usages.update_usage_type;
      };
      value = some (record {
        channel_id = usages.channel_id;
        service_id = usages.service_id;
        usage = usage;
      });
    }
    ∷ [])

-- oldUsage.Add(oldUsage, usage), set as the new usage.
unfoldable pub add_usage : Option ℤ → Usage → Result Usage
add_usage increment usage =
    bind_result (not_nil (get_usage usage))
      λ old. bind_result (not_nil increment) λ more. ok (set_usage (some (old +ℤ more)) usage)

unfoldable pub update_license_usage_data :
    LicenseUsageData → LicenseUsageTrackerKey → Option ℤ → Result LicenseUsageData
update_license_usage_data usages key increment =
    let named = record usages { channel_id = key.channel_id; update_usage_type = key.usage_type } in
    if str_eq key.usage_type used_type
    then bind_result (add_usage increment usages.used) (λ used. ok (record named { used = used }))
    else if str_eq key.usage_type planned_type
    then ok (record named {
      planned = set_usage increment usages.planned;
      used = set_usage (some (pos 0)) usages.used;
      refund = set_usage (some (pos 0)) usages.refund;
    })
    else if str_eq key.usage_type refund_type
    then bind_result (add_usage increment usages.refund)
        (λ refund. ok (record named { refund = refund }))
    else ok named

-- The test of IncrementUsedUsage; `old` has what is planned and refunded.
unfoldable pub check_usage : LicenseUsageData → LicenseUsageData → Result (List Entry)
check_usage old new = bind_result (not_nil (get_usage new.used)) λ used.
    bind_result (not_nil (get_usage old.planned)) λ planned.
      bind_result (not_nil (get_usage old.refund)) λ refund.
        if ltb_ℤ (planned +ℤ refund) used
        then err (plain "usage exceeded on channel Id %v")
        else build_new_usage_values new

abbrev pub usage_key : ℤ → String → String → LicenseUsageTrackerKey
usage_key channel_id service_id usage_type = record {
  channel_id = channel_id;
  service_id = service_id;
  usage_type = usage_type;
}

unfoldable pub increment_used_usage : ConditionFuncForLicense
increment_used_usage entries increment channel_id service_id =
    bind_result (convert_typed_data_to_license_data_usage entries) λ read.
      let old = record read { channel_id = channel_id; service_id = service_id } in
      bind_result (clone_usages old) λ new. bind_result (not_nil increment) λ more.
        if ltb_ℤ (pos 0) more
        then bind_result
            (update_license_usage_data new (usage_key channel_id service_id used_type) increment)
            (check_usage old)
        else build_new_usage_values
            (record new { update_usage_type = used_type; used = set_usage (some (pos 0)) new.used })

unfoldable pub update_planned_usage : ConditionFuncForLicense
update_planned_usage entries increment channel_id service_id =
    bind_result (convert_typed_data_to_license_data_usage entries) λ read.
      bind_result (clone_usages (record read { channel_id = channel_id; service_id = service_id }))
        λ new.
          bind_result
            (update_license_usage_data new (usage_key channel_id service_id planned_type) increment)
            build_new_usage_values

unfoldable pub increment_refund_usage : ConditionFuncForLicense
increment_refund_usage entries increment channel_id service_id =
    bind_result (convert_typed_data_to_license_data_usage entries) λ read.
      let new = record read { channel_id = channel_id; service_id = service_id } in
      bind_result (not_nil increment) λ more.
        if ltb_ℤ (pos 0) more
        then bind_result
            (update_license_usage_data new (usage_key channel_id service_id refund_type) increment)
            build_new_usage_values
        else build_new_usage_values (record new {
          update_usage_type = refund_type;
          refund = set_usage (some (pos 0)) new.refund;
        })

abbrev pub get_all_license_keys : ℤ → String → List LicenseUsageTrackerKey
get_all_license_keys channel_id service_id =
    map (usage_key channel_id service_id) (refund_type ∷ planned_type ∷ used_type ∷ [])

-- The switch of UpdateLicenseUsage.
unfoldable pub condition_for : String → Result ConditionFuncForLicense
condition_for usage_type =
    if str_eq usage_type used_type
    then ok increment_used_usage
    else if str_eq usage_type planned_type
    then ok update_planned_usage
    else if str_eq usage_type refund_type
    then ok increment_refund_usage
    else err (plain "unknown update type %v")

abbrev pub license_request :
    ConditionFuncForLicense
    → ℤ
    → String
    → Option ℤ
    → TypedCasRequest LicenseUsageTrackerKey LicenseUsageTrackerData
license_request condition channel_id service_id increment = record {
  retry_till_success_or_error = true;
  update = λ values.
      bind_result (condition values increment channel_id service_id) (λ new. ok (new, true));
  condition_keys = get_all_license_keys channel_id service_id;
}
