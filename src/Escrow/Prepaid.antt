-- ===== src/Escrow/Prepaid.antt =====
-- escrow/prepaid_storage.go and escrow/prepaid_service.go: the planned, the used and the refunded
-- amount of a channel, and lockingPrepaidService.
pub mod Usage
pub mod History
use Prim.Native.String.{◌++◌}
use snet_daemon.Prelude.{
  String, Bool, true, not, Option, none, some, List, [], ◌∷◌, map, str_eq, ◌&&◌, if◌then◌else◌,
}
use snet_daemon.Prelude.Int.{ℤ, pos, ◌+ℤ◌, ltb_ℤ, eqb_ℤ}
use snet_daemon.Prelude.Decimal.{render}
use snet_daemon.Effects.{Result, ok, err, plain, Action, pure, fail, lift, bind_result, ◌>>=◌}
use snet_daemon.Storage.Typed.{
  TypedKeyValueData, TypedUpdateFunc, TypedCasRequest, TypedAtomicStorage,
}

pub record PrePaidData : Type 0 where
  pub amount : ℤ

pub record PrePaidDataKey : Type 0 where
  pub channel_id : ℤ
  pub usage_type : String

abbrev pub used_amount_type : String
used_amount_type = "U"

abbrev pub planned_amount_type : String
planned_amount_type = "P"

abbrev pub refund_amount_type : String
refund_amount_type = "R"

-- PrePaidDataKey.String(), "{ID:%v/%v}", which is also serializePrePaidKey.
unfoldable pub key_string : PrePaidDataKey → String
unfolding render
key_string key = "{ID:" ++ (render key.channel_id ++ ("/" ++ (key.usage_type ++ "}")))

pub record PrePaidUsageData : Type 0 where
  pub channel_id : ℤ
  pub planned_amount : ℤ
  pub used_amount : ℤ
  pub refund_amount : ℤ
  pub update_usage_type : String

unfoldable pub get_amount_for_usage_type : PrePaidUsageData → Result ℤ
get_amount_for_usage_type data' =
    if str_eq data'.update_usage_type planned_amount_type
    then ok data'.planned_amount
    else if str_eq data'.update_usage_type refund_amount_type
    then ok data'.refund_amount
    else if str_eq data'.update_usage_type used_amount_type
    then ok data'.used_amount
    else err (plain "Unknown Usage Type %v")

abbrev pub Entry : Type 0
Entry = TypedKeyValueData PrePaidDataKey PrePaidData

-- ConditionFunc; the values are those read last.
abbrev pub ConditionFunc : Type 0
ConditionFunc = List Entry → (revised_amount channel_id : ℤ) → Result (List Entry)

-- One round of the loop of convertTypedDataToPrePaidUsage.
unfoldable pub read_entry : Entry → PrePaidUsageData → Result PrePaidUsageData
read_entry entry usage =
    let seen = record usage { channel_id = entry.key.channel_id } in
    elim entry.value [
      | none ↦ ok seen
      | some data' ↦
          if str_eq entry.key.usage_type used_amount_type
          then ok (record seen { used_amount = data'.amount })
          else if str_eq entry.key.usage_type planned_amount_type
          then ok (record seen { planned_amount = data'.amount })
          else if str_eq entry.key.usage_type refund_amount_type
          then ok (record seen { refund_amount = data'.amount })
          else err (plain "Unknown Usage Type %v")
    ]

unfoldable pub read_entries : List Entry → PrePaidUsageData → Result PrePaidUsageData
read_entries [] usage = ok usage
read_entries (entry ∷ entries) usage = bind_result (read_entry entry usage) (read_entries entries)

-- The zero value of PrePaidUsageData with its three amounts at 0; a nil channel id is 0.
abbrev pub no_usage : PrePaidUsageData
no_usage = record {
  channel_id = pos 0;
  planned_amount = pos 0;
  used_amount = pos 0;
  refund_amount = pos 0;
  update_usage_type = "";
}

unfoldable pub convert_typed_data_to_prepaid_usage : List Entry → Result PrePaidUsageData
unfolding read_entries read_entry
convert_typed_data_to_prepaid_usage entries = read_entries entries no_usage

unfoldable pub build_old_and_new_values_for_cas : PrePaidUsageData → Result (List Entry)
unfolding get_amount_for_usage_type
build_old_and_new_values_for_cas usage = bind_result (get_amount_for_usage_type usage) λ amount.
    ok (
      record {
        key = record { channel_id = usage.channel_id; usage_type = usage.update_usage_type };
        value = some (record { amount = amount });
      }
      ∷ [])

unfoldable pub update_details : PrePaidUsageData → PrePaidDataKey → ℤ → PrePaidUsageData
update_details usage key amount =
    let named = record usage { channel_id = key.channel_id; update_usage_type = key.usage_type } in
    if str_eq key.usage_type used_amount_type
    then record named { used_amount = amount +ℤ usage.used_amount }
    else if str_eq key.usage_type planned_amount_type
    then record named { planned_amount = amount +ℤ usage.planned_amount }
    else if str_eq key.usage_type refund_amount_type
    then record named { refund_amount = amount +ℤ usage.refund_amount }
    else named

-- The three condition functions after their read.
abbrev pub updated : PrePaidUsageData → String → (revised_amount channel_id : ℤ) → PrePaidUsageData
updated old usage_type revised_amount channel_id =
    update_details (record old { channel_id = channel_id })
      (record { channel_id = channel_id; usage_type = usage_type }) revised_amount

unfoldable pub increment_used_amount : ConditionFunc
unfolding convert_typed_data_to_prepaid_usage build_old_and_new_values_for_cas update_details
increment_used_amount entries revised_amount channel_id =
    bind_result (convert_typed_data_to_prepaid_usage entries) λ old.
      let new = updated old used_amount_type revised_amount channel_id in
      if ltb_ℤ (old.planned_amount +ℤ old.refund_amount) new.used_amount
      then err (plain "Usage Exceeded on channel Id %v")
      else build_old_and_new_values_for_cas new

unfoldable pub increment_planned_amount : ConditionFunc
unfolding convert_typed_data_to_prepaid_usage build_old_and_new_values_for_cas update_details
increment_planned_amount entries revised_amount channel_id =
    bind_result (convert_typed_data_to_prepaid_usage entries) λ old.
      build_old_and_new_values_for_cas (updated old planned_amount_type revised_amount channel_id)

unfoldable pub increment_refund_amount : ConditionFunc
unfolding convert_typed_data_to_prepaid_usage build_old_and_new_values_for_cas update_details
increment_refund_amount entries revised_amount channel_id =
    bind_result (convert_typed_data_to_prepaid_usage entries) λ old.
      build_old_and_new_values_for_cas (updated old refund_amount_type revised_amount channel_id)

-- getAllKeys
abbrev pub get_all_keys : ℤ → List PrePaidDataKey
get_all_keys id =
    map (λ (usage_type : String). record { channel_id = id; usage_type = usage_type })
      (refund_amount_type ∷ planned_amount_type ∷ used_amount_type ∷ [])

-- The switch of UpdateUsage.
unfoldable pub condition_func : String → Result ConditionFunc
unfolding increment_used_amount increment_planned_amount increment_refund_amount
condition_func usage_type =
    if str_eq usage_type used_amount_type
    then ok increment_used_amount
    else if str_eq usage_type planned_amount_type
    then ok increment_planned_amount
    else if str_eq usage_type refund_amount_type
    then ok increment_refund_amount
    else err (plain "Unknown Update type %v")

abbrev pub usage_request :
    ConditionFunc → (id revised_amount : ℤ) → TypedCasRequest PrePaidDataKey PrePaidData
usage_request condition id revised_amount = record {
  retry_till_success_or_error = true;
  update = λ values. bind_result (condition values revised_amount id) (λ new. ok (new, true));
  condition_keys = get_all_keys id;
}

module _ {S : Type 0} (storage : TypedAtomicStorage S PrePaidDataKey PrePaidData) where
  -- GetUsage
  unfoldable pub get_usage : PrePaidDataKey → Action S (Option PrePaidData)
  get_usage key = storage.get key

  -- UpdateUsage
  unfoldable pub update_usage : (id revised_amount : ℤ) → String → Action S (Unit {0})
  unfolding condition_func
  update_usage id revised_amount usage_type = do
    condition ← lift (condition_func usage_type)
    done ← storage.execute_transaction (usage_request condition id revised_amount)
    (if not done
        then fail (plain "Error in executing ExecuteTransaction for usage type %v on channel %v ")
        else pure tt)
