-- ===== src/License/Tests.antt =====
-- A license on channel 7 for the service "s", of which 5 are planned and 2 are used.
use snet_daemon.Prelude.{String, some, none, [], ◌≡◌, refl, true, if◌then◌else◌}
use snet_daemon.Prelude.Int.{ℤ, pos, ◌+ℤ◌}
use snet_daemon.Effects.{ok, err, plain}
use snet_daemon.Storage.Typed.Ideal.{ideal_typed, plain_view, ideal_typed-IsTransactional}
use snet_daemon.License.{
  usage_in_calls, get_usage, set_usage, not_nil, int64_of, clone, LicenseUsageTrackerData,
  usage_key, read_usage, read_usages, convert_typed_data_to_license_data_usage,
  get_usage_for_usage_type, clone_usages, build_new_usage_values, add_usage,
  update_license_usage_data, check_usage, increment_used_usage, update_planned_usage, condition_for,
}
use snet_daemon.License.Service.{
  LockingLicenseService, update_license_usage, create_or_update_license,
}
use snet_daemon.License.Counters.{Counters, same_key}
use snet_daemon.License.Updates.{HasCounted, update_license_usage_ok}

abbrev calls : String → ℤ → LicenseUsageTrackerData
calls usage_type number = record {
  channel_id = pos 7;
  service_id = "s";
  usage = usage_in_calls usage_type (some number);
}

abbrev counters : Counters
counters key =
    if same_key (usage_key (pos 7) "s" "P") key
    then some (calls "P" (pos 5))
    else if same_key (usage_key (pos 7) "s" "U") key
    then some (calls "U" (pos 2))
    else none

abbrev service : LockingLicenseService Counters String
service = record {
  details_storage = record {
    get = λ key s. (ok none, s);
    get_all = λ s. (ok [], s);
    put = λ key value s. (ok tt, s);
    put_if_absent = λ key value s. (ok true, s);
    compare_and_swap = λ key prev new s. (ok true, s);
    delete = λ key s. (ok tt, s);
    execute_transaction = λ request s. (ok true, s);
  };
  usage_storage = ideal_typed same_key;
  default_pricing = record {
    price_model = "fixed_price";
    price_in_cogs = pos 1;
    package_name = "";
    is_default = true;
    pricing_details = [];
  };
}

update_license_usage_ok_example :
    HasCounted service
      (plain_view same_key)
      (ideal_typed-IsTransactional same_key)
      (pos 7)
      "s"
      (some (pos 3))
      "U"
      counters
      (update_license_usage service (pos 7) "s" (some (pos 3)) "U" counters).1
unfolding update_license_usage condition_for increment_used_usage
    convert_typed_data_to_license_data_usage read_usages read_usage clone_usages clone get_usage
    set_usage not_nil int64_of update_license_usage_data add_usage check_usage
    build_new_usage_values get_usage_for_usage_type ◌+ℤ◌
update_license_usage_ok_example =
    update_license_usage_ok service (plain_view same_key) (ideal_typed-IsTransactional same_key)
      (pos 7) "s" (some (pos 3)) "U" counters refl

-- A fourth call more than the three that are left.
one_too_many :
    (update_license_usage service (pos 7) "s" (some (pos 4)) "U" counters).0
    ≡ err (plain "usage exceeded on channel Id %v")
unfolding update_license_usage condition_for increment_used_usage
    convert_typed_data_to_license_data_usage read_usages read_usage clone_usages clone get_usage
    set_usage not_nil int64_of update_license_usage_data add_usage check_usage
    build_new_usage_values get_usage_for_usage_type ◌+ℤ◌
one_too_many = refl

abbrev renewed : Counters
renewed = (create_or_update_license service (pos 7) "s" counters).1

-- CreateOrUpdateLicense plans nil, and the next use of the license panics.
use_after_renewal :
    (update_license_usage service (pos 7) "s" (some (pos 1)) "U" renewed).0
    ≡ err (plain "invalid memory address or nil pointer dereference")
unfolding create_or_update_license update_license_usage condition_for increment_used_usage
    update_planned_usage convert_typed_data_to_license_data_usage read_usages read_usage
    clone_usages clone get_usage set_usage not_nil int64_of update_license_usage_data add_usage
    check_usage build_new_usage_values get_usage_for_usage_type ◌+ℤ◌
use_after_renewal = refl
