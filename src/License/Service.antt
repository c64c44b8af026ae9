-- ===== src/License/Service.antt =====
-- LockingLicenseService (license_server/license_service.go), and the licenses of
-- license_server/license_storage.go.
use Prim.Native.String.{◌++◌}
use snet_daemon.Prelude.{
  ℕ, String, Bool, true, not, Option, none, some, List, [], ◌∷◌, ltb, str_eq, ◌&&◌, if◌then◌else◌,
}
use snet_daemon.Prelude.Int.{ℤ}
use snet_daemon.Prelude.Decimal.{render}
use snet_daemon.Effects.{Result, ok, err, plain, Action, pure, fail, lift, ◌>>=◌}
use snet_daemon.Storage.Typed.{TypedAtomicStorage}
use snet_daemon.Pricing.{Pricing}
use snet_daemon.License.{
  LicenseUsageTrackerKey, LicenseUsageTrackerData, condition_for, license_request, planned_type,
}

pub record LicenseDetailsKey : Type 0 where
  pub channel_id : ℤ
  pub service_id : String

-- LicenseDetailsKey.String(), "{ID:%v/%v}", which is also serializeLicenseDetailsKey.
unfoldable pub details_key_string : LicenseDetailsKey → String
unfolding render
details_key_string key = "{ID:" ++ (render key.channel_id ++ ("/" ++ (key.service_id ++ "}")))

-- A nil price, the zero value, is `none`.
pub record ServiceMethodCostDetails : Type 0 where
  pub plan_name : String
  pub service_name : String
  pub method_name : String
  pub price : Option ℤ

-- `L` is what implements the interface License.
pub record LicenseDetailsData (L : Type 0) : Type 0 where
  pub license : L
  pub fixed_pricing : ServiceMethodCostDetails

-- The parts of a Subscription that its checks read; `valid_from` and `valid_to` are instants.
pub record Subscription : Type 0 where
  pub valid_from : ℕ
  pub valid_to : ℕ
  pub authorized_addresses : List String

-- IsActive and IsCallEligible, by the two instants at which they read the clock.
abbrev pub is_active : (first second : ℕ) → Subscription → Bool
is_active first second license = ltb first license.valid_to && ltb license.valid_from second

-- IsUserEligible of a Subscription, and of a Tier.
unfoldable pub is_user_eligible : String → List String → Result Bool
is_user_eligible user [] = err (plain "user %s is not in the allowed List of addressed")
is_user_eligible user (allowed ∷ addresses) =
    let rest = is_user_eligible user addresses in if str_eq allowed user then ok true else rest

-- LockingLicenseService, with the default pricing of its metadata.
pub record LockingLicenseService (S L : Type 0) : Type 0 where
  pub details_storage : TypedAtomicStorage S LicenseDetailsKey (LicenseDetailsData L)
  pub usage_storage : TypedAtomicStorage S LicenseUsageTrackerKey LicenseUsageTrackerData
  pub default_pricing : Pricing

module _ {S L : Type 0} (h : LockingLicenseService S L) where
  abbrev pub get_fixed_price_from_service_metadata : ServiceMethodCostDetails
  get_fixed_price_from_service_metadata = record {
    plan_name = h.default_pricing.price_model;
    service_name = "";
    method_name = "";
    price = some h.default_pricing.price_in_cogs;
  }

  unfoldable pub create_license_details : ℤ → String → L → Action S (Unit {0})
  create_license_details channel_id service_id license =
      h.details_storage.put (record { channel_id = channel_id; service_id = service_id })
        (record { license = license; fixed_pricing = get_fixed_price_from_service_metadata })

  unfoldable pub get_license_usage :
      LicenseUsageTrackerKey → Action S (Option LicenseUsageTrackerData)
  get_license_usage key = h.usage_storage.get key

  unfoldable pub get_license_for_channel :
      LicenseDetailsKey → Action S (Option (LicenseDetailsData L))
  get_license_for_channel key = h.details_storage.get key

  -- The fixed pricing becomes the zero value.
  unfoldable pub update_license_for_channel : ℤ → String → L → Action S (Unit {0})
  update_license_for_channel channel_id service_id license =
      h.details_storage.put (record { channel_id = channel_id; service_id = service_id })
        (record {
          license = license;
          fixed_pricing = record {
            plan_name = "";
            service_name = "";
            method_name = "";
            price = none;
          };
        })

  -- UpdateLicenseUsage; it does not use its license type.
  unfoldable pub update_license_usage : ℤ → String → Option ℤ → String → Action S (Unit {0})
  update_license_usage channel_id service_id increment usage_type = do
    condition ← lift (condition_for usage_type)
    done ←
        h.usage_storage.execute_transaction
          (license_request condition channel_id service_id increment)
    (if not done
        then fail (plain "Error in executing ExecuteTransaction for usage type  %v on channel %v ")
        else pure tt)

  unfoldable pub create_or_update_license : ℤ → String → Action S (Unit {0})
  create_or_update_license channel_id service_id =
      update_license_usage channel_id service_id none planned_type
