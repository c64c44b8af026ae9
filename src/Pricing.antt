-- ===== src/Pricing.antt =====
-- The package pricing, and the parts of blockchain/service_metadata.go that it reads: the price of a
-- call by the metadata of the service.
pub mod Names
pub mod Listed
pub mod Tests
use Prim.Native.String.{◌++◌}
use snet_daemon.Prelude.{
  String, Bool, true, false, not, ◌&&◌, str_eq, Option, none, some, List, [], ◌∷◌, if◌then◌else◌,
}
use snet_daemon.Prelude.Int.{ℤ}
use snet_daemon.Effects.{Result, ok, err, plain, Action, pure, fail, bind_result}
use snet_daemon.Storage.Dict.{Dict, lookup, insert}
use snet_daemon.Handler.Grpc.{GrpcContext}

-- The prices of blockchain/service_metadata.go. A price that the JSON leaves out would be nil.
pub record MethodPricing : Type 0 where
  pub method_name : String
  pub price_in_cogs : ℤ

pub record PricingDetails : Type 0 where
  pub service_name : String
  pub method_pricing : List MethodPricing

pub record Pricing : Type 0 where
  pub price_model : String
  pub price_in_cogs : ℤ
  pub package_name : String
  pub is_default : Bool
  pub pricing_details : List PricingDetails

pub record OrganizationGroup : Type 0 where
  pub group_name : String
  pub pricing : List Pricing

-- The settings DaemonGroupName and EnableDynamicPricing, and the parts of ServiceMetadata.
pub record ServiceMetadata : Type 0 where
  pub daemon_group_name : String
  pub enable_dynamic_pricing : Bool
  pub groups : List OrganizationGroup
  pub dynamic_price_method_mapping : Dict String

-- setGroup: the first group with the name.
unfoldable pub find_group : String → List OrganizationGroup → Result OrganizationGroup
find_group name [] = err (
    plain
      "group name %v in config is invalid, there was no group found with this name in the metadata")
find_group name (group ∷ groups) =
    let rest = find_group name groups in if str_eq group.group_name name then ok group else rest

-- The loop of setDefaultPricing.
unfoldable pub find_default : List Pricing → Result Pricing
find_default [] = err (plain "metadata does not have the default pricing set")
find_default (pricing ∷ pricings) =
    let rest = find_default pricings in if pricing.is_default then ok pricing else rest

-- setDefaultPricing, whose result GetDefaultPricing returns.
unfoldable pub default_pricing : ServiceMetadata → Result Pricing
default_pricing metadata =
    bind_result (find_group metadata.daemon_group_name metadata.groups)
      λ group. find_default group.pricing

abbrev pub text_or_nothing : Option String → String
text_or_nothing none = ""
text_or_nothing (some text) = text

-- GetDynamicPricingMethodAssociated; `none` where the method is not eligible.
unfoldable pub get_dynamic_pricing_method_associated : ServiceMetadata → String → Option String
get_dynamic_pricing_method_associated metadata full_method =
    let pricing_method =
      text_or_nothing (lookup full_method metadata.dynamic_price_method_mapping) in
    if not metadata.enable_dynamic_pricing
    then none
    else if str_eq "" pricing_method
    then none
    else some pricing_method

abbrev pub fixed_pricing : String
fixed_pricing = "fixed_price"

abbrev pub fixed_method_pricing : String
fixed_method_pricing = "fixed_price_per_method"

abbrev pub dynamic_pricing : String
dynamic_pricing = "dynamic_pricing"

-- FixedPrice, FixedMethodPrice with its methodToPriceMap, and DynamicMethodPrice.
pub data PriceType : Type 0 where
  fixed_price : ℤ → PriceType
  fixed_method_price : Dict ℤ → PriceType
  dynamic_method_price : PriceType

abbrev pub get_price_type : PriceType → String
get_price_type (fixed_price _) = fixed_pricing
get_price_type (fixed_method_price _) = fixed_method_pricing
get_price_type dynamic_method_price = dynamic_pricing

-- The full name of a method, "/"+prefix+service+"/"+method.
abbrev pub method_path : String → String → String → String
method_path prefix service method = "/" ++ (prefix ++ (service ++ ("/" ++ method)))

-- The inner loop of initPricingData.
unfoldable pub add_methods : String → String → List MethodPricing → Dict ℤ → Dict ℤ
add_methods prefix service [] prices = prices
add_methods prefix service (method ∷ methods) prices =
    add_methods prefix service methods
      (insert (method_path prefix service method.method_name) method.price_in_cogs prices)

unfoldable pub add_details : String → List PricingDetails → Dict ℤ → Dict ℤ
add_details prefix [] prices = prices
add_details prefix (detail ∷ details) prices =
    add_details prefix details (add_methods prefix detail.service_name detail.method_pricing prices)

abbrev pub package_prefix : Pricing → String
package_prefix pricing = if str_eq pricing.package_name "" then "" else pricing.package_name ++ "."

abbrev is_empty_map : Dict ℤ → Bool
is_empty_map [] = true
is_empty_map (_ ∷ _) = false

-- initPricingData
unfoldable pub init_pricing_data : Pricing → Result (Dict ℤ)
init_pricing_data pricing =
    let prices = add_details (package_prefix pricing) pricing.pricing_details [] in
    if is_empty_map prices
    then err (plain "service / method level pricing is not defined correctly")
    else ok prices

pub record PricingStrategy : Type 0 where
  pub pricing_types : Dict PriceType
  pub default_price_model : String

-- AddPricingTypes of a price type that is not nil.
abbrev pub add_pricing_types : PriceType → Dict PriceType → Dict PriceType
add_pricing_types price_type types = insert (get_price_type price_type) price_type types

abbrev add_dynamic : Bool → Dict PriceType → Dict PriceType
add_dynamic true types = add_pricing_types dynamic_method_price types
add_dynamic false types = types

-- The price type of initFromMetaData. For an unknown model it is nil, and AddPricingTypes panics in
-- its GetPriceType before the test for nil.
unfoldable pub price_type_of : Pricing → Result PriceType
price_type_of pricing =
    if str_eq pricing.price_model fixed_pricing
    then ok (fixed_price pricing.price_in_cogs)
    else if str_eq pricing.price_model fixed_method_pricing
    then bind_result (init_pricing_data pricing) (λ prices. ok (fixed_method_price prices))
    else err (plain "invalid memory address or nil pointer dereference")

-- InitPricingStrategy and initFromMetaData.
unfoldable pub init_pricing_strategy : ServiceMetadata → Pricing → Result PricingStrategy
init_pricing_strategy metadata pricing = bind_result (price_type_of pricing) λ price_type.
    ok (record {
      pricing_types = add_dynamic metadata.enable_dynamic_pricing (add_pricing_types price_type []);
      default_price_model = pricing.price_model;
    })

-- determinePricingApplicable; `none` is the nil of a missing key.
unfoldable pub determine_pricing_applicable :
    ServiceMetadata → PricingStrategy → String → Option PriceType
determine_pricing_applicable metadata strategy full_method =
    if metadata.enable_dynamic_pricing
    then elim (get_dynamic_pricing_method_associated metadata full_method) [
      | some _ ↦ lookup dynamic_pricing strategy.pricing_types
      | none ↦ lookup strategy.default_price_model strategy.pricing_types
    ]
    else lookup strategy.default_price_model strategy.pricing_types

-- `check_for_dynamic_pricing` calls the service's pricing method.
module _ {S : Type 0} (check_for_dynamic_pricing : GrpcContext → Action S ℤ) where
  -- GetPrice of the three price types.
  unfoldable pub price_by : PriceType → GrpcContext → Action S ℤ
  price_by (fixed_price price) context = pure price
  price_by (fixed_method_price prices) context = elim (lookup context.full_method prices) [
    | none ↦ fail (plain "price is not defined for the Method %v")
    | some price ↦ pure price
  ]
  price_by dynamic_method_price context = check_for_dynamic_pricing context

  -- PricingStrategy.GetPrice
  unfoldable pub get_price : ServiceMetadata → PricingStrategy → GrpcContext → Action S ℤ
  get_price metadata strategy context =
      elim (determine_pricing_applicable metadata strategy context.full_method) [
        | none ↦ fail (plain "invalid memory address or nil pointer dereference")
        | some price_type ↦ price_by price_type context
      ]
