-- ===== src/Pricing/Listed.antt =====
-- The price of a call by the package pricing, and the prices that the metadata lists.
use snet_daemon.Prelude.{
  String, Bool, true, false, ◌≡◌, refl, ap, sym, ◌∙◌, subst, arith, str_eq, eq_iff, Option, none,
  some, List, [], ◌∷◌, ◌++◌, inl, inr, Bool-cases, Option-cases, if◌then◌else◌,
}
use snet_daemon.Prelude.Int.{ℤ}
use snet_daemon.Effects.{ok, plain, Action, pure, fail, Result-cases}
use snet_daemon.Storage.Dict.{Dict, lookup, insert, lookup-insert}
use snet_daemon.Handler.Grpc.{GrpcContext}
use snet_daemon.Pricing.Names.{package_part, full_name}
use snet_daemon.Pricing.{
  MethodPricing, PricingDetails, Pricing, ServiceMetadata, PriceType, fixed_price,
  fixed_method_price, dynamic_method_price, PricingStrategy, fixed_pricing, fixed_method_pricing,
  method_path, package_prefix, add_methods, add_details, init_pricing_data, price_type_of,
  init_pricing_strategy, get_dynamic_pricing_method_associated, determine_pricing_applicable,
  price_by, get_price, get_price_type, add_dynamic, add_pricing_types, dynamic_pricing,
}

-- Every price of the metadata with the full name of its method, in the order of the metadata.
abbrev pub prices_of_methods : String → String → List MethodPricing → List (String × ℤ)
prices_of_methods prefix service [] = []
prices_of_methods prefix service (method ∷ methods) =
    (full_name prefix service method.method_name, method.price_in_cogs)
    ∷ prices_of_methods prefix service methods

abbrev pub listed_prices : String → List PricingDetails → List (String × ℤ)
listed_prices prefix [] = []
listed_prices prefix (detail ∷ details) =
    prices_of_methods prefix detail.service_name detail.method_pricing
    ++ listed_prices prefix details

-- The last of the prices that are listed for a method, or `kept`.
abbrev pub last_price : Option ℤ → String → List (String × ℤ) → Option ℤ
last_price kept method [] = kept
last_price kept method ((name, price) ∷ prices) =
    last_price (if str_eq name method then some price else kept) method prices

add_methods-last :
    (prefix service method : String) (methods : List MethodPricing) (rest : List (String × ℤ))
    (prices : Dict ℤ)
    → last_price (lookup method (add_methods prefix service methods prices)) method rest
      ≡ last_price (lookup method prices) method (prices_of_methods prefix service methods ++ rest)
unfolding add_methods
add_methods-last prefix service method [] rest prices = refl
add_methods-last prefix service method (m ∷ methods) rest prices =
    let path = method_path prefix service m.method_name in
    add_methods-last prefix service method methods rest (insert path m.price_in_cogs prices)
    ∙ ap (λ k. last_price k method (prices_of_methods prefix service methods ++ rest))
        (lookup-insert path method m.price_in_cogs prices)

add_details-last :
    (prefix method : String) (details : List PricingDetails) (prices : Dict ℤ)
    → lookup method (add_details prefix details prices)
      ≡ last_price (lookup method prices) method (listed_prices prefix details)
unfolding add_details
add_details-last prefix method [] prices = refl
add_details-last prefix method (detail ∷ details) prices =
    add_details-last prefix method details
      (add_methods prefix detail.service_name detail.method_pricing prices)
    ∙ add_methods-last prefix detail.service_name method detail.method_pricing
        (listed_prices prefix details) prices

-- The price that the metadata gives for a method, without dynamic pricing.
abbrev pub static_price : Pricing → String → Option ℤ
static_price pricing method =
    if str_eq pricing.price_model "fixed_price"
    then some pricing.price_in_cogs
    else last_price none method
        (listed_prices (package_part pricing.package_name) pricing.pricing_details)

abbrev price_or_error : {S : Type 0} → Option ℤ → Action S ℤ
price_or_error none = fail (plain "price is not defined for the Method %v")
price_or_error (some price) = pure price

static_type :
    {S : Type 0} (dynamic : GrpcContext → Action S ℤ) (pricing : Pricing) (price_type : PriceType)
    (context : GrpcContext) (s : S)
    → price_type_of pricing ≡ ok price_type
    → price_by dynamic price_type context s
      ≡ price_or_error (static_price pricing context.full_method) s
unfolding price_type_of init_pricing_data price_by
static_type dynamic pricing price_type context s e =
    let prices = add_details (package_prefix pricing) pricing.pricing_details [] in
    elim (Bool-cases (str_eq pricing.price_model fixed_pricing)) [
      | inl fixed ↦
          let is : fixed_price pricing.price_in_cogs ≡ price_type = ground (arith, fixed, e) in
          subst
            (λ t.
              price_by dynamic t context s
              ≡ price_or_error (static_price pricing context.full_method) s)
            is (ground (arith, fixed))
      | inr other ↦ elim (Bool-cases (str_eq pricing.price_model fixed_method_pricing)) [
        | inr unknown ↦ absurd (ground (arith, other, unknown, e))
        | inl by_method ↦
            let is : fixed_method_price prices ≡ price_type = ground (arith, other, by_method, e) in
            let last =
              add_details-last (package_prefix pricing) context.full_method pricing.pricing_details
                [] in
            subst
              (λ t.
                price_by dynamic t context s
                ≡ price_or_error (static_price pricing context.full_method) s)
              is (ground (arith, other, last))
      ]
    ]

type_name :
    (pricing : Pricing) (price_type : PriceType)
    → price_type_of pricing ≡ ok price_type
    → (str_eq (get_price_type price_type) pricing.price_model ≡ true)
      × (str_eq (get_price_type price_type) dynamic_pricing ≡ false)
unfolding price_type_of init_pricing_data
type_name pricing price_type e = elim (Bool-cases (str_eq pricing.price_model fixed_pricing)) [
  | inl fixed ↦
      let is : fixed_price pricing.price_in_cogs ≡ price_type = ground (arith, fixed, e) in
      let named = (eq_iff pricing.price_model fixed_pricing).0 fixed in
      (
        ground (
          arith,
          ap get_price_type (sym is),
          (eq_iff (get_price_type price_type) pricing.price_model).1
              (ap get_price_type (sym is) ∙ sym named),
        ),
        ap (λ t. str_eq (get_price_type t) dynamic_pricing) (sym is),
      )
  | inr other ↦ elim (Bool-cases (str_eq pricing.price_model fixed_method_pricing)) [
    | inr unknown ↦ absurd (ground (arith, other, unknown, e))
    | inl by_method ↦
        let prices = add_details (package_prefix pricing) pricing.pricing_details [] in
        let is : fixed_method_price prices ≡ price_type = ground (arith, other, by_method, e) in
        let named = (eq_iff pricing.price_model fixed_method_pricing).0 by_method in
        (
          (eq_iff (get_price_type price_type) pricing.price_model).1
              (ap get_price_type (sym is) ∙ sym named),
          ap (λ t. str_eq (get_price_type t) dynamic_pricing) (sym is),
        )
  ]
]

model_found :
    (dynamic : Bool) (price_type : PriceType) (model : String)
    → str_eq (get_price_type price_type) model ≡ true
    → str_eq (get_price_type price_type) dynamic_pricing ≡ false
    → lookup model (add_dynamic dynamic (add_pricing_types price_type [])) ≡ some price_type
model_found true price_type model h k = ground (arith, h, k)
model_found false price_type model h k = ground (arith, h)

dynamic_found :
    (dynamic : Bool) (price_type : PriceType)
    → str_eq (get_price_type price_type) dynamic_pricing ≡ false
    → dynamic ≡ true
    → lookup dynamic_pricing (add_dynamic dynamic (add_pricing_types price_type []))
      ≡ some dynamic_method_price
dynamic_found true price_type k on = ground (arith, k)
dynamic_found false price_type k on = absurd (ground (arith, on))

-- The price type of a call, by the pricing method that is found.
abbrev chosen : Option String → PriceType → PriceType
chosen none price_type = price_type
chosen (some _) price_type = dynamic_method_price

determine_lem :
    (metadata : ServiceMetadata) (strategy : PricingStrategy) (price_type : PriceType) (m : String)
    → lookup strategy.default_price_model strategy.pricing_types ≡ some price_type
    → (metadata.enable_dynamic_pricing ≡ true
        → lookup dynamic_pricing strategy.pricing_types ≡ some dynamic_method_price)
    → determine_pricing_applicable metadata strategy m
      ≡ some (chosen (get_dynamic_pricing_method_associated metadata m) price_type)
unfolding determine_pricing_applicable
determine_lem metadata strategy price_type m model dynamic =
    elim (Bool-cases metadata.enable_dynamic_pricing) [
      | inr off ↦
          let none_found : get_dynamic_pricing_method_associated metadata m ≡ none =
            unfold get_dynamic_pricing_method_associated in ground (arith, off) in
          ground (arith, off, none_found, model)
      | inl on ↦ elim (Option-cases (get_dynamic_pricing_method_associated metadata m)) [
        | inl missing ↦ ground (arith, on, missing, model)
        | inr (method, there) ↦ ground (arith, on, there, dynamic on)
      ]
    ]

-- The pricing method that the metadata names for a method, if dynamic pricing is enabled; an empty
-- name is none.
abbrev pub named_method : Option String → Option String
named_method none = none
named_method (some name) = if str_eq "" name then none else some name

abbrev pub pricing_method : ServiceMetadata → String → Option String
pricing_method metadata method =
    if metadata.enable_dynamic_pricing
    then named_method (lookup method metadata.dynamic_price_method_mapping)
    else none

pricing_method-eq :
    (metadata : ServiceMetadata) (method : String)
    → get_dynamic_pricing_method_associated metadata method ≡ pricing_method metadata method
unfolding get_dynamic_pricing_method_associated
pricing_method-eq metadata method = elim (Bool-cases metadata.enable_dynamic_pricing) [
  | inr off ↦ rw off refl
  | inl on ↦ elim (Option-cases (lookup method metadata.dynamic_price_method_mapping)) [
    | inl missing ↦ rw (on, missing) refl
    | inr (name, there) ↦ rw (on, there) refl
  ]
]

-- The price by the metadata: what the pricing method says, where there is one and dynamic pricing is
-- enabled, and otherwise the fixed price, or the last one listed for the method.
abbrev pub metadata_price :
    {S : Type 0} → (GrpcContext → Action S ℤ) → ServiceMetadata → Pricing → GrpcContext → Action S ℤ
metadata_price dynamic metadata pricing context =
    elim (pricing_method metadata context.full_method) [
      | some _ ↦ dynamic context
      | none ↦ price_or_error (static_price pricing context.full_method)
    ]

by_type :
    {S : Type 0} (dynamic : GrpcContext → Action S ℤ) (metadata : ServiceMetadata)
    (pricing : Pricing) (strategy : PricingStrategy) (price_type : PriceType)
    (context : GrpcContext) (s : S)
    → determine_pricing_applicable metadata strategy context.full_method
      ≡ some
          (chosen (get_dynamic_pricing_method_associated metadata context.full_method) price_type)
    → price_by dynamic price_type context s
      ≡ price_or_error (static_price pricing context.full_method) s
    → get_price dynamic metadata strategy context s
      ≡ metadata_price dynamic metadata pricing context s
unfolding get_price
by_type dynamic metadata pricing strategy price_type context s found static =
    let is = sym (pricing_method-eq metadata context.full_method) in
    elim (Option-cases (get_dynamic_pricing_method_associated metadata context.full_method)) [
      | inl missing ↦ ground (arith, found, missing, is, static)
      | inr (method, there) ↦ unfold price_by in ground (arith, found, there, is)
    ]

-- A pricing strategy that InitPricingStrategy has made of the metadata gives every call the price of
-- the metadata: what the service's pricing method says if dynamic pricing is enabled and the
-- metadata map the call's method to one with a name that is not empty, else the fixed price if this
-- is the price model, and otherwise the last price that is listed for the full name of the method,
-- "/package.service/method" or "/service/method" without a package, and an error if none is.
pub price_follows_metadata :
    {S : Type 0} (dynamic : GrpcContext → Action S ℤ) (metadata : ServiceMetadata)
    (pricing : Pricing) (strategy : PricingStrategy) (context : GrpcContext) (s : S)
    → init_pricing_strategy metadata pricing ≡ ok strategy
    → get_price dynamic metadata strategy context s
      ≡ metadata_price dynamic metadata pricing context s
unfolding init_pricing_strategy
price_follows_metadata dynamic metadata pricing strategy context s e =
    elim (Result-cases (price_type_of pricing)) [
      | inr (x, bad) ↦ absurd (ground (arith, bad, e))
      | inl (price_type, good) ↦
          let (is_model, not_dynamic) = type_name pricing price_type good in
          let enabled = metadata.enable_dynamic_pricing in
          let made : PricingStrategy = record {
            pricing_types = add_dynamic enabled (add_pricing_types price_type []);
            default_price_model = pricing.price_model;
          } in
          let same : made ≡ strategy = ground (arith, good, e) in
          subst
            (λ k.
              get_price dynamic metadata k context s
              ≡ metadata_price dynamic metadata pricing context s)
            same
            (by_type dynamic metadata pricing made price_type context s
              (determine_lem metadata made price_type context.full_method
                (model_found enabled price_type pricing.price_model is_model not_dynamic)
                (dynamic_found enabled price_type not_dynamic))
              (static_type dynamic pricing price_type context s good))
    ]
