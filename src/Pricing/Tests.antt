-- ===== src/Pricing/Tests.antt =====
-- A service with a price per method, and one method whose price is listed twice.
use snet_daemon.Prelude.{◌≡◌, refl, true, false, [], ◌∷◌}
use snet_daemon.Prelude.Int.{ℤ, pos}
use snet_daemon.Effects.{ok, Action, pure}
use snet_daemon.Handler.Grpc.{GrpcContext}
use snet_daemon.Pricing.{
  Pricing, ServiceMetadata, PricingStrategy, fixed_method_price, default_pricing, find_group,
  find_default, price_type_of, init_pricing_data, add_details, add_methods, init_pricing_strategy,
  get_price,
}
use snet_daemon.Pricing.Listed.{metadata_price, price_follows_metadata}

abbrev pricing : Pricing
pricing = record {
  price_model = "fixed_price_per_method";
  price_in_cogs = pos 0;
  package_name = "p";
  is_default = true;
  pricing_details =
      record {
        service_name = "S";
        method_pricing =
            record { method_name = "m"; price_in_cogs = pos 1 }
            ∷ record { method_name = "m"; price_in_cogs = pos 2 }
            ∷ [];
      }
      ∷ [];
}

abbrev metadata : ServiceMetadata
metadata = record {
  daemon_group_name = "g";
  enable_dynamic_pricing = false;
  groups = record { group_name = "g"; pricing = pricing ∷ [] } ∷ [];
  dynamic_price_method_mapping = [];
}

default_is_pricing : default_pricing metadata ≡ ok pricing
unfolding default_pricing find_group find_default
default_is_pricing = refl

abbrev strategy : PricingStrategy
strategy = record {
  pricing_types = ("fixed_price_per_method", fixed_method_price (("/p.S/m", pos 2) ∷ [])) ∷ [];
  default_price_model = "fixed_price_per_method";
}

abbrev call : GrpcContext
call = record { md = []; full_method = "/p.S/m" }

abbrev no_dynamic : GrpcContext → Action (Unit {0}) ℤ
no_dynamic context = pure (pos 9)

price_follows_metadata_example :
    get_price no_dynamic metadata strategy call tt
    ≡ metadata_price no_dynamic metadata pricing call tt
unfolding init_pricing_strategy price_type_of init_pricing_data add_details add_methods
price_follows_metadata_example =
    price_follows_metadata no_dynamic metadata pricing strategy call tt refl
