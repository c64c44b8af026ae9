-- ===== src/Pricing/Names.antt =====
-- The full names of methods by the service's package, as gRPC gives them to the package pricing.
use Prim.Native.String.{◌++◌}
use snet_daemon.Prelude.{String, str_eq, if◌then◌else◌}

-- "package." or nothing.
abbrev pub package_part : String → String
package_part name = if str_eq name "" then "" else name ++ "."

-- "/package.service/method"
abbrev pub full_name : String → String → String → String
full_name part service method = "/" ++ (part ++ (service ++ ("/" ++ method)))
