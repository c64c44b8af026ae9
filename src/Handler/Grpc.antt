-- ===== src/Handler/Grpc.antt =====
-- handler/stream_interceptor.go: the call context, GrpcError, the readers of metadata and the
-- interface StreamPaymentHandler.
use snet_daemon.Prelude.{
  ℕ, String, not, ◌≡◌, refl, ◌⊎◌, inl, inr, Option, none, some, List, [], ◌∷◌, if◌then◌else◌,
}
use snet_daemon.Prelude.Int.{ℤ}
use snet_daemon.Prelude.Text.{ends_with}
use snet_daemon.Crypto.{Bytes, text_bytes}
use snet_daemon.Storage.Dict.{Dict, lookup}

-- metadata.MD: the values of each lower-case key.
abbrev pub Metadata : Type 0
Metadata = Dict (List String)

-- GrpcStreamContext and GrpcUnaryContext, without the stream.
pub record GrpcContext : Type 0 where
  pub md : Metadata
  pub full_method : String

-- codes.Code is a number. These are the ones of the package codes and the daemon's own.
abbrev pub invalid_argument_code : ℕ
invalid_argument_code = 3

abbrev pub failed_precondition_code : ℕ
failed_precondition_code = 9

abbrev pub internal_code : ℕ
internal_code = 13

abbrev pub unauthenticated_code : ℕ
unauthenticated_code = 16

abbrev pub incorrect_nonce_code : ℕ
incorrect_nonce_code = 1000

-- The status of a GrpcError: its code and its message, as the format string of the source.
pub record GrpcError : Type 0 where
  pub code : ℕ
  pub message : String

abbrev pub new_grpc_error : ℕ → String → GrpcError
new_grpc_error code message = record { code = code; message = message }

-- A value, or a non-nil *GrpcError.
pub data GrpcResult {ℓ} (A : Type ℓ) : Type ℓ where
  accepted : A → GrpcResult A
  refused : GrpcError → GrpcResult A

pub Grpc-cases {ℓ} :
    {A : Type ℓ} (r : GrpcResult A)
    → ((a : A) × (r ≡ accepted a)) ⊎ ((e : GrpcError) × (r ≡ refused e))
Grpc-cases (accepted a) = inl (a, refl)
Grpc-cases (refused e) = inr (e, refl)

-- `if err != nil { return }`
abbrev pub bind_grpc : {A B : Type 0} → GrpcResult A → (A → GrpcResult B) → GrpcResult B
bind_grpc (accepted a) f = f a
bind_grpc (refused e) f = refused e

abbrev pub payment_type_header : String
payment_type_header = "snet-payment-type"

abbrev pub payment_channel_id_header : String
payment_channel_id_header = "snet-payment-channel-id"

abbrev pub payment_channel_nonce_header : String
payment_channel_nonce_header = "snet-payment-channel-nonce"

abbrev pub payment_channel_amount_header : String
payment_channel_amount_header = "snet-payment-channel-amount"

abbrev pub payment_channel_signature_header : String
payment_channel_signature_header = "snet-payment-channel-signature-bin"

abbrev pub training_model_id : String
training_model_id = "snet-train-model-id"

abbrev pub snet_user_address_header : String
snet_user_address_header = "snet-user-address"

abbrev values_of : Option (List String) → List String
values_of none = []
values_of (some values) = values

-- What GetSingleValue makes of md.Get(key).
abbrev single : List String → GrpcResult String
single [] = refused (new_grpc_error invalid_argument_code "missing \"%v\"")
single (value ∷ []) = accepted value
single _ = refused (new_grpc_error invalid_argument_code "too many values for key \"%v\": %v")

unfoldable pub get_single_value : Metadata → String → GrpcResult String
get_single_value md key = single (values_of (lookup key md))

-- GetBigInt; `unmarshal` is big.Int's UnmarshalText, `none` where it fails.
unfoldable pub get_big_int : (String → Option ℤ) → Metadata → String → GrpcResult ℤ
unfolding get_single_value
get_big_int unmarshal md key = bind_grpc (get_single_value md key) λ text. elim (unmarshal text) [
  | none ↦ refused (new_grpc_error invalid_argument_code "incorrect format \"%v\": \"%v\"")
  | some value ↦ accepted value
]

unfoldable pub get_bytes : Metadata → String → GrpcResult Bytes
unfolding get_single_value
get_bytes md key =
    let read = bind_grpc (get_single_value md key) (λ text. accepted (text_bytes text)) in
    if not (ends_with key "-bin")
    then refused (new_grpc_error invalid_argument_code "incorrect binary key name \"%v\"")
    else read

-- An error that a service's handler returns.
abbrev pub ServiceError : Type 0
ServiceError = String

-- StreamPaymentHandler and UnaryPaymentHandler, with payments of type `P`; the two completions
-- return `none` for nil. `sender` is GetSender().Hex() where the payment is a SenderProvider.
pub record PaymentHandler (S P : Type 0) : Type 0 where
  pub type_name : String
  pub payment : GrpcContext → S → GrpcResult P × S
  pub complete : P → S → Option GrpcError × S
  pub complete_after_error : P → ServiceError → S → Option GrpcError × S
  pub sender : P → Option String
