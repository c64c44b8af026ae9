-- ===== src/Handler/Interceptor.antt =====
-- handler/stream_interceptor.go and handler/unary_interceptor.go: paymentValidationInterceptor and
-- paymentValidationUnaryInterceptor.
use snet_daemon.Prelude.{
  String, Option, none, some, List, [], ◌∷◌, not, ◌&&◌, str_eq, if◌then◌else◌,
}
use snet_daemon.Prelude.Text.{after_last_slash}
use snet_daemon.Storage.Dict.{Dict, lookup, insert}
use snet_daemon.Handler.Grpc.{
  Metadata, GrpcContext, GrpcError, GrpcResult, accepted, refused, new_grpc_error,
  invalid_argument_code, payment_type_header, snet_user_address_header, ServiceError,
  PaymentHandler,
}

-- How the service's handler ends.
pub data ServiceEnd : Type 0 where
  returned : ServiceEnd
  failed : ServiceError → ServiceEnd
  panicked : String → ServiceEnd

-- The interceptor's `error`.
pub data CallError : Type 0 where
  grpc_error : GrpcError → CallError
  service_error : ServiceError → CallError

-- How the interceptor ends: it returns nil or an error, or it panics again.
pub data CallEnd : Type 0 where
  returns : Option CallError → CallEnd
  panics : CallEnd

-- The two interceptors have the same fields.
pub record PaymentValidationInterceptor (S P : Type 0) : Type 0 where
  pub default_payment_handler : PaymentHandler S P
  pub payment_handlers : Dict (PaymentHandler S P)

register_all :
    {S P : Type 0}
    → List (PaymentHandler S P)
    → Dict (PaymentHandler S P)
    → Dict (PaymentHandler S P)
register_all [] handlers = handlers
register_all (handler ∷ rest) handlers =
    register_all rest (insert handler.type_name handler handlers)

-- GrpcPaymentValidationInterceptor and GrpcPaymentValidationUnaryInterceptor
unfoldable pub new_payment_validation_interceptor :
    {S P : Type 0}
    → PaymentHandler S P
    → List (PaymentHandler S P)
    → PaymentValidationInterceptor S P
unfolding register_all
new_payment_validation_interceptor default_handler handlers = record {
  default_payment_handler = default_handler;
  payment_handlers = register_all handlers (insert default_handler.type_name default_handler []);
}

-- The metadata that the service sees: the sender's address is added where it is known.
abbrev pub outgoing : (debug : String) → Option String → Metadata → Metadata
outgoing debug none md = md
outgoing debug (some address) md =
    insert "snet-daemon-debug" (debug ∷ []) (insert snet_user_address_header (address ∷ []) md)

abbrev or_returned : Option CallError → Option GrpcError → CallEnd
or_returned e none = returns e
or_returned e (some x) = returns (some (grpc_error x))

abbrev service_only : {S : Type 0} → ServiceEnd × S → CallEnd × S
service_only (returned, s) = (returns none, s)
service_only (failed e, s) = (returns (some (service_error e)), s)
service_only (panicked _, s) = (panics, s)

module _ {S P : Type 0} where
  -- What getPaymentHandler makes of context.MD[PaymentTypeHeader].
  abbrev handler_for :
      PaymentValidationInterceptor S P → Option (List String) → GrpcResult (PaymentHandler S P)
  handler_for interceptor none = accepted interceptor.default_payment_handler
  handler_for interceptor (some []) = accepted interceptor.default_payment_handler
  handler_for interceptor (some (payment_type ∷ _)) =
      elim (lookup payment_type interceptor.payment_handlers) [
        | some handler ↦ accepted handler
        | none ↦ refused (new_grpc_error invalid_argument_code "unexpected \"%v\", value: \"%v\"")
      ]

  unfoldable pub get_payment_handler :
      PaymentValidationInterceptor S P → GrpcContext → GrpcResult (PaymentHandler S P)
  get_payment_handler interceptor context =
      handler_for interceptor (lookup payment_type_header context.md)

  -- The deferred function: what becomes of the payment when the service has ended.
  unfoldable pub settle : PaymentHandler S P → P → ServiceEnd → S → CallEnd × S
  settle handler payment returned s =
      let (r, s') = handler.complete payment s in (or_returned none r, s')
  settle handler payment (failed e) s =
      let (r, s') = handler.complete_after_error payment e s in
      (or_returned (some (service_error e)) r, s')
  settle handler payment (panicked value) s =
      (panics, (handler.complete_after_error payment value s).1)

  -- Both interceptors from getPaymentHandler on.
  unfoldable pub charge :
      PaymentValidationInterceptor S P
      → (debug : String) → (service : Metadata → S → ServiceEnd × S) → GrpcContext
      → S
      → CallEnd × S
  charge interceptor debug service context s = elim (get_payment_handler interceptor context) [
    | refused e ↦ (returns (some (grpc_error e)), s)
    | accepted handler ↦
        let (r, s1) = handler.payment context s in
        elim r [
          | refused e ↦ (returns (some (grpc_error e)), s1)
          | accepted payment ↦
              let (end, s2) = service (outgoing debug (handler.sender payment) context.md) s1 in
              settle handler payment end s2
        ]
  ]

  -- streamIntercept; `none` for the metadata is a stream without metadata, and a wrapper that fails
  -- ends the call with its error.
  unfoldable pub stream_intercept :
      PaymentValidationInterceptor S P
      → (wrapper_error : Option ServiceError) → (service : Metadata → S → ServiceEnd × S)
      → Option Metadata
      → (full_method : String) → S
      → CallEnd × S
  stream_intercept interceptor wrapper_error service none full_method s =
      (returns (some (grpc_error (new_grpc_error invalid_argument_code "missing metadata"))), s)
  stream_intercept interceptor (some e) service (some md) full_method s =
      (returns (some (service_error e)), s)
  stream_intercept interceptor none service (some md) full_method s =
      charge interceptor "streamIntercept" service (record { md = md; full_method = full_method }) s

  -- unaryIntercept
  unfoldable pub unary_intercept :
      PaymentValidationInterceptor S P
      → (service : Metadata → S → ServiceEnd × S) → Option Metadata
      → (full_method : String) → S
      → CallEnd × S
  unary_intercept interceptor service none full_method s =
      (returns (some (grpc_error (new_grpc_error invalid_argument_code "missing metadata"))), s)
  unary_intercept interceptor service (some md) full_method s =
      let method_name = after_last_slash full_method in
      if not (str_eq method_name "validate_model") && not (str_eq method_name "train_model")
      then service_only (service md s)
      else charge interceptor "unaryIntercept" service
          (record { md = md; full_method = full_method }) s
