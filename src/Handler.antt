-- ===== src/Handler.antt =====
-- The package handler: gRPC metadata and errors, the payment handler interface and the interceptors
-- that charge for a call.
pub mod Grpc
pub mod Interceptor
