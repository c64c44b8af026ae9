-- ===== src/Escrow/Tests.antt =====
-- Runs and instances of the escrow theorems in the world of Escrow/Ideal.antt.
mod Channels
mod Calls
mod Locks
mod Prepaid
mod Provider
mod FreeCalls
mod Keys
mod Messages
mod States
mod PrepaidCalls
mod PrepaidTokens
mod Training
mod Digits
mod FreeCallTokens
