-- ===== src/Escrow.antt =====
-- The package escrow: payment channels, locks, validation and the services on them.
pub mod Channel
pub mod Lock
pub mod Validation
pub mod Storages
pub mod ChannelService
pub mod PaymentHandler
pub mod Prepaid
pub mod FreeCall
pub mod ProviderControl
pub mod StateService
pub mod TokenService
pub mod PrepaidHandler
pub mod TrainPayments
pub mod World
pub mod Ideal
pub mod Tests
