-- ===== src/Lib.antt =====
-- Verification of the payment core of snet-daemon, the sidecar that takes payments for the calls of an
-- AI service. A caller pays through a payment channel of the MultiPartyEscrow contract: each call
-- carries the channel's id and nonce, the total amount that the service may claim, and a signature. The
-- daemon keeps the last authorized amount of each channel in a key-value storage that its replicas
-- share, and the provider claims the amounts on the blockchain later.
--
-- Parts and interactions. An interceptor (handler/stream_interceptor.go, handler/unary_interceptor.go)
-- chooses a payment handler by the call's metadata, lets it check the payment, runs the service, and
-- completes the payment or takes it back. The escrow payment handler (escrow/payment_handler.go,
-- escrow/income.go) reads the payment, starts a transaction of the channel service and checks that the
-- income is the price. The channel service (escrow/escrow.go) locks the channel (escrow/lock.go), reads
-- its state from the storage and the blockchain (escrow/payment_channel_storage.go), validates the
-- payment (escrow/validation.go), and on commit writes the new amount. The provider's control service
-- (escrow/control_service.go) starts claims and removes those that the blockchain has settled. Prepaid
-- usage (escrow/prepaid_service.go) is counted by storage transactions: the token service
-- (escrow/token_service.go) takes a payment ahead and adds it to what is planned, and the prepaid handler
-- (escrow/prepaid_handler.go) charges calls to it. Free calls
-- (escrow/free_call.go) under a lock of each user; their handler (escrow/free_call_payment_handler.go)
-- checks a token that the state service (escrow/free_call_state_service.go) issues. All of them stand on
-- the storage interfaces of storage/atomic_storage.go, of which storage/memory_storage.go and
-- etcddb/etcddb_client.go are the implementations.
--
-- Files.
--   Prelude and its children: the libraries' names, Boolean tests, lists, big.Int as an integer over
--     native numbers (Int), the functions of package strings on keys (Text), the decimal print (Decimal).
--   Effects: Go's results with an error, PaymentError and its codes, and calls on a shared state.
--   Storage/Interface: AtomicStorage; Storage/Contract: what it documents. Storage/Memory:
--     MemoryStorage; Storage/Prefixed: PrefixedAtomicStorage; Storage/Typed: TypedAtomicStorageImpl, with
--     the contract of its transactions in Storage/Typed/Contract; Storage/Dict: Go's map of strings.
--   Etcd: EtcdClient (etcddb/etcddb_client.go). Etcd/Contract: what etcd documents of its store.
--     Etcd/Tests: an etcd of one server that meets it.
--   Crypto: signatures (utils/auth_utils.go, utils/blockchain_utils.go) and the bytes of numbers.
--   Handler/Grpc: metadata, GrpcError, StreamPaymentHandler; Handler/Interceptor: both interceptors.
--   Escrow/Channel: payments, channels and their updates (escrow/payment_channel_api.go).
--   Escrow/Storages: the typed storages and BlockchainChannelReader. Escrow/Lock: etcdLocker, with the
--     interleavings of its clients in Escrow/Lock/Mutex. Escrow/Validation: ChannelPaymentValidator.
--   Escrow/ChannelService: lockingPaymentChannelService, its claims and its transactions.
--   Escrow/PaymentHandler: paymentChannelPaymentHandler and incomeStreamValidator.
--   Escrow/FreeCall: lockingFreeCallUserService. Escrow/FreeCall/Validator: FreeCallPaymentValidator and
--     the tokens; Escrow/FreeCall/Handler: freeCallPaymentHandler; Escrow/FreeCall/StateService:
--     FreeCallStateService. Escrow/Prepaid: lockingPrepaidService.
--   Pricing: PricingStrategy and the price types (pricing/), with the prices of
--     blockchain/service_metadata.go. Escrow/TrainPayments: the training payment handlers
--     (escrow/train_pay_handler.go) and the curation handler (escrow/allowed_user_payment_handler.go).
--   License: the counters of license_server/license_service.go and license_server/license_storage.go;
--     License/Service: LockingLicenseService and the checks of a license.
--   Training: the storages of training/storage.go; Training/Lists: the slices of training/util.go.
--   Escrow/ProviderControl: ProviderControlService. Escrow/StateService: PaymentChannelStateService.
--   Escrow/TokenService: TokenService. Escrow/PrepaidHandler: PrePaidPaymentHandler. Token: the JWT claims
--     (token/jwt.go).
--   Escrow/World: the contract of storages, locker and node that the channel service relies on.
--     Escrow/Ideal: a world that meets it. Escrow/Tests and Storage/Tests: runs and instances.
--
-- How the code is modelled. A Go method is a function of its receiver's fields and of the shared state,
-- under the method's name in snake_case, that returns its result and the state after it; what was
-- written before an error stays written. A deferred function runs on the state that the body leaves.
-- Error texts are the format strings of the source. big.Int is an integer without bounds; Int64, Uint64,
-- int64 of a uint64, U256Bytes and BigToHash are written out with their wrap-around. A nil and an empty
-- byte slice are one. The services take what is not in this repository as parameters: the hash and the
-- curve of go-ethereum, encoding/gob, the Ethereum node, big.Int's text format, the service that is
-- called. The contracts in Storage/Contract, Storage/Typed/Contract and Escrow/World state the
-- documented behaviour of the interfaces, and leave open what a failed write has done.
--
-- Bounds and fuel. ExecuteTransaction of the in-memory storage makes at most 100 rounds, as the source
-- does; one is enough if no other client comes in between. That of etcd goes round without a bound, and
-- has the number of its rounds as an argument; without other clients it ends in the first. The decimal
-- print takes one more round than its number, which is more than its digits. All other loops run over their lists. Clients of a lock
-- interleave at every single storage operation; in the other theorems the calls of one operation follow
-- each other, under the channel's lock.
--
-- Not modelled: the call of a service's own pricing method, the training service and its updates of the
-- lists of models, the connection to etcd, the parsing of metadata, configuration, logging, metrics, rate
-- limits, gRPC proxying and the command line. Panics are modelled where an interceptor recovers from its
-- service, and as errors where the code would read an absent value.
pub mod Prelude
pub mod Effects
pub mod Storage
pub mod Etcd
pub mod Crypto
pub mod Token
pub mod Handler
pub mod Pricing
pub mod License
pub mod Escrow
pub mod Training
