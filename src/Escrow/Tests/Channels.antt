-- ===== src/Escrow/Tests/Channels.antt =====
-- A payment on channel 7 that is accepted and committed, then claimed.
use snet_daemon.Prelude.{ℕ, zero, suc, ◌==◌, ◌≡◌, refl, none, some, [], ◌∷◌, false, if◌then◌else◌}
use snet_daemon.Prelude.Int.{pos, ◌+ℤ◌}
use snet_daemon.Effects.{ok, err, Error, payment_error, incorrect_nonce}
use snet_daemon.Crypto.{
  Bytes, get_signer_address_from_message, parse_signature, check_curation_validations,
}
use snet_daemon.Escrow.Channel.{
  Payment, PaymentChannelData, opened, payment_id, get_payment_from_channel,
  increment_channel_nonce, merge_storage_and_blockchain_channel_state,
}
use snet_daemon.Escrow.Lock.{always_unlock, unlock_on_error}
use snet_daemon.Escrow.Storages.{get_channel_state_from_blockchain}
use snet_daemon.Escrow.Validation.{validate, get_signer_address_from_payment}
use snet_daemon.Escrow.ChannelService.{
  PaymentTransaction, start_payment_transaction, start_locked, payment_channel,
  payment_channel_from_blockchain, combine, verify_group_id, commit, rollback, start_claim,
  claim_locked, Claim,
}
use snet_daemon.Escrow.ChannelService.Transactions.{
  UnlockSucceeds, HasStarted, key_of, lock_name, paid_by, start_ok, start_refused, start-commit,
  start-rollback,
}
use snet_daemon.Escrow.ChannelService.Claims.{start_claim_conserves}
use snet_daemon.Escrow.World.{View, set_channel}
use snet_daemon.Escrow.Ideal.{ideal_service, ideal_world, ideal_lock, ideal_unlocks, same_view}

abbrev zeros : ℕ → Bytes
zeros zero = []
zeros (suc n) = 0 ∷ zeros n

abbrev pub stored_channel : PaymentChannelData
stored_channel = record {
  channel_id = pos 7;
  nonce = pos 3;
  state = opened;
  sender = 11;
  recipient = 12;
  group_id = 1 ∷ [];
  full_amount = pos 40;
  expiration = pos 900;
  signer = 13;
  authorized_amount = pos 6;
  signature = 13 ∷ [];
}

abbrev pub desk : View
desk = record {
  channels = λ id. elim id [ pos n ↦ if n == 7 then some stored_channel else none | _ ↦ none ];
  payments = λ id. none;
  locks = λ name. false;
}

-- A signature of 65 bytes by address 13.
abbrev pub signature : Bytes
signature = 13 ∷ zeros 64

abbrev pub payment : Payment
payment = record {
  mpe_contract_address = 1;
  channel_id = pos 7;
  channel_nonce = pos 3;
  amount = pos 9;
  signature = signature;
}

-- The stored channel with the amount and the expiration of the blockchain.
abbrev merged_channel : PaymentChannelData
merged_channel = record stored_channel { full_amount = pos 50; expiration = pos 1000 }

abbrev transaction : PaymentTransaction View
transaction = record {
  payment = payment;
  channel = merged_channel;
  lock = ideal_lock (lock_name payment);
}

started_run : (start_payment_transaction ideal_service payment desk).0 ≡ ok transaction
unfolding start_payment_transaction unlock_on_error start_locked payment_channel combine
    payment_channel_from_blockchain get_channel_state_from_blockchain validate
    get_signer_address_from_payment get_signer_address_from_message parse_signature
    check_curation_validations merge_storage_and_blockchain_channel_state ◌+ℤ◌
started_run = refl

pub unlocks : UnlockSucceeds same_view ideal_service ideal_world
unlocks = ideal_unlocks

start_ok_example :
    HasStarted same_view ideal_service ideal_world payment transaction desk
      (start_payment_transaction ideal_service payment desk).1
start_ok_example = start_ok same_view ideal_service ideal_world payment transaction desk started_run

abbrev after_start : View
after_start = (start_payment_transaction ideal_service payment desk).1

start-commit_example :
    ((payment_channel ideal_service
        (key_of payment)
        (ideal_service.locker.lock (lock_name payment) desk).1).0
      ≡ ok (some transaction.channel))
    × ((commit ideal_service transaction after_start).1
        ≡ set_channel (pos 7) (paid_by payment transaction.channel) desk)
unfolding commit always_unlock
start-commit_example =
    start-commit same_view ideal_service ideal_world payment transaction desk started_run
      (λ s. refl) refl

start-rollback_example : (rollback transaction after_start).1 ≡ desk
start-rollback_example =
    start-rollback same_view ideal_service ideal_world payment transaction desk started_run
      (λ s. refl)

abbrev stale : Payment
stale = record payment { channel_nonce = pos 2 }

abbrev stale_error : Error
stale_error = payment_error incorrect_nonce "incorrect payment channel nonce, latest: %v, sent: %v"

stale_run : (start_payment_transaction ideal_service stale desk).0 ≡ err stale_error
unfolding start_payment_transaction unlock_on_error start_locked payment_channel combine
    verify_group_id payment_channel_from_blockchain get_channel_state_from_blockchain validate
    merge_storage_and_blockchain_channel_state
stale_run = refl

start_refused_example : (start_payment_transaction ideal_service stale desk).1 ≡ desk
start_refused_example =
    start_refused same_view ideal_service ideal_world stale stale_error desk unlocks (λ x e. cc)
      stale_run

abbrev pub claim : Claim
claim = record {
  payment = record {
    mpe_contract_address = 0;
    channel_id = pos 7;
    channel_nonce = pos 3;
    amount = pos 6;
    signature = 13 ∷ [];
  };
}

claim_run :
    (start_claim ideal_service (record { id = pos 7 }) increment_channel_nonce desk).0 ≡ ok claim
unfolding start_claim claim_locked always_unlock get_payment_from_channel
claim_run = refl

abbrev pub after_claim : View
after_claim = (start_claim ideal_service (record { id = pos 7 }) increment_channel_nonce desk).1

start_claim_conserves_example :
    (old : PaymentChannelData) × (new : PaymentChannelData) × (desk.channels (pos 7) ≡ some old)
    × (after_claim.channels (pos 7) ≡ some new)
    × (new.nonce ≡ old.nonce +ℤ pos 1)
    × (new.authorized_amount ≡ pos 0)
    × (new.signature ≡ [])
    × (pos 7 ≡ old.channel_id)
    × (claim.payment.channel_nonce ≡ old.nonce)
    × (pos 6 ≡ old.authorized_amount)
    × (claim.payment.signature ≡ old.signature)
    × (new.full_amount +ℤ pos 6 ≡ old.full_amount)
    × (after_claim.payments (payment_id old.channel_id old.nonce) ≡ some claim.payment)
start_claim_conserves_example =
    start_claim_conserves same_view ideal_service ideal_world (record { id = pos 7 }) claim desk
      unlocks claim_run
