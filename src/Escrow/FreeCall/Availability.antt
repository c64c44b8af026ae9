-- ===== src/Escrow/FreeCall/Availability.antt =====
-- The number that escrow/free_call_state_service.go reports and the limit that escrow/free_call.go
-- enforces.
use snet_daemon.Prelude.{ℕ, ◌<◌, ◌≡◌, ◌↔◌, subst, sym, arith, String}
use snet_daemon.Prelude.Int.{ℤ, pos, ◌+ℤ◌, ◌-ℤ◌, ◌≤ℤ◌, ◌<ℤ◌, +ℤ_parts, -ℤ_parts}
use snet_daemon.Effects.{ok}
use snet_daemon.Escrow.Lock.{Lock}
use snet_daemon.Escrow.FreeCall.{
  FreeCallPayment, FreeCallUserKey, FreeCallUserData, FreeCallUserService, FreeCallTransaction,
  allowed_calls, check_limit, free_call_user_of, user_key,
}
use snet_daemon.Escrow.FreeCall.StateService.{
  FreeCallStateService, calls_available, available_calls, check_for_free_calls,
}

calls_left :
    (limit made : ℤ) (k : ℕ) → (k < calls_available (limit -ℤ made)) ↔ (made +ℤ pos k <ℤ limit)
calls_left limit made k = (
  λ h. ground (arith, +ℤ_parts made (pos k), -ℤ_parts limit made, h),
  λ h. ground (arith, +ℤ_parts made (pos k), -ℤ_parts limit made, h),
)

module _ {S : Type 0} (calls : FreeCallUserService S) where
  available_calls-eq :
      (address : String) (made : ℤ)
      → pos 0 ≤ℤ calls.allowed_for address
      → available_calls (calls.allowed_for address) calls.metadata_allowed made
        ≡ calls_available (allowed_calls calls address -ℤ made)
  unfolding available_calls
  available_calls-eq address made h = ground (arith, h)

  limit_iff :
      (payment : FreeCallPayment) (key : FreeCallUserKey) (user : FreeCallUserData) (lock : Lock S)
      (s : S)
      → pos 0 ≤ℤ allowed_calls calls key.address
      → ((tx : FreeCallTransaction S) × ((check_limit calls payment key user lock s).0 ≡ ok tx))
        ↔ (user.free_calls_made <ℤ allowed_calls calls key.address)
  unfolding check_limit
  limit_iff payment key user lock s h = (
    λ started. ground (arith, h, started.1),
    λ under. (
      record { payment = payment; free_call_user = user; free_call_user_key = key; lock = lock },
      ground (arith, h, under),
    ),
  )

-- Where the limit of the settings and that of the metadata are not negative and the user's data can
-- be read: checkForFreeCalls returns a number, and after any number `k` of further calls that were
-- counted, the limit lets the user's next transaction start exactly if `k` is below it.
pub available_calls_exact :
    {S : Type 0} (service : FreeCallStateService S) (payment : FreeCallPayment) (group_id : String)
    (user : FreeCallUserData) (s : S)
    → service.free_call_service.replica_group_id ≡ ok group_id
    → let key = user_key service.free_call_service payment group_id in
      (free_call_user_of service.free_call_service key s).0 ≡ ok user
      → pos 0 ≤ℤ service.free_call_service.allowed_for payment.address
      → pos 0 ≤ℤ service.free_call_service.metadata_allowed
      → (n : ℕ) × ((check_for_free_calls service payment s).0 ≡ ok n)
        × ((k : ℕ) (lock : Lock S) (s' : S)
            → let later = record user { free_calls_made = user.free_calls_made +ℤ pos k } in
              (k < n) ↔ (
                (tx : FreeCallTransaction S) × ((check_limit service.free_call_service payment key
                    later lock s').0
                  ≡ ok tx)))
available_calls_exact service payment group_id user s grouped found allowed metadata =
    let calls = service.free_call_service in
    let key = user_key calls payment group_id in
    let made = user.free_calls_made in
    let n = available_calls (calls.allowed_for payment.address) calls.metadata_allowed made in
    let same = available_calls-eq calls payment.address made allowed in
    (
      n,
      unfold check_for_free_calls in ground (arith, grouped, found),
      λ k lock s'.
          let later = record user { free_calls_made = made +ℤ pos k } in
          let left = calls_left (allowed_calls calls payment.address) made k in
          let starts =
            limit_iff calls payment key later lock s' (ground (arith, allowed, metadata)) in
          (
            λ below. starts.1 (left.0 (subst (λ m. k < m) same below)),
            λ started. subst (λ m. k < m) (sym same) (left.1 (starts.0 started)),
          ),
    )
