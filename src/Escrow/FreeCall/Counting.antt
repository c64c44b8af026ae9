-- ===== src/Escrow/FreeCall/Counting.antt =====
-- How escrow/free_call.go counts free calls, against a contract of its storage and its locker.
use snet_daemon.Prelude.{
  String, ◌≡◌, ◌⊎◌, ◌∙◌, sym, ap, subst, arith, Option, none, some, inl, inr, Bool-cases,
}
use snet_daemon.Prelude.Int.{ℤ, pos, negsuc, ◌+ℤ◌, ◌<ℤ◌, leb_ℤ, eqb_ℤ, eq_of_parts}
use snet_daemon.Effects.{Result, ok, Found-cases, Result-cases}
use snet_daemon.Escrow.Lock.{Lock, always_unlock, unlock_on_error, unlock_on_error_ok}
use snet_daemon.Escrow.FreeCall.{
  FreeCallPayment, FreeCallUserKey, FreeCallUserData, FreeCallUserService, FreeCallTransaction,
  user_key_string, increment_free_call_count, allowed_calls, check_limit, start_with_user,
  start_free_call_user_transaction, free_call_user_of, commit_free_call, user_key, with_key,
}

-- The stored users by the text of their key.
abbrev pub Users : Type 0
Users = String → Option FreeCallUserData

abbrev pub calls_made : Option FreeCallUserData → ℤ
calls_made none = pos 0
calls_made (some user) = user.free_calls_made

module _ {S : Type 0} (h : FreeCallUserService S) (users : S → Users) where
  -- Reads show what is stored, a successful write sets one user, and locks are stored elsewhere.
  pub record IsFreeCallWorld : Type 0 where
    pub get_shows :
        (key : FreeCallUserKey) (s : S) (found : Option FreeCallUserData)
        → (h.storage.get key s).0 ≡ ok found
        → found ≡ users s (user_key_string key)
    pub put_shows :
        (key : FreeCallUserKey) (user : FreeCallUserData) (s : S)
        → (h.storage.put key user s).0 ≡ ok tt
        → users (h.storage.put key user s).1 (user_key_string key) ≡ some user
    pub unlock_keeps :
        (name : String) (l : Lock S) (s s' : S)
        → (h.locker.lock name s).0 ≡ ok (some l)
        → users (l.unlock s').1 ≡ users s'

  -- What a transaction that has started carries.
  pub record HasUser (key : FreeCallUserKey) (user : FreeCallUserData) (tx : FreeCallTransaction S)
      (s : S) : Type 0 where
    pub same_user : tx.free_call_user ≡ user
    pub same_key : tx.free_call_user_key ≡ key
    pub given : (h.locker.lock (user_key_string key) s).0 ≡ ok (some tx.lock)
    pub within :
        (allowed_calls h key.address ≡ negsuc 0)
        ⊎ (user.free_calls_made <ℤ allowed_calls h key.address)

  limit_passed :
      (payment : FreeCallPayment) (key : FreeCallUserKey) (user : FreeCallUserData) (l : Lock S)
      (tx : FreeCallTransaction S) (s : S)
      → (check_limit h payment key user l s).0 ≡ ok tx
      → (tx.free_call_user ≡ user)
        × (tx.free_call_user_key ≡ key)
        × (tx.lock ≡ l)
        × ((allowed_calls h key.address ≡ negsuc 0)
            ⊎ (user.free_calls_made <ℤ allowed_calls h key.address))
  unfolding check_limit
  limit_passed payment key user l tx s e =
      let allowed = allowed_calls h key.address in
      elim (Bool-cases (eqb_ℤ allowed (negsuc 0))) [
        | inl unlimited ↦ (
          ground (arith, unlimited),
          ground (arith, unlimited),
          ground (arith, unlimited),
          inl (eq_of_parts allowed (negsuc 0) (ground (arith, unlimited))),
        )
        | inr limited ↦ elim (Bool-cases (leb_ℤ allowed user.free_calls_made)) [
          | inl over ↦ absurd (ground (arith, limited, over))
          | inr under ↦ (
            ground (arith, limited, under),
            ground (arith, limited, under),
            ground (arith, limited, under),
            inr (ground (arith, under)),
          )
        ]
      ]

  started_with :
      (payment : FreeCallPayment) (key : FreeCallUserKey) (user : FreeCallUserData)
      (tx : FreeCallTransaction S) (s : S)
      → (start_with_user h payment key user s).0 ≡ ok tx
      → HasUser key user tx s
  started_with payment key user tx s e =
      let name = user_key_string key in
      elim (Found-cases (h.locker.lock name s).0) [
        | inr (inl busy) ↦ absurd (unfold start_with_user in ground (arith, busy))
        | inr (inr (x, failed)) ↦ absurd (unfold start_with_user in ground (arith, failed))
        | inl (l, given) ↦
            let s1 = (h.locker.lock name s).1 in
            let body = check_limit h payment key user l in
            let run : start_with_user h payment key user s ≡ unlock_on_error l body s1 =
              unfold start_with_user in ground (arith, given) in
            let passed =
              unlock_on_error_ok l body s1 tx
                (ap (λ (p : Result (FreeCallTransaction S) × S). p.0) (sym run) ∙ e) in
            let facts = limit_passed payment key user l tx s1 passed.0 in
            record {
              same_user = facts.0;
              same_key = facts.1;
              given = given ∙ ap (λ k. ok (some k)) (sym facts.2);
              within = facts.3;
            }
      ]

  module _ (w : IsFreeCallWorld) where
    commit_parts :
        (tx : FreeCallTransaction S) (s : S)
        → let put =
            h.storage.put tx.free_call_user_key (increment_free_call_count tx.free_call_user) s in
          (commit_free_call h tx s).0 ≡ ok tt
          → (put.0 ≡ ok tt) × ((commit_free_call h tx s).1 ≡ (tx.lock.unlock put.1).1)
    unfolding commit_free_call always_unlock
    commit_parts tx s e = ground arith

    -- Where the storage and the locks keep their contract, a commit that succeeds stores one more
    -- than the count that the transaction was started with, whatever has been stored since that
    -- count was read.
    pub commit_counts_read :
        (payment : FreeCallPayment) (key : FreeCallUserKey) (user : FreeCallUserData)
        (tx : FreeCallTransaction S) (s s' : S)
        → (start_with_user h payment key user s).0 ≡ ok tx
        → (commit_free_call h tx s').0 ≡ ok tt
        → calls_made (users (commit_free_call h tx s').1 (user_key_string key))
          ≡ user.free_calls_made +ℤ pos 1
    commit_counts_read payment key user tx s s' e done =
        let begun = started_with payment key user tx s e in
        let parts = commit_parts tx s' done in
        let new = increment_free_call_count tx.free_call_user in
        let s2 = (h.storage.put tx.free_call_user_key new s').1 in
        let stored : users s2 (user_key_string key) ≡ some new =
          ap (λ (k : FreeCallUserKey). users s2 (user_key_string k)) (sym begun.same_key)
          ∙ w.put_shows tx.free_call_user_key new s' parts.0 in
        let kept = w.unlock_keeps (user_key_string key) tx.lock s s2 begun.given in
        ap (λ s3. calls_made (users s3 (user_key_string key))) parts.1
        ∙ ap (λ (v : Users). calls_made (v (user_key_string key))) kept
        ∙ ap calls_made stored
        ∙ ap (λ (u : FreeCallUserData). u.free_calls_made +ℤ pos 1) begun.same_user

    reads_count :
        (key : FreeCallUserKey) (user : FreeCallUserData) (s : S)
        → (free_call_user_of h key s).0 ≡ ok user
        → user.free_calls_made ≡ calls_made (users s (user_key_string key))
    unfolding free_call_user_of
    reads_count key user s e = elim (Found-cases (h.storage.get key s).0) [
      | inl (stored, found) ↦ ground (arith, found, w.get_shows key s (some stored) found)
      | inr (inl missing) ↦ ground (arith, missing, w.get_shows key s none missing)
      | inr (inr (x, broken)) ↦ absurd (ground (arith, broken))
    ]

    start_parts :
        (payment : FreeCallPayment) (tx : FreeCallTransaction S) (group_id : String) (s : S)
        → h.replica_group_id ≡ ok group_id
        → (start_free_call_user_transaction h payment s).0 ≡ ok tx
        → let key = user_key h payment group_id in
          (user : FreeCallUserData) × ((free_call_user_of h key s).0 ≡ ok user)
          × ((start_with_user h payment key (with_key key user) (free_call_user_of h key s).1).0
              ≡ ok tx)
    unfolding start_free_call_user_transaction
    start_parts payment tx group_id s grouped e =
        elim (Result-cases (free_call_user_of h (user_key h payment group_id) s).0) [
          | inl (user, found) ↦ (user, found, ground (arith, grouped, found))
          | inr (x, broken) ↦ absurd (ground (arith, grouped, broken))
        ]

    -- A free call that starts and is committed without an error, where the storage and the locks
    -- keep their contract: the count that is stored after the commit is one more than the count
    -- that was stored at the start, and that count had not reached the limit, if there is one.
    pub free_call_counted :
        (payment : FreeCallPayment) (tx : FreeCallTransaction S) (group_id : String) (s s' : S)
        → h.replica_group_id ≡ ok group_id
        → (start_free_call_user_transaction h payment s).0 ≡ ok tx
        → (commit_free_call h tx s').0 ≡ ok tt
        → let key = user_key h payment group_id in
          let before = calls_made (users s (user_key_string key)) in
          (calls_made (users (commit_free_call h tx s').1 (user_key_string key)) ≡ before +ℤ pos 1)
          × ((allowed_calls h payment.address ≡ negsuc 0)
              ⊎ (before <ℤ allowed_calls h payment.address))
    free_call_counted payment tx group_id s s' grouped e done =
        let key = user_key h payment group_id in
        let (user, found, started) = start_parts payment tx group_id s grouped e in
        let s1 = (free_call_user_of h key s).1 in
        let count = reads_count key user s found in
        let begun = started_with payment key (with_key key user) tx s1 started in
        (
          commit_counts_read payment key (with_key key user) tx s1 s' started done
              ∙ ap (λ n. n +ℤ pos 1) count,
          elim begun.within [
            | inl unlimited ↦ inl unlimited
            | inr under ↦ inr (subst (λ n. n <ℤ allowed_calls h payment.address) count under)
          ],
        )
