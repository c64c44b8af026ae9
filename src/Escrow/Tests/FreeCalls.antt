-- ===== src/Escrow/Tests/FreeCalls.antt =====
-- Free calls of one user: one by itself, and one that read the count before another call ended.
use snet_daemon.Prelude.{
  String, arith, false, subst, eq_iff, str_eq, some, [], ◌≡◌, ◌⊎◌, refl, if◌then◌else◌,
}
use snet_daemon.Prelude.Int.{pos, negsuc, ◌+ℤ◌, ◌<ℤ◌}
use snet_daemon.Effects.{ok}
use snet_daemon.Escrow.Lock.{Lock, always_unlock, unlock_on_error}
use snet_daemon.Escrow.FreeCall.{
  FreeCallPayment, FreeCallUserKey, FreeCallUserData, FreeCallUserService, FreeCallTransaction,
  user_key_string, user_key, allowed_calls, free_call_user_of, check_limit, start_with_user,
  start_free_call_user_transaction, commit_free_call,
}
use snet_daemon.Escrow.FreeCall.Counting.{
  Users, calls_made, IsFreeCallWorld, commit_counts_read, free_call_counted,
}

abbrev free_lock : Lock Users
free_lock = record { unlock = λ s. (ok tt, s) }

abbrev set_user : String → FreeCallUserData → Users → Users
set_user name user s j = if str_eq name j then some user else s j

abbrev pub service : FreeCallUserService Users
service = record {
  storage = record {
    get = λ key s. (ok (s (user_key_string key)), s);
    get_all = λ s. (ok [], s);
    put = λ key user s. (ok tt, set_user (user_key_string key) user s);
    put_if_absent = λ key user s. (ok false, s);
    compare_and_swap = λ key prev new s. (ok false, s);
    delete = λ key s. (ok tt, s);
    execute_transaction = λ request s. (ok false, s);
  };
  locker = record { lock = λ name s. (ok (some free_lock), s) };
  replica_group_id = ok "Zw==";
  allowed_for = λ address. pos 0;
  metadata_allowed = pos 3;
}

abbrev same_users : Users → Users
same_users s = s

world : IsFreeCallWorld service same_users
world = record {
  get_shows = λ key s found e. ground arith;
  put_shows = λ key user s e. ground (arith, eq_iff (user_key_string key) (user_key_string key));
  unlock_keeps = λ name l s s' e.
      let same : free_lock ≡ l = cc e in subst (λ (k : Lock Users). (k.unlock s').1 ≡ s') same refl;
}

abbrev pub payment : FreeCallPayment
payment = record {
  address = "0x0B";
  user_id = "u";
  service_id = "s";
  organization_id = "o";
  current_block_number = pos 0;
  signature = [];
  group_id = "Zw==";
  auth_token = [];
  auth_token_parsed = [];
  auth_token_expiry_block_number = pos 0;
}

abbrev key : FreeCallUserKey
key = user_key service payment "Zw=="

abbrev pub user : FreeCallUserData
user = record {
  address = "0x0B";
  user_id = "u";
  free_calls_made = pos 1;
  organization_id = "o";
  service_id = "s";
  group_id = "Zw==";
}

abbrev transaction : FreeCallTransaction Users
transaction = record {
  payment = payment;
  free_call_user = user;
  free_call_user_key = key;
  lock = free_lock;
}

-- 1 call has been made.
abbrev pub one_made : Users
one_made name = some user

-- 2 calls have been made.
abbrev two_made : Users
two_made name = some (record user { free_calls_made = pos 2 })

-- The count 1 was read, then another call was committed, and the count is 2 again at the end.
commit_counts_read_example :
    calls_made ((commit_free_call service transaction two_made).1 (user_key_string key))
    ≡ pos 1 +ℤ pos 1
unfolding start_with_user unlock_on_error check_limit commit_free_call always_unlock
commit_counts_read_example =
    commit_counts_read service same_users world payment key user transaction two_made two_made refl
      refl

free_call_counted_example :
    (calls_made ((commit_free_call service transaction one_made).1 (user_key_string key))
      ≡ pos 1 +ℤ pos 1)
    × ((allowed_calls service "0x0B" ≡ negsuc 0) ⊎ (pos 1 <ℤ allowed_calls service "0x0B"))
unfolding start_free_call_user_transaction free_call_user_of start_with_user unlock_on_error
    check_limit commit_free_call always_unlock
free_call_counted_example =
    free_call_counted service same_users world payment transaction "Zw==" one_made one_made refl
      refl refl
