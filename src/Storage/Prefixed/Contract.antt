-- ===== src/Storage/Prefixed/Contract.antt =====
-- PrefixedAtomicStorage of storage/atomic_storage.go: it keeps the contract of its delegate, on the
-- keys with its prefix, and leaves the keys of other prefixes alone.
use Prim.Native.String.{◌++◌}
use snet_daemon.Prelude.{
  String, true, false, Option, none, some, ◌≡◌, ◌≢◌, refl, ap, sym, ◌∙◌, inl, inr, arith, eq_iff,
  str_eq, if◌then◌else◌, List, [], ◌∷◌, map,
}
use snet_daemon.Prelude.Text.{
  trim_right_slash, trim_prefix, trim_prefix-append, diverge, diverge-append-ne, append_assoc,
}
use snet_daemon.Effects.{ok, bind_result}
use snet_daemon.Storage.Interface.{KeyValueData, CasRequest, AtomicStorage}
use snet_daemon.Storage.Contract.{Values, set_value, IsKeyValueStorage}
use snet_daemon.Storage.Prefixed.{
  prefixed_key, append_key_prefix, prefixed_update, prefixed_request, prefixed_storage,
  append_key_value_prefix, remove_key_value_prefix,
}

pub prefixed_key_inj : (p j k : String) → prefixed_key p j ≡ prefixed_key p k → j ≡ k
prefixed_key_inj p j k e =
    let tail_of : String → String = λ s. trim_prefix (trim_prefix s p) "/" in
    let reads : (j : String) → tail_of (prefixed_key p j) ≡ j = λ j.
      ap (λ s. trim_prefix s "/") (trim_prefix-append p ("/" ++ j)) ∙ trim_prefix-append "/" j in
    sym (reads j) ∙ ap tail_of e ∙ reads k

same_test : (p k j : String) → str_eq (prefixed_key p k) (prefixed_key p j) ≡ str_eq k j
same_test p k j =
    ground (arith, eq_iff k j, eq_iff (prefixed_key p k) (prefixed_key p j), prefixed_key_inj p k j)

module _ {S T : Type 0} (delegate : AtomicStorage S T) (p : String) (values : S → Values)
    (w : IsKeyValueStorage delegate values) where
  -- What the storage shows of the delegate's values.
  abbrev pub shown : Values → Values
  shown v = λ key. v (prefixed_key p key)

  shown_set :
      (key : String) (new : Option String) (v : Values)
      → shown (set_value (prefixed_key p key) new v) ≡ set_value key new (shown v)
  shown_set key new v = λ i j. if same_test p key j i then new else v (prefixed_key p j)

  then_set :
      {a : Values} (key : String) (new : Option String) (v : Values)
      → a ≡ set_value (prefixed_key p key) new v
      → shown a ≡ set_value key new (shown v)
  then_set key new v e = ap shown e ∙ shown_set key new v

  -- Over a delegate that keeps the contract of AtomicStorage, a storage with a prefix keeps it on
  -- the keys of the delegate that have the prefix, read without it.
  pub prefixed-IsKeyValueStorage :
      IsKeyValueStorage (prefixed_storage delegate p) (λ s. shown (values s))
  prefixed-IsKeyValueStorage = record {
    get_shows = λ key. w.get_shows (prefixed_key p key);
    get_keeps = λ key s. ap shown (w.get_keeps (prefixed_key p key) s);
    put_done =
        λ key new s e. then_set key (some new) (values s) (w.put_done (prefixed_key p key) new s e);
    absent_done = λ key new s e.
        let done = w.absent_done (prefixed_key p key) new s e in
        (done.0, then_set key (some new) (values s) done.1);
    absent_refused = λ key new s e.
        let refused = w.absent_refused (prefixed_key p key) new s e in
        (refused.0, ap shown refused.1);
    absent_failed = λ key new s x e. elim (w.absent_failed (prefixed_key p key) new s x e) [
      | inl kept ↦ inl (ap shown kept)
      | inr (free, done) ↦ inr (free, then_set key (some new) (values s) done)
    ];
    swap_done = λ key prev new s e.
        let done = w.swap_done (prefixed_key p key) prev new s e in
        (done.0, then_set key (some new) (values s) done.1);
    swap_refused = λ key prev new s e.
        let refused = w.swap_refused (prefixed_key p key) prev new s e in
        (refused.0, ap shown refused.1);
    swap_failed = λ key prev new s x e. elim (w.swap_failed (prefixed_key p key) prev new s x e) [
      | inl kept ↦ inl (ap shown kept)
      | inr (free, done) ↦ inr (free, then_set key (some new) (values s) done)
    ];
    delete_done = λ key s e. then_set key none (values s) (w.delete_done (prefixed_key p key) s e);
  }

  -- No value under the prefix `q` has changed.
  abbrev pub IsUntouched : String → S → S → Type 0
  IsUntouched q s s' = (j : String) → values s' (prefixed_key q j) ≡ values s (prefixed_key q j)

  -- The prefixes with their slash differ in a character that both have.
  abbrev pub AreApart : String → Type 0
  AreApart q = diverge (p ++ "/") (q ++ "/") ≡ true

  keys_apart :
      (q key j : String) → AreApart q → str_eq (prefixed_key p key) (prefixed_key q j) ≡ false
  keys_apart q key j apart =
      let differ : prefixed_key p key ≢ prefixed_key q j = λ e.
        diverge-append-ne (p ++ "/") (q ++ "/") key j apart
          (sym (append_assoc p "/" key) ∙ e ∙ append_assoc q "/" j) in
      ground (arith, eq_iff (prefixed_key p key) (prefixed_key q j), differ)

  set-IsUntouched :
      (q key : String) (new : Option String) (s s' : S)
      → AreApart q
      → values s' ≡ set_value (prefixed_key p key) new (values s)
      → IsUntouched q s s'
  set-IsUntouched q key new s s' apart e j =
      ap (λ (v : Values). v (prefixed_key q j)) e ∙ rw (keys_apart q key j apart) refl

  -- Over a delegate that keeps the contract of AtomicStorage: what is written through one prefix,
  -- by any of the four writing operations that succeeds, is not seen through another prefix, if
  -- the prefixes with a slash behind them differ in a character that both have.
  pub isolation :
      (q key prev new : String) (s : S)
      → AreApart q
      → let storage = prefixed_storage delegate p in
        ((storage.put key new s).0 ≡ ok tt → IsUntouched q s (storage.put key new s).1)
        × ((storage.put_if_absent key new s).0 ≡ ok true
            → IsUntouched q s (storage.put_if_absent key new s).1)
        × ((storage.compare_and_swap key prev new s).0 ≡ ok true
            → IsUntouched q s (storage.compare_and_swap key prev new s).1)
        × ((storage.delete key s).0 ≡ ok tt → IsUntouched q s (storage.delete key s).1)
  isolation q key prev new s apart =
      let k = prefixed_key p key in
      (
        λ e. set-IsUntouched q key (some new) s _ apart (w.put_done k new s e),
        λ e. set-IsUntouched q key (some new) s _ apart (w.absent_done k new s e).1,
        λ e. set-IsUntouched q key (some new) s _ apart (w.swap_done k prev new s e).1,
        λ e. set-IsUntouched q key none s _ apart (w.delete_done k s e),
      )

trim_prefixed : (p key : String) → trim_prefix (prefixed_key p key) (p ++ "/") ≡ key
trim_prefixed p key =
    ap (λ s. trim_prefix s (p ++ "/")) (append_assoc p "/" key) ∙ trim_prefix-append (p ++ "/") key

abbrev head_of : KeyValueData → List KeyValueData → KeyValueData
head_of d [] = d
head_of d (x ∷ xs) = x

abbrev entry_of : String → Option String → KeyValueData
entry_of key (some value) = record { key = key; value = value; present = true }
entry_of key none = record { key = key; value = ""; present = false }

-- What a storage with these values reports for a condition key.
abbrev pub entry_at : Values → String → KeyValueData
entry_at values key = entry_of key (values key)

trimmed_key :
    (p key : String)
    → trim_right_slash p ≡ p
    → trim_prefix (prefixed_key p key) (trim_right_slash p ++ "/") ≡ key
trimmed_key p key h = ap (λ q. trim_prefix (prefixed_key p key) (q ++ "/")) h ∙ trim_prefixed p key

removed_one :
    (p key : String) (value : Option String)
    → trim_right_slash p ≡ p
    → remove_key_value_prefix p (entry_of (prefixed_key p key) value ∷ []) ≡ entry_of key value ∷ []
unfolding remove_key_value_prefix
removed_one p key none h =
    λ i. record { key = trimmed_key p key h i; value = ""; present = false } ∷ []
removed_one p key (some value) h =
    λ i. record { key = trimmed_key p key h i; value = value; present = true } ∷ []

-- The condition values come back under the keys of this storage.
pub removed_entries :
    (p : String) (values : Values) (keys : List String)
    → trim_right_slash p ≡ p
    → remove_key_value_prefix p (map (entry_at values) (append_key_prefix p keys))
      ≡ map (entry_at (λ k. values (prefixed_key p k))) keys
unfolding remove_key_value_prefix
removed_entries p values [] h = refl
removed_entries p values (key ∷ keys) h = λ i.
    head_of (entry_at values (prefixed_key p key))
      (removed_one p key (values (prefixed_key p key)) h i)
    ∷ removed_entries p values keys h i

-- What ExecuteTransaction of PrefixedAtomicStorage hands to its delegate, if the prefix does not end
-- with a slash: the condition keys with the prefix and a slash before them, and an update that,
-- given what the delegate holds for these, is the update of the request on the same values under
-- the keys without the prefix, with the prefix and a slash put before the key of every new value,
-- and with its error and its verdict.
pub prefixed_request_lem :
    (p : String) (request : CasRequest) (values : Values)
    → trim_right_slash p ≡ p
    → let keys = map (λ key. p ++ ("/" ++ key)) request.condition_keys in
      ((prefixed_request p request).condition_keys ≡ keys)
      × ((prefixed_request p request).update (map (entry_at values) keys)
          ≡ bind_result
              (request.update
                (map (entry_at (λ key. values (p ++ ("/" ++ key)))) request.condition_keys))
              (λ (new_values, updated). ok (
                map (λ (d : KeyValueData). record d { key = p ++ ("/" ++ d.key) }) new_values,
                updated,
              )))
unfolding prefixed_update append_key_value_prefix
prefixed_request_lem p request values h = (
  refl,
  ap
      (λ olds.
        bind_result (request.update olds)
          (λ (new_values, updated). ok (append_key_value_prefix p new_values, updated)))
      (removed_entries p values request.condition_keys h),
)
