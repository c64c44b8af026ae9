-- ===== src/Etcd/Contract.antt =====
-- What etcd documents of its store: transactions compare and apply at once, and every write gives a
-- key a modification revision that no earlier write of a key had.
use snet_daemon.Prelude.{
  ℕ, ◌<◌, ◌==◌, String, Bool, true, false, ◌&&◌, ◌≡◌, ◌⊎◌, Option, none, some, List, [], ◌∷◌, map,
  str_eq,
}
use mathlib.Core.List.{Memᴰ}
use snet_daemon.Effects.{Error, ok, err}
use snet_daemon.Storage.Contract.{Values, set_value}
use snet_daemon.Etcd.{
  EtcdClient, KeyValue, Cmp, Op, op_get, op_put, TxnResponse, value_equals, mod_revision_equals,
  create_revision_equals,
}

-- A stored value and its revisions, which are positive.
pub record Versioned : Type 0 where
  pub value : String
  pub create_revision : ℕ
  pub mod_revision : ℕ

abbrev pub View : Type 0
View = String → Option Versioned

abbrev value_at : Option Versioned → Option String
value_at none = none
value_at (some v) = some v.value

abbrev pub values_of : View → Values
values_of view = λ key. value_at (view key)

abbrev kvs_at : String → Option Versioned → List KeyValue
kvs_at key none = []
kvs_at key (some v) = record { key = key; value = v.value; mod_revision = v.mod_revision } ∷ []

-- The Kvs of the response to a Get of one key.
abbrev pub kvs_of : View → String → List KeyValue
kvs_of view key = kvs_at key (view key)

abbrev value_is : String → Option Versioned → Bool
value_is value none = false
value_is value (some v) = str_eq v.value value

abbrev mod_revision_is : ℕ → Option Versioned → Bool
mod_revision_is revision none = 0 == revision
mod_revision_is revision (some v) = v.mod_revision == revision

abbrev create_revision_is : ℕ → Option Versioned → Bool
create_revision_is revision none = 0 == revision
create_revision_is revision (some v) = v.create_revision == revision

-- An absent key has no value and the revisions 0.
abbrev pub holds : View → Cmp → Bool
holds view (value_equals key value) = value_is value (view key)
holds view (mod_revision_equals key revision) = mod_revision_is revision (view key)
holds view (create_revision_equals key revision) = create_revision_is revision (view key)

abbrev pub all_hold : View → List Cmp → Bool
all_hold view [] = true
all_hold view (cmp ∷ cmps) = holds view cmp && all_hold view cmps

abbrev pub apply_op : Op → Values → Values
apply_op (op_get key) values = values
apply_op (op_put key value) values = set_value key (some value) values

abbrev pub apply_ops : List Op → Values → Values
apply_ops [] values = values
apply_ops (op ∷ ops) values = apply_ops ops (apply_op op values)

pub record IsEtcd {S : Type 0} (client : EtcdClient S) (view : S → View) : Type 0 where
  pub positive :
      (key : String) (s : S) (v : Versioned)
      → view s key ≡ some v
      → (0 < v.create_revision) × (0 < v.mod_revision)
  pub get_shows :
      (key : String) (s : S) (kvs : List KeyValue)
      → (client.etcd_get key s).0 ≡ ok kvs
      → kvs ≡ kvs_of (view s) key
  pub get_keeps : (key : String) (s : S) → view (client.etcd_get key s).1 ≡ view s
  pub put_done :
      (key new : String) (s : S)
      → (client.etcd_put key new s).0 ≡ ok tt
      → values_of (view (client.etcd_put key new s).1)
        ≡ set_value key (some new) (values_of (view s))
  pub delete_done :
      (key : String) (s : S)
      → (client.etcd_delete key s).0 ≡ ok tt
      → values_of (view (client.etcd_delete key s).1) ≡ set_value key none (values_of (view s))
  -- A transaction of reads without a comparison.
  pub reads_show :
      (keys : List String) (s : S) (response : TxnResponse)
      → (client.txn [] (map op_get keys) [] s).0 ≡ ok response
      → response.responses ≡ map (kvs_of (view s)) keys
  pub reads_keep :
      (keys : List String) (s : S) → view (client.txn [] (map op_get keys) [] s).1 ≡ view s
  -- Writes under comparisons, with reads where a comparison fails.
  pub txn_applied :
      (cmps : List Cmp) (thens : List Op) (keys : List String) (s : S) (response : TxnResponse)
      → (client.txn cmps thens (map op_get keys) s).0 ≡ ok response
      → response.succeeded ≡ true
      → (all_hold (view s) cmps ≡ true)
        × (values_of (view (client.txn cmps thens (map op_get keys) s).1)
            ≡ apply_ops thens (values_of (view s)))
  pub txn_refused :
      (cmps : List Cmp) (thens : List Op) (keys : List String) (s : S) (response : TxnResponse)
      → (client.txn cmps thens (map op_get keys) s).0 ≡ ok response
      → response.succeeded ≡ false
      → (all_hold (view s) cmps ≡ false)
        × (view (client.txn cmps thens (map op_get keys) s).1 ≡ view s)
        × (response.responses ≡ map (kvs_of (view s)) keys)
  pub txn_failed :
      (cmps : List Cmp) (thens : List Op) (keys : List String) (s : S) (e : Error)
      → (client.txn cmps thens (map op_get keys) s).0 ≡ err e
      → (view (client.txn cmps thens (map op_get keys) s).1 ≡ view s)
        ⊎ ((all_hold (view s) cmps ≡ true)
            × (values_of (view (client.txn cmps thens (map op_get keys) s).1)
                ≡ apply_ops thens (values_of (view s))))
  -- Go visits each key of a map once.
  pub order_one : (key : String) → client.map_order (key ∷ []) ≡ key ∷ []
  pub order_none : client.map_order [] ≡ []
  pub order_all :
      {key : String} {keys : List String} → Memᴰ key keys → Memᴰ key (client.map_order keys)
  pub order_only :
      {key : String} {keys : List String} → Memᴰ key (client.map_order keys) → Memᴰ key keys
