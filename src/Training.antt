-- ===== src/Training.antt =====
-- training/storage.go: the storages of training models, of the models of each user, and of the
-- pending and the public models.
pub mod Lists
pub mod Tests
use Prim.Native.String.{◌++◌}
use snet_daemon.Prelude.{ℕ, String, Bool, Option, List}
use snet_daemon.Effects.{ok, Action}
use snet_daemon.Storage.Interface.{AtomicStorage}
use snet_daemon.Storage.Prefixed.{prefixed_storage}
use snet_daemon.Storage.Typed.{TypedAtomicStorage, Codec, typed_storage}
use snet_daemon.Escrow.Storages.{Gob}

pub record ModelKey : Type 0 where
  pub organization_id : String
  pub service_id : String
  pub group_id : String
  pub model_id : String

pub record ModelUserKey : Type 0 where
  pub organization_id : String
  pub service_id : String
  pub group_id : String
  pub user_address : String

-- PendingModelKey and PublicModelKey, which have the same fields and print.
pub record GroupKey : Type 0 where
  pub organization_id : String
  pub service_id : String
  pub group_id : String

-- The enum Status of training/training.proto.
pub data Status : Type 0 where
  created : Status
  validating : Status
  validated : Status
  training : Status
  ready_to_use : Status
  errored : Status
  deleted : Status

pub record ModelData : Type 0 where
  pub model_id : String
  pub is_public : Bool
  pub status : Status
  pub model_name : String
  pub authorized_addresses : List String
  pub created_by_address : String
  pub updated_by_address : String
  pub group_id : String
  pub organization_id : String
  pub service_id : String
  pub grpc_method_name : String
  pub grpc_service_name : String
  pub description : String
  pub training_link : String
  pub validate_price : ℕ
  pub train_price : ℕ
  pub updated_date : String
  pub created_date : String

pub record ModelUserData : Type 0 where
  pub model_ids : List String
  pub organization_id : String
  pub service_id : String
  pub group_id : String
  pub user_address : String

-- PendingModelData and PublicModelData.
pub record ModelIds : Type 0 where
  pub model_ids : List String

-- "{ID:%v|%v|%v|%v}", the String of ModelKey and ModelUserKey.
abbrev pub four_parts : String → String → String → String → String
four_parts a b c d = "{ID:" ++ (a ++ ("|" ++ (b ++ ("|" ++ (c ++ ("|" ++ (d ++ "}")))))))

unfoldable pub model_key_string : ModelKey → String
model_key_string key = four_parts key.organization_id key.service_id key.group_id key.model_id

unfoldable pub model_user_key_string : ModelUserKey → String
model_user_key_string key =
    four_parts key.organization_id key.service_id key.group_id key.user_address

-- "{ID:%v|%v|%v}"
unfoldable pub group_key_string : GroupKey → String
group_key_string key =
    "{ID:" ++ (key.organization_id ++ ("|" ++ (key.service_id ++ ("|" ++ (key.group_id ++ "}")))))

abbrev gob_codec : {K V : Type 0} → (K → String) → Gob V → Codec K V
gob_codec serialize gob = record {
  key_serializer = λ key. ok (serialize key);
  value_serializer = gob.encode;
  value_deserializer = gob.decode;
}

-- NewModelStorage and its siblings. Get, GetAll, Put, PutIfAbsent and CompareAndSwap of each storage
-- are those of the typed storage.
module _ {S T : Type 0} (atomic : AtomicStorage S T) where
  abbrev pub new_model_storage : Gob ModelData → TypedAtomicStorage S ModelKey ModelData
  new_model_storage gob =
      typed_storage (gob_codec model_key_string gob)
        (prefixed_storage atomic "/model-user/modelStorage")

  abbrev pub new_user_model_storage :
      Gob ModelUserData → TypedAtomicStorage S ModelUserKey ModelUserData
  new_user_model_storage gob =
      typed_storage (gob_codec model_user_key_string gob)
        (prefixed_storage atomic "/model-user/userModelStorage")

  abbrev pub new_pending_model_storage : Gob ModelIds → TypedAtomicStorage S GroupKey ModelIds
  new_pending_model_storage gob =
      typed_storage (gob_codec group_key_string gob)
        (prefixed_storage atomic "/model-user/pendingModelStorage")

  abbrev pub new_public_model_storage : Gob ModelIds → TypedAtomicStorage S GroupKey ModelIds
  new_public_model_storage gob =
      typed_storage (gob_codec group_key_string gob)
        (prefixed_storage atomic "/model-user/publicModelStorage")

-- The settings OrganizationId and ServiceId, and GetGroupIdString.
module _ (group : GroupKey) where
  abbrev pub build_model_key : String → ModelKey
  build_model_key model_id = record {
    organization_id = group.organization_id;
    service_id = group.service_id;
    group_id = group.group_id;
    model_id = model_id;
  }

  -- GetModel; two nils for a model that is not stored.
  unfoldable pub get_model :
      {S : Type 0} → TypedAtomicStorage S ModelKey ModelData → String → Action S (Option ModelData)
  get_model delegate model_id = delegate.get (build_model_key model_id)
