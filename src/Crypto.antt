-- ===== src/Crypto.antt =====
-- utils/auth_utils.go, utils/blockchain_utils.go and the helpers of escrow/validation.go that build
-- and check signed messages. The hash and the curve come from go-ethereum, so they are parameters.
use snet_daemon.Prelude.{
  ℕ, zero, suc, ◌+◌, ◌*◌, ◌/◌, ◌%◌, ◌-◌, ◌^◌, Bool, true, false, ◌&&◌, not, ◌||◌, List, [], ◌∷◌,
  ◌++◌, ◌==◌, length, String, if◌then◌else◌,
}
use Prim.Native.Char.{code}
use snet_daemon.Prelude.Int.{ℤ, pos, negsuc, abs}
use snet_daemon.Effects.{Result, ok, err, plain}

abbrev pub Bytes : Type 0
Bytes = List ℕ

-- `==` of byte arrays.
abbrev pub bytes_eq : Bytes → Bytes → Bool
bytes_eq [] [] = true
bytes_eq (a ∷ s) (b ∷ t) = a == b && bytes_eq s t
bytes_eq _ _ = false

-- common.Address, the 20 bytes read as a big-endian number.
abbrev pub Address : Type 0
Address = ℕ

-- []byte(s) for an ASCII text.
abbrev pub text_bytes : String → Bytes
text_bytes String.[] = []
text_bytes (String.◌∷◌ c s) = code c ∷ text_bytes s

-- The last `n` bytes of the big-endian form of a number.
unfoldable pub be_bytes : ℕ → ℕ → Bytes
be_bytes zero m = []
be_bytes (suc n) m = be_bytes n (m / 256) ++ (m % 256 ∷ [])

-- address.Bytes()
abbrev pub address_bytes : Address → Bytes
address_bytes = be_bytes 20

-- common.BigToHash(value).Bytes(): 32 bytes of the absolute value.
abbrev pub big_int_to_bytes : ℤ → Bytes
big_int_to_bytes value = be_bytes 32 (abs value)

-- math.U256Bytes: 32 bytes of two's complement.
abbrev pub u256_bytes : ℤ → Bytes
u256_bytes (pos n) = be_bytes 32 n
u256_bytes (negsuc n) = be_bytes 32 (2 ^ 256 - 1 - n % 2 ^ 256)

from_bytes : ℕ → Bytes → ℕ
from_bytes a [] = a
from_bytes a (b ∷ bytes) = from_bytes (a * 256 + b) bytes

-- (&big.Int{}).SetBytes(bytes)
unfoldable pub bytes_to_big_int : Bytes → ℤ
unfolding from_bytes
bytes_to_big_int bytes = pos (from_bytes 0 bytes)

-- go-ethereum's crypto package and the settings that the checks read. `keccak256` hashes the
-- concatenation of its arguments.
pub record Crypto : Type 0 where
  pub keccak256 : List Bytes → Bytes
  pub sig_to_pub : Bytes → Bytes → Result Bytes
  pub pubkey_to_address : Bytes → Address
  -- config.AllowedUserFlag and config.userAddress
  pub allowed_user_flag : Bool
  pub user_address : List Address

abbrev pub hash_prefix_32_bytes : Bytes
hash_prefix_32_bytes = 25 ∷ text_bytes "Ethereum Signed Message:" ++ (10 ∷ text_bytes "32")

abbrev byte_at : ℕ → Bytes → ℕ
byte_at i [] = 0
byte_at zero (b ∷ bytes) = b
byte_at (suc i) (b ∷ bytes) = byte_at i bytes

abbrev take_bytes : ℕ → Bytes → Bytes
take_bytes zero bytes = []
take_bytes (suc n) [] = []
take_bytes (suc n) (b ∷ bytes) = b ∷ take_bytes n bytes

-- ParseSignature; only `v` of its results is used.
unfoldable pub parse_signature : Bytes → Result ℕ
parse_signature signature =
    if not (length signature == 65)
    then err (plain "job signature incorrect length")
    else ok (byte_at 64 signature % 27 + 27)

abbrev pub contains_address : Address → List Address → Bool
contains_address a [] = false
contains_address a (user ∷ users) = user == a || contains_address a users

-- The two hashes that a signature signs.
unfoldable pub signed_hash : Crypto → Bytes → Bytes
signed_hash crypto message =
    crypto.keccak256 (hash_prefix_32_bytes ∷ crypto.keccak256 (message ∷ []) ∷ [])

module _ (crypto : Crypto) where
  -- GetSignerAddressFromMessage
  unfoldable pub get_signer_address_from_message : Bytes → Bytes → Result Address
  unfolding parse_signature signed_hash
  get_signer_address_from_message message signature =
      let message_hash = signed_hash crypto message in
      elim (parse_signature signature) [
        | err _ ↦ err (plain "incorrect signature length")
        | ok v ↦ elim (crypto.sig_to_pub message_hash (take_bytes 64 signature ++ (v % 27 ∷ []))) [
          | err _ ↦ err (plain "incorrect signature data")
          | ok public_key ↦ ok (crypto.pubkey_to_address public_key)
        ]
      ]

  -- config.IsAllowedUser
  abbrev pub is_allowed_user : Address → Bool
  is_allowed_user address = contains_address address crypto.user_address

  unfoldable pub check_curation_validations : Address → Result (Unit {0})
  check_curation_validations signer =
      if crypto.allowed_user_flag
      then if not (is_allowed_user signer)
        then err (plain "you are not Authorized to call this service during curation process")
        else ok tt
      else ok tt
