-- ===== src/Escrow/ProviderControl/Ids.antt =====
-- The channel ids in the message of StartClaimForMultipleChannels in escrow/control_service.go.
use snet_daemon.Prelude.{
  ℕ, ◌+◌, ◌==◌, ◌≤◌, ◌≡◌, ◌++◌, refl, ap, ◌∙◌, arith, leb, List, [], ◌∷◌, All, inl, inr, Bool-cases,
  if◌then◌else◌,
}
use snet_daemon.Prelude.Int.{to_int64}
use snet_daemon.Crypto.{Bytes, big_int_to_bytes}
use snet_daemon.Escrow.ProviderControl.{insert_sorted, uint64s, channel_id_bytes}

abbrev pub IsAscending : List ℕ → Type 0
IsAscending [] = Unit {0}
IsAscending (x ∷ xs) = All (λ y. x ≤ y) xs × IsAscending xs

-- How often a number is in a list.
abbrev pub count : ℕ → List ℕ → ℕ
count x [] = 0
count x (y ∷ ys) = (if x == y then 1 else 0) + count x ys

-- The same numbers, each as often.
abbrev pub HasSame : List ℕ → List ℕ → Type 0
HasSame xs ys = (x : ℕ) → count x xs ≡ count x ys

-- Each id as 32 bytes.
abbrev pub bytes_of_ids : List ℕ → Bytes
bytes_of_ids [] = []
bytes_of_ids (id ∷ ids) = big_int_to_bytes (to_int64 id) ++ bytes_of_ids ids

insert_sorted-All :
    (z x : ℕ) (ys : List ℕ) → z ≤ x → All (λ y. z ≤ y) ys → All (λ y. z ≤ y) (insert_sorted x ys)
insert_sorted-All z x [] h a = (h, tt)
insert_sorted-All z x (y ∷ ys) h a = elim (Bool-cases (leb x y)) [
  | inl le ↦ rw le (h, a)
  | inr gt ↦ rw gt (a.0, insert_sorted-All z x ys h a.1)
]

weaken_All : (x y : ℕ) (ys : List ℕ) → x ≤ y → All (λ z. y ≤ z) ys → All (λ z. x ≤ z) ys
weaken_All x y [] h a = tt
weaken_All x y (z ∷ ys) h a = (omega (arith, h, a.0), weaken_All x y ys h a.1)

insert_sorted-IsAscending :
    (x : ℕ) (ys : List ℕ) → IsAscending ys → IsAscending (insert_sorted x ys)
insert_sorted-IsAscending x [] h = (tt, tt)
insert_sorted-IsAscending x (y ∷ ys) h = elim (Bool-cases (leb x y)) [
  | inl le ↦
      let below : x ≤ y = ground (arith, le) in rw le ((below, weaken_All x y ys below h.0), h)
  | inr gt ↦
      rw gt (insert_sorted-All y x ys (ground (arith, gt)) h.0, insert_sorted-IsAscending x ys h.1)
]

pub uint64s-IsAscending : (ids : List ℕ) → IsAscending (uint64s ids)
uint64s-IsAscending [] = tt
uint64s-IsAscending (x ∷ xs) = insert_sorted-IsAscending x (uint64s xs) (uint64s-IsAscending xs)

insert_sorted-count : (z x : ℕ) (ys : List ℕ) → count z (insert_sorted x ys) ≡ count z (x ∷ ys)
insert_sorted-count z x [] = refl
insert_sorted-count z x (y ∷ ys) = elim (Bool-cases (leb x y)) [
  | inl le ↦ rw le refl
  | inr gt ↦ rw gt (omega (arith, insert_sorted-count z x ys))
]

pub uint64s-HasSame : (ids : List ℕ) → HasSame (uint64s ids) ids
uint64s-HasSame [] x = refl
uint64s-HasSame (y ∷ ys) x =
    insert_sorted-count x y (uint64s ys)
    ∙ ap (λ n. (if x == y then 1 else 0) + n) (uint64s-HasSame ys x)

pub channel_id_bytes-eq : (ids : List ℕ) → channel_id_bytes ids ≡ bytes_of_ids ids
channel_id_bytes-eq [] = refl
channel_id_bytes-eq (id ∷ ids) =
    ap (λ b. big_int_to_bytes (to_int64 id) ++ b) (channel_id_bytes-eq ids)
