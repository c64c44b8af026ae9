-- ===== src/Training/Lists.antt =====
-- The functions on slices of training/util.go.
use snet_daemon.Prelude.{
  ℕ, String, Bool, true, false, List, [], ◌∷◌, ◌++◌, suc, zero, ◌+◌, ◌*◌, ◌%◌, ◌^◌, ◌-◌, ◌&&◌, ltb,
  leb, str_eq, length, if◌then◌else◌,
}
use snet_daemon.Prelude.Int.{ℤ, pos, negsuc, to_int64, ltb_ℤ, leb_ℤ}
use snet_daemon.Effects.{Result, ok, err, plain}

-- remove: without the first occurrence.
unfoldable pub remove : List String → String → List String
remove [] r = []
remove (v ∷ s) r = let rest = remove s r in if str_eq v r then s else v ∷ rest

abbrev pub contains : List String → String → Bool
contains [] value = false
contains (v ∷ s) value = let rest = contains s value in if str_eq v value then true else rest

-- One of the two rounds of `difference`.
unfoldable pub missing_from : (new_addresses old_addresses : List String) → List String
missing_from new_addresses [] = []
missing_from new_addresses (s1 ∷ old_addresses) =
    let rest = missing_from new_addresses old_addresses in
    if contains new_addresses s1 then rest else s1 ∷ rest

-- The addresses that only one of the lists has.
unfoldable pub difference : (old_addresses new_addresses : List String) → List String
difference old_addresses new_addresses =
    missing_from new_addresses old_addresses ++ missing_from old_addresses new_addresses

abbrev pub take : {A : Type 0} → ℕ → List A → List A
take n [] = []
take zero (x ∷ xs) = []
take (suc n) (x ∷ xs) = x ∷ take n xs

abbrev pub drop : {A : Type 0} → ℕ → List A → List A
drop n [] = []
drop zero (x ∷ xs) = x ∷ xs
drop (suc n) (x ∷ xs) = drop n xs

-- items[start:end], which panics out of range.
unfoldable pub slice : {A : Type 0} → List A → (start end : ℤ) → Result (List A)
slice items (pos start) (pos end) =
    if leb start end && leb end (length items)
    then ok (take (end - start) (drop start items))
    else err (plain "slice bounds out of range")
slice items (negsuc _) end = err (plain "slice bounds out of range")
slice items (pos _) (negsuc _) = err (plain "slice bounds out of range")

-- The page, at least 0, and its size, at least 1.
abbrev page_from : ℤ → ℕ
page_from (pos n) = n
page_from (negsuc _) = 0

abbrev size_from : ℤ → ℕ
size_from (pos n) = if ltb n 1 then 1 else n
size_from (negsuc _) = 1

abbrev min_ℤ : ℤ → ℤ → ℤ
min_ℤ a b = if ltb_ℤ b a then b else a

-- paginate; the product and the sum wrap around at 64 bits.
unfoldable pub paginate : {A : Type 0} → List A → (page page_size : ℤ) → Result (List A)
unfolding slice
paginate items page page_size =
    let offset = page_from page * size_from page_size in
    let start = to_int64 (offset % 2 ^ 64) in
    let end = to_int64 ((offset + size_from page_size) % 2 ^ 64) in
    if leb_ℤ (pos (length items)) start
    then ok []
    else slice items start (min_ℤ end (pos (length items)))
