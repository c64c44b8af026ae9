-- ===== src/Prelude/Decimal.antt =====
-- fmt's "%v" of a big.Int, the decimal print, and that it can be read back in front of any text
-- that does not begin with a digit.
use Prim.Native.Nat.{ℕ, zero, suc, ◌+◌, ◌-◌, ◌*◌, ◌/◌, ◌%◌, ◌<◌}
use Prim.Native.Char.{Char, code}
use Prim.Native.String.{String, [], ◌∷◌, ◌++◌}
use mathlib.Core.Path.{◌≡◌, refl, ap, sym, ◌∙◌}
use mathlib.Core.Logic.{inl, inr}
use mathlib.Core.Bool.{Bool, true, false, ◌&&◌, not}
use native.Mathlib.Omega.{arith}
use text.Mathlib.TextLemmas.{cons-append, nil-append}
use snet_daemon.Prelude.Tests.{ltb, leb, ◌==◌, if◌then◌else◌, Bool-cases}
use snet_daemon.Prelude.Int.{ℤ, pos, negsuc}

digit : ℕ → Char
digit zero = "0"
digit (suc zero) = "1"
digit (suc (suc zero)) = "2"
digit (suc (suc (suc zero))) = "3"
digit (suc (suc (suc (suc zero)))) = "4"
digit (suc (suc (suc (suc (suc zero))))) = "5"
digit (suc (suc (suc (suc (suc (suc zero)))))) = "6"
digit (suc (suc (suc (suc (suc (suc (suc zero))))))) = "7"
digit (suc (suc (suc (suc (suc (suc (suc (suc zero)))))))) = "8"
digit _ = "9"

code-digit : (d : ℕ) → d < 10 → code (digit d) ≡ d + 48
unfolding digit
code-digit zero h = refl
code-digit (suc zero) h = refl
code-digit (suc (suc zero)) h = refl
code-digit (suc (suc (suc zero))) h = refl
code-digit (suc (suc (suc (suc zero)))) h = refl
code-digit (suc (suc (suc (suc (suc zero))))) h = refl
code-digit (suc (suc (suc (suc (suc (suc zero)))))) h = refl
code-digit (suc (suc (suc (suc (suc (suc (suc zero))))))) h = refl
code-digit (suc (suc (suc (suc (suc (suc (suc (suc zero)))))))) h = refl
code-digit (suc (suc (suc (suc (suc (suc (suc (suc (suc n))))))))) h = omega arith

-- The digits of `n` in front of `rest`; more fuel than `n` is enough.
decimal_from : ℕ → ℕ → String → String
decimal_from zero n rest = rest
decimal_from (suc f) n rest =
    let more = decimal_from f (n / 10) (digit (n % 10) ∷ rest) in
    if ltb n 10 then digit n ∷ rest else more

unfoldable pub decimal : ℕ → String
unfolding decimal_from digit
decimal n = decimal_from (suc n) n []

unfoldable pub render : ℤ → String
render (pos n) = decimal n
render (negsuc n) = "-" ∷ decimal (suc n)

abbrev pub is_digit : Char → Bool
is_digit c = leb 48 (code c) && leb (code c) 57

-- Reads digits, after a number `a` that has been read.
unfoldable pub scan : ℕ → String → ℕ × String
scan a [] = (a, [])
scan a (c ∷ s) = if is_digit c then scan (a * 10 + (code c - 48)) s else (a, c ∷ s)

scan-digit : (a d : ℕ) (s : String) → d < 10 → scan a (digit d ∷ s) ≡ scan (a * 10 + d) s
unfolding scan
scan-digit a d s h = ground (arith, code-digit d h)

scan-decimal_from : (f n : ℕ) (rest : String) → n < f → scan 0 (decimal_from f n rest) ≡ scan n rest
unfolding decimal_from
scan-decimal_from zero n rest h = absurd (omega arith)
scan-decimal_from (suc f) n rest h = elim (Bool-cases (ltb n 10)) [
  | inl small ↦
      rw small (scan-digit 0 n rest (ground arith) ∙ ap (λ (k : ℕ). scan k rest) (omega arith))
  | inr large ↦ rw large (
      scan-decimal_from f (n / 10) (digit (n % 10) ∷ rest) (ground arith)
      ∙ scan-digit (n / 10) (n % 10) rest (omega arith)
      ∙ ap (λ (k : ℕ). scan k rest) (omega arith))
]

decimal_from-append :
    (f n : ℕ) (rest s : String) → decimal_from f n rest ++ s ≡ decimal_from f n (rest ++ s)
unfolding decimal_from
decimal_from-append zero n rest s = refl
decimal_from-append (suc f) n rest s =
    let ih = decimal_from-append f (n / 10) (digit (n % 10) ∷ rest) s in
    elim (Bool-cases (ltb n 10)) [
      | inl small ↦ rw small (cons-append (digit n) rest s)
      | inr large ↦
          rw large (ih ∙ ap (decimal_from f (n / 10)) (cons-append (digit (n % 10)) rest s))
    ]

-- The text begins with a digit.
abbrev starts_with_digit : String → Bool
starts_with_digit [] = false
starts_with_digit (c ∷ s) = is_digit c

decimal_from-starts_with_digit :
    (f n : ℕ) (rest : String) → n < f → starts_with_digit (decimal_from f n rest) ≡ true
unfolding decimal_from
decimal_from-starts_with_digit zero n rest h = absurd (omega arith)
decimal_from-starts_with_digit (suc f) n rest h = elim (Bool-cases (ltb n 10)) [
  | inl small ↦ rw small (ground (arith, code-digit n))
  | inr large ↦
      rw large (decimal_from-starts_with_digit f (n / 10) (digit (n % 10) ∷ rest) (ground arith))
]

abbrev pub negated : ℕ → ℤ
negated zero = pos 0
negated (suc n) = negsuc n

-- Reads a print back: the number and what follows it.
unfoldable pub read : String → ℤ × String
unfolding scan
read [] = (pos 0, [])
read (c ∷ s) =
    if code c == b'-'
    then (negated (scan 0 s).0, (scan 0 s).1)
    else (pos (scan 0 (c ∷ s)).0, (scan 0 (c ∷ s)).1)

scan_stop : (a : ℕ) (s : String) → starts_with_digit s ≡ false → scan a s ≡ (a, s)
unfolding scan
scan_stop a [] h = refl
scan_stop a (c ∷ s) h = rw h

read_digits : (s : String) → starts_with_digit s ≡ true → read s ≡ (pos (scan 0 s).0, (scan 0 s).1)
unfolding read
read_digits [] h = cc
read_digits (c ∷ s) h = ground arith

decimal-append : (n : ℕ) (s : String) → decimal n ++ s ≡ decimal_from (suc n) n s
unfolding decimal
decimal-append n s = decimal_from-append (suc n) n [] s ∙ ap (decimal_from (suc n) n) (nil-append s)

scan-decimal : (n : ℕ) (s : String) → starts_with_digit s ≡ false → scan 0 (decimal n ++ s) ≡ (n, s)
scan-decimal n s h =
    rw decimal-append (scan-decimal_from (suc n) n s (omega arith) ∙ scan_stop n s h)

-- A printed number is read back, with the text behind it left over.
pub read-render : (z : ℤ) (s : String) → starts_with_digit s ≡ false → read (render z ++ s) ≡ (z, s)
unfolding render
read-render (pos n) s h =
    read_digits (decimal n ++ s)
      (rw decimal-append (decimal_from-starts_with_digit (suc n) n s (omega arith)))
    ∙ cc (scan-decimal n s h)
read-render (negsuc n) s h = rw cons-append (unfold read in rw (scan-decimal (suc n) s h))

-- Two printed numbers in front of such texts are equal only if number and text are.
pub render-append_inj :
    (y z : ℤ) (s t : String)
    → starts_with_digit s ≡ false
    → starts_with_digit t ≡ false
    → render y ++ s ≡ render z ++ t
    → (y ≡ z) × (s ≡ t)
render-append_inj y z s t hs ht e =
    let q = sym (read-render y s hs) ∙ ap read e ∙ read-render z t ht in
    (ap (λ (p : ℤ × String). p.0) q, ap (λ (p : ℤ × String). p.1) q)

-- No character of the text has the code.
abbrev pub lacks : ℕ → String → Bool
lacks b [] = true
lacks b (c ∷ s) = not (code c == b) && lacks b s

digit-lacks : (b d : ℕ) → 57 < b → d < 10 → code (digit d) == b ≡ false
digit-lacks b d h k = ground (arith, code-digit d k)

decimal_from-lacks :
    (b f n : ℕ) (rest : String)
    → 57 < b
    → lacks b rest ≡ true
    → lacks b (decimal_from f n rest) ≡ true
unfolding decimal_from
decimal_from-lacks b zero n rest h k = k
decimal_from-lacks b (suc f) n rest h k = elim (Bool-cases (ltb n 10)) [
  | inl small ↦ rw small (ground (arith, digit-lacks b n h, k))
  | inr large ↦ rw large (
      decimal_from-lacks b f (n / 10) (digit (n % 10) ∷ rest) h
        (ground (arith, digit-lacks b (n % 10) h, k)))
]

-- A printed number has digits and a sign only, whose codes are at most 57.
pub render-lacks : (b : ℕ) (z : ℤ) → 57 < b → lacks b (render z) ≡ true
unfolding render decimal
render-lacks b (pos n) h = decimal_from-lacks b (suc n) n [] h refl
render-lacks b (negsuc n) h = ground (arith, decimal_from-lacks b (suc (suc n)) (suc n) [] h refl)
