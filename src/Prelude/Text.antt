-- ===== src/Prelude/Text.antt =====
-- What the daemon uses of Go's package strings on keys: TrimRight with the cutset "/", TrimPrefix,
-- and that two keys under different prefixes are different.
use Prim.Native.Char.{Char, code}
use Prim.Native.String.{String, [], ◌∷◌, ◌++◌}
use mathlib.Core.Path.{◌≡◌, refl, ap, sym, ◌∙◌}
use mathlib.Core.Bool.{Bool, true, false, ◌||◌}
use text.Mathlib.Text.{◌==◌ as str_eq, starts_with}
use mathlib.Core.Option.{Option, none, some}
use mathlib.Core.Logic.{◌≢◌}
use native.Mathlib.Omega.{arith}
use text.Mathlib.TextLemmas.{cons-append, nil-append, cons-eq-cons}
use snet_daemon.Prelude.Tests.{◌==◌, if◌then◌else◌}

-- Puts a character that is not a trailing slash in front.
abbrev keep_unless_slash : Char → String → String
keep_unless_slash c (d ∷ s) = c ∷ d ∷ s
keep_unless_slash c [] = if code c == b'/' then [] else c ∷ []

-- strings.TrimRight(s, "/")
unfoldable pub trim_right_slash : String → String
trim_right_slash [] = []
trim_right_slash (c ∷ s) = keep_unless_slash c (trim_right_slash s)

unfoldable pub strip_prefix : String → String → Option String
strip_prefix [] s = some s
strip_prefix (c ∷ p) [] = none
strip_prefix (c ∷ p) (d ∷ s) = if code c == code d then strip_prefix p s else none

-- strings.TrimPrefix(s, p)
unfoldable pub trim_prefix : String → String → String
unfolding strip_prefix
trim_prefix s p = elim (strip_prefix p s) [ some rest ↦ rest | none ↦ s ]

pub append_assoc : (a b c : String) → a ++ (b ++ c) ≡ (a ++ b) ++ c
append_assoc [] b c = rw (nil-append (b ++ c), nil-append b) refl
append_assoc (x ∷ a) b c =
    cons-append x a (b ++ c)
    ∙ ap (λ s. x ∷ s) (append_assoc a b c)
    ∙ sym (ap (λ s. s ++ c) (cons-append x a b) ∙ cons-append x (a ++ b) c)

strip_prefix-append : (p s : String) → strip_prefix p (p ++ s) ≡ some s
unfolding strip_prefix
strip_prefix-append [] s = ap some (nil-append s)
strip_prefix-append (c ∷ p) s =
    rw (cons-append, strip_prefix) (ground (arith, strip_prefix-append p s))

-- Taking off the prefix that was put on gives the text back.
pub trim_prefix-append : (p s : String) → trim_prefix (p ++ s) p ≡ s
unfolding trim_prefix
trim_prefix-append p s = ground (arith, strip_prefix-append p s)

-- Two texts differ at a place that both have.
unfoldable pub diverge : String → String → Bool
diverge [] b = false
diverge (c ∷ a) [] = false
diverge (c ∷ a) (d ∷ b) = if code c == code d then diverge a b else true

pub diverge-append-ne : (a b s t : String) → diverge a b ≡ true → a ++ s ≢ b ++ t
unfolding diverge
diverge-append-ne [] b s t h e = cc
diverge-append-ne (c ∷ a) [] s t h e = cc
diverge-append-ne (c ∷ a) (d ∷ b) s t h e =
    let heads = cons-eq-cons.0 (sym (cons-append c a s) ∙ e ∙ cons-append d b t) in
    ground (arith, ap code heads.0, λ (k : diverge a b ≡ true). diverge-append-ne a b s t k heads.1)

-- strings.HasSuffix(s, t)
abbrev pub ends_with : String → String → Bool
ends_with [] t = str_eq [] t
ends_with (c ∷ s) t = str_eq (c ∷ s) t || ends_with s t

-- strings.Contains(s, t)
abbrev pub contains : String → String → Bool
contains [] t = starts_with [] t
contains (c ∷ s) t = starts_with (c ∷ s) t || contains s t

-- What follows the last slash of `s`, or `kept` if there is none.
abbrev after_slash : String → String → String
after_slash kept [] = kept
after_slash kept (c ∷ s) = if code c == b'/' then after_slash s s else after_slash kept s

-- s[strings.LastIndex(s, "/")+1:]
abbrev pub after_last_slash : String → String
after_last_slash s = after_slash s s
