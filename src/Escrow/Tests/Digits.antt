-- ===== src/Escrow/Tests/Digits.antt =====
-- A reader of decimal numbers in bytes, for runs of the free call token.
use Prim.Native.Char.{code}
use text.Mathlib.TextLemmas.{append-nil}
use snet_daemon.Prelude.{
  ℕ, ◌+◌, ◌-◌, ◌*◌, String, ◌≡◌, refl, ap, sym, ◌∙◌, arith, leb, ◌&&◌, ◌==◌, if◌then◌else◌, Option,
  none, some, [], ◌∷◌,
}
use snet_daemon.Prelude.Int.{ℤ, pos}
use snet_daemon.Prelude.Decimal.{render, scan, read, negated, read-render}
use snet_daemon.Crypto.{Bytes, text_bytes}

scan_bytes : ℕ → Bytes → ℕ × Bytes
scan_bytes a [] = (a, [])
scan_bytes a (b ∷ bytes) =
    let rest = scan_bytes (a * 10 + (b - 48)) bytes in
    if leb 48 b && leb b 57 then rest else (a, b ∷ bytes)

read_bytes : Bytes → ℤ × Bytes
unfolding scan_bytes
read_bytes [] = (pos 0, [])
read_bytes (b ∷ bytes) =
    if b == b'-'
    then (negated (scan_bytes 0 bytes).0, (scan_bytes 0 bytes).1)
    else (pos (scan_bytes 0 (b ∷ bytes)).0, (scan_bytes 0 (b ∷ bytes)).1)

abbrev if_all_read : ℤ × Bytes → Option ℤ
if_all_read (z, []) = some z
if_all_read (z, b ∷ bytes) = none

unfoldable pub set_string : Bytes → Option ℤ
unfolding read_bytes
set_string bytes = if_all_read (read_bytes bytes)

scan_bytes-text_bytes :
    (a : ℕ) (s : String) → scan_bytes a (text_bytes s) ≡ ((scan a s).0, text_bytes (scan a s).1)
unfolding scan_bytes scan
scan_bytes-text_bytes a String.[] = refl
scan_bytes-text_bytes a (String.◌∷◌ c s) =
    ground (arith, scan_bytes-text_bytes (a * 10 + (code c - 48)) s)

read_bytes-text_bytes :
    (s : String) → read_bytes (text_bytes s) ≡ ((read s).0, text_bytes (read s).1)
unfolding read_bytes read
read_bytes-text_bytes String.[] = refl
read_bytes-text_bytes (String.◌∷◌ c s) =
    ground (arith, scan_bytes-text_bytes 0 s, scan_bytes-text_bytes 0 (String.◌∷◌ c s))

pub set_string-render : (z : ℤ) → set_string (text_bytes (render z)) ≡ some z
unfolding set_string
set_string-render z =
    let whole : read (render z) ≡ (z, String.[]) =
      ap read (sym (append-nil (render z))) ∙ read-render z String.[] refl in
    ap if_all_read
      (read_bytes-text_bytes (render z) ∙ ap (λ (p : ℤ × String). (p.0, text_bytes p.1)) whole)
