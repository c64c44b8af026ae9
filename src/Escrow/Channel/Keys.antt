-- ===== src/Escrow/Channel/Keys.antt =====
-- The keys under which payments, channels and locks are stored, PaymentID and
-- PaymentChannelKey.String of escrow/payment_channel_api.go: different ones have different keys.
use Prim.Native.String.{◌++◌}
use text.Mathlib.TextLemmas.{cons-append, append-nil}
use snet_daemon.Prelude.{String, ◌≡◌, refl, ap, sym, ◌∙◌}
use snet_daemon.Prelude.Int.{ℤ}
use snet_daemon.Prelude.Text.{trim_prefix, trim_prefix-append}
use snet_daemon.Prelude.Decimal.{render, render-append_inj}
use snet_daemon.Escrow.Channel.{PaymentChannelKey, payment_id, key_string}

drop_left : (p s t : String) → p ++ s ≡ p ++ t → s ≡ t
drop_left p s t e =
    sym (trim_prefix-append p s) ∙ ap (λ x. trim_prefix x p) e ∙ trim_prefix-append p t

render_inj : (y z : ℤ) → render y ≡ render z → y ≡ z
render_inj y z e =
    (render-append_inj y z "" "" refl refl
      (append-nil (render y) ∙ e ∙ sym (append-nil (render z)))).0

-- Two payments have the same id only if they are of the same channel and the same nonce.
pub payment_id_inj :
    (channel_id channel_nonce channel_id' channel_nonce' : ℤ)
    → payment_id channel_id channel_nonce ≡ payment_id channel_id' channel_nonce'
    → (channel_id ≡ channel_id') × (channel_nonce ≡ channel_nonce')
unfolding payment_id
payment_id_inj a b c d e =
    let parts =
      render-append_inj a c ("/" ++ render b) ("/" ++ render d) (rw cons-append refl)
        (rw cons-append refl) e in
    (parts.0, render_inj b d (drop_left "/" (render b) (render d) parts.1))

-- Two channels are stored and locked under the same key only if they are the same.
pub key_string_inj : (key key' : PaymentChannelKey) → key_string key ≡ key_string key' → key ≡ key'
unfolding key_string
key_string_inj key key' e =
    let tail = drop_left "{ID: " (render key.id ++ "}") (render key'.id ++ "}") e in
    let same = (render-append_inj key.id key'.id "}" "}" refl refl tail).0 in
    λ i. record { id = same i }
