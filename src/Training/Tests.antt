-- ===== src/Training/Tests.antt =====
-- Runs of the functions of training/util.go.
use snet_daemon.Prelude.{ℕ, [], ◌∷◌, ◌≡◌, ◌^◌, refl}
use snet_daemon.Prelude.Int.{pos}
use snet_daemon.Effects.{ok, err, plain}
use snet_daemon.Training.Lists.{remove, missing_from, difference, slice, paginate}

removed : remove ("a" ∷ "b" ∷ "a" ∷ []) "a" ≡ "b" ∷ "a" ∷ []
unfolding remove
removed = refl

differs : difference ("a" ∷ "b" ∷ []) ("b" ∷ "c" ∷ []) ≡ "a" ∷ "c" ∷ []
unfolding difference missing_from
differs = refl

second_page : paginate {A = ℕ} (1 ∷ 2 ∷ 3 ∷ []) (pos 1) (pos 2) ≡ ok (3 ∷ [])
unfolding paginate slice
second_page = refl

after_the_end : paginate {A = ℕ} (1 ∷ 2 ∷ 3 ∷ []) (pos 2) (pos 2) ≡ ok []
unfolding paginate slice
after_the_end = refl

-- A large page number makes the start negative.
wrapped_page :
    paginate {A = ℕ} (1 ∷ 2 ∷ 3 ∷ []) (pos (2 ^ 62)) (pos 3)
    ≡ err (plain "slice bounds out of range")
unfolding paginate slice
wrapped_page = refl
