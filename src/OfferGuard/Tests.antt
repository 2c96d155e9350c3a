-- ===== src/OfferGuard/Tests.antt =====
-- backend/webrtc_offer_guard.py: runs on concrete offers, and the theorems at concrete inputs.
use terra_server.Common.{ℕ, ◌≤◌, ◌≡◌, refl, none, some, List, [], ◌∷◌, arith}
use terra_server.Common.Clock.{seconds}
use terra_server.OfferGuard.{drop_old, check_hits, check}
use terra_server.OfferGuard.Laws.{
  InOrder, accepted, count, new, accepted-le-limit, check_hits-retry,
}

abbrev offers : List (ℕ × ℕ)
offers =
    (1, seconds 10) ∷ (1, seconds 20) ∷ (2, seconds 20) ∷ (1, seconds 30) ∷ (1, seconds 110) ∷ []

let_through : ℕ → List ℕ
unfolding accepted check check_hits drop_old
let_through camera = accepted (new 2 (seconds 100)) offers camera

third_waits : let_through 1 ≡ seconds 10 ∷ seconds 20 ∷ seconds 110 ∷ []
unfolding let_through
third_waits = refl

others_pass : let_through 2 ≡ seconds 20 ∷ []
unfolding let_through
others_pass = refl

in_order : InOrder 0 offers
in_order = (omega arith, (omega arith, (omega arith, (omega arith, (omega arith, tt)))))

accepted-le-limit_example :
    count (seconds 100) (seconds 115) (accepted (new 2 (seconds 100)) offers 1) ≤ 2
accepted-le-limit_example =
    accepted-le-limit 2 (seconds 100) offers 1 (seconds 115) (omega arith) in_order

abbrev full : List ℕ
full = seconds 10 ∷ seconds 20 ∷ []

refused : (check_hits 2 (seconds 100) (seconds 30) full).1 ≡ some 80
unfolding check_hits drop_old
refused = refl

check_hits-retry_example :
    ((check_hits 2 (seconds 100) (seconds 30) full).0 ≡ drop_old (seconds 100) (seconds 30) full)
    × ((check_hits 2 (seconds 100) (seconds 110) (check_hits 2 (seconds 100) (seconds 30) full).0).1
        ≡ none)
check_hits-retry_example =
    check_hits-retry 2 (seconds 100) (seconds 30) (seconds 110) full 80 (omega arith) (omega arith)
      refused (omega arith)
