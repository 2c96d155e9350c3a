-- ===== src/OfferGuard/Laws.antt =====
-- The limit in every window, and the wait that a refusal asks for.
use terra_server.Common.{
  ℕ, suc, ◌+◌, ◌≤◌, ◌<◌, ◌≡◌, refl, sym, subst, ap, inl, inr, Bool-cases, Bool, true, false, ◌&&◌,
  Option, none, some, List, [], ◌∷◌, ◌++◌, leb, ltb, ◌==◌, if◌then◌else◌, if_rule, length,
  length-append, is_some, not, arith,
}
use terra_server.Common.Clock.{seconds}
use terra_server.OfferGuard.{OfferRateLimiter, drop_old, retry_after, check_hits, set_hits, check}

-- How many of the instants lie in the window that ends at `t`.
unfoldable pub count : ℕ → ℕ → List ℕ → ℕ
count window t [] = 0
count window t (x ∷ xs) =
    let rest = count window t xs in if leb x t && ltb t (x + window) then suc rest else rest

count-le : (window t : ℕ) (xs : List ℕ) → count window t xs ≤ length xs
unfolding count
count-le window t [] = omega arith
count-le window t (x ∷ xs) = let ih = count-le window t xs in ground arith

count-append :
    (window t : ℕ) (xs ys : List ℕ)
    → count window t (xs ++ ys) ≡ count window t xs + count window t ys
unfolding count
count-append window t [] ys = omega arith
count-append window t (x ∷ xs) ys = let ih = count-append window t xs ys in ground arith

count-drop_old :
    (window now t : ℕ) (xs : List ℕ)
    → now ≤ t
    → count window t (drop_old window now xs) ≡ count window t xs
unfolding count drop_old
count-drop_old window now t [] h = refl
count-drop_old window now t (x ∷ xs) h = let ih = count-drop_old window now t xs h in ground arith

length-drop_old : (window now : ℕ) (xs : List ℕ) → length (drop_old window now xs) ≤ length xs
unfolding drop_old
length-drop_old window now [] = omega arith
length-drop_old window now (x ∷ xs) = let ih = length-drop_old window now xs in ground arith

-- One camera: what a check makes of the count, and of the length.
check_hits-count :
    (limit window now t : ℕ) (hits : List ℕ)
    → now ≤ t
    → let (queue, answer) = check_hits limit window now hits in
      count window t queue
      ≡ count window t hits + (if is_some answer then 0 else count window t (now ∷ []))
unfolding check_hits
check_hits-count limit window now t hits h =
    if_rule {A = List ℕ × Option ℕ}
      (λ x.
        count window t x.0
        ≡ count window t hits + (if is_some x.1 then 0 else count window t (now ∷ [])))
      (leb limit (length (drop_old window now hits)))
      (λ e. omega (arith, count-drop_old window now t hits h))
      (λ e. omega (
        arith,
        count-drop_old window now t hits h,
        count-append window t (drop_old window now hits) (now ∷ []),
      ))

check_hits-length :
    (limit window now : ℕ) (hits : List ℕ)
    → length hits ≤ limit
    → length (check_hits limit window now hits).0 ≤ limit
unfolding check_hits
check_hits-length limit window now hits h =
    if_rule {A = List ℕ × Option ℕ} (λ x. length x.0 ≤ limit)
      (leb limit (length (drop_old window now hits)))
      (λ e. omega (arith, length-drop_old window now hits))
      (λ e. ground (arith, length-append (drop_old window now hits) (now ∷ [])))

-- Offers in the order of their instants, not before `from`: the camera, and when.
abbrev pub InOrder : ℕ → List (ℕ × ℕ) → Type 0
InOrder from [] = Unit
InOrder from ((camera, now) ∷ offers) = (from ≤ now) × InOrder now offers

-- When the offers of camera `c` were let through.
unfoldable pub accepted : OfferRateLimiter → List (ℕ × ℕ) → ℕ → List ℕ
accepted l [] c = []
accepted l ((camera, now) ∷ offers) c =
    let more = accepted (check l camera now).0 offers c in
    if camera == c && not (is_some (check l camera now).1) then now ∷ more else more

count-none : (l : OfferRateLimiter) (c window t : ℕ) → count window t (accepted l [] c) ≡ 0
unfolding accepted count
count-none l c window t = refl

accepted-later :
    (l : OfferRateLimiter) (offers : List (ℕ × ℕ)) (c from t window : ℕ)
    → InOrder from offers
    → t < from
    → count window t (accepted l offers c) ≡ 0
unfolding accepted count
accepted-later l [] c from t window o h = refl
accepted-later l ((camera, now) ∷ offers) c from t window (le, o) h =
    let ih = accepted-later (check l camera now).0 offers c now t window o (omega arith) in
    ground arith

-- A check under a limit that is set.
abbrev checked : OfferRateLimiter → ℕ → ℕ → OfferRateLimiter × Option ℕ
checked l camera now =
    let (queue, answer) = check_hits l.limit l.window_sec now (l.hits camera) in
    (record l { hits = set_hits l.hits camera queue }, answer)

check-limited :
    (l : OfferRateLimiter) (camera now : ℕ)
    → 0 < l.limit
    → check l camera now ≡ checked l camera now
unfolding check
check-limited l camera now h = ground arith

accepted-limited :
    (l : OfferRateLimiter) (camera now : ℕ) (offers : List (ℕ × ℕ)) (c : ℕ)
    → 0 < l.limit
    → accepted l ((camera, now) ∷ offers) c ≡ (
        let more = accepted (checked l camera now).0 offers c in
        if camera == c && not (is_some (checked l camera now).1) then now ∷ more else more)
unfolding accepted
accepted-limited l camera now offers c h =
    ap
      (λ x.
        if camera == c && not (is_some x.1)
        then now ∷ accepted x.0 offers c
        else accepted x.0 offers c)
      (check-limited l camera now h)

abbrev Counted : OfferRateLimiter → ℕ → ℕ → ℕ → ℕ → Type 0
Counted l camera now t c =
    let l' = (checked l camera now).0 in
    (length (l'.hits c) ≤ l.limit)
    × (count l.window_sec t (l'.hits c)
        ≡ count l.window_sec t (l.hits c)
          + (if camera == c && not (is_some (checked l camera now).1)
              then count l.window_sec t (now ∷ [])
              else 0))

checked-same :
    (l : OfferRateLimiter) (camera now t : ℕ)
    → length (l.hits camera) ≤ l.limit
    → now ≤ t
    → Counted l camera now t camera
checked-same l camera now t h le =
    let len = check_hits-length l.limit l.window_sec now (l.hits camera) h in
    let cnt = check_hits-count l.limit l.window_sec now t (l.hits camera) le in
    (ground (arith, len), ground (arith, cnt))

checked-Counted :
    (l : OfferRateLimiter) (camera now t c : ℕ)
    → length (l.hits c) ≤ l.limit
    → now ≤ t
    → Counted l camera now t c
checked-Counted l camera now t c h le = elim (Bool-cases (camera == c)) [
  | inl e ↦
      let same : camera ≡ c = ground arith in
      subst (Counted l camera now t) same
        (checked-same l camera now t (subst (λ x. length (l.hits x) ≤ l.limit) (sym same) h) le)
  | inr e ↦ (ground arith, ground (arith, e))
]

count-if :
    (window t now : ℕ) (more : List ℕ) (b : Bool)
    → count window t (if b then now ∷ more else more)
      ≡ (if b then count window t (now ∷ []) else 0) + count window t more
unfolding count
count-if window t now more true = ground arith
count-if window t now more false = omega arith

-- What the queue of a camera holds of a window bounds what is let through in it from then on.
within-limit :
    (l : OfferRateLimiter) (offers : List (ℕ × ℕ)) (c from t : ℕ)
    → 0 < l.limit
    → length (l.hits c) ≤ l.limit
    → InOrder from offers
    → count l.window_sec t (l.hits c) + count l.window_sec t (accepted l offers c) ≤ l.limit
within-limit l [] c from t pos h o =
    omega (arith, h, count-le l.window_sec t (l.hits c), count-none l c l.window_sec t)
within-limit l ((camera, now) ∷ offers) c from t pos h (le, o) = elim (Bool-cases (ltb t now)) [
  | inl e ↦ omega (
    arith,
    count-le l.window_sec t (l.hits c),
    accepted-later l ((camera, now) ∷ offers) c now t l.window_sec (omega arith, o) (ground arith),
  )
  | inr e ↦
      let (len, cnt) = checked-Counted l camera now t c h (ground arith) in
      let ih = within-limit (checked l camera now).0 offers c now t pos len o in
      subst (λ x. count l.window_sec t (l.hits c) + count l.window_sec t x ≤ l.limit)
        (sym (accepted-limited l camera now offers c pos))
        (omega (
          arith,
          cnt,
          ih,
          count-if l.window_sec t now (accepted (checked l camera now).0 offers c)
              (camera == c && not (is_some (checked l camera now).1)),
        ))
]

abbrev pub new : ℕ → ℕ → OfferRateLimiter
new limit window_sec = record { limit = limit; window_sec = window_sec; hits = λ camera. [] }

-- From a new limiter with a limit, whatever offers of whatever cameras arrive in order of time, no
-- window, wherever it ends, holds more of a camera's accepted offers than the limit.
pub accepted-le-limit :
    (limit window_sec : ℕ) (offers : List (ℕ × ℕ)) (camera t : ℕ)
    → 0 < limit
    → InOrder 0 offers
    → count window_sec t (accepted (new limit window_sec) offers camera) ≤ limit
accepted-le-limit limit window_sec offers camera t pos o =
    omega (arith, within-limit (new limit window_sec) offers camera 0 t pos (omega arith) o)

full-accepts :
    (limit window now later : ℕ) (kept : List ℕ)
    → length kept ≤ limit
    → 0 < limit
    → now + seconds (retry_after window now kept) ≤ later
    → (check_hits limit window later kept).1 ≡ none
unfolding check_hits drop_old
full-accepts limit window now later [] len pos h = ground arith
full-accepts limit window now later (hit ∷ kept) len pos h =
    let fewer = length-drop_old window later kept in
    let old : hit + window ≤ later = omega arith in ground (arith, fewer, old)

-- With a positive limit that the queue does not exceed, a refusal records nothing, and an offer after
-- the seconds that it names, with no other in between, is accepted.
pub check_hits-retry :
    (limit window now later : ℕ) (hits : List ℕ) (wait : ℕ)
    → 0 < limit
    → length hits ≤ limit
    → (check_hits limit window now hits).1 ≡ some wait
    → now + seconds wait ≤ later
    → ((check_hits limit window now hits).0 ≡ drop_old window now hits)
      × ((check_hits limit window later (check_hits limit window now hits).0).1 ≡ none)
unfolding check_hits
check_hits-retry limit window now later hits wait pos len r h =
    let kept = drop_old window now hits in
    let fewer : length kept ≤ limit = omega (arith, length-drop_old window now hits) in
    if_rule {A = List ℕ × Option ℕ}
      (λ x. x.1 ≡ some wait → (x.0 ≡ kept) × ((check_hits limit window later x.0).1 ≡ none))
      (leb limit (length kept))
      (λ e a.
        let same : retry_after window now kept ≡ wait = ground (arith, a) in
        (
          refl,
          full-accepts limit window now later kept fewer pos
              (subst (λ x. now + seconds x ≤ later) (sym same) h),
        ))
      (λ e a. absurd (ground (arith, a))) r
