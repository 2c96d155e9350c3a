-- ===== src/HumidCycle/Deque.antt =====
-- A deque of lowest values, and the window of a list: which of them is the lowest.
use terra_server.Common.{
  ℕ, ◌+◌, ◌≤◌, ◌<◌, ◌≡◌, refl, ap, ◌∙◌, arith, true, Option, none, some, [], ◌∷◌, ltb, leb,
  if◌then◌else◌, All, Bool-cases, inl, inr, if_rule, Option-cases, subst,
}
use terra_server.HumidCycle.{Window}
use terra_server.HumidCycle.Windows.{is_empty, trim, pop_higher}
use terra_server.HumidCycle.Detect.{oldest}

-- The samples that are at most `sec` old.
unfoldable pub recent : ℕ → ℕ → Window → Window
recent sec now [] = []
recent sec now (x ∷ xs) =
    let rest = recent sec now xs in if leb now (x.0 + sec) then x ∷ rest else rest

abbrev pub lower : ℕ × ℕ → Option (ℕ × ℕ) → ℕ × ℕ
lower x none = x
lower x (some y) = if ltb y.1 x.1 then y else x

-- The lowest value, the latest of equal ones.
unfoldable pub lowest : Window → Option (ℕ × ℕ)
lowest [] = none
lowest (x ∷ xs) = some (lower x (lowest xs))

-- No sample is newer than the one before it in the list.
unfoldable pub IsFalling : Window → Type 0
IsFalling [] = Unit
IsFalling (x ∷ xs) = All (λ y. y.0 ≤ x.0) xs × IsFalling xs

-- Every value that is left of a deque is above the older ones.
unfoldable pub Climbs : Window → Type 0
Climbs [] = Unit
Climbs (x ∷ xs) = All (λ y. y.1 < x.1) xs × Climbs xs

-- The deque of the lowest values, without the window.
unfoldable pub stack : Window → Window
unfolding pop_higher
stack [] = []
stack (x ∷ h) = x ∷ pop_higher x.1 (stack h)

recent_old :
    (sec now a : ℕ) (l : Window) → a + sec < now → All (λ y. y.0 ≤ a) l → recent sec now l ≡ []
unfolding recent
recent_old sec now a [] old h = refl
recent_old sec now a (x ∷ xs) old (h, hs) = let ih = recent_old sec now a xs old hs in ground arith

is_empty_lem : (l : Window) → is_empty l ≡ true → l ≡ []
is_empty_lem [] h = refl
is_empty_lem (x ∷ xs) h = ground arith

pub trim-recent : (sec now : ℕ) (l : Window) → IsFalling l → trim sec now l ≡ recent sec now l
unfolding IsFalling trim recent
trim-recent sec now [] f = refl
trim-recent sec now (x ∷ xs) (h, f) =
    let ih = trim-recent sec now xs f in
    let old = λ (o : x.0 + sec < now). recent_old sec now x.0 xs o h in
    let e = is_empty_lem (trim sec now xs) in ground arith

-- A window of a window.
pub recent-recent :
    (sec t now : ℕ) (l : Window) → t ≤ now → recent sec now (recent sec t l) ≡ recent sec now l
unfolding recent
recent-recent sec t now [] h = refl
recent-recent sec t now (x ∷ xs) h = let ih = recent-recent sec t now xs h in ground arith

pub pop-All : (P : ℕ × ℕ → Type 0) (s : ℕ) (l : Window) → All P l → All P (pop_higher s l)
unfolding pop_higher
pop-All P s [] h = tt
pop-All P s (x ∷ xs) (h, hs) = if_rule (All P) (leb s x.1) (λ e. pop-All P s xs hs) (λ e. (h, hs))

pub recent-All :
    (P : ℕ × ℕ → Type 0) (sec now : ℕ) (l : Window) → All P l → All P (recent sec now l)
unfolding recent
recent-All P sec now [] h = tt
recent-All P sec now (x ∷ xs) (h, hs) =
    let rest = recent-All P sec now xs hs in
    if_rule (All P) (leb now (x.0 + sec)) (λ e. (h, rest)) (λ e. rest)

pub recent-pop :
    (sec now s : ℕ) (l : Window)
    → IsFalling l
    → recent sec now (pop_higher s l) ≡ pop_higher s (recent sec now l)
unfolding IsFalling recent pop_higher
recent-pop sec now s [] f = refl
recent-pop sec now s (x ∷ xs) (h, f) =
    let ih = recent-pop sec now s xs f in
    let old = λ (o : x.0 + sec < now). recent_old sec now x.0 xs o h in
    let gone : x.0 + sec < now → pop_higher s (recent sec now xs) ≡ [] =
      λ o. ap (pop_higher s) (old o) in
    ground arith

pub recent-IsFalling : (sec now : ℕ) (l : Window) → IsFalling l → IsFalling (recent sec now l)
unfolding IsFalling recent
recent-IsFalling sec now [] f = tt
recent-IsFalling sec now (x ∷ xs) (h, f) =
    let rest = recent-IsFalling sec now xs f in
    if_rule IsFalling (leb now (x.0 + sec)) (λ e. (recent-All (λ y. y.0 ≤ x.0) sec now xs h, rest))
      (λ e. rest)

pub pop-IsFalling : (s : ℕ) (l : Window) → IsFalling l → IsFalling (pop_higher s l)
unfolding IsFalling pop_higher
pop-IsFalling s [] f = tt
pop-IsFalling s (x ∷ xs) (h, f) =
    if_rule IsFalling (leb s x.1) (λ e. pop-IsFalling s xs f) (λ e. (h, f))

pub stack-All : (P : ℕ × ℕ → Type 0) (h : Window) → All P h → All P (stack h)
unfolding stack
stack-All P [] a = tt
stack-All P (x ∷ h) (a, hs) = (a, pop-All P x.1 (stack h) (stack-All P h hs))

pub stack-IsFalling : (h : Window) → IsFalling h → IsFalling (stack h)
unfolding IsFalling stack
stack-IsFalling [] f = tt
stack-IsFalling (x ∷ h) (a, f) = (
  pop-All (λ y. y.0 ≤ x.0) x.1 (stack h) (stack-All (λ y. y.0 ≤ x.0) h a),
  pop-IsFalling x.1 (stack h) (stack-IsFalling h f),
)

All-map : (P Q : ℕ × ℕ → Type 0) (l : Window) → ((y : ℕ × ℕ) → P y → Q y) → All P l → All Q l
All-map P Q [] f h = tt
All-map P Q (y ∷ l) f (h, hs) = (f y h, All-map P Q l f hs)

-- What is left after a value is below it, in a climbing deque.
pop-Below : (s : ℕ) (l : Window) → Climbs l → All (λ y. y.1 < s) (pop_higher s l)
unfolding Climbs pop_higher
pop-Below s [] c = tt
pop-Below s (x ∷ xs) (h, c) =
    if_rule (All (λ y. y.1 < s)) (leb s x.1) (λ e. pop-Below s xs c)
      (λ e.
        let below : x.1 < s = ground arith in
        (below, All-map (λ y. y.1 < x.1) (λ y. y.1 < s) xs (λ y l. omega arith) h))

pop-Climbs : (s : ℕ) (l : Window) → Climbs l → Climbs (pop_higher s l)
unfolding Climbs pop_higher
pop-Climbs s [] c = tt
pop-Climbs s (x ∷ xs) (h, c) = if_rule Climbs (leb s x.1) (λ e. pop-Climbs s xs c) (λ e. (h, c))

stack-Climbs : (h : Window) → Climbs (stack h)
unfolding Climbs stack
stack-Climbs [] = tt
stack-Climbs (x ∷ h) =
    let rest = stack-Climbs h in (pop-Below x.1 (stack h) rest, pop-Climbs x.1 (stack h) rest)

recent-Climbs : (sec now : ℕ) (l : Window) → Climbs l → Climbs (recent sec now l)
unfolding Climbs recent
recent-Climbs sec now [] f = tt
recent-Climbs sec now (x ∷ xs) (h, f) =
    let rest = recent-Climbs sec now xs f in
    if_rule Climbs (leb now (x.0 + sec)) (λ e. (recent-All (λ y. y.1 < x.1) sec now xs h, rest))
      (λ e. rest)

oldest-All : (P : ℕ × ℕ → Type 0) (l : Window) (z : ℕ × ℕ) → All P l → oldest l ≡ some z → P z
unfolding oldest
oldest-All P [] z h e = ground arith
oldest-All P (x ∷ xs) z (h, hs) e = elim (Option-cases (oldest xs)) [
  | inl a ↦ let same : x ≡ z = ground arith in subst P same h
  | inr (y, a) ↦ let same : oldest xs ≡ some z = ground arith in oldest-All P xs z hs same
]

-- The oldest value of a climbing deque stays if it is below the new one; else all go.
oldest-pop :
    (x : ℕ × ℕ) (l : Window) → Climbs l → oldest (x ∷ pop_higher x.1 l) ≡ some (lower x (oldest l))
unfolding Climbs oldest pop_higher
oldest-pop x [] c = refl
oldest-pop x (y ∷ ys) (h, c) =
    let ih = oldest-pop x ys c in
    let below = λ (z : ℕ × ℕ). oldest-All (λ w. w.1 < y.1) ys z h in
    elim (Option-cases (oldest ys)) [
      | inl a ↦ ground arith
      | inr (z, a) ↦ let b = below z a in ground arith
    ]

pub oldest-stack :
    (sec now : ℕ) (h : Window)
    → IsFalling h
    → oldest (recent sec now (stack h)) ≡ lowest (recent sec now h)
unfolding IsFalling recent stack oldest lowest
oldest-stack sec now [] f = refl
oldest-stack sec now (x ∷ h) (a, f) =
    let ih = oldest-stack sec now h f in
    let pop = recent-pop sec now x.1 (stack h) (stack-IsFalling h f) in
    let kept = recent-Climbs sec now (stack h) (stack-Climbs h) in
    let new =
      ap (λ l. oldest (x ∷ l)) pop
      ∙ oldest-pop x (recent sec now (stack h)) kept
      ∙ ap (λ o. some (lower x o)) ih in
    let gone = λ (o : x.0 + sec < now).
      recent_old sec now x.0 (pop_higher x.1 (stack h)) o
        (pop-All (λ y. y.0 ≤ x.0) x.1 (stack h) (stack-All (λ y. y.0 ≤ x.0) h a)) in
    let none_left = λ (o : x.0 + sec < now). recent_old sec now x.0 h o a in
    elim (Bool-cases (leb now (x.0 + sec))) [
      | inl e ↦ ground arith
      | inr e ↦
          let o : x.0 + sec < now = ground arith in
          let l = ap oldest (gone o) in let r = ap lowest (none_left o) in ground arith
    ]
