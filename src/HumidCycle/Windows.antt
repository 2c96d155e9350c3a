-- ===== src/HumidCycle/Windows.antt =====
-- `_smooth`: the median of the last 30 seconds, and the deque of the lowest values.
use terra_server.Common.{
  ℕ, zero, suc, ◌+◌, ◌-◌, ◌*◌, ◌/◌, ◌%◌, Bool, true, false, ◌&&◌, List, [], ◌∷◌, ltb, leb, ◌==◌,
  if◌then◌else◌, length, map,
}
use terra_server.HumidCycle.{Window, smooth_sec, rise_window_sec}

-- `statistics.median`, in half units.
unfoldable pub insert : ℕ → List ℕ → List ℕ
insert x [] = x ∷ []
insert x (y ∷ ys) = let rest = insert x ys in if leb x y then x ∷ y ∷ ys else y ∷ rest

unfoldable pub sort : List ℕ → List ℕ
unfolding insert
sort [] = []
sort (x ∷ xs) = insert x (sort xs)

unfoldable pub nth : List ℕ → ℕ → ℕ
nth [] i = 0
nth (x ∷ xs) zero = x
nth (x ∷ xs) (suc i) = nth xs i

unfoldable pub median : List ℕ → ℕ
unfolding sort nth
median values =
    let sorted = sort values in
    let n = length values in
    if n % 2 == 1 then nth sorted (n / 2) * 2 else nth sorted (n / 2 - 1) + nth sorted (n / 2)

abbrev pub values : Window → List ℕ
values w = map (λ x. x.1) w

abbrev pub is_empty : Window → Bool
is_empty [] = true
is_empty (x ∷ xs) = false

-- `while w[0][0] < now - sec: w.popleft()`, on a window whose newest sample comes first.
unfoldable pub trim : ℕ → ℕ → Window → Window
trim sec now [] = []
trim sec now (x ∷ xs) =
    let rest = trim sec now xs in if is_empty rest && ltb (x.0 + sec) now then [] else x ∷ rest

-- `while w and w[-1][1] >= s: w.pop()`
unfoldable pub pop_higher : ℕ → Window → Window
pop_higher s [] = []
pop_higher s (x ∷ xs) = let rest = pop_higher s xs in if leb s x.1 then rest else x ∷ xs

pub record Smoothed : Type 0 where
  pub raw : Window
  pub mins : Window
  pub value : ℕ

unfoldable pub smooth : ℕ → ℕ → Window → Window → Smoothed
unfolding median trim pop_higher
smooth now humid raw mins =
    let raw' = trim smooth_sec now ((now, humid) ∷ raw) in
    let s = median (values raw') in
    record { raw = raw'; mins = trim rise_window_sec now ((now, s) ∷ pop_higher s mins); value = s }
