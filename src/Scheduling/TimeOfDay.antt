-- ===== src/Scheduling/TimeOfDay.antt =====
-- `parse_time_of_day` of backend/scheduling.py, on the code points of the text: `int` reads ASCII
-- digits here, with the signs, the white space and the underscores that it takes.
use terra_server.Common.{
  ℕ, zero, suc, ◌+◌, ◌-◌, ◌*◌, ◌/◌, ◌%◌, ◌<◌, ◌≡◌, Bool, true, false, ◌&&◌, Option, none, some,
  List, [], ◌∷◌, ◌++◌, leb, ◌==◌, if◌then◌else◌, arith,
}
use terra_server.Common.Clock.{seconds}
use terra_server.Common.Text.{strip, lstrip, is_space}

unfoldable pub split : ℕ → List ℕ → List (List ℕ)
split c [] = [] ∷ []
split c (x ∷ xs) = elim (split c xs) [
  | [] ↦ []
  | part ∷ parts ↦ if x == c then [] ∷ part ∷ parts else (x ∷ part) ∷ parts
]

abbrev pub is_digit : ℕ → Bool
is_digit c = leb 48 c && leb c 57

-- Digits, with single underscores between them; `after` says whether a digit stands before.
unfoldable pub digits : Bool → ℕ → List ℕ → Option ℕ
digits after n [] = if after then some n else none
digits after n (c ∷ cs) =
    let more = digits true (n * 10 + (c - 48)) cs in
    let gap = digits false n cs in
    if is_digit c then more else if c == 95 && after then gap else none

-- `int(text)` of a number that is not negative; a negative one is out of every range.
unfoldable pub int_of : List ℕ → Option ℕ
unfolding digits strip
int_of text = elim (strip text) [
  | [] ↦ none
  | c ∷ cs ↦
      if c == 43
      then digits false 0 cs
      else if c == 45
      then elim (digits false 0 cs) [ none ↦ none | some zero ↦ some zero | some (suc n) ↦ none ]
      else digits false 0 (c ∷ cs)
]

abbrev pub in_range : ℕ → ℕ → ℕ → Bool
in_range hh mm ss = leb hh 23 && leb mm 59 && leb ss 59

abbrev pub time_from : Option ℕ → Option ℕ → Option ℕ → Option ℕ
time_from (some hh) (some mm) (some ss) =
    if in_range hh mm ss then some (seconds ((hh * 60 + mm) * 60 + ss)) else none
time_from _ _ _ = none

unfoldable pub from_parts : List (List ℕ) → Option ℕ
unfolding int_of
from_parts (hh ∷ mm ∷ ss ∷ rest) = time_from (int_of hh) (int_of mm) (int_of ss)
from_parts (hh ∷ mm ∷ []) = time_from (int_of hh) (int_of mm) (some 0)
from_parts _ = none

-- The time of day as a duration since midnight; none is the `ValueError`.
unfoldable pub parse_time_of_day : List ℕ → Option ℕ
unfolding split from_parts
parse_time_of_day value = from_parts (split 58 value)

-- What a database gives for a time of day: HH:MM:SS.
abbrev pub two_digits : ℕ → List ℕ
two_digits n = (48 + n / 10) ∷ (48 + n % 10) ∷ []

unfoldable pub print : ℕ → ℕ → ℕ → List ℕ
print hh mm ss = two_digits hh ++ (58 ∷ []) ++ two_digits mm ++ (58 ∷ []) ++ two_digits ss

int_of-two_digits : (n : ℕ) → n < 100 → int_of (two_digits n) ≡ some n
unfolding int_of digits strip lstrip is_space
int_of-two_digits n h = ground arith

split-print :
    (hh mm ss : ℕ)
    → hh < 100
    → mm < 100
    → ss < 100
    → split 58 (print hh mm ss) ≡ two_digits hh ∷ two_digits mm ∷ two_digits ss ∷ []
unfolding split print
split-print hh mm ss h m s = ground arith

-- Reading back a printed time of day, of an hour under 24 and a minute and a second under 60, gives
-- the duration since midnight that it says.
pub parse_time_of_day-print :
    (hh mm ss : ℕ)
    → hh < 24
    → mm < 60
    → ss < 60
    → parse_time_of_day (print hh mm ss) ≡ some (seconds ((hh * 60 + mm) * 60 + ss))
unfolding parse_time_of_day from_parts
parse_time_of_day-print hh mm ss h m s = ground (
  arith,
  split-print hh mm ss (omega arith) (omega arith) (omega arith),
  int_of-two_digits hh (omega arith),
  int_of-two_digits mm (omega arith),
  int_of-two_digits ss (omega arith),
)

time_from-lt : (hh mm ss : Option ℕ) (tod : ℕ) → time_from hh mm ss ≡ some tod → tod < seconds 86400
time_from-lt (some hh) (some mm) (some ss) tod h = ground arith
time_from-lt (some hh) (some mm) none tod h = ground arith
time_from-lt (some hh) none ss tod h = ground arith
time_from-lt none mm ss tod h = ground arith

from_parts-lt :
    (parts : List (List ℕ)) (tod : ℕ) → from_parts parts ≡ some tod → tod < seconds 86400
unfolding from_parts
from_parts-lt [] tod h = ground arith
from_parts-lt (hh ∷ []) tod h = ground arith
from_parts-lt (hh ∷ mm ∷ []) tod h = time_from-lt (int_of hh) (int_of mm) (some 0) tod h
from_parts-lt (hh ∷ mm ∷ ss ∷ rest) tod h = time_from-lt (int_of hh) (int_of mm) (int_of ss) tod h

-- Whatever the text, a time of day that it gives lies within a day.
pub parse_time_of_day-lt :
    (value : List ℕ) (tod : ℕ) → parse_time_of_day value ≡ some tod → tod < seconds 86400
unfolding parse_time_of_day
parse_time_of_day-lt value tod h = from_parts-lt (split 58 value) tod h
