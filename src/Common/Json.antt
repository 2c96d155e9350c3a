-- ===== src/Common/Json.antt =====
-- JSON objects as the code reads them: a number is counted in ten-thousandths, which all that the code
-- handles are; a value of another kind than a number or a boolean is kept as its text.
use Prim.Native.String.{String}
use mathlib.Core.Bool.{Bool, true, false}
use mathlib.Core.List.{List, [], ◌∷◌}
use mathlib.Core.Option.{Option, none, some}
use mathlib.Core.Path.{◌≡◌, refl, ap}
use native.Mathlib.Omega.{arith}
use text.Mathlib.TextEquality.{eq_iff}
use terra_server.Common.Int.{ℤ}
use terra_server.Common.Tests.{if◌then◌else◌}
use terra_server.Common.Text.{str_eq}

pub data Value : Type 0 where
  number : ℤ → Value
  boolean : Bool → Value
  other : String → Value

abbrev pub Object : Type 0
Object = List (String × Value)

-- `d.get(key)`
unfoldable pub get : String → Object → Option Value
get key [] = none
get key ((k, v) ∷ d) = let rest = get key d in if str_eq k key then some v else rest

-- `d[key] = value`
unfoldable pub put : String → Value → Object → Object
put key value [] = (key, value) ∷ []
put key value ((k, v) ∷ d) =
    let rest = put key value d in if str_eq k key then (key, value) ∷ d else (k, v) ∷ rest

-- `d.update(e)`
unfoldable pub update : Object → Object → Object
unfolding put
update d [] = d
update d ((k, v) ∷ e) = update (put k v d) e

unfoldable pub contains_key : List String → String → Bool
contains_key [] key = false
contains_key (k ∷ ks) key = let rest = contains_key ks key in if str_eq k key then true else rest

-- `{k: v for k, v in d.items() if k not in keys}`
unfoldable pub without : List String → Object → Object
unfolding contains_key
without keys [] = []
without keys ((k, v) ∷ d) =
    let rest = without keys d in if contains_key keys k then rest else (k, v) ∷ rest

pub get-put :
    (key j : String) (v : Value) (d : Object)
    → get j (put key v d) ≡ (if str_eq key j then some v else get j d)
unfolding get put
get-put key j v [] = refl
get-put key j v ((i, w) ∷ d) =
    ground (arith, eq_iff key j, eq_iff i key, eq_iff i j, get-put key j v d)

-- A key that the other object lacks keeps its value.
pub get-update : (key : String) (d e : Object) → get key e ≡ none → get key (update d e) ≡ get key d
unfolding get update
get-update key d [] h = refl
get-update key d ((k, v) ∷ e) h =
    let ih = get-update key (put k v d) e in ground (arith, ih, get-put k key v d)

-- A key that both objects lack is in neither.
pub get-without :
    (keys : List String) (key : String) (d : Object)
    → contains_key keys key ≡ true
    → get key (without keys d) ≡ none
unfolding get without
get-without keys key [] h = refl
get-without keys key ((k, v) ∷ d) h =
    let ih = get-without keys key d h in
    let same : str_eq k key ≡ true → contains_key keys k ≡ contains_key keys key =
      λ e. ap (contains_key keys) ((eq_iff k key).0 e) in
    ground (arith, ih, same)

pub get-without-none :
    (keys : List String) (key : String) (d : Object)
    → get key d ≡ none
    → get key (without keys d) ≡ none
unfolding get without
get-without-none keys key [] h = refl
get-without-none keys key ((k, v) ∷ d) h =
    let ih = get-without-none keys key d in ground (arith, ih)
