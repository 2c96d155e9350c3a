-- ===== src/TempOffset/Laws.antt =====
-- What the offset of a payload comes to, on every branch.
use terra_server.Common.{
  ℕ, suc, ◌+◌, ◌%◌, ◌≤◌, ◌≡◌, ◌≢◌, refl, ◌⊎◌, inl, inr, Option, none, some, if_rule, arith,
}
use terra_server.Common.Int.{ℤ, pos, negsuc, ◌+ℤ◌, pos_part, neg_part}
use terra_server.Common.Json.{Value, number, boolean, other, Object, get}
use terra_server.TempOffset.{
  Resolved, untouched, device_value, invalid_payload, offset_out_of_range, to_device, round_2,
  round_2_ℕ, user_key, device_key, resolve_user, device_in_range, resolve_device_offset,
}

-- `c` is a whole number of hundredths, and none is nearer to `sum`.
abbrev pub IsRounded : ℤ → ℤ → Type 0
IsRounded sum c =
    (pos_part c % 100 ≡ 0)
    × (neg_part c % 100 ≡ 0)
    × (pos_part sum + neg_part c ≤ pos_part c + neg_part sum + 50)
    × (pos_part c + neg_part sum ≤ pos_part sum + neg_part c + 50)

round_2_ℕ_lem : (n : ℕ) → (round_2_ℕ n % 100 ≡ 0) × (n ≤ round_2_ℕ n + 50) × (round_2_ℕ n ≤ n + 50)
unfolding round_2_ℕ
round_2_ℕ_lem n = ground arith

zero_rounds : round_2_ℕ 0 ≡ 0
unfolding round_2_ℕ
zero_rounds = refl

round_2_lem : (sum : ℤ) → IsRounded sum (round_2 sum)
round_2_lem (pos n) = let h = round_2_ℕ_lem n in ground (arith, h, zero_rounds)
round_2_lem (negsuc n) = let h = round_2_ℕ_lem (suc n) in ground (arith, h, zero_rounds)

-- `c` is within ten degrees.
abbrev pub InLimits : ℤ → Type 0
InLimits c = (pos_part c ≤ 100000) × (neg_part c ≤ 100000)

abbrev pub Comes : ℤ → Option Value → Option Value → Resolved → Type 0
Comes base user dev untouched = user ≡ none
Comes base user dev (device_value c) =
    (v : ℤ) × ((user ≡ some (number v)) × (dev ≡ none) × IsRounded (v +ℤ base) c × InLimits c)
Comes base user dev invalid_payload =
    (user ≢ none) × ((dev ≢ none) ⊎ ((v : ℤ) → user ≢ some (number v)))
Comes base user dev offset_out_of_range =
    (v : ℤ) × (c : ℤ) × ((user ≡ some (number v))
      × (dev ≡ none)
      × IsRounded (v +ℤ base) c
      × (InLimits c → ⊥))

resolve_number_lem :
    (base : ℤ) (v : ℤ)
    → Comes base (some (number v)) none (resolve_user base (some (number v)) none)
resolve_number_lem base v =
    if_rule (Comes base (some (number v)) none) (device_in_range (to_device base v))
      (λ e. (v, (refl, refl, round_2_lem (v +ℤ base), ground arith)))
      (λ e. (v, to_device base v, (refl, refl, round_2_lem (v +ℤ base), λ h. ground arith)))

resolve_user_lem :
    (base : ℤ) (user dev : Option Value) → Comes base user dev (resolve_user base user dev)
resolve_user_lem base none dev = refl
resolve_user_lem base (some v) (some d) = (λ e. ground arith, inl (λ e. ground arith))
resolve_user_lem base (some (number v)) none = resolve_number_lem base v
resolve_user_lem base (some (boolean b)) none = (λ e. ground arith, inr (λ v e. ground arith))
resolve_user_lem base (some (other s)) none = (λ e. ground arith, inr (λ v e. ground arith))

-- The offset of a payload, on every branch: it is left alone exactly without a user's offset; a
-- device's value is the user's number with the base added, rounded to the nearest hundredth of a
-- degree, with no device's offset beside it and within ten degrees; it is invalid for another value
-- than a number, or with both offsets; and out of range only if the rounded sum is.
pub resolve_device_offset-Comes :
    (base : ℤ) (payload : Object)
    → Comes base
        (get user_key payload)
        (get device_key payload)
        (resolve_device_offset base (some payload))
unfolding resolve_device_offset
resolve_device_offset-Comes base payload =
    resolve_user_lem base (get user_key payload) (get device_key payload)
