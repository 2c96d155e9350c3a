-- ===== src/Mqtt/Dispatch/Split.antt =====
-- A mist longer than a device allows is poured in bursts: each command publishes one, and leaves
-- the rest to the command that it inserts.
use terra_server.Common.{
  ℕ, zero, suc, ◌-◌, ◌≤◌, ◌<◌, ◌≡◌, String, true, none, some, List, [], ◌∷◌, ◌++◌, All, ◌⊎◌, inl,
  inr, refl, sym, subst, ap, ◌∙◌, arith,
}
use terra_server.Mqtt.Dispatch.{Row, Remainder, Command, World}
use terra_server.Mqtt.Dispatch.Message.{mist_split}
use terra_server.Mqtt.Dispatch.Bursts.{
  remainder_row, durations, pour, bursts, sum, burst_of, split_rest, durations-pour,
  remainders-within, remainders-over,
}

split_cases :
    (limit : ℕ) (id : String) (row : Row) (r : Remainder)
    → (r.remainder_ms ≤ limit × (mist_split limit (remainder_row id row r) ≡ none))
      ⊎ (limit < r.remainder_ms
          × (mist_split limit (remainder_row id row r) ≡ some (limit, r.remainder_ms - limit)))
split_cases limit id row r = ground (arith, split_rest limit id row r)

abbrev Poured : ℕ → ℕ → List ℕ → Type 0
Poured limit ms bs = (sum bs ≡ ms) × All (λ b. b ≤ limit) bs

Poured-cons :
    (limit ms burst : ℕ) (bs : List ℕ)
    → burst ≤ limit
    → burst ≤ ms
    → Poured limit (ms - burst) bs
    → Poured limit ms (burst ∷ bs)
unfolding sum
Poured-cons limit ms burst bs h k p = (omega (arith, p.0), (h, p.1))

module _ (ws : ℕ → World) (ids : ℕ → String) (row : Row) where
  abbrev next_bursts : ℕ → Command → List Remainder → List ℕ
  next_bursts n c [] = durations c.published
  next_bursts n c (rest ∷ others) = durations c.published ++ bursts n ws ids row rest

  bursts-suc :
      (n : ℕ) (r : Remainder) (rests : List Remainder)
      → (pour (ws n) (ids n) row r).remainders ≡ rests
      → bursts (suc n) ws ids row r ≡ next_bursts n (pour (ws n) (ids n) row r) rests
  unfolding bursts
  bursts-suc n r rests e = ap (next_bursts n (pour (ws n) (ids n) row r)) e

  last_burst :
      (limit n : ℕ) (r : Remainder)
      → (ws n).broker ≡ true
      → r.remainder_ms ≤ limit
      → mist_split (ws n).mist_cap (remainder_row (ids n) row r) ≡ none
      → Poured limit r.remainder_ms (bursts (suc n) ws ids row r)
  unfolding sum
  last_burst limit n r b h s =
      let alone : bursts (suc n) ws ids row r ≡ r.remainder_ms ∷ [] =
        bursts-suc n r [] (remainders-within (ws n) (ids n) row r b s)
        ∙ durations-pour (ws n) (ids n) row r b
        ∙ ap (λ x. burst_of x r.remainder_ms ∷ []) s in
      subst (Poured limit r.remainder_ms) (sym alone) (omega arith, (h, tt))

  further_bursts :
      (limit n burst : ℕ) (r : Remainder)
      → (ws n).broker ≡ true
      → (ws n).inserts ≡ true
      → burst ≤ limit
      → burst < r.remainder_ms
      → mist_split (ws n).mist_cap (remainder_row (ids n) row r)
        ≡ some (burst, r.remainder_ms - burst)
      → ((rest : Remainder)
          → rest.remainder_ms ≡ r.remainder_ms - burst
          → Poured limit rest.remainder_ms (bursts n ws ids row rest))
      → Poured limit r.remainder_ms (bursts (suc n) ws ids row r)
  further_bursts limit n burst r b i h k s rest_poured =
      let over =
        remainders-over (ws n) (ids n) row r burst (r.remainder_ms - burst) b i (omega arith) s in
      let rest : Remainder = record { remainder_ms = r.remainder_ms - burst; due = over.0 } in
      let both : bursts (suc n) ws ids row r ≡ burst ∷ bursts n ws ids row rest =
        bursts-suc n r (rest ∷ []) over.1
        ∙ ap (λ x. x ++ bursts n ws ids row rest)
            (durations-pour (ws n) (ids n) row r b ∙ ap (λ x. burst_of x r.remainder_ms ∷ []) s) in
      subst (Poured limit r.remainder_ms) (sym both) (
        Poured-cons limit r.remainder_ms burst (bursts n ws ids row rest) h (omega arith)
          (rest_poured rest refl))

-- A rest is poured whole, in bursts of which none is over `limit`, through the commands that each
-- publication inserts for what it leaves: when the device's limit is positive and at most `limit`
-- whenever it is read, and each publication and each insertion succeeds. As many commands as the
-- rest has milliseconds are enough.
pub sum-bursts :
    (ws : ℕ → World) (ids : ℕ → String) (row : Row) (limit : ℕ)
    → ((k : ℕ)
        → ((ws k).broker ≡ true)
          × ((ws k).inserts ≡ true)
          × (0 < (ws k).mist_cap)
          × ((ws k).mist_cap ≤ limit))
    → (n : ℕ) (r : Remainder) → 0 < r.remainder_ms
    → r.remainder_ms ≤ n
    → (sum (bursts n ws ids row r) ≡ r.remainder_ms) × All (λ b. b ≤ limit) (bursts n ws ids row r)
sum-bursts ws ids row limit good zero r p h = absurd (omega arith)
sum-bursts ws ids row limit good (suc n) r p h = elim (split_cases (ws n).mist_cap (ids n) row r) [
  | inl (within, s) ↦ last_burst ws ids row limit n r (good n).0 (omega (arith, (good n).3)) s
  | inr (over, s) ↦
      further_bursts ws ids row limit n (ws n).mist_cap r (good n).0 (good n).1 (good n).3 over s
        (λ rest e.
          sum-bursts ws ids row limit good n rest (omega arith) (omega (arith, (good n).2)))
]
