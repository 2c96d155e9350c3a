-- ===== src/RebootRestore/Latest.antt =====
-- The latest event of each actuator decides what is restored.
use terra_server.Common.{
  ℕ, ◌≤◌, ◌≡◌, refl, sym, ap, subst, ◌∙◌, true, Option, none, some, List, [], ◌∷◌, ◌&&◌,
  if◌then◌else◌, if_rule, Bool-cases, inl, inr, ◌⊎◌, All, arith,
}
use terra_server.Scheduling.Runner.{Row}
use terra_server.RebootRestore.{
  Actuator, led, fan, fan2, Schedule, Event, event_of, same_actuator, lookup, set, is_later, renew,
  latest_from,
}

-- The event of an actuator is no earlier than `p`.
abbrev pub Covers : ℕ → Option Event → Type 0
Covers p none = ⊥
Covers p (some e) = p ≤ e.prev

abbrev pub Dominates : Option Event → Option Event → Type 0
Dominates none o = Unit
Dominates (some e) o = Covers e.prev o

same_actuator-true : (a b : Actuator) → same_actuator a b ≡ true → a ≡ b
same_actuator-true led led h = refl
same_actuator-true fan fan h = refl
same_actuator-true fan2 fan2 h = refl
same_actuator-true led fan h = ground arith
same_actuator-true led fan2 h = ground arith
same_actuator-true fan led h = ground arith
same_actuator-true fan fan2 h = ground arith
same_actuator-true fan2 led h = ground arith
same_actuator-true fan2 fan h = ground arith

same_actuator_refl : (a : Actuator) → same_actuator a a ≡ true
same_actuator_refl led = refl
same_actuator_refl fan = refl
same_actuator_refl fan2 = refl

lookup-set :
    (a b : Actuator) (e : Event) (latest : List (Actuator × Event))
    → lookup b (set a e latest) ≡ (if same_actuator b a then some e else lookup b latest)
unfolding lookup set
lookup-set a b e [] = refl
lookup-set a b e ((c, f) ∷ latest) =
    let ih = lookup-set a b e latest in
    elim (Bool-cases (same_actuator a c)) [
      | inl h ↦
          let same : same_actuator b a ≡ same_actuator b c =
            ap (same_actuator b) (same_actuator-true a c h) in
          ground (arith, same, h)
      | inr h ↦
          let apart : same_actuator b a ≡ true → same_actuator b c ≡ same_actuator a c =
            λ k. ap (λ x. same_actuator x c) (same_actuator-true b a k) in
          ground (arith, apart, h, ih)
    ]

-- No schedule has an event of the actuator later than `o`.
abbrev pub Latest : ℕ → Actuator → Option Event → List Schedule → Type 0
Latest now a o ss = All (λ s. (p : ℕ) → event_of now s ≡ some (a, p) → Covers p o) ss

abbrev renewed : Actuator → Row → Actuator → ℕ → Option Event → Option Event
renewed a row b prev o =
    if same_actuator a b && is_later prev o then some (record { prev = prev; row = row }) else o

lookup-renew_same :
    (a : Actuator) (row : Row) (prev : ℕ) (latest : List (Actuator × Event))
    → lookup a (renew row (some (a, prev)) latest) ≡ renewed a row a prev (lookup a latest)
lookup-renew_same a row prev latest =
    let r = same_actuator_refl a in
    let s = lookup-set a a (record { prev = prev; row = row }) latest in ground (arith, r, s)

lookup-renew :
    (a b : Actuator) (row : Row) (prev : ℕ) (latest : List (Actuator × Event))
    → lookup a (renew row (some (b, prev)) latest) ≡ renewed a row b prev (lookup a latest)
lookup-renew a b row prev latest = elim (Bool-cases (same_actuator a b)) [
  | inl h ↦
      subst
        (λ x. lookup a (renew row (some (x, prev)) latest) ≡ renewed a row x prev (lookup a latest))
        (same_actuator-true a b h) (lookup-renew_same a row prev latest)
  | inr h ↦
      let s = lookup-set b a (record { prev = prev; row = row }) latest in ground (arith, h, s)
]

Dominates-refl : (o : Option Event) → Dominates o o
Dominates-refl none = tt
Dominates-refl (some e) = omega arith

Covers-Dominates : (p : ℕ) (o o' : Option Event) → Covers p o → Dominates o o' → Covers p o'
Covers-Dominates p (some e) (some e') h k = omega arith
Covers-Dominates p (some e) none h k = k
Covers-Dominates p none o' h k = absurd h

renewed-Dominates :
    (a : Actuator) (row : Row) (b : Actuator) (prev : ℕ) (o : Option Event)
    → Dominates o (renewed a row b prev o)
renewed-Dominates a row b prev none = tt
renewed-Dominates a row b prev (some e) = ground arith

renewed-Covers :
    (a : Actuator) (row : Row) (b : Actuator) (prev : ℕ) (o : Option Event)
    → same_actuator a b ≡ true
    → Covers prev (renewed a row b prev o)
renewed-Covers a row b prev none h = ground arith
renewed-Covers a row b prev (some e) h = ground arith

renew-Dominates :
    (a : Actuator) (row : Row) (o : Option (Actuator × ℕ)) (latest : List (Actuator × Event))
    → Dominates (lookup a latest) (lookup a (renew row o latest))
renew-Dominates a row none latest = Dominates-refl (lookup a latest)
renew-Dominates a row (some (b, prev)) latest =
    subst (Dominates (lookup a latest)) (sym (lookup-renew a b row prev latest))
      (renewed-Dominates a row b prev (lookup a latest))

renew-Covers :
    (a : Actuator) (row : Row) (o : Option (Actuator × ℕ)) (latest : List (Actuator × Event))
    (p : ℕ)
    → o ≡ some (a, p)
    → Covers p (lookup a (renew row o latest))
renew-Covers a row none latest p h = absurd (ground (arith, h))
renew-Covers a row (some (b, prev)) latest p h =
    subst (λ o. Covers p (lookup a (renew row o latest))) (sym h)
      (subst (Covers p) (sym (lookup-renew a a row p latest))
        (renewed-Covers a row a p (lookup a latest) (same_actuator_refl a)))

latest_from-Dominates :
    (now : ℕ) (a : Actuator) (ss : List Schedule) (latest : List (Actuator × Event)) (p : ℕ)
    → Covers p (lookup a latest)
    → Covers p (lookup a (latest_from now ss latest))
unfolding latest_from
latest_from-Dominates now a [] latest p h = h
latest_from-Dominates now a (s ∷ ss) latest p h =
    latest_from-Dominates now a ss (renew s.row (event_of now s) latest) p (
      Covers-Dominates p (lookup a latest) (lookup a (renew s.row (event_of now s) latest)) h
        (renew-Dominates a s.row (event_of now s) latest))

-- Among the schedules of a device that have an event of an actuator, the loop keeps one that no other
-- is later than.
pub latest_from-Latest :
    (now : ℕ) (a : Actuator) (ss : List Schedule) (latest : List (Actuator × Event))
    → Latest now a (lookup a (latest_from now ss latest)) ss
unfolding latest_from
latest_from-Latest now a [] latest = tt
latest_from-Latest now a (s ∷ ss) latest = (
  λ p h.
      latest_from-Dominates now a ss (renew s.row (event_of now s) latest) p
        (renew-Covers a s.row (event_of now s) latest p h),
  latest_from-Latest now a ss (renew s.row (event_of now s) latest),
)

-- The event is that of one of the schedules.
abbrev pub Origin : ℕ → Actuator → List Schedule → Event → Type 0
Origin now a [] e = ⊥
Origin now a (s ∷ ss) e =
    ((event_of now s ≡ some (a, e.prev)) × (e.row ≡ s.row)) ⊎ Origin now a ss e

abbrev pub OneOf : ℕ → Actuator → List Schedule → Option Event → Option Event → Type 0
OneOf now a ss before none = Unit
OneOf now a ss before (some e) = (before ≡ some e) ⊎ Origin now a ss e

OneOf-refl : (now : ℕ) (a : Actuator) (ss : List Schedule) (o : Option Event) → OneOf now a ss o o
OneOf-refl now a ss none = tt
OneOf-refl now a ss (some e) = inl refl

abbrev event_prev : Option Event → ℕ
event_prev none = 0
event_prev (some e) = e.prev

abbrev event_row : Row → Option Event → Row
event_row d none = d
event_row d (some e) = e.row

-- An entry that a schedule may have written.
abbrev From : ℕ → Actuator → Schedule → Option Event → Event → Type 0
From now a s before e = (before ≡ some e) ⊎ ((event_of now s ≡ some (a, e.prev)) × (e.row ≡ s.row))

renewed-From :
    (now : ℕ) (a b : Actuator) (s : Schedule) (prev : ℕ) (o : Option Event) (e : Event)
    → event_of now s ≡ some (b, prev)
    → renewed a s.row b prev o ≡ some e
    → From now a s o e
renewed-From now a b s prev o e h =
    if_rule {A = Option Event} (λ x. x ≡ some e → From now a s o e)
      (same_actuator a b && is_later prev o)
      (λ t k.
        let same : b ≡ a = sym (same_actuator-true a b (ground (arith, t))) in
        inr (
          h ∙ ap (λ x. some (x, prev)) same ∙ ap (λ x. some (a, x)) (ap event_prev k),
          sym (ap (event_row s.row) k),
        ))
      (λ t k. inl k)

renew-From :
    (now : ℕ) (a : Actuator) (s : Schedule) (o : Option (Actuator × ℕ))
    (latest : List (Actuator × Event)) (e : Event)
    → event_of now s ≡ o
    → lookup a (renew s.row o latest) ≡ some e
    → From now a s (lookup a latest) e
renew-From now a s none latest e h k = inl k
renew-From now a s (some (b, prev)) latest e h k =
    renewed-From now a b s prev (lookup a latest) e h (sym (lookup-renew a b s.row prev latest) ∙ k)

extend-OneOf :
    (now : ℕ) (a : Actuator) (s : Schedule) (ss : List Schedule) (latest : List (Actuator × Event))
    (o : Option Event)
    → OneOf now a ss (lookup a (renew s.row (event_of now s) latest)) o
    → OneOf now a (s ∷ ss) (lookup a latest) o
extend-OneOf now a s ss latest none h = tt
extend-OneOf now a s ss latest (some e) (inr x) = inr (inr x)
extend-OneOf now a s ss latest (some e) (inl x) =
    elim (renew-From now a s (event_of now s) latest e refl x) [
      | inl y ↦ inl y
      | inr z ↦ inr (inl z)
    ]

latest_from-OneOf :
    (now : ℕ) (a : Actuator) (ss : List Schedule) (latest : List (Actuator × Event))
    → OneOf now a ss (lookup a latest) (lookup a (latest_from now ss latest))
unfolding latest_from
latest_from-OneOf now a [] latest = OneOf-refl now a [] (lookup a latest)
latest_from-OneOf now a (s ∷ ss) latest =
    extend-OneOf now a s ss latest
      (lookup a (latest_from now ss (renew s.row (event_of now s) latest)))
      (latest_from-OneOf now a ss (renew s.row (event_of now s) latest))

-- The event that the loop keeps for an actuator is that of a schedule of the device, and no schedule
-- has a later event of the actuator; it keeps none only if no schedule has an event of the actuator.
pub latest_from-Decides :
    (now : ℕ) (a : Actuator) (ss : List Schedule)
    → OneOf now a ss none (lookup a (latest_from now ss []))
      × Latest now a (lookup a (latest_from now ss [])) ss
unfolding lookup
latest_from-Decides now a ss = (latest_from-OneOf now a ss [], latest_from-Latest now a ss [])
