-- ===== src/HumidCycle/Balance.antt =====
-- What is opened is ended once: the operations of a run of samples, counted.
use terra_server.Common.{
  ℕ, suc, ◌+◌, ◌≡◌, refl, arith, Bool, true, false, not, ◌&&◌, Option, none, some, List, [], ◌∷◌,
  ◌++◌, if◌then◌else◌, if_rule, ltb,
}
use terra_server.HumidCycle.{
  CycleState, Window, CycleOp, OpName, opened, merged, this, dry_reached, missed, vent_delay,
  mist_gap, mist_gap_close, vent_delay_close,
}
use terra_server.HumidCycle.Detect.{
  is_open, Detected, new_cycle, merge, on_rise, detect, detect_over, finish_ops, opening,
  is_mergeable, is_rise, is_ready, oldest,
}
use terra_server.HumidCycle.Step.{
  judge_max, judge_dry, judge_delay, judge_stale, judge_gap, judge, judge_cycle,
}
use terra_server.HumidCycle.Sound.{
  is_sound, IsSound, judge_max-IsSound, judge_dry-IsSound, judge_delay-IsSound, judge_stale-IsSound,
  judge_gap-IsSound, merge-IsSound,
}

-- What is begun and ended: the cycles, the alerts for late ventilation, and those for the gap.
pub data Account : Type 0 where
  openings delays gaps : Account

unfoldable pub begins : Account → OpName → Bool
begins openings opened = true
begins delays vent_delay = true
begins gaps mist_gap = true
begins a o = false

unfoldable pub ends : Account → OpName → Bool
ends openings dry_reached = true
ends openings missed = true
ends delays (vent_delay_close r) = true
ends gaps mist_gap_close = true
ends a o = false

-- It is begun and not ended.
unfoldable pub is_live : Account → CycleState → Bool
is_live openings c = is_open c.status
is_live delays c = c.vent_delay_fired && not c.vent_delay_closed
is_live gaps c = c.mist_gap_fired && not c.mist_gap_closed

abbrev pub live : Account → Option CycleState → ℕ
live a none = 0
live a (some c) = if is_live a c then 1 else 0

unfoldable pub count : (OpName → Bool) → List CycleOp → ℕ
count p [] = 0
count p (o ∷ os) = let rest = count p os in if p o.op then suc rest else rest

count-append :
    (p : OpName → Bool) (xs ys : List CycleOp) → count p (xs ++ ys) ≡ count p xs + count p ys
unfolding count
count-append p [] ys = omega arith
count-append p (x ∷ xs) ys = let ih = count-append p xs ys in ground arith

abbrev pub sound_of : Option CycleState → Bool
sound_of none = true
sound_of (some c) = is_sound c

-- What was live and what was begun is what was ended and what is live.
abbrev pub Keeps : Account → Option CycleState → Detected → Type 0
Keeps a c r =
    (sound_of r.0 ≡ true) × (live a c + count (begins a) r.1 ≡ count (ends a) r.1 + live a r.0)

pub Keeps-then :
    (a : Account) (c d e : Option CycleState) (xs ys : List CycleOp)
    → Keeps a c (d, xs)
    → Keeps a d (e, ys)
    → Keeps a c (e, xs ++ ys)
Keeps-then a c d e xs ys k l =
    let b = count-append (begins a) xs ys in
    let n = count-append (ends a) xs ys in let x = k.1 in let y = l.1 in (l.0, omega arith)

judge_max-Keeps :
    (a : Account) (now s : ℕ) (c : CycleState)
    → IsSound c
    → Keeps a (some c) (some (judge_max now s c).0, (judge_max now s c).1)
unfolding is_sound judge_max count begins ends is_live
judge_max-Keeps openings now s c h = (judge_max-IsSound now s c h, ground arith)
judge_max-Keeps delays now s c h = (judge_max-IsSound now s c h, ground arith)
judge_max-Keeps gaps now s c h = (judge_max-IsSound now s c h, ground arith)

judge_dry-Keeps :
    (a : Account) (now s : ℕ) (c : CycleState)
    → IsSound c
    → Keeps a (some c) (some (judge_dry now s c).0, (judge_dry now s c).1)
unfolding is_sound judge_dry count begins ends is_live
judge_dry-Keeps openings now s c h = (judge_dry-IsSound now s c h, ground arith)
judge_dry-Keeps delays now s c h = (judge_dry-IsSound now s c h, ground arith)
judge_dry-Keeps gaps now s c h = (judge_dry-IsSound now s c h, ground arith)

judge_delay-Keeps :
    (a : Account) (now s : ℕ) (c : CycleState)
    → IsSound c
    → Keeps a (some c) (some (judge_delay now s c).0, (judge_delay now s c).1)
unfolding is_sound judge_delay count begins ends is_live
judge_delay-Keeps openings now s c h = (judge_delay-IsSound now s c h, ground arith)
judge_delay-Keeps delays now s c h = (judge_delay-IsSound now s c h, ground arith)
judge_delay-Keeps gaps now s c h = (judge_delay-IsSound now s c h, ground arith)

judge_stale-Keeps :
    (a : Account) (now s : ℕ) (c : CycleState)
    → IsSound c
    → Keeps a (some c) (some (judge_stale now s c).0, (judge_stale now s c).1)
unfolding is_sound judge_stale count begins ends is_live
judge_stale-Keeps openings now s c h = (judge_stale-IsSound now s c h, ground arith)
judge_stale-Keeps delays now s c h = (judge_stale-IsSound now s c h, ground arith)
judge_stale-Keeps gaps now s c h = (judge_stale-IsSound now s c h, ground arith)

judge_gap-Keeps :
    (a : Account) (now s : ℕ) (c : CycleState)
    → IsSound c
    → Keeps a (some c) (some (judge_gap now s c).0, (judge_gap now s c).1)
unfolding is_sound judge_gap count begins ends is_live
judge_gap-Keeps openings now s c h = (judge_gap-IsSound now s c h, ground arith)
judge_gap-Keeps delays now s c h = (judge_gap-IsSound now s c h, ground arith)
judge_gap-Keeps gaps now s c h = (judge_gap-IsSound now s c h, ground arith)

judge-Keeps :
    (a : Account) (now s : ℕ) (c : CycleState)
    → IsSound c
    → Keeps a (some c) (some (judge now s c).0, (judge now s c).1)
unfolding judge
judge-Keeps a now s c h =
    let m = judge_max now s c in
    let d = judge_dry now s m.0 in
    let v = judge_delay now s d.0 in
    let st = judge_stale now s v.0 in
    let g = judge_gap now s st.0 in
    let km = judge_max-Keeps a now s c h in
    let kd = judge_dry-Keeps a now s m.0 km.0 in
    let kv = judge_delay-Keeps a now s d.0 kd.0 in
    let ks = judge_stale-Keeps a now s v.0 kv.0 in
    let kg = judge_gap-Keeps a now s st.0 ks.0 in
    let end = some g.0 in
    Keeps-then a (some c) (some m.0) end m.1 (d.1 ++ (v.1 ++ (st.1 ++ g.1))) km (
      Keeps-then a (some m.0) (some d.0) end d.1 (v.1 ++ (st.1 ++ g.1)) kd (
        Keeps-then a (some d.0) (some v.0) end v.1 (st.1 ++ g.1) kv
          (Keeps-then a (some v.0) (some st.0) end st.1 g.1 ks kg)))

pub judge_cycle-Keeps :
    (a : Account) (now s : ℕ) (c : Option CycleState) (r : Detected)
    → Keeps a c r
    → Keeps a c (judge_cycle now s r)
judge_cycle-Keeps a now s c (none, ops) k = k
judge_cycle-Keeps a now s c (some d, ops) k =
    let j = judge now s d in
    Keeps-then a c (some d) (some j.0) ops j.1 k (judge-Keeps a now s d k.0)

renew-Keeps :
    (a : Account) (now s t₀ low : ℕ) (c : CycleState)
    → IsSound c
    → Keeps a (some c) (some (new_cycle t₀ low now s), opening t₀ s ∷ finish_ops t₀ s c)
unfolding is_sound new_cycle finish_ops count begins ends is_live
renew-Keeps openings now s t₀ low c h = (refl, ground arith)
renew-Keeps delays now s t₀ low c h = (refl, ground arith)
renew-Keeps gaps now s t₀ low c h = (refl, ground arith)

merge-Keeps :
    (a : Account) (now s : ℕ) (c : CycleState)
    → is_open c.status ≡ true
    → IsSound c
    → Keeps a
        (some c)
        (some (merge now s c), record { op = merged; at = now; cycle = this; value = s } ∷ [])
unfolding is_sound merge count begins ends is_live
merge-Keeps openings now s c o h = (merge-IsSound now s c o h, ground arith)
merge-Keeps delays now s c o h = (merge-IsSound now s c o h, ground arith)
merge-Keeps gaps now s c o h = (merge-IsSound now s c o h, ground arith)

pub none-Keeps : (a : Account) (c : Option CycleState) → sound_of c ≡ true → Keeps a c (c, [])
unfolding count
none-Keeps a c h = (h, omega arith)

first-Keeps :
    (a : Account) (now s t₀ low : ℕ)
    → Keeps a none (some (new_cycle t₀ low now s), opening t₀ s ∷ [])
unfolding is_sound new_cycle count begins ends is_live
first-Keeps openings now s t₀ low = (refl, refl)
first-Keeps delays now s t₀ low = (refl, refl)
first-Keeps gaps now s t₀ low = (refl, refl)

on_rise-Keeps :
    (a : Account) (now s t₀ low : ℕ) (c : Option CycleState)
    → sound_of c ≡ true
    → Keeps a c (on_rise now s t₀ low c)
unfolding on_rise
on_rise-Keeps a now s t₀ low none h = first-Keeps a now s t₀ low
on_rise-Keeps a now s t₀ low (some c) h =
    if_rule (Keeps a (some c)) (ltb t₀ c.max_until) (λ e. none-Keeps a (some c) h)
      (λ e.
        if_rule (Keeps a (some c)) (is_mergeable c now)
          (λ o. merge-Keeps a now s c (ground (arith, o)) h) (λ o. renew-Keeps a now s t₀ low c h))

detect_over-Keeps :
    (a : Account) (now s : ℕ) (m : Option (ℕ × ℕ)) (c : Option CycleState)
    → sound_of c ≡ true
    → Keeps a c (detect_over now s m c)
detect_over-Keeps a now s none c h = none-Keeps a c h
detect_over-Keeps a now s (some (t₀, low)) c h =
    if_rule (Keeps a c) (is_rise low s) (λ e. on_rise-Keeps a now s t₀ low c h)
      (λ e. none-Keeps a c h)

pub detect-Keeps :
    (a : Account) (now s : ℕ) (raw mins : Window) (start : Option ℕ) (c : Option CycleState)
    → sound_of c ≡ true
    → Keeps a c (detect now s raw mins start c)
unfolding detect
detect-Keeps a now s raw mins start c h =
    if_rule (Keeps a c) (is_ready raw start now) (λ e. detect_over-Keeps a now s (oldest mins) c h)
      (λ e. none-Keeps a c h)
