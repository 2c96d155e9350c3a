-- ===== src/EnvRules/Tracker/Timing.antt =====
-- The rules of backend/env_rules.py on time, told by the history of samples alone.
use terra_server.Common.{ℕ, ◌≡◌, sym, subst, ◌∷◌, fun_ext}
use terra_server.EnvRules.Thresholds.{Thresholds}
use terra_server.EnvRules.Event.{Element}
use terra_server.EnvRules.Tracker.{ElementTracker, Cond, Conds, reading, conds, reset_timers}
use terra_server.EnvRules.Tracker.Judge.{observe, judge, step}
use terra_server.EnvRules.Tracker.Warrant.{
  IsWellFormed, Starts, start_of, Warranted, judge-Warranted,
}
use terra_server.EnvRules.Tracker.History.{History, since, feed, feed-Timed, observe-Timed}
use terra_server.EnvRules.Tracker.WellFormed.{feed-IsWellFormed, observe-IsWellFormed}

judge-Warranted_from :
    (u : ElementTracker) (now v : ℕ) (th : Thresholds) (cs : Conds) (e : Element) (starts : Starts)
    → IsWellFormed u
    → u.element ≡ e
    → ((c : Cond) → start_of (u.runs c) ≡ starts c)
    → Warranted e starts now cs (judge u now v th cs).1
judge-Warranted_from u now v th cs e starts w p q =
    let acts = (judge u now v th cs).1 in
    subst (λ e. Warranted e starts now cs acts) p
      (subst (λ starts. Warranted u.element starts now cs acts) (fun_ext q)
        (judge-Warranted u now v th cs w))

-- After any history of samples from reset timers, with a well-formed tracker: an event is opened
-- only when the condition of its level and side has held without a break for the entry time (2
-- minutes, an hour for over-humidity) up to now, dated from the start of that stretch, a caution
-- moreover only while the value is not in danger; or as the silent, unpushed caution after 5
-- minutes of relief with the value still beyond the limit. An event closed with none in its place
-- has been in range for 5 minutes, and one replaced ends when the next begins.
pub step-Warranted :
    (t : ElementTracker) (th : Thresholds) (h : History) (now v : ℕ)
    → IsWellFormed t
    → Warranted t.element
        (λ c. since t.element th c ((now, reading v) ∷ h))
        now
        (conds t.element v th)
        (step (feed (reset_timers t) th h) now (reading v) th).1
unfolding step
step-Warranted t th h now v w =
    let u = feed (reset_timers t) th h in
    let timed = feed-Timed t th h in
    let seen = observe-Timed t.element th h u now v timed in
    subst
      (λ e.
        Warranted t.element (λ c. since t.element th c ((now, reading v) ∷ h)) now
          (conds t.element v th) (judge (observe u now v th) now v th (conds e v th)).1)
      (sym timed.0)
      (judge-Warranted_from (observe u now v th) now v th (conds t.element v th) t.element
        (λ c. since t.element th c ((now, reading v) ∷ h))
        (observe-IsWellFormed u now v th (feed-IsWellFormed t th h w)) seen.0 seen.2)
