-- ===== src/LiveSession/Limit.antt =====
-- Viewing over many operations: the fifteen minutes of one viewing, and the pause after them.
use terra_server.Common.{
  ℕ, ◌+◌, ◌<◌, String, ◌≡◌, refl, sym, ap, ◌∙◌, subst, Bool, true, false, ◌||◌, Option, none, some,
  List, [], ◌∷◌, if◌then◌else◌, if_rule, arith,
}
use terra_server.Common.Text.{is_text}
use terra_server.LiveSession.{
  Camera, Request, Answer, cooling, busy, claimed, live_max_sec, live_cooldown_sec, is_recent,
  clock_start, claim, release, is_due, expire, retry,
}
use terra_server.LiveSession.Laws.{claim_settles, Settled}

-- What reaches the row of a camera: a claim, a close, or a pass of the reaper.
pub data Event : Type 0 where
  ask : Request → Event
  close : String → String → Event
  reap : Event

unfoldable pub apply : ℕ → Event → Camera → Camera
unfolding claim release expire
apply now (ask r) cam = (claim r now cam).0
apply now (close session reason) cam = (release session reason now cam).0
apply now reap cam = if is_due cam now then (expire cam.live_session_id now cam).0 else cam

unfoldable pub apply_all : List (ℕ × Event) → Camera → Camera
unfolding apply
apply_all [] cam = cam
apply_all ((now, e) ∷ es) cam = apply_all es (apply now e cam)

abbrev pub Before : ℕ → List (ℕ × Event) → Type 0
Before until [] = Unit
Before until ((now, e) ∷ es) = (now < until) × Before until es

-- A row on which nobody may view before `until`.
abbrev pub Resting : ℕ → Camera → Type 0
Resting until cam = (cam.live_session_id ≡ none) × (cam.live_cooldown_until ≡ some until)

claim-Resting :
    (until now : ℕ) (r : Request) (cam : Camera)
    → now < until
    → Resting until cam
    → claim r now cam ≡ (cam, cooling (retry until now))
unfolding claim
claim-Resting until now r cam l h = ground arith

apply-Resting :
    (until now : ℕ) (e : Event) (cam : Camera)
    → now < until
    → Resting until cam
    → apply now e cam ≡ cam
unfolding apply release
apply-Resting until now (ask r) cam l h = ap (λ x. x.0) (claim-Resting until now r cam l h)
apply-Resting until now (close session reason) cam l h = ground arith
apply-Resting until now reap cam l h = ground arith

apply_all-Resting :
    (until : ℕ) (es : List (ℕ × Event)) (cam : Camera)
    → Before until es
    → Resting until cam
    → apply_all es cam ≡ cam
unfolding apply_all
apply_all-Resting until [] cam l h = refl
apply_all-Resting until ((now, e) ∷ es) cam (l, ls) h =
    ap (apply_all es) (apply-Resting until now e cam l h) ∙ apply_all-Resting until es cam ls h

expire-Resting :
    (session : Option String) (now : ℕ) (cam : Camera)
    → (expire session now cam).1 ≡ true
    → Resting (now + live_cooldown_sec) (expire session now cam).0
unfolding expire
expire-Resting none now cam h = ground arith
expire-Resting (some sid) now cam h = ground arith

-- Once a session has been closed for its time, every claim within the next five minutes is refused
-- with the time that is left, whatever claims, closes and passes of the reaper came in between.
pub expire-rests :
    (session : Option String) (now : ℕ) (cam : Camera) (es : List (ℕ × Event)) (r : Request)
    (later : ℕ)
    → (expire session now cam).1 ≡ true
    → Before (now + live_cooldown_sec) es
    → later < now + live_cooldown_sec
    → let cam' = apply_all es (expire session now cam).0 in
      claim r later cam' ≡ (cam', cooling (retry (now + live_cooldown_sec) later))
expire-rests session now cam es r later h ls l =
    let rest = expire-Resting session now cam h in
    let same = apply_all-Resting (now + live_cooldown_sec) es (expire session now cam).0 ls rest in
    claim-Resting (now + live_cooldown_sec) later r (apply_all es (expire session now cam).0) l
      (subst (Resting (now + live_cooldown_sec)) (sym same) rest)

-- A claim that carries on: a session is active, or one ended less than a minute ago.
abbrev pub carries_on : Camera → ℕ → Bool
carries_on cam now =
    is_text cam.live_session_id || is_recent cam.live_started_at cam.live_ended_at now

-- The rows of one viewing, from the claim that began it at `start`: claims that carry on, closes,
-- and passes of the reaper, in any order.
pub data Viewing (start : ℕ) : Camera → Type 0 where
  begun :
      (r : Request) (cam : Camera) (previous : Option String) (until : ℕ)
      → carries_on cam start ≡ false
      → (claim r start cam).1 ≡ claimed previous until
      → Viewing start (claim r start cam).0
  claimed_again :
      (now : ℕ) (r : Request) (cam : Camera)
      → carries_on cam now ≡ true
      → Viewing start cam
      → Viewing start (claim r now cam).0
  closed :
      (now : ℕ) (session reason : String) (cam : Camera)
      → Viewing start cam
      → Viewing start (release session reason now cam).0
  reaped : (now : ℕ) (cam : Camera) → Viewing start cam → Viewing start (apply now reap cam)

claim-keeps_start :
    (start now : ℕ) (r : Request) (cam cam' : Camera) (a : Answer)
    → carries_on cam now ≡ true
    → cam.live_started_at ≡ some start
    → Settled r now cam cam' a
    → cam'.live_started_at ≡ some start
unfolding clock_start
claim-keeps_start start now r cam cam' (cooling wait) h k s = ap (λ x. x.live_started_at) s.0 ∙ k
claim-keeps_start start now r cam cam' (busy viewer since) h k s =
    ap (λ x. x.live_started_at) s.0 ∙ k
claim-keeps_start start now r cam cam' (claimed previous until) h k s = ground arith

claim-starts :
    (start : ℕ) (r : Request) (cam cam' : Camera) (a : Answer) (previous : Option String)
    (until : ℕ)
    → carries_on cam start ≡ false
    → a ≡ claimed previous until
    → Settled r start cam cam' a
    → cam'.live_started_at ≡ some start
unfolding clock_start
claim-starts start r cam cam' (cooling wait) previous until h k s = ground arith
claim-starts start r cam cam' (busy viewer since) previous until h k s = ground arith
claim-starts start r cam cam' (claimed p u) previous until h k s = ground arith

expire-started :
    (session : Option String) (now : ℕ) (cam : Camera)
    → (expire session now cam).0.live_started_at ≡ cam.live_started_at
unfolding expire
expire-started none now cam = refl
expire-started (some sid) now cam = ground arith

Viewing-start : (start : ℕ) (cam : Camera) → Viewing start cam → cam.live_started_at ≡ some start
unfolding apply release expire
Viewing-start start _ (begun r cam previous until h k) =
    claim-starts start r cam (claim r start cam).0 (claim r start cam).1 previous until h k
      (claim_settles r start cam)
Viewing-start start _ (claimed_again now r cam h v) =
    claim-keeps_start start now r cam (claim r now cam).0 (claim r now cam).1 h
      (Viewing-start start cam v) (claim_settles r now cam)
Viewing-start start _ (closed now session reason cam v) =
    let ih = Viewing-start start cam v in ground arith
Viewing-start start _ (reaped now cam v) =
    if_rule {A = Camera} (λ x. x.live_started_at ≡ some start) (is_due cam now)
      (λ h. expire-started cam.live_session_id now cam ∙ Viewing-start start cam v)
      (λ h. Viewing-start start cam v)

claim-ends :
    (start now : ℕ) (r : Request) (cam cam' : Camera) (a : Answer) (previous : Option String)
    (until : ℕ)
    → carries_on cam now ≡ true
    → cam.live_started_at ≡ some start
    → a ≡ claimed previous until
    → Settled r now cam cam' a
    → (until ≡ start + live_max_sec) × (now < start + live_max_sec)
unfolding clock_start
claim-ends start now r cam cam' (cooling wait) previous until h j k s = ground arith
claim-ends start now r cam cam' (busy viewer since) previous until h j k s = ground arith
claim-ends start now r cam cam' (claimed p u) previous until h j k s = ground arith

-- In one viewing, through any claims, closes and passes of the reaper, a claim that carries it on
-- is granted only before fifteen minutes after its start, and only up to that instant.
pub claim-Viewing :
    (start now : ℕ) (r : Request) (cam : Camera) (previous : Option String) (until : ℕ)
    → Viewing start cam
    → carries_on cam now ≡ true
    → (claim r now cam).1 ≡ claimed previous until
    → (until ≡ start + live_max_sec) × (now < start + live_max_sec)
claim-Viewing start now r cam previous until v h k =
    claim-ends start now r cam (claim r now cam).0 (claim r now cam).1 previous until h
      (Viewing-start start cam v) k (claim_settles r now cam)
