-- ===== src/LiveSession/Laws.antt =====
-- What each operation on a live session does, on every branch.
use terra_server.Common.{
  ℕ, ◌+◌, ◌≤◌, ◌<◌, String, ◌≡◌, Bool, true, false, Option, none, some, arith, ◌&&◌, ◌||◌, not, leb,
  ◌⊎◌, inl, inr, refl, if_rule,
}
use terra_server.Common.Text.{is_text}
use terra_server.LiveSession.{
  Camera, Request, Answer, cooling, busy, claimed, live_max_sec, viewer_of, clock_start,
  start_claim, contend, claim, release, expire, retry, same_text, is_after, is_expired,
}

abbrev pub Past : Option ℕ → ℕ → Type 0
Past none now = Unit
Past (some at) now = at ≤ now

-- A session runs to 15 minutes after its clock began.
abbrev pub Runs : Option String → Option ℕ → Option ℕ → Type 0
Runs none started until = until ≡ none
Runs (some sid) none until = ⊥
Runs (some sid) (some started) until = until ≡ some (started + live_max_sec)

-- What holds of a row at `now`.
pub record IsSound (cam : Camera) (now : ℕ) : Type 0 where
  pub started : Past cam.live_started_at now
  pub ended : Past cam.live_ended_at now
  pub runs : Runs cam.live_session_id cam.live_started_at cam.stream_until

later-IsSound : (cam : Camera) (now then : ℕ) → now ≤ then → IsSound cam now → IsSound cam then
later-IsSound cam now then h s = ground arith

clock_start-le : (cam : Camera) (now : ℕ) → Past cam.live_started_at now → clock_start cam now ≤ now
unfolding clock_start
clock_start-le cam now h = ground arith

module _ (r : Request) (now : ℕ) (cam : Camera) (s : IsSound cam now) where
  start_claim-IsSound :
      (took : Bool) (previous : Option String) → IsSound (start_claim r now took previous cam).0 now
  unfolding start_claim
  start_claim-IsSound took previous = ground (arith, clock_start-le cam now)

  contend-IsSound : IsSound (contend r now cam).0 now
  unfolding contend
  contend-IsSound = ground (
    arith,
    start_claim-IsSound false cam.live_session_id,
    start_claim-IsSound true cam.live_session_id,
  )

  pub claim-IsSound : IsSound (claim r now cam).0 now
  unfolding claim
  claim-IsSound = ground (arith, contend-IsSound, start_claim-IsSound false none)

pub release-IsSound :
    (session reason : String) (now : ℕ) (cam : Camera)
    → IsSound cam now
    → IsSound (release session reason now cam).0 now
unfolding release
release-IsSound session reason now cam s = ground arith

pub expire-IsSound :
    (session : Option String) (now : ℕ) (cam : Camera)
    → IsSound cam now
    → IsSound (expire session now cam).0 now
unfolding expire
expire-IsSound none now cam s = s
expire-IsSound (some sid) now cam s = ground arith

-- Another session than the one of the request is active.
abbrev pub is_contended : Request → Camera → Bool
is_contended r cam = is_text cam.live_session_id && not (same_text cam.live_session_id r.session_id)

-- The session that a granted claim ends, if there is one: the viewer's own, or with a takeover.
abbrev pub Displaced : Request → Camera → Option String → Type 0
Displaced r cam previous =
    ((is_contended r cam ≡ false) × (previous ≡ none))
    ⊎ ((is_contended r cam ≡ true)
        × (previous ≡ cam.live_session_id)
        × ((same_text cam.live_viewer_id (viewer_of r) || r.takeover) ≡ true))

-- What the answer to a claim says of the row before and after it.
abbrev pub Settled : Request → ℕ → Camera → Camera → Answer → Type 0
Settled r now cam cam' (cooling wait) =
    (cam' ≡ cam)
    × (1 ≤ wait)
    × ((is_after cam.live_cooldown_until now
          || is_expired cam now
          || leb (clock_start cam now + live_max_sec) now)
        ≡ true)
Settled r now cam cam' (busy viewer since) =
    (cam' ≡ cam)
    × (r.takeover ≡ false)
    × (is_contended r cam ≡ true)
    × (same_text cam.live_viewer_id (viewer_of r) ≡ false)
Settled r now cam cam' (claimed previous until) =
    (until ≡ clock_start cam now + live_max_sec)
    × (now < until)
    × (cam'.stream_until ≡ some until)
    × (cam'.live_started_at ≡ some (clock_start cam now))
    × (cam'.live_session_id ≡ some r.session_id)
    × (cam'.live_viewer_id ≡ some (viewer_of r))
    × (is_after cam.live_cooldown_until now ≡ false)
    × (is_expired cam now ≡ false)
    × Displaced r cam previous

module _ (r : Request) (now : ℕ) (cam : Camera) where
  start_claim-Settled :
      (took : Bool) (previous : Option String)
      → is_after cam.live_cooldown_until now ≡ false
      → is_expired cam now ≡ false
      → Displaced r cam previous
      → let (cam', a) = start_claim r now took previous cam in Settled r now cam cam' a
  unfolding start_claim retry
  start_claim-Settled took previous h k d = ground arith

  contend-Settled :
      is_after cam.live_cooldown_until now ≡ false
      → is_expired cam now ≡ false
      → is_contended r cam ≡ true
      → let (cam', a) = contend r now cam in Settled r now cam cam' a
  unfolding contend
  contend-Settled h k l =
      if_rule {A = Camera × Answer} (λ x. Settled r now cam x.0 x.1)
        (same_text cam.live_viewer_id (viewer_of r))
        (λ e. start_claim-Settled false cam.live_session_id h k (inr (l, refl, ground (arith, e))))
        (λ e.
          if_rule {A = Camera × Answer} (λ x. Settled r now cam x.0 x.1) r.takeover
            (λ t.
              start_claim-Settled true cam.live_session_id h k (inr (l, refl, ground (arith, t))))
            (λ t. (refl, t, l, e)))

-- Every answer to a claim. A refusal leaves the row as it was. To wait is for at least a second, and
-- only while the camera rests, its session is past its end or its clock has run out. A busy camera
-- has another session, of another viewer, and the claim does not take over. A granted claim is on a
-- row that neither rests nor has a session past its end; it writes its session and viewer, with an
-- end that is fifteen minutes after the clock of the viewing began and lies ahead; and it names the
-- session that it ends, which is another one than its own, and is its viewer's or is taken over.
pub claim_settles :
    (r : Request) (now : ℕ) (cam : Camera)
    → let (cam', a) = claim r now cam in Settled r now cam cam' a
unfolding claim retry
claim_settles r now cam =
    let Q = λ (x : Camera × Answer). Settled r now cam x.0 x.1 in
    if_rule {A = Camera × Answer} Q (is_after cam.live_cooldown_until now)
      (λ e. (refl, ground arith, ground (arith, e)))
      (λ h.
        if_rule {A = Camera × Answer} Q (is_expired cam now)
          (λ e. (refl, ground arith, ground (arith, e)))
          (λ k.
            if_rule {A = Camera × Answer} Q (is_contended r cam)
              (λ l. contend-Settled r now cam h k l)
              (λ l. start_claim-Settled r now cam false none h k (inl (l, refl)))))
