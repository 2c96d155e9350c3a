-- ===== src/Mqtt/Dispatch/Once.antt =====
-- Proofs about the order of the calls to publish a command, over its whole life.
use terra_server.Common.{
  All, List, [], ◌∷◌, not, and_true, not-true, ℕ, ◌≤◌, ◌≡◌, refl, sym, ap, subst, ◌∙◌, ◌⊎◌, inl,
  inr, Bool, true, false, Option, none, some, if_rule, arith,
}
use terra_server.Mqtt.Dispatch.{Status, pending, Row, ttl_of, Command, Publication, World}
use terra_server.Mqtt.Dispatch.Handle.{
  settle_unmarked, became, dispatch_new, dispatch_with, dispatch_one, prune_state, is_ahead, poll,
  sweep,
}
use terra_server.Mqtt.Dispatch.Life.{
  Move, polled, passed_over, acknowledged, cancelled, swept, Life, inserted, next,
}
use terra_server.Mqtt.Dispatch.Published.{
  untaken, settled, Held, Once, dispatch_issued-Once, dispatch_issued-Still, settle-Once,
}

-- A command before it is handled: not published, or held back.
abbrev Ready : Row → ℕ → ℕ → Command → Type 0
Ready row issued now c =
    (untaken c.published ≡ true)
    ⊎ ((settled c.published ≡ true) × Held row issued now c.published_unmarked)

-- Of the calls, newest first, none but the newest was answered with success.
abbrev pub IsLast : List Publication → Type 0
IsLast [] = Unit
IsLast (p ∷ ps) = All (λ q. q.reported ≡ false) ps

untaken-All : (ps : List Publication) → untaken ps ≡ true → All (λ q. q.reported ≡ false) ps
unfolding untaken
untaken-All [] h = tt
untaken-All (p ∷ ps) h =
    let parts = and_true (not p.reported) (untaken ps) h in
    (not-true p.reported parts.0, untaken-All ps parts.1)

untaken-Last : (ps : List Publication) → untaken ps ≡ true → IsLast ps
unfolding untaken
untaken-Last [] h = tt
untaken-Last (p ∷ ps) h = untaken-All ps ((and_true (not p.reported) (untaken ps) h).1)

settled-Last : (ps : List Publication) → settled ps ≡ true → IsLast ps
unfolding settled
settled-Last [] h = tt
settled-Last (p ∷ ps) h = untaken-All ps ((and_true p.reported (untaken ps) h).1)

Once-Last : (row : Row) (issued now : ℕ) (c : Command) → Once row issued now c → IsLast c.published
Once-Last row issued now c (inl u) = untaken-Last c.published u
Once-Last row issued now c (inr (s, g)) = settled-Last c.published s

module _ (row : Row) (issued : ℕ) where
  settle-unpublished :
      (w : World) (at : ℕ) (c : Command)
      → untaken c.published ≡ true
      → untaken (settle_unmarked w at c).published ≡ true
  unfolding settle_unmarked
  settle-unpublished w at c n = ground arith

  Once-later :
      (now later : ℕ) (c : Command) → now ≤ later → Once row issued now c → Once row issued later c
  Once-later now later c l r = ground arith

  dispatch_new-Once :
      (w : World) (o : Option ℕ) (c : Command)
      → o ≡ some issued
      → c.published_unmarked ≡ none
      → issued ≤ w.now
      → w.now ≤ w.sent_at
      → Ready row issued w.now c
      → Once row issued w.sent_at (dispatch_new w row o c).0
  dispatch_new-Once w o c e m i d (inl n) =
      subst (λ x. Once row issued w.sent_at (dispatch_new w row x c).0) (sym e)
        (dispatch_issued-Once row issued w c (omega arith) n)
  dispatch_new-Once w o c e m i d (inr (n, h)) =
      let k = subst (Held row issued w.now) m h in
      let s = dispatch_issued-Still row issued w c k in
      let over : Held row issued w.sent_at none = omega (arith, k) in
      subst (λ x. Once row issued w.sent_at (dispatch_new w row x c).0) (sym e)
        (inr (ap settled s.0 ∙ n, inr (subst (Held row issued w.sent_at) (sym (s.1 ∙ m)) over)))

  dispatch_with-Once :
      (w : World) (o : Option ℕ) (c : Command)
      → row.issued_at ≡ some issued
      → c.published_unmarked ≡ o
      → issued ≤ w.now
      → w.now ≤ w.sent_at
      → Ready row issued w.now c
      → Once row issued w.sent_at (dispatch_with w row o c).0
  dispatch_with-Once w (some at) c e m i d (inl n) = inl (settle-unpublished w at c n)
  dispatch_with-Once w (some at) c e m i d (inr (n, h)) =
      let k = subst (Held row issued w.now) m h in
      Once-later w.now w.sent_at (settle_unmarked w at c) d
        (settle-Once row issued w at c k.0 k.1 m n)
  dispatch_with-Once w none c e m i d r = dispatch_new-Once w row.issued_at c e m i d r

  prune-Ready :
      (now start : ℕ) (listed : Bool) (c : Command)
      → ttl_of row.ttl_sec ≤ 300
      → now ≤ start
      → Ready row issued now c
      → Ready row issued start (prune_state start listed c)
  unfolding prune_state
  prune-Ready now start listed c t l r = ground arith

  Ready-later :
      (now later : ℕ) (c : Command)
      → now ≤ later
      → Ready row issued now c
      → Ready row issued later c
  Ready-later now later c l r = ground arith

  Once-Ready :
      (now : ℕ) (before : Option Status) (c : Command)
      → c.status ≡ pending
      → Once row issued now c
      → Ready row issued now (became before c)
  Once-Ready now before c p o = ground arith

  Ready-Once : (now : ℕ) (c : Command) → Ready row issued now c → Once row issued now c
  Ready-Once now c r = ground arith

  not_ahead :
      (o : Option ℕ) (start : ℕ) → o ≡ some issued → is_ahead o start ≡ false → issued ≤ start
  not_ahead none start e h = ground arith
  not_ahead (some i) start e h = ground arith

  poll-Once :
      (now start : ℕ) (w : World) (before : Option Status) (c : Command)
      → row.issued_at ≡ some issued
      → ttl_of row.ttl_sec ≤ 300
      → now ≤ start
      → start ≤ w.now
      → w.now ≤ w.sent_at
      → c.status ≡ pending
      → Once row issued now c
      → Once row issued w.sent_at (poll start true w row (became before c))
  unfolding poll dispatch_one
  poll-Once now start w before c i t l k d p o =
      let ready = prune-Ready now start true (became before c) t l (Once-Ready now before c p o) in
      let handled = prune_state start true (became before c) in
      if_rule {A = Command} (Once row issued w.sent_at) (is_ahead row.issued_at start)
        (λ e. Once-later start w.sent_at handled (omega arith) (Ready-Once start handled ready))
        (λ e.
          let due : issued ≤ start = not_ahead row.issued_at start i e in
          dispatch_with-Once w handled.published_unmarked handled i refl (omega arith) d
            (Ready-later start w.now handled k ready))

  passed-Once :
      (now start : ℕ) (w : World) (c : Command)
      → ttl_of row.ttl_sec ≤ 300
      → now ≤ start
      → Once row issued now c
      → Once row issued start (poll start false w row c)
  unfolding poll prune_state
  passed-Once now start w c t l o = ground arith

  sweep-Once :
      (now : ℕ) (w : World) (c : Command)
      → now ≤ w.now
      → Once row issued now c
      → Once row issued w.now (sweep w row c)
  unfolding sweep
  sweep-Once now w c l o = ground arith

  Move-Once :
      {now later : ℕ} {c c' : Command}
      → row.issued_at ≡ some issued
      → ttl_of row.ttl_sec ≤ 300
      → Move row now c later c'
      → Once row issued now c
      → Once row issued later c'
  Move-Once {now} i t (polled start w before c l k d p b) o =
      poll-Once now start w before c i t l k d p o
  Move-Once {now} i t (passed_over start w c l) o = passed-Once now start w c t l o
  Move-Once {now} i t (acknowledged later c l) o = ground arith
  Move-Once {now} i t (cancelled later c l p) o = ground arith
  Move-Once {now} i t (swept w c l) o = sweep-Once now w c l o

  Life-Once :
      {now : ℕ} {c : Command}
      → row.issued_at ≡ some issued
      → ttl_of row.ttl_sec ≤ 300
      → Life row now c
      → Once row issued now c
  unfolding untaken
  Life-Once i t (inserted now) = inl refl
  Life-Once i t (next l m) = Move-Once i t m (Life-Once i t l)

-- Whatever polls, acknowledgements, cancellations and sweeps there are, whichever updates fail and
-- however long the lookups take: as long as the dispatcher is not restarted, no call to publish a
-- command with a time to live of five minutes at most follows one that was answered with success;
-- only the last call can be. (Calls that are answered with an error are made again while the time
-- to live lasts, and the client of the broker may keep their messages.)
pub published-IsLast :
    (row : Row) (issued now : ℕ) (c : Command)
    → row.issued_at ≡ some issued
    → ttl_of row.ttl_sec ≤ 300
    → Life row now c
    → IsLast c.published
published-IsLast row issued now c i t l = Once-Last row issued now c (Life-Once row issued i t l)
