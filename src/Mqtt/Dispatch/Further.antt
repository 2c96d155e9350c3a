-- ===== src/Mqtt/Dispatch/Further.antt =====
-- Proofs about the further commands that one command leaves.
use terra_server.Common.{
  ℕ, suc, ◌+◌, ◌≤◌, ◌≡◌, Bool, true, false, ◌&&◌, not, Option, none, some, List, [], ◌∷◌, All,
  length, ltb, if◌then◌else◌, if_rule, arith,
}
use terra_server.Common.Clock.{seconds}
use terra_server.Common.Int.{ℤ}
use terra_server.Common.Text.{str_eq}
use terra_server.TempOffset.{
  Resolved, untouched, device_value, invalid_payload, offset_out_of_range, resolve_device_offset,
}
use terra_server.Mqtt.Dispatch.{
  Row, ttl_of, Lookup, lookup_error, not_found, device_text, Command, Publication, World,
}
use terra_server.Mqtt.Dispatch.Message.{mist_split, publish_payload}
use terra_server.Mqtt.Dispatch.Handle.{
  Handled, mark_sent, settle_unmarked, became, remember, enqueue_remainder, publish, recheck,
  is_reread_pending, find_device, with_resolved, is_unsupported, dispatch_issued, dispatch_new,
  dispatch_with, dispatch_one, prune_state, is_ahead, poll, sweep,
}
use terra_server.Mqtt.Dispatch.Life.{
  Move, polled, passed_over, acknowledged, cancelled, swept, Life, inserted, next,
}
use terra_server.Mqtt.Dispatch.Once.{IsLast, published-IsLast}

-- How many calls were answered with success.
unfoldable taken : List Publication → ℕ
taken [] = 0
taken (p ∷ ps) = let rest = taken ps in if p.reported then 1 + rest else rest

abbrev Few : Command → Type 0
Few c = length c.remainders ≤ taken c.published

-- What neither publishes nor leaves anything.
abbrev Calm : Command → Command → Type 0
Calm c c' = (c'.published ≡ c.published) × (c'.remainders ≡ c.remainders)

recorded : World → Command → Command
recorded w c = remember w (mark_sent w (became w.meanwhile c))

recorded-Calm : (w : World) (c : Command) → Calm c (recorded w c)
unfolding recorded
recorded-Calm w c = ground arith

enqueue-Few :
    (w : World) (split : Option (ℕ × ℕ)) (c : Command)
    → suc (length c.remainders) ≤ taken c.published
    → Few (enqueue_remainder w split c)
enqueue-Few w none c h = omega arith
enqueue-Few w (some (burst, rest)) c h = ground arith

module _ (row : Row) (issued : ℕ) (w : World) where
  publish-Few : (offset : Option ℤ) (c : Command) → Few c → Few (publish w row issued offset c).0
  unfolding publish taken recorded
  publish-Few offset c h =
      let split = mist_split w.mist_cap row in
      let c₁ = record c {
        published =
            record {
              checked = w.now;
              at = w.sent_at;
              reported = w.broker;
              message = publish_payload row issued split offset;
            }
            ∷ c.published;
      } in
      let calm = recorded-Calm w c₁ in
      if_rule {A = Handled} (λ x. Few x.0) w.broker
        (λ e. enqueue-Few w split (recorded w c₁) (ground (arith, e, h, calm)))
        (λ e. ground (arith, e, h))

  recheck-Few : (offset : Option ℤ) (c : Command) → Few c → Few (recheck w row issued offset c).0
  unfolding recheck
  recheck-Few offset c h =
      if_rule {A = Handled} (λ x. Few x.0)
        (str_eq row.source "auto" && not (is_reread_pending w.reread)) (λ e. h)
        (λ e. publish-Few offset c h)

  find_device-Few :
      (offset : Option ℤ) (l : Lookup) (c : Command)
      → Few c
      → Few (find_device w row issued offset l c).0
  find_device-Few offset lookup_error c h = h
  find_device-Few offset not_found c h = ground arith
  find_device-Few offset (device_text t) c h =
      recheck-Few offset (record c { lookup_errors = 0; lookup_misses = 0 }) h

  with_resolved-Few : (r : Resolved) (c : Command) → Few c → Few (with_resolved w row issued r c).0
  with_resolved-Few untouched c h = find_device-Few none w.lookup c h
  with_resolved-Few (device_value v) c h = find_device-Few (some v) w.lookup c h
  with_resolved-Few invalid_payload c h = ground arith
  with_resolved-Few offset_out_of_range c h = ground arith

  dispatch_issued-Few : (c : Command) → Few c → Few (dispatch_issued w row issued c).0
  unfolding dispatch_issued
  dispatch_issued-Few c h =
      if_rule {A = Handled} (λ x. Few x.0) (ltb (issued + seconds (ttl_of row.ttl_sec)) w.now)
        (λ e. ground arith)
        (λ e.
          if_rule {A = Handled} (λ x. Few x.0) (is_unsupported row.action) (λ f. ground arith)
            (λ f.
              with_resolved-Few
                (if str_eq row.action "set_temp_offset"
                  then resolve_device_offset w.base_c row.payload
                  else untouched)
                c h))

module _ (row : Row) where
  settle-Few : (w : World) (at : ℕ) (c : Command) → Few c → Few (settle_unmarked w at c)
  unfolding settle_unmarked
  settle-Few w at c h = ground arith

  dispatch_with-Few :
      (w : World) (o : Option ℕ) (c : Command) → Few c → Few (dispatch_with w row o c).0
  dispatch_with-Few w (some at) c h = settle-Few w at c h
  dispatch_with-Few w none c h = dispatch_new-Few w row.issued_at c h
    where
      dispatch_new-Few :
          (w : World) (o : Option ℕ) (c : Command) → Few c → Few (dispatch_new w row o c).0
      dispatch_new-Few w none c h = h
      dispatch_new-Few w (some issued) c h = dispatch_issued-Few row issued w c h

  poll-Few :
      (start : ℕ) (listed : Bool) (w : World) (c : Command)
      → Few c
      → Few (poll start listed w row c)
  unfolding poll dispatch_one prune_state
  poll-Few start true w c h =
      let pruned = prune_state start true c in
      if_rule {A = Command} Few (is_ahead row.issued_at start) (λ e. h)
        (λ e. dispatch_with-Few w pruned.published_unmarked pruned h)
  poll-Few start false w c h = h

  Move-Few : {now later : ℕ} {c c' : Command} → Move row now c later c' → Few c → Few c'
  unfolding sweep
  Move-Few (polled start w before c l k d p b) h =
      poll-Few start true w (became before c) (ground arith)
  Move-Few (passed_over start w c l) h = poll-Few start false w c h
  Move-Few (acknowledged later c l) h = h
  Move-Few (cancelled later c l p) h = h
  Move-Few (swept w c l) h = ground arith

  Life-Few : {now : ℕ} {c : Command} → Life row now c → Few c
  unfolding taken
  Life-Few (inserted now) = omega arith
  Life-Few (next l m) = Move-Few m (Life-Few l)

untaken-none : (ps : List Publication) → All (λ q. q.reported ≡ false) ps → taken ps ≡ 0
unfolding taken
untaken-none [] a = omega arith
untaken-none (p ∷ ps) (e, a) = let ih = untaken-none ps a in ground (arith, e, ih)

taken-le-one : (ps : List Publication) → IsLast ps → taken ps ≤ 1
unfolding taken
taken-le-one [] l = omega arith
taken-le-one (p ∷ ps) l = let rest = untaken-none ps l in ground (arith, rest)

-- Whatever polls, acknowledgements, cancellations and sweeps there are and whichever calls fail: as
-- long as the dispatcher is not restarted, a command with a time to live of five minutes at most
-- leaves at most one further command for the rest of its mist.
pub remainders-le-one :
    (row : Row) (issued now : ℕ) (c : Command)
    → row.issued_at ≡ some issued
    → ttl_of row.ttl_sec ≤ 300
    → Life row now c
    → length c.remainders ≤ 1
remainders-le-one row issued now c i t l =
    let few = Life-Few row l in
    let one = taken-le-one c.published (published-IsLast row issued now c i t l) in omega arith
