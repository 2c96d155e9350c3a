-- ===== src/Mqtt/Dispatch/Published.antt =====
-- What handling a command makes of the record that it was published.
use terra_server.Common.{
  Bool, true, List, [], ap, ◌∙◌, ℕ, ◌+◌, ◌≤◌, ◌<◌, ◌≡◌, ◌⊎◌, inl, String, false, ◌&&◌, not, Option,
  none, some, ◌∷◌, ltb, if◌then◌else◌, if_rule, arith,
}
use terra_server.Common.Clock.{seconds}
use terra_server.Common.Int.{ℤ}
use terra_server.Common.Text.{str_eq}
use terra_server.TempOffset.{
  Resolved, untouched, device_value, invalid_payload, offset_out_of_range, resolve_device_offset,
}
use terra_server.Mqtt.Dispatch.{
  Status, is_pending, Row, ttl_of, Lookup, lookup_error, not_found, device_text, Command,
  Publication, World,
}
use terra_server.Mqtt.Dispatch.Message.{mist_split, publish_payload}
use terra_server.Mqtt.Dispatch.Handle.{
  Handled, end_with, mark_sent, settle_unmarked, became, remember, enqueue_remainder, publish,
  recheck, is_reread_pending, find_device, with_resolved, is_unsupported, dispatch_issued,
}

-- No call was answered with success.
unfoldable pub untaken : List Publication → Bool
untaken [] = true
untaken (p ∷ ps) = not p.reported && untaken ps

-- The last call alone was answered with success.
unfoldable pub settled : List Publication → Bool
unfolding untaken
settled [] = false
settled (p ∷ ps) = p.reported && untaken ps

-- What keeps a command that was taken from being published again: it is remembered, or its time is over.
abbrev pub Held : Row → ℕ → ℕ → Option ℕ → Type 0
Held row issued now none = issued + seconds (ttl_of row.ttl_sec) < now
Held row issued now (some at) = (issued ≤ at) × (at ≤ now)

abbrev pub Guarded : Row → ℕ → ℕ → Command → Type 0
Guarded row issued now c = (is_pending c.status ≡ false) ⊎ Held row issued now c.published_unmarked

abbrev pub Once : Row → ℕ → ℕ → Command → Type 0
Once row issued now c =
    (untaken c.published ≡ true) ⊎ ((settled c.published ≡ true) × Guarded row issued now c)

-- A part of the handling that publishes nothing and forgets nothing.
abbrev pub Still : Command → Command → Type 0
Still c c' = (c'.published ≡ c.published) × (c'.published_unmarked ≡ c.published_unmarked)

pub enqueue_remainder-Still :
    (w : World) (split : Option (ℕ × ℕ)) (c : Command)
    → Still c (enqueue_remainder w split c) × ((enqueue_remainder w split c).status ≡ c.status)
enqueue_remainder-Still w split c = ground arith

pub end_with-Still :
    (w : World) (s : Status) (result : String) (c : Command) → Still c (end_with w s result c).0
end_with-Still w s result c = ground arith

-- After the update that records the publication.
pub marked-Held :
    (w : World) (c : Command)
    → let c' = remember w (mark_sent w c) in
      (c'.published ≡ c.published)
      × ((is_pending c'.status ≡ false) ⊎ (c'.published_unmarked ≡ some w.sent_at))
marked-Held w c = ground arith

pub became-published : (s : Option Status) (c : Command) → Still c (became s c)
became-published s c = ground arith

module _ (row : Row) (issued : ℕ) where
  pub recorded-Once :
      (w : World) (split : Option (ℕ × ℕ)) (c : Command)
      → issued ≤ w.sent_at
      → settled c.published ≡ true
      → Once row issued w.sent_at (enqueue_remainder w split (remember w (mark_sent w c)))
  recorded-Once w split c i n =
      let m = marked-Held w c in
      let e = enqueue_remainder-Still w split (remember w (mark_sent w c)) in
      let same = ap settled (e.0.0 ∙ m.0) ∙ n in ground (arith, m, e, same)

  -- Handling a command of which no call was answered with success.
  pub publish-Once :
      (w : World) (offset : Option ℤ) (c : Command)
      → issued ≤ w.sent_at
      → untaken c.published ≡ true
      → Once row issued w.sent_at (publish w row issued offset c).0
  unfolding publish untaken settled
  publish-Once w offset c i n =
      let split = mist_split w.mist_cap row in
      let c₁ = record c {
        published =
            record {
              checked = w.now;
              at = w.sent_at;
              reported = w.broker;
              message = publish_payload row issued split offset;
            }
            ∷ c.published;
      } in
      let b = became-published w.meanwhile c₁ in
      if_rule {A = Handled} (λ x. Once row issued w.sent_at x.0) w.broker
        (λ e.
          let taken : settled c₁.published ≡ true = ground (arith, e, n) in
          recorded-Once w split (became w.meanwhile c₁) i (ap settled b.0 ∙ taken))
        (λ e. let none_yet : untaken c₁.published ≡ true = ground (arith, e, n) in inl none_yet)

  pub recheck-Once :
      (w : World) (offset : Option ℤ) (c : Command)
      → issued ≤ w.sent_at
      → untaken c.published ≡ true
      → Once row issued w.sent_at (recheck w row issued offset c).0
  unfolding recheck
  recheck-Once w offset c i n =
      if_rule {A = Handled} (λ x. Once row issued w.sent_at x.0)
        (str_eq row.source "auto" && not (is_reread_pending w.reread)) (λ e. inl n)
        (λ e. publish-Once w offset c i n)

  pub find_device-Once :
      (w : World) (offset : Option ℤ) (l : Lookup) (c : Command)
      → issued ≤ w.sent_at
      → untaken c.published ≡ true
      → Once row issued w.sent_at (find_device w row issued offset l c).0
  find_device-Once w offset lookup_error c i n = inl n
  find_device-Once w offset not_found c i n = ground arith
  find_device-Once w offset (device_text t) c i n =
      recheck-Once w offset (record c { lookup_errors = 0; lookup_misses = 0 }) i n

  pub with_resolved-Once :
      (w : World) (r : Resolved) (c : Command)
      → issued ≤ w.sent_at
      → untaken c.published ≡ true
      → Once row issued w.sent_at (with_resolved w row issued r c).0
  with_resolved-Once w untouched c i n = find_device-Once w none w.lookup c i n
  with_resolved-Once w (device_value v) c i n = find_device-Once w (some v) w.lookup c i n
  with_resolved-Once w invalid_payload c i n = ground arith
  with_resolved-Once w offset_out_of_range c i n = ground arith

  pub dispatch_issued-Once :
      (w : World) (c : Command)
      → issued ≤ w.sent_at
      → untaken c.published ≡ true
      → Once row issued w.sent_at (dispatch_issued w row issued c).0
  unfolding dispatch_issued
  dispatch_issued-Once w c i n =
      if_rule {A = Handled} (λ x. Once row issued w.sent_at x.0)
        (ltb (issued + seconds (ttl_of row.ttl_sec)) w.now) (λ e. ground arith)
        (λ e.
          if_rule {A = Handled} (λ x. Once row issued w.sent_at x.0) (is_unsupported row.action)
            (λ f. ground arith)
            (λ f.
              with_resolved-Once w
                (if str_eq row.action "set_temp_offset"
                  then resolve_device_offset w.base_c row.payload
                  else untouched)
                c i n))

  -- Handling one whose time is over.
  pub dispatch_issued-Still :
      (w : World) (c : Command)
      → issued + seconds (ttl_of row.ttl_sec) < w.now
      → Still c (dispatch_issued w row issued c).0
  unfolding dispatch_issued
  dispatch_issued-Still w c late =
      if_rule {A = Handled} (λ x. Still c x.0) (ltb (issued + seconds (ttl_of row.ttl_sec)) w.now)
        (λ e. ground arith) (λ e. ground arith)

  pub settle-Once :
      (w : World) (at : ℕ) (c : Command)
      → issued ≤ at
      → at ≤ w.now
      → c.published_unmarked ≡ some at
      → settled c.published ≡ true
      → Once row issued w.now (settle_unmarked w at c)
  unfolding settle_unmarked
  settle-Once w at c i l m n = ground arith
