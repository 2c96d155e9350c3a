-- ===== src/Mqtt/Dispatch/Deadline.antt =====
-- A command is published after a check of its time.
use terra_server.Common.{
  ℕ, ◌+◌, ◌≤◌, ◌≡◌, refl, sym, subst, ◌∙◌, ◌⊎◌, inl, inr, Bool, true, false, ◌&&◌, not, ◌||◌,
  Option, none, some, ◌∷◌, All, ltb, if◌then◌else◌, if_rule, arith,
}
use terra_server.Common.Clock.{seconds}
use terra_server.Common.Int.{ℤ}
use terra_server.Common.Text.{str_eq}
use terra_server.TempOffset.{
  Resolved, untouched, device_value, invalid_payload, offset_out_of_range, resolve_device_offset,
}
use terra_server.Mqtt.Dispatch.{
  Status, Row, ttl_of, Lookup, lookup_error, not_found, device_text, Command, Publication, World,
}
use terra_server.Mqtt.Dispatch.Message.{mist_split, publish_payload}
use terra_server.Mqtt.Dispatch.Handle.{
  Handled, mark_sent, settle_unmarked, became, remember, publish, recheck, is_reread_pending,
  find_device, with_resolved, is_unsupported, dispatch_issued, dispatch_new, dispatch_with,
  dispatch_one, prune_state, is_ahead, poll, sweep,
}
use terra_server.Mqtt.Dispatch.Life.{
  Move, polled, passed_over, acknowledged, cancelled, swept, Life, inserted, next,
}
use terra_server.Mqtt.Dispatch.Published.{enqueue_remainder-Still, marked-Held, became-published}
use terra_server.Mqtt.Dispatch.Protocol.{IsServers, publish_payload-IsServers}

-- A call to publish, after a check in the time of its command, with the server's fields.
abbrev pub IsTimely : Row → Publication → Type 0
IsTimely row p =
    (issued : ℕ) × ((row.issued_at ≡ some issued)
      × (issued ≤ p.checked)
      × (p.checked ≤ issued + seconds (ttl_of row.ttl_sec))
      × (p.checked ≤ p.at)
      × IsServers row issued p.message)

-- What a part of the handling adds to what was published.
abbrev Adds : Row → ℕ → World → Command → Command → Type 0
Adds row issued w c c' =
    (c'.published ≡ c.published)
    ⊎ ((p : Publication) × ((c'.published ≡ p ∷ c.published)
          × (p.checked ≡ w.now)
          × (p.at ≡ w.sent_at)
          × IsServers row issued p.message))

module _ (row : Row) (issued : ℕ) (w : World) where
  publish-Adds :
      (offset : Option ℤ) (c : Command) → Adds row issued w c (publish w row issued offset c).0
  unfolding publish
  publish-Adds offset c =
      let split = mist_split w.mist_cap row in
      let p : Publication = record {
        checked = w.now;
        at = w.sent_at;
        reported = w.broker;
        message = publish_payload row issued split offset;
      } in
      let b = became w.meanwhile (record c { published = p ∷ c.published }) in
      let s = became-published w.meanwhile (record c { published = p ∷ c.published }) in
      let m = marked-Held w b in
      let e = enqueue_remainder-Still w split (remember w (mark_sent w b)) in
      if_rule {A = Handled} (λ x. Adds row issued w c x.0) w.broker
        (λ h.
          inr
            (p, (e.0.0 ∙ m.0 ∙ s.0, refl, refl, publish_payload-IsServers row issued split offset)))
        (λ h. inr (p, (refl, refl, refl, publish_payload-IsServers row issued split offset)))

  recheck-Adds :
      (offset : Option ℤ) (c : Command) → Adds row issued w c (recheck w row issued offset c).0
  unfolding recheck
  recheck-Adds offset c =
      if_rule {A = Handled} (λ x. Adds row issued w c x.0)
        (str_eq row.source "auto" && not (is_reread_pending w.reread)) (λ e. inl refl)
        (λ e. publish-Adds offset c)

  find_device-Adds :
      (offset : Option ℤ) (l : Lookup) (c : Command)
      → Adds row issued w c (find_device w row issued offset l c).0
  find_device-Adds offset lookup_error c = inl refl
  find_device-Adds offset not_found c = ground arith
  find_device-Adds offset (device_text t) c =
      recheck-Adds offset (record c { lookup_errors = 0; lookup_misses = 0 })

  with_resolved-Adds :
      (r : Resolved) (c : Command) → Adds row issued w c (with_resolved w row issued r c).0
  with_resolved-Adds untouched c = find_device-Adds none w.lookup c
  with_resolved-Adds (device_value v) c = find_device-Adds (some v) w.lookup c
  with_resolved-Adds invalid_payload c = ground arith
  with_resolved-Adds offset_out_of_range c = ground arith

  -- A publication comes before the time is over.
  dispatch_issued-Adds :
      (c : Command)
      → ((dispatch_issued w row issued c).0.published ≡ c.published)
        ⊎ ((w.now ≤ issued + seconds (ttl_of row.ttl_sec))
            × Adds row issued w c (dispatch_issued w row issued c).0)
  unfolding dispatch_issued
  dispatch_issued-Adds c =
      let Goal = λ (x : Handled).
        (x.0.published ≡ c.published)
        ⊎ ((w.now ≤ issued + seconds (ttl_of row.ttl_sec)) × Adds row issued w c x.0) in
      if_rule {A = Handled} Goal (ltb (issued + seconds (ttl_of row.ttl_sec)) w.now)
        (λ e. inl (ground arith))
        (λ e.
          if_rule {A = Handled} Goal (is_unsupported row.action) (λ f. inl (ground arith))
            (λ f. inr (
              ground arith,
              with_resolved-Adds
                  (if str_eq row.action "set_temp_offset"
                    then resolve_device_offset w.base_c row.payload
                    else untouched)
                  c,
            )))

abbrev AllTimely : Row → Command → Type 0
AllTimely row c = All (IsTimely row) c.published

Adds-AllTimely :
    (row : Row) (issued : ℕ) (w : World) (c c' : Command)
    → row.issued_at ≡ some issued
    → issued ≤ w.now
    → w.now ≤ issued + seconds (ttl_of row.ttl_sec)
    → w.now ≤ w.sent_at
    → AllTimely row c
    → Adds row issued w c c'
    → AllTimely row c'
Adds-AllTimely row issued w c c' i l h d a (inl e) = subst (All (IsTimely row)) (sym e) a
Adds-AllTimely row issued w c c' i l h d a (inr (p, (e, t, u, s))) =
    subst (All (IsTimely row)) (sym e)
      ((issued, (i, omega (arith, t, l), omega (arith, t, h), omega (arith, t, u, d), s)), a)

settle-published :
    (w : World) (at : ℕ) (c : Command) → (settle_unmarked w at c).published ≡ c.published
unfolding settle_unmarked
settle-published w at c = ground arith

dispatch_new-AllTimely :
    (w : World) (row : Row) (o : Option ℕ) (c : Command) (polled_at : ℕ)
    → row.issued_at ≡ o
    → is_ahead o polled_at ≡ false
    → polled_at ≤ w.now
    → w.now ≤ w.sent_at
    → AllTimely row c
    → AllTimely row (dispatch_new w row o c).0
dispatch_new-AllTimely w row none c start i h l d a = a
dispatch_new-AllTimely w row (some issued) c start i h l k a =
    elim (dispatch_issued-Adds row issued w c) [
      | inl e ↦ subst (All (IsTimely row)) (sym e) a
      | inr (t, d) ↦
          Adds-AllTimely row issued w c (dispatch_issued w row issued c).0 i (ground arith) t k a d
    ]

dispatch_with-AllTimely :
    (w : World) (row : Row) (o : Option ℕ) (c : Command) (start : ℕ)
    → is_ahead row.issued_at start ≡ false
    → start ≤ w.now
    → w.now ≤ w.sent_at
    → AllTimely row c
    → AllTimely row (dispatch_with w row o c).0
dispatch_with-AllTimely w row (some at) c start h l k a =
    subst (All (IsTimely row)) (sym (settle-published w at c)) a
dispatch_with-AllTimely w row none c start h l k a =
    dispatch_new-AllTimely w row row.issued_at c start refl h l k a

prune-published :
    (start : ℕ) (listed : Bool) (before : Option Status) (c : Command)
    → (prune_state start listed (became before c)).published ≡ c.published
unfolding prune_state
prune-published start listed before c = ground arith

poll-AllTimely :
    (start : ℕ) (listed : Bool) (w : World) (before : Option Status) (row : Row) (c : Command)
    → start ≤ w.now
    → w.now ≤ w.sent_at
    → AllTimely row c
    → AllTimely row (poll start listed w row (became before c))
unfolding poll dispatch_one
poll-AllTimely start listed w before row c l k a =
    let c₁ = prune_state start listed (became before c) in
    let a₁ : AllTimely row c₁ =
      subst (All (IsTimely row)) (sym (prune-published start listed before c)) a in
    if_rule {A = Command} (AllTimely row) (not listed || is_ahead row.issued_at start) (λ e. a₁)
      (λ e. dispatch_with-AllTimely w row c₁.published_unmarked c₁ start (ground arith) l k a₁)

sweep-published : (w : World) (row : Row) (c : Command) → (sweep w row c).published ≡ c.published
unfolding sweep
sweep-published w row c = ground arith

passed-published :
    (start : ℕ) (w : World) (row : Row) (c : Command)
    → (poll start false w row c).published ≡ c.published
unfolding poll prune_state
passed-published start w row c = ground arith

Move-AllTimely :
    {row : Row} {now later : ℕ} {c c' : Command}
    → Move row now c later c'
    → AllTimely row c
    → AllTimely row c'
Move-AllTimely {row} (polled start w before c l k d p b) a =
    poll-AllTimely start true w before row c k d a
Move-AllTimely {row} (passed_over start w c l) a =
    subst (All (IsTimely row)) (sym (passed-published start w row c)) a
Move-AllTimely (acknowledged later c l) a = a
Move-AllTimely (cancelled later c l p) a = a
Move-AllTimely {row} (swept w c l) a = subst (All (IsTimely row)) (sym (sweep-published w row c)) a

-- Before every call to publish a command its time to live was checked, at an instant between its time
-- of issue and the end of its time to live (the call itself may come later, after lookups); and its
-- message holds the server's identity, time, time to live and action, and none of the fields that
-- the server keeps to itself, whatever the payload holds.
pub published-IsTimely :
    (row : Row) (now : ℕ) (c : Command) → Life row now c → All (IsTimely row) c.published
published-IsTimely row _ _ (inserted now) = tt
published-IsTimely row _ _ (next l m) = Move-AllTimely m (published-IsTimely row _ _ l)
