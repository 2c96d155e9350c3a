-- ===== src/Mqtt/Dispatch/Bursts.antt =====
-- `publish` and `_enqueue_mist_remainder` on the commands that a long mist is split into: what one of
-- them publishes, and what it leaves to the next.
use terra_server.Common.{
  ℕ, zero, suc, ◌+◌, ◌-◌, ◌*◌, ◌<◌, ◌≡◌, String, true, Option, none, some, List, [], ◌∷◌, ◌++◌, ltb,
  if◌then◌else◌, refl, if_rule, ap, ◌∙◌, arith,
}
use terra_server.Common.Int.{ℤ, pos}
use terra_server.Common.Json.{Value, number, get, put, update, without, contains_key}
use terra_server.CommandService.{mist_action, truncate}
use terra_server.Mqtt.Dispatch.{Row, Remainder, Publication, Command, World, fresh}
use terra_server.Mqtt.Dispatch.Message.{mist_split, publish_payload}
use terra_server.Mqtt.Dispatch.Handle.{
  publish, enqueue_remainder, became, mark_sent, remember, Handled,
}

-- The row that `_enqueue_mist_remainder` inserts, with the id that the database gives it.
abbrev pub remainder_row : String → Row → Remainder → Row
remainder_row id row r = record row {
  id = id;
  action = mist_action;
  payload = some (("duration_ms", number (pos (r.remainder_ms * 10000))) ∷ []);
  issued_at = some r.due;
  ttl_sec = some 10;
  source = "timer";
}

-- The duration of a message; none is 0.
abbrev pub duration_ms : Option Value → ℕ
duration_ms (some (number (pos n))) = truncate n
duration_ms _ = 0

abbrev pub durations : List Publication → List ℕ
durations [] = []
durations (p ∷ ps) = duration_ms (get "duration_ms" p.message) ∷ durations ps

-- The first publication of the command that is inserted for a rest.
abbrev pub pour : World → String → Row → Remainder → Command
pour w id row r = (publish w (remainder_row id row r) r.due none fresh).0

-- The durations that are published for a rest and, in turn, for what each command leaves; the
-- first argument bounds the number of commands, of which the number `n` meets the world `ws n` and
-- has the id `ids n`.
unfoldable pub bursts : ℕ → (ℕ → World) → (ℕ → String) → Row → Remainder → List ℕ
bursts zero ws ids row r = []
bursts (suc n) ws ids row r =
    let c = pour (ws n) (ids n) row r in
    elim c.remainders [
      | [] ↦ durations c.published
      | rest ∷ others ↦ durations c.published ++ bursts n ws ids row rest
    ]

unfoldable pub sum : List ℕ → ℕ
sum [] = 0
sum (x ∷ xs) = x + sum xs

pub split_rest :
    (limit : ℕ) (id : String) (row : Row) (r : Remainder)
    → mist_split limit (remainder_row id row r)
      ≡ (if ltb limit r.remainder_ms then some (limit, r.remainder_ms - limit) else none)
unfolding mist_split get
split_rest limit id row r = ground arith

abbrev pub burst_of : Option (ℕ × ℕ) → ℕ → ℕ
burst_of none ms = ms
burst_of (some (burst, rest)) ms = burst

-- The duration in a message for a rest.
message_ms :
    (id : String) (row : Row) (r : Remainder) (split : Option (ℕ × ℕ))
    → duration_ms (get "duration_ms" (publish_payload (remainder_row id row r) r.due split none))
      ≡ burst_of split r.remainder_ms
unfolding publish_payload get put update without contains_key
message_ms id row r none = omega arith
message_ms id row r (some (burst, rest)) = omega arith

marked : World → Command → Command
marked w c = remember w (mark_sent w (became w.meanwhile c))

marked-published : (w : World) (c : Command) → (marked w c).published ≡ c.published
unfolding marked
marked-published w c = ground arith

marked-remainders : (w : World) (c : Command) → (marked w c).remainders ≡ c.remainders
unfolding marked
marked-remainders w c = ground arith

enqueue-published :
    (w : World) (split : Option (ℕ × ℕ)) (c : Command)
    → (enqueue_remainder w split c).published ≡ c.published
enqueue-published w none c = refl
enqueue-published w (some (burst, rest)) c = ground arith

abbrev called : World → Row → ℕ → Option ℤ → Command → Command
called w row issued offset c = record c {
  published =
      record {
        checked = w.now;
        at = w.sent_at;
        reported = w.broker;
        message = publish_payload row issued (mist_split w.mist_cap row) offset;
      }
      ∷ c.published;
}

publish-taken :
    (w : World) (row : Row) (issued : ℕ) (offset : Option ℤ) (c : Command)
    → w.broker ≡ true
    → (publish w row issued offset c).0
      ≡ enqueue_remainder w (mist_split w.mist_cap row) (marked w (called w row issued offset c))
unfolding publish marked
publish-taken w row issued offset c b =
    if_rule {A = Handled}
      (λ (x : Handled).
        x.0
        ≡ enqueue_remainder w (mist_split w.mist_cap row) (marked w (called w row issued offset c)))
      w.broker (λ e. refl) (λ e. absurd (ground arith))

-- What a command for a rest publishes.
pub durations-pour :
    (w : World) (id : String) (row : Row) (r : Remainder)
    → w.broker ≡ true
    → durations (pour w id row r).published
      ≡ burst_of (mist_split w.mist_cap (remainder_row id row r)) r.remainder_ms ∷ []
durations-pour w id row r b =
    let own = remainder_row id row r in
    let split = mist_split w.mist_cap own in
    let before = called w own r.due none fresh in
    ap (λ c. durations c.published) (publish-taken w own r.due none fresh b)
    ∙ ap durations (enqueue-published w split (marked w before) ∙ marked-published w before)
    ∙ ap (λ d. d ∷ []) (message_ms id row r split)

remainders-enqueue :
    (w : World) (burst rest : ℕ) (c : Command)
    → w.inserts ≡ true
    → 0 < rest
    → c.remainders ≡ []
    → (d : ℕ) × ((enqueue_remainder w (some (burst, rest)) c).remainders
        ≡ record { remainder_ms = rest; due = d } ∷ [])
remainders-enqueue w burst rest c i p e = (w.sent_at + burst * 1000 + 1500000, ground arith)

-- A rest within the limit leaves nothing, and one over it what is over.
pub remainders-within :
    (w : World) (id : String) (row : Row) (r : Remainder)
    → w.broker ≡ true
    → mist_split w.mist_cap (remainder_row id row r) ≡ none
    → (pour w id row r).remainders ≡ []
remainders-within w id row r b s =
    let own = remainder_row id row r in
    let before = called w own r.due none fresh in
    ap (λ c. c.remainders) (publish-taken w own r.due none fresh b)
    ∙ ap (λ x. (enqueue_remainder w x (marked w before)).remainders) s
    ∙ marked-remainders w before

pub remainders-over :
    (w : World) (id : String) (row : Row) (r : Remainder) (burst rest : ℕ)
    → w.broker ≡ true
    → w.inserts ≡ true
    → 0 < rest
    → mist_split w.mist_cap (remainder_row id row r) ≡ some (burst, rest)
    → (d : ℕ) × ((pour w id row r).remainders ≡ record { remainder_ms = rest; due = d } ∷ [])
remainders-over w id row r burst rest b i p s =
    let own = remainder_row id row r in
    let before = called w own r.due none fresh in
    let left = remainders-enqueue w burst rest (marked w before) i p (marked-remainders w before) in
    (
      left.0,
      ap (λ c. c.remainders) (publish-taken w own r.due none fresh b)
          ∙ ap (λ x. (enqueue_remainder w x (marked w before)).remainders) s
          ∙ left.1,
    )
