-- ===== src/Mqtt/Dispatch/Life.antt =====
-- The life of one command: polls of the dispatcher, acknowledgements, cancellations and sweeps, in
-- any order, as time goes on. The dispatcher is not restarted.
use terra_server.Common.{ℕ, ◌≤◌, ◌≡◌, ◌≢◌, true, false, Option, some}
use terra_server.Mqtt.Dispatch.{Status, pending, acked, expired, Row, Command, fresh, World}
use terra_server.Mqtt.Dispatch.Handle.{poll, sweep, became}

-- The next thing that happens to the command, at `then`, after `now`. A poll lists the command while
-- it is pending; another process may end it before it is handled, and again while it is handled.
pub data Move (row : Row) (now : ℕ) : Command → ℕ → Command → Type 0 where
  polled :
      (start : ℕ) (w : World) (before : Option Status) (c : Command)
      → now ≤ start
      → start ≤ w.now
      → w.now ≤ w.sent_at
      → c.status ≡ pending
      → before ≢ some pending
      → Move row now c w.sent_at (poll start true w row (became before c))
  passed_over :
      (start : ℕ) (w : World) (c : Command)
      → now ≤ start
      → Move row now c start (poll start false w row c)
  acknowledged :
      (later : ℕ) (c : Command) → now ≤ later → Move row now c later (record c { status = acked })
  cancelled :
      (later : ℕ) (c : Command)
      → now ≤ later
      → c.status ≡ pending
      → Move row now c later (record c { status = expired })
  swept : (w : World) (c : Command) → now ≤ w.now → Move row now c w.now (sweep w row c)

pub data Life (row : Row) : ℕ → Command → Type 0 where
  inserted : (now : ℕ) → Life row now fresh
  next :
      {now later : ℕ} {c c' : Command}
      → Life row now c
      → Move row now c later c'
      → Life row later c'
