-- ===== src/Common/Clock.antt =====
-- Instants and durations. An instant is a whole number of microseconds after an origin that lies
-- before every instant of a run; a duration is a number of microseconds. The code only compares
-- instants and adds durations to them, so the origin never shows.
use Prim.Native.Nat.{ℕ, ◌+◌, ◌*◌}
use mathlib.Core.Bool.{Bool, false}
use mathlib.Core.Option.{Option, none, some}
use terra_server.Common.Tests.{leb}

abbrev pub seconds : ℕ → ℕ
seconds n = n * 1000000

-- `now - since >= sec`
abbrev pub elapsed : ℕ → ℕ → ℕ → Bool
elapsed since now sec = leb (since + sec) now

-- `since is not None and now - since >= sec`
abbrev pub elapsed_since : Option ℕ → ℕ → ℕ → Bool
elapsed_since none now sec = false
elapsed_since (some since) now sec = elapsed since now sec
