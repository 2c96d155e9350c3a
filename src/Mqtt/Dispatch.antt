-- ===== src/Mqtt/Dispatch.antt =====
-- backend/mqtt/dispatcher.py: from a pending command to a message for its device. The model follows
-- one command: its row, what the dispatcher remembers of it, and what was published for it. What
-- the database, the broker and the clocks answer while the command is handled is a `World`; the
-- monotonic clock and the wall clock run at one rate and are read as one instant.
pub mod Message
pub mod Handle
pub mod Life
pub mod Deadline
pub mod Published
pub mod Once
pub mod Protocol
pub mod Bursts
pub mod Split
pub mod Further
mod Tests
use terra_server.Common.{
  ℕ, String, Bool, true, false, Option, none, some, List, [], ltb, or_else, if◌then◌else◌,
}
use terra_server.Common.Clock.{seconds}
use terra_server.Common.Int.{ℤ}
use terra_server.Common.Json.{Object}

abbrev pub no_ack_threshold_sec : ℕ
no_ack_threshold_sec = seconds 30

abbrev pub device_miss_limit : ℕ
device_miss_limit = 3

abbrev pub published_memo_sec : ℕ
published_memo_sec = seconds 300

-- Where a command stands, or how it ended.
pub data Status : Type 0 where
  pending sent acked no_ack expired rejected : Status

abbrev pub is_pending : Status → Bool
is_pending pending = true
is_pending s = false

abbrev pub is_sent : Status → Bool
is_sent sent = true
is_sent s = false

-- The columns of a command's row that do not change; `payload` is none where it is no object, and
-- `issued_at` is none where it cannot be read.
pub record Row : Type 0 where
  pub id : String
  pub device_id : String
  pub action : String
  pub payload : Option Object
  pub issued_at : Option ℕ
  pub ttl_sec : Option ℕ
  pub source : String

-- `row.get("ttl_sec") or DEFAULT_TTL_SEC`, in seconds
abbrev pub ttl_of : Option ℕ → ℕ
ttl_of none = 10
ttl_of (some n) = if ltb 0 n then n else 10

pub data Lookup : Type 0 where
  lookup_error not_found : Lookup
  device_text : String → Lookup

-- A mist that was split leaves its rest to a further command.
pub record Remainder : Type 0 where
  pub remainder_ms : ℕ
  pub due : ℕ

-- A call of `publish_command`: when the time to live was checked, when the call was made, its
-- payload, and its answer. Whatever the answer, the client of the broker may keep the message and send it
-- later: one that has no connection reports an error and keeps a message of quality 1.
pub record Publication : Type 0 where
  pub checked : ℕ
  pub at : ℕ
  pub reported : Bool
  pub message : Object

pub record Command : Type 0 where
  pub status : Status
  pub result : String
  pub lookup_errors : ℕ
  pub lookup_misses : ℕ
  pub published_unmarked : Option ℕ
  pub published : List Publication
  pub remainders : List Remainder
  pub failures : List String

-- A row as it is inserted.
abbrev pub fresh : Command
fresh = record {
  status = pending;
  result = "";
  lookup_errors = 0;
  lookup_misses = 0;
  published_unmarked = none;
  published = [];
  remainders = [];
  failures = [];
}

-- `now` is when the handling begins and `sent_at` when `publish_command` is called, which lookups may
-- delay; `broker` is its answer; `writes` says whether an update succeeds, `meanwhile` what the row's
-- status is made by another process between the publication and the update that follows it.
pub record World : Type 0 where
  pub now : ℕ
  pub sent_at : ℕ
  pub writes : Bool
  pub lookup : Lookup
  pub reread : Option Status
  pub mist_cap : ℕ
  pub base_c : ℤ
  pub broker : Bool
  pub meanwhile : Option Status
  pub inserts : Bool
