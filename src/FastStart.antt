-- ===== src/FastStart.antt =====
-- backend/mp4_faststart.py: moving `moov` in front of `mdat`. A byte is a number below 256, and the
-- four bytes of a box's type are read as one number, as its size is.
pub mod Bytes
mod Pieces
pub mod Boxes
pub mod Patch
pub mod Move
pub mod Tiles
pub mod Verdict
pub mod Agreement
pub mod Length
pub mod Moved
pub mod Entries
pub mod Enough
mod Tests
use terra_server.Common.{ℕ, Bool, ◌||◌, ◌==◌}

abbrev pub moov : ℕ
moov = 1836019574

abbrev pub mdat : ℕ
mdat = 1835295092

abbrev pub stco : ℕ
stco = 1937007471

abbrev pub co64 : ℕ
co64 = 1668232756

abbrev pub cmov : ℕ
cmov = 1668116342

-- moov, trak, mdia, minf, stbl
abbrev pub is_container : ℕ → Bool
is_container kind =
    kind == moov
    || kind == 1953653099
    || kind == 1835297121
    || kind == 1835626086
    || kind == 1937007212

pub record Box : Type 0 where
  pub kind : ℕ
  pub off : ℕ
  pub hdr : ℕ
  pub size : ℕ
