-- ===== src/FastStart/Boxes.antt =====
-- `iter_boxes` and `needs_faststart`: the boxes of a range, and the verdict on a file's head.
use terra_server.Common.{
  ℕ, zero, suc, ◌+◌, ◌-◌, Bool, true, false, Option, none, some, List, [], ◌∷◌, leb, ltb, ◌==◌,
  ◌||◌, if◌then◌else◌, length,
}
use terra_server.FastStart.{Box, moov, mdat}
use terra_server.FastStart.Bytes.{Bytes, Outcome, returns, raises, not_mp4, ◌>>=◌, unpack}

-- The header's length and the size, from the 32-bit size.
unfoldable pub sized : Bytes → ℕ → ℕ → ℕ → Outcome (ℕ × ℕ)
sized bytes pos end size =
    if size == 1
    then (if ltb end (pos + 16)
        then raises not_mp4
        else unpack 8 bytes (pos + 8) >>= λ large. returns (16, large))
    else if size == 0
    then returns (8, end - pos)
    else returns (8, size)

abbrev pub in_range : ℕ → ℕ → ℕ → ℕ × ℕ → Outcome Box
in_range pos end kind (hdr, size) =
    if ltb size hdr || ltb end (pos + size)
    then raises not_mp4
    else returns (record { kind = kind; off = pos; hdr = hdr; size = size })

-- The box at `pos`.
unfoldable pub box_at : Bytes → ℕ → ℕ → Outcome Box
unfolding sized
box_at bytes pos end = unpack 4 bytes pos >>= λ size.
    unpack 4 bytes (pos + 4) >>= λ kind. sized bytes pos end size >>= λ s. in_range pos end kind s

-- One turn of the loop: none at the end of the range.
unfoldable pub next_box : Bytes → ℕ → ℕ → Outcome (Option Box)
unfolding box_at
next_box bytes pos end =
    if leb (pos + 8) end then (box_at bytes pos end >>= λ b. returns (some b)) else returns none

abbrev pub and_then : Outcome (Option Box) → (Box → Outcome (List Box)) → Outcome (List Box)
and_then (raises e) rest = raises e
and_then (returns none) rest = returns []
and_then (returns (some b)) rest = rest b >>= λ bs. returns (b ∷ bs)

-- The boxes from `pos` to `end`, at most as many as the fuel.
unfoldable pub walk : ℕ → Bytes → ℕ → ℕ → Outcome (List Box)
unfolding next_box
walk zero bytes pos end = returns []
walk (suc fuel) bytes pos end =
    and_then (next_box bytes pos end) (λ b. walk fuel bytes (pos + b.size) end)

-- `list(iter_boxes(data, start, end))`: a box has a byte at least.
unfoldable pub iter_boxes : Bytes → ℕ → ℕ → Outcome (List Box)
unfolding walk
iter_boxes bytes start end = walk (end - start) bytes start end

-- `needs_faststart` takes a step to the next box, or knows no more.
unfoldable pub next_pos : Bytes → ℕ → ℕ → Outcome (Option ℕ)
next_pos head pos size =
    if size == 1
    then (if ltb (length head) (pos + 16)
        then returns none
        else unpack 8 head (pos + 8) >>= λ large.
            returns (if ltb large 8 then none else some (pos + large)))
    else if size == 0 || ltb size 8
    then returns none
    else returns (some (pos + size))

abbrev pub go_on : Outcome (Option ℕ) → (ℕ → Outcome (Option Bool)) → Outcome (Option Bool)
go_on (raises e) rest = raises e
go_on (returns none) rest = returns none
go_on (returns (some pos)) rest = rest pos

abbrev pub look_at : ℕ → Outcome (Option ℕ) → (ℕ → Outcome (Option Bool)) → Outcome (Option Bool)
look_at kind next rest =
    if kind == moov
    then returns (some false)
    else if kind == mdat
    then returns (some true)
    else go_on next rest

unfoldable pub look : ℕ → Bytes → ℕ → Outcome (Option Bool)
unfolding next_pos
look zero head pos = returns none
look (suc fuel) head pos =
    if leb (pos + 8) (length head)
    then (unpack 4 head pos >>= λ size.
        unpack 4 head (pos + 4) >>= λ kind. look_at kind (next_pos head pos size) (look fuel head))
    else returns none

unfoldable pub needs_faststart : Bytes → Outcome (Option Bool)
unfolding look
needs_faststart head = look (length head) head 0
