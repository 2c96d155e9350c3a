-- ===== src/FastStart/Patch.antt =====
-- `_patch_offsets`: the tables of sample offsets, moved by `delta`.
use terra_server.Common.{
  ℕ, zero, suc, ◌+◌, ◌-◌, ◌*◌, ◌&&◌, ◌||◌, List, [], ◌∷◌, ltb, ◌==◌, if◌then◌else◌,
}
use terra_server.FastStart.{Box, is_container, stco, co64, cmov}
use terra_server.FastStart.Bytes.{Bytes, Outcome, returns, raises, not_mp4, ◌>>=◌, unpack, pack}
use terra_server.FastStart.Boxes.{iter_boxes}

-- One entry at `p`.
unfoldable pub patch_entry : ℕ → ℕ → ℕ → Bytes → Outcome Bytes
unfolding unpack pack
patch_entry width delta p bytes = unpack width bytes p >>= λ old.
    if width == 4 && ltb 4294967295 (old + delta)
    then raises not_mp4
    else pack width bytes p (old + delta)

-- `for _ in range(count)`
unfoldable pub patch_entries : ℕ → ℕ → ℕ → ℕ → Bytes → Outcome Bytes
unfolding patch_entry
patch_entries width delta zero p bytes = returns bytes
patch_entries width delta (suc count) p bytes =
    patch_entry width delta p bytes >>= patch_entries width delta count (p + width)

abbrev pub width_of : ℕ → ℕ
width_of kind = if kind == stco then 4 else 8

abbrev pub Patched : Type 0
Patched = Outcome (Bytes × ℕ)

-- The table of one box, and the number of its entries.
unfoldable pub patch_table : ℕ → Box → Bytes → Patched
unfolding patch_entries
patch_table delta b bytes =
    let body = b.off + b.hdr in
    let width = width_of b.kind in
    unpack 4 bytes (body + 4) >>= λ count.
    if ltb (b.off + b.size) (body + 8 + count * width)
    then raises not_mp4
    else patch_entries width delta count (body + 8) bytes >>= λ after. returns (after, count)

-- One box; `inside` patches the boxes of a range.
unfoldable pub patch_box : (ℕ → ℕ → Bytes → Patched) → ℕ → Box → Bytes → Patched
unfolding patch_table
patch_box inside delta b bytes =
    if is_container b.kind
    then inside (b.off + b.hdr) (b.off + b.size) bytes
    else if b.kind == stco || b.kind == co64
    then patch_table delta b bytes
    else if b.kind == cmov
    then raises not_mp4
    else returns (bytes, 0)

unfoldable pub patch_boxes : (ℕ → ℕ → Bytes → Patched) → ℕ → List Box → Bytes → Patched
unfolding patch_box
patch_boxes inside delta [] bytes = returns (bytes, 0)
patch_boxes inside delta (b ∷ bs) bytes = patch_box inside delta b bytes >>= λ first.
    patch_boxes inside delta bs first.0 >>= λ rest. returns (rest.0, first.1 + rest.1)

-- The boxes of a range, to the depth of the fuel.
unfoldable pub patch_within : ℕ → ℕ → ℕ → ℕ → Bytes → Patched
unfolding iter_boxes patch_boxes
patch_within zero delta start end bytes = returns (bytes, 0)
patch_within (suc fuel) delta start end bytes =
    iter_boxes bytes start end >>= λ bs. patch_boxes (patch_within fuel delta) delta bs bytes

-- A box inside another is shorter than that by its header.
unfoldable pub patch_offsets : Bytes → ℕ → ℕ → ℕ → Patched
unfolding patch_within
patch_offsets moov_bytes start end delta = patch_within (end - start) delta start end moov_bytes
