-- ===== src/FastStart/Move.antt =====
-- `faststart`.
use terra_server.Common.{
  ℕ, suc, ◌+◌, ◌-◌, Option, none, some, List, [], ◌∷◌, ◌++◌, ltb, ◌==◌, if◌then◌else◌, length, take,
}
use terra_server.FastStart.{Box, moov, mdat}
use terra_server.FastStart.Bytes.{Bytes, Outcome, returns, raises, not_mp4, ◌>>=◌, slice, drop}
use terra_server.FastStart.Boxes.{iter_boxes}
use terra_server.FastStart.Patch.{patch_offsets}

abbrev pub later : Option (ℕ × Box) → Option (ℕ × Box)
later none = none
later (some (i, b)) = some (suc i, b)

-- `kinds.index(kind)`, with the box.
unfoldable pub index : ℕ → List Box → Option (ℕ × Box)
index kind [] = none
index kind (b ∷ bs) = let rest = index kind bs in if b.kind == kind then some (0, b) else later rest

-- The file with the patched `moov` in front of `mdat`.
unfoldable pub moved : Bytes → Box → Box → Bytes → Bytes
moved file m d patched =
    take d.off file ++ (patched ++ (slice d.off (m.off - d.off) file ++ drop (m.off + m.size) file))

unfoldable pub rewrite : Bytes → Box → Box → Outcome (Option Bytes)
unfolding moved patch_offsets
rewrite file m d = patch_offsets (slice m.off m.size file) m.hdr m.size m.size >>= λ p.
    returns (some (moved file m d p.0))

abbrev pub judge : Bytes → Option (ℕ × Box) → Option (ℕ × Box) → Outcome (Option Bytes)
unfolding rewrite
judge file (some (i, m)) (some (j, d)) = if ltb i j then returns none else rewrite file m d
judge file m d = raises not_mp4

unfoldable pub faststart : Bytes → Outcome (Option Bytes)
unfolding iter_boxes index judge
faststart file =
    iter_boxes file 0 (length file) >>= λ boxes. judge file (index moov boxes) (index mdat boxes)
