-- ===== src/FastStart/Tests.antt =====
-- backend/mp4_faststart.py: a small file, and the theorems at concrete inputs.
use terra_server.Common.{length, arith, ◌≡◌, ℕ, refl, none, some, true, [], ◌∷◌, ◌++◌}
use terra_server.FastStart.Bytes.{Bytes, Holds, returns, raises, not_mp4}
use terra_server.FastStart.Boxes.{iter_boxes, walk, needs_faststart}
use terra_server.FastStart.Patch.{patch_entries}
use terra_server.FastStart.Enough.{iter_boxes_ends}
use terra_server.FastStart.Tiles.{Tiles}
use terra_server.FastStart.Move.{faststart}
use terra_server.FastStart.Agreement.{faststart-needs_faststart}
use terra_server.FastStart.Moved.{Rearranged, faststart-Rearranged}
use terra_server.FastStart.Entries.{Shifted, patch_entries-Shifted}

abbrev ftyp_box : Bytes
ftyp_box = 0 ∷ 0 ∷ 0 ∷ 8 ∷ 102 ∷ 116 ∷ 121 ∷ 112 ∷ []

abbrev mdat_box : Bytes
mdat_box = 0 ∷ 0 ∷ 0 ∷ 12 ∷ 109 ∷ 100 ∷ 97 ∷ 116 ∷ 1 ∷ 2 ∷ 3 ∷ 4 ∷ []

-- A `moov` that holds an `stco` with one offset.
abbrev moov_box : ℕ → Bytes
moov_box offset =
    0 ∷ 0 ∷ 0 ∷ 28 ∷ 109 ∷ 111 ∷ 111 ∷ 118 ∷ 0 ∷ 0 ∷ 0 ∷ 20 ∷ 115 ∷ 116 ∷ 99 ∷ 111 ∷ 0 ∷ 0 ∷ 0 ∷ 0
    ∷ 0 ∷ 0 ∷ 0 ∷ 1 ∷ 0 ∷ 0 ∷ 0 ∷ offset ∷ []

abbrev legacy : Bytes
legacy = ftyp_box ++ (mdat_box ++ moov_box 16)

abbrev fast : Bytes
fast = ftyp_box ++ (moov_box 44 ++ mdat_box)

changes : faststart legacy ≡ returns (some fast)
unfolding faststart
changes = refl

leaves : faststart fast ≡ returns none
unfolding faststart
leaves = refl

refuses : faststart (ftyp_box ++ mdat_box) ≡ raises not_mp4
unfolding faststart
refuses = refl

faststart-Rearranged_example : Rearranged legacy fast
faststart-Rearranged_example = faststart-Rearranged legacy fast changes

faststart-needs_faststart_example : needs_faststart legacy ≡ returns (some true)
faststart-needs_faststart_example = faststart-needs_faststart legacy (some fast) changes

shifts : patch_entries 4 28 1 24 (moov_box 16) ≡ returns (moov_box 44)
unfolding patch_entries
shifts = refl

patch_entries-Shifted_example : Shifted 4 28 1 24 (moov_box 16) (moov_box 44)
patch_entries-Shifted_example = patch_entries-Shifted 4 28 1 24 (moov_box 16) (moov_box 44) shifts

iter_boxes_ends_example :
    (walk 100 legacy 0 (length legacy) ≡ iter_boxes legacy 0 (length legacy))
    × Holds (Tiles 0 (length legacy)) (iter_boxes legacy 0 (length legacy))
iter_boxes_ends_example = iter_boxes_ends 100 legacy 0 (length legacy) (omega arith)
