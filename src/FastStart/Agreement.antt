-- ===== src/FastStart/Agreement.antt =====
-- `needs_faststart` and `faststart` agree.
use terra_server.Common.{
  ℕ, ◌≡◌, refl, ap, ◌∙◌, arith, true, not, Option, none, some, is_some, List, [], ◌∷◌, ltb, if_rule,
  length,
}
use terra_server.FastStart.{Box, moov, mdat}
use terra_server.FastStart.Bytes.{
  Bytes, returns, Holds, Holds-any, Holds-returns, returns_inv, slice,
}
use terra_server.FastStart.Boxes.{iter_boxes, needs_faststart}
use terra_server.FastStart.Patch.{patch_offsets}
use terra_server.FastStart.Move.{index, moved, rewrite, judge, faststart}
use terra_server.FastStart.Verdict.{first_of, needs_faststart_lem}

abbrev place : Option (ℕ × Box) → ℕ
place none = 0
place (some (i, b)) = i

index-first_of :
    (bs : List Box)
    → is_some (index moov bs) ≡ true
    → is_some (index mdat bs) ≡ true
    → first_of bs ≡ some (not (ltb (place (index moov bs)) (place (index mdat bs))))
unfolding index
index-first_of [] h k = ground arith
index-first_of (b ∷ bs) h k = let ih = index-first_of bs in ground arith

-- What both indices of a result say of it.
judge-Verdict :
    (file : Bytes) (i j : Option (ℕ × Box))
    → Holds
        (λ r. (is_some i ≡ true) × (is_some j ≡ true) × (not (ltb (place i) (place j)) ≡ is_some r))
        (judge file i j)
unfolding rewrite
judge-Verdict file none j = tt
judge-Verdict file (some (i, m)) none = tt
judge-Verdict file (some (i, m)) (some (j, d)) =
    let Q : Option Bytes → Type 0 =
      λ r. (true ≡ true) × (true ≡ true) × (not (ltb i j) ≡ is_some r) in
    if_rule (Holds Q) (ltb i j) (λ e. (refl, refl, ap not e))
      (λ e.
        Holds-any Q (patch_offsets (slice m.off m.size file) m.hdr m.size m.size)
          (λ p. returns (some (moved file m d p.0))) (λ p. (refl, refl, ap not e)))

-- Where `faststart` ends without an error, `needs_faststart` on the whole file tells whether it
-- has changed the file: the quick verdict agrees with the full one.
pub faststart-needs_faststart :
    (file : Bytes) (r : Option Bytes)
    → faststart file ≡ returns r
    → needs_faststart file ≡ returns (some (is_some r))
unfolding faststart
faststart-needs_faststart file r h =
    let (boxes, hb, hj) =
      returns_inv (iter_boxes file 0 (length file))
        (λ boxes. judge file (index moov boxes) (index mdat boxes)) h in
    let v = Holds-returns _ _ hj (judge-Verdict file (index moov boxes) (index mdat boxes)) in
    needs_faststart_lem file boxes hb ∙ ap returns (index-first_of boxes v.0 v.1 ∙ ap some v.2)
