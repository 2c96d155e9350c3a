-- ===== src/FastStart/Length.antt =====
-- Patching changes no length.
use terra_server.Common.{
  ℕ, zero, suc, ◌+◌, ◌*◌, ◌≡◌, refl, ◌∙◌, ◌&&◌, ◌||◌, List, [], ◌∷◌, ltb, ◌==◌, if_rule, length,
  if◌then◌else◌, subst, ◌-◌,
}
use terra_server.FastStart.{Box, is_container, stco, co64, cmov}
use terra_server.FastStart.Bytes.{
  Bytes, returns, raises, not_mp4, Holds, Holds-bind, Holds-any, unpack, pack, ◌>>=◌,
}
use terra_server.FastStart.Boxes.{iter_boxes}
use terra_server.FastStart.Patch.{
  patch_entry, patch_entries, patch_table, patch_box, patch_boxes, patch_within, patch_offsets,
  Patched, width_of,
}
use terra_server.FastStart.Pieces.{length-pack}

abbrev IsAsLong : Bytes → Bytes → Type 0
IsAsLong bytes after = length after ≡ length bytes

abbrev pub KeepsLength : Bytes → Bytes × ℕ → Type 0
KeepsLength bytes r = length r.0 ≡ length bytes

entry_length :
    (width delta p : ℕ) (bytes : Bytes) → Holds (IsAsLong bytes) (patch_entry width delta p bytes)
unfolding patch_entry
entry_length width delta p bytes =
    Holds-any (IsAsLong bytes) (unpack width bytes p)
      (λ old.
        if width == 4 && ltb 4294967295 (old + delta)
        then raises not_mp4
        else pack width bytes p (old + delta))
      (λ old.
        if_rule (Holds (IsAsLong bytes)) (width == 4 && ltb 4294967295 (old + delta)) (λ e. tt)
          (λ e. length-pack width bytes p (old + delta)))

entries_length :
    (width delta count p : ℕ) (bytes : Bytes)
    → Holds (IsAsLong bytes) (patch_entries width delta count p bytes)
unfolding patch_entries
entries_length width delta zero p bytes = refl
entries_length width delta (suc count) p bytes =
    Holds-bind (IsAsLong bytes) (IsAsLong bytes) (patch_entry width delta p bytes)
      (patch_entries width delta count (p + width)) (entry_length width delta p bytes)
      (λ next h.
        subst
          (λ n.
            Holds (λ after. length after ≡ n) (patch_entries width delta count (p + width) next))
          h (entries_length width delta count (p + width) next))

table_length :
    (delta : ℕ) (b : Box) (bytes : Bytes) → Holds (KeepsLength bytes) (patch_table delta b bytes)
unfolding patch_table
table_length delta b bytes =
    let body = b.off + b.hdr in
    let width = width_of b.kind in
    Holds-any (KeepsLength bytes) (unpack 4 bytes (body + 4))
      (λ count.
        if ltb (b.off + b.size) (body + 8 + count * width)
        then raises not_mp4
        else patch_entries width delta count (body + 8) bytes >>= λ after. returns (after, count))
      (λ count.
        if_rule (Holds (KeepsLength bytes)) (ltb (b.off + b.size) (body + 8 + count * width))
          (λ e. tt)
          (λ e.
            Holds-bind (IsAsLong bytes) (KeepsLength bytes)
              (patch_entries width delta count (body + 8) bytes) (λ after. returns (after, count))
              (entries_length width delta count (body + 8) bytes) (λ after h. h)))

-- Whatever patches the boxes inside keeps the length.
module _ (inside : ℕ → ℕ → Bytes → Patched)
    (inside_length : (start end : ℕ) (bytes : Bytes)
      → Holds (KeepsLength bytes) (inside start end bytes))
    (delta : ℕ) where
  box_length :
      (b : Box) (bytes : Bytes) → Holds (KeepsLength bytes) (patch_box inside delta b bytes)
  unfolding patch_box
  box_length b bytes =
      if_rule (Holds (KeepsLength bytes)) (is_container b.kind)
        (λ e. inside_length (b.off + b.hdr) (b.off + b.size) bytes)
        (λ e.
          if_rule (Holds (KeepsLength bytes)) (b.kind == stco || b.kind == co64)
            (λ e. table_length delta b bytes)
            (λ e. if_rule (Holds (KeepsLength bytes)) (b.kind == cmov) (λ e. tt) (λ e. refl)))

  boxes_length :
      (bs : List Box) (bytes : Bytes)
      → Holds (KeepsLength bytes) (patch_boxes inside delta bs bytes)
  unfolding patch_boxes
  boxes_length [] bytes = refl
  boxes_length (b ∷ bs) bytes =
      Holds-bind (KeepsLength bytes) (KeepsLength bytes) (patch_box inside delta b bytes)
        (λ first.
          patch_boxes inside delta bs first.0 >>= λ rest. returns (rest.0, first.1 + rest.1))
        (box_length b bytes)
        (λ first h.
          Holds-bind (KeepsLength first.0) (KeepsLength bytes) (patch_boxes inside delta bs first.0)
            (λ rest. returns (rest.0, first.1 + rest.1)) (boxes_length bs first.0)
            (λ rest k. k ∙ h))

within_length :
    (fuel delta start end : ℕ) (bytes : Bytes)
    → Holds (KeepsLength bytes) (patch_within fuel delta start end bytes)
unfolding patch_within
within_length zero delta start end bytes = refl
within_length (suc fuel) delta start end bytes =
    Holds-any (KeepsLength bytes) (iter_boxes bytes start end)
      (λ bs. patch_boxes (patch_within fuel delta) delta bs bytes)
      (λ bs. boxes_length (patch_within fuel delta) (within_length fuel delta) delta bs bytes)

pub patch_offsets_length :
    (bytes : Bytes) (start end delta : ℕ)
    → Holds (KeepsLength bytes) (patch_offsets bytes start end delta)
unfolding patch_offsets
patch_offsets_length bytes start end delta = within_length (end - start) delta start end bytes
