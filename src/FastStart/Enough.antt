-- ===== src/FastStart/Enough.antt =====
-- Proofs about the counters of `iter_boxes` and `_patch_offsets`.
use terra_server.Common.{
  ℕ, zero, suc, ◌+◌, ◌-◌, ◌≤◌, ◌≡◌, refl, sym, ap, ◌∙◌, arith, ◌||◌, Option, none, some, List, [],
  ◌∷◌, ◌==◌, if◌then◌else◌,
}
use terra_server.FastStart.{Box, is_container, stco, co64, cmov}
use terra_server.FastStart.Bytes.{Bytes, Outcome, returns, raises, not_mp4, ◌>>=◌, Holds}
use terra_server.FastStart.Boxes.{next_box, and_then, walk, iter_boxes}
use terra_server.FastStart.Patch.{Patched, patch_table, patch_box, patch_boxes, patch_within}
use terra_server.FastStart.Tiles.{IsFitting, IsNext, next_box-Next, Tiles, iter_boxes-Tiles}

-- Two continuations that agree.
bind-same {ℓ κ} :
    {A : Type ℓ} {B : Type κ} (P : A → Type 0) (m : Outcome A) (f g : A → Outcome B)
    → Holds P m
    → ((v : A) → P v → f v ≡ g v)
    → (m >>= f) ≡ (m >>= g)
bind-same P (returns v) f g h e = e v h
bind-same P (raises x) f g h e = refl

any-same {ℓ κ} :
    {A : Type ℓ} {B : Type κ} (m : Outcome A) (f g : A → Outcome B)
    → ((v : A) → f v ≡ g v)
    → (m >>= f) ≡ (m >>= g)
any-same (returns v) f g e = e v
any-same (raises x) f g e = refl

-- Two ways to patch a range inside, which agree on ranges that both counters cover.
module _ (one other : ℕ → ℕ → Bytes → Patched) (n m : ℕ)
    (agree : (start end : ℕ) (bytes : Bytes)
      → end ≤ start + n
      → end ≤ start + m
      → one start end bytes ≡ other start end bytes)
    (delta : ℕ) where
  box-same :
      (b : Box) (bytes : Bytes)
      → 8 ≤ b.hdr
      → b.size ≤ suc n
      → b.size ≤ suc m
      → patch_box one delta b bytes ≡ patch_box other delta b bytes
  unfolding patch_box
  box-same b bytes h l k =
      ap
        (λ r.
          if is_container b.kind
          then r
          else if b.kind == stco || b.kind == co64
          then patch_table delta b bytes
          else if b.kind == cmov
          then raises not_mp4
          else returns (bytes, 0))
        (agree (b.off + b.hdr) (b.off + b.size) bytes (omega arith) (omega arith))

  boxes-same :
      (pos end : ℕ) (bs : List Box) (bytes : Bytes)
      → Tiles pos end bs
      → end ≤ pos + suc n
      → end ≤ pos + suc m
      → patch_boxes one delta bs bytes ≡ patch_boxes other delta bs bytes
  unfolding patch_boxes
  boxes-same pos end [] bytes t l k = refl
  boxes-same pos end (b ∷ bs) bytes (f, t) l k =
      let off = f.0 in
      let fits = f.3 in
      let same = box-same b bytes f.1 (omega arith) (omega arith) in
      let rest : (Bytes × ℕ → Outcome (Bytes × ℕ)) =
        λ first. patch_boxes one delta bs first.0 >>= λ r. returns (r.0, first.1 + r.1) in
      ap (λ r. r >>= rest) same
      ∙ any-same (patch_box other delta b bytes) rest
          (λ first. patch_boxes other delta bs first.0 >>= λ r. returns (r.0, first.1 + r.1))
          (λ first.
            ap (λ r. r >>= λ q. returns (q.0, first.1 + q.1))
              (boxes-same (pos + b.size) end bs first.0 t (omega arith) (omega arith)))

-- In an empty range there are no boxes.
iter_boxes-empty :
    (bytes : Bytes) (start end : ℕ) → end ≤ start → iter_boxes bytes start end ≡ returns []
unfolding iter_boxes walk
iter_boxes-empty bytes start end h =
    let none_left : end - start ≡ 0 = omega arith in ap (λ n. walk n bytes start end) none_left

-- A counter for the depth that is as long as the range is enough: a longer one changes nothing, be
-- it a result or an error.
patch_within_enough :
    (n m delta start end : ℕ) (bytes : Bytes)
    → end ≤ start + n
    → end ≤ start + m
    → patch_within n delta start end bytes ≡ patch_within m delta start end bytes
unfolding patch_within patch_boxes
patch_within_enough zero zero delta start end bytes h k = refl
patch_within_enough zero (suc m) delta start end bytes h k =
    ap (λ r. r >>= λ bs. patch_boxes (patch_within m delta) delta bs bytes)
      (sym (iter_boxes-empty bytes start end (omega arith)))
patch_within_enough (suc n) zero delta start end bytes h k =
    ap (λ r. r >>= λ bs. patch_boxes (patch_within n delta) delta bs bytes)
      (iter_boxes-empty bytes start end (omega arith))
patch_within_enough (suc n) (suc m) delta start end bytes h k =
    bind-same (Tiles start end) (iter_boxes bytes start end)
      (λ bs. patch_boxes (patch_within n delta) delta bs bytes)
      (λ bs. patch_boxes (patch_within m delta) delta bs bytes) (iter_boxes-Tiles bytes start end)
      (λ bs t.
        boxes-same (patch_within n delta) (patch_within m delta) n m
          (λ s e b l r. patch_within_enough n m delta s e b l r) delta start end bs bytes t h k)

next_box-none : (bytes : Bytes) (pos end : ℕ) → end ≤ pos → next_box bytes pos end ≡ returns none
unfolding next_box
next_box-none bytes pos end h = ground arith

and_then-none :
    {m : Outcome (Option Box)} (rest : Box → Outcome (List Box))
    → m ≡ returns none
    → and_then m rest ≡ returns []
and_then-none rest e = ap (λ o. and_then o rest) e

and_then-same :
    (pos end : ℕ) (m : Outcome (Option Box)) (f g : Box → Outcome (List Box))
    → Holds (IsNext pos end) m
    → ((b : Box) → IsFitting pos end b → f b ≡ g b)
    → and_then m f ≡ and_then m g
and_then-same pos end (raises e) f g h k = refl
and_then-same pos end (returns none) f g h k = refl
and_then-same pos end (returns (some b)) f g h k = ap (λ r. r >>= λ bs. returns (b ∷ bs)) (k b h)

-- A counter that is as long as the range is enough for the boxes of the range.
walk-same :
    (n m : ℕ) (bytes : Bytes) (pos end : ℕ)
    → end ≤ pos + n
    → end ≤ pos + m
    → walk n bytes pos end ≡ walk m bytes pos end
unfolding walk
walk-same zero zero bytes pos end h k = refl
walk-same zero (suc m) bytes pos end h k = sym (
    and_then-none (λ b. walk m bytes (pos + b.size) end)
      (next_box-none bytes pos end (omega arith)))
walk-same (suc n) zero bytes pos end h k =
    and_then-none (λ b. walk n bytes (pos + b.size) end) (next_box-none bytes pos end (omega arith))
walk-same (suc n) (suc m) bytes pos end h k =
    and_then-same pos end (next_box bytes pos end) (λ b. walk n bytes (pos + b.size) end)
      (λ b. walk m bytes (pos + b.size) end) (next_box-Next bytes pos end)
      (λ b f.
        let long : 8 ≤ b.size = omega (arith, f.1, f.2) in
        walk-same n m bytes (pos + b.size) end (omega arith) (omega arith))

-- The loop over the boxes of a range ends: whatever number of turns is allowed, from the length of
-- the range on, it gives the same boxes or the same error; and boxes that it gives lie one after
-- another from the start of the range on, each with a header of at least eight bytes within its
-- size and the range, and leave less than eight bytes of the range.
pub iter_boxes_ends :
    (turns : ℕ) (bytes : Bytes) (start end : ℕ)
    → end ≤ start + turns
    → (walk turns bytes start end ≡ iter_boxes bytes start end)
      × Holds (Tiles start end) (iter_boxes bytes start end)
unfolding iter_boxes
iter_boxes_ends turns bytes start end h = (
  walk-same turns (end - start) bytes start end h (omega arith),
  iter_boxes-Tiles bytes start end,
)
