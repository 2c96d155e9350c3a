-- ===== src/FastStart/Tiles.antt =====
-- The boxes that `iter_boxes` gives lie one after another and leave no room for a header.
use terra_server.Common.{
  ℕ, zero, suc, ◌+◌, ◌-◌, ◌≤◌, ◌<◌, ◌≡◌, refl, arith, ◌||◌, Option, none, some, List, [], ◌∷◌, leb,
  ltb, ◌==◌, if_rule,
}
use terra_server.FastStart.{Box}
use terra_server.FastStart.Bytes.{
  Bytes, Outcome, returns, raises, Holds, Holds-bind, Holds-any, ◌>>=◌, unpack,
}
use terra_server.FastStart.Boxes.{sized, in_range, box_at, next_box, and_then, walk, iter_boxes}

abbrev pub IsFitting : ℕ → ℕ → Box → Type 0
IsFitting pos end b = (b.off ≡ pos) × (8 ≤ b.hdr) × (b.hdr ≤ b.size) × (b.off + b.size ≤ end)

-- The boxes fill the range from `pos` on, up to less than a header.
abbrev pub Tiles : ℕ → ℕ → List Box → Type 0
Tiles pos end [] = end < pos + 8
Tiles pos end (b ∷ bs) = IsFitting pos end b × Tiles (pos + b.size) end bs

abbrev HasHeader : ℕ × ℕ → Type 0
HasHeader s = 8 ≤ s.0

sized-Header : (bytes : Bytes) (pos end size : ℕ) → Holds HasHeader (sized bytes pos end size)
unfolding sized
sized-Header bytes pos end size =
    if_rule (Holds HasHeader) (size == 1)
      (λ e.
        if_rule (Holds HasHeader) (ltb end (pos + 16)) (λ l. tt)
          (λ l.
            Holds-any HasHeader (unpack 8 bytes (pos + 8)) (λ n. returns (16, n))
              (λ n. omega arith)))
      (λ e. if_rule (Holds HasHeader) (size == 0) (λ z. omega arith) (λ z. omega arith))

in_range-Fitting :
    (pos end kind : ℕ) (s : ℕ × ℕ)
    → HasHeader s
    → Holds (IsFitting pos end) (in_range pos end kind s)
in_range-Fitting pos end kind (hdr, size) h =
    if_rule (Holds (IsFitting pos end)) (ltb size hdr || ltb end (pos + size)) (λ e. tt)
      (λ e. (refl, h, ground arith, ground arith))

box_at-Fitting : (bytes : Bytes) (pos end : ℕ) → Holds (IsFitting pos end) (box_at bytes pos end)
unfolding box_at
box_at-Fitting bytes pos end =
    Holds-any (IsFitting pos end) (unpack 4 bytes pos)
      (λ size. unpack 4 bytes (pos + 4) >>= λ kind.
        sized bytes pos end size >>= λ s. in_range pos end kind s)
      (λ size.
        Holds-any (IsFitting pos end) (unpack 4 bytes (pos + 4))
          (λ kind. sized bytes pos end size >>= λ s. in_range pos end kind s)
          (λ kind.
            Holds-bind HasHeader (IsFitting pos end) (sized bytes pos end size)
              (λ s. in_range pos end kind s) (sized-Header bytes pos end size)
              (λ s h. in_range-Fitting pos end kind s h)))

-- What one turn of the loop gives.
abbrev pub IsNext : ℕ → ℕ → Option Box → Type 0
IsNext pos end none = end < pos + 8
IsNext pos end (some b) = IsFitting pos end b

pub next_box-Next : (bytes : Bytes) (pos end : ℕ) → Holds (IsNext pos end) (next_box bytes pos end)
unfolding next_box
next_box-Next bytes pos end =
    if_rule (Holds (IsNext pos end)) (leb (pos + 8) end)
      (λ e.
        Holds-bind (IsFitting pos end) (IsNext pos end) (box_at bytes pos end)
          (λ b. returns (some b)) (box_at-Fitting bytes pos end) (λ b h. h))
      (λ e. ground arith)

and_then-Tiles :
    (pos end : ℕ) (m : Outcome (Option Box)) (rest : Box → Outcome (List Box))
    → Holds (IsNext pos end) m
    → ((b : Box) → IsFitting pos end b → Holds (Tiles (pos + b.size) end) (rest b))
    → Holds (Tiles pos end) (and_then m rest)
and_then-Tiles pos end (raises e) rest h g = tt
and_then-Tiles pos end (returns none) rest h g = h
and_then-Tiles pos end (returns (some b)) rest h g =
    Holds-bind (Tiles (pos + b.size) end) (Tiles pos end) (rest b) (λ bs. returns (b ∷ bs)) (g b h)
      (λ bs t. (h, t))

walk-Tiles :
    (fuel : ℕ) (bytes : Bytes) (pos end : ℕ)
    → end ≤ pos + fuel
    → Holds (Tiles pos end) (walk fuel bytes pos end)
unfolding walk
walk-Tiles zero bytes pos end h = omega arith
walk-Tiles (suc fuel) bytes pos end h =
    and_then-Tiles pos end (next_box bytes pos end) (λ b. walk fuel bytes (pos + b.size) end)
      (next_box-Next bytes pos end)
      (λ b f.
        let long : 8 ≤ b.size = omega (arith, f.1, f.2) in
        walk-Tiles fuel bytes (pos + b.size) end (omega arith))

-- Where the boxes of a range are read at all, they lie one after another from its start on, each
-- with a header of at least eight bytes within its size and the range, and leave less than eight
-- bytes of the range: the loop ends, and it ends nowhere earlier.
pub iter_boxes-Tiles :
    (bytes : Bytes) (start end : ℕ) → Holds (Tiles start end) (iter_boxes bytes start end)
unfolding iter_boxes
iter_boxes-Tiles bytes start end = walk-Tiles (end - start) bytes start end (omega arith)
