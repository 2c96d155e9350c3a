-- ===== src/FastStart/Verdict.antt =====
-- `needs_faststart` against the list of the boxes.
use terra_server.Common.{
  ℕ, zero, suc, ◌+◌, ◌-◌, ◌≤◌, ◌≡◌, refl, ap, subst, ◌∙◌, inl, inr, ◌⊎◌, arith, Bool, true, false,
  ◌||◌, Option, none, some, List, [], ◌∷◌, leb, ltb, ◌==◌, if_rule, if◌then◌else◌, length,
}
use terra_server.FastStart.{Box, moov, mdat}
use terra_server.FastStart.Bytes.{Bytes, Outcome, returns, raises, Holds, Holds-bind, unpack, ◌>>=◌}
use terra_server.FastStart.Boxes.{
  sized, in_range, box_at, next_box, and_then, walk, iter_boxes, next_pos, go_on, look_at, look,
  needs_faststart,
}

-- The first box that is a `moov` or an `mdat` decides.
abbrev pub first_of : List Box → Option Bool
first_of [] = none
first_of (b ∷ bs) =
    let rest = first_of bs in
    if b.kind == moov then some false else if b.kind == mdat then some true else rest

-- At the end of the range there is no box.
walk_end :
    (fuel : ℕ) (bytes : Bytes) (pos end : ℕ)
    → pos ≡ end
    → Holds (λ bs. first_of bs ≡ none) (walk fuel bytes pos end)
unfolding walk next_box
walk_end zero bytes pos end h = refl
walk_end (suc fuel) bytes pos end h =
    if_rule
      (λ m. Holds (λ bs. first_of bs ≡ none) (and_then m (λ b. walk fuel bytes (pos + b.size) end)))
      (leb (pos + 8) end) (λ e. absurd (ground (arith, h, e))) (λ e. refl)

-- Both verdicts agree on the rest of the head.
abbrev Agree : ℕ → Bytes → ℕ → List Box → Type 0
Agree fuel head pos bs = look fuel head pos ≡ returns (first_of bs)

abbrev Turn : ℕ → Bytes → ℕ → Outcome (Option ℕ) → List Box → Type 0
Turn fuel head kind next bs = look_at kind next (look fuel head) ≡ returns (first_of bs)

-- The next position, and that of the box, or the end of the range.
abbrev IsSame : ℕ → ℕ → Outcome (Option ℕ) → ℕ → Type 0
IsSame pos end next size =
    (next ≡ returns (some (pos + size))) ⊎ ((next ≡ returns none) × (pos + size ≡ end))

box-Turn :
    (fuel : ℕ) (head : Bytes) (pos end kind : ℕ) (next : Outcome (Option ℕ)) (b : Box)
    → b.kind ≡ kind
    → ((p : ℕ) → pos + 8 ≤ p → Holds (Agree fuel head p) (walk fuel head p end))
    → pos + 8 ≤ pos + b.size
    → IsSame pos end next b.size
    → Holds
        (Turn fuel head kind next)
        (walk fuel head (pos + b.size) end >>= λ bs. returns (b ∷ bs))
box-Turn fuel head pos end kind next b k ih long (inl e) =
    Holds-bind (Agree fuel head (pos + b.size)) (Turn fuel head kind next)
      (walk fuel head (pos + b.size) end) (λ bs. returns (b ∷ bs)) (ih (pos + b.size) long)
      (λ bs a. let g = ap (λ n. go_on n (look fuel head)) e ∙ a in ground (arith, g, k))
box-Turn fuel head pos end kind next b k ih long (inr (e, z)) =
    Holds-bind (λ bs. first_of bs ≡ none) (Turn fuel head kind next)
      (walk fuel head (pos + b.size) end) (λ bs. returns (b ∷ bs))
      (walk_end fuel head (pos + b.size) end z)
      (λ bs a. let g = ap (λ n. go_on n (look fuel head)) e in ground (arith, g, k, a))

in_range-Turn :
    (fuel : ℕ) (head : Bytes) (pos end kind : ℕ) (next : Outcome (Option ℕ)) (hdr size : ℕ)
    → ((p : ℕ) → pos + 8 ≤ p → Holds (Agree fuel head p) (walk fuel head p end))
    → 8 ≤ hdr
    → (hdr ≤ size → IsSame pos end next size)
    → Holds (Turn fuel head kind next) (
        and_then
          (in_range pos end kind (hdr, size) >>= λ b. returns (some b))
          (λ b. walk fuel head (pos + b.size) end))
in_range-Turn fuel head pos end kind next hdr size ih h same =
    if_rule
      (λ r.
        Holds (Turn fuel head kind next)
          (and_then (r >>= λ b. returns (some b)) (λ b. walk fuel head (pos + b.size) end)))
      (ltb size hdr || ltb end (pos + size)) (λ e. tt)
      (λ e.
        let fits : hdr ≤ size = ground arith in
        box-Turn fuel head pos end kind next
          (record { kind = kind; off = pos; hdr = hdr; size = size }) refl ih (omega arith)
          (same fits))

-- A relation of two conditionals with the same test.
if_both :
    {A B : Type 0} (P : A → B → Type 0) (b : Bool) {x y : A} {u v : B}
    → (b ≡ true → P x u)
    → (b ≡ false → P y v)
    → P (if b then x else y) (if b then u else v)
if_both P true f g = f refl
if_both P false f g = g refl

-- What the size of the box decides for both.
abbrev SizeTurn : ℕ → Bytes → ℕ → ℕ → ℕ → Outcome (ℕ × ℕ) → Outcome (Option ℕ) → Type 0
SizeTurn fuel head pos end kind s next = Holds (Turn fuel head kind next) (
    and_then ((s >>= λ t. in_range pos end kind t) >>= λ b. returns (some b))
      (λ b. walk fuel head (pos + b.size) end))

large-Turn :
    (fuel : ℕ) (head : Bytes) (pos end kind : ℕ) (large : Outcome ℕ)
    → ((p : ℕ) → pos + 8 ≤ p → Holds (Agree fuel head p) (walk fuel head p end))
    → SizeTurn fuel head pos end kind
        (large >>= λ n. returns (16, n))
        (large >>= λ n. returns (if ltb n 8 then none else some (pos + n)))
large-Turn fuel head pos end kind (raises e) ih = tt
large-Turn fuel head pos end kind (returns n) ih =
    in_range-Turn fuel head pos end kind (returns (if ltb n 8 then none else some (pos + n))) 16 n
      ih (omega arith) (λ l. inl (ground arith))

size-Turn :
    (fuel : ℕ) (head : Bytes) (pos kind size : ℕ)
    → ((p : ℕ) → pos + 8 ≤ p → Holds (Agree fuel head p) (walk fuel head p (length head)))
    → pos + 8 ≤ length head
    → SizeTurn fuel head pos
        (length head)
        kind
        (sized head pos (length head) size)
        (next_pos head pos size)
unfolding sized next_pos
size-Turn fuel head pos kind size ih room =
    let turn = SizeTurn fuel head pos (length head) kind in
    if_both turn (size == 1)
      (λ e.
        if_both turn (ltb (length head) (pos + 16)) (λ l. tt)
          (λ l. large-Turn fuel head pos (length head) kind (unpack 8 head (pos + 8)) ih))
      (λ e.
        let next : Outcome (Option ℕ) =
          if size == 0 || ltb size 8 then returns none else returns (some (pos + size)) in
        if_rule (λ s. turn s next) (size == 0)
          (λ z.
            in_range-Turn fuel head pos (length head) kind next 8 (length head - pos) ih
              (omega arith) (λ l. inr (ground (arith, z), omega arith)))
          (λ z.
            in_range-Turn fuel head pos (length head) kind next 8 size ih (omega arith)
              (λ l. inl (ground (arith, z, l)))))

header-Turn :
    (fuel : ℕ) (head : Bytes) (pos : ℕ) (size kind : Outcome ℕ)
    → ((p : ℕ) → pos + 8 ≤ p → Holds (Agree fuel head p) (walk fuel head p (length head)))
    → pos + 8 ≤ length head
    → Holds
        (λ bs.
          (size >>= λ n. kind >>= λ k. look_at k (next_pos head pos n) (look fuel head))
          ≡ returns (first_of bs))
        (and_then
          ((size >>= λ n.
              kind >>= λ k. sized head pos (length head) n >>= λ t. in_range pos (length head) k t)
            >>= λ b. returns (some b))
          (λ b. walk fuel head (pos + b.size) (length head)))
header-Turn fuel head pos (raises e) kind ih room = tt
header-Turn fuel head pos (returns n) (raises e) ih room = tt
header-Turn fuel head pos (returns n) (returns k) ih room = size-Turn fuel head pos k n ih room

look-walk :
    (fuel : ℕ) (head : Bytes) (pos : ℕ)
    → Holds (Agree fuel head pos) (walk fuel head pos (length head))
unfolding look walk next_box box_at
look-walk zero head pos = refl
look-walk (suc fuel) head pos =
    if_both
      (λ m r.
        Holds (λ bs. r ≡ returns (first_of bs))
          (and_then m (λ b. walk fuel head (pos + b.size) (length head))))
      (leb (pos + 8) (length head))
      (λ e.
        header-Turn fuel head pos (unpack 4 head pos) (unpack 4 head (pos + 4))
          (λ p l. look-walk fuel head p) (ground arith))
      (λ e. refl)

-- Where the boxes of a whole file are read without an error, `needs_faststart` on the file gives
-- the verdict of the first `moov` or `mdat` among them: no change if it is a `moov`, a change if
-- it is an `mdat`, unknown if there is neither.
pub needs_faststart_lem :
    (file : Bytes) (boxes : List Box)
    → iter_boxes file 0 (length file) ≡ returns boxes
    → needs_faststart file ≡ returns (first_of boxes)
unfolding needs_faststart iter_boxes
needs_faststart_lem file boxes h =
    let fuel : length file ≡ length file - 0 = omega arith in
    subst (Holds (Agree (length file) file 0)) (ap (λ n. walk n file 0 (length file)) fuel ∙ h)
      (look-walk (length file) file 0)
