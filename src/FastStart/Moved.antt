-- ===== src/FastStart/Moved.antt =====
-- What `faststart` writes, against the file it read.
use terra_server.Common.{
  ℕ, ◌+◌, ◌-◌, ◌≤◌, ◌≡◌, refl, sym, ap, ◌∙◌, arith, false, Option, none, some, List, [], ◌∷◌, ◌++◌,
  ltb, ◌==◌, if_rule, if◌then◌else◌, length, take,
}
use terra_server.FastStart.{Box, moov, mdat}
use terra_server.FastStart.Bytes.{
  Bytes, returns, Holds, Holds-each, Holds-returns, returns_inv, slice, drop,
}
use terra_server.FastStart.Boxes.{iter_boxes}
use terra_server.FastStart.Patch.{patch_offsets}
use terra_server.FastStart.Move.{index, later, moved, rewrite, judge, faststart}
use terra_server.FastStart.Tiles.{Tiles, iter_boxes-Tiles}
use terra_server.FastStart.Length.{patch_offsets_length}
use terra_server.FastStart.Pieces.{take-drop, length-take, length-drop, drop-drop}

-- A box that was found lies in the range.
abbrev IsWithin : ℕ → ℕ → Option (ℕ × Box) → Type 0
IsWithin pos end none = Unit
IsWithin pos end (some (i, b)) = (pos ≤ b.off) × (b.off + b.size ≤ end)

later-Within :
    (pos size end : ℕ) (o : Option (ℕ × Box))
    → IsWithin (pos + size) end o
    → IsWithin pos end (later o)
later-Within pos size end none h = tt
later-Within pos size end (some (i, b)) h = let l = h.0 in (omega arith, h.1)

index-Within :
    (kind pos end : ℕ) (bs : List Box) → Tiles pos end bs → IsWithin pos end (index kind bs)
unfolding index
index-Within kind pos end [] t = tt
index-Within kind pos end (b ∷ bs) (f, t) =
    if_rule (IsWithin pos end) (b.kind == kind) (λ e. let off = f.0 in (omega arith, f.3))
      (λ e. later-Within pos b.size end (index kind bs) (index-Within kind (pos + b.size) end bs t))

-- Two boxes that were found, the second one not after the first one, do not overlap.
abbrev AreApart : Option (ℕ × Box) → Option (ℕ × Box) → Type 0
AreApart none o = Unit
AreApart (some (i, m)) none = Unit
AreApart (some (i, m)) (some (j, d)) = ltb i j ≡ false → d.off + d.size ≤ m.off

later-Apart : (o p : Option (ℕ × Box)) → AreApart o p → AreApart (later o) (later p)
later-Apart none p a = tt
later-Apart (some (i, m)) none a = tt
later-Apart (some (i, m)) (some (j, d)) a = λ e. a (ground (arith, e))

first-Apart :
    (pos end : ℕ) (b : Box) (o : Option (ℕ × Box))
    → b.off ≡ pos
    → IsWithin (pos + b.size) end o
    → AreApart (later o) (some (0, b))
first-Apart pos end b none h w = tt
first-Apart pos end b (some (i, m)) h w = let l = w.0 in λ e. omega arith

front-Apart : (b : Box) (o : Option (ℕ × Box)) → AreApart (some (0, b)) (later o)
front-Apart b none = tt
front-Apart b (some (j, d)) = λ e. ground (arith, e)

index-Apart :
    (pos end : ℕ) (bs : List Box) → Tiles pos end bs → AreApart (index moov bs) (index mdat bs)
unfolding index
index-Apart pos end [] t = tt
index-Apart pos end (b ∷ bs) (f, t) =
    let off = f.0 in
    let w = index-Within moov (pos + b.size) end bs t in
    if_rule (λ o. AreApart o (if b.kind == mdat then some (0, b) else later (index mdat bs)))
      (b.kind == moov)
      (λ e.
        if_rule (AreApart (some (0, b))) (b.kind == mdat) (λ d. absurd (ground (arith, e, d)))
          (λ d. front-Apart b (index mdat bs)))
      (λ e.
        if_rule (AreApart (later (index moov bs))) (b.kind == mdat)
          (λ d. first-Apart pos end b (index moov bs) off w)
          (λ d. later-Apart (index moov bs) (index mdat bs) (index-Apart (pos + b.size) end bs t)))

-- `out` is the file with the first `moov` among its boxes patched and moved in front of the first
-- `mdat`.
pub record Rearranged (file out : Bytes) : Type 0 where
  pub boxes : List Box
  pub table_box : Box
  pub table_place : ℕ
  pub frames_box : Box
  pub frames_place : ℕ
  pub reading : iter_boxes file 0 (length file) ≡ returns boxes
  pub has_table : index moov boxes ≡ some (table_place, table_box)
  pub has_frames : index mdat boxes ≡ some (frames_place, frames_box)
  pub behind : ltb table_place frames_place ≡ false
  pub front : Bytes
  pub frames : Bytes
  pub table : Bytes
  pub rest : Bytes
  pub patched : Bytes
  pub entries : ℕ
  pub before : file ≡ front ++ (frames ++ (table ++ rest))
  pub front_length : length front ≡ frames_box.off
  pub frames_length : length front + length frames ≡ table_box.off
  pub table_length : length table ≡ table_box.size
  pub patching :
      patch_offsets table table_box.hdr table_box.size table_box.size ≡ returns (patched, entries)
  pub as_long : length patched ≡ length table
  pub after : out ≡ front ++ (patched ++ (frames ++ rest))

moved-Rearranged :
    (file : Bytes) (boxes : List Box) (i j : ℕ) (m d : Box) (patched : Bytes) (n : ℕ)
    → iter_boxes file 0 (length file) ≡ returns boxes
    → index moov boxes ≡ some (i, m)
    → index mdat boxes ≡ some (j, d)
    → ltb i j ≡ false
    → d.off + d.size ≤ m.off
    → m.off + m.size ≤ length file
    → patch_offsets (slice m.off m.size file) m.hdr m.size m.size ≡ returns (patched, n)
    → Rearranged file (moved file m d patched)
unfolding moved
moved-Rearranged file boxes i j m d patched n hb hi hj hl apart inside e =
    let gap = m.off - d.off in
    let tail = drop d.off file in
    let there : drop m.off file ≡ drop gap tail =
      ap (λ n. drop n file) (omega arith) ∙ drop-drop d.off gap file in
    let table = slice m.off m.size file in
    let size : length table ≡ m.size =
      length-take m.size (drop m.off file) (let l = length-drop m.off file in omega arith) in
    let start : length (take d.off file) ≡ d.off = length-take d.off file (omega arith) in
    let between : length (take gap tail) ≡ gap =
      length-take gap tail (let l = length-drop d.off file in omega arith) in
    record {
      boxes = boxes;
      table_box = m;
      table_place = i;
      frames_box = d;
      frames_place = j;
      reading = hb;
      has_table = hi;
      has_frames = hj;
      behind = hl;
      front_length = start;
      frames_length = omega arith;
      table_length = size;
      front = take d.off file;
      frames = take gap tail;
      table = table;
      rest = drop (m.off + m.size) file;
      patched = patched;
      entries = n;
      before =
          sym (take-drop d.off file)
          ∙ ap (λ l. take d.off file ++ l)
              (sym (take-drop gap tail)
                ∙ ap (λ l. take gap tail ++ l)
                    (sym there
                      ∙ sym (take-drop m.size (drop m.off file))
                      ∙ ap (λ l. table ++ l) (sym (drop-drop m.off m.size file))));
      after = refl;
      patching = e;
      as_long = Holds-returns _ _ e (patch_offsets_length table m.hdr m.size m.size);
    }

abbrev IsChange : Bytes → Option Bytes → Type 0
IsChange file none = Unit
IsChange file (some out) = Rearranged file out

judge-Change :
    (file : Bytes) (boxes : List Box) (i j : Option (ℕ × Box))
    → iter_boxes file 0 (length file) ≡ returns boxes
    → index moov boxes ≡ i
    → index mdat boxes ≡ j
    → IsWithin 0 (length file) i
    → AreApart i j
    → Holds (IsChange file) (judge file i j)
unfolding rewrite
judge-Change file boxes none j hb hi hj w a = tt
judge-Change file boxes (some (i, m)) none hb hi hj w a = tt
judge-Change file boxes (some (i, m)) (some (j, d)) hb hi hj w a =
    if_rule (Holds (IsChange file)) (ltb i j) (λ e. tt)
      (λ e.
        Holds-each (IsChange file) (patch_offsets (slice m.off m.size file) m.hdr m.size m.size)
          (λ p. returns (some (moved file m d p.0)))
          (λ p q. moved-Rearranged file boxes i j m d p.0 p.1 hb hi hj e (a e) w.1 q))

-- Where `faststart` gives a new file, the boxes of the old one are read without an error, with an
-- `mdat` and behind it a `moov`, the first of each; the old file is made of what lies in front of
-- that `mdat`, what lies from there to the `moov`, the `moov` and the rest; and the new one of the
-- first piece, the `moov` as `_patch_offsets` makes it by its own length (which keeps the length),
-- the second piece and the rest.
pub faststart-Rearranged :
    (file out : Bytes) → faststart file ≡ returns (some out) → Rearranged file out
unfolding faststart
faststart-Rearranged file out h =
    let n = length file in
    let (boxes, hb, hj) =
      returns_inv (iter_boxes file 0 n) (λ boxes. judge file (index moov boxes) (index mdat boxes))
        h in
    let tiles = Holds-returns (Tiles 0 n) (iter_boxes file 0 n) hb (iter_boxes-Tiles file 0 n) in
    Holds-returns (IsChange file) (judge file (index moov boxes) (index mdat boxes)) hj (
      judge-Change file boxes (index moov boxes) (index mdat boxes) hb refl refl
        (index-Within moov 0 n boxes tiles) (index-Apart 0 n boxes tiles))
