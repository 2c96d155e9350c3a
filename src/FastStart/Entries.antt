-- ===== src/FastStart/Entries.antt =====
-- The entries of a table of offsets, before and after.
use terra_server.Common.{
  ℕ, zero, suc, ◌+◌, ◌*◌, ◌/◌, ◌%◌, ◌<◌, ◌≡◌, refl, sym, ap, ◌∙◌, arith, ◌&&◌, List, [], ◌∷◌, ◌++◌,
  map, leb, ltb, ◌==◌, if_rule, if◌then◌else◌, length, take,
}
use terra_server.FastStart.Bytes.{
  Bytes, Outcome, returns, raises, not_mp4, Holds, Holds-bind, Holds-map, Holds-returns, ◌>>=◌,
  slice, drop, be_from, to_be, range, unpack, pack,
}
use terra_server.FastStart.Patch.{patch_entry, patch_entries}
use terra_server.FastStart.Pieces.{length-take, drop-drop, length-to_be}

-- The numbers of a table.
unfoldable pub entries : ℕ → ℕ → ℕ → Bytes → List ℕ
unfolding be_from
entries width zero p bytes = []
entries width (suc count) p bytes =
    be_from 0 (slice p width bytes) ∷ entries width count (p + width) bytes

be_from-append :
    (acc : ℕ) (xs : Bytes) (b : ℕ) → be_from acc (xs ++ (b ∷ [])) ≡ be_from acc xs * 256 + b
unfolding be_from
be_from-append acc [] b = refl
be_from-append acc (x ∷ xs) b = be_from-append (acc * 256 + x) xs b

-- A number that fits the width is read back as it was written.
be_from-to_be : (n v : ℕ) → v < range n → be_from 0 (to_be n v) ≡ v
unfolding be_from to_be
be_from-to_be zero v h = omega arith
be_from-to_be (suc n) v h =
    let ih = be_from-to_be n (v / 256) (omega arith) in
    be_from-append 0 (to_be n (v / 256)) (v % 256) ∙ omega arith

take-append : (n : ℕ) (xs ys : Bytes) → length xs ≡ n → take n (xs ++ ys) ≡ xs
take-append zero [] ys h = refl
take-append zero (x ∷ xs) ys h = absurd (omega (arith, h))
take-append (suc n) [] ys h = absurd (omega (arith, h))
take-append (suc n) (x ∷ xs) ys h = ap (λ l. x ∷ l) (take-append n xs ys (omega arith))

drop-append : (n : ℕ) (xs ys : Bytes) → length xs ≡ n → drop n (xs ++ ys) ≡ ys
drop-append zero [] ys h = refl
drop-append zero (x ∷ xs) ys h = absurd (omega (arith, h))
drop-append (suc n) [] ys h = absurd (omega (arith, h))
drop-append (suc n) (x ∷ xs) ys h = drop-append n xs ys (omega arith)

take_none : (n : ℕ) → take {A = ℕ} n [] ≡ []
take_none zero = refl
take_none (suc n) = refl

take-take : (a b : ℕ) (xs : Bytes) → take a (take (a + b) xs) ≡ take a xs
take-take zero b xs = refl
take-take (suc a) b [] = ap (take (suc a)) (take_none (suc a + b))
take-take (suc a) b (x ∷ xs) =
    let one : suc a + b ≡ suc (a + b) = omega arith in
    ap (λ n. take (suc a) (take n (x ∷ xs))) one ∙ ap (λ l. x ∷ l) (take-take a b xs)

-- A slice depends on what is in front of its end alone.
slice-take : (p n : ℕ) (xs : Bytes) → slice p n xs ≡ drop p (take (p + n) xs)
slice-take zero n xs = ap (λ k. take k xs) (omega arith)
slice-take (suc p) n [] = take_none n ∙ sym (ap (drop (suc p)) (take_none (suc p + n)))
slice-take (suc p) n (x ∷ xs) =
    let one : suc p + n ≡ suc (p + n) = omega arith in
    slice-take p n xs ∙ sym (ap (λ k. drop (suc p) (take k (x ∷ xs))) one)

-- What one entry does.
record Written (width v p : ℕ) (bytes after : Bytes) : Type 0 where
  value : be_from 0 (slice p width after) ≡ v
  front : take p after ≡ take p bytes
  back : drop (p + width) after ≡ drop (p + width) bytes

pack-Written :
    (width : ℕ) (bytes : Bytes) (p v : ℕ) → Holds (Written width v p bytes) (pack width bytes p v)
unfolding pack
pack-Written width bytes p v =
    if_rule (Holds (Written width v p bytes)) (leb (p + width) (length bytes))
      (λ e.
        if_rule (Holds (Written width v p bytes)) (ltb v (range width))
          (λ l.
            let start = take p bytes in
            let end = drop (p + width) bytes in
            let new = to_be width v in
            let size = length-to_be width v in
            let at = length-take p bytes (ground (arith, e)) in
            let rest : drop p (start ++ (new ++ end)) ≡ new ++ end =
              drop-append p start (new ++ end) at in
            record {
              value =
                  ap (λ xs. be_from 0 (take width xs)) rest
                  ∙ ap (be_from 0) (take-append width new end size)
                  ∙ be_from-to_be width v (ground (arith, l));
              front = take-append p start (new ++ end) at;
              back =
                  drop-drop p width (start ++ (new ++ end))
                  ∙ ap (drop width) rest
                  ∙ drop-append width new end size;
            })
          (λ l. tt))
      (λ e. tt)

entry-Written :
    (width delta p : ℕ) (bytes : Bytes)
    → Holds
        (Written width (be_from 0 (slice p width bytes) + delta) p bytes)
        (patch_entry width delta p bytes)
unfolding patch_entry unpack
entry-Written width delta p bytes =
    let old = be_from 0 (slice p width bytes) in
    let Q = Written width (old + delta) p bytes in
    if_rule
      (λ (r : Outcome ℕ). Holds Q (
        r >>= λ n.
        if width == 4 && ltb 4294967295 (n + delta)
        then raises not_mp4
        else pack width bytes p (n + delta)))
      (leb (p + width) (length bytes))
      (λ e.
        if_rule (Holds Q) (width == 4 && ltb 4294967295 (old + delta)) (λ l. tt)
          (λ l. pack-Written width bytes p (old + delta)))
      (λ e. tt)

-- The entries from `p` on depend on the bytes from there on.
entries_drop :
    (width count p : ℕ) (a b : Bytes)
    → drop p a ≡ drop p b
    → entries width count p a ≡ entries width count p b
unfolding entries
entries_drop width zero p a b h = refl
entries_drop width (suc count) p a b h =
    let further = drop-drop p width a ∙ ap (drop width) h ∙ sym (drop-drop p width b) in
    let rest = entries_drop width count (p + width) a b further in
    ap (λ xs. be_from 0 (take width xs) ∷ entries width count (p + width) a) h
    ∙ ap (λ es. be_from 0 (slice p width b) ∷ es) rest

-- A table of `count` entries at `p`, each moved by `delta`, with the bytes around it unchanged.
pub record Shifted (width delta count p : ℕ) (bytes after : Bytes) : Type 0 where
  pub shifted : entries width count p after ≡ map (λ v. v + delta) (entries width count p bytes)
  pub front : take p after ≡ take p bytes
  pub back : drop (p + count * width) after ≡ drop (p + count * width) bytes

next-Shifted :
    (width delta count p : ℕ) (bytes mid after : Bytes)
    → Written width (be_from 0 (slice p width bytes) + delta) p bytes mid
    → Shifted width delta count (p + width) mid after
    → Shifted width delta (suc count) p bytes after
unfolding entries
next-Shifted width delta count p bytes mid after w s =
    let move = λ (v : ℕ). v + delta in
    let same = slice-take p width after ∙ ap (drop p) s.front ∙ sym (slice-take p width mid) in
    let first = ap (be_from 0) same ∙ w.value in
    let rest = s.shifted ∙ ap (map move) (entries_drop width count (p + width) mid bytes w.back) in
    let far : p + suc count * width ≡ (p + width) + count * width = omega arith in
    record {
      shifted =
          ap (λ v. v ∷ entries width count (p + width) after) first
          ∙ ap (λ es. (be_from 0 (slice p width bytes) + delta) ∷ es) rest;
      front = sym (take-take p width after) ∙ ap (take p) s.front ∙ take-take p width mid ∙ w.front;
      back =
          ap (λ n. drop n after) far
          ∙ s.back
          ∙ drop-drop (p + width) (count * width) mid
          ∙ ap (drop (count * width)) w.back
          ∙ sym (drop-drop (p + width) (count * width) bytes)
          ∙ sym (ap (λ n. drop n bytes) far);
    }

patch-Shifted :
    (width delta count p : ℕ) (bytes : Bytes)
    → Holds (Shifted width delta count p bytes) (patch_entries width delta count p bytes)
unfolding patch_entries entries
patch-Shifted width delta zero p bytes = record { shifted = refl; front = refl; back = refl }
patch-Shifted width delta (suc count) p bytes =
    Holds-bind (Written width (be_from 0 (slice p width bytes) + delta) p bytes)
      (Shifted width delta (suc count) p bytes) (patch_entry width delta p bytes)
      (patch_entries width delta count (p + width)) (entry-Written width delta p bytes)
      (λ mid w.
        Holds-map (Shifted width delta count (p + width) mid)
          (Shifted width delta (suc count) p bytes)
          (patch_entries width delta count (p + width) mid)
          (λ after s. next-Shifted width delta count p bytes mid after w s)
          (patch-Shifted width delta count (p + width) mid))

-- Where the loop over a table of `count` offsets ends without an error, each of them, read back as
-- a big-endian number, is the old one plus `delta`, and the bytes in front of the table and behind
-- it are unchanged.
pub patch_entries-Shifted :
    (width delta count p : ℕ) (bytes after : Bytes)
    → patch_entries width delta count p bytes ≡ returns after
    → Shifted width delta count p bytes after
patch_entries-Shifted width delta count p bytes after h =
    Holds-returns (Shifted width delta count p bytes) (patch_entries width delta count p bytes) h
      (patch-Shifted width delta count p bytes)
