-- ===== src/FastStart/Pieces.antt =====
-- Pieces of byte strings, and their lengths.
use terra_server.Common.{
  ℕ, zero, suc, ◌+◌, ◌-◌, ◌/◌, ◌%◌, ◌≤◌, ◌≡◌, refl, sym, ap, true, ◌∙◌, arith, [], ◌∷◌, ◌++◌,
  if_rule, leb, ltb, length, take, length-append,
}
use terra_server.FastStart.Bytes.{Bytes, Holds, drop, to_be, pack, range}

pub take-drop : (n : ℕ) (xs : Bytes) → take n xs ++ drop n xs ≡ xs
take-drop zero xs = refl
take-drop (suc n) [] = refl
take-drop (suc n) (x ∷ xs) = ap (λ l. x ∷ l) (take-drop n xs)

pub length-take : (n : ℕ) (xs : Bytes) → n ≤ length xs → length (take n xs) ≡ n
length-take zero xs h = refl
length-take (suc n) [] h = omega arith
length-take (suc n) (x ∷ xs) h = let ih = length-take n xs (omega arith) in omega arith

pub length-drop : (n : ℕ) (xs : Bytes) → length (drop n xs) ≡ length xs - n
length-drop zero xs = omega arith
length-drop (suc n) [] = omega arith
length-drop (suc n) (x ∷ xs) = let ih = length-drop n xs in omega arith

drop_none : (n : ℕ) → drop n [] ≡ []
drop_none zero = refl
drop_none (suc n) = refl

pub drop-drop : (a b : ℕ) (xs : Bytes) → drop (a + b) xs ≡ drop b (drop a xs)
drop-drop zero b xs = ap (λ n. drop n xs) (omega arith)
drop-drop (suc a) b [] = drop_none (suc a + b) ∙ sym (drop_none b)
drop-drop (suc a) b (x ∷ xs) =
    let one : suc a + b ≡ suc (a + b) = omega arith in
    ap (λ n. drop n (x ∷ xs)) one ∙ drop-drop a b xs

pub length-to_be : (n v : ℕ) → length (to_be n v) ≡ n
unfolding to_be
length-to_be zero v = refl
length-to_be (suc n) v =
    let ih = length-to_be n (v / 256) in
    let all = length-append (to_be n (v / 256)) (v % 256 ∷ []) in omega arith

pub length-pack :
    (width : ℕ) (bytes : Bytes) (pos v : ℕ)
    → Holds (λ after. length after ≡ length bytes) (pack width bytes pos v)
unfolding pack
length-pack width bytes pos v =
    let whole = take pos bytes ++ (to_be width v ++ drop (pos + width) bytes) in
    let same = λ (e : leb (pos + width) (length bytes) ≡ true).
      let inside : pos + width ≤ length bytes = ground arith in
      let a = length-append (take pos bytes) (to_be width v ++ drop (pos + width) bytes) in
      let b = length-append (to_be width v) (drop (pos + width) bytes) in
      let front = length-take pos bytes (omega arith) in
      let mid = length-to_be width v in
      let back = length-drop (pos + width) bytes in
      let all : length whole ≡ length bytes = omega arith in all in
    if_rule (Holds (λ after. length after ≡ length bytes)) (leb (pos + width) (length bytes))
      (λ e.
        if_rule (Holds (λ after. length after ≡ length bytes)) (ltb v (range width)) (λ l. same e)
          (λ l. tt))
      (λ e. tt)
