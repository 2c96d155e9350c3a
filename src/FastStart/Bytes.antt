-- ===== src/FastStart/Bytes.antt =====
-- Bytes, and the operations of Python's `struct` on them, and the errors of the two.
use terra_server.Common.{
  ◌≡◌, refl, subst, arith, ℕ, zero, suc, ◌+◌, ◌*◌, ◌/◌, ◌%◌, List, [], ◌∷◌, ◌++◌, leb, ltb,
  if◌then◌else◌, length, take,
}

abbrev pub Bytes : Type 0
Bytes = List ℕ

-- `NotMp4`, and `struct.error` at the end of a buffer or of a field's range.
pub data Error : Type 0 where
  not_mp4 struct_error : Error

pub data Outcome {ℓ} (A : Type ℓ) : Type ℓ where
  returns : A → Outcome A
  raises : Error → Outcome A

-- What follows is left out after an exception.
infixl 5 ◌>>=◌
abbrev pub ◌>>=◌ {ℓ κ} :
    {Val : Type ℓ} {Next : Type κ} → Outcome Val → (Val → Outcome Next) → Outcome Next
returns v >>= next = next v
raises e >>= next = raises e

abbrev pub drop : ℕ → Bytes → Bytes
drop zero xs = xs
drop (suc n) [] = []
drop (suc n) (x ∷ xs) = drop n xs

-- `xs[start:start + n]`
abbrev pub slice : ℕ → ℕ → Bytes → Bytes
slice start n xs = take n (drop start xs)

unfoldable pub be_from : ℕ → Bytes → ℕ
be_from acc [] = acc
be_from acc (b ∷ bs) = be_from (acc * 256 + b) bs

unfoldable pub to_be : ℕ → ℕ → Bytes
to_be zero v = []
to_be (suc n) v = to_be n (v / 256) ++ (v % 256 ∷ [])

-- 256 ^ n
abbrev pub range : ℕ → ℕ
range zero = 1
range (suc n) = 256 * range n

-- `struct.unpack_from(">I" or ">Q", data, pos)[0]`
unfoldable pub unpack : ℕ → Bytes → ℕ → Outcome ℕ
unfolding be_from
unpack width bytes pos =
    if leb (pos + width) (length bytes)
    then returns (be_from 0 (slice pos width bytes))
    else raises struct_error

-- `struct.pack_into(">I" or ">Q", data, pos, v)`
unfoldable pub pack : ℕ → Bytes → ℕ → ℕ → Outcome Bytes
unfolding to_be
pack width bytes pos v =
    if leb (pos + width) (length bytes)
    then (if ltb v (range width)
        then returns (take pos bytes ++ (to_be width v ++ drop (pos + width) bytes))
        else raises struct_error)
    else raises struct_error

module _ {ℓ} {A : Type ℓ} where
  -- What holds of the value, if there is one.
  abbrev pub Holds : (A → Type 0) → Outcome A → Type 0
  Holds P (returns v) = P v
  Holds P (raises e) = Unit

  pub Holds-map : (P Q : A → Type 0) (m : Outcome A) → ((v : A) → P v → Q v) → Holds P m → Holds Q m
  Holds-map P Q (returns v) f h = f v h
  Holds-map P Q (raises e) f h = tt

  pub Holds-returns : (P : A → Type 0) (m : Outcome A) {v : A} → m ≡ returns v → Holds P m → P v
  Holds-returns P m h p = subst (Holds P) h p

module _ {ℓ κ} {A : Type ℓ} {B : Type κ} where
  pub Holds-bind :
      (P : A → Type 0) (Q : B → Type 0) (m : Outcome A) (f : A → Outcome B)
      → Holds P m
      → ((v : A) → P v → Holds Q (f v))
      → Holds Q (m >>= f)
  Holds-bind P Q (returns v) f h g = g v h
  Holds-bind P Q (raises e) f h g = tt

  -- Where nothing is known of the first value.
  pub Holds-any :
      (Q : B → Type 0) (m : Outcome A) (f : A → Outcome B)
      → ((v : A) → Holds Q (f v))
      → Holds Q (m >>= f)
  Holds-any Q (returns v) f g = g v
  Holds-any Q (raises e) f g = tt

  -- The same, with the equation of the first value.
  pub Holds-each :
      (Q : B → Type 0) (m : Outcome A) (f : A → Outcome B)
      → ((v : A) → m ≡ returns v → Holds Q (f v))
      → Holds Q (m >>= f)
  Holds-each Q (returns v) f g = g v refl
  Holds-each Q (raises e) f g = tt

  pub returns_inv :
      (m : Outcome A) (next : A → Outcome B) {out : B}
      → (m >>= next) ≡ returns out
      → (v : A) × (m ≡ returns v) × (next v ≡ returns out)
  returns_inv (returns v) next h = (v, refl, h)
  returns_inv (raises e) next h = ground arith
