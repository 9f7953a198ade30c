-- ===== src/Citation/Numbering.antt =====
-- The independent numbering of papers: the place of a title among the distinct titles.
use indic_rag.Citation.{number_for, set_default}
use indic_rag.Base.{
  ==_refl, Dict, Eq, List, Text, [], ap, arith, false, if◌then◌else◌, insert, length, lookup, mem,
  mem-append, none, refl, some, suc, true, ℕ, ◌++◌, ◌+◌, ◌<◌, ◌==◌, ◌||◌, ◌∙◌, ◌∷◌, ◌≡◌, nat_eq,
  string_eq, pair_eq, list_eq,
}

module _ {ℓ} {A : Type ℓ} ⦃e : Eq A⦄ where
  -- the place of an element, or the length of the list
  abbrev pub index_of : A → List A → ℕ
  index_of a [] = 0
  index_of a (x ∷ xs) = if x == a then 0 else suc (index_of a xs)

  abbrev pub add_new : A → List A → List A
  add_new a xs = if mem a xs then xs else xs ++ a ∷ []

  -- the distinct elements, in the order of their first occurrence
  abbrev pub distinct_from : List A → List A → List A
  distinct_from known [] = known
  distinct_from known (a ∷ as') = distinct_from (add_new a known) as'

  pub index_of-lt : (a : A) (xs : List A) → mem a xs ≡ true → index_of a xs < length xs
  index_of-lt a [] h = cc
  index_of-lt a (x ∷ xs) h = ground (arith, index_of-lt a xs)

  pub index_of-append :
      (a : A) (xs ys : List A)
      → index_of a (xs ++ ys) ≡ (if mem a xs then index_of a xs else length xs + index_of a ys)
  index_of-append a [] ys = ground arith
  index_of-append a (x ∷ xs) ys = ground (arith, index_of-append a xs ys)

  pub index_of-add_new :
      (a b : A) (xs : List A) → mem a xs ≡ true → index_of a (add_new b xs) ≡ index_of a xs
  index_of-add_new a b xs h = ground (arith, index_of-append a xs (b ∷ []))

  pub mem-add_new : (a b : A) (xs : List A) → mem a (add_new b xs) ≡ (b == a || mem a xs)
  mem-add_new a b xs = ground (arith, mem-append a xs (b ∷ []), e.beq_iff b a)

  -- what is known keeps its place
  pub index_of-distinct_from :
      (a : A) (known as' : List A)
      → mem a known ≡ true
      → index_of a (distinct_from known as') ≡ index_of a known
  index_of-distinct_from a known [] h = refl
  index_of-distinct_from a known (b ∷ as') h =
      index_of-distinct_from a (add_new b known) as' (ground (arith, mem-add_new a b known))
      ∙ index_of-add_new a b known h

  pub mem-distinct_from :
      (a : A) (known as' : List A) → mem a (distinct_from known as') ≡ (mem a known || mem a as')
  mem-distinct_from a known [] = ground arith
  mem-distinct_from a known (b ∷ as') =
      ground (arith, mem-distinct_from a (add_new b known) as', mem-add_new a b known)

-- titles with the numbers that follow `n`
abbrev pub enumerate : ℕ → List Text → Dict Text ℕ
enumerate n [] = []
enumerate n (t ∷ ts) = (t, suc n) ∷ enumerate (suc n) ts

pub length-enumerate : (n : ℕ) (ts : List Text) → length (enumerate n ts) ≡ length ts
length-enumerate n [] = refl
length-enumerate n (t ∷ ts) = ap suc (length-enumerate (suc n) ts)

pub lookup-enumerate :
    (t : Text) (n : ℕ) (ts : List Text)
    → lookup t (enumerate n ts) ≡ (if mem t ts then some (suc (n + index_of t ts)) else none)
unfolding lookup
lookup-enumerate t n [] = refl
lookup-enumerate t n (u ∷ ts) = ground (arith, lookup-enumerate t (suc n) ts)

insert-enumerate :
    (t : Text) (n m : ℕ) (ts : List Text)
    → mem t ts ≡ false
    → m ≡ suc (n + length ts)
    → insert t m (enumerate n ts) ≡ enumerate n (ts ++ t ∷ [])
unfolding insert
insert-enumerate t n m [] h e = ground arith
insert-enumerate t n m (u ∷ ts) h e = ground (arith, insert-enumerate t (suc n) m ts)

-- the number of a title, seen or new
pub number_for-enumerate :
    (t : Text) (known : List Text)
    → number_for t (enumerate 0 known) ≡ suc (index_of t (add_new t known))
unfolding number_for
number_for-enumerate t known = ground (
  arith,
  lookup-enumerate t 0 known,
  length-enumerate 0 known,
  index_of-append t known (t ∷ []),
  ==_refl t,
)

pub set_default-enumerate :
    (t : Text) (known : List Text)
    → set_default t (number_for t (enumerate 0 known)) (enumerate 0 known)
      ≡ enumerate 0 (add_new t known)
unfolding set_default number_for
set_default-enumerate t known = ground (
  arith,
  lookup-enumerate t 0 known,
  length-enumerate 0 known,
  insert-enumerate t 0 (suc (length known)) known,
)
