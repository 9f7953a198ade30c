-- ===== src/Citation/Seen.antt =====
-- rag.py: `sorted(seen_nums)` holds each number of the answer's markers once.
use indic_rag.Markers.{parts_of, pieces, int_of, groups_of}
use indic_rag.Citation.Extract.{add_seen, seen_parts, seen_groups, seen_nums}
use indic_rag.Markers.Agree.{groups_of-pieces_lead}
use indic_rag.Base.{
  ==_iff, Bool-cases, List, Option, Option-cases, Text, Unique, [], ap, arith, false, inl, inr, mem,
  none, refl, some, strip, sym, true, ℕ, ◌<◌, ◌==◌, ◌||◌, ◌∙◌, ◌∷◌, ◌≡◌, nat_eq, string_eq, pair_eq,
  list_eq,
}

-- A number read into `sorted(seen_nums)` is there, and nothing else is new.
mem-add_seen : (k n : ℕ) (seen : List ℕ) → mem k (add_seen n seen) ≡ (n == k || mem k seen)
unfolding add_seen
mem-add_seen k n [] = refl
mem-add_seen k n (j ∷ seen) = ground (arith, mem-add_seen k n seen)

abbrev Ascending : List ℕ → Type 0
Ascending [] = Unit
Ascending (n ∷ []) = Unit
Ascending (n ∷ k ∷ ns) = (n < k) × Ascending (k ∷ ns)

add_seen-Ascending : (n : ℕ) (seen : List ℕ) → Ascending seen → Ascending (add_seen n seen)
unfolding add_seen
add_seen-Ascending n [] h = tt
add_seen-Ascending n (k ∷ []) h = ground arith
add_seen-Ascending n (k ∷ j ∷ seen) h = ground (arith, add_seen-Ascending n (j ∷ seen))

-- nothing below the first number is in an ascending list
Ascending-below : (k n : ℕ) (ns : List ℕ) → Ascending (n ∷ ns) → k < n → mem k (n ∷ ns) ≡ false
Ascending-below k n [] h lt = ground arith
Ascending-below k n (j ∷ ns) h lt = ground (arith, Ascending-below k j ns)

Ascending-Unique : (ns : List ℕ) → Ascending ns → Unique ns
Ascending-Unique [] h = tt
Ascending-Unique (n ∷ []) h = (refl, tt)
Ascending-Unique (n ∷ k ∷ ns) h = (Ascending-below n k ns h.1 h.0, Ascending-Unique (k ∷ ns) h.1)

module _ (digit : ℕ → Option ℕ) where
  seen_parts-Ascending :
      (parts : List Text) (seen : List ℕ) → Ascending seen → Ascending (seen_parts digit parts seen)
  unfolding seen_parts
  seen_parts-Ascending [] seen h = h
  seen_parts-Ascending (part ∷ parts) seen h =
      seen_parts-Ascending parts _ (step (int_of digit (strip part)))
    where
      step : (o : Option ℕ) → Ascending (elim o [ none ↦ seen | some n ↦ add_seen n seen ])
      step none = h
      step (some n) = add_seen-Ascending n seen h

  seen_groups-Ascending :
      (groups : List Text) (seen : List ℕ)
      → Ascending seen
      → Ascending (seen_groups digit groups seen)
  unfolding seen_groups
  seen_groups-Ascending [] seen h = h
  seen_groups-Ascending (g ∷ groups) seen h =
      seen_groups-Ascending groups (seen_parts digit (parts_of g) seen)
        (seen_parts-Ascending (parts_of g) seen h)

  pub seen_nums-Unique : (answer : Text) → Unique (seen_nums digit answer)
  unfolding seen_nums
  seen_nums-Unique answer =
      Ascending-Unique _ (seen_groups-Ascending (groups_of (pieces digit false 0 answer)) [] tt)

  -- what is seen stays seen
  mem-seen_parts_old :
      (k : ℕ) (parts : List Text) (seen : List ℕ)
      → mem k seen ≡ true
      → mem k (seen_parts digit parts seen) ≡ true
  unfolding seen_parts
  mem-seen_parts_old k [] seen h = h
  mem-seen_parts_old k (part ∷ parts) seen h = elim (Option-cases (int_of digit (strip part))) [
    | inl e0 ↦ rw e0 (mem-seen_parts_old k parts seen h)
    | inr (n, e1) ↦
        rw e1 (mem-seen_parts_old k parts (add_seen n seen) (ground (arith, mem-add_seen k n seen)))
  ]

  mem-seen_parts :
      (k : ℕ) (part : Text) (parts : List Text) (seen : List ℕ)
      → mem part parts ≡ true
      → int_of digit (strip part) ≡ some k
      → mem k (seen_parts digit parts seen) ≡ true
  unfolding seen_parts
  mem-seen_parts k part [] seen h e = cc
  mem-seen_parts k part (p ∷ parts) seen h e = elim (Bool-cases (p == part)) [
    | inl same ↦
        rw (ap (λ t. int_of digit (strip t)) ((==_iff p part).0 same) ∙ e)
          (mem-seen_parts_old k parts (add_seen k seen) (ground (arith, mem-add_seen k k seen)))
    | inr other ↦ mem-seen_parts k part parts _ (ground arith) e
  ]

  mem-seen_groups_old :
      (k : ℕ) (groups : List Text) (seen : List ℕ)
      → mem k seen ≡ true
      → mem k (seen_groups digit groups seen) ≡ true
  unfolding seen_groups
  mem-seen_groups_old k [] seen h = h
  mem-seen_groups_old k (g ∷ groups) seen h =
      mem-seen_groups_old k groups _ (mem-seen_parts_old k (parts_of g) seen h)

  pub mem-seen_groups :
      (k : ℕ) (part g : Text) (groups : List Text) (seen : List ℕ)
      → mem g groups ≡ true
      → mem part (parts_of g) ≡ true
      → int_of digit (strip part) ≡ some k
      → mem k (seen_groups digit groups seen) ≡ true
  unfolding seen_groups
  mem-seen_groups k part g [] seen h hp e = cc
  mem-seen_groups k part g (g' ∷ groups) seen h hp e = elim (Bool-cases (g' == g)) [
    | inl same ↦ mem-seen_groups_old k groups _ (
        mem-seen_parts k part (parts_of g') seen
          (ap (λ t. mem part (parts_of t)) ((==_iff g' g).0 same) ∙ hp) e)
    | inr other ↦ mem-seen_groups k part g groups _ (ground arith) hp e
  ]

  -- Every number of a marker that the rewriting finds is among the numbers that the panel is made of.
  pub seen_nums-pieces :
      (k : ℕ) (part g answer : Text)
      → mem g (groups_of (pieces digit true 0 answer)) ≡ true
      → mem part (parts_of g) ≡ true
      → int_of digit (strip part) ≡ some k
      → mem k (seen_nums digit answer) ≡ true
  unfolding seen_nums
  seen_nums-pieces k part g answer h =
      mem-seen_groups k part g (groups_of (pieces digit false 0 answer)) []
        (ap (mem g) (sym (groups_of-pieces_lead digit answer)) ∙ h)
