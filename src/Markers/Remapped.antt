-- ===== src/Markers/Remapped.antt =====
-- rag.py and report_runner.py: the numbers that a rewritten marker shows are those of its parts.
use indic_rag.Markers.{remapped}
use indic_rag.Base.{
  ==_comm, ==_iff, ==_refl, Bool-cases, List, Option, Option-cases, Text, Unique, [], ap, arith,
  false, if◌then◌else◌, inl, inr, mem, mem-append, none, refl, some, strip, true, ℕ, ◌++◌, ◌==◌,
  ◌∙◌, ◌∷◌, ◌≡◌, ◌⊎◌, nat_eq, string_eq, pair_eq, list_eq,
}

-- the numbers after one more part
abbrev add_number : Option ℕ → List ℕ → List ℕ
add_number none mapped = mapped
add_number (some n) mapped = if mem n mapped then mapped else mapped ++ n ∷ []

module _ (number : Text → Option ℕ) where
  mem-remapped_old :
      (n : ℕ) (parts : List Text) (mapped : List ℕ)
      → mem n mapped ≡ true
      → mem n (remapped number parts mapped) ≡ true
  unfolding remapped
  mem-remapped_old n [] mapped h = h
  mem-remapped_old n (p ∷ parts) mapped h = elim (Option-cases (number (strip p))) [
    | inl e0 ↦ rw e0 (mem-remapped_old n parts mapped h)
    | inr (k, e1) ↦ rw e1 (
        mem-remapped_old n parts (add_number (some k) mapped)
          (ground (arith, mem-append n mapped (k ∷ []))))
  ]

  -- The number of every part is shown.
  pub mem-remapped :
      (n : ℕ) (part : Text) (parts : List Text) (mapped : List ℕ)
      → mem part parts ≡ true
      → number (strip part) ≡ some n
      → mem n (remapped number parts mapped) ≡ true
  unfolding remapped
  mem-remapped n part [] mapped h e = cc
  mem-remapped n part (p ∷ parts) mapped h e = elim (Bool-cases (p == part)) [
    | inl same ↦ rw (ap (λ t. number (strip t)) ((==_iff p part).0 same) ∙ e) (
        mem-remapped_old n parts (add_number (some n) mapped)
          (ground (arith, mem-append n mapped (n ∷ []), ==_refl n)))
    | inr other ↦ mem-remapped n part parts _ (ground arith) e
  ]

  -- Every number that is shown is the number of a part.
  pub remapped-part :
      (n : ℕ) (parts : List Text) (mapped : List ℕ)
      → mem n (remapped number parts mapped) ≡ true
      → (mem n mapped ≡ true)
        ⊎ ((part : Text) × (mem part parts ≡ true) × (number (strip part) ≡ some n))
  unfolding remapped
  remapped-part n [] mapped h = inl h
  remapped-part n (p ∷ parts) mapped h = elim (Option-cases (number (strip p))) [
    | inl e0 ↦ later (remapped-part n parts mapped (rw e0 at h))
    | inr (k, e1) ↦ here k e1 (remapped-part n parts (add_number (some k) mapped) (rw e1 at h))
  ]
    where
      Outcome : Type 0
      Outcome =
          (mem n mapped ≡ true)
          ⊎ ((part : Text) × (mem part (p ∷ parts) ≡ true) × (number (strip part) ≡ some n))

      later :
          (mem n mapped ≡ true)
            ⊎ ((part : Text) × (mem part parts ≡ true) × (number (strip part) ≡ some n))
          → Outcome
      later (inl old) = inl old
      later (inr (q, m, e)) = inr (q, ground (arith, m), e)

      here :
          (k : ℕ)
          → number (strip p) ≡ some k
          → (mem n (add_number (some k) mapped) ≡ true)
            ⊎ ((part : Text) × (mem part parts ≡ true) × (number (strip part) ≡ some n))
          → Outcome
      here k e1 (inr o) = later (inr o)
      here k e1 (inl new) = elim (Bool-cases (mem n mapped)) [
        | inl old ↦ inl old
        | inr fresh ↦ inr (
          p,
          ground (arith, ==_refl p),
          e1 ∙ ap some ((==_iff k n).0 (ground (arith, mem-append n mapped (k ∷ [])))),
        )
      ]

  -- No number is shown twice.
  pub remapped-Unique :
      (parts : List Text) (mapped : List ℕ) → Unique mapped → Unique (remapped number parts mapped)
  unfolding remapped
  remapped-Unique [] mapped u = u
  remapped-Unique (p ∷ parts) mapped u = elim (Option-cases (number (strip p))) [
    | inl e0 ↦ rw e0 (remapped-Unique parts mapped u)
    | inr (k, e1) ↦ rw e1 (remapped-Unique parts (add_number (some k) mapped) (added k mapped u))
  ]
    where
      snoc : (k : ℕ) (ns : List ℕ) → mem k ns ≡ false → Unique ns → Unique (ns ++ k ∷ [])
      snoc k [] h v = (refl, tt)
      snoc k (n ∷ ns) h v =
          (ground (arith, mem-append n ns (k ∷ []), v.0, ==_comm n k), snoc k ns (ground arith) v.1)

      added : (k : ℕ) (ns : List ℕ) → Unique ns → Unique (add_number (some k) ns)
      added k ns v = elim (Bool-cases (mem k ns)) [
        | inl old ↦ rw old v
        | inr fresh ↦ rw fresh (snoc k ns fresh v)
      ]
