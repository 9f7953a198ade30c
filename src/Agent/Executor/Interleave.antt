-- ===== src/Agent/Executor/Interleave.antt =====
-- agent/nodes/tool_executor_node.py: what `_interleave_by_retriever` keeps.
use indic_rag.Agent.{Passage}
use indic_rag.Agent.Executor.{
  retriever_of, group, values, heads, left_over, round_robin, interleave_by_retriever,
}
use indic_rag.Base.{
  Bool, Dict, List, String, [], arith, if◌then◌else◌, insert, length, lookup, or_else, refl, suc,
  sym, true, zero, ℕ, ◌++◌, ◌+◌, ◌-◌, ◌∷◌, ◌≡◌, ◌≤◌, nat_eq, string_eq, pair_eq, list_eq,
}

module _ {ℓ} {A : Type ℓ} where
  -- how many elements the test holds of, in a list and in a list of queues
  unfoldable pub tally : (A → Bool) → List A → ℕ
  tally p [] = 0
  tally p (x ∷ xs) = (if p x then 1 else 0) + tally p xs

  unfoldable tally_all : (A → Bool) → List (List A) → ℕ
  unfolding tally
  tally_all p [] = 0
  tally_all p (q ∷ qs) = tally p q + tally_all p qs

  pub tally-append : (p : A → Bool) (xs ys : List A) → tally p (xs ++ ys) ≡ tally p xs + tally p ys
  unfolding tally
  tally-append p [] ys = omega arith
  tally-append p (x ∷ xs) ys = omega (arith, tally-append p xs ys)

  tally-length : (xs : List A) → tally (λ x. true) xs ≡ length xs
  unfolding tally
  tally-length [] = refl
  tally-length (x ∷ xs) = omega (arith, tally-length xs)

  turn_tally :
      (p : A → Bool) (qs : List (List A))
      → tally p (heads qs) + tally_all p (left_over qs) ≡ tally_all p qs
  unfolding tally_all heads left_over
  turn_tally p [] = refl
  turn_tally p ([] ∷ qs) = omega (arith, turn_tally p qs)
  turn_tally p ((x ∷ []) ∷ qs) = omega (arith, turn_tally p qs)
  turn_tally p ((x ∷ y ∷ q) ∷ qs) = omega (arith, turn_tally p qs)

  -- a turn takes at least one element, if there is one
  turn_less :
      (qs : List (List A)) → tally_all (λ x. true) (left_over qs) ≤ tally_all (λ x. true) qs - 1
  unfolding tally_all left_over
  turn_less [] = omega arith
  turn_less ([] ∷ qs) = omega (arith, turn_less qs)
  turn_less ((x ∷ []) ∷ qs) = omega (arith, turn_less qs)
  turn_less ((x ∷ y ∷ q) ∷ qs) = omega (arith, turn_less qs)

  none_tally :
      (p : A → Bool) (qs : List (List A)) → tally_all (λ x. true) qs ≤ 0 → tally_all p qs ≡ 0
  unfolding tally_all
  none_tally p [] h = refl
  none_tally p ([] ∷ qs) h = omega (arith, none_tally p qs)
  none_tally p ((x ∷ q) ∷ qs) h = absurd (omega arith)

  tally-round_robin :
      (p : A → Bool) (fuel : ℕ) (qs : List (List A))
      → tally_all (λ x. true) qs ≤ fuel
      → tally p (round_robin fuel qs) ≡ tally_all p qs
  unfolding round_robin tally_all
  tally-round_robin p zero qs h = sym (none_tally p qs h)
  tally-round_robin p (suc fuel) [] h = refl
  tally-round_robin p (suc fuel) (q ∷ qs) h = omega (
    arith,
    tally-append p (heads (q ∷ qs)) (round_robin fuel (left_over (q ∷ qs))),
    tally-round_robin p fuel (left_over (q ∷ qs)),
    turn_tally p (q ∷ qs),
    turn_less (q ∷ qs),
  )

tally-insert :
    (p : Passage → Bool) (k : String) (v : List Passage) (d : Dict String (List Passage))
    → tally_all p (values (insert k v d)) + tally p (or_else (lookup k d) [])
      ≡ tally_all p (values d) + tally p v
unfolding insert lookup tally_all
tally-insert p k v [] = omega arith
tally-insert p k v ((j, w) ∷ d) = ground (arith, tally-insert p k v d)

tally-group :
    (p : Passage → Bool) (cs : List Passage) (d : Dict String (List Passage))
    → tally_all p (values (group cs d)) ≡ tally_all p (values d) + tally p cs
unfolding group tally_all
tally-group p [] d = omega arith
tally-group p (c ∷ cs) d =
    let old = or_else (lookup (retriever_of c) d) [] in
    omega (
      arith,
      tally-group p cs (insert (retriever_of c) (old ++ c ∷ []) d),
      tally-insert p (retriever_of c) (old ++ c ∷ []) d,
      tally-append p old (c ∷ []),
    )

-- However often the passages that pass a test occur, the interleaved list has them as often: it is
-- a reordering of the contexts, and the rounds that its fuel allows are enough.
pub tally-interleave_by_retriever :
    (p : Passage → Bool) (cs : List Passage) → tally p (interleave_by_retriever cs) ≡ tally p cs
unfolding interleave_by_retriever tally_all
tally-interleave_by_retriever p cs = omega (
  arith,
  tally-round_robin p (length cs) (values (group cs [])),
  tally-group (λ x. true) cs [],
  tally-group p cs [],
  tally-length cs,
)
