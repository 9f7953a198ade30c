-- ===== src/Agent/Planner/Laws.antt =====
-- agent/nodes/query_planner.py: the limits of a plan.
use indic_rag.Agent.{AgentState}
use indic_rag.Agent.Planner.{
  Reply, parsed, failed, stripped, extracted, sub_queries_of, query_planner,
}
use indic_rag.Base.{
  List, Option-cases, String, Text, [], arith, false, if◌then◌else◌, inl, inr, is_empty, length,
  length-take-le, or_text, refl, suc, take, zero, ℕ, ◌<◌, ◌==◌, ◌∷◌, ◌≡◌, ◌≤◌, nat_eq, string_eq,
  pair_eq, list_eq,
}

not_empty-take {ℓ} :
    {A : Type ℓ} (n : ℕ) (xs : List A) → 0 < n → is_empty xs ≡ false → is_empty (take n xs) ≡ false
not_empty-take zero xs h e = absurd (omega arith)
not_empty-take (suc n) [] h e = e
not_empty-take (suc n) (x ∷ xs) h e = refl

not_empty-or_text {ℓ} :
    {A : Type ℓ} (xs ys : List A) → is_empty ys ≡ false → is_empty (or_text xs ys) ≡ false
not_empty-or_text [] ys e = e
not_empty-or_text (x ∷ xs) ys e = refl

sub_queries_of_bounds :
    (max_queries : ℕ) (query : Text) (reply : Reply)
    → 0 < max_queries
    → (is_empty (sub_queries_of max_queries query reply) ≡ false)
      × (length (sub_queries_of max_queries query reply) ≤ max_queries)
unfolding sub_queries_of
sub_queries_of_bounds n query (parsed p) h = elim (Option-cases p.sub_queries) [
  | inl none' ↦
      rw (none', sub_queries_of)
        (not_empty-take n (query ∷ []) h refl, length-take-le n (query ∷ []))
  | inr (qs, e) ↦
      rw (e, sub_queries_of)
        (
          not_empty-take n (or_text (stripped qs) (query ∷ [])) h
              (not_empty-or_text (stripped qs) (query ∷ []) refl),
          length-take-le n (or_text (stripped qs) (query ∷ [])),
        )
]
sub_queries_of_bounds n query (failed raw) h = by_list (extracted raw)
  where
    by_list :
        (qs : List Text)
        → (is_empty (elim qs [ [] ↦ query ∷ [] | q ∷ rest ↦ take n (q ∷ rest) ]) ≡ false)
          × (length (elim qs [ [] ↦ query ∷ [] | q ∷ rest ↦ take n (q ∷ rest) ]) ≤ n)
    by_list [] = (refl, omega arith)
    by_list (q ∷ rest) = (not_empty-take n (q ∷ rest) h refl, length-take-le n (q ∷ rest))

-- Whatever the model replies, and if it fails, the plan holds at least one query and at most the
-- configured number; the passages of earlier iterations are dropped only in the first one.
pub query_planner_bounds :
    {F : Type 0} (max_queries : ℕ) (language : String) (reply : Reply) (s : AgentState F)
    → 0 < max_queries
    → (let s' = query_planner max_queries language reply s in
        (is_empty s'.query_plan ≡ false)
        × (length s'.query_plan ≤ max_queries)
        × (s'.retrieved_contexts ≡ (if s.reflexion_count == 0 then [] else s.retrieved_contexts)))
unfolding query_planner
query_planner_bounds n language reply s h =
    let (a, b) = sub_queries_of_bounds n s.original_query reply h in (a, b, refl)
