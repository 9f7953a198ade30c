-- ===== src/Tests/Searching.antt =====
-- A search in an index with a tombstone, and a fusion of two rankings.
use indic_rag.Sparse.{Index, Slot}
use indic_rag.Sparse.Search.{Score, search, rrf}
use indic_rag.Sparse.Found.{IsPosted, IsFound, search-IsFound}
use indic_rag.Sparse.Ranking.{rrf-Merges}
use indic_rag.Base.{
  Bool-cases, List, String, Unique, [], inl, inr, leb, lookup, mem, refl, ℕ, ◌*◌, ◌+◌, ◌/◌, ◌==◌,
  ◌||◌, ◌∷◌, ◌≡◌, nat_eq, string_eq, pair_eq, list_eq,
}

-- scores in hundredths
abbrev hundredths : Score
hundredths = record {
  F = ℕ;
  zero_score = 0;
  add = λ a b. a + b;
  at_least = λ a b. leb b a;
  weight = λ n total df tf dl. 100 * tf;
  reciprocal = λ k rank. 100 / (k + rank);
}

abbrev slot_of : String → Slot String String
slot_of id = record { doc_id = id; doc_len = 2; doc_terms = "zero" ∷ [] }

-- the first copy of a paper has been replaced
abbrev index : Index String String
index = record {
  slots = slot_of "old" ∷ slot_of "new" ∷ [];
  postings = ("zero", (0, 2) ∷ (1, 2) ∷ []) ∷ [];
  deleted = 0 ∷ [];
  df = ("zero", 1) ∷ [];
  total_len = 2;
}

index-IsPosted : IsPosted hundredths index
unfolding IsPosted lookup
index-IsPosted = λ term. elim (Bool-cases ("zero" == term)) [
  | inl e ↦ rw (e) (refl, (refl, tt))
  | inr e ↦ rw (e) tt
]

search-IsFound_example :
    IsFound hundredths index 5 (search hundredths (λ terms. terms) ("zero" ∷ []) 5 index)
search-IsFound_example =
    search-IsFound hundredths (λ terms. terms) ("zero" ∷ []) 5 index index-IsPosted

abbrev dense : List String
dense = "a" ∷ "b" ∷ []

abbrev sparse : List String
sparse = "b" ∷ "c" ∷ []

abbrev sought : String
sought = "c"

abbrev fused : List String
fused = rrf hundredths 60 dense sparse

rrf-Merges_example : Unique fused × (mem sought fused ≡ (mem sought dense || mem sought sparse))
rrf-Merges_example = rrf-Merges hundredths 60 dense sparse sought
