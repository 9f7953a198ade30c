-- ===== src/Tests/Matching.antt =====
-- Stamps of three embeddings, and titles that are as close as their first characters.
use indic_rag.Store.Documents.{Provenance, provenance_stamp, merged}
use indic_rag.Store.Papers.{
  index_fingerprint, check_index_compatibility, paper_chunk_counts, update_paper_metadata,
  Candidate, best_match, find_similar_paper, other_backend, compatible, unstamped, problems,
}
use indic_rag.Base.{
  Text, [], codes, if◌then◌else◌, insert, is_space, left_strip, lookup, none, refl, some, strip, ℕ,
  ◌+◌, ◌==◌, ◌∷◌, ◌≡◌, nat_eq, string_eq, pair_eq, list_eq,
}

program : Unit {0}
unfolding merged index_fingerprint check_index_compatibility paper_chunk_counts
    update_paper_metadata best_match find_similar_paper lookup insert strip left_strip is_space
program = tt

abbrev names : Provenance
names = record { embed_model = codes "m"; embed_dim = 3; embed_backend = codes "fp32" }

same_stamp : check_index_compatibility names (some (provenance_stamp names)) ≡ compatible
unfolding program
same_stamp = refl

other_weights :
    check_index_compatibility names
      (some (provenance_stamp (record names { embed_backend = codes "onnx-int8" })))
    ≡ problems (other_backend ∷ [])
unfolding program
other_weights = refl

unknown_weights :
    check_index_compatibility
      (record names { embed_backend = codes "unloaded" })
      (some (provenance_stamp names))
    ≡ compatible
unfolding program
unknown_weights = refl

no_stamp : check_index_compatibility names (some []) ≡ unstamped
unfolding program
no_stamp = refl

counted :
    paper_chunk_counts (some (codes "p") ∷ none ∷ some (codes "q") ∷ some (codes "p") ∷ []) []
    ≡ (codes "p", 2) ∷ (codes "q", 1) ∷ []
unfolding program
counted = refl

-- the length of the common prefix
ratio : Text → Text → ℕ
ratio [] t = 0
ratio (c ∷ s) [] = 0
ratio (c ∷ s) (d ∷ t) = let rest = ratio s t in if c == d then rest + 1 else 0

abbrev candidate : Text → Text → Text → Candidate
candidate paper_id title year = record { paper_id = paper_id; title = title; year = year }

closest :
    find_similar_paper ratio
      (λ t. t)
      (codes "abc")
      (codes "2020")
      2
      (candidate (codes "p") (codes "abx") (codes "2020")
        ∷ candidate (codes "q") (codes "abc") (codes "2019")
        ∷ candidate (codes "r") (codes "ab") []
        ∷ [])
    ≡ some (codes "p")
unfolding program ratio
closest = refl
