-- ===== src/Store/Papers.antt =====
-- vector_store.py: the provenance of the chunks that are there, and the papers that they belong to.
-- A chunk that a read finds is its metadata; the wording of a problem is left out. The candidates of
-- `find_similar_paper` are the rows of `list_papers`, or of a scan where there are none.
use indic_rag.Store.Documents.{Value, number, text, Provenance, chunker_version, merged}
use indic_rag.Base.{
  All, Bool, Dict, List, Option, Text, [], arith, codes, false, if◌then◌else◌, insert, is_empty,
  is_some, leb, leb→le, length, lookup, map, none, not, or_else, refl, some, strip, subst, sym,
  true, ℕ, ◌&&◌, ◌++◌, ◌+◌, ◌==◌, ◌||◌, ◌↔◌, ◌∷◌, ◌≡◌, ◌≤◌, nat_eq, string_eq, pair_eq, list_eq,
}

-- the problems that `check_index_compatibility` can name
pub data Problem : Type 0 where
  other_model other_dimension other_chunker other_backend : Problem

-- what it returns: nothing, that there is no provenance, or the problems
pub data Verdict : Type 0 where
  compatible unstamped : Verdict
  problems : List Problem → Verdict

-- `index_fingerprint` of the metadata of one chunk
pub record Fingerprint : Type 0 where
  pub embed_model : Option Value
  pub embed_dim : Option Value
  pub embed_backend : Option Value
  pub chunker : Option Value

unfoldable pub index_fingerprint : Option (Dict Text Value) → Option Fingerprint
index_fingerprint none = none
index_fingerprint (some m) = some (record {
  embed_model = lookup (codes "embed_model") m;
  embed_dim = lookup (codes "embed_dim") m;
  embed_backend = lookup (codes "embed_backend") m;
  chunker = lookup (codes "chunker_version") m;
})

abbrev pub is_text : Text → Option Value → Bool
is_text t (some (text s)) = s == t
is_text t _ = false

abbrev pub is_number : ℕ → Option Value → Bool
is_number n (some (number k)) = k == n
is_number n _ = false

-- a value that Python takes for true
abbrev pub truthy_value : Option Value → Bool
truthy_value none = false
truthy_value (some (text t)) = not (is_empty t)
truthy_value (some (number n)) = not (n == 0)

-- "unloaded" and "unknown" tell nothing about the weights
abbrev pub backend_known : Text → Bool
backend_known b = not (b == codes "unloaded" || b == codes "unknown")

abbrev pub unless : Bool → Problem → List Problem
unless true p = []
unless false p = p ∷ []

abbrev pub verdict_of : List Problem → Verdict
verdict_of [] = compatible
verdict_of (p ∷ ps) = problems (p ∷ ps)

abbrev pub backend_agrees : Provenance → Fingerprint → Bool
backend_agrees p fp =
    not (truthy_value fp.embed_backend && backend_known p.embed_backend)
    || is_text p.embed_backend fp.embed_backend

-- the fingerprint is of a sample that ChromaDB returned, or `none`
unfoldable pub check_index_compatibility : Provenance → Option (Dict Text Value) → Verdict
unfolding index_fingerprint
check_index_compatibility p sample = elim (index_fingerprint sample) [
  | none ↦ compatible
  | some fp ↦
      if not (is_some fp.embed_model)
      then unstamped
      else verdict_of (
          unless (is_text p.embed_model fp.embed_model) other_model
          ++ (unless (is_number p.embed_dim fp.embed_dim) other_dimension
              ++ (unless (is_number chunker_version fp.chunker) other_chunker
                  ++ unless (backend_agrees p fp) other_backend)))
]

all_agree :
    (stamp a b c d : Bool)
    → ((if not stamp
          then unstamped
          else verdict_of (
              unless a other_model
              ++ (unless b other_dimension ++ (unless c other_chunker ++ unless d other_backend))))
        ≡ compatible)
      ↔ ((stamp && (a && (b && (c && d)))) ≡ true)
all_agree true true true true true = ground arith
all_agree true true true true false = ground arith
all_agree true true true false d = ground arith
all_agree true true false c d = ground arith
all_agree true false b c d = ground arith
all_agree false a b c d = ground arith

-- A sample passes the check exactly if it is stamped, its model, dimension and chunker are the
-- configured ones, and its weights are, where both are known.
pub check_index_compatibility_lem :
    (p : Provenance) (m : Dict Text Value) (fp : Fingerprint)
    → index_fingerprint (some m) ≡ some fp
    → (check_index_compatibility p (some m) ≡ compatible) ↔ (
        (is_some fp.embed_model
          && (is_text p.embed_model fp.embed_model
              && (is_number p.embed_dim fp.embed_dim
                  && (is_number chunker_version fp.chunker && backend_agrees p fp))))
        ≡ true)
unfolding check_index_compatibility
check_index_compatibility_lem p m fp e =
    subst
      (λ o.
        (elim o [
          | none ↦ compatible
          | some f ↦
              if not (is_some f.embed_model)
              then unstamped
              else verdict_of (
                  unless (is_text p.embed_model f.embed_model) other_model
                  ++ (unless (is_number p.embed_dim f.embed_dim) other_dimension
                      ++ (unless (is_number chunker_version f.chunker) other_chunker
                          ++ unless (backend_agrees p f) other_backend)))
        ]
          ≡ compatible)
        ↔ ((is_some fp.embed_model
              && (is_text p.embed_model fp.embed_model
                  && (is_number p.embed_dim fp.embed_dim
                      && (is_number chunker_version fp.chunker && backend_agrees p fp))))
            ≡ true))
      (sym e)
      (all_agree (is_some fp.embed_model) (is_text p.embed_model fp.embed_model)
        (is_number p.embed_dim fp.embed_dim) (is_number chunker_version fp.chunker)
        (backend_agrees p fp))

-- `get_paper_chunk_counts`, over the papers of all chunks
unfoldable pub paper_chunk_counts : List (Option Text) → Dict Text ℕ → Dict Text ℕ
paper_chunk_counts [] counts = counts
paper_chunk_counts (found ∷ rest) counts =
    let pid = or_else found [] in
    paper_chunk_counts rest
      (if is_empty pid then counts else insert pid (or_else (lookup pid counts) 0 + 1) counts)

-- the metadata that `update_paper_metadata` writes, and the number of chunks
unfoldable pub update_paper_metadata :
    Dict Text Value → Dict Text (Dict Text Value) → Dict Text (Dict Text Value) × ℕ
unfolding merged
update_paper_metadata updates chunks = (map (λ r. (r.0, merged r.1 updates)) chunks, length chunks)

-- a row that a title is compared with
pub record Candidate : Type 0 where
  pub paper_id : Text
  pub title : Text
  pub year : Text

-- `ratio` is SequenceMatcher's for two titles, in parts of `one`, and `lower` is `str.lower`
module _ (ratio : Text → Text → ℕ) (lower : Text → Text) where
  abbrev pub norm : Text → Text
  norm t = lower (strip t)

  abbrev pub other_year : Text → Candidate → Bool
  other_year year row = not (is_empty year) && (not (is_empty row.year) && not (row.year == year))

  abbrev pub closeness : Text → Candidate → ℕ
  closeness title row = ratio (norm title) (norm row.title)

  -- the loop over the candidates, with `best_pid` and `best_ratio`
  unfoldable pub best_match : Text → Text → List Candidate → Option Text × ℕ → Option Text × ℕ
  best_match title year [] best = best
  best_match title year (row ∷ rows) best = best_match title year rows (
      if other_year year row || leb (closeness title row) best.1
      then best
      else (some row.paper_id, closeness title row))

  unfoldable pub find_similar_paper : Text → Text → ℕ → List Candidate → Option Text
  unfolding best_match
  find_similar_paper title year threshold rows =
      let (best_pid, best_ratio) = best_match title year rows (none, 0) in
      if leb threshold best_ratio then best_pid else none

  -- the best after one more candidate
  abbrev better : Text → Text → Candidate → Option Text × ℕ → Option Text × ℕ
  better title year row best =
      if other_year year row || leb (closeness title row) best.1
      then best
      else (some row.paper_id, closeness title row)

  better-le :
      (title year : Text) (row : Candidate) (best : Option Text × ℕ)
      → (best.1 ≤ (better title year row best).1)
        × (other_year year row ≡ false → closeness title row ≤ (better title year row best).1)
  better-le title year row best =
      go (other_year year row) (leb (closeness title row) best.1) (λ h. leb→le _ _ h)
        (λ h. ground arith)
    where
      go :
          (o l : Bool)
          → (l ≡ true → closeness title row ≤ best.1)
          → (l ≡ false → best.1 ≤ closeness title row)
          → (let next : Option Text × ℕ =
                (if o || l then best else (some row.paper_id, closeness title row)) in
              (best.1 ≤ next.1) × (o ≡ false → closeness title row ≤ next.1))
      go true l below above = (omega arith, λ h. cc)
      go false true below above = (omega arith, λ h. below refl)
      go false false below above = (above refl, λ h. omega arith)

  best_match-le :
      (title year : Text) (rows : List Candidate) (best : Option Text × ℕ)
      → best.1 ≤ (best_match title year rows best).1
  unfolding best_match
  best_match-le title year [] best = omega arith
  best_match-le title year (row ∷ rows) best = omega (
    arith,
    (better-le title year row best).0,
    best_match-le title year rows (better title year row best),
  )

  -- No candidate of the year is closer than the best one that was kept.
  pub best_match-closest :
      (title year : Text) (rows : List Candidate) (best : Option Text × ℕ)
      → All
          (λ row.
            other_year year row ≡ false → closeness title row ≤ (best_match title year rows best).1)
          rows
  unfolding best_match
  best_match-closest title year [] best = tt
  best_match-closest title year (row ∷ rows) best = (
    λ h. omega (
      arith,
      (better-le title year row best).1 h,
      best_match-le title year rows (better title year row best),
    ),
    best_match-closest title year rows (better title year row best),
  )
