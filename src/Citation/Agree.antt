-- ===== src/Citation/Agree.antt =====
-- rag.py and verify.py: the citation map and the chunk map beside the numbers of the prompt.
use mathlib.Core.Path.{subst}
use mathlib.Core.List.{append-nil, append_assoc}
use indic_rag.Citation.{
  Meta, title_of, number_for, set_default, number_metas, citation_number_map, paper_chunks,
  paper_chunk_map,
}
use indic_rag.Citation.Numbering.{
  index_of, add_new, distinct_from, index_of-lt, index_of-append, mem-distinct_from, enumerate,
  length-enumerate, lookup-enumerate,
}
use indic_rag.Citation.Context.{number_in, titles_of, set_default_next, number_for_final}
use indic_rag.Base.{
  ==_iff, Bool, Bool-cases, Dict, List, Option, Text, [], ap, arith, false, if◌then◌else◌, inl, inr,
  insert, is_some, length, lookup, lookup-insert, map, mem, mem-append, none, or_else, refl, some,
  suc, sym, true, ℕ, ◌++◌, ◌+◌, ◌==◌, ◌∙◌, ◌∷◌, ◌≡◌, nat_eq, string_eq, pair_eq, list_eq,
}

-- every known title has a representative of its own title
abbrev Represents : Dict ℕ Meta → List Text → Type 0
Represents metas known =
    (t : Text)
    → mem t known ≡ true
    → (m : Meta) × (lookup (suc (index_of t known)) metas ≡ some m) × (title_of m ≡ t)

Represents-new :
    (metas : Dict ℕ Meta) (known : List Text) (m : Meta) (num : ℕ)
    → mem (title_of m) known ≡ false
    → num ≡ suc (length known)
    → Represents metas known
    → Represents (insert num m metas) (known ++ title_of m ∷ [])
Represents-new metas known m num new e r t h = elim (Bool-cases (mem t known)) [
  | inl old ↦
      let (m', found, same) = r t old in
      (
        m',
        ground (
          arith,
          index_of-append t known (title_of m ∷ []),
          index_of-lt t known old,
          lookup-insert num (suc (index_of t known)) m metas,
        ),
        same,
      )
  | inr fresh ↦
      let this : title_of m ≡ t =
        (==_iff (title_of m) t).0 (ground (arith, mem-append t known (title_of m ∷ []))) in
      (
        m,
        ground (
          arith,
          this,
          index_of-append t known (title_of m ∷ []),
          ==_iff (title_of m) t,
          lookup-insert num (suc (length known)) m metas,
        ),
        this,
      )
]

seen_iff :
    (t : Text) (known : List Text) (nums : Dict Text ℕ)
    → nums ≡ enumerate 0 known
    → is_some (lookup t nums) ≡ mem t known
seen_iff t known nums e =
    ap (λ n. is_some (lookup t n)) e ∙ ground (arith, lookup-enumerate t 0 known)

length_nums :
    (known : List Text) (nums : Dict Text ℕ) → nums ≡ enumerate 0 known → length nums ≡ length known
length_nums known nums e = ap length e ∙ length-enumerate 0 known

unseen_number :
    (t : Text) (nums : Dict Text ℕ) (n : ℕ) (o : Option ℕ)
    → (if is_some o then nums else insert t n nums)
      ≡ (if is_some o then nums else insert t (or_else o n) nums)
unseen_number t nums n none = refl
unseen_number t nums n (some k) = refl

pub next_nums :
    (t : Text) (known : List Text) (nums : Dict Text ℕ)
    → nums ≡ enumerate 0 known
    → (if is_some (lookup t nums) then nums else insert t (length nums + 1) nums)
      ≡ enumerate 0 (add_new t known)
next_nums t known nums e = same ∙ set_default_next t known nums e
  where
    same :
        (if is_some (lookup t nums) then nums else insert t (length nums + 1) nums)
        ≡ set_default t (number_for t nums) nums
    same = unfold set_default number_for in unseen_number t nums (length nums + 1) (lookup t nums)

next_Represents :
    (m : Meta) (known : List Text) (num : ℕ) (metas : Dict ℕ Meta) (b : Bool)
    → mem (title_of m) known ≡ b
    → num ≡ suc (length known)
    → Represents metas known
    → Represents
        (if b then metas else insert num m metas)
        (if b then known else known ++ title_of m ∷ [])
next_Represents m known num metas true h e r = r
next_Represents m known num metas false h e r = Represents-new metas known m num h e r

number_metas-Represents :
    (ms : List Meta) (known : List Text) (nums : Dict Text ℕ) (metas : Dict ℕ Meta)
    → nums ≡ enumerate 0 known
    → Represents metas known
    → Represents (number_metas ms nums metas) (distinct_from known (map title_of ms))
unfolding number_metas
number_metas-Represents [] known nums metas e r = r
number_metas-Represents (m ∷ ms) known nums metas e r =
    number_metas-Represents ms (add_new (title_of m) known) _ _
      (next_nums (title_of m) known nums e)
      (subst
        (λ b.
          Represents (if b then metas else insert (length nums + 1) m metas)
            (add_new (title_of m) known))
        (sym (seen_iff (title_of m) known nums e))
        (next_Represents m known (length nums + 1) metas (mem (title_of m) known) refl
          (omega (arith, length_nums known nums e)) r))

-- Every chunk's number, as the prompt shows it, resolves in the citation map to a chunk of the same
-- paper.
pub citation_number_map-resolves :
    (metadatas : List Meta) (m : Meta)
    → mem (title_of m) (map title_of metadatas) ≡ true
    → (m' : Meta) × (lookup
          (number_in (map title_of metadatas) (title_of m))
          (citation_number_map metadatas)
        ≡ some m')
      × (title_of m' ≡ title_of m)
unfolding citation_number_map
citation_number_map-resolves metadatas m h =
    number_metas-Represents metadatas [] [] [] refl (λ t never. cc) (title_of m)
      (mem-distinct_from (title_of m) [] (map title_of metadatas) ∙ h)

-- the chunks of one number, with their indexes from `idx` on
abbrev pub chunks_with : ℕ → (Text → ℕ) → ℕ → List (Text × Meta) → List (ℕ × Text)
chunks_with n number idx [] = []
chunks_with n number idx ((chunk, m) ∷ rest) =
    if number (title_of m) == n
    then (idx, chunk) ∷ chunks_with n number (suc idx) rest
    else chunks_with n number (suc idx) rest

paper_chunks_lem :
    (n idx : ℕ) (chunks : List (Text × Meta)) (known : List Text) (nums : Dict Text ℕ)
    (found : Dict ℕ (List (ℕ × Text)))
    → nums ≡ enumerate 0 known
    → or_else (lookup n (paper_chunks idx chunks nums found)) []
      ≡ or_else (lookup n found) []
        ++ chunks_with n (λ t. suc (index_of t (distinct_from known (titles_of chunks)))) idx chunks
unfolding paper_chunks
paper_chunks_lem n idx [] known nums found e = sym (append-nil _)
paper_chunks_lem n idx ((chunk, m) ∷ rest) known nums found e =
    paper_chunks_lem n (suc idx) rest (add_new t known) (set_default t num nums) found'
      (set_default_next t known nums e)
    ∙ file (num == n) refl
  where
    t : Text
    t = title_of m

    num : ℕ
    num = number_for t nums

    found' : Dict ℕ (List (ℕ × Text))
    found' = insert num (or_else (lookup num found) [] ++ (idx, chunk) ∷ []) found

    number : Text → ℕ
    number u = suc (index_of u (distinct_from (add_new t known) (titles_of rest)))

    later : List (ℕ × Text)
    later = chunks_with n number (suc idx) rest

    given : num ≡ number t
    given = number_for_final t known (titles_of rest) nums e

    file :
        (b : Bool)
        → (num == n) ≡ b
        → or_else (lookup n found') [] ++ later
          ≡ or_else (lookup n found) [] ++ (if number t == n then (idx, chunk) ∷ later else later)
    file true h =
        rw
          (
            lookup-insert num n (or_else (lookup num found) [] ++ (idx, chunk) ∷ []) found,
            h,
            ← given,
            h,
            (==_iff num n).0 h,
          )
          (append_assoc (or_else (lookup n found) []) ((idx, chunk) ∷ []) later)
    file false h =
        rw
          (
            lookup-insert num n (or_else (lookup num found) [] ++ (idx, chunk) ∷ []) found,
            h,
            ← given,
            h,
          )
          refl

-- The faithfulness check finds under a number exactly the chunks whose paper has that number in the
-- prompt, in order and with their indexes.
pub paper_chunk_map-chunks_with :
    (n : ℕ) (chunks : List (Text × Meta))
    → or_else (lookup n (paper_chunk_map chunks)) []
      ≡ chunks_with n (number_in (titles_of chunks)) 0 chunks
unfolding paper_chunk_map lookup
paper_chunk_map-chunks_with n chunks = paper_chunks_lem n 0 chunks [] [] [] refl
