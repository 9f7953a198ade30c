-- ===== src/Citation/Context.antt =====
-- rag.py: the numbers and the limits of `format_context`.
use indic_rag.Citation.{
  decimal, Meta, title_of, section_of, number_for, set_default, context_part, context_parts,
  join_lines, format_context,
}
use indic_rag.Citation.Numbering.{
  index_of, add_new, distinct_from, mem-add_new, index_of-distinct_from, enumerate,
  number_for-enumerate, set_default-enumerate,
}
use indic_rag.Base.{
  ==_refl, Bool-cases, Dict, List, Text, [], ap, arith, codes, inl, inr, leb, length, length-append,
  ltb, map, max, mem, refl, suc, sym, take, true, ℕ, ◌++◌, ◌+◌, ◌-◌, ◌||◌, ◌∙◌, ◌∷◌, ◌≡◌, ◌≤◌,
  nat_eq, string_eq, pair_eq, list_eq,
}

-- The number of a paper among the titles of a context.
abbrev pub number_in : List Text → Text → ℕ
number_in titles t = suc (index_of t (distinct_from [] titles))

abbrev pub titles_of : List (Text × Meta) → List Text
titles_of chunks = map (λ c. title_of c.1) chunks

pub mem-add_new_self : (t : Text) (known : List Text) → mem t (add_new t known) ≡ true
mem-add_new_self t known = ground (arith, mem-add_new t t known, ==_refl t)

pub set_default_next :
    (t : Text) (known : List Text) (nums : Dict Text ℕ)
    → nums ≡ enumerate 0 known
    → set_default t (number_for t nums) nums ≡ enumerate 0 (add_new t known)
set_default_next t known nums e =
    ap (λ n. set_default t (number_for t n) n) e ∙ set_default-enumerate t known

-- the number that a loop gives a title, when the loop goes on over `later`
pub number_for_final :
    (t : Text) (known later : List Text) (nums : Dict Text ℕ)
    → nums ≡ enumerate 0 known
    → number_for t nums ≡ suc (index_of t (distinct_from (add_new t known) later))
number_for_final t known later nums e =
    ap (number_for t) e
    ∙ number_for-enumerate t known
    ∙ ap suc (sym (index_of-distinct_from t (add_new t known) later (mem-add_new_self t known)))

-- A chunk as the prompt shows it, under a number.
abbrev pub numbered : ℕ → Text × Meta → Text
numbered n (chunk, m) =
    codes "["
    ++ (decimal n
        ++ (codes "] "
            ++ (title_of m
                ++ (codes " - " ++ (section_of m ++ (codes ":\n" ++ (chunk ++ codes "\n")))))))

-- The texts of a list, with line breaks between them.
abbrev pub lines : List Text → Text
lines [] = []
lines (p ∷ []) = p
lines (p ∷ q ∷ ps) = p ++ (codes "\n" ++ lines (q ∷ ps))

join_lines-lines : (parts : List (ℕ × Text)) → join_lines parts ≡ lines (map (λ p. p.1) parts)
unfolding join_lines
join_lines-lines [] = refl
join_lines-lines ((n, p) ∷ []) = refl
join_lines-lines ((n, p) ∷ (k, q) ∷ ps) =
    ap (λ s. p ++ (codes "\n" ++ s)) (join_lines-lines ((k, q) ∷ ps))

context_parts-numbered :
    (max_chunks max_length : ℕ) (chunks : List (Text × Meta)) (total used : ℕ) (known : List Text)
    (nums : Dict Text ℕ)
    → nums ≡ enumerate 0 known
    → (let parts = context_parts max_chunks max_length chunks total used nums in
        let kept = take (length parts) chunks in
        map (λ p. p.1) parts
        ≡ map
            (λ c. numbered (suc (index_of (title_of c.1) (distinct_from known (titles_of kept)))) c)
            kept)
unfolding context_parts context_part
context_parts-numbered max_chunks max_length [] total used known nums e = refl
context_parts-numbered max_chunks max_length ((chunk, m) ∷ rest) total used known nums e =
    elim (Bool-cases (leb max_chunks used || ltb max_length (total + length part))) [
      | inl full ↦ rw (full, context_parts) refl
      | inr room ↦
          rw (room, context_parts)
            (λ i.
              numbered (number_for_final t known kept nums e i) (chunk, m)
              ∷ context_parts-numbered max_chunks max_length rest (total + length part) (used + 1)
                  (add_new t known) nums' (set_default_next t known nums e) i)
    ]
  where
    t : Text
    t = title_of m

    part : Text
    part = context_part (number_for t nums) t (section_of m) chunk

    nums' : Dict Text ℕ
    nums' = set_default t (number_for t nums) nums

    kept : List Text
    kept = titles_of (
        take
          (length (context_parts max_chunks max_length rest (total + length part) (used + 1) nums'))
          rest)

-- The context is the text of the chunks that are kept, which are the first ones of those handed in,
-- one behind the other with a line break between two: each is headed by its title and section and by
-- the number of its paper among the papers of the chunks that are kept, so that what is cut off
-- behind them does not change a number.
pub format_context-numbers :
    (max_chunks max_length : ℕ) (chunks : List (Text × Meta))
    → (let (context, used) = format_context max_chunks max_length chunks in
        let kept = take used chunks in
        context ≡ lines (map (λ c. numbered (number_in (titles_of kept) (title_of c.1)) c) kept))
unfolding format_context
format_context-numbers max_chunks max_length chunks =
    join_lines-lines (context_parts max_chunks max_length chunks 0 0 [])
    ∙ ap lines (context_parts-numbered max_chunks max_length chunks 0 0 [] [] refl)

sum_lengths : List (ℕ × Text) → ℕ
sum_lengths [] = 0
sum_lengths ((n, p) ∷ ps) = length p + sum_lengths ps

context_parts_bounds :
    (max_chunks max_length : ℕ) (chunks : List (Text × Meta)) (total used : ℕ) (nums : Dict Text ℕ)
    → total ≤ max_length
    → used ≤ max_chunks
    → (let parts = context_parts max_chunks max_length chunks total used nums in
        (used + length parts ≤ max_chunks)
        × (total + sum_lengths parts ≤ max_length)
        × (length parts ≤ length chunks))
unfolding context_parts sum_lengths
context_parts_bounds max_chunks max_length [] total used nums h k = omega arith
context_parts_bounds max_chunks max_length ((chunk, m) ∷ rest) total used nums h k =
    let num = number_for (title_of m) nums in
    let part = context_part num (title_of m) (section_of m) chunk in
    ground (
      arith,
      context_parts_bounds max_chunks max_length rest (total + length part) (used + 1)
          (set_default (title_of m) num nums),
    )

length-join_lines :
    (parts : List (ℕ × Text))
    → length (join_lines parts) + 1 ≤ sum_lengths parts + max 1 (length parts)
unfolding join_lines sum_lengths
length-join_lines [] = omega arith
length-join_lines ((n, p) ∷ []) = omega arith
length-join_lines ((n, p) ∷ q ∷ ps) =
    omega (arith, length-append p (10 ∷ join_lines (q ∷ ps)), length-join_lines (q ∷ ps))

-- A context has at most `max_chunks` chunks, all of those handed in at most, and at most
-- `max_length` characters besides the line breaks that join the chunks.
pub format_context_bounds :
    (max_chunks max_length : ℕ) (chunks : List (Text × Meta))
    → (let (context, used) = format_context max_chunks max_length chunks in
        (used ≤ max_chunks) × (used ≤ length chunks) × (length context ≤ max_length + (used - 1)))
unfolding format_context
format_context_bounds max_chunks max_length chunks =
    let parts = context_parts max_chunks max_length chunks 0 0 [] in
    let b = context_parts_bounds max_chunks max_length chunks 0 0 [] (omega arith) (omega arith) in
    omega (arith, b, length-join_lines parts)
