-- ===== src/Markers/RoundTrip.antt =====
-- rag.py: the marker that is written for some numbers is read back as those numbers.
use mathlib.Core.List.{append-nil, append_assoc, reverse, reverse-append, reverse-reverse}
use indic_rag.Citation.{decimal, digits}
use indic_rag.Markers.{
  Mode, blanks, line_end, leading, split_commas, parts_of, closes, next, read_group, open_at,
  match_at, value, int_of, join_numbers, shown, at_number, in_number, after_number, after_comma,
}
use indic_rag.Base.{
  All, Bool-cases, List, Option, Text, [], ap, arith, false, inl, inr, is_space, left_strip, length,
  ltb, map, none, refl, some, strip, subst, suc, sym, true, zero, ℕ, ◌%◌, ◌++◌, ◌+◌, ◌-◌, ◌/◌, ◌<◌,
  ◌>>=◌, ◌∙◌, ◌∷◌, ◌≡◌, ◌≢◌, ◌≤◌, ◌⊎◌,
}

-- the Unicode database knows the ten ASCII digits, and the comma is none
pub record KnowsAscii (digit : ℕ → Option ℕ) : Type 0 where
  pub digit_is : (k : ℕ) → k < 10 → digit (k + 48) ≡ some k
  pub comma_none : digit b',' ≡ none

-- the characters of a decimal print
abbrev IsAscii : ℕ → Type 0
IsAscii c = (48 ≤ c) × (c < 58)

digits-IsAscii : (f n : ℕ) (acc : Text) → All IsAscii acc → All IsAscii (digits f n acc)
unfolding digits
digits-IsAscii zero n acc h = h
digits-IsAscii (suc f) n acc h = elim (Bool-cases (ltb n 10)) [
  | inl last ↦ ground (arith, h)
  | inr more ↦
      rw more (digits-IsAscii f (n / 10) ((n % 10 + 48) ∷ acc) ((omega arith, omega arith), h))
]

digits-ne-nil : (f n : ℕ) (acc : Text) → acc ≢ [] → digits f n acc ≢ []
unfolding digits
digits-ne-nil zero n acc h = h
digits-ne-nil (suc f) n acc h = ground (arith, digits-ne-nil f (n / 10) ((n % 10 + 48) ∷ acc))

decimal-ne-nil : (n : ℕ) → decimal n ≢ []
unfolding digits
decimal-ne-nil n = ground (arith, digits-ne-nil n (n / 10) ((n % 10 + 48) ∷ []))

left_strip-IsAscii : (s : Text) → All IsAscii s → left_strip s ≡ s
unfolding left_strip is_space
left_strip-IsAscii [] h = refl
left_strip-IsAscii (c ∷ s) h = ground arith

All-append : (s t : Text) → All IsAscii s → All IsAscii t → All IsAscii (s ++ t)
All-append [] t h k = k
All-append (c ∷ s) t h k = (h.0, All-append s t h.1 k)

All-reverse : (s : Text) → All IsAscii s → All IsAscii (reverse s)
All-reverse [] h = tt
All-reverse (c ∷ s) h =
    subst (All IsAscii) (sym (reverse-append (c ∷ []) s))
      (All-append (reverse s) (c ∷ []) (All-reverse s h.1) (h.0, tt))

strip-IsAscii : (s : Text) → All IsAscii s → strip s ≡ s
unfolding strip
strip-IsAscii s h =
    ap (λ t. reverse (left_strip (reverse t))) (left_strip-IsAscii s h)
    ∙ ap reverse (left_strip-IsAscii (reverse s) (All-reverse s h))
    ∙ reverse-reverse s

split_commas-digits :
    (s part t : Text) → All IsAscii s → split_commas part (s ++ t) ≡ split_commas (part ++ s) t
unfolding split_commas
split_commas-digits [] part t h = ap (λ p. split_commas p t) (sym (append-nil part))
split_commas-digits (c ∷ s) part t h =
    ground (arith, split_commas-digits s (part ++ c ∷ []) t h.1, append_assoc part (c ∷ []) s)

module _ (digit : ℕ → Option ℕ) (knows : KnowsAscii digit) where
  digit_ascii : (c : ℕ) → IsAscii c → digit c ≡ some (c - 48)
  digit_ascii c h =
      let back : c ≡ (c - 48) + 48 = omega arith in
      ap digit back ∙ knows.digit_is (c - 48) (omega arith)

  -- The digits of a number have its value.
  value-digits : (f n : ℕ) (acc : Text) → n < f → value digit (digits f n acc) 0 ≡ value digit acc n
  unfolding value digits
  value-digits zero n acc h = absurd (omega arith)
  value-digits (suc f) n acc h = elim (Bool-cases (ltb n 10)) [
    | inl last ↦ ground (arith, last, knows.digit_is n)
    | inr more ↦ rw more (
        value-digits f (n / 10) ((n % 10 + 48) ∷ acc) (ground (arith, more))
        ∙ rw (knows.digit_is (n % 10) (omega arith)) (ap (value digit acc) (omega arith)))
  ]

  int_of-value : (s : Text) → s ≢ [] → length s ≤ 4300 → int_of digit s ≡ value digit s 0
  unfolding int_of
  int_of-value [] h fits = absurd (h refl)
  int_of-value (c ∷ s) h fits = ground arith

  int_of-decimal : (n : ℕ) → length (decimal n) ≤ 4300 → int_of digit (decimal n) ≡ some n
  unfolding value
  int_of-decimal n fits =
      int_of-value (decimal n) (decimal-ne-nil n) fits ∙ value-digits (suc n) n [] (omega arith)

  read_group_digits :
      (d t g r : Text)
      → All IsAscii d
      → read_group digit in_number t ≡ some (g, r)
      → read_group digit in_number (d ++ t) ≡ some (d ++ g, r)
  unfolding read_group next closes
  read_group_digits [] t g r h e = e
  read_group_digits (c ∷ d) t g r h e =
      ground (arith, read_group_digits d t g r h.1 e, digit_ascii c h.0)

  -- the numbers' texts begin in these modes
  Begins : Mode → Type 0
  Begins m = (m ≡ at_number) ⊎ (m ≡ after_comma)

  read_group_first :
      (m : Mode) (d t g r : Text)
      → Begins m
      → All IsAscii d
      → d ≢ []
      → read_group digit in_number t ≡ some (g, r)
      → read_group digit m (d ++ t) ≡ some (d ++ g, r)
  unfolding read_group next closes is_space Begins
  read_group_first m [] t g r b h ne e = absurd (ne refl)
  read_group_first at_number (c ∷ d) t g r b h ne e =
      ground (arith, read_group_digits d t g r h.1 e, digit_ascii c h.0)
  read_group_first after_comma (c ∷ d) t g r b h ne e =
      ground (arith, read_group_digits d t g r h.1 e, digit_ascii c h.0)
  read_group_first in_number (c ∷ d) t g r b h ne e = ground arith
  read_group_first after_number (c ∷ d) t g r b h ne e = ground arith

  decimal-IsAscii : (n : ℕ) → All IsAscii (decimal n)
  decimal-IsAscii n = digits-IsAscii (suc n) n [] tt

  read_comma :
      (t g r : Text)
      → read_group digit after_comma t ≡ some (g, r)
      → read_group digit in_number (b',' ∷ b' ' ∷ t) ≡ some (b',' ∷ b' ' ∷ g, r)
  unfolding read_group next closes is_space
  read_comma t g r e = ground (arith, e, knows.comma_none)

  read_group-join_numbers :
      (m : Mode) (n : ℕ) (ns : List ℕ) (rest : Text)
      → Begins m
      → read_group digit m (join_numbers (n ∷ ns) ++ b']' ∷ rest)
        ≡ some (join_numbers (n ∷ ns), rest)
  unfolding join_numbers
  read_group-join_numbers m n [] rest b =
      read_group_first m (decimal n) (b']' ∷ rest) [] rest b (decimal-IsAscii n) (decimal-ne-nil n)
        (unfold read_group closes in refl)
      ∙ ap (λ t. some (t, rest)) (append-nil (decimal n))
  read_group-join_numbers m n (k ∷ ns) rest b =
      ap (read_group digit m)
        (append_assoc (decimal n) (b',' ∷ b' ' ∷ join_numbers (k ∷ ns)) (b']' ∷ rest))
      ∙ read_group_first m (decimal n) _ (b',' ∷ b' ' ∷ join_numbers (k ∷ ns)) rest b
          (decimal-IsAscii n) (decimal-ne-nil n)
          (read_comma (join_numbers (k ∷ ns) ++ b']' ∷ rest) (join_numbers (k ∷ ns)) rest
            (read_group-join_numbers after_comma k ns rest (unfold Begins in inr refl)))

  -- texts of numbers that `int` takes
  abbrev pub Fits : ℕ → Type 0
  Fits n = length (decimal n) ≤ 4300

  parts_read :
      (lead : Text) (n : ℕ) (ns : List ℕ)
      → ((d : Text) → All IsAscii d → strip (lead ++ d) ≡ d)
      → All Fits (n ∷ ns)
      → map (λ part. int_of digit (strip part)) (split_commas lead (join_numbers (n ∷ ns)))
        ≡ map some (n ∷ ns)
  unfolding join_numbers split_commas strip
  parts_read lead n [] clean fits =
      ap (λ t. map (λ part. int_of digit (strip part)) (split_commas lead t))
        (sym (append-nil (decimal n)))
      ∙ ap (map (λ part. int_of digit (strip part)))
          (split_commas-digits (decimal n) lead [] (decimal-IsAscii n))
      ∙ ap (λ o. o ∷ [])
          (ap (int_of digit) (clean (decimal n) (decimal-IsAscii n)) ∙ int_of-decimal n fits.0)
  parts_read lead n (k ∷ ns) clean fits =
      ap (map (λ part. int_of digit (strip part))) (
        split_commas-digits (decimal n) lead (b',' ∷ b' ' ∷ join_numbers (k ∷ ns))
          (decimal-IsAscii n))
      ∙ λ i.
          (ap (int_of digit) (clean (decimal n) (decimal-IsAscii n)) ∙ int_of-decimal n fits.0) i
          ∷ parts_read (b' ' ∷ []) k ns blank_strip fits.1 i
    where
      blank_strip : (d : Text) → All IsAscii d → strip (b' ' ∷ d) ≡ d
      blank_strip d h = strip-IsAscii d h

  -- The marker that is written for some numbers, none too long for `int`, is read as a marker again,
  -- up to its own bracket whatever follows, and its parts are those numbers in their order.
  pub match_at-shown :
      (n : ℕ) (ns : List ℕ) (rest : Text)
      → All Fits (n ∷ ns)
      → (group : Text) × (match_at digit true (shown [] false (n ∷ ns) ++ rest)
          ≡ some (record { lead = []; group = group; rest = rest }))
        × (map (λ part. int_of digit (strip part)) (parts_of group) ≡ map some (n ∷ ns))
  unfolding shown match_at open_at leading line_end blanks Begins
  match_at-shown n ns rest fits = (
    join_numbers (n ∷ ns),
    ap (λ t. open_at digit [] (b'[' ∷ t)) (append_assoc (join_numbers (n ∷ ns)) (b']' ∷ []) rest)
        ∙ ap (λ o. o >>= λ p. some (record { lead = []; group = p.0; rest = p.1 }))
            (read_group-join_numbers at_number n ns rest (inl refl)),
    parts_read [] n ns strip-IsAscii fits,
  )
