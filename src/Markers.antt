-- ===== src/Markers.antt =====
-- rag.py and report_runner.py: the inline citation markers of a text, and the rewriting of their
-- numbers. `digit` is the Unicode database's value of a decimal digit, which `\d` and `int` read.
pub mod Pieces
pub mod Agree
pub mod Remapped
pub mod Rewritten
pub mod RoundTrip
use indic_rag.Citation.{decimal}
use indic_rag.Base.{
  Bool, List, Option, Text, [], ap, false, if◌then◌else◌, inl, is_some, is_space, leb, length, map,
  mem, none, not, some, strip, suc, take, true, zero, ℕ, ◌*◌, ◌++◌, ◌+◌, ◌-◌, ◌==◌, ◌>>=◌, ◌||◌,
  ◌∷◌, nat_eq, string_eq, pair_eq, list_eq,
}

-- where in `\d+(?:\s*,\s*\d+)*` the reader is
pub data Mode : Type 0 where
  at_number in_number after_number after_comma : Mode

-- a match of the pattern at the start of a text: `group(1)`, the numbers, and what follows `]`
pub record Found : Type 0 where
  pub lead : Text
  pub group : Text
  pub rest : Text

-- what `re.sub` passes over: a character outside every match, or a match, with the test
-- `rest == '' or rest[0] == '\n'` of the text behind it
pub data Piece : Type 0 where
  plain : ℕ → Piece
  marker : Text → Text → Bool → Piece

abbrev pub is_blank : ℕ → Bool
is_blank c = c == b' ' || c == b'\t'

-- `[ \t]*`, greedily
unfoldable pub blanks : Text → Text × Text
blanks [] = ([], [])
blanks (c ∷ s) =
    let (taken, rest) = blanks s in if is_blank c then (c ∷ taken, rest) else ([], c ∷ s)

unfoldable pub line_end : Text → Text → Text × Text
unfolding blanks
line_end taken [] = (taken, [])
line_end taken (c ∷ s) =
    let (more, rest) = blanks s in if c == b'\n' then (taken ++ c ∷ more, rest) else (taken, c ∷ s)

-- `[ \t]*\n?[ \t]*`
unfoldable pub leading : Text → Text × Text
unfolding blanks line_end
leading s = line_end (blanks s).0 (blanks s).1

abbrev pub ends_line : Text → Bool
ends_line [] = true
ends_line (c ∷ s) = c == b'\n'

-- `s.split(",")`, with the part read so far
unfoldable pub split_commas : Text → Text → List Text
split_commas part [] = part ∷ []
split_commas part (c ∷ s) =
    let ended = split_commas [] s in
    let longer = split_commas (part ++ c ∷ []) s in if c == b',' then part ∷ ended else longer

abbrev pub parts_of : Text → List Text
parts_of = split_commas []

unfoldable pub closes : Mode → ℕ → Bool
closes in_number c = c == b']'
closes _ c = false

unfoldable pub piece_of : ℕ → Option Found → Piece
piece_of c none = plain c
piece_of c (some f) = marker f.lead f.group (ends_line f.rest)

-- how much of the match lies behind its first character
unfoldable pub skip_of : Option Found → ℕ
skip_of none = 0
skip_of (some f) = length f.lead + length f.group + 1

module _ (digit : ℕ → Option ℕ) where
  abbrev pub is_digit : ℕ → Bool
  is_digit c = is_some (digit c)

  unfoldable pub next : Mode → ℕ → Option Mode
  next at_number c = if is_digit c then some in_number else none
  next in_number c =
      if is_digit c
      then some in_number
      else if is_space c
      then some after_number
      else if c == b','
      then some after_comma
      else none
  next after_number c =
      if is_space c then some after_number else if c == b',' then some after_comma else none
  next after_comma c =
      if is_space c then some after_comma else if is_digit c then some in_number else none

  -- the numbers up to `]`, and what follows it
  unfoldable pub read_group : Mode → Text → Option (Text × Text)
  unfolding next closes
  read_group m [] = none
  read_group m (c ∷ s) =
      let more = (do n ← next m c; (group, rest) ← read_group n s; some (c ∷ group, rest)) in
      if closes m c then some ([], s) else more

  unfoldable pub open_at : Text → Text → Option Found
  unfolding read_group
  open_at lead [] = none
  open_at lead (c ∷ s) =
      let found = (do
        (group, rest) ← read_group at_number s
        some (record { lead = lead; group = group; rest = rest })) in
      if c == b'[' then found else none

  -- a match at the start: of `_CITE_MARKER_RE`, or of the pattern of `extract_citations`, which has
  -- no leading blanks
  unfoldable pub match_at : Bool → Text → Option Found
  unfolding open_at leading
  match_at true s = open_at (leading s).0 (leading s).1
  match_at false s = open_at [] s

  -- the scan of `re.sub` and `re.finditer`, which is inside a match for `skip` more characters
  unfoldable pub pieces : Bool → ℕ → Text → List Piece
  unfolding match_at piece_of skip_of
  pieces with_lead skip [] = []
  pieces with_lead zero (c ∷ s) =
      let found = match_at with_lead (c ∷ s) in
      piece_of c found ∷ pieces with_lead (skip_of found) s
  pieces with_lead (suc skip) (c ∷ s) = pieces with_lead skip s

  unfoldable pub value : Text → ℕ → Option ℕ
  value [] n = some n
  value (c ∷ s) n = do d ← digit c; value s (n * 10 + d)

  -- `int(s)`, on a text of decimal digits; more than 4300 of them are a ValueError
  unfoldable pub int_of : Text → Option ℕ
  unfolding value
  int_of [] = none
  int_of (c ∷ s) = if leb (length (c ∷ s)) 4300 then value (c ∷ s) 0 else none

-- the loop over `group.split(",")`, where `number` looks a stripped part up
unfoldable pub remapped : (Text → Option ℕ) → List Text → List ℕ → List ℕ
remapped number [] mapped = mapped
remapped number (part ∷ parts) mapped = remapped number parts (elim (number (strip part)) [
  | none ↦ mapped
  | some n ↦ if mem n mapped then mapped else mapped ++ n ∷ []
])

-- `', '.join(str(n) for n in mapped)`
unfoldable pub join_numbers : List ℕ → Text
join_numbers [] = []
join_numbers (n ∷ []) = decimal n
join_numbers (n ∷ k ∷ ns) = decimal n ++ b',' ∷ b' ' ∷ join_numbers (k ∷ ns)

unfoldable pub shown : Text → Bool → List ℕ → Text
unfolding join_numbers
shown lead ends [] = if not (mem b'\n' lead) then [] else if ends then [] else b'\n' ∷ []
shown lead ends (n ∷ ns) = lead ++ b'[' ∷ (join_numbers (n ∷ ns) ++ b']' ∷ [])

-- `_repl`
unfoldable pub repl : (Text → Option ℕ) → Piece → Text
unfolding remapped shown
repl number (plain c) = c ∷ []
repl number (marker lead group ends) = shown lead ends (remapped number (parts_of group) [])

unfoldable pub replace_all : (Text → Option ℕ) → List Piece → Text
unfolding repl
replace_all number [] = []
replace_all number (p ∷ ps) = repl number p ++ replace_all number ps

-- the numbers' texts of every match
unfoldable pub groups_of : List Piece → List Text
groups_of [] = []
groups_of (plain c ∷ ps) = groups_of ps
groups_of (marker lead group ends ∷ ps) = group ∷ groups_of ps
