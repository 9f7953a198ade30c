-- ===== src/Report/Plan.antt =====
-- report_runner.py: the outline of a review is short, without repeats, and never empty.

use indic_rag.Report.{distinct_titles, fallback_sections, plan_sections}
use indic_rag.Base.{
  ==_iff, ==_refl, Bool, List, Option, Text, Unique, [], arith, false, if◌then◌else◌, length,
  length-take-le, map, mem, none, or_text, refl, some, suc, take, true, zero, ℕ, ◌∷◌, ◌≡◌, ◌≢◌, ◌≤◌,
  nat_eq, string_eq, pair_eq, list_eq,
}

module _ (lower : Text → Text) where
  distinct_titles-fresh :
      (t : Text) (seen ss : List Text)
      → mem t seen ≡ true
      → mem t (map lower (distinct_titles lower seen ss)) ≡ false
  unfolding distinct_titles
  distinct_titles-fresh t seen [] h = refl
  distinct_titles-fresh t seen (s ∷ ss) h = ground (
    arith,
    distinct_titles-fresh t seen ss h,
    distinct_titles-fresh t (lower s ∷ seen) ss (ground (arith, h)),
    ==_iff (lower s) t,
  )

  distinct_titles-Unique :
      (seen ss : List Text) → Unique (map lower (distinct_titles lower seen ss))
  unfolding distinct_titles
  distinct_titles-Unique seen [] = tt
  distinct_titles-Unique seen (s ∷ ss) =
      kept (mem (lower s) seen) (distinct_titles-Unique seen ss) (
        distinct_titles-fresh (lower s) (lower s ∷ seen) ss (ground (arith, ==_refl (lower s))),
        distinct_titles-Unique (lower s ∷ seen) ss,
      )
    where
      kept :
          (b : Bool)
          → Unique (map lower (distinct_titles lower seen ss))
          → Unique (map lower (s ∷ distinct_titles lower (lower s ∷ seen) ss))
          → Unique (
              map lower (
                if b
                then distinct_titles lower seen ss
                else s ∷ distinct_titles lower (lower s ∷ seen) ss))
      kept true skipped new = skipped
      kept false skipped new = new

  distinct_titles-ne-nil : (ss : List Text) → ss ≢ [] → distinct_titles lower [] ss ≢ []
  unfolding distinct_titles
  distinct_titles-ne-nil [] h = h
  distinct_titles-ne-nil (s ∷ ss) h = ground arith

  mem-take :
      (t : Text) (n : ℕ) (ss : List Text)
      → mem t (map lower ss) ≡ false
      → mem t (map lower (take n ss)) ≡ false
  mem-take t zero ss h = refl
  mem-take t (suc n) [] h = refl
  mem-take t (suc n) (s ∷ ss) h = ground (arith, mem-take t n ss)

  take-Unique : (n : ℕ) (ss : List Text) → Unique (map lower ss) → Unique (map lower (take n ss))
  take-Unique zero ss u = tt
  take-Unique (suc n) [] u = tt
  take-Unique (suc n) (s ∷ ss) u = (mem-take (lower s) n ss u.0, take-Unique n ss u.1)

  take-ne-nil : (n : ℕ) (ss : List Text) → 1 ≤ n → ss ≢ [] → take n ss ≢ []
  take-ne-nil zero ss h ne = absurd (omega arith)
  take-ne-nil (suc n) [] h ne = ne
  take-ne-nil (suc n) (s ∷ ss) h ne = ground arith

module _ (loads : Text → Option (List (Option Text))) (lower : Text → Text) where
  fallback_sections-ne-nil :
      (english : Bool) (reply : Option Text) → fallback_sections loads lower english reply ≢ []
  unfolding fallback_sections
  fallback_sections-ne-nil english none = ground arith
  fallback_sections-ne-nil english (some raw) = ground arith

  or_text-ne-nil : (a b : List Text) → b ≢ [] → or_text a b ≢ []
  or_text-ne-nil [] b h = h
  or_text-ne-nil (x ∷ a) b h = ground arith

  -- Whatever the planner and the translator reply, or fail to reply, the outline has at least one
  -- title and at most the number allowed, if that is positive, and no title twice but for its case.
  pub plan_sections-IsOutline :
      (english : Bool) (reply translation : Option Text) (max_sections : ℕ)
      → 1 ≤ max_sections
      → (let outline = plan_sections loads lower english reply translation max_sections in
          (outline ≢ []) × (length outline ≤ max_sections) × Unique (map lower outline))
  unfolding plan_sections
  plan_sections-IsOutline english reply translation max_sections h = (
    take-ne-nil lower max_sections _ h (
        distinct_titles-ne-nil lower _
          (or_text-ne-nil _ _ (fallback_sections-ne-nil english translation))),
    length-take-le max_sections _,
    take-Unique lower max_sections _ (distinct_titles-Unique lower [] _),
  )
