-- ===== src/Sparse/Live.antt =====
-- bm25_search.py: sums over the slots that are not tombstones.
use indic_rag.Sparse.{Slot}
use indic_rag.Base.{
  List, [], ap, arith, false, get_elem?, if◌then◌else◌, length, mem, refl, some, subst, suc, zero,
  ℕ, ◌++◌, ◌+◌, ◌<◌, ◌∙◌, ◌∷◌, ◌≡◌, nat_eq, string_eq, pair_eq, list_eq,
}

module _ {Doc Term : Type 0} where
  unfoldable pub live_sum : (Slot Doc Term → ℕ) → ℕ → List ℕ → List (Slot Doc Term) → ℕ
  live_sum f idx deleted [] = 0
  live_sum f idx deleted (slot ∷ slots) =
      (if mem idx deleted then 0 else f slot) + live_sum f (suc idx) deleted slots

  pub live_sum-append :
      (f : Slot Doc Term → ℕ) (idx : ℕ) (deleted : List ℕ) (slots : List (Slot Doc Term))
      (slot : Slot Doc Term)
      → live_sum f idx deleted (slots ++ slot ∷ [])
        ≡ live_sum f idx deleted slots + (if mem (idx + length slots) deleted then 0 else f slot)
  unfolding live_sum
  live_sum-append f idx deleted [] slot = ground arith
  live_sum-append f idx deleted (s ∷ slots) slot = omega (
    arith,
    live_sum-append f (suc idx) deleted slots slot,
    ap (λ n. if mem n deleted then 0 else f slot)
        (let next : idx + suc (length slots) ≡ suc idx + length slots = omega arith in next),
  )

  -- a tombstone before the slots changes nothing
  pub live_sum_before :
      (f : Slot Doc Term → ℕ) (idx k : ℕ) (deleted : List ℕ) (slots : List (Slot Doc Term))
      → k < idx
      → live_sum f idx (k ∷ deleted) slots ≡ live_sum f idx deleted slots
  unfolding live_sum
  live_sum_before f idx k deleted [] h = refl
  live_sum_before f idx k deleted (s ∷ slots) h =
      ground (arith, live_sum_before f (suc idx) k deleted slots)

  pub live_sum-tombstone :
      (f : Slot Doc Term → ℕ) (idx k : ℕ) (deleted : List ℕ) (slots : List (Slot Doc Term))
      (slot : Slot Doc Term)
      → get_elem? slots k ≡ some slot
      → mem (idx + k) deleted ≡ false
      → live_sum f idx ((idx + k) ∷ deleted) slots + f slot ≡ live_sum f idx deleted slots
  unfolding live_sum
  live_sum-tombstone f idx k deleted [] slot h live = cc
  live_sum-tombstone f idx zero deleted (s ∷ slots) slot h live =
      ground (arith, live_sum_before f (suc idx) idx deleted slots)
  live_sum-tombstone f idx (suc k) deleted (s ∷ slots) slot h live =
      ground (arith, live_sum-tombstone f (suc idx) k deleted slots slot)

  -- the same for all the slots of an index
  pub live_sum-bury :
      (f : Slot Doc Term → ℕ) (k : ℕ) (deleted : List ℕ) (slots : List (Slot Doc Term))
      (slot : Slot Doc Term)
      → get_elem? slots k ≡ some slot
      → mem k deleted ≡ false
      → live_sum f 0 (k ∷ deleted) slots + f slot ≡ live_sum f 0 deleted slots
  live_sum-bury f k deleted slots slot h alive =
      let from_zero : 0 + k ≡ k = omega arith in
      subst (λ n. live_sum f 0 (n ∷ deleted) slots + f slot ≡ live_sum f 0 deleted slots) from_zero
        (live_sum-tombstone f 0 k deleted slots slot h (ap (λ n. mem n deleted) from_zero ∙ alive))

  pub live_sum-append_new :
      (f : Slot Doc Term → ℕ) (deleted : List ℕ) (slots : List (Slot Doc Term))
      (slot : Slot Doc Term)
      → mem (length slots) deleted ≡ false
      → live_sum f 0 deleted (slots ++ slot ∷ []) ≡ live_sum f 0 deleted slots + f slot
  live_sum-append_new f deleted slots slot fresh =
      let from_zero : 0 + length slots ≡ length slots = omega arith in
      ground (arith, live_sum-append f 0 deleted slots slot, ap (λ n. mem n deleted) from_zero)

  pub live_sum_ext :
      (f g : Slot Doc Term → ℕ) (idx : ℕ) (deleted : List ℕ) (slots : List (Slot Doc Term))
      → ((s : Slot Doc Term) → f s ≡ g s)
      → live_sum f idx deleted slots ≡ live_sum g idx deleted slots
  unfolding live_sum
  live_sum_ext f g idx deleted [] h = refl
  live_sum_ext f g idx deleted (s ∷ slots) h =
      ground (arith, h s, live_sum_ext f g (suc idx) deleted slots h)
