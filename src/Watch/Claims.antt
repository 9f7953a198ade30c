-- ===== src/Watch/Claims.antt =====
-- persistence.py and watch_runner.py: who wins a claim, and what a sweep runs.
use indic_rag.Watch.{WatchRow, Watches, sql_equal, leased, claim_watch}
use indic_rag.Base.{
  List, Option, String, [], ap, arith, false, if◌then◌else◌, insert, lookup, lookup-insert_same,
  mem, refl, some, suc, true, ℕ, ◌∷◌, ◌≡◌, nat_eq, string_eq, pair_eq, list_eq,
}

-- Claims of one watch by several workers that have all read the same time, in the order in which the
-- database takes them: how many are won.
unfoldable pub winners : String → Option ℕ → List ℕ → Watches → ℕ
winners id expected [] table = 0
winners id expected (lease ∷ leases) table =
    let (won, claimed) = claim_watch id expected lease table in
    let rest = winners id expected leases claimed in if won then suc rest else rest

pub claim_watch_won :
    (id : String) (e lease : ℕ) (table : Watches) (row : WatchRow)
    → lookup id table ≡ some row
    → sql_equal row.next_run (some e) ≡ true
    → claim_watch id (some e) lease table ≡ (true, insert id (leased lease row) table)
unfolding claim_watch
claim_watch_won id e lease table row f h = rw (f, claim_watch, h) refl

pub claim_watch_lost :
    (id : String) (e lease : ℕ) (table : Watches) (row : WatchRow)
    → lookup id table ≡ some row
    → sql_equal row.next_run (some e) ≡ false
    → claim_watch id (some e) lease table ≡ (false, table)
unfolding claim_watch
claim_watch_lost id e lease table row f h = rw (f, claim_watch, h) refl

pub winners_none :
    (id : String) (e : ℕ) (leases : List ℕ) (table : Watches) (row : WatchRow)
    → lookup id table ≡ some row
    → sql_equal row.next_run (some e) ≡ false
    → winners id (some e) leases table ≡ 0
unfolding winners
winners_none id e [] table row f h = refl
winners_none id e (lease ∷ leases) table row f h =
    rw (claim_watch_lost id e lease table row f h) (winners_none id e leases table row f h)

-- However many workers have seen a watch due at the same time, and in whatever order their claims
-- arrive, exactly one of them wins: if the row is still at the time that they have read, and none of
-- their leases ends at that very time.
pub winners_one :
    (id : String) (e lease : ℕ) (leases : List ℕ) (table : Watches) (row : WatchRow)
    → lookup id table ≡ some row
    → row.next_run ≡ some e
    → mem e (lease ∷ leases) ≡ false
    → winners id (some e) (lease ∷ leases) table ≡ 1
unfolding winners
winners_one id e lease leases table row f g h =
    rw (claim_watch_won id e lease table row f (rw (g) (ground arith))) (
      ap suc (
        winners_none id e leases (insert id (leased lease row) table) (leased lease row)
          (lookup-insert_same id (leased lease row) table) (ground (arith, h))))
