-- ===== src/Tests/Caching.antt =====
-- Runs of the cache of cache.py.
use indic_rag.Cache.{TtlCache, init, pop_first, move_to_end, get, make_room, put, invalidate}
use indic_rag.Cache.Bounds.{IsValid}
use indic_rag.Cache.Trace.{Call, read, write, step, run, note, ideal, run_total, get_fresh}
use indic_rag.Base.{
  List, [], arith, insert, lookup, none, refl, remove, some, ℕ, ◌+◌, ◌∷◌, ◌≡◌, ◌≤◌, nat_eq,
  string_eq, pair_eq, list_eq,
}

program : Unit {0}
unfolding init pop_first move_to_end get make_room put invalidate step run note ideal lookup insert
    remove
program = tt

-- two entries are written, one is read, and a third pushes the other out
abbrev calls : List (Call ℕ ℕ)
calls = write 1 10 0 ∷ write 2 20 1 ∷ read 1 2 ∷ write 3 30 3 ∷ []

abbrev full : TtlCache ℕ ℕ
full = record {
  max_size = 2;
  ttl = 5;
  store = (1, (10, 0)) ∷ (3, (30, 3)) ∷ [];
  hits = 1;
  misses = 0;
}

run_calls : run calls (init 2 5) ≡ some full
unfolding program
run_calls = refl

read_late : (get 1 6 full).1 ≡ none
unfolding program
read_late = refl

read_found : (get 3 8 full).1 ≡ some 30
unfolding program
read_found = refl

run_total_example : (c : TtlCache ℕ ℕ) × (run calls (init 2 5) ≡ some c) × IsValid c
run_total_example = run_total 2 5 calls (omega arith)

get_fresh_example : (ts : ℕ) × (ideal 3 calls none ≡ some (30, ts)) × (8 ≤ ts + 5)
get_fresh_example = get_fresh 2 5 calls 3 8 full 30 (omega arith) run_calls read_found

-- what a third write leaves of the two keys
abbrev two : TtlCache ℕ ℕ
two = record {
  max_size = 2;
  ttl = 5;
  store = (2, (20, 1)) ∷ (1, (10, 0)) ∷ [];
  hits = 1;
  misses = 0;
}

put_third : put 3 30 3 two ≡ some full
unfolding program
put_third = refl
