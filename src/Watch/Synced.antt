-- ===== src/Watch/Synced.antt =====
-- persistence.py: the column `next_run` of a watch against its copy in the JSON value.
use indic_rag.Watch.{
  Topic, WatchRow, Watches, save_watch, delete_watch, sql_equal, leased, claim_watch,
}
use indic_rag.Base.{
  Bool-cases, Option, Option-cases, String, Unique, arith, inl, inr, insert, insert-Unique, keys,
  lookup, lookup-insert, lookup-remove, none, refl, remove-Unique, some, string_eq, subst, ℕ, ◌==◌,
  ◌≡◌, nat_eq, pair_eq, list_eq,
}

-- the id in the value is the key, and the copy of the time is the column
abbrev pub IsGood : String → Option WatchRow → Type 0
IsGood id none = Unit
IsGood id (some row) = (row.value.id ≡ id) × (row.value.next_run ≡ row.next_run)

pub record IsSynced (table : Watches) : Type 0 where
  pub good : (id : String) → IsGood id (lookup id table)
  pub distinct : Unique (keys table)

pub insert-IsSynced :
    (id : String) (row : WatchRow) (table : Watches)
    → IsGood id (some row)
    → IsSynced table
    → IsSynced (insert id row table)
insert-IsSynced id row table g v = record {
  good = λ j. elim (Bool-cases (id == j)) [
    | inl e ↦
        rw (lookup-insert id j row table, e) (ground (arith, g, e, string_eq.beq_iff id j), g.1)
    | inr e ↦ rw (lookup-insert id j row table, e) (v.good j)
  ];
  distinct = insert-Unique id row table v.distinct;
}

pub save_watch-IsSynced :
    (w : Topic) (table : Watches) → IsSynced table → IsSynced (save_watch w table)
unfolding save_watch
save_watch-IsSynced w table v = insert-IsSynced w.id _ table (refl, refl) v

pub delete_watch-IsSynced :
    (id : String) (table : Watches) → IsSynced table → IsSynced (delete_watch id table)
unfolding delete_watch
delete_watch-IsSynced id table v = record {
  good = λ j. elim (Bool-cases (id == j)) [
    | inl e ↦ rw (lookup-remove id j table, e) tt
    | inr e ↦ rw (lookup-remove id j table, e) (v.good j)
  ];
  distinct = remove-Unique id table v.distinct;
}

pub IsGood-row :
    (id : String) (row : WatchRow) (table : Watches)
    → IsSynced table
    → lookup id table ≡ some row
    → IsGood id (some row)
IsGood-row id row table v e = subst (IsGood id) e (v.good id)

pub claim_watch-IsSynced :
    (id : String) (expected : Option ℕ) (lease : ℕ) (table : Watches)
    → IsSynced table
    → IsSynced (claim_watch id expected lease table).1
unfolding claim_watch
claim_watch-IsSynced id expected lease table v = elim (Option-cases (lookup id table)) [
  | inl e ↦ rw (e, claim_watch) v
  | inr (row, e) ↦ elim (Bool-cases (sql_equal row.next_run expected)) [
    | inl f ↦
        rw (e, claim_watch, f)
          (insert-IsSynced id (leased lease row) table ((IsGood-row id row table v e).0, refl) v)
    | inr f ↦ rw (e, claim_watch, f) v
  ]
]
