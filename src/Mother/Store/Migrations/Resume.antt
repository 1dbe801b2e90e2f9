-- ===== src/Mother/Store/Migrations/Resume.antt =====
-- mother/store/migrate.go: a run that was cut short, and the next one.
use feast_watch.Prelude.{
  ℕ, zero, suc, ◌+◌, ◌≡◌, refl, ap, ◌∙◌, Bool, false, List, [], ◌∷◌, drop, Bool-cases, inl, inr,
  arith,
}
use feast_watch.Mother.Store.Migrations.{
  Database, migrations, apply_migration, migrate_from, migrate,
}

abbrev pub no_fault : ℕ → Bool
no_fault i = false

drop-rest {ℓ} :
    {A : Type ℓ} (n : ℕ) (xs : List A) (x : A) (rest : List A)
    → drop n xs ≡ x ∷ rest
    → drop (n + 1) xs ≡ rest
drop-rest zero xs x rest h = ap (drop 1) h
drop-rest (suc n) [] x rest h = cc
drop-rest (suc n) (y ∷ ys) x rest h =
    let next : suc n + 1 ≡ suc (n + 1) = omega arith in
    ap (λ k. drop k (y ∷ ys)) next ∙ drop-rest n ys x rest h

module _ {V : Type 0} (mul : V → ℕ → V) where
  -- The next run, which no transaction fails.
  again : Database V → Database V
  again db = (migrate mul no_fault db).database

  again-from :
      (i : ℕ) (rest : List (Database V → Database V)) (db : Database V)
      → db.user_version ≡ i
      → drop i (migrations mul) ≡ rest
      → again db ≡ (migrate_from mul no_fault i rest db).database
  unfolding again migrate
  again-from i rest db v r =
      ap (λ n. (migrate_from mul no_fault n (drop n (migrations mul)) db).database) v
      ∙ ap (λ ms. (migrate_from mul no_fault i ms db).database) r

  resume_from :
      (fails : ℕ → Bool) (i : ℕ) (rest : List (Database V → Database V)) (db : Database V)
      → db.user_version ≡ i
      → drop i (migrations mul) ≡ rest
      → again (migrate_from mul fails i rest db).database
        ≡ (migrate_from mul no_fault i rest db).database
  unfolding migrate_from
  resume_from fails i [] db v r = again-from i [] db v r
  resume_from fails i (run ∷ rest) db v r = elim (Bool-cases (fails i)) [
    | inl cut ↦ rw cut (again-from i (run ∷ rest) db v r)
    | inr good ↦ rw good (
        resume_from fails (i + 1) rest (apply_migration mul i run db) refl
          (drop-rest i (migrations mul) run rest r))
  ]

  -- Whichever migrations of a run fail: the next run that meets no fault leaves the database as one run
  -- without a fault would have left it from the start, so none is skipped and none is applied twice.
  pub migrate_resumes :
      (fails : ℕ → Bool) (db : Database V)
      → (migrate mul no_fault (migrate mul fails db).database).database
        ≡ (migrate mul no_fault db).database
  unfolding migrate again
  migrate_resumes fails db =
      resume_from fails db.user_version (drop db.user_version (migrations mul)) db refl refl
