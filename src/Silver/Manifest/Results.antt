-- ===== src/Silver/Manifest/Results.antt =====
-- What a transition of the processing manifest returns.
use fintech_payments_data_pl.Prelude.{
  String, ◌≡◌, refl, sym, ◌∙◌, ap, subst, true, none, some, List, Result, ok, err, Bool-cases,
  Option-cases, inl, inr, arith, ◌==◌, str_eq, ◌⊎◌,
}
use fintech_payments_data_pl.Prelude.Rows.{
  update_where, count_where, first_row-test, first_row-update_where,
}
use fintech_payments_data_pl.Silver.Models.{ProcessingStatus, ProcessingRun}
use fintech_payments_data_pl.Silver.Manifest.{
  Table, ProcessingManifestError, transitions, has_run_id, get, get_back, asserted, Update,
  is_target, write, update_run, transition,
}
use fintech_payments_data_pl.Silver.Manifest.Laws.{write-identity}

-- A transition that returns has read a row, its step is allowed, and what it returns is that row with
-- the status and the updates, now stored.
pub record Moves (id : String) (status : ProcessingStatus) (us : List Update) (t : Table)
    (r : ProcessingRun) (t' : Table) : Type 0 where
  pub before : ProcessingRun
  pub found : get id t ≡ some before
  pub step : transitions before.status status ≡ true
  pub wrote : r ≡ write status us before
  pub stored : get id t' ≡ some r

write-run_id :
    (id : String) (status : ProcessingStatus) (us : List Update) (r : ProcessingRun)
    → has_run_id id (write status us r) ≡ has_run_id id r
write-run_id id status us r = ap (λ i. str_eq i.0 id) (write-identity status us r)

own_target :
    (id : String) (r : ProcessingRun) → has_run_id id r ≡ true → is_target id r.status r ≡ true
own_target id r h = ground arith

updated_row :
    (id : String) (status : ProcessingStatus) (us : List Update) (t : Table) (r : ProcessingRun)
    → get id t ≡ some r
    → get id (update_where (is_target id r.status) (write status us) t) ≡ some (write status us r)
unfolding get
updated_row id status us t r found =
    first_row-update_where (has_run_id id) (is_target id r.status) (write status us) t r
      (write-run_id id status us) found (own_target id r (first_row-test (has_run_id id) t r found))

-- What the two sessions do from a row that was found.
transition_cases :
    (id : String) (status : ProcessingStatus) (us : List Update) (t : Table) (r : ProcessingRun)
    → get id t ≡ some r
    → ((e : ProcessingManifestError) × (transition id status us t ≡ (err e, t)))
      ⊎ ((transitions r.status status ≡ true)
          × (transition id status us t
              ≡ (ok (write status us r), update_where (is_target id r.status) (write status us) t)))
unfolding transition update_run get_back asserted
transition_cases id status us t r found = elim (Bool-cases (transitions r.status status)) [
  | inr refused ↦ inl (ProcessingManifestError.invalid_transition, rw (found, refused) refl)
  | inl step ↦ elim (Bool-cases (count_where (is_target id r.status) t == 1)) [
    | inr raced ↦ inl (ProcessingManifestError.concurrent_update, rw (found, step, raced) refl)
    | inl one ↦ inr (step, rw (found, step, one, updated_row id status us t r found) refl)
  ]
]

missing_run :
    (id : String) (status : ProcessingStatus) (us : List Update) (t : Table)
    → get id t ≡ none
    → transition id status us t ≡ (err ProcessingManifestError.unknown_run, t)
unfolding transition update_run
missing_run id status us t absent = rw absent refl

not_ok :
    {e : ProcessingManifestError} {r : ProcessingRun} {t t' : Table}
    {x : Result ProcessingManifestError ProcessingRun × Table}
    → x ≡ (err e, t)
    → x ≡ (ok r, t')
    → ⊥
not_ok h k = cc

same_result :
    {r s : ProcessingRun} {t t' : Table}
    → ◌≡◌ {A = Result ProcessingManifestError ProcessingRun × Table} (ok r, t) (ok s, t')
    → (r ≡ s) × (t ≡ t')
same_result h = (cc, cc)

pub transition-Moves :
    (id : String) (status : ProcessingStatus) (us : List Update) (t : Table) (r : ProcessingRun)
    (t' : Table)
    → transition id status us t ≡ (ok r, t')
    → Moves id status us t r t'
transition-Moves id status us t r t' h = elim (Option-cases (get id t)) [
  | inl absent ↦ absurd (not_ok (missing_run id status us t absent) h)
  | inr (before, found) ↦ elim (transition_cases id status us t before found) [
    | inl (e, raised) ↦ absurd (not_ok raised h)
    | inr (step, done) ↦
        let (row, table) = same_result (sym done ∙ h) in
        record {
          before = before;
          found = found;
          step = step;
          wrote = sym row;
          stored =
              subst (λ u. get id u ≡ some r) table
                (subst
                  (λ x.
                    get id (update_where (is_target id before.status) (write status us) t) ≡ some x)
                  row (updated_row id status us t before found));
        }
  ]
]
