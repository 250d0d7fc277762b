-- ===== src/Silver/Manifest/History.antt =====
-- Any sequence of calls of the processing manifest.
use fintech_payments_data_pl.Prelude.{
  ℕ, String, ◌≡◌, true, some, List, [], ◌∷◌, ap, subst, Bool-cases, Option-cases, inl, inr, str_eq,
}
use fintech_payments_data_pl.Prelude.Rows.{Evolves-refl, Evolves-trans, Evolves-first_row}
use fintech_payments_data_pl.Silver.Models.{ProcessingRun, SilverOutput, failed}
use fintech_payments_data_pl.Silver.Manifest.{
  Table, Registration, register, get, has_run_id, is_settled, mark_reading, mark_validating,
  mark_transforming, mark_writing, mark_completed, mark_failed, mark_quarantined,
}
use fintech_payments_data_pl.Silver.Manifest.Laws.{
  Continues, Continues-refl, Continues-trans, TableContinues, transition-Continues,
  register-Continues, is_terminal,
}

pub data RunCall : Type 0 where
  registering : Registration → RunCall
  reading_call transforming_call writing_call : String → RunCall
  validating_call : String → ℕ → RunCall
  completed_call : String → List SilverOutput → ℕ → ℕ → String → RunCall
  failed_call : String → String → String → String → RunCall
  quarantined_call : String → String → String → ℕ → String → RunCall

perform : RunCall → Table → Table
perform (registering a) t = (register a t).1
perform (reading_call id) t = (mark_reading id t).1
perform (transforming_call id) t = (mark_transforming id t).1
perform (writing_call id) t = (mark_writing id t).1
perform (validating_call id n) t = (mark_validating id n t).1
perform (completed_call id outputs n m at) t = (mark_completed id outputs n m at t).1
perform (failed_call id name message now) t = (mark_failed id name message now t).1
perform (quarantined_call id code message n at) t = (mark_quarantined id code message n at t).1

-- The table after a sequence of calls; an exception ends only its own call.
pub perform_all : List RunCall → Table → Table
unfolding perform
perform_all [] t = t
perform_all (c ∷ calls) t = perform_all calls (perform c t)

mark_failed-Continues :
    (id name message now : String) (t : Table)
    → TableContinues t (mark_failed id name message now t).1
unfolding mark_failed
mark_failed-Continues id name message now t = elim (Option-cases (get id t)) [
  | inl absent ↦ rw absent (Evolves-refl Continues Continues-refl t)
  | inr (r, found) ↦ rw found (elim (Bool-cases (is_settled r.status)) [
    | inl settled ↦ rw settled (Evolves-refl Continues Continues-refl t)
    | inr going ↦ rw going (transition-Continues id failed _ t)
  ])
]

perform-Continues : (c : RunCall) (t : Table) → TableContinues t (perform c t)
unfolding perform mark_reading mark_validating mark_transforming mark_writing mark_completed
    mark_quarantined
perform-Continues (registering a) t = register-Continues a t
perform-Continues (reading_call id) t = transition-Continues id _ _ t
perform-Continues (transforming_call id) t = transition-Continues id _ _ t
perform-Continues (writing_call id) t = transition-Continues id _ _ t
perform-Continues (validating_call id n) t = transition-Continues id _ _ t
perform-Continues (completed_call id outputs n m at) t = transition-Continues id _ _ t
perform-Continues (failed_call id name message now) t = mark_failed-Continues id name message now t
perform-Continues (quarantined_call id code message n at) t = transition-Continues id _ _ t

-- Over any sequence of calls, returning or raising, no run is lost, every run keeps what it was
-- registered with and never goes back to an earlier stage, and a run at an end (COMPLETED, FAILED,
-- QUARANTINED) does not change.
pub perform_all-Continues :
    (calls : List RunCall) (t : Table) → TableContinues t (perform_all calls t)
unfolding perform_all
perform_all-Continues [] t = Evolves-refl Continues Continues-refl t
perform_all-Continues (c ∷ calls) t =
    Evolves-trans Continues Continues-trans t (perform c t) _ (perform-Continues c t)
      (perform_all-Continues calls (perform c t))

-- A run that `get` returns at an end is returned unchanged after any further calls.
pub terminal_forever :
    (calls : List RunCall) (t : Table) (id : String) (r : ProcessingRun)
    → get id t ≡ some r
    → is_terminal r.status ≡ true
    → get id (perform_all calls t) ≡ some r
unfolding get
terminal_forever calls t id r found ended =
    let (r', found', c) =
      Evolves-first_row Continues (has_run_id id) (λ a b q. ap (λ i. str_eq i.0 id) q.same) t
        (perform_all calls t) r (perform_all-Continues calls t) found in
    subst (λ x. get id (perform_all calls t) ≡ some x) (c.final ended) found'
