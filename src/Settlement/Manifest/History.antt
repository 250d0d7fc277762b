-- ===== src/Settlement/Manifest/History.antt =====
-- Any sequence of calls of the settlement manifest.
use fintech_payments_data_pl.Prelude.{String, ◌≡◌, some, List, [], ◌∷◌, true, ap, subst, str_eq}
use fintech_payments_data_pl.Prelude.Rows.{Evolves-refl, Evolves-trans, Evolves-first_row}
use fintech_payments_data_pl.Settlement.Models.{ManifestStatus, ManifestRecord}
use fintech_payments_data_pl.Settlement.Manifest.{
  Table, Discovered, register_discovery, Update, transition, get, has_file_id,
}
use fintech_payments_data_pl.Settlement.Manifest.Laws.{
  Continues, Continues-refl, Continues-trans, TableContinues, transition-Continues,
  register_discovery-Continues, is_final,
}
use fintech_payments_data_pl.Settlement.Manifest.Discovery.{
  IsUnique, transition-IsUnique, register_discovery-IsUnique,
}

pub data FileCall : Type 0 where
  discovering : Discovered → FileCall
  moving : String → ManifestStatus → List Update → FileCall

module _ (deterministic_file_id : String → String → String → String) where
  perform : FileCall → Table → Table
  perform (discovering a) t = (register_discovery deterministic_file_id a t).1
  perform (moving id status updates) t = (transition id status updates t).1

  -- The table after a sequence of calls; an exception ends only its own call.
  pub perform_all : List FileCall → Table → Table
  unfolding perform
  perform_all [] t = t
  perform_all (c ∷ calls) t = perform_all calls (perform c t)

  perform-Continues : (c : FileCall) (t : Table) → TableContinues t (perform c t)
  unfolding perform
  perform-Continues (discovering a) t = register_discovery-Continues deterministic_file_id a t
  perform-Continues (moving id status updates) t = transition-Continues id status updates t

  perform-IsUnique : (c : FileCall) (t : Table) → IsUnique t → IsUnique (perform c t)
  unfolding perform
  perform-IsUnique (discovering a) t u = register_discovery-IsUnique deterministic_file_id a t u
  perform-IsUnique (moving id status updates) t u = transition-IsUnique id status updates t u

  perform_all-Continues :
      (calls : List FileCall) (t : Table) → TableContinues t (perform_all calls t)
  unfolding perform_all
  perform_all-Continues [] t = Evolves-refl Continues Continues-refl t
  perform_all-Continues (c ∷ calls) t =
      Evolves-trans Continues Continues-trans t (perform c t) _ (perform-Continues c t)
        (perform_all-Continues calls (perform c t))

  -- Over any sequence of discoveries and transitions, returning or raising, no content of a
  -- partner ever has two rows.
  pub perform_all-IsUnique :
      (calls : List FileCall) (t : Table) → IsUnique t → IsUnique (perform_all calls t)
  unfolding perform_all
  perform_all-IsUnique [] t u = u
  perform_all-IsUnique (c ∷ calls) t u =
      perform_all-IsUnique calls (perform c t) (perform-IsUnique c t u)

  -- A file that `get` returns as PROCESSED or QUARANTINED is returned unchanged after any further
  -- discoveries and transitions.
  pub final_forever :
      (calls : List FileCall) (t : Table) (id : String) (r : ManifestRecord)
      → get id t ≡ some r
      → is_final r.status ≡ true
      → get id (perform_all calls t) ≡ some r
  unfolding get
  final_forever calls t id r found ended =
      let (r', found', c) =
        Evolves-first_row Continues (has_file_id id) (λ a b q. ap (λ i. str_eq i.0 id) q.same) t
          (perform_all calls t) r (perform_all-Continues calls t) found in
      subst (λ x. get id (perform_all calls t) ≡ some x) (c.final ended) found'
