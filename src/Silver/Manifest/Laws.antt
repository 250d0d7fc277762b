-- ===== src/Silver/Manifest/Laws.antt =====
-- How the runs of the processing manifest may change.
use fintech_payments_data_pl.Prelude.{
  ℕ, ◌≤◌, String, Bool, true, false, Option, none, some, List, [], ◌∷◌, ◌≡◌, refl, sym, ◌∙◌, ap,
  subst, Result, continue, ok, err, arith, Bool-cases, inl, inr, ◌==◌,
}
use fintech_payments_data_pl.Prelude.Rows.{
  count_where, Evolves, Evolves-refl, Evolves-append, Evolves-update_where,
}
use fintech_payments_data_pl.Silver.Models.{
  ProcessingStatus, discovered, reading, validating, transforming, writing, completed, failed,
  quarantined, ProcessingRun, SourceType,
}
use fintech_payments_data_pl.Silver.Manifest.{
  Table, transitions, status_eq, get, get_back, asserted, Registration, insert_run, register,
  Update, assign_all, write, is_target, assign, new_run, ProcessingManifestError, update_run,
  transition,
}

abbrev pub is_terminal : ProcessingStatus → Bool
is_terminal completed = true
is_terminal failed = true
is_terminal quarantined = true
is_terminal _ = false

-- The number of stages behind a status; the three ends are one stage.
abbrev pub stage : ProcessingStatus → ℕ
stage discovered = 0
stage reading = 1
stage validating = 2
stage transforming = 3
stage writing = 4
stage _ = 5

-- What a run is registered with and keeps.
abbrev pub RunIdentity : Type 0
RunIdentity = String × String × SourceType × String × String × String × String × String × String

abbrev pub identity : ProcessingRun → RunIdentity
identity r = (
  r.run_id, r.pipeline_name, r.source_type, r.entity_name, r.input_object_uri, r.input_checksum,
  r.started_at, r.code_version, r.schema_version,
)

-- A run keeps its identity, never goes back, and does not change at an end.
pub record Continues (r r' : ProcessingRun) : Type 0 where
  pub same : identity r' ≡ identity r
  pub forward : stage r.status ≤ stage r'.status
  pub final : is_terminal r.status ≡ true → r' ≡ r

pub Continues-refl : (r : ProcessingRun) → Continues r r
Continues-refl r = record { same = refl; forward = omega arith; final = λ _. refl }

pub Continues-trans : (a b c : ProcessingRun) → Continues a b → Continues b c → Continues a c
Continues-trans a b c p q = record {
  same = q.same ∙ p.same;
  forward = omega (arith, p.forward, q.forward);
  final = λ h. q.final (subst (λ x. is_terminal x.status ≡ true) (sym (p.final h)) h) ∙ p.final h;
}

abbrev pub TableContinues : Table → Table → Type 0
TableContinues = Evolves Continues

abbrev core : ProcessingRun → ProcessingStatus × RunIdentity
core r = (r.status, identity r)

assign-core : (u : Update) (r : ProcessingRun) → core (assign u r) ≡ core r
unfolding assign
assign-core (Update.input_record_count n) r = refl
assign-core (Update.output_record_count n) r = refl
assign-core (Update.rejected_record_count n) r = refl
assign-core (Update.completed_at n) r = refl
assign-core (Update.output_object_uris n) r = refl
assign-core (Update.output_descriptors n) r = refl
assign-core (Update.error_code n) r = refl
assign-core (Update.error_message n) r = refl

assign_all-core : (us : List Update) (r : ProcessingRun) → core (assign_all us r) ≡ core r
unfolding assign_all
assign_all-core [] r = refl
assign_all-core (u ∷ us) r = assign_all-core us (assign u r) ∙ assign-core u r

pub write-identity :
    (status : ProcessingStatus) (us : List Update) (r : ProcessingRun)
    → identity (write status us r) ≡ identity r
unfolding write
write-identity status us r = ap (λ c. c.1) (assign_all-core us (record r { status = status }))

transition_forward :
    (a b : ProcessingStatus)
    → transitions a b ≡ true
    → (is_terminal a ≡ false) × (stage a ≤ stage b)
transition_forward a b h = (ground arith, ground arith)

status_eq→eq : (a b : ProcessingStatus) → status_eq a b ≡ true → a ≡ b
status_eq→eq a b h = ground arith

target_status :
    (id : String) (current : ProcessingStatus) (r : ProcessingRun)
    → is_target id current r ≡ true
    → r.status ≡ current
target_status id current r h = status_eq→eq r.status current (ground arith)

going_ended : {b : Bool} → b ≡ false → b ≡ true → ⊥
going_ended h k = cc

write-Continues :
    (r : ProcessingRun) (status : ProcessingStatus) (us : List Update)
    → transitions r.status status ≡ true
    → Continues r (write status us r)
unfolding write
write-Continues r status us h =
    let kept = assign_all-core us (record r { status = status }) in
    let (going, forward) = transition_forward r.status status h in
    record {
      same = ap (λ c. c.1) kept;
      forward = subst (λ s. stage r.status ≤ stage s) (sym (ap (λ c. c.0) kept)) forward;
      final = λ ended. absurd (going_ended going ended);
    }

update_run-Continues :
    (id : String) (status : ProcessingStatus) (us : List Update) (o : Option ProcessingRun)
    (t : Table)
    → TableContinues t (update_run id status us o t).1
unfolding update_run
update_run-Continues id status us none t = Evolves-refl Continues Continues-refl t
update_run-Continues id status us (some r) t = elim (Bool-cases (transitions r.status status)) [
  | inr refused ↦ rw refused (Evolves-refl Continues Continues-refl t)
  | inl step ↦ rw step (elim (Bool-cases (count_where (is_target id r.status) t == 1)) [
    | inr raced ↦ rw raced (Evolves-refl Continues Continues-refl t)
    | inl one ↦ rw one (
        Evolves-update_where Continues Continues-refl (is_target id r.status) (write status us) t
          λ x hit.
            write-Continues x status us (
              subst (λ s. transitions s status ≡ true) (sym (target_status id r.status x hit))
                step))
  ])
]

asserted-state : (o : Option ProcessingRun) (t : Table) → (asserted o t).1 ≡ t
unfolding asserted
asserted-state none t = refl
asserted-state (some r) t = refl

get_back-state : (id : String) (t : Table) → (get_back id t).1 ≡ t
unfolding get_back
get_back-state id t = asserted-state (get id t) t

-- An action and then `get_back`, which only reads.
continue_back :
    (id : String) (x : Result ProcessingManifestError (Unit {0})) (t : Table)
    → (continue x (λ _. get_back id) t).1 ≡ t
continue_back id (ok u) t = get_back-state id t
continue_back id (err e) t = refl

pub transition-Continues :
    (id : String) (status : ProcessingStatus) (us : List Update) (t : Table)
    → TableContinues t (transition id status us t).1
unfolding transition
transition-Continues id status us t =
    let r = update_run id status us (get id t) t in
    subst (TableContinues t) (sym (continue_back id r.0 r.1))
      (update_run-Continues id status us (get id t) t)

insert_run-Continues :
    (a : Registration) (o : Option ProcessingRun) (t : Table)
    → TableContinues t (insert_run a o t).1
unfolding insert_run
insert_run-Continues a none t = Evolves-append Continues Continues-refl t (new_run a ∷ [])
insert_run-Continues a (some r) t = Evolves-refl Continues Continues-refl t

pub register-Continues : (a : Registration) (t : Table) → TableContinues t (register a t).1
unfolding register
register-Continues a t =
    let r = insert_run a (get a.run_id t) t in
    subst (TableContinues t) (sym (continue_back a.run_id r.0 r.1))
      (insert_run-Continues a (get a.run_id t) t)
