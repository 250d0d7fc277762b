-- ===== src/Settlement/Manifest/Laws.antt =====
-- How the rows of the settlement manifest may change, and that a content has one row.
use fintech_payments_data_pl.Prelude.{
  String, Bool, true, false, Option, none, some, List, [], ◌∷◌, ◌≡◌, refl, sym, ◌∙◌, subst, arith,
  Bool-cases, Option-cases, inl, inr, ◌==◌,
}
use fintech_payments_data_pl.Prelude.Rows.{
  first_row, count_where, Evolves, Evolves-refl, Evolves-append, Evolves-update_where,
}
use fintech_payments_data_pl.Settlement.Models.{
  ManifestStatus, processed, quarantined, ManifestRecord,
}
use fintech_payments_data_pl.Settlement.Manifest.{
  Table, Discovered, register_discovery, classify, insert_discovery, violates, read_back, new_row,
  get, has_content, Update, assign, assign_all, write, is_target, update_file, transition, allowed,
  status_eq, settlement_source_name,
}

abbrev pub is_final : ManifestStatus → Bool
is_final processed = true
is_final quarantined = true
is_final _ = false

-- What a file's row is registered with and keeps.
abbrev pub identity :
    ManifestRecord → String × String × String × String × String × String × Option String × String
identity r = (
  r.file_id, r.source_name, r.partner_id, r.file_name, r.checksum_sha256, r.schema_version,
  r.settlement_date, r.discovered_at,
)

-- A row keeps its identity and does not change once it is processed or quarantined.
pub record Continues (r r' : ManifestRecord) : Type 0 where
  pub same : identity r' ≡ identity r
  pub final : is_final r.status ≡ true → r' ≡ r

pub Continues-refl : (r : ManifestRecord) → Continues r r
Continues-refl r = record { same = refl; final = λ _. refl }

pub Continues-trans : (a b c : ManifestRecord) → Continues a b → Continues b c → Continues a c
Continues-trans a b c p q = record {
  same = q.same ∙ p.same;
  final = λ h. q.final (subst (λ x. is_final x.status ≡ true) (sym (p.final h)) h) ∙ p.final h;
}

abbrev pub TableContinues : Table → Table → Type 0
TableContinues = Evolves Continues

assign-identity : (u : Update) (r : ManifestRecord) → identity (assign u r) ≡ identity r
unfolding assign
assign-identity (Update.file_path v) r = refl
assign-identity (Update.ingestion_run_id v) r = refl
assign-identity (Update.file_size_bytes v) r = refl
assign-identity (Update.record_count v) r = refl
assign-identity (Update.accepted_count v) r = refl
assign-identity (Update.rejected_count v) r = refl
assign-identity (Update.processing_started_at v) r = refl
assign-identity (Update.processed_at v) r = refl
assign-identity (Update.error_code v) r = refl
assign-identity (Update.error_message v) r = refl
assign-identity (Update.bronze_path v) r = refl
assign-identity (Update.quarantine_path v) r = refl

assign_all-identity :
    (us : List Update) (r : ManifestRecord) → identity (assign_all us r) ≡ identity r
unfolding assign_all
assign_all-identity [] r = refl
assign_all-identity (u ∷ us) r = assign_all-identity us (assign u r) ∙ assign-identity u r

pub write-identity :
    (status : ManifestStatus) (us : List Update) (r : ManifestRecord)
    → identity (write status us r) ≡ identity r
unfolding write
write-identity status us r = assign_all-identity us (record r { status = status })

status_eq→eq : (a b : ManifestStatus) → status_eq a b ≡ true → a ≡ b
status_eq→eq a b h = ground arith

open_before : (a b : ManifestStatus) → allowed a b ≡ true → is_final a ≡ false
open_before a b h = ground arith

open_final : {b : Bool} → b ≡ false → b ≡ true → ⊥
open_final h k = cc

write-Continues :
    (status : ManifestStatus) (us : List Update) (r : ManifestRecord)
    → allowed r.status status ≡ true
    → Continues r (write status us r)
write-Continues status us r h = record {
  same = write-identity status us r;
  final = λ ended. absurd (open_final (open_before r.status status h) ended);
}

target_allowed :
    (id : String) (current status : ManifestStatus) (r : ManifestRecord)
    → is_target id current r ≡ true
    → allowed current status ≡ true
    → allowed r.status status ≡ true
target_allowed id current status r h k =
    subst (λ s. allowed s status ≡ true) (sym (status_eq→eq r.status current (ground arith))) k

read_back-Continues :
    {A : Type 0} (f : ManifestRecord → A) (before t : Table) (o : Option ManifestRecord)
    → TableContinues before t
    → TableContinues before (read_back f before o t).1
unfolding read_back
read_back-Continues f before t none h = Evolves-refl Continues Continues-refl before
read_back-Continues f before t (some r) h = h

update_file-Continues :
    (id : String) (status : ManifestStatus) (us : List Update) (o : Option ManifestRecord)
    (t : Table)
    → TableContinues t (update_file id status us o t).1
unfolding update_file
update_file-Continues id status us none t = Evolves-refl Continues Continues-refl t
update_file-Continues id status us (some r) t = elim (Bool-cases (allowed r.status status)) [
  | inr refused ↦ rw refused (Evolves-refl Continues Continues-refl t)
  | inl step ↦ rw step (elim (Bool-cases (count_where (is_target id r.status) t == 1)) [
    | inr raced ↦ rw raced (Evolves-refl Continues Continues-refl t)
    | inl one ↦ rw one (
        read_back-Continues (λ x. x) t _ _
          (Evolves-update_where Continues Continues-refl (is_target id r.status) (write status us) t
            λ x hit. write-Continues status us x (target_allowed id r.status status x hit step)))
  ])
]

-- `transition`, returning or raising, loses no row, leaves every row's registered columns as they
-- are, and changes no row that is PROCESSED or QUARANTINED.
pub transition-Continues :
    (id : String) (status : ManifestStatus) (us : List Update) (t : Table)
    → TableContinues t (transition id status us t).1
unfolding transition
transition-Continues id status us t = update_file-Continues id status us (get id t) t

module _ (deterministic_file_id : String → String → String → String) where
  insert_discovery-Continues :
      (a : Discovered) (t : Table) → TableContinues t (insert_discovery deterministic_file_id a t).1
  unfolding insert_discovery
  insert_discovery-Continues a t =
      let file_id = deterministic_file_id settlement_source_name a.partner_id a.checksum_sha256 in
      elim (Bool-cases (violates file_id a t)) [
        | inl bad ↦ rw bad (Evolves-refl Continues Continues-refl t)
        | inr fine ↦ rw fine (
            read_back-Continues _ t _ _
              (Evolves-append Continues Continues-refl t (new_row file_id a ∷ [])))
      ]

  pub register_discovery-Continues :
      (a : Discovered) (t : Table)
      → TableContinues t (register_discovery deterministic_file_id a t).1
  unfolding register_discovery classify
  register_discovery-Continues a t =
      elim (Option-cases (first_row (has_content a.partner_id a.checksum_sha256) t)) [
        | inl absent ↦ rw absent (insert_discovery-Continues a t)
        | inr (r, found) ↦ rw found (Evolves-refl Continues Continues-refl t)
      ]
