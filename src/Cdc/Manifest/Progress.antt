-- ===== src/Cdc/Manifest/Progress.antt =====
-- How the control table may change: every row goes forward along the lifecycle, keeps its
-- coordinates and, once it is durable, its evidence.
use fintech_payments_data_pl.Prelude.{
  String, ◌≡◌, refl, sym, ◌∙◌, ap, subst, true, Option, none, some, some_inj, [], ◌∷◌, arith,
  Option-cases, Bool-cases, inl, inr, ◌⊎◌, if◌then◌else◌,
}
use fintech_payments_data_pl.Cdc.Models.{
  BatchStatus, collecting, serializing, uploading, uploaded, committed, failed,
}
use fintech_payments_data_pl.Cdc.Manifest.{
  BatchManifestRecord, Table, allowed, status_eq, select_row, is_target, update_rows,
}
use fintech_payments_data_pl.Cdc.Manifest.Methods.{is_durable}

-- The steps of the lifecycle: a batch is serialized, uploading, uploaded and committed, in this
-- order; it may fail before it is uploaded, and then begins again.
abbrev pub Next : BatchStatus → BatchStatus → Type 0
Next a b =
    ((a ≡ collecting) × (b ≡ serializing))
    ⊎ ((a ≡ serializing) × (b ≡ uploading))
    ⊎ ((a ≡ uploading) × (b ≡ uploaded))
    ⊎ ((a ≡ uploaded) × (b ≡ committed))
    ⊎ ((a ≡ failed) × (b ≡ serializing))
    ⊎ ((a ≡ collecting) × (b ≡ failed))
    ⊎ ((a ≡ serializing) × (b ≡ failed))
    ⊎ ((a ≡ uploading) × (b ≡ failed))

pub allowed-Next : (a b : BatchStatus) → allowed a b ≡ true → Next a b
allowed-Next a b h = ground arith

-- No step, or one to the target.
pub data Within (target a b : BatchStatus) : Type 0 where
  stays : b ≡ a → Within target a b
  step : Next a b → b ≡ target → Within target a b

-- Zero or more steps.
pub data Leads (a : BatchStatus) : BatchStatus → Type 0 where
  here : Leads a a
  steps : {b c : BatchStatus} → Leads a b → Next b c → Leads a c

pub Leads-trans : {a b c : BatchStatus} → Leads a b → Leads b c → Leads a c
Leads-trans p here = p
Leads-trans p (steps q h) = steps (Leads-trans p q) h

Within-Leads : (target a b : BatchStatus) → Within target a b → Leads a b
Within-Leads target a b (stays e) = subst (λ s. Leads a s) (sym e) here
Within-Leads target a b (step n e) = steps here n

durable_step : (b c : BatchStatus) → is_durable b ≡ true → Next b c → is_durable c ≡ true
durable_step b c h k = ground arith

pub Leads-durable : {a b : BatchStatus} → Leads a b → is_durable a ≡ true → is_durable b ≡ true
Leads-durable here h = h
Leads-durable (steps {b = b} {c = c} p k) h = durable_step b c (Leads-durable p h) k

-- A row keeps its coordinates and, while it is durable, its evidence; its status changes by `R`.
pub record Changes (R : BatchStatus → BatchStatus → Type 0) (r r' : BatchManifestRecord)
    : Type 0 where
  pub leads : R r.status r'.status
  pub batch_id : r'.batch_id ≡ r.batch_id
  pub consumer_group : r'.consumer_group ≡ r.consumer_group
  pub topic : r'.topic ≡ r.topic
  pub partition : r'.partition ≡ r.partition
  pub offset_start : r'.offset_start ≡ r.offset_start
  pub offset_end : r'.offset_end ≡ r.offset_end
  pub checksum : is_durable r.status ≡ true → r'.checksum_sha256 ≡ r.checksum_sha256
  pub uri : is_durable r.status ≡ true → r'.object_uri ≡ r.object_uri

abbrev pub Advances : BatchManifestRecord → BatchManifestRecord → Type 0
Advances = Changes Leads

Changes-refl :
    (R : BatchStatus → BatchStatus → Type 0) (r : BatchManifestRecord)
    → R r.status r.status
    → Changes R r r
Changes-refl R r same = record {
  leads = same;
  batch_id = refl;
  consumer_group = refl;
  topic = refl;
  partition = refl;
  offset_start = refl;
  offset_end = refl;
  checksum = λ _. refl;
  uri = λ _. refl;
}

pub Advances-refl : (r : BatchManifestRecord) → Advances r r
Advances-refl r = Changes-refl Leads r here

pub Within-refl : (target : BatchStatus) (r : BatchManifestRecord) → Changes (Within target) r r
Within-refl target r = Changes-refl (Within target) r (stays refl)

pub Advances-trans : {r s t : BatchManifestRecord} → Advances r s → Advances s t → Advances r t
Advances-trans a b = record {
  leads = Leads-trans a.leads b.leads;
  batch_id = b.batch_id ∙ a.batch_id;
  consumer_group = b.consumer_group ∙ a.consumer_group;
  topic = b.topic ∙ a.topic;
  partition = b.partition ∙ a.partition;
  offset_start = b.offset_start ∙ a.offset_start;
  offset_end = b.offset_end ∙ a.offset_end;
  checksum = λ h. b.checksum (Leads-durable a.leads h) ∙ a.checksum h;
  uri = λ h. b.uri (Leads-durable a.leads h) ∙ a.uri h;
}

Within-Advances :
    (target : BatchStatus) (r r' : BatchManifestRecord)
    → Changes (Within target) r r'
    → Advances r r'
Within-Advances target r r' c = record {
  leads = Within-Leads target r.status r'.status c.leads;
  batch_id = c.batch_id;
  consumer_group = c.consumer_group;
  topic = c.topic;
  partition = c.partition;
  offset_start = c.offset_start;
  offset_end = c.offset_end;
  checksum = c.checksum;
  uri = c.uri;
}

-- No row goes, every row changes by `R`, and the status of a row that appears satisfies `F`.
pub record TableChanges (R : BatchStatus → BatchStatus → Type 0) (F : BatchStatus → Type 0)
    (t t' : Table) : Type 0 where
  pub kept :
      (id : String) (r : BatchManifestRecord)
      → select_row id t ≡ some r
      → (r' : BatchManifestRecord) × (select_row id t' ≡ some r') × Changes R r r'
  pub fresh :
      (id : String) (r' : BatchManifestRecord)
      → select_row id t ≡ none
      → select_row id t' ≡ some r'
      → F r'.status

-- What one call may do, and what any sequence of calls may do.
abbrev pub Moves : BatchStatus → Table → Table → Type 0
Moves target = TableChanges (Within target) (λ s. s ≡ collecting)

abbrev pub Progress : Table → Table → Type 0
Progress = TableChanges Leads (Leads collecting)

none_or_some {ℓ} : {A : Type ℓ} {o : Option A} {a : A} → o ≡ none → o ≡ some a → ⊥
none_or_some h k = cc

pub Moves-refl : (target : BatchStatus) (t : Table) → Moves target t t
Moves-refl target t = record {
  kept = λ id r h. (r, h, Within-refl target r);
  fresh = λ id r h k. absurd (none_or_some h k);
}

pub Moves-Progress : (target : BatchStatus) (t t' : Table) → Moves target t t' → Progress t t'
Moves-Progress target t t' m = record {
  kept = λ id r h. let (r', found, c) = m.kept id r h in (r', found, Within-Advances target r r' c);
  fresh = λ id r h k. subst (λ s. Leads collecting s) (sym (m.fresh id r h k)) here;
}

pub Progress-refl : (t : Table) → Progress t t
Progress-refl t = Moves-Progress collecting t t (Moves-refl collecting t)

pub Progress-trans : {t u v : Table} → Progress t u → Progress u v → Progress t v
Progress-trans {t} {u} {v} p q = record {
  kept = λ id r h.
      let (s, found, a) = p.kept id r h in
      let (s', found', b) = q.kept id s found in (s', found', Advances-trans a b);
  fresh = λ id r h k. elim (Option-cases (select_row id u)) [
    | inl absent ↦ q.fresh id r absent k
    | inr (s, found) ↦
        let (s', found', b) = q.kept id s found in
        let same : s' ≡ r = some_inj (sym found' ∙ k) in
        Leads-trans (p.fresh id s h found) (subst (λ x. Leads s.status x.status) same b.leads)
  ];
}

pub status_eq→eq : (a b : BatchStatus) → status_eq a b ≡ true → a ≡ b
status_eq→eq a b h = ground arith

pub target_status :
    (id : String) (current : BatchStatus) (r : BatchManifestRecord)
    → is_target id current r ≡ true
    → r.status ≡ current
unfolding is_target
target_status id current r h = status_eq→eq r.status current (ground arith)

-- The rows of an update.
abbrev pub changed :
    String
    → BatchStatus
    → (BatchManifestRecord → BatchManifestRecord)
    → BatchManifestRecord
    → BatchManifestRecord
changed id current f r = if is_target id current r then f r else r

abbrev pub changed_row :
    String
    → BatchStatus
    → (BatchManifestRecord → BatchManifestRecord)
    → Option BatchManifestRecord
    → Option BatchManifestRecord
changed_row id current f none = none
changed_row id current f (some r) = some (changed id current f r)

pub select_row-update_rows :
    (j id : String) (current : BatchStatus) (f : BatchManifestRecord → BatchManifestRecord)
    (t : Table)
    → ((r : BatchManifestRecord) → (f r).batch_id ≡ r.batch_id)
    → select_row j (update_rows id current f t) ≡ changed_row id current f (select_row j t)
unfolding select_row update_rows
select_row-update_rows j id current f [] same = refl
select_row-update_rows j id current f (r ∷ t) same =
    ground (arith, same r, select_row-update_rows j id current f t same)

-- An update that changes each row that has the status it asks for by a step to the target at most.
abbrev pub IsSafe : BatchStatus → BatchStatus → (BatchManifestRecord → BatchManifestRecord) → Type 0
IsSafe target current f =
    (r : BatchManifestRecord) → r.status ≡ current → Changes (Within target) r (f r)

changed-Within :
    (target : BatchStatus) (id : String) (current : BatchStatus)
    (f : BatchManifestRecord → BatchManifestRecord) (r : BatchManifestRecord)
    → IsSafe target current f
    → Changes (Within target) r (changed id current f r)
changed-Within target id current f r safe = elim (Bool-cases (is_target id current r)) [
  | inl hit ↦ rw hit (safe r (target_status id current r hit))
  | inr other ↦ rw other (Within-refl target r)
]

pub update_rows-Moves :
    (target : BatchStatus) (id : String) (current : BatchStatus)
    (f : BatchManifestRecord → BatchManifestRecord) (t : Table)
    → ((r : BatchManifestRecord) → (f r).batch_id ≡ r.batch_id)
    → IsSafe target current f
    → Moves target t (update_rows id current f t)
update_rows-Moves target id current f t same safe = record {
  kept = λ j r h. (
    changed id current f r,
    select_row-update_rows j id current f t same ∙ ap (changed_row id current f) h,
    changed-Within target id current f r safe,
  );
  fresh = λ j r h k. absurd (
      none_or_some (select_row-update_rows j id current f t same ∙ ap (changed_row id current f) h)
        k);
}
