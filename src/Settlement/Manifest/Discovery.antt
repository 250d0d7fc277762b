-- ===== src/Settlement/Manifest/Discovery.antt =====
-- Discovering settlement files: one row per content, and the same row again.
use fintech_payments_data_pl.Prelude.{
  ℕ, ◌≤◌, String, Bool, true, false, ◌&&◌, Option, none, some, List, [], ◌∷◌, ◌++◌, ◌≡◌, refl, sym,
  ap, subst, Result, ok, err, arith, Bool-cases, Option-cases, inl, inr, ◌==◌, str_eq, eq_iff,
  if◌then◌else◌,
}
use fintech_payments_data_pl.Prelude.Rows.{
  first_row, count_where, first_row-append, first_row-absent, count_where-append, count_where-none,
  count_where-update_where,
}
use fintech_payments_data_pl.Settlement.Models.{ManifestStatus, ManifestRecord, DuplicateKind}
use fintech_payments_data_pl.Settlement.Manifest.{
  Table, ManifestError, Discovered, register_discovery, classify, insert_discovery, violates,
  read_back, new_row, get, has_content, has_file_id, content_kind, Update, write, is_target,
  update_file, transition, allowed, settlement_source_name,
}
use fintech_payments_data_pl.Settlement.Manifest.Laws.{write-identity}

-- No content has two rows.
abbrev pub IsUnique : Table → Type 0
IsUnique t = (partner checksum : String) → count_where (has_content partner checksum) t ≤ 1

write-has_content :
    (partner checksum : String) (status : ManifestStatus) (us : List Update) (r : ManifestRecord)
    → has_content partner checksum (write status us r) ≡ has_content partner checksum r
unfolding has_content
write-has_content partner checksum status us r =
    ap (λ i. str_eq i.1 settlement_source_name && str_eq i.2 partner && str_eq i.4 checksum)
      (write-identity status us r)

read_back-IsUnique :
    {A : Type 0} (f : ManifestRecord → A) (before t : Table) (o : Option ManifestRecord)
    → IsUnique before
    → IsUnique t
    → IsUnique (read_back f before o t).1
unfolding read_back
read_back-IsUnique f before t none h k = h
read_back-IsUnique f before t (some r) h k = k

update_file-IsUnique :
    (id : String) (status : ManifestStatus) (us : List Update) (o : Option ManifestRecord)
    (t : Table)
    → IsUnique t
    → IsUnique (update_file id status us o t).1
unfolding update_file
update_file-IsUnique id status us none t u = u
update_file-IsUnique id status us (some r) t u = elim (Bool-cases (allowed r.status status)) [
  | inr refused ↦ rw refused u
  | inl step ↦ rw step (elim (Bool-cases (count_where (is_target id r.status) t == 1)) [
    | inr raced ↦ rw raced u
    | inl one ↦ rw one (
        read_back-IsUnique (λ x. x) t _ _ u
          λ partner checksum. omega (
            arith,
            u partner checksum,
            count_where-update_where (has_content partner checksum) (is_target id r.status)
                (write status us) t (write-has_content partner checksum status us),
          ))
  ])
]

-- `transition`, returning or raising, keeps the contents unique.
pub transition-IsUnique :
    (id : String) (status : ManifestStatus) (us : List Update) (t : Table)
    → IsUnique t
    → IsUnique (transition id status us t).1
unfolding transition
transition-IsUnique id status us t = update_file-IsUnique id status us (get id t) t

same_content :
    (partner checksum file_id : String) (a : Discovered)
    → has_content partner checksum (new_row file_id a) ≡ true
    → (a.partner_id ≡ partner) × (a.checksum_sha256 ≡ checksum)
unfolding has_content
same_content partner checksum file_id a h =
    (ground (arith, eq_iff a.partner_id partner), ground (arith, eq_iff a.checksum_sha256 checksum))

if_true : {b : Bool} → b ≡ true → ◌≡◌ {A = ℕ} (if b then 1 else 0) 1
if_true h = ground arith

if_false : {b : Bool} → b ≡ false → ◌≡◌ {A = ℕ} (if b then 1 else 0) 0
if_false h = ground arith

append-IsUnique :
    (a : Discovered) (file_id : String) (t : Table)
    → first_row (has_content a.partner_id a.checksum_sha256) t ≡ none
    → IsUnique t
    → IsUnique (t ++ new_row file_id a ∷ [])
append-IsUnique a file_id t absent u partner checksum =
    let row = new_row file_id a in
    let counted = count_where-append (has_content partner checksum) t row in
    elim (Bool-cases (has_content partner checksum row)) [
      | inr other ↦ omega (arith, u partner checksum, counted, if_false other)
      | inl own ↦
          let (p, c) = same_content partner checksum file_id a own in
          omega (
            arith,
            counted,
            if_true own,
            count_where-none _ t (
                subst (λ x. first_row (has_content x checksum) t ≡ none) p
                  (subst (λ x. first_row (has_content a.partner_id x) t ≡ none) c absent)),
          )
    ]

own_content :
    (file_id : String) (a : Discovered)
    → has_content a.partner_id a.checksum_sha256 (new_row file_id a) ≡ true
unfolding has_content
own_content file_id a =
    ground (arith, eq_iff a.partner_id a.partner_id, eq_iff a.checksum_sha256 a.checksum_sha256)

-- What a registration that returns leaves behind: the row that it returned stands for the content.
abbrev pub Registers :
    Discovered → Result ManifestError (ManifestRecord × DuplicateKind) → Table → Type 0
Registers a (err e) t' = Unit
Registers a (ok (r, kind)) t' = first_row (has_content a.partner_id a.checksum_sha256) t' ≡ some r

new_file_id :
    (file_id : String) (a : Discovered) (t : Table)
    → violates file_id a t ≡ false
    → first_row (has_file_id file_id) (t ++ new_row file_id a ∷ []) ≡ some (new_row file_id a)
unfolding violates
new_file_id file_id a t fine =
    first_row-append _ t (new_row file_id a)
      (first_row-absent (has_file_id file_id) t (ground arith))
      (ground (arith, eq_iff file_id file_id))

module _ (deterministic_file_id : String → String → String → String) where
  -- `register_discovery`, returning or raising, keeps the contents unique.
  pub register_discovery-IsUnique :
      (a : Discovered) (t : Table)
      → IsUnique t
      → IsUnique (register_discovery deterministic_file_id a t).1
  unfolding register_discovery classify insert_discovery
  register_discovery-IsUnique a t u =
      let file_id = deterministic_file_id settlement_source_name a.partner_id a.checksum_sha256 in
      elim (Option-cases (first_row (has_content a.partner_id a.checksum_sha256) t)) [
        | inr (r, found) ↦ rw found u
        | inl absent ↦ rw absent (elim (Bool-cases (violates file_id a t)) [
          | inl bad ↦ rw bad u
          | inr fine ↦ rw fine (read_back-IsUnique _ t _ _ u (append-IsUnique a file_id t absent u))
        ])
      ]

  insert_discovery-Registers :
      (a : Discovered) (t : Table)
      → first_row (has_content a.partner_id a.checksum_sha256) t ≡ none
      → let (x, t') = insert_discovery deterministic_file_id a t in Registers a x t'
  unfolding insert_discovery violates get read_back
  insert_discovery-Registers a t absent =
      let file_id = deterministic_file_id settlement_source_name a.partner_id a.checksum_sha256 in
      elim (Bool-cases (violates file_id a t)) [
        | inl bad ↦ rw bad tt
        | inr fine ↦
            rw (fine, new_file_id file_id a t fine)
              (first_row-append _ t (new_row file_id a) absent (own_content file_id a))
      ]

  register_discovery-Registers :
      (a : Discovered) (t : Table)
      → let (x, t') = register_discovery deterministic_file_id a t in Registers a x t'
  unfolding register_discovery classify
  register_discovery-Registers a t =
      elim (Option-cases (first_row (has_content a.partner_id a.checksum_sha256) t)) [
        | inl absent ↦ rw absent (insert_discovery-Registers a t absent)
        | inr (r, found) ↦ rw found found
      ]

  -- After a registration that returned a row, registering the same content of the same partner
  -- again, under any name, returns that row, classed by the name alone, and changes nothing.
  pub register_discovery_again :
      (a b : Discovered) (t : Table) (r : ManifestRecord) (kind : DuplicateKind) (t' : Table)
      → register_discovery deterministic_file_id a t ≡ (ok (r, kind), t')
      → b.partner_id ≡ a.partner_id
      → b.checksum_sha256 ≡ a.checksum_sha256
      → register_discovery deterministic_file_id b t' ≡ (ok (r, content_kind b r), t')
  unfolding register_discovery classify
  register_discovery_again a b t r kind t' h same_partner same_checksum =
      let found : first_row (has_content a.partner_id a.checksum_sha256) t' ≡ some r =
        subst (λ o. Registers a o.0 o.1) h (register_discovery-Registers a t) in
      let found_b : first_row (has_content b.partner_id b.checksum_sha256) t' ≡ some r =
        subst (λ p. first_row (has_content p b.checksum_sha256) t' ≡ some r) (sym same_partner)
          (subst (λ c. first_row (has_content a.partner_id c) t' ≡ some r) (sym same_checksum)
            found) in
      rw found_b refl
