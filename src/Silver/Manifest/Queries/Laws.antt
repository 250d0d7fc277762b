-- ===== src/Silver/Manifest/Queries/Laws.antt =====
-- What the query for a completed run finds.
use fintech_payments_data_pl.Prelude.{◌≡◌, Bool, true, false, ◌&&◌, Option, none, some, All, Any}
use fintech_payments_data_pl.Silver.Models.{ProcessingRun, completed}
use fintech_payments_data_pl.Silver.Manifest.{Table, status_eq}
use fintech_payments_data_pl.Silver.Manifest.Queries.{Identity, has_identity}

abbrev is_match : Identity → ProcessingRun → Bool
is_match i r = has_identity i r && status_eq r.status completed

-- The answer to the question whether the table has a completed run of an identity.
abbrev pub Answers : Identity → Table → Option ProcessingRun → Type 0
Answers i t none = All (λ r. (has_identity i r && status_eq r.status completed) ≡ false) t
Answers i t (some r) =
    (has_identity i r ≡ true) × (status_eq r.status completed ≡ true) × Any (λ x. x ≡ r) t
