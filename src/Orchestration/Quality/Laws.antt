-- ===== src/Orchestration/Quality/Laws.antt =====
-- The gates are monotone, and the status of a pipeline is that of its worst result.
use fintech_payments_data_pl.Prelude.{
  ℕ, ◌≤◌, String, ◌≡◌, refl, true, false, List, [], ◌∷◌, All, Any, Bool-cases, inl, inr, ◌⊎◌, arith,
}
use fintech_payments_data_pl.Orchestration.Models.{
  QualityClassification, pass, warn, fail, QualityResult,
}
use fintech_payments_data_pl.Orchestration.Quality.{
  is_class, has_class, pipeline_status_from_quality,
}

abbrev pub severity : QualityClassification → ℕ
severity pass = 0
severity warn = 1
severity fail = 2

is_class→eq : (a b : QualityClassification) → is_class a b ≡ true → a ≡ b
unfolding is_class
is_class→eq a b h = ground arith

module _ {Float : Type 0} where
  -- What the status of a pipeline says of its results.
  abbrev pub Judges : List (QualityResult Float) → String → Type 0
  Judges rs status =
      ((status ≡ "FAILED") × Any (λ r. r.classification ≡ fail) rs)
      ⊎ ((status ≡ "PARTIAL")
          × Any (λ r. r.classification ≡ warn) rs
          × All (λ r. severity r.classification ≤ 1) rs)
      ⊎ ((status ≡ "SUCCEEDED") × All (λ r. r.classification ≡ pass) rs)

  has_class-Any :
      (c : QualityClassification) (rs : List (QualityResult Float))
      → has_class c rs ≡ true
      → Any (λ r. r.classification ≡ c) rs
  unfolding has_class
  has_class-Any c [] h = absurd cc
  has_class-Any c (r ∷ rs) h = elim (Bool-cases (is_class r.classification c)) [
    | inl same ↦ inl (is_class→eq r.classification c same)
    | inr other ↦ inr (has_class-Any c rs (ground arith))
  ]

  no_fail :
      (rs : List (QualityResult Float))
      → has_class fail rs ≡ false
      → All (λ r. severity r.classification ≤ 1) rs
  unfolding has_class is_class
  no_fail [] h = tt
  no_fail (r ∷ rs) h = (ground arith, no_fail rs (ground arith))

  every_pass :
      (rs : List (QualityResult Float))
      → has_class fail rs ≡ false
      → has_class warn rs ≡ false
      → All (λ r. r.classification ≡ pass) rs
  unfolding has_class is_class
  every_pass [] h k = tt
  every_pass (r ∷ rs) h k = (ground arith, every_pass rs (ground arith) (ground arith))

  -- The status is FAILED with a result that failed, PARTIAL with one that warned and none that
  -- failed, and SUCCEEDED only when all passed.
  pub pipeline_status_from_quality-Judges :
      (rs : List (QualityResult Float)) → Judges rs (pipeline_status_from_quality rs)
  unfolding pipeline_status_from_quality
  pipeline_status_from_quality-Judges rs = elim (Bool-cases (has_class fail rs)) [
    | inl failing ↦ rw failing (inl (refl, has_class-Any fail rs failing))
    | inr sound ↦ rw sound (elim (Bool-cases (has_class warn rs)) [
      | inl warning ↦ rw warning (inr (inl (refl, has_class-Any warn rs warning, no_fail rs sound)))
      | inr clean ↦ rw clean (inr (inr (refl, every_pass rs sound clean)))
    ])
  ]
