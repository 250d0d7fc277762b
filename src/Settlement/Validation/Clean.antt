-- ===== src/Settlement/Validation/Clean.antt =====
-- Reasoning about checks that report nothing: a check never removes an issue, so a run that ends
-- without one had none on the way.
use mathlib.Core.List.{◌++◌ as ◌+++◌}
use fintech_payments_data_pl.Prelude.{
  String, ◌≡◌, refl, ◌∙◌, ap, subst, Bool, true, false, List, [], ◌∷◌, Result, ok, err, pure,
  continue, ◌>>=◌, ◌>>◌, answer,
}
use fintech_payments_data_pl.Settlement.Models.{ValidationIssue}
use fintech_payments_data_pl.Settlement.Contracts.{Fault}
use fintech_payments_data_pl.Settlement.Validation.{Check, report, report_if}

-- A run of the check that ends without an issue had none before; from none, and with `P`, what it
-- returns without an issue satisfies `Q`.
pub record Clean {A : Type 0} (P : Type 0) (m : Check A) (Q : A → Type 0) : Type 0 where
  pub keeps : (s : List ValidationIssue) → (m s).1 ≡ [] → s ≡ []
  pub gives : (a : A) → P → m [] ≡ (ok a, []) → Q a

abbrev pub returned_with :
    {A : Type 0} → A → List ValidationIssue → Result Fault A × List ValidationIssue
returned_with a s = (ok a, s)

result_of :
    {A : Type 0} {a b : A} {s : List ValidationIssue}
    → returned_with a s ≡ returned_with b []
    → (a ≡ b) × (s ≡ [])
result_of e = (cc, cc)

not_added : (s : List ValidationIssue) (i : ValidationIssue) → s +++ i ∷ [] ≡ [] → ⊥
not_added [] i e = cc
not_added (x ∷ s) i e = cc

pub Clean-pure : {A : Type 0} (a : A) → Clean Unit (pure a) (λ x. a ≡ x)
Clean-pure a = record { keeps = λ s e. e; gives = λ x u e. (result_of e).0 }

pub Clean-answer : {A : Type 0} (r : Result Fault A) → Clean Unit (answer r) (λ a. r ≡ ok a)
Clean-answer {A} r = record {
  keeps = λ s e. e;
  gives = λ a u e. ap (λ (x : Result Fault A × List ValidationIssue). x.0) e;
}

pub Clean-report_if :
    (b : Bool) (code message : String) → Clean Unit (report_if b code message) (λ u. b ≡ false)
unfolding report_if report
Clean-report_if true code message = record {
  keeps = λ s e. absurd (not_added s _ e);
  gives = λ a u e. absurd (not_added [] _ (result_of e).1);
}
Clean-report_if false code message = record { keeps = λ s e. e; gives = λ a u e. refl }

-- A report that something follows.
pub Clean-report :
    {A : Type 0} (code message : String) (a : A) (Q : A → Type 0)
    → Clean Unit (report code message >> pure a) Q
unfolding report
Clean-report code message a Q = record {
  keeps = λ s e. absurd (not_added s _ e);
  gives = λ x u e. absurd (not_added [] _ (result_of e).1);
}

-- The last check, with what was found before it.
pub Clean-last :
    {A : Type 0} {P : Type 0} {m : Check A} {Q R : A → Type 0}
    → Clean Unit m Q
    → ((a : A) → P → Q a → R a)
    → Clean P m R
Clean-last k post = record { keeps = k.keeps; gives = λ a p e. post a p (k.gives a tt e) }

module _ {A B : Type 0} {P : Type 0} {m : Check A} {f : A → Check B} {Q : A → Type 0}
    {R : B → Type 0} (first : Clean Unit m Q) (next : (a : A) → Clean (P × Q a) (f a) R) where
  then_keeps : (r : Result Fault A) (s : List ValidationIssue) → (continue r f s).1 ≡ [] → s ≡ []
  then_keeps (ok a) s e = (next a).keeps s e
  then_keeps (err x) s e = e

  then_gives :
      (r : Result Fault A) (s : List ValidationIssue) (b : B)
      → ((a : A) → r ≡ ok a → s ≡ [] → Q a)
      → P
      → continue r f s ≡ (ok b, [])
      → R b
  then_gives (ok a) s b q p e =
      let at : s ≡ [] =
        (next a).keeps s (ap (λ (x : Result Fault B × List ValidationIssue). x.1) e) in
      (next a).gives b (p, q a refl at) (subst (λ x. f a x ≡ (ok b, [])) at e)
  then_gives (err x) s b q p e = absurd cc

  -- One check after another, with what the first one found.
  pub Clean-then : Clean P (m >>= f) R
  Clean-then = record {
    keeps = λ s e. first.keeps s (then_keeps (m s).0 (m s).1 e);
    gives = λ b p e.
        let x = m [] in
        then_gives x.0 x.1 b
          (λ a at none_left.
            first.gives a tt (ap (λ r. (r, x.1)) at ∙ ap (λ l. (ok a, l)) none_left))
          p e;
  }
