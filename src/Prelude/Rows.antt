-- ===== src/Prelude/Rows.antt =====
-- Rows of a SQL table: updates by a condition, and how a table may change row by row.
use Prim.Native.Nat.{ℕ, ◌+◌}
use mathlib.Core.Path.{◌≡◌, refl, sym, ◌∙◌, ap, subst}
use mathlib.Core.Bool.{Bool, true, false}
use mathlib.Core.Logic.{◌⊎◌, inl, inr}
use mathlib.Core.Option.{Option, none, some}
use mathlib.Core.List.{List, [], ◌∷◌, ◌++◌}
use native.Mathlib.Omega.{arith}
use fintech_payments_data_pl.Prelude.Tests.{if◌then◌else◌, Bool-cases, some_inj}
use fintech_payments_data_pl.Prelude.Lists.{All, Any}

module _ {R : Type 0} where
  -- `SELECT * ... WHERE test`, its first row
  unfoldable pub first_row : (R → Bool) → List R → Option R
  first_row test [] = none
  first_row test (r ∷ t) = if test r then some r else first_row test t

  -- `UPDATE ... SET f WHERE test`, and its `rowcount`
  unfoldable pub update_where : (R → Bool) → (R → R) → List R → List R
  update_where test f [] = []
  update_where test f (r ∷ t) =
      let rest = update_where test f t in if test r then f r ∷ rest else r ∷ rest

  unfoldable pub count_where : (R → Bool) → List R → ℕ
  count_where test [] = 0
  count_where test (r ∷ t) = let rest = count_where test t in if test r then rest + 1 else rest

  -- The rows in the order of a comparison.
  unfoldable pub insert_by : (R → R → Bool) → R → List R → List R
  insert_by order r [] = r ∷ []
  insert_by order r (x ∷ t) =
      let rest = insert_by order r t in if order r x then r ∷ x ∷ t else x ∷ rest

  unfoldable pub sort_by : (R → R → Bool) → List R → List R
  unfolding insert_by
  sort_by order [] = []
  sort_by order (r ∷ t) = insert_by order r (sort_by order t)

  pub first_row-test :
      (test : R → Bool) (t : List R) (r : R) → first_row test t ≡ some r → test r ≡ true
  unfolding first_row
  first_row-test test [] r h = cc
  first_row-test test (x ∷ t) r h = ground (arith, first_row-test test t r)

  -- Each row of the first table is, in its place, related to a row of the second, which may have
  -- more rows at its end.
  abbrev pub Evolves : (R → R → Type 0) → List R → List R → Type 0
  Evolves Q [] t' = Unit
  Evolves Q (r ∷ t) [] = ⊥
  Evolves Q (r ∷ t) (r' ∷ t') = Q r r' × Evolves Q t t'

module _ {R : Type 0} (Q : R → R → Type 0) (q : (r : R) → Q r r) where
  pub Evolves-refl : (t : List R) → Evolves Q t t
  Evolves-refl [] = tt
  Evolves-refl (r ∷ t) = (q r, Evolves-refl t)

  pub Evolves-append : (t rows : List R) → Evolves Q t (t ++ rows)
  Evolves-append [] rows = tt
  Evolves-append (r ∷ t) rows = (q r, Evolves-append t rows)

  pub Evolves-update_where :
      (test : R → Bool) (f : R → R) (t : List R)
      → ((r : R) → test r ≡ true → Q r (f r))
      → Evolves Q t (update_where test f t)
  unfolding update_where
  Evolves-update_where test f [] h = tt
  Evolves-update_where test f (r ∷ t) h = elim (Bool-cases (test r)) [
    | inl hit ↦ rw hit (h r hit, Evolves-update_where test f t h)
    | inr miss ↦ rw miss (q r, Evolves-update_where test f t h)
  ]

module _ {R : Type 0} (Q : R → R → Type 0) (join : (a b c : R) → Q a b → Q b c → Q a c) where
  pub Evolves-trans : (s t u : List R) → Evolves Q s t → Evolves Q t u → Evolves Q s u
  Evolves-trans [] t u h k = tt
  Evolves-trans (a ∷ s) [] u h k = absurd h
  Evolves-trans (a ∷ s) (b ∷ t) [] h k = absurd k
  Evolves-trans (a ∷ s) (b ∷ t) (c ∷ u) h k = (join a b c h.0 k.0, Evolves-trans s t u h.1 k.1)

module _ {R : Type 0} where
  pub first_row-none :
      (test : R → Bool) (t : List R) → first_row test t ≡ none → All (λ r. test r ≡ false) t
  unfolding first_row
  first_row-none test [] h = tt
  first_row-none test (r ∷ t) h = elim (Bool-cases (test r)) [
    | inl hit ↦ absurd (ground arith)
    | inr miss ↦ (miss, first_row-none test t (ground arith))
  ]

  pub first_row-Any :
      (P : R → Type 0) (test : R → Bool) (t : List R) (r : R)
      → first_row test t ≡ some r
      → P r
      → Any P t
  unfolding first_row
  first_row-Any P test [] r h p = absurd cc
  first_row-Any P test (x ∷ t) r h p = elim (Bool-cases (test x)) [
    | inl hit ↦ inl (subst P (sym (some_inj (sym (rw hit refl) ∙ h))) p)
    | inr miss ↦ inr (first_row-Any P test t r (sym (rw miss refl) ∙ h) p)
  ]

  sort_step :
      (P : R → Type 0) (order : R → R → Bool) (r : R) (t : List R)
      → All P (insert_by order r t)
      → P r × All P t
  unfolding insert_by
  sort_step P order r [] h = h
  sort_step P order r (x ∷ t) h = elim (Bool-cases (order r x)) [
    | inl before ↦ subst (λ b. All P (if b then r ∷ x ∷ t else x ∷ insert_by order r t)) before h
    | inr behind ↦
        let (p, rest) =
          subst (λ b. All P (if b then r ∷ x ∷ t else x ∷ insert_by order r t)) behind h in
        let (q, more) = sort_step P order r t rest in (q, (p, more))
  ]

  pub All-sort_by :
      (P : R → Type 0) (order : R → R → Bool) (t : List R) → All P (sort_by order t) → All P t
  unfolding sort_by
  All-sort_by P order [] h = tt
  All-sort_by P order (r ∷ t) h =
      let (p, rest) = sort_step P order r (sort_by order t) h in (p, All-sort_by P order t rest)

  found_step :
      (P : R → Type 0) (order : R → R → Bool) (r : R) (t : List R)
      → Any P (insert_by order r t)
      → P r ⊎ Any P t
  unfolding insert_by
  found_step P order r [] h = h
  found_step P order r (x ∷ t) h = elim (Bool-cases (order r x)) [
    | inl before ↦ subst (λ b. Any P (if b then r ∷ x ∷ t else x ∷ insert_by order r t)) before h
    | inr behind ↦
        elim (subst (λ b. Any P (if b then r ∷ x ∷ t else x ∷ insert_by order r t)) behind h) [
          | inl p ↦ inr (inl p)
          | inr rest ↦ elim (found_step P order r t rest) [ inl p ↦ inl p | inr q ↦ inr (inr q) ]
        ]
  ]

  pub Any-sort_by :
      (P : R → Type 0) (order : R → R → Bool) (t : List R) → Any P (sort_by order t) → Any P t
  unfolding sort_by
  Any-sort_by P order [] h = absurd h
  Any-sort_by P order (r ∷ t) h = elim (found_step P order r (sort_by order t) h) [
    | inl p ↦ inl p
    | inr rest ↦ inr (Any-sort_by P order t rest)
  ]

  -- A condition on what `Q` keeps finds, in the evolved table, what the row that it found has
  -- become.
  pub Evolves-first_row :
      (Q : R → R → Type 0) (test : R → Bool)
      → ((a b : R) → Q a b → test b ≡ test a)
      → (t t' : List R) (r : R) → Evolves Q t t'
      → first_row test t ≡ some r
      → (r' : R) × (first_row test t' ≡ some r') × Q r r'
  unfolding first_row
  Evolves-first_row Q test same [] t' r e h = absurd cc
  Evolves-first_row Q test same (x ∷ t) [] r e h = absurd e
  Evolves-first_row Q test same (x ∷ t) (x' ∷ t') r e h = elim (Bool-cases (test x)) [
    | inl hit ↦ (
      x',
      rw (same x x' e.0, hit) refl,
      subst (λ y. Q y x') (some_inj (sym (rw hit refl) ∙ h)) e.0,
    )
    | inr miss ↦
        let (r', found, q) = Evolves-first_row Q test same t t' r e.1 (sym (rw miss refl) ∙ h) in
        (r', rw (same x x' e.0, miss) found, q)
  ]

module _ {R : Type 0} where
  pub first_row-append :
      (test : R → Bool) (t : List R) (r : R)
      → first_row test t ≡ none
      → test r ≡ true
      → first_row test (t ++ r ∷ []) ≡ some r
  unfolding first_row
  first_row-append test [] r h k = rw k refl
  first_row-append test (x ∷ t) r h k = elim (Bool-cases (test x)) [
    | inl hit ↦ absurd (ground arith)
    | inr miss ↦ rw miss (first_row-append test t r (sym (rw miss refl) ∙ h) k)
  ]

  pub first_row-absent :
      (test : R → Bool) (t : List R) → count_where test t ≡ 0 → first_row test t ≡ none
  unfolding first_row count_where
  first_row-absent test [] h = refl
  first_row-absent test (x ∷ t) h = elim (Bool-cases (test x)) [
    | inl hit ↦ absurd (ground arith)
    | inr miss ↦ rw miss (first_row-absent test t (sym (rw miss refl) ∙ h))
  ]

  pub count_where-append :
      (test : R → Bool) (t : List R) (r : R)
      → count_where test (t ++ r ∷ []) ≡ count_where test t + (if test r then 1 else 0)
  unfolding count_where
  count_where-append test [] r = ground arith
  count_where-append test (x ∷ t) r = ground (arith, count_where-append test t r)

  pub count_where-none :
      (test : R → Bool) (t : List R) → first_row test t ≡ none → count_where test t ≡ 0
  unfolding first_row count_where
  count_where-none test [] h = refl
  count_where-none test (x ∷ t) h = elim (Bool-cases (test x)) [
    | inl hit ↦ absurd (ground arith)
    | inr miss ↦ rw miss (count_where-none test t (sym (rw miss refl) ∙ h))
  ]

  pub count_where-update_where :
      (test p : R → Bool) (f : R → R) (t : List R)
      → ((r : R) → test (f r) ≡ test r)
      → count_where test (update_where p f t) ≡ count_where test t
  unfolding count_where update_where
  count_where-update_where test p f [] same = refl
  count_where-update_where test p f (x ∷ t) same =
      ground (arith, same x, count_where-update_where test p f t same)

module _ {R : Type 0} where
  -- What an update makes of the row that a condition finds, when it keeps the condition.
  pub first_row-update_where :
      (p test : R → Bool) (f : R → R) (t : List R) (r : R)
      → ((x : R) → p (f x) ≡ p x)
      → first_row p t ≡ some r
      → test r ≡ true
      → first_row p (update_where test f t) ≡ some (f r)
  unfolding first_row update_where
  first_row-update_where p test f [] r same h k = absurd cc
  first_row-update_where p test f (x ∷ t) r same h k = elim (Bool-cases (p x)) [
    | inl hit ↦
        let own : x ≡ r = some_inj (rw hit at h) in
        let target : test x ≡ true = subst (λ y. test y ≡ true) (sym own) k in
        rw target (rw (same x, hit) (ap (λ y. some (f y)) own))
    | inr miss ↦
        let rest = first_row-update_where p test f t r same (rw miss at h) k in
        elim (Bool-cases (test x)) [
          | inl target ↦ rw target (rw (same x, miss) rest)
          | inr other ↦ rw other (rw miss rest)
        ]
  ]
