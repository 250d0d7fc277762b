-- ===== src/Silver/Deduplication/Laws.antt =====
-- `deduplicate_events` loses nothing, accepts no duplicate, and rejects only duplicates.
use mathlib.Core.List.{Perm, perm_middle}
use mathlib.Core.List.Perm
use fintech_payments_data_pl.Prelude.{
  ◌≡◌, true, false, List, [], ◌∷◌, ◌++◌, map, All, Any, arith, str_eq, Bool-cases, inl, inr, ◌⊎◌,
}
use fintech_payments_data_pl.Silver.Models.{
  NormalizedCdcEvent, QualityCode, duplicate_event, duplicate_coordinate,
}
use fintech_payments_data_pl.Silver.Deduplication.{
  Outcome, deduplicate_events, sift, sort_events, insert_event, comes_first, has_coordinate, has_id,
  same_coordinate,
}

insert_event-perm :
    (e : NormalizedCdcEvent) (es : List NormalizedCdcEvent) → Perm (insert_event e es) (e ∷ es)
unfolding insert_event
insert_event-perm e [] = Perm.refl (e ∷ [])
insert_event-perm e (x ∷ xs) = elim (Bool-cases (comes_first e x)) [
  | inl before ↦ rw before (Perm.refl (e ∷ x ∷ xs))
  | inr behind ↦ rw behind (Perm.trans (Perm.cons x (insert_event-perm e xs)) (Perm.swap e x xs))
]

sort_events-perm : (es : List NormalizedCdcEvent) → Perm (sort_events es) es
unfolding sort_events
sort_events-perm [] = Perm.refl []
sort_events-perm (e ∷ es) =
    Perm.trans (insert_event-perm e (sort_events es)) (Perm.cons e (sort_events-perm es))

-- All events of an outcome.
abbrev pub events_of : Outcome → List NormalizedCdcEvent
events_of o = o.accepted ++ map (λ r. r.0) o.rejected

sift-perm : (seen es : List NormalizedCdcEvent) → Perm (events_of (sift seen es)) es
unfolding sift
sift-perm seen [] = Perm.refl []
sift-perm seen (e ∷ es) = elim (Bool-cases (has_coordinate e seen)) [
  | inl dup ↦ rw dup (Perm.trans (perm_middle _ _) (Perm.cons e (sift-perm seen es)))
  | inr new ↦ rw new (elim (Bool-cases (has_id e seen)) [
    | inl dup ↦ rw dup (Perm.trans (perm_middle _ _) (Perm.cons e (sift-perm seen es)))
    | inr fresh ↦ rw fresh (Perm.cons e (sift-perm (e ∷ seen) es))
  ])
]

-- Two events that neither of the two sets takes for the same.
abbrev pub Differs : NormalizedCdcEvent → NormalizedCdcEvent → Type 0
Differs a b = (same_coordinate a b ≡ false) × (str_eq a.event_id b.event_id ≡ false)

abbrev pub Distinct : List NormalizedCdcEvent → Type 0
Distinct [] = Unit
Distinct (e ∷ es) = All (Differs e) es × Distinct es

unseen-Differs :
    (e : NormalizedCdcEvent) (seen : List NormalizedCdcEvent)
    → has_coordinate e seen ≡ false
    → has_id e seen ≡ false
    → All (λ s. Differs s e) seen
unfolding has_coordinate has_id
unseen-Differs e [] h k = tt
unseen-Differs e (x ∷ xs) h k =
    ((ground arith, ground arith), unseen-Differs e xs (ground arith) (ground arith))

-- Nothing that the loop accepts is taken for something seen.
abbrev Avoids : List NormalizedCdcEvent → List NormalizedCdcEvent → Type 0
Avoids seen accepted = All (λ s. All (Differs s) accepted) seen

avoid_none : (seen : List NormalizedCdcEvent) → Avoids seen []
avoid_none [] = tt
avoid_none (s ∷ seen) = (tt, avoid_none seen)

avoid_more :
    (e : NormalizedCdcEvent) (seen accepted : List NormalizedCdcEvent)
    → All (λ s. Differs s e) seen
    → Avoids seen accepted
    → Avoids seen (e ∷ accepted)
avoid_more e [] accepted h k = tt
avoid_more e (s ∷ seen) accepted h k = ((h.0, k.0), avoid_more e seen accepted h.1 k.1)

sift-Avoids : (seen es : List NormalizedCdcEvent) → Avoids seen (sift seen es).accepted
unfolding sift
sift-Avoids seen [] = avoid_none seen
sift-Avoids seen (e ∷ es) = elim (Bool-cases (has_coordinate e seen)) [
  | inl dup ↦ rw dup (sift-Avoids seen es)
  | inr new ↦ rw new (elim (Bool-cases (has_id e seen)) [
    | inl dup ↦ rw dup (sift-Avoids seen es)
    | inr fresh ↦
        rw fresh
          (avoid_more e seen _ (unseen-Differs e seen new fresh) (sift-Avoids (e ∷ seen) es).1)
  ])
]

sift-Distinct : (seen es : List NormalizedCdcEvent) → Distinct (sift seen es).accepted
unfolding sift
sift-Distinct seen [] = tt
sift-Distinct seen (e ∷ es) = elim (Bool-cases (has_coordinate e seen)) [
  | inl dup ↦ rw dup (sift-Distinct seen es)
  | inr new ↦ rw new (elim (Bool-cases (has_id e seen)) [
    | inl dup ↦ rw dup (sift-Distinct seen es)
    | inr fresh ↦ rw fresh ((sift-Avoids (e ∷ seen) es).0, sift-Distinct (e ∷ seen) es)
  ])
]

-- The reason that a code gives for turning `e` down in favour of `a`.
abbrev pub Explains : NormalizedCdcEvent → NormalizedCdcEvent → QualityCode → Type 0
Explains a e duplicate_coordinate = same_coordinate a e ≡ true
Explains a e duplicate_event = (same_coordinate a e ≡ false) × (str_eq a.event_id e.event_id ≡ true)
Explains a e _ = ⊥

abbrev pub Explained : List NormalizedCdcEvent → NormalizedCdcEvent × QualityCode → Type 0
Explained accepted r = Any (λ a. Explains a r.0 r.1) accepted

find_coordinate :
    (e : NormalizedCdcEvent) (seen : List NormalizedCdcEvent)
    → has_coordinate e seen ≡ true
    → Explained seen (e, duplicate_coordinate)
unfolding has_coordinate
find_coordinate e [] h = absurd cc
find_coordinate e (x ∷ xs) h = elim (Bool-cases (same_coordinate x e)) [
  | inl same ↦ inl same
  | inr other ↦ inr (find_coordinate e xs (ground arith))
]

find_id :
    (e : NormalizedCdcEvent) (seen : List NormalizedCdcEvent)
    → has_coordinate e seen ≡ false
    → has_id e seen ≡ true
    → Explained seen (e, duplicate_event)
unfolding has_coordinate has_id
find_id e [] n h = absurd cc
find_id e (x ∷ xs) n h = elim (Bool-cases (str_eq x.event_id e.event_id)) [
  | inl same ↦ inl (ground arith, same)
  | inr other ↦ inr (find_id e xs (ground arith) (ground arith))
]

-- Explained by something seen or by something that the loop accepts.
abbrev FromEither :
    List NormalizedCdcEvent → List NormalizedCdcEvent → NormalizedCdcEvent × QualityCode → Type 0
FromEither seen accepted r = Explained seen r ⊎ Explained accepted r

move_seen :
    (e : NormalizedCdcEvent) (seen accepted : List NormalizedCdcEvent)
    (rs : List (NormalizedCdcEvent × QualityCode))
    → All (FromEither (e ∷ seen) accepted) rs
    → All (FromEither seen (e ∷ accepted)) rs
move_seen e seen accepted [] h = tt
move_seen e seen accepted (r ∷ rs) h = (
  elim h.0 [
    | inl (inl now) ↦ inr (inl now)
    | inl (inr before) ↦ inl before
    | inr later ↦ inr (inr later)
  ],
  move_seen e seen accepted rs h.1,
)

sift-All_explained :
    (seen es : List NormalizedCdcEvent)
    → All (FromEither seen (sift seen es).accepted) (sift seen es).rejected
unfolding sift
sift-All_explained seen [] = tt
sift-All_explained seen (e ∷ es) = elim (Bool-cases (has_coordinate e seen)) [
  | inl dup ↦ rw dup (inl (find_coordinate e seen dup), sift-All_explained seen es)
  | inr new ↦ rw new (elim (Bool-cases (has_id e seen)) [
    | inl dup ↦ rw dup (inl (find_id e seen new dup), sift-All_explained seen es)
    | inr fresh ↦ rw fresh (move_seen e seen _ _ (sift-All_explained (e ∷ seen) es))
  ])
]

from_accepted :
    (accepted : List NormalizedCdcEvent) (rs : List (NormalizedCdcEvent × QualityCode))
    → All (FromEither [] accepted) rs
    → All (Explained accepted) rs
from_accepted accepted [] h = tt
from_accepted accepted (r ∷ rs) h =
    (elim h.0 [ inl bad ↦ absurd bad | inr k ↦ k ], from_accepted accepted rs h.1)

-- Every event given is accepted or rejected exactly once; the accepted ones have different
-- coordinates and different ids; and each rejected one has an accepted event with its coordinate
-- (DUPLICATE_COORDINATE), or with its id and another coordinate (DUPLICATE_EVENT).
pub deduplicate_events-Partitions :
    (es : List NormalizedCdcEvent)
    → let o = deduplicate_events es in
      Perm (events_of o) es × Distinct o.accepted × All (Explained o.accepted) o.rejected
unfolding deduplicate_events
deduplicate_events-Partitions es = (
  Perm.trans (sift-perm [] (sort_events es)) (sort_events-perm es),
  sift-Distinct [] (sort_events es),
  from_accepted _ _ (sift-All_explained [] (sort_events es)),
)
