-- ===== src/Cdc/Recovery/Memory.antt =====
-- A world for the processor that keeps a list of objects and a list of commits in memory.
use fintech_payments_data_pl.Prelude.{
  some_inj, ◌∙◌, ℕ, zero, suc, String, ◌≡◌, refl, sym, ap, subst, true, false, Option, none, some,
  List, [], ◌∷◌, ◌++◌, Result, ok, err, Any, ◌⊎◌, inl, inr, str_eq, Bool-cases, if◌then◌else◌,
  arith,
}
use fintech_payments_data_pl.Storage.{StoredObject}
use fintech_payments_data_pl.Cdc.Retry.{Raised, immutable_collision, timeout}
use fintech_payments_data_pl.Cdc.Storage.{SerializedParquet}
use fintech_payments_data_pl.Cdc.Recovery.{Services}
use fintech_payments_data_pl.Cdc.Recovery.Triples.{Commit, Grows, IsReliable}

-- Objects, commits, and how many commits fail before one succeeds.
pub record World : Type 0 where
  pub objects : List StoredObject
  pub commits : List Commit
  pub commit_faults : ℕ

abbrev pub Answer : Type 0 → Type 0
Answer A = Result Raised A × World

abbrev pub object_at : String → List StoredObject → Option StoredObject
object_at uri [] = none
object_at uri (o ∷ os) = let rest = object_at uri os in if str_eq o.uri uri then some o else rest

abbrev pub put_beside : World → StoredObject → Option StoredObject → Answer StoredObject
put_beside w o none = (ok o, record w { objects = o ∷ w.objects })
put_beside w o (some found) =
    if str_eq found.checksum_sha256 o.checksum_sha256
    then (ok found, w)
    else (err immutable_collision, w)

abbrev pub pair_of : {A : Type 0} → A → World → Answer A
pair_of a w = (ok a, w)

abbrev pub new_object : String → String → SerializedParquet → String → StoredObject
new_object bucket key p type = record {
  bucket = bucket;
  object_key = key;
  uri = key;
  checksum_sha256 = p.checksum_sha256;
  size_bytes = p.size_bytes;
  content_type = type;
  metadata = [];
  already_exists = false;
}

abbrev pub commit_of : String → ℕ → ℕ → Commit
commit_of topic partition next = record { topic = topic; partition = partition; next_offset = next }

abbrev pub commit_with : Commit → ℕ → World → Answer (Unit {0})
commit_with c zero w = (ok tt, record w { commits = w.commits ++ c ∷ [] })
commit_with c (suc n) w = (err timeout, record w { commit_faults = n })

abbrev pub checksum : String
checksum = "0123456789abcdef0123456789abcdef0123456789abcdef0123456789abcdef"

abbrev pub memory : Services
memory = record {
  World = World;
  Instant = String;
  backend = record {
    stat = λ bucket key w. (ok (object_at key w.objects), w);
    put_immutable = λ bucket key p type m w.
        put_beside w (new_object bucket key p type) (object_at key w.objects);
  };
  serialize =
      λ b at w. (ok (record { path = "/tmp/p"; checksum_sha256 = checksum; size_bytes = 10 }), w);
  unlink = λ path w. (ok tt, w);
  commit_offset =
      λ topic partition next w. commit_with (commit_of topic partition next) w.commit_faults w;
  sleep = λ d w. w;
  open_session = λ w. (ok tt, w);
  close_session = λ w. (ok tt, w);
  now = λ w. 7;
  now_text = λ w. "2024-01-01T00:00:00Z";
  parse_instant = λ text. ok text;
  stored_instant = λ text. text;
  utc_isoformat = λ at. at;
  error_name = λ e. "error";
  error_text = λ e. "text";
}

abbrev pub Held : World → String → String → Type 0
Held w uri sum = Any (λ (o : StoredObject). (o.uri ≡ uri) × (o.checksum_sha256 ≡ sum)) w.objects

pub object_at-Any :
    (key : String) (os : List StoredObject) (o : StoredObject)
    → object_at key os ≡ some o
    → Any (λ (x : StoredObject). (x.uri ≡ o.uri) × (x.checksum_sha256 ≡ o.checksum_sha256)) os
object_at-Any key [] o h = absurd cc
object_at-Any key (x ∷ os) o h = elim (Bool-cases (str_eq x.uri key)) [
  | inl same ↦
      let e : x ≡ o = some_inj (sym (rw same refl) ∙ h) in
      inl (ap (λ (y : StoredObject). y.uri) e, ap (λ (y : StoredObject). y.checksum_sha256) e)
  | inr other ↦ inr (object_at-Any key os o (sym (rw other refl) ∙ h))
]

abbrev pub commits_of : World → List Commit
commits_of w = w.commits

pub put-Grows :
    (w : World) (o : StoredObject) (found : Option StoredObject)
    → Grows Held commits_of w (put_beside w o found).1
put-Grows w o none = (λ uri sum h. inr h, refl)
put-Grows w o (some x) = elim (Bool-cases (str_eq x.checksum_sha256 o.checksum_sha256)) [
  | inl same ↦ rw same (λ uri sum h. h, refl)
  | inr other ↦ rw other (λ uri sum h. h, refl)
]

pub returned :
    {A : Type 0} {a b : A} {w w' : World} → pair_of a w ≡ pair_of b w' → (a ≡ b) × (w ≡ w')
returned e = (cc, cc)

here :
    {o p : StoredObject} {w w' : World}
    → Held w o.uri o.checksum_sha256
    → (o ≡ p) × (w ≡ w')
    → Held w' p.uri p.checksum_sha256
here {o} {p} {w} {w'} h (same, at) =
    subst (λ (x : StoredObject). Held w' x.uri x.checksum_sha256) same
      (subst (λ x. Held x o.uri o.checksum_sha256) at h)

kept_object :
    (w : World) (o x : StoredObject)
    → str_eq x.checksum_sha256 o.checksum_sha256 ≡ true
    → put_beside w o (some x) ≡ pair_of x w
kept_object w o x same = rw same refl

pub put-Held :
    (w : World) (key : String) (o : StoredObject) (found : Option StoredObject) (p : StoredObject)
    (w' : World)
    → object_at key w.objects ≡ found
    → put_beside w o found ≡ (ok p, w')
    → Held w' p.uri p.checksum_sha256
put-Held w key o none p w' at e = here (inl (refl, refl)) (returned e)
put-Held w key o (some x) p w' at e =
    elim (Bool-cases (str_eq x.checksum_sha256 o.checksum_sha256)) [
      | inl same ↦
          here {w = w} (object_at-Any key w.objects x at)
            (returned (sym (kept_object w o x same) ∙ e))
      | inr other ↦ absurd (ground arith)
    ]

pub commit-Held :
    (c : Commit) (n : ℕ) (w : World) (uri sum : String)
    → Held w uri sum
    → Held (commit_with c n w).1 uri sum
commit-Held c zero w uri sum h = h
commit-Held c (suc n) w uri sum h = h

pub commit-done :
    (c : Commit) (n : ℕ) (w w' : World)
    → commit_with c n w ≡ (ok tt, w')
    → w'.commits ≡ w.commits ++ c ∷ []
commit-done c zero w w' e = ap commits_of (sym (returned e).1)
commit-done c (suc n) w w' e = absurd cc

pub commit-adds :
    (c : Commit) (n : ℕ) (w : World)
    → ((commit_with c n w).1.commits ≡ w.commits)
      ⊎ ((commit_with c n w).1.commits ≡ w.commits ++ c ∷ [])
commit-adds c zero w = inr refl
commit-adds c (suc n) w = inl refl

pub stays : (w : World) → Grows Held commits_of w w
stays w = (λ uri sum h. h, refl)

unfoldable pub memory-IsReliable : IsReliable memory
memory-IsReliable = record {
  Held = Held;
  commits = commits_of;
  stat_grows = λ bucket key w. stays w;
  stat_held = λ bucket key w o w' e.
      let (found, at) = returned e in
      subst (λ x. Held x o.uri o.checksum_sha256) at (object_at-Any key w.objects o found);
  put_grows =
      λ bucket key p type m w. put-Grows w (new_object bucket key p type) (object_at key w.objects);
  put_held = λ bucket key p type m w o w' e.
      put-Held w key (new_object bucket key p type) (object_at key w.objects) o w' refl e;
  serialize_grows = λ b at w. stays w;
  unlink_grows = λ path w. stays w;
  sleep_grows = λ d w. stays w;
  open_grows = λ w. stays w;
  close_grows = λ w. stays w;
  commit_holds =
      λ topic partition next w. commit-Held (commit_of topic partition next) w.commit_faults w;
  commit_done = λ topic partition next w w'.
      commit-done (commit_of topic partition next) w.commit_faults w w';
  commit_adds =
      λ topic partition next w. commit-adds (commit_of topic partition next) w.commit_faults w;
}
