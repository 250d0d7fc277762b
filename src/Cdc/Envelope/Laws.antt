-- ===== src/Cdc/Envelope/Laws.antt =====
-- What a parsed record has of its Kafka message.
use fintech_payments_data_pl.Prelude.{
  ℕ, String, ◌≡◌, refl, ◌∙◌, Bool, true, false, not, ◌&&◌, ◌||◌, Option, none, some, [], ◌∷◌,
  Result, ok, err, pure, continue, str_eq, eq_iff, Bool-cases, inl, inr, ◌⊎◌, arith, subst, ap,
}
use fintech_payments_data_pl.Prelude.Int.{ℤ}
use fintech_payments_data_pl.Prelude.Dict.{Dict, get}
use fintech_payments_data_pl.Storage.{text_Eq}
use fintech_payments_data_pl.Cdc.Models.{BronzeEvent}
use fintech_payments_data_pl.Cdc.Envelope.{
  KafkaMessage, ParsedMessage, event, heartbeat, poison, EnvelopeError, Decoded, bad_encoding,
  bad_json, decoded, ToInt, integer, invalid, overflows, Python, Parse, deterministic_event_id,
  event_date, poison_of, check_time, poisoned, field, has_key, int_of, optional_int, json_of,
  is_kept, tombstone, or_poison, change_of, build_event, check_states, check_coordinates,
  check_source, unsupported, check_text, check_operation, check_payload, check_document,
  check_decoded, parse_value, parse_debezium_message, as_int,
}

abbrev pub HasValue : {A : Type 0} → Option A → Type 0
HasValue {A = A} o = (a : A) × (o ≡ some a)

module _ {J Bytes : Type 0} (py : Python J Bytes) (m : KafkaMessage Bytes) (schema_version : String)
    (observed_at : ℕ) where
  -- A deletion with its before state, or another operation with its after state, of a source position.
  pub record IsChange (e : BronzeEvent) : Type 0 where
    pub value : HasValue m.value
    pub not_tombstone : e.is_tombstone ≡ false
    pub deleted : e.is_deleted ≡ str_eq e.operation "d"
    pub snapshot : e.is_snapshot ≡ str_eq e.operation "r"
    pub state :
        ((e.operation ≡ "d") × HasValue e.before_json)
        ⊎ ((is_kept py e.operation ≡ true) × HasValue e.after_json)
    pub position : HasValue e.source_lsn

  pub record IsTombstone (e : BronzeEvent) : Type 0 where
    pub no_value : m.value ≡ none
    pub tombstone : e.is_tombstone ≡ true
    pub deleted : e.is_deleted ≡ true
    pub operation : e.operation ≡ "t"

  pub record FromMessage (e : BronzeEvent) : Type 0 where
    pub event_id : e.event_id ≡ deterministic_event_id py m.topic m.partition m.offset
    pub topic : e.kafka_topic ≡ m.topic
    pub partition : e.kafka_partition ≡ m.partition
    pub offset : e.kafka_offset ≡ m.offset
    pub kind : IsTombstone e ⊎ IsChange e

  -- What is said of each outcome.
  abbrev pub IsFaithful : ParsedMessage → Type 0
  IsFaithful (event e) = FromMessage e
  IsFaithful heartbeat = HasValue m.value
  IsFaithful (poison p) =
      HasValue m.value
      × (p.event_id ≡ deterministic_event_id py m.topic m.partition m.offset)
      × (p.original_topic ≡ m.topic)
      × (p.original_partition ≡ m.partition)
      × (p.original_offset ≡ m.offset)

  abbrev Sound : Result EnvelopeError ParsedMessage × Unit {0} → Type 0
  Sound (ok p, u) = IsFaithful p
  Sound (err e, u) = Unit

  then_Sound :
      {A : Type 0} (r : Result EnvelopeError A) (u : Unit {0}) (k : A → Parse ParsedMessage)
      → ((a : A) → r ≡ ok a → Sound (k a tt))
      → Sound (continue r k u)
  then_Sound (ok a) u k h = h a refl
  then_Sound (err e) u k h = tt

  tombstone-Sound : m.value ≡ none → Sound (tombstone py m schema_version observed_at tt)
  unfolding tombstone
  tombstone-Sound absent =
      let x = event_date py (as_int py m.timestamp_ms ∷ []) tt in
      then_Sound x.0 x.1 _ λ date e. record {
        event_id = refl;
        topic = refl;
        partition = refl;
        offset = refl;
        kind =
            inl (record { no_value = absent; tombstone = refl; deleted = refl; operation = refl });
      }

  module _ (here : HasValue m.value) where
    poisoned-Sound : (code message : String) → Sound (poisoned py m code message tt)
    unfolding poisoned poison_of
    poisoned-Sound code message =
        let x = check_time py (as_int py m.timestamp_ms) tt in
        then_Sound x.0 x.1 _ (λ u e. (here, refl, refl, refl, refl))

    or_poison-Sound :
        (o : Option (Option ℤ)) (k : Option ℤ → Parse ParsedMessage)
        → ((z : Option ℤ) → o ≡ some z → Sound (k z tt))
        → Sound (or_poison py m schema_version observed_at o k tt)
    unfolding or_poison
    or_poison-Sound none k h = poisoned-Sound _ _
    or_poison-Sound (some z) k h = h z refl

    -- A position that is there is a number.
    int-HasValue : (i : ToInt) (z : Option ℤ) → (int_of py i tt).0 ≡ ok (some z) → HasValue z
    unfolding int_of
    int-HasValue (integer n) z e = (n, cc)
    int-HasValue invalid z e = absurd cc
    int-HasValue overflows z e = absurd cc

    position-HasValue :
        (lsn : J) (z : Option ℤ) → (optional_int py (some lsn) tt).0 ≡ ok (some z) → HasValue z
    unfolding optional_int
    position-HasValue lsn z e = int-HasValue (py.to_int lsn) z e

    -- What the states must be.
    abbrev HasStates : Dict String J → String → Type 0
    HasStates payload op =
        ((op ≡ "d") × HasValue (json_of py (field py "before" payload)))
        ⊎ ((is_kept py op ≡ true) × HasValue (json_of py (field py "after" payload)))

    -- The event of a payload, on the date that is found for it.
    dated-Sound :
        (payload : Dict String J) (op table source_json raw_text : String)
        (lsn tx_id source_ts connector_ts : Option ℤ) (r : Result EnvelopeError String)
        (u : Unit {0})
        → HasStates payload op
        → HasValue lsn
        → Sound (
            continue r
              (λ date. pure (
                event (
                  change_of py m schema_version observed_at op table source_json raw_text
                    (json_of py (field py "before" payload))
                    (json_of py (field py "after" payload))
                    lsn
                    tx_id
                    source_ts
                    connector_ts
                    date)))
              u)
    unfolding change_of
    dated-Sound payload op table source_json raw_text lsn tx_id source_ts connector_ts (ok date) u
          states position =
        record {
          event_id = refl;
          topic = refl;
          partition = refl;
          offset = refl;
          kind = inr (record {
            value = here;
            not_tombstone = refl;
            deleted = refl;
            snapshot = refl;
            state = states;
            position = position;
          });
        }
    dated-Sound payload op table source_json raw_text lsn tx_id source_ts connector_ts (err e) u
          states position =
        tt

    build_event-Sound :
        (payload source : Dict String J) (op : String) (table lsn : J)
        (source_json raw_text : String)
        → HasStates payload op
        → Sound (
            build_event py m schema_version observed_at payload source op table lsn source_json
              raw_text tt)
    unfolding build_event change_of
    build_event-Sound payload source op table lsn source_json raw_text states =
        then_Sound (optional_int py (some lsn) tt).0 (optional_int py (some lsn) tt).1 _ λ o1 e1.
          or_poison-Sound o1 _ λ z1 at1.
            then_Sound (optional_int py (field py "txId" source) tt).0
              (optional_int py (field py "txId" source) tt).1 _
              λ o2 e2. or_poison-Sound o2 _ λ z2 at2.
                then_Sound (optional_int py (field py "ts_ms" source) tt).0
                  (optional_int py (field py "ts_ms" source) tt).1 _
                  λ o3 e3. or_poison-Sound o3 _ λ z3 at3.
                    then_Sound (optional_int py (field py "ts_ms" payload) tt).0
                      (optional_int py (field py "ts_ms" payload) tt).1 _
                      λ o4 e4. or_poison-Sound o4 _ λ z4 at4.
                        dated-Sound payload op (py.str_of table) source_json raw_text z1 z2 z3 z4
                          (event_date py (z3 ∷ z4 ∷ as_int py m.timestamp_ms ∷ []) tt).0 _ states
                          (position-HasValue lsn z1 (e1 ∙ ap ok at1))

    json-HasValue : (o : Option J) → has_key py o ≡ true → HasValue (json_of py o)
    unfolding has_key json_of
    json-HasValue none h = absurd cc
    json-HasValue (some j) h = (py.dumps j, refl)

    both : (a b : Bool) → (a && not b) ≡ false → a ≡ true → b ≡ true
    both a b h k = ground arith

    either : (a b : Bool) → (a || b) ≡ true → b ≡ false → a ≡ true
    either a b h k = ground arith

    states_of :
        (payload : Dict String J) (op : String)
        → (is_kept py op || str_eq op "d") ≡ true
        → (str_eq op "d" && not (has_key py (field py "before" payload))) ≡ false
        → (is_kept py op && not (has_key py (field py "after" payload))) ≡ false
        → HasStates payload op
    states_of payload op known kept full = elim (Bool-cases (str_eq op "d")) [
      | inl deletion ↦ inl (
        (eq_iff op "d").0 deletion,
        json-HasValue (field py "before" payload) (both _ _ kept deletion),
      )
      | inr other ↦
          let change = either (is_kept py op) (str_eq op "d") known other in
          inr (change, json-HasValue (field py "after" payload) (both _ _ full change))
    ]

    check_states-Sound :
        (payload source : Dict String J) (op : String) (table lsn : J)
        (source_json raw_text : String)
        → (is_kept py op || str_eq op "d") ≡ true
        → Sound (
            check_states py m schema_version observed_at payload source op table lsn source_json
              raw_text tt)
    unfolding check_states
    check_states-Sound payload source op table lsn source_json raw_text known =
        elim (Bool-cases (str_eq op "d" && not (has_key py (field py "before" payload)))) [
          | inl lost ↦ rw lost (poisoned-Sound _ _)
          | inr kept ↦
              rw kept
                (elim (Bool-cases (is_kept py op && not (has_key py (field py "after" payload)))) [
                  | inl lost ↦ rw lost (poisoned-Sound _ _)
                  | inr full ↦ rw full (
                      build_event-Sound payload source op table lsn source_json raw_text
                        (states_of payload op known kept full))
                ])
        ]

    check_source-Sound :
        (payload : Dict String J) (op : String) (source : Option (Dict String J))
        (raw_text : String)
        → (is_kept py op || str_eq op "d") ≡ true
        → Sound (check_source py m schema_version observed_at payload op source raw_text tt)
    unfolding check_source check_coordinates
    check_source-Sound payload op none raw_text known = poisoned-Sound _ _
    check_source-Sound payload op (some source) raw_text known =
        coordinates (field py "table" source) (field py "lsn" source) _
      where
        coordinates :
            (table lsn : Option J) (source_json : String)
            → Sound (
                check_coordinates py m schema_version observed_at payload source op table lsn
                  source_json raw_text tt)
        coordinates (some table) (some lsn) source_json =
            check_states-Sound payload source op table lsn source_json raw_text known
        coordinates (some table) none source_json = poisoned-Sound _ _
        coordinates none lsn source_json = poisoned-Sound _ _

    check_text-Sound :
        (payload : Dict String J) (op : Option String) (raw_text : String)
        → Sound (check_text py m schema_version observed_at payload op raw_text tt)
    unfolding check_text unsupported
    check_text-Sound payload none raw_text = poisoned-Sound _ _
    check_text-Sound payload (some op) raw_text =
        elim (Bool-cases (is_kept py op || str_eq op "d")) [
          | inl known ↦ rw known (check_source-Sound payload op _ raw_text known)
          | inr other ↦ rw other (poisoned-Sound _ _)
        ]

    check_operation-Sound :
        (payload : Dict String J) (op : Option J) (raw_text : String)
        → Sound (check_operation py m schema_version observed_at payload op raw_text tt)
    unfolding check_operation unsupported
    check_operation-Sound payload none raw_text =
        elim (Bool-cases (has_key py (get "ts_ms" payload))) [
          | inl beat ↦ rw beat here
          | inr lost ↦ rw lost (poisoned-Sound _ _)
        ]
    check_operation-Sound payload (some op) raw_text = elim (Bool-cases (py.is_hashable op)) [
      | inl fine ↦ rw fine (check_text-Sound payload (py.as_text op) raw_text)
      | inr wild ↦ rw wild tt
    ]

    check_payload-Sound :
        (payload : Option (Dict String J)) (raw_text : String)
        → Sound (check_payload py m schema_version observed_at payload raw_text tt)
    unfolding check_payload
    check_payload-Sound none raw_text = poisoned-Sound _ _
    check_payload-Sound (some payload) raw_text = check_operation-Sound payload _ raw_text

    check_document-Sound :
        (document : Option (Dict String J)) (raw_text : String)
        → Sound (check_document py m schema_version observed_at document raw_text tt)
    unfolding check_document
    check_document-Sound none raw_text = poisoned-Sound _ _
    check_document-Sound (some document) raw_text = check_payload-Sound _ raw_text

    check_decoded-Sound :
        (d : Decoded J) → Sound (check_decoded py m schema_version observed_at d tt)
    unfolding check_decoded
    check_decoded-Sound bad_encoding = poisoned-Sound _ _
    check_decoded-Sound bad_json = poisoned-Sound _ _
    check_decoded-Sound (decoded j raw_text) = check_document-Sound (py.as_dict j) raw_text

  parse_value-Sound :
      (v : Option Bytes) → m.value ≡ v → Sound (parse_value py m schema_version observed_at v tt)
  unfolding parse_value
  parse_value-Sound none e = tombstone-Sound e
  parse_value-Sound (some v) e = check_decoded-Sound (v, e) (py.decode v)

  -- What the parser returns has the coordinates of its message, and the id made of them, be it an event
  -- or a poison record; only a message with a value is a heartbeat or poison. An event is a tombstone
  -- only for a message with no value; another one has a source position, an operation of r, c, u and
  -- d, flags that say which, its before state if it is d and its after state if not.
  pub parse_debezium_message-IsFaithful :
      (p : ParsedMessage)
      → parse_debezium_message py m schema_version observed_at tt ≡ (ok p, tt)
      → IsFaithful p
  unfolding parse_debezium_message
  parse_debezium_message-IsFaithful p e = subst Sound e (parse_value-Sound m.value refl)
