-- ===== src/Cdc/Consumer/Tests.antt =====
-- The theorem on the consumer's loop at a run of four turns, over a world that is the list of the
-- batches processed.
use fintech_payments_data_pl.Prelude.{
  ℕ, String, ◌≡◌, refl, true, false, none, some, List, [], ◌∷◌, ◌++◌, ok, sym, ap,
}
use fintech_payments_data_pl.Prelude.Dict.{get, put, del, keys}
use fintech_payments_data_pl.Cdc.Models.Batch.{CdcBatch, batch_of, build_batch}
use fintech_payments_data_pl.Cdc.Tests.{event_at, plain}
use fintech_payments_data_pl.Cdc.Batching.{
  new_batcher, flush_due, flush_partitions, flush_partition, take_batch, flush_all, add,
  close_boundary, append_and_drain, drain, keep_rest, append_event, is_closed_by,
}
use fintech_payments_data_pl.Cdc.Batching.Session.{empty_batcher}
use fintech_payments_data_pl.Cdc.Consumer.{
  RawKafkaMessage, ParsedMessage, event, poison, Counters, Services, assigned, nothing, arrived,
  Turn, Settings, Consumer, ConsumerRunResult, run, run_loop, run_turns, turn, rebalance_all,
  rebalance, take_polled, flush, batching, flush_batches, handle, count, outside,
}
use fintech_payments_data_pl.Cdc.Consumer.Rules.{IsLogged}
use fintech_payments_data_pl.Cdc.Consumer.Runs.{ProcessesAll, run-ProcessesAll}

abbrev World : Type 0
World = List CdcBatch

abbrev services : Services World String
services = record {
  process = λ b w. (ok tt, w ++ b ∷ []);
  reconcile = λ o w. (ok tt, w);
  quarantine = λ p w. (ok tt, w);
  commit = λ topic partition next w. (ok tt, w);
  close = λ w. w;
}

processed_now :
    (b : CdcBatch) (w w' : World) → services.process b w ≡ (ok tt, w') → w' ≡ w ++ b ∷ []
processed_now b w w' e = sym (ap (λ x. x.1) e)

services-IsLogged : IsLogged services
services-IsLogged = record {
  processed = λ w. w;
  process_adds = processed_now;
  reconcile_same = λ o w. refl;
  quarantine_same = λ p w. refl;
  commit_same = λ topic partition next w. refl;
  close_same = λ w. refl;
}

abbrev settings : Settings
settings = record { once = false; max_messages = some 3; dry_run = false }

abbrev message : ℕ → RawKafkaMessage
message offset = record { topic = "t"; partition = 0; offset = offset }

abbrev quiet : ℕ → ParsedMessage String → Turn String
quiet offset p = record {
  signalled = false;
  rebalances = [];
  polled = arrived (message offset) p 0;
}

-- An assignment, two events that fill a batch, and a poison record, the last message allowed.
abbrev turns : List (Turn String)
turns =
    record { signalled = false; rebalances = assigned [] none ∷ []; polled = nothing 0 false }
    ∷ quiet 5 (event (event_at 5 "d"))
    ∷ quiet 6 (event (event_at 6 "d"))
    ∷ quiet 7 (poison "bad")
    ∷ []

abbrev zero_counters : Counters
zero_counters = record {
  polled = 0;
  events = 0;
  poison = 0;
  heartbeats = 0;
  batches = 0;
  committed = 0;
}

abbrev start : Consumer World
start = record {
  batcher = empty_batcher 2 10;
  counters = zero_counters;
  assignment_seen = false;
  empty_polls = 0;
  world = [];
}

abbrev done : Consumer World
done = record {
  batcher = record { batch_size = 2; flush_interval = 10; pending = [] };
  counters = record {
    polled = 3;
    events = 2;
    poison = 1;
    heartbeats = 0;
    batches = 1;
    committed = 2;
  };
  assignment_seen = true;
  empty_polls = 0;
  world = batch_of plain (event_at 5 "d") (event_at 6 "d" ∷ []) ∷ [];
}

abbrev run_result : ConsumerRunResult
run_result = record { counters = done.counters; dry_run = false }

run_of_turns : run services plain settings turns 0 start ≡ (ok run_result, done)
unfolding run run_loop run_turns turn rebalance_all rebalance take_polled flush batching flush_due
    flush_partitions flush_batches handle count add flush_partition take_batch outside flush_all get
    put del keys build_batch close_boundary append_and_drain drain keep_rest append_event
    is_closed_by
run_of_turns = refl

new_start : new_batcher 2 10 ≡ ok start.batcher
unfolding new_batcher
new_start = refl

run-ProcessesAll_example :
    ProcessesAll services services-IsLogged plain settings refl turns start run_result done
run-ProcessesAll_example =
    run-ProcessesAll services services-IsLogged plain settings refl 2 10 0 turns start run_result
      done new_start run_of_turns
