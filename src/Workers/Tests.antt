-- ===== src/Workers/Tests.antt =====
-- Runs of the worker hub on small reports. The live state and the transcript are numbers here.
use dispatch_web.Base.{
  has, if◌then◌else◌, nat_eq, string_eq, has, lookup, keys, text_is_eq, ℕ, ◌≡◌, refl, ◌&&◌, Option,
  none, some, [], ◌∷◌, arith,
}
use dispatch_web.Base.{refl, arith, ◌≡◌, ◌&&◌, string_eq, nat_eq}
use dispatch_web.Base.{map, codes, String}
use dispatch_web.Serialize.{to_string}
use dispatch_web.Workers.Pane.{
  UiWorker, split_workers, sort_by, is_worker_active, format_elapsed, worker_elapsed_sec,
}
use dispatch_web.Workers.{
  BridgeWorker, WorkerRecord, WorkerHub, Session, apply_list, apply_workers, apply_worker,
  drop_unseen, on_workers, on_transcript, open_worker, fire, push_worker_transcript, finish_push,
  transcript, has_worker, apply_transcript,
}
use dispatch_web.Workers.Listing.{ids_of, apply_list-has}
use dispatch_web.Workers.Following.{
  begin, after, reports, opens, streams, fire_all, answer_all, settle, fire_all-delivers,
}

abbrev worker : ℕ → BridgeWorker
worker id = record {
  id = some id;
  tool_call_id = none;
  role = some "scout";
  model = none;
  task = none;
  status = some "running";
  activity = none;
  started = none;
  ended = none;
  transcript = none;
  recent = [];
  text = none;
}

abbrev live_or_none : ℕ → Option (WorkerRecord ℕ) → Option ℕ
live_or_none id none = none
live_or_none id (some rec) = rec.live

abbrev empty_hub : WorkerHub ℕ
empty_hub = record { records = []; opened = [] }

abbrev fresh : Session ℕ (Option ℕ)
fresh = record { hub = empty_hub; timers = []; reading = []; emitted = [] }

abbrev streamed : Session ℕ (Option ℕ)
streamed =
    on_transcript 1 42 (open_worker live_or_none 1 (on_workers 9 (worker 1 ∷ worker 2 ∷ []) fresh))

test_apply_list-has :
    (has 2 (keys (apply_list 9 (worker 1 ∷ []) empty_hub).0.records)
      ≡ has 2 (ids_of (worker 1 ∷ [])))
    × (has 2 (apply_list 9 (worker 1 ∷ []) empty_hub).0.opened
        ≡ (has 2 empty_hub.opened && has 2 (ids_of (worker 1 ∷ []))))
test_apply_list-has = apply_list-has 9 2 (worker 1 ∷ []) empty_hub (λ h. absurd (ground (arith, h)))

fire_all-delivers_example : lookup 1 (settle live_or_none streamed).emitted ≡ (
    if has 1 streamed.hub.opened
    then some (transcript live_or_none 1 streamed.hub)
    else lookup 1 streamed.emitted)
fire_all-delivers_example =
    fire_all-delivers live_or_none 1
      (after (after (after begin (reports 9 (worker 1 ∷ worker 2 ∷ []))) (opens 1)) (streams 1 42))

test_streamed : lookup 1 (settle live_or_none streamed).emitted ≡ some (some 42)
unfolding on_transcript open_worker on_workers apply_list apply_workers apply_worker drop_unseen
    apply_transcript push_worker_transcript has_worker settle fire_all fire answer_all finish_push
test_streamed = refl

-- Where the newer of two transcripts comes first, the client is left with the older one.
test_overtaken :
    let fired = fire live_or_none 1 streamed in
    lookup 1 (finish_push (1, none) (finish_push (1, some 42) fired)).emitted ≡ some none
unfolding on_transcript open_worker on_workers apply_list apply_workers apply_worker drop_unseen
    apply_transcript push_worker_transcript has_worker fire finish_push
test_overtaken = refl

abbrev pane_worker : ℕ → String → UiWorker
pane_worker id status = record {
  id = id;
  tool_call_id = some "call";
  status = status;
  started = 1000;
  ended = none;
}

test_split_workers :
    map
      (λ w. w.id)
      (split_workers (
        pane_worker 2 "running"
        ∷ pane_worker 4 "failed"
        ∷ pane_worker 1 "starting"
        ∷ pane_worker 3 "failed"
        ∷ [])).failed
    ≡ 4 ∷ 3 ∷ []
unfolding split_workers sort_by is_worker_active
test_split_workers = refl

test_format_elapsed :
    format_elapsed (worker_elapsed_sec (pane_worker 1 "running") 186000) ≡ codes "3m 05s"
unfolding format_elapsed worker_elapsed_sec is_worker_active to_string
test_format_elapsed = refl
