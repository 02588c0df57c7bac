-- ===== src/Examples/Running.antt =====
-- The detector, the health score, the telemetry queue and the supervisor's messages at concrete
-- inputs.
use ava_listener.Base.{
  ◌↔◌, ◌==◌, if◌then◌else◌, ℕ, ◌+◌, ◌≤◌, String, ◌≡◌, refl, Bool, true, false, Option, none, some,
  List, [], ◌∷◌, arith, str_eq,
}
use ava_listener.Base.Ratio.{Ratio, percent, le_ratio}
use ava_listener.Config.{returned, Fields, text, null, object, empty, field, get}
use ava_listener.Supervisor.Messages.{on_ipc_receive}
use ava_listener.Supervisor.Commands.{Services, on_ws_receive}
use ava_listener.Supervisor.Messages.{to_worker}
use ava_listener.Supervisor.Commands.Loads.{loads, IsLoad, on_ws_receive-loads}
use ava_listener.Health.{Metrics, get_report}
use ava_listener.Health.Score.{IsAtMost, rank, get_report_antitone}
use ava_listener.Vad.{Vad, Chunk}
use ava_listener.Events.{Action, emits, makes_room, works, act_all, new_dispatcher}
use ava_listener.Events.Kept.{IsKept, act_all-new_dispatcher}
use ava_listener.Replay.{
  Hypothesis, Export, new_capture, start_capture, record_hypothesis, add_hypothesis, append_bounded,
  put_session, alter_session, find_session, empty_session, flush,
}
use ava_listener.Replay.Sessions.{
  Call, started, heard, flushed, step, run, remember, history, flush-run,
}
use ava_listener.Config.Profiles.Merge.{IsDict}
use ava_listener.Supervisor.Monitor.{init}
use ava_listener.Supervisor.Restarts.{create}
use ava_listener.Transport.Handler.{wake_event, emit_event, over_ipc}
use ava_listener.Transport.Handler.Events.{told, wake, on_ipc_receive-emit_event}
use ava_listener.Examples.Loading.{disk, join, dirname}

abbrev services : Services
services = record {
  disk = disk;
  join = join;
  dirname = dirname;
  fuel = 3;
  profile_path = some "child.json";
  debug = false;
  ipc_ready = true;
  has_worker = true;
  metrics = null;
}

abbrev load_message : Fields
load_message = field "type" (text "configure") (
    field "payload"
      (object (field "command" (text "load_profile") (field "path" (text "child.json") empty)))
      empty)

on_ws_receive-loads_example :
    (on_ws_receive services (field "type" (text "start") (field "payload" null empty))
      ≡ returned
          (to_worker (object (field "type" (text "START") (field "payload" null empty))) ∷ []))
    × (on_ws_receive services (field "type" (text "stop") (field "payload" null empty))
        ≡ returned
            (to_worker (object (field "type" (text "STOP") (field "payload" null empty))) ∷ []))
    × ((loads (on_ws_receive services load_message) ≡ text "child.json" ∷ [])
        ↔ IsLoad load_message (text "child.json"))
on_ws_receive-loads_example =
    on_ws_receive-loads services null load_message (text "child.json") refl

abbrev calm : Metrics
calm = record {
  queue_depth = 1;
  reset_count = 2;
  memory_usage = 300000000;
  restart_count = 0;
  transport_latency_ms = 0;
  telemetry_drop_count = 0;
}

abbrev stressed : Metrics
stressed = record calm { queue_depth = 80; restart_count = 3 }

calm-stressed : IsAtMost calm stressed
calm-stressed = record {
  queue_depth = omega arith;
  reset_count = omega arith;
  memory_usage = omega arith;
  restart_count = omega arith;
  transport_latency_ms = omega arith;
  telemetry_drop_count = omega arith;
}

get_report-antitone_example :
    (le_ratio (get_report stressed).runtime_health (get_report calm).runtime_health ≡ true)
    × (rank (get_report stressed).status ≤ rank (get_report calm).status)
    × (le_ratio (get_report calm).runtime_health (percent 100) ≡ true)
get_report-antitone_example = get_report_antitone calm stressed calm-stressed

-- A network that hears speech in every window, and counts them.
abbrev infer : ℕ → List ℕ → Option (Ratio × ℕ)
infer n samples = some (percent 90, n + 1)

abbrev chunk : Ratio → Option Bool → Chunk
chunk rms webrtc = record { samples = 1 ∷ 2 ∷ 3 ∷ []; rms = rms; webrtc = webrtc }

abbrev chunks : List Chunk
chunks =
    chunk (percent 0) none ∷ chunk (percent 1) (some false) ∷ chunk (percent 2) (some true) ∷ []

-- The events are numbers, and the test asks for 2.
abbrev actions : List (Action ℕ)
actions = emits 1 ∷ emits 2 ∷ works true ∷ makes_room 0 ∷ works false ∷ emits 3 ∷ []

abbrev is_two : ℕ → Bool
is_two n = n == 2

act_all-new_dispatcher_example : IsKept is_two 1 (act_all actions new_dispatcher)
act_all-new_dispatcher_example = act_all-new_dispatcher is_two actions

abbrev said : ℕ → String → Hypothesis
said now words = record { timestamp = now; text = words; stability = 0 }

-- Three hypotheses of one session, one of another that was never started, and a flush between.
abbrev captures : List Call
captures =
    started "a" 0
    ∷ heard "a" (said 1 "hey")
    ∷ heard "b" (said 2 "noise")
    ∷ heard "a" (said 3 "hey no")
    ∷ flushed "a" 4
    ∷ heard "a" (said 5 "hey nova")
    ∷ []

abbrev held : List Hypothesis → ℕ → Export
held hs now = record {
  correlation_id = "a";
  session = record {
    start_timestamp = 0;
    hypotheses = hs;
    matcher_outputs = [];
    state_transitions = [];
  };
  end_timestamp = now;
}

flush-run_example :
    (flush "a" 6 (run captures (new_capture 2))).written
    ≡ held (said 3 "hey no" ∷ said 5 "hey nova" ∷ []) 6
      ∷ held (said 1 "hey" ∷ said 3 "hey no" ∷ []) 4
      ∷ []
unfolding run step history remember new_capture start_capture record_hypothesis add_hypothesis
    append_bounded put_session alter_session find_session empty_session flush
flush-run_example = flush-run 2 "a" captures 6

-- The engine's wake event; `upper` on its name.
abbrev upper : String → String
upper name = if str_eq name "wake" then "WAKE" else name

abbrev event : Fields
event = wake_event "hey nova" null null null null

on_ipc_receive-emit_event_example :
    (m : Fields) × (d : Fields) × (emit_event upper true event ≡ over_ipc m)
    × ((on_ipc_receive 5 null m (init 15 (create 5 60))).1 ≡ told upper "wake" d)
    × ((j : String) → get j d ≡ get j event)
unfolding wake_event IsDict get
on_ipc_receive-emit_event_example =
    on_ipc_receive-emit_event upper event "wake" 5 null (init 15 (create 5 60))
      (refl, (refl, (refl, (refl, (refl, (refl, tt)))))) refl wake
