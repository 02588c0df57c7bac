-- ===== src/Lib.antt =====
-- A model of the wake word runtime of ava-listener (the Python code below runtime/) and theorems
-- about it. Paths are from the repository's root.
--
-- The parts and how they interact. The audio worker feeds chunks to the recogniser and hands every
-- text to `WakeEngine._on_hypothesis`. The engine pushes it into the hypothesis buffer, lets the
-- evaluator score the window against the phrases of the registry, smooths the confidence, and emits
-- a wake if the trigger, the generation gate and the cooldown gate let it pass; on the way it keeps
-- one candidate session and reports to the telemetry collector. A wake resets the stream, which
-- begins the next generation. A watchdog looks at the audio stream and resets it through a backoff
-- gate. The recovery coordinator classifies faults and asks the restart manager for restarts. Above
-- the process, the supervisor restarts the worker when it exits or its heartbeat is stale, turns the
-- messages that the worker sends over the process channel into events, and forwards commands of the
-- SDK. The WebSocket server hands the events to its clients. In front of the worker, the voice
-- detector judges each chunk. A profile is loaded through its migrations and the profiles that it
-- extends. Metrics become a health score, and telemetry events go through a bounded queue.
--
-- The files:
--   Base           names, tests, lists, fractions and texts that all parts share
--   Pipeline       the audio worker in front of the wake engine
--   Audio/Provider      runtime/asr/providers/sherpa.py: generations and resets
--   Audio/Worker        runtime/audio/worker.py: one chunk is `process_chunk`; `reset_stream` is
--                  `_reset_stream` of runtime/asr/streaming.py
--   Vad            runtime/vad/pipeline.py: `process_chunk` of the detector
--   Config         the JSON values of a profile, and the outcome of a call that may raise
--   Config/Migrations   runtime/config/profile_migrations.py
--   Config/Profiles     runtime/config/profile_loader.py; Chain, Lineage, Merge and Phrases have the
--                  proofs
--   Config/Validator    runtime/config/profile_validator.py
--   Config/Settings     runtime/config/validation.py, schema.py and mutability.py
--   Health         runtime/health and runtime/telemetry/health.py
--   Events         the queue of runtime/telemetry/events.py
--   Metrics        runtime/telemetry/metrics.py and runtime/timing/latency.py
--   Replay         runtime/telemetry/replay_capture.py
--   Ipc            runtime/ipc/protocol.py and the receive loops of runtime/ipc/channel.py
--   Kernel/Lifecycle    runtime/kernel/lifecycle.py: `transition`, `shutdown`, `recover` of a
--                  subsystem and `runtime_transition`; Graph has the diagram as a relation
--   Kernel/Session      `CandidateSession` of runtime/session/context.py
--   Kernel/Telemetry    runtime/telemetry/collector.py; Accounts counts its sessions
--   Kernel/Reading      the state of `WakeEngine` (runtime/kernel/orchestrator.py) and the first half
--                  of `_on_hypothesis`: buffer, window, score
--   Kernel/Engine       the second half, `respond`, and the whole, `on_hypothesis`; Gates, Runs,
--                  Smoothing, Sure and Named have the proofs
--   Supervisor/Restarts, Supervisor/Escalation    runtime/supervisor/restart_policy.py
--   Supervisor/Monitor  the monitor loop of runtime/supervisor/supervisor.py
--   Hardening/Backoff   runtime/hardening/recovery_policy.py
--   Hardening/Faults    runtime/hardening/fault_classifier.py
--   Hardening/Restart   runtime/hardening/restart_manager.py
--   Hardening/Coordinator    runtime/hardening/recovery_coordinator.py
--   Hardening/Watchdog  runtime/supervisor/watchdog.py
--   Supervisor/Messages what it does with the messages of the worker
--   Supervisor/Commands what it does with those of the clients; the handler of the worker, in
--                  runtime/worker/worker_process.py
--   Audio/Queue         runtime/audio/queue_manager.py, and the callback of runtime/asr/streaming.py
--   Transport/Handler   runtime/transport/stream/handler.py: the events of the worker
--   Transport/Server    the delivery classes of runtime/transport/websocket_server.py
--   Matcher/Registry    runtime/matcher/registry/phrase_registry.py
--   Matcher/Variants    runtime/matcher/variants.py
--   Matcher/Buffer      runtime/audio/realtime/ring_buffer.py
--   Matcher/Cooldown    runtime/matcher/cooldown.py
--   Matcher/Confidence  runtime/matcher/scorers/phonetic.py
--   Matcher/Anchor, Matcher/Evaluator    runtime/matcher/evaluator.py: the gate and the score
--   Examples       the theorems at concrete inputs
--
-- How the code is read. An object is a record, and a method a function from the record to the next
-- one; a raised exception is `none`, or `raised` with its class where the classes matter. A clock
-- reading is an argument, in microseconds where the code computes with fractions of a second. Floats
-- of the matcher and of the health score are exact fractions, without rounding.
-- Texts that the matcher walks are lists of code points; `lower`, `strip` and `split` are Python's
-- on ASCII. A loop over a list is a recursion on it, and an endless loop runs over the list of what
-- its rounds read. A method under a lock is one step. Fuel bounds three loops: that of
-- `resolve_inheritance`, which more fuel than there are files is enough for; that of
-- `apply_migrations`, with two rounds, a step and the last test; and the draining of the detector's
-- buffer, with a round for each sample. `raised out_of_fuel` is no exception of the program.
--
-- Parameters: the similarities of jellyfish and rapidfuzz (`Similarity`), of which `AreUnits` states
-- the documented range of the ratio; the two functions of json (`Json`), of which `IsJson` states
-- what it documents; the file system and the functions on paths; the network of the voice detector, of
-- which `IsTotal` says that it raises no error. Operating system, clock and audio stream are
-- arguments of the rounds that read them.
--
-- Not modelled: threads, sockets and pipes, logging, NaN, the recogniser and the voice activity models,
-- the validation of messages, the start of the processes, the scripts and the SDK.
pub mod Base
pub mod Config
pub mod Ipc
pub mod Health
pub mod Vad
pub mod Events
pub mod Metrics
pub mod Replay
pub mod Kernel
pub mod Supervisor
pub mod Hardening
pub mod Matcher
pub mod Audio
pub mod Pipeline
pub mod Transport
pub mod Examples
