-- ===== src/Lib.antt =====
-- The backend of terra-server: a Python service that keeps terrariums. Devices send telemetry
-- over MQTT; the service judges it, raises alerts, runs fans and mists, fires schedules, and
-- lets an owner watch a camera. This library models the parts that decide, as functions on
-- explicit state, and proves what they promise. Database, broker and web framework are outside:
-- what they answer is an argument of the functions.
--
-- Parts and files:
-- EnvRules: backend/env_rules.py. Thresholds holds the limits of an owner (Thresholds,
-- sanitize), Event the events and actions, Tracker the state of ElementTracker and its timers,
-- Tracker/Transition and Tracker/Judge the method step with its helpers. The other files under
-- Tracker are proofs: what a step does to the open alert (Protocol), how long a condition lasted
-- (Warrant, History, Timing), reminders (Reminders, Overdue), and the conditions themselves
-- (Conditions, WellFormed).
-- AutoEnv: backend/auto_env.py. State holds AutoEnvTracker, its inputs and commands; Ownership
-- the acknowledgements, restore and release; Vent the method _vent; Step the method step.
-- Closure, Safety, Commands, Reach, Few and Budget are proofs. Its thresholds are those of
-- EnvRules.
-- LiveSession: backend/live_session.py. claim, release and expire_due on the row of a camera;
-- Laws and Limit are proofs.
-- Scheduling: backend/scheduling.py. compute_next_run and compute_prev_run as searches over
-- eight days, the loops on a counter of 8, which is enough since a week has seven days;
-- TimeOfDay is parse_time_of_day; Search, NextRun and PrevRun are proofs. Runner:
-- backend/schedule_runner.py, one row (fire_one) and, in Runner/Pass, the pass (run_once);
-- Runner/Firing and Runner/Idle are proofs.
-- OfferGuard: backend/webrtc_offer_guard.py, the sliding window of OfferRateLimiter; Laws are
-- proofs.
-- Mqtt: backend/mqtt/topics.py (Topics) and backend/mqtt/registry.py (Registry), the access list
-- as blocks of rules and the calls of the helper program; Access are proofs. Dispatch:
-- backend/mqtt/dispatcher.py, the life of one command; Dispatch/Message is the payload and the
-- split of a mist, Dispatch/Handle the functions _dispatch_one (a function for each of its
-- steps), _settle_unmarked, _prune_state, poll_and_dispatch and sweep_unacked, with what
-- database, broker and device lookup answer in a World, which also says when the handling begins
-- and when the call to publish is made; every call to publish is kept with its answer, and
-- nothing is assumed of what a client without a connection does with its message. Life is the
-- relation of its moves; Bursts is the chain of commands that a long mist is split into; and
-- Published, Once, Protocol, Deadline, Split and Further are proofs. The chain for n
-- milliseconds runs on a counter of n, which is enough since a burst has a millisecond at least
-- where the device's limit is positive.
-- CommandService: backend/command_service.py, the durations of a mist; Laws are proofs. Dispatch
-- takes a device's limit from it.
-- TempOffset: backend/temp_offset.py, resolve_device_offset, which Dispatch calls; Laws are
-- proofs.
-- HumidCycle: backend/humid_cycle.py, the tracker of humidity cycles. Windows is _smooth, Detect
-- is _detect, Step is step, its judgements one function each. Deque, Lowest and Run are proofs
-- about the windows, Sound, Balance and Ends about cycles and alerts.
-- Ota: backend/ota_service.py. Gate is gate_reasons and create_job, Jobs apply_ack,
-- apply_heartbeat_fw, the marks and one job of scan_once; Laws and Create are proofs.
-- FastStart: backend/mp4_faststart.py. Bytes holds what struct does, Boxes iter_boxes and
-- needs_faststart, Patch _patch_offsets, Move faststart. The walk over a range runs on a counter
-- of its length and the descent into containers likewise, which is enough since a box has eight
-- bytes at least. Pieces, Tiles, Verdict, Agreement, Enough (the counters), Length, Moved and
-- Entries are proofs.
-- OfflineMonitor: backend/offline_monitor.py, the scan over devices and cameras with the alerts
-- it opens, raises and resolves; Laws are proofs.
-- RebootRestore: backend/schedule_restore.py, the detection of a reboot and the choice of what
-- to switch on again, on compute_prev_run; Boots and Latest are proofs.
-- Common: Boolean tests, lists, instants and integers, JSON objects and text that the parts
-- share.
--
-- Conventions: an instant is a number of microseconds after an origin that lies before every
-- instant of a run, and a comparison of differences is written with sums. A measurement is a
-- number of hundredths, a temperature above absolute zero. A dictionary keyed by a condition or
-- a cause is a function. Where Python compares objects by identity, an event carries a number
-- that no other event has. Binary floating point is not modelled, and numbers are exact
-- decimals: a number of JSON is counted in ten-thousandths, which round(x, 2) takes to the
-- nearest hundredth, the even one of two; a smoothed humidity is counted in half hundredths.
--
-- Not modelled: the texts of snapshots and logs, push messages, threads and their locks beyond
-- the atomic step they protect, HTTP routers, the handlers of MQTT messages, the writes of a
-- humidity cycle's operations, alerts, storage of clips, the repetition of firmware updates, and
-- the daily and weekly analyses.
pub mod Common
pub mod EnvRules
pub mod AutoEnv
pub mod LiveSession
pub mod Scheduling
pub mod OfferGuard
pub mod RebootRestore
pub mod Mqtt
pub mod CommandService
pub mod TempOffset
pub mod HumidCycle
pub mod FastStart
pub mod Ota
pub mod OfflineMonitor
