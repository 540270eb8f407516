-- ===== src/Audio/Tests.antt =====
-- Two sites that send the same talkgroup, and the theorems at them.
use tr_engine.Common.{
  ℕ, ◌≡◌, refl, [], ◌∷◌, none, some, true, false, arith, List, Text, bytes, ◌==◌, text_comparable,
  nat_comparable, if◌then◌else◌, Bool,
}
use tr_engine.Common.Decimal.{decimal, digits_fuel, number_from}
use tr_engine.Common.Map.{lookup, insert, retain}
use tr_engine.Audio.{AudioFrame, pcm, AudioChunk, pcm_passthrough, add_jitter, no_jitter}
use tr_engine.Audio.Router.{
  IdentityLookup, ActiveStream, AudioRouter, stream_key, after_last_colon, extract_tgid, claimed,
  is_idle, next_stream, new_audio_router, resolve_instance_id, resolve_identity, emit,
  process_chunk, cleanup_idle, active_stream_count,
}
use tr_engine.Audio.Router.Trace.{Turn, chunk_turn, run, Story, is_of, run-numbered}
use tr_engine.Audio.Router.Dedup.{Decision, process_chunk_dedup}
use tr_engine.Audio.Router.Invariant.{At, run-At_key}
use tr_engine.Audio.Router.Sources.{Respects, AllRespect, NotExcluded}

program : Unit {0}
unfolding stream_key after_last_colon extract_tgid claimed is_idle next_stream resolve_instance_id
    resolve_identity emit process_chunk cleanup_idle active_stream_count lookup insert retain
    decimal digits_fuel number_from add_jitter
program = tt

reads_back : extract_tgid (bytes "12:3456") ≡ 3456
unfolding program
reads_back = refl

-- Two instances with a system of the same name.
abbrev two_instances : IdentityLookup
two_instances = record {
  lookup_by_short_name = λ inst name.
      if inst == bytes "a" then some (1, 10) else if inst == bytes "b" then some (1, 20) else none;
  lookup_by_short_name_any = λ name exclude.
      if exclude (bytes "a")
      then (if exclude (bytes "b") then none else some (1, 20, bytes "b"))
      else some (1, 10, bytes "a");
}

abbrev from : Text → ℕ → AudioChunk
from addr time = record {
  short_name = bytes "butco";
  source_addr = addr;
  system_id = 0;
  site_id = 0;
  tgid = 7;
  unit_id = 5;
  tg_alpha_tag = [];
  format = pcm;
  sample_rate = 8000;
  data_bytes = 1 ∷ 2 ∷ [];
  timestamp = time;
}

abbrev start : AudioRouter ℕ
start = new_audio_router [] 100 0

-- The first address owns the talkgroup, the second is dropped until the first is idle.
abbrev day : List Turn
day =
    chunk_turn two_instances 10 (from (bytes "x") 10)
    ∷ chunk_turn two_instances 20 (from (bytes "y") 20)
    ∷ chunk_turn two_instances 30 (from (bytes "x") 30)
    ∷ chunk_turn two_instances 131 (from (bytes "y") 131)
    ∷ chunk_turn two_instances 132 (from (bytes "y") 132)
    ∷ []

-- The sequence numbers of the frames of one talkgroup.
abbrev seqs_of : ℕ → ℕ → List AudioFrame → List ℕ
seqs_of system tgid [] = []
seqs_of system tgid (f ∷ fs) =
    if is_of system tgid f then f.seq ∷ seqs_of system tgid fs else seqs_of system tgid fs

day_seqs : seqs_of 1 7 (run pcm_passthrough day start).0 ≡ 0 ∷ 1 ∷ 0 ∷ 1 ∷ []
unfolding program
day_seqs = refl

day_sources :
    (run pcm_passthrough day start).1.source_map
    ≡ (bytes "x", bytes "a") ∷ (bytes "y", bytes "b") ∷ []
unfolding program
day_sources = refl

day_cleaned : active_stream_count (cleanup_idle 232 (run pcm_passthrough day start).1) ≡ 1
unfolding program
day_cleaned = refl

day_gone : active_stream_count (cleanup_idle 233 (run pcm_passthrough day start).1) ≡ 0
unfolding program
day_gone = refl

run-numbered_example : Story pcm_passthrough 100 1 7 day start none
run-numbered_example = run-numbered pcm_passthrough 1 7 day [] 100 0

run-At_key_example : At (bytes "1:7") (run pcm_passthrough day start).1
run-At_key_example = run-At_key pcm_passthrough day [] 100 0 (bytes "1:7")

abbrev owned : ActiveStream
owned = record {
  system_id = 1;
  site_id = 10;
  short_name = bytes "butco";
  last_chunk = 10;
  seq = 0;
  jitter = no_jitter;
  started_at = 10;
}

abbrev busy : AudioRouter ℕ
busy = record {
  instance_id = [];
  idle_timeout = 100;
  opus_bitrate = 0;
  active_streams = (bytes "1:7", owned) ∷ [];
  encoders = (bytes "1:7", 8000) ∷ [];
  source_map = (bytes "x", bytes "a") ∷ [];
}

busy_identity : (resolve_identity two_instances (from (bytes "y") 20) busy).0 ≡ some (1, 20)
unfolding program
busy_identity = refl

busy_stream : lookup (stream_key 1 7) busy.active_streams ≡ some owned
unfolding program
busy_stream = refl

process_chunk_dedup_example :
    let q = process_chunk pcm_passthrough two_instances 20 (from (bytes "y") 20) busy in
    Decision 20 (from (bytes "y") 20) 1 20 owned busy q.0 q.1
process_chunk_dedup_example =
    process_chunk_dedup pcm_passthrough two_instances 20 (from (bytes "y") 20) 1 20 owned busy
      busy_identity (ground arith) (ground arith) busy_stream

either_excluded :
    (a b : Bool) (exclude : Text → Bool)
    → exclude (bytes "a") ≡ a
    → exclude (bytes "b") ≡ b
    → NotExcluded exclude
        (if a then (if b then none else some (1, 20, bytes "b")) else some (1, 10, bytes "a"))
either_excluded false b exclude p q = p
either_excluded true false exclude p q = q
either_excluded true true exclude p q = tt

two_instances-Respects : Respects two_instances
two_instances-Respects name exclude =
    either_excluded (exclude (bytes "a")) (exclude (bytes "b")) exclude refl refl

learned_x : lookup (bytes "x") (run pcm_passthrough day start).1.source_map ≡ some (bytes "a")
unfolding program
learned_x = refl

day_respects : AllRespect day
day_respects = let r = two_instances-Respects in (r, (r, (r, (r, (r, tt)))))

known_x : lookup (bytes "x") busy.source_map ≡ some (bytes "a")
unfolding program
known_x = refl
