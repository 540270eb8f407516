-- ===== src/Audio/Bus/Tests.antt =====
-- Two subscribers, a change of a filter, and the theorems at them.
use tr_engine.Common.{ℕ, ◌≡◌, refl, [], ◌∷◌, some, List, arith, ◌≤◌, length, nat_comparable}
use tr_engine.Common.Map.{lookup, insert, delete, modify, map_values}
use tr_engine.Audio.{AudioFrame, pcm}
use tr_engine.Audio.Bus.{
  AudioFilter, AudioSubscriber, AudioBus, new_audio_bus, is_listed, passes, matches_audio_filter,
  subscribe, cancel, update_filter, send, publish, subscriber_count, audio_subscriber_buffer,
}
use tr_engine.Audio.Bus.Calls.{
  Call, subscribe_call, cancel_call, update_call, publish_call, run, Allowed,
}
use tr_engine.Audio.Bus.Delivery.{Delivery, publish-Delivery}

program : Unit {0}
unfolding is_listed passes matches_audio_filter subscribe cancel update_filter send publish
    subscriber_count lookup insert delete modify map_values
program = tt

abbrev frame : ℕ → AudioFrame
frame tgid = record {
  system_id = 1;
  tgid = tgid;
  unit_id = 5;
  sample_rate = 8000;
  seq = 0;
  format = pcm;
  data_bytes = [];
}

abbrev only : ℕ → AudioFilter
only tgid = record { system_ids = []; tgids = tgid ∷ [] }

abbrev calls : List Call
calls =
    subscribe_call (only 7)
    ∷ subscribe_call (only 8)
    ∷ publish_call (frame 7)
    ∷ update_call 2 (only 7)
    ∷ cancel_call 1
    ∷ update_call 1 (only 9)
    ∷ publish_call (frame 7)
    ∷ []

-- The first subscriber is gone, the second got the frame after the change of its filter.
new_filter_delivers :
    run calls new_audio_bus
    ≡ some (record {
      subscribers = (2, record { ch = 2; filter = only 7; waiting = frame 7 ∷ [] }) ∷ [];
      next_id = 2;
      ch_to_id = (2, 2) ∷ [];
      made = 2;
    })
unfolding program
new_filter_delivers = refl

calls-Allowed : Allowed 0 calls
calls-Allowed = (ground arith, (ground arith, (ground arith, tt)))

abbrev listener : AudioSubscriber
listener = record { ch = 1; filter = only 7; waiting = frame 7 ∷ [] }

abbrev one_listener : AudioBus
one_listener = record {
  subscribers = (1, listener) ∷ [];
  next_id = 1;
  ch_to_id = (1, 1) ∷ [];
  made = 1;
}

listener_there : lookup 1 one_listener.subscribers ≡ some listener
unfolding program
listener_there = refl

publish-Delivery_example :
    (sub' : AudioSubscriber) × (lookup 1 (publish (frame 7) one_listener).subscribers ≡ some sub')
    × Delivery (frame 7) listener sub'
    × (length sub'.waiting ≤ audio_subscriber_buffer)
publish-Delivery_example =
    publish-Delivery (frame 7) one_listener 1 listener listener_there (ground arith)
