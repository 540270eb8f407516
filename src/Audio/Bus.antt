-- ===== src/Audio/Bus.antt =====
-- internal/audio/bus.go. A subscriber's channel is the list of the frames that wait in it, 256 at
-- most; `ch` numbers the channels as `Subscribe` makes them, and `made` is the last number. The
-- function that `Subscribe` returns takes the subscriber out of both maps before it closes the
-- channel, so `Publish` never sends on a closed one; it may be called once, since a second close
-- panics.
pub mod Calls
pub mod Delivery
mod Tests
use tr_engine.Common.{
  ℕ, suc, Bool, true, false, not, Option, none, some, List, [], ◌∷◌, ◌++◌, ◌+◌, ◌%◌, ◌^◌, ◌||◌,
  ◌&&◌, if◌then◌else◌, ltb, ◌==◌, nat_comparable, length,
}
use tr_engine.Common.Map.{Map, lookup, insert, delete, modify, map_values}
use tr_engine.Audio.{AudioFrame}

pub record AudioFilter : Type 0 where
  pub system_ids : List ℕ
  pub tgids : List ℕ

pub record AudioSubscriber : Type 0 where
  pub ch : ℕ
  pub filter : AudioFilter
  pub waiting : List AudioFrame

pub record AudioBus : Type 0 where
  pub subscribers : Map ℕ AudioSubscriber
  pub next_id : ℕ
  pub ch_to_id : Map ℕ ℕ
  pub made : ℕ

abbrev pub new_audio_bus : AudioBus
new_audio_bus = record { subscribers = []; next_id = 0; ch_to_id = []; made = 0 }

abbrev pub audio_subscriber_buffer : ℕ
audio_subscriber_buffer = 256

unfoldable pub is_listed : ℕ → List ℕ → Bool
is_listed n [] = false
is_listed n (id ∷ ids) = n == id || is_listed n ids

-- One dimension of a filter; an empty list lets everything through.
unfoldable pub passes : ℕ → List ℕ → Bool
passes n [] = true
passes n (id ∷ ids) = is_listed n (id ∷ ids)

unfoldable pub matches_audio_filter : AudioFrame → AudioFilter → Bool
matches_audio_filter frame f =
    if not (passes frame.system_id f.system_ids) then false else passes frame.tgid f.tgids

-- `atomic.Uint64.Add(1)`.
abbrev pub id_after : ℕ → ℕ
id_after n = (n + 1) % 2 ^ 64

-- The channel's number, and the bus after.
unfoldable pub subscribe : AudioFilter → AudioBus → ℕ × AudioBus
subscribe f bus =
    let ch = suc bus.made in
    let id = id_after bus.next_id in
    (
      ch,
      record {
        subscribers = insert id (record { ch = ch; filter = f; waiting = [] }) bus.subscribers;
        next_id = id;
        ch_to_id = insert ch id bus.ch_to_id;
        made = ch;
      },
    )

-- The function that `Subscribe` returned for the id and the channel.
unfoldable pub cancel : ℕ → ℕ → AudioBus → AudioBus
cancel id ch bus = record bus {
  subscribers = delete id bus.subscribers;
  ch_to_id = delete ch bus.ch_to_id;
}

abbrev pub set_filter : AudioFilter → AudioSubscriber → AudioSubscriber
set_filter f sub = record sub { filter = f }

-- The write through `ab.subscribers[id]`, which panics (`none`) if that is nil.
abbrev pub write_filter : ℕ → AudioFilter → AudioBus → Option AudioSubscriber → Option AudioBus
write_filter id f bus none = none
write_filter id f bus (some sub) =
    some (record bus { subscribers = modify id (set_filter f) bus.subscribers })

abbrev pub filter_step : AudioFilter → AudioBus → Option ℕ → Option AudioBus
filter_step f bus none = some bus
filter_step f bus (some id) = write_filter id f bus (lookup id bus.subscribers)

unfoldable pub update_filter : ℕ → AudioFilter → AudioBus → Option AudioBus
update_filter ch f bus = filter_step f bus (lookup ch bus.ch_to_id)

unfoldable pub send : AudioFrame → AudioSubscriber → AudioSubscriber
send frame sub =
    if matches_audio_filter frame sub.filter
    then (if ltb (length sub.waiting) audio_subscriber_buffer
        then record sub { waiting = sub.waiting ++ frame ∷ [] }
        else sub)
    else sub

unfoldable pub publish : AudioFrame → AudioBus → AudioBus
publish frame bus = record bus {
  subscribers = map_values (λ id sub. send frame sub) bus.subscribers;
}

unfoldable pub subscriber_count : AudioBus → ℕ
subscriber_count bus = length bus.subscribers
