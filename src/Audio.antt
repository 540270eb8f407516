-- ===== src/Audio.antt =====
-- internal/audio: the chunks and frames of internal/audio/stream.go, the encoder interface of
-- internal/audio/encoder.go, and the jitter statistics of internal/audio/jitter.go. Of the
-- statistics the mean and the variance are left out (floating point); the others are kept in
-- microseconds. `Freq`, which nothing here reads, is left out of the chunk. Times are nanoseconds.
pub mod Router
pub mod Bus
pub mod Jitter
pub mod Simplestream
mod Tests
use tr_engine.Common.{
  ℕ, suc, Bool, true, false, Option, none, some, List, [], ◌∷◌, Text, if◌then◌else◌, ltb, ◌==◌,
  nat_comparable,
}

pub data AudioFormat : Type 0 where
  pcm opus : AudioFormat

pub record AudioChunk : Type 0 where
  pub short_name : Text
  pub source_addr : Text
  pub system_id : ℕ
  pub site_id : ℕ
  pub tgid : ℕ
  pub unit_id : ℕ
  pub tg_alpha_tag : Text
  pub format : AudioFormat
  pub sample_rate : ℕ
  pub data_bytes : List ℕ
  pub timestamp : ℕ

-- `Timestamp` is never set.
pub record AudioFrame : Type 0 where
  pub system_id : ℕ
  pub tgid : ℕ
  pub unit_id : ℕ
  pub sample_rate : ℕ
  pub seq : ℕ
  pub format : AudioFormat
  pub data_bytes : List ℕ

-- The interface `AudioEncoder` with `NewEncoder`: an encoder's state changes as it encodes, and
-- `none` is an error.
pub record AudioEncoder (E : Type 0) : Type 0 where
  pub new_encoder : ℕ → ℕ → E
  pub encode : List ℕ → E → Option (List ℕ × AudioFormat) × E
  pub encoder_rate : E → ℕ

-- `PCMPassthroughEncoder`, an encoder that is only its sample rate.
abbrev pub pcm_passthrough : AudioEncoder ℕ
pcm_passthrough = record {
  new_encoder = λ sample_rate bitrate. sample_rate;
  encode = λ pcm_data e. (some (pcm_data, pcm), e);
  encoder_rate = λ e. e;
}

pub record JitterStats : Type 0 where
  pub count : ℕ
  pub min_delta : ℕ
  pub max_delta : ℕ
  pub last_delta : ℕ

abbrev pub no_jitter : JitterStats
no_jitter = record { count = 0; min_delta = 0; max_delta = 0; last_delta = 0 }

unfoldable pub add_jitter : ℕ → JitterStats → JitterStats
add_jitter delta js =
    if js.count == 0
    then record { count = 1; min_delta = delta; max_delta = delta; last_delta = delta }
    else record {
      count = suc js.count;
      min_delta = if ltb delta js.min_delta then delta else js.min_delta;
      max_delta = if ltb js.max_delta delta then delta else js.max_delta;
      last_delta = delta;
    }
