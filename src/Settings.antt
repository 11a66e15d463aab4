-- ===== src/Settings.antt =====
-- model_settings.rs: the settings of a model by its file name; protocol.rs: `WireSampling`; and the
-- conversions of bin/rampiped.rs. `file_name` is what `Path::file_name` gives; reading and parsing
-- the file is left out.
pub mod Longest
use rampipe.Common.{
  ℕ, Bool, true, false, List, [], ◌∷◌, Option, none, some, if◌then◌else◌, ltb, unwrap_or, or_else,
}
use rampipe.Common.Text.{Text, len, contains}
use rampipe.Common.Int.{ℤ, pos}
use rampipe.Common.Float.{F32, f32_one, f32_zero}
use rampipe.Conversation.Generation.{Sampling, Penalties}
use rampipe.Conversation.Window.{OverflowPolicy}

pub record WirePenalties : Type 0 where
  pub last_n : ℤ
  pub repeat : F32
  pub freq : F32
  pub present : F32

-- `WirePenalties::default`.
abbrev pub default_penalties : WirePenalties
default_penalties = record { last_n = pos 0; repeat = f32_one; freq = f32_zero; present = f32_zero }

pub data WireSampling : Type 0 where
  greedy : WirePenalties → WireSampling
  temperature : F32 → ℤ → F32 → F32 → ℕ → WirePenalties → WireSampling

pub record Entry : Type 0 where
  pub temperature : Option F32
  pub top_k : Option ℤ
  pub top_p : Option F32
  pub min_p : Option F32
  pub seed : Option ℕ
  pub repeat_penalty : F32
  pub frequency_penalty : F32
  pub presence_penalty : F32
  pub penalty_last_n : ℤ
  pub max_new_tokens : Option ℤ
  pub note : Option Text

-- The map in the order of its keys.
pub record ModelSettings : Type 0 where
  pub default : Option Entry
  pub models : List (Text × Entry)

abbrev penalties_of : Entry → WirePenalties
penalties_of e = record {
  last_n = e.penalty_last_n;
  repeat = e.repeat_penalty;
  freq = e.frequency_penalty;
  present = e.presence_penalty;
}

abbrev sampling_at : Entry → Option F32 → WireSampling
sampling_at e none = WireSampling.greedy (penalties_of e)
sampling_at e (some t) =
    WireSampling.temperature t (unwrap_or e.top_k (pos 40)) (unwrap_or e.top_p f32_one)
      (unwrap_or e.min_p f32_zero) (unwrap_or e.seed 0) (penalties_of e)

-- `Entry::sampling`.
unfoldable pub sampling : Entry → WireSampling
sampling e = sampling_at e e.temperature

-- `max_by_key` keeps the later of two keys of the same length.
abbrev pub longer : Option (Text × Entry) → Text × Entry → Option (Text × Entry)
longer none e = some e
longer (some b) e = if ltb (len e.0) (len b.0) then some b else some e

unfoldable pub longest : Text → Option (Text × Entry) → List (Text × Entry) → Option (Text × Entry)
unfolding contains
longest name best [] = best
longest name best (e ∷ es) = longest name (if contains name e.0 then longer best e else best) es

abbrev pub entry_of : Option (Text × Entry) → Option Entry
entry_of none = none
entry_of (some (k, e)) = some e

-- `ModelSettings::entry_for`.
unfoldable pub entry_for : ModelSettings → Option Text → Option Entry
unfolding longest
entry_for s none = none
entry_for s (some name) = or_else (entry_of (longest name none s.models)) s.default

abbrev tokens_in : Option Entry → Option ℤ
tokens_in none = none
tokens_in (some e) = e.max_new_tokens

-- `ModelSettings::max_new_tokens_for`.
unfoldable pub max_new_tokens_for : ModelSettings → Option Text → Option ℤ
unfolding entry_for
max_new_tokens_for s file_name = tokens_in (entry_for s file_name)

sampling_in : Option Entry → WireSampling
unfolding sampling
sampling_in none = WireSampling.greedy default_penalties
sampling_in (some e) = sampling e

-- `ModelSettings::sampling_for`.
unfoldable pub sampling_for : ModelSettings → Option Text → WireSampling
unfolding entry_for sampling_in
sampling_for s file_name = sampling_in (entry_for s file_name)

abbrev pub wire_penalties_to_penalties : WirePenalties → Penalties
wire_penalties_to_penalties p = record {
  last_n = p.last_n;
  repeat = p.repeat;
  freq = p.freq;
  present = p.present;
}

unfoldable pub wire_sampling_to_sampling : WireSampling → Sampling
wire_sampling_to_sampling (WireSampling.greedy p) = Sampling.greedy (wire_penalties_to_penalties p)
wire_sampling_to_sampling (WireSampling.temperature t top_k top_p min_p seed p) =
    Sampling.temperature t top_k top_p min_p seed (wire_penalties_to_penalties p)

pub data WireOverflowPolicy : Type 0 where
  fail drop_oldest_turns : WireOverflowPolicy

unfoldable pub wire_overflow_to_overflow : WireOverflowPolicy → OverflowPolicy
wire_overflow_to_overflow WireOverflowPolicy.fail = OverflowPolicy.fail
wire_overflow_to_overflow WireOverflowPolicy.drop_oldest_turns = OverflowPolicy.drop_oldest_turns
