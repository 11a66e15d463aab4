-- ===== src/Tests/Settings.antt =====
-- model_settings.rs: two keys that occur in one file name.
use rampipe.Common.{ℕ, ◌≤◌, ◌≡◌, refl, [], ◌∷◌, Option, none, some}
use rampipe.Common.Text.{Text, codes, len, contains, find, starts_with}
use rampipe.Common.Int.{pos}
use rampipe.Common.Float.{f32_one, f32_zero}
use rampipe.Settings.{Entry, ModelSettings, entry_for}
use rampipe.Settings.Longest.{Matches, entry_for_longest}

abbrev entry : Option ℕ → Entry
entry seed = record {
  temperature = none;
  top_k = none;
  top_p = none;
  min_p = none;
  seed = seed;
  repeat_penalty = f32_one;
  frequency_penalty = f32_zero;
  presence_penalty = f32_zero;
  penalty_last_n = pos 0;
  max_new_tokens = none;
  note = none;
}

abbrev settings : ModelSettings
settings = record {
  default = none;
  models = (codes "qwen", entry none) ∷ (codes "qwen3", entry (some 7)) ∷ [];
}

entry_for_longest_example :
    (k' : Text) × (e' : Entry) × Matches (codes "qwen3.gguf") settings.models (k', e')
    × (4 ≤ len k')
    × (entry_for settings (some (codes "qwen3.gguf")) ≡ some e')
unfolding contains find starts_with len
entry_for_longest_example =
    entry_for_longest settings (codes "qwen3.gguf") (codes "qwen") (entry none) []
      ((codes "qwen3", entry (some 7)) ∷ []) refl refl
