-- ===== src/Conversation/Template.antt =====
-- llama.rs: the fixed spans of a chat template, recovered from two probe transcripts.
use rampipe.Common.{
  ◌+◌, Bool, true, false, ◌&&◌, [], ◌∷◌, ◌++◌, Option, none, some, length, ltb, leb, take, ◌==◌,
}
use rampipe.Common.Text.{Text, codes, text_eq, find}
use rampipe.Common.Text.Slice.{slice}
use rampipe.ToolFormat.Value.{Json, array}
use rampipe.ToolFormat.Probe.{items, message}
use Prim.Native.String.{String}

pub record ConversationTemplate : Type 0 where
  pub first_turn_open : Text
  pub generation_open : Text
  pub turn_transition : Text

-- A slice that is out of range panics, where an early return only declines.
pub data Attempt {ℓ} (A : Type ℓ) : Type ℓ where
  got : A → Attempt A
  declines : Attempt A
  panics : Attempt A

infixl 5 ◌>>=◌ ◌>>◌
abbrev pub ◌>>=◌ {ℓ κ} : {A : Type ℓ} {B : Type κ} → Attempt A → (A → Attempt B) → Attempt B
got a >>= f = f a
declines >>= f = declines
panics >>= f = panics

abbrev pub ◌>>◌ {ℓ} : {B : Type ℓ} → Attempt (Unit {0}) → Attempt B → Attempt B
m >> k = m >>= λ _. k

abbrev pub demand : Bool → Attempt (Unit {0})
demand true = got tt
demand false = declines

-- `?`, and an index by a range.
abbrev pub or_decline {ℓ} : {A : Type ℓ} → Option A → Attempt A
or_decline none = declines
or_decline (some a) = got a

abbrev pub or_panic {ℓ} : {A : Type ℓ} → Option A → Attempt A
or_panic none = panics
or_panic (some a) = got a

-- A sentinel of a probe: `"\u{E000}RPA1<&\"'>\u{E000}"`.
abbrev pub marked : String → Text
marked word = 0xe000 ∷ (codes word ++ (codes "<&\"'>" ++ 0xe000 ∷ []))

-- The four contents of a probe transcript.
pub record Probe : Type 0 where
  pub u1 : Text
  pub a1 : Text
  pub u2 : Text
  pub a2 : Text

abbrev pub probe_a : Probe
probe_a = record { u1 = marked "RPA1"; a1 = marked "RPA2"; u2 = marked "RPA3"; a2 = marked "RPA4" }

abbrev pub probe_b : Probe
probe_b = record { u1 = marked "RPB1"; a1 = marked "RPB2"; u2 = marked "RPB3"; a2 = marked "RPB4" }

abbrev pub probe_messages : Probe → Json
probe_messages p = array (
    items (
      message "user" p.u1
      ∷ message "assistant" p.a1
      ∷ message "user" p.u2
      ∷ message "assistant" p.a2
      ∷ []))

-- What `derive_from_probe` reads off a rendering.
unfoldable pub read_template : Text → Probe → Attempt ConversationTemplate
unfolding find slice
read_template rendered p = do
  u1_start ← or_decline (find rendered p.u1)
  a1_start ← or_decline (find rendered p.a1)
  u2_start ← or_decline (find rendered p.u2)
  a2_start ← or_decline (find rendered p.a2)
  demand (ltb u1_start a1_start && (leb (a1_start + length p.a1) u2_start && ltb u2_start a2_start))
  generation_open ← or_panic (slice rendered (u1_start + length p.u1) a1_start)
  turn_transition ← or_panic (slice rendered (a1_start + length p.a1) u2_start)
  generation_open_2 ← or_panic (slice rendered (u2_start + length p.u2) a2_start)
  demand (generation_open == generation_open_2)
  got (record {
    first_turn_open = take u1_start rendered;
    generation_open = generation_open;
    turn_transition = turn_transition;
  })

abbrev pub agree : ConversationTemplate → ConversationTemplate → Bool
agree s t =
    s.first_turn_open == t.first_turn_open
    && (s.generation_open == t.generation_open && s.turn_transition == t.turn_transition)

-- `chat_template::render_messages`, without a generation prompt.
module _ (render : Text → Json → Option Json → Option Text) (template_text : Text) where
  -- `derive_from_probe`.
  unfoldable pub derive_from_probe : Probe → Attempt ConversationTemplate
  unfolding read_template
  derive_from_probe p = do
    rendered ← or_decline (render template_text (probe_messages p) none)
    read_template rendered p

  -- `derive_conversation_template`.
  unfoldable pub derive_conversation_template : Attempt ConversationTemplate
  unfolding derive_from_probe
  derive_conversation_template = do
    from_a ← derive_from_probe probe_a
    from_b ← derive_from_probe probe_b
    demand (agree from_a from_b)
    got from_a
