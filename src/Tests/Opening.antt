-- ===== src/Tests/Opening.antt =====
-- llama.rs and tool_format.rs: a conversation over a small chat template, opened, saved and opened
-- again. llama.cpp's context is the list of its tokens.
use rampipe.Common.{
  ℕ, ◌≡◌, ◌≤◌, refl, ◌⊎◌, List, [], ◌∷◌, ◌++◌, Option, none, some, arith, Bool, true, false, not,
  ◌&&◌, get_elem?, length, nat_beq, nat_beq_iff, is_some, inl, inr, Bool-cases, if◌then◌else◌, ap,
  sym, ◌∙◌,
}
use rampipe.Common.Chain.{&&-true}
use rampipe.Common.Text.{Text, codes, text_beq, text_beq_iff}
use rampipe.ToolFormat.Value.{array, get, get_field}
use rampipe.ToolFormat.Probe.{
  items, derive_capabilities, opening_messages, offered_value, user_probe, plain_probe, reply_probe,
  ToolSpec,
}
use rampipe.ToolFormat.Results.{
  ToolResultSpans, render, derive_tool_result_spans, by_role, native, two_results,
  derive_tool_result_spans-render,
}
use rampipe.Conversation.Window.{
  Window, fail, drop_oldest_turns, OverflowPolicy, TurnBoundary, Role,
}
use rampipe.Conversation.Template.{
  ConversationTemplate, got, derive_conversation_template, probe_a, probe_b, probe_messages,
}
use rampipe.Conversation.Session.{Conversation}
use rampipe.Conversation.Composed.{composed, derive_conversation_template-user_text}
use rampipe.Conversation.Opening.{
  RopeType, Opened, LlamaSession, opened, prepare_tools, offered_tools,
}
use rampipe.Conversation.Opening.System.{prepare_tools-system}
use rampipe.Conversation.Snapshot.{
  Outside, Disk, ConversationSnapshotMeta, meta_of, save_state, open_conversation_from_state,
}
use rampipe.Conversation.Snapshot.Restore.{
  OpenedBy, restored, open_conversation_from_state-save_state,
}
use rampipe.Tests.Derive.{template, in_blocks, no_json}

abbrev result_spans : ToolResultSpans
result_spans = record {
  opening = codes "[end][tool]";
  separator = codes "[end][tool]";
  close = codes "[end][assistant]";
}

derives_results : derive_tool_result_spans (template in_blocks) [] ≡ some result_spans
unfolding derive_tool_result_spans get get_field text_beq
derives_results = refl

derive_tool_result_spans-render_example :
    (before after : Text) × ((template in_blocks [] by_role none
        ≡ some (
            before ++ (plain_probe ++ (render result_spans two_results ++ (reply_probe ++ after)))))
      ⊎ (template in_blocks [] native none
          ≡ some (
              before
              ++ (user_probe ++ (render result_spans two_results ++ (reply_probe ++ after))))))
derive_tool_result_spans-render_example =
    derive_tool_result_spans-render (template in_blocks) [] result_spans derives_results

abbrev turns : ConversationTemplate
turns = record {
  first_turn_open = codes "[user]";
  generation_open = codes "[end][assistant]";
  turn_transition = codes "[end][user]";
}

derives_turns : derive_conversation_template (template in_blocks) [] ≡ got turns
unfolding derive_conversation_template get get_field text_beq
derives_turns = refl

-- A conversation before its first turn, and one that has two.
abbrev window : List TurnBoundary → List ℕ → Window (List ℕ)
window ts tokens = record {
  ctx = tokens;
  committed_pos = length tokens;
  n_ctx = 64;
  turns = ts;
  overflow = fail;
  tokens = tokens;
  protected_prefix = 1;
}

abbrev talk : Window (List ℕ) → Conversation (List ℕ)
talk w = record {
  window = w;
  template = turns;
  opening = turns.first_turn_open;
  system_for_first_turn = none;
  tool_format = none;
  tool_result_spans = none;
}

abbrev two_turns : List TurnBoundary
two_turns =
    record { role = Role.user; start_pos = 0; end_pos = 2 }
    ∷ record { role = Role.assistant; start_pos = 2; end_pos = 3 }
    ∷ []

abbrev later_window : Window (List ℕ)
later_window = window two_turns (4 ∷ 5 ∷ 6 ∷ [])

derive_conversation_template-user_text_example :
    (after after' : Text) × (template in_blocks [] (probe_messages probe_a) none
      ≡ some (composed (talk (window [] [])) (talk later_window) probe_a after))
    × (template in_blocks [] (probe_messages probe_b) none
        ≡ some (composed (talk (window [] [])) (talk later_window) probe_b after'))
derive_conversation_template-user_text_example =
    derive_conversation_template-user_text (template in_blocks) [] turns (talk (window [] []))
      (talk later_window) derives_turns (refl, refl, refl, refl) (refl, λ e. cc)

-- The template shows a system prompt in front of the user's message.
abbrev terse : Text
terse = codes "Be terse."

prepare_tools-system_example :
    let setup = prepare_tools (template in_blocks) no_json [] turns (some terse) [] none in
    ((setup.system_for_first_turn ≡ some terse)
      × ((setup.opening ≡ turns.first_turn_open)
          ⊎ ((after : Text) × (template in_blocks []
                  (array (items (opening_messages none)))
                  (offered_value (offered_tools [] setup.capabilities))
                ≡ some (setup.opening ++ (user_probe ++ after))))))
    ⊎ ((setup.system_for_first_turn ≡ none)
        × ((after : Text) × (template in_blocks []
                (array (items (opening_messages (some terse))))
                (offered_value (offered_tools [] setup.capabilities))
              ≡ some (setup.opening ++ (user_probe ++ after)))))
prepare_tools-system_example =
    prepare_tools-system (template in_blocks) [] no_json turns [] none terse

-- It is in the opening, and not in the first message.
prepare_tools_test :
    let setup = prepare_tools (template in_blocks) no_json [] turns (some terse) [] none in
    (setup.opening ≡ codes "[system]Be terse.[end][user]") × (setup.system_for_first_turn ≡ none)
unfolding prepare_tools get get_field text_beq
prepare_tools_test = (refl, refl)

abbrev session : LlamaSession (List ℕ)
session = record {
  path = codes "/m.gguf";
  rope_type = some RopeType.norm;
  chat_template = some [];
  new_context = λ n_ctx defrag_thold. some [];
  n_ctx = λ ctx. 64;
  gpu_memory_bytes = none;
}

abbrev saved_conversation : Opened (List ℕ)
saved_conversation = record {
  conversation = talk later_window;
  model_path = codes "/m.gguf";
  capabilities = derive_capabilities (template in_blocks) [];
  tools = [];
  configured_tool_format = none;
}

same_role : Role → Role → Bool
same_role Role.user Role.user = true
same_role Role.user Role.assistant = false
same_role Role.assistant Role.user = false
same_role Role.assistant Role.assistant = true

same_turns : List TurnBoundary → List TurnBoundary → Bool
unfolding same_role
same_turns [] [] = true
same_turns [] (u ∷ us) = false
same_turns (t ∷ ts) [] = false
same_turns (t ∷ ts) (u ∷ us) =
    same_role t.role u.role
    && (nat_beq t.start_pos u.start_pos && (nat_beq t.end_pos u.end_pos && same_turns ts us))

same_role_sound : (a b : Role) → same_role a b ≡ true → a ≡ b
unfolding same_role
same_role_sound Role.user Role.user h = refl
same_role_sound Role.user Role.assistant h = cc
same_role_sound Role.assistant Role.user h = cc
same_role_sound Role.assistant Role.assistant h = refl

same_turns_sound : (ts us : List TurnBoundary) → same_turns ts us ≡ true → ts ≡ us
unfolding same_turns
same_turns_sound [] [] h = refl
same_turns_sound [] (u ∷ us) h = cc
same_turns_sound (t ∷ ts) [] h = cc
same_turns_sound (t ∷ ts) (u ∷ us) h =
    ground (arith, same_role_sound t.role u.role, same_turns_sound ts us)

is_fail : OverflowPolicy → Bool
is_fail fail = true
is_fail drop_oldest_turns = false

no_tools : List ToolSpec → Bool
no_tools [] = true
no_tools (t ∷ ts) = false

-- An encoding of the one sidecar that the example writes.
abbrev sidecar : ConversationSnapshotMeta
sidecar = meta_of saved_conversation

is_sidecar : ConversationSnapshotMeta → Bool
unfolding same_turns is_fail no_tools
is_sidecar m =
    text_beq m.model_path sidecar.model_path
    && (nat_beq m.n_ctx 64
        && (is_fail m.overflow
            && (same_turns m.turns two_turns && (no_tools m.tools && not (is_some m.tool_format)))))

is_fail_sound : (o : OverflowPolicy) → is_fail o ≡ true → fail ≡ o
unfolding is_fail
is_fail_sound fail h = refl
is_fail_sound drop_oldest_turns h = cc

no_tools_sound : (ts : List ToolSpec) → no_tools ts ≡ true → [] ≡ ts
unfolding no_tools
no_tools_sound [] h = refl
no_tools_sound (t ∷ ts) h = cc

no_format : {A : Type 0} (o : Option A) → not (is_some o) ≡ true → none ≡ o
no_format none h = refl
no_format (some a) h = cc

is_sidecar_sound : (m : ConversationSnapshotMeta) → is_sidecar m ≡ true → sidecar ≡ m
unfolding is_sidecar
is_sidecar_sound m h =
    let (a, h1) = &&-true _ _ h in
    let (b, h2) = &&-true _ _ h1 in
    let (c, h3) = &&-true _ _ h2 in
    let (d, h4) = &&-true _ _ h3 in
    let (e, f) = &&-true _ _ h4 in
    let path = sym ((text_beq_iff m.model_path sidecar.model_path).0 a) in
    let size = sym ((nat_beq_iff m.n_ctx 64).0 b) in
    let policy = is_fail_sound m.overflow c in
    let spans = sym (same_turns_sound m.turns two_turns d) in
    let tools = no_tools_sound m.tools e in
    let format = no_format m.tool_format f in
    λ i. record {
      model_path = path i;
      n_ctx = size i;
      overflow = policy i;
      turns = spans i;
      tools = tools i;
      tool_format = format i;
    }

abbrev out : Outside (List ℕ)
out = record {
  state_save_file = λ ctx tokens. if text_beq ctx tokens then some tokens else none;
  state_load_file = λ blank bytes room. some (bytes, bytes);
  to_vec_pretty = λ m. if is_sidecar m then some (codes "sidecar") else none;
  from_slice = λ bytes. some sidecar;
  is_writable = λ path. true;
}

serde :
    (m : ConversationSnapshotMeta) (b : List ℕ)
    → out.to_vec_pretty m ≡ some b
    → out.from_slice b ≡ some m
serde m b h = elim (Bool-cases (is_sidecar m)) [
  | inl y ↦ ap some (is_sidecar_sound m y)
  | inr n ↦ absurd (ground (arith, rw n at h))
]

llama :
    (ctx blank tokens bytes : List ℕ) (room : ℕ)
    → out.state_save_file ctx tokens ≡ some bytes
    → length tokens ≤ room
    → (ctx' : List ℕ) × (out.state_load_file blank bytes room ≡ some (ctx', tokens))
      × ((i : ℕ) → get_elem? ctx' i ≡ get_elem? ctx i)
llama ctx blank tokens bytes room h fits = elim (Bool-cases (text_beq ctx tokens)) [
  | inl y ↦
      let h' : some tokens ≡ some bytes = rw y at h in
      let e : tokens ≡ bytes = cc in
      let same : ctx ≡ tokens = (text_beq_iff ctx tokens).0 y in
      (bytes, ap (λ t. some (bytes, t)) (sym e), λ i. ap (λ l. get_elem? l i) (sym e ∙ sym same))
  | inr n ↦ absurd (ground (arith, rw n at h))
]

abbrev state_path : Text
state_path = codes "/s.state"

abbrev meta_path : Text
meta_path = codes "/s.json"

abbrev disk : Disk
disk = (save_state out saved_conversation state_path meta_path []).0

saved-OpenedBy :
    OpenedBy (prepare_tools (template in_blocks) no_json [] turns none [] none) saved_conversation
unfolding prepare_tools
saved-OpenedBy = record { format = refl; result_spans = refl; capable = refl }

open_conversation_from_state-save_state_example :
    (ctx : List ℕ) × (open_conversation_from_state
        (template in_blocks)
        no_json
        out
        session
        state_path
        meta_path
        disk
      ≡ opened (restored saved_conversation ctx))
    × ((i : ℕ) → get_elem? ctx i ≡ get_elem? (4 ∷ 5 ∷ 6 ∷ []) i)
unfolding save_state text_beq is_sidecar
open_conversation_from_state-save_state_example =
    open_conversation_from_state-save_state (template in_blocks) no_json out get_elem? session
      saved_conversation state_path meta_path [] none [] disk [] serde llama refl refl derives_turns
      refl refl saved-OpenedBy (record { spans = omega arith; in_step = refl }) (omega arith)
      (λ e. cc) refl
