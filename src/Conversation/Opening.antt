-- ===== src/Conversation/Opening.antt =====
-- llama.rs: `open_conversation` and `prepare_tools`. The model, the context and the renderer of chat
-- templates are parameters. A context's size is a natural number below 2 ^ 31.
pub mod System
use rampipe.Common.{
  ℕ, ◌/◌, ◌*◌, Bool, true, false, ◌&&◌, ◌||◌, List, [], ◌∷◌, Option, none, some, is_some, unwrap_or,
  or_else, if◌then◌else◌, ltb,
}
use rampipe.Common.Text.{Text}
use rampipe.Common.Float.{F32}
use rampipe.ToolFormat.{ToolFormat}
use rampipe.ToolFormat.Value.{Json}
use rampipe.ToolFormat.Probe.{ToolSpec, ChatCapabilities, derive_capabilities, render_opening}
use rampipe.ToolFormat.Derive.{derive_tool_call_format}
use rampipe.ToolFormat.Results.{ToolResultSpans, derive_tool_result_spans}
use rampipe.Conversation.Window.{OverflowPolicy, fail, Window}
use rampipe.Conversation.Template.{
  ConversationTemplate, Attempt, got, declines, panics, derive_conversation_template,
}
use rampipe.Conversation.Session.{Conversation}

-- `llama_cpp_2::model::RopeType`.
pub data RopeType : Type 0 where
  norm neox mrope vision : RopeType

-- `ConversationOptions`.
pub record ConversationOptions : Type 0 where
  pub n_ctx : ℕ
  pub overflow : OverflowPolicy
  pub system : Option Text
  pub tools : List ToolSpec
  pub tool_format : Option ToolFormat

pub record ToolSetup : Type 0 where
  pub opening : Text
  pub system_for_first_turn : Option Text
  pub tool_format : Option ToolFormat
  pub tool_result_spans : Option ToolResultSpans
  pub capabilities : ChatCapabilities

-- A `Conversation` with the fields that only opening and saving read.
pub record Opened (Ctx : Type 0) : Type 0 where
  pub conversation : Conversation Ctx
  pub model_path : Text
  pub capabilities : ChatCapabilities
  pub tools : List ToolSpec
  pub configured_tool_format : Option ToolFormat

-- What `LlamaSession` is asked: the path of its handle, its model's metadata, and contexts.
pub record LlamaSession (Ctx : Type 0) : Type 0 where
  pub path : Text
  pub rope_type : Option RopeType
  pub chat_template : Option Text
  pub new_context : Option ℕ → F32 → Option Ctx
  pub n_ctx : Ctx → ℕ
  pub gpu_memory_bytes : Option (ℕ × ℕ)

pub data OpenError : Type 0 where
  context_allocation : ℕ → ℕ → ℕ → OpenError
  context_load : OpenError
  template_unavailable : OpenError
  snapshot_model_mismatch : Text → Text → OpenError
  io : OpenError
  malformed : OpenError
  state_rejected : OpenError

-- `panicked` stands for a slice out of range while the template was read.
pub data Opening {ℓ} (A : Type ℓ) : Type ℓ where
  opened : A → Opening A
  refused : OpenError → Opening A
  panicked : Opening A

infixl 5 ◌>>=◌
abbrev pub ◌>>=◌ {ℓ κ} : {A : Type ℓ} {B : Type κ} → Opening A → (A → Opening B) → Opening B
opened a >>= f = f a
refused e >>= f = refused e
panicked >>= f = panicked

abbrev pub or_refuse {ℓ} : {A : Type ℓ} → OpenError → Option A → Opening A
or_refuse e none = refused e
or_refuse e (some a) = opened a

abbrev pub or_unavailable {ℓ} : {A : Type ℓ} → Attempt A → Opening A
or_unavailable (got a) = opened a
or_unavailable declines = refused template_unavailable
or_unavailable panics = panicked

-- The patterns of `0.1` and `-1.0`.
abbrev pub conversation_defrag_thold : F32
conversation_defrag_thold = 0x3dcc_cccd

abbrev pub defrag_disabled : F32
defrag_disabled = 0xbf80_0000

unfoldable pub supports_kv_cache_position_shift : Option RopeType → Bool
supports_kv_cache_position_shift none = false
supports_kv_cache_position_shift (some RopeType.norm) = true
supports_kv_cache_position_shift (some RopeType.neox) = true
supports_kv_cache_position_shift (some RopeType.mrope) = false
supports_kv_cache_position_shift (some RopeType.vision) = false

abbrev pub allocation_error : ℕ → Option (ℕ × ℕ) → OpenError
allocation_error asked none = context_load
allocation_error asked (some (free, total)) =
    context_allocation asked (free / (1024 * 1024)) (total / (1024 * 1024))

-- `LlamaSession::new_context_reporting`.
unfoldable pub new_context_reporting :
    {Ctx : Type 0} → LlamaSession Ctx → Option ℕ → F32 → ℕ → Opening Ctx
new_context_reporting session n_ctx defrag_thold asked =
    or_refuse (allocation_error asked session.gpu_memory_bytes)
      (session.new_context n_ctx defrag_thold)

abbrev pub offered_tools : List ToolSpec → ChatCapabilities → Option (List ToolSpec)
offered_tools [] capabilities = none
offered_tools (t ∷ ts) capabilities = if capabilities.tools then some (t ∷ ts) else none

abbrev pub assemble :
    {Ctx : Type 0}
    → Window Ctx
    → Text
    → ConversationTemplate
    → List ToolSpec
    → Option ToolFormat
    → ToolSetup
    → Opened Ctx
assemble w path template tools configured setup = record {
  conversation = record {
    window = w;
    template = template;
    opening = setup.opening;
    system_for_first_turn = setup.system_for_first_turn;
    tool_format = setup.tool_format;
    tool_result_spans = setup.tool_result_spans;
  };
  model_path = path;
  capabilities = setup.capabilities;
  tools = tools;
  configured_tool_format = configured;
}

module _ (render : Text → Json → Option Json → Option Text) (from_str : Text → Option Json) where
  -- `prepare_tools`.
  unfoldable pub prepare_tools :
      Text → ConversationTemplate → Option Text → List ToolSpec → Option ToolFormat → ToolSetup
  unfolding derive_capabilities render_opening derive_tool_call_format derive_tool_result_spans
  prepare_tools template_text template system tools configured_format =
      let capabilities = derive_capabilities render template_text in
      let offered = offered_tools tools capabilities in
      let system_block = if capabilities.system then system else none in
      let rendered_opening =
        if is_some system_block || is_some offered
        then render_opening render template_text system_block offered
        else none in
      let opening_carries_system = is_some system_block && is_some rendered_opening in
      record {
        opening = unwrap_or rendered_opening template.first_turn_open;
        system_for_first_turn = if opening_carries_system then none else system;
        tool_format =
            if is_some offered
            then or_else (derive_tool_call_format render from_str template_text) configured_format
            else none;
        tool_result_spans =
            if is_some offered && capabilities.tool_results
            then derive_tool_result_spans render template_text
            else none;
        capabilities = capabilities;
      }

  -- `LlamaSession::open_conversation`.
  unfoldable pub open_conversation :
      {Ctx : Type 0} → LlamaSession Ctx → ConversationOptions → Opening (Opened Ctx)
  unfolding supports_kv_cache_position_shift new_context_reporting derive_conversation_template
      prepare_tools
  open_conversation session options = do
    let shiftable = supports_kv_cache_position_shift session.rope_type
    let overflow = if shiftable then options.overflow else fail
    let defrag_thold = if shiftable then conversation_defrag_thold else defrag_disabled
    ctx ← new_context_reporting session (some options.n_ctx) defrag_thold options.n_ctx
    template_text ← or_refuse template_unavailable session.chat_template
    template ← or_unavailable (derive_conversation_template render template_text)
    opened (
        assemble
          (record {
            ctx = ctx;
            committed_pos = 0;
            n_ctx = session.n_ctx ctx;
            turns = [];
            overflow = overflow;
            tokens = [];
            protected_prefix = 0;
          })
          session.path template options.tools options.tool_format
          (prepare_tools template_text template options.system options.tools options.tool_format))
