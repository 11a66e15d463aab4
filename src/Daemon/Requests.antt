-- ===== src/Daemon/Requests.antt =====
-- bin/rampiped.rs: `handle_connection`, with `handle_request` and `handle_embed`. Each reply is taken
-- to be written. What llama.cpp and the file system have of a model is a function of its path.
pub mod Serving
use rampipe.Common.{
  ℕ, ◌+◌, ◌<◌, ◌≡◌, ◌≢◌, refl, Bool, true, false, List, [], ◌∷◌, ◌++◌, map, Option, none, some,
  arith, ◌||◌, length, ◌==◌, unwrap_or, or_else, is_some,
}
use rampipe.Common.Text.{Text, text_eq}
use rampipe.Common.Map.{get}
use rampipe.Common.Int.{ℤ}
use rampipe.Common.Float.{F32, F64}
use rampipe.Registry.{Host, u64_mod, mapped_bytes}
use rampipe.Settings.{
  WireSampling, ModelSettings, sampling_for, max_new_tokens_for, wire_sampling_to_sampling,
}
use rampipe.Conversation.Generation.{Engine}
use rampipe.Conversation.Session.{Conversation, Request, GenerationResult}
use rampipe.Conversation.Opening.{LlamaSession}
use rampipe.Conversation.OneShot.{PromptSource, Generated, generated, generate}
use rampipe.Conversation.Embedding.{Pooling, Arithmetic, Embedder, Embedding, embedded, embed}
use rampipe.ToolFormat.Value.{Json}
use rampipe.Daemon.{
  SharedState, Session, ModelStats, Probe, Backend, Ensured, ready, ensure_loaded, record_outcome,
  no_stats,
}
use rampipe.Daemon.Connection.{Line, Response, Opening, default_max_new_tokens, handle_conversation}
use rampipe.Daemon.Messages.{
  GenerateRequest, EmbedRequest, RequestError, not_loaded, GenerateResponse, EmbedResponse,
  ConnectionReply, no_reply, poisoned, generate_reply, embed_reply, status_reply,
  conversation_replies, ClientMessage, undecoded, status, generate_message, embed_message,
  open_conversation, into_predicate, wire_pooling_to_pooling, generated_reply, embedded_reply,
  reported_tokens, handle_status,
}
use mathlib.Core.Option

-- What there is of a model: its file's name and size, llama.cpp's functions, and how it loads.
pub record Model (Ctx Sampler Decoder : Type 0) : Type 0 where
  pub file_name : Option Text
  pub size : ℕ
  pub backend : Backend
  pub engine : Engine Ctx Sampler Decoder
  pub seq_rm : Ctx → ℕ → ℕ → Option Ctx
  pub seq_add : Ctx → ℕ → ℕ → Option Ctx
  pub str_to_token : Text → Bool → Option (List ℕ)
  pub session : LlamaSession Ctx
  pub source : PromptSource
  pub embedder : Embedder Ctx

module _ {Ctx Sampler Decoder : Type 0} (as_f64 : ℕ → F64) (times : F64 → F64 → F64)
    (probes : ℕ → Probe) (host : Host) (models : Text → Model Ctx Sampler Decoder)
    (from_str : Text → Option Json) (saves : Conversation Ctx → Bool) (arithmetic : Arithmetic)
    (settings : ModelSettings) (now : ℕ) (gpu : Option (ℕ × ℕ)) where
  unfoldable pub loaded_for : SharedState → Text → SharedState × Ensured
  unfolding ensure_loaded
  loaded_for st path =
      ensure_loaded as_f64 times probes host (models path).backend (models path).size st path

  unfoldable pub generation_request : GenerateRequest → Request
  unfolding wire_sampling_to_sampling sampling_for max_new_tokens_for into_predicate
  generation_request request =
      let name = (models request.model_path).file_name in
      record {
        max_new_tokens =
            unwrap_or (or_else request.max_new_tokens (max_new_tokens_for settings name))
              default_max_new_tokens;
        sampling =
            wire_sampling_to_sampling (unwrap_or request.sampling (sampling_for settings name));
        grammar = request.grammar;
        grammar_complete = Option.map (into_predicate from_str) request.grammar_completion;
      }

  generated_with : GenerateRequest → Option Session → Option GenerateResponse
  unfolding generate generation_request
  generated_with request none = none
  generated_with request (some s) =
      let model = models request.model_path in
      some (
        generated_reply (
          generate model.engine model.str_to_token model.session model.source
            (generation_request request) request.assistant_prefill request.prompt))

  request_by : GenerateRequest → SharedState × Ensured → SharedState × Option GenerateResponse
  unfolding generated_with get
  request_by request (st, ready) = (st, generated_with request (get request.model_path st.sessions))
  request_by request (st, e) = (st, some (GenerateResponse.err (not_loaded e)))

  -- `handle_request`; `none` is the panic of its `expect`.
  unfoldable pub handle_request :
      SharedState → GenerateRequest → SharedState × Option GenerateResponse
  unfolding request_by loaded_for
  handle_request st request = request_by request (loaded_for st request.model_path)

  embedded_with : EmbedRequest → Option Session → Option EmbedResponse
  unfolding embed wire_pooling_to_pooling
  embedded_with request none = none
  embedded_with request (some s) = some (
      embedded_reply (
        embed (models request.model_path).embedder arithmetic request.normalize request.texts
          (wire_pooling_to_pooling request.pooling)))

  embed_by : EmbedRequest → SharedState × Ensured → SharedState × Option EmbedResponse
  unfolding embedded_with get
  embed_by request (st, ready) = (st, embedded_with request (get request.model_path st.sessions))
  embed_by request (st, e) = (st, some (EmbedResponse.err (not_loaded e)))

  -- `handle_embed`.
  unfoldable pub handle_embed : SharedState → EmbedRequest → SharedState × Option EmbedResponse
  unfolding embed_by loaded_for
  handle_embed st request = embed_by request (loaded_for st request.model_path)

  outcome_recorded : Text → SharedState × Option GenerateResponse → SharedState × ConnectionReply
  unfolding record_outcome
  outcome_recorded path (st, none) = (st, poisoned)
  outcome_recorded path (st, some response) =
      (record_outcome now st path (reported_tokens response), generate_reply response)

  replied : SharedState × Option EmbedResponse → SharedState × ConnectionReply
  replied (st, none) = (st, poisoned)
  replied (st, some response) = (st, embed_reply response)

  -- `handle_connection`, with the conversation to the end of its input.
  unfoldable pub handle_connection : SharedState → ClientMessage Ctx → SharedState × ConnectionReply
  unfolding outcome_recorded replied handle_request handle_embed handle_status handle_conversation
  handle_connection st undecoded = (st, no_reply)
  handle_connection st status = (st, status_reply (handle_status gpu st))
  handle_connection st (generate_message request) =
      outcome_recorded request.model_path (handle_request st request)
  handle_connection st (embed_message request) = replied (handle_embed st request)
  handle_connection st (open_conversation request) =
      let model = models request.model_path in
      let run =
        handle_conversation model.engine model.seq_rm model.seq_add model.str_to_token from_str
          saves now settings model.file_name request.model_path request.offers_tools request.lines
          (loaded_for st request.model_path) request.opening in
      (run.0, conversation_replies run.1)
