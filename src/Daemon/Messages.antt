-- ===== src/Daemon/Messages.antt =====
-- protocol.rs: the messages of a connection and their replies, given by what `serde_json` makes of
-- them; bin/rampiped.rs: `handle_status`.
use rampipe.Common.{
  ℕ, Bool, false, List, [], ◌∷◌, ◌++◌, map, Option, none, some, ◌||◌, length, ◌==◌, unwrap_or,
  is_some,
}
use rampipe.Common.Text.{Text, text_eq}
use rampipe.Common.Map.{get}
use rampipe.Common.Int.{ℤ}
use rampipe.Common.Float.{F32}
use rampipe.Registry.{mapped_bytes}
use rampipe.Settings.{WireSampling}
use rampipe.Conversation.OneShot.{Generated, generated}
use rampipe.Conversation.Embedding.{Pooling, Embedding, embedded}
use rampipe.ToolFormat.Value.{Json}
use rampipe.Daemon.{SharedState, Session, Ensured, no_stats}
use rampipe.Daemon.Connection.{Line, Response, Opening}

pub data GrammarCompletion : Type 0 where
  exact_match : List Text → GrammarCompletion
  valid_json : Text → GrammarCompletion

unfoldable pub is_one_of : Text → List Text → Bool
is_one_of text [] = false
is_one_of text (option ∷ options) = (option == text) || is_one_of text options

-- `GrammarCompletion::into_predicate`.
unfoldable pub into_predicate : (Text → Option Json) → GrammarCompletion → Text → Bool
unfolding is_one_of
into_predicate from_str (exact_match options) text = is_one_of text options
into_predicate from_str (valid_json prefill) text = is_some (from_str (prefill ++ text))

pub record GenerateRequest : Type 0 where
  pub model_path : Text
  pub prompt : Text
  pub max_new_tokens : Option ℤ
  pub sampling : Option WireSampling
  pub grammar : Option Text
  pub assistant_prefill : Option Text
  pub grammar_completion : Option GrammarCompletion

pub data WirePooling : Type 0 where
  model mean cls last : WirePooling

unfoldable pub wire_pooling_to_pooling : WirePooling → Pooling
wire_pooling_to_pooling model = Pooling.model
wire_pooling_to_pooling mean = Pooling.mean
wire_pooling_to_pooling cls = Pooling.cls
wire_pooling_to_pooling last = Pooling.last

pub record EmbedRequest : Type 0 where
  pub model_path : Text
  pub texts : List Text
  pub pooling : WirePooling
  pub normalize : Bool

pub data RequestError : Type 0 where
  not_loaded : Ensured → RequestError
  not_generated : Generated → RequestError
  not_embedded : Embedding (List (List F32)) → RequestError

pub data GenerateResponse : Type 0 where
  ok : Text → ℕ → Text → GenerateResponse
  err : RequestError → GenerateResponse

pub data EmbedResponse : Type 0 where
  ok : List (List F32) → ℕ → EmbedResponse
  err : RequestError → EmbedResponse

pub record ModelStatus : Type 0 where
  pub path : Text
  pub requests_served : ℕ
  pub tokens_generated : ℕ
  pub last_used_unix_secs : ℕ

-- `StatusResponse`, less the process id, the executable and the uptime.
pub record StatusResponse : Type 0 where
  pub requests_served : ℕ
  pub requests_failed : ℕ
  pub total_tokens_generated : ℕ
  pub resident_bytes : ℕ
  pub gpu_free_bytes : Option ℕ
  pub gpu_total_bytes : Option ℕ
  pub models : List ModelStatus

unfoldable pub status_of : SharedState → Text × Session → ModelStatus
unfolding get
status_of st (path, session) =
    let stats = unwrap_or (get path st.model_stats) no_stats in
    record {
      path = path;
      requests_served = stats.requests_served;
      tokens_generated = stats.tokens_generated;
      last_used_unix_secs = stats.last_used_unix_secs;
    }

-- `handle_status`; `gpu` has the free and the total bytes of the device.
unfoldable pub handle_status : Option (ℕ × ℕ) → SharedState → StatusResponse
unfolding status_of mapped_bytes
handle_status gpu st = record {
  requests_served = st.requests_served;
  requests_failed = st.requests_failed;
  total_tokens_generated = st.total_tokens_generated;
  resident_bytes = mapped_bytes st.registry;
  gpu_free_bytes = elim gpu [ none ↦ none | some (free, total) ↦ some free ];
  gpu_total_bytes = elim gpu [ none ↦ none | some (free, total) ↦ some total ];
  models = map (status_of st) st.sessions;
}

abbrev pub reported_tokens : GenerateResponse → Option ℕ
reported_tokens (GenerateResponse.ok text n prompt) = some n
reported_tokens (GenerateResponse.err e) = none

abbrev pub generated_reply : Generated → GenerateResponse
generated_reply (generated r) = GenerateResponse.ok r.text r.tokens_generated r.formatted_prompt
generated_reply other = GenerateResponse.err (not_generated other)

abbrev width : List (List F32) → ℕ
width [] = 0
width (v ∷ vs) = length v

abbrev pub embedded_reply : Embedding (List (List F32)) → EmbedResponse
embedded_reply (embedded vectors) = EmbedResponse.ok vectors (width vectors)
embedded_reply other = EmbedResponse.err (not_embedded other)

-- `OpenConversationRequest`, as far as the store goes, what opening or restoring gives,
-- and the lines that follow.
pub record OpenRequest (Ctx : Type 0) : Type 0 where
  pub model_path : Text
  pub offers_tools : Bool
  pub opening : Opening Ctx
  pub lines : List Line

pub data ClientMessage (Ctx : Type 0) : Type 0 where
  undecoded status : ClientMessage Ctx
  generate_message : GenerateRequest → ClientMessage Ctx
  embed_message : EmbedRequest → ClientMessage Ctx
  open_conversation : OpenRequest Ctx → ClientMessage Ctx

-- `poisoned` is the panic of an `expect` on a session that is not there.
pub data ConnectionReply : Type 0 where
  no_reply poisoned : ConnectionReply
  generate_reply : GenerateResponse → ConnectionReply
  embed_reply : EmbedResponse → ConnectionReply
  status_reply : StatusResponse → ConnectionReply
  conversation_replies : List Response → ConnectionReply
