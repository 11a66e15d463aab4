-- ===== src/Scripted.antt =====
-- scripted.rs: the scripted daemon's side of one conversation, as steps over the lines that it
-- reads. A line is given by what `serde_json` makes of it. The socket is left out: each reply is
-- taken to be written.
pub mod Order
use rampipe.Common.{
  ℕ, zero, suc, ◌+◌, ◌/◌, ◌%◌, Bool, true, false, List, [], ◌∷◌, ◌++◌, map, Option, none, some,
  length, get_elem?, if◌then◌else◌, unwrap_or,
}
use rampipe.Common.Text.{Text, codes, len, is_empty}
use rampipe.ToolFormat.Results.{join}
use rampipe.ToolFormat.{ToolCall}
use rampipe.ToolFormat.Value.{Json}

pub record Turn : Type 0 where
  pub text : Text
  pub tool_calls : List ToolCall
  pub truncated_tool_call : Bool
  pub committed_tokens : Option ℕ
  pub context_size : Option ℕ
  pub tokens_generated : Option ℕ

-- `Turn::says`, `truncated`, `degenerate`, `at_context`.
abbrev pub says : Text → Turn
says text = record {
  text = text;
  tool_calls = [];
  truncated_tool_call = false;
  committed_tokens = none;
  context_size = none;
  tokens_generated = none;
}

abbrev pub truncated : Text → Turn
truncated text = record (says text) { truncated_tool_call = true }

-- `str::repeat`.
abbrev pub repeat : Text → ℕ → Text
repeat phrase zero = []
repeat phrase (suc times) = phrase ++ repeat phrase times

abbrev pub degenerate : Text → ℕ → Turn
degenerate phrase times = says (repeat phrase times)

abbrev pub at_context : Turn → ℕ → ℕ → Turn
at_context turn committed size = record turn {
  committed_tokens = some committed;
  context_size = some size;
}

-- `Turn::calls`; `print` is the `Display` of a JSON value.
abbrev pub calls : (Json → Text) → Text → Json → Turn
calls print name arguments =
    record (says
      (codes "<tool_call>" ++ (name ++ (codes " " ++ (print arguments ++ codes "</tool_call>"))))) {
        tool_calls = record { name = name; arguments = arguments } ∷ [];
      }

pub record Script : Type 0 where
  pub turns : List Turn
  pub context_size : ℕ
  pub supports_tool_calls : Bool

-- `Script::new`.
abbrev pub new : List Turn → Script
new turns = record { turns = turns; context_size = 12288; supports_tool_calls = true }

-- `OpenConversationRequest`, the fields that the script reads.
pub record OpenConversationRequest : Type 0 where
  pub system : Option Text
  pub tools : List Text
  pub n_ctx : ℕ

pub record TurnRequest : Type 0 where
  pub message : Text
  pub tool_results : Option (List Text)

pub data Said : Type 0 where
  opened : Option Text → List Text → ℕ → Said
  message : Text → Said
  tool_results : List Text → Said

-- `said_opened`.
abbrev pub said_opened : OpenConversationRequest → Said
said_opened o = opened o.system o.tools o.n_ctx

-- A line of a conversation: blank, not decoded, a snapshot or a turn.
pub data Line : Type 0 where
  blank unreadable snapshot : Line
  turn : TurnRequest → Line

pub record TurnResponse : Type 0 where
  pub text : Text
  pub tokens_generated : ℕ
  pub committed_tokens : ℕ
  pub context_size : ℕ
  pub tool_calls : List ToolCall
  pub truncated_tool_call : Bool

-- `ran_out` is the error that names the script's length and the turn that was asked for.
pub data Reply : Type 0 where
  reply_opened : Reply
  opened_with_tools : Bool → Reply
  snapshotted : Reply
  answered : TurnResponse → Reply
  not_decoded : Reply
  ran_out : ℕ → ℕ → Reply

-- What `serve` keeps, and whether it still reads.
pub record Serving : Type 0 where
  pub transcript : List Said
  pub served : ℕ
  pub committed : ℕ
  pub is_open : Bool

abbrev usize_mod : ℕ
usize_mod = 0x1_0000_0000_0000_0000

-- `estimate_tokens`: `len().div_ceil(4)`.
unfoldable pub estimate_tokens : Text → ℕ
unfolding len
estimate_tokens text = (len text + 3) / 4

abbrev pub said_of : TurnRequest → Option (List Text) → Said
said_of r none = message r.message
said_of r (some results) = tool_results results

abbrev pub text_of : TurnRequest → Option (List Text) → Text
text_of r none = r.message
text_of r (some results) = join (codes "\n") results

-- The first line, which opens the conversation.
unfoldable pub open_conversation :
    Script → List Said → ℕ → OpenConversationRequest → Serving × Reply
unfolding estimate_tokens
open_conversation script transcript served o = (
  record {
    transcript = transcript ++ said_opened o ∷ [];
    served = served;
    committed = estimate_tokens (unwrap_or o.system []);
    is_open = true;
  },
  (elim o.tools [ [] ↦ reply_opened | t ∷ ts ↦ opened_with_tools script.supports_tool_calls ]),
)

abbrev pub tokens_of : Turn → ℕ
tokens_of t = unwrap_or t.tokens_generated (estimate_tokens t.text)

abbrev pub response : Script → Turn → ℕ → TurnResponse
response script t committed = record {
  text = t.text;
  tokens_generated = tokens_of t;
  committed_tokens = unwrap_or t.committed_tokens committed;
  context_size = unwrap_or t.context_size script.context_size;
  tool_calls = t.tool_calls;
  truncated_tool_call = t.truncated_tool_call;
}

-- The script's turn, or its end.
unfoldable pub play : Script → Serving → Option Turn → Serving × Reply
unfolding estimate_tokens
play script s none = (record s { is_open = false }, ran_out (length script.turns) s.served)
play script s (some t) =
    let committed = (s.committed + tokens_of t) % usize_mod in
    (record s { committed = committed }, answered (response script t committed))

-- A turn is recorded, counted and answered; `served` counts it even when the script has ended.
unfoldable pub answer_turn : Script → Serving → TurnRequest → Serving × Reply
unfolding play join estimate_tokens
answer_turn script s r =
    play script
      (record s {
        transcript = s.transcript ++ said_of r r.tool_results ∷ [];
        committed = (s.committed + estimate_tokens (text_of r r.tool_results)) % usize_mod;
        served = s.served + 1;
      })
      (get_elem? script.turns s.served)

-- One round of the loop of `serve`, with the reply if there is one.
unfoldable pub serve_line : Script → Serving → Line → Serving × List Reply
unfolding answer_turn
serve_line script s blank = (s, [])
serve_line script s unreadable = (record s { is_open = false }, not_decoded ∷ [])
serve_line script s snapshot = (record s { is_open = false }, snapshotted ∷ [])
serve_line script s (turn r) = ((answer_turn script s r).0, (answer_turn script s r).1 ∷ [])

-- The loop of `serve`, to the end of the input.
unfoldable pub serve : Script → Serving → List Line → Serving × List Reply
unfolding serve_line
serve script s [] = (record s { is_open = false }, [])
serve script s (l ∷ ls) =
    let (s', replies) = serve_line script s l in
    let rest = serve script s' ls in
    if s'.is_open then (rest.0, replies ++ rest.1) else (s', replies)

-- `ScriptedDaemon::system_block`.
unfoldable pub system_block : List Said → Option Text
system_block [] = none
system_block (opened (some system) tools n_ctx ∷ said) = some system
system_block (opened none tools n_ctx ∷ said) = system_block said
system_block (message m ∷ said) = system_block said
system_block (tool_results rs ∷ said) = system_block said
