-- ===== src/Conversation/Snapshot.antt =====
-- llama.rs: `save_state` and `open_conversation_from_state`. Files are bytes by path. llama.cpp's
-- state file and the JSON of the sidecar are parameters.
pub mod Restore
use rampipe.Common.{
  ℕ, suc, ◌≤◌, ◌≡◌, ◌≢◌, refl, ap, sym, ◌∙◌, Bool, true, false, not, List, [], ◌∷◌, Option, none,
  some, length, if◌then◌else◌, ◌==◌, nat_eq, unwrap_or,
}
use rampipe.Common.Text.{Text, text_eq}
use rampipe.Common.Map.{get, insert}
use rampipe.ToolFormat.{ToolFormat}
use rampipe.ToolFormat.Value.{Json}
use rampipe.ToolFormat.Probe.{ToolSpec}
use rampipe.Conversation.Window.{OverflowPolicy, TurnBoundary, Window}
use rampipe.Conversation.Template.{derive_conversation_template}
use rampipe.Conversation.Session.{Conversation}
use rampipe.Conversation.Opening.{
  Opened, LlamaSession, OpenError, template_unavailable, snapshot_model_mismatch, io, malformed,
  state_rejected, Opening, opened, refused, panicked, ◌>>=◌, or_refuse, or_unavailable,
  conversation_defrag_thold, new_context_reporting, prepare_tools, assemble,
}

pub record ConversationSnapshotMeta : Type 0 where
  pub model_path : Text
  pub n_ctx : ℕ
  pub overflow : OverflowPolicy
  pub turns : List TurnBoundary
  pub tools : List ToolSpec
  pub tool_format : Option ToolFormat

abbrev pub Bytes : Type 0
Bytes = List ℕ

abbrev pub Disk : Type 0
Disk = List (Text × Bytes)

-- llama.cpp's `state_save_file` and `state_load_file`, serde_json's `to_vec_pretty` and `from_slice`,
-- and whether a path can be written.
pub record Outside (Ctx : Type 0) : Type 0 where
  pub state_save_file : Ctx → List ℕ → Option Bytes
  pub state_load_file : Ctx → Bytes → ℕ → Option (Ctx × List ℕ)
  pub to_vec_pretty : ConversationSnapshotMeta → Option Bytes
  pub from_slice : Bytes → Option ConversationSnapshotMeta
  pub is_writable : Text → Bool

abbrev pub write_file : {Ctx : Type 0} → Outside Ctx → Text → Bytes → Disk → Option Disk
write_file out path bytes disk =
    if out.is_writable path then some (insert path bytes disk) else none

abbrev pub meta_of : {Ctx : Type 0} → Opened Ctx → ConversationSnapshotMeta
meta_of c = record {
  model_path = c.model_path;
  n_ctx = c.conversation.window.n_ctx;
  overflow = c.conversation.window.overflow;
  turns = c.conversation.window.turns;
  tools = c.tools;
  tool_format = c.configured_tool_format;
}

-- A write, or its failure, with the disk that the rest works on.
abbrev pub put_file :
    {Ctx : Type 0}
    → Outside Ctx
    → OpenError
    → Text
    → Option Bytes
    → OpenError
    → Disk
    → Disk × Option OpenError
put_file out unmade path none unwritten disk = (disk, some unmade)
put_file out unmade path (some bytes) unwritten disk = elim (write_file out path bytes disk) [
  | none ↦ (disk, some unwritten)
  | some disk' ↦ (disk', none)
]

-- `Conversation::save_state`, its error if it fails.
unfoldable pub save_state :
    {Ctx : Type 0} → Outside Ctx → Opened Ctx → Text → Text → Disk → Disk × Option OpenError
unfolding insert
save_state out c state_path meta_path disk =
    let w = c.conversation.window in
    let (disk', failure) =
      put_file out state_rejected state_path (out.state_save_file w.ctx w.tokens) state_rejected
        disk in
    elim failure [
      | some e ↦ (disk', some e)
      | none ↦ put_file out malformed meta_path (out.to_vec_pretty (meta_of c)) io disk'
    ]

abbrev pub non_zero : ℕ → Option ℕ
non_zero n = if n == 0 then none else some n

abbrev pub check_path : Text → Text → Opening (Unit {0})
check_path saved current =
    if saved == current then opened tt else refused (snapshot_model_mismatch saved current)

module _ (render : Text → Json → Option Json → Option Text) (from_str : Text → Option Json)
    {Ctx : Type 0} (out : Outside Ctx) where
  -- `LlamaSession::open_conversation_from_state`.
  unfoldable pub open_conversation_from_state :
      LlamaSession Ctx → Text → Text → Disk → Opening (Opened Ctx)
  unfolding get new_context_reporting derive_conversation_template prepare_tools
  open_conversation_from_state session state_path meta_path disk = do
    meta_bytes ← or_refuse io (get meta_path disk)
    meta ← or_refuse malformed (out.from_slice meta_bytes)
    _ ← check_path meta.model_path session.path
    fresh ← new_context_reporting session (non_zero meta.n_ctx) conversation_defrag_thold meta.n_ctx
    let n_ctx = session.n_ctx fresh
    template_text ← or_refuse template_unavailable session.chat_template
    template ← or_unavailable (derive_conversation_template render template_text)
    state_bytes ← or_refuse state_rejected (get state_path disk)
    loaded ← or_refuse state_rejected (out.state_load_file fresh state_bytes n_ctx)
    let setup =
        prepare_tools render from_str template_text template none meta.tools meta.tool_format
    opened (
        assemble
          (record {
            ctx = loaded.0;
            committed_pos = length loaded.1;
            n_ctx = n_ctx;
            turns = meta.turns;
            overflow = meta.overflow;
            tokens = loaded.1;
            protected_prefix = 0;
          })
          session.path template meta.tools meta.tool_format
          (record setup { opening = []; system_for_first_turn = none }))
