-- ===== src/Conversation/Snapshot/Restore.antt =====
-- llama.rs: a conversation that was saved, and the one that is opened from its files.
use rampipe.Common.{
  ℕ, ◌≤◌, ◌≡◌, ◌≢◌, refl, ap, sym, ◌∙◌, inl, inr, true, ◌==◌, List, [], Option, none, some, arith,
  length, ==-refl, Bool-cases, Option-cases,
}
use rampipe.Common.Text.{Text, text_eq}
use rampipe.Common.Map.{get, insert, get-insert_self, get-insert_ne}
use rampipe.ToolFormat.Value.{Json}
use rampipe.Conversation.Window.Shape.{IsShaped}
use rampipe.Conversation.Template.{ConversationTemplate, got, derive_conversation_template}
use rampipe.Conversation.Opening.{
  ToolSetup, Opened, LlamaSession, OpenError, io, malformed, state_rejected, opened,
  conversation_defrag_thold, new_context_reporting, prepare_tools, assemble,
}
use rampipe.Conversation.Snapshot.{
  ConversationSnapshotMeta, Bytes, Disk, Outside, put_file, meta_of, save_state, non_zero,
  open_conversation_from_state,
}

put_file-done :
    {Ctx : Type 0} (out : Outside Ctx) (unmade unwritten : OpenError) (path : Text)
    (content : Option Bytes) (disk disk' : Disk)
    → put_file out unmade path content unwritten disk ≡ (disk', none)
    → (bytes : Bytes) × (content ≡ some bytes) × (disk' ≡ insert path bytes disk)
put_file-done out unmade unwritten path none disk disk' h = cc
put_file-done out unmade unwritten path (some bytes) disk disk' h =
    elim (Bool-cases (out.is_writable path)) [
      | inl y ↦
          let e : (insert path bytes disk, none) ≡ (disk', none) = rw (y, put_file) at h in
          (bytes, refl, sym (ap (λ (p : Disk × Option OpenError). p.0) e))
      | inr n ↦
          let e : (disk, some unwritten) ≡ (disk', none) = rw (n, put_file) at h in absurd (cc e)
    ]

-- What a save that succeeds leaves on the disk.
save_state-files :
    {Ctx : Type 0} (out : Outside Ctx) (c : Opened Ctx) (state_path meta_path : Text)
    (disk disk' : Disk)
    → state_path ≢ meta_path
    → save_state out c state_path meta_path disk ≡ (disk', none)
    → (state_bytes meta_bytes : Bytes) × (out.state_save_file c.conversation.window.ctx
          c.conversation.window.tokens
        ≡ some state_bytes)
      × (out.to_vec_pretty (meta_of c) ≡ some meta_bytes)
      × (get state_path disk' ≡ some state_bytes)
      × (get meta_path disk' ≡ some meta_bytes)
unfolding save_state
save_state-files out c state_path meta_path disk disk' apart h =
    let w = c.conversation.window in
    let first : Disk × Option OpenError =
      put_file out state_rejected state_path (out.state_save_file w.ctx w.tokens) state_rejected
        disk in
    elim (Option-cases first.1) [
      | inr (e, failed) ↦
          let h' : (first.0, some e) ≡ (disk', none) = rw (failed, save_state) at h in
          absurd (cc h')
      | inl fine ↦
          let h' : put_file out malformed meta_path (out.to_vec_pretty (meta_of c)) io first.0
              ≡ (disk', none) =
            rw (fine, save_state) at h in
          let (state_bytes, saved, kept) =
            put_file-done out state_rejected state_rejected state_path
              (out.state_save_file w.ctx w.tokens) disk first.0 (λ i. (first.0, fine i)) in
          let (meta_bytes, written, kept') =
            put_file-done out malformed io meta_path (out.to_vec_pretty (meta_of c)) first.0 disk'
              h' in
          (
            state_bytes,
            meta_bytes,
            saved,
            written,
            ap (get state_path) kept'
                ∙ (get-insert_ne meta_path state_path meta_bytes first.0 (λ e. apart (sym e))
                    ∙ (ap (get state_path) kept ∙ get-insert_self state_path state_bytes disk)),
            ap (get meta_path) kept' ∙ get-insert_self meta_path meta_bytes first.0,
          )
    ]

-- The steps of opening from files, if each answers.
open_conversation_from_state-steps :
    {Ctx : Type 0} (render : Text → Json → Option Json → Option Text)
    (from_str : Text → Option Json) (out : Outside Ctx) (session : LlamaSession Ctx)
    (state_path meta_path template_text : Text) (disk : Disk) (m : ConversationSnapshotMeta)
    (state_bytes meta_bytes : Bytes) (fresh ctx : Ctx) (tokens : List ℕ) (t : ConversationTemplate)
    → get meta_path disk ≡ some meta_bytes
    → out.from_slice meta_bytes ≡ some m
    → (m.model_path == session.path) ≡ true
    → session.new_context (non_zero m.n_ctx) conversation_defrag_thold ≡ some fresh
    → session.chat_template ≡ some template_text
    → derive_conversation_template render template_text ≡ got t
    → get state_path disk ≡ some state_bytes
    → out.state_load_file fresh state_bytes (session.n_ctx fresh) ≡ some (ctx, tokens)
    → open_conversation_from_state render from_str out session state_path meta_path disk
      ≡ opened (
          assemble
            (record {
              ctx = ctx;
              committed_pos = length tokens;
              n_ctx = session.n_ctx fresh;
              turns = m.turns;
              overflow = m.overflow;
              tokens = tokens;
              protected_prefix = 0;
            })
            session.path
            t
            m.tools
            m.tool_format
            (record (prepare_tools render from_str template_text t none m.tools m.tool_format) {
              opening = [];
              system_for_first_turn = none;
            }))
unfolding open_conversation_from_state new_context_reporting
open_conversation_from_state-steps render from_str out session state_path meta_path template_text
      disk m state_bytes meta_bytes fresh ctx tokens t h1 h2 h3 h4 h5 h6 h7 h8 =
    rw (h1, open_conversation_from_state)
      (rw h2 (rw h3 (rw (h4) (rw h5 (rw h6 (rw h7 (rw h8 refl)))))))

-- What the conversation keeps of how it was opened.
pub record OpenedBy {Ctx : Type 0} (setup : ToolSetup) (c : Opened Ctx) : Type 0 where
  pub format : c.conversation.tool_format ≡ setup.tool_format
  pub result_spans : c.conversation.tool_result_spans ≡ setup.tool_result_spans
  pub capable : c.capabilities ≡ setup.capabilities

-- The conversation as it comes back, over a new context.
abbrev pub restored : {Ctx : Type 0} → Opened Ctx → Ctx → Opened Ctx
restored c ctx = record c {
  conversation = record c.conversation {
    window = record c.conversation.window { ctx = ctx; protected_prefix = 0 };
    opening = [];
    system_for_first_turn = none;
  };
}

-- A conversation that was saved to two different paths is opened again as it was, but for the
-- opening, the system text and the protected prefix, with the same cache at every position: if
-- JSON and llama.cpp's state file read back what they wrote, the template still gives the same
-- spans, a context of the same size can be made, the turns lie in order and the tokens fit.
pub open_conversation_from_state-save_state :
    {Ctx : Type 0} (render : Text → Json → Option Json → Option Text)
    (from_str : Text → Option Json) (out : Outside Ctx) (view : Ctx → ℕ → Option ℕ)
    (session : LlamaSession Ctx) (c : Opened Ctx) (state_path meta_path template_text : Text)
    (system : Option Text) (disk disk' : Disk) (fresh : Ctx)
    → ((m : ConversationSnapshotMeta) (b : Bytes)
        → out.to_vec_pretty m ≡ some b
        → out.from_slice b ≡ some m)
    → ((ctx blank : Ctx) (tokens : List ℕ) (b : Bytes) (room : ℕ)
        → out.state_save_file ctx tokens ≡ some b
        → length tokens ≤ room
        → (ctx' : Ctx) × (out.state_load_file blank b room ≡ some (ctx', tokens))
          × ((i : ℕ) → view ctx' i ≡ view ctx i))
    → session.path ≡ c.model_path
    → session.chat_template ≡ some template_text
    → derive_conversation_template render template_text ≡ got c.conversation.template
    → session.new_context (non_zero c.conversation.window.n_ctx) conversation_defrag_thold
      ≡ some fresh
    → session.n_ctx fresh ≡ c.conversation.window.n_ctx
    → OpenedBy
        (prepare_tools render from_str template_text c.conversation.template system c.tools
          c.configured_tool_format)
        c
    → IsShaped c.conversation.window
    → c.conversation.window.committed_pos ≤ c.conversation.window.n_ctx
    → state_path ≢ meta_path
    → save_state out c state_path meta_path disk ≡ (disk', none)
    → (ctx : Ctx) × (open_conversation_from_state render from_str out session state_path meta_path
          disk'
        ≡ opened (restored c ctx))
      × ((i : ℕ) → view ctx i ≡ view c.conversation.window.ctx i)
unfolding open_conversation_from_state new_context_reporting prepare_tools
open_conversation_from_state-save_state render from_str out view session c state_path meta_path
      template_text system disk disk' fresh serde llama same_path has_template same_template makes
      sized by shaped fits apart saved =
    let w = c.conversation.window in
    let (state_bytes, meta_bytes, state_saved, written, at_state, at_meta) =
      save_state-files out c state_path meta_path disk disk' apart saved in
    let (ctx, loads, same_view) =
      llama w.ctx fresh w.tokens state_bytes (session.n_ctx fresh) state_saved
        (omega (arith, shaped.in_step, sized)) in
    let steps =
      open_conversation_from_state-steps render from_str out session state_path meta_path
        template_text disk' (meta_of c) state_bytes meta_bytes fresh ctx w.tokens
        c.conversation.template at_meta (serde (meta_of c) meta_bytes written)
        (ap (λ p. c.model_path == p) same_path ∙ ==-refl c.model_path) makes has_template
        same_template at_state loads in
    let format = sym by.format in
    let result_spans = sym by.result_spans in
    let capable = sym by.capable in
    (
      ctx,
      steps ∙ (λ i. opened (record {
        conversation = record {
          window = record {
            ctx = ctx;
            committed_pos = shaped.in_step i;
            n_ctx = sized i;
            turns = w.turns;
            overflow = w.overflow;
            tokens = w.tokens;
            protected_prefix = 0;
          };
          template = c.conversation.template;
          opening = [];
          system_for_first_turn = none;
          tool_format = format i;
          tool_result_spans = result_spans i;
        };
        model_path = same_path i;
        capabilities = capable i;
        tools = c.tools;
        configured_tool_format = c.configured_tool_format;
      })),
      same_view,
    )
