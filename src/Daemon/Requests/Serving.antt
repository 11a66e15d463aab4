-- ===== src/Daemon/Requests/Serving.antt =====
-- bin/rampiped.rs: `handle_connection` on a store whose sessions and registry agree.
use rampipe.Common.{
  ◌≡◌, some, sym, ap, ◌∙◌, ◌⊎◌, ℕ, ◌+◌, ◌<◌, ◌≢◌, inl, inr, Bool, Option, none, arith, Option-cases,
}
use rampipe.Common.Text.{Text, text_eq}
use rampipe.Common.Map.{get}
use rampipe.Common.Float.{F64}
use rampipe.Registry.{Host, u64_mod}
use rampipe.Settings.{ModelSettings}
use rampipe.Conversation.Session.{Conversation}
use rampipe.Conversation.Embedding.{Arithmetic}
use rampipe.ToolFormat.Value.{Json}
use rampipe.Daemon.{
  record_outcome, Session, SharedState, Probe, Ensured, ready, model_failed, mapping_failed,
  no_room, panicked,
}
use rampipe.Daemon.Eviction.{IsManaged}
use rampipe.Daemon.References.{Fewer, Frees, ensure_loaded-Frees}
use rampipe.Daemon.Ensure.{Ensures, ensure_loaded-IsManaged}
use rampipe.Daemon.Messages.{
  GenerateResponse, generate_reply, GenerateRequest, EmbedRequest, ConnectionReply, poisoned,
  ClientMessage, undecoded, status, generate_message, embed_message, open_conversation,
}
use rampipe.Daemon.Requests.{
  Model, loaded_for, generated_with, request_by, handle_request, embedded_with, embed_by,
  handle_embed, outcome_recorded, replied, handle_connection,
}
use rampipe.Daemon.Connection.Managed.{
  record_outcome_view, handle_conversation_view, record_outcome-IsManaged,
  handle_conversation-IsManaged,
}

-- The agreement is kept, no `expect` was met, and the sessions are those that were loaded.
abbrev pub Serves : SharedState → SharedState × ConnectionReply → Type 0
Serves before (st, reply) = IsManaged st × (reply ≢ poisoned) × Fewer before st

recorded-Serves :
    (now : ℕ) (st : SharedState) (path : Text) (tokens : Option ℕ) (r : GenerateResponse)
    → IsManaged st
    → Serves st (record_outcome now st path tokens, generate_reply r)
recorded-Serves now st path tokens r v = (
  record_outcome-IsManaged now st path tokens v,
  λ h. absurd (ground arith),
  λ p s h. ap (get p) (sym (record_outcome_view now st path tokens).1) ∙ h,
)

module _ {Ctx Sampler Decoder : Type 0} (as_f64 : ℕ → F64) (times : F64 → F64 → F64)
    (probes : ℕ → Probe) (host : Host) (models : Text → Model Ctx Sampler Decoder)
    (from_str : Text → Option Json) (saves : Conversation Ctx → Bool) (arithmetic : Arithmetic)
    (settings : ModelSettings) (now : ℕ) (gpu : Option (ℕ × ℕ)) where
  ensured :
      (st : SharedState) (path : Text)
      → IsManaged st
      → st.registry.next_id + 1 < u64_mod
      → Ensures path (
          loaded_for as_f64 times probes host models from_str saves arithmetic settings now gpu st
            path)
  unfolding loaded_for
  ensured st path v room =
      ensure_loaded-IsManaged as_f64 times probes host (models path).backend (models path).size st
        path v room

  generate-Serves :
      (request : GenerateRequest) (loaded : SharedState × Ensured)
      → Ensures request.model_path loaded
      → Serves loaded.0 (
          outcome_recorded as_f64 times probes host models from_str saves arithmetic settings now
            gpu request.model_path
            (request_by as_f64 times probes host models from_str saves arithmetic settings now gpu
              request loaded))
  unfolding outcome_recorded request_by generated_with
  generate-Serves request (st, ready) (v, outcome) =
      elim (Option-cases (get request.model_path st.sessions)) [
        | inl absent ↦ elim outcome [
          | inl (e, there) ↦ absurd (ground (arith, rw absent at there))
          | inr (inl e) ↦ absurd (ground arith)
          | inr (inr (x, e)) ↦ absurd (ground arith)
        ]
        | inr (s, there) ↦ rw there (recorded-Serves now st request.model_path _ _ v)
      ]
  generate-Serves request (st, mapping_failed e) (v, outcome) =
      recorded-Serves now st request.model_path none _ v
  generate-Serves request (st, model_failed) (v, outcome) =
      recorded-Serves now st request.model_path none _ v
  generate-Serves request (st, no_room r) (v, outcome) =
      recorded-Serves now st request.model_path none _ v
  generate-Serves request (st, panicked) (v, outcome) =
      recorded-Serves now st request.model_path none _ v

  embed-Serves :
      (request : EmbedRequest) (loaded : SharedState × Ensured)
      → Ensures request.model_path loaded
      → Serves loaded.0 (
          replied as_f64 times probes host models from_str saves arithmetic settings now gpu (
            embed_by as_f64 times probes host models from_str saves arithmetic settings now gpu
              request loaded))
  unfolding replied embed_by embedded_with
  embed-Serves request (st, ready) (v, outcome) =
      elim (Option-cases (get request.model_path st.sessions)) [
        | inl absent ↦ elim outcome [
          | inl (e, there) ↦ absurd (ground (arith, rw absent at there))
          | inr (inl e) ↦ absurd (ground arith)
          | inr (inr (x, e)) ↦ absurd (ground arith)
        ]
        | inr (s, there) ↦ rw there (v, λ h. absurd (ground arith), λ p s h. h)
      ]
  embed-Serves request (st, mapping_failed e) (v, outcome) =
      (v, λ h. absurd (ground arith), λ p s h. h)
  embed-Serves request (st, model_failed) (v, outcome) = (v, λ h. absurd (ground arith), λ p s h. h)
  embed-Serves request (st, no_room r) (v, outcome) = (v, λ h. absurd (ground arith), λ p s h. h)
  embed-Serves request (st, panicked) (v, outcome) = (v, λ h. absurd (ground arith), λ p s h. h)

  freed :
      (st : SharedState) (path : Text)
      → Frees st
          (loaded_for as_f64 times probes host models from_str saves arithmetic settings now gpu st
            path).0
  unfolding loaded_for
  freed st path =
      ensure_loaded-Frees as_f64 times probes host (models path).backend (models path).size st path

  -- In a store where sessions and registry agree and the next id is below the largest `u64`,
  -- `handle_connection` keeps the agreement for each message that a client can begin with, an
  -- undecoded one and a conversation to its end included, and neither `expect` of
  -- `handle_request` and `handle_embed` fails. It leaves no reference behind: each session that
  -- is there afterwards was there before with as many, or has the map's alone.
  pub handle_connection-IsManaged :
      (st : SharedState) (message : ClientMessage Ctx)
      → IsManaged st
      → st.registry.next_id + 1 < u64_mod
      → let (st', reply) =
          handle_connection as_f64 times probes host models from_str saves arithmetic settings now
            gpu st message in
        IsManaged st'
        × (reply ≢ poisoned)
        × ((p : Text) (s : Session)
            → get p st'.sessions ≡ some s
            → (get p st.sessions ≡ some s) ⊎ (s.strong_count ≡ 1))
  unfolding handle_connection handle_request handle_embed loaded_for
  handle_connection-IsManaged st undecoded v room = (v, λ h. absurd (ground arith), λ p s h. inl h)
  handle_connection-IsManaged st status v room = (v, λ h. absurd (ground arith), λ p s h. inl h)
  handle_connection-IsManaged st (generate_message request) v room =
      let (v', fine, fewer) =
        generate-Serves request
          (loaded_for as_f64 times probes host models from_str saves arithmetic settings now gpu st
            request.model_path)
          (ensured st request.model_path v room) in
      (v', fine, λ p s h. freed st request.model_path p s (fewer p s h))
  handle_connection-IsManaged st (embed_message request) v room =
      let (v', fine, fewer) =
        embed-Serves request
          (loaded_for as_f64 times probes host models from_str saves arithmetic settings now gpu st
            request.model_path)
          (ensured st request.model_path v room) in
      (v', fine, λ p s h. freed st request.model_path p s (fewer p s h))
  handle_connection-IsManaged st (open_conversation request) v room =
      let model = models request.model_path in
      let loaded =
        (loaded_for as_f64 times probes host models from_str saves arithmetic settings now gpu st
          request.model_path) in
      let v' = (ensured st request.model_path v room).0 in
      let (_, _, same) =
        handle_conversation_view model.engine model.seq_rm model.seq_add model.str_to_token from_str
          saves now settings model.file_name request.model_path request.offers_tools request.lines
          loaded request.opening v'.once in
      (
        handle_conversation-IsManaged model.engine model.seq_rm model.seq_add model.str_to_token
            from_str saves now settings model.file_name request.model_path request.offers_tools
            request.lines loaded request.opening v',
        λ h. absurd (ground arith),
        λ p s h. freed st request.model_path p s (sym (same p) ∙ h),
      )
