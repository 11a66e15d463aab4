-- ===== src/Daemon/Connection/Managed.antt =====
-- bin/rampiped.rs: `handle_conversation` on a store whose sessions and registry agree.
use rampipe.Common.{
  ℕ, ◌+◌, ◌-◌, refl, subst, ◌≡◌, sym, ap, ◌∙◌, inl, inr, Bool, true, List, [], ◌∷◌, Option, none,
  some, arith, nat_eq, ◌==◌, Bool-cases, Option-cases,
}
use rampipe.Common.Text.{Text, text_eq, text_beq_iff}
use rampipe.Common.Map.{get, insert, get-insert, get-insert_self, insert-Distinct, Distinct}
use rampipe.Common.Int.{ℤ}
use rampipe.Registry.{RegistryState}
use rampipe.Registry.Sync.{IsSynced}
use rampipe.Settings.{sampling_for, max_new_tokens_for, WireSampling, ModelSettings}
use rampipe.Conversation.Generation.{Engine}
use rampipe.Conversation.Session.{Conversation}
use rampipe.ToolFormat.Value.{Json}
use rampipe.Daemon.{
  SharedState, Session, Ensured, ready, model_failed, mapping_failed, no_room, panicked,
  record_outcome,
}
use rampipe.Daemon.Eviction.{IsManaged}
use rampipe.Daemon.Connection.{
  Connection, Line, snapshot, unreadable, turn, Opening, conversing, refused, no_size, hold,
  give_up, open_by, handle_line, handle_lines, handle_conversation,
}

-- The agreement is about the registry and what each path has, not about the counters.
pub same_view-IsManaged :
    (st st' : SharedState)
    → IsManaged st
    → st'.registry ≡ st.registry
    → Distinct st'.sessions
    → ((p : Text) → get p st'.sessions ≡ get p st.sessions)
    → IsManaged st'
same_view-IsManaged st st' v r once same = record {
  synced = subst (λ (x : RegistryState). IsSynced x) (sym r) v.synced;
  once = once;
  handled = λ p s h.
      let (c, at, named, many, only) = v.handled p s (sym (same p) ∙ h) in
      (c, ap (λ (x : RegistryState). get s.id x.resident) r ∙ at, named, many, only);
  alive = λ p s h. v.alive p s (sym (same p) ∙ h);
  loose = λ j c h none_there.
      v.loose j c (ap (λ (x : RegistryState). get j x.resident) (sym r) ∙ h)
        (sym (same c.inner.path) ∙ none_there);
}

pub record_outcome_view :
    (now : ℕ) (st : SharedState) (path : Text) (tokens : Option ℕ)
    → ((record_outcome now st path tokens).registry ≡ st.registry)
      × ((record_outcome now st path tokens).sessions ≡ st.sessions)
unfolding record_outcome
record_outcome_view now st path none = (refl, refl)
record_outcome_view now st path (some n) = (refl, refl)

pub record_outcome-IsManaged :
    (now : ℕ) (st : SharedState) (path : Text) (tokens : Option ℕ)
    → IsManaged st
    → IsManaged (record_outcome now st path tokens)
record_outcome-IsManaged now st path tokens v =
    let (r, s) = record_outcome_view now st path tokens in
    same_view-IsManaged st (record_outcome now st path tokens) v r
      (subst (λ x. Distinct x) (sym s) v.once) (λ p. ap (get p) s)

-- A reference is taken and, after what leaves the sessions alone, given back: each path has what it
-- had, and the same count.
module _ (st st' : SharedState) (path : Text) (once : Distinct st.sessions)
    (same : st'.sessions ≡ (hold st path).sessions) where
  give_up-hold :
      Distinct (give_up st' path).sessions
      × ((p : Text) → get p (give_up st' path).sessions ≡ get p st.sessions)
  unfolding hold give_up
  give_up-hold = elim (Option-cases (get path st.sessions)) [
    | inl absent ↦
        let kept : st'.sessions ≡ st.sessions = rw (absent, hold) at same in
        let gone : get path st'.sessions ≡ none = ap (get path) kept ∙ absent in
        rw (gone, give_up) (subst (λ x. Distinct x) (sym kept) once, λ p. ap (get p) kept)
    | inr (s, there) ↦
        let more = record s { strong_count = s.strong_count + 1 } in
        let kept : st'.sessions ≡ insert path more st.sessions = rw (there, hold) at same in
        let held : get path st'.sessions ≡ some more =
          ap (get path) kept ∙ get-insert_self path more st.sessions in
        rw (held, give_up) (back s there kept)
  ]
    where
      back :
          (s : Session)
          → get path st.sessions ≡ some s
          → st'.sessions ≡ insert path (record s { strong_count = s.strong_count + 1 }) st.sessions
          → let less : Session = record s { strong_count = s.strong_count + 1 - 1 } in
            Distinct (insert path less st'.sessions)
            × ((p : Text) → get p (insert path less st'.sessions) ≡ get p st.sessions)
      back s there kept =
          let more = record s { strong_count = s.strong_count + 1 } in
          let less = record s { strong_count = s.strong_count + 1 - 1 } in
          let count : s.strong_count + 1 - 1 ≡ s.strong_count = omega arith in
          let as_before : less ≡ s = ap (λ n. record s { strong_count = n }) count in
          (
            insert-Distinct path less st'.sessions
                (subst (λ x. Distinct x) (sym kept) (insert-Distinct path more st.sessions once)),
            λ p. elim (Bool-cases (path == p)) [
              | inl y ↦
                  let e = (text_beq_iff path p).0 y in
                  get-insert path p less st'.sessions
                  ∙ (rw y (ap some as_before) ∙ (sym there ∙ ap (λ x. get x st.sessions) e))
              | inr n ↦
                  get-insert path p less st'.sessions
                  ∙ (rw n refl
                      ∙ (ap (get p) kept ∙ (get-insert path p more st.sessions ∙ rw n refl)))
            ],
          )

module _ {Ctx Sampler Decoder : Type 0} (en : Engine Ctx Sampler Decoder)
    (seq_rm seq_add : Ctx → ℕ → ℕ → Option Ctx) (str_to_token : Text → Bool → Option (List ℕ))
    (from_str : Text → Option Json) (saves : Conversation Ctx → Bool) (now : ℕ) (path : Text)
    (configured : WireSampling) (configured_tokens : Option ℤ) where
  handle_line_view :
      (k : Connection Ctx) (l : Line)
      → let k' =
          (handle_line en seq_rm seq_add str_to_token from_str saves now path configured
            configured_tokens k l).0 in
        (k'.state.registry ≡ k.state.registry) × (k'.state.sessions ≡ k.state.sessions)
  unfolding handle_line
  handle_line_view k unreadable = (refl, refl)
  handle_line_view k snapshot = elim (Bool-cases (saves k.conversation)) [
    | inl y ↦ rw (y, handle_line) (refl, refl)
    | inr n ↦ rw (n, handle_line) (refl, refl)
  ]
  handle_line_view k (turn t) = record_outcome_view now k.state path _

  handle_lines_view :
      (k : Connection Ctx) (ls : List Line)
      → let k' =
          (handle_lines en seq_rm seq_add str_to_token from_str saves now path configured
            configured_tokens k ls).0 in
        (k'.state.registry ≡ k.state.registry) × (k'.state.sessions ≡ k.state.sessions)
  unfolding handle_lines
  handle_lines_view k [] = (refl, refl)
  handle_lines_view k (l ∷ ls) =
      let after =
        handle_line en seq_rm seq_add str_to_token from_str saves now path configured
          configured_tokens k l in
      let (r, s) = handle_line_view k l in
      let (r', s') = handle_lines_view after.0 ls in
      elim (Bool-cases after.0.is_open) [
        | inl y ↦ rw (y, handle_lines) (r' ∙ r, s' ∙ s)
        | inr n ↦ rw (n, handle_lines) (r, s)
      ]

  open_by_view :
      (tools : Bool) (lines : List Line) (st : SharedState) (opening : Opening Ctx)
      → let st' =
          (open_by en seq_rm seq_add str_to_token from_str saves now path configured
            configured_tokens tools lines st opening).0 in
        (st'.registry ≡ st.registry) × (st'.sessions ≡ st.sessions)
  unfolding open_by
  open_by_view tools lines st refused = (refl, refl)
  open_by_view tools lines st no_size = (refl, refl)
  open_by_view tools lines st (conversing c) =
      handle_lines_view (record { state = st; conversation = c; is_open = true }) lines

hold-registry : (st : SharedState) (path : Text) → (hold st path).registry ≡ st.registry
unfolding hold
hold-registry st path = elim (Option-cases (get path st.sessions)) [
  | inl e ↦ rw (e, hold) refl
  | inr (s, e) ↦ rw (e, hold) refl
]

give_up-registry : (st : SharedState) (path : Text) → (give_up st path).registry ≡ st.registry
unfolding give_up
give_up-registry st path = elim (Option-cases (get path st.sessions)) [
  | inl e ↦ rw (e, give_up) refl
  | inr (s, e) ↦ rw (e, give_up) refl
]

module _ {Ctx Sampler Decoder : Type 0} (en : Engine Ctx Sampler Decoder)
    (seq_rm seq_add : Ctx → ℕ → ℕ → Option Ctx) (str_to_token : Text → Bool → Option (List ℕ))
    (from_str : Text → Option Json) (saves : Conversation Ctx → Bool) (now : ℕ)
    (settings : ModelSettings) (file_name : Option Text) (path : Text) (tools : Bool)
    (lines : List Line) where
  -- A conversation leaves the registry, and each path its session with the count that it had.
  pub handle_conversation_view :
      (loaded : SharedState × Ensured) (opening : Opening Ctx)
      → Distinct loaded.0.sessions
      → let st' =
          (handle_conversation en seq_rm seq_add str_to_token from_str saves now settings file_name
            path tools lines loaded opening).0 in
        (st'.registry ≡ loaded.0.registry)
        × Distinct st'.sessions
        × ((p : Text) → get p st'.sessions ≡ get p loaded.0.sessions)
  unfolding handle_conversation
  handle_conversation_view (st, ready) opening once =
      let configured = sampling_for settings file_name in
      let configured_tokens = max_new_tokens_for settings file_name in
      let run =
        open_by en seq_rm seq_add str_to_token from_str saves now path configured configured_tokens
          tools lines (hold st path) opening in
      let (r, s) =
        open_by_view en seq_rm seq_add str_to_token from_str saves now path configured
          configured_tokens tools lines (hold st path) opening in
      let (once', same) = give_up-hold st run.0 path once s in
      (give_up-registry run.0 path ∙ (r ∙ hold-registry st path), once', same)
  handle_conversation_view (st, mapping_failed e) opening once = (refl, once, λ p. refl)
  handle_conversation_view (st, model_failed) opening once = (refl, once, λ p. refl)
  handle_conversation_view (st, no_room r) opening once = (refl, once, λ p. refl)
  handle_conversation_view (st, panicked) opening once = (refl, once, λ p. refl)

  pub handle_conversation-IsManaged :
      (loaded : SharedState × Ensured) (opening : Opening Ctx)
      → IsManaged loaded.0
      → IsManaged
          (handle_conversation en seq_rm seq_add str_to_token from_str saves now settings file_name
            path tools lines loaded opening).0
  handle_conversation-IsManaged loaded opening v =
      let (r, once, same) = handle_conversation_view loaded opening v.once in
      same_view-IsManaged loaded.0 _ v r once same
