-- ===== src/Conversation/Opening/System.antt =====
-- llama.rs: where a system prompt goes, and what a conversation starts from.
use rampipe.Common.{
  ◌+◌, ◌≡◌, refl, ap, subst, ◌∙◌, ◌⊎◌, inl, inr, Bool, true, false, ◌&&◌, ◌||◌, List, [], ◌++◌,
  Option, none, some, arith, is_some, unwrap_or, if◌then◌else◌, Option-cases, drop, length,
}
use rampipe.Common.Chain.{>>=-cases, some-inj}
use rampipe.Common.Text.{Text, find}
use rampipe.Common.Text.Find.{find_split}
use rampipe.ToolFormat.{ToolFormat}
use rampipe.ToolFormat.Value.{Json, array}
use rampipe.ToolFormat.Probe.{
  ToolSpec, derive_capabilities, probe_system, render_opening, items, opening_messages,
  offered_value, user_probe,
}
use rampipe.Conversation.Window.{fail}
use rampipe.Conversation.Window.Shape.{IsShaped}
use rampipe.Conversation.Template.{ConversationTemplate, derive_conversation_template}
use rampipe.Conversation.Opening.{
  Opened, LlamaSession, ConversationOptions, template_unavailable, Opening, opened, refused,
  panicked, ◌>>=◌, or_refuse, or_unavailable, new_context_reporting, offered_tools, prepare_tools,
  supports_kv_cache_position_shift, open_conversation,
}

-- A system prompt is in the opening or in front of the first message, whatever the renderer says.
placed {ℓ} :
    (can has : Bool) (rendering : Option Text → Option Text) (first system : Text)
    (P : Option Text → Text → Type ℓ)
    → ((block : Option Text) (opening : Text) → rendering block ≡ some opening → P block opening)
    → let block = if can then some system else none in
      let rendered = if is_some block || has then rendering block else none in
      (((if is_some block && is_some rendered then none else some system) ≡ some system)
        × ((unwrap_or rendered first ≡ first) ⊎ P none (unwrap_or rendered first)))
      ⊎ (((if is_some block && is_some rendered then none else some system) ≡ none)
          × P (some system) (unwrap_or rendered first))
placed true has rendering first system P h = elim (Option-cases (rendering (some system))) [
  | inl e ↦ rw e (inl (refl, inl refl))
  | inr (opening, e) ↦ rw e (inr (refl, h (some system) opening e))
]
placed false false rendering first system P h = inl (refl, inl refl)
placed false true rendering first system P h = elim (Option-cases (rendering none)) [
  | inl e ↦ rw e (inl (refl, inl refl))
  | inr (opening, e) ↦ rw e (inl (refl, inr (h none opening e)))
]

module _ (render : Text → Json → Option Json → Option Text) (template_text : Text) where
  -- The opening is the rendering up to the user's message.
  render_opening-some :
      (system : Option Text) (tools : Option (List ToolSpec)) (opening : Text)
      → render_opening render template_text system tools ≡ some opening
      → (after : Text) × (render template_text
            (array (items (opening_messages system)))
            (offered_value tools)
          ≡ some (opening ++ (user_probe ++ after)))
  unfolding render_opening
  render_opening-some system tools opening h =
      >>=-cases
        (render template_text (array (items (opening_messages system))) (offered_value tools)) _ h
        λ rendered r h1. >>=-cases (find rendered user_probe) _ h1 λ at found h2. (
          drop (at + length user_probe) rendered,
          r
              ∙ ap some (
                  find_split rendered user_probe at found
                  ∙ ap (λ q. q ++ (user_probe ++ drop (at + length user_probe) rendered))
                      (some-inj h2)),
        )

  module _ (from_str : Text → Option Json) (template : ConversationTemplate) (tools : List ToolSpec)
      (configured : Option ToolFormat) where
    abbrev offered : Option (List ToolSpec)
    offered = offered_tools tools (derive_capabilities render template_text)

    -- A system prompt goes to one place: either it is left for the first message, and the opening
    -- is the derived span or the template's rendering without it up to the user's text, or it is
    -- not, and the opening is the template's rendering with it up to the user's text.
    pub prepare_tools-system :
        (system : Text)
        → let setup =
            prepare_tools render from_str template_text template (some system) tools configured in
          ((setup.system_for_first_turn ≡ some system)
            × ((setup.opening ≡ template.first_turn_open)
                ⊎ ((after : Text) × (render template_text
                        (array (items (opening_messages none)))
                        (offered_value (offered_tools tools setup.capabilities))
                      ≡ some (setup.opening ++ (user_probe ++ after))))))
          ⊎ ((setup.system_for_first_turn ≡ none)
              × ((after : Text) × (render template_text
                      (array (items (opening_messages (some system))))
                      (offered_value (offered_tools tools setup.capabilities))
                    ≡ some (setup.opening ++ (user_probe ++ after)))))
    unfolding prepare_tools
    prepare_tools-system system =
        placed (probe_system render template_text) (is_some offered)
          (λ block. render_opening render template_text block offered) template.first_turn_open
          system
          (λ block opening.
            (after : Text) × (render template_text (array (items (opening_messages block)))
                (offered_value offered)
              ≡ some (opening ++ (user_probe ++ after))))
          (λ block opening h. render_opening-some block offered opening h)

opened-cases {ℓ κ ρ} :
    {A : Type ℓ} {B : Type κ} {P : Type ρ} (m : Opening A) (f : A → Opening B) {b : B}
    → (m >>= f) ≡ opened b
    → ((a : A) → m ≡ opened a → f a ≡ opened b → P)
    → P
opened-cases (opened a) f h k = k a refl h
opened-cases (refused e) f h k = absurd (cc)
opened-cases panicked f h k = absurd (cc)

opened-inj {ℓ} : {A : Type ℓ} {a b : A} → opened a ≡ opened b → a ≡ b
opened-inj h = cc

-- A window to start from, with the policy that the model can bear.
pub open_conversation-IsShaped :
    {Ctx : Type 0} (render : Text → Json → Option Json → Option Text)
    (from_str : Text → Option Json) (session : LlamaSession Ctx) (options : ConversationOptions)
    (c : Opened Ctx)
    → open_conversation render from_str session options ≡ opened c
    → IsShaped c.conversation.window
      × (c.conversation.window.tokens ≡ [])
      × (supports_kv_cache_position_shift session.rope_type ≡ false
          → c.conversation.window.overflow ≡ fail)
unfolding open_conversation
open_conversation-IsShaped render from_str session options c h =
    opened-cases (new_context_reporting session (some options.n_ctx) _ options.n_ctx) _ h
      λ ctx made h1.
        opened-cases (or_refuse template_unavailable session.chat_template) _ h1 λ text has h2.
          opened-cases (or_unavailable (derive_conversation_template render text)) _ h2
            λ template from h3.
              subst
                (λ (o : Opened _).
                  IsShaped o.conversation.window
                  × (o.conversation.window.tokens ≡ [])
                  × (supports_kv_cache_position_shift session.rope_type ≡ false
                      → o.conversation.window.overflow ≡ fail))
                (opened-inj h3) (record { spans = omega arith; in_step = refl }, refl, λ n. rw n)
