-- ===== src/Conversation/Composed.antt =====
-- llama.rs: the text that `Conversation::send` composes turn by turn, beside the rendering of the
-- transcript as a whole.
use rampipe.Common.{
  ℕ, ◌+◌, ◌≡◌, ◌≢◌, refl, ap, sym, subst, ◌∙◌, Bool, true, false, ◌&&◌, List, [], ◌∷◌, ◌++◌, Option,
  none, some, length, ltb, leb, take, drop, if◌then◌else◌, take-append-drop, append_assoc, ◌==◌,
}
use rampipe.Common.Chain.{&&-true}
use rampipe.Common.Text.{Text, text_eq, find}
use rampipe.Common.Text.Slice.{slice, slice_split, find-drop}
use rampipe.ToolFormat.Value.{Json}
use rampipe.ToolFormat.Derive.Sound.{==-sound}
use rampipe.Conversation.Template.{
  ConversationTemplate, Attempt, got, declines, panics, ◌>>=◌, ◌>>◌, demand, or_decline, or_panic,
  Probe, probe_a, probe_b, probe_messages, read_template, agree, derive_from_probe,
  derive_conversation_template,
}
use rampipe.Conversation.Window.{TurnBoundary}
use rampipe.Conversation.Session.{Conversation, user_text, is_first, first_message}

-- What a chain that ends with a value went through.
decline-cases {ℓ κ ρ} :
    {A : Type ℓ} {B : Type κ} {P : Type ρ} (o : Option A) (f : A → Attempt B) {b : B}
    → (or_decline o >>= f) ≡ got b
    → ((a : A) → o ≡ some a → f a ≡ got b → P)
    → P
decline-cases none f h k = absurd (cc)
decline-cases (some a) f h k = k a refl h

panic-cases {ℓ κ ρ} :
    {A : Type ℓ} {B : Type κ} {P : Type ρ} (o : Option A) (f : A → Attempt B) {b : B}
    → (or_panic o >>= f) ≡ got b
    → ((a : A) → o ≡ some a → f a ≡ got b → P)
    → P
panic-cases none f h k = absurd (cc)
panic-cases (some a) f h k = k a refl h

demand-cases {ℓ ρ} :
    {B : Type ℓ} {P : Type ρ} (test : Bool) (k : Attempt B) {b : B}
    → (demand test >> k) ≡ got b
    → (test ≡ true → k ≡ got b → P)
    → P
demand-cases true k h next = next refl h
demand-cases false k h next = absurd (cc)

got-inj {ℓ} : {A : Type ℓ} {a b : A} → got a ≡ got b → a ≡ b
got-inj h = cc

-- Two exchanges in the spans of a template.
abbrev pub two_exchanges : ConversationTemplate → Probe → Text → Text
two_exchanges t p after =
    t.first_turn_open
    ++ (p.u1
        ++ (t.generation_open
            ++ (p.a1 ++ (t.turn_transition ++ (p.u2 ++ (t.generation_open ++ (p.a2 ++ after)))))))

spread :
    (s a b c d t1 t2 t3 : Text) (i j k l : ℕ)
    → find s a ≡ some i
    → find s b ≡ some j
    → find s c ≡ some k
    → find s d ≡ some l
    → slice s (i + length a) j ≡ some t1
    → slice s (j + length b) k ≡ some t2
    → slice s (k + length c) l ≡ some t3
    → t1 ≡ t3
    → s ≡ take i s ++ (a ++ (t1 ++ (b ++ (t2 ++ (c ++ (t1 ++ (d ++ drop (l + length d) s)))))))
spread s a b c d t1 t2 t3 i j k l f1 f2 f3 f4 c1 c2 c3 same =
    let d4 = find-drop s d l f4 in
    let d3 =
      find-drop s c k f3
      ∙ ap (λ x. c ++ x)
          (slice_split s t3 (k + length c) l c3
            ∙ (ap (λ x. t3 ++ x) d4 ∙ ap (λ t. t ++ (d ++ drop (l + length d) s)) (sym same))) in
    let d2 =
      find-drop s b j f2
      ∙ ap (λ x. b ++ x) (slice_split s t2 (j + length b) k c2 ∙ ap (λ x. t2 ++ x) d3) in
    let d1 =
      find-drop s a i f1
      ∙ ap (λ x. a ++ x) (slice_split s t1 (i + length a) j c1 ∙ ap (λ x. t1 ++ x) d2) in
    sym (take-append-drop i s) ∙ ap (λ x. take i s ++ x) d1

read_template-two_exchanges :
    (rendered : Text) (p : Probe) (t : ConversationTemplate)
    → read_template rendered p ≡ got t
    → (after : Text) × (rendered ≡ two_exchanges t p after)
unfolding read_template
read_template-two_exchanges rendered p t h = decline-cases (find rendered p.u1) _ h λ i f1 h1.
    decline-cases (find rendered p.a1) _ h1 λ j f2 h2.
      decline-cases (find rendered p.u2) _ h2 λ k f3 h3.
        decline-cases (find rendered p.a2) _ h3 λ l f4 h4.
          demand-cases (ltb i j && (leb (j + length p.a1) k && ltb k l)) _ h4 λ ordered h5.
            panic-cases (slice rendered (i + length p.u1) j) _ h5 λ t1 c1 h6.
              panic-cases (slice rendered (j + length p.a1) k) _ h6 λ t2 c2 h7.
                panic-cases (slice rendered (k + length p.u2) l) _ h7 λ t3 c3 h8.
                  demand-cases (t1 == t3) _ h8 λ same h9.
                    subst
                      (λ (u : ConversationTemplate).
                        (after : Text) × (rendered ≡ two_exchanges u p after))
                      (got-inj h9)
                      (
                        drop (l + length p.a2) rendered,
                        spread rendered p.u1 p.a1 p.u2 p.a2 t1 t2 t3 i j k l f1 f2 f3 f4 c1 c2 c3
                            (==-sound t1 t3 same),
                      )

module _ (render : Text → Json → Option Json → Option Text) (template_text : Text) where
  derive_from_probe-two_exchanges :
      (p : Probe) (t : ConversationTemplate)
      → derive_from_probe render template_text p ≡ got t
      → (after : Text) × (render template_text (probe_messages p) none
          ≡ some (two_exchanges t p after))
  unfolding derive_from_probe
  derive_from_probe-two_exchanges p t h =
      decline-cases (render template_text (probe_messages p) none) _ h λ rendered r h1.
        let (after, e) = read_template-two_exchanges rendered p t h1 in (after, r ∙ ap some e)

abbrev FirstTurn : {Ctx : Type 0} → ConversationTemplate → Conversation Ctx → Type 0
FirstTurn t c =
    (c.template ≡ t)
    × (c.opening ≡ t.first_turn_open)
    × (c.system_for_first_turn ≡ none)
    × (c.window.turns ≡ [])

abbrev LaterTurn : {Ctx : Type 0} → ConversationTemplate → Conversation Ctx → Type 0
LaterTurn t c = (c.template ≡ t) × (c.window.turns ≢ [])

-- Two exchanges as `send` composes them, in a conversation at its start and later.
abbrev pub composed : {Ctx : Type 0} → Conversation Ctx → Conversation Ctx → Probe → Text → Text
composed c c' p after =
    user_text c p.u1 none ++ (p.a1 ++ (user_text c' p.u2 none ++ (p.a2 ++ after)))

user_text_first :
    {Ctx : Type 0} (t : ConversationTemplate) (c : Conversation Ctx) (message : Text)
    → FirstTurn t c
    → user_text c message none ≡ t.first_turn_open ++ (message ++ t.generation_open)
unfolding user_text
user_text_first t c message (is_t, opens, no_system, none_yet) =
    go c.window.turns c.opening c.system_for_first_turn c.template opens no_system none_yet is_t
  where
    go :
        (turns : List TurnBoundary) (opening : Text) (system : Option Text)
        (u : ConversationTemplate)
        → opening ≡ t.first_turn_open
        → system ≡ none
        → turns ≡ []
        → u ≡ t
        → (if is_first turns then opening else u.turn_transition)
            ++ (first_message system (is_first turns) message ++ u.generation_open)
          ≡ t.first_turn_open ++ (message ++ t.generation_open)
    go turns opening system u e f g k = rw (e, f, g, k) refl

user_text_later :
    {Ctx : Type 0} (t : ConversationTemplate) (c : Conversation Ctx) (message : Text)
    → LaterTurn t c
    → user_text c message none ≡ t.turn_transition ++ (message ++ t.generation_open)
unfolding user_text
user_text_later t c message (is_t, some_turns) =
    go c.window.turns c.opening c.system_for_first_turn c.template some_turns is_t
  where
    go :
        (turns : List TurnBoundary) (opening : Text) (system : Option Text)
        (u : ConversationTemplate)
        → turns ≢ []
        → u ≡ t
        → (if is_first turns then opening else u.turn_transition)
            ++ (first_message system (is_first turns) message ++ u.generation_open)
          ≡ t.turn_transition ++ (message ++ t.generation_open)
    go [] opening system u n k = absurd (n refl)
    go (x ∷ turns) opening none u n k = rw k refl
    go (x ∷ turns) opening (some system) u n k = rw k refl

composed-two_exchanges :
    {Ctx : Type 0} (t : ConversationTemplate) (c c' : Conversation Ctx) (p : Probe) (after : Text)
    → FirstTurn t c
    → LaterTurn t c'
    → two_exchanges t p after ≡ composed c c' p after
composed-two_exchanges t c c' p after h k =
    rw (user_text_first t c p.u1 h, user_text_later t c' p.u2 k) (simp append_assoc)

agree_sound : (s t : ConversationTemplate) → agree s t ≡ true → s ≡ t
agree_sound s t h =
    let (a, h1) = &&-true _ _ h in
    let (b, c) = &&-true _ _ h1 in
    let a' = ==-sound s.first_turn_open t.first_turn_open a in
    let b' = ==-sound s.generation_open t.generation_open b in
    let c' = ==-sound s.turn_transition t.turn_transition c in
    λ i. record { first_turn_open = a' i; generation_open = b' i; turn_transition = c' i }

got-cases {ℓ κ ρ} :
    {A : Type ℓ} {B : Type κ} {P : Type ρ} (m : Attempt A) (f : A → Attempt B) {b : B}
    → (m >>= f) ≡ got b
    → ((a : A) → m ≡ got a → f a ≡ got b → P)
    → P
got-cases (got a) f h k = k a refl h
got-cases declines f h k = absurd (cc)
got-cases panics f h k = absurd (cc)

-- If the spans of a template are derived, the text of two exchanges as `send` composes it turn by
-- turn, with the probes' contents and no system text to fold in, begins the template's rendering
-- of the whole transcript, for both probes.
pub derive_conversation_template-user_text :
    {Ctx : Type 0} (render : Text → Json → Option Json → Option Text) (template_text : Text)
    (t : ConversationTemplate) (c c' : Conversation Ctx)
    → derive_conversation_template render template_text ≡ got t
    → FirstTurn t c
    → LaterTurn t c'
    → (after after' : Text) × (render template_text (probe_messages probe_a) none
        ≡ some (composed c c' probe_a after))
      × (render template_text (probe_messages probe_b) none ≡ some (composed c c' probe_b after'))
unfolding derive_conversation_template
derive_conversation_template-user_text render template_text t c c' h first later =
    got-cases (derive_from_probe render template_text probe_a) _ h λ s from_a h1.
      got-cases (derive_from_probe render template_text probe_b) _ h1 λ u from_b h2.
        demand-cases (agree s u) _ h2 λ same h3.
          let is_t : s ≡ t = got-inj h3 in
          let is_t' : u ≡ t = sym (agree_sound s u same) ∙ is_t in
          let (after, e) =
            derive_from_probe-two_exchanges render template_text probe_a t (from_a ∙ ap got is_t) in
          let (after', e') =
            derive_from_probe-two_exchanges render template_text probe_b t
              (from_b ∙ ap got is_t') in
          (
            after,
            after',
            e ∙ ap some (composed-two_exchanges t c c' probe_a after first later),
            e' ∙ ap some (composed-two_exchanges t c c' probe_b after' first later),
          )
