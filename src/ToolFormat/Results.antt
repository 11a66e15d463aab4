-- ===== src/ToolFormat/Results.antt =====
-- tool_format.rs: how a template renders a sequence of tool results.
use rampipe.Common.{
  ℕ, ◌+◌, ◌≡◌, ap, sym, subst, ◌∙◌, ◌⊎◌, inl, inr, ◌&&◌, List, [], ◌∷◌, ◌++◌, Option, none, some,
  length, ltb, take, drop, take-append-drop, append_assoc, or_else,
}
use rampipe.Common.Chain.{◌>>=◌, ◌>>◌, guard, >>=-cases, guard-cases, or_else-some, some-inj}
use rampipe.Common.Text.{Text, codes, find}
use rampipe.Common.Text.Slice.{slice, slice_split, find-drop}
use rampipe.ToolFormat.Value.{Json, end, field, array, object}
use rampipe.ToolFormat.Probe.{
  items, pair, message, user_probe, plain_probe, result_probe, result2_probe, reply_probe,
}

pub record ToolResultSpans : Type 0 where
  pub opening : Text
  pub separator : Text
  pub close : Text

-- `[String]::join`.
unfoldable pub join : Text → List Text → Text
join separator [] = []
join separator (r ∷ []) = r
join separator (r ∷ s ∷ rs) = r ++ (separator ++ join separator (s ∷ rs))

-- `ToolResultSpans::render`.
unfoldable pub render : ToolResultSpans → List Text → Text
unfolding join
render spans results = spans.opening ++ (join spans.separator results ++ spans.close)

-- The spans between an anchor, two results and a reply, if they stand in this order.
unfoldable pub spans_behind : Text → Text → Option ToolResultSpans
unfolding find slice
spans_behind anchor rendered = do
  anchor_at ← find rendered anchor
  first_at ← find rendered result_probe
  second_at ← find rendered result2_probe
  reply_at ← find rendered reply_probe
  guard (ltb anchor_at first_at && (ltb first_at second_at && ltb second_at reply_at))
  opening ← slice rendered (anchor_at + length anchor) first_at
  separator ← slice rendered (first_at + length result_probe) second_at
  close ← slice rendered (second_at + length result2_probe) reply_at
  some (record { opening = opening; separator = separator; close = close })

-- The transcript with a message for each result.
abbrev pub by_role : Json
by_role = array (
    items (
      message "user" user_probe
      ∷ message "assistant" plain_probe
      ∷ message "tool" result_probe
      ∷ message "tool" result2_probe
      ∷ message "assistant" reply_probe
      ∷ []))

abbrev pub tool_response : Text → Json
tool_response result = object (pair "name" [] (pair "response" result end))

-- The transcript with the results on the assistant's message.
abbrev pub native : Json
native = array (
    items (
      message "user" user_probe
      ∷ object (
          pair "role" (codes "assistant") (
            pair "content" [] (
              field (codes "tool_responses")
                (array (items (tool_response result_probe ∷ tool_response result2_probe ∷ [])))
                end)))
      ∷ message "assistant" reply_probe
      ∷ []))

module _ (render_template : Text → Json → Option Json → Option Text) (template_text : Text) where
  -- `derive_tool_result_spans_by_role`.
  unfoldable pub derive_tool_result_spans_by_role : Option ToolResultSpans
  unfolding spans_behind
  derive_tool_result_spans_by_role = do
    rendered ← render_template template_text by_role none
    spans_behind plain_probe rendered

  -- `derive_tool_result_spans_native`.
  unfoldable pub derive_tool_result_spans_native : Option ToolResultSpans
  unfolding spans_behind
  derive_tool_result_spans_native = do
    rendered ← render_template template_text native none
    spans_behind user_probe rendered

  -- `derive_tool_result_spans`.
  unfoldable pub derive_tool_result_spans : Option ToolResultSpans
  unfolding derive_tool_result_spans_by_role derive_tool_result_spans_native
  derive_tool_result_spans =
      or_else derive_tool_result_spans_by_role derive_tool_result_spans_native

abbrev pub two_results : List Text
two_results = result_probe ∷ result2_probe ∷ []

spread :
    (s a r1 r2 q t1 t2 t3 : Text) (i j k l : ℕ)
    → find s a ≡ some i
    → find s r1 ≡ some j
    → find s r2 ≡ some k
    → find s q ≡ some l
    → slice s (i + length a) j ≡ some t1
    → slice s (j + length r1) k ≡ some t2
    → slice s (k + length r2) l ≡ some t3
    → s ≡ take i s ++ (a ++ ((t1 ++ ((r1 ++ (t2 ++ r2)) ++ t3)) ++ (q ++ drop (l + length q) s)))
spread s a r1 r2 q t1 t2 t3 i j k l f1 f2 f3 f4 c1 c2 c3 =
    let d4 = find-drop s q l f4 in
    let d3 =
      find-drop s r2 k f3
      ∙ ap (λ x. r2 ++ x) (slice_split s t3 (k + length r2) l c3 ∙ ap (λ x. t3 ++ x) d4) in
    let d2 =
      find-drop s r1 j f2
      ∙ ap (λ x. r1 ++ x) (slice_split s t2 (j + length r1) k c2 ∙ ap (λ x. t2 ++ x) d3) in
    let d1 =
      find-drop s a i f1
      ∙ ap (λ x. a ++ x) (slice_split s t1 (i + length a) j c1 ∙ ap (λ x. t1 ++ x) d2) in
    sym (take-append-drop i s)
    ∙ ap (λ x. take i s ++ x)
        (d1 ∙ ap (λ x. a ++ x) (regroup t1 r1 t2 r2 t3 (q ++ drop (l + length q) s)))
  where
    regroup :
        (t1 r1 t2 r2 t3 rest : Text)
        → t1 ++ (r1 ++ (t2 ++ (r2 ++ (t3 ++ rest)))) ≡ (t1 ++ ((r1 ++ (t2 ++ r2)) ++ t3)) ++ rest
    regroup t1 r1 t2 r2 t3 rest = simp append_assoc

spans_behind-render :
    (anchor rendered : Text) (spans : ToolResultSpans)
    → spans_behind anchor rendered ≡ some spans
    → (before after : Text) × (rendered
        ≡ before ++ (anchor ++ (render spans two_results ++ (reply_probe ++ after))))
unfolding spans_behind render join
spans_behind-render anchor rendered spans h = >>=-cases (find rendered anchor) _ h λ i f1 h1.
    >>=-cases (find rendered result_probe) _ h1 λ j f2 h2.
      >>=-cases (find rendered result2_probe) _ h2 λ k f3 h3.
        >>=-cases (find rendered reply_probe) _ h3 λ l f4 h4.
          guard-cases (ltb i j && (ltb j k && ltb k l)) _ h4 λ ordered h5.
            >>=-cases (slice rendered (i + length anchor) j) _ h5 λ t1 c1 h6.
              >>=-cases (slice rendered (j + length result_probe) k) _ h6 λ t2 c2 h7.
                >>=-cases (slice rendered (k + length result2_probe) l) _ h7 λ t3 c3 h8.
                  subst
                    (λ (r : ToolResultSpans).
                      (before after : Text) × (rendered
                        ≡ before ++ (anchor ++ (render r two_results ++ (reply_probe ++ after)))))
                    (some-inj h8)
                    (
                      take i rendered,
                      drop (l + length reply_probe) rendered,
                      spread rendered anchor result_probe result2_probe reply_probe t1 t2 t3 i j k l
                          f1 f2 f3 f4 c1 c2 c3,
                    )

-- If the spans of tool results are derived, `ToolResultSpans::render` of the two probe results is
-- what the template's rendering of one of the two transcripts has between its anchor and the
-- reply.
pub derive_tool_result_spans-render :
    (render_template : Text → Json → Option Json → Option Text) (template_text : Text)
    (spans : ToolResultSpans)
    → derive_tool_result_spans render_template template_text ≡ some spans
    → (before after : Text) × ((render_template template_text by_role none
          ≡ some (before ++ (plain_probe ++ (render spans two_results ++ (reply_probe ++ after)))))
        ⊎ (render_template template_text native none
            ≡ some
                (before ++ (user_probe ++ (render spans two_results ++ (reply_probe ++ after))))))
unfolding derive_tool_result_spans derive_tool_result_spans_by_role derive_tool_result_spans_native
derive_tool_result_spans-render render_template template_text spans h =
    elim (or_else-some (derive_tool_result_spans_by_role render_template template_text) _ h) [
      | inl e ↦ >>=-cases (render_template template_text by_role none) _ e λ rendered r e'.
          let (before, after, i) = spans_behind-render plain_probe rendered spans e' in
          (before, after, inl (r ∙ ap some i))
      | inr e ↦ >>=-cases (render_template template_text native none) _ e λ rendered r e'.
          let (before, after, i) = spans_behind-render user_probe rendered spans e' in
          (before, after, inr (r ∙ ap some i))
    ]
