-- ===== src/ToolFormat/Derive/Rendered.antt =====
-- tool_format.rs: `derive_tool_call_format`, from the renderings of the template to the format.
use rampipe.Common.{
  ◌≡◌, ◌≢◌, ap, subst, ◌∙◌, inl, inr, true, List, [], ◌∷◌, ◌++◌, Option, none, some, arith,
  append_assoc, append-nil,
}
use rampipe.Common.Chain.{>>=-cases, guard-cases, or_else-some}
use rampipe.Common.Text.{Text}
use rampipe.Common.Text.Slice.{slice_bytes_split}
use rampipe.ToolFormat.{
  ToolFormat, ToolCall, json, delimited, separated, JsonSpans, DelimitedSpans, SeparatedSpans,
  returns, read_json, parse_tool_calls,
}
use rampipe.ToolFormat.Value.{Json, Fields, object, end}
use rampipe.ToolFormat.RoundTrip.{written, put_body}
use rampipe.ToolFormat.Scan.{length-pos}
use rampipe.ToolFormat.Total.{Advances, parse_tool_calls-Returns}
use rampipe.ToolFormat.Probe.{name_probe, val1, message, plain_probe}
use rampipe.ToolFormat.Derive.{
  Sightings, has_value, diverging_region, sight, are_in_order, derive_json_format,
  derive_delimited_format, derive_positional, calling, answered_by, two_arguments,
  derive_tool_call_format,
}
use rampipe.ToolFormat.Derive.Sound.{
  probe, Seen, sight-Seen, Delimits, derive_delimited_format-Delimits,
}
use rampipe.ToolFormat.Derive.Separated.{
  put_separated, Separates, derive_separated_format-Separates,
}
use rampipe.ToolFormat.Derive.Payload.{
  Distinct, Carries, derive_json_format-Carries, read_json-Carries,
}

diverging_region_split :
    (plain s region : Text)
    → diverging_region plain s ≡ some region
    → (before after : Text) × (s ≡ before ++ (region ++ after))
unfolding diverging_region
diverging_region_split plain s region h = slice_bytes_split s region _ _ h

module _ (render : Text → Json → Option Json → Option Text) (from_str : Text → Option Json)
    (template_text : Text) where
  -- The renderings that a format was derived from, and the part of each that shows the call.
  record Renders (region no_args_region : Text) : Type 0 where
    pub with_calls : Text
    pub rendered : render template_text (answered_by (calling two_arguments)) none ≡ some with_calls
    pub inside : (before after : Text) × (with_calls ≡ before ++ (region ++ after))
    pub no_args : Text
    pub rendered_bare : render template_text (answered_by (calling end)) none ≡ some no_args
    pub inside_bare : (before after : Text) × (no_args ≡ before ++ (no_args_region ++ after))

  -- The three ways to a format.
  data Derived (region no_args_region : Text) (format : ToolFormat) : Type 0 where
    by_payload :
        (f : JsonSpans)
        → format ≡ json f
        → Carries from_str region f
        → Derived region no_args_region format
    by_blocks :
        (f : DelimitedSpans)
        → format ≡ delimited f
        → Delimits region no_args_region f
        → Derived region no_args_region format
    by_separator :
        (f : SeparatedSpans)
        → format ≡ separated f
        → Separates region no_args_region f
        → Derived region no_args_region format

  derive_positional-Derived :
      (region no_args_region : Text) (at : Sightings) (format : ToolFormat)
      → Seen region at
      → derive_positional region no_args_region at ≡ some format
      → Derived region no_args_region format
  unfolding derive_positional
  derive_positional-Derived region no_args_region at format seen h =
      guard-cases (are_in_order at) _ h λ ordered h1.
        elim (or_else-some (derive_delimited_format region no_args_region at) _ h1) [
          | inl e ↦
              let (f, is_f, d) =
                derive_delimited_format-Delimits region no_args_region at format seen e in
              Derived.by_blocks f is_f d
          | inr e ↦
              let (f, is_f, d) =
                derive_separated_format-Separates region no_args_region at format seen e in
              Derived.by_separator f is_f d
        ]

  derive_tool_call_format-Derived :
      (format : ToolFormat)
      → derive_tool_call_format render from_str template_text ≡ some format
      → (region no_args_region : Text) × Renders region no_args_region
        × Derived region no_args_region format
  unfolding derive_tool_call_format
  derive_tool_call_format-Derived format h =
      >>=-cases (render template_text (answered_by (message "assistant" plain_probe)) none) _ h
        λ plain _ h1.
          >>=-cases (render template_text (answered_by (calling two_arguments)) none) _ h1
            λ with_calls rendered h2.
              >>=-cases (render template_text (answered_by (calling end)) none) _ h2
                λ no_args rendered_bare h3.
                  >>=-cases (diverging_region plain with_calls) _ h3 λ region cut h4.
                    >>=-cases (diverging_region plain no_args) _ h4 λ no_args_region cut_bare h5.
                      >>=-cases (sight region) _ h5 λ at sighted h6. (
                        region,
                        no_args_region,
                        record {
                          with_calls = with_calls;
                          rendered = rendered;
                          inside = diverging_region_split plain with_calls region cut;
                          no_args = no_args;
                          rendered_bare = rendered_bare;
                          inside_bare =
                              diverging_region_split plain no_args no_args_region cut_bare;
                        },
                        elim (or_else-some (derive_json_format from_str region) _ h6) [
                          | inl e ↦
                              let (f, is_f, c) =
                                derive_json_format-Carries from_str region format e in
                              Derived.by_payload f is_f c
                          | inr e ↦
                              derive_positional-Derived region no_args_region at format
                                (sight-Seen region at sighted) e
                        ],
                      )

  delimits :
      (region bare : Text) (f : DelimitedSpans)
      → Derived region bare (delimited f)
      → Delimits region bare f
  delimits region bare f (Derived.by_payload g e c) = absurd (cc)
  delimits region bare f (Derived.by_separator g e c) = absurd (cc)
  delimits region bare f (Derived.by_blocks g e c) =
      let same : g ≡ f = cc in subst (Delimits region bare) same c

  separates :
      (region bare : Text) (f : SeparatedSpans)
      → Derived region bare (separated f)
      → Separates region bare f
  separates region bare f (Derived.by_payload g e c) = absurd (cc)
  separates region bare f (Derived.by_blocks g e c) = absurd (cc)
  separates region bare f (Derived.by_separator g e c) =
      let same : g ≡ f = cc in subst (Separates region bare) same c

  carries :
      (region bare : Text) (f : JsonSpans)
      → Derived region bare (json f)
      → Carries from_str region f
  carries region bare f (Derived.by_blocks g e c) = absurd (cc)
  carries region bare f (Derived.by_separator g e c) = absurd (cc)
  carries region bare f (Derived.by_payload g e c) =
      let same : g ≡ f = cc in subst (Carries from_str region) same c

  -- The rendering without arguments, with what stands round the name.
  bare_rendering :
      (region bare name_close call_close : Text)
      → Renders region bare
      → (before : Text) × (bare ≡ before ++ (name_probe ++ (name_close ++ call_close)))
      → (before after : Text) × (render template_text (answered_by (calling end)) none
          ≡ some (before ++ (name_probe ++ (name_close ++ (call_close ++ after)))))
  bare_rendering region bare name_close call_close r (front, k) =
      let (before, after, i) = r.inside_bare in
      (
        before ++ front,
        after,
        r.rendered_bare
            ∙ ap some
                (i ∙ (ap (λ q. before ++ (q ++ after)) k ∙ regroup before after front name_probe)),
      )
    where
      regroup :
          (before after front name : Text)
          → before ++ ((front ++ (name ++ (name_close ++ call_close))) ++ after)
            ≡ (before ++ front) ++ (name ++ (name_close ++ (call_close ++ after)))
      regroup before after front name = simp append_assoc

  -- If a delimited format is derived from a template, the template's own rendering of the probe's
  -- call is that call as written in the format, between some text before and after, its rendering
  -- without arguments is the name with the two closers behind it, and none of the four spans
  -- around names and values is empty.
  pub derive_tool_call_format-written :
      (f : DelimitedSpans)
      → derive_tool_call_format render from_str template_text ≡ some (delimited f)
      → (before after before' after' : Text) × (render template_text
            (answered_by (calling two_arguments))
            none
          ≡ some (written f ((before, probe) ∷ []) after))
        × (render template_text (answered_by (calling end)) none
            ≡ some (before' ++ (name_probe ++ (f.name_close ++ (f.call_close ++ after')))))
        × (f.name_close ≢ [])
        × (f.arg_open ≢ [])
        × (f.arg_name_close ≢ [])
        × (f.arg_close ≢ [])
  derive_tool_call_format-written f h =
      let (region, bare, r, derived) = derive_tool_call_format-Derived (delimited f) h in
      let d = delimits region bare f derived in
      let (before, after, i) = r.inside in
      let (before', after', j) =
        bare_rendering region bare f.name_close f.call_close r d.without_arguments in
      (
        before,
        after,
        before',
        after',
        r.rendered
            ∙ ap some (
                i
                ∙ (ap (λ q. before ++ (q ++ after)) d.as_written
                    ∙ regroup before after f.call_open (put_body f probe) f.call_close)),
        j,
        d.name_closes,
        d.arg_opens,
        d.arg_name_closes,
        d.arg_closes,
      )
    where
      regroup :
          (before after opener body closer : Text)
          → before ++ ((opener ++ (body ++ (closer ++ []))) ++ after)
            ≡ before ++ (opener ++ (body ++ (closer ++ after)))
      regroup before after opener body closer = simp (append_assoc, append-nil)

  -- If a separated format is derived from a template, the template's own rendering of the probe's
  -- call is, between some text before and after, that call with its wrapped values and separators
  -- between the opener and the closer, its rendering without arguments is the name with the two
  -- closers behind it, and the closer of a name, of an argument's name and of a call and the
  -- separator are not empty.
  pub derive_tool_call_format-put_separated :
      (f : SeparatedSpans)
      → derive_tool_call_format render from_str template_text ≡ some (separated f)
      → (before after before' after' : Text) × (render template_text
            (answered_by (calling two_arguments))
            none
          ≡ some (before ++ (f.call_open ++ (put_separated f probe ++ (f.call_close ++ after)))))
        × (render template_text (answered_by (calling end)) none
            ≡ some (before' ++ (name_probe ++ (f.name_close ++ (f.call_close ++ after')))))
        × (f.name_close ≢ [])
        × (f.arg_name_close ≢ [])
        × (f.arg_sep ≢ [])
        × (f.call_close ≢ [])
  derive_tool_call_format-put_separated f h =
      let (region, bare, r, derived) = derive_tool_call_format-Derived (separated f) h in
      let d = separates region bare f derived in
      let (before, after, i) = r.inside in
      let (trailing, k) = d.as_written in
      let (before', after', j) =
        bare_rendering region bare f.name_close f.call_close r d.without_arguments in
      (
        before,
        trailing ++ after,
        before',
        after',
        r.rendered
            ∙ ap some (
                i
                ∙ (ap (λ q. before ++ (q ++ after)) k
                    ∙ regroup before after f.call_open (put_separated f probe) f.call_close
                        trailing)),
        j,
        d.name_closes,
        d.arg_name_closes,
        d.arg_separates,
        d.call_closes,
      )
    where
      regroup :
          (before after opener body closer trailing : Text)
          → before ++ ((opener ++ (body ++ (closer ++ trailing))) ++ after)
            ≡ before ++ (opener ++ (body ++ (closer ++ (trailing ++ after))))
      regroup before after opener body closer trailing = simp append_assoc

  -- If a JSON format is derived from a template, and no object that is parsed holds a key twice,
  -- the template's rendering of the probe's call holds a payload between the format's opener and
  -- closer, and the parser reads that payload as a call of the probe's name whose arguments hold
  -- the first probe value.
  pub read_json-derive_tool_call_format :
      ((s : Text) (fields : Fields) → from_str s ≡ some (object fields) → Distinct fields)
      → (f : JsonSpans) → derive_tool_call_format render from_str template_text ≡ some (json f)
      → (before payload after : Text) × (arguments : Fields) × (render template_text
            (answered_by (calling two_arguments))
            none
          ≡ some (before ++ (f.call_open ++ (payload ++ (f.call_close ++ after)))))
        × (read_json from_str f payload
            ≡ some (record { name = name_probe; arguments = object arguments }))
        × (has_value val1 arguments ≡ true)
  read_json-derive_tool_call_format unique f h =
      let (region, bare, r, derived) = derive_tool_call_format-Derived (json f) h in
      let c = carries region bare f derived in
      let (before, after, i) = r.inside in
      let (arguments, parsed, argued) =
        read_json-Carries from_str region f c (unique c.payload c.fields c.parsed) in
      (
        before,
        c.payload,
        after,
        arguments,
        r.rendered
            ∙ ap some (
                i
                ∙ (ap (λ q. before ++ (q ++ after)) c.as_written
                    ∙ regroup before after f.call_open c.payload f.call_close)),
        parsed,
        argued,
      )
    where
      regroup :
          (before after opener payload closer : Text)
          → before ++ ((opener ++ (payload ++ closer)) ++ after)
            ≡ before ++ (opener ++ (payload ++ (closer ++ after)))
      regroup before after opener payload closer = simp append_assoc

  derive_tool_call_format-Advances :
      (format : ToolFormat)
      → derive_tool_call_format render from_str template_text ≡ some format
      → Advances format
  derive_tool_call_format-Advances (json f) h = tt
  derive_tool_call_format-Advances (separated f) h = tt
  derive_tool_call_format-Advances (delimited f) h =
      let (region, bare, r, derived) = derive_tool_call_format-Derived (delimited f) h in
      omega (arith, length-pos f.arg_open (delimits region bare f derived).arg_opens)

  -- `parse_tool_calls` ends on every text with every format that `derive_tool_call_format`
  -- derives.
  pub parse_tool_calls-derive_tool_call_format :
      (format : ToolFormat) (text : Text)
      → derive_tool_call_format render from_str template_text ≡ some format
      → (calls : List ToolCall) × (parse_tool_calls from_str text format ≡ returns calls)
  parse_tool_calls-derive_tool_call_format format text h =
      parse_tool_calls-Returns from_str text format (derive_tool_call_format-Advances format h)
