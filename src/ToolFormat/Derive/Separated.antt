-- ===== src/ToolFormat/Derive/Separated.antt =====
-- tool_format.rs: a separated format that was derived, and the rendering that it was derived from.
use rampipe.Common.{
  ◌+◌, ◌≡◌, ◌≢◌, ap, sym, ◌∙◌, inl, inr, true, not, ◌&&◌, ◌||◌, List, [], ◌∷◌, ◌++◌, some, length,
  take, drop, append_assoc, append-nil, Bool-cases, Option-cases,
}
use rampipe.Common.Chain.{>>=-cases, guard-cases, some-inj}
use rampipe.Common.Text.{Text, text_eq, is_empty, find, strip_prefix}
use rampipe.Common.Text.Find.{find_split}
use rampipe.Common.Text.Slice.{
  slice, slice_from, strip_suffix, strip_prefix_split, strip_suffix_split,
}
use rampipe.ToolFormat.{ToolFormat, separated, SeparatedSpans}
use rampipe.ToolFormat.RoundTrip.{Spoken}
use rampipe.ToolFormat.Probe.{name_probe, arg1, val1, arg2, val2}
use rampipe.ToolFormat.Derive.{Sightings, after_name, unwrap, derive_separated_format}
use rampipe.ToolFormat.Derive.Layout.{layout}
use rampipe.ToolFormat.Derive.Sound.{probe, Seen, none_empty, ==-sound, after_name_split}

module _ (f : SeparatedSpans) where
  abbrev pub put_pairs : List (Text × Text) → Text
  put_pairs [] = []
  put_pairs ((k, v) ∷ []) = k ++ (f.arg_name_close ++ (f.value_open ++ (v ++ f.arg_close)))
  put_pairs ((k, v) ∷ (x ∷ more)) =
      k
      ++ (f.arg_name_close
          ++ (f.value_open ++ (v ++ (f.arg_close ++ (f.arg_sep ++ put_pairs (x ∷ more))))))

  -- A call with its wrapped values.
  abbrev pub put_separated : Spoken → Text
  put_separated s = s.name ++ (f.name_close ++ put_pairs s.arguments)

-- The spans around a name and a value, and the texts that they were read from.
pub record Separates (region no_args_region : Text) (f : SeparatedSpans) : Type 0 where
  pub as_written :
      (trailing : Text) × (region
        ≡ f.call_open ++ (put_separated f probe ++ (f.call_close ++ trailing)))
  pub without_arguments :
      (before : Text) × (no_args_region ≡ before ++ (name_probe ++ (f.name_close ++ f.call_close)))
  pub name_closes : f.name_close ≢ []
  pub arg_name_closes : f.arg_name_close ≢ []
  pub arg_separates : f.arg_sep ≢ []
  pub call_closes : f.call_close ≢ []

-- The two parts that `unwrap` makes, joined.
unwrap_split : (s closer : Text) → let u = unwrap s closer (strip_suffix s closer) in s ≡ u.0 ++ u.1
unwrap_split s closer = elim (Option-cases (strip_suffix s closer)) [
  | inl e ↦ rw e (sym (append-nil s))
  | inr (bare, e) ↦ elim (Bool-cases (not (is_empty closer) && not (is_empty bare))) [
    | inl y ↦ rw (e, unwrap, y) (strip_suffix_split s closer bare e)
    | inr n ↦ rw (e, unwrap, n) (sym (append-nil s))
  ]
]

four_full :
    (a b c d : Text)
    → not (is_empty a || (is_empty b || (is_empty c || is_empty d))) ≡ true
    → (a ≢ []) × (b ≢ []) × (c ≢ []) × (d ≢ [])
four_full [] b c d h = cc
four_full (x ∷ a) b c d h = let (p, q, r) = none_empty b c d h in ((λ e. cc), p, q, r)

-- The pieces of a call with two arguments, joined.
assemble :
    (o n p a1 q v1 r a2 q' v2 s bare wrap close sep c trailing : Text)
    → q ≡ bare ++ wrap
    → r ≡ close ++ sep
    → q' ≡ q
    → s ≡ close ++ (c ++ trailing)
    → o ++ (n ++ (p ++ (a1 ++ (q ++ (v1 ++ (r ++ (a2 ++ (q' ++ (v2 ++ s)))))))))
      ≡ o
        ++ ((n
              ++ (p
                  ++ (a1
                      ++ (bare
                          ++ (wrap
                              ++ (v1
                                  ++ (close
                                      ++ (sep ++ (a2 ++ (bare ++ (wrap ++ (v2 ++ close))))))))))))
            ++ (c ++ trailing))
assemble o n p a1 q v1 r a2 q' v2 s bare wrap close sep c trailing eq er eq' es =
    rw (er, eq', eq, es) (simp append_assoc)

pub derive_separated_format-Separates :
    (region no_args_region : Text) (at : Sightings) (format : ToolFormat)
    → Seen region at
    → derive_separated_format region no_args_region at ≡ some format
    → (f : SeparatedSpans) × (format ≡ separated f) × Separates region no_args_region f
unfolding derive_separated_format
derive_separated_format-Separates region no_args_region at format seen h =
    >>=-cases (slice region (at.name_at + length name_probe) at.arg1_at) _ h λ p cut_p h1.
      >>=-cases (slice region (at.arg1_at + length arg1) at.val1_at) _ h1 λ q cut_q h2.
        >>=-cases (slice region (at.val1_at + length val1) at.arg2_at) _ h2 λ r cut_r h3.
          >>=-cases (slice_from region (at.val2_at + length val2)) _ h3 λ s cut_s h4.
            >>=-cases (after_name no_args_region) _ h4 λ n after_n h5.
              >>=-cases (strip_prefix n p) _ h5 λ call_close n_split h6.
                >>=-cases (find s call_close) _ h6 λ closing_at closes h7.
                  >>=-cases (strip_prefix r (take closing_at s)) _ h7 λ arg_sep r_split h8.
                    >>=-cases (slice region (at.arg2_at + length arg2) at.val2_at) _ h8
                      λ q' cut_q' h9. guard-cases _ _ h9 λ same h10. guard-cases _ _ h10 λ full h11.
                        guard-cases _ _ h11 λ distinct h12.
                          let arg_close = take closing_at s in
                          let unwrapped = unwrap q arg_close (strip_suffix q arg_close) in
                          let f : SeparatedSpans = record {
                            call_open = take at.name_at region;
                            name_close = p;
                            arg_name_close = unwrapped.0;
                            value_open = unwrapped.1;
                            arg_close = arg_close;
                            arg_sep = arg_sep;
                            call_close = call_close;
                          } in
                          let (nc, anc, sep, cl) = four_full _ _ _ _ full in
                          let (before, written_bare) = after_name_split no_args_region n after_n in
                          let trailing = drop (closing_at + length call_close) s in
                          let spread =
                            layout region name_probe arg1 val1 arg2 val2 p q r q' s at.name_at
                              at.arg1_at at.val1_at at.arg2_at at.val2_at seen.name_seen
                              seen.arg1_seen seen.val1_seen seen.arg2_seen seen.val2_seen cut_p
                              cut_q cut_r cut_q' cut_s in
                          let joined =
                            assemble (take at.name_at region) name_probe p arg1 q val1 r arg2 q'
                              val2 s unwrapped.0 unwrapped.1 arg_close arg_sep call_close trailing
                              (unwrap_split q arg_close)
                              (strip_prefix_split r arg_close arg_sep r_split) (==-sound _ _ same)
                              (find_split s call_close closing_at closes) in
                          (
                            f,
                            sym (some-inj h12),
                            record {
                              as_written = (trailing, spread ∙ joined);
                              without_arguments = (
                                before,
                                written_bare
                                    ∙ ap (λ t. before ++ (name_probe ++ t))
                                        (strip_prefix_split n p call_close n_split),
                              );
                              name_closes = nc;
                              arg_name_closes = anc;
                              arg_separates = sep;
                              call_closes = cl;
                            },
                          )
