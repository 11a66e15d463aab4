-- ===== src/ToolFormat/Derive/Sound.antt =====
-- tool_format.rs: a format that was derived, and the rendering that it was derived from.
use rampipe.Common.{
  ◌+◌, ◌≡◌, ◌≢◌, ap, sym, subst, ◌∙◌, true, not, ◌||◌, [], ◌∷◌, ◌++◌, some, length, take,
  append_assoc, append-nil, ◌==◌,
}
use rampipe.Common.Chain.{>>=-cases, guard-cases, some-inj}
use rampipe.Common.Text.{Text, text_eq, text_beq_iff, is_empty, find, strip_prefix}
use rampipe.Common.Text.Slice.{slice, slice_from, strip_prefix_split}
use rampipe.ToolFormat.{ToolFormat, delimited, DelimitedSpans}
use rampipe.ToolFormat.RoundTrip.{Spoken, written}
use rampipe.ToolFormat.Probe.{name_probe, arg1, val1, arg2, val2}
use rampipe.ToolFormat.Derive.{Sightings, sight, shared_prefix, after_name, derive_delimited_format}
use rampipe.ToolFormat.Derive.Layout.{layout, find-slice_from}

-- The call that the probe makes.
abbrev pub probe : Spoken
probe = record { name = name_probe; arguments = (arg1, val1) ∷ (arg2, val2) ∷ [] }

-- The sentinels stand where they were seen.
pub record Seen (region : Text) (at : Sightings) : Type 0 where
  pub name_seen : find region name_probe ≡ some at.name_at
  pub arg1_seen : find region arg1 ≡ some at.arg1_at
  pub val1_seen : find region val1 ≡ some at.val1_at
  pub arg2_seen : find region arg2 ≡ some at.arg2_at
  pub val2_seen : find region val2 ≡ some at.val2_at

pub sight-Seen : (region : Text) (at : Sightings) → sight region ≡ some at → Seen region at
unfolding sight
sight-Seen region at h = >>=-cases (find region name_probe) _ h λ n name_seen h1.
    >>=-cases (find region arg1) _ h1 λ a1 arg1_seen h2.
      >>=-cases (find region val1) _ h2 λ v1 val1_seen h3.
        >>=-cases (find region arg2) _ h3 λ a2 arg2_seen h4.
          >>=-cases (find region val2) _ h4 λ v2 val2_seen h5.
            subst (Seen region) (some-inj h5) (record {
              name_seen = name_seen;
              arg1_seen = arg1_seen;
              val1_seen = val1_seen;
              arg2_seen = arg2_seen;
              val2_seen = val2_seen;
            })

-- The spans around a name and a value, and the texts that they were read from.
pub record Delimits (region no_args_region : Text) (f : DelimitedSpans) : Type 0 where
  pub as_written : region ≡ written f (([], probe) ∷ []) []
  pub without_arguments :
      (before : Text) × (no_args_region ≡ before ++ (name_probe ++ (f.name_close ++ f.call_close)))
  pub name_closes : f.name_close ≢ []
  pub arg_opens : f.arg_open ≢ []
  pub arg_name_closes : f.arg_name_close ≢ []
  pub arg_closes : f.arg_close ≢ []

-- The pieces of a call with two arguments, joined.
assemble :
    (o n p a1 q v1 r a2 q' v2 s nc ao ac c : Text)
    → p ≡ nc ++ ao
    → r ≡ ac ++ ao
    → q' ≡ q
    → s ≡ ac ++ c
    → o ++ (n ++ (p ++ (a1 ++ (q ++ (v1 ++ (r ++ (a2 ++ (q' ++ (v2 ++ s)))))))))
      ≡ o
        ++ ((n
              ++ (nc
                  ++ (ao
                      ++ (a1 ++ (q ++ (v1 ++ (ac ++ (ao ++ (a2 ++ (q ++ (v2 ++ (ac ++ []))))))))))))
            ++ (c ++ []))
assemble o n p a1 q v1 r a2 q' v2 s nc ao ac c ep er eq es =
    rw (ep, er, eq, es) (simp (append_assoc, append-nil))

-- Three texts of which none is empty.
pub none_empty :
    (a b c : Text)
    → not (is_empty a || (is_empty b || is_empty c)) ≡ true
    → (a ≢ []) × (b ≢ []) × (c ≢ [])
none_empty [] b c h = cc
none_empty (x ∷ a) [] c h = cc
none_empty (x ∷ a) (y ∷ b) [] h = cc
none_empty (x ∷ a) (y ∷ b) (z ∷ c) h = ((λ e. cc), (λ e. cc), (λ e. cc))

pub not_empty : (a : Text) → not (is_empty a) ≡ true → a ≢ []
not_empty [] h = cc
not_empty (x ∷ a) h = λ e. cc

pub ==-sound : (a b : Text) → (a == b) ≡ true → a ≡ b
==-sound a b h = (text_beq_iff a b).0 h

pub after_name_split :
    (s t : Text) → after_name s ≡ some t → (before : Text) × (s ≡ before ++ (name_probe ++ t))
unfolding after_name
after_name_split s t h =
    >>=-cases (find s name_probe) _ h
      λ i found h1. (take i s, find-slice_from s name_probe t i found h1)

pub derive_delimited_format-Delimits :
    (region no_args_region : Text) (at : Sightings) (format : ToolFormat)
    → Seen region at
    → derive_delimited_format region no_args_region at ≡ some format
    → (f : DelimitedSpans) × (format ≡ delimited f) × Delimits region no_args_region f
unfolding derive_delimited_format
derive_delimited_format-Delimits region no_args_region at format seen h =
    >>=-cases (slice region (at.name_at + length name_probe) at.arg1_at) _ h λ p cut_p h1.
      >>=-cases (slice region (at.val1_at + length val1) at.arg2_at) _ h1 λ r cut_r h2.
        >>=-cases (slice_from region (at.val2_at + length val2)) _ h2 λ s cut_s h3.
          >>=-cases (after_name no_args_region) _ h3 λ n after_n h4.
            >>=-cases (strip_prefix p (shared_prefix p n)) _ h4 λ arg_open p_split h5.
              >>=-cases (strip_prefix s (shared_prefix r s)) _ h5 λ call_close s_split h6.
                guard-cases _ _ h6 λ full h7. guard-cases _ _ h7 λ r_split h8.
                  guard-cases _ _ h8 λ n_split h9.
                    >>=-cases (slice region (at.arg1_at + length arg1) at.val1_at) _ h9
                      λ q cut_q h10. guard-cases _ _ h10 λ full_q h11.
                        >>=-cases (slice region (at.arg2_at + length arg2) at.val2_at) _ h11
                          λ q' cut_q' h12. guard-cases _ _ h12 λ same h13.
                            let f : DelimitedSpans = record {
                              call_open = take at.name_at region;
                              name_close = shared_prefix p n;
                              arg_open = arg_open;
                              arg_name_close = q;
                              arg_close = shared_prefix r s;
                              call_close = call_close;
                            } in
                            let (nc, ao, ac) = none_empty _ _ _ full in
                            let (before, written_bare) =
                              after_name_split no_args_region n after_n in
                            let spread =
                              layout region name_probe arg1 val1 arg2 val2 p q r q' s at.name_at
                                at.arg1_at at.val1_at at.arg2_at at.val2_at seen.name_seen
                                seen.arg1_seen seen.val1_seen seen.arg2_seen seen.val2_seen cut_p
                                cut_q cut_r cut_q' cut_s in
                            let joined =
                              assemble (take at.name_at region) name_probe p arg1 q val1 r arg2 q'
                                val2 s (shared_prefix p n) arg_open (shared_prefix r s) call_close
                                (strip_prefix_split p (shared_prefix p n) arg_open p_split)
                                (==-sound _ _ r_split) (==-sound _ _ same)
                                (strip_prefix_split s (shared_prefix r s) call_close s_split) in
                            (
                              f,
                              sym (some-inj h13),
                              record {
                                as_written = spread ∙ joined;
                                without_arguments = (
                                  before,
                                  written_bare
                                      ∙ ap (λ t. before ++ (name_probe ++ t))
                                          (==-sound _ _ n_split),
                                );
                                name_closes = nc;
                                arg_opens = ao;
                                arg_name_closes = not_empty q full_q;
                                arg_closes = ac;
                              },
                            )
