-- ===== src/ToolFormat/Derive/Layout.antt =====
-- tool_format.rs: the text between the sentinels of a rendering.
use rampipe.Common.{ℕ, ◌+◌, ◌≡◌, ap, sym, ◌∙◌, ◌++◌, some, length, take, drop, take-append-drop}
use rampipe.Common.Text.{Text, find}
use rampipe.Common.Text.Slice.{slice, slice_from, slice_split, slice_from_split, find-drop}

-- A sentinel, and the text between it and where the next was found.
find-slice :
    (s p t : Text) (i j : ℕ)
    → find s p ≡ some i
    → slice s (i + length p) j ≡ some t
    → drop i s ≡ p ++ (t ++ drop j s)
find-slice s p t i j found cut =
    find-drop s p i found ∙ ap (λ q. p ++ q) (slice_split s t (i + length p) j cut)

pub find-slice_from :
    (s p t : Text) (i : ℕ)
    → find s p ≡ some i
    → slice_from s (i + length p) ≡ some t
    → s ≡ take i s ++ (p ++ t)
find-slice_from s p t i found cut =
    sym (take-append-drop i s)
    ∙ ap (λ q. take i s ++ q)
        (find-drop s p i found ∙ ap (λ q. p ++ q) (slice_from_split s t (i + length p) cut))

-- Five sentinels that were found, in order, and what stands between them.
pub layout :
    (s p1 p2 p3 p4 p5 t1 t2 t3 t4 t5 : Text) (i1 i2 i3 i4 i5 : ℕ)
    → find s p1 ≡ some i1
    → find s p2 ≡ some i2
    → find s p3 ≡ some i3
    → find s p4 ≡ some i4
    → find s p5 ≡ some i5
    → slice s (i1 + length p1) i2 ≡ some t1
    → slice s (i2 + length p2) i3 ≡ some t2
    → slice s (i3 + length p3) i4 ≡ some t3
    → slice s (i4 + length p4) i5 ≡ some t4
    → slice_from s (i5 + length p5) ≡ some t5
    → s ≡ take i1 s ++ (p1 ++ (t1 ++ (p2 ++ (t2 ++ (p3 ++ (t3 ++ (p4 ++ (t4 ++ (p5 ++ t5)))))))))
layout s p1 p2 p3 p4 p5 t1 t2 t3 t4 t5 i1 i2 i3 i4 i5 f1 f2 f3 f4 f5 c1 c2 c3 c4 c5 =
    let d5 = find-drop s p5 i5 f5 ∙ ap (λ q. p5 ++ q) (slice_from_split s t5 (i5 + length p5) c5) in
    let d4 = find-slice s p4 t4 i4 i5 f4 c4 ∙ ap (λ q. p4 ++ (t4 ++ q)) d5 in
    let d3 = find-slice s p3 t3 i3 i4 f3 c3 ∙ ap (λ q. p3 ++ (t3 ++ q)) d4 in
    let d2 = find-slice s p2 t2 i2 i3 f2 c2 ∙ ap (λ q. p2 ++ (t2 ++ q)) d3 in
    let d1 = find-slice s p1 t1 i1 i2 f1 c1 ∙ ap (λ q. p1 ++ (t1 ++ q)) d2 in
    sym (take-append-drop i1 s) ∙ ap (λ q. take i1 s ++ q) d1
