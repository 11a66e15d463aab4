-- ===== src/ToolFormat/Scan.antt =====
-- tool_format.rs: `scan_calls` on a text that holds calls, with prose before each and behind the
-- last. The three families share it, as they do in the source.
use rampipe.Common.{
  ℕ, zero, suc, ◌+◌, ◌≤◌, ◌<◌, ◌≡◌, ◌≢◌, refl, ap, ◌∙◌, inl, inr, true, false, List, [], ◌∷◌, ◌++◌,
  map, Option, none, some, arith, length, take, drop, length-append, take_exact, Bool-cases,
}
use rampipe.Common.Text.{Text, is_empty, find}
use rampipe.Common.Text.Find.{Clear, find-Clear, drop-past}
use rampipe.ToolFormat.{
  ToolCall, Run, returns, cut_body, scan_body, scan_loop, scan_calls, find_close, first_found,
  close_candidates,
}

-- One call in the text: the prose before it, its body, and what the body says.
pub record Item : Type 0 where
  pub prose : Text
  pub body : Text
  pub call : ToolCall

-- The whole closer is found first.
find_close-Clear :
    (closer body rest : Text)
    → closer ≢ []
    → Clear closer body (closer ++ rest)
    → find_close (body ++ (closer ++ rest)) closer ≡ some (length body, length closer)
unfolding find_close close_candidates first_found
find_close-Clear [] body rest n h = absurd (n refl)
find_close-Clear (k ∷ ks) body rest n h = rw (find-Clear (k ∷ ks) body rest h, first_found)

scan_body-last :
    (again : Text → Run (List ToolCall)) (read : Text → Run (Option ToolCall))
    (body remainder : Text) (call : ToolCall) (calls : List ToolCall)
    → read body ≡ returns (some call)
    → again remainder ≡ returns calls
    → (is_empty remainder ≡ true → calls ≡ [])
    → scan_body again read (body, remainder) ≡ returns (call ∷ calls)
unfolding scan_body
scan_body-last again read body remainder call calls said later stop =
    elim (Bool-cases (is_empty remainder)) [
      | inl y ↦ rw (said, y, scan_body, stop y)
      | inr n ↦ rw (said, n, scan_body, later)
    ]

scan_loop_found :
    (fuel : ℕ) (opener closer : Text) (read : Text → Run (Option ToolCall)) (rest : Text)
    (start : ℕ)
    → find rest opener ≡ some start
    → scan_loop (suc fuel) opener closer read rest
      ≡ scan_body (scan_loop fuel opener closer read) read (
          cut_body
            (drop (start + length opener) rest)
            (find_close (drop (start + length opener) rest) closer))
unfolding scan_loop
scan_loop_found fuel opener closer read rest start found = rw (found, scan_loop)

-- One round, with every part of the text named.
scan_round :
    (fuel : ℕ) (opener closer : Text) (read : Text → Run (Option ToolCall))
    (rest after body remainder : Text) (start end len : ℕ)
    → find rest opener ≡ some start
    → drop (start + length opener) rest ≡ after
    → find_close after closer ≡ some (end, len)
    → take end after ≡ body
    → drop (end + len) after ≡ remainder
    → scan_loop (suc fuel) opener closer read rest
      ≡ scan_body (scan_loop fuel opener closer read) read (body, remainder)
scan_round fuel opener closer read rest after body remainder start end len found cut close b r =
    step ∙ ap (scan_body (scan_loop fuel opener closer read) read) parts
  where
    step :
        scan_loop (suc fuel) opener closer read rest
        ≡ scan_body
            (scan_loop fuel opener closer read)
            read
            (cut_body after (find_close after closer))
    step = scan_loop_found fuel opener closer read rest start found ∙ rw cut

    parts : ◌≡◌ {A = Text × Text} (cut_body after (find_close after closer)) (body, remainder)
    parts = rw (close, b, r)

module _ (opener closer : Text) where
  abbrev pub text_of : List Item → Text → Text
  text_of [] tail = tail
  text_of (i ∷ is) tail = i.prose ++ (opener ++ (i.body ++ (closer ++ text_of is tail)))

  -- Each opener and closer is the first that stands where it does, and each body reads as its call.
  abbrev pub IsReadable : (Text → Run (Option ToolCall)) → List Item → Text → Type 0
  IsReadable read [] tail = find tail opener ≡ none
  IsReadable read (i ∷ is) tail =
      Clear opener i.prose (opener ++ (i.body ++ (closer ++ text_of is tail)))
      × Clear closer i.body (closer ++ text_of is tail)
      × (read i.body ≡ returns (some i.call))
      × IsReadable read is tail

append-nonempty : (p o r : Text) → o ≢ [] → is_empty (p ++ (o ++ r)) ≡ false
append-nonempty [] [] r n = absurd (n refl)
append-nonempty [] (c ∷ o) r n = refl
append-nonempty (d ∷ p) o r n = refl

pub length-pos : (s : Text) → s ≢ [] → 1 ≤ length s
length-pos [] n = absurd (n refl)
length-pos (c ∷ s) n = omega arith

module _ (opener closer : Text) (opens : opener ≢ []) (closes : closer ≢ []) where
  text_of-nil :
      (is : List Item) (tail : Text) → is_empty (text_of opener closer is tail) ≡ true → is ≡ []
  text_of-nil [] tail h = refl
  text_of-nil (i ∷ is) tail h = absurd (
      ground (
        arith,
        append-nonempty i.prose opener (i.body ++ (closer ++ text_of opener closer is tail)) opens,
      ))

  scan_loop-text_of :
      (fuel : ℕ) (read : Text → Run (Option ToolCall)) (is : List Item) (tail : Text)
      → IsReadable opener closer read is tail
      → length (text_of opener closer is tail) < fuel
      → scan_loop fuel opener closer read (text_of opener closer is tail)
        ≡ returns (map (λ i. i.call) is)
  unfolding scan_loop
  scan_loop-text_of zero read is tail ok h = absurd (omega arith)
  scan_loop-text_of (suc fuel) read [] tail ok h = rw (ok, scan_loop)
  scan_loop-text_of (suc fuel) read (i ∷ is) tail ok h =
      let rest = text_of opener closer is tail in
      let found = find-Clear opener i.prose (i.body ++ (closer ++ rest)) ok.0 in
      let shorter : length rest < fuel = omega (
        arith,
        length-append i.prose (opener ++ (i.body ++ (closer ++ rest))),
        length-append opener (i.body ++ (closer ++ rest)),
        length-pos opener opens,
        length-append i.body (closer ++ rest),
        length-append closer rest,
      ) in
      let ih = scan_loop-text_of fuel read is tail ok.3 shorter in
      scan_round fuel opener closer read _ (i.body ++ (closer ++ rest)) i.body rest (length i.prose)
        (length i.body) (length closer) found
        (drop-past i.prose opener (i.body ++ (closer ++ rest)))
        (find_close-Clear closer i.body rest closes ok.1) (take_exact i.body (closer ++ rest))
        (drop-past i.body closer rest)
      ∙ scan_body-last (scan_loop fuel opener closer read) read i.body rest i.call
          (map (λ j. j.call) is) ok.2 ih (λ y. ap (map (λ j. j.call)) (text_of-nil is tail y))

  -- The scan gives back the calls, in order.
  pub scan_calls-text_of :
      (read : Text → Run (Option ToolCall)) (is : List Item) (tail : Text)
      → IsReadable opener closer read is tail
      → scan_calls (text_of opener closer is tail) opener closer read
        ≡ returns (map (λ i. i.call) is)
  unfolding scan_calls
  scan_calls-text_of read is tail ok =
      scan_loop-text_of (suc (length (text_of opener closer is tail))) read is tail ok (omega arith)
