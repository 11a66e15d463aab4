-- ===== src/Scripted/Order.antt =====
-- scripted.rs: the loop of `serve` over the requests of one conversation.
use rampipe.Common.{
  ℕ, zero, suc, ◌+◌, ◌≤◌, ◌<◌, ◌≡◌, refl, ap, sym, ◌∙◌, true, List, [], ◌∷◌, ◌++◌, map,
  append_assoc, append-nil, Option, none, some, arith, length, take, drop, get_elem?,
}
use rampipe.Common.Text.{Text}
use rampipe.Scripted.{
  Turn, Script, TurnRequest, turn, Reply, reply_opened, opened_with_tools, snapshotted, answered,
  not_decoded, ran_out, Serving, said_of, play, answer_turn, serve_line, serve,
}

-- The text of an answer.
abbrev pub spoken : Reply → Option Text
spoken (answered r) = some r.text
spoken reply_opened = none
spoken (opened_with_tools b) = none
spoken snapshotted = none
spoken not_decoded = none
spoken (ran_out m n) = none

get_elem?-below : (n : ℕ) (ts : List Turn) → n < length ts → (t : Turn) × (get_elem? ts n ≡ some t)
get_elem?-below n [] h = absurd (omega arith)
get_elem?-below zero (t ∷ ts) h = (t, refl)
get_elem?-below (suc n) (t ∷ ts) h = get_elem?-below n ts (omega arith)

drop-at :
    (n : ℕ) (ts : List Turn) (t : Turn) → get_elem? ts n ≡ some t → drop n ts ≡ t ∷ drop (suc n) ts
drop-at n [] t h = absurd (ground arith)
drop-at zero (u ∷ ts) t h = let e : u ≡ t = ground arith in ap (λ x. x ∷ ts) e
drop-at (suc n) (u ∷ ts) t h = drop-at n ts t h

answer_turn_lem :
    (script : Script) (s : Serving) (r : TurnRequest) (t : Turn)
    → get_elem? script.turns s.served ≡ some t
    → let (s', reply) = answer_turn script s r in
      (spoken reply ≡ some t.text)
      × (s'.is_open ≡ s.is_open)
      × (s'.served ≡ s.served + 1)
      × (s'.transcript ≡ s.transcript ++ said_of r r.tool_results ∷ [])
unfolding answer_turn play
answer_turn_lem script s r t e = rw (e, play) (refl, refl, refl, refl)

-- While the script lasts, the scripted daemon answers each request of an open conversation with
-- the text of the next turn, from the one after those that were served, counts it and records
-- what was said.
pub serve-turns :
    (script : Script) (rs : List TurnRequest) (s : Serving)
    → s.is_open ≡ true
    → s.served + length rs ≤ length script.turns
    → let (s', replies) = serve script s (map turn rs) in
      (map spoken replies ≡ map (λ t. some t.text) (take (length rs) (drop s.served script.turns)))
      × (s'.transcript ≡ s.transcript ++ map (λ r. said_of r r.tool_results) rs)
      × (s'.served ≡ s.served + length rs)
unfolding serve serve_line
serve-turns script [] s o h = (refl, sym (append-nil s.transcript), omega arith)
serve-turns script (r ∷ rs) s o h =
    let (t, at) = get_elem?-below s.served script.turns (omega arith) in
    let (text, stays, next, record_of) = answer_turn_lem script s r t at in
    let s' = (answer_turn script s r).0 in
    let ih = serve-turns script rs s' (stays ∙ o) (omega (arith, next)) in
    let goes : s'.is_open ≡ true = stays ∙ o in
    let succ : s'.served ≡ suc s.served = omega (arith, next) in
    let words = λ (ts : List Turn). map (λ (x : Turn). some x.text) (take (length rs) ts) in
    rw goes (
      ap (λ x. x ∷ map spoken (serve script s' (map turn rs)).1) text
          ∙ ap (◌∷◌ (some t.text)) (ih.0 ∙ ap (λ n. words (drop n script.turns)) succ)
          ∙ sym (
              ap (λ ts. map (λ (x : Turn). some x.text) (take (suc (length rs)) ts))
                (drop-at s.served script.turns t at)),
      ih.1
          ∙ ap (λ x. x ++ map (λ q. said_of q q.tool_results) rs) record_of
          ∙ append_assoc s.transcript (said_of r r.tool_results ∷ [])
              (map (λ q. said_of q q.tool_results) rs),
      omega (arith, ih.2, next),
    )
