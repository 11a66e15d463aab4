-- ===== src/Conversation/OneShot.antt =====
-- llama.rs: `LlamaSession::generate`, one generation in a context of its own. A `u32` or a length
-- that is cast to `i32` is wrapped; the clock is left out.
use rampipe.Common.{
  ℕ, ◌+◌, ◌<◌, ◌≤◌, ◌≡◌, ◌≢◌, refl, inl, inr, Bool, true, false, List, [], ◌++◌, ◌^◌, Option, none,
  some, arith, length, Bool-cases,
}
use rampipe.Common.Text.{Text}
use rampipe.ToolFormat.{returns}
use rampipe.Common.Int.{ℤ, pos, negsuc, pos_part, leb_ℤ, wrap32, wrap32_id}
use rampipe.Conversation.Generation.{
  Engine, Decoded, Generation, Limits, Ending, decode_chunked, run_generation_loop,
}
use rampipe.Conversation.Generation.Bounds.{Bounded, run_generation_loop-Bounded}
use rampipe.Conversation.Session.{Request, GenerationResult, prefilled, behind}
use rampipe.Conversation.Opening.{
  LlamaSession, OpenError, Opening, opened, panicked, new_context_reporting, defrag_disabled,
  or_refuse, allocation_error,
}

-- What `LlamaModel::chat_template` answers; a template may not be UTF-8.
pub data TemplateAnswer : Type 0 where
  missing_template other_error : TemplateAnswer
  found : Option Text → TemplateAnswer

-- `ChatWrap`.
pub record ChatWrap : Type 0 where
  pub prefix : Text
  pub suffix : Text

-- What a session has for a prompt: minijinja's rendering of a template with the prompt as the user's
-- one message, whether `LlamaChatMessage::new` takes the prompt, and llama.cpp's own rendering.
pub record PromptSource : Type 0 where
  pub chat_template : TemplateAnswer
  pub render_with_minijinja : Text → Text → Option Text
  pub is_message : Text → Bool
  pub apply_chat_template : Text → Option Text
  pub chat_wrap : Option ChatWrap

abbrev wrapped : Option ChatWrap → Text → Text
wrapped none prompt = prompt
wrapped (some wrap) prompt = wrap.prefix ++ (prompt ++ wrap.suffix)

abbrev applied : PromptSource → Text → Option Text → Text
applied source prompt (some formatted) = formatted
applied source prompt none = wrapped source.chat_wrap prompt

abbrev by_llama : PromptSource → Text → Option Text
by_llama source prompt = elim (source.is_message prompt) [
  | false ↦ none
  | true ↦ some (applied source prompt (source.apply_chat_template prompt))
]

abbrev rendered_or : PromptSource → Text → Option Text → Option Text
rendered_or source prompt (some rendered) = some rendered
rendered_or source prompt none = by_llama source prompt

formatted_by : PromptSource → Text → TemplateAnswer → Option Text
formatted_by source prompt missing_template = some prompt
formatted_by source prompt other_error = none
formatted_by source prompt (found none) = by_llama source prompt
formatted_by source prompt (found (some template_text)) =
    rendered_or source prompt (source.render_with_minijinja template_text prompt)

-- `LlamaSession::formatted_prompt`.
unfoldable pub formatted_prompt : PromptSource → Text → Option Text
unfolding formatted_by
formatted_prompt source prompt = formatted_by source prompt source.chat_template

pub data Generated : Type 0 where
  generated : GenerationResult → Generated
  no_context : OpenError → Generated
  no_prompt : Generated
  prompt_too_long : ℤ → ℤ → Generated
  backend : Generated
  unfinished : Generated

-- It ended, and what it committed fits into the context.
abbrev pub Fits : Generated → Type 0
Fits (generated r) = r.committed_tokens ≤ r.context_size
Fits unfinished = true ≡ false
Fits (no_context e) = Unit
Fits no_prompt = Unit
Fits (prompt_too_long tokens n_ctx) = leb_ℤ n_ctx tokens ≡ true
Fits backend = Unit

module _ {Ctx Sampler Decoder : Type 0} (en : Engine Ctx Sampler Decoder)
    (str_to_token : Text → Bool → Option (List ℕ)) (session : LlamaSession Ctx)
    (source : PromptSource) (req : Request) (prefill : Option Text) where
  -- There is no conversation, so nothing that ends a turn.
  abbrev one_shot_limits : ℕ → Limits
  one_shot_limits n_ctx = record {
    n_ctx = n_ctx;
    max_new_tokens = req.max_new_tokens;
    sampling = req.sampling;
    grammar = req.grammar;
    grammar_complete = req.grammar_complete;
    turn_end = none;
  }

  abbrev report_once : Text → List ℕ → ℕ → Generation Ctx Sampler Decoder × Ending → Generated
  report_once prompt tokens n_ctx (g, Ending.finished) = generated (record {
    text = prefilled prefill g.text;
    tokens_generated = length g.generated_tokens;
    committed_tokens = length tokens + length g.generated_tokens;
    context_size = n_ctx;
    formatted_prompt = prompt;
    tool_calls = returns [];
    truncated_tool_call = false;
  })
  report_once prompt tokens n_ctx (g, Ending.failed) = backend
  report_once prompt tokens n_ctx (g, Ending.out_of_fuel) = unfinished

  unfoldable pub generate_decoded : Text → List ℕ → ℕ → Decoded Ctx → Generated
  unfolding run_generation_loop
  generate_decoded prompt tokens n_ctx d = elim d.ok [
    | false ↦ backend
    | true ↦
        report_once prompt tokens n_ctx
          (run_generation_loop en (one_shot_limits n_ctx) d.ctx d.batch (length tokens))
  ]

  unfoldable pub generate_tokens : Ctx → Text → Option (List ℕ) → Generated
  unfolding decode_chunked generate_decoded wrap32
  generate_tokens ctx prompt none = backend
  generate_tokens ctx prompt (some tokens) =
      let n_ctx = wrap32 (pos (session.n_ctx ctx)) in
      let prompt_tokens = wrap32 (pos (length tokens)) in
      elim (leb_ℤ n_ctx prompt_tokens) [
        | true ↦ prompt_too_long prompt_tokens n_ctx
        | false ↦
            generate_decoded prompt tokens (pos_part n_ctx) (decode_chunked en ctx [] 0 tokens)
      ]

  unfoldable pub generate_prompt : Ctx → Option Text → Generated
  unfolding generate_tokens
  generate_prompt ctx none = no_prompt
  generate_prompt ctx (some formatted) =
      let prompt = behind formatted prefill in generate_tokens ctx prompt (str_to_token prompt true)

  unfoldable pub generate_in : Text → Opening Ctx → Generated
  unfolding formatted_prompt generate_prompt
  generate_in prompt (opened ctx) = generate_prompt ctx (formatted_prompt source prompt)
  generate_in prompt (Opening.refused e) = no_context e
  generate_in prompt panicked = unfinished

  -- `LlamaSession::generate`.
  unfoldable pub generate : Text → Generated
  unfolding generate_in new_context_reporting
  generate prompt =
      generate_in prompt (new_context_reporting session (some 8192) defrag_disabled 8192)

  generate_decoded-Fits :
      (prompt : Text) (tokens : List ℕ) (n_ctx n : ℕ) (d : Decoded Ctx)
      → req.max_new_tokens ≡ pos n
      → length tokens < n_ctx
      → Fits (generate_decoded prompt tokens n_ctx d)
  unfolding generate_decoded
  generate_decoded-Fits prompt tokens n_ctx n d e less = elim (Bool-cases d.ok) [
    | inr bad ↦ rw (bad, generate_decoded) tt
    | inl good ↦
        rw (good, generate_decoded)
          (told (run_generation_loop en (one_shot_limits n_ctx) d.ctx d.batch (length tokens)) (
            run_generation_loop-Bounded en (one_shot_limits n_ctx) d.ctx d.batch (length tokens) n
              e))
  ]
    where
      told :
          (run : Generation Ctx Sampler Decoder × Ending)
          → Bounded en (one_shot_limits n_ctx) (length tokens) n run
          → Fits (report_once prompt tokens n_ctx run)
      told (g, Ending.finished) b =
          let (ended, above, below, made, all, spent) = b in omega (arith, below, made)
      told (g, Ending.failed) b = tt
      told (g, Ending.out_of_fuel) b = absurd (b.0 refl)

  generate_tokens-Fits :
      (ctx : Ctx) (prompt : Text) (n : ℕ) (answer : Option (List ℕ))
      → req.max_new_tokens ≡ pos n
      → ((tokens : List ℕ) → answer ≡ some tokens → length tokens < 2 ^ 31)
      → Fits (generate_tokens ctx prompt answer)
  unfolding generate_tokens wrap32
  generate_tokens-Fits ctx prompt n none e short = tt
  generate_tokens-Fits ctx prompt n (some tokens) e short =
      let n_ctx = wrap32 (pos (session.n_ctx ctx)) in
      let prompt_tokens = wrap32 (pos (length tokens)) in
      let same : prompt_tokens ≡ pos (length tokens) =
        wrap32_id (pos (length tokens)) (short tokens refl, omega arith) in
      elim (Bool-cases (leb_ℤ n_ctx prompt_tokens)) [
        | inl long ↦ rw (long, generate_tokens) long
        | inr fits ↦
            rw (fits, generate_tokens)
              (generate_decoded-Fits prompt tokens (pos_part n_ctx) n
                (decode_chunked en ctx [] 0 tokens) e (less n_ctx (rw same at fits)))
      ]
    where
      less : (x : ℤ) → leb_ℤ x (pos (length tokens)) ≡ false → length tokens < pos_part x
      less (pos k) h = ground arith
      less (negsuc k) h = absurd (ground arith)

  generate_in-Fits :
      (prompt : Text) (n : ℕ) (o : Opening Ctx)
      → o ≢ panicked
      → req.max_new_tokens ≡ pos n
      → ((p : Text) (tokens : List ℕ) → str_to_token p true ≡ some tokens → length tokens < 2 ^ 31)
      → Fits (generate_in prompt o)
  unfolding generate_in generate_prompt
  generate_in-Fits prompt n (opened ctx) run e short = by_prompt (formatted_prompt source prompt)
    where
      by_prompt : (p : Option Text) → Fits (generate_prompt ctx p)
      by_prompt none = tt
      by_prompt (some p) =
          generate_tokens-Fits ctx (behind p prefill) n (str_to_token (behind p prefill) true) e
            (short (behind p prefill))
  generate_in-Fits prompt n (Opening.refused x) run e short = tt
  generate_in-Fits prompt n panicked run e short = absurd (run refl)

  -- With a token limit that is not negative and a tokenizer that makes fewer than 2^31 tokens,
  -- `generate` ends. It refuses a prompt as too long only if that fills the context, and the
  -- prompt and the answer of a result fit into the context together.
  pub generate-Fits :
      (prompt : Text) (n : ℕ)
      → req.max_new_tokens ≡ pos n
      → ((p : Text) (tokens : List ℕ) → str_to_token p true ≡ some tokens → length tokens < 2 ^ 31)
      → Fits (generate prompt)
  unfolding generate new_context_reporting
  generate-Fits prompt n e short =
      generate_in-Fits prompt n (new_context_reporting session (some 8192) defrag_disabled 8192)
        (given (session.new_context (some 8192) defrag_disabled)) e short
    where
      given :
          (o : Option Ctx) → or_refuse (allocation_error 8192 session.gpu_memory_bytes) o ≢ panicked
      given none = λ h. absurd (ground arith)
      given (some ctx) = λ h. absurd (ground arith)
