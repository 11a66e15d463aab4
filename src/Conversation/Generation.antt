-- ===== src/Conversation/Generation.antt =====
-- llama.rs: `decode_chunked` and `run_generation_loop`. llama.cpp is the record `Engine`; a token and
-- a position are numbers. The clock of the first token is left out.
pub mod Bounds
pub mod Feeding
use rampipe.Common.{
  ℕ, zero, suc, ◌+◌, Bool, true, false, not, ◌&&◌, ◌||◌, List, [], ◌∷◌, ◌++◌, Option, none, some,
  length, take, drop, if◌then◌else◌, leb, nat_beq,
}
use rampipe.Common.Text.{Text, codes, contains}
use rampipe.Common.Int.{ℤ, pos, sub_ℕ, leb_ℤ}
use rampipe.Common.Float.{F32, f32_eq, f32_lt, f32_one, f32_zero}
use rampipe.ToolFormat.TurnEnd.{TurnEnd, reached}

pub record Penalties : Type 0 where
  pub last_n : ℤ
  pub repeat : F32
  pub freq : F32
  pub present : F32

pub data Sampling : Type 0 where
  greedy : Penalties → Sampling
  temperature : F32 → ℤ → F32 → F32 → ℕ → Penalties → Sampling

-- A stage of a sampler chain, as `LlamaSampler` builds it.
pub data Stage : Type 0 where
  grammar_stage : Text → Stage
  penalties_stage : Penalties → Stage
  greedy_stage : Stage
  top_k_stage : ℤ → Stage
  top_p_stage : F32 → Stage
  min_p_stage : F32 → Stage
  temp_stage : F32 → Stage
  dist_stage : ℕ → Stage

-- One token of a batch.
pub record Entry : Type 0 where
  pub token : ℕ
  pub position : ℕ
  pub logits : Bool

-- What llama.cpp does: `decode` gives the context that it leaves and whether it succeeded.
pub record Engine (Ctx Sampler Decoder : Type 0) : Type 0 where
  pub decode : Ctx → List Entry → Ctx × Bool
  pub chain : List Stage → Option Sampler
  pub sample : Sampler → Ctx → ℤ → ℕ × Sampler
  pub accept : Sampler → ℕ → Sampler
  pub is_eog_token : ℕ → Bool
  pub new_decoder : Decoder
  pub token_to_piece : Decoder → ℕ → Option (Text × Decoder)

-- The stages of `push_penalties`.
unfoldable pub push_penalties : Penalties → List Stage
unfolding f32_eq
push_penalties p =
    if not (f32_eq p.repeat f32_one)
      || (not (f32_eq p.freq f32_zero) || not (f32_eq p.present f32_zero))
    then penalties_stage p ∷ []
    else []

unfoldable pub sampling_stages : Sampling → List Stage
unfolding push_penalties f32_lt
sampling_stages (greedy p) = push_penalties p ++ greedy_stage ∷ []
sampling_stages (temperature t top_k top_p min_p seed p) =
    push_penalties p
    ++ (top_k_stage top_k
        ∷ ((if f32_lt top_p f32_one then top_p_stage top_p ∷ [] else [])
            ++ ((if f32_lt f32_zero min_p then min_p_stage min_p ∷ [] else [])
                ++ (temp_stage t ∷ dist_stage seed ∷ []))))

abbrev pub grammar_stages : Option Text → List Stage
grammar_stages none = []
grammar_stages (some g) = grammar_stage g ∷ []

-- `build_chain`.
unfoldable pub build_chain : Sampling → Option Text → List Stage
unfolding sampling_stages
build_chain sampling grammar = grammar_stages grammar ++ sampling_stages sampling

-- The entries of a chunk; the logits are wanted of the last token of all.
unfoldable pub add_chunk : ℕ → ℕ → ℕ → List ℕ → List Entry
add_chunk n_cur index last_index [] = []
add_chunk n_cur index last_index (t ∷ ts) =
    record { token = t; position = n_cur + index; logits = nat_beq index last_index }
    ∷ add_chunk n_cur (suc index) last_index ts

-- A context, the batch that was decoded last, and whether every call succeeded.
pub record Decoded (Ctx : Type 0) : Type 0 where
  pub ctx : Ctx
  pub batch : List Entry
  pub ok : Bool

module _ {Ctx Sampler Decoder : Type 0} (en : Engine Ctx Sampler Decoder) where
  -- The loop of `decode_chunked` over what is left of the tokens, from the index of its first.
  unfoldable pub decode_loop : ℕ → Ctx → List Entry → ℕ → ℕ → ℕ → List ℕ → Decoded Ctx
  decode_loop zero ctx batch n_cur last_index index tokens = record {
    ctx = ctx;
    batch = batch;
    ok = true;
  }
  decode_loop (suc fuel) ctx batch n_cur last_index index [] = record {
    ctx = ctx;
    batch = batch;
    ok = true;
  }
  decode_loop (suc fuel) ctx batch n_cur last_index index (t ∷ ts) =
      let chunk = add_chunk n_cur index last_index (take 512 (t ∷ ts)) in
      elim (en.decode ctx chunk).1 [
        | false ↦ record { ctx = (en.decode ctx chunk).0; batch = chunk; ok = false }
        | true ↦
            decode_loop fuel (en.decode ctx chunk).0 chunk n_cur last_index (index + 512)
              (drop 512 (t ∷ ts))
      ]

  -- `decode_chunked`, with the batch as it was; the caller moves its position on by the tokens'
  -- number if this is `ok`. A round takes at least one token.
  unfoldable pub decode_chunked : Ctx → List Entry → ℕ → List ℕ → Decoded Ctx
  unfolding decode_loop add_chunk
  decode_chunked ctx batch n_cur [] = record { ctx = ctx; batch = batch; ok = true }
  decode_chunked ctx batch n_cur (t ∷ ts) =
      decode_loop (length (t ∷ ts)) ctx batch n_cur (length ts) 0 (t ∷ ts)

-- The variables of `run_generation_loop`.
pub record Generation (Ctx Sampler Decoder : Type 0) : Type 0 where
  pub ctx : Ctx
  pub batch : List Entry
  pub n_cur : ℕ
  pub plain_sampler : Option Sampler
  pub accepted_tokens : List ℕ
  pub decoder : Decoder
  pub text : Text
  pub generated_tokens : List ℕ
  pub budget_used : ℕ

-- What stays the same in the loop. `grammar_complete` is the caller's predicate.
pub record Limits : Type 0 where
  pub n_ctx : ℕ
  pub max_new_tokens : ℤ
  pub sampling : Sampling
  pub grammar : Option Text
  pub grammar_complete : Option (Text → Bool)
  pub turn_end : Option TurnEnd

pub data Ending : Type 0 where
  finished failed out_of_fuel : Ending

abbrev pub is_complete : Option (Text → Bool) → Text → Bool
is_complete none text = false
is_complete (some f) text = f text

unfoldable pub turn_cut : Option TurnEnd → Text → Option ℕ
unfolding reached
turn_cut none text = none
turn_cut (some e) text = reached e text

unfoldable pub inside_open_think : Text → Bool
unfolding contains
inside_open_think text = contains text (codes "<think>") && not (contains text (codes "</think>"))

module _ {Ctx Sampler Decoder : Type 0} (en : Engine Ctx Sampler Decoder) (lim : Limits) where
  pub data Round : Type 0 where
    stops : Generation Ctx Sampler Decoder → Round
    breaks : Generation Ctx Sampler Decoder → Round
    goes_on : Generation Ctx Sampler Decoder → Round

  unfoldable pub accept_all : Sampler → List ℕ → Sampler
  accept_all s [] = s
  accept_all s (t ∷ ts) = accept_all (en.accept s t) ts

  abbrev last_logits : Generation Ctx Sampler Decoder → ℤ
  last_logits g = sub_ℕ (length g.batch) 1

  pick_fresh :
      Generation Ctx Sampler Decoder → Option Sampler → Option (ℕ × Generation Ctx Sampler Decoder)
  pick_fresh g none = none
  pick_fresh g (some s) =
      let t = (en.sample (accept_all s g.accepted_tokens) g.ctx (last_logits g)).0 in
      some (t, record g { accepted_tokens = g.accepted_tokens ++ t ∷ [] })

  pick_by :
      Generation Ctx Sampler Decoder → Option Sampler → Option (ℕ × Generation Ctx Sampler Decoder)
  unfolding pick_fresh accept_all build_chain
  pick_by g (some s) =
      let drawn = en.sample s g.ctx (last_logits g) in
      some (drawn.0, record g { plain_sampler = some (en.accept drawn.1 drawn.0) })
  pick_by g none = pick_fresh g (en.chain (build_chain lim.sampling lim.grammar))

  -- The next token: from the sampler that is kept, or from a new one under a grammar.
  unfoldable pub pick : Generation Ctx Sampler Decoder → Option (ℕ × Generation Ctx Sampler Decoder)
  unfolding pick_by
  pick g = pick_by g g.plain_sampler

  -- Decode the token at the next position; it counts as generated if that succeeds.
  unfoldable pub feed : Generation Ctx Sampler Decoder → ℕ → Round
  feed g t =
      let batch = record { token = t; position = g.n_cur; logits = true } ∷ [] in
      let left = en.decode g.ctx batch in
      elim left.1 [
        | false ↦ breaks (record g { ctx = left.0; batch = batch; n_cur = suc g.n_cur })
        | true ↦ goes_on (record g {
          ctx = left.0;
          batch = batch;
          n_cur = suc g.n_cur;
          generated_tokens = g.generated_tokens ++ t ∷ [];
        })
      ]

  -- After a token's text was added: the grammar, the end of the turn, or one more token.
  unfoldable pub settle : Generation Ctx Sampler Decoder → ℕ → Round
  unfolding turn_cut feed
  settle g t = elim (is_complete lim.grammar_complete g.text) [
    | true ↦ stops g
    | false ↦ elim (turn_cut lim.turn_end g.text) [
      | some cut ↦ stops (record g { text = take cut g.text })
      | none ↦ feed g t
    ]
  ]

  abbrev pub counted : Bool → ℕ → ℕ
  counted true n = n
  counted false n = suc n

  say : Generation Ctx Sampler Decoder → Bool → ℕ → Option (Text × Decoder) → Round
  unfolding settle
  say g inside t none = breaks g
  say g inside t (some (piece, decoder)) =
      settle
        (record g {
          text = g.text ++ piece;
          decoder = decoder;
          budget_used = counted inside g.budget_used;
        })
        t

  -- A token that ends generation, unless it comes inside an open `<think>`, or one of the text.
  unfoldable pub take_token : Generation Ctx Sampler Decoder → ℕ → Round
  unfolding inside_open_think say feed
  take_token g t = elim (en.is_eog_token t) [
    | true ↦ elim (inside_open_think g.text) [ true ↦ feed g t | false ↦ stops g ]
    | false ↦ say g (inside_open_think g.text) t (en.token_to_piece g.decoder t)
  ]

  unfoldable pub is_spent : Generation Ctx Sampler Decoder → Bool
  is_spent g = leb lim.n_ctx g.n_cur || leb_ℤ lim.max_new_tokens (pos g.budget_used)

  unfoldable pub round : Generation Ctx Sampler Decoder → Round
  unfolding is_spent pick take_token
  round g = elim (is_spent g) [
    | true ↦ stops g
    | false ↦ elim (pick g) [ none ↦ breaks g | some (t, g') ↦ take_token g' t ]
  ]

  unfoldable pub generation_loop :
      ℕ → Generation Ctx Sampler Decoder → Generation Ctx Sampler Decoder × Ending
  generation_loop zero g = (g, out_of_fuel)
  generation_loop (suc fuel) g = elim (round g) [
    | stops g' ↦ (g', finished)
    | breaks g' ↦ (g', failed)
    | goes_on g' ↦ generation_loop fuel g'
  ]

  abbrev pub started : Ctx → List Entry → ℕ → Option Sampler → Generation Ctx Sampler Decoder
  started ctx batch n_cur sampler = record {
    ctx = ctx;
    batch = batch;
    n_cur = n_cur;
    plain_sampler = sampler;
    accepted_tokens = [];
    decoder = en.new_decoder;
    text = [];
    generated_tokens = [];
    budget_used = 0;
  }

  start_plain : Ctx → List Entry → ℕ → Option Sampler → Generation Ctx Sampler Decoder × Ending
  start_plain ctx batch n_cur none = (started ctx batch n_cur none, failed)
  start_plain ctx batch n_cur (some s) =
      generation_loop (suc lim.n_ctx) (started ctx batch n_cur (some s))

  start_by : Ctx → List Entry → ℕ → Option Text → Generation Ctx Sampler Decoder × Ending
  unfolding start_plain build_chain
  start_by ctx batch n_cur (some g) = generation_loop (suc lim.n_ctx) (started ctx batch n_cur none)
  start_by ctx batch n_cur none =
      start_plain ctx batch n_cur (en.chain (build_chain lim.sampling none))

  -- `run_generation_loop`. Each round that goes on moves the position up towards `n_ctx`.
  unfoldable pub run_generation_loop :
      Ctx → List Entry → ℕ → Generation Ctx Sampler Decoder × Ending
  unfolding start_by generation_loop round
  run_generation_loop ctx batch n_cur = start_by ctx batch n_cur lim.grammar
