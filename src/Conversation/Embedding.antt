-- ===== src/Conversation/Embedding.antt =====
-- llama.rs: `LlamaSession::embed`. A vector holds `f32` patterns, whose arithmetic is the
-- processor's.
use rampipe.Common.{
  Bool-cases, ℕ, suc, ◌≡◌, refl, sym, ap, subst, ◌∙◌, ◌⊎◌, inl, inr, Bool, true, false, List, [],
  ◌∷◌, map, Option, none, some, arith, take, if◌then◌else◌, leb,
}
use rampipe.Common.Text.{Text}
use rampipe.Common.Float.{F32, f32_lt, f32_zero}
use rampipe.Conversation.Generation.{Entry}
use rampipe.Conversation.Opening.{OpenError}

pub data Pooling : Type 0 where
  model mean cls last : Pooling

-- `LlamaPoolingType`, of which the code names three.
pub data PoolingType : Type 0 where
  mean_type cls_type last_type : PoolingType

unfoldable pub to_llama : Pooling → Option PoolingType
to_llama model = none
to_llama mean = some mean_type
to_llama cls = some cls_type
to_llama last = some last_type

pub record Arithmetic : Type 0 where
  pub times : F32 → F32 → F32
  pub divide : F32 → F32 → F32
  pub sum : List F32 → F32
  pub sqrt : F32 → F32

unfoldable pub l2_normalize : Arithmetic → List F32 → List F32
unfolding f32_lt
l2_normalize a v =
    let norm = a.sqrt (a.sum (map (λ x. a.times x x) v)) in
    if f32_lt f32_zero norm then map (λ x. a.divide x norm) v else v

-- `Ok`, `EmbeddingsError::NonePoolType`, no context, or another error of llama.cpp.
pub data Embedding {ℓ} (A : Type ℓ) : Type ℓ where
  embedded : A → Embedding A
  none_pool_type backend : Embedding A
  no_context : OpenError → Embedding A

-- A model for embedding. `new_context_reporting` answers for a pooling type.
pub record Embedder (Ctx : Type 0) : Type 0 where
  pub new_context_reporting : Option PoolingType → Embedding Ctx
  pub n_ctx : Ctx → ℕ
  pub str_to_token : Text → Option (List ℕ)
  pub clear_kv_cache : Ctx → Ctx
  pub decode : Ctx → List Entry → Ctx × Bool
  pub embeddings_seq_ith : Ctx → Embedding (List F32)

abbrev pub embed_max_tokens : ℕ
embed_max_tokens = 512

-- Each token with its logits.
unfoldable pub add_all : ℕ → List ℕ → List Entry
add_all p [] = []
add_all p (t ∷ ts) = record { token = t; position = p; logits = true } ∷ add_all (suc p) ts

module _ {Ctx : Type 0} (m : Embedder Ctx) (a : Arithmetic) (normalize : Bool) where
  -- `min(512).max(1)`.
  unfoldable pub capacity : Ctx → ℕ
  capacity ctx =
      let n = if leb (m.n_ctx ctx) embed_max_tokens then m.n_ctx ctx else embed_max_tokens in
      if leb 1 n then n else 1

  unfoldable pub finish : Embedding (List F32) → Embedding (List F32)
  unfolding l2_normalize
  finish (embedded v) = embedded (if normalize then l2_normalize a v else v)
  finish none_pool_type = none_pool_type
  finish backend = backend
  finish (no_context e) = no_context e

  embed_tokens : ℕ → Ctx → Option (List ℕ) → Ctx × Embedding (List F32)
  unfolding add_all finish
  embed_tokens size ctx none = (ctx, backend)
  embed_tokens size ctx (some tokens) =
      let left = m.decode (m.clear_kv_cache ctx) (add_all 0 (take size tokens)) in
      elim left.1 [
        | false ↦ (left.0, backend)
        | true ↦ (left.0, finish (m.embeddings_seq_ith left.0))
      ]

  -- The loop's body for one text.
  unfoldable pub embed_text : ℕ → Ctx → Text → Ctx × Embedding (List F32)
  unfolding embed_tokens
  embed_text size ctx text = embed_tokens size ctx (m.str_to_token text)

  abbrev pub pushed : List F32 → Embedding (List (List F32)) → Embedding (List (List F32))
  pushed v (embedded vs) = embedded (v ∷ vs)
  pushed v none_pool_type = none_pool_type
  pushed v backend = backend
  pushed v (no_context e) = no_context e

  abbrev pub and_then :
      Embedding (List F32) → Embedding (List (List F32)) → Embedding (List (List F32))
  and_then (embedded v) rest = pushed v rest
  and_then none_pool_type rest = none_pool_type
  and_then backend rest = backend
  and_then (no_context e) rest = no_context e

  unfoldable pub embed_texts : ℕ → Ctx → List Text → Embedding (List (List F32))
  unfolding embed_text
  embed_texts size ctx [] = embedded []
  embed_texts size ctx (t ∷ ts) =
      let one = embed_text size ctx t in and_then one.1 (embed_texts size one.0 ts)

  embed_in : List Text → Embedding Ctx → Embedding (List (List F32))
  unfolding embed_texts capacity
  embed_in texts (embedded ctx) = embed_texts (capacity ctx) ctx texts
  embed_in texts none_pool_type = none_pool_type
  embed_in texts backend = backend
  embed_in texts (no_context e) = no_context e

  -- `LlamaSession::embed_pooled`.
  unfoldable pub embed_pooled : List Text → Pooling → Embedding (List (List F32))
  unfolding embed_in to_llama
  embed_pooled texts pooling = embed_in texts (m.new_context_reporting (to_llama pooling))

  abbrev retried : List Text → Pooling → Embedding (List (List F32)) → Embedding (List (List F32))
  unfolding embed_pooled
  retried texts pooling (embedded vs) = embedded vs
  retried texts pooling backend = backend
  retried texts pooling (no_context e) = no_context e
  retried texts model none_pool_type = embed_pooled texts mean
  retried texts mean none_pool_type = none_pool_type
  retried texts cls none_pool_type = none_pool_type
  retried texts last none_pool_type = none_pool_type

  -- `LlamaSession::embed`.
  unfoldable pub embed : List Text → Pooling → Embedding (List (List F32))
  unfolding embed_pooled
  embed [] pooling = embedded []
  embed (t ∷ ts) pooling = retried (t ∷ ts) pooling (embed_pooled (t ∷ ts) pooling)

  -- Each text with its vector, which the text gets alone too.
  unfoldable pub Alone : Pooling → List Text → List (List F32) → Type 0
  Alone pooling [] [] = Unit
  Alone pooling [] (v ∷ vs) = true ≡ false
  Alone pooling (t ∷ ts) [] = true ≡ false
  Alone pooling (t ∷ ts) (v ∷ vs) =
      (embed_pooled (t ∷ []) pooling ≡ embedded (v ∷ [])) × Alone pooling ts vs

  -- What a decode answers: whether it succeeded, and the embedding that is then there.
  abbrev pub answer_of : Ctx × Bool → Bool × Embedding (List F32)
  answer_of (ctx, ok) = (ok, m.embeddings_seq_ith ctx)

  -- Once both are cleared, two contexts answer the same to every batch.
  abbrev pub Alike : Ctx → Ctx → Type 0
  Alike ctx ctx' =
      (batch : List Entry)
      → answer_of (m.decode (m.clear_kv_cache ctx) batch)
        ≡ answer_of (m.decode (m.clear_kv_cache ctx') batch)

  -- The cache is all that a decode leaves behind, and clearing empties it: a context that decoded
  -- something answers, cleared, as it does without.
  abbrev pub Clears : Type 0
  Clears = (ctx : Ctx) (batch : List Entry) → Alike (m.decode (m.clear_kv_cache ctx) batch).0 ctx

  module _ (clears : Clears) where
    -- What is made of an answer.
    abbrev told : Bool × Embedding (List F32) → Embedding (List F32)
    told (false, v) = backend
    told (true, v) = finish v

    embed_tokens-told :
        (size : ℕ) (ctx : Ctx) (tokens : List ℕ)
        → (embed_tokens size ctx (some tokens)).1
          ≡ told (answer_of (m.decode (m.clear_kv_cache ctx) (add_all 0 (take size tokens))))
    unfolding embed_tokens
    embed_tokens-told size ctx tokens =
        elim (Bool-cases (m.decode (m.clear_kv_cache ctx) (add_all 0 (take size tokens))).1) [
          | inl y ↦ rw (y, embed_tokens) refl
          | inr n ↦ rw (n, embed_tokens) refl
        ]

    same_answer :
        (size : ℕ) (ctx ctx' : Ctx) (t : Text)
        → Alike ctx ctx'
        → (embed_text size ctx t).1 ≡ (embed_text size ctx' t).1
    unfolding embed_text embed_tokens
    same_answer size ctx ctx' t alike = by_tokens (m.str_to_token t)
      where
        by_tokens :
            (o : Option (List ℕ)) → (embed_tokens size ctx o).1 ≡ (embed_tokens size ctx' o).1
        by_tokens none = refl
        by_tokens (some tokens) =
            embed_tokens-told size ctx tokens
            ∙ (ap told (alike (add_all 0 (take size tokens)))
                ∙ sym (embed_tokens-told size ctx' tokens))

    -- A text leaves a context that answers, cleared, as the one before.
    embed_text-Alike :
        (size : ℕ) (ctx start : Ctx) (t : Text)
        → Alike ctx start
        → Alike (embed_text size ctx t).0 start
    unfolding embed_text embed_tokens
    embed_text-Alike size ctx start t alike = by_tokens (m.str_to_token t)
      where
        by_tokens : (o : Option (List ℕ)) → Alike (embed_tokens size ctx o).0 start
        by_tokens none = alike
        by_tokens (some tokens) =
            let entries = add_all 0 (take size tokens) in
            elim (Bool-cases (m.decode (m.clear_kv_cache ctx) entries).1) [
              | inl y ↦ rw (y, embed_tokens) (λ batch. clears ctx entries batch ∙ alike batch)
              | inr n ↦ rw (n, embed_tokens) (λ batch. clears ctx entries batch ∙ alike batch)
            ]

    embed_texts-alone :
        (size : ℕ) (ctx start : Ctx) (t : Text) (ts : List Text) (vs : List (List F32))
        → Alike ctx start
        → embed_texts size ctx (t ∷ ts) ≡ embedded vs
        → (v : List F32) × (rest : List (List F32)) × (vs ≡ v ∷ rest)
          × (embed_texts size start (t ∷ []) ≡ embedded (v ∷ []))
          × (embed_texts size (embed_text size ctx t).0 ts ≡ embedded rest)
    unfolding embed_texts
    embed_texts-alone size ctx start t ts vs alike h =
        by_one (embed_text size ctx t).1 refl (embed_texts size (embed_text size ctx t).0 ts) refl
      where
        by_one :
            (one : Embedding (List F32))
            → (embed_text size ctx t).1 ≡ one
            → (rest : Embedding (List (List F32)))
            → embed_texts size (embed_text size ctx t).0 ts ≡ rest
            → (v : List F32) × (rest : List (List F32)) × (vs ≡ v ∷ rest)
              × (embed_texts size start (t ∷ []) ≡ embedded (v ∷ []))
              × (embed_texts size (embed_text size ctx t).0 ts ≡ embedded rest)
        by_one (embedded v) e (embedded rest) e' =
            let h' : embedded (v ∷ rest) ≡ embedded vs = rw (e, embed_texts, e') at h in
            (
              v,
              rest,
              ground (arith, h'),
              rw (sym (same_answer size ctx start t alike) ∙ e, embed_texts) refl,
              e',
            )
        by_one (embedded v) e none_pool_type e' =
            absurd (ground (arith, rw (e, embed_texts, e') at h))
        by_one (embedded v) e backend e' = absurd (ground (arith, rw (e, embed_texts, e') at h))
        by_one (embedded v) e (no_context x) e' =
            absurd (ground (arith, rw (e, embed_texts, e') at h))
        by_one none_pool_type e r e' = absurd (ground (arith, rw (e, embed_texts) at h))
        by_one backend e r e' = absurd (ground (arith, rw (e, embed_texts) at h))
        by_one (no_context x) e r e' = absurd (ground (arith, rw (e, embed_texts) at h))

    texts-Alone :
        (pooling : Pooling) (opened ctx : Ctx) (ts : List Text) (vs : List (List F32))
        → m.new_context_reporting (to_llama pooling) ≡ embedded opened
        → Alike ctx opened
        → embed_texts (capacity opened) ctx ts ≡ embedded vs
        → Alone pooling ts vs
    unfolding Alone embed_pooled embed_texts
    texts-Alone pooling opened ctx [] [] o alike h = tt
    texts-Alone pooling opened ctx [] (v ∷ vs) o alike h = absurd (ground (arith, h))
    texts-Alone pooling opened ctx (t ∷ ts) vs o alike h =
        let (v, rest, is, one, later) =
          embed_texts-alone (capacity opened) ctx opened t ts vs alike h in
        subst (λ (x : List (List F32)). Alone pooling (t ∷ ts) x) (sym is)
          (
            rw (o, embed_pooled) one,
            texts-Alone pooling opened (embed_text (capacity opened) ctx t).0 ts rest o
                (embed_text-Alike (capacity opened) ctx opened t alike) later,
          )

    embed_pooled-Alone :
        (ts : List Text) (pooling : Pooling) (vs : List (List F32))
        → embed_pooled ts pooling ≡ embedded vs
        → Alone pooling ts vs
    unfolding embed_pooled
    embed_pooled-Alone ts pooling vs h =
        by_context (m.new_context_reporting (to_llama pooling)) refl
      where
        by_context :
            (c : Embedding Ctx)
            → m.new_context_reporting (to_llama pooling) ≡ c
            → Alone pooling ts vs
        by_context (embedded ctx) e =
            texts-Alone pooling ctx ctx ts vs e (λ batch. refl) (rw (e, embed_pooled) at h)
        by_context none_pool_type e = absurd (ground (arith, rw (e, embed_pooled) at h))
        by_context backend e = absurd (ground (arith, rw (e, embed_pooled) at h))
        by_context (no_context x) e = absurd (ground (arith, rw (e, embed_pooled) at h))

    -- If a context that has decoded a batch answers to each batch, once it is cleared, as it does
    -- cleared without, then each vector that `embed` gives for a batch of texts is the one its
    -- text gets in a batch of its own, with the pooling that was asked for, or with `Mean` if the
    -- model's own was asked for and is none.
    pub embed-Alone :
        (ts : List Text) (pooling : Pooling) (vs : List (List F32))
        → embed ts pooling ≡ embedded vs
        → (used : Pooling) × ((used ≡ pooling)
            ⊎ ((used ≡ mean) × (pooling ≡ model) × (embed_pooled ts pooling ≡ none_pool_type)))
          × Alone used ts vs
    unfolding embed Alone
    embed-Alone [] pooling [] h = (pooling, inl refl, tt)
    embed-Alone [] pooling (v ∷ vs) h = absurd (ground (arith, h))
    embed-Alone (t ∷ ts) pooling vs h = by_answer pooling (embed_pooled (t ∷ ts) pooling) refl h
      where
        by_answer :
            (p : Pooling) (x : Embedding (List (List F32)))
            → embed_pooled (t ∷ ts) p ≡ x
            → embed (t ∷ ts) p ≡ embedded vs
            → (used : Pooling) × ((used ≡ p)
                ⊎ ((used ≡ mean) × (p ≡ model) × (embed_pooled (t ∷ ts) p ≡ none_pool_type)))
              × Alone used (t ∷ ts) vs
        by_answer p (embedded ws) e h =
            (p, inl refl, embed_pooled-Alone (t ∷ ts) p vs (e ∙ (rw (e, embed) at h)))
        by_answer model none_pool_type e h =
            (mean, inr (refl, refl, e), embed_pooled-Alone (t ∷ ts) mean vs (rw (e, embed) at h))
        by_answer mean none_pool_type e h = absurd (ground (arith, rw (e, embed) at h))
        by_answer cls none_pool_type e h = absurd (ground (arith, rw (e, embed) at h))
        by_answer last none_pool_type e h = absurd (ground (arith, rw (e, embed) at h))
        by_answer p backend e h = absurd (ground (arith, rw (e, embed) at h))
        by_answer p (no_context x) e h = absurd (ground (arith, rw (e, embed) at h))
