-- ===== src/Tests/Requests.antt =====
-- llama.rs and bin/rampiped.rs: one-shot requests against a model whose tokens are code points.
use rampipe.Common.{
  ◌++◌, ℕ, ◌≡◌, ◌≢◌, refl, true, false, map, length, ◌<◌, ◌^◌, ◌⊎◌, List, [], ◌∷◌, Option, none,
  some, arith,
}
use rampipe.Common.Text.{Text, codes, text_beq}
use rampipe.Common.Map.{get}
use rampipe.Common.Int.{pos}
use rampipe.Registry.{load}
use rampipe.Registry
use rampipe.Conversation.Generation.{Engine, Sampling}
use rampipe.Conversation.Session.{Request}
use rampipe.Conversation.Opening.{LlamaSession}
use rampipe.Conversation.OneShot.{PromptSource, missing_template, Fits, generate, generate-Fits}
use rampipe.Conversation.Embedding.{
  PoolingType, mean_type, cls_type, last_type, Embedding, Pooling, Arithmetic, Embedder, embedded,
  none_pool_type, Alone, embed, embed_pooled, embed-Alone,
}
use rampipe.Daemon.{Session}
use rampipe.Common.Text.{text_eq}
use rampipe.Daemon.Messages.{ClientMessage, generate_message, poisoned}
use rampipe.Daemon.Requests.{Model, handle_connection}
use rampipe.Daemon.Requests.Serving.{handle_connection-IsManaged}
use rampipe.Daemon.Eviction.{IsManaged}
use rampipe.Tests.Daemon.{disk, small, serving, serving-IsManaged}

-- It says "a" until the context is full.
abbrev saying : Engine ℕ ℕ ℕ
saying = record {
  decode = λ c es. (c, true);
  chain = λ stages. some 0;
  sample = λ s c i. (97, s);
  accept = λ s t. s;
  is_eog_token = λ t. false;
  new_decoder = 0;
  token_to_piece = λ d t. some (t ∷ [], d);
}

-- The tokenizer knows texts of two characters.
abbrev pairs : Text → Option (List ℕ)
pairs (x ∷ y ∷ []) = some (x ∷ y ∷ [])
pairs other = none

abbrev one_session : LlamaSession ℕ
one_session = record {
  path = small;
  rope_type = none;
  chat_template = none;
  new_context = λ n d. some 0;
  n_ctx = λ c. 4;
  gpu_memory_bytes = none;
}

abbrev bare : PromptSource
bare = record {
  chat_template = missing_template;
  render_with_minijinja = λ t p. none;
  is_message = λ p. true;
  apply_chat_template = λ p. none;
  chat_wrap = none;
}

abbrev three : Request
three = record {
  max_new_tokens = pos 3;
  sampling =
      Sampling.greedy (record { last_n = pos 0; repeat = 0x3f80_0000; freq = 0; present = 0 });
  grammar = none;
  grammar_complete = none;
}

pairs_short : (p : Text) (tokens : List ℕ) → pairs p ≡ some tokens → length tokens < 2 ^ 31
pairs_short (x ∷ y ∷ []) tokens h = ground arith
pairs_short [] tokens h = absurd (ground arith)
pairs_short (x ∷ []) tokens h = absurd (ground arith)
pairs_short (x ∷ y ∷ z ∷ p) tokens h = absurd (ground arith)

generate-Fits_example :
    Fits (generate saying (λ t b. pairs t) one_session bare three none (codes "hi"))
generate-Fits_example =
    generate-Fits saying (λ t b. pairs t) one_session bare three none (codes "hi") 3 refl
      (λ p tokens h. pairs_short p tokens h)

-- The pooling of a context, and the tokens in its cache.
abbrev Pooled : Type 0
Pooled = Option PoolingType × List ℕ

-- `Cls` is the first token's code, `Last` and `Mean` the whole cache; the model itself has none.
abbrev pool : Pooled → Embedding (List ℕ)
pool (none, cache) = none_pool_type
pool (some cls_type, []) = embedded []
pool (some cls_type, c ∷ cache) = embedded (c ∷ [])
pool (some mean_type, cache) = embedded cache
pool (some last_type, cache) = embedded cache

abbrev encoder : Embedder Pooled
encoder = record {
  new_context_reporting = λ p. embedded (p, []);
  n_ctx = λ ctx. 4;
  str_to_token = pairs;
  clear_kv_cache = λ ctx. (ctx.0, []);
  decode = λ ctx es. ((ctx.0, ctx.1 ++ map (λ e. e.token) es), true);
  embeddings_seq_ith = pool;
}

abbrev plain : Arithmetic
plain = record { times = λ x y. x; divide = λ x y. x; sum = λ xs. 0; sqrt = λ x. x }

-- The model has no pooling of its own, so the batch is embedded again with `Mean`.
embed-Alone_example :
    (used : Pooling) × ((used ≡ Pooling.model)
      ⊎ ((used ≡ Pooling.mean)
          × (Pooling.model ≡ Pooling.model)
          × (embed_pooled encoder plain false (codes "hi" ∷ codes "yo" ∷ []) Pooling.model
              ≡ none_pool_type)))
    × Alone encoder plain false used (codes "hi" ∷ codes "yo" ∷ []) (codes "hi" ∷ codes "yo" ∷ [])
unfolding embed
embed-Alone_example =
    embed-Alone encoder plain false (λ ctx batch later. refl) (codes "hi" ∷ codes "yo" ∷ [])
      Pooling.model (codes "hi" ∷ codes "yo" ∷ []) refl

abbrev small_model : Text → Model ℕ ℕ ℕ
small_model path = record {
  file_name = none;
  size = 7;
  backend = record { loads = true; measured = none };
  engine = saying;
  seq_rm = λ c p q. some c;
  seq_add = λ c p q. some c;
  str_to_token = λ t b. pairs t;
  session = one_session;
  source = bare;
  embedder = record {
    new_context_reporting = λ p. none_pool_type;
    n_ctx = λ c. 4;
    str_to_token = pairs;
    clear_kv_cache = λ c. c;
    decode = λ c es. (c, true);
    embeddings_seq_ith = λ c. none_pool_type;
  };
}

abbrev asking : ClientMessage ℕ
asking = generate_message (record {
  model_path = small;
  prompt = codes "hi";
  max_new_tokens = none;
  sampling = none;
  grammar = none;
  assistant_prefill = none;
  grammar_completion = none;
})

handle_connection-IsManaged_example :
    let (st', reply) =
      handle_connection
        (λ n. n)
        (λ a b. 0)
        (λ n. record { system_free_bytes = some 0; gpu_memory_bytes = some 0 })
        disk
        small_model
        (λ t. none)
        (λ c. true)
        plain
        (record { default = none; models = [] })
        7
        none
        serving
        asking in
    IsManaged st'
    × (reply ≢ poisoned)
    × ((p : Text) (s : Session)
        → get p st'.sessions ≡ some s
        → (get p serving.sessions ≡ some s) ⊎ (s.strong_count ≡ 1))
unfolding load get Registry.new text_beq
handle_connection-IsManaged_example =
    handle_connection-IsManaged (λ n. n) (λ a b. 0)
      (λ n. record { system_free_bytes = some 0; gpu_memory_bytes = some 0 }) disk small_model
      (λ t. none) (λ c. true) plain (record { default = none; models = [] }) 7 none serving asking
      serving-IsManaged (omega arith)
