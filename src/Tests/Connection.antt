-- ===== src/Tests/Connection.antt =====
-- bin/rampiped.rs: a conversation whose tokenizer fails, with a turn and a snapshot.
use rampipe.Common.{ℕ, ◌+◌, ◌≡◌, Bool, true, List, [], ◌∷◌, Option, none, some, arith}
use rampipe.Common.Text.{Text, codes}
use rampipe.Settings.{WireSampling, default_penalties}
use rampipe.Conversation.Window.{OverflowPolicy}
use rampipe.Conversation.Generation.{Engine}
use rampipe.Conversation.Session.{Conversation}
use rampipe.ToolFormat.Value.{Json}
use rampipe.Daemon.{new}
use rampipe.Daemon.Connection.{Connection, Line, snapshot, turn, handle_lines}
use rampipe.Daemon.Connection.Outcomes.{tally, is_answer, is_failure, handle_lines-tally}

abbrev pub still : Engine ℕ ℕ ℕ
still = record {
  decode = λ c es. (c, true);
  chain = λ stages. some 0;
  sample = λ s c i. (s, s);
  accept = λ s t. s;
  is_eog_token = λ t. true;
  new_decoder = 0;
  token_to_piece = λ d t. none;
}

abbrev pub talk : Conversation ℕ
talk = record {
  window = record {
    ctx = 0;
    committed_pos = 0;
    n_ctx = 16;
    turns = [];
    overflow = OverflowPolicy.fail;
    tokens = [];
    protected_prefix = 0;
  };
  template = record { first_turn_open = []; generation_open = []; turn_transition = [] };
  opening = [];
  system_for_first_turn = none;
  tool_format = none;
  tool_result_spans = none;
}

abbrev pub linked : Connection ℕ
linked = record { state = new 0; conversation = talk; is_open = true }

abbrev pub stay : ℕ → ℕ → ℕ → Option ℕ
stay c p0 p1 = some c

abbrev pub unread : Text → Bool → Option (List ℕ)
unread t bos = none

abbrev pub no_json : Text → Option Json
no_json t = none

abbrev lines : List Line
lines =
    turn (record {
      message = codes "hi";
      tool_results = none;
      max_new_tokens = none;
      sampling = none;
      grammar = none;
      grammar_complete = none;
      assistant_prefill = none;
    })
    ∷ snapshot
    ∷ []

handle_lines-tally_example :
    let (k', rs) =
      handle_lines still stay stay unread no_json
        (λ c. true)
        7
        (codes "/m.gguf")
        (WireSampling.greedy default_penalties)
        none
        linked
        lines in
    (k'.state.requests_served ≡ linked.state.requests_served + tally is_answer rs)
    × (k'.state.requests_failed ≡ linked.state.requests_failed + tally is_failure rs)
unfolding new
handle_lines-tally_example =
    handle_lines-tally still stay stay unread no_json (λ c. true) 7 (codes "/m.gguf")
      (WireSampling.greedy default_penalties) none linked lines (omega arith) (omega arith)
