-- ===== src/Tests/Client.antt =====
-- client.rs: one turn that fails, over a daemon whose tokenizer does.
use rampipe.Common.{◌+◌, ◌≡◌, true, [], ◌∷◌, none, arith, length}
use rampipe.Common.Text.{codes}
use rampipe.Common.Int.{pos}
use rampipe.Settings.{WireSampling, default_penalties}
use rampipe.Conversation.Generation.{Sampling}
use rampipe.Daemon.{new}
use rampipe.Client.{RampipedConversation, handle_send}
use rampipe.Client.Converse.{converse, converse-turns}
use rampipe.Tests.Connection.{still, linked, stay, unread, no_json}

abbrev cold : Sampling
cold = Sampling.greedy (record { last_n = pos 0; repeat = 0x3f80_0000; freq = 0; present = 0 })

abbrev fresh_client : RampipedConversation
fresh_client = record { supports_tool_calls = true; turns = 0 }

converse-turns_example :
    let ts = handle_send no_json (codes "hi") (pos 8) cold none none none ∷ [] in
    let (k', c') =
      converse still stay stay unread no_json
        (λ c. true)
        7
        (codes "/m.gguf")
        (WireSampling.greedy default_penalties)
        none
        linked
        fresh_client
        ts in
    (c'.turns + linked.state.requests_served ≡ fresh_client.turns + k'.state.requests_served)
    × (k'.state.requests_served + k'.state.requests_failed
        ≡ linked.state.requests_served + linked.state.requests_failed + length ts)
unfolding new
converse-turns_example =
    converse-turns still stay stay unread no_json (λ c. true) 7 (codes "/m.gguf")
      (WireSampling.greedy default_penalties) none linked fresh_client
      (handle_send no_json (codes "hi") (pos 8) cold none none none ∷ []) (omega arith)
      (omega arith) (omega arith)
