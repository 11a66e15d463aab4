-- ===== src/Tests/Scripted.antt =====
-- scripted.rs: a script of two turns, asked for both.
use rampipe.Common.{◌+◌, ◌≡◌, refl, true, List, [], ◌∷◌, ◌++◌, map, none, some, arith, take, drop}
use rampipe.Common.Text.{codes}
use rampipe.Scripted.{Script, says, truncated, new, TurnRequest, turn, Serving, said_of, serve}
use rampipe.Scripted.Order.{spoken, serve-turns}

abbrev script : Script
script = new (says (codes "hello") ∷ truncated (codes "<tool_call>") ∷ [])

abbrev asked : List TurnRequest
asked =
    record { message = codes "hi"; tool_results = none }
    ∷ record { message = []; tool_results = some (codes "done" ∷ []) }
    ∷ []

abbrev start : Serving
start = record { transcript = []; served = 0; committed = 0; is_open = true }

serve-turns_example :
    let (s', replies) = serve script start (map turn asked) in
    (map spoken replies ≡ map (λ t. some t.text) (take 2 (drop 0 script.turns)))
    × (s'.transcript ≡ [] ++ map (λ r. said_of r r.tool_results) asked)
    × (s'.served ≡ 0 + 2)
serve-turns_example = serve-turns script asked start refl (omega arith)
