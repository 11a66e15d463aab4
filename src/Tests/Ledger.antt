-- ===== src/Tests/Ledger.antt =====
-- lib.rs: a registry with one model, and what its ledger shows.
use rampipe.Common.{ℕ, ◌≡◌, ◌≢◌, refl, none, some, arith}
use rampipe.Common.Text.{Text, codes, text_beq}
use rampipe.Common.Map.{get, insert}
use rampipe.Registry.{Host, RegistryState, Residency, new, load, measure, evict, evicted, desync}
use rampipe.Registry.Sync.{IsSynced}
use rampipe.Registry.Reach.{Reachable, Step, load-Reachable}
use rampipe.Registry.Ledger.{ledger, Refines, Reachable-Refines, drop_all, evict-drop_all}

abbrev host : Host
host = record {
  now = 7;
  file = λ p. some (codes "GGUF...");
  io_error = 2;
  map_latency = 1;
  touch_latency = 1;
  rss_before = none;
  rss_after = none;
  resident_fraction = λ m. none;
}

abbrev path : Text
path = codes "/m.gguf"

abbrev mapped : RegistryState
mapped = (load host new path Residency.lazy).0

mapped-Reachable : Reachable mapped
mapped-Reachable =
    Reachable.after (Reachable.start {st = new} refl)
      (Step.loads host path Residency.lazy (unfold new in omega arith) refl)

load-Reachable_example : IsSynced mapped × ((load host mapped path Residency.lazy).1 ≢ desync)
load-Reachable_example = load-Reachable mapped host path Residency.lazy mapped-Reachable

Reachable-Refines_example : Refines mapped
Reachable-Refines_example = Reachable-Refines mapped mapped-Reachable

-- One handle is held; it is dropped, and the model is unmapped.
evict-drop_all_example :
    (id : ℕ) × ((evict (drop_all 1 mapped id) id).1 ≡ evicted)
    × (ledger (evict (drop_all 1 mapped id) id).0 path ≡ none)
unfolding ledger load new get text_beq insert measure
evict-drop_all_example = evict-drop_all mapped path 1 mapped-Reachable refl
