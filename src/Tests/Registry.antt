-- ===== src/Tests/Registry.antt =====
-- lib.rs: a registry that maps one small file.
use mathlib.Core.List.{Perm}
use rampipe.Common.{
  ℕ, suc, ◌+◌, ◌%◌, ◌≡◌, refl, ◌⊎◌, List, [], ◌∷◌, ◌++◌, map, none, some, arith, nat_eq, ◌<◌,
}
use rampipe.Common.Text.{Text, codes, text_eq, text_beq}
use rampipe.Common.Map.{get, insert, remove}
use rampipe.Registry.{
  Host, RegistryState, Shared, Residency, new, load, new_cell, measure, evict, evicted, refused,
  handle_outstanding, drop_handle, release, mapped_bytes, device_resident_bytes, resident_count,
  u64_mod, total, resident_ids_by_lru,
}
use rampipe.Registry.Sync.{IsSynced, new-IsSynced, load-IsSynced}
use rampipe.Registry.Evict.{Forgets, evict_outcome, drop_handle-IsSynced}
use rampipe.Registry.Recency.{Ordered, resident_ids_by_lru_lem, resident_ids_by_lru-load}
use rampipe.Registry.Totals.{evict-total}

abbrev host : Host
host = record {
  now = 7;
  file = λ p. some (codes "GGUF...");
  io_error = 2;
  map_latency = 1;
  touch_latency = 1;
  rss_before = none;
  rss_after = none;
  resident_fraction = λ m. none;
}

abbrev path : Text
path = codes "/m.gguf"

abbrev mapped : RegistryState
mapped = (load host new path Residency.lazy).0

mapped-IsSynced : IsSynced mapped
mapped-IsSynced =
    load-IsSynced host new path Residency.lazy new-IsSynced (unfold new in omega arith)

abbrev cell : Shared
cell = new_cell host path Residency.lazy (codes "GGUF...")

-- The model with its one handle dropped.
abbrev idle : RegistryState
idle = drop_handle mapped 0

idle-IsSynced : IsSynced idle
unfolding load new get text_beq insert remove measure
idle-IsSynced = drop_handle-IsSynced mapped 0 cell mapped-IsSynced refl (omega arith)

evict_outcome_example :
    ((1 < 1) × (evict idle 0 ≡ (idle, refused (handle_outstanding 0))))
    ⊎ ((◌≡◌ {A = ℕ} 1 1)
        × ((evict idle 0).1 ≡ evicted)
        × IsSynced (evict idle 0).0
        × Forgets idle 0 path (evict idle 0).0)
unfolding drop_handle load new get text_beq insert remove measure
evict_outcome_example = evict_outcome idle 0 (release cell) idle-IsSynced refl

resident_ids_by_lru_lem_example :
    (order : List (ℕ × ℕ)) × (resident_ids_by_lru mapped ≡ map (λ e. e.0) order)
    × Perm order mapped.last_accessed
    × Ordered order
resident_ids_by_lru_lem_example = resident_ids_by_lru_lem mapped

abbrev later : Host
later = record host { now = 9 }

abbrev other_path : Text
other_path = codes "/n.gguf"

resident_ids_by_lru-load_example :
    (older : List ℕ) × (resident_ids_by_lru (load later mapped other_path Residency.prefault).0
      ≡ older ++ 1 ∷ [])
unfolding load new get text_beq insert remove
resident_ids_by_lru-load_example =
    resident_ids_by_lru-load later mapped other_path Residency.prefault {id = 1} (omega arith, tt)
      refl

evict-total_example :
    let st' = (evict idle 0).0 in
    (mapped_bytes idle ≡ (7 + mapped_bytes st') % u64_mod)
    × (device_resident_bytes idle ≡ (0 + device_resident_bytes st') % u64_mod)
    × (resident_count idle ≡ suc (resident_count st'))
unfolding drop_handle load new get text_beq insert remove measure evict
evict-total_example = evict-total idle 0 (release cell) idle-IsSynced refl refl

-- The file is seven bytes long.
mapped_bytes_test : mapped_bytes mapped ≡ 7
unfolding mapped_bytes total load new get text_beq insert remove measure
mapped_bytes_test = refl
