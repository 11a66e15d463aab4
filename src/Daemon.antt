-- ===== src/Daemon.antt =====
-- bin/rampiped.rs: `SharedState`, the model store that every connection locks. A session is the id
-- of its model, which it holds one handle of, and the number of references to the session itself.
-- The lock makes each operation one step. `eprintln!` and the error texts are left out.
pub mod Eviction
pub mod Search
pub mod Counter
pub mod Handed
pub mod Ensure
pub mod References
pub mod Connection
pub mod Messages
pub mod Requests
use rampipe.Common.{
  ℕ, zero, suc, ◌+◌, ◌%◌, Bool, true, false, not, ◌&&◌, ◌||◌, List, [], ◌∷◌, Option, none, some,
  length, if◌then◌else◌, ◌==◌, nat_eq, nat_beq, is_some, unwrap_or,
}
use rampipe.Common.Text.{Text, text_eq}
use rampipe.Common.Map.{get, insert, remove}
use rampipe.Common.Float.{F64}
use rampipe.Registry.{
  Host, RegistryState, Shared, Residency, Loaded, loaded, desync, LoadError, EvictError, Evicted,
  evicted, refused, u64_mod, load, evict, drop_handle, record_device_bytes, resident_ids_by_lru,
  fits_within_budget, fits_within_device_budget,
}
use rampipe.Registry

-- `Arc<LlamaSession>`.
pub record Session : Type 0 where
  pub id : ℕ
  pub strong_count : ℕ

pub record ModelStats : Type 0 where
  pub requests_served : ℕ
  pub tokens_generated : ℕ
  pub last_used_unix_secs : ℕ

pub record SharedState : Type 0 where
  pub registry : RegistryState
  pub sessions : List (Text × Session)
  pub budget_fraction : F64
  pub requests_served : ℕ
  pub requests_failed : ℕ
  pub total_tokens_generated : ℕ
  pub model_stats : List (Text × ModelStats)

-- `SharedState::new`.
unfoldable pub new : F64 → SharedState
unfolding Registry.new
new budget_fraction = record {
  registry = Registry.new;
  sessions = [];
  budget_fraction = budget_fraction;
  requests_served = 0;
  requests_failed = 0;
  total_tokens_generated = 0;
  model_stats = [];
}

abbrev pub no_stats : ModelStats
no_stats = record { requests_served = 0; tokens_generated = 0; last_used_unix_secs = 0 }

-- `SharedState::record_outcome`; `now` is the time in seconds, or 0 before the epoch.
unfoldable pub record_outcome : ℕ → SharedState → Text → Option ℕ → SharedState
unfolding get insert
record_outcome now st path none = record st { requests_failed = (st.requests_failed + 1) % u64_mod }
record_outcome now st path (some tokens) =
    let stats = unwrap_or (get path st.model_stats) no_stats in
    record st {
      requests_served = (st.requests_served + 1) % u64_mod;
      total_tokens_generated = (st.total_tokens_generated + tokens) % u64_mod;
      model_stats =
          insert path
            (record {
              requests_served = (stats.requests_served + 1) % u64_mod;
              tokens_generated = (stats.tokens_generated + tokens) % u64_mod;
              last_used_unix_secs = now;
            })
            st.model_stats;
    }

-- `SharedState::path_for_id`.
unfoldable pub path_for_id : List (Text × Session) → ℕ → Option Text
path_for_id [] id = none
path_for_id ((path, session) ∷ sessions) id =
    if session.id == id then some path else path_for_id sessions id

abbrev device_bytes_in : Option Shared → Option ℕ
device_bytes_in none = none
device_bytes_in (some c) = c.inner.device_bytes

-- `LlamaSession::device_bytes`.
unfoldable pub device_bytes : RegistryState → Session → Option ℕ
unfolding get
device_bytes registry session = device_bytes_in (get session.id registry.resident)

-- The closure of a search for a victim: `skip` says which path is kept and `only_device` whether a
-- model without a device measurement is passed over.
unfoldable pub victim_at : SharedState → Bool → ℕ → Text → Option Session → Option (ℕ × Text)
unfolding device_bytes
victim_at st only_device id path none = none
victim_at st only_device id path (some session) =
    if not (session.strong_count == 1)
    then none
    else if only_device && not (is_some (device_bytes st.registry session))
    then none
    else some (id, path)

unfoldable pub victim : SharedState → (Text → Bool) → Bool → ℕ → Option (ℕ × Text)
unfolding path_for_id victim_at get
victim st skip only_device id = elim (path_for_id st.sessions id) [
  | none ↦ none
  | some path ↦ elim (skip path) [
    | true ↦ none
    | false ↦ victim_at st only_device id path (get path st.sessions)
  ]
]

-- `find_map` over the ids, the least recently used first.
unfoldable pub evictable : SharedState → (Text → Bool) → Bool → List ℕ → Option (ℕ × Text)
unfolding victim
evictable st skip only_device [] = none
evictable st skip only_device (id ∷ ids) = elim (victim st skip only_device id) [
  | some found ↦ some found
  | none ↦ evictable st skip only_device ids
]

-- Out of both maps, which drops the session and its handle, and out of the registry.
unfoldable pub evict_session : SharedState → ℕ → Text → SharedState × Evicted
unfolding remove drop_handle evict
evict_session st id path =
    let after = evict (drop_handle st.registry id) id in
    (
      record st {
        registry = after.0;
        sessions = remove path st.sessions;
        model_stats = remove path st.model_stats;
      },
      after.1,
    )

-- How a search for room ends; `unfinished` stands for a loop that has not ended.
pub data Room : Type 0 where
  settled : Room
  not_evicted : EvictError → Room
  unfinished : Room

-- What the machine has free during one round.
pub record Probe : Type 0 where
  pub system_free_bytes : Option ℕ
  pub gpu_memory_bytes : Option ℕ

-- What llama.cpp does with a model that was mapped: whether it loads, and what it measured.
pub record Backend : Type 0 where
  pub loads : Bool
  pub measured : Option ℕ

pub data Ensured : Type 0 where
  ready : Ensured
  mapping_failed : LoadError → Ensured
  model_failed : Ensured
  no_room : Room → Ensured
  panicked : Ensured

abbrev measure_device : RegistryState → ℕ → Option ℕ → RegistryState
measure_device registry id none = registry
measure_device registry id (some bytes) = record_device_bytes registry id bytes

-- `LlamaSession::load` behind the mapping; a failure drops the handle.
unfoldable pub open_session :
    Backend → SharedState → Text → RegistryState × Loaded → SharedState × Ensured
unfolding drop_handle record_device_bytes insert
open_session b st path (registry, Loaded.failed e) =
    (record st { registry = registry }, mapping_failed e)
open_session b st path (registry, desync) = (record st { registry = registry }, panicked)
open_session b st path (registry, loaded id) = elim b.loads [
  | false ↦ (record st { registry = drop_handle registry id }, model_failed)
  | true ↦ (
    record st {
      registry = measure_device registry id b.measured;
      sessions = insert path (record { id = id; strong_count = 1 }) st.sessions;
    },
    ready,
  )
]

abbrev ensured_by : SharedState × Room → SharedState × Ensured
ensured_by (st, settled) = (st, ready)
ensured_by (st, not_evicted e) = (st, no_room (not_evicted e))
ensured_by (st, unfinished) = (st, no_room unfinished)

-- A victim was found or not; `again` is the next round.
unfoldable pub evict_found :
    (SharedState → SharedState × Room) → SharedState → Option (ℕ × Text) → SharedState × Room
unfolding evict_session
evict_found again st none = (st, settled)
evict_found again st (some (id, path)) = elim (evict_session st id path).1 [
  | refused e ↦ ((evict_session st id path).0, not_evicted e)
  | evicted ↦ again (evict_session st id path).0
]

-- The arithmetic on `f64` is the processor's; `probes` has the machine's answers for each round.
module _ (as_f64 : ℕ → F64) (times : F64 → F64 → F64) (probes : ℕ → Probe) where
  unfoldable pub host_fits : SharedState → Option ℕ → ℕ → Bool
  unfolding fits_within_budget
  host_fits st free new_size_bytes =
      unwrap_or (fits_within_budget as_f64 times free st.registry new_size_bytes st.budget_fraction)
        true

  unfoldable pub device_fits : SharedState → Option ℕ → ℕ → Bool
  unfolding fits_within_device_budget
  device_fits st none new_size_bytes = true
  device_fits st (some free) new_size_bytes =
      fits_within_device_budget as_f64 times st.registry new_size_bytes free st.budget_fraction

  unfoldable pub room_loop : ℕ → ℕ → SharedState → SharedState × Room
  unfolding resident_ids_by_lru
  room_loop zero new_size_bytes st = (st, unfinished)
  room_loop (suc fuel) new_size_bytes st =
      let host = host_fits st (probes fuel).system_free_bytes new_size_bytes in
      let device = device_fits st (probes fuel).gpu_memory_bytes new_size_bytes in
      elim (host && device) [
        | true ↦ (st, settled)
        | false ↦
            evict_found (room_loop fuel new_size_bytes) st
              (evictable st (λ p. false) (host && not device) (resident_ids_by_lru st.registry))
      ]

  -- `SharedState::make_room_for`, given the size of the file. Each round takes a session off.
  unfoldable pub make_room_for : ℕ → SharedState → SharedState × Room
  unfolding room_loop host_fits device_fits evictable evict_found
  make_room_for new_size_bytes st = room_loop (suc (length st.sessions)) new_size_bytes st

  unfoldable pub device_loop : ℕ → Text → SharedState → SharedState × Room
  unfolding resident_ids_by_lru
  device_loop zero keep st = (st, unfinished)
  device_loop (suc fuel) keep st = elim (device_fits st (probes fuel).gpu_memory_bytes 0) [
    | true ↦ (st, settled)
    | false ↦
        evict_found (device_loop fuel keep) st
          (evictable st (λ p. p == keep) true (resident_ids_by_lru st.registry))
  ]

  -- `SharedState::make_device_room_besides`.
  unfoldable pub make_device_room_besides : Text → SharedState → SharedState × Room
  unfolding device_loop device_fits evictable evict_found
  make_device_room_besides keep st = device_loop (suc (length st.sessions)) keep st

  -- The session is there: an access for the registry, whose handle is dropped at once.
  touch_cached : Text → SharedState → RegistryState × Loaded → SharedState × Ensured
  unfolding make_device_room_besides drop_handle
  touch_cached path st (registry, Loaded.failed e) =
      (record st { registry = registry }, mapping_failed e)
  touch_cached path st (registry, desync) = (record st { registry = registry }, panicked)
  touch_cached path st (registry, loaded id) =
      ensured_by (make_device_room_besides path (record st { registry = drop_handle registry id }))

  load_after : Host → Backend → Text → SharedState × Room → SharedState × Ensured
  unfolding open_session load
  load_after host b path (st, settled) =
      open_session b st path (load host st.registry path Residency.lazy)
  load_after host b path (st, not_evicted e) = (st, no_room (not_evicted e))
  load_after host b path (st, unfinished) = (st, no_room unfinished)

  -- `SharedState::ensure_loaded`; `size` is the length of the file, or 0.
  unfoldable pub ensure_loaded : Host → Backend → ℕ → SharedState → Text → SharedState × Ensured
  unfolding touch_cached load_after make_room_for load get
  ensure_loaded host b size st path = elim (is_some (get path st.sessions)) [
    | true ↦ touch_cached path st (load host st.registry path Residency.lazy)
    | false ↦ load_after host b path (make_room_for size st)
  ]
