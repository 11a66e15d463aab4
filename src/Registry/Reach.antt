-- ===== src/Registry/Reach.antt =====
-- lib.rs: every sequence of calls on a registry, from the new one on.
use rampipe.Common.{ℕ, ◌+◌, ◌<◌, ◌≡◌, ◌≢◌, subst, sym, nat_eq}
use rampipe.Common.Text.{Text}
use rampipe.Registry.{
  Host, RegistryState, desync, Residency, new, load, evict, clone_handle, drop_handle,
  record_device_bytes, u64_mod,
}
use rampipe.Registry.Sync.{IsSynced, new-IsSynced, load-IsSynced, load-ne-desync}
use rampipe.Registry.Evict.{evict-IsSynced, clone_handle-IsSynced, drop_handle-IsSynced, IsHeld}

-- A call of the registry, or of a handle that is held. A handle's clone and drop need the handle,
-- and ids do not run out.
pub data Step (st st' : RegistryState) : Type 0 where
  loads :
      (host : Host) (path : Text) (residency : Residency)
      → st.next_id + 1 < u64_mod
      → st' ≡ (load host st path residency).0
      → Step st st'
  evicts : (id : ℕ) → st' ≡ (evict st id).0 → Step st st'
  clones : (id : ℕ) → IsHeld st id → st' ≡ clone_handle st id → Step st st'
  drops : (id : ℕ) → IsHeld st id → st' ≡ drop_handle st id → Step st st'
  records : (id bytes : ℕ) → st' ≡ record_device_bytes st id bytes → Step st st'

pub data Reachable : RegistryState → Type 0 where
  start : {st : RegistryState} → st ≡ new → Reachable st
  after : {before st : RegistryState} → Reachable before → Step before st → Reachable st

pub Step-IsSynced : (st st' : RegistryState) → IsSynced st → Step st st' → IsSynced st'
Step-IsSynced st st' v (Step.loads host path residency room e) =
    subst IsSynced (sym e) (load-IsSynced host st path residency v room)
Step-IsSynced st st' v (Step.evicts id e) = subst IsSynced (sym e) (evict-IsSynced st id v)
Step-IsSynced st st' v (Step.clones id held e) =
    subst IsSynced (sym e) (clone_handle-IsSynced st id 0 v).1
Step-IsSynced st st' v (Step.drops id (c, here, held) e) =
    subst IsSynced (sym e) (drop_handle-IsSynced st id c v here held)
Step-IsSynced st st' v (Step.records id bytes e) =
    subst IsSynced (sym e) (clone_handle-IsSynced st id bytes v).0

pub Reachable-IsSynced : {st : RegistryState} → Reachable st → IsSynced st
Reachable-IsSynced (Reachable.start e) = subst IsSynced (sym e) new-IsSynced
Reachable-IsSynced (Reachable.after {before} {st} r s) =
    Step-IsSynced before st (Reachable-IsSynced r) s

-- On every registry that calls lead to, with ids left, handles cloned and dropped only while
-- held, the three maps agree, and `load` never meets the `expect` on a path whose model is
-- missing.
pub load-Reachable :
    (st : RegistryState) (host : Host) (path : Text) (residency : Residency)
    → Reachable st
    → IsSynced st × ((load host st path residency).1 ≢ desync)
load-Reachable st host path residency r =
    let v = Reachable-IsSynced r in (v, load-ne-desync host st path residency v)
