-- ===== src/Daemon/Ensure.antt =====
-- bin/rampiped.rs: `ensure_loaded`, the registry and the sessions together.
use rampipe.Common.{
  ℕ, suc, ◌+◌, ◌<◌, ◌≡◌, ◌≢◌, refl, sym, ap, subst, ◌∙◌, ◌⊎◌, inl, inr, Bool, true, false, Option,
  none, some, arith, length, nat_eq, is_some, Option-cases,
}
use rampipe.Common.Text.{Text, text_eq}
use rampipe.Common.Map.{get, insert, get-insert, get-insert_self}
use rampipe.Common.Float.{F64}
use rampipe.Registry.{
  Host, RegistryState, Shared, Residency, Loaded, loaded, LoadError, u64_mod, load, drop_handle,
  record_device_bytes, with_device_bytes,
}
use rampipe.Registry.Sync.{IsSynced, load-IsSynced}
use rampipe.Registry.Evict.{clone_handle-IsSynced}
use rampipe.Registry.Effect.{Grows, Hands, load-Hands}
use rampipe.Daemon.{
  Session, SharedState, Room, settled, Probe, Backend, Ensured, ready, mapping_failed, model_failed,
  measure_device, open_session, ensured_by, touch_cached, load_after, ensure_loaded, make_room_for,
  make_device_room_besides,
}
use rampipe.Daemon.Eviction.{IsManaged}
use rampipe.Daemon.Search.{make_room_for-IsManaged, make_device_room_besides-IsManaged}
use rampipe.Daemon.Handed.{returned-IsManaged, two, opened-IsManaged}
use rampipe.Daemon.Counter.{room_loop-next_id}

-- Sessions and registry agree, and a session at `path` was made ready, or the load's error says
-- why there is none.
abbrev pub Ensures : Text → SharedState × Ensured → Type 0
Ensures path (st, answer) =
    IsManaged st
    × (((answer ≡ ready) × (is_some (get path st.sessions) ≡ true))
        ⊎ ((answer ≡ model_failed) ⊎ ((e : LoadError) × (answer ≡ mapping_failed e))))

module _ (b : Backend) (st : SharedState) (v : IsManaged st) (path : Text)
    (absent : get path st.sessions ≡ none) where
  measured-Ensures :
      (r : RegistryState) (id : ℕ) (c : Shared) (measured : Option ℕ)
      → IsSynced r
      → get id r.resident ≡ some c
      → c.inner.path ≡ path
      → ((j : ℕ) → id ≢ j → get j r.resident ≡ get j st.registry.resident)
      → Grows st.registry path id c
      → IsManaged (record st {
        registry = measure_device r id measured;
        sessions = insert path (record { id = id; strong_count = 1 }) st.sessions;
      })
  unfolding record_device_bytes
  measured-Ensures r id c none s here named rest grows =
      opened-IsManaged st v path r s id c here named rest grows absent c r named
        (two st v path r s id c here named rest grows absent) s (λ j. ground arith)
  measured-Ensures r id c (some bytes) s here named rest grows =
      opened-IsManaged st v path r s id c here named rest grows absent (with_device_bytes bytes c)
        (record_device_bytes r id bytes) named (two st v path r s id c here named rest grows absent)
        (clone_handle-IsSynced r id bytes s).0
        (λ j.
          rw (here, record_device_bytes) (get-insert id j (with_device_bytes bytes c) r.resident))

  loads_out :
      (r : RegistryState) (id : ℕ) (loads : Bool)
      → b.loads ≡ loads
      → (c : Shared) × (get id r.resident ≡ some c)
        × (c.inner.path ≡ path)
        × ((j : ℕ) → id ≢ j → get j r.resident ≡ get j st.registry.resident)
        × Grows st.registry path id c
      → IsSynced r
      → Ensures path (open_session b st path (r, loaded id))
  unfolding open_session
  loads_out r id false e (c, here, named, rest, grows) s =
      rw (e, open_session)
        (returned-IsManaged st v path r s id c here named rest grows, inr (inl refl))
  loads_out r id true e (c, here, named, rest, grows) s =
      rw (e, open_session)
        (
          measured-Ensures r id c b.measured s here named rest grows,
          inl (refl, ap is_some (get-insert_self path _ st.sessions)),
        )

  open_session-Ensures :
      (r : RegistryState × Loaded)
      → Hands st.registry path r
      → IsSynced r.0
      → Ensures path (open_session b st path r)
  unfolding open_session
  open_session-Ensures (r, answer) hands s = elim hands [
    | inl (id, c, is, here, named, rest, grows) ↦
        rw is (loads_out r id b.loads refl (c, here, named, rest, grows) s)
    | inr (e, is, same) ↦
        rw (is, open_session)
          (subst (λ x. IsManaged (record st { registry = x })) (sym same) v, inr (inr (e, refl)))
  ]

ended :
    (path : Text) (x : SharedState × Room)
    → IsManaged x.0
    → x.1 ≡ settled
    → is_some (get path x.0.sessions) ≡ true
    → Ensures path (ensured_by x)
ended path (st, r) v e there = rw e (v, inl (refl, there))

-- The touch of a session that is there.
module _ (as_f64 : ℕ → F64) (times : F64 → F64 → F64) (probes : ℕ → Probe) where
  touch_cached-Ensures :
      (st : SharedState) (path : Text) (s : Session) (r : RegistryState × Loaded)
      → IsManaged st
      → get path st.sessions ≡ some s
      → Hands st.registry path r
      → IsSynced r.0
      → Ensures path (touch_cached as_f64 times probes path st r)
  unfolding touch_cached
  touch_cached-Ensures st path s (r, answer) v there hands synced = elim hands [
    | inl (id, c, is, here, named, rest, grows) ↦
        let st1 = record st { registry = drop_handle r id } in
        let (v', out, kept) =
          make_device_room_besides-IsManaged as_f64 times probes path st1
            (returned-IsManaged st v path r synced id c here named rest grows) in
        rw (is, touch_cached)
          (ended path (make_device_room_besides as_f64 times probes path st1) v' out
            (ap is_some (kept ∙ there)))
    | inr (e, is, same) ↦
        rw (is, touch_cached)
          (subst (λ x. IsManaged (record st { registry = x })) (sym same) v, inr (inr (e, refl)))
  ]

  load_after-Ensures :
      (host : Host) (b : Backend) (path : Text) (x : SharedState × Room)
      → IsManaged x.0
      → x.1 ≡ settled
      → get path x.0.sessions ≡ none
      → x.0.registry.next_id + 1 < u64_mod
      → Ensures path (load_after as_f64 times probes host b path x)
  unfolding load_after
  load_after-Ensures host b path (st, r) v e absent room =
      rw (e, load_after)
        (open_session-Ensures b st v path absent (load host st.registry path Residency.lazy)
          (load-Hands host st.registry v.synced path Residency.lazy)
          (load-IsSynced host st.registry path Residency.lazy v.synced room))

  -- In a store where sessions and registry agree and the next id is below the largest `u64`,
  -- `ensure_loaded` keeps the agreement, whatever the machine, the file and llama.cpp do. It ends
  -- with a session at the path, or with the error of the mapping or of the model, and never with
  -- a refusal from the registry or a panic.
  pub ensure_loaded-IsManaged :
      (host : Host) (b : Backend) (size : ℕ) (st : SharedState) (path : Text)
      → IsManaged st
      → st.registry.next_id + 1 < u64_mod
      → let (st', answer) = ensure_loaded as_f64 times probes host b size st path in
        IsManaged st'
        × (((answer ≡ ready) × (is_some (get path st'.sessions) ≡ true))
            ⊎ ((answer ≡ model_failed) ⊎ ((e : LoadError) × (answer ≡ mapping_failed e))))
  unfolding ensure_loaded make_room_for
  ensure_loaded-IsManaged host b size st path v room = elim (Option-cases (get path st.sessions)) [
    | inl absent ↦
        let (v', out, kept) =
          make_room_for-IsManaged as_f64 times probes size st path v (rw absent tt) in
        rw (absent, ensure_loaded)
          (load_after-Ensures host b path (make_room_for as_f64 times probes size st) v' out
            (kept ∙ absent)
            (rw (room_loop-next_id as_f64 times probes (suc (length st.sessions)) size st) room))
    | inr (s, there) ↦
        rw (there, ensure_loaded)
          (touch_cached-Ensures st path s (load host st.registry path Residency.lazy) v there
            (load-Hands host st.registry v.synced path Residency.lazy)
            (load-IsSynced host st.registry path Residency.lazy v.synced room))
  ]
