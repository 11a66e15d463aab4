-- ===== src/Daemon/Counter.antt =====
-- bin/rampiped.rs: `make_room_for` hands out no ids.
use rampipe.Common.{
  ℕ, zero, ltb, suc, ◌-◌, ◌≡◌, refl, ◌∙◌, inl, inr, false, ◌&&◌, not, Option, none, some, nat_eq,
  Bool-cases, Option-cases,
}
use rampipe.Common.Text.{Text, text_eq}
use rampipe.Common.Map.{get}
use rampipe.Common.Float.{F64}
use rampipe.Registry.{
  RegistryState, evict, Evicted, drop_handle, evicted, refused, resident_ids_by_lru,
}
use rampipe.Daemon.{
  SharedState, evictable, evict_session, evict_found, host_fits, device_fits, room_loop, Room,
  Probe,
}

-- The search for room makes no ids.
drop_handle-next_id : (st : RegistryState) (id : ℕ) → (drop_handle st id).next_id ≡ st.next_id
unfolding drop_handle
drop_handle-next_id st id = elim (Option-cases (get id st.resident)) [
  | inl e ↦ rw (e, drop_handle) refl
  | inr (c, e) ↦ rw (e, drop_handle) refl
]

evict-next_id : (st : RegistryState) (id : ℕ) → (evict st id).0.next_id ≡ st.next_id
unfolding evict
evict-next_id st id = elim (Option-cases (get id st.resident)) [
  | inl e ↦ rw (e, evict) refl
  | inr (c, e) ↦ elim (Bool-cases (ltb 0 (c.strong_count - 1))) [
    | inl held ↦ rw (e, evict, held) refl
    | inr free ↦ rw (e, evict, free) refl
  ]
]

evict_found-next_id :
    (again : SharedState → SharedState × Room) (st : SharedState) (found : Option (ℕ × Text))
    → ((st' : SharedState) → (again st').0.registry.next_id ≡ st'.registry.next_id)
    → (evict_found again st found).0.registry.next_id ≡ st.registry.next_id
unfolding evict_found evict_session
evict_found-next_id again st none later = refl
evict_found-next_id again st (some (id, p)) later =
    let st' = (evict_session st id p).0 in
    let kept : st'.registry.next_id ≡ st.registry.next_id =
      evict-next_id (drop_handle st.registry id) id ∙ drop_handle-next_id st.registry id in
    rest (evict_session st id p).1 refl kept
  where
    rest :
        (answer : Evicted)
        → (evict_session st id p).1 ≡ answer
        → (evict_session st id p).0.registry.next_id ≡ st.registry.next_id
        → (evict_found again st (some (id, p))).0.registry.next_id ≡ st.registry.next_id
    rest (refused x) e kept = rw (e, evict_found) kept
    rest evicted e kept = rw (e, evict_found) (later (evict_session st id p).0 ∙ kept)

module _ (as_f64 : ℕ → F64) (times : F64 → F64 → F64) (probes : ℕ → Probe) where
  pub room_loop-next_id :
      (fuel size : ℕ) (st : SharedState)
      → (room_loop as_f64 times probes fuel size st).0.registry.next_id ≡ st.registry.next_id
  unfolding room_loop
  room_loop-next_id zero size st = refl
  room_loop-next_id (suc fuel) size st =
      let host = host_fits as_f64 times probes st (probes fuel).system_free_bytes size in
      let device = device_fits as_f64 times probes st (probes fuel).gpu_memory_bytes size in
      elim (Bool-cases (host && device)) [
        | inl fits ↦ rw (fits, room_loop) refl
        | inr full ↦
            rw (full, room_loop)
              (evict_found-next_id (room_loop as_f64 times probes fuel size) st
                (evictable st (λ p. false) (host && not device) (resident_ids_by_lru st.registry))
                (room_loop-next_id fuel size))
      ]
