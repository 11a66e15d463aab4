-- ===== src/Daemon/References.antt =====
-- bin/rampiped.rs: which sessions an operation of the store adds, and with how many references.
use rampipe.Common.{
  ℕ, zero, suc, ◌≡◌, refl, ap, sym, ◌⊎◌, inl, inr, true, false, ◌&&◌, not, Option, none, some,
  arith, ◌==◌, Bool-cases, Option-cases, length,
}
use rampipe.Common.Text.{Text, text_eq}
use rampipe.Common.Map.{get, insert, get-insert, get-remove}
use rampipe.Common.Float.{F64}
use rampipe.Registry.{
  Host, RegistryState, Residency, Loaded, loaded, failed, desync, load, Evicted, evicted, refused,
  drop_handle, resident_ids_by_lru,
}
use rampipe.Daemon.{
  Session, SharedState, evictable, evict_session, evict_found, host_fits, device_fits, room_loop,
  device_loop, Room, settled, not_evicted, unfinished, Probe, Backend, open_session, ensured_by,
  touch_cached, load_after, ensure_loaded, make_room_for, make_device_room_besides,
}

-- Each session of the second state is one of the first.
abbrev pub Fewer : SharedState → SharedState → Type 0
Fewer st st' = (p : Text) (s : Session) → get p st'.sessions ≡ some s → get p st.sessions ≡ some s

-- Each session of the second state is one of the first, with the same count, or is the map's alone.
abbrev pub Frees : SharedState → SharedState → Type 0
Frees st st' =
    (p : Text) (s : Session)
    → get p st'.sessions ≡ some s
    → (get p st.sessions ≡ some s) ⊎ (s.strong_count ≡ 1)

evict_found-Fewer :
    (again : SharedState → SharedState × Room) (st : SharedState) (found : Option (ℕ × Text))
    → ((st' : SharedState) → Fewer st' (again st').0)
    → Fewer st (evict_found again st found).0
unfolding evict_found evict_session
evict_found-Fewer again st none later = λ p s h. h
evict_found-Fewer again st (some (id, q)) later = rest (evict_session st id q).1 refl
  where
    left : Fewer st (evict_session st id q).0
    left p s h = ground (arith, get-remove q p st.sessions)

    rest :
        (answer : Evicted)
        → (evict_session st id q).1 ≡ answer
        → Fewer st (evict_found again st (some (id, q))).0
    rest (refused x) e = rw (e, evict_found) left
    rest evicted e = rw (e, evict_found) (λ p s h. left p s (later (evict_session st id q).0 p s h))

module _ (as_f64 : ℕ → F64) (times : F64 → F64 → F64) (probes : ℕ → Probe) where
  room_loop-Fewer :
      (fuel size : ℕ) (st : SharedState) → Fewer st (room_loop as_f64 times probes fuel size st).0
  unfolding room_loop
  room_loop-Fewer zero size st = λ p s h. h
  room_loop-Fewer (suc fuel) size st =
      let host = host_fits as_f64 times probes st (probes fuel).system_free_bytes size in
      let device = device_fits as_f64 times probes st (probes fuel).gpu_memory_bytes size in
      elim (Bool-cases (host && device)) [
        | inl fits ↦ rw (fits, room_loop) (λ p s h. h)
        | inr full ↦
            rw (full, room_loop)
              (evict_found-Fewer (room_loop as_f64 times probes fuel size) st
                (evictable st (λ p. false) (host && not device) (resident_ids_by_lru st.registry))
                (room_loop-Fewer fuel size))
      ]

  device_loop-Fewer :
      (fuel : ℕ) (keep : Text) (st : SharedState)
      → Fewer st (device_loop as_f64 times probes fuel keep st).0
  unfolding device_loop
  device_loop-Fewer zero keep st = λ p s h. h
  device_loop-Fewer (suc fuel) keep st =
      elim (Bool-cases (device_fits as_f64 times probes st (probes fuel).gpu_memory_bytes 0)) [
        | inl fits ↦ rw (fits, device_loop) (λ p s h. h)
        | inr full ↦
            rw (full, device_loop)
              (evict_found-Fewer (device_loop as_f64 times probes fuel keep) st
                (evictable st (λ p. p == keep) true (resident_ids_by_lru st.registry))
                (device_loop-Fewer fuel keep))
      ]

  touch_cached-Frees :
      (path : Text) (st : SharedState) (r : RegistryState × Loaded)
      → Frees st (touch_cached as_f64 times probes path st r).0
  unfolding touch_cached make_device_room_besides
  touch_cached-Frees path st (registry, failed e) = λ p s h. inl h
  touch_cached-Frees path st (registry, desync) = λ p s h. inl h
  touch_cached-Frees path st (registry, loaded id) =
      by_room
        (device_loop as_f64 times probes (suc (length st.sessions)) path
          (record st { registry = drop_handle registry id }))
        (device_loop-Fewer (suc (length st.sessions)) path
          (record st { registry = drop_handle registry id }))
    where
      by_room : (x : SharedState × Room) → Fewer st x.0 → Frees st (ensured_by x).0
      by_room (st', settled) fewer = λ p s h. inl (fewer p s h)
      by_room (st', not_evicted e) fewer = λ p s h. inl (fewer p s h)
      by_room (st', unfinished) fewer = λ p s h. inl (fewer p s h)

  open_session-Frees :
      (b : Backend) (st : SharedState) (path : Text) (r : RegistryState × Loaded)
      → Frees st (open_session b st path r).0
  unfolding open_session
  open_session-Frees b st path (registry, failed e) = λ p s h. inl h
  open_session-Frees b st path (registry, desync) = λ p s h. inl h
  open_session-Frees b st path (registry, loaded id) = elim (Bool-cases b.loads) [
    | inr n ↦ rw (n, open_session) (λ p s h. inl h)
    | inl y ↦ rw (y, open_session) inserted
  ]
    where
      inserted :
          (p : Text) (s : Session)
          → get p (insert path (record { id = id; strong_count = 1 }) st.sessions) ≡ some s
          → (get p st.sessions ≡ some s) ⊎ (s.strong_count ≡ 1)
      inserted p s h =
          let at = get-insert path p (record { id = id; strong_count = 1 }) st.sessions in
          elim (Bool-cases (path == p)) [
            | inr n ↦ inl (ground (arith, at))
            | inl y ↦
                let new : record { id = id; strong_count = 1 } ≡ s = ground (arith, at) in
                inr (sym (ap (λ (x : Session). x.strong_count) new))
          ]

  load_after-Frees :
      (host : Host) (b : Backend) (path : Text) (st : SharedState) (x : SharedState × Room)
      → Fewer st x.0
      → Frees st (load_after as_f64 times probes host b path x).0
  unfolding load_after
  load_after-Frees host b path st (st', settled) fewer = λ p s h.
      elim (open_session-Frees b st' path (load host st'.registry path Residency.lazy) p s h) [
        | inl there ↦ inl (fewer p s there)
        | inr one ↦ inr one
      ]
  load_after-Frees host b path st (st', not_evicted e) fewer = λ p s h. inl (fewer p s h)
  load_after-Frees host b path st (st', unfinished) fewer = λ p s h. inl (fewer p s h)

  pub ensure_loaded-Frees :
      (host : Host) (b : Backend) (size : ℕ) (st : SharedState) (path : Text)
      → Frees st (ensure_loaded as_f64 times probes host b size st path).0
  unfolding ensure_loaded make_room_for
  ensure_loaded-Frees host b size st path = elim (Option-cases (get path st.sessions)) [
    | inl absent ↦
        rw (absent, ensure_loaded)
          (load_after-Frees host b path st (make_room_for as_f64 times probes size st)
            (room_loop-Fewer (suc (length st.sessions)) size st))
    | inr (s, there) ↦
        rw (there, ensure_loaded)
          (touch_cached-Frees path st (load host st.registry path Residency.lazy))
  ]
