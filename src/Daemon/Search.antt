-- ===== src/Daemon/Search.antt =====
-- bin/rampiped.rs: `make_room_for` and `make_device_room_besides`.
use rampipe.Common.{
  ℕ, zero, suc, ◌<◌, ◌≡◌, ◌≢◌, refl, sym, ap, ◌∙◌, ◌⊎◌, inl, inr, true, false, not, ◌&&◌, Option,
  none, some, arith, length, ◌==◌, nat_eq, Bool-cases,
}
use rampipe.Common.Text.{Text, text_eq, text_beq_iff}
use rampipe.Common.Map.{get, get-remove_ne, length-remove_lt}
use rampipe.Common.Float.{F64}
use rampipe.Registry.{Shared, evicted, resident_ids_by_lru}
use rampipe.Daemon.{
  Session, SharedState, evictable, evict_session, Room, settled, Probe, host_fits, device_fits,
  evict_found, room_loop, make_room_for, device_loop, make_device_room_besides,
}
use rampipe.Daemon.Eviction.{IsManaged, IsIdle, evictable_lem, gone, evict_session-IsManaged}

-- A path `q` whose session, if any, is not among the victims.
module _ (q : Text) (o : Option Session) where
  abbrev pub Settles : SharedState × Room → Type 0
  Settles (st, r) = IsManaged st × (r ≡ settled) × (get q st.sessions ≡ o)

  evict_found-Settles :
      (again : SharedState → SharedState × Room) (st : SharedState) (found : Option (ℕ × Text))
      → IsManaged st
      → get q st.sessions ≡ o
      → ((id : ℕ) (p : Text) → found ≡ some (id, p) → IsIdle st id p × (q ≢ p))
      → ((st' : SharedState)
          → IsManaged st'
          → get q st'.sessions ≡ o
          → length st'.sessions < length st.sessions
          → Settles (again st'))
      → Settles (evict_found again st found)
  unfolding evict_found
  evict_found-Settles again st none v k idle later = (v, refl, k)
  evict_found-Settles again st (some (id, p)) v k idle later = go (idle id p refl)
    where
      evicted_here :
          (s : Session) (c : Shared)
          → get p st.sessions ≡ some s
          → s.id ≡ id
          → get id st.registry.resident ≡ some c
          → c.inner.path ≡ p
          → c.strong_count ≡ 2
          → q ≢ p
          → Settles (evict_found again st (some (id, p)))
      evicted_here s c at same found named two n =
          let out = (gone st v id p s at same c found named two).0 in
          let out' : (evict_session st id p).1 ≡ evicted = unfold evict_session in out in
          rw (out', evict_found)
            (later (evict_session st id p).0
              (evict_session-IsManaged st v id p s at same c found named two)
              (unfold evict_session in get-remove_ne p q st.sessions (λ e. n (sym e)) ∙ k)
              (unfold evict_session in length-remove_lt p s st.sessions at))

      go : IsIdle st id p × (q ≢ p) → Settles (evict_found again st (some (id, p)))
      go ((s, at, same, one), n) =
          let (c, found, named, held, only) = v.handled p s at in
          evicted_here s c at same (rw (← same) found) named (pair only) n
        where
          pair : {A : Type 0} → (s.strong_count ≢ 1) ⊎ A → A
          pair (inl x) = absurd (x one)
          pair (inr a) = a

  module _ (as_f64 : ℕ → F64) (times : F64 → F64 → F64) (probes : ℕ → Probe) where
    room_loop-Settles :
        (safe : (st : SharedState) (id : ℕ) (p : Text)
          → get q st.sessions ≡ o
          → IsIdle st id p
          → q ≢ p)
        → (fuel size : ℕ) (st : SharedState) → IsManaged st
        → get q st.sessions ≡ o
        → length st.sessions < fuel
        → Settles (room_loop as_f64 times probes fuel size st)
    unfolding room_loop
    room_loop-Settles safe zero size st v k h = absurd (omega arith)
    room_loop-Settles safe (suc fuel) size st v k h =
        let host = host_fits as_f64 times probes st (probes fuel).system_free_bytes size in
        let device = device_fits as_f64 times probes st (probes fuel).gpu_memory_bytes size in
        let ids = resident_ids_by_lru st.registry in
        elim (Bool-cases (host && device)) [
          | inl fits ↦ rw (fits, room_loop) (v, refl, k)
          | inr full ↦
              rw (full, room_loop)
                (evict_found-Settles (room_loop as_f64 times probes fuel size) st
                  (evictable st (λ p. false) (host && not device) ids) v k
                  (λ id p e.
                    let idle =
                      (evictable_lem st (λ x. false) (host && not device) ids id p v.once e).0 in
                    (idle, safe st id p k idle))
                  (λ st' v' k' less. room_loop-Settles safe fuel size st' v' k' (omega arith)))
        ]

    device_loop-Settles :
        (keep : Text)
        → (safe : (st : SharedState) (id : ℕ) (p : Text)
            → get q st.sessions ≡ o
            → IsIdle st id p
            → p ≢ keep
            → q ≢ p)
        → (fuel : ℕ) (st : SharedState) → IsManaged st
        → get q st.sessions ≡ o
        → length st.sessions < fuel
        → Settles (device_loop as_f64 times probes fuel keep st)
    unfolding device_loop
    device_loop-Settles keep safe zero st v k h = absurd (omega arith)
    device_loop-Settles keep safe (suc fuel) st v k h =
        let ids = resident_ids_by_lru st.registry in
        elim (Bool-cases (device_fits as_f64 times probes st (probes fuel).gpu_memory_bytes 0)) [
          | inl fits ↦ rw (fits, device_loop) (v, refl, k)
          | inr full ↦
              rw (full, device_loop)
                (evict_found-Settles (device_loop as_f64 times probes fuel keep) st
                  (evictable st (λ p. p == keep) true ids) v k
                  (λ id p e.
                    let (idle, other) = evictable_lem st (λ x. x == keep) true ids id p v.once e in
                    (
                      idle,
                      safe st id p k idle (λ s. absurd (ground (arith, (text_beq_iff p keep).1 s))),
                    ))
                  (λ st' v' k' less. device_loop-Settles keep safe fuel st' v' k' (omega arith)))
        ]

-- There is no session, or a connection refers to it.
abbrev pub IsBusy : Option Session → Type 0
IsBusy none = Unit
IsBusy (some s) = s.strong_count ≢ 1

busy-safe :
    (q : Text) (o : Option Session) (st : SharedState) (id : ℕ) (p : Text)
    → IsBusy o
    → get q st.sessions ≡ o
    → IsIdle st id p
    → q ≢ p
busy-safe q none st id p used k (t, at, same, one) e =
    absurd (ground (arith, ap (λ x. get x st.sessions) e))
busy-safe q (some s) st id p used k (t, at, same, one) e =
    let s_t : s ≡ t = ground (arith, ap (λ x. get x st.sessions) e) in
    used (ap (λ (x : Session). x.strong_count) s_t ∙ one)

module _ (as_f64 : ℕ → F64) (times : F64 → F64 → F64) (probes : ℕ → Probe) where
  -- In a store where sessions and registry agree, `make_room_for` ends without a refusal from the
  -- registry and keeps the agreement, and a path whose session a connection holds, or that has
  -- none, keeps what it has, whatever memory the machine reports.
  pub make_room_for-IsManaged :
      (size : ℕ) (st : SharedState) (q : Text)
      → IsManaged st
      → IsBusy (get q st.sessions)
      → let (st', r) = make_room_for as_f64 times probes size st in
        IsManaged st' × (r ≡ settled) × (get q st'.sessions ≡ get q st.sessions)
  unfolding make_room_for
  make_room_for-IsManaged size st q v used =
      room_loop-Settles q (get q st.sessions) as_f64 times probes
        (λ st' id p k' idle. busy-safe q (get q st.sessions) st' id p used k' idle)
        (suc (length st.sessions)) size st v refl (omega arith)

  -- In a store where sessions and registry agree, `make_device_room_besides` ends without a
  -- refusal from the registry, keeps the agreement and leaves the session at `keep` as it is,
  -- whatever memory the machine reports.
  pub make_device_room_besides-IsManaged :
      (keep : Text) (st : SharedState)
      → IsManaged st
      → let (st', r) = make_device_room_besides as_f64 times probes keep st in
        IsManaged st' × (r ≡ settled) × (get keep st'.sessions ≡ get keep st.sessions)
  unfolding make_device_room_besides
  make_device_room_besides-IsManaged keep st v =
      device_loop-Settles keep (get keep st.sessions) as_f64 times probes keep
        (λ st' id p k' idle n e. n (sym e)) (suc (length st.sessions)) st v refl (omega arith)
