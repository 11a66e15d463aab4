-- ===== src/Daemon/Eviction.antt =====
-- bin/rampiped.rs: the sessions beside the registry, and the eviction of one idle session.
use rampipe.Common.{
  ℕ, ◌<◌, ◌≤◌, ◌≡◌, ◌≢◌, refl, sym, ap, ◌∙◌, ◌⊎◌, inl, inr, Bool, false, not, ◌&&◌, List, [], ◌∷◌,
  Option, none, some, arith, if◌then◌else◌, ◌==◌, nat_eq, is_some, Bool-cases, Option-cases,
}
use rampipe.Common.Text.{Text, text_eq, text_beq_iff}
use rampipe.Common.Map.{get, insert, remove, Distinct, get-remove, get-remove_ne, remove-Distinct}
use rampipe.Registry.{Shared, evicted, release, evict, drop_handle}
use rampipe.Registry.Sync.{IsSynced}
use rampipe.Registry.Evict.{drop_handle-IsSynced, evict-IsSynced, evict_outcome}
use rampipe.Daemon.{
  Session, SharedState, path_for_id, device_bytes, victim_at, victim, evictable, evict_session,
}

-- Each session has its model mapped under its own path and holds a handle of it, and a session that
-- only the map refers to holds the only one. Of a model without a session no handle is held.
pub record IsManaged (st : SharedState) : Type 0 where
  pub synced : IsSynced st.registry
  pub once : Distinct st.sessions
  pub handled :
      (p : Text) (s : Session)
      → get p st.sessions ≡ some s
      → (c : Shared) × (get s.id st.registry.resident ≡ some c)
        × (c.inner.path ≡ p)
        × (1 < c.strong_count)
        × ((s.strong_count ≢ 1) ⊎ (c.strong_count ≡ 2))
  pub alive : (p : Text) (s : Session) → get p st.sessions ≡ some s → 1 ≤ s.strong_count
  pub loose :
      (j : ℕ) (c : Shared)
      → get j st.registry.resident ≡ some c
      → get c.inner.path st.sessions ≡ none
      → c.strong_count ≡ 1

path_for_id_lem :
    (m : List (Text × Session)) (id : ℕ) (p : Text)
    → Distinct m
    → path_for_id m id ≡ some p
    → (s : Session) × (get p m ≡ some s) × (s.id ≡ id)
unfolding path_for_id get
path_for_id_lem [] id p d h = absurd (ground arith)
path_for_id_lem ((q, s) ∷ m) id p d h = elim (Bool-cases (s.id == id)) [
  | inl y ↦
      let same : q ≡ p = ground arith in
      (s, ground (arith, (text_beq_iff q p).1 same), ground arith)
  | inr n ↦ later (path_for_id_lem m id p d.1 (ground arith))
]
  where
    later :
        ((t : Session) × (get p m ≡ some t) × (t.id ≡ id))
        → (t : Session) × (get p ((q, s) ∷ m) ≡ some t) × (t.id ≡ id)
    later (t, at, e) = (t, ground (arith, (text_beq_iff q p).0, ap (λ x. get x m)), e)

-- A session that may go: nobody but the map refers to it.
abbrev pub IsIdle : SharedState → ℕ → Text → Type 0
IsIdle st id p = (s : Session) × (get p st.sessions ≡ some s) × (s.id ≡ id) × (s.strong_count ≡ 1)

victim_at_lem :
    (st : SharedState) (only : Bool) (id : ℕ) (p : Text) (o : Option Session) (id' : ℕ) (p' : Text)
    → victim_at st only id p o ≡ some (id', p')
    → (s : Session) × (o ≡ some s) × (s.strong_count ≡ 1) × (id ≡ id') × (p ≡ p')
unfolding victim_at
victim_at_lem st only id p none id' p' h = absurd (ground arith)
victim_at_lem st only id p (some s) id' p' h = elim (Bool-cases (s.strong_count == 1)) [
  | inr n ↦ absurd (ground (arith, rw (n, victim_at) at h))
  | inl y ↦ elim (Bool-cases (only && not (is_some (device_bytes st.registry s)))) [
    | inl skipped ↦ absurd (ground (arith, rw (y, skipped, victim_at) at h))
    | inr taken ↦
        let h' : ◌≡◌ {A = Option (ℕ × Text)} (some (id, p)) (some (id', p')) =
          rw (y, taken, victim_at) at h in
        (s, refl, ground arith, ground arith, ground arith)
  ]
]

victim_lem :
    (st : SharedState) (skip : Text → Bool) (only : Bool) (id id' : ℕ) (p : Text)
    → Distinct st.sessions
    → victim st skip only id ≡ some (id', p)
    → IsIdle st id' p × (skip p ≡ false)
unfolding victim
victim_lem st skip only id id' p d h = elim (Option-cases (path_for_id st.sessions id)) [
  | inl e ↦ absurd (ground (arith, rw (e, victim) at h))
  | inr (q, e) ↦ elim (Bool-cases (skip q)) [
    | inl kept ↦ absurd (ground (arith, rw (e, kept, victim) at h))
    | inr free ↦
        found q e free (path_for_id_lem st.sessions id q d e)
          (victim_at_lem st only id q (get q st.sessions) id' p (rw (e, free, victim) at h))
  ]
]
  where
    found :
        (q : Text)
        → path_for_id st.sessions id ≡ some q
        → skip q ≡ false
        → ((s : Session) × (get q st.sessions ≡ some s) × (s.id ≡ id))
        → ((s : Session) × (get q st.sessions ≡ some s)
            × (s.strong_count ≡ 1)
            × (id ≡ id')
            × (q ≡ p))
        → IsIdle st id' p × (skip p ≡ false)
    found q e free (s, at, same) (t, at', one, i, j) =
        let s_t : s ≡ t = ground arith in
        (
          (
            s,
            ap (λ x. get x st.sessions) (sym j) ∙ at,
            same ∙ i,
            ap (λ (x : Session). x.strong_count) s_t ∙ one,
          ),
          ap skip (sym j) ∙ free,
        )

pub evictable_lem :
    (st : SharedState) (skip : Text → Bool) (only : Bool) (ids : List ℕ) (id : ℕ) (p : Text)
    → Distinct st.sessions
    → evictable st skip only ids ≡ some (id, p)
    → IsIdle st id p × (skip p ≡ false)
unfolding evictable
evictable_lem st skip only [] id p d h = absurd (ground arith)
evictable_lem st skip only (i ∷ ids) id p d h = elim (Option-cases (victim st skip only i)) [
  | inl e ↦ evictable_lem st skip only ids id p d (rw (e, evictable) at h)
  | inr ((j, q), e) ↦
      let h' : ◌≡◌ {A = Option (ℕ × Text)} (some (j, q)) (some (id, p)) = rw (e, evictable) at h in
      victim_lem st skip only i id p d (e ∙ h')
]

-- An idle session goes without a refusal, and with it exactly its own entries.
module _ (st : SharedState) (v : IsManaged st) (id : ℕ) (p : Text) (s : Session)
    (here : get p st.sessions ≡ some s) (same : s.id ≡ id) (c : Shared)
    (at : get id st.registry.resident ≡ some c) (named : c.inner.path ≡ p)
    (two : c.strong_count ≡ 2) where
  dropped_at :
      (j : ℕ)
      → get j (drop_handle st.registry id).resident
        ≡ (if id == j then some (release c) else get j st.registry.resident)
  unfolding drop_handle insert get
  dropped_at j = rw (at, drop_handle) (ground (arith, get-remove id j st.registry.resident))

  dropped-IsSynced : IsSynced (drop_handle st.registry id)
  dropped-IsSynced = drop_handle-IsSynced st.registry id c v.synced at (omega arith)

  dropped_here : get id (drop_handle st.registry id).resident ≡ some (release c)
  dropped_here = ground (arith, dropped_at id)

  pub gone :
      ((evict (drop_handle st.registry id) id).1 ≡ evicted)
      × ((j : ℕ)
          → get j (evict (drop_handle st.registry id) id).0.resident
            ≡ (if id == j then none else get j st.registry.resident))
  gone =
      elim (evict_outcome (drop_handle st.registry id) id (release c) dropped-IsSynced
        dropped_here) [
          | inl (held, _) ↦ absurd (omega arith)
          | inr (_, out, _, forgets) ↦ (out, λ j. ground (arith, forgets.0 j, dropped_at j))
        ]

  pub evict_session-IsManaged : IsManaged (evict_session st id p).0
  unfolding evict_session
  evict_session-IsManaged = record {
    synced = evict-IsSynced (drop_handle st.registry id) id dropped-IsSynced;
    once = remove-Distinct p st.sessions v.once;
    handled = λ q t h. others q t h (left q t h);
    alive = λ q t h. v.alive q t (left q t h).1;
    loose = λ j d h no_session.
        let (n, h') = cell_left j d h in
        v.loose j d h' (
          sym (get-remove_ne p d.inner.path st.sessions (λ e. n (one_path j d h' e))) ∙ no_session);
  }
    where
      cell_left :
          (j : ℕ) (d : Shared)
          → get j (evict (drop_handle st.registry id) id).0.resident ≡ some d
          → (id ≢ j) × (get j st.registry.resident ≡ some d)
      cell_left j d h = ground (arith, gone.1 j)

      one_path :
          (j : ℕ) (d : Shared) → get j st.registry.resident ≡ some d → p ≡ d.inner.path → id ≡ j
      one_path j d h e =
          let here_p = v.synced.indexed id c at in
          let there = v.synced.indexed j d h in
          let both : some id ≡ some j =
            sym here_p ∙ (ap (λ x. get x st.registry.by_path) (named ∙ e) ∙ there) in
          ground (arith, both)

      left :
          (q : Text) (t : Session)
          → get q (remove p st.sessions) ≡ some t
          → (p ≢ q) × (get q st.sessions ≡ some t)
      left q t h = ground (arith, get-remove p q st.sessions, text_beq_iff p q)

      others :
          (q : Text) (t : Session)
          → get q (remove p st.sessions) ≡ some t
          → ((p ≢ q) × (get q st.sessions ≡ some t))
          → (d : Shared) × (get t.id (evict (drop_handle st.registry id) id).0.resident ≡ some d)
            × (d.inner.path ≡ q)
            × (1 < d.strong_count)
            × ((t.strong_count ≢ 1) ⊎ (d.strong_count ≡ 2))
      others q t h (n, h') =
          let (d, found, path, held, only) = v.handled q t h' in
          let apart : id ≢ t.id =
            λ e. n (sym named ∙ ap (λ (x : Shared). x.inner.path) (shared d e found) ∙ path) in
          (d, ground (arith, gone.1 t.id), path, held, only)
        where
          shared : (d : Shared) → id ≡ t.id → get t.id st.registry.resident ≡ some d → c ≡ d
          shared d e found = ground (arith, ap (λ j. get j st.registry.resident) e)
