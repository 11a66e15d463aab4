-- ===== src/Daemon/Handed.antt =====
-- bin/rampiped.rs: the store after the registry handed out a model: the handle given back, or kept
-- by a new session.
use rampipe.Common.{
  ℕ, ◌+◌, ◌-◌, ◌<◌, ◌≡◌, ◌≢◌, refl, sym, ap, ◌∙◌, ◌⊎◌, inl, inr, none, some, arith, if◌then◌else◌,
  ◌==◌, nat_eq, Bool-cases,
}
use rampipe.Common.Text.{Text, text_eq, text_beq_iff}
use rampipe.Common.Map.{get, insert, get-insert, insert-Distinct}
use rampipe.Registry.{RegistryState, Shared, drop_handle, release, retain}
use rampipe.Registry.Sync.{IsSynced}
use rampipe.Registry.Evict.{drop_handle-IsSynced}
use rampipe.Registry.Effect.{Grows}
use rampipe.Daemon.{Session, SharedState}
use rampipe.Daemon.Eviction.{IsManaged}

-- A model was handed out to a store whose sessions and registry agree.
module _ (st : SharedState) (v : IsManaged st) (path : Text) (r : RegistryState) (s : IsSynced r)
    (id : ℕ) (c : Shared) (here : get id r.resident ≡ some c) (named : c.inner.path ≡ path)
    (rest : (j : ℕ) → id ≢ j → get j r.resident ≡ get j st.registry.resident)
    (grows : Grows st.registry path id c) where
  held : 1 < c.strong_count
  held = elim grows [
    | inl (new, two) ↦ omega arith
    | inr (d, old, e, more) ↦
        let counted = v.synced.counted id d old in
        omega (arith, ap (λ (x : Shared). x.strong_count) more)
  ]

  dropped_at :
      (j : ℕ)
      → get j (drop_handle r id).resident ≡ (if id == j then some (release c) else get j r.resident)
  unfolding drop_handle
  dropped_at j = rw (here, drop_handle) (get-insert id j (release c) r.resident)

  -- Another model than the one at `path` is another entry.
  apart : (j : ℕ) (d : Shared) → get j st.registry.resident ≡ some d → d.inner.path ≢ path → id ≢ j
  apart j d h n e = elim grows [
    | inl (new, two) ↦ absurd (ground (arith, ap (λ x. get x st.registry.resident) e))
    | inr (d', old, e', more) ↦
        let same : d ≡ d' = ground (arith, ap (λ x. get x st.registry.resident) e) in
        n (ap (λ (x : Shared). x.inner.path) same ∙ e')
  ]

  release-retain : (d : Shared) → release (retain d) ≡ d
  release-retain d =
      ap (λ n. record d { strong_count = n })
        (let e : d.strong_count + 1 - 1 ≡ d.strong_count = omega arith in e)

  returned :
      (j : ℕ) (d : Shared)
      → get j st.registry.resident ≡ some d
      → get j (drop_handle r id).resident ≡ some d
  returned j d h = elim (Bool-cases (id == j)) [
    | inr n ↦ dropped_at j ∙ (rw n (rest j (ground arith) ∙ h))
    | inl y ↦ elim grows [
      | inl (new, two) ↦ absurd (ground arith)
      | inr (d', old, e, more) ↦
          let same : d' ≡ d = ground arith in
          dropped_at j
          ∙ rw y (ap (λ x. some (release x)) more ∙ (ap some (release-retain d') ∙ ap some same))
    ]
  ]

  -- After the handle is given back, a cell is an old one or nobody holds it.
  after_return :
      (j : ℕ) (d : Shared)
      → get j (drop_handle r id).resident ≡ some d
      → (get j st.registry.resident ≡ some d) ⊎ (d.strong_count ≡ 1)
  after_return j d h = elim (Bool-cases (id == j)) [
    | inr n ↦
        let kept : get j (drop_handle r id).resident ≡ get j r.resident =
          dropped_at j ∙ rw n refl in
        inl (sym (rest j (ground arith)) ∙ (sym kept ∙ h))
    | inl y ↦ elim grows [
      | inl (new, two) ↦
          let is : release c ≡ d = ground (arith, dropped_at j) in
          inr (sym (ap (λ (x : Shared). x.strong_count) is) ∙ omega arith)
      | inr (d', old, e, more) ↦
          let is : release c ≡ d = ground (arith, dropped_at j) in
          let same : d' ≡ d = sym (release-retain d') ∙ (ap release (sym more) ∙ is) in
          inl (ground (arith, ap some same))
    ]
  ]

  pub returned-IsManaged : IsManaged (record st { registry = drop_handle r id })
  returned-IsManaged = record {
    synced = drop_handle-IsSynced r id c s here held;
    once = v.once;
    handled = λ p t h.
        let (d, at, e, many, only) = v.handled p t h in (d, returned t.id d at, e, many, only);
    alive = v.alive;
    loose = λ j d h n. elim (after_return j d h) [ inl old ↦ v.loose j d old n | inr one ↦ one ];
  }

  module _ (absent : get path st.sessions ≡ none) where
    pub two : c.strong_count ≡ 2
    two = elim grows [
      | inl (new, e) ↦ e
      | inr (d, old, e, more) ↦
          let one = v.loose id d old (ap (λ x. get x st.sessions) e ∙ absent) in
          omega (arith, ap (λ (x : Shared). x.strong_count) more)
    ]

    abbrev opened : Session
    opened = record { id = id; strong_count = 1 }

    session_at :
        (p : Text) (t : Session)
        → get p (insert path opened st.sessions) ≡ some t
        → ((path ≡ p) × (opened ≡ t)) ⊎ ((path ≢ p) × (get p st.sessions ≡ some t))
    session_at p t h = elim (Bool-cases (path == p)) [
      | inl y ↦
          inl ((text_beq_iff path p).0 y, ground (arith, get-insert path p opened st.sessions))
      | inr n ↦ inr (
        λ e. absurd (ground (arith, (text_beq_iff path p).1 e)),
        ground (arith, get-insert path p opened st.sessions),
      )
    ]

    no_session_at :
        (p : Text)
        → get p (insert path opened st.sessions) ≡ none
        → (path ≢ p) × (get p st.sessions ≡ none)
    no_session_at p h = elim (Bool-cases (path == p)) [
      | inl y ↦ absurd (ground (arith, get-insert path p opened st.sessions))
      | inr n ↦ (
        λ e. absurd (ground (arith, (text_beq_iff path p).1 e)),
        ground (arith, get-insert path p opened st.sessions),
      )
    ]

    -- The session is stored, over a table whose cell for it was measured.
    module _ (c' : Shared) (r' : RegistryState) (named' : c'.inner.path ≡ path)
        (two' : c'.strong_count ≡ 2) (s' : IsSynced r')
        (cells : (j : ℕ)
          → get j r'.resident ≡ (if id == j then some c' else get j r.resident)) where
      mine : get id r'.resident ≡ some c'
      mine = ground (arith, cells id)

      others : (j : ℕ) → id ≢ j → get j r'.resident ≡ get j st.registry.resident
      others j n = ground (arith, cells j, rest j n)

      pub opened-IsManaged :
          IsManaged (record st { registry = r'; sessions = insert path opened st.sessions })
      opened-IsManaged = record {
        synced = s';
        once = insert-Distinct path opened st.sessions v.once;
        handled = λ p t h. elim (session_at p t h) [
          | inl (e, same) ↦ (
            c',
            ap (λ (x : Session). get x.id r'.resident) (sym same) ∙ mine,
            named' ∙ e,
            omega arith,
            inr two',
          )
          | inr (n, old) ↦
              let (d, at, e, many, only) = v.handled p t old in
              (d, others t.id (apart t.id d at (λ q. n (sym q ∙ e))) ∙ at, e, many, only)
        ];
        alive = λ p t h. elim (session_at p t h) [
          | inl (e, same) ↦ omega (arith, ap (λ (x : Session). x.strong_count) same)
          | inr (n, old) ↦ v.alive p t old
        ];
        loose = λ j d h none_there.
            let (n, none_before) = no_session_at d.inner.path none_there in
            elim (Bool-cases (id == j)) [
              | inl y ↦
                  let is : c' ≡ d = ground (arith, cells j) in
                  absurd (n (sym named' ∙ ap (λ (x : Shared). x.inner.path) is))
              | inr apart_j ↦ v.loose j d (sym (others j (ground arith)) ∙ h) none_before
            ];
      }
