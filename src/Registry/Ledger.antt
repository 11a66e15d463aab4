-- ===== src/Registry/Ledger.antt =====
-- lib.rs: what a registry promises, without ids, cells and times: which paths are mapped, and how
-- many handles are held of each.
use rampipe.Common.{
  ==-refl, ℕ, zero, suc, ◌+◌, ◌-◌, ◌≡◌, ◌≢◌, refl, ap, sym, subst, ◌∙◌, ◌⊎◌, inl, inr, false, List,
  Option, none, some, arith, length, take, if◌then◌else◌, ltb, ◌==◌, unwrap_or, Bool-cases,
  Option-cases, nat_eq,
}
use rampipe.Common.Text.{Text, text_eq, text_beq_iff}
use rampipe.Common.Map.{
  get, insert, remove, get-insert_self, get-insert_ne, get-remove_ne, get-remove_self,
}
use rampipe.Registry.{
  Host, RegistryState, Shared, Residency, Loaded, loaded, failed, LoadError, Evicted, evicted,
  refused, EvictError, load, dispatch, hit, fresh, admit, new_cell, evict, unlink, clone_handle,
  drop_handle, record_device_bytes, update_cell, retain, release, with_device_bytes, gguf_magic,
}
use rampipe.Registry.Sync.{IsSynced}
use rampipe.Registry.Evict.{IsHeld, drop_handle-IsSynced, evict_outcome}
use rampipe.Registry.Reach.{Reachable, Reachable-IsSynced}

-- The handles that are held of the model of a path, if the path is mapped.
abbrev pub Ledger : Type 0
Ledger = Text → Option ℕ

abbrev pub handles : Option Shared → Option ℕ
handles none = none
handles (some c) = some (c.strong_count - 1)

abbrev pub handles_at : RegistryState → Option ℕ → Option ℕ
handles_at st none = none
handles_at st (some id) = handles (get id st.resident)

-- The ledger of a registry.
unfoldable pub ledger : RegistryState → Ledger
unfolding get
ledger st path = handles_at st (get path st.by_path)

-- One entry of a ledger is written over.
abbrev pub Writes : Ledger → Text → Option ℕ → Ledger → Type 0
Writes l path entry l' = (q : Text) → l' q ≡ (if path == q then entry else l q)

module _ (st : RegistryState) (v : IsSynced st) (id : ℕ) (cell : Shared)
    (here : get id st.resident ≡ some cell) where
  ledger_here : ledger st cell.inner.path ≡ some (cell.strong_count - 1)
  unfolding ledger
  ledger_here = rw (v.indexed id cell here, here)

  differs :
      (q : Text) (j : ℕ) (c : Shared)
      → get j st.resident ≡ some c
      → c.inner.path ≡ q
      → (cell.inner.path == q) ≡ false
      → id ≢ j
  differs q j c at named n same = ground (arith, (text_beq_iff cell.inner.path q).1)

  -- The cell of a path is replaced.
  ledger-put :
      (new_cell : Shared)
      → Writes
          (ledger st)
          cell.inner.path
          (some (new_cell.strong_count - 1))
          (ledger (record st { resident = insert id new_cell st.resident }))
  unfolding ledger
  ledger-put new_cell q = elim (Bool-cases (cell.inner.path == q)) [
    | inl y ↦
        let e = (text_beq_iff cell.inner.path q).0 y in
        rw (y, ← e, v.indexed id cell here, get-insert_self id new_cell st.resident)
    | inr n ↦ elim (Option-cases (get q st.by_path)) [
      | inl e ↦ rw (n, e)
      | inr (j, e) ↦
          let (c, at, named) = v.named q j e in
          rw (n, e, get-insert_ne id j new_cell st.resident (differs q j c at named n))
    ]
  ]

  ledger-removed : Writes (ledger st) cell.inner.path none (
      ledger (record st {
        resident = remove id st.resident;
        by_path = remove cell.inner.path st.by_path;
        last_accessed = remove id st.last_accessed;
      }))
  unfolding ledger
  ledger-removed q = elim (Bool-cases (cell.inner.path == q)) [
    | inl y ↦
        let e = (text_beq_iff cell.inner.path q).0 y in
        rw (y, ← e, get-remove_self cell.inner.path st.by_path)
    | inr n ↦
        let elsewhere =
          get-remove_ne cell.inner.path q st.by_path
            (λ e. cc (n, (text_beq_iff cell.inner.path q).1 e)) in
        elim (Option-cases (get q st.by_path)) [
          | inl e ↦ rw (n, elsewhere, e)
          | inr (j, e) ↦
              let (c, at, named) = v.named q j e in
              rw (n, elsewhere, e, get-remove_ne id j st.resident (differs q j c at named n))
        ]
  ]

-- A call on a cell that is there, which leaves its path.
update_cell-Writes :
    (st : RegistryState) (id : ℕ) (f : Shared → Shared) (cell : Shared)
    → IsSynced st
    → get id st.resident ≡ some cell
    → (st' : RegistryState) → st' ≡ update_cell st id f (get id st.resident)
    → Writes (ledger st) cell.inner.path (some ((f cell).strong_count - 1)) (ledger st')
unfolding update_cell
update_cell-Writes st id f cell v here st' e =
    let e' = e ∙ ap (update_cell st id f) here in rw e' (ledger-put st v id cell here (f cell))

-- Nothing that a ledger shows has changed.
abbrev pub Same : Ledger → Ledger → Type 0
Same l l' = (q : Text) → l' q ≡ l q

-- What a call of `load` on a path comes to.
abbrev pub LoadsAs : RegistryState → Text → RegistryState × Loaded → Type 0
LoadsAs st path (st', answer) =
    ((id : ℕ) × (answer ≡ loaded id)
      × Writes (ledger st) path (some (suc (unwrap_or (ledger st path) 0))) (ledger st'))
    ⊎ ((e : LoadError) × (answer ≡ failed e) × Same (ledger st) (ledger st'))

module _ (host : Host) (st : RegistryState) (v : IsSynced st) (path : Text)
    (residency : Residency) where
  hit-LoadsAs :
      (id : ℕ) (c : Shared)
      → get id st.resident ≡ some c
      → c.inner.path ≡ path
      → LoadsAs st path (hit host st id (some c))
  unfolding hit ledger
  hit-LoadsAs id c here e =
      let entry : c.strong_count + 1 - 1 ≡ suc (unwrap_or (ledger st c.inner.path) 0) =
        rw (ledger_here st v id c here) (omega (arith, v.counted id c here)) in
      let writes =
        subst
          (λ (k : ℕ).
            Writes (ledger st) c.inner.path (some k)
              (ledger (record st { resident = insert id (retain c) st.resident })))
          entry (ledger-put st v id c here (retain c)) in
      inl (
        id,
        refl,
        subst
            (λ (p : Text).
              Writes (ledger st) p (some (suc (unwrap_or (ledger st p) 0)))
                (ledger (record st { resident = insert id (retain c) st.resident })))
            e writes,
      )

  admit-Writes :
      (mmap : List ℕ)
      → get path st.by_path ≡ none
      → Writes
          (ledger st)
          path
          (some (suc (unwrap_or (ledger st path) 0)))
          (ledger (admit host st path residency mmap))
  unfolding admit ledger
  admit-Writes mmap unknown q = elim (Bool-cases (path == q)) [
    | inl y ↦
        let e = (text_beq_iff path q).0 y in
        rw (
          y,
          ← e,
          unknown,
          get-insert_self path st.next_id st.by_path,
          get-insert_self st.next_id (new_cell host path residency mmap) st.resident,
        )
    | inr n ↦
        let elsewhere =
          get-insert_ne path q st.next_id st.by_path (λ e. cc (n, (text_beq_iff path q).1 e)) in
        elim (Option-cases (get q st.by_path)) [
          | inl e ↦ rw (n, elsewhere, e)
          | inr (j, e) ↦
              let (c, at, named) = v.named q j e in
              rw (
                n,
                elsewhere,
                e,
                get-insert_ne st.next_id j (new_cell host path residency mmap) st.resident
                    (λ same. omega (arith, v.below j c at, same)),
              )
        ]
  ]

  fresh-LoadsAs :
      (file : Option (List ℕ))
      → get path st.by_path ≡ none
      → LoadsAs st path (fresh host st path residency file)
  unfolding fresh admit
  fresh-LoadsAs none unknown = inr (LoadError.io host.io_error, refl, λ q. refl)
  fresh-LoadsAs (some mmap) unknown = elim (Bool-cases (ltb (length mmap) 4)) [
    | inl short ↦ rw short (inr (LoadError.empty, refl, λ q. refl))
    | inr long ↦ elim (Bool-cases (take 4 mmap == gguf_magic)) [
      | inl good ↦ rw (long, good) (inl (st.next_id, refl, admit-Writes mmap unknown))
      | inr bad ↦ rw (long, bad) (inr (LoadError.bad_magic (take 4 mmap), refl, λ q. refl))
    ]
  ]

  load-LoadsAs : LoadsAs st path (load host st path residency)
  unfolding load dispatch
  load-LoadsAs = elim (Option-cases (get path st.by_path)) [
    | inl unknown ↦ rw (unknown, load) (fresh-LoadsAs (host.file path) unknown)
    | inr (id, known) ↦ known_case id known (v.named path id known)
  ]
    where
      known_case :
          (id : ℕ)
          → get path st.by_path ≡ some id
          → (c : Shared) × (get id st.resident ≡ some c) × (c.inner.path ≡ path)
          → LoadsAs st path (load host st path residency)
      known_case id known (c, here, e) = rw (known, load, here) (hit-LoadsAs id c here e)

-- What a call of `evict` comes to.
abbrev pub EvictsAs : RegistryState → RegistryState × Evicted → Type 0
EvictsAs st (st', answer) =
    ((path : Text) × (answer ≡ evicted)
      × (ledger st path ≡ some 0)
      × Writes (ledger st) path none (ledger st'))
    ⊎ ((e : EvictError) × (answer ≡ refused e) × Same (ledger st) (ledger st'))

evict-EvictsAs : (st : RegistryState) (id : ℕ) → IsSynced st → EvictsAs st (evict st id)
unfolding evict unlink
evict-EvictsAs st id v = elim (Option-cases (get id st.resident)) [
  | inl e ↦ rw (e, evict) (inr (EvictError.unknown_id id, refl, λ q. refl))
  | inr (cell, e) ↦ elim (Bool-cases (ltb 0 (cell.strong_count - 1))) [
    | inl held ↦
        rw (e, evict, held)
          (inr (EvictError.handle_outstanding (cell.strong_count - 1), refl, λ q. refl))
    | inr free ↦
        rw (e, evict, free)
          (inl (
            cell.inner.path,
            refl,
            ledger_here st v id cell e ∙ ap some (ground arith),
            ledger-removed st v id cell e,
          ))
  ]
]

-- What the clone and the drop of a handle come to.
abbrev pub HandlesAs : RegistryState → ℕ → Type 0
HandlesAs st id =
    (path : Text) × (n : ℕ) × (ledger st path ≡ some (suc n))
    × Writes (ledger st) path (some (n + 2)) (ledger (clone_handle st id))
    × Writes (ledger st) path (some n) (ledger (drop_handle st id))

held-HandlesAs : (st : RegistryState) (id : ℕ) → IsSynced st → IsHeld st id → HandlesAs st id
unfolding clone_handle drop_handle
held-HandlesAs st id v (c, here, held) =
    let writes = λ (f : Shared → Shared) (k : ℕ) (e : (f c).strong_count - 1 ≡ k).
      subst
        (λ (x : ℕ).
          Writes (ledger st) c.inner.path (some x)
            (ledger (update_cell st id f (get id st.resident))))
        e (update_cell-Writes st id f c v here (update_cell st id f (get id st.resident)) refl) in
    (
      c.inner.path,
      c.strong_count - 2,
      ledger_here st v id c here ∙ ap some (omega arith),
      writes retain (c.strong_count - 2 + 2) (omega arith),
      writes release (c.strong_count - 2) (omega arith),
    )

record_device_bytes-Same :
    (st : RegistryState) (id bytes : ℕ)
    → IsSynced st
    → Same (ledger st) (ledger (record_device_bytes st id bytes))
unfolding record_device_bytes update_cell
record_device_bytes-Same st id bytes v q = elim (Option-cases (get id st.resident)) [
  | inl e ↦ rw (e, update_cell) refl
  | inr (c, e) ↦
      update_cell-Writes st id (with_device_bytes bytes) c v e (record_device_bytes st id bytes)
        refl q
      ∙ elim (Bool-cases (c.inner.path == q)) [
        | inl y ↦
            let e' = (text_beq_iff c.inner.path q).0 y in
            rw (y, ← e') (sym (ledger_here st v id c e))
        | inr n ↦ rw n
      ]
]

-- A path that is mapped has a model with its cell.
ledger-some :
    (st : RegistryState) (path : Text) (n : ℕ)
    → IsSynced st
    → ledger st path ≡ some n
    → (id : ℕ) × (c : Shared) × (get id st.resident ≡ some c)
      × (c.inner.path ≡ path)
      × (c.strong_count ≡ suc n)
unfolding ledger
ledger-some st path n v h = elim (Option-cases (get path st.by_path)) [
  | inl e ↦ absurd (ground (arith, rw e at h))
  | inr (id, e) ↦
      let (c, here, named) = v.named path id e in
      let h' : some (c.strong_count - 1) ≡ some n = rw (e, here) at h in
      (id, c, here, named, ground (arith, h', v.counted id c here))
]

-- A model that only the table holds is evicted.
evict_free :
    (st : RegistryState) (id : ℕ) (c : Shared)
    → IsSynced st
    → get id st.resident ≡ some c
    → c.strong_count ≡ 1
    → ((evict st id).1 ≡ evicted) × (ledger (evict st id).0 c.inner.path ≡ none)
unfolding ledger
evict_free st id c v here one = elim (evict_outcome st id c v here) [
  | inl (held, _) ↦ absurd (omega arith)
  | inr (_, done, _, forgets) ↦
      let path = c.inner.path in
      let gone : get path (evict st id).0.by_path ≡ none =
        forgets.1 path ∙ rw (==-refl path) refl in
      (done, rw gone refl)
]

evict-idle :
    (st : RegistryState) (path : Text)
    → IsSynced st
    → ledger st path ≡ some 0
    → (id : ℕ) × ((evict st id).1 ≡ evicted) × (ledger (evict st id).0 path ≡ none)
evict-idle st path v h =
    let (id, c, here, named, one) = ledger-some st path 0 v h in
    let (done, gone) = evict_free st id c v here one in
    (id, done, subst (λ p. ledger (evict st id).0 p ≡ none) named gone)

-- The calls of a registry, as the ledger shows them.
pub record Refines (st : RegistryState) : Type 0 where
  pub loads :
      (host : Host) (path : Text) (residency : Residency)
      → LoadsAs st path (load host st path residency)
  pub evicts : (id : ℕ) → EvictsAs st (evict st id)
  pub idle :
      (path : Text)
      → ledger st path ≡ some 0
      → (id : ℕ) × ((evict st id).1 ≡ evicted) × (ledger (evict st id).0 path ≡ none)
  pub handled : (id : ℕ) → IsHeld st id → HandlesAs st id
  pub recorded : (id bytes : ℕ) → Same (ledger st) (ledger (record_device_bytes st id bytes))

-- On every registry that calls lead to, each call does to the paths and handle counts what their
-- ledger says: `load` takes a handle of its path or fails and changes nothing, `evict` unmaps a
-- path that no handle is held of or refuses and changes nothing, each such path has an id that
-- `evict` accepts, and the clone and drop of a handle count one up and down.
pub Reachable-Refines : (st : RegistryState) → Reachable st → Refines st
Reachable-Refines st r =
    let v = Reachable-IsSynced r in
    record {
      loads = λ host path residency. load-LoadsAs host st v path residency;
      evicts = λ id. evict-EvictsAs st id v;
      idle = λ path h. evict-idle st path v h;
      handled = λ id held. held-HandlesAs st id v held;
      recorded = λ id bytes. record_device_bytes-Same st id bytes v;
    }

-- The handles of a model are dropped, one after the other.
unfoldable pub drop_all : ℕ → RegistryState → ℕ → RegistryState
unfolding drop_handle
drop_all zero st id = st
drop_all (suc n) st id = drop_all n (drop_handle st id) id

drop_all-evict :
    (n : ℕ) (st : RegistryState) (id : ℕ) (c : Shared)
    → IsSynced st
    → get id st.resident ≡ some c
    → c.strong_count ≡ suc n
    → ((evict (drop_all n st id) id).1 ≡ evicted)
      × (ledger (evict (drop_all n st id) id).0 c.inner.path ≡ none)
unfolding drop_all drop_handle update_cell
drop_all-evict zero st id c v here one = evict_free st id c v here one
drop_all-evict (suc n) st id c v here count =
    let e : drop_handle st id ≡ record st { resident = insert id (release c) st.resident } =
      rw (here, update_cell) in
    drop_all-evict n (drop_handle st id) id (release c)
      (drop_handle-IsSynced st id c v here (omega arith))
      (ap (λ s. get id s.resident) e ∙ get-insert_self id (release c) st.resident) (omega arith)

-- On every registry that calls lead to, a mapped path has an id that `evict` accepts, and then
-- the path is unmapped, once as many handles are dropped as are held of it.
pub evict-drop_all :
    (st : RegistryState) (path : Text) (n : ℕ)
    → Reachable st
    → ledger st path ≡ some n
    → (id : ℕ) × ((evict (drop_all n st id) id).1 ≡ evicted)
      × (ledger (evict (drop_all n st id) id).0 path ≡ none)
evict-drop_all st path n r h =
    let v = Reachable-IsSynced r in
    let (id, c, here, named, count) = ledger-some st path n v h in
    let (done, gone) = drop_all-evict n st id c v here count in
    (id, done, subst (λ p. ledger (evict (drop_all n st id) id).0 p ≡ none) named gone)
