-- ===== src/Registry/Evict.antt =====
-- lib.rs: `evict` and the handles of a model.
use rampipe.Common.{
  ℕ, suc, ◌-◌, ◌≤◌, ◌<◌, ◌≡◌, ◌≢◌, refl, sym, ap, ◌∙◌, ◌⊎◌, inl, inr, false, List, Option, none,
  some, arith, length, take, if◌then◌else◌, ltb, ◌==◌, Bool-cases, Option-cases, nat_eq,
}
use rampipe.Common.Text.{Text, text_eq, text_beq_iff}
use rampipe.Common.Chain.{some-inj}
use rampipe.Common.Map.{get, remove, get-remove, get-insert_self, get-remove_ne, remove-Distinct}
use rampipe.Registry.{
  Host, RegistryState, Shared, loaded, Residency, load, dispatch, hit, fresh, admit, new_cell,
  evict, evicted, refused, handle_outstanding, unlink, update_cell, clone_handle, drop_handle,
  record_device_bytes, retain, release, with_device_bytes, gguf_magic,
}
use rampipe.Registry.Sync.{IsSynced, put-IsSynced}

module _ (st : RegistryState) (v : IsSynced st) (id : ℕ) (cell : Shared)
    (here : get id st.resident ≡ some cell) where
  abbrev removed : RegistryState
  removed = record st {
    resident = remove id st.resident;
    by_path = remove cell.inner.path st.by_path;
    last_accessed = remove id st.last_accessed;
  }

  other :
      (j : ℕ) (c : Shared)
      → get j (remove id st.resident) ≡ some c
      → (id ≢ j) × (get j st.resident ≡ some c)
  other j c h = ground (arith, get-remove id j st.resident)

  named_at :
      (p : Text) (j : ℕ)
      → get p (remove cell.inner.path st.by_path) ≡ some j
      → (c : Shared) × (get j (remove id st.resident) ≡ some c) × (c.inner.path ≡ p)
  named_at p j h = elim (Bool-cases (cell.inner.path == p)) [
    | inl y ↦ absurd (ground (arith, get-remove cell.inner.path p st.by_path))
    | inr n ↦ old n (v.named p j (ground (arith, get-remove cell.inner.path p st.by_path)))
  ]
    where
      differs :
          (c : Shared)
          → get j st.resident ≡ some c
          → c.inner.path ≡ p
          → (cell.inner.path == p) ≡ false
          → id ≢ j
      differs c at e n same = ground (arith, (text_beq_iff cell.inner.path p).1)

      old :
          (cell.inner.path == p) ≡ false
          → ((c : Shared) × (get j st.resident ≡ some c) × (c.inner.path ≡ p))
          → (c : Shared) × (get j (remove id st.resident) ≡ some c) × (c.inner.path ≡ p)
      old n (c, at, e) = (c, get-remove_ne id j st.resident (differs c at e n) ∙ at, e)

  indexed_at :
      (j : ℕ) (c : Shared)
      → get j (remove id st.resident) ≡ some c
      → get c.inner.path (remove cell.inner.path st.by_path) ≡ some j
  indexed_at j c h =
      let (n, at) = other j c h in
      let known = v.indexed j c at in
      let gone = v.indexed id cell here in
      get-remove_ne cell.inner.path c.inner.path st.by_path
        (λ e. n (ground (arith, ap (λ q. get q st.by_path) e)))
      ∙ known

  removed-IsSynced : IsSynced removed
  removed-IsSynced = record {
    named = named_at;
    indexed = indexed_at;
    stamped = λ j.
        ground (arith, get-remove id j st.resident, get-remove id j st.last_accessed, v.stamped j);
    below = λ j c h. v.below j c (other j c h).1;
    counted = λ j c h. v.counted j c (other j c h).1;
    once = remove-Distinct id st.resident v.once;
    once_stamped = remove-Distinct id st.last_accessed v.once_stamped;
  }

-- `evict` keeps the maps of the registry in agreement, whether it succeeds or not.
pub evict-IsSynced : (st : RegistryState) (id : ℕ) → IsSynced st → IsSynced (evict st id).0
unfolding evict unlink
evict-IsSynced st id v = elim (Option-cases (get id st.resident)) [
  | inl e ↦ rw (e, evict) v
  | inr (cell, e) ↦ elim (Bool-cases (ltb 0 (cell.strong_count - 1))) [
    | inl held ↦ rw (e, evict, held) v
    | inr free ↦ rw (e, evict, free) (removed-IsSynced st v id cell e)
  ]
]

-- The state without the model `id` at `path`, and with all that it has of any other.
abbrev pub Forgets : RegistryState → ℕ → Text → RegistryState → Type 0
Forgets st id path st' =
    ((j : ℕ) → get j st'.resident ≡ (if id == j then none else get j st.resident))
    × ((p : Text) → get p st'.by_path ≡ (if path == p then none else get p st.by_path))
    × ((j : ℕ) → get j st'.last_accessed ≡ (if id == j then none else get j st.last_accessed))
    × (st'.next_id ≡ st.next_id)
    × ((j : ℕ) (other : Shared)
        → id ≢ j
        → get j st.resident ≡ some other
        → get other.inner.path st'.by_path ≡ some j)

removed-Forgets :
    (st : RegistryState) (id : ℕ) (cell : Shared)
    → IsSynced st
    → get id st.resident ≡ some cell
    → Forgets st id cell.inner.path (record st {
      resident = remove id st.resident;
      by_path = remove cell.inner.path st.by_path;
      last_accessed = remove id st.last_accessed;
    })
removed-Forgets st id cell v e = (
  λ j. get-remove id j st.resident,
  λ p. get-remove cell.inner.path p st.by_path,
  λ j. get-remove id j st.last_accessed,
  refl,
  λ j other n there.
      get-remove_ne cell.inner.path other.inner.path st.by_path (λ same.
        let here = ap (λ p. get p st.by_path) same in
        n (some-inj (sym (v.indexed id cell e) ∙ (here ∙ v.indexed j other there))))
      ∙ v.indexed j other there,
)

-- In a registry whose maps agree, `evict` of a resident model either refuses it with the number
-- of handles and changes nothing, exactly when there are handles, or takes its entries out of the
-- three maps, which agree again, and leaves what they have of every other model, its id under its
-- path included, and the next id.
pub evict_outcome :
    (st : RegistryState) (id : ℕ) (cell : Shared)
    → IsSynced st
    → get id st.resident ≡ some cell
    → ((1 < cell.strong_count)
        × (evict st id ≡ (st, refused (handle_outstanding (cell.strong_count - 1)))))
      ⊎ ((cell.strong_count ≡ 1)
          × ((evict st id).1 ≡ evicted)
          × IsSynced (evict st id).0
          × Forgets st id cell.inner.path (evict st id).0)
unfolding evict unlink
evict_outcome st id cell v e = elim (Bool-cases (ltb 0 (cell.strong_count - 1))) [
  | inl held ↦ inl (ground arith, rw (e, evict, held))
  | inr free ↦
      let kept = removed-Forgets st id cell v e in
      let agree = removed-IsSynced st v id cell e in
      inr (
        ground (arith, v.counted id cell e),
        rw (e, evict, free),
        rw (e, evict, free) agree,
        rw (e, evict, free) kept,
      )
]

module _ (st : RegistryState) (v : IsSynced st) (id : ℕ) (f : Shared → Shared)
    (same : (c : Shared) → (f c).inner.path ≡ c.inner.path)
    (kept : (c : Shared) → get id st.resident ≡ some c → 1 ≤ (f c).strong_count) where
  update_cell-IsSynced : IsSynced (update_cell st id f (get id st.resident))
  unfolding update_cell
  update_cell-IsSynced = elim (Option-cases (get id st.resident)) [
    | inl e ↦ rw (e, update_cell) v
    | inr (c, e) ↦ rw (e, update_cell) (put-IsSynced st v id c (f c) e (same c) (kept c e))
  ]

-- `record_device_bytes` and the clone of a handle keep the maps in agreement.
pub clone_handle-IsSynced :
    (st : RegistryState) (id bytes : ℕ)
    → IsSynced st
    → IsSynced (record_device_bytes st id bytes) × IsSynced (clone_handle st id)
unfolding record_device_bytes clone_handle
clone_handle-IsSynced st id bytes v = (
  update_cell-IsSynced st v id (with_device_bytes bytes) (λ c. refl) (λ c h. v.counted id c h),
  update_cell-IsSynced st v id retain (λ c. refl) (λ c h. omega arith),
)

-- The drop of a handle that is held keeps the maps in agreement.
pub drop_handle-IsSynced :
    (st : RegistryState) (id : ℕ) (cell : Shared)
    → IsSynced st
    → get id st.resident ≡ some cell
    → 1 < cell.strong_count
    → IsSynced (drop_handle st id)
unfolding drop_handle
drop_handle-IsSynced st id cell v e held =
    update_cell-IsSynced st v id release (λ c. refl) (λ c h. ground arith)

-- The entry that `load` answers with is held by the caller.
hit_held :
    (host : Host) (st : RegistryState) (id : ℕ) (cell : Shared)
    → 1 ≤ cell.strong_count
    → get id (hit host st id (some cell)).0.resident ≡ some (retain cell)
unfolding hit
hit_held host st id cell h = get-insert_self id (retain cell) st.resident

evict_held :
    (st : RegistryState) (id : ℕ) (cell : Shared)
    → get id st.resident ≡ some cell
    → 1 < cell.strong_count
    → evict st id ≡ (st, refused (handle_outstanding (cell.strong_count - 1)))
unfolding evict unlink
evict_held st id cell e h = rw (e, evict) (ground arith)

abbrev pub IsHeld : RegistryState → ℕ → Type 0
IsHeld st id = (c : Shared) × (get id st.resident ≡ some c) × (1 < c.strong_count)

fresh-IsHeld :
    (host : Host) (st : RegistryState) (path : Text) (residency : Residency)
    (file : Option (List ℕ)) {id : ℕ}
    → (fresh host st path residency file).1 ≡ loaded id
    → IsHeld (fresh host st path residency file).0 id
unfolding fresh admit
fresh-IsHeld host st path residency none h = absurd (ground arith)
fresh-IsHeld host st path residency (some mmap) {id} h = elim (Bool-cases (ltb (length mmap) 4)) [
  | inl short ↦ absurd (ground arith)
  | inr long ↦ elim (Bool-cases (take 4 mmap == gguf_magic)) [
    | inl good ↦
        let e : st.next_id ≡ id = ground arith in
        rw (long, good)
          (
            new_cell host path residency mmap,
            rw e (get-insert_self id (new_cell host path residency mmap) st.resident),
            omega arith,
          )
    | inr bad ↦ absurd (ground arith)
  ]
]

load-IsHeld :
    (host : Host) (st : RegistryState) (path : Text) (residency : Residency) {id : ℕ}
    → IsSynced st
    → (load host st path residency).1 ≡ loaded id
    → IsHeld (load host st path residency).0 id
unfolding load dispatch
load-IsHeld host st path residency {id} v h = elim (Option-cases (get path st.by_path)) [
  | inl unknown ↦
      rw (unknown, load)
        (fresh-IsHeld host st path residency (host.file path) (rw (unknown, load) at h))
  | inr (k, known) ↦ known_case k known (v.named path k known)
]
  where
    known_case :
        (k : ℕ)
        → get path st.by_path ≡ some k
        → (c : Shared) × (get k st.resident ≡ some c) × (c.inner.path ≡ path)
        → IsHeld (load host st path residency).0 id
    known_case k known (c, here, e) =
        let answered = rw (known, load, here) at h in
        let same : k ≡ id = ground (arith, answered) in
        rw (known, load, here)
          (
            retain c,
            rw (← same) (hit_held host st k c (v.counted k c here)),
            omega (arith, v.counted k c here),
          )

-- In a registry whose maps agree, a model that `load` has just handed out is refused by `evict`,
-- with at least one handle outstanding, and the refusal changes nothing.
pub evict-load :
    (host : Host) (st : RegistryState) (path : Text) (residency : Residency) {id : ℕ}
    → IsSynced st
    → (load host st path residency).1 ≡ loaded id
    → (n : ℕ) × (evict (load host st path residency).0 id
        ≡ ((load host st path residency).0, refused (handle_outstanding (suc n))))
evict-load host st path residency {id} v h =
    let (c, here, held) = load-IsHeld host st path residency v h in
    let e : c.strong_count - 1 ≡ suc (c.strong_count - 2) = omega arith in
    (c.strong_count - 2, rw (← e) (evict_held _ id c here held))
