-- ===== src/Registry/Effect.antt =====
-- lib.rs: what `load` does to the cells of the table.
use rampipe.Common.{
  ℕ, ◌≡◌, ◌≢◌, refl, ◌⊎◌, inl, inr, List, Option, none, some, arith, length, take, ltb, ◌==◌,
  Bool-cases, Option-cases, nat_eq,
}
use rampipe.Common.Text.{Text, text_eq}
use rampipe.Common.Map.{get, get-insert_self, get-insert_ne}
use rampipe.Registry.{
  Host, RegistryState, Shared, Residency, Loaded, loaded, failed, LoadError, load, dispatch, hit,
  fresh, admit, new_cell, retain, gguf_magic,
}
use rampipe.Registry.Sync.{IsSynced}

-- The cell that was handed out: a new one, or the one that was there with a reference more.
abbrev pub Grows : RegistryState → Text → ℕ → Shared → Type 0
Grows st path id c =
    ((get id st.resident ≡ none) × (c.strong_count ≡ 2))
    ⊎ ((d : Shared) × (get id st.resident ≡ some d) × (d.inner.path ≡ path) × (c ≡ retain d))

-- A model is handed out and the other cells stay, or `load` fails and all stays.
abbrev pub Hands : RegistryState → Text → RegistryState × Loaded → Type 0
Hands st path (st', answer) =
    ((id : ℕ) × (c : Shared) × (answer ≡ loaded id)
      × (get id st'.resident ≡ some c)
      × (c.inner.path ≡ path)
      × ((j : ℕ) → id ≢ j → get j st'.resident ≡ get j st.resident)
      × Grows st path id c)
    ⊎ ((e : LoadError) × (answer ≡ failed e) × (st' ≡ st))

module _ (host : Host) (st : RegistryState) (v : IsSynced st) (path : Text)
    (residency : Residency) where
  hit-Hands :
      (id : ℕ) (d : Shared)
      → get id st.resident ≡ some d
      → d.inner.path ≡ path
      → Hands st path (hit host st id (some d))
  unfolding hit
  hit-Hands id d here e = inl (
    id,
    retain d,
    refl,
    get-insert_self id (retain d) st.resident,
    e,
    λ j n. get-insert_ne id j (retain d) st.resident n,
    inr (d, here, e, refl),
  )

  unused : get st.next_id st.resident ≡ none
  unused = elim (Option-cases (get st.next_id st.resident)) [
    | inl e ↦ e
    | inr (c, e) ↦ absurd (omega (arith, v.below st.next_id c e))
  ]

  fresh-Hands : (file : Option (List ℕ)) → Hands st path (fresh host st path residency file)
  unfolding fresh admit
  fresh-Hands none = inr (LoadError.io host.io_error, refl, refl)
  fresh-Hands (some mmap) = elim (Bool-cases (ltb (length mmap) 4)) [
    | inl short ↦ rw short (inr (LoadError.empty, refl, refl))
    | inr long ↦ elim (Bool-cases (take 4 mmap == gguf_magic)) [
      | inl good ↦
          let cell = new_cell host path residency mmap in
          rw (long, good)
            (inl (
              st.next_id,
              cell,
              refl,
              get-insert_self st.next_id cell st.resident,
              refl,
              λ j n. get-insert_ne st.next_id j cell st.resident n,
              inl (unused, refl),
            ))
      | inr bad ↦ rw (long, bad) (inr (LoadError.bad_magic (take 4 mmap), refl, refl))
    ]
  ]

  pub load-Hands : Hands st path (load host st path residency)
  unfolding load dispatch
  load-Hands = elim (Option-cases (get path st.by_path)) [
    | inl unknown ↦ rw (unknown, load) (fresh-Hands (host.file path))
    | inr (id, known) ↦ known_case id known (v.named path id known)
  ]
    where
      known_case :
          (id : ℕ)
          → get path st.by_path ≡ some id
          → (c : Shared) × (get id st.resident ≡ some c) × (c.inner.path ≡ path)
          → Hands st path (load host st path residency)
      known_case id known (c, here, e) = rw (known, load, here) (hit-Hands id c here e)
