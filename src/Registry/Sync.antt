-- ===== src/Registry/Sync.antt =====
-- lib.rs: `SwapRegistry::load` and what the three maps of the registry say of one another.
use rampipe.Common.{
  ℕ, ◌+◌, ◌≤◌, ◌<◌, ◌≡◌, ◌≢◌, refl, ap, ◌∙◌, ◌⊎◌, inl, inr, List, Option, none, some, arith, length,
  take, ltb, ◌==◌, is_some, Bool-cases, Option-cases, nat_eq,
}
use rampipe.Common.Text.{Text, text_eq, text_beq_iff}
use rampipe.Common.Map.{
  get, insert, Distinct, insert-Distinct, get-insert, get-insert_self, get-insert_ne,
}
use rampipe.Registry.{
  Host, RegistryState, Shared, desync, Residency, new, load, dispatch, hit, fresh, admit, new_cell,
  retain, u64_mod, gguf_magic,
}

-- What the maps say of one another.
pub record IsSynced (st : RegistryState) : Type 0 where
  pub named :
      (p : Text) (id : ℕ)
      → get p st.by_path ≡ some id
      → (c : Shared) × (get id st.resident ≡ some c) × (c.inner.path ≡ p)
  pub indexed :
      (id : ℕ) (c : Shared) → get id st.resident ≡ some c → get c.inner.path st.by_path ≡ some id
  pub stamped : (id : ℕ) → is_some (get id st.last_accessed) ≡ is_some (get id st.resident)
  pub below : (id : ℕ) (c : Shared) → get id st.resident ≡ some c → id < st.next_id
  pub counted : (id : ℕ) (c : Shared) → get id st.resident ≡ some c → 1 ≤ c.strong_count
  pub once : Distinct st.resident
  pub once_stamped : Distinct st.last_accessed

pub new-IsSynced : IsSynced new
unfolding new get
new-IsSynced = record {
  named = λ p id h. absurd (ground arith);
  indexed = λ id c h. absurd (ground arith);
  stamped = λ id. refl;
  below = λ id c h. absurd (ground arith);
  counted = λ id c h. absurd (ground arith);
  once = tt;
  once_stamped = tt;
}

-- A cell is replaced by one of the same path.
module _ (st : RegistryState) (v : IsSynced st) (id : ℕ) (cell new_cell : Shared)
    (here : get id st.resident ≡ some cell) (same : new_cell.inner.path ≡ cell.inner.path)
    (kept : 1 ≤ new_cell.strong_count) where
  found :
      (j : ℕ) (c : Shared)
      → get j (insert id new_cell st.resident) ≡ some c
      → ((id ≡ j) × (c ≡ new_cell)) ⊎ ((id ≢ j) × (get j st.resident ≡ some c))
  found j c h = ground (arith, get-insert id j new_cell st.resident)

  pub put-IsSynced : IsSynced (record st { resident = insert id new_cell st.resident })
  put-IsSynced = record {
    named = λ p j h. named_at p j (v.named p j h);
    indexed = λ j c h. elim (found j c h) [
      | inl (e, e') ↦ rw (e', same, ← e) (v.indexed id cell here)
      | inr (n, h') ↦ v.indexed j c h'
    ];
    stamped = λ j. ground (arith, get-insert id j new_cell st.resident, v.stamped j, here);
    below = λ j c h. elim (found j c h) [
      | inl (e, e') ↦ rw (← e) (v.below id cell here)
      | inr (n, h') ↦ v.below j c h'
    ];
    counted =
        λ j c h. elim (found j c h) [ inl (e, e') ↦ rw e' kept | inr (n, h') ↦ v.counted j c h' ];
    once = insert-Distinct id new_cell st.resident v.once;
    once_stamped = v.once_stamped;
  }
    where
      named_at :
          (p : Text) (j : ℕ)
          → ((c : Shared) × (get j st.resident ≡ some c) × (c.inner.path ≡ p))
          → (c : Shared) × (get j (insert id new_cell st.resident) ≡ some c) × (c.inner.path ≡ p)
      named_at p j (c, at, e) = elim (Bool-cases (id == j)) [
        | inl y ↦ (new_cell, ground (arith, get-insert id j new_cell st.resident), ground arith)
        | inr n ↦ (c, ground (arith, get-insert id j new_cell st.resident), e)
      ]

module _ (st : RegistryState) (v : IsSynced st) (id : ℕ) (cell : Shared) where
  -- An access of a model that is there.
  pub touch-IsSynced :
      (now : ℕ)
      → get id st.resident ≡ some cell
      → IsSynced (record st { last_accessed = insert id now st.last_accessed })
  touch-IsSynced now here = record {
    named = v.named;
    indexed = v.indexed;
    stamped = λ j. ground (arith, get-insert id j now st.last_accessed, v.stamped j, here);
    below = v.below;
    counted = v.counted;
    once = v.once;
    once_stamped = insert-Distinct id now st.last_accessed v.once_stamped;
  }

hit-IsSynced :
    (host : Host) (st : RegistryState) (id : ℕ) (cell : Shared)
    → IsSynced st
    → get id st.resident ≡ some cell
    → IsSynced (hit host st id (some cell)).0
unfolding hit
hit-IsSynced host st id cell v here =
    touch-IsSynced (record st { resident = insert id (retain cell) st.resident })
      (put-IsSynced st v id cell (retain cell) here refl (omega arith)) id (retain cell) host.now
      (get-insert_self id (retain cell) st.resident)

module _ (host : Host) (st : RegistryState) (v : IsSynced st) (path : Text) (residency : Residency)
    (mmap : List ℕ) (room : st.next_id + 1 < u64_mod) (unknown : get path st.by_path ≡ none) where
  abbrev cell_of : Shared
  cell_of = new_cell host path residency mmap

  admitted :
      (j : ℕ) (c : Shared)
      → get j (insert st.next_id cell_of st.resident) ≡ some c
      → ((st.next_id ≡ j) × (c ≡ cell_of)) ⊎ ((st.next_id ≢ j) × (get j st.resident ≡ some c))
  admitted j c h = ground (arith, get-insert st.next_id j cell_of st.resident)

  named_at :
      (p : Text) (j : ℕ)
      → get p (insert path st.next_id st.by_path) ≡ some j
      → (c : Shared) × (get j (insert st.next_id cell_of st.resident) ≡ some c) × (c.inner.path ≡ p)
  named_at p j h = elim (Bool-cases (path == p)) [
    | inl y ↦ (
      cell_of,
      ground (
        arith,
        get-insert path p st.next_id st.by_path,
        get-insert st.next_id j cell_of st.resident,
      ),
      (text_beq_iff path p).0 y,
    )
    | inr n ↦ old (v.named p j (ground (arith, get-insert path p st.next_id st.by_path)))
  ]
    where
      old :
          (c : Shared) × (get j st.resident ≡ some c) × (c.inner.path ≡ p)
          → (c : Shared) × (get j (insert st.next_id cell_of st.resident) ≡ some c)
            × (c.inner.path ≡ p)
      old (c, at, e) =
          (c, ground (arith, get-insert st.next_id j cell_of st.resident, v.below j c at), e)

  indexed_at :
      (j : ℕ) (c : Shared)
      → get j (insert st.next_id cell_of st.resident) ≡ some c
      → get c.inner.path (insert path st.next_id st.by_path) ≡ some j
  indexed_at j c h = elim (admitted j c h) [
    | inl (e, e') ↦ rw (e', ← e) (get-insert_self path st.next_id st.by_path)
    | inr (n, at) ↦
        let known = v.indexed j c at in
        get-insert_ne path c.inner.path st.next_id st.by_path
          (λ e. cc (ap (λ q. get q st.by_path) e))
        ∙ known
  ]

  admit-IsSynced : IsSynced (admit host st path residency mmap)
  unfolding admit
  admit-IsSynced = record {
    named = named_at;
    indexed = indexed_at;
    stamped = λ j. ground (
      arith,
      get-insert st.next_id j cell_of st.resident,
      get-insert st.next_id j host.now st.last_accessed,
      v.stamped j,
    );
    below = λ j c h. elim (admitted j c h) [
      | inl (e, e') ↦ omega arith
      | inr (n, at) ↦ omega (arith, v.below j c at)
    ];
    counted = λ j c h. elim (admitted j c h) [
      | inl (e, e') ↦ rw e' (omega arith)
      | inr (n, at) ↦ v.counted j c at
    ];
    once = insert-Distinct st.next_id cell_of st.resident v.once;
    once_stamped = insert-Distinct st.next_id host.now st.last_accessed v.once_stamped;
  }

fresh-IsSynced :
    (host : Host) (st : RegistryState) (path : Text) (residency : Residency)
    (file : Option (List ℕ))
    → IsSynced st
    → st.next_id + 1 < u64_mod
    → get path st.by_path ≡ none
    → IsSynced (fresh host st path residency file).0
unfolding fresh
fresh-IsSynced host st path residency none v room unknown = v
fresh-IsSynced host st path residency (some mmap) v room unknown =
    elim (Bool-cases (ltb (length mmap) 4)) [
      | inl short ↦ rw short v
      | inr long ↦ elim (Bool-cases (take 4 mmap == gguf_magic)) [
        | inl good ↦ rw (long, good) (admit-IsSynced host st v path residency mmap room unknown)
        | inr bad ↦ rw (long, bad) v
      ]
    ]

-- `load` keeps the three maps of the registry in agreement, whatever the file system answers,
-- while the next id is below the largest `u64`.
pub load-IsSynced :
    (host : Host) (st : RegistryState) (path : Text) (residency : Residency)
    → IsSynced st
    → st.next_id + 1 < u64_mod
    → IsSynced (load host st path residency).0
unfolding load dispatch
load-IsSynced host st path residency v room = elim (Option-cases (get path st.by_path)) [
  | inl unknown ↦
      rw (unknown, load) (fresh-IsSynced host st path residency (host.file path) v room unknown)
  | inr (id, known) ↦ known_case id known (v.named path id known)
]
  where
    known_case :
        (id : ℕ)
        → get path st.by_path ≡ some id
        → (c : Shared) × (get id st.resident ≡ some c) × (c.inner.path ≡ path)
        → IsSynced (load host st path residency).0
    known_case id known (c, here, e) = rw (known, load, here) (hit-IsSynced host st id c v here)

fresh-ne-desync :
    (host : Host) (st : RegistryState) (path : Text) (residency : Residency)
    (file : Option (List ℕ))
    → (fresh host st path residency file).1 ≢ desync
unfolding fresh
fresh-ne-desync host st path residency none = ground arith
fresh-ne-desync host st path residency (some mmap) = ground arith

-- In a registry whose maps agree, `load` never meets the `expect` on a path whose model is
-- missing.
pub load-ne-desync :
    (host : Host) (st : RegistryState) (path : Text) (residency : Residency)
    → IsSynced st
    → (load host st path residency).1 ≢ desync
unfolding load dispatch hit
load-ne-desync host st path residency v = elim (Option-cases (get path st.by_path)) [
  | inl unknown ↦ rw (unknown, load) (fresh-ne-desync host st path residency (host.file path))
  | inr (id, known) ↦ known_case id known (v.named path id known)
]
  where
    known_case :
        (id : ℕ)
        → get path st.by_path ≡ some id
        → (c : Shared) × (get id st.resident ≡ some c) × (c.inner.path ≡ path)
        → (load host st path residency).1 ≢ desync
    known_case id known (c, here, e) = rw (known, load, here) (ground arith)
