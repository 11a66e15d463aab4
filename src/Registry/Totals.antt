-- ===== src/Registry/Totals.antt =====
-- lib.rs: `mapped_bytes` under `load` and `evict`, and the second `load` of a path.
use rampipe.Common.{
  ℕ, suc, ◌+◌, ◌-◌, ◌%◌, length, unwrap_or, ap, ◌∙◌, ◌≡◌, refl, inl, inr, List, [], ◌∷◌, none, some,
  arith, ltb, Bool-cases, nat_eq,
}
use rampipe.Common.Text.{Text, text_eq}
use rampipe.Common.Map.{get, insert, remove, Distinct, get-insert_self}
use rampipe.Registry.{
  Host, RegistryState, Shared, loaded, Residency, load, dispatch, hit, evict, evicted, unlink,
  retain, total, mapped_bytes, device_resident_bytes, resident_count, u64_mod, mapped_len,
  device_len,
}
use rampipe.Registry.Sync.{IsSynced}

absent-total :
    (f : Shared → ℕ) (id : ℕ) (m : List (ℕ × Shared))
    → get id m ≡ none
    → total f (remove id m) ≡ total f m
unfolding total get remove
absent-total f id [] h = refl
absent-total f id ((j, c) ∷ m) h = ground (arith, absent-total f id m)

pub total-remove :
    (f : Shared → ℕ) (id : ℕ) (c : Shared) (m : List (ℕ × Shared))
    → Distinct m
    → get id m ≡ some c
    → total f m ≡ f c + total f (remove id m)
unfolding total get remove
total-remove f id c [] d h = absurd (ground arith)
total-remove f id c ((j, e) ∷ m) d h =
    ground (arith, total-remove f id c m d.1, absent-total f id m)

length-remove_absent :
    (id : ℕ) (m : List (ℕ × Shared)) → get id m ≡ none → length (remove id m) ≡ length m
unfolding get remove
length-remove_absent id [] h = refl
length-remove_absent id ((j, c) ∷ m) h = ground (arith, length-remove_absent id m)

length-remove_one :
    (id : ℕ) (c : Shared) (m : List (ℕ × Shared))
    → Distinct m
    → get id m ≡ some c
    → length m ≡ suc (length (remove id m))
unfolding get remove
length-remove_one id c [] d h = absurd (ground arith)
length-remove_one id c ((j, e) ∷ m) d h =
    ground (arith, length-remove_one id c m d.1, length-remove_absent id m)

total-insert :
    (f : Shared → ℕ) (id : ℕ) (c c' : Shared) (m : List (ℕ × Shared))
    → Distinct m
    → get id m ≡ some c
    → f c' ≡ f c
    → total f (insert id c' m) ≡ total f m
unfolding total insert
total-insert f id c c' m d h e = omega (arith, total-remove f id c m d h)

-- In a registry whose maps agree, a second `load` of a path answers with the same id, adds one
-- reference, and leaves the paths, the next id and the mapped bytes as they were.
pub load_known :
    (host : Host) (st : RegistryState) (path : Text) (residency : Residency) (id : ℕ) (c : Shared)
    → IsSynced st
    → get path st.by_path ≡ some id
    → get id st.resident ≡ some c
    → let (st', answer) = load host st path residency in
      (answer ≡ loaded id)
      × (get id st'.resident ≡ some (retain c))
      × (st'.by_path ≡ st.by_path)
      × (st'.next_id ≡ st.next_id)
      × (total mapped_len st'.resident ≡ total mapped_len st.resident)
unfolding load dispatch hit
load_known host st path residency id c v known here =
    rw (known, load, here)
      (
        refl,
        get-insert_self id (retain c) st.resident,
        refl,
        refl,
        total-insert mapped_len id c (retain c) st.resident v.once here refl,
      )

wrapped_sum : (a b : ℕ) → (a + b) % u64_mod ≡ (a + b % u64_mod) % u64_mod
wrapped_sum a b = omega arith

-- In a registry whose maps agree, a successful `evict` takes from what `mapped_bytes` and
-- `device_resident_bytes` answer exactly the bytes of the model, up to their 64 bits, and one
-- from `resident_count`.
pub evict-total :
    (st : RegistryState) (id : ℕ) (c : Shared)
    → IsSynced st
    → get id st.resident ≡ some c
    → (evict st id).1 ≡ evicted
    → let st' = (evict st id).0 in
      (mapped_bytes st ≡ (length c.inner.mmap + mapped_bytes st') % u64_mod)
      × (device_resident_bytes st
          ≡ (unwrap_or c.inner.device_bytes 0 + device_resident_bytes st') % u64_mod)
      × (resident_count st ≡ suc (resident_count st'))
unfolding evict unlink mapped_bytes device_resident_bytes resident_count
evict-total st id c v here h = elim (Bool-cases (ltb 0 (c.strong_count - 1))) [
  | inl held ↦ absurd (ground (arith, (rw (here, evict, held) at h)))
  | inr free ↦
      let rest = remove id st.resident in
      rw (here, evict, free)
        (
          ap (λ n. n % u64_mod) (total-remove mapped_len id c st.resident v.once here)
              ∙ wrapped_sum (mapped_len c) (total mapped_len rest),
          ap (λ n. n % u64_mod) (total-remove device_len id c st.resident v.once here)
              ∙ wrapped_sum (device_len c) (total device_len rest),
          length-remove_one id c st.resident v.once here,
        )
]
