-- ===== src/Registry/Recency.antt =====
-- lib.rs: `resident_ids_by_lru`, the order of eviction, and `load`, which stamps the accesses.
use mathlib.Core.List.{Perm}
use mathlib.Core.List.Perm
use rampipe.Common.{
  ℕ, ◌≤◌, ◌<◌, ◌≡◌, refl, ap, inl, inr, List, [], ◌∷◌, ◌++◌, map, Option, none, some, arith, length,
  take, ltb, leb, ◌==◌, Bool-cases, Option-cases, nat_eq, All, leb→le,
}
use rampipe.Common.Text.{Text, text_eq}
use rampipe.Common.Map.{get, insert, remove}
use rampipe.Registry.{
  Host, RegistryState, Shared, loaded, Residency, load, dispatch, hit, fresh, admit,
  resident_ids_by_lru, insert_by_access, sort_by_access, gguf_magic,
}

-- Times do not fall along the list.
abbrev pub Ordered : List (ℕ × ℕ) → Type 0
Ordered [] = Unit
Ordered (e ∷ es) = All (λ f. e.1 ≤ f.1) es × Ordered es

All-le : {m n : ℕ} (es : List (ℕ × ℕ)) → m ≤ n → All (λ f. n ≤ f.1) es → All (λ f. m ≤ f.1) es
All-le [] h a = tt
All-le (f ∷ fs) h a = (omega arith, All-le fs h a.1)

insert-All :
    (m : ℕ) (e : ℕ × ℕ) (es : List (ℕ × ℕ))
    → m ≤ e.1
    → All (λ f. m ≤ f.1) es
    → All (λ f. m ≤ f.1) (insert_by_access e es)
unfolding insert_by_access
insert-All m e [] h a = (h, tt)
insert-All m e (f ∷ fs) h a = ground (arith, insert-All m e fs h a.1)

insert-Ordered : (e : ℕ × ℕ) (es : List (ℕ × ℕ)) → Ordered es → Ordered (insert_by_access e es)
unfolding insert_by_access
insert-Ordered e [] o = (tt, tt)
insert-Ordered e (f ∷ fs) o = elim (Bool-cases (leb e.1 f.1)) [
  | inl y ↦ rw y ((leb→le _ _ y, All-le fs (leb→le _ _ y) o.0), o)
  | inr n ↦ rw n (insert-All f.1 e fs (ground arith) o.0, insert-Ordered e fs o.1)
]

insert-perm : (e : ℕ × ℕ) (es : List (ℕ × ℕ)) → Perm (insert_by_access e es) (e ∷ es)
unfolding insert_by_access
insert-perm e [] = Perm.refl _
insert-perm e (f ∷ fs) = elim (Bool-cases (leb e.1 f.1)) [
  | inl y ↦ rw y (Perm.refl _)
  | inr n ↦ rw n (Perm.trans (Perm.cons f (insert-perm e fs)) (Perm.swap e f fs))
]

sort-Ordered : (es : List (ℕ × ℕ)) → Ordered (sort_by_access es)
unfolding sort_by_access
sort-Ordered [] = tt
sort-Ordered (e ∷ es) = insert-Ordered e _ (sort-Ordered es)

sort-perm : (es : List (ℕ × ℕ)) → Perm (sort_by_access es) es
unfolding sort_by_access
sort-perm [] = Perm.refl _
sort-perm (e ∷ es) = Perm.trans (insert-perm e _) (Perm.cons e (sort-perm es))

-- `resident_ids_by_lru` lists the ids of all recorded accesses, each as often as it is recorded,
-- in the order of their times.
pub resident_ids_by_lru_lem :
    (st : RegistryState)
    → (order : List (ℕ × ℕ)) × (resident_ids_by_lru st ≡ map (λ e. e.0) order)
      × Perm order st.last_accessed
      × Ordered order
unfolding resident_ids_by_lru
resident_ids_by_lru_lem st = (
  sort_by_access st.last_accessed,
  refl,
  sort-perm st.last_accessed,
  sort-Ordered st.last_accessed,
)

-- An entry that is later than all the others comes last.
insert-last :
    (e : ℕ × ℕ) (es : List (ℕ × ℕ)) → All (λ f. f.1 < e.1) es → insert_by_access e es ≡ es ++ e ∷ []
unfolding insert_by_access
insert-last e [] a = refl
insert-last e (f ∷ fs) a = ground (arith, insert-last e fs a.1)

insert-All_lt :
    (m : ℕ) (e : ℕ × ℕ) (es : List (ℕ × ℕ))
    → e.1 < m
    → All (λ f. f.1 < m) es
    → All (λ f. f.1 < m) (insert_by_access e es)
unfolding insert_by_access
insert-All_lt m e [] h a = (h, tt)
insert-All_lt m e (f ∷ fs) h a = ground (arith, insert-All_lt m e fs h a.1)

sort-All_lt :
    (m : ℕ) (es : List (ℕ × ℕ)) → All (λ f. f.1 < m) es → All (λ f. f.1 < m) (sort_by_access es)
unfolding sort_by_access
sort-All_lt m [] a = tt
sort-All_lt m (e ∷ es) a = insert-All_lt m e _ a.0 (sort-All_lt m es a.1)

remove-All_lt :
    (m id : ℕ) (es : List (ℕ × ℕ)) → All (λ f. f.1 < m) es → All (λ f. f.1 < m) (remove id es)
unfolding remove
remove-All_lt m id [] a = tt
remove-All_lt m id ((j, t) ∷ es) a = ground (arith, remove-All_lt m id es a.1)

map-snoc :
    (es : List (ℕ × ℕ)) (e : ℕ × ℕ) → map (λ f. f.0) (es ++ e ∷ []) ≡ map (λ f. f.0) es ++ e.0 ∷ []
map-snoc [] e = refl
map-snoc (f ∷ fs) e = ap (◌∷◌ f.0) (map-snoc fs e)

stamped_last :
    (st : RegistryState) (id now : ℕ)
    → All (λ f. f.1 < now) st.last_accessed
    → (older : List ℕ) × (resident_ids_by_lru
          (record st { last_accessed = insert id now st.last_accessed })
        ≡ older ++ id ∷ [])
unfolding resident_ids_by_lru sort_by_access insert
stamped_last st id now a = (
  map (λ f. f.0) (sort_by_access (remove id st.last_accessed)),
  rw (insert-last (id, now) _ (sort-All_lt now _ (remove-All_lt now id st.last_accessed a)))
      (map-snoc _ (id, now)),
)

hit_last :
    (host : Host) (st : RegistryState) (k id : ℕ) (o : Option Shared)
    → (hit host st k o).1 ≡ loaded id
    → ((hit host st k o).0.last_accessed ≡ insert id host.now st.last_accessed)
unfolding hit
hit_last host st k id none h = absurd (ground arith)
hit_last host st k id (some c) h = ground arith

fresh_last :
    (host : Host) (st : RegistryState) (path : Text) (residency : Residency) (id : ℕ)
    (file : Option (List ℕ))
    → (fresh host st path residency file).1 ≡ loaded id
    → (fresh host st path residency file).0.last_accessed ≡ insert id host.now st.last_accessed
unfolding fresh admit
fresh_last host st path residency id none h = absurd (ground arith)
fresh_last host st path residency id (some mmap) h = elim (Bool-cases (ltb (length mmap) 4)) [
  | inl short ↦ absurd (ground arith)
  | inr long ↦ elim (Bool-cases (take 4 mmap == gguf_magic)) [
    | inl good ↦ let e : st.next_id ≡ id = ground arith in rw (long, good, e)
    | inr bad ↦ absurd (ground arith)
  ]
]

load_last :
    (host : Host) (st : RegistryState) (path : Text) (residency : Residency) (id : ℕ)
    → (load host st path residency).1 ≡ loaded id
    → (load host st path residency).0.last_accessed ≡ insert id host.now st.last_accessed
unfolding load dispatch
load_last host st path residency id h = elim (Option-cases (get path st.by_path)) [
  | inl unknown ↦
      rw (unknown, load)
        (fresh_last host st path residency id (host.file path) (rw (unknown, load) at h))
  | inr (k, known) ↦
      rw (known, load) (hit_last host st k id (get k st.resident) (rw (known, load) at h))
]

-- A model that `load` hands out, mapped anew or found, is the last in `resident_ids_by_lru`, if
-- the clock has moved on since every access before.
pub resident_ids_by_lru-load :
    (host : Host) (st : RegistryState) (path : Text) (residency : Residency) {id : ℕ}
    → All (λ f. f.1 < host.now) st.last_accessed
    → (load host st path residency).1 ≡ loaded id
    → (older : List ℕ) × (resident_ids_by_lru (load host st path residency).0 ≡ older ++ id ∷ [])
unfolding resident_ids_by_lru
resident_ids_by_lru-load host st path residency {id} a h =
    rw (load_last host st path residency id h) (stamped_last st id host.now a)
