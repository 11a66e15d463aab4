-- ===== src/Tests/Daemon.antt =====
-- bin/rampiped.rs: one model of seven bytes, on a machine that is always full.
use rampipe.Common.{
  ℕ, ◌≡◌, refl, inl, inr, true, ◌⊎◌, is_some, [], ◌∷◌, none, some, arith, ◌==◌, nat_eq, Bool-cases,
}
use rampipe.Common.Text.{Text, codes, text_eq, text_beq, text_beq_iff}
use rampipe.Common.Map.{get, insert, remove}
use rampipe.Registry.{Host, LoadError, Shared, Residency, load, new_cell}
use rampipe.Registry
use rampipe.Registry.Sync.{new-IsSynced, load-IsSynced}
use rampipe.Daemon.{
  SharedState, Session, settled, ready, mapping_failed, model_failed, ensure_loaded, make_room_for,
}
use rampipe.Daemon.Eviction.{IsManaged}
use rampipe.Daemon.Ensure.{ensure_loaded-IsManaged}
use rampipe.Daemon.Search.{make_room_for-IsManaged}

abbrev pub disk : Host
disk = record {
  now = 7;
  file = λ p. some (codes "GGUF...");
  io_error = 2;
  map_latency = 1;
  touch_latency = 1;
  rss_before = none;
  rss_after = none;
  resident_fraction = λ m. none;
}

abbrev pub small : Text
small = codes "/s.gguf"

-- One model is loaded, and its session idle.
abbrev pub serving : SharedState
serving = record {
  registry = (load disk Registry.new small Residency.lazy).0;
  sessions = (small, record { id = 0; strong_count = 1 }) ∷ [];
  budget_fraction = 0x3fe9_9999_9999_999a;
  requests_served = 0;
  requests_failed = 0;
  total_tokens_generated = 0;
  model_stats = [];
}

only_small : (p : Text) (s : Session) → get p serving.sessions ≡ some s → (small == p) ≡ true
unfolding get
only_small p s h = elim (Bool-cases (small == p)) [ inl y ↦ y | inr n ↦ absurd (ground arith) ]

only_zero : (j : ℕ) (c : Shared) → get j serving.registry.resident ≡ some c → (0 == j) ≡ true
unfolding load Registry.new get insert remove
only_zero j c h = elim (Bool-cases (0 == j)) [ inl y ↦ y | inr n ↦ absurd (ground arith) ]

pub serving-IsManaged : IsManaged serving
unfolding load Registry.new get insert remove text_beq
serving-IsManaged = record {
  synced = load-IsSynced disk Registry.new small Residency.lazy new-IsSynced (omega arith);
  once = (refl, tt);
  handled = λ p s h.
      let here : (small == p) ≡ true = only_small p s h in
      let s_is : s ≡ record { id = 0; strong_count = 1 } = ground arith in
      (
        new_cell disk small Residency.lazy (codes "GGUF..."),
        rw s_is refl,
        (text_beq_iff small p).0 here,
        omega arith,
        inr refl,
      );
  alive = λ p s h.
      let here : (small == p) ≡ true = only_small p s h in
      let s_is : s ≡ record { id = 0; strong_count = 1 } = ground arith in rw s_is (omega arith);
  loose = λ j c h none_there.
      let zero_only : (0 == j) ≡ true = only_zero j c h in
      let c_is : c ≡ new_cell disk small Residency.lazy (codes "GGUF...") = ground arith in
      absurd (ground (arith, rw c_is at none_there));
}

make_room_for-IsManaged_example :
    let (st', r) =
      make_room_for
        (λ n. n)
        (λ a b. 0)
        (λ n. record { system_free_bytes = some 0; gpu_memory_bytes = some 0 })
        100
        serving in
    IsManaged st' × (r ≡ settled) × (get (codes "/t.gguf") st'.sessions ≡ none)
unfolding get text_beq
make_room_for-IsManaged_example =
    make_room_for-IsManaged (λ n. n) (λ a b. 0)
      (λ n. record { system_free_bytes = some 0; gpu_memory_bytes = some 0 }) 100 serving
      (codes "/t.gguf") serving-IsManaged tt

-- A second model takes the place of the first.
ensure_loaded-IsManaged_example :
    let (st', answer) =
      ensure_loaded
        (λ n. n)
        (λ a b. 0)
        (λ n. record { system_free_bytes = some 0; gpu_memory_bytes = some 0 })
        disk
        (record { loads = true; measured = some 9 })
        100
        serving
        (codes "/t.gguf") in
    IsManaged st'
    × (((answer ≡ ready) × (is_some (get (codes "/t.gguf") st'.sessions) ≡ true))
        ⊎ ((answer ≡ model_failed) ⊎ ((e : LoadError) × (answer ≡ mapping_failed e))))
unfolding load get Registry.new text_beq
ensure_loaded-IsManaged_example =
    ensure_loaded-IsManaged (λ n. n) (λ a b. 0)
      (λ n. record { system_free_bytes = some 0; gpu_memory_bytes = some 0 }) disk
      (record { loads = true; measured = some 9 }) 100 serving (codes "/t.gguf") serving-IsManaged
      (omega arith)
