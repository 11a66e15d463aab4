-- ===== src/Registry.antt =====
-- lib.rs: the registry of mapped models. `Arc<Resident>` is a count of the strong references
-- beside the value that they share; a `ModelHandle` is the id, since a live handle's model stays
-- in the table. A map is an association list; paths are texts.
pub mod Sync
pub mod Evict
pub mod Recency
pub mod Totals
pub mod Reach
pub mod Effect
pub mod Ledger
use rampipe.Common.{
  ℕ, suc, ◌+◌, ◌-◌, ◌%◌, ◌^◌, ◌≡◌, Bool, true, false, ◌&&◌, List, [], ◌∷◌, map, Option, none, some,
  length, take, if◌then◌else◌, ltb, leb, ◌==◌, unwrap_or, is_some,
}
use rampipe.Common.Text.{Text, codes, text_eq}
use rampipe.Common.Int.{ℤ, sub_ℕ}
use rampipe.Common.Map.{get, insert, remove}
use rampipe.Common.Float.{F64, f64_le}
use rampipe.Common.{nat_eq}

abbrev pub u64_mod : ℕ
u64_mod = 2 ^ 64

-- `*b"GGUF"`.
abbrev pub gguf_magic : List ℕ
gguf_magic = codes "GGUF"

-- `0.99_f64`.
abbrev pub warm_fraction : F64
warm_fraction = 0x3fef_ae14_7ae1_47ae

pub data Residency : Type 0 where
  lazy prefault advise : Residency

pub record SwapMetrics : Type 0 where
  pub map_latency : ℕ
  pub prefault_latency : Option ℕ
  pub mapped_bytes : ℕ
  pub rss_delta_bytes : Option ℤ
  pub resident_fraction : Option F64
  pub warm : Bool

pub data LoadError : Type 0 where
  io : ℕ → LoadError
  empty : LoadError
  bad_magic : List ℕ → LoadError

pub record Resident : Type 0 where
  pub path : Text
  pub mmap : List ℕ
  pub metrics : SwapMetrics
  pub device_bytes : Option ℕ

-- `Arc<Resident>` in the table: its own reference and the outstanding handles.
pub record Shared : Type 0 where
  pub strong_count : ℕ
  pub inner : Resident

pub record RegistryState : Type 0 where
  pub next_id : ℕ
  pub resident : List (ℕ × Shared)
  pub by_path : List (Text × ℕ)
  pub last_accessed : List (ℕ × ℕ)

pub data EvictError : Type 0 where
  unknown_id : ℕ → EvictError
  handle_outstanding : ℕ → EvictError

-- `desync` is the panic of `expect("by_path/resident desync")`.
pub data Loaded : Type 0 where
  loaded : ℕ → Loaded
  failed : LoadError → Loaded
  desync : Loaded

-- What the operating system answers during one call of `load`.
pub record Host : Type 0 where
  pub now : ℕ
  pub file : Text → Option (List ℕ)
  pub io_error : ℕ
  pub map_latency : ℕ
  pub touch_latency : ℕ
  pub rss_before : Option ℕ
  pub rss_after : Option ℕ
  pub resident_fraction : List ℕ → Option F64

-- `SwapRegistry::new`.
unfoldable pub new : RegistryState
new = record { next_id = 0; resident = []; by_path = []; last_accessed = [] }

rss_delta : Option ℕ → Option ℕ → Option ℤ
rss_delta (some before) (some after) = some (sub_ℕ after before)
rss_delta (some before) none = none
rss_delta none after = none

touched : Residency → ℕ → Option ℕ
touched Residency.lazy t = none
touched Residency.prefault t = some t
touched Residency.advise t = some t

is_warm : Option F64 → Bool
is_warm none = false
is_warm (some f) = f64_le warm_fraction f

unfoldable pub measure : Host → Residency → List ℕ → SwapMetrics
unfolding rss_delta touched is_warm
measure host residency mmap = record {
  map_latency = host.map_latency;
  prefault_latency = touched residency host.touch_latency;
  mapped_bytes = length mmap;
  rss_delta_bytes = rss_delta host.rss_before host.rss_after;
  resident_fraction = host.resident_fraction mmap;
  warm = is_warm (host.resident_fraction mmap);
}

-- The model's cell with one reference more, or fewer.
abbrev pub retain : Shared → Shared
retain s = record s { strong_count = s.strong_count + 1 }

abbrev pub release : Shared → Shared
release s = record s { strong_count = s.strong_count - 1 }

-- The path is known: hand out another handle.
hit : Host → RegistryState → ℕ → Option Shared → RegistryState × Loaded
hit host st id none = (st, desync)
hit host st id (some cell) = (
  record st {
    resident = insert id (retain cell) st.resident;
    last_accessed = insert id host.now st.last_accessed;
  },
  loaded id,
)

abbrev pub new_cell : Host → Text → Residency → List ℕ → Shared
new_cell host path residency mmap = record {
  strong_count = 2;
  inner = record {
    path = path;
    mmap = mmap;
    metrics = measure host residency mmap;
    device_bytes = none;
  };
}

-- The table with a new model, which the caller holds one handle of.
admit : Host → RegistryState → Text → Residency → List ℕ → RegistryState
admit host st path residency mmap = record {
  next_id = (st.next_id + 1) % u64_mod;
  resident = insert st.next_id (new_cell host path residency mmap) st.resident;
  by_path = insert path st.next_id st.by_path;
  last_accessed = insert st.next_id host.now st.last_accessed;
}

fresh : Host → RegistryState → Text → Residency → Option (List ℕ) → RegistryState × Loaded
unfolding admit
fresh host st path residency none = (st, failed (io host.io_error))
fresh host st path residency (some mmap) =
    if ltb (length mmap) 4
    then (st, failed empty)
    else if take 4 mmap == gguf_magic
    then (admit host st path residency mmap, loaded st.next_id)
    else (st, failed (bad_magic (take 4 mmap)))

dispatch : Host → RegistryState → Text → Residency → Option ℕ → RegistryState × Loaded
unfolding hit fresh
dispatch host st path residency (some id) = hit host st id (get id st.resident)
dispatch host st path residency none = fresh host st path residency (host.file path)

-- `SwapRegistry::load`.
unfoldable pub load : Host → RegistryState → Text → Residency → RegistryState × Loaded
unfolding dispatch
load host st path residency = dispatch host st path residency (get path st.by_path)

pub data Evicted : Type 0 where
  evicted : Evicted
  refused : EvictError → Evicted

unlink : RegistryState → ℕ → Option Shared → RegistryState × Evicted
unlink st id none = (st, refused (unknown_id id))
unlink st id (some cell) =
    let outstanding = cell.strong_count - 1 in
    if ltb 0 outstanding then (st, refused (handle_outstanding outstanding)) else (
      record st {
        resident = remove id st.resident;
        by_path = remove cell.inner.path st.by_path;
        last_accessed = remove id st.last_accessed;
      },
      evicted,
    )

-- `SwapRegistry::evict`.
unfoldable pub evict : RegistryState → ℕ → RegistryState × Evicted
unfolding unlink
evict st id = unlink st id (get id st.resident)

update_cell : RegistryState → ℕ → (Shared → Shared) → Option Shared → RegistryState
update_cell st id f none = st
update_cell st id f (some cell) = record st { resident = insert id (f cell) st.resident }

-- `ModelHandle::clone` and the drop of a handle, through the table that both are counted in.
unfoldable pub clone_handle : RegistryState → ℕ → RegistryState
unfolding update_cell
clone_handle st id = update_cell st id retain (get id st.resident)

unfoldable pub drop_handle : RegistryState → ℕ → RegistryState
unfolding update_cell
drop_handle st id = update_cell st id release (get id st.resident)

abbrev pub with_device_bytes : ℕ → Shared → Shared
with_device_bytes bytes s = record s { inner = record (s.inner) { device_bytes = some bytes } }

-- `SwapRegistry::record_device_bytes`.
unfoldable pub record_device_bytes : RegistryState → ℕ → ℕ → RegistryState
unfolding update_cell
record_device_bytes st id bytes = update_cell st id (with_device_bytes bytes) (get id st.resident)

-- `SwapRegistry::is_resident`, `resident_count`.
unfoldable pub is_resident : RegistryState → ℕ → Bool
is_resident st id = is_some (get id st.resident)

unfoldable pub resident_count : RegistryState → ℕ
resident_count st = length st.resident

-- The sum of a measure over the table's entries.
unfoldable pub total : (Shared → ℕ) → List (ℕ × Shared) → ℕ
total f [] = 0
total f ((id, s) ∷ m) = f s + total f m

abbrev pub mapped_len : Shared → ℕ
mapped_len s = length s.inner.mmap

abbrev pub device_len : Shared → ℕ
device_len s = unwrap_or s.inner.device_bytes 0

-- `SwapRegistry::mapped_bytes` and `device_resident_bytes`; a `usize` and a `u64` of 64 bits.
unfoldable pub mapped_bytes : RegistryState → ℕ
unfolding total
mapped_bytes st = total mapped_len st.resident % u64_mod

unfoldable pub device_resident_bytes : RegistryState → ℕ
unfolding total
device_resident_bytes st = total device_len st.resident % u64_mod

-- `sort_by_key`, a stable sort, by insertion.
unfoldable pub insert_by_access : ℕ × ℕ → List (ℕ × ℕ) → List (ℕ × ℕ)
insert_by_access e [] = e ∷ []
insert_by_access e (f ∷ fs) = if leb e.1 f.1 then e ∷ f ∷ fs else f ∷ insert_by_access e fs

unfoldable pub sort_by_access : List (ℕ × ℕ) → List (ℕ × ℕ)
unfolding insert_by_access
sort_by_access [] = []
sort_by_access (e ∷ es) = insert_by_access e (sort_by_access es)

-- `SwapRegistry::resident_ids_by_lru`.
unfoldable pub resident_ids_by_lru : RegistryState → List ℕ
unfolding sort_by_access
resident_ids_by_lru st = map (λ e. e.0) (sort_by_access st.last_accessed)

-- The cast of a `u64` to `f64` and the product of two `f64` are the processor's.
module _ (as_f64 : ℕ → F64) (times : F64 → F64 → F64) where
  -- `SwapRegistry::fits_within_budget`; `free` is what `system_free_bytes` measured.
  unfoldable pub fits_within_budget : Option ℕ → RegistryState → ℕ → F64 → Option Bool
  unfolding mapped_bytes
  fits_within_budget none st new_size_bytes budget_fraction = none
  fits_within_budget (some free) st new_size_bytes budget_fraction =
      let mapped = mapped_bytes st in
      let available_for_models = (free + mapped) % u64_mod in
      some (
        f64_le (as_f64 ((mapped + new_size_bytes) % u64_mod))
          (times budget_fraction (as_f64 available_for_models)))

  -- `SwapRegistry::fits_within_device_budget`.
  unfoldable pub fits_within_device_budget : RegistryState → ℕ → ℕ → F64 → Bool
  unfolding device_resident_bytes
  fits_within_device_budget st new_device_bytes free_device_bytes budget_fraction =
      let resident = device_resident_bytes st in
      let available = (free_device_bytes + resident) % u64_mod in
      f64_le (as_f64 ((resident + new_device_bytes) % u64_mod))
        (times budget_fraction (as_f64 available))
