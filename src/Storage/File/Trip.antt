-- ===== src/Storage/File/Trip.antt =====
-- A save followed by a restore.
use gometrics.Storage.File.Atomic.{Saved-none, save_to_file-Saved}
use gometrics.Prelude.{
  false, ◌≡◌, refl, String, Option, none, some, List, arith, ◌==◌, eq_iff, ◌∷◌, [], ◌∙◌, ap, map,
  sym, Bool-cases, inl, inr, subst, ◌++◌, append_assoc, if◌then◌else◌, ◌&&◌, ◌<◌, ◌^◌, Bool, true,
  ◌≢◌, Option-cases,
}
use gometrics.Prelude.Dict
use gometrics.Models.{Metrics, Int64, Float64, gauge, counter}
use gometrics.Storage.{Error}
use gometrics.Storage.Mem
use gometrics.Storage.Mem.Invariant.{IsValid}
use gometrics.Storage.Mem.{
  MemStorage, mem_storage, new_mem_storage, apply_metric, update_batch, get_gauge, get_counter,
  get_all_metrics,
}
use gometrics.Storage.Mem.Batch.{
  last_value, deltas, or_old, after, update_batch-effect, deltas-cons, sum,
}
use gometrics.Storage.File.{
  Json, MapOrder, snapshot, gauge_record, counter_record, restore, restore_metric, set_if_given,
  add_if_given, load_from_file, Faults, Disk, no_faults, save_to_file,
}

-- What Go says of `range`: each entry once, in an order of its choice.
pub record IsOrder (o : MapOrder) : Type 0 where
  pub gauges_once : (m : Dict.Dict Float64) → Dict.NodupKeys m → Dict.NodupKeys (o.gauge_range m)
  pub gauges_same :
      (k : String) (m : Dict.Dict Float64) → Dict.lookup k (o.gauge_range m) ≡ Dict.lookup k m
  pub counters_once : (m : Dict.Dict Int64) → Dict.NodupKeys m → Dict.NodupKeys (o.counter_range m)
  pub counters_same :
      (k : String) (m : Dict.Dict Int64) → Dict.lookup k (o.counter_range m) ≡ Dict.lookup k m

restore_metric-mem :
    (mt : Metrics) (m : MemStorage) → restore_metric mem_storage mt m ≡ apply_metric mt m
unfolding restore_metric apply_metric
restore_metric-mem mt m = elim (Bool-cases (mt.mtype == gauge)) [
  | inl e ↦ rw e (on_value mt.value)
  | inr n ↦ rw n (elim (Bool-cases (mt.mtype == counter)) [
    | inl e ↦ rw e (on_delta mt.delta)
    | inr n ↦ rw n refl
  ])
]
  where
    on_value :
        (v : Option Float64) → set_if_given mem_storage mt.id v m ≡ Mem.set_if_given mt.id v m
    on_value none = refl
    on_value (some v) = refl

    on_delta : (d : Option Int64) → add_if_given mem_storage mt.id d m ≡ Mem.add_if_given mt.id d m
    on_delta none = refl
    on_delta (some d) = refl

-- In memory a restore is a batch update with the metrics of the file.
pub restore-mem :
    (ms : List Metrics) (m : MemStorage) → restore mem_storage ms m ≡ update_batch ms m
unfolding restore update_batch
restore-mem [] m = refl
restore-mem (mt ∷ ms) m =
    restore-mem ms (restore_metric mem_storage mt m)
    ∙ ap (update_batch ms) (restore_metric-mem mt m)

or_old-none : (o : Option Float64) → o ≡ or_old o none
or_old-none none = refl
or_old-none (some v) = refl

last_value-append :
    (k : String) (xs ys : List Metrics)
    → last_value k (xs ++ ys) ≡ or_old (last_value k ys) (last_value k xs)
unfolding last_value
last_value-append k [] ys = or_old-none (last_value k ys)
last_value-append k (x ∷ xs) ys =
    rw (last_value-append k xs ys) (both (last_value k ys) (last_value k xs))
  where
    hit : Option Float64
    hit = if x.mtype == gauge && x.id == k then x.value else none

    both :
        (o p : Option Float64)
        → (elim (or_old o p) [ some v ↦ some v | none ↦ hit ])
          ≡ or_old o (elim p [ some v ↦ some v | none ↦ hit ])
    both (some v) p = refl
    both none none = refl
    both none (some v) = refl

last_value-counters :
    (k : String) (cs : List (String × Int64)) → last_value k (map counter_record cs) ≡ none
unfolding last_value counter_record
last_value-counters k [] = refl
last_value-counters k ((j, d) ∷ cs) = rw (last_value-counters k cs) refl

hit_or_later :
    (b : Bool) (v : Float64) (o : Option Float64)
    → (b ≡ true → o ≡ none)
    → (elim o [ some w ↦ some w | none ↦ if b then some v else none ]) ≡ (if b then some v else o)
hit_or_later true v none h = refl
hit_or_later true v (some w) h = cc (h refl)
hit_or_later false v none h = refl
hit_or_later false v (some w) h = refl

last_value-gauges :
    (k : String) (gs : List (String × Float64))
    → Dict.NodupKeys gs
    → last_value k (map gauge_record gs) ≡ Dict.lookup k gs
unfolding last_value gauge_record
last_value-gauges k [] h = sym (Dict.lookup-nil k)
last_value-gauges k ((j, v) ∷ gs) (fresh, h) =
    rw (last_value-gauges k gs h, Dict.lookup-cons)
      (hit_or_later (j == k) v (Dict.lookup k gs)
        (λ e. subst (λ t. Dict.lookup t gs ≡ none) ((eq_iff j k).0 e) fresh))

deltas-append :
    (k : String) (xs ys : List Metrics) → deltas k (xs ++ ys) ≡ deltas k xs ++ deltas k ys
unfolding deltas
deltas-append k [] ys = refl
deltas-append k (x ∷ xs) ys =
    deltas-cons k x (xs ++ ys)
    ∙ ap (λ l. deltas k (x ∷ []) ++ l) (deltas-append k xs ys)
    ∙ sym (append_assoc (deltas k (x ∷ [])) (deltas k xs) (deltas k ys))
    ∙ ap (λ l. l ++ deltas k ys) (sym (deltas-cons k x xs))

deltas-gauges : (k : String) (gs : List (String × Float64)) → deltas k (map gauge_record gs) ≡ []
unfolding deltas gauge_record
deltas-gauges k [] = refl
deltas-gauges k ((j, v) ∷ gs) = rw (deltas-gauges k gs) refl

abbrev pub as_list {ℓ} : {A : Type ℓ} → Option A → List A
as_list none = []
as_list (some a) = a ∷ []

deltas-counters :
    (k : String) (cs : List (String × Int64))
    → Dict.NodupKeys cs
    → deltas k (map counter_record cs) ≡ as_list (Dict.lookup k cs)
unfolding deltas counter_record
deltas-counters k [] h = ap as_list (sym (Dict.lookup-nil k))
deltas-counters k ((j, v) ∷ cs) (fresh, h) =
    rw (deltas-counters k cs h, Dict.lookup-cons)
      (elim (Bool-cases (j == k)) [
        | inl e ↦ rw e (
            ap (λ o. v ∷ as_list o) (subst (λ t. Dict.lookup t cs ≡ none) ((eq_iff j k).0 e) fresh))
        | inr n ↦ rw n refl
      ])

last_value-snapshot :
    (o : MapOrder) (law : IsOrder o) (k : String) (gs : Dict.Dict Float64) (cs : Dict.Dict Int64)
    → Dict.NodupKeys gs
    → last_value k (snapshot o gs cs) ≡ Dict.lookup k gs
unfolding snapshot
last_value-snapshot o law k gs cs h =
    last_value-append k (map gauge_record (o.gauge_range gs))
      (map counter_record (o.counter_range cs))
    ∙ rw last_value-counters refl
    ∙ last_value-gauges k (o.gauge_range gs) (law.gauges_once gs h)
    ∙ law.gauges_same k gs

pub deltas-snapshot :
    (o : MapOrder) (law : IsOrder o) (k : String) (gs : Dict.Dict Float64) (cs : Dict.Dict Int64)
    → Dict.NodupKeys cs
    → deltas k (snapshot o gs cs) ≡ as_list (Dict.lookup k cs)
unfolding snapshot
deltas-snapshot o law k gs cs h =
    deltas-append k (map gauge_record (o.gauge_range gs)) (map counter_record (o.counter_range cs))
    ∙ rw deltas-gauges refl
    ∙ deltas-counters k (o.counter_range cs) (law.counters_once cs h)
    ∙ ap as_list (law.counters_same k cs)

after-as_list :
    (o : Option Int64) → ((v : Int64) → o ≡ some v → v < 2 ^ 64) → after none (as_list o) ≡ o
unfolding sum
after-as_list none h = refl
after-as_list (some v) h = ap some (omega (arith, h v refl))

-- the store that a batch with a snapshot makes of a new one reads as the store of the snapshot
pub snapshot_rebuilds :
    (o : MapOrder) (law : IsOrder o) (k : String) (m : MemStorage)
    → IsValid m
    → let m' = update_batch (snapshot o m.gauges m.counters) new_mem_storage in
      (get_gauge k m' ≡ get_gauge k m) × (get_counter k m' ≡ get_counter k m)
unfolding new_mem_storage get_gauge get_counter
snapshot_rebuilds o law k m h =
    let (g, c) = update_batch-effect k (snapshot o m.gauges m.counters) new_mem_storage in
    (
      g
          ∙ rw (last_value-snapshot o law k m.gauges m.counters h.gauge_names, Dict.lookup-nil)
              (sym (or_old-none _)),
      c
          ∙ rw (deltas-snapshot o law k m.gauges m.counters h.counter_names, Dict.lookup-nil)
              (after-as_list _ (h.words k)),
    )

-- `json.Unmarshal` reads back what `json.MarshalIndent` wrote.
abbrev pub ReadsBack : {C : Type 0} → Json C → Type 0
ReadsBack {C} json =
    (ms : List Metrics) (c : C) → json.marshal_indent ms ≡ some c → json.unmarshal c ≡ some ms

-- the two stores answer every read alike
abbrev pub SameReads : MemStorage → MemStorage → Type 0
SameReads m m' =
    (k : String) → (get_gauge k m ≡ get_gauge k m') × (get_counter k m ≡ get_counter k m')

pub load_after :
    {C : Type 0} (json : Json C) (path : String) (disk : Disk C) (ms : List Metrics)
    (m : MemStorage)
    → (c : C) → Dict.lookup path disk ≡ some c
    → json.unmarshal c ≡ some ms
    → load_from_file mem_storage json no_faults path disk m ≡ (none, update_batch ms m)
unfolding load_from_file
load_after json path disk ms m c h u =
    rw (h, load_from_file) (rw (u, load_from_file) (rw (restore-mem ms m) refl))

-- When a save of a valid store reports no error, a restart that restores the file reports none
-- either, and every gauge and counter reads as before the restart, whatever the iteration order of
-- the two maps and whatever the file held before the save.
pub save-load :
    {C : Type 0} (json : Json C) (reads : ReadsBack json) (order : MapOrder) (law : IsOrder order)
    (dir : String → String) (faults : Faults C) (path : String) (m : MemStorage) (disk : Disk C)
    → IsValid m
    → let (err, m', disk') = save_to_file mem_storage json dir order faults path (m, disk) in
      err ≡ none
      → let (err', restored) =
          load_from_file mem_storage json no_faults path disk' new_mem_storage in
        (err' ≡ none) × SameReads restored m
unfolding get_all_metrics
save-load {C} json reads order law dir faults path m disk h ok = elim (Option-cases enc) [
  | inl missing ↦ absurd (saved.1 missing)
  | inr (c, e) ↦
      let loaded = load_after json path r.2 ms new_mem_storage c (saved.0 ∙ e) (reads ms c e) in
      (ap (λ p. p.0) loaded, rw loaded (λ k. snapshot_rebuilds order law k m h))
]
  where
    r : Option Error × MemStorage × Disk C
    r = save_to_file mem_storage json dir order faults path (m, disk)

    ms : List Metrics
    ms = snapshot order m.gauges m.counters

    enc : Option C
    enc = json.marshal_indent ms

    saved : (Dict.lookup path r.2 ≡ enc) × (enc ≢ none)
    saved =
        Saved-none path enc disk (r.0, r.2)
          (save_to_file-Saved mem_storage json dir order faults path m disk) ok
