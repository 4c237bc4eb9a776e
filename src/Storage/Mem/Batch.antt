-- ===== src/Storage/Mem/Batch.antt =====
-- What a batch does to a store, against a description that does not go through the store.
use mathlib.Core.Option.{get_or}
use gometrics.Prelude.{
  ℕ, ◌+◌, ◌%◌, ◌^◌, ◌≡◌, refl, ap, Bool-cases, inl, inr, String, Option, none, some, List, [], ◌∷◌,
  ◌==◌, eq_iff, arith, if◌then◌else◌, ◌&&◌, ◌++◌, ◌∙◌, sym,
}
use gometrics.Prelude.Dict
use gometrics.Prelude.Dict.{lookup-insert}
use gometrics.Models.{not_counter, Metrics, Int64, Float64, add64, gauge, counter}
use gometrics.Storage.Mem.{
  MemStorage, current, set_if_given, add_if_given, get_gauge, get_counter, apply_metric,
  update_batch,
}

-- the last value that the batch gives to gauge `k`
unfoldable pub last_value : String → List Metrics → Option Float64
last_value k [] = none
last_value k (mt ∷ ms) =
    let later = last_value k ms in
    elim later [
      | some v ↦ some v
      | none ↦ if mt.mtype == gauge && mt.id == k then mt.value else none
    ]

-- the deltas that the batch gives to counter `k`
unfoldable pub deltas : String → List Metrics → List Int64
deltas k [] = []
deltas k (mt ∷ ms) =
    let later = deltas k ms in
    if mt.mtype == counter && mt.id == k
    then elim mt.delta [ none ↦ later | some d ↦ d ∷ later ]
    else later

unfoldable pub sum : List ℕ → ℕ
sum [] = 0
sum (x ∷ xs) = x + sum xs

abbrev pub or_old {ℓ} : {A : Type ℓ} → Option A → Option A → Option A
or_old none old = old
or_old (some v) old = some v

-- a counter after these deltas: absent and untouched, or the sum modulo 2^64
abbrev pub after : Option Int64 → List Int64 → Option Int64
after old [] = old
after old (d ∷ ds) = some ((get_or old 0 + sum (d ∷ ds)) % 2 ^ 64)

after-cons :
    (old : Option Int64) (d : Int64) (ds : List Int64)
    → after (some (add64 (get_or old 0) d)) ds ≡ after old (d ∷ ds)
unfolding sum
after-cons old d [] = ap some (omega arith)
after-cons old d (e ∷ ds) = ap some (omega arith)

gauge-apply_metric :
    (k : String) (mt : Metrics) (m : MemStorage)
    → get_gauge k (apply_metric mt m)
      ≡ or_old (if mt.mtype == gauge && mt.id == k then mt.value else none) (get_gauge k m)
unfolding get_gauge apply_metric
gauge-apply_metric k mt m = elim (Bool-cases (mt.mtype == gauge)) [
  | inl e ↦ rw e (go mt.value)
  | inr n ↦ rw n (elim (Bool-cases (mt.mtype == counter)) [
    | inl e ↦ rw e (other mt.delta)
    | inr n ↦ rw n refl
  ])
]
  where
    go :
        (v : Option Float64)
        → Dict.lookup k (set_if_given mt.id v m).gauges
          ≡ or_old (if mt.id == k then v else none) (Dict.lookup k m.gauges)
    go none = ground arith
    go (some v) = ground (arith, lookup-insert mt.id k v m.gauges)

    other :
        (v : Option Int64) → Dict.lookup k (add_if_given mt.id v m).gauges ≡ Dict.lookup k m.gauges
    other none = refl
    other (some v) = refl

add_if_given_lem :
    (k id : String) (d : Option Int64) (m : MemStorage)
    → Dict.lookup k (add_if_given id d m).counters ≡ (
        if id == k
        then after (Dict.lookup k m.counters) (elim d [ none ↦ [] | some x ↦ x ∷ [] ])
        else Dict.lookup k m.counters)
unfolding sum add_if_given
add_if_given_lem k id none m = elim (Bool-cases (id == k)) [ inl e ↦ rw e refl | inr n ↦ rw n refl ]
add_if_given_lem k id (some d) m =
    ground (arith, lookup-insert id k (add64 (current id m) d) m.counters, eq_iff id k)

set_if_given_counters :
    (id k : String) (v : Option Float64) (m : MemStorage)
    → Dict.lookup k (set_if_given id v m).counters ≡ Dict.lookup k m.counters
unfolding set_if_given
set_if_given_counters id k none m = refl
set_if_given_counters id k (some v) m = refl

counter-apply_metric :
    (k : String) (mt : Metrics) (m : MemStorage)
    → get_counter k (apply_metric mt m) ≡ after (get_counter k m) (deltas k (mt ∷ []))
unfolding get_counter apply_metric deltas
counter-apply_metric k mt m = elim (Bool-cases (mt.mtype == gauge)) [
  | inl e ↦ rw (e, not_counter mt.mtype e) (set_if_given_counters mt.id k mt.value m)
  | inr n ↦ rw n (elim (Bool-cases (mt.mtype == counter)) [
    | inl e ↦
        rw (e, add_if_given_lem)
          (elim (Bool-cases (mt.id == k)) [ inl e ↦ rw e refl | inr n ↦ rw n refl ])
    | inr n ↦ rw n refl
  ])
]

sum-append : (xs ys : List ℕ) → sum (xs ++ ys) ≡ sum xs + sum ys
unfolding sum
sum-append [] ys = omega arith
sum-append (x ∷ xs) ys = omega (arith, sum-append xs ys)

after-append :
    (old : Option Int64) (ds es : List Int64) → after (after old ds) es ≡ after old (ds ++ es)
unfolding sum
after-append old [] es = refl
after-append old (d ∷ ds) [] = ap some (omega (arith, sum-append ds []))
after-append old (d ∷ ds) (e ∷ es) = ap some (omega (arith, sum-append ds (e ∷ es)))

pub deltas-cons :
    (k : String) (mt : Metrics) (ms : List Metrics)
    → deltas k (mt ∷ ms) ≡ deltas k (mt ∷ []) ++ deltas k ms
unfolding deltas
deltas-cons k mt ms = elim (Bool-cases (mt.mtype == counter && mt.id == k)) [
  | inl e ↦ rw e (go mt.delta)
  | inr n ↦ rw n refl
]
  where
    go :
        (d : Option Int64)
        → (elim d [ none ↦ deltas k ms | some x ↦ x ∷ deltas k ms ])
          ≡ (elim d [ none ↦ [] | some x ↦ x ∷ [] ]) ++ deltas k ms
    go none = refl
    go (some x) = refl

pub last_value-cons :
    (k : String) (mt : Metrics) (ms : List Metrics) (old : Option Float64)
    → or_old
        (last_value k ms)
        (or_old (if mt.mtype == gauge && mt.id == k then mt.value else none) old)
      ≡ or_old (last_value k (mt ∷ ms)) old
unfolding last_value
last_value-cons k mt ms old = go (last_value k ms)
  where
    go :
        (o : Option Float64)
        → or_old o (or_old (if mt.mtype == gauge && mt.id == k then mt.value else none) old)
          ≡ or_old
              (elim o [
                | some v ↦ some v
                | none ↦ if mt.mtype == gauge && mt.id == k then mt.value else none
              ])
              old
    go none = refl
    go (some v) = refl

gauge-update_batch :
    (k : String) (ms : List Metrics) (m : MemStorage)
    → get_gauge k (update_batch ms m) ≡ or_old (last_value k ms) (get_gauge k m)
unfolding update_batch last_value
gauge-update_batch k [] m = refl
gauge-update_batch k (mt ∷ ms) m =
    gauge-update_batch k ms (apply_metric mt m)
    ∙ ap (or_old (last_value k ms)) (gauge-apply_metric k mt m)
    ∙ last_value-cons k mt ms (get_gauge k m)

counter-update_batch :
    (k : String) (ms : List Metrics) (m : MemStorage)
    → get_counter k (update_batch ms m) ≡ after (get_counter k m) (deltas k ms)
unfolding update_batch deltas
counter-update_batch k [] m = refl
counter-update_batch k (mt ∷ ms) m =
    counter-update_batch k ms (apply_metric mt m)
    ∙ ap (λ o. after o (deltas k ms)) (counter-apply_metric k mt m)
    ∙ after-append (get_counter k m) (deltas k (mt ∷ [])) (deltas k ms)
    ∙ ap (after (get_counter k m)) (sym (deltas-cons k mt ms))

-- After a batch every gauge has the last value that the batch gives it, or its old one, and every
-- counter its old value (0 if absent) plus the sum of the deltas given to it, modulo 2^64; a counter
-- that is given no delta stays as it was, absent if it was absent.
pub update_batch-effect :
    (k : String) (ms : List Metrics) (m : MemStorage)
    → (get_gauge k (update_batch ms m) ≡ or_old (last_value k ms) (get_gauge k m))
      × (get_counter k (update_batch ms m) ≡ after (get_counter k m) (deltas k ms))
update_batch-effect k ms m = (gauge-update_batch k ms m, counter-update_batch k ms m)
