-- ===== src/Storage/Mem/Invariant.antt =====
-- What holds of a store after any calls.
use gometrics.Prelude.{◌<◌, ◌^◌, ◌≡◌, String, some, List, [], ◌∷◌, arith}
use gometrics.Prelude.Dict
use gometrics.Prelude.Dict.{NodupKeys, insert-NodupKeys, lookup-insert}
use gometrics.Models.{Metrics, Int64, Float64, add64}
use gometrics.Storage.Mem.{
  MemStorage, new_mem_storage, current, set_gauge, update_counter, apply_metric, update_batch,
  apply_metric-cases,
}

-- A map holds a name once, and a counter is a 64-bit word.
pub record IsValid (m : MemStorage) : Type 0 where
  pub gauge_names : NodupKeys m.gauges
  pub counter_names : NodupKeys m.counters
  pub words : (k : String) (v : Int64) → Dict.lookup k m.counters ≡ some v → v < 2 ^ 64

pub new_mem_storage-IsValid : IsValid new_mem_storage
unfolding new_mem_storage
new_mem_storage-IsValid = record {
  gauge_names = tt;
  counter_names = tt;
  words = λ k v h. cc (Dict.lookup-nil {V = Int64} k);
}

set_gauge-IsValid :
    (k : String) (v : Float64) (m : MemStorage) → IsValid m → IsValid (set_gauge k v m)
unfolding set_gauge
set_gauge-IsValid k v m h = record {
  gauge_names = insert-NodupKeys k v m.gauges h.gauge_names;
  counter_names = h.counter_names;
  words = h.words;
}

add64-lt : (a b : Int64) → add64 a b < 2 ^ 64
add64-lt a b = omega arith

update_counter-IsValid :
    (k : String) (v : Int64) (m : MemStorage) → IsValid m → IsValid (update_counter k v m)
unfolding update_counter
update_counter-IsValid k v m h = record {
  gauge_names = h.gauge_names;
  counter_names = insert-NodupKeys k (add64 (current k m) v) m.counters h.counter_names;
  words = λ j w. rw lookup-insert (ground (arith, h.words j w, add64-lt (current k m) v));
}

apply_metric-IsValid : (mt : Metrics) (m : MemStorage) → IsValid m → IsValid (apply_metric mt m)
apply_metric-IsValid mt m h =
    apply_metric-cases IsValid mt m h (λ v. set_gauge-IsValid mt.id v m h)
      (λ d. update_counter-IsValid mt.id d m h)

pub update_batch-IsValid :
    (ms : List Metrics) (m : MemStorage) → IsValid m → IsValid (update_batch ms m)
unfolding update_batch
update_batch-IsValid [] m h = h
update_batch-IsValid (mt ∷ ms) m h =
    update_batch-IsValid ms (apply_metric mt m) (apply_metric-IsValid mt m h)

-- one call of a method that writes
pub data Write : Type 0 where
  gauge_write : String → Float64 → Write
  counter_write : String → Int64 → Write
  batch_write : List Metrics → Write

abbrev pub write : Write → MemStorage → MemStorage
write (gauge_write k v) m = set_gauge k v m
write (counter_write k d) m = update_counter k d m
write (batch_write ms) m = update_batch ms m

abbrev pub writes : List Write → MemStorage → MemStorage
writes [] m = m
writes (w ∷ ws) m = writes ws (write w m)

pub write-IsValid : (w : Write) (m : MemStorage) → IsValid m → IsValid (write w m)
write-IsValid (gauge_write k v) m h = set_gauge-IsValid k v m h
write-IsValid (counter_write k d) m h = update_counter-IsValid k d m h
write-IsValid (batch_write ms) m h = update_batch-IsValid ms m h

writes_keep : (ws : List Write) (m : MemStorage) → IsValid m → IsValid (writes ws m)
writes_keep [] m h = h
writes_keep (w ∷ ws) m h = writes_keep ws (write w m) (write-IsValid w m h)

-- Whatever writes reach a new store, in whatever order the mutex lets them in, each map holds a name
-- once and each counter is a 64-bit word.
pub writes-IsValid : (ws : List Write) → IsValid (writes ws new_mem_storage)
writes-IsValid ws = writes_keep ws new_mem_storage new_mem_storage-IsValid
