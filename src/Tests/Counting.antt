-- ===== src/Tests/Counting.antt =====
-- A run of an agent that reports twice.
use gometrics.Prelude.{get_or, [], ◌∷◌, ◌≡◌, refl, ltb→lt}
use gometrics.Prelude.Dict
use gometrics.Storage.Mem.{new_mem_storage, get_counter}
use gometrics.Agent.{Reading, new_collector}
use gometrics.Agent.Counting.{reports, reports-triangle}
use gometrics.Tests.{same_order, same_order-IsOrder}

abbrev reading : Reading
reading = record { stat = λ name. 4; gc_cpu_fraction = 0; random = 1 }

reports-triangle_example :
    let (c, m) =
      reports (λ n. n) same_order (reading ∷ reading ∷ []) new_collector new_mem_storage in
    (get_or (Dict.lookup "PollCount" c.counter) 0 ≡ 2) × (get_or (get_counter "PollCount" m) 0 ≡ 3)
reports-triangle_example =
    reports-triangle (λ n. n) same_order same_order-IsOrder (reading ∷ reading ∷ [])
      (ltb→lt _ _ refl)
