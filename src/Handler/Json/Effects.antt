-- ===== src/Handler/Json/Effects.antt =====
-- What a handler of one metric in a JSON body does to the world, with the store in memory.
use gometrics.Prelude.{
  Bool, Option, none, some, List, [], ◌∷◌, ◌≡◌, refl, ap, if◌then◌else◌, ◌==◌, not, get_or, ◌⊎◌,
  inl, eq_iff, inr,
}
use gometrics.Http.{Request, Call, header, whole, set_header}
use gometrics.Models.{gauge, counter, Int64, Float64, Metrics}
use gometrics.Storage.Mem.{MemStorage, mem_storage}
use gometrics.Storage.Mem.Invariant.{Write, gauge_write, counter_write, write}
use gometrics.Handler.{Handler, Std, World, not, gauge, header, counter, set_header}
use gometrics.Handler.Reading.{SaveKeepsStore}
use gometrics.Handler.Effects.{one_of, same_store, after_write-Holds, one_by}
use gometrics.Handler.Json.{
  value_gauge, value_counter, value_json, json_only, value_json_handler, update_gauge,
  update_counter, update_json, update_json_handler, encoded, accumulated, get_or, whole,
}

-- the write that a metric asks for: of its id, with the value or delta of its type
abbrev pub AskedByJson : Option Metrics → Write → Type 0
AskedByJson o x =
    (req : Metrics) × (o ≡ some req)
    × (((req.mtype ≡ gauge) × ((v : Float64) × (req.value ≡ some v) × (x ≡ gauge_write req.id v)))
        ⊎ ((req.mtype ≡ counter)
            × ((d : Int64) × (req.delta ≡ some d) × (x ≡ counter_write req.id d))))

module _ {D O : Type 0} (h : Handler MemStorage D O) (mem : h.storage ≡ mem_storage) (std : Std)
    (save : SaveKeepsStore h std) (P : World MemStorage D O × List Call → Type 0)
    (w : World MemStorage D O) (stays : (calls : List Call) → P (w, calls)) where
  value_gauge-Holds :
      (req : Metrics) (p : Option Float64 × MemStorage)
      → p.1 ≡ w.store
      → P (value_gauge h std req p w)
  unfolding value_gauge
  value_gauge-Holds req (none, s) e = same_store h mem std save P w stays s _ e
  value_gauge-Holds req (some v, s) e = same_store h mem std save P w stays s _ e

  value_counter-Holds :
      (req : Metrics) (p : Option Int64 × MemStorage)
      → p.1 ≡ w.store
      → P (value_counter h std req p w)
  unfolding value_counter
  value_counter-Holds req (none, s) e = same_store h mem std save P w stays s _ e
  value_counter-Holds req (some v, s) e = same_store h mem std save P w stays s _ e

  choose : (b : Bool) (x y : World MemStorage D O × List Call) → P x → P y → P (if b then x else y)
  choose = one_of h mem std save P w stays

  value_json-Holds : (o : Option Metrics) → P (value_json h std o w)
  unfolding value_json
  value_json-Holds none = stays _
  value_json-Holds (some req) = choose (req.id == "") _ _ (stays _) (
      choose (req.mtype == gauge) _ _
        (value_gauge-Holds req (h.storage.get_gauge req.id w.store)
          (ap (λ st. (st.get_gauge req.id w.store).1) mem))
        (choose (req.mtype == counter) _ _
          (value_counter-Holds req (h.storage.get_counter req.id w.store)
            (ap (λ st. (st.get_counter req.id w.store).1) mem))
          (stays _)))

  module _ (Asked : Write → Type 0)
      (changes : (w' : World MemStorage D O) (calls : List Call) (x : Write)
        → Asked x
        → w'.store ≡ write x w.store
        → P (w', calls))
      (now : Int64) (r : Request) where
    update_gauge-Holds :
        (req : Metrics) (o : Option Float64)
        → ((v : Float64) → o ≡ some v → Asked (gauge_write req.id v))
        → P (update_gauge h std now r req o w)
    unfolding update_gauge
    update_gauge-Holds req none asked = stays _
    update_gauge-Holds req (some v) asked =
        after_write-Holds h mem std save P w stays Asked changes now r (req.id ∷ [])
          (gauge_write req.id v) (h.storage.set_gauge req.id v w.store) (encoded h std req)
          (λ w. refl) (asked v refl) (ap (λ st. st.set_gauge req.id v w.store) mem)

    update_counter-Holds :
        (req : Metrics) (o : Option Int64)
        → ((d : Int64) → o ≡ some d → Asked (counter_write req.id d))
        → P (update_counter h std now r req o w)
    unfolding update_counter
    update_counter-Holds req none asked = stays _
    update_counter-Holds req (some d) asked =
        after_write-Holds h mem std save P w stays Asked changes now r (req.id ∷ [])
          (counter_write req.id d) (h.storage.update_counter req.id d w.store)
          (accumulated h std req) (λ w. ap (λ st. (st.get_counter req.id w.store).1) mem)
          (asked d refl) (ap (λ st. st.update_counter req.id d w.store) mem)

    update_json-Holds :
        (o : Option Metrics)
        → ((x : Write) → AskedByJson o x → Asked x)
        → P (update_json h std now r o w)
    unfolding update_json
    update_json-Holds none asked = stays _
    update_json-Holds (some req) asked = choose (req.id == "") _ _ (stays _) (
        one_by h mem std save P w stays (req.mtype == gauge) _ _
          (λ g.
            update_gauge-Holds req req.value
              (λ v e. asked _ (req, refl, inl ((eq_iff _ _).0 g, (v, e, refl)))))
          (λ _.
            one_by h mem std save P w stays (req.mtype == counter) _ _
              (λ c.
                update_counter-Holds req req.delta
                  (λ d e. asked _ (req, refl, inr ((eq_iff _ _).0 c, (d, e, refl)))))
              (λ _. stays _)))

-- both handlers set the type of the reply first
module _ {D O : Type 0} (h : Handler MemStorage D O) (mem : h.storage ≡ mem_storage) (std : Std)
    (save : SaveKeepsStore h std) (P : World MemStorage D O × List Call → Type 0)
    (w : World MemStorage D O) (stays : (calls : List Call) → P (w, calls)) where
  abbrev Typed : World MemStorage D O × List Call → Type 0
  Typed p = P (p.0, set_header "Content-Type" "application/json" ∷ p.1)

  abbrev only_json : (r : Request) → Bool
  only_json r = not (header "Content-Type" r.headers == "application/json")

  pub value_json_handler-Holds : (r : Request) → P (value_json_handler h std r w)
  unfolding value_json_handler json_only
  value_json_handler-Holds r = one_of h mem std save P w stays (only_json r) _ _ (stays _) (
      value_json-Holds h mem std save Typed w
        (λ c. stays (set_header "Content-Type" "application/json" ∷ c))
        (std.decode (get_or r.body (whole []))))

  pub update_json_handler-Holds :
      (Asked : Write → Type 0)
      → ((w' : World MemStorage D O) (calls : List Call) (x : Write)
          → Asked x
          → w'.store ≡ write x w.store
          → P (w', calls))
      → (now : Int64) (r : Request)
      → ((x : Write) → AskedByJson (std.decode (get_or r.body (whole []))) x → Asked x)
      → P (update_json_handler h std now r w)
  unfolding update_json_handler json_only
  update_json_handler-Holds Asked changes now r asked =
      one_of h mem std save P w stays (only_json r) _ _ (stays _) (
        update_json-Holds h mem std save Typed w
          (λ c. stays (set_header "Content-Type" "application/json" ∷ c)) Asked
          (λ w' c x a e. changes w' (set_header "Content-Type" "application/json" ∷ c) x a e) now r
          (std.decode (get_or r.body (whole []))) asked)
