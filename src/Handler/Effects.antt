-- ===== src/Handler/Effects.antt =====
-- What a request handler does to the world, with the store in memory.
use gometrics.Prelude.{
  String, Bool, true, false, Option, none, some, List, [], ◌∷◌, ◌≡◌, refl, sym, ◌∙◌, subst, ap,
  if◌then◌else◌, map, get_or, ◌==◌, not, ◌⊎◌, inl, eq_iff, inr,
}
use gometrics.Http.{Request, Call, whole, error_reply, write_header}
use gometrics.Models.{Int64, Float64, Metrics}
use gometrics.Storage.Mem.{MemStorage, mem_storage}
use gometrics.Storage.Mem.Invariant.{Write, gauge_write, counter_write, batch_write, write}
use gometrics.Handler.{
  Handler, Std, World, after_write, try_sync_save, not, error_reply, write_header,
}
use gometrics.Handler.Reading.{SaveKeepsStore, notify_audit-store}
use gometrics.Handler.Plain.{
  update_gauge, update_counter, update_handler, value_handler, ping_handler, found, ok_reply,
}
use gometrics.Handler.Batch
use gometrics.Handler.Batch.{updates, updates_json_handler, validate, apply_valid}
use gometrics.Handler.Page.{root_handler}
use gometrics.Storage.File.{MapOrder}

-- the write that an update by path asks for: of the name in the path, with the parsed value
abbrev pub AskedByPath : Std → String → String → String → Write → Type 0
AskedByPath std url_type url_name url_value x =
    ((url_type ≡ "gauge")
      × ((v : Float64) × (std.parse_float url_value ≡ some v) × (x ≡ gauge_write url_name v)))
    ⊎ ((url_type ≡ "counter")
        × ((d : Int64) × (std.parse_int url_value ≡ some d) × (x ≡ counter_write url_name d)))

-- the write that a batch asks for: of its metrics, all of which pass the checks
abbrev pub AskedByBatch : Option (List Metrics) → Write → Type 0
AskedByBatch o x = (ms : List Metrics) × (o ≡ some ms) × (validate ms ≡ none) × (x ≡ batch_write ms)

-- What holds of the world `w` and of every world in which the store took one write.
module _ {D O : Type 0} (h : Handler MemStorage D O) (mem : h.storage ≡ mem_storage) (std : Std)
    (save : SaveKeepsStore h std) (P : World MemStorage D O × List Call → Type 0)
    (w : World MemStorage D O) (stays : (calls : List Call) → P (w, calls)) where
  pub one_of :
      (b : Bool) (x y : World MemStorage D O × List Call) → P x → P y → P (if b then x else y)
  one_of true x y p q = p
  one_of false x y p q = q

  pub one_by :
      (b : Bool) (x y : World MemStorage D O × List Call)
      → (b ≡ true → P x)
      → (b ≡ false → P y)
      → P (if b then x else y)
  one_by true x y p q = p refl
  one_by false x y p q = q refl

  pub same_store :
      (s : MemStorage) (calls : List Call) → s ≡ w.store → P (record w { store = s }, calls)
  same_store s calls e = subst (λ s. P (record w { store = s }, calls)) (sym e) (stays calls)

  found-Holds :
      {V : Type 0} (format : V → String) (p : Option V × MemStorage)
      → p.1 ≡ w.store
      → P (found h std format p w)
  unfolding found
  found-Holds format (none, s) e = same_store s _ e
  found-Holds format (some v, s) e = same_store s _ e

  pub value_handler-Holds : (r : Request) → P (value_handler h std r w)
  unfolding value_handler
  value_handler-Holds r =
      one_of (r.url_type == "gauge") _ _
        (found-Holds std.format_float (h.storage.get_gauge r.url_name w.store)
          (ap (λ st. (st.get_gauge r.url_name w.store).1) mem))
        (one_of (r.url_type == "counter") _ _
          (found-Holds std.format_int (h.storage.get_counter r.url_name w.store)
            (ap (λ st. (st.get_counter r.url_name w.store).1) mem))
          (stays _))

  pub ping_handler-Holds : (r : Request) → P (ping_handler h std r w)
  unfolding ping_handler
  ping_handler-Holds r = go h.db
    where
      go :
          (o : Option (Option String))
          → P (elim o as (λ x. World MemStorage D O × List Call) [
            | none ↦ (w, error_reply "database not configured" 500)
            | some none ↦ (w, write_header 200 ∷ [])
            | some (some e) ↦ (w, error_reply "database ping error" 500)
          ])
      go none = stays _
      go (some none) = stays _
      go (some (some e)) = stays _

  pub root_handler-Holds : (order : MapOrder) (r : Request) → P (root_handler h std order r w)
  unfolding root_handler
  root_handler-Holds order r = same_store _ _ (ap (λ st. (st.get_all_metrics w.store).1) mem)

  -- `Asked` are the writes that the request asks for
  module _ (Asked : Write → Type 0)
      (changes : (w' : World MemStorage D O) (calls : List Call) (x : Write)
        → Asked x
        → w'.store ≡ write x w.store
        → P (w', calls))
      (now : Int64) (r : Request) where
    pub after_write-Holds :
        (names : List String) (x : Write) (result : Option String × MemStorage)
        (reply : World MemStorage D O → World MemStorage D O × List Call)
        → ((w : World MemStorage D O) → (reply w).0.store ≡ w.store)
        → Asked x
        → result ≡ (none, write x w.store)
        → P (after_write h std now r names result reply w)
    unfolding after_write
    after_write-Holds names x result reply keeps asked e =
        subst (λ p. P (after_write h std now r names p reply w)) (sym e)
          (changes _ _ x asked stored)
      where
        w' : World MemStorage D O
        w' = record w { store = write x w.store }

        stored :
            (after_write h std now r names (none, write x w.store) reply w).0.store
            ≡ write x w.store
        stored = keeps _ ∙ notify_audit-store h std now r names (try_sync_save h std w') ∙ save w'

    update_gauge-Holds :
        (o : Option Float64)
        → ((v : Float64) → o ≡ some v → Asked (gauge_write r.url_name v))
        → P (update_gauge h std now r o w)
    unfolding update_gauge
    update_gauge-Holds none asked = stays _
    update_gauge-Holds (some v) asked =
        after_write-Holds (r.url_name ∷ []) (gauge_write r.url_name v)
          (h.storage.set_gauge r.url_name v w.store) (ok_reply h std) (λ w. refl) (asked v refl)
          (ap (λ st. st.set_gauge r.url_name v w.store) mem)

    update_counter-Holds :
        (o : Option Int64)
        → ((d : Int64) → o ≡ some d → Asked (counter_write r.url_name d))
        → P (update_counter h std now r o w)
    unfolding update_counter
    update_counter-Holds none asked = stays _
    update_counter-Holds (some d) asked =
        after_write-Holds (r.url_name ∷ []) (counter_write r.url_name d)
          (h.storage.update_counter r.url_name d w.store) (ok_reply h std) (λ w. refl)
          (asked d refl) (ap (λ st. st.update_counter r.url_name d w.store) mem)

    pub update_handler-Holds :
        ((x : Write) → AskedByPath std r.url_type r.url_name r.url_value x → Asked x)
        → P (update_handler h std now r w)
    unfolding update_handler
    update_handler-Holds asked = one_of (not (r.method == "POST")) _ _ (stays _) (
        one_of (r.url_name == "") _ _ (stays _) (
          one_by (r.url_type == "gauge") _ _
            (λ g.
              update_gauge-Holds (std.parse_float r.url_value)
                (λ v e. asked _ (inl ((eq_iff _ _).0 g, (v, e, refl)))))
            (λ _.
              one_by (r.url_type == "counter") _ _
                (λ c.
                  update_counter-Holds (std.parse_int r.url_value)
                    (λ d e. asked _ (inr ((eq_iff _ _).0 c, (d, e, refl)))))
                (λ _. stays _))))

    apply_valid-Holds :
        (o : Option String) (ms : List Metrics)
        → (o ≡ none → Asked (batch_write ms))
        → P (apply_valid h std now r o ms w)
    unfolding apply_valid
    apply_valid-Holds (some e) ms asked = stays _
    apply_valid-Holds none ms asked =
        after_write-Holds (map (λ m. m.id) ms) (batch_write ms)
          (Batch.hide_error h std (h.storage.update_batch ms w.store)) (Batch.ok_reply h std)
          (λ w. refl) (asked refl)
          (ap (λ st. Batch.hide_error h std (st.update_batch ms w.store)) mem)

    updates-Holds :
        (o : Option (List Metrics))
        → ((x : Write) → AskedByBatch o x → Asked x)
        → P (updates h std now r o w)
    unfolding updates
    updates-Holds none asked = stays _
    updates-Holds (some []) asked = stays _
    updates-Holds (some (m ∷ ms)) asked =
        apply_valid-Holds (validate (m ∷ ms)) (m ∷ ms) (λ e. asked _ (m ∷ ms, refl, e, refl))

    pub updates_json_handler-Holds :
        ((x : Write) → AskedByBatch (std.decode_list (get_or r.body (whole []))) x → Asked x)
        → P (updates_json_handler h std now r w)
    unfolding updates_json_handler
    updates_json_handler-Holds = updates-Holds (std.decode_list (get_or r.body (whole [])))
