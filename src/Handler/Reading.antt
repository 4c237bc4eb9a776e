-- ===== src/Handler/Reading.antt =====
-- What a client reads after it wrote.
use gometrics.Storage.{Storage}
use gometrics.Audit.{Subject, new_event}
use gometrics.Prelude.{
  String, Option, none, some, List, [], ◌∷◌, ◌≡◌, ◌≢◌, refl, bytes, ◌∙◌, subst, sym, ne→eq_false,
}
use gometrics.Models.{Int64, gauge, counter, Float64, add64}
use gometrics.Http.{Request, write_header, write}
use gometrics.Storage.Mem
use gometrics.Storage.Mem.{MemStorage, mem_storage}
use gometrics.Handler.{
  Handler, Std, World, after_write, try_sync_save, notify_audit, notify_by, Subject, Float64,
  client_ip, Storage,
}
use gometrics.Handler.Plain.{
  ok_reply, update_gauge, update_counter, update_handler, value_handler, ok_reply, found,
}

module _ {S D O : Type 0} (h : Handler S D O) (std : Std) where
  -- The synchronous save reads the storage and does not change it.
  abbrev pub SaveKeepsStore : Type 0
  SaveKeepsStore = (w : World S D O) → (try_sync_save h std w).store ≡ w.store

  pub notify_audit-store :
      (now : Int64) (r : Request) (names : List String) (w : World S D O)
      → (notify_audit h std now r names w).store ≡ w.store
  unfolding notify_audit
  notify_audit-store now r [] w = refl
  notify_audit-store now r (n ∷ ns) w = go w.audit
    where
      go :
          (a : Option (Subject O))
          → (notify_by h std a (new_event now (n ∷ ns) (client_ip std r)) w).store ≡ w.store
      go none = refl
      go (some s) = refl

  pub after_write-store :
      SaveKeepsStore
      → (now : Int64) (r : Request) (names : List String) (s : S) (w : World S D O)
      → (after_write h std now r names (none, s) (ok_reply h std) w).0.store ≡ s
  unfolding after_write ok_reply
  after_write-store save now r names s w =
      let w' = record w { store = s } in
      notify_audit-store now r names (try_sync_save h std w') ∙ save w'

module _ {D O : Type 0} (h : Handler MemStorage D O) (mem : h.storage ≡ mem_storage) (std : Std)
    (save : SaveKeepsStore h std) where
  stored_gauge :
      (now : Int64) (r : Request) (v : Float64) (w : World MemStorage D O)
      → (update_gauge h std now r (some v) w).0.store ≡ Mem.set_gauge r.url_name v w.store
  unfolding update_gauge
  stored_gauge now r v w =
      let store = Mem.set_gauge r.url_name v w.store in
      subst
        (λ (st : Storage MemStorage).
          (after_write h std now r (r.url_name ∷ []) (st.set_gauge r.url_name v w.store)
            (ok_reply h std) w).0.store
          ≡ store)
        (sym mem) (after_write-store h std save now r (r.url_name ∷ []) store w)

  stored_counter :
      (now : Int64) (r : Request) (d : Int64) (w : World MemStorage D O)
      → (update_counter h std now r (some d) w).0.store ≡ Mem.update_counter r.url_name d w.store
  unfolding update_counter
  stored_counter now r d w =
      let store = Mem.update_counter r.url_name d w.store in
      subst
        (λ (st : Storage MemStorage).
          (after_write h std now r (r.url_name ∷ []) (st.update_counter r.url_name d w.store)
            (ok_reply h std) w).0.store
          ≡ store)
        (sym mem) (after_write-store h std save now r (r.url_name ∷ []) store w)

  found_gauge :
      (r : Request) (v : Float64) (w : World MemStorage D O)
      → r.url_type ≡ gauge
      → Mem.get_gauge r.url_name w.store ≡ some v
      → (value_handler h std r w).1 ≡ write_header 200 ∷ write (bytes (std.format_float v)) ∷ []
  unfolding value_handler
  found_gauge r v w t g = rw t (rw mem (rw (g, found) refl))

  found_counter :
      (r : Request) (v : Int64) (w : World MemStorage D O)
      → r.url_type ≡ counter
      → Mem.get_counter r.url_name w.store ≡ some v
      → (value_handler h std r w).1 ≡ write_header 200 ∷ write (bytes (std.format_int v)) ∷ []
  unfolding value_handler
  found_counter r v w t g = rw t (rw mem (rw (g, found) refl))

  -- the guards that every accepted request passes
  abbrev pub IsNamedPost : Request → Type 0
  IsNamedPost r = (r.method ≡ "POST") × (r.url_name ≢ "")

  update_handler-gauge :
      (now : Int64) (r : Request) (w : World MemStorage D O)
      → IsNamedPost r
      → r.url_type ≡ gauge
      → update_handler h std now r w ≡ update_gauge h std now r (std.parse_float r.url_value) w
  unfolding update_handler
  update_handler-gauge now r w (post, named) t =
      rw post (rw (ne→eq_false r.url_name "" named) (rw t refl))

  update_handler-counter :
      (now : Int64) (r : Request) (w : World MemStorage D O)
      → IsNamedPost r
      → r.url_type ≡ counter
      → update_handler h std now r w ≡ update_counter h std now r (std.parse_int r.url_value) w
  unfolding update_handler
  update_handler-counter now r w (post, named) t =
      rw post (rw (ne→eq_false r.url_name "" named) (rw t refl))

  -- A gauge that was written by an accepted request is read back by the next request for it as the
  -- text of the value that was parsed. The handler keeps its metrics in memory, and the synchronous
  -- save, if there is one, does not change them.
  pub value_handler-update_handler_gauge :
      (now : Int64) (r r' : Request) (v : Float64) (w : World MemStorage D O)
      → IsNamedPost r
      → r'.url_type ≡ r.url_type
      → r'.url_name ≡ r.url_name
      → r.url_type ≡ gauge
      → std.parse_float r.url_value ≡ some v
      → (value_handler h std r' (update_handler h std now r w).0).1
        ≡ write_header 200 ∷ write (bytes (std.format_float v)) ∷ []
  value_handler-update_handler_gauge now r r' v w post same_type same_name t p =
      found_gauge r' v _ (same_type ∙ t) (
        rw same_name (
          rw (update_handler-gauge now r w post t)
            (rw p (rw (stored_gauge now r v w) (Mem.get_gauge-set_gauge r.url_name v w.store)))))

  -- A counter that was updated by an accepted request is read back by the next request for it as the
  -- text of its old value (0 if there was none) plus the delta that was parsed, modulo 2^64. The
  -- handler keeps its metrics in memory, and the synchronous save, if there is one, does not change
  -- them.
  pub value_handler-update_handler_counter :
      (now : Int64) (r r' : Request) (d : Int64) (w : World MemStorage D O)
      → IsNamedPost r
      → r'.url_type ≡ r.url_type
      → r'.url_name ≡ r.url_name
      → r.url_type ≡ counter
      → std.parse_int r.url_value ≡ some d
      → (value_handler h std r' (update_handler h std now r w).0).1
        ≡ write_header 200
          ∷ write (bytes (std.format_int (add64 (Mem.current r.url_name w.store) d)))
          ∷ []
  value_handler-update_handler_counter now r r' d w post same_type same_name t p =
      found_counter r' _ _ (same_type ∙ t) (
        rw same_name (
          rw (update_handler-counter now r w post t) (
            rw p (
              rw (stored_counter now r d w)
                (Mem.get_counter-update_counter r.url_name d w.store)))))
