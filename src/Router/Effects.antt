-- ===== src/Router/Effects.antt =====
-- What a request to the whole server can do.
use gometrics.Prelude.{
  get_or, ◌∙◌, String, Bool, true, false, Option, none, some, List, [], ◌∷◌, ◌≡◌, ◌⊎◌, inl, inr,
  refl, sym, subst, ◌==◌, if◌then◌else◌, Bytes, All,
}
use mathlib.Core.List.{Memᴰ}
use gometrics.Http.{whole, Request, Call}
use gometrics.Crypto.{Primitives}
use gometrics.Storage.Mem.{MemStorage, mem_storage}
use gometrics.Storage.Mem.Invariant.{Write, write}
use gometrics.Middleware.{
  HttpHandler, GzipLib, decrypt_middleware, gzip_middleware, logging_middleware, hash_middleware,
}
use gometrics.Middleware.Once.{
  Step, Handed, as_it_is, after, Step-method, Holds, logging_middleware-Holds,
  hash_middleware-Holds, gzip_middleware-Holds, decrypt_middleware-Holds,
}
use gometrics.Handler.{Handler, Std, World}
use gometrics.Handler.Reading.{SaveKeepsStore}
use gometrics.Handler.Effects.{
  value_handler-Holds, ping_handler-Holds, root_handler-Holds, update_handler-Holds,
  updates_json_handler-Holds, AskedByPath, AskedByBatch,
}
use gometrics.Handler.Json.Effects.{
  value_json_handler-Holds, update_json_handler-Holds, AskedByJson,
}
use gometrics.Router.{router}
use gometrics.Router.Routes.{
  Mux, Match, Route, Endpoint, Moment, routes, handle, dispatch, dispatch_to, with_params, server,
  update_json, value_json, update_path, value_path, root, ping, updates_json,
}

module _ {Public Private W : Type 0} (p : Primitives Public Private) (lib : GzipLib)
    (priv : Option Private) (R : Request → W → W → Type 0) (stays : (r : Request) (w : W) → R r w w)
    (before : (r r' : Request) (w w' : W) → Step p lib priv r r' → R r' w w' → R r w w') where
  router-Holds :
      (hmac : Bytes → Bytes → Bytes) (key : String) (next : HttpHandler W)
      → Holds p lib priv R stays before next
      → Holds p lib priv R stays before (router p lib hmac key priv next)
  unfolding router
  router-Holds hmac key next h = go (key == "")
    where
      inner : HttpHandler W
      inner = decrypt_middleware p priv (gzip_middleware lib (logging_middleware next))

      inner_holds : Holds p lib priv R stays before inner
      inner_holds = decrypt_middleware-Holds p lib priv R stays before _ (
          gzip_middleware-Holds p lib priv R stays before _
            (logging_middleware-Holds p lib priv R stays before next h))

      go :
          (b : Bool)
          → Holds p lib priv R stays before (if b then inner else hash_middleware hmac key inner)
      go true = inner_holds
      go false = hash_middleware-Holds p lib priv R stays before hmac key inner inner_holds

-- the endpoints that write are registered for POST
abbrev WritesBy : Endpoint → String → Type 0
WritesBy update_json method = method ≡ "POST"
WritesBy update_path method = method ≡ "POST"
WritesBy updates_json method = method ≡ "POST"
WritesBy _ method = Unit

abbrev WritesByPost : Route → Type 0
WritesByPost t = WritesBy t.endpoint t.method

routes_write : All WritesByPost routes
routes_write = (refl, (tt, (refl, (tt, (refl, (tt, (tt, (tt, (refl, (refl, tt))))))))))

of_all : (P : Route → Type 0) (t : Route) (table : List Route) → All P table → Memᴰ t table → P t
of_all P t [] h m = elim m [ ]
of_all P t (x ∷ table) (h, hs) (Memᴰ.head e) = subst P (sym e) h
of_all P t (x ∷ table) (h, hs) (Memᴰ.tail m) = of_all P t table hs m

-- What chi promises of a route that it finds: it is in the table, for the method of the request.
abbrev pub IsMux : Mux → Type 0
IsMux mux =
    (table : List Route) (method path : String) (m : Match)
    → mux.find table method path ≡ some m
    → Memᴰ m.route table × (m.route.method ≡ method)

-- The write that a request asks for at an endpoint: by path the one that its URL parameters name, else
-- the one that its body decodes to. `r` is the request as it comes to the handler.
abbrev pub Asked : Std → Match → Request → Endpoint → Write → Type 0
Asked std m r update_path x = AskedByPath std m.url_type m.url_name m.url_value x
Asked std m r update_json x = AskedByJson (std.decode (get_or r.body (whole []))) x
Asked std m r updates_json x = AskedByBatch (std.decode_list (get_or r.body (whole []))) x
Asked std m r value_json x = ⊥
Asked std m r value_path x = ⊥
Asked std m r root x = ⊥
Asked std m r ping x = ⊥

-- Nothing was changed, or the store took the write that a POST request to its route asks for; `From`
-- are the requests that may come to the handler.
abbrev pub Effect :
    {D O : Type 0}
    → Std
    → Mux
    → Moment
    → (Request → Type 0)
    → String
    → World MemStorage D O
    → World MemStorage D O
    → Type 0
Effect std mux at From method w w' =
    (w' ≡ w)
    ⊎ ((method ≡ "POST")
        × ((m : Match) × (mux.find routes method at.path ≡ some m)
            × ((r : Request) × From r
                × ((x : Write) × Asked std m r m.route.endpoint x × (w'.store ≡ write x w.store)))))

module _ {D O : Type 0} (h : Handler MemStorage D O) (mem : h.storage ≡ mem_storage) (std : Std)
    (save : SaveKeepsStore h std) (mux : Mux) (law : IsMux mux) (at : Moment) where
  module _ (w : World MemStorage D O) (m : Match) (r : Request) where
    -- nothing was changed, or the store took the write that is asked for at the endpoint `e`
    abbrev By : Endpoint → World MemStorage D O × List Call → Type 0
    By e p = (p.0 ≡ w) ⊎ ((x : Write) × Asked std m r e x × (p.0.store ≡ write x w.store))

    abbrev with_url : Request
    with_url = with_params h std mux at m r

    handle-By : (e : Endpoint) → By e (handle h std mux at e with_url w)
    unfolding handle
    handle-By value_json =
        value_json_handler-Holds h mem std save (By value_json) w (λ c. inl refl) with_url
    handle-By value_path =
        value_handler-Holds h mem std save (By value_path) w (λ c. inl refl) with_url
    handle-By root = root_handler-Holds h mem std save (By root) w (λ c. inl refl) at.order with_url
    handle-By ping = ping_handler-Holds h mem std save (By ping) w (λ c. inl refl) with_url
    handle-By update_json =
        update_json_handler-Holds h mem std save (By update_json) w (λ c. inl refl)
          (Asked std m r update_json) (λ w' c x a e. inr (x, a, e)) at.now with_url (λ x a. a)
    handle-By update_path =
        update_handler-Holds h mem std save (By update_path) w (λ c. inl refl)
          (Asked std m r update_path) (λ w' c x a e. inr (x, a, e)) at.now with_url (λ x a. a)
    handle-By updates_json =
        updates_json_handler-Holds h mem std save (By updates_json) w (λ c. inl refl)
          (Asked std m r updates_json) (λ w' c x a e. inr (x, a, e)) at.now with_url (λ x a. a)

  -- an endpoint at which a write can be asked for is registered for POST
  Asked-post :
      (m : Match) (r : Request) (e : Endpoint) (x : Write) (method : String)
      → WritesBy e method
      → Asked std m r e x
      → method ≡ "POST"
  Asked-post m r update_json x method p a = p
  Asked-post m r update_path x method p a = p
  Asked-post m r updates_json x method p a = p
  Asked-post m r value_json x method p a = elim a [ ]
  Asked-post m r value_path x method p a = elim a [ ]
  Asked-post m r root x method p a = elim a [ ]
  Asked-post m r ping x method p a = elim a [ ]

  dispatch-Effect :
      (From : Request → Type 0) (r : Request) (w : World MemStorage D O)
      → From r
      → Effect std mux at From r.method w (dispatch h std mux at r w).0
  unfolding dispatch dispatch_to
  dispatch-Effect From r w from = go (mux.find routes r.method at.path) refl
    where
      go :
          (o : Option Match)
          → mux.find routes r.method at.path ≡ o
          → Effect std mux at From r.method w (dispatch_to h std mux at o r w).0
      go none e = inl refl
      go (some m) e =
          let (member, same) = law routes r.method at.path m e in
          let by_post =
            subst (WritesBy m.route.endpoint) same
              (of_all WritesByPost m.route routes routes_write member) in
          elim (handle-By w m r m.route.endpoint) [
            | inl k ↦ inl k
            | inr (x, a, s) ↦
                inr (
                  Asked-post m r m.route.endpoint x r.method by_post a,
                  (m, e, (r, from, (x, a, s))),
                )
          ]

  -- A request to the server leaves the store, the disk behind the synchronous save and the audit
  -- subject as they were, or it is a POST request to a route that the multiplexer found, and the store
  -- takes just the write that is asked for there: at the path, the gauge or counter of the name in the
  -- URL with its parsed value; at the JSON endpoints, the value or delta of the one metric, or the
  -- whole checked batch, that the body of the request decodes to after the middleware has read,
  -- decrypted or unpacked it. At the other routes nothing is written. The metrics are kept in memory,
  -- a synchronous save does not change them, and the multiplexer finds routes of the table by their
  -- method; the keys, the ciphers, gzip and the libraries are any.
  pub server-Effect :
      {Public Private : Type 0} (p : Primitives Public Private) (lib : GzipLib)
      (hmac : Bytes → Bytes → Bytes) (key : String) (priv : Option Private) (r : Request)
      (w : World MemStorage D O)
      → Effect std mux at
          (Handed p lib priv r)
          r.method
          w
          (server h std mux at p lib hmac key priv r w).0
  unfolding server
  server-Effect p lib hmac key priv =
      router-Holds p lib priv (λ r. Effect std mux at (Handed p lib priv r) r.method)
        (λ r w. inl refl) widened hmac key (dispatch h std mux at)
        (λ r w. dispatch-Effect (Handed p lib priv r) r w (as_it_is r))
    where
      widened :
          (r r' : Request) (w w' : World MemStorage D O)
          → Step p lib priv r r'
          → Effect std mux at (Handed p lib priv r') r'.method w w'
          → Effect std mux at (Handed p lib priv r) r.method w w'
      widened r r' w w' step (inl k) = inl k
      widened r r' w w' step (inr (post, (m, e, (r'', from, x)))) =
          let same = Step-method step in
          inr (
            sym same ∙ post,
            (
              m,
              subst (λ v. mux.find routes v at.path ≡ some m) same e,
              (r'', after r r' r'' step from, x),
            ),
          )
