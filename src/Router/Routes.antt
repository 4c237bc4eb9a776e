-- ===== src/Router/Routes.antt =====
-- cmd/server/main.go, `buildRouter`: the table of routes, and the whole server over it. chi, which finds
-- the route of a request, is a parameter.
use gometrics.Prelude.{String, Option, none, some, List, [], ◌∷◌, Bytes}
use gometrics.Models.{Int64}
use gometrics.Storage.File.{MapOrder}
use gometrics.Http.{Request, Call}
use gometrics.Crypto.{Primitives}
use gometrics.Middleware.{HttpHandler, GzipLib}
use gometrics.Handler.{Handler, Std, World}
use gometrics.Handler.Plain.{update_handler, value_handler, ping_handler}
use gometrics.Handler.Json.{update_json_handler, value_json_handler}
use gometrics.Handler.Batch.{updates_json_handler}
use gometrics.Handler.Page.{root_handler}
use gometrics.Router.{router}

-- the handlers that are registered
pub data Endpoint : Type 0 where
  update_json value_json update_path value_path root ping updates_json : Endpoint

pub record Route : Type 0 where
  pub method : String
  pub pattern : String
  pub endpoint : Endpoint

abbrev pub route : String → String → Endpoint → Route
route method pattern endpoint = record { method = method; pattern = pattern; endpoint = endpoint }

abbrev pub routes : List Route
routes =
    route "POST" "/update" update_json
    ∷ route "POST" "/value" value_json
    ∷ route "POST" "/update/" update_json
    ∷ route "POST" "/value/" value_json
    ∷ route "POST" "/update/{type}/{name}/{value}" update_path
    ∷ route "GET" "/value/{type}/{name}" value_path
    ∷ route "GET" "/" root
    ∷ route "GET" "/ping" ping
    ∷ route "POST" "/updates" updates_json
    ∷ route "POST" "/updates/" updates_json
    ∷ []

-- a route that was found, with the values of its URL parameters
pub record Match : Type 0 where
  pub route : Route
  pub url_type : String
  pub url_name : String
  pub url_value : String

-- chi by the method and the path of a request: the route, or its own reply (404 or 405)
pub record Mux : Type 0 where
  pub find : List Route → String → String → Option Match
  pub refuse : List Route → String → String → List Call

-- What a request brings that the handlers do not read of the request itself: the path, the time, and
-- the order in which a page visits the two maps.
pub record Moment : Type 0 where
  pub path : String
  pub now : Int64
  pub order : MapOrder

module _ {S D O : Type 0} (h : Handler S D O) (std : Std) (mux : Mux) (at : Moment) where
  unfoldable pub handle : Endpoint → HttpHandler (World S D O)
  handle update_json r w = update_json_handler h std at.now r w
  handle value_json r w = value_json_handler h std r w
  handle update_path r w = update_handler h std at.now r w
  handle value_path r w = value_handler h std r w
  handle root r w = root_handler h std at.order r w
  handle ping r w = ping_handler h std r w
  handle updates_json r w = updates_json_handler h std at.now r w

  abbrev pub with_params : Match → Request → Request
  with_params m r = record r {
    url_type = m.url_type;
    url_name = m.url_name;
    url_value = m.url_value;
  }

  unfoldable pub dispatch_to : Option Match → HttpHandler (World S D O)
  unfolding handle
  dispatch_to none r w = (w, mux.refuse routes r.method at.path)
  dispatch_to (some m) r w = handle m.route.endpoint (with_params m r) w

  unfoldable pub dispatch : HttpHandler (World S D O)
  unfolding dispatch_to
  dispatch r w = dispatch_to (mux.find routes r.method at.path) r w

  -- the router that `buildRouter` returns
  unfoldable pub server :
      {Public Private : Type 0}
      → Primitives Public Private
      → GzipLib
      → (Bytes → Bytes → Bytes)
      → String
      → Option Private
      → HttpHandler (World S D O)
  unfolding dispatch
  server p lib hmac key priv = router p lib hmac key priv dispatch
