-- ===== src/Tests/Routing.antt =====
-- One request through the whole server.
use gometrics.Middleware.Once.{Handed}
use mathlib.Core.List.{Memᴰ}
use mathlib.Core.Option.{some-injective, none-ne-some}
use gometrics.Prelude.{
  String, Bool, true, false, Option, none, some, List, [], ◌∷◌, ◌≡◌, refl, sym, subst, ◌==◌,
  if◌then◌else◌, ap,
}
use text.Mathlib.TextEquality.{eq_iff}
use gometrics.Http.{error_reply}
use gometrics.Router.Routes.{Mux, Match, Route, Moment, server}
use gometrics.Router.Effects.{IsMux, Effect, server-Effect}
use gometrics.Tests.{keeps, same_order, handler, std, world, post, ciphers, gzip, hmac}

abbrev of : Route → Match
of t = record { route = t; url_type = "gauge"; url_name = "Load"; url_value = "7" }

-- the first route of the table for the method
abbrev first_for : List Route → String → Option Match
first_for [] method = none
first_for (t ∷ table) method =
    let rest = first_for table method in if t.method == method then some (of t) else rest

abbrev mux : Mux
mux = record {
  find = λ table method path. first_for table method;
  refuse = λ table method path. error_reply "404 page not found" 404;
}

found :
    (t : Route) (method : String) (b : Bool) (rest : Option Match) (m : Match) (table : List Route)
    → (b ≡ true → t.method ≡ method)
    → (rest ≡ some m → Memᴰ m.route table × (m.route.method ≡ method))
    → (if b then some (of t) else rest) ≡ some m
    → Memᴰ m.route (t ∷ table) × (m.route.method ≡ method)
found t method true rest m table same later e =
    let p : t ≡ m.route = ap (λ (m : Match). m.route) (some-injective _ _ e) in
    (Memᴰ.head (sym p), subst (λ (t : Route). t.method ≡ method) p (same refl))
found t method false rest m table same later e = let (member, q) = later e in (Memᴰ.tail member, q)

mux-IsMux : IsMux mux
mux-IsMux [] method path m e = absurd (none-ne-some m e)
mux-IsMux (t ∷ table) method path m e =
    found t method (t.method == method) (first_for table method) m table
      (λ q. (eq_iff t.method method).0 q) (mux-IsMux table method path m) e

abbrev at : Moment
at = record { path = "/update"; now = 1; order = same_order }

server-Effect_example :
    Effect std mux at
      (Handed ciphers gzip none post)
      "POST"
      world
      (server handler std mux at ciphers gzip hmac "" none post world).0
server-Effect_example =
    server-Effect handler refl std keeps mux mux-IsMux at ciphers gzip hmac "" none post world
