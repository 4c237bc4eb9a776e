-- ===== src/Tests.antt =====
-- Test data: small stand-ins for what is not in the repository, and small inputs.
mod Server
mod Storing
mod Client
mod Pooling
mod AgentStart
mod Database
mod Tools
mod Serving
mod Counting
mod Lint
mod Routing
mod Limiting
mod Delivery
mod Repeating
use mathlib.Core.Option.{some-injective}
use gometrics.Prelude.{
  ℕ, ◌+◌, ◌≤◌, ◌<◌, String, Bool, true, false, Option, none, some, List, [], ◌∷◌, ◌++◌, ◌≡◌, refl,
  sym, ap, subst, arith, Bytes, drop, length,
}
use gometrics.Prelude.Dict
use gometrics.Models.{Metrics}
use gometrics.Storage.File.{Json, MapOrder}
use gometrics.Storage.File.Trip.{IsOrder}
use gometrics.Storage.Mem.{MemStorage, mem_storage, new_mem_storage}
use gometrics.Audit.{Interface, Subject, delivered, Event}
use gometrics.Handler.{Handler, Std, World, try_sync_save}
use gometrics.Handler.Reading.{SaveKeepsStore}
use gometrics.Http.{Request, whole}
use gometrics.Crypto.{Primitives}
use gometrics.Crypto.Trip.{IsPair}
use gometrics.Middleware.{GzipLib}
use gometrics.Middleware.Passes.{IsGzip}

-- a codec that writes the metrics as they are
abbrev json : Json (List Metrics)
json = record { marshal_indent = λ ms. some ms; unmarshal = λ ms. some ms }

abbrev same_order : MapOrder
same_order = record { gauge_range = λ m. m; counter_range = λ m. m }

same_order-IsOrder : IsOrder same_order
same_order-IsOrder = record {
  gauges_once = λ m h. h;
  gauges_same = λ k m. refl;
  counters_once = λ m h. h;
  counters_same = λ k m. refl;
}

abbrev load : Metrics
load = record { id = "Load"; mtype = "gauge"; delta = none; value = some 7; hash = "" }

abbrev polls : Metrics
polls = record { id = "Polls"; mtype = "counter"; delta = some 3; value = none; hash = "" }

-- an observer that counts
abbrev counting : Interface ℕ
counting = record { notify = λ n e. (delivered, n + 1); close = λ n. none }

abbrev event : Event
event = record { ts = 1; metrics = "Load" ∷ []; ip_address = "10.0.0.1" }

abbrev subject : Subject ℕ
subject = record {
  observers = 0 ∷ [];
  queue_size = 1;
  sync = false;
  jobs = [];
  stop = false;
  done = false;
  dropped = 0;
}

abbrev std : Std
std = record {
  parse_float = λ s. some 7;
  parse_int = λ s. some 3;
  format_float = λ v. "7";
  format_int = λ d. "3";
  decode = λ b. some load;
  decode_list = λ b. some (load ∷ polls ∷ []);
  encode = λ m. some [];
  split_host_port = λ s. some s;
}

abbrev handler : Handler MemStorage ℕ ℕ
handler = record {
  storage = mem_storage;
  sync_save = some (λ p. (p.0, p.1 + 1));
  db = none;
  observers = counting;
}

abbrev world : World MemStorage ℕ ℕ
world = record { store = new_mem_storage; disk = 0; audit = some subject }

keeps : SaveKeepsStore handler std
unfolding try_sync_save
keeps w = refl

abbrev post : Request
post = record {
  method = "POST";
  headers = [];
  body = some (whole (1 ∷ 2 ∷ []));
  remote_addr = "10.0.0.1";
  url_type = "gauge";
  url_name = "Load";
  url_value = "7";
}

-- the key is wrapped behind a zero, and the seal is sixteen zeros before the text
abbrev tag : Bytes
tag = 0 ∷ 0 ∷ 0 ∷ 0 ∷ 0 ∷ 0 ∷ 0 ∷ 0 ∷ 0 ∷ 0 ∷ 0 ∷ 0 ∷ 0 ∷ 0 ∷ 0 ∷ 0 ∷ []

abbrev ciphers : Primitives Unit Unit
ciphers = record {
  encrypt_oaep = λ k cek. some (0 ∷ cek);
  decrypt_oaep = λ k w. some (drop 1 w);
  new_cipher = λ cek. true;
  new_gcm = λ cek. true;
  seal = λ cek nonce text ad. tag ++ text;
  open_sealed = λ cek nonce text ad. some (drop 16 text);
}

ciphers-IsPair : IsPair ciphers tt tt
ciphers-IsPair = record {
  unwraps = λ cek w e. ap (λ l. some (drop 1 l)) (sym (some-injective _ _ e));
  wrapped = λ cek w e. subst (λ l. 0 < length l) (some-injective _ _ e) (omega arith);
  opens = λ cek nonce text ad. refl;
  tagged = λ cek nonce text ad. omega arith;
}

-- packed: behind a byte
abbrev gzip : GzipLib
gzip = record {
  gzip = λ b. 31 ∷ b;
  open_reader = λ b. none;
  gunzip = λ b. whole (drop 1 b.content);
}

gzip-IsGzip : IsGzip gzip
gzip-IsGzip = record { not_empty = λ b e. cc e; opens = λ b. refl; unpacks = λ b. refl }

abbrev hmac : Bytes → Bytes → Bytes
hmac key body = key ++ body
