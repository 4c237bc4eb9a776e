-- ===== src/Handler/Setup.antt =====
-- internal/handler/handler.go: `NewHandler` and the setters, and the estimate of the length of the page.
use Prim.Native.String.{String}
use gometrics.Prelude.{ℕ, ◌+◌, ◌*◌, String, Option, none, length, bytes}
use gometrics.Storage.{Storage}
use gometrics.Crypto.Keys.{KeyFiles, KeyError, load_private_key, set_key}
use gometrics.Handler.Page.{
  root_page_gauge_head, root_page_counter_head, root_page_tail, row_open, row_mid, row_close,
}

-- every field of `Handler`; `audit` is a reference to a subject `A`, `db` to a database `B`
pub record Fields (S D A B K : Type 0) : Type 0 where
  pub storage : Storage S
  pub sync_save : Option (S × D → S × D)
  pub db : Option B
  pub key : String
  pub crypto_key : Option K
  pub audit : Option A

module _ {S D A B K : Type 0} where
  unfoldable pub new_handler : Storage S → Fields S D A B K
  new_handler storage = record {
    storage = storage;
    sync_save = none;
    db = none;
    key = "";
    crypto_key = none;
    audit = none;
  }

  abbrev pub set_signing_key : String → Fields S D A B K → Fields S D A B K
  set_signing_key key h = record h { key = key }

  abbrev pub set_sync_save : Option (S × D → S × D) → Fields S D A B K → Fields S D A B K
  set_sync_save f h = record h { sync_save = f }

  abbrev pub set_audit : Option A → Fields S D A B K → Fields S D A B K
  set_audit subject h = record h { audit = subject }

  abbrev pub set_db : Option B → Fields S D A B K → Fields S D A B K
  set_db db h = record h { db = db }

  unfoldable pub set_crypto_key :
      {Public : Type 0}
      → KeyFiles Public K
      → String
      → Fields S D A B K
      → Option KeyError × Fields S D A B K
  set_crypto_key files path h =
      let (err, key) = set_key files (load_private_key files) path h.crypto_key in
      (err, record h { crypto_key = key })

abbrev size_of : String → ℕ
size_of s = length (bytes s)

unfoldable pub root_page_size : ℕ → ℕ → ℕ
root_page_size gauges counters =
    let header_size =
      size_of root_page_gauge_head + size_of root_page_counter_head + size_of root_page_tail in
    let row_overhead = size_of row_open + size_of row_mid + size_of row_close in
    header_size + (gauges + counters) * (row_overhead + 24 + 16)
