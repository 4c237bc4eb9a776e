-- ===== src/Audit/Observers.antt =====
-- internal/audit/audit.go: `FileObserver` and `URLObserver`. JSON, the file system and the HTTP client
-- are parameters; `Notify` and `Close` of a file observer hold its mutex throughout.
pub mod Lines
use gometrics.Prelude.{
  ℕ, String, Bool, true, false, Option, none, some, List, [], ◌∷◌, ◌++◌, leb, Bytes, if◌then◌else◌,
}
use gometrics.Audit.{Event, Interface, Delivery, delivered, refused}

-- a file that is open for appending, and its content
pub record FileObserver : Type 0 where
  pub path : String
  pub file : Bool
  pub written : Bytes

unfoldable pub new_file_observer : String → FileObserver
new_file_observer path = record { path = path; file = false; written = [] }

-- The answers of one call: of `os.OpenFile`, and of `Write` with what a failed one leaves; of `Close`.
pub record FileAnswers : Type 0 where
  pub opened : Option String
  pub wrote : Option (String × Bytes)
  pub closed : Option String

-- the file observer in its file system: the answers still to come
pub record FileState : Type 0 where
  pub observer : FileObserver
  pub answers : List FileAnswers

abbrev pub fine : FileAnswers
fine = record { opened = none; wrote = none; closed = none }

next_answer : List FileAnswers → FileAnswers × List FileAnswers
next_answer [] = (fine, [])
next_answer (a ∷ rest) = (a, rest)

append_line : Option (String × Bytes) → Bytes → FileObserver → Delivery × FileObserver
append_line none line f = (delivered, record f { written = f.written ++ line })
append_line (some (e, left)) line f = (refused e, record f { written = f.written ++ left })

-- `if f.file == nil`
opened_file : Option String → Bool → FileObserver → Option String × FileObserver
opened_file answer true f = (none, f)
opened_file none false f = (none, record f { file = true })
opened_file (some e) false f = (some e, f)

then_append : Option String × FileObserver → FileAnswers → Bytes → Delivery × FileObserver
unfolding append_line
then_append (some e, f) a line = (refused e, f)
then_append (none, f) a line = append_line a.wrote line f

-- `Notify` on the marshalled event; the line feed ends the line
unfoldable pub notify_file : Option Bytes → FileAnswers → FileObserver → Delivery × FileObserver
unfolding then_append opened_file
notify_file none a f = (refused "json: unsupported value", f)
notify_file (some line) a f = then_append (opened_file a.opened f.file f) a (line ++ 10 ∷ [])

-- `Close`; a failed close forgets the file too
unfoldable pub close_file : FileAnswers → FileObserver → Option String × FileObserver
close_file a f = if f.file then (a.closed, record f { file = false }) else (none, f)

abbrev pub is_open : FileObserver → Bool
is_open f = f.file

module _ (marshal : Event → Option Bytes) where
  -- `FileObserver` as an `Observer` that is an `io.Closer`
  unfoldable pub file_interface : Interface FileState
  unfolding next_answer notify_file
  file_interface = record {
    notify = λ s e.
        let (a, rest) = next_answer s.answers in
        let (d, f) = notify_file (marshal e) a s.observer in
        (d, record { observer = f; answers = rest });
    close = λ s.
        let (a, rest) = next_answer s.answers in
        let (e, f) = close_file a s.observer in some (e, record { observer = f; answers = rest });
  }

-- what `client.Do` answers: an error, or a status
pub data Posted : Type 0 where
  post_error : String → Posted
  answered : ℕ → Posted

-- the bodies that were posted, and the answers still to come
pub record UrlState : Type 0 where
  pub url_ok : Bool
  pub posted : List Bytes
  pub answers : List Posted

-- A 5xx answer is only logged.
judged : List Posted → Bytes → UrlState → Delivery × UrlState
judged [] body s = (delivered, record s { posted = s.posted ++ body ∷ [] })
judged (post_error e ∷ rest) body s = (refused e, record s { answers = rest })
judged (answered status ∷ rest) body s =
    (delivered, record s { posted = s.posted ++ body ∷ []; answers = rest })

-- `URLObserver.Notify`
unfoldable pub notify_url : Option Bytes → UrlState → Delivery × UrlState
unfolding judged
notify_url none s = (refused "json: unsupported value", s)
notify_url (some body) s = if s.url_ok then judged s.answers body s else (refused "invalid URL", s)

-- `URLObserver` is no `io.Closer`
unfoldable pub url_interface : (Event → Option Bytes) → Interface UrlState
unfolding notify_url
url_interface marshal = record { notify = λ s e. notify_url (marshal e) s; close = λ s. none }
