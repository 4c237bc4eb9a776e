-- ===== src/Audit/Observers/Lines.antt =====
-- What stands in the audit file.
use gometrics.Prelude.{
  String, Bool, true, false, Option, none, some, List, [], ◌∷◌, ◌++◌, ◌≡◌, refl, sym, ap, ◌∙◌,
  append_assoc, append-nil, Bytes, map,
}
use gometrics.Audit.{Event, Subject}
use gometrics.Audit.Worker.{Action, start, run}
use gometrics.Audit.Worker.Delivery.{feed, run-IsSound-start}
use gometrics.Audit.Observers.{
  FileObserver, FileState, new_file_observer, notify_file, then_append, opened_file, append_line,
  fine, file_interface, next_answer,
}

module _ (marshal : Event → Option Bytes) where
  -- the line of an event; one that cannot be marshalled has none
  abbrev pub line_of : Option Bytes → Bytes
  line_of none = []
  line_of (some line) = line ++ 10 ∷ []

  abbrev pub log : List Event → Bytes
  log [] = []
  log (e ∷ es) = line_of (marshal e) ++ log es

  -- a file observer whose calls to the operating system succeed
  abbrev pub in_order : FileObserver → FileState
  in_order f = record { observer = f; answers = [] }

  notify_file-line :
      (o : Option Bytes) (f : FileObserver)
      → (g : FileObserver) × ((notify_file o fine f).1 ≡ g) × (g.written ≡ f.written ++ line_of o)
  unfolding notify_file then_append opened_file append_line
  notify_file-line none f = (f, refl, sym (append-nil f.written))
  notify_file-line (some line) f = go f.file refl
    where
      go :
          (b : Bool)
          → f.file ≡ b
          → (g : FileObserver) × ((notify_file (some line) fine f).1 ≡ g)
            × (g.written ≡ f.written ++ (line ++ 10 ∷ []))
      go true e = (
        record f { written = f.written ++ (line ++ 10 ∷ []) },
        ap (λ b. (then_append (opened_file none b f) fine (line ++ 10 ∷ [])).1) e,
        refl,
      )
      go false e = (
        record f { file = true; written = f.written ++ (line ++ 10 ∷ []) },
        ap (λ b. (then_append (opened_file none b f) fine (line ++ 10 ∷ [])).1) e,
        refl,
      )

  feed-log :
      (es : List Event) (f : FileObserver)
      → (g : FileObserver) × (feed (file_interface marshal) es (in_order f) ≡ in_order g)
        × (g.written ≡ f.written ++ log es)
  unfolding feed file_interface next_answer
  feed-log [] f = (f, refl, sym (append-nil f.written))
  feed-log (e ∷ es) f =
      let (g, p, q) = notify_file-line (marshal e) f in
      let (h, r, t) = feed-log es g in
      (
        h,
        ap (λ x. feed (file_interface marshal) es (in_order x)) p ∙ r,
        t ∙ ap (λ w. w ++ log es) q ∙ append_assoc f.written (line_of (marshal e)) (log es),
      )

  -- Under every schedule of a new asynchronous subject with one file observer, whose calls to the
  -- operating system succeed: the file holds one line for each event that was handed out, in the order
  -- in which `Notify` accepted them, but none for an event that cannot be marshalled; the events that
  -- were accepted and are not in the file yet are those in the queue.
  pub run-log :
      (schedule : List Action) (path : String) (s : Subject FileState)
      → s.observers ≡ in_order (new_file_observer path) ∷ []
      → s.sync ≡ false
      → s.jobs ≡ []
      → s.dropped ≡ 0
      → s.done ≡ false
      → let s' = run (file_interface marshal) schedule (start s) in
        (f : FileObserver) × (s'.subject.observers ≡ in_order f ∷ [])
        × (f.written ≡ log s'.handed)
        × (s'.accepted ≡ s'.handed ++ s'.subject.jobs)
  unfolding new_file_observer
  run-log schedule path s observers a j d n =
      let s' = run (file_interface marshal) schedule (start s) in
      let sound = run-IsSound-start (file_interface marshal) schedule s a j d n in
      let (f, p, q) = feed-log s'.handed (new_file_observer path) in
      (
        f,
        sound.all_told
            ∙ ap (map (feed (file_interface marshal) s'.handed)) observers
            ∙ ap (λ o. o ∷ []) p,
        q,
        sound.in_order,
      )
