-- ===== src/Tests/JournalTests.antt =====
-- A durable engine whose journal is an association list.
use eventstore.Base.{
  ◌≡◌, refl, sym, ap, ◌∙◌, Bool, true, false, Option, none, some, List, [], ◌∷◌, Text, text_eq,
  text_eq_refl, eq_of_text_eq, ok, err, arith, if◌then◌else◌,
}
use eventstore.Es.Error.{Result}
use eventstore.CmdWorkflow.Act.{Act}
use eventstore.CmdWorkflow.Bus.{WorkflowRuntime}
use eventstore.CmdWorkflow.Durable.{Durable}

abbrev pub Journal : Type 0
Journal = List (Text × Text)

unfoldable pub entry : Journal → Text → Option Text
entry [] name = none
entry ((n, bytes) ∷ j) name = if text_eq n name then some bytes else entry j name

abbrev pub noted :
    {D : Type 0} → Journal → Text → Option (Result Text × D) → Option (Result Text × (Journal × D))
noted j name none = none
noted j name (some (err e, d)) = some (err e, (j, d))
noted j name (some (ok bytes, d)) = some (ok bytes, ((name, bytes) ∷ j, d))

abbrev pub step :
    {D : Type 0}
    → Text
    → Act D Text
    → Journal × D
    → Option Text
    → Option (Result Text × (Journal × D))
step name fn w (some bytes) = some (ok bytes, w)
step name fn w none = noted w.0 name (fn w.1)

unfoldable pub run : {D : Type 0} → Text → Act D Text → Act (Journal × D) Text
unfolding entry
run name fn w = step name fn w (entry w.0 name)

abbrev pub engine : {D : Type 0} → WorkflowRuntime Journal D
unfolding run
engine = record { run = run; run_async = run; spawn = λ name fn w. fn w }

step-replays :
    {D : Type 0} (name : Text) (fn : Act D Text) (w : Journal × D) (bytes : Text) (o : Option Text)
    → o ≡ some bytes
    → step name fn w o ≡ some (ok bytes, w)
step-replays name fn w bytes none h = absurd (ground arith)
step-replays name fn w bytes (some b) h = ap (λ (z : Option Text). step name fn w z) h

noted-entry :
    {D : Type 0} (name : Text) (j : Journal) (o : Option (Result Text × D)) (bytes : Text)
    (w' : Journal × D)
    → noted j name o ≡ some (ok bytes, w')
    → entry w'.0 name ≡ some bytes
unfolding entry
noted-entry name j none bytes w' h = absurd (ground arith)
noted-entry name j (some (err e, d)) bytes w' h = absurd (ground arith)
noted-entry name j (some (ok b, d)) bytes w' h =
    let is : ((name, b) ∷ j, d) ≡ w' = cc h in
    let same : b ≡ bytes = cc h in
    ap (λ (z : Journal × _). entry z.0 name) (sym is) ∙ rw (text_eq_refl name, same) refl

step-entry :
    {D : Type 0} (name : Text) (fn : Act D Text) (w w' : Journal × D) (bytes : Text)
    (o : Option Text)
    → entry w.0 name ≡ o
    → step name fn w o ≡ some (ok bytes, w')
    → entry w'.0 name ≡ some bytes
step-entry name fn w w' bytes none e h = noted-entry name w.0 (fn w.1) bytes w' h
step-entry name fn w w' bytes (some b) e h =
    let same : b ≡ bytes = cc h in
    let still : w ≡ w' = cc h in
    ap (λ (z : Journal × _). entry z.0 name) (sym still) ∙ e ∙ ap (λ z. some z) same

entry-cons :
    (name other b bytes : Text) (j : Journal)
    → entry j name ≡ none
    → entry j other ≡ some bytes
    → entry ((name, b) ∷ j) other ≡ some bytes
unfolding entry
entry-cons name other b bytes j e k = entry_case (text_eq name other) refl
  where
    entry_case :
        (t : Bool) → text_eq name other ≡ t → (if t then some b else entry j other) ≡ some bytes
    entry_case false h = k
    entry_case true h =
        absurd (ground (arith, sym e ∙ ap (λ n. entry j n) (eq_of_text_eq name other h) ∙ k))

noted-keeps :
    {D : Type 0} (name other : Text) (j : Journal) (o : Option (Result Text × D)) (r : Result Text)
    (bytes : Text) (w' : Journal × D)
    → entry j name ≡ none
    → noted j name o ≡ some (r, w')
    → entry j other ≡ some bytes
    → entry w'.0 other ≡ some bytes
noted-keeps name other j none r bytes w' e h k = absurd (ground arith)
noted-keeps name other j (some (err x, d)) r bytes w' e h k =
    let is : (j, d) ≡ w' = cc h in ap (λ (z : Journal × _). entry z.0 other) (sym is) ∙ k
noted-keeps name other j (some (ok b, d)) r bytes w' e h k =
    let is : ((name, b) ∷ j, d) ≡ w' = cc h in
    ap (λ (z : Journal × _). entry z.0 other) (sym is) ∙ entry-cons name other b bytes j e k

step-keeps :
    {D : Type 0} (name other : Text) (fn : Act D Text) (r : Result Text) (bytes : Text)
    (w w' : Journal × D) (o : Option Text)
    → entry w.0 name ≡ o
    → step name fn w o ≡ some (r, w')
    → entry w.0 other ≡ some bytes
    → entry w'.0 other ≡ some bytes
step-keeps name other fn r bytes w w' none e h k =
    noted-keeps name other w.0 (fn w.1) r bytes w' e h k
step-keeps name other fn r bytes w w' (some b) e h k =
    let still : w ≡ w' = cc h in ap (λ (z : Journal × _). entry z.0 other) (sym still) ∙ k

pub engine-Durable : {D : Type 0} → Durable (engine {D = D})
unfolding run
engine-Durable = record {
  journal = entry;
  run_replays = λ name fn bytes j d h. step-replays name fn (j, d) bytes (entry j name) h;
  run_journals = λ name fn bytes w w' h. step-entry name fn w w' bytes (entry w.0 name) refl h;
  run_keeps = λ name other fn r bytes w w' h k.
      step-keeps name other fn r bytes w w' (entry w.0 name) refl h k;
  async_same = λ name fn w. refl;
}
