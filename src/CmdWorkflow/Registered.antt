-- ===== src/CmdWorkflow/Registered.antt =====
-- The subscribers of a bus after Register and With of cmdworkflow/bus.go.
use eventstore.Base.{
  ◌≡◌, ◌≢◌, refl, subst, Bool, true, false, Option, none, some, List, [], ◌∷◌, ◌++◌, Text, text_eq,
  arith, any_row, if◌then◌else◌, text_eq_sym,
}
use eventstore.CmdWorkflow.Subscriber.{
  Subscriber, refused, unless_panic, is_empty, register, with_subs, is_none, is_compensate,
  is_async,
}

empty_name : (t : Text) → t ≡ [] → is_empty t ≡ false → ⊥
empty_name [] e h = absurd (ground arith)
empty_name (c ∷ t) e h = absurd (ground arith)

module _ {S C E D : Type 0} where
  abbrev named : Text → List (Subscriber S C E D) → Bool
  named name subs = any_row (λ (x : Subscriber S C E D). text_eq x.name name) subs

  -- No two names are equal.
  abbrev pub DistinctNames : List (Subscriber S C E D) → Type 0
  DistinctNames [] = Unit
  DistinctNames (s ∷ subs) = (named s.name subs ≡ false) × DistinctNames subs

  -- A name, a Handle, a Compensate where the policy asks for one, and no asynchronous saga.
  abbrev pub Sound : Subscriber S C E D → Type 0
  Sound s =
      (s.name ≢ [])
      × (is_none s.handle ≡ false)
      × (is_compensate s.on_exhausted ≡ true → is_none s.compensate ≡ false)
      × (is_async s.mode ≡ true → is_compensate s.on_exhausted ≡ false)

  abbrev pub AllSound : List (Subscriber S C E D) → Type 0
  AllSound [] = Unit
  AllSound (s ∷ subs) = Sound s × AllSound subs

  refused-Sound :
      (subs : List (Subscriber S C E D)) (s : Subscriber S C E D)
      → refused subs s ≡ false
      → Sound s × (named s.name subs ≡ false)
  unfolding refused
  refused-Sound subs s h = (
    (λ e. empty_name s.name e (ground arith), ground arith, ground arith, ground arith),
    ground arith,
  )

  -- Two lists of which no name is in both.
  named-append :
      (name : Text) (subs : List (Subscriber S C E D)) (s : Subscriber S C E D)
      → named name subs ≡ false
      → text_eq s.name name ≡ false
      → named name (subs ++ (s ∷ [])) ≡ false
  unfolding any_row
  named-append name [] s h e = ground arith
  named-append name (x ∷ subs) s h e = ground (arith, named-append name subs s)

  DistinctNames-append :
      (subs : List (Subscriber S C E D)) (s : Subscriber S C E D)
      → DistinctNames subs
      → named s.name subs ≡ false
      → DistinctNames (subs ++ (s ∷ []))
  unfolding any_row
  DistinctNames-append [] s d h = (refl, tt)
  DistinctNames-append (x ∷ subs) s (n, d) h = (
    named-append x.name subs s n (ground (arith, text_eq_sym x.name s.name)),
    DistinctNames-append subs s d (ground arith),
  )

  AllSound-append :
      (subs : List (Subscriber S C E D)) (s : Subscriber S C E D)
      → AllSound subs
      → Sound s
      → AllSound (subs ++ (s ∷ []))
  AllSound-append [] s a h = (h, tt)
  AllSound-append (x ∷ subs) s (a, more) h = (a, AllSound-append subs s more h)

  register_case :
      (subs more : List (Subscriber S C E D)) (s : Subscriber S C E D) (r : Bool)
      → refused subs s ≡ r
      → DistinctNames subs
      → AllSound subs
      → (if r then none else some (subs ++ (s ∷ []))) ≡ some more
      → DistinctNames more × AllSound more
  register_case subs more s true e d a h = absurd (ground arith)
  register_case subs more s false e d a h =
      let (sound, fresh) = refused-Sound subs s e in
      let same : subs ++ (s ∷ []) ≡ more = cc h in
      subst (λ z. DistinctNames z × AllSound z) same
        (DistinctNames-append subs s d fresh, AllSound-append subs s a sound)

  then_register :
      (o : Option (List (Subscriber S C E D)))
      (f : List (Subscriber S C E D) → Option (List (Subscriber S C E D)))
      (more : List (Subscriber S C E D))
      → unless_panic o f ≡ some more
      → (one : List (Subscriber S C E D)) × (o ≡ some one) × (f one ≡ some more)
  then_register none f more h = absurd (ground arith)
  then_register (some one) f more h = (one, refl, h)

  -- If With does not panic on a bus whose subscribers have distinct names and are sound, then so are
  -- the subscribers after it: each has a name and a Handle, one with the policy Compensate has a
  -- Compensate function, and no asynchronous one has that policy.
  pub with_subs-AllSound :
      (subs new more : List (Subscriber S C E D))
      → DistinctNames subs
      → AllSound subs
      → with_subs subs new ≡ some more
      → DistinctNames more × AllSound more
  unfolding with_subs register
  with_subs-AllSound subs [] more d a h =
      let same : subs ≡ more = cc h in subst (λ z. DistinctNames z × AllSound z) same (d, a)
  with_subs-AllSound subs (s ∷ new) more d a h =
      let (one, first, rest) = then_register (register subs s) (λ xs. with_subs xs new) more h in
      let (d', a') = register_case subs one s (refused subs s) refl d a first in
      with_subs-AllSound one new more d' a' rest
