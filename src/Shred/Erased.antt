-- ===== src/Shred/Erased.antt =====
-- A forgotten subject's data cannot be read again through the Shredder (shred/shred.go).
use eventstore.Base.{
  ℕ, ◌≡◌, refl, sym, ap, subst, Bool, true, false, Option, none, some, List, [], ◌∷◌, Text, text_eq,
  eq_of_text_eq, err, All,
}
use eventstore.Es.Error.{Result}
use eventstore.Es.Envelope.{Time}
use eventstore.Shred.Cache.{
  bare, cache_key, find_dek, get_dek, forget_dek, cache_key-injective, find_dek-where_rows,
  find_dek-forgotten,
}
use eventstore.Shred.Field.{Aead, seal_field, open_field}
use eventstore.Shred.Shredder.{
  ShredError, ShredResult, KeyStore, World, ensure_subject_key, encrypt_field, decrypt_cached,
  decrypt_field, forget_subject, clear_cache, then_field,
}
use eventstore.Shred.SubjectTable.{SubjectRow, Table, find_subject, sqlite_subjects}
use eventstore.Shred.Forgotten.{
  Gone, Refused, shred_subject-has_shredded, shred_subject-shreds, ensure_subject_key-Refused,
  decrypt_cached-Gone,
}
use eventstore.Shred.Rewrap.{Rewrapped, rewrap_deks}
use eventstore.Shred.RewrapStays.{LostAfter, rewrap_deks-Lost}
use eventstore.Shred.Stays.{
  ShredCall, ensure_call, encrypt_call, decrypt_call, forget_call, clear_call, rewrap_call,
  world_after, run_call, then_calls, run_calls, Proper, ensure_cached-Lost, decrypt_cached-Lost,
  then_field-Lost,
}

module _ (parse_time : Text → Result Time) {K : Type 0} (kms : KeyStore K) (aead : Aead) where
  abbrev Kept : Text → Text → World K Table → Type 0
  Kept t s w = Gone t s w.cache w.store

  abbrev KeptAfter : Text → Text → Option (World K Table) → Type 0
  KeptAfter t s none = Unit
  KeptAfter t s (some w) = Kept t s w

  module _ (t s : Text) (b : bare t ≡ true) where
    -- A call for the subject itself, or for one with another key.
    by_key :
        (P : Text → Text → Type 0) (t' s' : Text) (same : Bool)
        → bare t' ≡ true
        → text_eq (cache_key t' s') (cache_key t s) ≡ same
        → P t s
        → (text_eq (cache_key t' s') (cache_key t s) ≡ false → P t' s')
        → P t' s'
    by_key P t' s' false b' e here there = there e
    by_key P t' s' true b' e here there =
        let (tenant, subject) =
          cache_key-injective t' s' t s b' b (eq_of_text_eq (cache_key t' s') (cache_key t s) e) in
        subst (λ x. P x s') (sym tenant) (subst (λ x. P t x) (sym subject) here)

    Refused-Kept :
        (w : World K Table) (out : ShredResult Text × World K Table)
        → Kept t s w
        → Refused parse_time kms aead w out
        → Kept t s out.1
    Refused-Kept w out h (e, is) =
        subst (λ (z : ShredResult Text × World K Table). Kept t s z.1) (sym is) h

    ensure_subject_key-Kept :
        (now t' s' : Text) (fresh : Result Text) (w : World K Table)
        → bare t' ≡ true
        → Kept t s w
        → Kept t s (ensure_subject_key kms (sqlite_subjects parse_time now) t' s' fresh w).1
    unfolding ensure_subject_key
    ensure_subject_key-Kept now t' s' fresh w b' h =
        by_key
          (λ x y. Kept t s (ensure_subject_key kms (sqlite_subjects parse_time now) x y fresh w).1)
          t' s' (text_eq (cache_key t' s') (cache_key t s)) b' refl
          (Refused-Kept w (ensure_subject_key kms (sqlite_subjects parse_time now) t s fresh w) h
            (ensure_subject_key-Refused parse_time kms aead now t s fresh w h))
          (λ differ.
            ensure_cached-Lost parse_time kms aead t s b now t' s' differ fresh
              (get_dek t' s' w.cache) w h)

    decrypt_cached-Kept :
        (now t' s' : Text) (w : World K Table)
        → bare t' ≡ true
        → Kept t s w
        → Kept t s
            (decrypt_cached kms (sqlite_subjects parse_time now) t' s' (get_dek t' s' w.cache) w).1
    decrypt_cached-Kept now t' s' w b' h =
        by_key
          (λ x y.
            Kept t s
              (decrypt_cached kms (sqlite_subjects parse_time now) x y (get_dek x y w.cache) w).1)
          t' s' (text_eq (cache_key t' s') (cache_key t s)) b' refl
          (Refused-Kept w
            (decrypt_cached kms (sqlite_subjects parse_time now) t s (get_dek t s w.cache) w) h
            (decrypt_cached-Gone parse_time kms aead now t s w h))
          (λ differ.
            decrypt_cached-Lost parse_time kms aead t s b now t' s' differ (get_dek t' s' w.cache) w
              h)

    world_after-Kept :
        (now : Text) (o : Option (Rewrapped K Table))
        → LostAfter parse_time kms now t s o
        → KeptAfter t s (world_after parse_time kms aead o)
    world_after-Kept now none h = tt
    world_after-Kept now (some out) h = h

    run_call-Kept :
        (c : ShredCall) (w : World K Table)
        → Proper parse_time kms aead c
        → Kept t s w
        → KeptAfter t s (run_call parse_time kms aead c w)
    unfolding encrypt_field decrypt_field forget_subject clear_cache forget_dek find_dek
    run_call-Kept (ensure_call t' s' now fresh) w p h =
        ensure_subject_key-Kept now t' s' fresh w p h
    run_call-Kept (encrypt_call t' s' now fresh nonce pt) w p h =
        then_field-Lost parse_time kms aead t s b (λ dek. seal_field aead dek nonce pt)
          (ensure_subject_key kms (sqlite_subjects parse_time now) t' s' fresh w)
          (ensure_subject_key-Kept now t' s' fresh w p h)
    run_call-Kept (decrypt_call t' s' now sealed) w p h =
        then_field-Lost parse_time kms aead t s b (λ dek. open_field aead dek sealed)
          (decrypt_cached kms (sqlite_subjects parse_time now) t' s' (get_dek t' s' w.cache) w)
          (decrypt_cached-Kept now t' s' w p h)
    run_call-Kept (forget_call t' s' []) w p h = absurd p
    run_call-Kept (forget_call t' s' (c ∷ now)) w p (h, k) = (
      find_dek-where_rows (cache_key t s) (cache_key t' s') w.cache h,
      shred_subject-has_shredded t s t' s' c now w.store k,
    )
    run_call-Kept clear_call w p (h, k) = (refl, k)
    run_call-Kept (rewrap_call t' now fuel page) w p h =
        world_after-Kept now (rewrap_deks kms (sqlite_subjects parse_time now) fuel t' page w)
          (rewrap_deks-Lost parse_time kms now t s fuel t' page w h)

    then_calls-Kept :
        (next : World K Table → Option (World K Table)) (o : Option (World K Table))
        → ((w : World K Table) → Kept t s w → KeptAfter t s (next w))
        → KeptAfter t s o
        → KeptAfter t s (then_calls parse_time kms aead next o)
    then_calls-Kept next none f h = tt
    then_calls-Kept next (some w) f h = f w h

    run_calls-Kept :
        (cs : List ShredCall) (w : World K Table)
        → All (Proper parse_time kms aead) cs
        → Kept t s w
        → KeptAfter t s (run_calls parse_time kms aead cs w)
    run_calls-Kept [] w p h = h
    run_calls-Kept (c ∷ cs) w (p, ps) h =
        then_calls-Kept (run_calls parse_time kms aead cs) (run_call parse_time kms aead c w)
          (λ v. run_calls-Kept cs v ps) (run_call-Kept c w p h)

    forget_subject-Kept :
        (c : ℕ) (now : Text) (row : SubjectRow) (w : World K Table)
        → find_subject t s w.store ≡ some row
        → Kept t s (forget_subject kms (sqlite_subjects parse_time (c ∷ now)) t s w).1
    unfolding forget_subject forget_dek
    forget_subject-Kept c now row w h =
        (find_dek-forgotten (cache_key t s) w.cache, shred_subject-shreds t s c now row w.store h)

    then_field-err :
        (f : Text → Result Text) (w : World K Table) (out : ShredResult Text × World K Table)
        → Refused parse_time kms aead w out
        → (e : ShredError) × ((then_field kms (sqlite_subjects parse_time []) f out).0 ≡ err e)
    then_field-err f w out (e, is) = (
      e,
      ap
          (λ (z : ShredResult Text × World K Table).
            (then_field kms (sqlite_subjects parse_time []) f z).0)
          is,
    )

    -- Once ForgetSubject was called for a subject that has a row, of a tenant without a vertical
    -- bar, then after any calls of the methods of the same Shredder, RewrapDEKs among them, that
    -- run one after the other and return, where those that name a subject are for tenants without
    -- a vertical bar and each ForgetSubject is at a database time that is not empty, a DecryptField
    -- or an EncryptField for that subject fails, whatever the key store answers.
    pub forget_subject-erases :
        (c : ℕ) (now later sealed pt : Text) (fresh nonce : Result Text) (row : SubjectRow)
        (cs : List ShredCall) (w w' : World K Table)
        → find_subject t s w.store ≡ some row
        → All (Proper parse_time kms aead) cs
        → run_calls parse_time kms aead cs
            (forget_subject kms (sqlite_subjects parse_time (c ∷ now)) t s w).1
          ≡ some w'
        → ((e : ShredError) × ((decrypt_field kms
                (sqlite_subjects parse_time later)
                aead
                t
                s
                sealed
                w').0
              ≡ err e))
          × ((e : ShredError) × ((encrypt_field kms
                  (sqlite_subjects parse_time later)
                  aead
                  t
                  s
                  fresh
                  nonce
                  pt
                  w').0
                ≡ err e))
    unfolding decrypt_field encrypt_field
    forget_subject-erases c now later sealed pt fresh nonce row cs w w' h ps ran =
        let kept : Kept t s w' =
          subst (KeptAfter t s) ran (run_calls-Kept cs _ ps (forget_subject-Kept c now row w h)) in
        (
          then_field-err (λ dek. open_field aead dek sealed) w'
              (decrypt_cached kms (sqlite_subjects parse_time later) t s (get_dek t s w'.cache) w')
              (decrypt_cached-Gone parse_time kms aead later t s w' kept),
          then_field-err (λ dek. seal_field aead dek nonce pt) w'
              (ensure_subject_key kms (sqlite_subjects parse_time later) t s fresh w')
              (ensure_subject_key-Refused parse_time kms aead later t s fresh w' kept),
        )
