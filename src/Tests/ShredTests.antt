-- ===== src/Tests/ShredTests.antt =====
-- shred/: a cipher that appends a tag of zeros, a key store that wraps nothing, one subject.
use eventstore.Base.{
  ℕ, ◌-◌, ◌≡◌, ap, refl, true, Option, none, some, Text, text, text_eq, List, [], ◌∷◌, ◌++◌, ok,
  err, arith, length, take, length-append, ◌≤◌, ◌<◌, subst, any_row,
}
use eventstore.Shred.Field.{
  Aead, AeadLaws, seal_field, open_field, open_field-seal_field, take-front,
}
use eventstore.Shred.Shredder.{
  KeyStore, World, ShredError, clear_cache, ensure_subject_key, encrypt_field, decrypt_field,
  forget_subject,
}
use eventstore.Shred.Cache.{get_dek, forget_dek}
use eventstore.Shred.SubjectTable.{
  SubjectRow, Table, find_subject, sqlite_subjects, list_stale_subject_keys, get_subject_key,
  shred_subject, insert_by_subject, upsert_subject,
}
use eventstore.Shred.Stays.{
  ShredCall, ensure_call, decrypt_call, clear_call, rewrap_call, run_calls,
}
use eventstore.Shred.Erased.{forget_subject-erases}
use eventstore.Shred.Rewrap.{rewrap_deks}
use eventstore.Shred.Stale.{stale_count}
use eventstore.Shred.RewrapDone.{RunEnds, rewrap_deks-RunEnds}
use eventstore.Tests.ToyWire.{read_time}

abbrev zero_tag : Text
zero_tag = 0 ∷ 0 ∷ 0 ∷ 0 ∷ 0 ∷ 0 ∷ 0 ∷ 0 ∷ 0 ∷ 0 ∷ 0 ∷ 0 ∷ 0 ∷ 0 ∷ 0 ∷ 0 ∷ []

abbrev tagging : Aead
tagging = record {
  new_cipher = λ key. true;
  seal = λ key nonce pt. pt ++ zero_tag;
  open_ = λ key nonce ct. some (take (length ct - 16) ct);
}

tagging-AeadLaws : AeadLaws tagging
tagging-AeadLaws = record {
  opens = λ key nonce pt.
      ap (λ z. some z)
        (take-front (length (pt ++ zero_tag) - 16) pt zero_tag
          (omega (arith, length-append pt zero_tag)));
  tagged = λ key nonce pt. length-append pt zero_tag;
}

abbrev nonce : Text
nonce = 1 ∷ 2 ∷ 3 ∷ 4 ∷ 5 ∷ 6 ∷ 7 ∷ 8 ∷ 9 ∷ 10 ∷ 11 ∷ 12 ∷ []

open_field-seal_field_example :
    open_field tagging (7 ∷ []) (1 ∷ (nonce ++ (text "secret" ++ zero_tag))) ≡ ok (text "secret")
unfolding seal_field
open_field-seal_field_example =
    open_field-seal_field tagging (7 ∷ []) nonce (text "secret")
      (1 ∷ (nonce ++ (text "secret" ++ zero_tag))) tagging-AeadLaws refl refl

abbrev open_keys : KeyStore Unit
open_keys = record {
  wrap_dek = λ tenant dek k. (ok (dek, 1), k);
  unwrap_dek = λ tenant wrapped version k. ok wrapped;
  current_kek_version = λ tenant k. ok 1;
}

abbrev ada : SubjectRow
ada = record {
  tenant_id = text "acme";
  subject = text "ada";
  dek_wrapped = 7 ∷ [];
  kek_version = 1;
  created_at = 5 ∷ [];
  shredded_at = none;
}

abbrev before : World Unit Table
before = record { cache = []; keys = tt; store = ada ∷ [] }

abbrev calls_later : List ShredCall
calls_later =
    decrypt_call (text "acme") (text "ada") (9 ∷ []) (1 ∷ [])
    ∷ clear_call
    ∷ rewrap_call (text "acme") (9 ∷ []) 2 0
    ∷ ensure_call (text "acme") (text "bob") (9 ∷ []) (ok (8 ∷ []))
    ∷ []

-- A subject whose key is wrapped under an older version.
abbrev carol : SubjectRow
carol = record ada { subject = text "carol"; kek_version = 0 }

abbrev both_subjects : World Unit Table
both_subjects = record { cache = []; keys = tt; store = ada ∷ carol ∷ [] }

ada_found : find_subject (text "acme") (text "ada") both_subjects.store ≡ some ada
unfolding find_subject text_eq
ada_found = refl

abbrev forgotten : World Unit Table
forgotten =
    (forget_subject open_keys (sqlite_subjects read_time (6 ∷ [])) (text "acme") (text "ada")
      both_subjects).1

abbrev ended : Option (World Unit Table) → World Unit Table
ended none = forgotten
ended (some w) = w

abbrev after_calls : World Unit Table
after_calls = ended (run_calls read_time open_keys tagging calls_later forgotten)

calls_ran : run_calls read_time open_keys tagging calls_later forgotten ≡ some after_calls
unfolding rewrap_deks list_stale_subject_keys clear_cache decrypt_field get_dek forget_subject
    forget_dek get_subject_key shred_subject text_eq read_time insert_by_subject upsert_subject
calls_ran = refl

carol_rewrapped :
    find_subject (text "acme") (text "carol") after_calls.store
    ≡ some (record carol { kek_version = 1 })
unfolding rewrap_deks find_subject list_stale_subject_keys clear_cache decrypt_field get_dek
    forget_subject forget_dek get_subject_key shred_subject text_eq read_time insert_by_subject
    upsert_subject ensure_subject_key
carol_rewrapped = refl

forget_subject-erases_example :
    ((e : ShredError) × ((decrypt_field open_keys
          (sqlite_subjects read_time (9 ∷ []))
          tagging
          (text "acme")
          (text "ada")
          (1 ∷ [])
          after_calls).0
        ≡ err e))
    × ((e : ShredError) × ((encrypt_field open_keys
            (sqlite_subjects read_time (9 ∷ []))
            tagging
            (text "acme")
            (text "ada")
            (ok (8 ∷ []))
            (ok nonce)
            (text "secret")
            after_calls).0
          ≡ err e))
forget_subject-erases_example =
    forget_subject-erases read_time open_keys tagging (text "acme") (text "ada") refl 6 [] (9 ∷ [])
      (1 ∷ []) (text "secret") (ok (8 ∷ [])) (ok nonce) ada calls_later both_subjects after_calls
      ada_found (refl, (tt, (tt, (refl, tt)))) calls_ran

-- A store that has just rotated to its second version.
abbrev rotated : KeyStore Unit
rotated = record open_keys {
  wrap_dek = λ tenant dek k. (ok (dek, 2), k);
  current_kek_version = λ tenant k. ok 2;
}

rotated-fresh :
    (dek : Text) (k : Unit) (x : Text × ℕ) (k' : Unit)
    → rotated.wrap_dek (text "acme") dek k ≡ (ok x, k')
    → 2 ≤ x.1
rotated-fresh dek k x k' h =
    let same : (dek, 2) ≡ x = cc h in subst (λ (z : Text × ℕ). 2 ≤ z.1) same (omega arith)

one_stale : stale_count (text "acme") 2 before.store < 2
unfolding stale_count text_eq
one_stale = omega arith

rewrap_deks-RunEnds_example :
    RunEnds read_time
      (6 ∷ [])
      rotated
      (text "acme")
      2
      rotated-fresh
      (rewrap_deks rotated (sqlite_subjects read_time (6 ∷ [])) 2 (text "acme") 0 before)
unfolding any_row
rewrap_deks-RunEnds_example =
    rewrap_deks-RunEnds read_time (6 ∷ []) rotated (text "acme") 2 rotated-fresh 2 0 before refl
      (λ h. absurd (omega arith)) (refl, tt) one_stale
