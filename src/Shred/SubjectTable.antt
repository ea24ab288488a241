-- ===== src/Shred/SubjectTable.antt =====
-- adapters/storage/sqlite/shred.go with its queries in internal/db/shred.sql.go: the table
-- subject_keys, its rows in the order of their insertion. The texts that SQLite's strftime gives are
-- arguments.
use eventstore.Base.{
  Bool, List, Option, Text, [], err, false, if◌then◌else◌, ltb, map, none, ok, some, take, text_eq,
  true, where_rows, ℕ, ◌&&◌, ◌==◌, ◌||◌, ◌∷◌,
}
use eventstore.Es.Error.{Result, plain}
use eventstore.Es.Envelope.{Time}
use eventstore.Shred.Shredder.{SubjectKey, SubjectStore, ShredResult, subject_key_not_found, other}

-- db.SubjectKey; a NULL is none.
pub record SubjectRow : Type 0 where
  pub tenant_id : Text
  pub subject : Text
  pub dek_wrapped : Text
  pub kek_version : ℕ
  pub created_at : Text
  pub shredded_at : Option Text

abbrev pub Table : Type 0
Table = List SubjectRow

abbrev pub is_subject : Text → Text → SubjectRow → Bool
is_subject tenant subject r = text_eq r.tenant_id tenant && text_eq r.subject subject

-- The query GetSubjectKey.
unfoldable pub find_subject : Text → Text → Table → Option SubjectRow
find_subject tenant subject [] = none
find_subject tenant subject (r ∷ rs) =
    if is_subject tenant subject r then some r else find_subject tenant subject rs

-- The query UpsertSubjectKey.
unfoldable pub upsert_subject : Text → Text → Text → ℕ → Text → Table → Table
upsert_subject tenant subject wrapped version now [] =
    record {
      tenant_id = tenant;
      subject = subject;
      dek_wrapped = wrapped;
      kek_version = version;
      created_at = now;
      shredded_at = none;
    }
    ∷ []
upsert_subject tenant subject wrapped version now (r ∷ rs) =
    let rest = upsert_subject tenant subject wrapped version now rs in
    if is_subject tenant subject r
    then record r { dek_wrapped = wrapped; kek_version = version } ∷ rs
    else r ∷ rest

-- The query ForgetSubject.
unfoldable pub shred_subject : Text → Text → Text → Table → Table
shred_subject tenant subject now = map (λ r.
    if is_subject tenant subject r
    then record r { dek_wrapped = []; shredded_at = some now }
    else r)

-- Texts in the order of their bytes.
unfoldable pub text_leb : Text → Text → Bool
text_leb [] t = true
text_leb (a ∷ s) [] = false
text_leb (a ∷ s) (b ∷ t) = ltb a b || (a == b && text_leb s t)

unfoldable pub insert_by_subject : SubjectRow → Table → Table
insert_by_subject x [] = x ∷ []
insert_by_subject x (r ∷ rs) =
    let rest = insert_by_subject x rs in
    if text_leb x.subject r.subject then x ∷ r ∷ rs else r ∷ rest

unfoldable pub order_by_subject : Table → Table
order_by_subject [] = []
order_by_subject (r ∷ rs) = insert_by_subject r (order_by_subject rs)

abbrev pub is_null : Option Text → Bool
is_null none = true
is_null (some t) = false

abbrev pub is_stale : Text → ℕ → SubjectRow → Bool
is_stale tenant current r =
    text_eq r.tenant_id tenant && (ltb r.kek_version current && is_null r.shredded_at)

-- The query ListStaleSubjectKeys before its LIMIT.
unfoldable pub stale_rows : Text → ℕ → Table → Table
unfolding order_by_subject where_rows
stale_rows tenant current t = order_by_subject (where_rows (is_stale tenant current) t)

module _ (parse_time : Text → Result Time) where
  abbrev pub marked : Result Time → Result (Option Time)
  marked (err e) = err e
  marked (ok x) = ok (some x)

  abbrev pub shredded_time : Option Text → Result (Option Time)
  shredded_time none = ok none
  shredded_time (some []) = ok none
  shredded_time (some (c ∷ t)) = marked (parse_time (c ∷ t))

  abbrev pub key_with : SubjectRow → Result Time → Result (Option Time) → ShredResult SubjectKey
  key_with r (err e) gone = err (other e)
  key_with r (ok created) (err e) = err (other e)
  key_with r (ok created) (ok gone) = ok (record {
    tenant_id = r.tenant_id;
    subject = r.subject;
    dek_wrapped = r.dek_wrapped;
    kek_version = r.kek_version;
    created_at = created;
    shredded_at = gone;
  })

  abbrev pub found_subject : Option SubjectRow → ShredResult SubjectKey
  found_subject none = err subject_key_not_found
  found_subject (some r) = key_with r (parse_time r.created_at) (shredded_time r.shredded_at)

  -- The method GetSubjectKey.
  unfoldable pub get_subject_key : Text → Text → Table → ShredResult SubjectKey
  unfolding find_subject
  get_subject_key tenant subject t = found_subject (find_subject tenant subject t)

  abbrev pub both : ShredResult SubjectKey → Result (List SubjectKey) → Result (List SubjectKey)
  both (err (other e)) more = err e
  both (err e) more = err plain
  both (ok k) (err e) = err e
  both (ok k) (ok ks) = ok (k ∷ ks)

  -- The loop over the rows of a query.
  unfoldable pub collect_keys : List SubjectRow → Result (List SubjectKey)
  collect_keys [] = ok []
  collect_keys (r ∷ rs) =
      both (key_with r (parse_time r.created_at) (shredded_time r.shredded_at)) (collect_keys rs)

  -- The method ListStaleSubjectKeys.
  unfoldable pub list_stale_subject_keys : Text → ℕ → ℕ → Table → Result (List SubjectKey)
  unfolding collect_keys stale_rows
  list_stale_subject_keys tenant current limit t =
      collect_keys (take (if limit == 0 then 100 else limit) (stale_rows tenant current t))

  -- The adapter as a SubjectStore whose statements succeed, at the database's time `now`.
  abbrev pub sqlite_subjects : Text → SubjectStore Table
  sqlite_subjects now = record {
    get_subject_key = get_subject_key;
    upsert_subject_key = λ tenant subject wrapped version t.
        (none, upsert_subject tenant subject wrapped version now t);
    list_stale_subject_keys = list_stale_subject_keys;
    forget_subject = λ tenant subject t. (none, shred_subject tenant subject now t);
  }
