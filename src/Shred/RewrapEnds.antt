-- ===== src/Shred/RewrapEnds.antt =====
-- RewrapDEKs of shred/shred.go ends over the table of adapters/storage/sqlite/shred.go.
use eventstore.Base.{
  ℕ, suc, ◌≤◌, ◌<◌, ◌≡◌, refl, true, Option, none, some, List, [], ◌∷◌, Text, ok, err, arith,
}
use eventstore.Es.Error.{Error, Result}
use eventstore.Es.Envelope.{Time}
use eventstore.Shred.Shredder.{KeyStore, SubjectKey, World}
use eventstore.Shred.SubjectTable.{SubjectRow, Table, is_stale, find_subject, sqlite_subjects}
use eventstore.Shred.Rewrap.{
  Rewrapped, rewrapped_dek, unwrapped_dek, rewrap_row, counted, rewrap_page,
}
use eventstore.Shred.Stale.{
  stale_count, DistinctSubjects, upsert_subject-stale_count, upsert_subject-fewer,
  upsert_subject-DistinctSubjects,
}

-- What a run over a page leaves: the keys of the table stay distinct, and no more of them are stale
-- than `bound`, unless the run failed.
abbrev pub Fewer : {K : Type 0} → Text → ℕ → ℕ → Option Error → World K Table → Type 0
Fewer tenant current bound (some e) w = Unit
Fewer tenant current bound none w =
    DistinctSubjects w.store × (stale_count tenant current w.store ≤ bound)

module _ (parse_time : Text → Result Time) (now : Text) {K : Type 0} (kms : KeyStore K)
    (tenant : Text) (current : ℕ)
    (fresh : (dek : Text) (k : K) (x : Text × ℕ) (k' : K)
      → kms.wrap_dek tenant dek k ≡ (ok x, k')
      → current ≤ x.1) where
  -- One row leaves no more stale keys, and fewer where its own key was stale.
  abbrev RowEnds : Text → Option Error × World K Table → World K Table → Type 0
  RowEnds subject (some e, w') w = Unit
  RowEnds subject (none, w') w =
      DistinctSubjects w'.store
      × (stale_count tenant current w'.store ≤ stale_count tenant current w.store)
      × ((row : SubjectRow)
          → find_subject tenant subject w.store ≡ some row
          → is_stale tenant current row ≡ true
          → stale_count tenant current w'.store < stale_count tenant current w.store)

  rewrapped_dek-RowEnds :
      (dek subject : Text) (r : Result (Text × ℕ) × K) (w : World K Table)
      → kms.wrap_dek tenant dek w.keys ≡ r
      → DistinctSubjects w.store
      → RowEnds subject (rewrapped_dek kms (sqlite_subjects parse_time now) tenant subject r w) w
  rewrapped_dek-RowEnds dek subject (err e, k) w h d = tt
  rewrapped_dek-RowEnds dek subject (ok x, k) w h d =
      let enough = fresh dek w.keys x k h in
      (
        upsert_subject-DistinctSubjects tenant subject x.0 now x.1 w.store d,
        upsert_subject-stale_count tenant tenant subject x.0 now x.1 current w.store enough,
        λ row f st. upsert_subject-fewer tenant subject x.0 now x.1 current row w.store enough f st,
      )

  unwrapped_dek-RowEnds :
      (subject : Text) (r : Result Text) (w : World K Table)
      → DistinctSubjects w.store
      → RowEnds subject (unwrapped_dek kms (sqlite_subjects parse_time now) tenant subject r w) w
  unwrapped_dek-RowEnds subject (err e) w d = tt
  unwrapped_dek-RowEnds subject (ok dek) w d =
      rewrapped_dek-RowEnds dek subject (kms.wrap_dek tenant dek w.keys) w refl d

  rewrap_row-RowEnds :
      (row : SubjectKey) (w : World K Table)
      → DistinctSubjects w.store
      → RowEnds row.subject (rewrap_row kms (sqlite_subjects parse_time now) tenant row w) w
  unfolding rewrap_row
  rewrap_row-RowEnds row w d =
      unwrapped_dek-RowEnds row.subject
        (kms.unwrap_dek tenant row.dek_wrapped row.kek_version w.keys) w d

  abbrev pub PageEnds : Rewrapped K Table → ℕ → Type 0
  PageEnds out bound = Fewer tenant current bound out.0.1 out.1

  counted-PageEnds :
      (subject : Text) (rest : ℕ → World K Table → Rewrapped K Table) (total : ℕ)
      (out : Option Error × World K Table) (w : World K Table) (bound : ℕ)
      → RowEnds subject out w
      → ((w' : World K Table) → RowEnds subject (none, w') w → PageEnds (rest (suc total) w') bound)
      → PageEnds (counted kms (sqlite_subjects parse_time now) rest total out) bound
  counted-PageEnds subject rest total (some e, w') w bound h more = tt
  counted-PageEnds subject rest total (none, w') w bound h more = more w' h

  rewrap_page-PageEnds :
      (rows : List SubjectKey) (total bound : ℕ) (w : World K Table)
      → DistinctSubjects w.store
      → stale_count tenant current w.store ≤ bound
      → PageEnds (rewrap_page kms (sqlite_subjects parse_time now) tenant rows total w) bound
  unfolding rewrap_page
  rewrap_page-PageEnds [] total bound w d h = (d, h)
  rewrap_page-PageEnds (row ∷ rows) total bound w d h =
      counted-PageEnds row.subject (rewrap_page kms (sqlite_subjects parse_time now) tenant rows)
        total (rewrap_row kms (sqlite_subjects parse_time now) tenant row w) w bound
        (rewrap_row-RowEnds row w d)
        (λ w' (d', le, _). rewrap_page-PageEnds rows (suc total) bound w' d' (omega arith))

  -- A page whose first row is a stale one leaves fewer.
  pub first_page-PageEnds :
      (row : SubjectKey) (rows : List SubjectKey) (r : SubjectRow) (total bound : ℕ)
      (w : World K Table)
      → DistinctSubjects w.store
      → stale_count tenant current w.store ≤ suc bound
      → find_subject tenant row.subject w.store ≡ some r
      → is_stale tenant current r ≡ true
      → PageEnds
          (rewrap_page kms (sqlite_subjects parse_time now) tenant (row ∷ rows) total w)
          bound
  unfolding rewrap_page
  first_page-PageEnds row rows r total bound w d h f st =
      counted-PageEnds row.subject (rewrap_page kms (sqlite_subjects parse_time now) tenant rows)
        total (rewrap_row kms (sqlite_subjects parse_time now) tenant row w) w bound
        (rewrap_row-RowEnds row w d)
        (λ w' (d', le, lt).
          rewrap_page-PageEnds rows (suc total) bound w' d' (omega (arith, lt r f st)))
