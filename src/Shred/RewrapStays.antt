-- ===== src/Shred/RewrapStays.antt =====
-- RewrapDEKs of shred/shred.go over the table of adapters/storage/sqlite/shred.go: it wraps the
-- keys of stale rows again, and brings none back.
use eventstore.Base.{
  ℕ, zero, suc, Option, none, some, List, [], ◌∷◌, Text, ok, err, ◌==◌, if◌then◌else◌,
}
use eventstore.Es.Error.{Error, Result}
use eventstore.Es.Envelope.{Time}
use eventstore.Shred.Shredder.{KeyStore, SubjectKey, World}
use eventstore.Shred.SubjectTable.{Table, list_stale_subject_keys, sqlite_subjects}
use eventstore.Shred.Forgotten.{Gone, upsert_subject-has_shredded}
use eventstore.Shred.Rewrap.{
  Rewrapped, rewrapped_dek, unwrapped_dek, rewrap_row, rewrap_page, counted, paged, listed,
  rewrap_loop, from_version, rewrap_deks,
}

module _ (parse_time : Text → Result Time) {K : Type 0} (kms : KeyStore K) (now t s : Text) where
  abbrev Lost : World K Table → Type 0
  Lost w = Gone t s w.cache w.store

  rewrapped_dek-Lost :
      (t' s' : Text) (r : Result (Text × ℕ) × K) (w : World K Table)
      → Lost w
      → Lost (rewrapped_dek kms (sqlite_subjects parse_time now) t' s' r w).1
  rewrapped_dek-Lost t' s' (err e, k) w h = h
  rewrapped_dek-Lost t' s' (ok x, k) w (h, z) =
      (h, upsert_subject-has_shredded t s t' s' x.0 now x.1 w.store z)

  unwrapped_dek-Lost :
      (t' s' : Text) (r : Result Text) (w : World K Table)
      → Lost w
      → Lost (unwrapped_dek kms (sqlite_subjects parse_time now) t' s' r w).1
  unwrapped_dek-Lost t' s' (err e) w h = h
  unwrapped_dek-Lost t' s' (ok dek) w h = rewrapped_dek-Lost t' s' (kms.wrap_dek t' dek w.keys) w h

  counted-Lost :
      (rest : ℕ → World K Table → Rewrapped K Table) (total : ℕ)
      (out : Option Error × World K Table)
      → ((n : ℕ) (w : World K Table) → Lost w → Lost (rest n w).1)
      → Lost out.1
      → Lost (counted kms (sqlite_subjects parse_time now) rest total out).1
  counted-Lost rest total (some e, w) next h = h
  counted-Lost rest total (none, w) next h = next (suc total) w h

  rewrap_page-Lost :
      (t' : Text) (rows : List SubjectKey) (total : ℕ) (w : World K Table)
      → Lost w
      → Lost (rewrap_page kms (sqlite_subjects parse_time now) t' rows total w).1
  unfolding rewrap_page rewrap_row
  rewrap_page-Lost t' [] total w h = h
  rewrap_page-Lost t' (row ∷ rows) total w h =
      counted-Lost (rewrap_page kms (sqlite_subjects parse_time now) t' rows) total
        (rewrap_row kms (sqlite_subjects parse_time now) t' row w) (rewrap_page-Lost t' rows)
        (unwrapped_dek-Lost t' row.subject
          (kms.unwrap_dek t' row.dek_wrapped row.kek_version w.keys) w h)

  -- Of a run that ended.
  abbrev pub LostAfter : Option (Rewrapped K Table) → Type 0
  LostAfter none = Unit
  LostAfter (some out) = Lost out.1

  paged-Lost :
      (again : ℕ → World K Table → Option (Rewrapped K Table)) (out : Rewrapped K Table)
      → ((n : ℕ) (w : World K Table) → Lost w → LostAfter (again n w))
      → Lost out.1
      → LostAfter (paged kms (sqlite_subjects parse_time now) again out)
  paged-Lost again ((total, some e), w) next h = h
  paged-Lost again ((total, none), w) next h = next total w h

  listed-Lost :
      (again : ℕ → World K Table → Option (Rewrapped K Table)) (t' : Text)
      (r : Result (List SubjectKey)) (total : ℕ) (w : World K Table)
      → ((n : ℕ) (w' : World K Table) → Lost w' → LostAfter (again n w'))
      → Lost w
      → LostAfter (listed kms (sqlite_subjects parse_time now) again t' r total w)
  listed-Lost again t' (err e) total w next h = h
  listed-Lost again t' (ok []) total w next h = h
  listed-Lost again t' (ok (row ∷ rows)) total w next h =
      paged-Lost again (rewrap_page kms (sqlite_subjects parse_time now) t' (row ∷ rows) total w)
        next (rewrap_page-Lost t' (row ∷ rows) total w h)

  rewrap_loop-Lost :
      (fuel : ℕ) (t' : Text) (current page total : ℕ) (w : World K Table)
      → Lost w
      → LostAfter (rewrap_loop kms (sqlite_subjects parse_time now) fuel t' current page total w)
  unfolding rewrap_loop
  rewrap_loop-Lost zero t' current page total w h = tt
  rewrap_loop-Lost (suc fuel) t' current page total w h =
      listed-Lost (rewrap_loop kms (sqlite_subjects parse_time now) fuel t' current page) t'
        (list_stale_subject_keys parse_time t' current page w.store) total w
        (rewrap_loop-Lost fuel t' current page) h

  from_version-Lost :
      (fuel : ℕ) (t' : Text) (page : ℕ) (r : Result ℕ) (w : World K Table)
      → Lost w
      → LostAfter (from_version kms (sqlite_subjects parse_time now) fuel t' page r w)
  from_version-Lost fuel t' page (err e) w h = h
  from_version-Lost fuel t' page (ok zero) w h = h
  from_version-Lost fuel t' page (ok (suc n)) w h =
      rewrap_loop-Lost fuel t' (suc n) (if page == 0 then 100 else page) 0 w h

  pub rewrap_deks-Lost :
      (fuel : ℕ) (t' : Text) (page : ℕ) (w : World K Table)
      → Lost w
      → LostAfter (rewrap_deks kms (sqlite_subjects parse_time now) fuel t' page w)
  unfolding rewrap_deks
  rewrap_deks-Lost fuel t' page w h =
      from_version-Lost fuel t' page (kms.current_kek_version t' w.keys) w h
