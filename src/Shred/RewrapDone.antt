-- ===== src/Shred/RewrapDone.antt =====
-- RewrapDEKs of shred/shred.go over the table of adapters/storage/sqlite/shred.go: how many passes
-- its loop makes, and what it leaves.
use eventstore.Base.{
  ℕ, zero, suc, ◌≤◌, ◌<◌, ◌≡◌, ◌≢◌, refl, sym, ap, ◌∙◌, subst, Bool, true, false, Option, none,
  some, List, [], ◌∷◌, Text, ok, err, arith, take, where_rows, ◌==◌, if◌then◌else◌, All,
}
use eventstore.Es.Error.{Result}
use eventstore.Es.Envelope.{Time}
use eventstore.Shred.Shredder.{
  KeyStore, SubjectKey, World, ShredResult, shredded, subject_key_not_found, other,
}
use eventstore.Shred.SubjectTable.{
  SubjectRow, Table, is_stale, find_subject, upsert_subject, stale_rows, order_by_subject,
  insert_by_subject, collect_keys, both, key_with, shredded_time, list_stale_subject_keys,
  sqlite_subjects,
}
use eventstore.Shred.Rewrap.{
  Rewrapped, rewrap_page, paged, listed, rewrap_loop, from_version, rewrap_deks,
}
use eventstore.Shred.Stale.{
  stale_count, DistinctSubjects, Listed, upsert_subject-fewer, stale_rows-Listed,
}
use eventstore.Shred.RewrapEnds.{PageEnds, first_page-PageEnds}

take-All : (P : SubjectRow → Type 0) (n : ℕ) (xs : Table) → All P xs → All P (take n xs)
take-All P zero xs ps = tt
take-All P (suc n) [] ps = tt
take-All P (suc n) (x ∷ xs) (p, ps) = (p, take-All P n xs ps)

take-nil : (n : ℕ) (xs : Table) → take (suc n) xs ≡ [] → xs ≡ []
take-nil n [] h = refl
take-nil n (x ∷ xs) h = absurd (ground arith)

insert_by_subject-some : (x : SubjectRow) (rs : Table) → insert_by_subject x rs ≡ [] → ⊥
unfolding insert_by_subject
insert_by_subject-some x [] h = absurd (ground arith)
insert_by_subject-some x (r ∷ rs) h = absurd (ground arith)

stale_rows-nil :
    (tenant : Text) (current : ℕ) (t : Table)
    → order_by_subject (where_rows (is_stale tenant current) t) ≡ []
    → stale_count tenant current t ≡ 0
unfolding where_rows order_by_subject stale_count
stale_rows-nil tenant current [] h = refl
stale_rows-nil tenant current (r ∷ rs) h =
    nil_case (is_stale tenant current r) refl h (stale_rows-nil tenant current rs)
  where
    nil_case :
        (b : Bool)
        → is_stale tenant current r ≡ b
        → order_by_subject (
            if b
            then r ∷ where_rows (is_stale tenant current) rs
            else where_rows (is_stale tenant current) rs)
          ≡ []
        → (order_by_subject (where_rows (is_stale tenant current) rs) ≡ []
            → stale_count tenant current rs ≡ 0)
        → stale_count tenant current (r ∷ rs) ≡ 0
    nil_case true e k ih =
        absurd
          (insert_by_subject-some r (order_by_subject (where_rows (is_stale tenant current) rs)) k)
    nil_case false e k ih = ground (arith, ih k)

module _ (parse_time : Text → Result Time) where
  both-first :
      (k : ShredResult SubjectKey) (ks : Result (List SubjectKey)) (row : SubjectKey)
      (rows : List SubjectKey)
      → both parse_time k ks ≡ ok (row ∷ rows)
      → k ≡ ok row
  both-first (err (other e)) ks row rows h = absurd (ground arith)
  both-first (err shredded) ks row rows h = absurd (ground arith)
  both-first (err subject_key_not_found) ks row rows h = absurd (ground arith)
  both-first (ok k) (err e) row rows h = absurd (ground arith)
  both-first (ok k) (ok ks) row rows h = cc h

  both-some :
      (k : ShredResult SubjectKey) (ks : Result (List SubjectKey))
      → both parse_time k ks ≡ ok []
      → ⊥
  both-some (err (other e)) ks h = absurd (ground arith)
  both-some (err shredded) ks h = absurd (ground arith)
  both-some (err subject_key_not_found) ks h = absurd (ground arith)
  both-some (ok k) (err e) h = absurd (ground arith)
  both-some (ok k) (ok ks) h = absurd (ground arith)

  key_with-subject :
      (r : SubjectRow) (a : Result Time) (b : Result (Option Time)) (row : SubjectKey)
      → key_with parse_time r a b ≡ ok row
      → row.subject ≡ r.subject
  key_with-subject r (err e) b row h = absurd (ground arith)
  key_with-subject r (ok a) (err e) row h = absurd (ground arith)
  key_with-subject r (ok a) (ok b) row h =
      let same : record {
        tenant_id = r.tenant_id;
        subject = r.subject;
        dek_wrapped = r.dek_wrapped;
        kek_version = r.kek_version;
        created_at = a;
        shredded_at = b;
      }
          ≡ row =
        cc h in
      ap (λ (z : SubjectKey). z.subject) (sym same)

  collect_keys-first :
      (tenant : Text) (current : ℕ) (table xs : Table) (row : SubjectKey) (rows : List SubjectKey)
      → All (Listed tenant current table) xs
      → collect_keys parse_time xs ≡ ok (row ∷ rows)
      → (r : SubjectRow) × (find_subject tenant row.subject table ≡ some r)
        × (is_stale tenant current r ≡ true)
  unfolding collect_keys
  collect_keys-first tenant current table [] row rows ps h = absurd (ground arith)
  collect_keys-first tenant current table (x ∷ xs) row rows ((st, f), ps) h =
      let one =
        both-first
          (key_with parse_time x (parse_time x.created_at) (shredded_time parse_time x.shredded_at))
          (collect_keys parse_time xs) row rows h in
      let same =
        key_with-subject x (parse_time x.created_at) (shredded_time parse_time x.shredded_at) row
          one in
      (x, ap (λ s. find_subject tenant s table) same ∙ f, st)

  collect_keys-none : (xs : Table) → collect_keys parse_time xs ≡ ok [] → xs ≡ []
  unfolding collect_keys
  collect_keys-none [] h = refl
  collect_keys-none (x ∷ xs) h = absurd (
      both-some
        (key_with parse_time x (parse_time x.created_at) (shredded_time parse_time x.shredded_at))
        (collect_keys parse_time xs) h)

  module _ (now : Text) {K : Type 0} (kms : KeyStore K) (tenant : Text) (current : ℕ)
      (fresh : (dek : Text) (k : K) (x : Text × ℕ) (k' : K)
        → kms.wrap_dek tenant dek k ≡ (ok x, k')
        → current ≤ x.1) where
    -- A run that ends; without an error it leaves no stale key.
    abbrev pub RunEnds : Option (Rewrapped K Table) → Type 0
    RunEnds o =
        (out : Rewrapped K Table) × (o ≡ some out)
        × (out.0.1 ≡ none → stale_count tenant current out.1.store ≡ 0)

    paged-RunEnds :
        (again : ℕ → World K Table → Option (Rewrapped K Table)) (out : Rewrapped K Table)
        (bound : ℕ)
        → PageEnds parse_time now kms tenant current fresh out bound
        → ((total : ℕ)
            → (w : World K Table) → DistinctSubjects w.store
            → stale_count tenant current w.store ≤ bound
            → RunEnds (again total w))
        → RunEnds (paged kms (sqlite_subjects parse_time now) again out)
    paged-RunEnds again ((total, some e), w) bound p more =
        (((total, some e), w), refl, λ h. absurd (ground arith))
    paged-RunEnds again ((total, none), w) bound (d, le) more = more total w d le

    listed_page-RunEnds :
        (again : ℕ → World K Table → Option (Rewrapped K Table)) (n : ℕ)
        (r : Result (List SubjectKey)) (total bound : ℕ) (w : World K Table)
        → collect_keys parse_time (take (suc n) (stale_rows tenant current w.store)) ≡ r
        → DistinctSubjects w.store
        → stale_count tenant current w.store ≤ bound
        → ((t : ℕ)
            → (w' : World K Table) → DistinctSubjects w'.store
            → stale_count tenant current w'.store < bound
            → RunEnds (again t w'))
        → RunEnds (listed kms (sqlite_subjects parse_time now) again tenant r total w)
    unfolding stale_rows
    listed_page-RunEnds again n (err e) total bound w h d le more =
        (((total, some e), w), refl, λ k. absurd (ground arith))
    listed_page-RunEnds again n (ok []) total bound w h d le more = (
      ((total, none), w),
      refl,
      λ k. stale_rows-nil tenant current w.store (
          take-nil n (stale_rows tenant current w.store)
            (collect_keys-none (take (suc n) (stale_rows tenant current w.store)) h)),
    )
    listed_page-RunEnds again n (ok (row ∷ rows)) total bound w h d le more =
        let (r, f, st) =
          collect_keys-first tenant current w.store
            (take (suc n) (stale_rows tenant current w.store)) row rows
            (take-All (Listed tenant current w.store) (suc n) (stale_rows tenant current w.store)
              (stale_rows-Listed tenant current w.store d))
            h in
        let fewer =
          upsert_subject-fewer tenant row.subject [] [] current current r w.store (omega arith) f
            st in
        first_page bound le fewer
          (λ b k.
            paged-RunEnds again
              (rewrap_page kms (sqlite_subjects parse_time now) tenant (row ∷ rows) total w) b
              (first_page-PageEnds parse_time now kms tenant current fresh row rows r total b w d k
                f st))
          more
      where
        first_page :
            (bnd : ℕ)
            → stale_count tenant current w.store ≤ bnd
            → stale_count tenant current (upsert_subject tenant row.subject [] current [] w.store)
              < stale_count tenant current w.store
            → ((b : ℕ)
                → stale_count tenant current w.store ≤ suc b
                → ((t : ℕ)
                    → (w' : World K Table) → DistinctSubjects w'.store
                    → stale_count tenant current w'.store ≤ b
                    → RunEnds (again t w'))
                → RunEnds (
                    paged kms (sqlite_subjects parse_time now) again (
                      rewrap_page kms
                        (sqlite_subjects parse_time now)
                        tenant
                        (row ∷ rows)
                        total
                        w)))
            → ((t : ℕ)
                → (w' : World K Table) → DistinctSubjects w'.store
                → stale_count tenant current w'.store < bnd
                → RunEnds (again t w'))
            → RunEnds (
                paged kms
                  (sqlite_subjects parse_time now)
                  again
                  (rewrap_page kms (sqlite_subjects parse_time now) tenant (row ∷ rows) total w))
        first_page zero k lt go next' = absurd (omega arith)
        first_page (suc b) k lt go next' = go b k (λ t w' d' k'. next' t w' d' (omega arith))

    limit-some : (p : ℕ) → (n : ℕ) × ((if p == 0 then 100 else p) ≡ suc n)
    limit-some zero = (99, refl)
    limit-some (suc m) = (m, ground arith)

    rewrap_loop-RunEnds :
        (fuel page total : ℕ) (w : World K Table)
        → DistinctSubjects w.store
        → stale_count tenant current w.store < fuel
        → RunEnds
            (rewrap_loop kms (sqlite_subjects parse_time now) fuel tenant current page total w)
    unfolding rewrap_loop list_stale_subject_keys
    rewrap_loop-RunEnds zero page total w d h = absurd (omega arith)
    rewrap_loop-RunEnds (suc fuel) page total w d h =
        let (n, limit) = limit-some page in
        listed_page-RunEnds
          (rewrap_loop kms (sqlite_subjects parse_time now) fuel tenant current page) n
          (list_stale_subject_keys parse_time tenant current page w.store) total fuel w
          (ap (λ k. collect_keys parse_time (take k (stale_rows tenant current w.store)))
            (sym limit))
          d (omega arith) (λ t w' d' k. rewrap_loop-RunEnds fuel page t w' d' k)

    from_version-RunEnds :
        (fuel page : ℕ) (v : Result ℕ) (w : World K Table)
        → v ≡ ok current
        → DistinctSubjects w.store
        → stale_count tenant current w.store < fuel
        → current ≢ 0
        → RunEnds (from_version kms (sqlite_subjects parse_time now) fuel tenant page v w)
    from_version-RunEnds fuel page (err e) w h d k nz = absurd (ground arith)
    from_version-RunEnds fuel page (ok zero) w h d k nz = absurd (nz (cc h))
    from_version-RunEnds fuel page (ok (suc n)) w h d k nz =
        let same : current ≡ suc n = cc h in
        subst
          (λ v. RunEnds (
            rewrap_loop kms (sqlite_subjects parse_time now) fuel tenant v
              (if page == 0 then 100 else page) 0 w))
          same (rewrap_loop-RunEnds fuel (if page == 0 then 100 else page) 0 w d k)

    -- RewrapDEKs over a table with distinct subjects ends, where the key store never wraps under an
    -- older version than its current one, which is not 0: one pass more than there are stale keys is
    -- enough, and where it reports no error no key of the tenant is stale.
    pub rewrap_deks-RunEnds :
        (fuel page : ℕ) (w : World K Table)
        → kms.current_kek_version tenant w.keys ≡ ok current
        → current ≢ 0
        → DistinctSubjects w.store
        → stale_count tenant current w.store < fuel
        → RunEnds (rewrap_deks kms (sqlite_subjects parse_time now) fuel tenant page w)
    unfolding rewrap_deks
    rewrap_deks-RunEnds fuel page w version nz d enough =
        from_version-RunEnds fuel page (kms.current_kek_version tenant w.keys) w version d enough nz
