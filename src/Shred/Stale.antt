-- ===== src/Shred/Stale.antt =====
-- The rows that the query of stale keys of adapters/storage/sqlite/shred.go returns, and the UPSERT
-- of one of them.
use eventstore.Base.{
  ℕ, ◌+◌, ◌≤◌, ◌<◌, ◌≡◌, refl, sym, ap, ◌∙◌, Bool, true, false, ◌&&◌, ◌||◌, some, [], ◌∷◌, Text,
  text_eq, text_eq_refl, eq_of_text_eq, arith, where_rows, any_row, if◌then◌else◌, All, text_eq_sym,
}
use eventstore.Shred.SubjectTable.{
  SubjectRow, Table, is_subject, is_stale, find_subject, upsert_subject, stale_rows,
  order_by_subject, text_leb, insert_by_subject,
}

abbrev one_if : Bool → ℕ
one_if true = 1
one_if false = 0

-- The number of keys of a tenant that are still to be wrapped again.
unfoldable pub stale_count : Text → ℕ → Table → ℕ
stale_count tenant current [] = 0
stale_count tenant current (r ∷ rs) =
    one_if (is_stale tenant current r) + stale_count tenant current rs

stale_count-if :
    (tenant : Text) (current : ℕ) (b : Bool) (x y : SubjectRow) (xs ys : Table)
    → stale_count tenant current (if b then x ∷ xs else y ∷ ys) ≡ (
        if b
        then one_if (is_stale tenant current x) + stale_count tenant current xs
        else one_if (is_stale tenant current y) + stale_count tenant current ys)
unfolding stale_count
stale_count-if tenant current true x y xs ys = refl
stale_count-if tenant current false x y xs ys = refl

-- The primary key of the table.
abbrev pub DistinctSubjects : Table → Type 0
DistinctSubjects [] = Unit
DistinctSubjects (r ∷ rs) =
    (any_row (is_subject r.tenant_id r.subject) rs ≡ false) × DistinctSubjects rs

pub upsert_subject-stale_count :
    (tenant t s wrapped now : Text) (version current : ℕ) (table : Table)
    → current ≤ version
    → stale_count tenant current (upsert_subject t s wrapped version now table)
      ≤ stale_count tenant current table
unfolding stale_count upsert_subject
upsert_subject-stale_count tenant t s wrapped now version current [] h = ground arith
upsert_subject-stale_count tenant t s wrapped now version current (r ∷ rs) h = ground (
  arith,
  upsert_subject-stale_count tenant t s wrapped now version current rs h,
  stale_count-if tenant current (is_subject t s r)
      (record r { dek_wrapped = wrapped; kek_version = version }) r rs
      (upsert_subject t s wrapped version now rs),
)

fewer_case :
    (tenant s wrapped now : Text) (version current : ℕ) (row r : SubjectRow) (rs : Table) (b : Bool)
    → current ≤ version
    → is_stale tenant current row ≡ true
    → (if b then some r else find_subject tenant s rs) ≡ some row
    → (find_subject tenant s rs ≡ some row
        → stale_count tenant current (upsert_subject tenant s wrapped version now rs)
          < stale_count tenant current rs)
    → stale_count tenant current (
        if b
        then record r { dek_wrapped = wrapped; kek_version = version } ∷ rs
        else r ∷ upsert_subject tenant s wrapped version now rs)
      < one_if (is_stale tenant current r) + stale_count tenant current rs
unfolding stale_count
fewer_case tenant s wrapped now version current row r rs true h st f ih =
    let same : row ≡ r = cc f in
    let was : is_stale tenant current r ≡ true = ap (is_stale tenant current) (sym same) ∙ st in
    ground arith
fewer_case tenant s wrapped now version current row r rs false h st f ih = ground (arith, ih f)

pub upsert_subject-fewer :
    (tenant s wrapped now : Text) (version current : ℕ) (row : SubjectRow) (table : Table)
    → current ≤ version
    → find_subject tenant s table ≡ some row
    → is_stale tenant current row ≡ true
    → stale_count tenant current (upsert_subject tenant s wrapped version now table)
      < stale_count tenant current table
unfolding stale_count upsert_subject find_subject
upsert_subject-fewer tenant s wrapped now version current row [] h f st = absurd (ground arith)
upsert_subject-fewer tenant s wrapped now version current row (r ∷ rs) h f st =
    fewer_case tenant s wrapped now version current row r rs (is_subject tenant s r) h st f
      (λ g. upsert_subject-fewer tenant s wrapped now version current row rs h g st)

-- A stale row that GetSubjectKey finds by its key.
abbrev pub Listed : Text → ℕ → Table → SubjectRow → Type 0
Listed tenant current table r =
    (is_stale tenant current r ≡ true) × (find_subject tenant r.subject table ≡ some r)

insert_by_subject-All :
    (P : SubjectRow → Type 0) (x : SubjectRow) (rs : Table)
    → P x
    → All P rs
    → All P (insert_by_subject x rs)
unfolding insert_by_subject
insert_by_subject-All P x [] p ps = (p, tt)
insert_by_subject-All P x (r ∷ rs) p (q, qs) =
    put_All (text_leb x.subject r.subject) (p, (q, qs)) (q, insert_by_subject-All P x rs p qs)
  where
    put_All :
        (b : Bool)
        → All P (x ∷ r ∷ rs)
        → All P (r ∷ insert_by_subject x rs)
        → All P (if b then x ∷ r ∷ rs else r ∷ insert_by_subject x rs)
    put_All true a c = a
    put_All false a c = c

order_by_subject-All :
    (P : SubjectRow → Type 0) (rs : Table) → All P rs → All P (order_by_subject rs)
unfolding order_by_subject
order_by_subject-All P [] ps = tt
order_by_subject-All P (r ∷ rs) (p, ps) =
    insert_by_subject-All P r (order_by_subject rs) p (order_by_subject-All P rs ps)

-- The rows of a table under another key than that of the row before it are found behind it.
behind :
    (tenant : Text) (current : ℕ) (r x : SubjectRow) (table : Table)
    → is_subject r.tenant_id r.subject x ≡ false
    → Listed tenant current table x
    → Listed tenant current (r ∷ table) x
unfolding find_subject
behind tenant current r x table other (st, f) =
    let tenant_same : x.tenant_id ≡ tenant = eq_of_text_eq x.tenant_id tenant (ground arith) in
    let mismatch : is_subject tenant x.subject r ≡ false = ground (
      arith,
      text_eq_sym x.tenant_id r.tenant_id,
      text_eq_sym x.subject r.subject,
      ap (λ z. text_eq r.tenant_id z) tenant_same,
    ) in
    (st, rw mismatch f)

all_behind :
    (tenant : Text) (current : ℕ) (r : SubjectRow) (table xs : Table)
    → All (λ (x : SubjectRow). is_subject r.tenant_id r.subject x ≡ false) xs
    → All (Listed tenant current table) xs
    → All (Listed tenant current (r ∷ table)) xs
all_behind tenant current r table [] os ls = tt
all_behind tenant current r table (x ∷ xs) (o, os) (l, ls) =
    (behind tenant current r x table o l, all_behind tenant current r table xs os ls)

others_stale :
    (tenant : Text) (current : ℕ) (r : SubjectRow) (xs : Table)
    → any_row (is_subject r.tenant_id r.subject) xs ≡ false
    → All
        (λ (x : SubjectRow). is_subject r.tenant_id r.subject x ≡ false)
        (where_rows (is_stale tenant current) xs)
unfolding any_row where_rows
others_stale tenant current r [] h = tt
others_stale tenant current r (x ∷ xs) h =
    keep_All (is_stale tenant current x) (ground arith)
      (others_stale tenant current r xs (ground arith))
  where
    keep_All :
        (b : Bool)
        → is_subject r.tenant_id r.subject x ≡ false
        → All
            (λ (y : SubjectRow). is_subject r.tenant_id r.subject y ≡ false)
            (where_rows (is_stale tenant current) xs)
        → All
            (λ (y : SubjectRow). is_subject r.tenant_id r.subject y ≡ false)
            (if b
              then x ∷ where_rows (is_stale tenant current) xs
              else where_rows (is_stale tenant current) xs)
    keep_All true o os = (o, os)
    keep_All false o os = os

head-Listed :
    (tenant : Text) (current : ℕ) (r : SubjectRow) (rs : Table)
    → is_stale tenant current r ≡ true
    → Listed tenant current (r ∷ rs) r
unfolding find_subject
head-Listed tenant current r rs st =
    let found : is_subject tenant r.subject r ≡ true = ground (arith, text_eq_refl r.subject) in
    (st, rw found refl)

where_rows-Listed :
    (tenant : Text) (current : ℕ) (table : Table)
    → DistinctSubjects table
    → All (Listed tenant current table) (where_rows (is_stale tenant current) table)
unfolding where_rows
where_rows-Listed tenant current [] d = tt
where_rows-Listed tenant current (r ∷ rs) (other, d) = listed_All (is_stale tenant current r) refl (
    all_behind tenant current r rs (where_rows (is_stale tenant current) rs)
      (others_stale tenant current r rs other) (where_rows-Listed tenant current rs d))
  where
    listed_All :
        (b : Bool)
        → is_stale tenant current r ≡ b
        → All (Listed tenant current (r ∷ rs)) (where_rows (is_stale tenant current) rs)
        → All (Listed tenant current (r ∷ rs)) (
            if b
            then r ∷ where_rows (is_stale tenant current) rs
            else where_rows (is_stale tenant current) rs)
    listed_All true e os = (head-Listed tenant current r rs e, os)
    listed_All false e os = os

-- Every row that the query of stale keys returns is stale and found by its key.
pub stale_rows-Listed :
    (tenant : Text) (current : ℕ) (table : Table)
    → DistinctSubjects table
    → All (Listed tenant current table) (stale_rows tenant current table)
unfolding stale_rows
stale_rows-Listed tenant current table d =
    order_by_subject-All (Listed tenant current table) (where_rows (is_stale tenant current) table)
      (where_rows-Listed tenant current table d)

any_row-if :
    (t s : Text) (b : Bool) (x y : SubjectRow) (xs ys : Table)
    → any_row (is_subject t s) (if b then x ∷ xs else y ∷ ys) ≡ (
        if b
        then is_subject t s x || any_row (is_subject t s) xs
        else is_subject t s y || any_row (is_subject t s) ys)
unfolding any_row
any_row-if t s true x y xs ys = refl
any_row-if t s false x y xs ys = refl

upsert_subject-any_row :
    (t s t' s' wrapped now : Text) (version : ℕ) (table : Table)
    → (text_eq t' t && text_eq s' s) ≡ false
    → any_row (is_subject t s) table ≡ false
    → any_row (is_subject t s) (upsert_subject t' s' wrapped version now table) ≡ false
unfolding any_row upsert_subject
upsert_subject-any_row t s t' s' wrapped now version [] e h = ground arith
upsert_subject-any_row t s t' s' wrapped now version (r ∷ rs) e h = ground (
  arith,
  upsert_subject-any_row t s t' s' wrapped now version rs e,
  any_row-if t s (is_subject t' s' r) (record r { dek_wrapped = wrapped; kek_version = version }) r
      rs (upsert_subject t' s' wrapped version now rs),
)

pub upsert_subject-DistinctSubjects :
    (t' s' wrapped now : Text) (version : ℕ) (table : Table)
    → DistinctSubjects table
    → DistinctSubjects (upsert_subject t' s' wrapped version now table)
unfolding upsert_subject any_row
upsert_subject-DistinctSubjects t' s' wrapped now version [] d = (refl, tt)
upsert_subject-DistinctSubjects t' s' wrapped now version (r ∷ rs) (o, d) =
    distinct_case (is_subject t' s' r) refl
      (upsert_subject-DistinctSubjects t' s' wrapped now version rs d)
  where
    distinct_case :
        (b : Bool)
        → is_subject t' s' r ≡ b
        → DistinctSubjects (upsert_subject t' s' wrapped version now rs)
        → DistinctSubjects (
            if b
            then record r { dek_wrapped = wrapped; kek_version = version } ∷ rs
            else r ∷ upsert_subject t' s' wrapped version now rs)
    distinct_case true e k = (o, d)
    distinct_case false e k = (
      upsert_subject-any_row r.tenant_id r.subject t' s' wrapped now version rs
          (ground (arith, text_eq_sym r.tenant_id t', text_eq_sym r.subject s')) o,
      k,
    )
