-- ===== src/Shred/Rewrap.antt =====
-- RewrapDEKs of shred/shred.go. Its loop has no bound of its own, so it takes fuel.
use eventstore.Base.{
  ℕ, zero, suc, Option, none, some, List, [], ◌∷◌, Text, ok, err, ◌==◌, if◌then◌else◌,
}
use eventstore.Es.Error.{Error, Result}
use eventstore.Shred.Shredder.{KeyStore, SubjectKey, SubjectStore, World}

-- The total and the error that a run returns, with the world after it.
abbrev pub Rewrapped : Type 0 → Type 0 → Type 0
Rewrapped K D = (ℕ × Option Error) × World K D

module _ {K D : Type 0} (kms : KeyStore K) (st : SubjectStore D) where
  abbrev pub upserted : Option Error × D → World K D → Option Error × World K D
  upserted (e, d) w = (e, record w { store = d })

  abbrev pub rewrapped_dek :
      Text → Text → Result (Text × ℕ) × K → World K D → Option Error × World K D
  rewrapped_dek tenant subject (err e, k) w = (some e, record w { keys = k })
  rewrapped_dek tenant subject (ok x, k) w =
      upserted (st.upsert_subject_key tenant subject x.0 x.1 w.store) (record w { keys = k })

  abbrev pub unwrapped_dek : Text → Text → Result Text → World K D → Option Error × World K D
  unwrapped_dek tenant subject (err e) w = (some e, w)
  unwrapped_dek tenant subject (ok dek) w =
      rewrapped_dek tenant subject (kms.wrap_dek tenant dek w.keys) w

  -- One pass of the loop over a page.
  unfoldable pub rewrap_row : Text → SubjectKey → World K D → Option Error × World K D
  rewrap_row tenant row w =
      unwrapped_dek tenant row.subject
        (kms.unwrap_dek tenant row.dek_wrapped row.kek_version w.keys) w

  abbrev pub counted :
      (ℕ → World K D → Rewrapped K D) → ℕ → Option Error × World K D → Rewrapped K D
  counted rest total (some e, w) = ((total, some e), w)
  counted rest total (none, w) = rest (suc total) w

  unfoldable pub rewrap_page : Text → List SubjectKey → ℕ → World K D → Rewrapped K D
  unfolding rewrap_row
  rewrap_page tenant [] total w = ((total, none), w)
  rewrap_page tenant (row ∷ rows) total w =
      counted (rewrap_page tenant rows) total (rewrap_row tenant row w)

  abbrev pub paged :
      (ℕ → World K D → Option (Rewrapped K D)) → Rewrapped K D → Option (Rewrapped K D)
  paged again ((total, some e), w) = some ((total, some e), w)
  paged again ((total, none), w) = again total w

  abbrev pub listed :
      (ℕ → World K D → Option (Rewrapped K D))
      → Text
      → Result (List SubjectKey)
      → ℕ
      → World K D
      → Option (Rewrapped K D)
  listed again tenant (err e) total w = some ((total, some e), w)
  listed again tenant (ok []) total w = some ((total, none), w)
  listed again tenant (ok (row ∷ rows)) total w =
      paged again (rewrap_page tenant (row ∷ rows) total w)

  unfoldable pub rewrap_loop : ℕ → Text → ℕ → ℕ → ℕ → World K D → Option (Rewrapped K D)
  unfolding rewrap_page
  rewrap_loop zero tenant current page total w = none
  rewrap_loop (suc fuel) tenant current page total w =
      listed (rewrap_loop fuel tenant current page) tenant
        (st.list_stale_subject_keys tenant current page w.store) total w

  abbrev pub from_version : ℕ → Text → ℕ → Result ℕ → World K D → Option (Rewrapped K D)
  from_version fuel tenant page (err e) w = some ((0, some e), w)
  from_version fuel tenant page (ok zero) w = some ((0, none), w)
  from_version fuel tenant page (ok (suc n)) w =
      rewrap_loop fuel tenant (suc n) (if page == 0 then 100 else page) 0 w

  -- The method RewrapDEKs; a page size below 0 counts as 0.
  unfoldable pub rewrap_deks : ℕ → Text → ℕ → World K D → Option (Rewrapped K D)
  unfolding rewrap_loop
  rewrap_deks fuel tenant page w =
      from_version fuel tenant page (kms.current_kek_version tenant w.keys) w
