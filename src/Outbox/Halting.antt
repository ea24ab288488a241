-- ===== src/Outbox/Halting.antt =====
-- The sets of halted and quarantined streams of outbox/drain.go, as against the calls made.
use eventstore.Base.{
  ℕ, zero, suc, ◌≡◌, refl, ◌⊎◌, inl, inr, ltb, ◌==◌, Bool, true, false, not, ◌&&◌, List, [], ◌∷◌,
  Text, text_eq, arith, if◌then◌else◌, any_row, All,
}
use eventstore.Outbox.Backoff.{stream_shard}
use eventstore.Outbox.Drain.{Drain, Delivery, Progress, has, skips, halts}

module _ (dr : Drain) where
  -- A failure that halts the stream `k`: every failure does, but one that crosses into the DLQ
  -- while AutoResumeAfterDLQ is set.
  abbrev pub blocks : Text → Delivery → Bool
  blocks k c = not c.published && (halts dr c.crossed_dlq && text_eq k c.key)

  -- Calls, the last one first, none of which follows a failure that halted its stream.
  abbrev pub Orderly : List Delivery → Type 0
  Orderly [] = Unit
  Orderly (c ∷ cs) = (any_row (blocks c.key) cs ≡ false) × Orderly cs

  -- A stream of this drain's shard that was not quarantined at the start.
  abbrev pub Admitted : List Text → Delivery → Type 0
  Admitted keys c =
      ((dr.total_shards ≡ 0) ⊎ (stream_shard c.key dr.total_shards ≡ dr.shard))
      × (has c.key keys ≡ false)

  pub record Good {D : Type 0} (keys : List Text) (b : Progress D) : Type 0 where
    pub orderly : Orderly b.calls
    pub remembered : (k : Text) → any_row (blocks k) b.calls ≡ true → has k b.halted ≡ true
    pub kept : (k : Text) → has k keys ≡ true → has k b.quarantined ≡ true
    pub admitted : All (Admitted keys) b.calls

  not_halted :
      (halted quarantined : List Text) (k : Text)
      → skips dr halted quarantined k ≡ false
      → has k halted ≡ false
  unfolding skips
  not_halted halted quarantined k h = ground arith

  -- A drain without shards, or the shard of the stream.
  own_shard :
      (total x shard : ℕ) → (ltb 0 total && not (x == shard)) ≡ false → (total ≡ 0) ⊎ (x ≡ shard)
  own_shard zero x shard h = inl refl
  own_shard (suc n) x shard h = inr (ground arith)

  still-Admitted :
      (keys halted quarantined : List Text) (c : Delivery)
      → (has c.key keys ≡ true → has c.key quarantined ≡ true)
      → skips dr halted quarantined c.key ≡ false
      → Admitted keys c
  unfolding skips
  still-Admitted keys halted quarantined c kept h = (
    own_shard dr.total_shards (stream_shard c.key dr.total_shards) dr.shard (ground arith),
    ground (arith, kept),
  )

  not_blocked :
      (calls : List Delivery) (halted : List Text) (k : Text)
      → (any_row (blocks k) calls ≡ true → has k halted ≡ true)
      → has k halted ≡ false
      → any_row (blocks k) calls ≡ false
  not_blocked calls halted k back h = ground (arith, back)

  module _ {D : Type 0} (keys : List Text) (b : Progress D) (good : Good keys b) where
    -- One more call, after which the sets still cover what they have to.
    pub called-Good :
        (c : Delivery) (halted quarantined : List Text) (d : D) (n : ℕ) (any : Bool)
        → skips dr b.halted b.quarantined c.key ≡ false
        → ((k : Text) → any_row (blocks k) (c ∷ b.calls) ≡ true → has k halted ≡ true)
        → ((k : Text) → has k keys ≡ true → has k quarantined ≡ true)
        → Good keys (record {
          store = d;
          halted = halted;
          quarantined = quarantined;
          calls = c ∷ b.calls;
          published = n;
          any_processed = any;
        })
    called-Good c halted quarantined d n any h back kept' = record {
      orderly = (
        not_blocked b.calls b.halted c.key (good.remembered c.key)
            (not_halted b.halted b.quarantined c.key h),
        good.orderly,
      );
      remembered = back;
      kept = kept';
      admitted = (still-Admitted keys b.halted b.quarantined c (good.kept c.key) h, good.admitted);
    }

    -- A call that does not block leaves the halted set sufficient.
    pub passed-back :
        (c : Delivery)
        → c.published ≡ true
        → (k : Text) → any_row (blocks k) (c ∷ b.calls) ≡ true
        → has k b.halted ≡ true
    unfolding any_row
    passed-back c p k h = ground (arith, good.remembered k)

    pub failed-back :
        (c : Delivery) (k : Text)
        → any_row (blocks k) (c ∷ b.calls) ≡ true
        → has k (if halts dr c.crossed_dlq then c.key ∷ b.halted else b.halted) ≡ true
    unfolding any_row
    failed-back c k h = ground (arith, good.remembered k)

    pub grown-kept :
        (x : Bool) (key k : Text)
        → has k keys ≡ true
        → has k (if x then key ∷ b.quarantined else b.quarantined) ≡ true
    unfolding any_row
    grown-kept x key k h = ground (arith, good.kept k)
