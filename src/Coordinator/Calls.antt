-- ===== src/Coordinator/Calls.antt =====
-- `CheckLimit` as a whole: its bound, its refusals, what it counts and whom it leaves alone.
use Prim.Native.String.{len}
use synit_waf.Prelude.{
  ℕ, ◌≤◌, ◌<◌, Bool, false, String, none, some, [], length, leb, leb→le, str_eq, eq_iff,
  if◌then◌else◌, lookup, lookup-insert, lookup-delete, length-insert, length-insert_present,
  Distinct-insert, ◌≡◌, refl, ap, subst, le_zero, ◌∙◌, ◌≢◌, ◌⊎◌, inl, inr, arith, Bool-cases,
  Option-cases,
}
use synit_waf.Coordinator.{
  Rate, CoordinatorLimiter, Coordinator, CheckLimitArgs, CheckError, allowed, refused, check_args,
  cleanup, oldest_from, evict, fresh_entry, differs, choose_entry, spend, check_limit,
}
use synit_waf.Coordinator.Table.{
  Named-insert, IsBounded, IsOldest, cleanup-IsBounded, evict-IsBounded, evict_room,
  oldest_from-IsOldest,
}

module _ (rate : Rate) where
  -- A table that may take one more entry keeps its bound.
  spend-IsBounded :
      (wall : ℕ) (key : String) (c : Coordinator rate) (e : CoordinatorLimiter rate)
      → key ≢ ""
      → IsBounded rate c
      → (length c.limiters < c.max_entries) ⊎ (lookup key c.limiters ≢ none)
      → IsBounded rate (spend rate wall key c e).1
  unfolding spend
  spend-IsBounded wall key c e p b room =
      let v : CoordinatorLimiter rate = record e { limiter = (rate.allow wall e.limiter).1 } in
      record {
        named = Named-insert rate key v c.limiters p b.named;
        distinct = Distinct-insert key v c.limiters b.distinct;
        room = b.room;
        bounded = elim room [
          | inl free ↦ omega (arith, length-insert key v c.limiters)
          | inr old ↦ omega (arith, length-insert_present key v c.limiters old, b.bounded)
        ];
      }

  key_named :
      (c : Coordinator rate) (args : CheckLimitArgs rate)
      → check_args rate c args ≡ none
      → args.key ≢ ""
  unfolding check_args
  key_named c args h = ground (arith, eq_iff args.key "")

  -- The three ways through a call.
  module _ (now wall : ℕ) (c : Coordinator rate) (args : CheckLimitArgs rate) where
    abbrev tidy : Coordinator rate
    tidy = cleanup rate now c

    way_refused :
        (e : CheckError)
        → check_args rate c args ≡ some e
        → check_limit rate now wall c args ≡ (refused e, c)
    unfolding check_limit
    way_refused e bad = rw (bad, check_limit)

    way_new :
        check_args rate c args ≡ none
        → lookup args.key tidy.limiters ≡ none
        → check_limit rate now wall c args
          ≡ spend rate wall args.key (evict rate tidy) (fresh_entry rate now args)
    unfolding check_limit choose_entry
    way_new good new = rw (good, check_limit, new, choose_entry)

    way_known :
        (e : CoordinatorLimiter rate)
        → check_args rate c args ≡ none
        → lookup args.key tidy.limiters ≡ some e
        → check_limit rate now wall c args
          ≡ spend rate wall args.key tidy (
              if differs rate e args
              then fresh_entry rate now args
              else (record e { last_seen = now }))
    unfolding check_limit choose_entry
    way_known e good old = rw (good, check_limit, old, choose_entry)

  -- Whatever is asked of the leader, its table stays within the bound, with distinct keys that are
  -- not empty.
  pub check_limit-IsBounded :
      (now wall : ℕ) (c : Coordinator rate) (args : CheckLimitArgs rate)
      → IsBounded rate c
      → IsBounded rate (check_limit rate now wall c args).1
  check_limit-IsBounded now wall c args b = elim (Option-cases (check_args rate c args)) [
    | inr (e, bad) ↦ rw (way_refused now wall c args e bad) b
    | inl good ↦
        let c' = cleanup rate now c in
        let b' = cleanup-IsBounded rate now c b in
        let p = key_named c args good in
        elim (Option-cases (lookup args.key c'.limiters)) [
          | inl new ↦ rw (way_new now wall c args good new) (
              spend-IsBounded wall args.key (evict rate c') (fresh_entry rate now args) p
                (evict-IsBounded rate c' b') (inl (evict_room rate c' b')))
          | inr (e, old) ↦
              rw (way_known now wall c args e good old)
                (spend-IsBounded wall args.key c' _ p b' (inr (λ gone. cc)))
        ]
  ]

  -- The limiter that a call counts against: the key's own where the table holds one for the same
  -- limit and burst, else a new one.
  pub counted : ℕ → Coordinator rate → CheckLimitArgs rate → rate.Limiter
  counted now c args = elim (lookup args.key (cleanup rate now c).limiters) [
    | none ↦ rate.new_limiter args.limit args.burst
    | some e ↦ if differs rate e args then rate.new_limiter args.limit args.burst else e.limiter
  ]

  -- The table and the entry that a call which passes the guards spends from.
  way_good :
      (now wall : ℕ) (c : Coordinator rate) (args : CheckLimitArgs rate)
      → check_args rate c args ≡ none
      → (t : Coordinator rate) × (e : CoordinatorLimiter rate) × (check_limit rate now wall c args
          ≡ spend rate wall args.key t e)
        × (e.limiter ≡ counted now c args)
        × (e.last_seen ≡ now)
  unfolding counted
  way_good now wall c args good =
      elim (Option-cases (lookup args.key (cleanup rate now c).limiters)) [
        | inl new ↦
            let fresh : CoordinatorLimiter rate = fresh_entry rate now args in
            (
              evict rate (cleanup rate now c),
              fresh,
              way_new now wall c args good new,
              rw (new, counted),
              refl,
            )
        | inr (e, old) ↦
            let own : CoordinatorLimiter rate =
              if differs rate e args
              then fresh_entry rate now args
              else (record e { last_seen = now }) in
            (
              cleanup rate now c,
              own,
              way_known now wall c args e good old,
              rw (old, counted) (ground arith),
              ground arith,
            )
      ]

  -- A call that passes the guards is answered by one limiter, the one that `counted` names, and
  -- leaves it, moved on by that one request, under the key with the time of the call.
  pub check_limit_counts :
      (now wall : ℕ) (c : Coordinator rate) (args : CheckLimitArgs rate)
      → check_args rate c args ≡ none
      → let spent = rate.allow wall (counted now c args) in
        ((check_limit rate now wall c args).0 ≡ allowed spent.0)
        × ((e : CoordinatorLimiter rate) × (lookup args.key
                (check_limit rate now wall c args).1.limiters
              ≡ some e)
            × (e.limiter ≡ spent.1)
            × (e.last_seen ≡ now))
  unfolding spend
  check_limit_counts now wall c args good =
      let (t, e, way, same, seen) = way_good now wall c args good in
      let v : CoordinatorLimiter rate = record e { limiter = (rate.allow wall e.limiter).1 } in
      let here = (eq_iff args.key args.key).1 refl in
      (
        ap (λ r. r.0) way ∙ ap (λ l. allowed (rate.allow wall l).0) same,
        (
          v,
          ap (λ r. lookup args.key r.1.limiters) way
              ∙ lookup-insert args.key args.key v t.limiters
              ∙ rw here,
          ap (λ l. (rate.allow wall l).1) same,
          seen,
        ),
      )

  -- What the leader demands of a request: its own secret, a key of 1 to 512 bytes, and a limit and
  -- a burst above zero.
  abbrev pub IsAcceptable : Coordinator rate → CheckLimitArgs rate → Type 0
  IsAcceptable c args =
      (args.secret ≡ c.secret)
      × (args.key ≢ "")
      × (len args.key ≤ 512)
      × (rate.limit_le_zero args.limit ≡ false)
      × (le_zero args.burst ≡ false)

  -- The leader answers exactly the acceptable requests; any other is refused and changes nothing.
  pub check_limit_guarded :
      (now wall : ℕ) (c : Coordinator rate) (args : CheckLimitArgs rate)
      → (IsAcceptable c args × ((b : Bool) × ((check_limit rate now wall c args).0 ≡ allowed b)))
        ⊎ (¬ IsAcceptable c args
            × ((e : CheckError) × (check_limit rate now wall c args ≡ (refused e, c))))
  unfolding check_args
  check_limit_guarded now wall c args = elim (Option-cases (check_args rate c args)) [
    | inl good ↦ inl (
      ground (arith, eq_iff args.secret c.secret, eq_iff args.key ""),
      ((rate.allow wall (counted now c args)).0, (check_limit_counts now wall c args good).0),
    )
    | inr (e, bad) ↦ inr (
      ground (arith, eq_iff args.secret c.secret, eq_iff args.key ""),
      (e, way_refused now wall c args e bad),
    )
  ]

  lookup-evict :
      (c : Coordinator rate) (j : String)
      → IsBounded rate c
      → (lookup j (evict rate c).limiters ≡ lookup j c.limiters)
        ⊎ (lookup j (evict rate c).limiters ≡ none)
          × (c.max_entries ≤ length c.limiters)
          × IsOldest rate j c.limiters
  unfolding evict
  lookup-evict c j b =
      let least = oldest_from rate "" 0 c.limiters in
      elim (Bool-cases (leb c.max_entries (length c.limiters))) [
        | inr roomy ↦ inl (rw (roomy, evict))
        | inl full ↦
            let filled : c.limiters ≢ [] =
              λ e. omega (arith, ap length e, leb→le _ _ full, b.room) in
            let oldest = oldest_from-IsOldest rate c.limiters filled b.named b.distinct in
            elim (Bool-cases (str_eq least j)) [
              | inr other ↦ inl (rw (full, evict, lookup-delete least j c.limiters, other))
              | inl hit ↦ inr (
                rw (full, evict, lookup-delete least j c.limiters, hit),
                leb→le _ _ full,
                subst (λ k. IsOldest rate k c.limiters) ((eq_iff least j).0 hit) oldest,
              )
            ]
      ]

  lookup-spend_ne :
      (wall : ℕ) (key j : String) (c : Coordinator rate) (e : CoordinatorLimiter rate)
      → j ≢ key
      → lookup j (spend rate wall key c e).1.limiters ≡ lookup j c.limiters
  unfolding spend
  lookup-spend_ne wall key j c e p =
      let v : CoordinatorLimiter rate = record e { limiter = (rate.allow wall e.limiter).1 } in
      let other : str_eq key j ≡ false = ground (arith, eq_iff key j) in
      lookup-insert key j v c.limiters ∙ rw other

  -- A call that passes the guards leaves every other key's entry as the cleanup left it, but for one:
  -- where the call's key is new to a full table, an entry goes that no other entry was seen before.
  pub check_limit_others :
      (now wall : ℕ) (c : Coordinator rate) (args : CheckLimitArgs rate) (j : String)
      → IsBounded rate c
      → check_args rate c args ≡ none
      → j ≢ args.key
      → let tidy = cleanup rate now c in
        let after = lookup j (check_limit rate now wall c args).1.limiters in
        (after ≡ lookup j tidy.limiters)
        ⊎ (after ≡ none)
          × (lookup args.key tidy.limiters ≡ none)
          × (tidy.max_entries ≤ length tidy.limiters)
          × IsOldest rate j tidy.limiters
  check_limit_others now wall c args j b good p =
      let c' = cleanup rate now c in
      elim (Option-cases (lookup args.key c'.limiters)) [
        | inr (e, old) ↦ inl (
            ap (λ r. lookup j r.1.limiters) (way_known now wall c args e good old)
            ∙ lookup-spend_ne wall args.key j c' _ p)
        | inl new ↦
            let same =
              ap (λ r. lookup j r.1.limiters) (way_new now wall c args good new)
              ∙ lookup-spend_ne wall args.key j (evict rate c') (fresh_entry rate now args) p in
            elim (lookup-evict c' j (cleanup-IsBounded rate now c b)) [
              | inl kept ↦ inl (same ∙ kept)
              | inr (gone, full, oldest) ↦ inr (same ∙ gone, new, full, oldest)
            ]
      ]
