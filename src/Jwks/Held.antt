-- ===== src/Jwks/Held.antt =====
-- Who holds the refresh locks of internal/waf/middleware.go.
use synit_waf.Prelude.{
  ℕ, zero, suc, ◌-◌, ◌<◌, ◌≤◌, true, false, String, none, some, List, [], ◌∷◌, ◌++◌, length, All,
  set, ◌==◌, if◌then◌else◌, lookup, insert, delete, lookup-insert, lookup-delete, str_eq, eq_iff,
  ◌≡◌, refl, sym, subst, ◌∙◌, inl, inr, arith, Bool-cases, Option-cases, ==_iff,
}
use synit_waf.Jwks.Locks.{
  LockTable, Holder, refs_of, acquire, release, Picks, here, later, Reaches, starts, acquires,
  releases,
}

abbrev pub count : ℕ → List Holder → ℕ
count lock [] = 0
count lock ((e, l) ∷ hs) = let n = count lock hs in if l == lock then suc n else n

abbrev pub HasLock : LockTable → Holder → Type 0
HasLock s (e, l) = lookup e s.named ≡ some l

-- The counts are those of the holders, who have the lock that is named for their endpoint, each
-- named lock has a holder, and no lock has two names.
pub record IsCounted (hs : List Holder) (s : LockTable) : Type 0 where
  pub counted : (lock : ℕ) → refs_of lock s.locks ≡ count lock hs
  pub holders : All (HasLock s) hs
  pub used : (e : String) (l : ℕ) → lookup e s.named ≡ some l → 0 < count l hs
  pub one_name :
      (e f : String) (l : ℕ) → lookup e s.named ≡ some l → lookup f s.named ≡ some l → e ≡ f

refs_of-set :
    (locks : List ℕ) (l x n : ℕ)
    → 0 < refs_of l locks
    → refs_of x (set locks l n) ≡ (if l == x then n else refs_of x locks)
refs_of-set [] l x n h = absurd (omega (arith, h))
refs_of-set (m ∷ locks) zero zero n h = refl
refs_of-set (m ∷ locks) zero (suc x) n h = ground arith
refs_of-set (m ∷ locks) (suc l) zero n h = ground arith
refs_of-set (m ∷ locks) (suc l) (suc x) n h = ground (arith, refs_of-set locks l x n h)

refs_of-append :
    (locks : List ℕ) (x n : ℕ)
    → refs_of x (locks ++ n ∷ []) ≡ (if length locks == x then n else refs_of x locks)
refs_of-append [] zero n = refl
refs_of-append [] (suc x) n = ground arith
refs_of-append (m ∷ locks) zero n = ground arith
refs_of-append (m ∷ locks) (suc x) n = ground (arith, refs_of-append locks x n)

refs_of-beyond : (locks : List ℕ) → refs_of (length locks) locks ≡ 0
refs_of-beyond [] = refl
refs_of-beyond (m ∷ locks) = refs_of-beyond locks

count-Picks :
    {e : String} {l : ℕ} {hs rest : List Holder} (x : ℕ)
    → Picks (e, l) hs rest
    → count x hs ≡ (if l == x then suc (count x rest) else count x rest)
count-Picks x here = refl
count-Picks x (later {g} p) = ground (arith, count-Picks x p)

All-Picks :
    {h : Holder} {hs rest : List Holder} (P : Holder → Type 0)
    → Picks h hs rest
    → All P hs
    → P h × All P rest
All-Picks P here a = a
All-Picks P (later p) a = let b = All-Picks P p a.1 in (b.0, (a.0, b.1))

All-implied :
    (P Q : Holder → Type 0) (hs : List Holder)
    → ((e : String) (l : ℕ) → P (e, l) → Q (e, l))
    → All P hs
    → All Q hs
All-implied P Q [] f a = tt
All-implied P Q ((e, l) ∷ hs) f a = (f e l a.0, All-implied P Q hs f a.1)

All-both :
    (P Q : Holder → Type 0) (hs : List Holder) → All P hs → All Q hs → All (λ h. P h × Q h) hs
All-both P Q [] a b = tt
All-both P Q (h ∷ hs) a b = ((a.0, b.0), All-both P Q hs a.1 b.1)

-- Each holder counts.
All-count :
    (all hs : List Holder) → ((l : ℕ) → count l hs ≤ count l all) → All (λ h. 0 < count h.1 all) hs
All-count all [] f = tt
All-count all ((e, l) ∷ hs) f =
    (ground (arith, f l, ==_iff l l), All-count all hs (λ x. ground (arith, f x)))

again-IsCounted :
    (e : String) (l : ℕ) (hs : List Holder) (s : LockTable)
    → lookup e s.named ≡ some l
    → IsCounted hs s
    → IsCounted ((e, l) ∷ hs) (record s { locks = set s.locks l (suc (refs_of l s.locks)) })
again-IsCounted e l hs s there h =
    let positive : 0 < refs_of l s.locks = omega (arith, h.used e l there, h.counted l) in
    record {
      counted = λ x. ground (
        arith,
        refs_of-set s.locks l x (suc (refs_of l s.locks)) positive,
        h.counted x,
        h.counted l,
        ==_iff l x,
      );
      holders = (there, h.holders);
      used = λ f k named. ground (arith, h.used f k named);
      one_name = h.one_name;
    }

fresh-IsCounted :
    (e : String) (hs : List Holder) (s : LockTable)
    → lookup e s.named ≡ none
    → IsCounted hs s
    → IsCounted
        ((e, length s.locks) ∷ hs)
        (record { locks = s.locks ++ 1 ∷ []; named = insert e (length s.locks) s.named })
fresh-IsCounted e hs s absent h =
    let l = length s.locks in
    let unused : count l hs ≡ 0 = sym (h.counted l) ∙ refs_of-beyond s.locks in
    let named : List (String × ℕ) = insert e l s.named in
    let found : (f : String) → lookup f named ≡ (if str_eq e f then some l else lookup f s.named) =
      λ f. lookup-insert e f l s.named in
    let after : LockTable = record { locks = s.locks ++ 1 ∷ []; named = named } in
    record {
      counted = λ x. ground (arith, refs_of-append s.locks x 1, h.counted x, unused, ==_iff l x);
      holders = (
        ground (arith, found e, eq_iff e e),
        All-implied (HasLock s) (HasLock after) hs
            (λ f k has. ground (arith, found f, eq_iff e f, has, absent)) h.holders,
      );
      used = λ f k has. ground (arith, found f, has, h.used f k, ==_iff l k);
      one_name = λ f g k a b. ground (
        arith,
        found f,
        found g,
        eq_iff e f,
        eq_iff e g,
        h.one_name f g k,
        h.used f k,
        h.used g k,
        unused,
      );
    }

acquire-IsCounted :
    (e : String) (hs : List Holder) (s : LockTable)
    → IsCounted hs s
    → IsCounted ((e, (acquire e s).0) ∷ hs) (acquire e s).1
unfolding acquire
acquire-IsCounted e hs s h =
    let goal : ℕ × LockTable → Type 0 = λ x. IsCounted ((e, x.0) ∷ hs) x.1 in
    elim (Option-cases (lookup e s.named)) [
      | inl absent ↦
          let l = length s.locks in
          let step : acquire e s
              ≡ (l, record { locks = s.locks ++ 1 ∷ []; named = insert e l s.named }) =
            rw (absent, acquire) in
          subst goal (sym step) (fresh-IsCounted e hs s absent h)
      | inr (l, there) ↦
          let step : acquire e s
              ≡ (l, record s { locks = set s.locks l (suc (refs_of l s.locks)) }) =
            rw (there, acquire) in
          subst goal (sym step) (again-IsCounted e l hs s there h)
    ]

kept-IsCounted :
    (e : String) (l : ℕ) (hs rest : List Holder) (s : LockTable)
    → Picks (e, l) hs rest
    → IsCounted hs s
    → ((refs_of l s.locks - 1) == 0) ≡ false
    → IsCounted rest (record s { locks = set s.locks l (refs_of l s.locks - 1) })
kept-IsCounted e l hs rest s p h more =
    let n = refs_of l s.locks - 1 in
    let positive : 0 < refs_of l s.locks = ground arith in
    record {
      counted = λ x.
          ground
            (arith, refs_of-set s.locks l x n positive, h.counted x, count-Picks x p, ==_iff l x);
      holders = (All-Picks (HasLock s) p h.holders).1;
      used = λ f k has. ground (arith, h.used f k has, h.counted k, count-Picks k p, ==_iff l k);
      one_name = h.one_name;
    }

freed-IsCounted :
    (e : String) (l : ℕ) (hs rest : List Holder) (s : LockTable)
    → Picks (e, l) hs rest
    → IsCounted hs s
    → ((refs_of l s.locks - 1) == 0) ≡ true
    → IsCounted rest
        (record { locks = set s.locks l (refs_of l s.locks - 1); named = delete e s.named })
freed-IsCounted e l hs rest s p h last =
    let n = refs_of l s.locks - 1 in
    let picked = All-Picks (HasLock s) p h.holders in
    let there : lookup e s.named ≡ some l = picked.0 in
    let positive : 0 < refs_of l s.locks = omega (arith, h.used e l there, h.counted l) in
    let unused : count l rest ≡ 0 = ground (arith, h.counted l, count-Picks l p, ==_iff l l) in
    let named : List (String × ℕ) = delete e s.named in
    let found : (f : String) → lookup f named ≡ (if str_eq e f then none else lookup f s.named) =
      λ f. lookup-delete e f s.named in
    let after : LockTable = record { locks = set s.locks l n; named = named } in
    let counts : All (λ g. 0 < count g.1 rest) rest = All-count rest rest (λ x. omega arith) in
    record {
      counted = λ x.
          ground
            (arith, refs_of-set s.locks l x n positive, h.counted x, count-Picks x p, ==_iff l x);
      holders =
          All-implied (λ g. HasLock s g × (0 < count g.1 rest)) (HasLock after) rest
            (λ f k both. ground (arith, found f, eq_iff e f, both, there, unused))
            (All-both (HasLock s) (λ g. 0 < count g.1 rest) rest picked.1 counts);
      used = λ f k has. ground (
        arith,
        found f,
        has,
        h.used f k,
        h.one_name e f l there,
        eq_iff e f,
        count-Picks k p,
        ==_iff l k,
      );
      one_name = λ f g k a b. ground (arith, found f, found g, a, b, h.one_name f g k);
    }

release-IsCounted :
    (e : String) (l : ℕ) (hs rest : List Holder) (s : LockTable)
    → Picks (e, l) hs rest
    → IsCounted hs s
    → IsCounted rest (release e l s)
unfolding release
release-IsCounted e l hs rest s p h = elim (Bool-cases ((refs_of l s.locks - 1) == 0)) [
  | inl last ↦
      let step : release e l s
          ≡ record { locks = set s.locks l (refs_of l s.locks - 1); named = delete e s.named } =
        rw (last, release) in
      subst (IsCounted rest) (sym step) (freed-IsCounted e l hs rest s p h last)
  | inr more ↦
      let step : release e l s ≡ record s { locks = set s.locks l (refs_of l s.locks - 1) } =
        rw (more, release) in
      subst (IsCounted rest) (sym step) (kept-IsCounted e l hs rest s p h more)
]

-- Wherever calls of the two operations lead, the count of a lock is the number of its holders, all
-- holders of one endpoint have the lock that is named for it, and a lock that has no holder left has
-- no name.
pub Reaches-IsCounted : {hs : List Holder} {s : LockTable} → Reaches hs s → IsCounted hs s
unfolding lookup
Reaches-IsCounted starts = record {
  counted = λ x. refl;
  holders = tt;
  used = λ e l h. absurd (cc);
  one_name = λ e f l a b. absurd (cc);
}
Reaches-IsCounted (acquires {hs} {s} e r) = acquire-IsCounted e hs s (Reaches-IsCounted r)
Reaches-IsCounted (releases {hs} {rest} {s} {endpoint} {lock} p r) =
    release-IsCounted endpoint lock hs rest s p (Reaches-IsCounted r)
