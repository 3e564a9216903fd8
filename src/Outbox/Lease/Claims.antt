-- ===== src/Outbox/Lease/Claims.antt =====
-- What a claim leases: the first record, by due time, of exactly those that may be claimed.
use telegram_presence.Base.{
  ℕ, ◌≤◌, ◌≡◌, refl, sym, ◌∙◌, subst, inl, inr, Bool, true, false, not, ◌&&◌, ◌||◌, Option, none,
  some, List, [], ◌∷◌, ◌++◌, arith, Bool-cases, All, All-append, ltb, leb, keep, Option-cases,
}
use mathlib.Core.List.{append-nil, append_assoc}
use mathlib.Core.Option
use telegram_presence.Base.Text.{Text}
use telegram_presence.Base.Result.{ok, ◌>>=◌}
use telegram_presence.Base.Loop.{
  for_each, for_each_inv, Ensures, Ensures-map, Ensures-bind, IfOk, IfOk-of-Ensures,
}
use telegram_presence.Base.Sort.{sort, sort-All}
use telegram_presence.Delivery.Record.{DeliveryRecord}
use telegram_presence.Outbox.{Config, Store, find, get, put, safe_id, records}
use telegram_presence.Outbox.Laws.{
  find-All, find-id, find-put_self, Different, Different-symm, Current, put-Current,
}
use telegram_presence.Outbox.Lifecycle.{
  IsValid, IsSound, Progress, Progress-refl, Progress-trans, Progress-put, replace-ok,
}
use telegram_presence.Outbox.Lease.{
  retryable, claimed, claim_unlocked, exhausted_record, Scan, wanted, is_due, scan_one, due_before,
  some_claim, claim_first, claim_due_transports, claim_found, claim_id,
}
use telegram_presence.Outbox.Lease.Progress.{
  IsIdentifier, Ahead, Ahead-skip, Ahead-start, dead_letter-ok, dead_letter-Ahead, claimed-IsValid,
  claimed-Same, claimed-Move,
}

-- A record that a claim may lease: retryable, of a wanted transport, with attempts left, and due.
abbrev pub claimable : Config → Option (List Text) → ℕ → DeliveryRecord → Bool
claimable c transports now r =
    retryable r
    && (wanted transports r.envelope.transport && (ltb r.attempts c.max_attempts && is_due now r))

-- The records that a claim chooses from, first the one due longest.
abbrev pub candidates : Config → Option (List Text) → ℕ → Store → List DeliveryRecord
candidates c transports now s = sort due_before (keep (claimable c transports now) (records s))

abbrev Found : Config → Option (List Text) → ℕ → Store → DeliveryRecord → Type 0
Found c transports now s r = Current s r × (claimable c transports now r ≡ true)

module _ (c : Config) (transports : Option (List Text)) (now : ℕ) (start : Store) where
  -- The invariant of the scan: what it collected so far and what it will collect are the records
  -- that may be claimed, and what it collected is still in the directory.
  record Scanned (xs : List DeliveryRecord) (p : Scan) : Type 0 where
    ahead : Ahead c start xs p.0
    total :
        p.1 ++ keep (claimable c transports now) xs
        ≡ keep (claimable c transports now) (records start)
    found : All (Found c transports now p.0) p.1
    others : All (λ d. All (Different d) xs) p.1

  Found-put :
      (x t : DeliveryRecord) (xs ds : List DeliveryRecord) (s : Store)
      → t.delivery_id ≡ x.delivery_id
      → All (λ d. All (Different d) (x ∷ xs)) ds
      → All (Found c transports now s) ds
      → All (Found c transports now (put t s)) ds
  Found-put x t xs [] s e o f = tt
  Found-put x t xs (d ∷ ds) s e o f = (
    ((put-Current x t s (d ∷ []) e (Different-symm d x o.0.0, tt) (f.0.0, tt)).0, f.0.1),
    Found-put x t xs ds s e o.1 f.1,
  )

  fewer :
      (x : DeliveryRecord) (xs ds : List DeliveryRecord)
      → All (λ d. All (Different d) (x ∷ xs)) ds
      → All (λ d. All (Different d) xs) ds
  fewer x xs [] o = tt
  fewer x xs (d ∷ ds) o = (o.0.1, fewer x xs ds o.1)

  firsts :
      (x : DeliveryRecord) (xs ds : List DeliveryRecord)
      → All (λ d. All (Different d) (x ∷ xs)) ds
      → All (λ d. Different d x) ds
  firsts x xs [] o = tt
  firsts x xs (d ∷ ds) o = (o.0.0, firsts x xs ds o.1)

  module _ (x : DeliveryRecord) (xs : List DeliveryRecord) (p : Scan) (h : Scanned (x ∷ xs) p) where
    Scanned-skip : claimable c transports now x ≡ false → Scanned xs p
    Scanned-skip e = record {
      ahead = Ahead-skip c start x xs p.0 h.ahead;
      total = rw e at h.total;
      found = h.found;
      others = fewer x xs p.1 h.others;
    }

    Scanned-take : claimable c transports now x ≡ true → Scanned xs (p.0, p.1 ++ x ∷ [])
    Scanned-take e = record {
      ahead = Ahead-skip c start x xs p.0 h.ahead;
      total = append_assoc p.1 (x ∷ []) _ ∙ (rw e at h.total);
      found = All-append _ p.1 (x ∷ []) h.found ((h.ahead.current.0, e), tt);
      others = All-append _ p.1 (x ∷ []) (fewer x xs p.1 h.others) (h.ahead.apart.0, tt);
    }

    Scanned-put :
        (t : DeliveryRecord)
        → claimable c transports now x ≡ false
        → t.delivery_id ≡ x.delivery_id
        → Ahead c start xs (put t p.0)
        → Scanned xs (put t p.0, p.1)
    Scanned-put t e same a = record {
      ahead = a;
      total = rw e at h.total;
      found = Found-put x t xs p.1 p.0 same h.others h.found;
      others = fewer x xs p.1 h.others;
    }

    scan_one-Scanned : 1 ≤ c.max_attempts → Ensures (Scanned xs) (scan_one c transports now x p)
    unfolding scan_one
    scan_one-Scanned k =
        elim (Bool-cases (not (retryable x) || not (wanted transports x.envelope.transport))) [
          | inl e ↦ rw e (Scanned-skip (ground arith))
          | inr e ↦ elim (Bool-cases (leb c.max_attempts x.attempts)) [
            | inl f ↦
                rw (e, f, dead_letter-ok c start x xs p h.ahead now k (ground arith))
                  (Scanned-put (exhausted_record c now x) (ground arith)
                    (unfold exhausted_record in refl)
                    (dead_letter-Ahead c start x xs p h.ahead now k (ground arith) (ground arith)))
            | inr f ↦ elim (Bool-cases (is_due now x)) [
              | inl g ↦ rw (e, f, g) (Scanned-take (ground arith))
              | inr g ↦ rw (e, f, g) (Scanned-skip (ground arith))
            ]
          ]
        ]

  scan-Scanned :
      1 ≤ c.max_attempts
      → IsSound start
      → Ensures (Scanned []) (for_each (scan_one c transports now) (records start) (start, []))
  scan-Scanned k h =
      for_each_inv Scanned (scan_one c transports now) (λ x xs p a. scan_one-Scanned x xs p a k)
        (records start) (start, [])
        (record { ahead = Ahead-start c start h; total = refl; found = tt; others = tt })

-- The directory holds the record that a claim returns, if it returns one.
abbrev pub Stored : Store → Option DeliveryRecord → Type 0
Stored t none = Unit
Stored t (some r) = Current t r

-- What a claim makes of a directory, given the record that it should lease.
pub record Leases (c : Config) (now : ℕ) (lease : Text) (s t : Store)
    (chosen result : Option DeliveryRecord) : Type 0 where
  pub progress : Progress c s t
  pub which : result ≡ Option.map (claimed now lease) chosen
  pub stored : Stored t result

pub head : List DeliveryRecord → Option DeliveryRecord
head [] = none
head (r ∷ rs) = some r

claim_ok :
    (c : Config) (transports : Option (List Text)) (now : ℕ) (lease : Text) (start s : Store)
    (r : DeliveryRecord)
    → IsIdentifier lease
    → Progress c start s
    → Found c transports now s r
    → Ensures
        (λ out. Leases c now lease start out.0 (some r) out.1)
        (claim_unlocked now lease r s >>= λ out. ok (some_claim out))
unfolding claim_unlocked some_claim
claim_ok c transports now lease start s r id h f =
    let v = claimed-IsValid now lease r id (find-All IsValid r.delivery_id s r h.sound.valid f.0) in
    let same = claimed-Same now lease r in
    let move = claimed-Move c now lease r (ground arith) (ground arith) in
    rw (replace-ok (claimed now lease r) s v) (record {
      progress = Progress-trans c start s _ h (Progress-put c s r _ h.sound f.0 v same move);
      which = refl;
      stored = find-put_self (claimed now lease r) s;
    })

claim_first-Leases :
    (c : Config) (transports : Option (List Text)) (now : ℕ) (lease : Text) (start s : Store)
    (rs : List DeliveryRecord)
    → IsIdentifier lease
    → Progress c start s
    → All (Found c transports now s) rs
    → Ensures (λ out. Leases c now lease start out.0 (head rs) out.1) (claim_first now lease rs s)
unfolding claim_first head
claim_first-Leases c transports now lease start s [] id h f = record {
  progress = h;
  which = refl;
  stored = tt;
}
claim_first-Leases c transports now lease start s (r ∷ rs) id h f =
    claim_ok c transports now lease start s r id h f.0

-- Claiming a due record never raises on a directory of the outbox. It leases the first, in the order
-- of due times, of exactly the records that are retryable, of a wanted transport, below the attempt
-- limit and due, and returns None only if there is none; the leased record is stored before it is
-- returned; every other delivery keeps its record or goes on in its life.
pub claim_due_transports-Leases :
    (c : Config) (transports : Option (List Text)) (now : ℕ) (lease : Text) (s : Store)
    → 1 ≤ c.max_attempts
    → IsIdentifier lease
    → IsSound s
    → Ensures
        (λ out. Leases c now lease s out.0 (head (candidates c transports now s)) out.1)
        (claim_due_transports c transports now lease s)
unfolding claim_due_transports
claim_due_transports-Leases c transports now lease s k id h =
    Ensures-bind (Scanned c transports now s []) _ _ _ (scan-Scanned c transports now s k h) λ p a.
      let all : p.1 ≡ keep (claimable c transports now) (records s) =
        sym (append-nil p.1) ∙ a.total in
      subst
        (λ ds.
          Ensures (λ out. Leases c now lease s out.0 (head (sort due_before ds)) out.1)
            (claim_first now lease (sort due_before p.1) p.0))
        all
        (claim_first-Leases c transports now lease s p.0 (sort due_before p.1) id a.ahead.progress
          (sort-All due_before (Found c transports now p.0) p.1 a.found))

claim_found-Progress :
    (c : Config) (now : ℕ) (lease : Text) (r : DeliveryRecord) (s : Store)
    → 1 ≤ c.max_attempts
    → IsIdentifier lease
    → IsSound s
    → Current s r
    → Ensures (λ out. Progress c s out.0) (claim_found c now lease r s)
unfolding claim_found
claim_found-Progress c now lease r s k l h f =
    let a : Ahead c s (r ∷ []) s = record {
      progress = Progress-refl c s h;
      current = (f, tt);
      apart = (tt, tt);
    } in
    elim (Bool-cases (retryable r)) [
      | inr e ↦ rw e (Progress-refl c s h)
      | inl e ↦ elim (Bool-cases (leb c.max_attempts r.attempts)) [
        | inl x ↦
            rw (e, x, dead_letter-ok c s r [] (s, []) a now k (ground arith))
              (dead_letter-Ahead c s r [] (s, []) a now k e (ground arith)).progress
        | inr x ↦ elim (Bool-cases (is_due now r)) [
          | inr d ↦ rw (e, x, d) (Progress-refl c s h)
          | inl d ↦
              rw (e, x, d)
                (Ensures-map _ (λ out. Progress c s out.0) _
                  (claim_ok c none now lease s s r l (Progress-refl c s h)
                    (f, unfold wanted in ground arith))
                  (λ out y. y.progress))
        ]
      ]
    ]

pub claim_id-Progress :
    (c : Config) (id : Text) (now : ℕ) (lease : Text) (s : Store)
    → 1 ≤ c.max_attempts
    → IsIdentifier lease
    → IsSound s
    → IfOk (λ out. Progress c s out.0) (claim_id c id now lease s)
unfolding claim_id get
claim_id-Progress c id now lease s k l h = elim (Bool-cases (safe_id id)) [
  | inr unsafe ↦ rw unsafe tt
  | inl safe ↦ elim (Option-cases (find id s)) [
    | inl missing ↦ rw (safe, missing) (Progress-refl c s h)
    | inr (r, found) ↦
        rw (safe, found)
          (IfOk-of-Ensures _ (claim_found c now lease r s) (
            claim_found-Progress c now lease r s k l h
              (subst (λ x. find x s ≡ some r) (sym (find-id id s r found)) found)))
  ]
]
