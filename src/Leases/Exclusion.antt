-- ===== src/Leases/Exclusion.antt =====
-- One holder at a time, and circuits that only grow.
use extra_codeowners.Prelude.{
  ℕ, ◌+◌, ◌*◌, ◌≤◌, ◌<◌, max, min, Bool, true, false, List, [], ◌∷◌, ◌≡◌, refl, ap, ◌∙◌, arith,
  ◌==◌, nat_eq, list_eq, Option, none, some, inl, inr, Bool-cases, lookup, assign, lookup-assign,
  beq_self, eq_of_beq,
}
use extra_codeowners.Text.{Str}
use extra_codeowners.Budget.{second}
use extra_codeowners.Leases.{
  ServiceLease, Leases, is_free, Attempt, insert_lease, attempt_lease, or_again, acquire_from,
  acquire_service_lease, holds, Circuit, Circuits, extend, scope_of, record_provider_backpressure,
  is_blocked, provider_is_backpressured,
}

-- every attempt is made at `start` or later
unfoldable pub AllAfter : ℕ → List Attempt → Type 0
AllAfter start [] = Unit
AllAfter start (attempt ∷ attempts) = (start ≤ attempt.now) × AllAfter start attempts

holds_new :
    (name owner : Str) (until t : ℕ) (leases : Leases)
    → t < until
    → holds t owner
        (lookup name (assign name (record { owner = owner; lease_until = until }) leases))
      ≡ true
unfolding holds
holds_new name owner until t leases h =
    rw
      (
        lookup-assign name name (record { owner = owner; lease_until = until }) leases,
        beq_self name,
        beq_self owner,
      )
      (ground arith)

-- an attempt that answers yes has written the caller's lease
attempt_lease-holds :
    (name owner : Str) (seconds t : ℕ) (attempt : Attempt) (found : Option ServiceLease)
    (leases : Leases)
    → t < attempt.now + seconds * second
    → (attempt_lease name owner seconds attempt found leases).1 ≡ some true
    → holds t owner (lookup name (attempt_lease name owner seconds attempt found leases).0) ≡ true
unfolding attempt_lease insert_lease
attempt_lease-holds name owner seconds t attempt (some lease) leases early h =
    elim (Bool-cases (is_free attempt.now owner lease)) [
      | inl free ↦ rw free (holds_new name owner (attempt.now + seconds * second) t leases early)
      | inr taken ↦ absurd (ground arith)
    ]
attempt_lease-holds name owner seconds t attempt none leases early h = by_rival attempt.rival h
  where
    by_rival :
        (rival : Option ServiceLease)
        → (insert_lease name
            (record { owner = owner; lease_until = attempt.now + seconds * second })
            rival
            leases).1
          ≡ some true
        → holds t owner (
            lookup name
              (insert_lease name
                (record { owner = owner; lease_until = attempt.now + seconds * second })
                rival
                leases).0)
          ≡ true
    by_rival none e = holds_new name owner (attempt.now + seconds * second) t leases early
    by_rival (some theirs) e = absurd (ground arith)

acquire_from-holds :
    (name owner : Str) (seconds start t : ℕ) (attempts : List Attempt) (leases : Leases)
    → AllAfter start attempts
    → t < start + seconds * second
    → (acquire_from name owner seconds attempts leases).1 ≡ true
    → holds t owner (lookup name (acquire_from name owner seconds attempts leases).0) ≡ true
unfolding acquire_from AllAfter or_again
acquire_from-holds name owner seconds start t [] leases after early h = cc
acquire_from-holds name owner seconds start t (a ∷ attempts) leases (first, after) early h =
    by_outcome (attempt_lease name owner seconds a (lookup name leases) leases).1 refl
      (acquire_from-holds name owner seconds start t attempts
        (attempt_lease name owner seconds a (lookup name leases) leases).0 after early)
      h
  where
    after_attempt : Leases
    after_attempt = (attempt_lease name owner seconds a (lookup name leases) leases).0

    by_outcome :
        (outcome : Option Bool)
        → (attempt_lease name owner seconds a (lookup name leases) leases).1 ≡ outcome
        → ((acquire_from name owner seconds attempts after_attempt).1 ≡ true
            → holds t owner (lookup name (acquire_from name owner seconds attempts after_attempt).0)
              ≡ true)
        → (or_again after_attempt outcome
            (acquire_from name owner seconds attempts after_attempt)).1
          ≡ true
        → holds t owner (
            lookup name
              (or_again after_attempt outcome
                (acquire_from name owner seconds attempts after_attempt)).0)
          ≡ true
    by_outcome none e ih g = ih g
    by_outcome (some answer) e ih g =
        attempt_lease-holds name owner seconds t a (lookup name leases) leases (omega arith)
          (e ∙ ap (λ b. some b) g)

-- A caller to whom `acquire_service_lease` answers yes, in whichever attempt, holds the lease until
-- the given seconds have passed since the first attempt.
pub acquire_service_lease-holds :
    (name owner : Str) (seconds start t : ℕ) (first second' third : Attempt) (leases : Leases)
    → AllAfter start (first ∷ second' ∷ third ∷ [])
    → t < start + seconds * second
    → (acquire_service_lease name owner seconds first second' third leases).1 ≡ true
    → holds t owner
        (lookup name (acquire_service_lease name owner seconds first second' third leases).0)
      ≡ true
unfolding acquire_service_lease
acquire_service_lease-holds name owner seconds start t first second' third leases after early h =
    acquire_from-holds name owner seconds start t (first ∷ second' ∷ third ∷ []) leases after early
      h

-- another caller, and what its three attempts meet
pub record Contender : Type 0 where
  pub owner : Str
  pub seconds : ℕ
  pub first : Attempt
  pub second' : Attempt
  pub third : Attempt

unfoldable pub contend : Str → List Contender → Leases → Leases
contend name [] leases = leases
contend name (c ∷ contenders) leases =
    contend name contenders
      (acquire_service_lease name c.owner c.seconds c.first c.second' c.third leases).0

-- the contenders are others, and try before the lease ends
unfoldable pub AllOthers : Str → ℕ → List Contender → Type 0
AllOthers owner until [] = Unit
AllOthers owner until (c ∷ contenders) =
    ((owner == c.owner) ≡ false) × (c.first.now < until) × AllOthers owner until contenders

refused_attempt :
    (name : Str) (c : Contender) (leases : Leases) (lease : ServiceLease)
    → lookup name leases ≡ some lease
    → (lease.owner == c.owner) ≡ false
    → c.first.now < lease.lease_until
    → acquire_service_lease name c.owner c.seconds c.first c.second' c.third leases
      ≡ (leases, false)
unfolding acquire_service_lease acquire_from attempt_lease or_again
refused_attempt name c leases lease found other early =
    let taken : is_free c.first.now c.owner lease ≡ false =
      unfold is_free in rw other (ground arith) in
    rw found (rw taken refl)

-- While a lease has not ended, any number of other callers, each with three attempts, leave the
-- table as it is, so the owner keeps the lease.
pub contend_keeps :
    (name : Str) (contenders : List Contender) (leases : Leases) (lease : ServiceLease)
    → lookup name leases ≡ some lease
    → AllOthers lease.owner lease.lease_until contenders
    → contend name contenders leases ≡ leases
unfolding contend AllOthers
contend_keeps name [] leases lease found others = refl
contend_keeps name (c ∷ contenders) leases lease found (other, early, others) =
    let refused = refused_attempt name c leases lease found other early in
    let same : (acquire_service_lease name c.owner c.seconds c.first c.second' c.third leases).0
        ≡ leases =
      ap (λ (r : Leases × Bool). r.0) refused in
    ap (contend name contenders) same ∙ contend_keeps name contenders leases lease found others

is_blocked-extend :
    (now until t : ℕ) (row : Option Circuit)
    → is_blocked t row ≡ true
    → is_blocked t (some (extend now until row)) ≡ true
unfolding is_blocked extend
is_blocked-extend now until t row h = ground arith

is_blocked-record :
    (now : ℕ) (scope : Option ℕ) (delay t key : ℕ) (circuits : Circuits)
    → is_blocked t (lookup key circuits) ≡ true
    → is_blocked t (lookup key (record_provider_backpressure now scope delay circuits)) ≡ true
unfolding record_provider_backpressure
is_blocked-record now scope delay t key circuits h =
    rw
      (lookup-assign (scope_of scope) key
        (extend now (now + max 1 (min delay 86400) * second) (lookup (scope_of scope) circuits))
        circuits)
      (elim (Bool-cases (scope_of scope == key)) [
        | inl same ↦
            let here : is_blocked t (lookup (scope_of scope) circuits) ≡ true =
              ap (λ k. is_blocked t (lookup k circuits)) (eq_of_beq (scope_of scope) key same)
              ∙ h in
            rw same (is_blocked-extend now _ t (lookup (scope_of scope) circuits) here)
        | inr other ↦ rw other h
      ])

-- Recording a rate limit never reopens a circuit: whatever was blocked at a time stays blocked at
-- that time, for every scope.
record_keeps_blocked :
    (now : ℕ) (scope : Option ℕ) (delay t : ℕ) (asked : Option ℕ) (circuits : Circuits)
    → provider_is_backpressured t asked circuits ≡ true
    → provider_is_backpressured t asked (record_provider_backpressure now scope delay circuits)
      ≡ true
unfolding provider_is_backpressured
record_keeps_blocked now scope delay t none circuits h =
    is_blocked-record now scope delay t 0 circuits h
record_keeps_blocked now scope delay t (some i) circuits h = ground (
  arith,
  is_blocked-record now scope delay t 0 circuits,
  is_blocked-record now scope delay t i circuits,
)
