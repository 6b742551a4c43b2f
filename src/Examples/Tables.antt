-- ===== src/Examples/Tables.antt =====
-- Leases and circuits at concrete times.
use extra_codeowners.Prelude.{
  ℕ, ◌*◌, ◌+◌, Bool, true, false, List, [], ◌∷◌, ◌≡◌, refl, arith, Option, none, some, lookup,
  list_eq, nat_eq,
}
use extra_codeowners.Text.{Str, text}
use extra_codeowners.Leases.{ServiceLease, Leases, Attempt, acquire_service_lease, holds, Circuits}
use extra_codeowners.Leases.Exclusion.{
  AllAfter, acquire_service_lease-holds, Contender, contend, AllOthers, contend_keeps,
}

abbrev job : Str
job = text "j"

abbrev ann : Str
ann = text "a"

abbrev bob : Str
bob = text "b"

abbrev at : ℕ → Attempt
at now = record { now = now; rival = none }

-- the lease that Ann took at 0 for 30 seconds
abbrev mine : ServiceLease
mine = record { owner = ann; lease_until = 30000000 }

abbrev taken : Leases
taken = (job, mine) ∷ []

acquire_service_lease-holds_example :
    holds 20000000 ann (lookup job (acquire_service_lease job ann 30 (at 0) (at 1) (at 2) []).0)
    ≡ true
unfolding lookup
acquire_service_lease-holds_example =
    acquire_service_lease-holds job ann 30 0 20000000 (at 0) (at 1) (at 2) []
      (unfold AllAfter in (omega arith, (omega arith, (omega arith, tt)))) (omega arith)
      (unfold acquire_service_lease in refl)

abbrev others : List Contender
others = record { owner = bob; seconds = 30; first = at 5; second' = at 6; third = at 7 } ∷ []

taken_by_ann : lookup job taken ≡ some mine
unfolding text lookup extra_codeowners.Prelude.list_beq
taken_by_ann = refl

others_are : AllOthers mine.owner mine.lease_until others
unfolding AllOthers text extra_codeowners.Prelude.list_beq
others_are = (refl, omega arith, tt)

contend_keeps_example : contend job others taken ≡ taken
contend_keeps_example = contend_keeps job others taken mine taken_by_ann others_are

-- the whole App was told to wait a minute
abbrev waiting : Circuits
waiting = (0, record { blocked_until = 60000000; updated_at = 0 }) ∷ []
