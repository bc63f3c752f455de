-- ===== src/Limiter/Tests.antt =====
-- Instances of the limiter: one task runs, under a cap of two.
use zk_api.Common.{◌≤◌, ◌≡◌, ◌↔◌, refl, none, some, [], ◌∷◌, length}
use zk_api.Limiter.{ConcurrencyLimiter, natural, create, enter}
use zk_api.Limiter.Interleavings.{
  Tasks, Reach, here, next, admit, idle, running_within_cap, refused_iff_full,
}

abbrev cap_two : ConcurrencyLimiter
cap_two = record { max = 2; active = 0 }

abbrev one_task : Tasks
one_task = record { limiter = record { max = 2; active = 1 }; running = 7 ∷ [] }

Reach-one : Reach (idle cap_two) one_task
unfolding enter
Reach-one = next here (admit 7 (record { max = 2; active = 1 }) refl)

cap_two-create : create (natural 2) ≡ some cap_two
unfolding create
cap_two-create = refl

running_within_cap_example :
    (length one_task.running ≤ cap_two.max)
    × (one_task.limiter ≡ record cap_two { active = length one_task.running })
running_within_cap_example =
    running_within_cap (natural 2) cap_two one_task cap_two-create Reach-one

refused_iff_full_test : (enter one_task.limiter ≡ none) ↔ (length one_task.running ≡ cap_two.max)
refused_iff_full_test = refused_iff_full (natural 2) cap_two one_task cap_two-create Reach-one
