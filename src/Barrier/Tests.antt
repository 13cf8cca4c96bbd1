-- ===== src/Barrier/Tests.antt =====
-- Three threads at a barrier for two.
use yat.Common.{◌≤◌, ◌<◌, ◌≡◌, refl, true, [], ◌∷◌, some}
use yat.Barrier.{
  Barrier, make, has_expired, enter_wait, Threads, nobody_at, arrive, arrives, History, begins,
  goes_on, stray, strays,
}
use yat.Barrier.Meeting.{admitted, meets}

methods : Unit {0}
unfolding make enter_wait arrive
methods = tt

abbrev pair : Barrier
pair = record { thread_count = 2; waiters_count = 0 }

abbrev met : Threads
met = arrive 3 (arrive 2 (arrive 1 (nobody_at pair)))

woken_and_refused : (met.woken ≡ 1 ∷ []) × (met.returned ≡ 2 ∷ []) × (met.refused ≡ 3 ∷ [])
unfolding methods
woken_and_refused = (refl, refl, refl)

pair_made : make 2 ≡ some pair
unfolding methods
pair_made = refl

met_is_reached : History 2 met
met_is_reached =
    goes_on
      (goes_on (goes_on (begins pair pair_made) (arrives 1 (nobody_at pair)))
        (arrives 2 (arrive 1 (nobody_at pair))))
      (arrives 3 (arrive 2 (arrive 1 (nobody_at pair))))

meets_example :
    (admitted met ≤ 2)
    × (admitted met < 2 → (met.woken ≡ []) × (met.returned ≡ []) × (met.refused ≡ []))
    × (admitted met ≡ 2 → (has_expired met.barrier ≡ true) × (met.blocked ≡ []))
meets_example = meets 2 met met_is_reached

-- A thread that the condition wakes for no reason passes before the second one has called.
abbrev early : Threads
early = stray 1 [] [] (arrive 1 (nobody_at pair))

early_is_reached : History 2 early
unfolding methods
early_is_reached =
    goes_on (goes_on (begins pair pair_made) (arrives 1 (nobody_at pair)))
      (strays 1 [] [] (arrive 1 (nobody_at pair)) refl)

passes_early : (early.strayed ≡ 1 ∷ []) × (early.barrier.waiters_count ≡ 1)
unfolding methods
passes_early = (refl, refl)
