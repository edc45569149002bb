-- ===== src/Examples/Seats.antt =====
-- Examples of the seats of the state authority.
use voxloop.Prelude.{refl, ◌≡◌, ◌≤◌, List, [], ◌∷◌, none, some, true, length, arith}
use voxloop.Names.{SessionId, Instant, from_secs}
use voxloop.Configuration.Ladder.{default}
use voxloop.State.Live.{
  Live, keeping_time_by, assumed_elsewhere, ended, relinquished, remember,
  forget_the_old_tombstones,
}
use voxloop.State.Seats.{
  assume, assumed, take_the_seat, displace, seated, is_held_by, the_role_of, why_it_ended,
  ended_by_its_own_holder, occupants_of,
}
use voxloop.State.Console.{subscribe, subscribed}
use voxloop.State.Acts.{Act, assumes, requests, subscribes, relinquishes, step, serve}
use voxloop.State.Occupancy.{AreSeated}
use voxloop.State.History.{IsWell, run, AllFit, run-IsWell}
use voxloop.State.Limits.Held.{run-occupants_of}
use voxloop.State.Displacement.{
  assume-is_held_by, assume-why_it_ended, ended_by_its_own_holder-is_held_by,
}
use voxloop.Examples.Deployment.{
  alice, director, flight, noon, talker, console, alice_asks, bob_asks,
}

-- Alice takes the role, Bob is refused it, Alice listens to a loop, moves, and gives the role up.
abbrev a_morning : List (Instant × Act)
a_morning =
    (noon, assumes 1 alice_asks)
    ∷ (noon, assumes 2 bob_asks)
    ∷ (noon, requests 1 (subscribes flight))
    ∷ (from_secs 1010, assumes 3 alice_asks)
    ∷ (from_secs 1020, relinquishes 3)
    ∷ []

a_morning-Fits : AllFit a_morning (keeping_time_by default)
unfolding step keeping_time_by assume take_the_seat displace remember forget_the_old_tombstones
    ended seated serve subscribe subscribed ended_by_its_own_holder
a_morning-Fits = (
  (record { not_live = refl; not_mourned = tt }, (refl, tt), tt),
  (
    (record { not_live = refl; not_mourned = tt }, tt, tt),
    (tt, ((record { not_live = refl; not_mourned = tt }, (refl, tt), tt), (tt, tt))),
  ),
)

pub console-AreSeated : AreSeated console
console-AreSeated = record {
  one_id_each = (refl, (refl, tt));
  one_session_each = (refl, (refl, tt));
  one_tombstone_each = tt;
  tombstones_over = tt;
}

run-IsWell_example : IsWell (run a_morning (keeping_time_by default))
run-IsWell_example = run-IsWell default a_morning a_morning-Fits

run-occupants_of_example :
    length (occupants_of (run a_morning (keeping_time_by default)) director) ≤ 1
run-occupants_of_example =
    run-occupants_of default director 1 a_morning a_morning-Fits
      ((λ r. refl), ((λ r. refl), (tt, ((λ r. refl), (tt, tt)))))

assume-is_held_by_example :
    (is_held_by (assume 3 alice_asks noon console).0 3 alice ≡ true)
    × (the_role_of (assume 3 alice_asks noon console).0 3 ≡ some director)
    × ((other : SessionId)
        → is_held_by (assume 3 alice_asks noon console).0 other alice ≡ true
        → other ≡ 3)
assume-is_held_by_example =
    assume-is_held_by 3 alice_asks noon console console-AreSeated
      (record { not_live = refl; not_mourned = tt }) refl

-- The second question comes at once.
abbrev told : Live
told = (why_it_ended 1 (from_secs 1060) (assume 3 alice_asks noon console).0).0

assume-why_it_ended_example :
    ((assume 3 alice_asks noon console).1
      ≡ assumed (record { session = 3; displaced = some (ended talker assumed_elsewhere noon) }))
    × ((why_it_ended 1 (from_secs 1060) (assume 3 alice_asks noon console).0).1
        ≡ some assumed_elsewhere)
    × ((why_it_ended 1 (from_secs 1060) told).1 ≡ none)
assume-why_it_ended_example =
    assume-why_it_ended 3 alice_asks noon (from_secs 1060) (from_secs 1060) console talker
      console-AreSeated refl refl (omega arith)

ended_by_its_own_holder-is_held_by_example :
    (ended_by_its_own_holder 1 noon console).1 ≡ some (ended talker relinquished noon)
ended_by_its_own_holder-is_held_by_example =
    (ended_by_its_own_holder-is_held_by 1 noon noon console talker console-AreSeated refl).0
