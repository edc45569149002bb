-- ===== src/Examples/Clocks.antt =====
-- Examples of the sign-ins, the sweep that ends them, and the watch on the media plane.
use voxloop.Prelude.{
  ℕ, ◌+◌, refl, ◌≡◌, ◌≢◌, List, [], ◌∷◌, ◌++◌, Option, none, some, true, false, All, arith,
}
use voxloop.Names.{Text, UserId, SignInToken}
use voxloop.State.Readings.{lost, connected}
use voxloop.State.Session.{media_path}
use voxloop.State.Live.{keeping_time_by}
use voxloop.State.Acts.{assumes}
use voxloop.Configuration.Ladder.{default}
use voxloop.State.Seats.{sign_ins_holding_a_session}
use voxloop.State.History.{run, IsWell, run-IsWell}
use voxloop.Configuration.SignIns.{
  SignIn, holder_of, end_sign_ins_idle_for, open_sign_in, end_sign_in, note_a_deliberate_act,
  milliseconds,
}
use voxloop.Configuration.SignIns.Laws.{end_sign_ins_idle_for-holder_of}
use voxloop.Configuration.SignIns.Window.{note_a_deliberate_act-holder_of, open_sign_in-holder_of}
use voxloop.Lifetimes.{Durable, the_window, end_abandoned_sign_ins}
use voxloop.Lifetimes.Laws.{end_abandoned_sign_ins-holder_of}
use voxloop.Supervision.{
  Watching, Reported, the_path, carries_nothing, nobody_is_audible, these_are_audible, watch,
}
use voxloop.Supervision.Laws.{watch-run, watch-IsWell, acts_of}
use voxloop.Examples.Deployment.{alice, alice_asks, bob, noon, console}

-- A fingerprint for each token, for the runs below.
abbrev print_of : SignInToken → Text
print_of token = token + 1000

abbrev username : UserId → Option Text
username user = some (user + 900)

-- Alice's sign-in, which holds her session, and Bob's second one, which stands in the lobby.
abbrev two_sign_ins : List SignIn
two_sign_ins =
    record { fingerprint = print_of 71; user_id = alice; started_at = 5; last_active_at = 5 }
    ∷ record { fingerprint = print_of 79; user_id = bob; started_at = 5; last_active_at = 5 }
    ∷ []

-- A day and a second later.
abbrev tomorrow : ℕ
tomorrow = 86_401_000

abbrev kept : Durable
kept = record { sign_ins = two_sign_ins; log = [] }

end_sign_ins_idle_for-holder_of_example :
    holder_of print_of 79
      (end_sign_ins_idle_for print_of the_window (71 ∷ []) tomorrow two_sign_ins).0
    ≡ none
unfolding milliseconds
end_sign_ins_idle_for-holder_of_example =
    (end_sign_ins_idle_for-holder_of print_of the_window (71 ∷ []) tomorrow two_sign_ins 79
      (refl, (refl, tt))).0

note_a_deliberate_act-holder_of_example :
    holder_of print_of 79
      (end_sign_ins_idle_for print_of the_window [] tomorrow
        (note_a_deliberate_act print_of 79 80_000_000 two_sign_ins)).0
    ≡ some bob
unfolding milliseconds holder_of
note_a_deliberate_act-holder_of_example =
    note_a_deliberate_act-holder_of print_of 79 bob the_window [] 80_000_000 tomorrow two_sign_ins
      (refl, (refl, tt)) refl (omega arith)

abbrev opened : List SignIn
opened =
    two_sign_ins
    ++ record { fingerprint = print_of 80; user_id = bob; started_at = 9; last_active_at = 9 } ∷ []

apart : print_of 71 ≢ print_of 80
apart h = omega arith

open_sign_in-holder_of_example :
    (holder_of print_of 80 opened ≡ some bob)
    × (holder_of print_of 71 opened ≡ holder_of print_of 71 two_sign_ins)
    × ((end_sign_in print_of 80 opened).1 ≡ some bob)
    × (holder_of print_of 80 (end_sign_in print_of 80 opened).0 ≡ none)
    × (holder_of print_of 71 (end_sign_in print_of 80 opened).0
        ≡ holder_of print_of 71 two_sign_ins)
unfolding open_sign_in
open_sign_in-holder_of_example =
    open_sign_in-holder_of print_of 80 71 bob 9 two_sign_ins opened refl apart

end_abandoned_sign_ins-holder_of_example :
    holder_of print_of 71
      (end_abandoned_sign_ins print_of username console the_window tomorrow kept).sign_ins
    ≡ holder_of print_of 71 two_sign_ins
unfolding sign_ins_holding_a_session
end_abandoned_sign_ins-holder_of_example =
    end_abandoned_sign_ins-holder_of print_of username console the_window tomorrow kept 71
      (refl, (refl, tt)) refl

abbrev calm : Watching
calm = record { state = console; asked_to_stop = false; warned_of = [] }

abbrev reports : List Reported
reports = the_path 1 connected ∷ these_are_audible (1 ∷ 2 ∷ []) ∷ carries_nothing ∷ []

watch-run_example :
    ((watch reports calm).state ≡ run (acts_of noon reports) console)
    × ((watch reports calm).asked_to_stop ≡ true)
watch-run_example = watch-run noon reports calm

-- Alice has taken the role.
abbrev seated_alice : Watching
seated_alice = record {
  state = run ((noon, assumes 1 alice_asks) ∷ []) (keeping_time_by default);
  asked_to_stop = false;
  warned_of = [];
}

seated_alice-IsWell : IsWell seated_alice.state
unfolding keeping_time_by
seated_alice-IsWell =
    run-IsWell default ((noon, assumes 1 alice_asks) ∷ [])
      ((record { not_live = refl; not_mourned = tt }, (refl, tt), tt), tt)

watch-IsWell_example :
    let last =
      watch
        (nobody_is_audible ∷ [])
        (watch (carries_nothing ∷ []) (watch (the_path 1 connected ∷ []) seated_alice)) in
    IsWell (watch (carries_nothing ∷ the_path 1 connected ∷ []) seated_alice).state
    × (All (λ s. media_path s ≡ lost) last.state.sessions × (last.asked_to_stop ≡ true))
watch-IsWell_example =
    let watched = watch-IsWell seated_alice seated_alice-IsWell in
    (
      watched.0 (carries_nothing ∷ the_path 1 connected ∷ []),
      watched.1 (the_path 1 connected ∷ []) (nobody_is_audible ∷ []) refl,
    )
