-- ===== src/Examples/Access.antt =====
-- Examples of the authorisation, the ladder's check and the rate limits.
use voxloop.Prelude.{
  find, refl, ◌≡◌, ◌≤◌, ◌↔◌, ◌*◌, ◌+◌, List, [], ◌∷◌, none, some, true, false, arith, if◌then◌else◌,
  ◌==◌,
}
use voxloop.Names.{Instant, from_secs}
use voxloop.Configuration.Permission.{nothing, emit}
use voxloop.Configuration.Ladder.{Climbs, check, default, check-Climbs}
use voxloop.State.Seats.{is_held_by, the_role_of}
use voxloop.Authorisation.{
  ok, Directory, User, Presented, session, grid, public, nobody, permitted, user, refused, evaluate,
  require_rung,
}
use voxloop.Authorisation.Entitlement.{IsEntitled}
use voxloop.Authorisation.Laws.{evaluate-permitted, evaluate-entitled, evaluate-nobody}
use voxloop.Transport.RateLimit.{
  is_of, IpAddr, RateLimits, of, take, throttled, admit_at, per_source, across_the_deployment,
  sources_remembered,
}
use voxloop.Transport.RateLimit.Bound.{admit_all, admit_all-bounded}
use voxloop.Transport.RateLimit.Table.{admit_at-find}
use voxloop.Examples.Deployment.{alice, director, flight, noon, console}

abbrev alices_record : User
alices_record = record {
  id = alice;
  username = 900;
  is_system_administrator = false;
  is_locked = false;
  has_password = true;
  external_identity = none;
}

-- A store that knows Alice's sign-in and the director's rung.
abbrev store : Directory
store = record {
  begin = ok tt;
  roll_back = ok tt;
  holder_of = λ token. ok (if token == 71 then some alice else none);
  user = λ id. ok (if id == alice then some alices_record else none);
  held_by = λ role on. ok (if role == director then emit else nothing);
}

-- Alice's browser, which presents her sign-in and her session.
abbrev alices_browser : Presented
alices_browser = record {
  sign_in = some 71;
  service_token = none;
  session = some 1;
  acting_role = none;
}

evaluate-permitted_example : IsEntitled store console alices_browser alice 71 (grid emit flight)
unfolding evaluate require_rung is_held_by the_role_of
evaluate-permitted_example =
    evaluate-permitted store (grid emit flight) alices_browser console alice 71 refl

evaluate-entitled_example :
    evaluate store session alices_browser console ≡ ok (permitted (user alice 71))
unfolding is_held_by
evaluate-entitled_example =
    evaluate-entitled store session alices_browser console alices_record 71 refl refl
      (refl, refl, alice, refl, refl) (1, refl, refl)

-- A browser that presents a service token too.
abbrev two_credentials : Presented
two_credentials = record alices_browser { service_token = some 5 }

evaluate-nobody_example :
    ((evaluate store public two_credentials console ≡ ok (permitted nobody))
      ↔ ((public ≡ public) × (true ≡ false)))
    × (true ≡ true → evaluate store public two_credentials console ≡ ok refused)
evaluate-nobody_example = evaluate-nobody store public two_credentials console

check-Climbs_example : (check default ≡ none) ↔ Climbs default
check-Climbs_example = check-Climbs default

-- Two sources, one of which calls twice.
abbrev three_calls : List (IpAddr × Instant)
three_calls = (1, from_secs 1000) ∷ (2, from_secs 1001) ∷ (1, from_secs 1002) ∷ []

admit_all-bounded_example :
    (admit_all three_calls (of per_source across_the_deployment sources_remembered noon)).1
      * from_secs 1
    ≤ 60 * from_secs 1 + from_secs 2
admit_all-bounded_example =
    admit_all-bounded per_source across_the_deployment sources_remembered noon three_calls
      (omega arith, (omega arith, (omega arith, tt)))

-- A source that has just used its last token.
abbrev spent_out : RateLimits
spent_out = record {
  sources = (1, record { left = 0; counted_at = noon }) ∷ [];
  ceiling = record { left = from_secs 60; counted_at = noon };
  source_allowance = per_source;
  deployment_allowance = across_the_deployment;
  remembered = sources_remembered;
}

admit_at-find_example :
    ((admit_at 1 (from_secs 1001) spent_out).1 ≡ throttled)
    × ((admit_at 1 (from_secs 1001) spent_out).0.ceiling ≡ spent_out.ceiling)
    × (find (is_of 1) (admit_at 1 (from_secs 1001) spent_out).0.sources
        ≡ some (1, record { left = from_secs 1; counted_at = from_secs 1001 }))
    × (find (is_of 2) (admit_at 1 (from_secs 1001) spent_out).0.sources ≡ none)
unfolding take
admit_at-find_example = admit_at-find 1 2 (from_secs 1001) spent_out (omega arith) refl
