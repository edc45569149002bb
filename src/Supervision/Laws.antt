-- ===== src/Supervision/Laws.antt =====
-- What the watch does to the live state, and when it asks the process to stop
-- (src/supervision.rs).
use voxloop.Prelude.{◌≡◌, refl, ◌∙◌, Bool, true, false, ◌||◌, List, [], ◌∷◌, any, All, arith}
use voxloop.Names.{Instant}
use voxloop.State.Readings.{lost}
use voxloop.State.Session.{media_path}
use voxloop.State.Channel.{nothing_is_carried}
use voxloop.State.Acts.{Act, requests, carries_nothing as carries_nothing_at_all, sees, step, serve}
use voxloop.State.History.{IsWell, run, step-IsWell}
use voxloop.State.Measures.{All-unseen}
use voxloop.Supervision.{
  Reported, the_path, carries_nothing, these_are_audible, nobody_is_audible, Watching, heed, watch,
}

-- What a report asks of the state authority.
abbrev pub acts_of : Instant → List Reported → List (Instant × Act)
acts_of now [] = []
acts_of now (the_path of is ∷ rest) = (now, requests of (sees is)) ∷ acts_of now rest
acts_of now (carries_nothing ∷ rest) = (now, carries_nothing_at_all) ∷ acts_of now rest
acts_of now (these_are_audible talkers ∷ rest) = acts_of now rest
acts_of now (nobody_is_audible ∷ rest) = acts_of now rest

abbrev pub says_nothing_is_carried : Reported → Bool
says_nothing_is_carried carries_nothing = true
says_nothing_is_carried _ = false

-- The watch writes what the reports ask of the state authority, in order, and nothing else; what is
-- audible moves no live state. It asks the process to stop exactly when some report said that
-- nothing is carried, or it was asked before.
pub watch-run :
    (now : Instant) (reports : List Reported) (w : Watching)
    → ((watch reports w).state ≡ run (acts_of now reports) w.state)
      × ((watch reports w).asked_to_stop ≡ w.asked_to_stop || any says_nothing_is_carried reports)
unfolding watch run step serve heed
watch-run now [] w = (refl, ground arith)
watch-run now (the_path of is ∷ rest) w = watch-run now rest (heed (the_path of is) w)
watch-run now (carries_nothing ∷ rest) w =
    let r = watch-run now rest (heed carries_nothing w) in (r.0, r.1 ∙ ground arith)
watch-run now (these_are_audible talkers ∷ rest) w =
    watch-run now rest (heed (these_are_audible talkers) w)
watch-run now (nobody_is_audible ∷ rest) w = watch-run now rest w

pub heed-IsWell :
    (reported : Reported) (w : Watching) → IsWell w.state → IsWell (heed reported w).state
unfolding heed step serve
heed-IsWell (the_path of is) w h = step-IsWell (0, requests of (sees is)) w.state tt h
heed-IsWell carries_nothing w h = step-IsWell (0, carries_nothing_at_all) w.state tt h
heed-IsWell (these_are_audible talkers) w h = h
heed-IsWell nobody_is_audible w h = h

watch_from-IsWell :
    (reports : List Reported) (w : Watching) → IsWell w.state → IsWell (watch reports w).state
unfolding watch
watch_from-IsWell [] w h = h
watch_from-IsWell (reported ∷ rest) w h =
    watch_from-IsWell rest (heed reported w) (heed-IsWell reported w h)

abbrev pub is_a_path : Reported → Bool
is_a_path (the_path of is) = true
is_a_path _ = false

-- Every session's path is lost, and the process has been asked to stop.
abbrev IsStopping : Watching → Type 0
IsStopping w = All (λ s. media_path s ≡ lost) w.state.sessions × (w.asked_to_stop ≡ true)

watch_quiet-IsStopping :
    (reports : List Reported) (w : Watching)
    → any is_a_path reports ≡ false
    → IsStopping w
    → IsStopping (watch reports w)
unfolding watch heed nothing_is_carried
watch_quiet-IsStopping [] w quiet h = h
watch_quiet-IsStopping (the_path of is ∷ rest) w quiet h = absurd (ground arith)
watch_quiet-IsStopping (carries_nothing ∷ rest) w quiet h =
    watch_quiet-IsStopping rest _ quiet (All-unseen w.state.sessions, refl)
watch_quiet-IsStopping (these_are_audible talkers ∷ rest) w quiet h =
    watch_quiet-IsStopping rest _ quiet h
watch_quiet-IsStopping (nobody_is_audible ∷ rest) w quiet h = watch_quiet-IsStopping rest w quiet h

-- The watch keeps a well-formed state well formed whatever is reported. Once it is reported that
-- nothing is carried, every session's media path is lost, and the process has been asked to stop,
-- for as long as no path is reported again.
pub watch-IsWell :
    (w : Watching)
    → IsWell w.state
    → ((reports : List Reported) → IsWell (watch reports w).state)
      × ((before quiet : List Reported)
          → any is_a_path quiet ≡ false
          → let last = watch quiet (watch (carries_nothing ∷ []) (watch before w)) in
            All (λ s. media_path s ≡ lost) last.state.sessions × (last.asked_to_stop ≡ true))
unfolding watch heed nothing_is_carried
watch-IsWell w h = (
  λ reports. watch_from-IsWell reports w h,
  λ before quiet still.
      watch_quiet-IsStopping quiet (watch (carries_nothing ∷ []) (watch before w)) still
        (All-unseen (watch before w).state.sessions, refl),
)
