-- ===== src/State/Sound/Measured.antt =====
-- The well-formedness of one session, under a volume, a beacon count, a heartbeat, a press and a
-- document (src/state.rs).
use voxloop.Prelude.{
  is_the_last, ℕ, ◌==◌, ◌≡◌, refl, sym, ap, ◌∙◌, List, [], ◌∷◌, map, contains, any, update_first,
  Distinct, Distinct-push, map-push, arith, is_some, Bool-cases, inl, inr,
}
use voxloop.Names.{LoopId, Instant}
use voxloop.Configuration.Permission.{Volume}
use voxloop.Configuration.Ladder.{Ladder}
use voxloop.State.Readings.{is_confirmed, Counting, counted, again}
use voxloop.State.Session.{Session, connection}
use voxloop.State.Console.{with_volume, pressed_down}
use voxloop.State.Channel.{heard_from_now, count_each}
use voxloop.State.Projections.{published}
use voxloop.State.Documents.{Presence, Presence-discrete}
use voxloop.State.Sound.{IsSound, loops_counted, loops_set}

loops_set-overwritten :
    (held_on : LoopId) (v : Volume) (volumes : List (LoopId × Volume))
    → loops_set (update_first (λ set. set.0 == held_on) (λ set. (set.0, v)) volumes)
      ≡ loops_set volumes
loops_set-overwritten held_on v [] = refl
loops_set-overwritten held_on v (set ∷ rest) = ground (arith, loops_set-overwritten held_on v rest)

any-contains :
    (held_on : LoopId) (volumes : List (LoopId × Volume))
    → any (λ set. set.0 == held_on) volumes ≡ contains (loops_set volumes) held_on
any-contains held_on [] = refl
any-contains held_on (set ∷ rest) = ground (arith, any-contains held_on rest)

with_volume-Distinct :
    (held_on : LoopId) (v : Volume) (volumes : List (LoopId × Volume))
    → Distinct (loops_set volumes)
    → Distinct (loops_set (with_volume held_on v volumes))
unfolding with_volume
with_volume-Distinct held_on v volumes d =
    elim (Bool-cases (any (λ set. set.0 == held_on) volumes)) [
      | inl old ↦ rw (old, with_volume) (rw (loops_set-overwritten held_on v volumes) d)
      | inr new ↦
          rw (new, with_volume)
            (rw (map-push (λ set. set.0) volumes (held_on, v)) (
              Distinct-push (loops_set volumes) held_on (sym (any-contains held_on volumes) ∙ new)
                d))
    ]

pub with_volume-IsSound :
    (held_on : LoopId) (v : Volume) (s : Session)
    → IsSound s
    → IsSound (record s { volumes = with_volume held_on v s.volumes })
with_volume-IsSound held_on v s h = record {
  one_beacon_each = h.one_beacon_each;
  subscribed_once = h.subscribed_once;
  armed_once = h.armed_once;
  muted_once = h.muted_once;
  mutes_subscribed = h.mutes_subscribed;
  one_volume_each = with_volume-Distinct held_on v s.volumes h.one_volume_each;
}

loops_counted-again :
    (now : Instant) (beacons : List Counting)
    → loops_counted (map (again now) beacons) ≡ loops_counted beacons
unfolding again
loops_counted-again now [] = refl
loops_counted-again now (c ∷ rest) = ap (◌∷◌ c.held_on) (loops_counted-again now rest)

loops_counted-one :
    (held_on : LoopId) (packets : ℕ) (now : Instant) (beacons : List Counting)
    → loops_counted (update_first (λ c. c.held_on == held_on) (counted packets now) beacons)
      ≡ loops_counted beacons
unfolding counted
loops_counted-one held_on packets now [] = refl
loops_counted-one held_on packets now (c ∷ rest) =
    ground (arith, loops_counted-one held_on packets now rest)

pub loops_counted-each :
    (now : Instant) (counts : List (LoopId × ℕ)) (beacons : List Counting)
    → loops_counted (count_each now counts beacons) ≡ loops_counted beacons
unfolding count_each
loops_counted-each now [] beacons = refl
loops_counted-each now ((held_on, packets) ∷ rest) beacons =
    loops_counted-each now rest _ ∙ loops_counted-one held_on packets now beacons

-- Beacons counted again, loop for loop, leave a session sound.
pub recounted-IsSound :
    (beacons : List Counting) (s : Session)
    → loops_counted beacons ≡ loops_counted s.beacons
    → IsSound s
    → IsSound (record s { beacons = beacons })
recounted-IsSound beacons s e h = record {
  one_beacon_each = e ∙ h.one_beacon_each;
  subscribed_once = h.subscribed_once;
  armed_once = h.armed_once;
  muted_once = h.muted_once;
  mutes_subscribed = h.mutes_subscribed;
  one_volume_each = h.one_volume_each;
}

pub heard_from_now-IsSound :
    (by : Ladder) (now : Instant) (s : Session) → IsSound s → IsSound (heard_from_now by now s)
unfolding heard_from_now
heard_from_now-IsSound by now s h = elim (Bool-cases (is_confirmed (connection s by now))) [
  | inl steady ↦ rw (steady, heard_from_now) h
  | inr back ↦
      rw (back, heard_from_now)
        (recounted-IsSound (map (again now) s.beacons) s (loops_counted-again now s.beacons) h)
]

pub pressed_down-IsSound :
    (now wall_clock : Instant) (s : Session) → IsSound s → IsSound (pressed_down now wall_clock s)
unfolding pressed_down
pressed_down-IsSound now wall_clock s h = elim (Bool-cases (is_some s.pressing)) [
  | inl old ↦ rw (old, pressed_down) h
  | inr new ↦ rw (new, pressed_down) h
]

pub published-IsSound : (said : Presence) (s : Session) → IsSound s → IsSound (published said s)
unfolding published
published-IsSound said s h = elim (Bool-cases (is_the_last Presence-discrete s.last said)) [
  | inl same ↦ rw (same, published) h
  | inr moved ↦ rw (moved, published) h
]
