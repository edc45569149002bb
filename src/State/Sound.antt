-- ===== src/State/Sound.antt =====
-- The well-formedness of one session, under what its console asks for (src/state.rs).
pub mod Measured
use voxloop.Prelude.{
  is_the_last, ℕ, Bool, true, not, ◌&&◌, ◌==◌, ◌≡◌, refl, sym, ap, ◌∙◌, List, [], ◌∷◌, ◌++◌, map,
  retain, contains, any, update_first, Distinct, contains-push, contains-retain, Distinct-push,
  Distinct-retain, map-push, map-retain, arith, is_some, Bool-cases, inl, inr,
}
use voxloop.Names.{LoopId, Instant}
use voxloop.Configuration.Permission.{Volume}
use voxloop.Configuration.Ladder.{Ladder}
use voxloop.State.Readings.{is_confirmed, Counting, counted, again, starting}
use voxloop.State.Session.{Session, connection}
use voxloop.State.Console.{
  subscribed, unsubscribed, muted, unmuted, armed, with_volume, pressed_down,
}
use voxloop.State.Channel.{heard_from_now, count_each}
use voxloop.State.Projections.{published}
use voxloop.State.Documents.{Presence, Presence-discrete}

abbrev pub loops_counted : List Counting → List LoopId
loops_counted = map (λ counting. counting.held_on)

abbrev pub loops_set : List (LoopId × Volume) → List LoopId
loops_set = map (λ set. set.0)

-- Every mute is of a loop that is subscribed to.
abbrev pub Within : List LoopId → List LoopId → Type 0
Within inner outer = (l : LoopId) → contains inner l ≡ true → contains outer l ≡ true

pub record AreSound (subscriptions : List LoopId) (beacons : List Counting)
    (arms mutes : List LoopId) (volumes : List (LoopId × Volume)) : Type 0 where
  pub one_beacon_each : loops_counted beacons ≡ subscriptions
  pub subscribed_once : Distinct subscriptions
  pub armed_once : Distinct arms
  pub muted_once : Distinct mutes
  pub mutes_subscribed : Within mutes subscriptions
  pub one_volume_each : Distinct (loops_set volumes)

abbrev pub IsSound : Session → Type 0
IsSound s = AreSound s.subscriptions s.beacons s.arms s.mutes s.volumes

pub subscribed-IsSound :
    (to : LoopId) (now : Instant) (s : Session) → IsSound s → IsSound (subscribed to now s)
unfolding subscribed
subscribed-IsSound to now s h = elim (Bool-cases (contains s.subscriptions to)) [
  | inl old ↦ rw (old, subscribed) h
  | inr new ↦
      rw (new, subscribed)
        (record {
          one_beacon_each =
              map-push (λ c. c.held_on) s.beacons (starting to now)
              ∙ ap (λ l. l ++ to ∷ []) h.one_beacon_each;
          subscribed_once = Distinct-push s.subscriptions to new h.subscribed_once;
          armed_once = h.armed_once;
          muted_once = h.muted_once;
          mutes_subscribed =
              λ l m. ground (arith, contains-push s.subscriptions to l, h.mutes_subscribed l m);
          one_volume_each = h.one_volume_each;
        })
]

pub unsubscribed-IsSound : (from : LoopId) (s : Session) → IsSound s → IsSound (unsubscribed from s)
unfolding unsubscribed
unsubscribed-IsSound from s h = record {
  one_beacon_each =
      map-retain (λ c. c.held_on) (λ l. not (l == from)) s.beacons
      ∙ ap (retain (λ l. not (l == from))) h.one_beacon_each;
  subscribed_once = Distinct-retain _ s.subscriptions h.subscribed_once;
  armed_once = h.armed_once;
  muted_once = Distinct-retain _ s.mutes h.muted_once;
  mutes_subscribed = λ l m. ground (
    arith,
    contains-retain (λ x. not (x == from)) s.subscriptions l,
    contains-retain (λ x. not (x == from)) s.mutes l,
    h.mutes_subscribed l,
  );
  one_volume_each = h.one_volume_each;
}

pub muted-IsSound : (held_on : LoopId) (s : Session) → IsSound s → IsSound (muted held_on s)
unfolding muted
muted-IsSound held_on s h =
    elim (Bool-cases (contains s.subscriptions held_on && not (contains s.mutes held_on))) [
      | inr idle ↦ rw (idle, muted) h
      | inl fresh ↦
          rw (fresh, muted)
            (record {
              one_beacon_each = h.one_beacon_each;
              subscribed_once = h.subscribed_once;
              armed_once = h.armed_once;
              muted_once = Distinct-push s.mutes held_on (ground arith) h.muted_once;
              mutes_subscribed =
                  λ l m. ground (arith, contains-push s.mutes held_on l, h.mutes_subscribed l);
              one_volume_each = h.one_volume_each;
            })
    ]

pub unmuted-IsSound : (held_on : LoopId) (s : Session) → IsSound s → IsSound (unmuted held_on s)
unfolding unmuted
unmuted-IsSound held_on s h = record {
  one_beacon_each = h.one_beacon_each;
  subscribed_once = h.subscribed_once;
  armed_once = h.armed_once;
  muted_once = Distinct-retain _ s.mutes h.muted_once;
  mutes_subscribed = λ l m.
      ground (arith, contains-retain (λ x. not (x == held_on)) s.mutes l, h.mutes_subscribed l);
  one_volume_each = h.one_volume_each;
}

pub armed-IsSound : (to : LoopId) (s : Session) → IsSound s → IsSound (armed to s)
unfolding armed
armed-IsSound to s h = elim (Bool-cases (contains s.arms to)) [
  | inl old ↦ rw (old, armed) h
  | inr new ↦
      rw (new, armed)
        (record {
          one_beacon_each = h.one_beacon_each;
          subscribed_once = h.subscribed_once;
          armed_once = Distinct-push s.arms to new h.armed_once;
          muted_once = h.muted_once;
          mutes_subscribed = h.mutes_subscribed;
          one_volume_each = h.one_volume_each;
        })
]

-- A session whose arms are filtered stays sound.
pub fewer_arms-IsSound :
    (keep : LoopId → Bool) (s : Session)
    → IsSound s
    → IsSound (record s { arms = retain keep s.arms })
fewer_arms-IsSound keep s h = record {
  one_beacon_each = h.one_beacon_each;
  subscribed_once = h.subscribed_once;
  armed_once = Distinct-retain keep s.arms h.armed_once;
  muted_once = h.muted_once;
  mutes_subscribed = h.mutes_subscribed;
  one_volume_each = h.one_volume_each;
}
