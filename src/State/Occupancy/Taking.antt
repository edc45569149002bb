-- ===== src/State/Occupancy/Taking.antt =====
-- The seats where one is taken (src/state.rs, assume).
use voxloop.Prelude.{
  Bool, false, ◌==◌, ◌≡◌, sym, subst, List, [], ◌∷◌, ◌++◌, map, retain, find, contains,
  remove_first, Distinct, All, Distinct-push, map-push, All-push, All-retain, All-map,
  contains-remove, contains-keep, Distinct-remove, Distinct-keep, contains-find, contains-found,
  contains-removed, contains-retain_others, contains-push, some, Option-cases, inl, inr, arith, ltb,
  eq_of_==, find-passes, find-key-contains,
}
use voxloop.Names.{SessionId, UserId, Instant, since}
use voxloop.State.Session.{Session}
use voxloop.State.Live.{
  tombstones_are_kept_for, Live, Tombstone, assumed_elsewhere, ended, remember,
}
use voxloop.State.Seats.{
  Assuming, seated, displace, take_the_seat, forget_tombstones_of, assume, is_full,
}
use voxloop.State.Occupancy.{
  AreSeated, IsFresh, IsOver, IsReady, forget_tombstones_of-AreSeated, forget_tombstones_of-IsFresh,
  ids, mourned, occupants,
}

module _ (occupant : UserId) (now : Instant) (live : Live) (h : AreSeated live) (held : Session)
    (there : find (λ s. s.occupant == occupant) live.sessions ≡ some held) where
  abbrev young : Tombstone → Bool
  young t = ltb (since now t.at) tombstones_are_kept_for

  abbrev tombstone : Tombstone
  tombstone = record {
    session = held.id;
    occupant = held.occupant;
    why = assumed_elsewhere;
    at = now;
  }

  abbrev left : List Session
  left = remove_first (λ s. s.occupant == occupant) live.sessions

  displaced-one_tombstone :
      contains (mourned live) occupant ≡ false
      → Distinct (map (λ t. t.occupant) (retain young live.tombstones ++ tombstone ∷ []))
  displaced-one_tombstone unmourned =
      rw (map-push (λ (t : Tombstone). t.occupant) (retain young live.tombstones) tombstone) (
        Distinct-push _ held.occupant
          (contains-keep (λ t. t.occupant) young live.tombstones held.occupant
            (subst (λ o. contains (mourned live) o ≡ false) (sym same) unmourned))
          (Distinct-keep (λ t. t.occupant) young live.tombstones h.one_tombstone_each))
    where
      same : held.occupant ≡ occupant
      same = eq_of_== _ _ (find-passes (λ s. s.occupant == occupant) live.sessions held there)

  displaced-IsOver :
      All (IsOver (map (λ s. s.id) left)) (retain young live.tombstones ++ tombstone ∷ [])
  displaced-IsOver =
      All-push _ (retain young live.tombstones) tombstone
        (All-retain _ young live.tombstones (
          All-map (λ t o. contains-remove (λ s. s.id) _ live.sessions t.session o) live.tombstones
            h.tombstones_over))
        (contains-found (λ s. s.id) _ live.sessions held h.one_id_each there)

  displaced-unnamed :
      (minted : SessionId)
      → IsFresh minted live
      → All (λ t. (t.session == minted) ≡ false) (retain young live.tombstones ++ tombstone ∷ [])
  displaced-unnamed minted fresh =
      All-push _ (retain young live.tombstones) tombstone
        (All-retain _ young live.tombstones fresh.not_mourned)
        (ground (
          arith,
          find-key-contains (λ s. s.id) (λ s. s.occupant == occupant) live.sessions held there,
          fresh.not_live,
        ))

displace-IsReady :
    (minted : SessionId) (occupant : UserId) (now : Instant) (live : Live)
    → AreSeated live
    → IsFresh minted live
    → contains (mourned live) occupant ≡ false
    → IsReady minted occupant (displace occupant now live).0
unfolding displace ended remember
displace-IsReady minted occupant now live h fresh unmourned =
    elim (Option-cases (find (λ s. s.occupant == occupant) live.sessions)) [
      | inl nobody ↦
          rw (nobody, displace)
            (record {
              seating = h;
              fresh = fresh;
              unseated = contains-find (λ s. s.occupant) occupant live.sessions nobody;
            })
      | inr (held, there) ↦
          rw (there, displace)
            (record {
              seating = record {
                one_id_each =
                    Distinct-remove (λ s. s.id) (λ s. s.occupant == occupant) live.sessions
                      h.one_id_each;
                one_session_each =
                    Distinct-remove (λ s. s.occupant) (λ s. s.occupant == occupant) live.sessions
                      h.one_session_each;
                one_tombstone_each =
                    displaced-one_tombstone occupant now live h held there unmourned;
                tombstones_over = displaced-IsOver occupant now live h held there;
              };
              fresh = record {
                not_live = contains-remove (λ s. s.id) _ live.sessions minted fresh.not_live;
                not_mourned = displaced-unnamed occupant now live h held there minted fresh;
              };
              unseated =
                  contains-removed (λ s. s.occupant) occupant live.sessions h.one_session_each;
            })
    ]

IsOver-push :
    (minted : SessionId) (live_ids : List SessionId) (tombstones : List Tombstone)
    → All (λ t. (t.session == minted) ≡ false) tombstones
    → All (IsOver live_ids) tombstones
    → All (IsOver (live_ids ++ minted ∷ [])) tombstones
IsOver-push minted live_ids [] fresh over = tt
IsOver-push minted live_ids (t ∷ rest) fresh over = (
  ground (arith, contains-push live_ids minted t.session, fresh.0, over.0),
  IsOver-push minted live_ids rest fresh.1 over.1,
)

seated-AreSeated :
    (s : Session) (live : Live)
    → IsReady s.id s.occupant live
    → AreSeated (record live { sessions = live.sessions ++ s ∷ [] })
seated-AreSeated s live ready = record {
  one_id_each =
      rw (map-push (λ (x : Session). x.id) live.sessions s)
        (Distinct-push (ids live) s.id ready.fresh.not_live ready.seating.one_id_each);
  one_session_each =
      rw (map-push (λ (x : Session). x.occupant) live.sessions s)
        (Distinct-push (occupants live) s.occupant ready.unseated ready.seating.one_session_each);
  one_tombstone_each = ready.seating.one_tombstone_each;
  tombstones_over = rw (map-push (λ (x : Session). x.id) live.sessions s) (
      IsOver-push s.id (ids live) live.tombstones ready.fresh.not_mourned
        ready.seating.tombstones_over);
}

-- What an assume has cleared before it pushes the new session.
pub seat-IsReady :
    (minted : SessionId) (occupant : UserId) (now : Instant) (live : Live)
    → AreSeated live
    → IsFresh minted live
    → IsReady minted occupant (displace occupant now (forget_tombstones_of occupant live)).0
seat-IsReady minted occupant now live h fresh =
    displace-IsReady minted occupant now (forget_tombstones_of occupant live)
      (forget_tombstones_of-AreSeated occupant live h)
      (forget_tombstones_of-IsFresh minted occupant live fresh)
      (contains-retain_others (λ t. t.occupant) occupant live.tombstones)

take_the_seat-AreSeated :
    (minted : SessionId) (assuming : Assuming) (now : Instant) (live : Live)
    → AreSeated live
    → IsFresh minted live
    → AreSeated (take_the_seat minted assuming now live).0
unfolding take_the_seat seated
take_the_seat-AreSeated minted assuming now live h fresh =
    seated-AreSeated (seated minted assuming now) _
      (seat-IsReady minted assuming.occupant now live h fresh)

pub assume-AreSeated :
    (minted : SessionId) (assuming : Assuming) (now : Instant) (live : Live)
    → AreSeated live
    → IsFresh minted live
    → AreSeated (assume minted assuming now live).0
unfolding assume
assume-AreSeated minted assuming now live h fresh =
    elim (Option-cases (is_full assuming live.sessions)) [
      | inl room ↦ rw (room, assume) (take_the_seat-AreSeated minted assuming now live h fresh)
      | inr (limit, full) ↦ rw (full, assume) h
    ]
