-- ===== src/Configuration/Ladder.antt =====
-- The connection ladder and the check that a deployment file describes one
-- (src/configuration/deployment.rs). The settings are whole seconds.
use voxloop.Prelude.{
  ℕ, ◌+◌, ◌≤◌, ◌<◌, ◌≡◌, ◌↔◌, List, [], ◌∷◌, Option, none, some, ◌||◌, leb, ltb, ◌==◌,
  if◌then◌else◌, arith,
}
use voxloop.Names.{Duration, from_secs}

pub record Ladder : Type 0 where
  pub heartbeat : ℕ
  pub unconfirmed : ℕ
  pub latch_dropped : ℕ
  pub disconnected : ℕ

abbrev pub default : Ladder
default = record { heartbeat = 2; unconfirmed = 5; latch_dropped = 2; disconnected = 12 }

abbrev pub heartbeat : Ladder → Duration
heartbeat by = from_secs by.heartbeat

abbrev pub unconfirmed : Ladder → Duration
unconfirmed by = from_secs by.unconfirmed

abbrev pub latch_dropped : Ladder → Duration
latch_dropped by = from_secs by.latch_dropped

abbrev pub disconnected : Ladder → Duration
disconnected by = from_secs by.disconnected

pub data Setting : Type 0 where
  the_heartbeat the_unconfirmed the_latch_dropped the_disconnected : Setting

-- `NotALadder` by the detail that it carries, and `PastTheCeiling`. The path that both repeat
-- is left out.
pub data LadderError : Type 0 where
  zero_timer : Setting → LadderError
  past_the_ceiling : Setting → ℕ → ℕ → LadderError
  out_of_order : LadderError
  latch_outlasts : LadderError

ceilings : Ladder → List (Setting × ℕ × ℕ)
ceilings by =
    (the_heartbeat, by.heartbeat, 10)
    ∷ (the_unconfirmed, by.unconfirmed, 30)
    ∷ (the_latch_dropped, by.latch_dropped, 10)
    ∷ (the_disconnected, by.disconnected, 30)
    ∷ []

-- The `for` over the ceilings: the first setting that fails, if one does.
check_each : List (Setting × ℕ × ℕ) → Option LadderError
check_each [] = none
check_each ((setting, said, ceiling) ∷ rest) =
    if said == 0
    then some (zero_timer setting)
    else if ltb ceiling said
    then some (past_the_ceiling setting said ceiling)
    else check_each rest

check_order : Ladder → Option LadderError
check_order by =
    if leb by.unconfirmed by.heartbeat || leb by.disconnected by.unconfirmed
    then some out_of_order
    else if leb by.disconnected (by.unconfirmed + by.latch_dropped)
    then some latch_outlasts
    else none

-- `Ladder::check`: `none` is `Ok(())`.
unfoldable pub check : Ladder → Option LadderError
unfolding ceilings check_each check_order
check by = elim (check_each (ceilings by)) [ some e ↦ some e | none ↦ check_order by ]

-- What a deployment may rely on once its ladder is accepted.
pub record Climbs (by : Ladder) : Type 0 where
  pub beats : 0 < by.heartbeat
  pub heartbeat_below : by.heartbeat < by.unconfirmed
  pub unconfirmed_below : by.unconfirmed < by.disconnected
  pub latch_positive : 0 < by.latch_dropped
  pub latch_below : by.unconfirmed + by.latch_dropped < by.disconnected
  pub bounded : by.disconnected ≤ 30
  pub heartbeat_bounded : by.heartbeat ≤ 10
  pub latch_bounded : by.latch_dropped ≤ 10

-- The check accepts exactly the ladders whose rungs are positive, climb strictly (heartbeat below
-- unconfirmed below disconnected), drop a latch before the disconnected rung, and keep to the
-- ceilings of 10 seconds for the heartbeat and the latch and 30 for the disconnected rung.
pub check-Climbs : (by : Ladder) → (check by ≡ none) ↔ Climbs by
unfolding check
check-Climbs by = (λ h. ground arith, λ h. ground arith)
