-- ===== src/Configuration/Permission.antt =====
-- What a role holds on a loop, and how loud a loop plays (src/configuration/grid.rs,
-- src/configuration/personalisation.rs).
use voxloop.Prelude.{ℕ, Bool, Option, none, some, leb, if◌then◌else◌}

pub data Permission : Type 0 where
  nothing monitor emit control : Permission

-- The derived order: a later rung is a higher one.
abbrev pub rung : Permission → ℕ
rung nothing = 0
rung monitor = 1
rung emit = 2
rung control = 3

abbrev pub carries : Permission → Permission → Bool
carries held asked = leb (rung asked) (rung held)

-- A `Volume` is the percentage that it wraps.
abbrev pub Volume : Type 0
Volume = ℕ

abbrev pub unity : Volume
unity = 100

unfoldable pub presented : ℕ → Option Volume
presented percent = if leb percent unity then some percent else none
