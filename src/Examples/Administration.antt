-- ===== src/Examples/Administration.antt =====
-- What an administrator configures, at a deployment with two of everything (src/configuration).
use voxloop.Prelude.{◌==◌, arith, ℕ, ◌≡◌, refl, true, false, none, some, List, [], ◌∷◌, All, find}
use voxloop.Names.{Text}
use voxloop.Configuration.Permission.{nothing, monitor, emit, control}
use voxloop.Configuration.Tables.{
  LoopRow, UserRow, RoleRow, CellRow, CodeRow, Tables, a_user, a_role,
}
use voxloop.Configuration.Loops.{is_loop}
use voxloop.Configuration.Grid.{
  cell_of, permission_in, a_cell, write_cell, set_cell, dismiss_unreviewed, held_by, the_reach_of,
  the_staffing_roles,
}
use voxloop.Configuration.Grid.Holding.{set_cell-held_by}
use voxloop.Configuration.Grid.Dismissal.{dismiss_unreviewed-held_by}
use voxloop.Configuration.Grid.Reach.{the_reach_of-held_by}
use voxloop.Configuration.Grid.Keeping.{GridIsSound}
use voxloop.Configuration.Grid.History as GridHistory
use voxloop.Configuration.Grid.History.{after_all-GridIsSound}
use voxloop.Configuration.Grid.Staffing.{EachMayEmit, the_staffing_roles-held_by}
use voxloop.Configuration.Users.{
  user, set_account_lock, is_the_last_administrator, a_system_administrator_exists,
}
use voxloop.Configuration.Users.Keeping.{IsAdministered}
use voxloop.Configuration.Users.History as UserHistory
use voxloop.Configuration.Users.History.{after_all-IsAdministered}
use voxloop.Configuration.Users.Access.{IsShutOut, set_account_lock-IsShutOut}
use voxloop.Configuration.Roles.{role}
use voxloop.Configuration.Eligibility.{is_eligible, the_pair, grant_eligibility, revoke_eligibility}
use voxloop.Configuration.Eligibility.Laws.{grant_eligibility-is_eligible}
use voxloop.Configuration.Enrolment.{issue_enrolment_code, spend_enrolment_code}
use voxloop.Configuration.Enrolment.Laws.{issue_enrolment_code-spend, spend_enrolment_code-once}

abbrev pub by_number : Text → ℕ
by_number text = text

abbrev listener : RoleRow
listener = record { id = 1; name = 101; max_occupants = none; created_at = 0 }

abbrev pub controller : RoleRow
controller = record { id = 2; name = 102; max_occupants = some 1; created_at = 0 }

abbrev reviewed_loop : LoopRow
reviewed_loop = record { id = 11; name = 111; is_unreviewed = false; position = 0; created_at = 0 }

abbrev new_loop : LoopRow
new_loop = record { id = 12; name = 112; is_unreviewed = true; position = 1; created_at = 1 }

abbrev staffed_cell : CellRow
staffed_cell = record { role = 2; held_on = 11; permission = control; staffs = true; set_at = 3 }

abbrev early_cell : CellRow
early_cell = record { role = 1; held_on = 12; permission = monitor; staffs = false; set_at = 4 }

abbrev chief : UserRow
chief = record {
  id = 5;
  username = 105;
  password_hash = some 500;
  is_system_administrator = true;
  is_locked = false;
  external = none;
  created_at = 0;
}

abbrev operator : UserRow
operator = record {
  id = 6;
  username = 106;
  password_hash = some 600;
  is_system_administrator = false;
  is_locked = false;
  external = none;
  created_at = 0;
}

abbrev old_code : CodeRow
old_code = record { fingerprint = 70; user = 6; issued_at = 0; expires_at = 900 }

abbrev pub configured : Tables
configured = record {
  users = chief ∷ operator ∷ [];
  roles = listener ∷ controller ∷ [];
  loops = reviewed_loop ∷ new_loop ∷ [];
  cells = staffed_cell ∷ early_cell ∷ [];
  eligibility = [];
  subscriptions = [];
  volumes = [];
  sign_ins = record { fingerprint = 60; user_id = 6; started_at = 0; last_active_at = 0 } ∷ [];
  codes = old_code ∷ [];
}

-- The second role is ruled on: the loop is reviewed by it.
set_cell-held_by_example : held_by (set_cell 2 12 emit 8 configured).0 1 12 ≡ monitor
unfolding a_cell write_cell
set_cell-held_by_example =
    set_cell-held_by 2 12 emit 8 configured new_loop
      (record {
        role = record { id = 2; name = 102; max_occupants = some 1 };
        held_on = record { id = 12; name = 112; is_unreviewed = true };
        permission = nothing;
        staffs = false;
      })
      1 12 refl refl

dismiss_unreviewed-held_by_example :
    let next = (dismiss_unreviewed 12 8 configured).0 in
    (find (is_loop 12) next.loops ≡ some (record new_loop { is_unreviewed = false }))
    × (permission_in (cell_of next 2 11) ≡ permission_in (cell_of configured 2 11))
    × (held_by next 2 12 ≡ permission_in (cell_of configured 2 12))
dismiss_unreviewed-held_by_example = dismiss_unreviewed-held_by 12 8 configured new_loop 2 11 refl

the_reach_of-held_by_example :
    find (λ entry. entry.0.id == 12) (the_reach_of configured 1 monitor) ≡ none
unfolding held_by
the_reach_of-held_by_example = the_reach_of-held_by configured 1 monitor 12 (refl, (refl, tt))

abbrev configured-GridIsSound : GridIsSound configured
configured-GridIsSound = record {
  roles_differ = (refl, (refl, tt));
  loops_differ = (refl, (refl, tt));
  one_each = (refl, (refl, tt));
  staffing = (refl, (refl, tt));
}

abbrev some_acts : List GridHistory.Act
some_acts =
    GridHistory.set 2 12 emit 8
    ∷ GridHistory.staff 2 12 true 9
    ∷ GridHistory.set 2 11 monitor 10
    ∷ GridHistory.remove_role 1
    ∷ []

after_all-GridIsSound_example : GridIsSound (GridHistory.after_all by_number some_acts configured)
after_all-GridIsSound_example =
    after_all-GridIsSound by_number some_acts configured configured-GridIsSound

the_staffing_roles-held_by_example : All (EachMayEmit configured) (the_staffing_roles configured)
the_staffing_roles-held_by_example = the_staffing_roles-held_by configured configured-GridIsSound

abbrev configured-IsAdministered : IsAdministered configured
unfolding a_system_administrator_exists
configured-IsAdministered = record { differ = (refl, (refl, tt)); some_one = refl }

abbrev user_acts : List UserHistory.Act
user_acts =
    UserHistory.remove 5
    ∷ UserHistory.administer 6 true
    ∷ UserHistory.lock 5 true
    ∷ UserHistory.remove 5
    ∷ []

after_all-IsAdministered_example :
    IsAdministered (UserHistory.after_all by_number 101 user_acts configured)
after_all-IsAdministered_example =
    after_all-IsAdministered by_number 101 user_acts configured configured-IsAdministered

set_account_lock-IsShutOut_example : IsShutOut 6 (set_account_lock 6 true configured).0
unfolding user is_the_last_administrator
set_account_lock-IsShutOut_example =
    set_account_lock-IsShutOut 6 configured (a_user operator) refl refl

abbrev reissued : Tables
reissued = record configured {
  codes = record { fingerprint = 71; user = 6; issued_at = 100; expires_at = 604_800_100 } ∷ [];
}

issue_enrolment_code-spend_example : (spend_enrolment_code by_number 70 200 reissued).1 ≡ none
unfolding issue_enrolment_code spend_enrolment_code
issue_enrolment_code-spend_example =
    issue_enrolment_code-spend by_number 6 100 configured 71 70 200 reissued
      (record {
        code = 71;
        outstanding = record { expires_at = 604_800_100 };
        replaced = some (record { expires_at = 900 });
      })
      (refl, tt) (omega arith) refl

spend_enrolment_code-once_example :
    (spend_enrolment_code by_number 70 300 (spend_enrolment_code by_number 70 200 configured).0).1
    ≡ none
unfolding spend_enrolment_code
spend_enrolment_code-once_example =
    spend_enrolment_code-once by_number 70 200 300 configured 6 (refl, tt) refl

grant_eligibility-is_eligible_example :
    (is_eligible (grant_eligibility 6 2 9 configured).0 6 2 ≡ true)
    × (is_eligible (revoke_eligibility 6 2 configured).0 6 2 ≡ false)
unfolding is_eligible the_pair user role
grant_eligibility-is_eligible_example =
    grant_eligibility-is_eligible 6 6 2 2 9 configured
      (record { user = a_user operator; for_role = a_role controller }) refl
