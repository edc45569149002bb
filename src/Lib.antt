-- ===== src/Lib.antt =====
-- Voxloop: a server that carries voice loops between the people of a control room. This library
-- models the part of it that decides: who sits in which role, who hears whom, what each session is
-- shown, who is permitted what, and how often a credential may be presented.
--
-- The parts, and how they interact:
--   State          src/state.rs: the authority over live sessions, behind one mutex. The
--                  signalling channels, the HTTP handlers and the media plane call it; it calls
--                  nothing but the clock and `secrets::unguessable`.
--   Authorisation  src/authorisation.rs: `evaluate`, which every handler calls before it acts. It
--                  reads the store, and the state authority for the session's holder and role.
--   Configuration  src/configuration: the store's tables, and what an administrator and a session
--                  read and write of them. users.rs, roles.rs, loops.rs, grid.rs, eligibility.rs,
--                  enrolment.rs and personalisation.rs: the records, what each role holds on each
--                  loop, who may assume which role, how a password is first set, and what a seat
--                  remembers; sign_ins.rs: who is signed in; deployment.rs: the ladder that times a
--                  session's connection, with the check that a deployment file describes one. The
--                  evaluator reads `held_by` and the user, the state authority is handed
--                  `the_reach_of` and `the_staffing_roles`.
--   Transport      src/transport/rate_limit.rs: `RateLimits::admit_at`, which stands before every
--                  presentation of a credential; signalling.rs: the conversation of one socket,
--                  which asks the evaluator about each message, acts on the state authority, reads
--                  and writes the store one transaction at a time, tells the media plane what to
--                  carry, and answers with documents.
--   Lifetimes      src/lifetimes.rs: the sweep that ends abandoned sign-ins. It asks the state
--                  authority which sign-ins hold a session, and hands the answer to the store.
--   Supervision    src/supervision.rs: what the media plane's reports do to the live state.
--
-- Which file models what:
--   Names                      identifiers, texts, times and the wrap-around of a u64.
--   State/Readings             Connection, MediaPath, LoopHealth, NotHearing, Counting.
--   State/Documents            what is handed out: Presence, Standing, Staffing, WhoHears, WhoCounts.
--   State/Session              the struct Session and its methods.
--   State/Live                 the struct Live and its methods: fan-out, staffing, tombstones.
--   State/Seats                assume, ended_by_its_own_holder, why_it_ended, occupants_of.
--   State/Console              subscribe to the_client_unkeys_priority: what a console asks for.
--   State/Channel              heartbeats, beacon counts, the channel's end and the media paths.
--   State/Projections          the_routing_if_it_moved, the_beacons_if_they_moved, presence.
--   State/Acts                 every writing operation as one step of a history.
--   State/Occupancy (Taking, Leaving), Seating, Sound (Measured), Requests, History
--                              the invariant of the state, kept by every step.
--   State/Displacement, Limits (Held)
--                              what an assume grants, displaces and refuses.
--   State/Routing (Moves), StaffingLaws, Versions, Priority, Measures
--                              what the answers say, and when they move.
--   State/Pressing (Kept)      what leaves a press of the priority key held.
--   Authorisation (Entitlement, Reads, Laws)
--                              the evaluator, and who is permitted.
--   Configuration/Permission, Configuration/Ladder
--   Configuration/Tables       the rows of the store, and the records that they are read as.
--   Configuration/Roles, Loops, Users, Eligibility, Enrolment, Personalisation
--                              one module for each repository of src/configuration.
--   Configuration/Grid         src/configuration/grid.rs: the cells, and their readings.
--     Laws, Holding, Dismissal, Reach, Sound, Keeping, Records, Staffing, History
--                              what a write changes, what is enforced, what every act keeps.
--   Configuration/Users/Last, Keeping, History, Access; Configuration/Enrolment/Laws;
--   Configuration/Eligibility/Laws
--   Configuration/SignIns, its Laws and its Window
--                              src/configuration/sign_ins.rs: the table of sign-ins as a list.
--   Lifetimes, Supervision, and the Laws of each
--   Transport/RateLimit, its Bound and its Table
--   Transport/Signalling       src/transport/signalling.rs.
--     Messages, Scene          what is said; the conversation, what it acts on, its transactions.
--     Documents                the lobby and the presence document.
--     Taking, Acts, Received   a seat taken and left, the acts on it, one message and one turn.
--     Permitted, Standing, Keeping, Ledger, Recording, Returning, Displaced
--                              which messages act, what a failing store leaves, what is owed to
--                              the log and written, and what a socket is told.
--   Examples                   the operations on a small deployment.
--
-- How the model reads the source. An operation that locks the state is a function from the state
-- to the state and the answer, since the lock is held throughout and is taken over when poisoned;
-- it is given the time that it reads off the clock, and `assume` the name that it mints, which the
-- theorems take to be nobody's (`IsFresh`, what an unguessable name promises). Identifiers and
-- texts are only copied and compared, and are numbers. Times are nanoseconds, durations saturate
-- at zero as `saturating_duration_since` does, and the version of a document wraps at 2 ^ 64. The
-- evaluator's reads of the store are the record `Directory`, whose answers may be `unavailable`.
-- The store's tables are lists of rows, in the order that they were written; an operation is one
-- transaction, given the time and the identifier that it mints, and the foreign keys' cascades are
-- written out where a row is deleted. `collate` is the order of names without regard to case, and
-- the fingerprints of tokens and codes are parameters. In `src/configuration` a statement succeeds
-- unless a key is taken; in the conversation a transaction may fail as it begins, at a statement,
-- at its roll back or as it ends, as the scene's weather says in advance, and what it wrote stands
-- only where it was committed. A message is handled at one time, and `evaluate` meets one fault in
-- all that it reads for one message. The watch on the media plane runs over the reports alone, with
-- no other writer between them. A bucket's float of tokens is exact here, in nanoseconds of refill,
-- and the map of sources is an association list, of which `sort_unstable_by_key` may give another
-- order among equal times. Every loop is structural on a list or a number, so there is no fuel.
--
-- Not modelled: the readings of the audit log and its retention; of the conversation the JSON, the
-- heartbeats, what the media plane says to a client, and the texts of refusals; the HTTP surface and
-- the administration over it, the media plane, password hashing and the command line, which are I/O
-- or the work of other libraries, or are still to be modelled. The errors of the ladder's check leave
-- out the file's path and their texts.
pub mod Prelude
pub mod Names
pub mod Configuration
pub mod State
pub mod Authorisation
pub mod Transport
pub mod Lifetimes
pub mod Supervision
pub mod Examples
