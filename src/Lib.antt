-- ===== src/Lib.antt =====
-- The garage pass: this vehicle, at this lane, going this direction, at this instant; does a pass
-- cover it, and if not, why not. The model follows the Python package src/garage_pass.
--
-- The program's parts and how they meet. terms.py and passes.py hold the values: a pass with its
-- terms, its holder, the vehicles registered to it and the visits recorded on it; their
-- constructors refuse what contradicts itself. states.py moves a pass along the diagram of its
-- states and derives the one state that nobody types. garage.py and localday.py give a garage its
-- clock, from which every day and minute is read. access.py takes a garage, the passes and the
-- registrations that it is handed, and answers one movement. enrolment.py compares plates and reads
-- a credential's state. store/ keeps all of this in PostgreSQL: records.py reads rows as the values
-- above, and writes rows only through the checks above.
--
-- Which file models which part:
--   Findings      src/garage_pass/findings.py: the registered codes, as data types.
--   Result        what a call ends in: a value, the exception `Refused`, or any other exception.
--   Platform      what the program takes from Python about text and clocks (below).
--   Localday      src/garage_pass/localday.py
--   Garage        src/garage_pass/garage.py: `make_garage` is `Garage.__post_init__`.
--   Terms         src/garage_pass/terms.py: `check_terms`, `days_that_occur` and `describe`; what
--                 the validator asks of terms is stated on its own in Terms/Spec.
--   Passes        src/garage_pass/passes.py: `make_pass` is `Pass.__post_init__`.
--   States        src/garage_pass/states.py: `transition`, `effective_state`, `parse_state`.
--   Enrolment     src/garage_pass/enrolment.py: `plate_key`, `look_alike_key`, `similar_enough`,
--                 `credential_state`, `where_enrolment_happens`.
--   Access        src/garage_pass/access.py. Select chooses among the registrations, Visits reads
--                 the ledger, Evaluate is the helper `evaluate` cut at its checks, and Engine is
--                 `access`. The other files hold the proofs: what a pass must be to cover
--                 (Entitled, Entitling, Covered), how the covering pass was chosen (Named, Found,
--                 Chosen, Justified, Admitted), that it is enough at an exit (LetOut), and that
--                 an answer always comes (Built, Counts, Shape, Total, Answered).
--   Store         src/garage_pass/store/records.py and the tables of migrations/. Rows is the state
--                 `Db`; Load reads a garage and a pass of it; Register is `register_vehicle` up to
--                 its first write and Write what it writes; Ledger is `record_entry`,
--                 `record_exit` and `visits_on`; Change is `change_state`, Stay is `end_stay`,
--                 EndOne is `end_registration`, OfCar is `registrations_of`, Create is
--                 `create_pass`, and Garages are `store_garage` and the two repairs of a stored
--                 garage. The other files hold the proofs: of a registration, what the writes keep
--                 (OneCar, Writing, Sound) and that they go through (Holders, Judged, Clearing,
--                 Placed, Planned, Registered); of the ledger (Visits, Closing, Exits); of an end
--                 (Ending, Revoked, StayEnds, EndRead, OwnerEnds, EndWrites); of what is read of a
--                 car (ExitOnly, CarReads, CarRegistrations); of a garage (Retimed, Repairs); of a
--                 pass that is created (Created, CreatedLoads).
--   Base          lists, texts, numbers and sorting that the parts share.
--   Sample        a small garage with its pass, on which the Tests of each part run.
--
-- How the model stands to the code. A function that may raise gives a `Result`; a chain of calls is
-- a do block, and an early return is the end of it. A sentence of a refusal or of an answer is kept
-- as the data that it names, since prose takes no part in a decision. A frozenset is a list whose
-- order and repetitions nothing reads; a dict is found by its key. A text is the list of its code
-- points. A day is its proleptic Gregorian ordinal and an instant is a number of microseconds, UTC,
-- both natural; a zone is the wall clock that it makes of an instant. A number that a document or
-- a caller may state below zero is an integer. The machine's tables (Unicode's upper case, the
-- names of the tz database) and the texts of a date and of a duration are the parameter `Platform`,
-- with what the program relies on as its laws: upper case is stable, and a digit has none.
-- The end of the calendar is met in the last day of a credential; elsewhere the exception that
-- Python raises past it, or for an instant that a zone moves out of it, is left out.
--
-- The store is one tenant's rows, since every statement names the tenant. A row's uuid is its
-- external id, which is unique, or a number that no row had. A call takes the rows and gives the
-- rows; one that refuses is rolled back by its caller, so that the rows are those before it.
-- Registering reads first and writes later, and each part takes its own rows, so that whatever
-- another transaction commits in between is covered; the locks that order writers on one pass are
-- left out. An order that a query asks of text is the order of code points. The constraints of the
-- tables are the tests that an insertion meets; a statement that only shortens a registration is
-- given none.
--
-- No loop runs on fuel, but for `days_walk`, which makes one round for each day of a range of less
-- than a week, and the digits of a number, of which there are no more than its value.
--
-- Not modelled: src/garage_pass/typed.py and documents.py, which read annotations by reflection;
-- the minting and the hashing of a token; store/postgres.py and cli.py, which are input and output;
-- and, of the store, the calls of enrolments.py and access.py and those of records.py that
-- show what is stored, with the passes and the visits gathered for the access answer.
pub mod Base
pub mod Findings
pub mod Result
pub mod Platform
pub mod Localday
pub mod Terms
pub mod Garage
pub mod Passes
pub mod States
pub mod Enrolment
pub mod Access
pub mod Store
pub mod Sample
