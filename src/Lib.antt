-- ===== src/Lib.antt =====
-- The custody engine of Found Roll: how a found item's Item Passport moves from intake to a
-- disclosed, simulated return, and what its event log, one-time secrets and relay commands
-- guarantee.
--
-- The program's parts, and the files that model them:
--   Domain          service/app/domain.py: enumerations (Domain/Enums), the case, candidate and event
--                   records (Domain/Cases), outbox, handoff, credential and link records
--                   (Domain/Effects), the views (Domain/Views), the relay's messages (Domain/Relay), the
--                   analyst's proposal (Domain/Analysis)
--   StateMachine    service/app/state_machine.py: ALLOWED_TRANSITIONS and assert_transition
--   Policy          service/app/policy.py: evaluate_release_policy
--   Repository      service/app/repository.py, class InMemoryRepository. Its dictionaries are the
--                   record Repo, `reset` is `empty`. Repository/Events turns a command into an event
--                   and the next version of the case; Repository/Commit has create_case,
--                   apply_mutation and the reads; Repository/Outbox the outbox commands and execution
--                   claims; Repository/Links the claimant's links; Repository/Tokens consume_token
--                   and replace_synthetic_fixture
--   Service         service/app/custody_service.py. Service/Commands has _mutation_spec and
--                   _mutation; Service/Publish _publish_outbox with service/app/outbox.py;
--                   Service/Approvals the identity attestation and the approval;
--                   Service/Reservation begin_reservation; Service/Release begin_release;
--                   Service/Relay commit_relay_attestation and commit_simulator_callback, its Run
--                   _process_relay; Service/ClaimLink the links; Service/Claim submit_claim_evidence;
--                   Service/Credentials issue_tokens and attest_token;
--                   Service/Packet deterministic_candidate_packet of service/app/agent.py;
--                   Service/Begin begin_analysis; Service/Analysis _process_analysis and its
--                   recovery; Service/Processing process_outbox; Service/Secrets the keyed digest of
--                   service/app/hashing.py;
--                   Service/Manifest verify_event_chain, build_manifest and close_case
--   Evidence        service/app/evidence.py: InMemoryEvidenceStore with its records; Evidence/Pairs an
--                   original and its preview, Evidence/Upload store_upload_pair
--   Simulator       simulator/app/store.py with models.py: class FixtureStore, one file for each of
--                   its methods (Reservations, Credentials, Attestations, Handoff, Inventory), the
--                   sweep and the look-ups in Store, the requests in Requests, the fixture it starts
--                   from in Fixture. Simulator/Frame has the commands, Simulator/Calls the runs
--   Prelude, Tests  shared names and lemmas; runs on concrete data
--
-- The service calls the simulator through its relay gateway, over HTTP: the answers of the
-- simulator are arguments of the service, and Simulator models the other end on its own. The
-- evidence store is beside the repository; the service reads its records when it begins an
-- analysis.
--
-- How the code is modelled. A method that writes is a function from the repository to a result
-- and the repository after it (`Exec Repo`), also where it raises: a write before the raise
-- stays. A raised error carries its stable code, not its message. The lock of the repository
-- makes every method one step, so that interleavings are sequences of calls: the relation `Call`
-- of Repository/Chain/Methods has one constructor for every method that writes, and `Reachable`
-- the repositories after any such sequence from the empty one. `_clone` copies records, so that
-- nothing is aliased. A dictionary is an association list in the order of insertion.
--
-- A service method reads the clock more than once in the source; here `now` stands for all
-- readings of one call. The answers of the publisher, the relay and the analyst, the random
-- claim token and the correlation identifier are arguments. The methods of FixtureStore hold its
-- lock, and read the clock once here as well.
--
-- Numbers. Instants are microseconds (what the simulator stores is in whole seconds) and natural
-- numbers; versions and counters are Python integers and do not overflow. A candidate's score, a
-- float between 0 and 1, is in units of 1/10000. Loops are structural recursion; the only fuel
-- is that of `decimal`, which is the number itself, at least its number of digits.
--
-- Not under the repository, so parameters: SHA-256 of canonical JSON, HMAC, UUIDs and Unicode's
-- tables are the record `Hashing` of Prelude/Json; what the simulator and the evidence store
-- take from the standard library are the records `Codec` of Simulator/Codec and `Digests` of
-- Evidence. Nothing is assumed of them.
--
-- Not modelled: FirestoreRepository, the Cloud Tasks publisher and the evidence store over
-- Google Cloud Storage (third-party clients), the decoding of images by Pillow, the rest of the
-- agent, the inventory and relay clients, the HTTP routes of the service and of the simulator;
-- of the service the intake, the automatic start of an analysis and the recovery by operators;
-- the validators of the analyst's proposal; Pydantic's length limits, bounds and patterns;
-- constant texts of the simulator's answers and list_custodians.
mod Prelude
pub mod Domain
pub mod StateMachine
pub mod Policy
pub mod Repository
pub mod Service
pub mod Simulator
pub mod Evidence
mod Tests
