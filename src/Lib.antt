-- ===== src/Lib.antt =====
-- Remote attestation: the attestator in a protected application, the verifier on the server, and the
-- data structures of the server's manager, in C.
--
-- An attestator keeps a table of attestation data: its AID and number, areas of its own code, and the
-- nonce of the current request. On a request it decodes the nonce (an area, a generator, an offset),
-- walks over the area, hashes the bytes with the nonce and its identity, and sends the hash. The
-- forwarder adds the time and starts the verifier, which computes the hash from the data that the
-- database keeps, and writes a verdict. The manager's connection listener opens a session for a
-- client and passes it to one of several actual managers, each with its clients in a generic list and
-- the next requests in a delta queue; for a request it takes prepared data that no request has used.
-- The extractor fills the table of prepared data. The list of running verifiers counts their clients.
--
-- Files, and the code they model (paths from the repository's root):
--   Prelude            shared names; Run is the outcome of C code (a value, undefined behaviour, or a
--                      loop that never ends), Input a blob read through a moving pointer and a file,
--                      Bytes memcmp, "%02X" and little-endian integers, Float the type float, Int the
--                      signed integers, RaResult src/headers/ra_results.h.
--   GenericList        src/ra-additionals/generic_list.c: gl_insert is insert, gl_get_reference
--                      get_reference, gl_remove remove, gl_delete delete. Laws and SetView see the
--                      list as a set.
--   Client             src/ra-additionals/ra_client.c: RA_CLI_compare is compare.
--   VerifiersList      src/ra-additionals/verifiers_list.c: RA_VER_x is x. MapView and
--                      History see the list as a map from ids; Files has its file, and Endless
--                      what reading it does.
--   SchedulerQueue     src/ra-additionals/scheduler_queue.c: sq_x is x. Schedule sees the deltas as
--                      absolute times.
--   Memory             src/client-parametric-files/cond/ra_memory.c: ra_mA_x is x, with blocks as a
--                      list; Memory.Codec its binary format.
--   DataTable          src/client-parametric-files/cond/ra_data_table.c: ra_x is x;
--                      DataTable.Ads its parser of the embedded blob, DataTable.Dump its dump to a
--                      file.
--   Primes             src/ra-additionals/generic_functions.c; Primes.Euclid the prime divisors of a
--                      product.
--   Nonce              src/client-parametric-files/cond/ra_nonce_interpretation_{1,2,3,4}.c.
--   Preparation        src/client-parametric-files/cond/ra_data_preparation.c;
--                      Walk and Places reason about it; Preparation.Goldbach is
--                      src/client-parametric-files/cond/ra_data_preparation_goldbach.c, whose table
--                      of partitions is a parameter.
--   DoHash             src/client-parametric-files/cond/ra_do_hash_*.c.
--   Attestator         src/client-parametric-files/uncond/attestator.c: the routine; Lifecycle has start,
--                      polling and shutdown as steps of the application's thread and the polling
--                      thread, with the mutexes, the condition and the flags that they share.
--   Verifier           src/server-components/verifier.c: Verdict, Success and Tampered reason about
--                      what it writes.
--   VerifierForwarder  src/server-components/verifier_forwarder.c.
--   Database           src/ra-additionals/ra_database.c over src/headers/ra_database.h and the tables of
--                      setup/create_tables/00_remote_attestation_tables.sql: ra_db_x is x. Sql has the
--                      clauses of the statements on lists of rows, Tables the rows, Lookup, Sessions
--                      and Nonces the services; Keys, Active and Unused reason about them.
--   Manager            src/server-components/manager.c: Request send_ra_request, Serve serve_client and
--                      attest_client_at_startup, Sleep compute_random_sleep, Routine the loop of
--                      actual_manager_routine, a round as a function of how the wait ended, and
--                      Listener asclWebSocketDispatcherMessage. Fresh and Delivery follow a request to
--                      the verifier, Startup the wait for prepared data, Invariant and Reachable the
--                      loop, Assignment a client that connects.
--   Extractor          src/server-components/extractor.c, its loop, and
--                      src/client-parametric-files/cond/ra_nonce_generation.c: Attempt and Rounds
--                      reason about a round and the loop, Prepared about the rows that it adds.
--   Protocol           one attestation through extractor, manager, attestator, forwarder and verifier.
--   Examples, Tests    concrete data, and the theorems at it.
--
-- State is passed explicitly: an operation returns the new record beside its result. A chain of nodes
-- is a list, and the counter that the C code keeps beside it is a field of its own with its
-- wrap-around. Each allocation is a Boolean argument, so the error paths are part of the model.
-- Parameters stand for what the repository does not hold: OpenSSL's prime test and digests, the
-- attested memory, float arithmetic, the C library's decimal numbers and fscanf, and which calls of
-- the MySQL library succeed and which row of a result comes first. A loop is recursion on the chain, on a counter, or downwards on a number; the
-- prime search, which may never end, says so in its result; the wait of the startup attestation runs
-- over the list of its tries; and the loop of the extractor has fuel, of which one round for each row
-- asked for and twenty more are enough, as it counts a row or one of twenty errors in every round.
-- The attestator's threads are a relation of reachable states, over any order of their steps.
--
-- Not modelled: the threads, signals and shutdown of the manager's main, and how two threads share the
-- pointers in a mailbox, the loading of files in the extractor, the trigger on the requests (a
-- parameter), the times of a session, the textual formats of the memory areas, the mutex around
-- libwebsocket, which one thread only takes, printing, the copy of BLAKE2, and the Java and shell tools
-- of the build.
pub mod Prelude
pub mod GenericList
pub mod Client
pub mod VerifiersList
pub mod SchedulerQueue
pub mod Memory
pub mod DataTable
pub mod Primes
pub mod Nonce
pub mod Preparation
pub mod DoHash
pub mod Attestator
pub mod Verifier
pub mod VerifierForwarder
pub mod Examples
pub mod Database
pub mod Manager
pub mod Extractor
pub mod Protocol
