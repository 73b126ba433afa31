-- ===== src/Lib.antt =====
-- Verification of the vcf-salt-operator: the operator that accepts, preseeds and deletes the Salt
-- keys of virtual machines, runs the first highstate on them and keeps them converged, and the
-- scavenger that deletes keys without a machine.
--
-- The parts, and where they stand:
-- - pkg/salt/matcher.go (FindMinionID, shiftFirstOctet): Salt/Matcher and Salt/Octets, on lists of
--   code points. The case foldings of Go are a parameter (Salt/Unicode).
-- - pkg/salt/client.go: Salt/Client, with the documents that it sends and reads in Salt/Json. A call
--   changes the session of its client (token, jar, key of the master, and the requests sent) and
--   gives a value or an error. Transport (Login, rawPost, doPost), Keys (ListPendingKeys,
--   AcceptKey, DeleteKey, KeyStates, MasterLastSeen), Jobs (dispatch, PollJID, waitBoolResult) and
--   Wheel (wheel, GenAcceptKey, MasterPublicKey) have one definition per function. Keeps and Calls
--   carry a property of sessions through all calls, Sessions has their sequences, Documents
--   writes the requests out apart from the client, Requests has their protocol, Clock, Settles and Deadline the loops that wait, Answers and
--   Listings what the values promise, and Bounds the number of requests.
-- - internal/raasconn/raasconn.go (Resolve, Load): Raasconn. A read of a Secret is a function of
--   its namespace and name.
-- - api/v1alpha1/saltkeyconfig_types.go and the fields of a VirtualMachine: Kube; Kube/Error has the
--   errors that the code tells apart.
-- - internal/controller/virtualmachine_controller.go: Controller. Controller/World has the state of
--   a reconcile (the machine, its bootstrap Secret, the cache of clients), the trace of its calls
--   and the answers of the outside; Controller/Run the computations on it, which return or fail as
--   the Go functions do. Names (constants), IntentHash (computeIntentHash), Cache (saltClientCache,
--   saltClientFromConfig), Preseed (runPreseedKey, clearPreseedKey), Accept (runAcceptKey), Chain
--   (runPing, runRefreshPillar, runDispatchHighstate, runPollHighstate), Enforcement
--   (enforcementDue), Reconvergence (checkReconvergence, runDay2, reconcilePostAccept), Create
--   (reconcileCreate), Delete (reconcileDelete) and Reconcile (Reconcile, findSaltKeyConfig) have one
--   definition per function, and one for each part of a long function. Pillar has the order of the
--   chain, with the steps that a machine goes through in Pillar/Order. Phases has the phases of an
--   accepted machine as a machine of their own, with the sequences of its reconciles in Phases/Runs,
--   and OwnWrites the filter of updates (ownWritesOnly, withoutOwnWrites). Run/Keeps and Run/Leads
--   carry a condition through a computation, and Frame carries each property that the operator's own
--   writes leave alone through a whole reconcile.
-- - internal/controller/enrolment_controller.go: Enrolment, on the configurations of one namespace.
-- - internal/controller/saltkeyconfig_controller.go (validate, Reconcile): Readiness.
-- - cmd/scavenger/main.go (scavenge and what it calls): Scavenger, with main in Scavenger/Run.
-- - cmd/main.go: Startup, from the flags to the controllers, with the options of the servers and of
--   the manager in Startup/Options; CommaList has splitList, which both programs have.
-- Prelude has the shared names, Tests the runs on concrete objects.
--
-- How they interact: the Ready condition that Readiness computes is what Controller/Reconcile and
-- Scavenger choose configurations by; all three resolve connections with Raasconn. Enrolment makes
-- the configuration that choose_config takes only where a namespace has no ready one of its own;
-- Startup decides whether it runs at all. The reconciles of Controller start on the updates that
-- OwnWrites lets through. Controller and Scavenger take the answers of the Salt API as parameters,
-- those that the calls of Salt/Client give; Controller/Preseed/Bootable says so of the answers about
-- keys, and Controller/Preseed/Generated uses it.
--
-- What is a parameter: Go's time, hashes, durations and case foldings, the label selectors and
-- conditions of the Kubernetes libraries, the API server and the Salt API. In Controller an answer
-- depends on the number of calls made before it, so it may change from call to call and any call
-- may fail. A write that is accepted changes the state as the code asks, and a reconcile reads its
-- own machine only: no other writer acts while it runs, only between two reconciles. In Enrolment,
-- Readiness and Scavenger the answers of one run are fixed.
--
-- In Salt/Client the network answers by the number of requests and waits of the session, a body is
-- what is left of it at the limit of the code, and a document is parsed by a parameter; the calls of
-- one client come one after the other.
--
-- Data: times and durations are nanoseconds; a duration is an integer, and the differences of
-- times saturate and the sums and differences of durations wrap at 64 bits, as Go's do
-- (Controller/Durations). A map of texts is a list of bindings of which the first one of a key
-- counts, so a merge puts the new bindings in front. In Controller a client of the Salt API is
-- the connection that it was built for. Loops over lists end with them. The two loops of the
-- client that wait for a job run on fuel, one unit for each round: each round waits once, so more
-- fuel than the tick at which the context is done is enough (Salt/Client/Deadline). The members
-- of a JSON object stand last first, so that the last one of a name counts as in Go; where a
-- document has a name twice and the later value is null or an object, encoding/json may keep or
-- merge the earlier one, which is not modelled. A number stands for what a conversion of it to an
-- integer gives.
--
-- Not modelled: log lines, the messages of events and conditions, the texts of errors (the text
-- that wraps an error is kept where it is a constant), the cancellation of calls by timeouts, the
-- locks of the cache (one reconcile at a time is modelled), the lock and the TLS settings
-- of the HTTP client, the parsing of the command lines, the building of the scavenger's client, and
-- generated code.
pub mod Prelude
pub mod Salt
pub mod Kube
pub mod Raasconn
pub mod Controller
pub mod Enrolment
pub mod Readiness
pub mod Scavenger
pub mod CommaList
pub mod Startup
mod Tests
