-- ===== src/Lib.antt =====
-- cloudcoil: a Kubernetes client and a runtime for controllers, whose core is modelled here from
-- its Python sources under cloudcoil/. A resource type is listed and watched by a watch manager;
-- an informer puts what it brings into a store and tells its handlers; readers look at the
-- store. A mutation at admission edits typed objects and becomes a patch of the raw one. A
-- controller queues the keys of changed objects and works on them, in the order of its
-- registered stages and cases, while a leader election keeps other instances out.
--
-- The files, each with the code that it is about:
--
-- - Base and its children: what all share. Python exceptions are values (Base/Results), a dict
--   is an association list in insertion order (Base/Dicts), a set and a deque are lists of their
--   members (Base/Sets), a float that stands for a length of time is a Duration in ticks
--   (Base/Durations). Members of a list whose type has no decided equality are found by Member
--   (Base/Lists).
-- - Controller/Queue: WorkQueue of cloudcoil/controller/_queue.py, an operation each: init, add,
--   add_after, release, retry, forget, get, done, shutdown. The two events are Booleans, the
--   timers a dictionary of deadlines. Invariant, Phases, Specification, Guarantees, Drain and
--   Backoff state what it promises. The search for the clamped exponent runs on fuel, and as
--   much as the limit on the delay is enough.
-- - Controller/Worker: one turn of _worker of cloudcoil/controller/_controller.py: normalise,
--   with_status, persisted and attempt give the outcome, after_attempt and after_error the calls
--   of Controller/Queue; Turns runs these calls on the queue, and Answers says what comes of
--   what the handler did.
-- - Controller/Leader: LeaderElection of cloudcoil/controller/_leader.py, cut at each await:
--   begin, on_get, on_write (_attempt), renew_wait and count_failure (_renew), on_release
--   (_release), start, lead and stand_down (_run), observe (_observe). Cluster puts any number
--   of participants around an API server, with what is on its way between them, as a step
--   relation; Attempts, Exchanges, Invariant, Moves, Sound, Turns, Steps and Safety lead to the
--   exclusion of two leaders, Progress to what a candidate does in time.
-- - Controller/Registry: cloudcoil/controller/_registry.py: ordered and place (_ordered), with
--   Branches (_Branches) and Entry (StageScope and Registry). The loop runs on fuel, as many
--   turns as there are nodes, and Orders says that it ends before. Frozen says what a registry
--   that freeze accepts is like.
-- - Controller/Events: EventRecorder of cloudcoil/controller/_events.py: init (__init__), check,
--   reserve (the synchronous part of emit) and emit. Recent is about the remembered keys, Limits
--   and Suppression about any sequence of calls.
-- - Controller/Status: cloudcoil/controller/_status.py: get_condition, set_condition and
--   update_status on conditions and observed_generation.
-- - Controller/Requests: Request, its report and Wait of cloudcoil/controller/_types.py. A
--   method takes the request and returns it with a result, since what it edited stays when it
--   raises; one pass reads the clock once.
-- - Controller/Stages: Stage and Stages of cloudcoil/controller/_stages.py: make_stage,
--   make_stages, start (_start), run_stage (_run), run_all (the loop), done (_done), call
--   (__call__). Frames, Waits and Advance are about one stage, Conduct and Reported about a
--   pass, Failure about _failed.
-- - Controller/Cases: Cases of cloudcoil/controller/_stages.py: init, case, add_otherwise
--   (otherwise), check_name, freeze, call (__call__) with choose and run_selected. Order is
--   about freeze, Choice and Served about a call.
-- - Controller/Children: cloudcoil/controller/_children.py: merge (_merge) and ensure. Merge is
--   about the keys, Ownership about what ensure may touch.
-- - Controller/Mutations: cloudcoil/controller/_mutations.py: mutate, ensure_finalizer,
--   remove_finalizer and persist (_persist), each with the patches that it sends; add_finalizer
--   and drop_finalizer are the callbacks. Requests, Complete and Finalizers hold the theorems.
-- - Patches: cloudcoil/patches.py on the JSON values of Base/Json: json_patch with visit,
--   visit_key and visit_keys, and diff with changes and guards. visit takes the height of the
--   old value as fuel, since each recursion goes one dictionary down. Pointers and Application
--   say what RFC 6901 and RFC 6902 make of a patch, Located is visit with keys in place of
--   texts, Edits is about one of its edits, RoundTrip and Guards hold the theorems.
-- - Admission: cloudcoil/admission/_mutation.py. Admission itself has equal (_equal), unknown
--   (_unknown) and projection_matches; Arrays says which old and raw element an element of a new
--   array stands for, by its name or by its value (plan); Overlay has overlay (_overlay) and
--   mutation_patch. Each recursion goes into a part of the new value. Keys, Preserved and Patch
--   say what becomes of fields that the types do not have.
-- - Caching/Store: ConcurrentStore of cloudcoil/caching/_store.py, a method each. Every method
--   holds the lock throughout, so it is one step. Updates, Indices and Exact are about the
--   indices, Invariant, Methods and Replace about the changes, Capacity and Reads about what a
--   caller sees.
-- - Caching/Informer: the handlers of cloudcoil/caching/_informer.py, for AsyncInformer and
--   SyncInformer, whose code is the same; dispatched events are a list of notices
--   (cloudcoil/caching/_event_dispatcher.py). Replay, Relist, Follow and Runs compare the cache
--   with a client that applies the notices.
-- - Caching/Watch: both watch managers of cloudcoil/caching/_watch_manager.py as one state
--   machine with a flavour, on the signals that the loop and its callers bring, and
--   _ExponentialBackoff. States, Resume, Failure and Delays state what holds of it. A sync stop
--   gives up waiting after ten seconds; a thread that is still alive then is not followed after
--   another start.
-- - Caching/Reader: CachedResources of cloudcoil/caching/_reader.py over the informer.
--
-- The Tests module of each part runs it on small inputs and applies the theorems there.
--
-- The types of objects, keys, functions that make keys, and the predicates of cases are
-- arguments of the definitions. The API server of the election is not code of the repository:
-- Served of Controller/Leader/Cluster states what it does with a write, which is to refuse it or
-- to store it where it names the version that is there. The clock of the election counts
-- microseconds, and one clock stands for those of all participants.
--
-- Not modelled: the watches, owner keys and start and end of
-- cloudcoil/controller/_controller.py, the metrics and health of the controller, the cached
-- client, the reviews of cloudcoil/admission and the application layer. Not meant to be
-- modelled: HTTP and configuration (cloudcoil/client), the models of cloudcoil/apimachinery.py
-- that a generator writes, the code generator, logging and the command line.
pub mod Base
pub mod Admission
pub mod Caching
pub mod Controller
pub mod Patches
