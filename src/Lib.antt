-- ===== src/Lib.antt =====
-- config-srl manages the configuration of Nokia SR Linux devices from Kubernetes. A resource
-- SrlConfig holds a piece of configuration and the name of its target. The reconciler process
-- validates the resource and talks gNMI to the worker process, which keeps two caches for each
-- target: the running configuration, and the system cache with one entry for each resource. The
-- worker applies the entries, and drives the device.
--
-- Parts, and the files that model them:
--   * Api: the resource, apis/srl/v1alpha1/srlconfig_types.go, and the accessors that the
--     controllers call, zz_generated.managed.go. `Managed` is the interface resource.Managed, a
--     value of which is an SrlConfig or something else. Api/Objects: the lists of pointers that
--     GetItems (zz_generated.managedlist.go) and GetConfigs (srlconfig_interfaces.go) give.
--     Api/Labels: the getters by label of srlconfig_interfaces.go. Api/Copies:
--     zz_generated.deepcopy.go on a heap. Api/Accessors: the other accessors of
--     zz_generated.managed.go. Api/Interface: the interface IFSrlConfig. Api/Group: the names of
--     groupversion_info.go.
--   * Intent: pkg/intent/config/v1alpha1/config.go, the list of all resources.
--   * Webhook: admission of a resource, srlconfig_webhook.go and webhook.common.go.
--   * Diff: internal/controllers/srl/utils.go, the repair of the notification that ygot.Diff gives
--     (`validate_path` is validatePath, `validate_notification` is validateNotification), on
--     values; Diff/Heap has both on the path and update objects that the code writes to in place.
--   * Validator, Validator/Diffs: the methods of validatorDevice in
--     internal/controllers/srl/srlconfig_controller.go (`get_cr_status` is GetCrStatus and so on;
--     `validator_root_paths` is GetRootPaths). Validator/Complete: the system devices on which they
--     dereference no nil pointer. Validator/Convergence and Validator/Changes: what the diffs say.
--   * Gvk: internal/controllers/srl/utilsgvk.go, the entry of a resource in the system cache
--     (`get_gvk_update` is getGvkUpate, `gvk_entry` its part that makes the entry). Gvk/RoundTrip
--     and Gvk/ActualDiff: the entry and the checks of the validator.
--   * External: externalDevice in srlconfig_controller.go, which writes entries (`create`,
--     `update`, `delete`) and reads both caches (`get_system_config`, `get_running_config`);
--     `close_client` is its Close.
--     Messages are the gNMI messages field by field, which Writes and Get compare with what is sent.
--     History, Concurrent, InSync, Changed, Set and Complete are about what writes leave, in
--     sequences of the development's own, Requests about what is sent, and Returns and Panics about
--     the calls that return.
--   * Connector: connector in srlconfig_controller.go, which makes the external client.
--   * Watcher: internal/controllers/srl/srlconfig_watcher.go, the handlers that queue requests.
--   * Target: internal/target/srl/srl.go, the worker's driver of one device; Target/Driver: the
--     object with its Init and setters.
--   * Process: the commands cmd/workercmd and cmd/reconcilercmd, their start.go and the schemes of
--     their root.go: the defaults of the flags, and the calls of a start, on an `Environment` that
--     answers them (`worker_start`, `reconciler_start` are the RunE functions). Process/Setup: the
--     functions Setup of internal/controllers, as the record of what they register. Process/Handles
--     and Process/Owned: the objects that the calls of a start make and use. Process/Exit: Execute
--     and main.
--   * Gnmi, System: the messages and the system cache's data, with the fields that the source
--     names.
--   * Libraries: the third-party code that the controllers call, as records of functions.
--   * Prelude: lists, dictionaries, outcomes, effects, wrapped calls and interleavings. Tests: a
--     small library, data, and runs.
--
-- How the parts interact: the reconciler's library reads the system cache through External, hands
-- it to Validator for the status and the diffs, and writes the entry that Gvk makes through
-- External again. Validator and Gvk share the name of the entry, and the spec that it stores.
-- Connector makes the External of a resource, and Watcher queues the resources to reconcile.
-- Process starts both sides: the worker's server with the routes that the requests of External
-- take, and the controllers.
--
-- How code becomes definitions: a Go call that returns an error is an `Outcome`, which is a result,
-- an error or a panic: a nil dereference and an index out of range are panics. A call that talks to
-- a server takes and returns the server's state, the type `World` of its record. Contexts, time
-- stamps and what is logged are left out, and the time of a call is an argument where it is used. A
-- function that writes to its argument returns the new value; outside Diff/Heap, notifications are
-- values, as if no two of their pointers led to one path. A loop is a recursion on its list; no
-- definition needs fuel. Counters are compared with 0 only, so no width of integers matters.
--
-- What is a parameter: ygot, yparser, rootpaths, gvkresource, encoding/json, the gNMI client, the
-- Kubernetes client, the registrator and the work queue. Nothing is assumed of them in a
-- definition; a theorem that needs a law names it: `IsLawful` for ygot's Diff and
-- DeepCopy, `IsSystemCache` for a server that keeps what is written, `IsWorkQueue` for the
-- queue, `IsDeep` for the DeepCopyInto of the libraries' types, `CodecReturns` and `ModelReturns`
-- for libraries that do not panic. Process takes all libraries of a start as one `Environment`, of
-- which nothing is assumed but that a profile can be started.
--
-- What is not modelled: the wait on signals, and loading the cluster's configuration, which ends
-- the process if it fails; how cobra reads the arguments, which is a parameter; the models, the usage
-- tracker and the constructor of clients that the Setup of the resource's controller hands on; a
-- dereference in a log line of Discover; manifests.
pub mod Prelude
pub mod Gnmi
pub mod Diff
pub mod Api
pub mod System
pub mod Libraries
pub mod Validator
pub mod Webhook
pub mod Gvk
pub mod External
pub mod Target
pub mod Watcher
pub mod Connector
pub mod Process
pub mod Intent
pub mod Tests
