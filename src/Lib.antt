-- ===== src/Lib.antt =====
-- The verification library of gardener-extension-shoot-pack, a Gardener extension that deploys packs of
-- Kubernetes resources into shoot clusters.
--
-- The parts of the program, and how they interact. A collection of packs is read from a file system and
-- verified (pkg/assets/assets.go). A shoot asks for packs by name and version in a provider config
-- (pkg/apis/config/types.go), which pkg/apis/config/validation/validation.go checks. The admission webhook
-- (pkg/admission/validator/shoot.go) refuses a shoot whose config is invalid, asks for a pack that the
-- collection lacks, or patches a pack from a secret that the shoot does not refer to. The actuator
-- (pkg/actuator/pack/actuator.go) renders each pack that is asked for with kustomize, writes it to a
-- managed resource, and deletes the managed resources of the other packs. pkg/controller/controller.go and
-- pkg/heartbeat/heartbeat.go wrap Gardener's controllers that call the actuator and renew a lease; pkg/mgr/mgr.go
-- sets up the manager that runs them. The commands of cmd/extension put these parts together: controller runs the
-- actuator, webhook serves the validator, and pack lists and dumps the packs.
--
-- The files, by the code that they model:
--   Base, Base/*          Go's strings as code points, errors as the type Result, slices, maps as
--                         association lists, and functional options.
--   Go/Strings, Go/Path   what the code uses of Go's strings, strconv and path/filepath, on ASCII white
--                         space and letters and on slashes.
--   Config                the types of pkg/apis/config; Config/Validation is Validate.
--   Config/Memory         the memory in which those structs lie: cells with addresses, by the words of a struct;
--                         Config/Layout says what they read as, Config/DeepCopy is generated.deepcopy.go.
--   Config/V1alpha1       the types of pkg/apis/config/v1alpha1, with their conversions and deep copies;
--                         Config/Scheme has what is registered with a scheme, and Install.
--   Assets                Resource, Pack and Collection, with Verify, PackExists and GetPack;
--                         Assets/Sums is SumsFromReader, Assets/New is New with WithSkipVerify.
--   Platform              Gardener, the Kubernetes client and kustomize: a record of operations that the
--                         actuator takes, and as the records Managed, Steady and Local the laws of
--                         managed resources. A cluster's state is the type Seed, which the operations take and
--                         return.
--                         Platform/Memory is a platform in memory, for the tests.
--   Actuator              Reconcile, Delete, ForceDelete, Restore and Migrate; Actuator/Render has
--                         kustomizeFilesystemForPack, secretFromResourceRef and the first part of
--                         reconcilePack; Actuator/New has New and its options; Actuator/Errors the errors.
--                         Actuator/Schedule has sequences of these calls, for many shoots, and Actuator/Overlap
--                         calls in the middle of which others change the cluster: before the first call for a
--                         managed resource, and after each. Actuator/Shuffle has a platform whose
--                         secrets list their keys in another order.
--   Admission             shootValidator with newShootValidator, Validate and what they call;
--                         Admission/Webhook is NewShootValidatorWebhook, over Gardener's library as a record.
--   Controller, Heartbeat the wrappers, with their options and SetupWithManager.
--   Mgr, Mgr/Options      pkg/mgr/mgr.go: New and its options, over the functions of controller-runtime as
--                         the record Kit.
--   Cmd/Pack              cmd/extension/pack: the commands list, files, sums, dump and init, over the record Host of
--                         the disk, the standard output and the printers; Cmd/Pack/Table has its flags.
--   Cmd/Controller        cmd/extension/controller/controller.go: getManager and runManager; Cmd/Controller/Launch
--                         has the flags that New declares.
--   Cmd/Webhook           cmd/extension/webhook/webhook.go: getManager, getExtensionWebhookOpts, runWebhookServer
--                         and the validators of the flags; Cmd/Webhook/Launch has the flags that New
--                         declares, and Cmd/Flags how a flag gets its value. Both commands take the
--                         functions of other packages as a record Env. launch and prepare stop before
--                         Manager.Start; run_manager and run_webhook_server return its error.
--   System                the two commands together: the validator of the one and the actuator of the other.
-- The proofs stand in the modules below, by what they prove; Tests modules hold runs at concrete inputs.
--
-- How the code becomes definitions. A call that returns a value and an error is a Result; a call that
-- changes the cluster takes the state and returns it with an error or none, so that what was done before
-- a failure stays visible. Loops are recursive functions on the lists that they go through, which the
-- recursion bounds, so there is no fuel but in itoa, whose fuel is one more than the number that it prints. A range over
-- a map takes the order of the association list, which is any, but for one state of a cluster always the same;
-- Actuator/Shuffle compares passes for which the order differs. A nil pointer is none. The context that the
-- code wraps around an error is left out where nothing tells such errors apart. The test for nil that
-- kustomizeFilesystemForPack repeats stands once, in reconcile_pack. SHA-256 is a parameter, the function
-- digest; a file system is a record of the functions of io/fs that are called. Logging is left out.
-- The generated methods that copy a struct are functions from what `in` points to to what `out` points to
-- afterwards, over a memory from which a read through a dangling pointer has no result; a conversion by a
-- cast leaves the words of the struct, and what they point to, where they are. Both versions have the same
-- types of cells, since the cast relies on their layouts being equal. The number of seconds of the heartbeat's
-- interval is what Go's conversion to int32 makes of it, a function to the integers.
--
-- Not modelled: how the command-line library finds the values that are given for the flags, the variable
-- that the flag kubeconfig sets, and main; RegisterDefaults, which does nothing, and Resource, which only calls
-- the library; metrics and the version; the packs, charts and scripts, which are data.
pub mod Base
pub mod Go
pub mod Config
pub mod Assets
pub mod Platform
pub mod Actuator
pub mod Admission
pub mod Heartbeat
pub mod Cmd
pub mod System
pub mod Controller
pub mod Mgr
