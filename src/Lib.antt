-- ===== src/Lib.antt =====
-- The application controller: a Kubernetes operator that turns an Application into the objects
-- that run it, and keeps its container image up to date.
--
-- The parts, the files that model them, and how they meet:
--
-- Errors.antt, Kube.antt, Api.antt, Gkutil.antt: Go's error values and errors.Is, the Kubernetes
-- objects with the fields that the controllers name, the Application of
-- api/v1alpha1/application_types.go, and internal/gkutil/gk.go.
--
-- Images/: internal/images. Cache.antt is the locked map of cache.go, one step for each method.
-- Finder.antt is imagefinder.go: FindImage and its two strategies, over any registry
-- (RegistryClient) and any semver library (SemverLibrary). Registry.antt is registryclient.go with
-- its calls of the registry library and the counter of internal/metrics, the conversions of
-- imageref.go, which panic, the lister, and CurrentNamespace of internal/k8s. Wiring.antt has the
-- constructors and the webhook handler. Scheduler.antt and Watcher.antt are cronwatcher.go:
-- cronScheduler with its job table and the calls that it has made to gocron, and cronImageWatcher
-- with its image cache, its scheduler and its channel. A case of the select statement of
-- WatchForNewImages, a gocron job that runs, a webhook call, and a lookup by the controller is one
-- event; `run` takes any sequence of them. The goroutines that onImageUpdated starts run in the
-- order of the list that it is given. FindImage of the watcher is one step, although the source
-- lets go of the cache between the read, the fetch and the write.
--
-- Controller/: internal/controller. Names.antt is names.go, Ports.antt the port reconciliation of
-- deployment.go and service.go, Mutators/ the Mutate function of each kind of object (Pods.antt
-- holds what deployment.go and cronjob.go share; Hostname.antt is HostnameRegex with Go's matching
-- by derivatives), Ownership.antt isObjectOwnedBy and the owner indexes, Resource.antt
-- reconcileResource with ensureResource and ensureNoResource, Reconciler.antt with Owned.antt and
-- Bindings.antt the stages, and Reconcile.antt Reconcile itself.
--
-- Discovery.antt: prometheussupport.go and traefiksupport.go of internal/k8s, over any answers of
-- the discovery client.
--
-- Flags.antt: the flag values of internal/flag. Main.antt: cmd/main.go, from the command line
-- (Options) to the exit of the manager, over any answers of the libraries; every failure before
-- the goroutines start is an exit. Controller/Setup.antt is SetupWithManager, which main calls.
--
-- Operator.antt: what main puts together. The reconciler asks the watcher for images; the
-- watcher's events and the Reconciles, each with its own answers of the API server and of the
-- registry, happen in any order, and further events fall between the lookups of a Reconcile.
--
-- State.antt is what the stages of Controller/ work on. A method takes the calls made so far and
-- the state of the image finder, and returns a result or an error with the calls and the state
-- after it; what it did before an error stays done. The API server is a record of functions from
-- the calls so far to answers (Client), so it may answer anything at any time, conflicts and
-- changes by others included. CreateOrPatch is its documented sequence: read, mutate, write. The
-- functions of controller-runtime, apimachinery, operator-lib and Kubernetes are a record, too
-- (Library), and what the code relies on of them is stated where a theorem needs it (IsLawful of
-- Ownership/Agreement.antt, IsSteady of Controller/Cluster/Services.antt, KeepsImages of
-- Operator/Images.antt, IsOrder of Images/Finder/Sorting.antt).
--
-- Controller/Cluster.antt has what a cluster holds after the calls and, in Serves, what a
-- statement on a second reconciliation asks of the API server: nobody else writes to it, a read
-- finds what the calls have left, and each write is accepted as it is. No other statement asks
-- this.
--
-- A pointer that a mutate function writes through is an argument and a result. An object is passed
-- to one call at a time, so no aliasing is lost. Loops are structural recursion: there is no fuel.
-- The range over a map of names, and that over the jobs that KeepJobs discards, take the order as
-- a parameter; it meets each entry of the names once (Reconciler). Port numbers are only copied,
-- so they are natural numbers. Values that the source only copies are kept as text. The panic on a
-- Deployment without a container that comes back from the API server is an outcome of Reconcile.
--
-- Not modelled: the generated code, the registry of internal/testutil, the HTTP server around the
-- webhook handler, log lines, the scheme, and the texts of events, of which the type and the
-- reason are kept. cmd/main.go makes both discovery calls; they get the same answers in the model.
--
-- Examples/ holds test data and an instance of each theorem that has hypotheses.
pub mod Common
pub mod Errors
pub mod Kube
pub mod Api
pub mod Gkutil
pub mod Images
pub mod Controller
pub mod Discovery
pub mod Flags
pub mod Main
pub mod Operator
pub mod Examples
