-- ===== src/Lib.antt =====
-- KubeDNS Shepherd decides which DNS settings the pods of a Kubernetes cluster get. A user describes
-- them in a DNSClass; three parts of the program meet on that resource:
--   * the DNSClass webhook (internal/webhook/v1alpha1/dnsclass_webhook.go) fills in the policies that
--     a class leaves out and refuses a class that is not valid;
--   * the controller (internal/controller/dnsclass_controller.go) discovers the nameservers and the
--     cluster domain from a kubelet, where the class needs them, and writes the status of the class;
--   * the pod webhook (internal/webhook/pods/pods_webhook.go) selects the class of a new pod, and, if
--     it is ready, gives the pod the policy, the config and the annotation of the class.
-- The first two read the template keys of a class by `ExtractTemplateKeysRegex`
-- (api/v1alpha1/dnsclass_types.go), and the status that the controller writes is what the pod
-- webhook fills the templates of the class with.
--
-- The files:
--   * Base: strings as lists of bytes, slices that may be nil, maps, errors and panics as values.
--   * Api: the types and the constants of api/v1alpha1/dnsclass_types.go. Api/Keys is
--     `ExtractTemplateKeysRegex`; its children hold the description of a placeholder (Placeholder),
--     the search of a text (Search) and the function on a whole class (Extract). Api/Scheme is the
--     registration of api/v1alpha1/groupversion_info.go.
--   * Webhook: `Default`, `ValidateCreate`, `ValidateUpdate`, `ValidateDelete` and `validate`;
--     Webhook/Validate says what is accepted and Webhook/Defaults what the two webhooks do in a row.
--   * Templates: what is relied on of Go's `text/template`; Templates/Engine is an engine that meets
--     it, for templates of text and fields.
--   * Pods: `getDNSClass`, `parameterMap`, `configureDNSForPod`, `updateAnnotation` and `Handle`, with
--     one child for what is proved of each.
--   * Controller/Cluster: the API server, the kubelet and the libraries, as one record of operations
--     on a state of the world. Controller/Discovery is `fetchNodeProxyConfigz`, `extractField` and
--     `discoverFields`; Controller/Status is `updateStatus` and `writeStatus`; Controller/Reconcile is
--     `Reconcile` with its deferred call; Controller/Predicate is the event filter.
--   * Manager: `main` of cmd/main.go, with its flags, the options of the servers and the order of its
--     calls. Manager/Needed describes the calls that a start needs, Manager/Start is about which of them
--     are made, and Manager/Servers about what the two servers are given.
--   * Loadgen: docs/dns-demo/loadgen/main.go, a program of its own that counts the DNS messages of a
--     demo. Loadgen/Wire is `parseDNSMessage` and `decodeDNSName`; Loadgen/Tracker is `dnsTracker` with
--     the connections that call it; Loadgen/Snapshot is `snapshot`; Loadgen/Workers holds the settings
--     and the workers of `main` with their channel, from its start to the end of `workers.Wait()`, Loadgen/Dial the connections of its resolver, and Loadgen/Program the
--     rest of it.
--   * Memory: the deep copies of api/v1alpha1/zz_generated.deepcopy.go (Memory/Copies) on a memory of
--     cells, with what a value in memory stands for (Memory/Stands); of the metadata it has all that
--     is held by a pointer, a slice or a map. Memory/Configure is
--     `configureDNSForPod` with its writes through pointers, and Memory/Handled puts the two together.
--   * System: the life of one class, as a step relation on the calls of the webhooks and the controller,
--     with the controller's cache, which the stored class runs ahead of (System/Pending), and its queue,
--     which its event filter guards. System/Written says what a status stands for, System/Serving what
--     holds in every state, System/Tracked is the invariant between the stored class, the cache and the
--     queue, System/Settled says what holds once the controller is at rest, System/Quiet, System/Drain
--     and System/Rest that it comes to rest, and System/Patched what a pod then gets.
--   * Tests: the classes, pods and the in-memory cluster that the definitions are run on.
--
-- Conventions. A Go string is the list of its bytes. A slice is an option of a list, since the code
-- tells a nil slice from an empty one. A call that returns an error is a `Result`, or a pair with an
-- option where the other value matters on an error too. Code that reads through a pointer that may
-- be nil returns a `Run`, which is `panic` there. Writes through a shared pointer are written out:
-- `discoverFields` writes to the fields that the status holds. Memory has the pointers themselves: the
-- address of a cell, or nil; the array of a slice is one cell.
--
-- Fuel. The search for the matches of the regular expression runs on the length of the text, and each
-- step passes at least one byte. A number is written in decimal on fuel above the number, which each
-- step divides by ten. The 128 rounds of `decodeDNSName` are the code's own.
--
-- Parameters. The client, the decoder, `json.Marshal`, the patch, `text/template`,
-- `RetryOnConflict`, `SetStatusCondition`, the errors package, `os.Getenv`, `strconv.Atoi`,
-- `filepath.Join`, the deep copies of the Kubernetes types, the scheme and the calls of controller-
-- runtime are arguments. What is relied on of them is `TemplateEngine` with `RendersFields`, and
-- `Documented`, one of the cluster, one of the deep copies and one of the scheme; the in-memory
-- cluster of Tests/Fixtures, the engine of Templates/Engine, the copies of Tests/MemoryFixtures
-- and Tests/MetadataFixtures, and
-- the scheme of Tests/SchemeTests meet these. Of the API server System relies on the generation,
-- which changes with the spec, and on that it takes a status for no version but the latest; of the
-- controller's cache on that it takes over the versions of a class in their order, or, when the
-- controller starts, the latest; and of its queue on that it holds a name once, and gives a name to
-- one worker at a time.
--
-- Not modelled: log lines, the parsing of the flags, the strings and the creation time of the metadata
-- that the code does not read, what the registration with the manager does (`SetupWithManager`), the
-- test suites, the charts. That a watch which is lost lists the class again, and skips versions of
-- it, is left out.
mod Base
pub mod Api
pub mod Webhook
pub mod Templates
pub mod Pods
pub mod Memory
pub mod Controller
pub mod System
pub mod Manager
pub mod Loadgen
mod Tests
