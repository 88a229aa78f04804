-- ===== src/Lib.antt =====
-- A model of criteria-go-adapter-sdk, the Go SDK for adapters of the criteria host, and the theorems
-- about it.
--
-- An adapter is a process that serves the adapter protocol (package v2 of criteria-adapter-proto) to
-- the host. An author declares it as a Spec, which the SDK turns into a service; the service answers
-- Info, Execute and the lifecycle verbs, and its Permissions stream carries the host's decisions. A
-- ToolCallBridge on that stream lets a step call another adapter's tool and wait for the answer. The
-- adapter reaches the host as a plugin or by dialing out (ServeRemote), reads its secrets through a
-- view, and is checked by a conformance case that runs Execute calls concurrently.
--
-- Files and the code they model:
--   Wire         the messages of package v2, by the fields that the SDK reads or writes
--   Bridge       adapterhost/toolcall.go, ToolCallBridge: its maps, the entries that a caller and the
--                stream share (a heap, with pointers from the maps), and one function for each section
--                under the mutex; `none` is a panic, such as a channel closed twice
--   Bridge.Step, Invariant, Pointers, Safety    sequences of those sections, and what they keep
--   Bridge.View  one call's part of the bridge as an automaton, and that the sections refine it
--   Bridge.Error, Payload, Call                 ToolCallError, AdapterToolCall, buildToolCallPayload,
--                CallAdapterTool and finishToolCall; Call.* are the theorems on whole calls
--   Bridge.RequestId  newToolCallRequestID, and that its ids differ
--   Bridge.Dispatch   the Permissions loop with its deferred closeAll, over the rounds of a stream, with
--                other goroutines' sections between; its children are the theorems on it
--   Permissions  adapterhost/service.go, runUnimplementedPermissions
--   Spec         adapterhost/spec.go: the declaration; Validate and Valid are Spec.validate and what it
--                accepts, Info and Schemas deriveInfo and what it shows, Verbs, Inspected and
--                Advertised the lifecycle verbs behind adapterhost/serve.go, Execute and Bounds specService.Execute,
--                Service and Logged the other handlers and what becomes of log lines
--   Conformance  adapterhost/conformance.go: joinExecuteResultFragments (Chunks, Framed, Accepted), the
--                case itself (Run, Correlated) on its loopback connection (Loopback), and a spec's
--                results read back by it (Delivered, Truncated)
--   Secrets      adapterhost/secrets.go: Overlay is about WithStepSecrets, Env about SpawnEnv
--   Remote       adapterhost/serve_remote.go: ServeRemote, serveRemoteOnce, dialRemote, sendHandshake,
--                LoadClientTLS; Backoff is about the redial loop
--   Remote.Listener   the listener and the connection behind an attempt, as goroutines that move one at
--                a time: Safe is their invariant, Settled how they end
--   Entrypoints  adapterhost/serve.go, Serve, GRPCServer and the handlers of grpcAdapterServer that pass
--                a request on; adapterhost/spec.go, ServeSpec (Tiers, against Serve) and
--                ServeSpecRemote (Identity); adapterhost/handshake.go
--   Senders      adapterhost/serve.go, the stream wrappers with their mutex, as goroutines that move one at a
--                time: Orderly is their invariant, Delivered how they end
--   Greeter      examples/greeter/main.go, as far as its manifest and its greeting
--   Manifest     adapterhost/manifest.go: the document that --emit-manifest prints, up to its JSON; Shown
--                and Platforms are about what of a spec stands in it
--   Strict       internal/strictmanifest/strictmanifest.go: the host's manifest rules; Accepted is about
--                what they accept, Mirror and Published about which specs' manifests they accept
--   Base         shared names: tests, lists over the native numbers, maps as association lists, results,
--                int64, sort.Strings, and regular expressions with their languages (Regex)
--
-- State and concurrency. The bridge's state is passed explicitly. Goroutines are sequences of critical
-- sections in any order: a call is what it does up to its Send, any sections of the others while it sends
-- and waits, and what it does when it wakes; the Permissions loop is given what the others do while it
-- is in Recv or Send and between the steps of its closeAll. A handler is a function; its context shows as the way in which a wait ends. A
-- stream is the list of its rounds, so a list that ends means a stream that stays silent, and the
-- redial loop is given the outcomes of its attempts. Goroutines around one listener, and those that
-- send on one stream, are step relations instead (Step, Run), one move for each section under a mutex
-- and for each wait; any goroutine that can move may move next.
--
-- Fuel. Every loop of the model recurs on a list or on a number. The one bound is that of
-- `Bridge.RequestId.format_uint`, 20 digits, which is enough for a uint64 since 2 ^ 64 < 10 ^ 20.
--
-- Integers. Natural numbers are unbounded where the code only counts; the wrap-around is written out for
-- uint32 fragment counts (% 2 ^ 32) and for int64 durations (`Base.Int.int64`), and the theorems name
-- the bounds under which it does not show.
--
-- Parameters. Code outside the repository comes as arguments: JSON and structpb encodings, digests and
-- the chunk framer of package v2, reading files, dialing and writing, gRPC. `Bridge.Payload.Codec` and
-- `Spec.Execute.Framing` collect such functions, and `Conformance.Delivered.IsLawful` states what
-- package v2 documents of its framer.
--
-- Not modelled: a log line's time stamp, when heartbeats fall due, and the wrapper of the Permissions
-- stream, which only passes its calls on. Error values keep what their texts show, and not the text.
pub mod Base
pub mod Wire
pub mod Permissions
pub mod Bridge
pub mod Spec
pub mod Conformance
pub mod Secrets
pub mod Remote
pub mod Manifest
pub mod Strict
pub mod Entrypoints
pub mod Senders
pub mod Greeter
