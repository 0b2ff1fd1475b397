-- ===== src/Lib.antt =====
-- A model of the core logic of paperboat-tunnel, an edge server that routes HTTP requests to
-- tunnel connectors.
--
-- Parts. internal/route holds the rules that say which connector serves a host and a path, in
-- complete generations that are staged, made ready, activated and drained. internal/node holds the
-- phase of the edge node and the connectors it owns with their streams. internal/operation binds a
-- single-use credential to one decision. internal/usage counts the bytes that are reported to the
-- control plane. internal/connectorprotocol keeps the session of each connector process: the edge
-- offers configurations, the connector acknowledges them and reports when they are ready.
-- internal/datacarrier keeps the admissions by which the connectors' carriers may open streams.
-- The request handlers ask the route registry for a lease, the node's manager counts the
-- connector's stream, and the usage counters take the bytes.
--
-- Base: shared names, Go's strings as lists of bytes, Go's maps as association lists, errors as
-- results.
--
-- Go: what the program uses of the packages strings, unicode/utf8 and net, written out from their
-- documentation.
--
-- Route.Rule, Route.Request, Route.Normalize: RouteRule, normalizeMatchHost, normalizeRequestPath
-- and normalizeRule of internal/route/matcher.go, and the host predicates of
-- internal/route/route.go.
--
-- Route.Match: chooseRule and chooseHostRule. Route.Match.Order has the order of the candidates,
-- Route.Match.Choice what the choice returns.
--
-- Route.Overlap: normalizeRules with its check of each two rules. Unambiguous and Decided say what
-- the check is for.
--
-- Route.Generation: GenerationRegistry. State is the record, with a store of generations under
-- references because a lease keeps the generation that admitted it; Stage, Activate and Stream are
-- its methods; Invariant has what holds between calls, with a module per group of methods, and
-- Runs the runs of calls.
--
-- Route.Attachments: the attachments of internal/route/route.go, with Attach, Detach and Replace.
-- Inverse is about its two maps, Runs about runs of calls and revisions.
--
-- Node.State, Node.Manager: internal/node/state.go and internal/node/manager.go. Ledger and
-- Streams count streams, Drain is about the end of a drain.
--
-- Operation.Journal: internal/operation/journal.go.
--
-- Usage.Counters, Usage.Queue: internal/usage/counter.go.
--
-- Connector: internal/connectorprotocol. Error, Identity, Message, DrainMessage and Auth are the
-- messages of protocol.go with their checks, Capability the negotiation, Registry the
-- SessionRegistry of session.go. Session is ServerSession: Acknowledge, Offer, Draining and
-- Renewal have its methods, Accept makes one from a hello. Invariant has what holds between calls,
-- with a module per group of methods and the runs; Served and Activation are about the snapshot
-- that is served, Ended about closed and replaced sessions, Limits about leases.
--
-- Carrier.Admission: internal/datacarrier/admission.go. Pull and Registry have the calls of
-- ExpectedAdmissionRegistry, Stream what it answers; Fits, Acknowledged, Peer and Kept are about
-- the entries that let a carrier in.
--
-- Relay.Mtu: internal/relaypmtu/frame.go, the probes that measure the path to a relay. RoundTrip
-- is about a probe and its answer; Go.Bytes has the byte slices and encoding/binary.
--
-- Relay.Peer: internal/peerrelay/manager.go, the pairing of two endpoints of a relay. Capacity is
-- about its maxima, SingleUse about stream handles. `Attach` is modelled up to its wait; what ends
-- a relay is a further step, `finalizes` or `expires` and then `finalizes`.
--
-- Examples: runs on concrete values.
--
-- Choices. A method under a mutex is a function from the state before to the state behind and its
-- result; calls of several goroutines are sequences of such steps. ActivateGeneration and
-- ApplyGeneration end in a wait, which is a value, and what ends the wait is a further step. A
-- context is a flag that says whether it is cancelled. The emitted telemetry is a list of events.
-- A pointer that is nil is an Option. Times are nanoseconds since Go's zero time, as natural
-- numbers. Counters of 32 and 64 bits are natural numbers with the source's saturation or its wrap
-- written out; stream counts of the route registry are bounded by its maximum. All loops are
-- structural, so no fuel is needed. Where the source ranges over a map, the model takes the order
-- of the association list, or the order of the keys as an argument where the result depends on it.
--
-- Parameters. `to_ascii` is idna.Lookup.ToASCII of golang.org/x/net, `sha256` and `hex_decode`,
-- `hex_encode` stand for crypto/sha256 and encoding/hex. `docs` stands for the callees on a
-- payload: canonicalJSON, the digest and the check of its JSON; the authenticator, the source of
-- snapshots and the source of session IDs are arguments of Accept. `checks` stands for the
-- endpoint check on package net/url and for the decoding of a machine key, `is_named` for the name
-- in a certificate. `hmac` is HMAC-SHA256; the theorems about probes assume that it returns 32
-- bytes.
--
-- Not modelled: the carriers, the HTTP edge, TLS, the control plane's client and the signatures,
-- which are I/O or cryptography; the matching of attachments before the first generation in
-- internal/route/route.go; peer signaling and admission; the copies of bytes of a relay; of
-- internal/connectorprotocol, the client's side, the frames, the rotation of keys and the JSON of
-- configurations.
pub mod Base
pub mod Go
pub mod Route
pub mod Operation
pub mod Node
pub mod Usage
pub mod Relay
pub mod Connector
pub mod Carrier
pub mod Examples
