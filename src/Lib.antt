-- ===== src/Lib.antt =====
-- The gateway of CodeHarbor, gateway/acode-upstream/server/src. It runs on the user's computer, drives a
-- Codex app-server over its standard streams, keeps the sessions with their timelines, and serves them to
-- clients, directly or through the cloud relay; with the part of the web client, under
-- gateway/acode-upstream/app/src, that takes what they send and makes rows of it.
--
-- The parts and their files; each file opens with the source that it models:
--   Common            what JavaScript gives: truth values, arrays (Lists), Map and Set by order of insertion
--                     (JsMap), texts by code points (Text), and parsed JSON (Json).
--   TurnGate          turnGate.ts: one top-level turn at a time in each session. `acquire`, `release`.
--   SessionRunState   sessionRunState.ts: generations, by which a late run learns that it is stale.
--   Auth              auth.ts: Sessions (createSession, verifySession, revokeSession, the file), Logins
--                     (allowLoginAttempt, recordLoginFailure), Tokens (what a request carries).
--   GatewayStore      gatewayStore.ts: Types, State (sessions and their snapshot), Cache (the least recently
--                     used timelines), Timeline (events files), Events (appendEvent, listEvents, pages),
--                     Requests (reservations and ledgers), Relations (subagents, deleteSession), Startup
--                     (the constructor).
--   CodexBridge       codexBridge.ts: Messages, Ids, Policies, State, Requests (sendRequest, responses),
--                     Approvals (handleServerRequest, resolveApproval), Lines (handleStdoutChunk),
--                     Environment (processEnvWithToolPath), Histories (all steps together).
--   RelaySessionSync  relaySessionSync.ts: the listing of sessions for the relay.
--   RelayProxy        relayProxy.ts: requests that the relay passes on.
--   Threads           threads.ts: Escape, Schema and Rows (the database of Codex), Index (the listing by the
--                     session index and the pages), Rollout (metadata and timeline of a rollout file).
--   Attachments       attachments.ts: Names (sanitizeAttachmentFileName), Storage (storeAttachments).
--   Server            index.ts: State, Broadcast (broadcastGateway), Replies (replies and conversions), Turns
--                     (POST /sessions/:id/turns and the run behind it), ThreadTurns (POST
--                     /api/threads/:id/turns, withGatewayThreadStatus), Creation (POST /sessions),
--                     Interrupts, Histories (all of these in any order).
--   RelayClient       relayClient.ts: State, Enrollment (enrollDevice), Connection (connectRelay, timers and
--                     sockets), Messages (handleRelayMessage, pair codes, syncs), Histories.
--   WebClient         useCodeHarbor.ts of the app: State (cursors and gaps), Fields, SessionList, Messages
--                     (onmessage), Loads (loadSessionEvents), Histories.
--   Aggregator        aggregator.ts of the app, and types.ts: Rows (getOrCreateTurn), Approvals, Activities
--                     (subagents), Commands, Outputs (session-output), Inputs, Events
--                     (applyLiveEventToTurns), Growth.
--
-- How they interact: the server (index.ts) authenticates a request (Auth), reserves its id and asks the
-- gate for the session (GatewayStore, TurnGate), starts the turn (CodexBridge, SessionRunState) and appends
-- what the child says (GatewayStore); the relay client sends listings (RelaySessionSync, RelayProxy).
-- The web client takes the messages and loads the histories (WebClient), and makes its rows of the events
-- that it shows (Aggregator).
--
-- How state is modelled: a class or a module's variables are a record, and a method is a function from the
-- record and its arguments to the new record and the result. Time and fresh tokens are arguments. Where
-- promises, timers or the child act by themselves, each action is a step of its own, and theorems quantify
-- over rows of steps: EventCall and write_done in GatewayStore, Step in CodexBridge.Histories, in
-- Server.Histories, in RelayClient.Histories and in WebClient.Histories, Call in Auth and TurnGate. A file
-- is what it holds, and a flag says whether the disk takes a write; a name of a file made by
-- encodeURIComponent is one per session. A state setter of React takes effect at once. The identity file of
-- the relay client can always be written: writeIdentity does not throw. Numbers are natural numbers that do
-- not wrap, where the code has doubles, whose sums are exact up to 2 ^ 53; sequence numbers that are no
-- natural numbers are read as missing, where the code keeps any finite number.
--
-- Bounds and fuel: two loops run on fuel. `shrink` starts Common.JsMap.evict with the size of the map, and
-- length-shrink-le proves that this is enough; WebClient.Loads.more_pages has the 100 pages of the code.
-- Aggregator.Rows.session_id_within has the depth of four envelopes that the code has. All other
-- loops are by recursion on lists and texts.
--
-- Parameters, for what is not in the repository: the keyed hash of node:crypto, JSON.parse on the lines of
-- the child and on what the web client gets, Headers, fetch and the base64 code, the texts of the clock,
-- Date.parse and localeCompare, node:path, the NFKC form of a text.
--
-- Not modelled: the other routes of index.ts, the WebSocket of the clients and the conversion of the
-- messages of Codex (normalizeCodexEvent); in the relay client the URLs, the forwarding of gateway events and
-- the identity that is made from the machine; configuration and command line, sqlite and audit, which are
-- mostly input and output; the Go relay under cloud-relay-go; the desktop client under
-- gateway/acode-upstream/desktop; of the web client its requests through the relay, the closing of its
-- socket, its tokens and its components.
pub mod Common
pub mod TurnGate
pub mod SessionRunState
pub mod Auth
pub mod GatewayStore
pub mod CodexBridge
pub mod RelaySessionSync
pub mod RelayProxy
pub mod Threads
pub mod Attachments
pub mod Server
pub mod RelayClient
pub mod WebClient
pub mod Aggregator
