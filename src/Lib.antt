-- ===== src/Lib.antt =====
-- tr-engine takes radio traffic from trunk-recorder instances (MQTT messages, watched files,
-- uploads and UDP audio), keeps the live state of the radio systems in memory and in PostgreSQL,
-- and serves it over HTTP, server-sent events and WebSockets. This library models the in-memory
-- core.
--
-- Common holds the shared names: Boolean tests, lists, texts as lists of bytes, decimal
-- formatting, strings.Cut, and Go maps as association lists (Common/Map).
--
-- EventBus is internal/ingest/eventbus.go with SSEEvent and EventFilter of
-- internal/api/live_data.go: subscribe (Subscribe), cleanup (the function it returns), publish
-- (Publish: build_event, push_ring, distribute and offer in that order), replay_since
-- (ReplaySince: slots, scan_after, scan_all) and matches_filter (matchesFilter). A channel is the
-- list of the events that wait in it, 64 at most; reads of a channel are steps of EventBus/Trace.
-- Clock readings and the result of json.Marshal are arguments. EventBus/Ring, Ids, Run, Replay and
-- Resume are about the replay, EventBus/Offer and Delivery about what a subscriber receives.
--
-- Affiliation is internal/ingest/affiliations.go and the switch of handleUnitEvent in
-- internal/ingest/handler_units.go; Affiliation/Transitions tells what an event does to one unit,
-- Tracking and Eviction what holds over a run. Batcher is internal/ingest/batcher.go;
-- Batcher/Steps adds the timers, their late callbacks and the flush goroutines as steps.
-- ActiveCalls is the activeCallMap of internal/ingest/pipeline.go.
--
-- Identity is internal/ingest/identity.go. The methods of database.DB that the resolver calls are
-- the fields of the record Database; Identity/Outcome tells what one Resolve does, Identity/Run
-- follows an identity over later calls, Identity/Cache has the invariant and Identity/Search the
-- lookups.
--
-- Audio is internal/audio/stream.go, encoder.go and jitter.go, and Audio/Router is
-- internal/audio/router.go: process_chunk (processChunk: resolve_identity, next_stream, emit),
-- resolve_instance_id, cleanup_idle, extract_tgid. The interface IdentityLookup is a parameter of
-- each call. Audio/Router/Dedup has the rule of two sites, Trace the sequence numbers, Invariant
-- what streams and encoders look like, Sources the learned senders and Keys the stream keys;
-- Audio/Jitter is what the jitter statistics say.
--
-- Audio/Bus is internal/audio/bus.go, where the router publishes: Audio/Bus/Calls has the two maps
-- over any calls, Audio/Bus/Delivery what a subscriber gets.
--
-- Topic is internal/ingest/router.go: parse_topic (ParseTopic) over the segments of strings.Split.
--
-- Transcribe is internal/transcribe/units.go: transmissions (ParseSrcList), find_transmission
-- (findTransmission), snap_utterance (snapUtterance) and build_segments_fallback
-- (buildSegmentsFallback); Transcribe/FullText is mapWordPositions and buildSegments,
-- Transcribe/Boundary fixBoundaryWords, Transcribe/Attribution snapUtterances and AttributeWords.
-- Its times are milliseconds. Transcribe/Units, Moves, Attributed and Whole are about the units of
-- the words, Cuts and Texts about the segments of the full text.
--
-- Workers is internal/transcribe/worker.go: the queue (Enqueue and Stop, each in the two halves
-- between which other goroutines run, and the loop of a worker) and the performance ring.
-- Workers/Pool has the interleavings as steps, Calm is about the panics, Performance about the
-- ring. The queue holds at least one job.
--
-- Audio/Simplestream is internal/audio/simplestream.go: parse_packet (parsePacket) and
-- try_parse_json (tryParseJSON) on lists of bytes. Reading or slicing out of range is an outcome
-- of its own, so Audio/Simplestream/Formats can speak of panics; Audio/Simplestream/RoundTrip has
-- the packet formats.
--
-- UnitTags is internal/unittags/extract.go, on code points, with the Unicode tables above ASCII as
-- the parameter Unicode: UnitTags/Tokens (tokenize, splitWord), Vocabulary (the sets and maps of
-- words), Designators (parseDesignatorAt, numberAt, followOK and the letter codes), Phrases (the
-- positional helpers) and Extract (Extract, DesignatorKeys, MatchesTag). A position in the tokens
-- is the rest of the tokens. UnitTags/Designators/Numbers and Bounds are about what a designator
-- takes, UnitTags/Extract/Positions and Sound about what Extract gives, Keys about the loop of
-- DesignatorKeys.
--
-- Auth is the authentication of internal/api: Auth/Requests and Auth/Middleware are middleware.go
-- with the order of server.go (api_auth, upload_token), Auth/Keys is keys.go. A middleware maps
-- handlers to handlers. jwt.ParseWithClaims and the table of API keys are parameters; that its
-- keys have one of the three roles is the CHECK of internal/database/migrations.go, and the
-- hypothesis KnownRoles. The subject of a JWT that is signed or out of range counts as the user 0
-- here; the source takes the number of strconv.Atoi.
--
-- Backfill is internal/ingest/backfill.go: Backfill/Manager (Submit, Status, Cancel, the loop's
-- steps), Backfill/Walk (processJob, enqueueCall) over the record World for the database, the
-- transcriber and the clock, Backfill/Loop the manager and its callers as steps. Backfill/Order,
-- Once and Ends are about one job, Backfill/Queue and Awake about the queue.
--
-- Storage is internal/storage: Storage/Local (safePath of local.go), Storage/Tiered (tiered.go
-- over the local disk, where a key is the file that safePath gives it, and the record S3Store for
-- the S3 client), Storage/Pruner (one pass of pruner.go), Storage/Reconciler (one pass of
-- reconciler.go). Whether a system call or a request succeeds is a parameter. Storage/Paths and
-- Inside are about safePath; Entries, Totals, Evictions and Limits about the pruner; Durable puts
-- Save, the pruner and Open together; Backed and Uploads are about the reconciler.
--
-- Numbers: ids, times and durations are natural numbers; the counters that the source wraps at 64
-- bits wrap here too, and a theorem that needs them not to wrap says so. Three functions run on
-- fuel: decimal formatting with the number itself plus one (Common/Decimal reads every number
-- back), designator_keys with the number of tokens plus one, and the walk of a backfill job with
-- any fuel; that these are enough is proved. Texts are lists of bytes; TrimSpace knows the ASCII
-- blanks only.
--
-- The backfill walk takes the time spent in waitForQueueRoom as given, so it says nothing of a
-- transcription queue that never empties.
--
-- Not modelled: log lines and metrics, the SQL behind the handlers, HTTP, MQTT, UDP and WebSocket
-- transport, which are input and output; floating point statistics; and the parts of the program
-- without a file here, such as most handlers of internal/api, the file watcher and the speech
-- providers.
pub mod Common
pub mod EventBus
pub mod Affiliation
pub mod Batcher
pub mod ActiveCalls
pub mod Identity
pub mod Audio
pub mod Topic
pub mod Transcribe
pub mod UnitTags
pub mod Auth
pub mod Backfill
pub mod Storage
pub mod Workers
