-- ===== src/Lib.antt =====
-- Marauder watches topics on torrent trackers, and hands new releases to download clients. This
-- library models the core of its backend (Go): how a check is scheduled, and what happens to the files
-- of an update once its torrent is in a client.
--
-- The parts and their files:
--
--   Torrentmeta (backend/internal/torrentmeta). Decode has the decoder of bencode.go and what
--   torrentmeta.go and root.go read of a decoded torrent (`Files`, `RootName`). Skip has `SkipSet`.
--   Layout has `MapClientFiles`, which pairs a client's file list with the torrent's, `SkipIndices`
--   and `ClientRoot`; its children prove what a pairing is.
--   Infohash (backend/internal/infohash). The scanner that finds the raw bytes of the info dictionary,
--   and `FromTorrent`, `FromMagnet`, `FromPayload`. Bencode has the values of the format and their
--   encoding, which the code has no function for.
--   Scheduler (backend/internal/scheduler). Backoff has `backoffDelay`. Spacing has the spacer of
--   spacing.go, with the lanes and one goroutine's wait for its turn. Dispatch has `dispatchOnce` and
--   the workers, as steps of one machine. Delivery has update_policy.go and folder_name.go: Plan and
--   Naming, by FolderName, decide before the torrent is added, Selection, Folder and Finish make the calls behind it.
--   Replace removes the version before, with backend/internal/clientremove. Classify has the codes of
--   failed checks (`classifyCause`, `isTransientError`). Check has one check: Send hands a payload to a
--   client, Drain is `downloadAllPending`, Notices has the notices and `recordResult`, Run is
--   `runCheck`. History has the summaries of the runs.
--   Domains (backend/internal/domains). Each tracker's domains, and their rotation after failures;
--   Persist interleaves the writes of rotations and of admin updates.
--   Topics (backend/internal/topics). The checks on the settings that the deliveries rely on; Create has
--   create.go: `SafeImageURL`, `CanonicalTopicURL`, the metadata, and in Build `BuildAndCreate`.
--   Credentials (backend/internal/trackercreds/session.go). Fingerprint has the bytes that identify a
--   credential, Session the slot of one tracker and one user with `EnsureSession` and `Establish`.
--   Live (backend/internal/sse). Tickets has the one-time tickets of ticket.go, and Hub
--   the fan-out of hub.go, as steps of the goroutines between their locks.
--   Events (backend/internal/events and backend/internal/notify). The policy of each event type, `Emit`,
--   and the dispatcher. Progress (backend/internal/progress/watcher.go) has the watcher of downloads.
--   Trackers/Lostfilm (backend/internal/plugins/trackers/lostfilm). The episodes of a page and `Check`, by
--   the maps of Extra (backend/internal/extra/extra.go).
--   Redaction (backend/internal/pageredact/edits.go). How the edits of a page are merged and written.
--   Sonarr (backend/internal/sonarr/poller.go). The batch of grabs, in Existing the update of a topic that
--   is there, in Poll the poll of one instance, which creates topics with Topics.Create.
--   Domain has the shared records of backend/internal/domain, Prelude the lists, texts, integers and
--   decimal numbers that all files use, Examples the runs at concrete inputs.
--
-- How they interact: a delivery (Delivery) reads the torrent with Torrentmeta and Infohash, pairs the
-- client's list with it, and skips the files that the version before it had. The calls to the client
-- and the database are a trace, the newest call first, and a record of answers (`Answers`) says what
-- comes back; it is any function of the trace, so a theorem over all records holds for each behaviour
-- of a client, failures and delays included. A check (Check) is told in the same way: its calls are a
-- list, the newest first, and `World` has what the tracker, the database and the clients answer.
--
-- How the code is written here: a text or a byte slice is a list of codes; an int64 is an integer, and
-- where its sum can leave the range `wrap64` is written out; an error is a constructor without the
-- text it prints; a nil pointer is `none`; a map is a function or a list of pairs in the order of
-- insertion. The scanner and the decoder run on fuel of twice the length of the data and two, more
-- than the values and containers they can pass. A wait of the scheduler polls as often as `polls` says
-- that its deadline allows.
--
-- Parameters: what the code calls of Go's packages (`Packages` and `Strings`: sha1, hex, base32, url,
-- strings, unicode), the clock, the database and the plugins. Hypotheses bound a payload by the range
-- of an int64 where lengths are added.
--
-- Not modelled: the tracker plugins but for the episodes of LostFilm, the client and notifier plugins
-- (HTTP and HTML), the API server and the
-- database (SQL), the web frontend, metrics and logs. Of the scheduler, the release author's
-- comment is left out; so are `Warm` of trackercreds, the ticks of
-- the Sonarr poller and the detectors of pageredact.
pub mod Prelude
pub mod Domain
pub mod Torrentmeta
pub mod Infohash
pub mod Bencode
pub mod Scheduler
pub mod Domains
pub mod Topics
pub mod Credentials
pub mod Live
pub mod Redaction
pub mod Sonarr
pub mod Extra
pub mod Events
pub mod Progress
pub mod Trackers
pub mod Examples
