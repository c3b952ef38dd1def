-- ===== src/Lib.antt =====
-- Call Logger: a verification development beside the code of the repository.
--
-- The program has two sides. An uploader on a receiver's computer (uploader/proscan-windows) watches
-- directories, parses each recording, keeps it in a spool on disk and sends it to the server until
-- the server has accepted it. The server (backend/cmd/server) authenticates senders, limits how many
-- uploads each makes, tests the metadata, stores calls and shows them to users who have signed in.
--
-- Which file models which part:
-- - Prelude: texts as lists of bytes (Go strings), dictionaries (Go maps), lists measured by native
--   numbers, signed integers.
-- - Uploader.Model: the records of uploader/proscan-windows/model.go.
-- - Uploader.Effects: calls of the operating system. A plan gives each call an outcome: done, failed
--   with no effect, failed after a part of it, or the death of the process before it or in the middle
--   of it.
-- - Uploader.Spool: `durableSpool` of uploader/proscan-windows/spool.go. Disk and State hold the state
--   (the ledger state/processed.jsonl, the directories in pending/, the maps in memory), Methods and
--   Open the operations, Delay the back-off. Each method holds the mutex and is one step. Invariant
--   says when memory and disk agree; Changes, Growth, Ensures, Queue, Keep, Finish, Accept and Learn
--   carry it through the methods, Runs through sequences of them, Restart through a start, and Faults
--   says what interrupted writes do to it.
-- - Uploader.Mp3 and Uploader.Id3: frame headers, the duration and the tags of an MP3 file
--   (uploader/proscan-windows/proscan.go). Uploader.ProScan is the rest of that file: the metadata, the
--   times, the identifiers and the request that `parseProScanRecording` makes of a recording.
-- - Uploader.Fingerprint: `sourceFingerprint` and `recordingFingerprint` of spool.go.
-- - Uploader.Config: the tests, defaults and credentials of uploader/proscan-windows/config.go.
-- - Uploader.Client: the two requests of `Upload` (uploader/proscan-windows/client.go) on a server of
--   any state.
-- - Uploader.App: uploader/proscan-windows/app.go. Paths finds the watch of a path, Observe is what
--   scans and file events do to the observed files, Ready the pass over those that have settled, which
--   queues them in the spool, Worker a round of an upload worker from its claim to its end, Source
--   what is done with the source of a recording that the server has, and Start the clients that
--   `newUploaderApplication` makes for the watches.
-- - Server.Limits: `ingestionAllowed` and the table of failed sign-ins (`loginBlocked`,
--   `recordLoginFailure`, `clearLoginFailures`) of backend/cmd/server/main.go.
-- - Server.Login: `adminLogin` and `safeLocalReturn` of the same file.
-- - Server.Metadata: `validateMetadata`, `uniquePatches`, `contentTypeMatches`,
--   `canonicalizeIncomingCall` and the normalisation at the head of `createUpload`.
-- - Server.Ingest: `createUpload` and `recordIngestionRejection` on the table pending_uploads. What
--   other requests do to the table between its lookup and its write is a parameter. Create, Accepted
--   and Promise prove what it does to the table. Server.Ingest.Receive is `receiveAudio` with the
--   claim, the quarantine and the stored call, as one step whose calls can each fail: the renames and
--   removals of files, the statements, the commit and its answer. Settled and Handler prove what it
--   leaves behind.
-- - Server.Users: `adminCreateUser`, `adminUserAction`, `adminChangePassword` and `adminDeleteUser` behind
--   `adminOnly`, on the tables users and user_sessions. Count is about the number of administrators,
--   Administrator about the last of them.
-- - Handover: the two sides together. The responses that `createUpload` and `receiveAudio` write are what
--   `Upload` of the client decodes; Carries and Delivered say what its success stands for.
-- - Tests: the theorems at concrete inputs.
--
-- Numbers. Times are nanoseconds since Go's zero time, as natural numbers, or as integers where a
-- client chooses them; no sum here comes near the bounds of a 64-bit integer. Texts are bytes, and
-- letter case and white space are those of ASCII.
--
-- Fuel. The frame loops of `mp3Duration` and `parseID3` run on the number of bytes that are left: each
-- round takes at least four bytes, or more than ten.
--
-- Parameters. SHA-256 is a function whose digests are not empty; `verifyAPIKey` (argon2), the table
-- users and the success of `createSession` are arguments of the sign-in; `authenticate`,
-- `findDuplicate`, `tokenHash`, `validateAudioFile` and the tokens are arguments of the two upload
-- requests; `hashAPIKey`, what `adminOK` makes of a request and which calls fail are arguments of the
-- administration of users. On the side of the uploader they are time.ParseInLocation and the format of a time,
-- filepath.Abs, url.Parse, the environment, key files, what the file system holds (as a tree, or as what
-- each call finds), and the answers of the network.
--
-- Not modelled: the HTTP and SQL layers, templates, the loop that waits for events, sessions, the audit
-- log, the legacy upload route, notifications, transcription and retention; the temporary file of an
-- upload, and a record of the ledger that lacks only its newline; shell scripts and web assets.
pub mod Prelude
pub mod Uploader
pub mod Server
pub mod Handover
pub mod Tests
