-- ===== src/Lib.antt =====
-- UniMailbox: a mail service on a Worker with a SQLite database, a queue and an object store. This
-- library models the services of apps/worker/src/modules that carry a message from a draft to its
-- recipients, and the mailboxes they act in. Each service method is a function on one database
-- value, with what it draws (the time, fresh identifiers) as arguments; a method that throws returns
-- `err`, and a method that may write before it throws returns the database as well.
--
-- The parts, and where they are modelled:
--   Prelude    shared tests, lists, and tables as lists of rows (UPDATE, DELETE, INSERT OR IGNORE)
--   Domain     packages/contracts/src/domain and events, packages/config: enumerations, DomainError,
--              the rank of a status, the limits of runtimePolicy
--   Schema     apps/worker/src/platform/schema.ts: the rows of the tables and the database
--   Mailboxes  apps/worker/src/modules/authorization (role_allows is roleOperations, assert_operation
--              is assertMailboxOperation) and modules/mailboxes (MailboxApplicationService)
--   Schedule   apps/worker/src/modules/messages/schedule.ts: resolveScheduleInstant, toD1Timestamp;
--              Schedule/Shape has the texts of an instant with an offset, apart from the code's pattern
--   Outbound   apps/worker/src/modules/outbound-mail: the statements on a job are functions of the
--              table (claim, complete, give_up, mark_enqueued); Outbound/Load is loadProviderMessage,
--              Outbound/Process is processOutboundJob; recover is recoverExpiredOutboundLocks of
--              modules/maintenance/scheduled.ts. Outbound/Actions has every statement of the services
--              that writes a job as one step, for the interleavings of several workers, and the removal
--              of a message, which takes its job along (ON DELETE CASCADE)
--   Drafts     apps/worker/src/modules/messages/drafts.ts: the shared statements; Drafts/Calls is
--              send, Drafts/Planning is schedule and cancelSchedule. Each call is split where it yields
--              to the database: the checks (prepare_send), the batch, and what its result means
--              (send_write), so that the theorems can let another request come between. Drafts/Editing is
--              create, update and remove, with the attachments and their uploads
--   Tokens     modules/messages/cursor.ts, modules/attachments/upload-token.ts and the TokenService of
--              modules/identity/index.ts: base64url, and signed texts that carry a record
--   RateLimit  platform/rate-limit.ts: enforce is enforceRateLimit; RateLimit/Quota lets its reads of
--              the store lag behind the writes, as the comment in the source says they may
--   Identity   modules/identity/application.ts: sessions, registration and passwords; Identity/Service has
--              the calls that check a password or an invitation
--   Attachments  modules/attachments: Attachments/Md5 is the class Md5 (its RFC is
--              Attachments/Md5/Rfc), Attachments/Bodies is bodiesEqual,
--              Attachments/Catalog is registerStoredFile, storeAttachmentFile and
--              deleteAttachmentFileIfUnreferenced of file-catalog.ts, Attachments/Uploads is index.ts
--   EmailCore  packages/email-core: recipients, reply headers, signatures
--   Messages   modules/messages/index.ts: lists by pages and what a user notes about a message;
--              Messages/Send is send, with its checks (prepare_message) and its batch (message_write)
--   Administration  modules/administration/index.ts: createUser, updateUser, deleteUser and the same of
--              roles, over the tables of Identity; Administration/Deleted runs such calls one after another
--   Heartbeat  modules/maintenance/heartbeat.ts and the part of index.ts that reads it: what the scheduled
--              trigger writes at a run, and the state and alerts of the health check; the reads of a run may be
--              stale
--   Webhook    apps/worker/src/modules/provider-sync/webhook.ts: claim_event is claim, apply_status is
--              applyStatus, settle_event and fail_event are the two ends of handle; Webhook/Import is
--              findOrImport, split into its lock, its fetch and its batch, and Webhook/Handle is handle
--   Inbound    apps/worker/src/modules/inbound-mail/index.ts: refusal is the tests of receive, in their
--              order (Inbound/Refusal says apart from them what they ask), store_attachments its loop,
--              insert_received its batch, fail_receive its catch
--   Maintenance  apps/worker/src/modules/maintenance: orphan-policy.ts, and of scheduled.ts
--              cleanup_orphan_objects and cleanup_expired_uploads, by the turns of their loops
--
-- Drafts writes a job and calls Outbound's dispatch; a worker takes it from the queue, loads the message
-- and delivers it; Mailboxes decides who may; a provider reports to Webhook what became of the message.
-- A batch of statements is atomic: one function of the database, or an error that leaves it as it was.
-- Two batches of different requests may be interleaved.
--
-- Identifiers (UUIDs) are numbers: the program only compares them. Instants are milliseconds since the
-- epoch, CURRENT_TIMESTAMP is the second; a text timestamp is compared as its text is (Schema.is_due).
-- Arguments stand for what is not in the repository: the NOCASE collation, trim and toLowerCase,
-- `new Date`, JSON.parse, the digest, the cipher, the object store, the queue and the providers' HTTP
-- interfaces, and the table of constants that MD5 takes from the sine. The loops run over lists, but
-- for two. Md5.update takes a byte at least in a turn, so that the number of its bytes is fuel enough;
-- bodiesEqual reads a chunk or a byte, so that their number, with three turns more, is enough.
--
-- Not modelled: statements that fail for want of the database itself, logging, audit rows, columns that
-- nothing modelled reads, the lists that are only read, the download of attachments and the backfill of
-- their digests, the parser of inbound messages, of the administration all but users and roles,
-- the rest of the daily jobs, installation, and the user interface.
pub mod Prelude
pub mod Domain
pub mod Schema
pub mod Samples
pub mod Mailboxes
pub mod Schedule
pub mod Outbound
pub mod Drafts
pub mod Administration
pub mod Attachments
pub mod EmailCore
pub mod Heartbeat
pub mod Identity
pub mod Inbound
pub mod Maintenance
pub mod Messages
pub mod RateLimit
pub mod Tokens
pub mod Webhook
