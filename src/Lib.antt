-- ===== src/Lib.antt =====
-- The widget-demo backend: examinations of a school, entered by teachers and read by families, with
-- the tenants, sessions and directory data that the service gets from its platform.
--
-- Parts, paths from the repository's root, and the files that model them:
--
--   backend/prisma/schema.prisma             School.antt (the school's tables), Tenancy.antt (tenants,
--     credentials, receipts), Table.antt (a table by its key)
--   backend/src/exams/exams.service.ts       Exams.antt (one function per method), Exams/Requests.antt
--     (the controller's requests), proofs in Exams/
--   backend/src/exams/score-entry.service.ts Scores.antt, proofs in Scores/
--   backend/src/exams/csv-import.service.ts  Csv.antt (text to cells), Imports.antt (the import),
--     proofs in Csv/ and Imports/
--   backend/src/results/ranking.ts           Ranking.antt, proofs in Ranking/
--   backend/src/results/results.service.ts   Results.antt and Results/Teacher.antt, proofs in Results/
--   backend/src/security/                    Security/ (RateLimit, Csrf, Origin, JsonType, Redaction)
--   backend/src/subscriptions/               Webhooks.antt (payloads), Subscriptions.antt (deliveries),
--     Subscriptions/Signature.antt (the headers' signature), proofs in Subscriptions/
--   backend/src/widgets/widget-refresh-session.service.ts  WidgetSessions.antt, proofs beside it
--   backend/src/integration/eduplus/oidc-verifier.ts  Claims.antt and Claims/ (App, Widget; proofs in
--     Permitted)
--   backend/src/widgets/widget-auth.service.ts  WidgetRequests.antt (bodies and headers), WidgetAuth.antt
--     (clients, contexts), WidgetAuth/Replay (exchanges by key), WidgetAuth/Authorize,
--     WidgetAuth/Refresh, WidgetAuth/Access (one module per public method), WidgetAuth/Race
--     (interleaved requests), proofs beside them
--   backend/src/widgets/widget-data.service.ts and widget-catalog.ts  WidgetData.antt, WidgetData/Item
--     and WidgetData/Batch, proofs beside them
--   backend/src/ai-center/ai-center.service.ts  Chat.antt (calls), Chat/Replies (what a reply gives),
--     proofs in Chat/Discreet
--   backend/src/directory-sync/ and backend/src/directory-sync/eduplus-directory.client.ts
--     Pages.antt (pages of the remote directory), Directory.antt (people, classes, courses),
--     SyncRuns.antt (the runs), proofs beside them
--   backend/src/auth/auth.service.ts         Sessions.antt (finding and revoking), Sessions/SignIn.antt,
--     Sessions/Refresh.antt, proofs in Sessions/
--   backend/src/integration/crypto/          Crypto.antt, an interface that the callers take
--
-- The exams give the score entry its checks, the import is a score entry behind a parser, and the
-- results read what both have stored, with the ranks of Ranking. A widget gets its token by an
-- authorization, which verifies the claims and creates a refresh session, and its data by a batch,
-- which verifies the token again and reads the results. Prelude, Texts, Sorting, Numbers, Samples
-- and WidgetSamples are what the parts share: exceptions as values, lists, JavaScript's texts and
-- sorts, its numbers as an interface, and a small school for the tests.
--
-- Choices. The database is a value of explicit tables that an action takes and gives back. Requests
-- run one after the other, each as a whole (but for WidgetAuth/Race, where they take turns at each
-- database operation); what was written before an exception stays, except in a `transaction`.
-- Identifiers, times and initialisation vectors, which the source takes from outside, are
-- arguments. A Decimal(8, 2) is its number of hundredths; JavaScript's floating-point numbers, the
-- orders of texts (`localeCompare`), JSON.parse, encryption, hashes and `fetch` are parameters,
-- with what the code relies on as hypotheses of the theorems that need it. Functions recur on their
-- lists; only the page loop of the directory runs on fuel, one for each page, since nothing but the
-- remote service bounds it.
--
-- Not modelled: the frontend, whose pages only show what the backend answers; the login URL and the
-- cookies of backend/src/auth, the HTTP calls of the handoff client, what is written to the log,
-- the demo data; configuration and the framework's wiring. Requests that interleave on one database
-- are modelled for widget authorizations under one key, and for nothing else.
pub mod Chat
pub mod Claims
pub mod Crypto
pub mod Csv
pub mod Directory
pub mod Exams
pub mod Imports
pub mod Numbers
pub mod Pages
pub mod Prelude
pub mod Ranking
pub mod Results
pub mod Samples
pub mod School
pub mod Scores
pub mod Security
pub mod Sessions
pub mod Sorting
pub mod Subscriptions
pub mod SyncRuns
pub mod Table
pub mod Tenancy
pub mod Texts
pub mod Webhooks
pub mod WidgetAuth
pub mod WidgetData
pub mod WidgetRequests
pub mod WidgetSamples
pub mod WidgetSessions
