-- ===== src/Lib.antt =====
-- DevisPropre: quotes ("devis") and invoices ("factures") of French craftsmen, who send a quote by
-- a link, have it signed with a code received by mail, and keep documents that can no longer be
-- changed. This library models the logic of src/lib of the repository and the routes
-- that sign users in, sign quotes, and manage teams.
--
-- The parts:
--   Base, Text, Table: shared names, texts as lists of Unicode code points (a cut counts UTF-16
--     units as JavaScript does), and database tables as lists of rows with Prisma's queries.
--   Money: JavaScript numbers as a record of operations with no laws; a theorem that needs a law
--     names it. Sequence numbers and dates (milliseconds) are naturals.
--   Platform: the numbers, SHA-256, `toISOString` and whether the store deletes a file are parameters
--     of the model.
--   Tva: src/lib/tva.ts. Numbers: src/lib/numbers.ts, with the lines that
--     src/lib/services/devis.ts builds. Decimal: `String(n)` and `padStart`.
--   Json: `canonicalize` of src/lib/crypto.ts. Document: src/lib/issuer-snapshot.ts and
--     src/lib/document-hash.ts.
--   Audit: src/lib/audit.ts. Its transaction holds the lock of the workspace, so a call of
--     `logAudit` is one step.
--   Accounts, World: the tables of prisma/schema.prisma and the classes of errors. World/Action:
--     a service is a function from the state to a result and a state; what was written before a
--     throw stays, except in `transaction`. World/Immutability: src/lib/immutability.ts.
--   ShareToken: src/lib/share-token.ts and the lookup of src/lib/share-token-storage.ts.
--   Otp: src/lib/devis-signature-otp.ts, with the HMAC as a parameter.
--   RateLimit: src/lib/rate-limit.ts, a call as one transaction.
--   Services: src/lib/billing-status.ts, plan-limits.ts, plan-features.ts, and the keys and files
--     of object-storage.ts.
--   Devis: src/lib/services/devis.ts, one function per handler: Draft (`createDevis`,
--     `claimGuestDraftAsDevis`, `updateDevis`), Send (`sendDevis`), Sign
--     (`transitionDevisStatusFromPublic`), Status (the dashboard's decision, the check of the
--     hash, the deletion). A handler takes the clock, identifiers, tokens and files as inputs, and
--     a function `others` at each point where it waits for the outside: what other requests do
--     meanwhile. Devis/Interleaved puts whole requests there.
--   Facture: src/lib/services/facture.ts, in the same way: the payment, the check, the deletion
--     and the cancellation; Create (`createFactureFromDevis`) and Issue (`issueFacture`).
--     Facture/Interleaved puts whole requests where a handler waits.
--   World/Frozen: rows that a table keeps, which quotes and invoices share. Services/Keeps: what
--     the shared services leave alone.
--   Session: src/lib/user-session.ts, and `getSession` of src/lib/auth.ts from the payload of a
--     cookie on. Account: src/lib/services/account.ts.
--   SignIn: src/lib/magic-link.ts, src/lib/email-verification.ts, `acceptTeamInvites` of
--     src/lib/account-context.ts and the route src/app/api/auth/magic-link/verify/route.ts.
--   Stripe: src/lib/stripe-subscription.ts and stripe-webhook-handler.ts. Stripe/Webhook:
--     src/lib/stripe-webhook-idempotency.ts and the route src/app/api/stripe/webhook/route.ts.
--   ShareSlug: src/lib/share-slug.ts. Idempotency: src/lib/idempotency.ts.
--   ObjectStorage: src/lib/object-storage.ts in detail, with R2, the disk and the queue between
--     them, of which Services has the view of the other services.
--   Access: src/lib/account-context.ts, entity-access.ts, client-guard.ts and billing.ts.
--   Reminders: src/lib/services/reminders.ts.
--   Api: src/lib/api-helpers.ts and src/lib/csrf.ts, the guards that a route asks before it calls a
--     service and the status of every error. A request is its method, the headers that are read and
--     the payload of its cookie.
--   PublicDevis: the routes of src/app/api/public/devis, by which a client asks for a code and
--     decides, with src/lib/public-api-limits.ts and signature-payload.ts. They call Otp,
--     Idempotency, ShareSlug and Devis/Sign.
--   Password: src/app/api/auth/route.ts. Team: src/app/api/team/route.ts. GuestClaim:
--     src/lib/guest-draft-claim.ts and the two routes of guests' drafts, which call Devis/Draft.
--   Foreign: these routes together, for a request from another site.
--   Examples: the theorems at concrete inputs.
--
-- Loops are structural, with two exceptions on fuel. The printing of a number has the number itself
-- as fuel, which is enough as each digit divides by ten. The search for a free address has 31, for
-- the base and the thirty suffixes of growing length that a token of 64 digits gives.
--
-- Not modelled: rendering of PDF files and mails, the other HTTP routes and the pages, the encryption of
-- tokens, the signature of cookies, the pages of Stripe and statistics. Error messages
-- are left out; errors are told apart by their class.
pub mod Base
pub mod Text
pub mod Table
pub mod Money
pub mod Tva
pub mod Decimal
pub mod Numbers
pub mod Json
pub mod Platform
pub mod Audit
pub mod Accounts
pub mod World
pub mod ShareToken
pub mod Document
pub mod Services
pub mod Devis
pub mod RateLimit
pub mod Otp
pub mod Facture
pub mod Session
pub mod Stripe
pub mod SignIn
pub mod ShareSlug
pub mod Idempotency
pub mod ObjectStorage
pub mod Access
pub mod Api
pub mod PublicDevis
pub mod Foreign
pub mod GuestClaim
pub mod Password
pub mod Team
pub mod Reminders
pub mod Account
pub mod Examples
