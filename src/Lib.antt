-- ===== src/Lib.antt =====
-- Simple Host Enterprise: a server that hosts the static sites of a company's people.
--
-- The program is one Go binary (cmd/server) over Postgres and an object store. People publish
-- sites as archives; a site has an access level, saved data and storage of its own; owners,
-- administrators, API keys and the pages of a site act on it, and what they do is recorded. This
-- library models the parts that decide who may do what and the parts that keep the data safe, as
-- functions on explicit states, and proves what makes them correct.
--
-- The parts and their modules:
--
-- * Policy is internal/storagepolicy/policy.go, the access model of a site's storage. Policy has
--   the who values, the matrices and Check; Policy.Presets has the presets, Name and Resolve;
--   Policy.Decide has Decide. Policy.Rules, Policy.Resolving and Policy.Deciding prove what they
--   promise. A value is a constructor, with `unset` for the empty text and `other` for a text that
--   is none of the five; the errors keep their codes and lose their hints.
--
-- * Access is internal/db/site_access.go with the revoke case of internal/handler/access.go: who
--   can open a site. A Site is the site's row with its approvals, and each function is one
--   transaction on the locked row: SetSiteAccess is set_site_access, ApproveNetworkAccess is
--   approve_network_access, and so on. Access.Operations runs them in any order; Access.Handlers
--   is the three handlers of internal/handler/access.go that call them, each with its audit events
--   and with what the database may refuse. Errors are values, and a transaction that fails changes
--   nothing.
--
-- * SavedState is the history of a site's saved data in internal/db/site_access.go.
--
-- * Scope is internal/auth/scope.go: which API keys may call a route. Scope.Routes is the whole
--   table routeKeyAccess, split over its children in the order of the source.
--
-- * Audit is internal/audit: canonical.go (Audit.Numeric, Audit.Json, Audit.Canonical) and
--   chain.go (Audit.Chain) with the trigger of internal/migrate/sql/0036. The tables are lists in
--   the order of their numbers. The digest is a parameter: it is the standard library's SHA-256,
--   of which only its length of 32 bytes is used, in Audit.Evidence.
--
-- * SafePath is internal/safepath/safepath.go, with the standard library's checks of UTF-8 and
--   its path.Clean written out. Archive calls it for every entry.
--
-- * Archive is internal/tarball/extract.go: the path tracker (Archive.Tracker), one entry
--   (Archive.Entry) and the loops of both formats (Archive.Extract). The readers of the standard
--   library are a list of entries with what reading each one gives, failures included.
--
-- * Storage is internal/storage: budget.go (Storage.Budget), cache.go (Storage.Cache), and the
--   keys of objects of keys.go with parseStoreKey of reencrypt.go (Storage.Keys). What callers do
--   concurrently is a step relation whose steps are the sections under the mutex (Storage.Waiting,
--   Storage.Leases).
--
-- * Accounts is who is signed in. Accounts has the tables and the sessions of
--   internal/db/sessions.go; Accounts.Handoff the codes of handoff.go; Accounts.Credentials the
--   API keys of api_keys.go, the token lookup of oauth.go and SetUserDisabledTx of identity.go;
--   Accounts.Cookie the signed cookies of internal/auth/session_cookie.go and VerifyHostedSession
--   of hostsession.go, over Accounts.Base64, the standard library's encoding; Accounts.Middleware
--   the order of internal/auth/middleware.go. A statement of SQL is a function on the tables,
--   which are maps from the primary key; the ids that the database draws are arguments. HMAC,
--   SHA-256 and the JSON of a cookie's payload are parameters, used by length and round trip. Host
--   names are ASCII. Accounts.SignedOut and Accounts.Spent run the operations in any order.
--
-- * Idempotency is internal/db/idempotency.go: claiming and completing a create request's key;
--   Idempotency.Handler is replayCreate of internal/handler/idempotency.go, whose wait has fuel
--   600, the polls of 50 milliseconds in the 30 seconds of its deadline. Its table lock makes the
--   transactions follow one another.
--
-- * Quota is internal/db/quota.go and internal/handler/upload_limits.go, and Quota.Deploy is the
--   part of updateSiteForTarget in internal/handler/site.go that writes their tables. The owner's
--   lock makes the checks follow one another.
--
-- * Hosts is internal/handler/host.go: the labels of owners and sites, in Hosts.Normal the
--   normal form of a host, and in Hosts.Model the class of a request's host and the hosts and
--   addresses that are handed out. Lower case and trimming of texts that are not ASCII, the test
--   for an IP literal and SHA-256 are parameters.
--
-- * Common holds what the parts share: the tests on numbers and texts, lists, results, maps as
--   association lists, and the lemmas on them.
--
-- Numbers are natural numbers. The 64-bit integers of these parts hold sizes, counts, times and
-- serial numbers that are never negative and far below their range; the source subtracts only what
-- it added before. Fuel: the UTF-8 check takes one unit for each byte and starts with their
-- number; the loop of evictLocked takes an entry away in each round and starts with the number of
-- entries; the digits of a number take one unit each and start with the number itself
-- (Storage.Keys).
--
-- Not modelled: errors of the database and of the network, the texts of messages and pages, and
-- the parts of the server outside the files named above (the host gate, search, the connector,
-- sign-in with a provider, teams, rate limits, the objects in the bucket).
pub mod Common
pub mod Access
pub mod Accounts
pub mod Archive
pub mod Audit
pub mod Hosts
pub mod Idempotency
pub mod Policy
pub mod Quota
pub mod SafePath
pub mod SavedState
pub mod Scope
pub mod Storage
