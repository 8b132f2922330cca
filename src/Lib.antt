-- ===== src/Lib.antt =====
-- Verification of OpenSecDash, a security dashboard: a web application in Python that collects
-- events, lets operators act on them, and signs its users in by password or by an OIDC provider.
--
-- How the files correspond to the code:
--
-- - Prelude: the shared names; Prelude/Sums has the laws of counting the rows of a table.
-- - Database: the rows of backend/app/models/users.py and saved_views.py, and the settings that
--   `get_setting_value` and `save_setting` read and write.
-- - Preferences: backend/app/services/user_preferences.py.
-- - Auth: backend/app/services/auth.py. A function that changes the database returns the new one.
-- - Passwords: the text of stored password hashes in backend/app/services/auth.py; Passwords/Codec is
--   about hexadecimal text, Passwords/RoundTrip about a whole hash.
-- - Oidc: the stored configuration and `admin_reachability_error` of backend/app/services/oidc.py;
--   Oidc/Reachability tells what that check counts from who can sign in.
-- - OidcSettings: the handlers of backend/app/api/oidc_settings.py; OidcSettings/Sequences runs them,
--   OidcSettings/Accounts is about the users' table, and OidcSettings/Proof about the switch of
--   password sign-in.
-- - Users: the handlers of backend/app/api/users.py, as functions into the new database and the
--   redirect; Users/Requests runs them in sequence, Users/Passwords is about who has a password.
-- - Login: backend/app/api/auth.py; Login/Buckets is about guesses at an account, Login/Slots about
--   the bounded checks, whose steps interleave there, Login/SignIn about the whole sign-in.
-- - Proxy: backend/app/web/proxy_headers.py, which runs before the gate; Proxy/Addresses is about the
--   client's address, Proxy/Headers about the state of a request.
-- - Gate: `auth_gating_middleware` of backend/app/web/auth.py and the websocket's check of
--   backend/app/main.py; Gate/Origins has the origin checks, Gate/Permissions the role table of
--   backend/app/web/permissions.py, Gate/Roles and Gate/Passage what the gate lets through.
-- - Actions: backend/app/services/actions.py; Actions/Registry has what it uses of
--   backend/app/plugins/manager.py and base.py, Actions/Safety is about what a request can do.
-- - Correlation: `run_level2_tick` of backend/app/services/insight_correlation.py; Correlation/Pages is
--   about reading a sorted table by a cursor, Correlation/Cycles about one tick, Correlation/Validity
--   about the stored cycle, and Correlation/Passes, Correlation/Ticks and Correlation/Completion about
--   the ticks of a cycle together.
-- - Broadcaster: backend/app/services/event_broadcaster.py; Broadcaster/Delivery is about a poll,
--   Broadcaster/Clients about what a websocket knows.
-- - BodyLimit: backend/app/web/body_limit.py, with the streams of BodyLimit/Stream.
-- - Rollups: the counters of backend/app/services/events.py and backend/app/services/rollups.py;
--   Rollups/Counting is about one table, Rollups/Months and Rollups/Compaction about a compaction, and
--   Rollups/Ledger about arrivals, compactions and retention in any order.
-- - Insights: `record_insight` of backend/app/services/insights.py; Insights/Repetition records twice.
-- - Search: the search texts of backend/app/services/events.py; Search/Grammar is the language,
--   Search/Digits what Python reads as a number, Search/Parsing and Search/Errors are about
--   the parser, Search/Tokens about the reading of tokens, and Search/Validation all of it.
-- - Notifications: backend/app/services/notifications.py; Notifications/Queue and
--   Notifications/Arrivals queue what arrives in time, in a session that does not flush by itself,
--   Notifications/Bounds is about the length of the queue, Notifications/Delivery and
--   Notifications/Dispatch are the dispatch.
-- - Onboarding: backend/app/services/onboarding.py; Onboarding/Completion runs it
--   twice, and Onboarding/Administrator is about the account that it creates.
-- - Crowdsec: plugins/crowdsec; ProviderReview is `_record_policy_match` of services/policies.py with
--   the acknowledgement, ProviderReview/Runs the life of a ban's provider name, Asn is
--   `normalize_asn`, and Enforcements is `reconcile_enforcements_after_sync`.
--
-- Tables are lists of rows, times are numbers of seconds, and a handler is one step, since the
-- program serializes its writes; only in Login/Slots a handler has several. What the hash library and the database engine provide is the
-- record `Auth.Platform`, what `ipaddress` and `urllib` provide are `Proxy.Ip` and
-- `Gate.Origins.Wire`; the calendar is `Rollups.Calendar`; a drawn token or salt is an argument. Loops
-- are over lists, or on fuel: ten digits for `Crowdsec.Asn.decimal`, since an ASN is at most
-- 4294967295; one round for each character in `Search.read_tokens`, since each round reads one; and
-- three calls for each token in the parser of searches, since each level of it makes three.
--
-- Not modelled: HTML pages, HTTP clients, the plugin loader, log parsing and migrations.
-- The columns that a search term is compared with are left to the database.
pub mod Prelude
pub mod Database
pub mod Passwords
pub mod Preferences
pub mod Auth
pub mod Oidc
pub mod Users
pub mod Examples
pub mod OidcSettings
pub mod Crowdsec
pub mod Onboarding
pub mod Insights
pub mod Login
pub mod Notifications
pub mod Gate
pub mod Proxy
pub mod Rollups
pub mod Search
pub mod Broadcaster
pub mod BodyLimit
pub mod Correlation
pub mod Actions
