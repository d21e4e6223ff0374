-- ===== src/Lib.antt =====
-- Verification library of statuspage, a self-hosted uptime monitor with public status pages.
--
-- The part that is modelled is the incident pipeline. Probes store check results; the incident writer
-- reads the newest results of a target and opens or closes its incident; an opened incident is announced
-- to the target's notification channels and to the subscribers of its status pages, and seeds an
-- escalation state; the subscriber dispatcher works the queue of announcements off; the escalation engine
-- pages the rungs of the target's policy until the incident is acknowledged or resolved through the
-- incident endpoints. All of them meet in the storage. Beside it stands the on-call resolver.
--
-- Base holds what the components share: tests on numbers, list operations and their lemmas (Base.Lists),
-- signed integers over the native numbers (Base.Int), a stable sort (Base.Sort) and the association list
-- that stands for a `HashMap` (Base.Dict).
--
-- Domain models crates/core/src/domain, a module per subject:
-- - Domain.Time: `Uuid` is a number, 0 the nil one; `DateTime` counts nanoseconds from the earliest
--   time that chrono can represent, so every difference of times is one of natural numbers.
-- - Domain.Status: public.rs, extras.rs, result.rs, write_source.rs, the enumerations and their texts;
--   Domain.Incident.Kinds: those of incident.rs; Domain.Codes: their round trips.
-- - Domain.Incident, its children Coalesce, Downtime and Lifecycle: incident.rs.
-- - Domain.Escalation: escalation_policy.rs; Domain.Escalation.Ladder walks a policy with fuel, of which
--   one step for each rung in each round, and one more, is enough; Domain.Escalation.Order: what an
--   unsorted policy does.
-- - Domain.OnCall: on_call.rs, Slot the rotation of a layer and Resolve who is on call. The zones of the
--   chrono_tz crate are a parameter (Zone, Zones): what a zone computes between instants and wall-clock
--   times. The theorems of Handoff name what they ask of a zone.
-- - Domain.Condition: condition_dsl.rs without its parser, Glob the match on bytes and Expr the
--   evaluation. The values of serde_json and the type f64 are a parameter (Libraries). The glob loop has
--   fuel for the product of the lengths of pattern and text; each round shortens the pattern in play or
--   spends a byte that the saved star may take, so that is enough.
-- - Domain.Silence: silence.rs; Domain.Monitor: target.rs and result.rs; Domain.Maintenance:
--   maintenance.rs; Domain.Delivery: the delivery row of extras.rs; Domain.Page: status_page.rs and
--   subscriber.rs; Domain.Channel: notification_channel/mod.rs without the channels' settings; Domain.Scope: the scopes
--   of api_token.rs; Domain.Account: the roles of membership.rs and the providers of oauth.rs.
--
-- Storage models the in-memory store, crates/storage/src/memory.rs: Storage.Memory its state and
-- errors, and a module for each group of operations (Incidents, Escalation, Maintenance, Silences,
-- Results, Deliveries). Storage.Accounts has the users, the sessions and the magic links apart, and
-- Storage.Tokens the API tokens, as no other operation touches them. An operation runs under one
-- lock, so it is a function from the store to the store and its result. Storage.Incidents.Ops, Open
-- and Single hold what is shown of the incident operations.
--
-- Server models bin/status-server/src:
-- - Server.Dispatch: incident_writer/channel_dispatch.rs, up to the send, as the list of notices sent,
--   and the queueing of subscriber deliveries in incident_writer.rs.
-- - Server.Writer: incident_writer.rs, from the results of one target to the storage and the notices.
-- - Server.Background: the sweep over all targets of incident_writer.rs; each target has its own clock
--   and ids.
-- - Server.Engine: escalation_engine.rs, one sweep, as the storage and the pages sent; pages_of has the
--   pages of one sweep after the other. Quiet and Alike say which parts of the storage the sweeps read.
-- - Server.Subscribers: subscriber_dispatch.rs, a sweep over the queue of subscriber deliveries, as the
--   storage that it leaves; Message has the mail and what goes over the wire, which is a parameter
--   (Outbound), as are the instants at which a sweep reads the clock (Clock).
-- - Server.RateLimit: rate_limit.rs, the bucket of an address. The type f64 is a parameter (Floats); what
--   Burst asks of it, exactness on small whole numbers, it names (IsExact).
-- - Server.Auth: the sessions and magic links of auth/service.rs, and in Tokens its API tokens. The
--   hashes are a parameter (Hashes), as are the id and the cookie value that a login draws; a token
--   is cut by characters, as for ASCII.
-- - Server.Api: the incident endpoints of api/incident_ops.rs.
--
-- The clock, the ids that are drawn and the texts that are formatted are arguments
-- (Server.Dispatch.Surroundings); one pass reads the clock once. Machine integers: counts of checks and
-- of seconds are natural numbers, below the source's 64-bit bounds for any times that chrono represents;
-- levels, rounds and delays are signed. Messages of errors are left out, their kinds are kept.
--
-- Not modelled: the frontend, the HTTP layer, how the rate limiter finds the address of a
-- request, the probes, the notifiers' wire formats, the SQL stores, configuration and metrics,
-- which are I/O or glue; and, of the domain, the parser of conditions and the metrics rollups.
--
-- Tests runs the theorems at concrete inputs.
pub mod Base
pub mod Domain
pub mod Storage
pub mod Server
pub mod Tests
