-- ===== src/Lib.antt =====
-- TunTop keeps a Windows tunnel up: a dashboard starts a helper process that routes traffic
-- through a TUN adapter, reads its output, and repairs what breaks. This library models the
-- parts of it that decide, and proves what they are meant to guarantee.
--
-- The parts and where they are modelled:
-- * State (tuntop/core/state.py): `TunnelState` and the transition table; State/Machine is
--   `TunnelStateMachine` with its history, observers and refusal counter. All other parts move
--   the tunnel through `try_transition`.
-- * Manager (tuntop/core/tunnel_manager.py): `TunnelManager`, which starts and stops the tunnel
--   with injected hooks. A hook is a function on the machine that may raise.
-- * RouteTxn (tuntop/core/routes_txn.py): `Backend` and `RouteTransaction`. RouteTxn/Calls has
--   the calls that may raise, RouteTxn/Commit the plan, `commit` and the rollback.
--   RouteTxn/Wanted is the specification: what a plan asks for, route by route. RouteTxn/Laws
--   states what the code relies on of the injected primitives: a verifier that tells which
--   routes are there, up to the form in which the backend compares them, and calls that leave
--   alone every route that is not near theirs (a delete that ignores the metric, or an add that
--   deletes first, may touch others of its prefix). A table in memory in Tests/Routes, with such
--   adds and deletes, meets it.
-- * Ledger (tuntop/network/routeops/ledger.py): `RouteLedger`, the registry of installed routes.
-- * Recovery (tuntop/core/recovery.py): `RecoveryEngine`. The methods stand in Recovery, the
--   worker in Recovery/Attempt.
-- * Markers (tuntop/core/markers.py): what a line of the helper means. Its verdicts ask for a
--   state of State and report a failure kind of Recovery.
-- * EventLog (tuntop/core/events.py): `LogRing`.
-- * Traffic (tuntop/monitor/traffic.py): `TrafficStats`.
-- * Health (tuntop/monitor/health.py): the severities, `counts` and `overall_status`, with the
--   tables in Health/Tables.
-- * Profile (tuntop/config/models.py): `Profile`, its snapshot and back.
-- * Geo (tuntop/geo/geoip.py): the protobuf reader, with the two messages. Geo/Ranges is the
--   gate on ranges, Geo/Decode the three decoders, Geo/Load the caches and `parse_geoip`,
--   Geo/Download `download_geoip`. Geo/Encode is an independent description of the wire format,
--   which the reader is proved against.
-- * Updates (tuntop/config/updates.py): versions and checksum lines. Updates/Release is the
--   guarded request and `check_latest`, Updates/Archive the checks on a downloaded archive,
--   `download_release` and `prepare_update`.
-- * Startup (tuntop/core/startup_recovery.py, tuntop/network/residue.py,
--   tuntop/procidentity.py): the session marker and the identity of a process. Startup/Residue
--   is the record of what a session left on the machine, Startup/Recover the scan, the cleaning
--   steps and `startup_recover`. The probes are functions on a state of the machine, a
--   parameter; they may raise, and some may be missing.
-- * Sweeps (tuntop/network/routeops/sweeps.py): which routes a leftover sweep deletes.
--   Sweeps/Special is the special-purpose table of tuntop/network/egress_scripts.py,
--   Sweeps/Quote the quoting of tuntop/psshell.py with the statements built on it,
--   Sweeps/Outcome the results of tuntop/network/routeops/results.py.
-- * Dns (tuntop/network/dns.py): the policy of the fallback resolver, `_dns_build_query` and
--   `_dns_parse_answers`.
-- * Integrity (tuntop/core/integrity.py): `verify_file`, `locate_wintun` and
--   `verify_for_launch`.
-- * Leak (tuntop/network/leak_probe.py, tuntop/monitor/leak.py): `_verdict` and
--   `as_check_result`.
-- Prelude has the shared names, Python's text operations, lists over native numbers and the
-- result type. Tests has concrete runs.
--
-- How the code is read. A function of the source has the name of its definition, and each
-- definition says which one it is where the names differ. A method that changes an object takes
-- the state and returns the new one, beside what it returns or raises. The locks make each
-- method, and each section of the recovery worker that holds the lock, one step; the theorems on
-- interleavings run over lists of such steps with their times. Numbers are natural numbers: a
-- time is a count of microseconds, a delay of the recovery engine a count of milliseconds with a
-- scale in thousandths, so that their product is a time. A time that was taken later is not
-- assumed to be larger, but where a theorem says so. Loops run over lists, so that no fuel is
-- needed, but for the message loops of Geo and Dns: these have as many turns as the buffer has
-- bytes, which is enough since each turn takes one, and a separate answer stands for running
-- out.
--
-- What is not modelled. An observer of the machine that calls back into it is not run: the calls
-- that are made to the observers are recorded in order, and the order of calls from several
-- threads outside the lock is left open. The texts of the log lines of the recovery engine are
-- kept as what they say, and the reason of a recovery move leaves out the attempt's number.
-- `int` reads ASCII digits. A snapshot's lists hold scalars. The read-only diagnostics
-- (`snapshot`, `__repr__`, `stats`, the formats of a log record) are left out. What Python's
-- library does with UTF-8, case, network texts, URLs and digests is a parameter in Geo, Updates
-- and Sweeps. Start-up recovery is modelled as on Windows, without its progress calls, its
-- summary texts and its default probes; files are values, and whether a write succeeds is an
-- input. The removals of Geo/Download and Updates/Archive are best effort in the code, so what
-- they leave is an input of the model. The helper, the dashboard, the route primitives, the DNS
-- guard and the sockets of the leak probe are mostly calls of Windows, the network and
-- PowerShell; they appear as parameters where a modelled part calls them.
pub mod Prelude
pub mod State
pub mod Manager
pub mod RouteTxn
pub mod Ledger
pub mod Recovery
pub mod Markers
pub mod EventLog
pub mod Traffic
pub mod Health
pub mod Profile
pub mod Geo
pub mod Updates
pub mod Startup
pub mod Sweeps
pub mod Dns
pub mod Integrity
pub mod Leak
pub mod Tests
