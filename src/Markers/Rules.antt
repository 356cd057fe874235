-- ===== src/Markers/Rules.antt =====
-- tuntop/core/markers.py: the lines of the helper that are known, and what each of them means.
use tun_top.Prelude.{String, Bool, true, false, Option, none, some, List, [], ◌∷◌}
use tun_top.State.{TunnelState, verifying, running, degraded, recovering, failed}
use tun_top.Recovery.{FailureKind, process, dns, routes, adapter, proxy}

-- `Verdict`: a field that is not given has the value that it has in `silent`.
pub record Verdict : Type 0 where
  pub target : Option TunnelState
  pub reason : String
  pub kind : Option FailureKind
  pub detail : String
  pub detail_after : String
  pub log : Bool
  pub replace : String
  pub log_raw : Bool
  pub only_from : List TunnelState

abbrev pub silent : Verdict
silent = record {
  target = none;
  reason = "";
  kind = none;
  detail = "";
  detail_after = "";
  log = true;
  replace = "";
  log_raw = false;
  only_from = [];
}

abbrev pub start_degraded : String
start_degraded = "[!] TUNNEL DEGRADED - traffic verification failed"

abbrev pub start_degraded_loop : String
start_degraded_loop = "[!] TUNNEL DEGRADED - proxy endpoint routes loop"

abbrev pub tunnel_active : String
tunnel_active = "[+] TUNNEL ACTIVE"

abbrev pub ready : String
ready = "[*] Press Ctrl+C to stop"

abbrev pub self_healing : String
self_healing = "[*] Self-healing:"

abbrev pub self_heal_ok : String
self_heal_ok = "[+] Self-heal applied."

abbrev pub adapter_gone : String
adapter_gone = "[!] Self-heal: Wintun adapter is gone"

abbrev pub self_heal_failed : String
self_heal_failed = "[!] Self-heal failed:"

abbrev pub proxy_down : String
proxy_down = "[MONITOR] proxy SOCKS5 is NOT listening"

abbrev pub proxy_up : String
proxy_up = "[MONITOR] proxy SOCKS5 is listening again"

abbrev pub tun2socks_dead : String
tun2socks_dead = "[!] tun2socks exited unexpectedly"

abbrev pub probe_failed : String
probe_failed = "[MONITOR] tunnel check failed"

abbrev pub probe_ok : String
probe_ok = "[MONITOR] tunnel OK"

abbrev pub leak_detected : String
leak_detected = "[MONITOR] LEAK DETECTED"

abbrev pub leak_ok : String
leak_ok = "[MONITOR] leak check OK"

abbrev pub v_routes_installed : Verdict
v_routes_installed = record silent {
  target = some verifying;
  reason = "routes installed";
  replace = "[*] Routes installed - verifying traffic through the TUN...";
  log_raw = true;
}

abbrev pub v_start_complete : Verdict
v_start_complete = record silent {
  target = some running;
  reason = "start sequence complete - tunnel stable";
  log = false;
  replace = "[+] START SEQUENCE COMPLETE - the TUN is READY TO USE.";
}

abbrev pub v_start_degraded : Verdict
v_start_degraded = record silent {
  target = some degraded;
  reason = "start sequence finished but traffic did not verify";
  kind = some dns;
  detail_after = "failed: ";
  detail = "tunnel installed but the first traffic probe failed";
}

abbrev pub v_start_degraded_loop : Verdict
v_start_degraded_loop = record silent {
  target = some degraded;
  reason = "proxy endpoint routes would loop through the TUN";
  kind = some routes;
  detail_after = "loop: ";
  detail = "proxy endpoint /32 bypasses are missing or pinned to a tunnel";
}

abbrev pub v_self_healing : Verdict
v_self_healing = record silent {
  target = some recovering;
  reason = "self-heal: re-applying wintun config and routes";
}

abbrev pub v_self_heal_ok : Verdict
v_self_heal_ok = record silent { target = some running; reason = "self-heal applied" }

abbrev pub v_adapter_gone : Verdict
v_adapter_gone = record silent {
  target = some failed;
  reason = "self-heal: Wintun adapter is gone";
  kind = some adapter;
  detail = "Wintun adapter is gone; cannot re-apply routes";
}

abbrev pub v_self_heal_failed : Verdict
v_self_heal_failed = record silent {
  target = some degraded;
  reason = "self-heal failed";
  kind = some routes;
  detail_after = ": ";
  detail = "self-heal could not re-apply the TUN configuration";
}

abbrev pub v_proxy_down : Verdict
v_proxy_down = record silent {
  target = some degraded;
  reason = "local SOCKS5 proxy is not listening";
  kind = some proxy;
  detail_after = " - ";
  detail = "local SOCKS5 proxy stopped accepting connections";
}

abbrev pub v_proxy_up : Verdict
v_proxy_up = record silent { reason = "local SOCKS5 proxy is listening again" }

abbrev pub v_probe_failed : Verdict
v_probe_failed = record silent {
  target = some degraded;
  reason = "monitor probe failed";
  kind = some dns;
  detail_after = "): ";
  detail = "the monitor's traffic probe failed through the TUN";
}

abbrev pub v_probe_ok : Verdict
v_probe_ok = record silent { target = some running; reason = "monitor probe OK"; log = false }

abbrev pub v_leak : Verdict
v_leak = record silent { target = some degraded; reason = "traffic leaks outside the TUN" }

abbrev pub v_leak_ok : Verdict
v_leak_ok = record silent {
  target = some running;
  reason = "leak check OK - all egress via the tunnel";
  only_from = degraded ∷ [];
}

abbrev pub v_tun2socks_dead : Verdict
v_tun2socks_dead = record silent {
  target = some failed;
  reason = "tun2socks exited";
  kind = some process;
  detail_after = "(code ";
  detail = "tun2socks exited - the TUN has no userspace forwarder";
}

-- A prefix and what a line that begins with it means
abbrev pub Rule : Type 0
Rule = String × Verdict

-- `_RULES`
unfoldable pub rules : List Rule
rules =
    (start_degraded_loop, v_start_degraded_loop)
    ∷ (start_degraded, v_start_degraded)
    ∷ (tunnel_active, v_routes_installed)
    ∷ (ready, v_start_complete)
    ∷ (self_healing, v_self_healing)
    ∷ (self_heal_ok, v_self_heal_ok)
    ∷ (adapter_gone, v_adapter_gone)
    ∷ (self_heal_failed, v_self_heal_failed)
    ∷ (proxy_down, v_proxy_down)
    ∷ (proxy_up, v_proxy_up)
    ∷ (probe_failed, v_probe_failed)
    ∷ (probe_ok, v_probe_ok)
    ∷ (leak_detected, v_leak)
    ∷ (leak_ok, v_leak_ok)
    ∷ (tun2socks_dead, v_tun2socks_dead)
    ∷ []
