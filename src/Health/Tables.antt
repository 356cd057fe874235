-- ===== src/Health/Tables.antt =====
-- tuntop/monitor/health.py: the tables of severities and of fixes, by the beginning of a probe's name.
use tun_top.Prelude.{String, List, [], ◌∷◌}

pub data Severity : Type 0 where
  critical warning info : Severity

-- `_SEVERITY`
unfoldable pub severity_table : List (String × Severity)
severity_table =
    ("windows administrator", critical)
    ∷ ("default ipv4 route", critical)
    ∷ ("tun default route", critical)
    ∷ ("wintun adapter", critical)
    ∷ ("wintun ipv4", critical)
    ∷ ("v2rayn socks", critical)
    ∷ ("proxy socks5", critical)
    ∷ ("proxy endpoint", critical)
    ∷ ("tunnel leak", critical)
    ∷ ("vless server route", critical)
    ∷ ("proxy loop", critical)
    ∷ ("no competing tun", critical)
    ∷ ("windows vpn", critical)
    ∷ ("dns configuration", critical)
    ∷ ("competing tun", critical)
    ∷ ("default ipv6 route", warning)
    ∷ ("wintun ipv6", warning)
    ∷ ("configured endpoint", warning)
    ∷ ("bypass ", warning)
    ∷ ("vpn bypass", warning)
    ∷ ("geoip", warning)
    ∷ ("default routes", warning)
    ∷ ("duplicate", warning)
    ∷ ("mtu", warning)
    ∷ ("ipv6", warning)
    ∷ ("network adapters", warning)
    ∷ ("latency", warning)
    ∷ ("ping", warning)
    ∷ ("socks", warning)
    ∷ ("windows version", info)
    ∷ ("theme", info)
    ∷ []

-- `_FIX_SUGGESTIONS`
unfoldable pub fix_suggestions : List (String × String)
fix_suggestions =
    (
      "vless server",
      "Check that your proxy client is running and the proxy server address is reachable. Try pressing [U] to change the server.",
    )
    ∷ (
      "socks",
      "Ensure your proxy client's SOCKS5 inbound is enabled on the expected port. Press [P] to change the port.",
    )
    ∷ (
      "proxy socks5 is not listening",
      "The local SOCKS5 port is closed, so the TUN has no upstream and nothing can pass through it. The tunnel, its adapter and its routes are all fine and need no restart - just start your proxy client (or un-pause it); the tunnel re-verifies itself within seconds.",
    )
    ∷ (
      "proxy endpoint",
      "The proxy's own connection to its server is being captured by the TUN, so it cannot reach it and every connection dies with it. Another VPN/TUN client is probably owning that address: disconnect it, or press [T] then [S] after it is gone.",
    )
    ∷ (
      "dns",
      "DNS resolution failed. Press [N] to switch DNS servers, or check your network connection.",
    )
    ∷ ("ipv4", "IPv4 connectivity lost. Check your network adapter and cable/Wi-Fi connection.")
    ∷ (
      "ipv6",
      "IPv6 route missing or unreachable. If your network doesn't support IPv6, this probe can be ignored.",
    )
    ∷ (
      "default route",
      "No default route through the TUN adapter. The tunnel may have dropped. Press [T] then [S] to restart.",
    )
    ∷ (
      "wintun",
      "Wintun adapter not found or not functioning. Restart the tunnel with [T] then [S].",
    )
    ∷ (
      "tun2socks",
      "tun2socks process not running. The tunnel may have crashed. Press [T] then [S] to restart.",
    )
    ∷ (
      "leak",
      "Traffic is leaking outside the tunnel. Verify your proxy's SOCKS inbound and press [R] to re-apply routes.",
    )
    ∷ ("vpn", "VPN connection issue. Press [V] to toggle VPN mode, or [Y] to configure VPN bypass.")
    ∷ (
      "latency",
      "High latency detected. The proxy server may be overloaded or your connection is slow.",
    )
    ∷ []
