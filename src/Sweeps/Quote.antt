-- ===== src/Sweeps/Quote.antt =====
-- tuntop/psshell.py, and the statements of tuntop/network/routeops/sweeps.py that are built with it.
use Prim.Native.Char.{code}
use tun_top.Prelude.{
  ℕ, List, [], ◌∷◌, ◌==◌, if◌then◌else◌, String, ◌<>◌, is_empty, strip, contains_code,
}

-- `out.replace(q, q + q)`
unfoldable pub doubled : ℕ → String → String
doubled q String.[] = String.[]
doubled q (String.◌∷◌ c s) =
    let rest = doubled q s in
    if code c == q then String.◌∷◌ c (String.◌∷◌ c rest) else String.◌∷◌ c rest

-- The loop over `_PS_QUOTES`, of a text.
unfoldable pub ps_quote : String → String
ps_quote s = doubled 8219 (doubled 8218 (doubled 8217 (doubled 8216 (doubled 39 s))))

-- `_lit`
unfoldable pub lit : String → String
lit s = "'" <> ps_quote s <> "'"

unfoldable pub nonblank : List String → List String
nonblank [] = []
nonblank (s ∷ ss) = let rest = nonblank ss in if is_empty (strip s) then rest else s ∷ rest

-- `" -or ".join(…)`
unfoldable pub conditions : List String → String
conditions [] = ""
conditions (a ∷ []) = "$_.InterfaceAlias -eq " <> lit a
conditions (a ∷ b ∷ as_more) =
    "$_.InterfaceAlias -eq " <> lit a <> " -or " <> conditions (b ∷ as_more)

abbrev family : String → String
family ip = if contains_code 58 ip then "IPv6" else "IPv4"

abbrev host_prefix : String → String
host_prefix ip = lit (ip <> "/" <> (if contains_code 58 ip then "128" else "32"))

abbrev host_stmt : List String → String → String
host_stmt [] ip =
    "Remove-NetRoute -DestinationPrefix "
    <> host_prefix ip
    <> " -AddressFamily "
    <> family ip
    <> " -Confirm:$false -ErrorAction SilentlyContinue | Out-Null"
host_stmt (a ∷ scope) ip =
    "Get-NetRoute -DestinationPrefix "
    <> host_prefix ip
    <> " -AddressFamily "
    <> family ip
    <> " -ErrorAction SilentlyContinue | Where-Object { "
    <> conditions (a ∷ scope)
    <> " } | Remove-NetRoute -Confirm:$false -ErrorAction SilentlyContinue | Out-Null"

unfoldable pub host_stmts_in : List String → List String → List String
host_stmts_in scope [] = []
host_stmts_in scope (ip ∷ ips) =
    let rest = host_stmts_in scope ips in
    if is_empty (strip ip) then rest else host_stmt scope (strip ip) ∷ rest

unfoldable pub host_route_stmts : List String → List String → List String
host_route_stmts ips aliases = host_stmts_in (nonblank aliases) ips
