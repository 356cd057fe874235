-- ===== src/RouteTxn.antt =====
-- tuntop/core/routes_txn.py: the operations on the routing table, and the backend that makes them.
pub mod Calls
pub mod Commit
pub mod Wanted
pub mod Laws
pub mod Atomic
pub mod Rollback
pub mod Shadow
use tun_top.Prelude.{
  ℕ, ◌*◌, String, ◌<>◌, Bool, true, false, not, ◌&&◌, ◌||◌, Option, none, some, List, [], ◌∷◌, ltb,
  ◌==◌, if◌then◌else◌, or_text, is_empty, strip, contains_code, after_last, parse_int, str_eq,
}
use Calls.{Exec, pure, catch, on_type_error, ◌>>=◌}

pub data Family : Type 0 where
  v4 v6 : Family

pub data Action : Type 0 where
  add remove : Action

-- What identifies a route in a transaction.
pub record Route : Type 0 where
  pub family : Family
  pub dest : String
  pub iface : String
  pub gateway : Option String
  pub metric : ℕ

pub record RouteOp : Type 0 where
  pub action : Action
  pub route : Route
  pub open route use *

-- A row of the live table. `eff` is what `int(r.get("eff"))` gives, `none` where it raises.
pub record Row : Type 0 where
  pub iface : Option String
  pub nexthop : Option String
  pub eff : Option ℕ

-- What a delete returns: a flag, or a pair of a flag and the foreign routes that it met.
pub data Deleted : Type 0 where
  flag : Bool → Deleted
  with_foreign : Bool → List String → Deleted

-- The injected primitives over a table of the backend's own. The two optional ones may be absent
-- for a family. `delete_plain` is the delete without the metric. `lower` is `str.lower`.
pub record Backend : Type 1 where
  pub Table : Type 0
  pub lower : String → String
  pub add_route : Route → Exec Table Bool
  pub exists_route : Family → String → Exec Table Bool
  pub delete_route : Route → Exec Table Deleted
  pub delete_plain : Route → Exec Table Deleted
  pub verify_route : Family → Option (Route → Exec Table Bool)
  pub route_table : Family → Option (String → Exec Table (Option (List Row)))

-- `isinstance(res, tuple)`, then the first component
abbrev deleted : Deleted → Bool
deleted (flag b) = b
deleted (with_foreign b foreign) = b

abbrev has_plen : ℕ → Option (Bool × ℕ) → Bool
has_plen n none = false
has_plen n (some (negative, k)) = (not negative || k == 0) && k == n

abbrev plen_of : Option String → Option (Bool × ℕ)
unfolding parse_int
plen_of none = none
plen_of (some text) = parse_int text

-- `_is_host_route(dest)`
unfoldable pub is_host_route : String → Bool
unfolding plen_of after_last contains_code
is_host_route dest =
    has_plen (if contains_code b':' dest then 128 else 32) (plen_of (after_last b'/' dest))

abbrev text_or_empty : Option String → String
text_or_empty none = ""
text_or_empty (some s) = s

-- `_norm_gw(fam, gw)`
unfoldable pub norm_gw : Family → Option String → String
unfolding strip
norm_gw v4 gw = or_text (strip (text_or_empty gw)) "0.0.0.0"
norm_gw v6 gw = or_text (strip (text_or_empty gw)) "::"

-- `1 << 30`
abbrev no_metric : ℕ
no_metric = 1073741824

-- `_eff(r)`
abbrev pub eff_of : Row → ℕ
eff_of r = elim r.eff [ none ↦ no_metric | some n ↦ n ]

-- `min(rows, key=_eff)`: the first row of the least metric, from the best so far.
abbrev pub best_row : Row → List Row → Row
best_row best [] = best
best_row best (r ∷ rows) = best_row (if ltb (eff_of r) (eff_of best) then r else best) rows

module _ (b : Backend) where
  open b use {
    Table, lower, add_route, exists_route, delete_route, delete_plain, verify_route, route_table,
  }

  abbrev is_ours : Route → Row → Bool
  unfolding norm_gw
  is_ours route r =
      str_eq (lower (text_or_empty r.iface)) (lower route.iface)
      && str_eq (norm_gw route.family r.nexthop) (norm_gw route.family route.gateway)

  -- The first row that is ours
  abbrev pub find_ours : Route → List Row → Option Row
  unfolding is_ours
  find_ours route [] = none
  find_ours route (r ∷ rows) =
      let later = find_ours route rows in if is_ours route r then some r else later

  abbrev shadow_text : Row → String
  shadow_text r =
      "shadowed by better-metric route on '" <> elim r.iface [ none ↦ "None" | some s ↦ s ] <> "'"

  abbrev conflict_with : Row → List Row → Option String
  conflict_with ours [] = none
  conflict_with ours (r ∷ rows) =
      let best = best_row r rows in
      if ltb (eff_of best) (eff_of ours) then some (shadow_text best) else none

  -- The verdict of `shadow` on the rows of the prefix
  unfoldable pub conflict : Route → List Row → Option String
  unfolding find_ours
  conflict route rows = elim (find_ours route rows) [
    | none ↦ none
    | some ours ↦ conflict_with ours rows
  ]

  -- `Backend.remove(op)`
  unfoldable pub remove_op : Route → Exec Table Bool
  remove_op route = do
    res ← catch (delete_route route) (on_type_error (delete_plain route))
    pure (deleted res)

  -- `Backend.verify(op)`
  unfoldable pub verify_op : Route → Exec Table Bool
  verify_op route = elim (verify_route route.family) [
    | none ↦ exists_route route.family route.dest
    | some fn ↦ catch (fn route) (on_type_error (exists_route route.family route.dest))
  ]

  -- The verdict on what the probe returned; `rows or []`
  abbrev pub rows_conflict : Route → Option (List Row) → Option String
  rows_conflict route none = conflict route []
  rows_conflict route (some rows) = conflict route rows

  abbrev pub probe_rows :
      (String → Exec Table (Option (List Row))) → Route → Exec Table (Option String)
  probe_rows fn route =
      catch (do rows ← fn route.dest; pure (rows_conflict route rows)) (λ e. pure none)

  -- `Backend.shadow(op)`
  unfoldable pub shadow_op : Route → Exec Table (Option String)
  unfolding is_host_route conflict
  shadow_op route = elim (route_table route.family) [
    | none ↦ pure none
    | some fn ↦ if is_host_route route.dest then probe_rows fn route else pure none
  ]
