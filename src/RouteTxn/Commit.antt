-- ===== src/RouteTxn/Commit.antt =====
-- tuntop/core/routes_txn.py: `RouteTransaction`, its plan, `commit` and the rollback.
use mathlib.Core.List.{reverse}
use tun_top.Prelude.{
  ℕ, suc, String, ◌<>◌, Bool, true, false, not, Option, none, some, List, [], ◌∷◌, ◌++◌, length,
  if◌then◌else◌,
}
use tun_top.Prelude.Results.{Result}
use tun_top.RouteTxn.{
  Family, Action, add, remove, Route, RouteOp, Backend, remove_op, verify_op, shadow_op,
}
use tun_top.RouteTxn.Calls.{Exec, Failure, failure_text, pure, ◌>>=◌}

-- `add_v4`, `add_v6` and `remove_v4`: one more planned operation. A transaction is its plan.
unfoldable pub plan :
    Action → Family → String → String → Option String → ℕ → List RouteOp → List RouteOp
plan action family dest iface gateway metric ops =
    ops
    ++ record {
      action = action;
      route = record {
        family = family;
        dest = dest;
        iface = iface;
        gateway = gateway;
        metric = metric;
      };
    }
      ∷ []

-- What a run reports to the outside: the calls of `progress(done, total, op)`, and the log lines.
pub data Event : Type 0 where
  progress : ℕ → ℕ → RouteOp → Event
  aborted : RouteOp → String → Event
  not_undone : RouteOp → String → Event

pub record RouteResult : Type 0 where
  pub ok : Bool
  pub applied : List RouteOp
  pub failed : List (RouteOp × String)
  pub rolled_back : List RouteOp
  pub errors : List (RouteOp × String)
  pub events : List Event

abbrev pub rename_conflict : Option String → Option String
rename_conflict none = none
rename_conflict (some text) = some ("route add verified but " <> text)

abbrev pub opposite : Action → Action
opposite add = remove
opposite remove = add

-- The operation that undoes another one
abbrev pub undo_of : RouteOp → RouteOp
undo_of op = record op { action = opposite op.action }

-- How the loop over the plan ended
pub data Progress : Type 0 where
  completed : List RouteOp → Progress
  stopped_at : List RouteOp → RouteOp → String → Progress

module _ (b : Backend) where
  open b use {Table, add_route}

  -- The `try` body of `_apply_one` for an add, from its end
  abbrev pub after_verify : Route → Bool → Exec Table (Option String)
  after_verify route present =
      if not present
      then pure (some "route add claimed success but the exact route is not in the table")
      else do conflict ← shadow_op b route; pure (rename_conflict conflict)

  abbrev pub after_add : Route → Bool → Exec Table (Option String)
  after_add route added =
      if not added
      then pure (some "route add reported failure")
      else do present ← verify_op b route; after_verify route present

  abbrev apply_add : Route → Exec Table (Option String)
  apply_add route = do added ← add_route route; after_add route added

  -- The `try` body of `_apply_one` for a remove, from its end
  abbrev pub check_removed : Route → Exec Table (Option String)
  check_removed route = do
    present ← verify_op b route
    pure (
        if present
        then some "route delete claimed success but our exact route is still in the table"
        else none)

  abbrev pub after_failure : Route → Bool → Exec Table (Option String)
  after_failure route present =
      if present then pure (some "route delete reported failure") else check_removed route

  abbrev pub after_remove : Route → Bool → Exec Table (Option String)
  after_remove route removed =
      if removed
      then check_removed route
      else do present ← verify_op b route; after_failure route present

  abbrev apply_remove : Route → Exec Table (Option String)
  apply_remove route = do removed ← remove_op b route; after_remove route removed

  abbrev pub apply_action : Action → Route → Exec Table (Option String)
  apply_action add route = apply_add route
  apply_action remove route = apply_remove route

  abbrev pub value_of : Result Failure (Option String) → Option String
  value_of (Result.ok error) = error
  value_of (Result.err e) = some (failure_text e)

  -- `_apply_one(op)`: the error, if there is one, and the table
  unfoldable pub apply_one : RouteOp → Table → Option String × Table
  apply_one op t = let (r, t') = apply_action op.action op.route t in (value_of r, t')

  -- A failed add that is in the table after all is removed; errors of this are dropped.
  abbrev pub remove_present : Route → Exec Table Bool
  remove_present route = do
    present ← verify_op b route
    if present then remove_op b route else pure false

  unfoldable pub clean_failed : RouteOp → Table → Table
  clean_failed op t = elim op.action [ add ↦ (remove_present op.route t).1 | remove ↦ t ]

  -- The loop of `commit` over the operations from number `i` of `total` on
  unfoldable pub run_ops :
      ℕ → ℕ → List RouteOp → List RouteOp → Table → Progress × List Event × Table
  run_ops i total [] applied t = (completed applied, [], t)
  run_ops i total (op ∷ ops) applied t =
      let (error, t') = apply_one op t in
      let (end, events, t'') = run_ops (suc i) total ops (applied ++ op ∷ []) t' in
      elim error [
        | none ↦ (end, progress i total op ∷ events, t'')
        | some e ↦
            (stopped_at applied op e, progress i total op ∷ aborted op e ∷ [], clean_failed op t')
      ]

  -- `_rollback`, over the applied operations in reverse: what was undone, and what was not
  unfoldable pub undo_ops : List RouteOp → Table → List RouteOp × List (RouteOp × String) × Table
  undo_ops [] t = ([], [], t)
  undo_ops (op ∷ ops) t =
      let (error, t') = apply_one (undo_of op) t in
      let (undone, errors, t'') = undo_ops ops t' in
      elim error [
        | none ↦ (undo_of op ∷ undone, errors, t'')
        | some e ↦ (undone, (op, e) ∷ errors, t'')
      ]

  abbrev report_errors : List (RouteOp × String) → List Event
  report_errors [] = []
  report_errors ((op, e) ∷ errors) = not_undone op e ∷ report_errors errors

  abbrev pub finish : Progress × List Event × Table → RouteResult × Table
  finish (completed applied, events, t) = (
    record {
      ok = true;
      applied = applied;
      failed = [];
      rolled_back = [];
      errors = [];
      events = events;
    },
    t,
  )
  finish (stopped_at applied op e, events, t) =
      let (undone, errors, t') = undo_ops (reverse applied) t in
      (
        record {
          ok = false;
          applied = applied;
          failed = (op, e) ∷ [];
          rolled_back = undone;
          errors = errors;
          events = events ++ report_errors errors;
        },
        t',
      )

  -- `commit(progress)`
  unfoldable pub commit : List RouteOp → Table → RouteResult × Table
  unfolding run_ops undo_ops
  commit ops t = finish (run_ops 0 (length ops) ops [] t)
