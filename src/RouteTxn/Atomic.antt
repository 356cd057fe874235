-- ===== src/RouteTxn/Atomic.antt =====
-- tuntop/core/routes_txn.py: what a commit leaves in the table of a lawful backend.
use mathlib.Core.List.{reverse, append_assoc, append-nil}
use tun_top.Prelude.{
  ℕ, suc, ◌≡◌, All, refl, sym, ◌∙◌, ap, subst, String, Bool, true, false, not, none, some, List, [],
  ◌∷◌, ◌++◌, map, Bool-cases, inl, inr, Option-cases, length,
}
use tun_top.RouteTxn.{Route, RouteOp, Backend}
use tun_top.RouteTxn.Commit.{
  Progress, completed, stopped_at, Event, progress, aborted, undo_of, apply_one, clean_failed,
  run_ops, undo_ops, commit, finish,
}
use tun_top.RouteTxn.Wanted.{
  is_add, same, same→eq, wanted, wanted_by, Effective, wanted-nil, wanted-cons,
}
use tun_top.RouteTxn.Laws.{IsLawful, IsApart, Separate, Apart, apply_one-frame, apply_one_done}

module _ (b : Backend) (present : b.Table → Route → Bool) (canon : Route → Route)
    (near : Route → Route → Bool) (L : IsLawful b present canon near) where
  same-wanted :
      (op : RouteOp) (t : b.Table) (s : Route)
      → same canon op.route s ≡ true
      → (apply_one b op t).0 ≡ none
      → present (apply_one b op t).1 s ≡ wanted_by canon op s (present t s)
  same-wanted op t s e h =
      let moved : present (apply_one b op t).1 s ≡ is_add op.action =
        sym (L.respects (apply_one b op t).1 op.route s (same→eq canon op.route s e))
        ∙ apply_one_done b present canon near L op t h in
      rw e moved

  -- After an operation without an error each route apart from it is as the operation wants it.
  apply_one-wanted :
      (op : RouteOp) (t : b.Table) (s : Route)
      → IsApart canon near op.route s
      → (apply_one b op t).0 ≡ none
      → present (apply_one b op t).1 s ≡ wanted_by canon op s (present t s)
  apply_one-wanted op t s (inl e) h = same-wanted op t s e h
  apply_one-wanted op t s (inr n) h = elim (Bool-cases (same canon op.route s)) [
    | inl e ↦ same-wanted op t s e h
    | inr d ↦ rw d (apply_one-frame b present canon near L op s t n)
  ]

  run_ops-none :
      (i total : ℕ) (op : RouteOp) (ops applied : List RouteOp) (t : b.Table)
      → (apply_one b op t).0 ≡ none
      → run_ops b i total (op ∷ ops) applied t ≡ (
          let r = run_ops b (suc i) total ops (applied ++ op ∷ []) (apply_one b op t).1 in
          (r.0, progress i total op ∷ r.1, r.2))
  unfolding run_ops
  run_ops-none i total op ops applied t h = rw (h, run_ops)

  run_ops-some :
      (i total : ℕ) (op : RouteOp) (ops applied : List RouteOp) (t : b.Table) (e : String)
      → (apply_one b op t).0 ≡ some e
      → run_ops b i total (op ∷ ops) applied t ≡ (
        stopped_at applied op e,
        progress i total op ∷ aborted op e ∷ [],
        clean_failed b op (apply_one b op t).1,
      )
  unfolding run_ops
  run_ops-some i total op ops applied t e h = rw (h, run_ops)

  completed-wanted :
      (i total : ℕ) (ops applied done : List RouteOp) (t : b.Table) (s : Route)
      → Separate canon near ops s
      → (run_ops b i total ops applied t).0 ≡ completed done
      → present (run_ops b i total ops applied t).2 s ≡ wanted canon ops s (present t s)
  completed-wanted i total [] applied done t s k h = unfold run_ops in rw (wanted-nil canon)
  completed-wanted i total (op ∷ ops) applied done t s k h =
      elim (Option-cases (apply_one b op t).0) [
        | inl e ↦
            let t' = (apply_one b op t).1 in
            let rest =
              completed-wanted (suc i) total ops (applied ++ op ∷ []) done t' s k.1
                (rw (run_ops-none i total op ops applied t e) at h) in
            rw
              (
                run_ops-none i total op ops applied t e,
                wanted-cons canon,
                ← apply_one-wanted op t s k.0 e,
              )
              rest
        | inr (x, e) ↦ absurd (cc (run_ops-some i total op ops applied t x e))
      ]

  -- Where the loop stopped: the operations before it succeeded, from the table `before`.
  pub record Stop (ops : List RouteOp) (t : b.Table) (done : List RouteOp) (op : RouteOp)
      (end : b.Table) : Type 0 where
    pub before : b.Table
    pub error : String
    pub as_wanted :
        (s : Route)
        → Separate canon near ops s
        → present before s ≡ wanted canon done s (present t s)
    pub refused : (apply_one b op before).0 ≡ some error
    pub ended : end ≡ clean_failed b op (apply_one b op before).1
    pub apart_done : (s : Route) → Separate canon near ops s → Separate canon near done s
    pub apart : (s : Route) → Separate canon near ops s → IsApart canon near op.route s
    pub effective :
        (p : Route → Bool)
        → Apart canon near ops
        → All (λ k. present t k.route ≡ p k.route) ops
        → Effective canon ops p
        → Effective canon done p × (present before op.route ≡ not (is_add op.action))

  Stop-nil :
      (ops : List RouteOp) (t : b.Table) (op : RouteOp) (e : String)
      → (apply_one b op t).0 ≡ some e
      → Stop (op ∷ ops) t [] op (clean_failed b op (apply_one b op t).1)
  Stop-nil ops t op e p = record {
    before = t;
    error = e;
    as_wanted = λ s k. rw (wanted-nil canon);
    refused = p;
    ended = refl;
    apart_done = λ s k. tt;
    apart = λ s k. k.0;
    effective = λ q d here h. (tt, here.0 ∙ h.0);
  }

  agree-step :
      (o : RouteOp) (ops : List RouteOp) (t : b.Table) (p : Route → Bool)
      → (apply_one b o t).0 ≡ none
      → All (λ k. IsApart canon near o.route k.route) ops
      → All (λ k. present t k.route ≡ p k.route) ops
      → All (λ k. present (apply_one b o t).1 k.route ≡ wanted_by canon o k.route (p k.route)) ops
  agree-step o [] t p h d here = tt
  agree-step o (k ∷ ops) t p h d here = (
    apply_one-wanted o t k.route d.0 h ∙ ap (wanted_by canon o k.route) here.0,
    agree-step o ops t p h d.1 here.1,
  )

  Stop-cons :
      (ops : List RouteOp) (t : b.Table) (o : RouteOp) (done : List RouteOp) (op : RouteOp)
      (end : b.Table)
      → (apply_one b o t).0 ≡ none
      → Stop ops (apply_one b o t).1 done op end
      → Stop (o ∷ ops) t (o ∷ done) op end
  Stop-cons ops t o done op end p r = record {
    before = r.before;
    error = r.error;
    as_wanted = λ s k.
        r.as_wanted s k.1
        ∙ ap (wanted canon done s) (apply_one-wanted o t s k.0 p)
        ∙ sym (wanted-cons canon o done s (present t s));
    refused = r.refused;
    ended = r.ended;
    apart_done = λ s k. (k.0, r.apart_done s k.1);
    apart = λ s k. r.apart s k.1;
    effective = λ q d here h.
        let (e, f) =
          r.effective (λ s. wanted_by canon o s (q s)) d.1 (agree-step o ops t q p d.0 here.1)
            h.1 in
        ((h.0, e), f);
  }

  pub stopped-Stop :
      (i total : ℕ) (ops applied done : List RouteOp) (op : RouteOp) (e : String) (t : b.Table)
      → (run_ops b i total ops applied t).0 ≡ stopped_at done op e
      → (mine : List RouteOp) × (done ≡ applied ++ mine)
        × Stop ops t mine op (run_ops b i total ops applied t).2
  stopped-Stop i total [] applied done op e t h = unfold run_ops in absurd (cc)
  stopped-Stop i total (o ∷ ops) applied done op e t h = elim (Option-cases (apply_one b o t).0) [
    | inl p ↦
        let (mine, q, r) =
          stopped-Stop (suc i) total ops (applied ++ o ∷ []) done op e (apply_one b o t).1
            (rw (run_ops-none i total o ops applied t p) at h) in
        (
          o ∷ mine,
          q ∙ append_assoc applied (o ∷ []) mine,
          rw (run_ops-none i total o ops applied t p) (
              Stop-cons ops t o mine op
                (run_ops b (suc i) total ops (applied ++ o ∷ []) (apply_one b o t).1).2 p r),
        )
    | inr (x, p) ↦
        let same : stopped_at applied o x ≡ stopped_at done op e =
          sym (
            ap (λ (r : Progress × List Event × b.Table). r.0)
              (run_ops-some i total o ops applied t x p))
          ∙ h in
        let same_op : o ≡ op = cc same in
        (
          [],
          cc (same, append-nil applied),
          rw (run_ops-some i total o ops applied t x p) (
              subst (λ k. Stop (o ∷ ops) t [] k (clean_failed b o (apply_one b o t).1)) same_op
                (Stop-nil ops t o x p)),
        )
  ]

  undo_ops-none :
      (op : RouteOp) (ops : List RouteOp) (t : b.Table)
      → (apply_one b (undo_of op) t).0 ≡ none
      → undo_ops b (op ∷ ops) t
        ≡ (let r = undo_ops b ops (apply_one b (undo_of op) t).1 in (undo_of op ∷ r.0, r.1, r.2))
  unfolding undo_ops
  undo_ops-none op ops t h = rw (h, undo_ops)

  undo_ops-some :
      (op : RouteOp) (ops : List RouteOp) (t : b.Table) (e : String)
      → (apply_one b (undo_of op) t).0 ≡ some e
      → undo_ops b (op ∷ ops) t
        ≡ (let r = undo_ops b ops (apply_one b (undo_of op) t).1 in (r.0, (op, e) ∷ r.1, r.2))
  unfolding undo_ops
  undo_ops-some op ops t e h = rw (h, undo_ops)

  -- A rollback without errors leaves each route as the undone operations want it.
  pub undo-wanted :
      (ops : List RouteOp) (t : b.Table) (s : Route)
      → Separate canon near ops s
      → (undo_ops b ops t).1 ≡ []
      → present (undo_ops b ops t).2 s ≡ wanted canon (map undo_of ops) s (present t s)
  undo-wanted [] t s k h = unfold undo_ops in rw (wanted-nil canon)
  undo-wanted (op ∷ ops) t s k h = elim (Option-cases (apply_one b (undo_of op) t).0) [
    | inl e ↦
        let rest =
          undo-wanted ops (apply_one b (undo_of op) t).1 s k.1
            (rw (undo_ops-none op ops t e) at h) in
        rw (undo_ops-none op ops t e, wanted-cons canon, ← apply_one-wanted (undo_of op) t s k.0 e)
          rest
    | inr (x, e) ↦ absurd (cc (rw (undo_ops-some op ops t x e) at h))
  ]

  pub finish_ok :
      (r : Progress × List Event × b.Table)
      → (finish b r).0.ok ≡ true
      → (done : List RouteOp) × (r.0 ≡ completed done)
        × ((finish b r).1 ≡ r.2)
        × ((finish b r).0.applied ≡ done)
  finish_ok (completed done, events, t) h = (done, refl, refl, refl)
  finish_ok (stopped_at done op e, events, t) h = absurd (cc)

  -- On a backend that is lawful with a form of routes and a relation of near ones, a commit that
  -- reports success has brought about what its plan asks for of a route that is not near any
  -- operation's route of another form: the last operation on a route of its form decides whether
  -- it is in the table, and if the plan has none, it is as it was before.
  pub commit_ok-wanted :
      (ops : List RouteOp) (t : b.Table) (s : Route)
      → Separate canon near ops s
      → (commit b ops t).0.ok ≡ true
      → present (commit b ops t).1 s ≡ wanted canon ops s (present t s)
  unfolding commit
  commit_ok-wanted ops t s k h =
      let (done, e, same, _) = finish_ok (run_ops b 0 (length ops) ops [] t) h in
      rw same (completed-wanted 0 (length ops) ops [] done t s k e)

  pub finish_failed :
      (r : Progress × List Event × b.Table)
      → (finish b r).0.ok ≡ false
      → (done : List RouteOp) × (op : RouteOp) × (e : String) × (r.0 ≡ stopped_at done op e)
        × ((finish b r).0.failed ≡ (op, e) ∷ [])
        × ((finish b r).0.applied ≡ done)
        × ((finish b r).0.errors ≡ (undo_ops b (reverse done) r.2).1)
        × ((finish b r).1 ≡ (undo_ops b (reverse done) r.2).2)
  finish_failed (completed done, events, t) h = absurd (cc)
  finish_failed (stopped_at done op e, events, t) h = (done, op, e, refl, refl, refl, refl, refl)
