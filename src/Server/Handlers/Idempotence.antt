-- ===== src/Server/Handlers/Idempotence.antt =====
-- A second `tasks/cancel`, as in the test `cancel_twice_is_idempotent` of tests/stateless.rs.
use longhaul.Base.{
  String, ◌≡◌, refl, sym, ap, ◌∙◌, inl, inr, none, some, List, eq_iff, eq_refl, ◌==◌, Bool-cases,
  Option-cases, Result, ok, err,
}
use longhaul.Base.Dict.{Dict}
use longhaul.Core.Tasks
use longhaul.Core.Tasks.{Task, method_cancel, CancelTaskParams, is_terminal}
use longhaul.Core.Tasks.Lifecycle.{cancel_lem}
use longhaul.Core.Jsonrpc.{Request, Response, params_as}
use longhaul.Server.Store.{SqliteError, StoreError}
use longhaul.Server.Store.Contract.{View, Meets, Implements, IsFault, spec_cancel}
use longhaul.Server.Registry.{ToolEntry}
use longhaul.Server.Handlers.{ServerState, Wire, dispatch}
use longhaul.Server.Handlers.Effects.{answered_state}
use longhaul.Server.Handlers.TaskCalls.{answered, dispatch-cancel}

cancel_of_cancelled : (t : Task) → (Tasks.cancel (Tasks.cancel t).1).1 ≡ (Tasks.cancel t).1
cancel_of_cancelled t = let (_, _, again) = cancel_lem t in ap (λ r. r.1) again

-- The map that a cancellation leaves is cancelled to itself, with the same answer.
spec_cancel_twice :
    (id : String) (v v' : View)
    → ((k : String) → v' k ≡ (spec_cancel id v).1 k)
    → ((spec_cancel id v').0 ≡ (spec_cancel id v).0)
      × ((k : String) → (spec_cancel id v').1 k ≡ v' k)
spec_cancel_twice id v v' same = elim (Option-cases (v id)) [
  | inl gone ↦
      let here : v' id ≡ none = (rw gone at (same id)) ∙ gone in rw (here, gone) (refl, λ k. refl)
  | inr (t, found) ↦
      let t' = (Tasks.cancel t).1 in
      let here : v' id ≡ some t' = (rw (found, eq_refl id) at (same id)) in
      rw (here, found, cancel_of_cancelled t)
        (
          refl,
          λ k. elim (Bool-cases (id == k)) [
            | inl q ↦ rw q (sym here ∙ ap v' ((eq_iff id k).0 q))
            | inr q ↦ rw q refl
          ],
        )
]

module _ {W : Type 0} (wire : Wire) (show : SqliteError → String)
    (iterate : Dict (ToolEntry W) → List (ToolEntry W)) (state : ServerState W) (view : W → View)
    (keep : Task → Task) (impl : Implements view state.store keep) where
  -- what a store that has not faulted has done
  Meets-fine :
      (w : W) (r : Result Task StoreError × W) (spec : Result Task StoreError × View)
      → Meets view w r spec
      → ¬ (IsFault r.0)
      → (r.0 ≡ spec.0) × ((k : String) → view r.1 k ≡ spec.1 k)
  Meets-fine w r spec (inl met) _ = met
  Meets-fine w r spec (inr (f, _)) fine = absurd (fine f)

  -- the response does not depend on the world
  response_alike :
      (req : Request) (x : Result Task StoreError) (w w' : W)
      → (answered wire show iterate state req (x, w)).0
        ≡ (answered wire show iterate state req (x, w')).0
  response_alike req (ok t) w w' = refl
  response_alike req (err e) w w' = refl

  answered_alike :
      (req : Request) (r r' : Result Task StoreError × W)
      → r.0 ≡ r'.0
      → (answered wire show iterate state req r).0 ≡ (answered wire show iterate state req r').0
  answered_alike req (x, w) (y, w') e = rw e (response_alike req y w w')

  twice :
      (req : Request) (id : String) (w w' : W) (r r' : Result Task StoreError × W)
      → Meets view w r (spec_cancel id (view w))
      → ¬ (IsFault r.0)
      → Meets view w' r' (spec_cancel id (view w'))
      → ¬ (IsFault r'.0)
      → w' ≡ r.1
      → ((answered wire show iterate state req r').0 ≡ (answered wire show iterate state req r).0)
        × ((k : String) → view r'.1 k ≡ view w' k)
  twice req id w w' r r' met fine met' fine' stays =
      let (first, left) = Meets-fine w r (spec_cancel id (view w)) met fine in
      let (again, left') = Meets-fine w' r' (spec_cancel id (view w')) met' fine' in
      let (same, kept) =
        spec_cancel_twice id (view w) (view w') (λ k. ap (λ x. view x k) stays ∙ left k) in
      (answered_alike req r' r (again ∙ same ∙ sym first), λ k. left' k ∙ kept k)

  -- Over any store that keeps its contract, a `tasks/cancel` that is sent a second time has the same
  -- response as the first, whether the task was live, was over or was not there, and leaves every
  -- task as it is, if neither call of the store has faulted.
  pub dispatch-cancel_twice :
      (req : Request) (w : W) (p : CancelTaskParams)
      → let (first, w1) = dispatch wire show iterate state req w in
        let (again, w2) = dispatch wire show iterate state req w1 in
        req.method ≡ method_cancel
        → params_as wire.cancel_task_params req ≡ ok p
        → ¬ (IsFault (state.store.cancel p.task_id w).0)
        → ¬ (IsFault (state.store.cancel p.task_id w1).0)
        → (again ≡ first) × ((k : String) → view w2 k ≡ view w1 k)
  dispatch-cancel_twice req w p m parsed fine fine' =
      let w1 = (dispatch wire show iterate state req w).1 in
      let e = dispatch-cancel wire show iterate state req w p m parsed in
      let e' = dispatch-cancel wire show iterate state req w1 p m parsed in
      let r = state.store.cancel p.task_id w in
      let r' = state.store.cancel p.task_id w1 in
      let state_of : w1 ≡ r.1 =
        ap (λ (x : Response × W). x.1) e ∙ answered_state wire show iterate state req r in
      let (same, kept) =
        twice req p.task_id w w1 r r' (impl.cancel_meets p.task_id w) fine
          (impl.cancel_meets p.task_id w1) fine' state_of in
      (
        ap (λ (x : Response × W). x.0) e' ∙ same ∙ sym (ap (λ (x : Response × W). x.0) e),
        λ k.
            ap (λ (x : Response × W). view x.1 k) e'
            ∙ ap (λ x. view x k) (answered_state wire show iterate state req r')
            ∙ kept k,
      )
