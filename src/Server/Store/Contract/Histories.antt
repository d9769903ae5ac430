-- ===== src/Server/Store/Contract/Histories.antt =====
-- What a client can rely on of any store that keeps the contract: over a history of calls a task
-- is not lost, follows its life cycle, and stays as it is once it is finished.
use mathlib.Core.Path.{subst}
use longhaul.Base.{
  String, ◌≡◌, refl, ap, ◌∙◌, ◌≢◌, inl, inr, true, some, List, [], ◌∷◌, arith, eq_iff, ◌==◌,
  Bool-cases, Option-cases, Result,
}
use longhaul.Core.Tasks.{Task, UpdateTaskParams, is_terminal}
use longhaul.Core.Tasks.Lifecycle.{
  Follows, Follows-refl, Follows-trans, Follows-eq_of_terminal, set_status-Follows,
  transition_to_lem, cancel-Follows,
}
use longhaul.Server.Store.{StoreError, TaskStore}
use longhaul.Server.Store.Contract.{
  View, Meets, Implements, write, spec_insert, spec_update, spec_cancel,
}

pub data Op : Type 0 where
  get : String → Op
  insert : Task → Op
  update : UpdateTaskParams → Op
  cancel : String → Op

-- the state after one call, whatever it answered
unfoldable pub perform : {S : Type 0} → TaskStore S → Op → S → S
perform store (get id) s = (store.get id s).1
perform store (insert t) s = (store.insert t s).1
perform store (update p) s = (store.update p s).1
perform store (cancel id) s = (store.cancel id s).1

pub perform_all : {S : Type 0} → TaskStore S → List Op → S → S
perform_all store [] s = s
perform_all store (op ∷ ops) s = perform_all store ops (perform store op s)

-- The call does not insert a task under `id`; an insertion replaces what was there.
abbrev pub SparesAt : String → Op → Type 0
SparesAt id (insert t) = t.id ≢ id
SparesAt id _ = Unit

abbrev pub Spares : String → List Op → Type 0
Spares id [] = Unit
Spares id (op ∷ ops) = SparesAt id op × Spares id ops

-- The entry of `id` in a map is a task that `t` has moved to along the life cycle.
abbrev pub Progressed : String → Task → View → Type 0
Progressed id t v = (t' : Task) × (v id ≡ some t') × Follows t t'

Progressed-same : (id : String) (t : Task) (v : View) → v id ≡ some t → Progressed id t v
Progressed-same id t v h = (t, h, Follows-refl t)

Progressed-write :
    (id k : String) (t u u' : Task) (v : View)
    → v id ≡ some t
    → v k ≡ some u
    → Follows u u'
    → Progressed id t (write k u' v)
Progressed-write id k t u u' v h q f = elim (Bool-cases (k == id)) [
  | inl same ↦
      let e : u ≡ t = ground (arith, h, q, ap v ((eq_iff k id).0 same)) in
      (u', rw same refl, subst (λ x. Follows x u') e f)
  | inr other ↦ (t, rw other h, Follows-refl t)
]

spec_update-Progressed :
    (id : String) (t : Task) (p : UpdateTaskParams) (v : View)
    → v id ≡ some t
    → Progressed id t (spec_update p v).1
spec_update-Progressed id t p v h = elim (Option-cases (v p.task_id)) [
  | inl missing ↦ rw missing (Progressed-same id t v h)
  | inr (u, found) ↦ rw found (elim (transition_to_lem p.status u) [
    | inl (arrow, q) ↦
        rw q (Progressed-write id p.task_id t u _ v h found (set_status-Follows u p.status arrow))
    | inr (_, q) ↦ rw q (Progressed-same id t v h)
  ])
]

spec_cancel-Progressed :
    (id k : String) (t : Task) (v : View) → v id ≡ some t → Progressed id t (spec_cancel k v).1
spec_cancel-Progressed id k t v h = elim (Option-cases (v k)) [
  | inl missing ↦ rw missing (Progressed-same id t v h)
  | inr (u, found) ↦ rw found (Progressed-write id k t u _ v h found (cancel-Follows u))
]

spec_insert-Progressed :
    (id : String) (t u : Task) (keep : Task → Task) (v : View)
    → v id ≡ some t
    → u.id ≢ id
    → Progressed id t (spec_insert keep u v).1
spec_insert-Progressed id t u keep v h ne = (t, ground (arith, eq_iff u.id id), Follows-refl t)

module _ {S : Type 0} (view : S → View) (store : TaskStore S) (keep : Task → Task)
    (impl : Implements view store keep) where
  Progressed-Meets :
      {A : Type 0} (id : String) (t : Task) (s : S) (r : Result A StoreError × S)
      (spec : Result A StoreError × View)
      → view s id ≡ some t
      → Meets view s r spec
      → Progressed id t spec.1
      → Progressed id t (view r.1)
  Progressed-Meets id t s r spec h (inl (_, same)) (t', q, f) = (t', same id ∙ q, f)
  Progressed-Meets id t s r spec h (inr (_, same)) _ = (t, same id ∙ h, Follows-refl t)

  pub perform-Progressed :
      (id : String) (t : Task) (op : Op) (s : S)
      → SparesAt id op
      → view s id ≡ some t
      → Progressed id t (view (perform store op s))
  unfolding perform
  perform-Progressed id t (get k) s _ h =
      Progressed-Meets id t s _ _ h (impl.get_meets k s) (Progressed-same id t (view s) h)
  perform-Progressed id t (insert u) s ne h =
      Progressed-Meets id t s _ _ h (impl.insert_meets u s)
        (spec_insert-Progressed id t u keep (view s) h ne)
  perform-Progressed id t (update p) s _ h =
      Progressed-Meets id t s _ _ h (impl.update_meets p s)
        (spec_update-Progressed id t p (view s) h)
  perform-Progressed id t (cancel k) s _ h =
      Progressed-Meets id t s _ _ h (impl.cancel_meets k s)
        (spec_cancel-Progressed id k t (view s) h)

  -- In any store that keeps the contract: after any calls that insert no task of the same id,
  -- failed and faulty calls included, a task that was there is still there, has moved along the
  -- documented life cycle only, and has its id, metadata and extra fields.
  pub perform_all-Progressed :
      (id : String) (t : Task) (ops : List Op) (s : S)
      → Spares id ops
      → view s id ≡ some t
      → (t' : Task) × (view (perform_all store ops s) id ≡ some t') × Follows t t'
  unfolding perform_all
  perform_all-Progressed id t [] s _ h = (t, h, Follows-refl t)
  perform_all-Progressed id t (op ∷ ops) s (sp, sps) h =
      let (u, here, f) = perform-Progressed id t op s sp h in
      let (t', there, g) = perform_all-Progressed id u ops (perform store op s) sps here in
      (t', there, Follows-trans f g)

  -- In any store that keeps the contract, a task that has completed, failed or been cancelled is
  -- shown unchanged after any calls that insert no task of its id.
  pub perform_all_of_terminal :
      (id : String) (t : Task) (ops : List Op) (s : S)
      → Spares id ops
      → view s id ≡ some t
      → is_terminal t.status ≡ true
      → view (perform_all store ops s) id ≡ some t
  perform_all_of_terminal id t ops s sp h done =
      let (t', there, f) = perform_all-Progressed id t ops s sp h in
      there ∙ ap some (Follows-eq_of_terminal t t' done f)
