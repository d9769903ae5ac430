-- ===== src/Server/Handlers/Routing.antt =====
-- Which handler `route` calls.
use longhaul.Base.{String, ◌≡◌, ◌⊎◌, inl, inr, List, arith, eq_iff, ◌<>◌, ◌==◌, Bool-cases, err}
use longhaul.Base.Dict.{Dict}
use longhaul.Core.Errors.{method_not_found}
use longhaul.Core.Discover.{method_discover}
use longhaul.Core.Tasks.{method_get, method_update, method_cancel}
use longhaul.Core.Tools.{method_list, method_call}
use longhaul.Core.Jsonrpc.{Request}
use longhaul.Server.Store.{SqliteError}
use longhaul.Server.Registry.{ToolEntry}
use longhaul.Server.Handlers.{
  ServerState, Wire, handle_discover, handle_tools_list, handle_tools_call, handle_tasks_get,
  handle_tasks_update, handle_tasks_cancel, route,
}

-- The methods that `route` knows.
abbrev pub IsKnown : String → Type 0
IsKnown m =
    (m ≡ method_discover)
    ⊎ ((m ≡ method_list)
        ⊎ ((m ≡ method_call) ⊎ ((m ≡ method_get) ⊎ ((m ≡ method_update) ⊎ (m ≡ method_cancel)))))

str_cases : (s t : String) → (s ≡ t) ⊎ ¬ (s ≡ t)
str_cases s t = elim (Bool-cases (s == t)) [
  | inl e ↦ inl ((eq_iff s t).0 e)
  | inr e ↦ inr (λ h. cc (e, (eq_iff s t).1 h))
]

or_cases : {A B : Type 0} → A ⊎ ¬ A → B ⊎ ¬ B → (A ⊎ B) ⊎ ¬ (A ⊎ B)
or_cases (inl a) b = inl (inl a)
or_cases (inr na) (inl b) = inl (inr b)
or_cases (inr na) (inr nb) = inr (elim [ inl a ↦ na a | inr b ↦ nb b ])

pub IsKnown-cases : (m : String) → IsKnown m ⊎ ¬ IsKnown m
IsKnown-cases m = or_cases (str_cases m method_discover) (
    or_cases (str_cases m method_list) (
      or_cases (str_cases m method_call) (
        or_cases (str_cases m method_get)
          (or_cases (str_cases m method_update) (str_cases m method_cancel)))))

-- the method that the revision has removed
pub tasks_list-not-IsKnown : ¬ IsKnown "tasks/list"
tasks_list-not-IsKnown (inl e) = cc ((eq_iff "tasks/list" method_discover).1 e)
tasks_list-not-IsKnown (inr (inl e)) = cc ((eq_iff "tasks/list" method_list).1 e)
tasks_list-not-IsKnown (inr (inr (inl e))) = cc ((eq_iff "tasks/list" method_call).1 e)
tasks_list-not-IsKnown (inr (inr (inr (inl e)))) = cc ((eq_iff "tasks/list" method_get).1 e)
tasks_list-not-IsKnown (inr (inr (inr (inr (inl e))))) =
    cc ((eq_iff "tasks/list" method_update).1 e)
tasks_list-not-IsKnown (inr (inr (inr (inr (inr e))))) =
    cc ((eq_iff "tasks/list" method_cancel).1 e)

module _ {W : Type 0} (wire : Wire) (show : SqliteError → String)
    (iterate : Dict (ToolEntry W) → List (ToolEntry W)) (state : ServerState W) where
  pub route-discover :
      (req : Request)
      → req.method ≡ method_discover
      → route wire show iterate state req ≡ handle_discover wire show iterate state req
  unfolding route
  route-discover req m = simp m

  pub route-list :
      (req : Request)
      → req.method ≡ method_list
      → route wire show iterate state req ≡ handle_tools_list wire show iterate state req
  unfolding route
  route-list req m = simp m

  pub route-call :
      (req : Request)
      → req.method ≡ method_call
      → route wire show iterate state req ≡ handle_tools_call wire show iterate state req
  unfolding route
  route-call req m = simp m

  pub route-get :
      (req : Request)
      → req.method ≡ method_get
      → route wire show iterate state req ≡ handle_tasks_get wire show iterate state req
  unfolding route
  route-get req m = simp m

  pub route-update :
      (req : Request)
      → req.method ≡ method_update
      → route wire show iterate state req ≡ handle_tasks_update wire show iterate state req
  unfolding route
  route-update req m = simp m

  pub route-cancel :
      (req : Request)
      → req.method ≡ method_cancel
      → route wire show iterate state req ≡ handle_tasks_cancel wire show iterate state req
  unfolding route
  route-cancel req m = simp m

  pub route_of_unknown :
      (req : Request) (w : W)
      → ¬ IsKnown req.method
      → route wire show iterate state req w
        ≡ (err (method_not_found, "Method not found: " <> req.method), w)
  unfolding route
  route_of_unknown req w h = ground (
    arith,
    eq_iff req.method method_discover,
    eq_iff req.method method_list,
    eq_iff req.method method_call,
    eq_iff req.method method_get,
    eq_iff req.method method_update,
    eq_iff req.method method_cancel,
  )
