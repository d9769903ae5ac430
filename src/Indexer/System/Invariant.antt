-- ===== src/Indexer/System/Invariant.antt =====
-- What holds in every world that the monitor, the worker and the clients can reach.
use longhaul.Base.{
  ℕ, suc, String, ◌≡◌, refl, sym, ap, ◌∙◌, ◌⊎◌, inl, inr, Bool, true, false, ◌||◌, none, some, ◌++◌,
  arith, some_injective, ok, err,
}
use longhaul.Core.Tasks.{Task, TaskStatus, completed, failed, cancelled, is_terminal}
use longhaul.Core.Tasks.Lifecycle.{Follows, Follows-refl, Follows-trans, Follows-eq_of_terminal}
use longhaul.Server.Store.{TaskStore}
use longhaul.Server.Store.Contract.{View, Implements}
use longhaul.Server.Store.Contract.Histories.{
  Op, get, update, perform, SparesAt, perform-Progressed,
}
use longhaul.Indexer.{IndexResult, Entry, default_result, walk_and_index}
use longhaul.Indexer.Walk.{files_below, index_all, walk_and_index-prefix, append_nil}
use longhaul.Indexer.Worker.{Turn, fire, settle_to, was_cancelled, complete}
use longhaul.Indexer.Worker.Laws.{shown_of_get, get-view, turn_of_fire}
use longhaul.Indexer.System.{
  Worker, walking, returned, looked, finished, result_of, World, fires, poll, Step, polls, returns,
  panics, looks, settles, gives_up, others, Reach, start, then_step,
}

or_cases : (a b : Bool) → (a || b) ≡ true → (a ≡ true) ⊎ (b ≡ true)
or_cases true b h = inl refl
or_cases false b h = inr h

fires_lem : (t : Turn) → fires t ≡ true → t ≡ fire
fires_lem fire h = refl
fires_lem _ h = cc

terminal : (s : TaskStatus) → s ≡ cancelled → is_terminal s ≡ true
unfolding is_terminal
terminal s h = rw h refl

module _ {S : Type 0} (store : TaskStore S) (lower : String → String) (tree : Entry)
    (id : String) where
  module _ (view : S → View) (keep : Task → Task) (impl : Implements view store keep) where
    pub record Inv (t : Task) (w : World S) : Type 0 where
      -- the task is shown, as it was or further along its life cycle
      pub now : Task
      pub shown : view w.state id ≡ some now
      pub follows : Follows t now
      -- the channel is fired for cancelled tasks only
      pub is_cancelled : w.fired ≡ true → now.status ≡ cancelled
      -- a result that is not of all files below the root is of a walk that the channel has stopped
      pub whole :
          (r : IndexResult)
          → result_of w.worker ≡ some r
          → (r ≡ index_all lower (files_below tree) default_result) ⊎ (w.fired ≡ true)

    -- a step of the store keeps what the invariant says of the task
    Kept : Task → World S → S → Type 0
    Kept t w s =
        (u : Task) × (view s id ≡ some u) × Follows t u × (w.fired ≡ true → u.status ≡ cancelled)

    same_Kept : (t : Task) (w : World S) → Inv t w → Kept t w w.state
    unfolding Kept
    same_Kept t w inv = (inv.now, inv.shown, inv.follows, inv.is_cancelled)

    perform-Kept :
        (t : Task) (w : World S) (op : Op)
        → SparesAt id op
        → Inv t w
        → Kept t w (perform store op w.state)
    unfolding Kept is_terminal
    perform-Kept t w op spares inv =
        let (u, shown, f) =
          perform-Progressed view store keep impl id inv.now op w.state spares inv.shown in
        (
          u,
          shown,
          Follows-trans inv.follows f,
          λ q.
              ap (λ (x : Task). x.status)
                (Follows-eq_of_terminal inv.now u (terminal inv.now.status (inv.is_cancelled q)) f)
              ∙ inv.is_cancelled q,
        )

    Inv-of_Kept :
        (t : Task) (w : World S) (s : S) (v : Worker)
        → Kept t w s
        → ((r : IndexResult)
            → result_of v ≡ some r
            → (r ≡ index_all lower (files_below tree) default_result) ⊎ (w.fired ≡ true))
        → Inv t (record w { state = s; worker = v })
    unfolding Kept
    Inv-of_Kept t w s v (u, shown, f, c) whole = record {
      now = u;
      shown = shown;
      follows = f;
      is_cancelled = c;
      whole = whole;
    }

    poll-Inv : (t : Task) (w : World S) → Inv t w → Inv t (poll store lower tree id w)
    unfolding poll perform Kept
    poll-Inv t w inv =
        let (u, shown, f, c) = perform-Kept t w (get id) tt inv in
        record {
          now = u;
          shown = shown;
          follows = f;
          is_cancelled = λ q. elim (or_cases w.fired _ q) [
            | inl before ↦ c before
            | inr fresh ↦
                let (x, answer, stop) =
                  turn_of_fire view store keep impl (store.get id w.state).0 (fires_lem _ fresh) in
                let same : some x ≡ some u =
                  sym (shown_of_get view store keep impl id w.state x answer)
                  ∙ sym (get-view view store keep impl id w.state id)
                  ∙ shown in
                ground (arith, same, stop)
          ];
          whole = λ r q. elim (inv.whole r q) [ inl e ↦ inl e | inr b ↦ inr (rw b refl) ];
        }

    -- the result of a walk whose readings were of the channel
    walk_whole :
        (w : World S) (readings : ℕ → Bool)
        → ((n : ℕ) → readings n ≡ true → readings (suc n) ≡ true)
        → ((n : ℕ) → readings n ≡ true → w.fired ≡ true)
        → (walk_and_index lower readings tree ≡ index_all lower (files_below tree) default_result)
          ⊎ (w.fired ≡ true)
    walk_whole w readings mono read =
        let (done, rest, split, e, end) = walk_and_index-prefix lower readings mono tree in
        elim end [
          | inl all ↦ inl (
              e
              ∙ ap (λ l. index_all lower l default_result)
                  (sym (split ∙ ap (λ l. done ++ l) all ∙ append_nil done)))
          | inr (n, stop) ↦ inr (read n stop)
        ]

    Step-Inv : (t : Task) {w w' : World S} → Step store lower tree id w w' → Inv t w → Inv t w'
    unfolding perform was_cancelled complete
    Step-Inv t {w} (polls _) inv = poll-Inv t w inv
    Step-Inv t {w} (returns readings mono read _) inv =
        Inv-of_Kept t w w.state (returned (ok (walk_and_index lower readings tree)))
          (same_Kept t w inv)
          (λ r q. elim (walk_whole w readings mono read) [
            | inl e ↦ inl (sym (some_injective q) ∙ e)
            | inr b ↦ inr b
          ])
    Step-Inv t {w} (panics e _) inv =
        Inv-of_Kept t w w.state (returned (err e)) (same_Kept t w inv) (λ r q. cc)
    Step-Inv t {w} (looks r h) inv =
        Inv-of_Kept t w _ (looked r (was_cancelled store id w.state).0)
          (perform-Kept t w (get id) tt inv) (λ x q. inv.whole x (rw h q))
    Step-Inv t {w} (settles r true h) inv =
        Inv-of_Kept t w _ (finished (some r)) (same_Kept t w inv) (λ x q. inv.whole x (rw h q))
    Step-Inv t {w} (settles r false h) inv =
        Inv-of_Kept t w _ (finished (some r))
          (perform-Kept t w (update (settle_to store id completed)) tt inv)
          (λ x q. inv.whole x (rw h q))
    Step-Inv t {w} (gives_up e h) inv =
        Inv-of_Kept t w _ (finished none)
          (perform-Kept t w (update (settle_to store id failed)) tt inv) (λ x q. cc)
    Step-Inv t {w} (others op spares) inv =
        Inv-of_Kept t w _ w.worker (perform-Kept t w op spares inv) inv.whole

    -- From a world in which the task is shown, the channel is unfired and the walk is under way,
    -- every reachable world shows the task, moved along its life cycle only; the channel is fired
    -- only for a cancelled task; and a result that the worker holds is of all files below the root of
    -- the walk, unless the channel has stopped the walk.
    pub Reach-Inv :
        (t : Task) (w w' : World S)
        → view w.state id ≡ some t
        → w.fired ≡ false
        → w.worker ≡ walking
        → Reach store lower tree id w w'
        → Inv t w'
    Reach-Inv t w w' shown unfired under_way start = record {
      now = t;
      shown = shown;
      follows = Follows-refl t;
      is_cancelled = λ q. cc;
      whole = λ r q. cc (rw under_way at q);
    }
    Reach-Inv t w w' shown unfired under_way (then_step r step) =
        Step-Inv t step (Reach-Inv t w _ shown unfired under_way r)
