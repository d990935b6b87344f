-- ===== src/Application/Queue.antt =====
-- The review queue and the number of open reviews.
use aegisclaims_ai.Prelude.{
  &&-true, ==_iff, All, All-filter, All-take, Bool-cases, List, [], arith, drop, false, filter, inl,
  inr, length, length-take, ltb, suc, take, true, zero, ℕ, ◌==◌, ◌∷◌, ◌≡◌, ◌≤◌,
}
use aegisclaims_ai.Application.{
  ReviewTaskView, is_evaluation, review_queue, task_view, task_views, workflow_of,
}
use aegisclaims_ai.Domain.{Actor}
use aegisclaims_ai.Store.{Db, ReviewTask}
use aegisclaims_ai.Store.Claims.{is_active_status, sort_by}
use aegisclaims_ai.Store.Claims.Isolation.{All-drop, All-sort_by, length-filter, length-sort_by}
use aegisclaims_ai.Store.Reviews.{count_open, is_open_task, list_open}

-- An entry is of an open or assigned task of the tenant, whose workflow is no evaluation run.
pub record IsListed (db : Db) (actor : Actor) (v : ReviewTaskView) : Type 0 where
  pub of_tenant : v.task.tenant_id ≡ actor.tenant_id
  pub active : is_active_status v.task.status ≡ true
  pub no_evaluation : is_evaluation (workflow_of db actor.tenant_id v.task) ≡ false

pub length-drop {ℓ} : {A : Type ℓ} (n : ℕ) (xs : List A) → length (drop n xs) ≤ length xs
length-drop zero xs = omega arith
length-drop (suc n) [] = omega arith
length-drop (suc n) (x ∷ xs) = omega (arith, length-drop n xs)

pub length-take_of {ℓ} : {A : Type ℓ} (n : ℕ) (xs : List A) → length (take n xs) ≤ length xs
length-take_of zero xs = omega arith
length-take_of (suc n) [] = omega arith
length-take_of (suc n) (x ∷ xs) = omega (arith, length-take_of n xs)

module _ (db : Db) (actor : Actor) where
  pub length-task_views :
      (ts : List ReviewTask) → length (task_views db actor.tenant_id ts) ≤ length ts
  unfolding task_views
  length-task_views [] = omega arith
  length-task_views (t ∷ ts) =
      elim (Bool-cases (is_evaluation (workflow_of db actor.tenant_id t))) [
        | inl e ↦ rw e (omega (arith, length-task_views ts))
        | inr e ↦ rw e (omega (arith, length-task_views ts))
      ]

  pub task_views-IsListed :
      (ts : List ReviewTask)
      → All (λ t. is_open_task actor.tenant_id t ≡ true) ts
      → All (IsListed db actor) (task_views db actor.tenant_id ts)
  unfolding task_views task_view
  task_views-IsListed [] h = tt
  task_views-IsListed (t ∷ ts) h =
      let open_task = &&-true (t.tenant_id == actor.tenant_id) (is_active_status t.status) h.0 in
      elim (Bool-cases (is_evaluation (workflow_of db actor.tenant_id t))) [
        | inl e ↦ rw e (task_views-IsListed ts h.1)
        | inr e ↦
            let listed : IsListed db actor (task_view db actor.tenant_id t) = record {
              of_tenant = (==_iff t.tenant_id actor.tenant_id).0 open_task.0;
              active = open_task.1;
              no_evaluation = e;
            } in
            rw e (listed, task_views-IsListed ts h.1)
      ]

  abbrev by_age : List ReviewTask
  by_age =
      sort_by (λ (a : ReviewTask) (b : ReviewTask). ltb a.created_at b.created_at)
        (filter (is_open_task actor.tenant_id) db.review_tasks)

  -- Each entry of a page of the review queue is of an open or assigned task of the actor's tenant,
  -- none of them of an evaluation run; there are at most `limit`, and at most
  -- `count_open` of the actor.
  pub review_queue-IsListed :
      (limit offset : ℕ)
      → All (IsListed db actor) (review_queue db actor limit offset)
        × (length (review_queue db actor limit offset) ≤ limit)
        × (length (review_queue db actor limit offset) ≤ count_open db actor)
  unfolding review_queue list_open count_open
  review_queue-IsListed limit offset =
      let page = take limit (drop offset by_age) in
      let open_tasks = filter (is_open_task actor.tenant_id) db.review_tasks in
      let sorted : length by_age ≡ length open_tasks = length-sort_by _ open_tasks in
      let counted = length-filter (is_open_task actor.tenant_id) db.review_tasks in
      let short = length-task_views page in
      let bounded = length-take limit (drop offset by_age) in
      let paged = length-take_of limit (drop offset by_age) in
      let dropped = length-drop offset by_age in
      (
        task_views-IsListed page (
            All-take (λ t. is_open_task actor.tenant_id t ≡ true) limit (drop offset by_age)
              (All-drop (λ t. is_open_task actor.tenant_id t ≡ true) offset by_age
                (All-sort_by (λ t. is_open_task actor.tenant_id t ≡ true) _ open_tasks
                  (All-filter (is_open_task actor.tenant_id) db.review_tasks)))),
        omega (arith, short, bounded),
        omega (arith, short, paged, dropped, sorted, counted),
      )
