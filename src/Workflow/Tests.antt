-- ===== src/Workflow/Tests.antt =====
-- Runs of the workflow's theorems.
use aegisclaims_ai.Prelude.{
  [], false, find, is_some, none, refl, some, true, update_where, ◌↔◌, ◌≡◌,
}
use aegisclaims_ai.Domain.{WorkflowStatus}
use aegisclaims_ai.Prelude.Exec.{err, ok}
use aegisclaims_ai.Store.{
  ApprovalState, Session, Stage, WorkflowRun, WorkflowState, acknowledge, reject_proposal,
}
use aegisclaims_ai.Store.Claims.{documents, get_for_actor, review_status, sort_by}
use aegisclaims_ai.Workflow.Cancellation.{IsCancelled, cancel-IsCancelled}
use aegisclaims_ai.Workflow.Fixtures.{
  admin_actor, clock, completed-closed, empty_db, later_clock, one_passage,
  one_passage-KeepsWorkflows, passage, plain, roof_claim, saved_session, supervisor_actor,
  waiting-IsTracked, waiting_db, waiting_run, waiting_state,
}
use aegisclaims_ai.Workflow.Graph.{
  citation_dict, determine_review, prepare_artifact, validate_provenance, with_evidence,
}
use aegisclaims_ai.Workflow.Graph.Outcome.{EndsIn, NeedsReview, finish, finish_outcome, gathered}
use aegisclaims_ai.Workflow.Guards.{Committed, IsAdmitted, closed-final, submit_review-IsAdmitted}
use aegisclaims_ai.Workflow.Guards.Once.{ChangesNothing, submit_review-once}
use aegisclaims_ai.Workflow.Service.{
  cannot_cancel, checkpoint_and_event, fingerprint, initial_state, latest_checkpoint, persist,
  persisted, state_from_checkpoint,
}
use aegisclaims_ai.Workflow.Service.Actions.{
  apply_review, cancel, cancel_from, decide, decided, is_closed, is_reviewable, recorded_under,
  retry, review_from, submit_review,
}
use aegisclaims_ai.Workflow.Service.Operations.{
  WorkflowView, is_current, latest, new_run, newest_run, start, start_new, started_with, view,
}
use aegisclaims_ai.Workflow.Starts.{IsNewest, IsRepeat, latest-IsNewest, start-IsRepeat}
use aegisclaims_ai.Workflow.Trail.Complete.{start_new-Tracks}
use aegisclaims_ai.Workflow.Trail.Decisions.{cancel-Tracks, retry-Tracks}
use aegisclaims_ai.Workflow.Trail.Loop.{Tracks}
use aegisclaims_ai.Workflow.Trail.Reviews.{submit_review-Tracks}

start_new-Tracks_example :
    Tracks 5
      (start_new plain one_passage clock supervisor_actor roof_claim "Why?" "key-1" "corr-1"
        (saved_session empty_db)).1.saved
start_new-Tracks_example =
    start_new-Tracks plain one_passage clock supervisor_actor roof_claim "Why?" "key-1" "corr-1"
      (saved_session empty_db) one_passage-KeepsWorkflows
      (record { no_run = refl; no_events = refl; no_checkpoints = refl })

abbrev awaiting : WorkflowRun
awaiting = waiting_run WorkflowStatus.awaiting_human_review

abbrev awaiting_session : Session
awaiting_session = saved_session (waiting_db WorkflowStatus.awaiting_human_review)

waiting-Tracks : (status : WorkflowStatus) → Tracks 5 (waiting_db status)
unfolding new_run
waiting-Tracks status = (waiting_run status, refl, waiting-IsTracked status)

submit_review-Tracks_example :
    Tracks 5
      (submit_review plain later_clock awaiting supervisor_actor acknowledge "Seen" 1 "r-1"
        awaiting_session).1.saved
unfolding new_run
submit_review-Tracks_example =
    submit_review-Tracks plain later_clock awaiting supervisor_actor acknowledge "Seen" 1 "r-1"
      awaiting_session (waiting-IsTracked WorkflowStatus.awaiting_human_review)
      (waiting-Tracks WorkflowStatus.awaiting_human_review)

cancel-Tracks_example :
    Tracks 5 (cancel later_clock awaiting supervisor_actor awaiting_session).1.saved
unfolding new_run
cancel-Tracks_example =
    cancel-Tracks later_clock awaiting supervisor_actor awaiting_session
      (waiting-IsTracked WorkflowStatus.awaiting_human_review)
      (waiting-Tracks WorkflowStatus.awaiting_human_review)

retry-Tracks_example :
    Tracks 5
      (retry plain one_passage later_clock
        (waiting_run WorkflowStatus.failed)
        supervisor_actor
        "t-1"
        (saved_session (waiting_db WorkflowStatus.failed))).1.saved
unfolding new_run
retry-Tracks_example =
    retry-Tracks plain one_passage later_clock (waiting_run WorkflowStatus.failed) supervisor_actor
      "t-1" (saved_session (waiting_db WorkflowStatus.failed)) one_passage-KeepsWorkflows
      (waiting-IsTracked WorkflowStatus.failed) (waiting-Tracks WorkflowStatus.failed)

-- What the first review of the fixture returns.
abbrev acknowledged_view : WorkflowView
acknowledged_view = view awaiting_session.db (decided later_clock acknowledge awaiting)

review_made :
    (submit_review plain later_clock awaiting supervisor_actor acknowledge "Seen" 1 "r-1"
      awaiting_session).0
    ≡ ok acknowledged_view
unfolding submit_review apply_review decide decided review_from checkpoint_and_event view
    state_from_checkpoint latest_checkpoint new_run fingerprint sort_by documents
review_made = refl

review_new :
    find (recorded_under 5 "r-1") (waiting_db WorkflowStatus.awaiting_human_review).review_actions
    ≡ none
unfolding checkpoint_and_event
review_new = refl

submit_review-IsAdmitted_example :
    IsAdmitted plain awaiting supervisor_actor 1 awaiting_session.db
    × Committed
        (update_where
          (is_reviewable 5 1)
          (decided later_clock acknowledge)
          awaiting_session.db.runs)
        (submit_review plain later_clock awaiting supervisor_actor acknowledge "Seen" 1 "r-1"
          awaiting_session).1
unfolding new_run
submit_review-IsAdmitted_example =
    submit_review-IsAdmitted plain later_clock awaiting supervisor_actor acknowledge "Seen" 1 "r-1"
      acknowledged_view awaiting_session review_new review_made

submit_review-once_example :
    let after =
      (submit_review plain later_clock awaiting supervisor_actor acknowledge "Seen" 1 "r-1"
        awaiting_session).1 in
    ChangesNothing plain later_clock awaiting admin_actor reject_proposal "No" 1 "r-2" after
    × (submit_review plain later_clock awaiting admin_actor acknowledge "Seen" 1 "r-1" after
        ≡ (ok (view after.db awaiting), after))
unfolding new_run
submit_review-once_example =
    submit_review-once plain later_clock later_clock awaiting awaiting supervisor_actor admin_actor
      acknowledge reject_proposal "Seen" "No" "r-1" "r-2" 1 acknowledged_view awaiting_session refl
      review_new review_made

abbrev completed : WorkflowRun
completed = waiting_run WorkflowStatus.completed

abbrev completed_session : Session
completed_session = saved_session (waiting_db WorkflowStatus.completed)

closed-final_example :
    (cancel later_clock completed supervisor_actor completed_session
      ≡ (err cannot_cancel, completed_session))
    × (((retry plain one_passage later_clock completed supervisor_actor "r-1" completed_session).1
          ≡ completed_session)
        × ((submit_review plain later_clock completed supervisor_actor acknowledge "Seen" 1 "r-1"
              completed_session).1
            ≡ completed_session))
closed-final_example =
    closed-final plain one_passage later_clock completed supervisor_actor acknowledge "Seen" 1 "r-1"
      completed_session completed-closed

finish_outcome_example :
    (((finish (gathered plain passage [] waiting_state)).human_review_required ≡ true)
      ↔ NeedsReview (gathered plain passage [] waiting_state))
    × EndsIn
        (finish (gathered plain passage [] waiting_state))
        (finish (gathered plain passage [] waiting_state)).human_review_required
finish_outcome_example = finish_outcome plain passage [] waiting_state

-- A passage of the claim 7 in the state of another claim.
abbrev other_claim : WorkflowState
other_claim = record (gathered plain passage [] waiting_state) { claim_id = 8 }

other_claim_failed : (finish other_claim).status ≡ WorkflowStatus.failed
unfolding with_evidence validate_provenance determine_review prepare_artifact citation_dict new_run
    initial_state
other_claim_failed = refl

waiting_seen : get_for_actor (waiting_db WorkflowStatus.completed) 7 admin_actor ≡ some roof_claim
unfolding get_for_actor checkpoint_and_event
waiting_seen = refl

waiting_used :
    find (started_with 1 7 "key-1") (waiting_db WorkflowStatus.completed).runs ≡ some completed
unfolding checkpoint_and_event new_run
waiting_used = refl

start-IsRepeat_example :
    ((start plain one_passage later_clock 7 admin_actor "Why?" "key-1" "c" completed_session).1
      ≡ completed_session)
    × ((v : WorkflowView)
        → (start plain one_passage later_clock 7 admin_actor "Why?" "key-1" "c" completed_session).0
          ≡ ok v
        → IsRepeat 7 admin_actor "Why?" completed v completed_session.db)
start-IsRepeat_example =
    start-IsRepeat plain one_passage later_clock 7 admin_actor "Why?" "key-1" "c" completed
      completed_session waiting_used

latest_found :
    (latest 7 admin_actor completed_session).0 ≡ ok (some (view completed_session.db completed))
unfolding latest get_for_actor checkpoint_and_event newest_run new_run
latest_found = refl

latest-IsNewest_example :
    (is_some (get_for_actor completed_session.db 7 admin_actor) ≡ true)
    × ((w : WorkflowRun) × ((view completed_session.db completed ≡ view completed_session.db w)
          × IsNewest (is_current 7 1) w completed_session.db.runs))
latest-IsNewest_example =
    latest-IsNewest 7 admin_actor (view completed_session.db completed) completed_session
      latest_found

abbrev cancelled_view : WorkflowView
cancelled_view =
    view (cancel later_clock awaiting supervisor_actor awaiting_session).1.db (record awaiting {
      status = WorkflowStatus.cancelled;
      current_stage = Stage.cancelled;
      approval_state = ApprovalState.cancelled;
      checkpoint_version = 2;
      completed_at = some 30;
      updated_at = 30;
    })

cancel_made : (cancel later_clock awaiting supervisor_actor awaiting_session).0 ≡ ok cancelled_view
unfolding cancel cancel_from persist persisted checkpoint_and_event state_from_checkpoint
    latest_checkpoint new_run initial_state review_status
cancel_made = refl

cancel-IsCancelled_example :
    (is_closed awaiting.status ≡ false)
    × IsCancelled 5 30 (cancel later_clock awaiting supervisor_actor awaiting_session).1.saved
unfolding new_run
cancel-IsCancelled_example =
    cancel-IsCancelled later_clock awaiting supervisor_actor cancelled_view awaiting_session
      (waiting-IsTracked WorkflowStatus.awaiting_human_review) cancel_made
