-- ===== src/Runs/Plain/Endings.antt =====
-- The ends of an execution and the output that a step leaves: `finish_run`, `fail_step`, `deny` and
-- `keep_output`.
use agentops_control_plane.Base.{ℕ, ◌+◌, String, ◌≡◌, refl, ap, ◌∙◌, ◌==◌, false, none, some, arith}
use agentops_control_plane.Json.{Value}
use agentops_control_plane.Store.Rows.{
  Span, Step, Workflow, Run, RunStatus, Event, SpanStatus, EventType,
}
use agentops_control_plane.Store.Exec.{Db, Error, message, ok}
use agentops_control_plane.Runs.Env.{Env}
use agentops_control_plane.Runs.Rows.{set_run}
use agentops_control_plane.Runs.Outbox.{dispatch_webhooks}
use agentops_control_plane.Runs.Spans.{set_span, new_span}
use agentops_control_plane.Runs.Frames.{dispatch_webhooks_frame, dispatch_webhooks_ok}
use agentops_control_plane.Runs.Agent.{Child}
use agentops_control_plane.Runs.Steps.{finish_run, deny, fail_step, keep_output, fail_run}
use agentops_control_plane.Runs.Plain.{completes, fails, Apart, IsReady, Shows}

module _ (env : Env) where
  module _ (child : Child) (run_id : ℕ) (r0 : Run) (w : Workflow) (s0 : Db) where
    Apart-same :
        (s t : Db)
        → t.workflows ≡ s.workflows
        → t.runs.next ≡ s.runs.next
        → ((k j : ℕ) → (k == run_id) ≡ false → t.spans k j ≡ s.spans k j)
        → Apart run_id s0 s
        → Apart run_id s0 t
    Apart-same s t flows next spans h = record {
      workflows = flows ∙ h.workflows;
      next = next ∙ h.next;
      spans = λ k j other. spans k j other ∙ h.spans k j other;
    }

    Apart-dispatch :
        (event : Event) (s : Db)
        → Apart run_id s0 s
        → Apart run_id s0 (dispatch_webhooks env run_id event s).1
    Apart-dispatch event s h =
        let frame = dispatch_webhooks_frame env run_id event s in
        Apart-same s (dispatch_webhooks env run_id event s).1 (ap (λ d. d.workflows) frame)
          (ap (λ d. d.runs.next) frame) (λ k j other. ap (λ d. d.spans k j) frame) h

    Apart-set :
        (index : ℕ) (span : Span) (f : Run → Run) (s : Db)
        → Apart run_id s0 s
        → Apart run_id s0 (set_run run_id f (set_span run_id index span s))
    Apart-set index span f s h =
        Apart-same s (set_run run_id f (set_span run_id index span s)) refl refl
          (λ k j other. rw other refl) h

    pub finish_run-Shows :
        (s : Db) (index : ℕ) (v : Value)
        → IsReady s0 s run_id r0 w index
        → Shows s0 run_id (completes v) (finish_run env child run_id v s)
    unfolding finish_run
    finish_run-Shows s index v h =
        let ended : Run = record h.row {
          status = RunStatus.completed;
          output = some v;
          finished_at = some env.now;
        } in
        let t =
          set_run run_id
            (λ r. record r {
              status = RunStatus.completed;
              output = some v;
              finished_at = some env.now;
            })
            s in
        (
          dispatch_webhooks_ok env run_id Event.run_completed t ended w (ground (arith, h.there))
              (ground (arith, h.same, h.flow)),
          ended,
          ground (arith, h.there, dispatch_webhooks_frame env run_id Event.run_completed t),
          (refl, refl),
          Apart-dispatch Event.run_completed t
              (Apart-same s t refl refl (λ k j other. refl) h.apart),
        )

    pub fail_step-Shows :
        (s : Db) (index : ℕ) (step : Step) (v : Value) (e : Error)
        → IsReady s0 s run_id r0 w index
        → Shows s0 run_id (fails (message e)) (fail_step env child run_id index step v e s)
    unfolding fail_step
    fail_step-Shows s index step v e h =
        let ended : Run = record (fail_run env (message e) h.row) { current_step = index } in
        let span = new_span env step v none SpanStatus.failed (some (message e)) none in
        let t =
          set_run run_id (λ r. record (fail_run env (message e) r) { current_step = index })
            (set_span run_id index span s) in
        let same : fail_step env child run_id index step v e s
            ≡ dispatch_webhooks env run_id Event.run_failed t =
          rw (h.free index (omega arith)) refl in
        let sent =
          dispatch_webhooks_ok env run_id Event.run_failed t ended w (ground (arith, h.there))
            (ground (arith, h.same, h.flow)) in
        (
          ground (arith, h.free index, sent),
          ended,
          ground
              (arith, h.there, h.free index, dispatch_webhooks_frame env run_id Event.run_failed t),
          (refl, refl),
          rw same (
              Apart-dispatch Event.run_failed t (
                Apart-set index span
                  (λ r. record (fail_run env (message e) r) { current_step = index }) s h.apart)),
        )

    pub keep_output-IsReady :
        (s : Db) (index : ℕ) (step : Step) (v out : Value)
        → IsReady s0 s run_id r0 w index
        → let (result, s') = keep_output env child run_id index step v out none s in
          (result ≡ ok tt) × IsReady s0 s' run_id r0 w (index + 1)
    unfolding keep_output
    keep_output-IsReady s index step v out h = (
      ground (arith, h.free index),
      record {
        row = record h.row { output = some out; current_step = index + 1 };
        there = ground (arith, h.there, h.free index);
        live = h.live;
        same = h.same;
        flow = ground (arith, h.flow, h.free index);
        free = λ j le. ground (arith, h.free j, h.free index);
        apart =
            let span = new_span env step v (some out) SpanStatus.completed none none in
            let f = λ (r : Run). record r { output = some out; current_step = index + 1 } in
            let same : (keep_output env child run_id index step v out none s).1
                ≡ set_run run_id f (set_span run_id index span s) =
              rw (h.free index (omega arith)) refl in
            rw same (Apart-set index span f s h.apart);
      },
    )

    pub deny-Shows :
        (s : Db) (index : ℕ) (error : String) (event_type : EventType)
        → IsReady s0 s run_id r0 w index
        → Shows s0 run_id (fails error) (deny env child run_id error event_type s)
    unfolding deny
    deny-Shows s index error event_type h = (
      refl,
      fail_run env error h.row,
      ground (arith, h.there),
      (refl, refl),
      Apart-same s (deny env child run_id error event_type s).1 refl refl (λ k j other. refl)
          h.apart,
    )
