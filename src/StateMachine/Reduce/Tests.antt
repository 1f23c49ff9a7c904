-- ===== src/StateMachine/Reduce/Tests.antt =====
-- Runs of the state machine on the evidence of its self-test, and the theorems there.
use one_company.Prelude.{◌≡◌, refl, true, pos, ok, err}
use one_company.Json.{bool, int, arr, obj, nil, cons, put}
use one_company.StateMachine.Defs.{
  selected, emergency_stop_hold, active_prs_duplicate, Stream, read_stream,
}
use one_company.StateMachine.Reduce.{reduce_evidence}
use one_company.StateMachine.Reduce.Gates.{Gates}
use one_company.StateMachine.Reduce.Ready.{reduce_evidence-merge_ready_iff}
use one_company.StateMachine.Reduce.Sample.{
  evidence, lower, program, decision, ready, evidence-ready,
}

stopped :
    reduce_evidence lower (obj (put evidence "emergency_stop" (bool true)))
    ≡ ok (decision (int (pos 252)) selected emergency_stop_hold)
unfolding program
stopped = refl

duplicated :
    reduce_evidence lower
      (obj (put evidence "active_prs" (arr (cons (int (pos 252)) (cons (int (pos 252)) nil)))))
    ≡ err active_prs_duplicate
unfolding program
duplicated = refl

reduce_evidence-merge_ready_iff_example :
    (stream : Stream) × (read_stream evidence ≡ ok stream) × Gates lower evidence stream
reduce_evidence-merge_ready_iff_example =
    (reduce_evidence-merge_ready_iff lower evidence).0 (ready, evidence-ready, refl)
