-- ===== src/Jobs/Client.antt =====
-- `JobQueue` of src/jobqueue.cpp behind the interface for its clients.
use simurga.Base.{refl}
use simurga.Jobs.Interface.{CallQueue}
use simurga.Jobs.Patience.{patience, call_step-patience, call_step-halted}
use simurga.Jobs.Pending.{
  pending, is_halted, call_step, call_step-rest, call_step-call, call_step-live, pending-add,
  pending-new_queue, pending-request_stop,
}
use simurga.Jobs.{JobQueue, new_queue, add, request_stop}

-- `JobQueue` keeps to it, with what its `run` is still to call as the pending calls.
abbrev pub job_queue : (C : Type 0) → CallQueue C
job_queue C = record {
  State = JobQueue C;
  pending = pending;
  halted = is_halted;
  empty = new_queue;
  push = add;
  halt = request_stop;
  step = call_step;
  disturb = λ q. q;
  pending-empty = pending-new_queue;
  pending-push = pending-add;
  pending-halt = pending-request_stop;
  pending-disturb = λ q. refl;
  pending-rest = call_step-rest;
  pending-call = call_step-call;
  step_live = call_step-live;
  patience = patience;
  patience-rest = call_step-patience;
  halted-step = call_step-halted;
}
