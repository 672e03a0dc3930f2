-- ===== src/Tests/Waits.antt =====
-- A thread that sleeps on the condition variable of the queue, and is woken.
use simurga.Base.{refl, true, [], ◌∷◌, ◌++◌, Bytes, codes}
use simurga.Jobs.Waiting.Waking.{Awake, Reach-Awake}
use simurga.Jobs.Waiting.{
  Waiting, run_or_wait, add_and_notify, Reach, start, adding, waking, stepping,
}
use simurga.Jobs.{JobPair, new_queue}

abbrev job : JobPair Bytes
job = record { job = codes "handle"; on_complete = codes "callback" }

-- The thread of an empty queue goes to sleep, and again after a wake-up without a reason.
abbrev asleep_twice : Waiting Bytes
asleep_twice = record { jobs = new_queue; asleep = true }

asleep_twice-Reach : Reach [] asleep_twice
unfolding run_or_wait new_queue
asleep_twice-Reach = stepping (waking (stepping {s' = asleep_twice} start refl)) refl

Reach-Awake_example : Awake ([] ++ job ∷ []) (add_and_notify job.job job.on_complete asleep_twice)
Reach-Awake_example = Reach-Awake (adding job asleep_twice-Reach)
