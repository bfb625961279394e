-- ===== src/Tsl/WorkerThread/Finish.antt =====
-- A worker of tsl/worker_thread.c that is told to stop can be deleted.
use tsl_sdr.Prelude.{◌≡◌, refl, inl, true}
use tsl_sdr.Tsl.WorkerThread.Threads.{
  Worker, spawned, called, working, returned, leaving, exited, away, deleted, System, IsStopped,
  Step, apply, cancel, finish, flag, terminate, delete, join, destroy, Reach, here, later,
}
use tsl_sdr.Tsl.WorkerThread.Stop.{stopped-not_starting}

Reach-trans : {s t u : System} → Reach s t → Reach t u → Reach s u
Reach-trans r here = r
Reach-trans r (later q st) = later (Reach-trans r q) st

-- A state to which the system can go where this holds.
abbrev Finishes : System → Type 0
Finishes s = (t : System) × Reach s t × (t.owner ≡ deleted) × (t.gone ≡ true)

step_first : {s t : System} → Step s t → Finishes t → Finishes s
step_first st (u, r, done, gone) = (u, Reach-trans (later here st) r, done, gone)

module _ (s : System) (away_now : s.owner ≡ away) where
  from_exited : s.worker ≡ exited → IsStopped s.st → Finishes s
  from_exited e stop = (
    _,
    later (later (later here (delete away_now stop)) (join refl e)) (destroy refl refl),
    refl,
    refl,
  )

from_leaving : (s : System) → s.owner ≡ away → s.worker ≡ leaving → IsStopped s.st → Finishes s
from_leaving s o e stop = step_first (terminate e) (from_exited _ o refl stop)

from_returned : (s : System) → s.owner ≡ away → s.worker ≡ returned → IsStopped s.st → Finishes s
from_returned s o e stop = step_first (flag e) (from_leaving _ o refl (inl refl))

from_called : (s : System) → s.owner ≡ away → s.worker ≡ called → IsStopped s.st → Finishes s
from_called s o e stop =
    step_first (cancel e (stopped-not_starting s.st stop)) (from_returned _ o refl stop)

from_worker :
    (s : System) (w : Worker) → s.owner ≡ away → s.worker ≡ w → IsStopped s.st → Finishes s
from_worker s spawned o e stop = step_first (apply e) (from_called _ o refl stop)
from_worker s called o e stop = from_called s o e stop
from_worker s working o e stop = step_first (finish e) (from_returned _ o refl stop)
from_worker s returned o e stop = from_returned s o e stop
from_worker s leaving o e stop = from_leaving s o e stop
from_worker s exited o e stop = from_exited s o e stop

-- From every state in which the worker is stopped or told to stop and its owner is not yet deleting
-- it, wherever the worker stands: there is a way on to a state in which `worker_thread_delete` is
-- through and has freed the thread.
pub stopped-deleted :
    (s : System)
    → IsStopped s.st
    → s.owner ≡ away
    → (t : System) × Reach s t × (t.owner ≡ deleted) × (t.gone ≡ true)
stopped-deleted s stop o = from_worker s s.worker o refl stop
