-- ===== src/Worker/Tests.antt =====
-- Four jobs after a reboot, and instances of the theorems.
use ab.Base.{◌≡◌, refl, true, not, some, [], ◌∷◌, ◌==◌}
use ab.Worker.{Rq, RqServer, has, worker_for_job, requeue, requeue_all, requeue_interrupted_jobs}

-- Job 1 is queued, 2 was interrupted, 3 is being run, and 4 cannot be queued.
abbrev rq : Rq
rq = record { queued = 1 ∷ []; started = 1 ∷ 2 ∷ 3 ∷ 4 ∷ []; known = 1 ∷ 2 ∷ 3 ∷ 4 ∷ [] }

abbrev server : RqServer
server = record {
  workers = λ j. record { pid = 70; busy = true; current_job = some 3 } ∷ [];
  is_alive = λ pid. pid == 70;
  can_remove = λ j. true;
  can_enqueue = λ j. not (j == 4);
}

-- Job 4 is in neither list any more.
one_lost :
    requeue_interrupted_jobs server rq ≡ record rq { queued = 1 ∷ 2 ∷ []; started = 1 ∷ 3 ∷ [] }
unfolding requeue_interrupted_jobs requeue_all requeue has worker_for_job
one_lost = refl
