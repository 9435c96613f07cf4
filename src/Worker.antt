-- ===== src/Worker.antt =====
-- Jobs that a reboot interrupted (securedrop/worker.py). Of rq and Redis the queue, the registry of started jobs
-- and the jobs with details are lists of identifiers; what else rq answers is an `RqServer`.
pub mod Requeue
mod Tests
use ab.Base.{
  ℕ, Bool, true, false, not, ◌&&◌, ◌||◌, Option, none, some, is_some, List, [], ◌∷◌, ◌++◌, any,
  select, find, ◌==◌, if◌then◌else◌,
}

pub record RqWorker : Type 0 where
  pub pid : ℕ
  pub busy : Bool
  pub current_job : Option ℕ

pub record Rq : Type 0 where
  pub queued : List ℕ
  pub started : List ℕ
  -- The jobs whose details can be fetched.
  pub known : List ℕ

-- What rq and the system answer while a job is considered: the workers, whether a process is there
-- (`os.kill(pid, 0)`), whether the job can be removed from the registry (no `InvalidJobOperation`) and
-- whether it can be queued.
pub record RqServer : Type 0 where
  pub workers : ℕ → List RqWorker
  pub is_alive : ℕ → Bool
  pub can_remove : ℕ → Bool
  pub can_enqueue : ℕ → Bool

abbrev pub is_job : ℕ → Option ℕ → Bool
is_job job_id none = false
is_job job_id (some j) = job_id == j

-- j in job_ids
unfoldable pub has : ℕ → List ℕ → Bool
has j = any (λ k. k == j)

module _ (server : RqServer) where
  abbrev pub runs : ℕ → RqWorker → Bool
  runs job_id w = server.is_alive w.pid && (w.busy && is_job job_id w.current_job)

  unfoldable pub worker_for_job : ℕ → Option RqWorker
  worker_for_job job_id = find (runs job_id) (server.workers job_id)

  -- One round of the loop; each early `continue` leaves the rest undone.
  unfoldable pub requeue : ℕ → Rq → Rq
  unfolding has
  requeue job_id rq =
      if has job_id rq.known
      then if is_some (worker_for_job job_id)
        then rq
        else if server.can_remove job_id
        then (let removed = record rq { started = select (λ k. not (k == job_id)) rq.started } in
            if server.can_enqueue job_id
            then record removed { queued = rq.queued ++ (job_id ∷ []) }
            else removed)
        else rq
      else rq

  unfoldable pub requeue_all : List ℕ → Rq → Rq
  requeue_all [] rq = rq
  requeue_all (job_id ∷ job_ids) rq = requeue_all job_ids (requeue job_id rq)

  unfoldable pub requeue_interrupted_jobs : Rq → Rq
  requeue_interrupted_jobs rq = requeue_all (select (λ j. not (has j rq.queued)) rq.started) rq
