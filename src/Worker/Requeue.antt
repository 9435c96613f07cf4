-- ===== src/Worker/Requeue.antt =====
-- What a restart does to the jobs (securedrop/worker.py, `requeue_interrupted_jobs`).
use mathlib.Core.List.{append-nil, append_assoc}
use ab.Base.{
  ℕ, ◌≡◌, refl, sym, ap, ◌∙◌, Bool, true, false, not, ◌&&◌, ◌||◌, is_some, List, [], ◌∷◌, ◌++◌,
  select, ◌==◌, if◌then◌else◌, arith, Bool-cases, inl, inr, All, All-intro, All-map, select_congr,
  select-select, select_keep, select_none, All-select, select-append,
}
use native.Mathlib.Decide.{ℕ_discrete}
use ab.Worker.{Rq, RqServer, has, worker_for_job, requeue, requeue_all, requeue_interrupted_jobs}

module _ (server : RqServer) where
  -- Details exist, no living worker is at it, and the registry gives it up.
  abbrev pub is_free : List ℕ → ℕ → Bool
  is_free known j = has j known && (not (is_some (worker_for_job server j)) && server.can_remove j)

  abbrev pub is_interrupted : Rq → ℕ → Bool
  is_interrupted rq j = not (has j rq.queued) && is_free rq.known j

  requeue-eq :
      (j : ℕ) (rq : Rq)
      → requeue server j rq ≡ record rq {
        queued = rq.queued ++ select (λ k. is_free rq.known k && server.can_enqueue k) (j ∷ []);
        started = if is_free rq.known j then select (λ k. not (k == j)) rq.started else rq.started;
      }
  unfolding requeue
  requeue-eq j rq = ground (arith, append-nil rq.queued)

  abbrev kept : List ℕ → List ℕ → ℕ → Bool
  kept known js k = not (has k js && is_free known k)

  started-kept :
      (known : List ℕ) (j : ℕ) (started : List ℕ)
      → (if is_free known j then select (λ k. not (k == j)) started else started)
        ≡ select (kept known (j ∷ [])) started
  unfolding has
  started-kept known j started = elim (Bool-cases (is_free known j)) [
    | inl free ↦ rw free (
        select_congr _ _ started (
          All-intro (λ k. not (k == j) ≡ kept known (j ∷ []) k)
            (λ k. elim (ℕ_discrete k j) [
              | yes e ↦ let same : is_free known k ≡ true = rw e free in ground arith
              | no ne ↦ ground arith
            ])
            started))
    | inr busy ↦ rw busy (
        sym (
          select_keep (kept known (j ∷ [])) started (
            All-intro (λ k. kept known (j ∷ []) k ≡ true)
              (λ k. elim (ℕ_discrete k j) [
                | yes e ↦ let same : is_free known k ≡ false = rw e busy in ground arith
                | no ne ↦ ground arith
              ])
              started)))
  ]

  abbrev passes : List ℕ → ℕ → Bool
  passes known k = is_free known k && server.can_enqueue k

  requeue_all-eq :
      (js : List ℕ) (rq : Rq)
      → requeue_all server js rq ≡ record rq {
        queued = rq.queued ++ select (passes rq.known) js;
        started = select (kept rq.known js) rq.started;
      }
  unfolding requeue_all has
  requeue_all-eq [] rq =
      let same : select (kept rq.known []) rq.started ≡ rq.started =
        select_keep (kept rq.known []) rq.started
          (All-intro (λ k. kept rq.known [] k ≡ true) (λ k. refl) rq.started) in
      ground (arith, append-nil rq.queued)
  requeue_all-eq (j ∷ js) rq =
      let next : Rq = requeue server j rq in
      let step = requeue-eq j rq in
      let known : next.known ≡ rq.known = ap (λ (r : Rq). r.known) step in
      let queued : next.queued ≡ rq.queued ++ select (passes rq.known) (j ∷ []) =
        ap (λ (r : Rq). r.queued) step in
      let started : next.started ≡ select (kept rq.known (j ∷ [])) rq.started =
        ap (λ (r : Rq). r.started) step ∙ started-kept rq.known j rq.started in
      let all_queued : next.queued ++ select (passes next.known) js
          ≡ rq.queued ++ select (passes rq.known) (j ∷ js) =
        ap (λ q. q ++ select (passes next.known) js) queued
        ∙ append_assoc rq.queued (select (passes rq.known) (j ∷ [])) _
        ∙ ap (λ l. rq.queued ++ (select (passes rq.known) (j ∷ []) ++ select (passes l) js)) known
        ∙ ap (λ l. rq.queued ++ l) (sym (select-append (passes rq.known) (j ∷ []) js)) in
      let all_started : select (kept next.known js) next.started
          ≡ select (kept rq.known (j ∷ js)) rq.started =
        ap (λ l. select (kept l js) next.started) known
        ∙ ap (select (kept rq.known js)) started
        ∙ select-select (kept rq.known js) (kept rq.known (j ∷ [])) rq.started
        ∙ select_congr _ _ rq.started (
            All-intro
              (λ k. (kept rq.known (j ∷ []) k && kept rq.known js k) ≡ kept rq.known (j ∷ js) k)
              (λ k. ground arith) rq.started) in
      requeue_all-eq js next
      ∙ (λ i. record { queued = all_queued i; started = all_started i; known = known i })

has-select : (p : ℕ → Bool) (j : ℕ) (js : List ℕ) → has j (select p js) ≡ (p j && has j js)
unfolding has
has-select p j [] = ground arith
has-select p j (k ∷ js) = elim (ℕ_discrete k j) [
  | yes e ↦ let same : p k ≡ p j = ap p e in ground (arith, has-select p j js)
  | no ne ↦ ground (arith, has-select p j js)
]

has-append : (j : ℕ) (js ks : List ℕ) → has j (js ++ ks) ≡ (has j js || has j ks)
unfolding has
has-append j [] ks = refl
has-append j (k ∷ js) ks = ground (arith, has-append j js ks)

All-has : (js : List ℕ) → All (λ j. has j js ≡ true) js
unfolding has
All-has [] = tt
All-has (j ∷ js) = (
  ground arith,
  All-map {P = λ k. has k js ≡ true} {Q = λ k. has k (j ∷ js) ≡ true} (λ k h. ground arith) js
      (All-has js),
)

module _ (server : RqServer) (rq : Rq) where
  abbrev after : Rq
  after = requeue_interrupted_jobs server rq

  pub requeue_interrupted_jobs_lem :
      (after.queued
        ≡ rq.queued ++ select (λ j. is_interrupted server rq j && server.can_enqueue j) rq.started)
      × (after.started ≡ select (λ j. not (is_interrupted server rq j)) rq.started)
      × (after.known ≡ rq.known)
  unfolding requeue_interrupted_jobs
  requeue_interrupted_jobs_lem =
      let waiting : ℕ → Bool = λ j. not (has j rq.queued) in
      let all_eq = requeue_all-eq server (select waiting rq.started) rq in
      (
        ap (λ (r : Rq). r.queued) all_eq
            ∙ ap (λ l. rq.queued ++ l)
                (select-select (passes server rq.known) waiting rq.started
                  ∙ select_congr _ _ rq.started (
                      All-intro
                        (λ j.
                          (waiting j && passes server rq.known j)
                          ≡ (is_interrupted server rq j && server.can_enqueue j))
                        (λ j. ground arith) rq.started)),
        ap (λ (r : Rq). r.started) all_eq
            ∙ select_congr _ _ rq.started (
                All-map {P = λ j. has j rq.started ≡ true}
                  {Q = λ j.
                    kept server rq.known (select waiting rq.started) j
                    ≡ not (is_interrupted server rq j)}
                  (λ j h. ground (arith, has-select waiting j rq.started)) rq.started
                  (All-has rq.started)),
        ap (λ (r : Rq). r.known) all_eq,
      )

-- A job that stays in the registry is left alone the next time.
not_again :
    (server : RqServer) (rq : Rq) (j : ℕ)
    → not (is_interrupted server rq j) ≡ true
    → is_interrupted server (requeue_interrupted_jobs server rq) j ≡ false
not_again server rq j h =
    let (queued, started, known) = requeue_interrupted_jobs_lem server rq in
    let held = ap (has j) queued ∙ has-append j rq.queued _ in
    let same = ap (λ l. is_free server l j) known in
    elim (Bool-cases (has j rq.queued)) [
      | inl in_queue ↦ rw (held, in_queue) refl
      | inr waiting ↦
          let busy : is_free server rq.known j ≡ false = ground arith in
          let still : is_free server (requeue_interrupted_jobs server rq).known j ≡ false =
            same ∙ busy in
          ground arith
    ]

-- A second restart, of which rq answers the same, changes nothing: no job is queued twice.
requeue_interrupted_jobs_twice :
    (server : RqServer) (rq : Rq)
    → requeue_interrupted_jobs server (requeue_interrupted_jobs server rq)
      ≡ requeue_interrupted_jobs server rq
requeue_interrupted_jobs_twice server rq =
    let once : Rq = requeue_interrupted_jobs server rq in
    let (queued, started, known) = requeue_interrupted_jobs_lem server rq in
    let (queued', started', known') = requeue_interrupted_jobs_lem server once in
    let none_left : All (λ j. is_interrupted server once j ≡ false) once.started = rw started (
      All-map {P = λ j. not (is_interrupted server rq j) ≡ true}
        {Q = λ j. is_interrupted server once j ≡ false} (not_again server rq) _
        (All-select (λ j. not (is_interrupted server rq j)) rq.started)) in
    (λ i. record {
      queued =
          (queued'
              ∙ ap (λ l. once.queued ++ l)
                  (select_none _ once.started (
                    All-map {P = λ j. is_interrupted server once j ≡ false}
                      {Q = λ j. (is_interrupted server once j && server.can_enqueue j) ≡ false}
                      (λ j h. rw h refl) once.started none_left))
              ∙ append-nil once.queued)
            i;
      started =
          (started'
              ∙ select_keep _ once.started (
                  All-map {P = λ j. is_interrupted server once j ≡ false}
                    {Q = λ j. not (is_interrupted server once j) ≡ true} (λ j h. rw h refl)
                    once.started none_left))
            i;
      known = known' i;
    })
