-- ===== src/GcodeQueue/History.antt =====
-- The job history of src/gcode_queue.cpp as a list, the newest job first, of at most 200.
use bisso_e350_controller.Base.{
  ℕ, zero, suc, ◌+◌, ◌%◌, ◌≤◌, ◌<◌, ◌≡◌, refl, sym, ap, ap₂, ◌∙◌, inl, inr, Bool-cases, ltb,
  if◌then◌else◌, List, ◌∷◌, arith, length, get_or, set, length-set, get_or-set_self, get_or-set_ne,
  take, min,
}
use bisso_e350_controller.GcodeQueue.Jobs.{
  max_jobs, Job, Queue, zero_job, new_job, add, newest_index, newest_from,
}

module _ {P : Type 0} where
  pub record IsValid (q : Queue P) : Type 0 where
    pub size : length q.jobs ≡ max_jobs
    pub head_in : q.job_head < max_jobs
    pub count_in : q.job_count ≤ max_jobs

  abbrev pub history : Queue P → List (Job P)
  history q = newest_from q.jobs q.job_head 0 q.job_count

  -- Behind a write at the head, the jobs that were there move back by one place.
  newest_from-set :
      (jobs : List (Job P)) (x : Job P) (head i n : ℕ)
      → length jobs ≡ max_jobs
      → head < max_jobs
      → i + n < max_jobs
      → newest_from (set jobs head x) ((head + 1) % max_jobs) (suc i) n ≡ newest_from jobs head i n
  unfolding newest_from
  newest_from-set jobs x head i zero l h b = refl
  newest_from-set jobs x head i (suc n) l h b =
      ap₂ ◌∷◌ (rw same (get_or-set_ne jobs head (newest_index head i) x zero_job (omega arith)))
        (newest_from-set jobs x head (suc i) n l h (omega arith))
    where
      same : newest_index ((head + 1) % max_jobs) (suc i) ≡ newest_index head i
      same = omega arith

  take-newest_from :
      (m : ℕ) (jobs : List (Job P)) (head i n : ℕ)
      → take m (newest_from jobs head i n) ≡ newest_from jobs head i (min m n)
  unfolding newest_from
  take-newest_from zero jobs head i n = let e : min 0 n ≡ 0 = omega arith in rw e
  take-newest_from (suc m) jobs head i zero = let e : min (suc m) 0 ≡ 0 = omega arith in rw e
  take-newest_from (suc m) jobs head i (suc n) =
      let e : min (suc m) (suc n) ≡ suc (min m n) = omega arith in
      rw e (
        ap (λ t. get_or jobs (newest_index head i) zero_job ∷ t)
          (take-newest_from m jobs head (suc i) n))

  newest_after :
      (jobs : List (Job P)) (x : Job P) (head n : ℕ)
      → length jobs ≡ max_jobs
      → head < max_jobs
      → n < max_jobs
      → newest_from (set jobs head x) ((head + 1) % max_jobs) 0 (suc n)
        ≡ x ∷ newest_from jobs head 0 n
  unfolding newest_from
  newest_after jobs x head n l h b =
      ap₂ ◌∷◌ (rw here (get_or-set_self jobs head x zero_job (omega arith)))
        (newest_from-set jobs x head 0 n l h (omega arith))
    where
      here : newest_index ((head + 1) % max_jobs) 0 ≡ head
      here = omega arith

  newest-set :
      (jobs : List (Job P)) (x : Job P) (head n : ℕ)
      → length jobs ≡ max_jobs
      → head < max_jobs
      → n ≤ max_jobs
      → newest_from
          (set jobs head x)
          ((head + 1) % max_jobs)
          0
          (if ltb n max_jobs then n + 1 else n)
        ≡ take max_jobs (x ∷ newest_from jobs head 0 n)
  newest-set jobs x head n l h b = elim (Bool-cases (ltb n max_jobs)) [
    | inl e ↦
        let c : n < max_jobs = ground arith in
        let m : min 199 n ≡ n = omega arith in
        let p : n + 1 ≡ suc n = omega arith in
        rw e (
          rw p (
            newest_after jobs x head n l h c
            ∙ ap (λ t. x ∷ t)
                (sym (take-newest_from 199 jobs head 0 n ∙ ap (newest_from jobs head 0) m))))
    | inr e ↦
        let c : n ≡ 200 = ground arith in
        let m : min 199 200 ≡ 199 = omega arith in
        rw e (
          rw c (
            newest_after jobs x head 199 l h (omega arith)
            ∙ ap (λ t. x ∷ t)
                (sym (take-newest_from 199 jobs head 0 200 ∙ ap (newest_from jobs head 0) m))))
  ]

  -- Adding a command that is not empty gives the next id, keeps the queue well formed, and puts
  -- the new job in front of the history, of which the last job goes when there are 200.
  pub add-history :
      (now : ℕ) (position : List P) (c : ℕ) (command : List ℕ) (q : Queue P)
      → IsValid q
      → let (q', id) = add now position (c ∷ command) q in
        IsValid q'
        × (id ≡ q.next_job_id)
        × (history q' ≡ take max_jobs (new_job now position (c ∷ command) q ∷ history q))
  unfolding add
  add-history now position c command q v = (
    record {
      size = length-set q.jobs q.job_head (new_job now position (c ∷ command) q) ∙ v.size;
      head_in = omega arith;
      count_in = ground arith;
    },
    refl,
    newest-set q.jobs (new_job now position (c ∷ command) q) q.job_head q.job_count v.size v.head_in
        v.count_in,
  )
