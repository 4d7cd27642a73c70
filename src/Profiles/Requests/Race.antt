-- ===== src/Profiles/Requests/Race.antt =====
-- Two clients and the settings thread: the steps in which a request is made and served, one after
-- the other.
use dstx.Common.{ℕ, ◌≡◌, refl, false, Bool-cases, inl, inr, Option, List, [], ◌∷◌, if◌then◌else◌}
use dstx.Common.Int.{ℤ, pos, eqb_ℤ}
use dstx.Profiles.Requests.{Manager, Shared, Disk, serve, profile_process_requests, post_request}

-- The arguments of profile_request_sync.
pub record Post : Type 0 where
  pub request : ℤ
  pub name : Option ℕ
  pub auto_enable : ℤ
  pub auto_delay : ℤ

abbrev pub posted : Post → Shared → Shared
posted p shm = post_request p.request p.name p.auto_enable p.auto_delay shm

-- What the thread holds between the lock at its start and the one at its end: nothing, or the result
-- of the request that it read.
pub data Thread : Type 0 where
  idle : Thread
  working : (result : ℤ) → Thread

pub record World : Type 0 where
  pub manager : Manager
  pub shm : Shared
  pub thread : Thread

-- A client posts; the thread reads the request and serves it up to the last lock; it stores the
-- answer.
pub data Step : Type 0 where
  client_posts : Post → Step
  thread_takes : Step
  thread_stores : Step

unfoldable pub take_request : Disk → World → World
take_request disk w =
    let r = serve disk w.shm.profile_request w.shm.profile_name w.manager w.shm in
    if eqb_ℤ w.shm.profile_request (pos 0)
    then w
    else record { manager = r.manager; shm = r.shm; thread = working r.result }

unfoldable pub store_answer : Thread → World → World
store_answer idle w = w
store_answer (working result) w = record w {
  shm = record (w.shm) { profile_response = result; profile_request = pos 0 };
  thread = idle;
}

unfoldable pub step : Disk → Step → World → World
unfolding take_request store_answer
step disk (client_posts p) w = record w { shm = posted p w.shm }
step disk thread_takes w = take_request disk w
step disk thread_stores w = store_answer w.thread w

abbrev pub run_steps : Disk → List Step → World → World
run_steps disk [] w = w
run_steps disk (s ∷ steps) w = run_steps disk steps (step disk s w)

-- Without a post in between, the steps of the thread are one call of profile_process_requests.
pub run_steps-atomic :
    (disk : Disk) (m : Manager) (shm : Shared)
    → run_steps disk
        (thread_takes ∷ thread_stores ∷ [])
        (record { manager = m; shm = shm; thread = idle })
      ≡ record {
        manager = (profile_process_requests disk m shm).0;
        shm = (profile_process_requests disk m shm).1;
        thread = idle;
      }
unfolding step take_request store_answer profile_process_requests
run_steps-atomic disk m shm = elim (Bool-cases (eqb_ℤ shm.profile_request (pos 0))) [
  | inl e ↦ rw e refl
  | inr e ↦ rw e refl
]

-- A request that is posted while the thread serves another one is lost, and its client gets the
-- other's answer: after the steps in which `a` is posted and read, `b` is posted and the answer is
-- stored, the response is the result of `a`, no request is pending, and another round of the thread
-- changes nothing, so that `b` is never served.
pub run_steps-lost :
    (disk : Disk) (m : Manager) (shm : Shared) (a b : Post)
    → eqb_ℤ a.request (pos 0) ≡ false
    → let start : World = record { manager = m; shm = shm; thread = idle } in
      let served = serve disk a.request (posted a shm).profile_name m (posted a shm) in
      let after =
        run_steps disk
          (client_posts a ∷ thread_takes ∷ client_posts b ∷ thread_stores ∷ [])
          start in
      (after.shm.profile_response ≡ served.result)
      × (after.manager ≡ served.manager)
      × (run_steps disk (thread_takes ∷ thread_stores ∷ []) after ≡ after)
unfolding step take_request store_answer post_request
run_steps-lost disk m shm a b h = rw h (refl, refl, refl)
