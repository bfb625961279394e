-- ===== src/Tsl/WorkerThread/Balance.antt =====
-- A worker of tsl/worker_thread.c takes nothing when it cannot start, and gives back all that it
-- took.
use tsl_sdr.Prelude.{
  ℕ, ◌+◌, ◌-◌, ◌≡◌, ◌≢◌, refl, ap, ◌⊎◌, inl, inr, Bool, true, false, Option, none, some, arith,
}
use tsl_sdr.Tsl.Result.{a_ok, a_e_nothread}
use tsl_sdr.Tsl.WorkerThread.Threads.{State}
use tsl_sdr.Tsl.WorkerThread.New.{
  World, Luck, WorkerThread, Outcome, cpu_mask_delete, cpu_mask_new, cpu_mask_set, thread_create,
  thread_start, thread_destroy, thread_join, worker_thread_new_mask, worker_thread_new,
  worker_thread_delete, ended, is_stopped,
}

-- What became of a worker that was to start: A_OK with a thread, and after the thread's end
-- `worker_thread_delete` gives the system back as it was, or gives A_E_NOTHREAD and changes nothing
-- where the join fails; or an error, and the system is as it was.
abbrev pub Balances : State → World → Outcome → Type 0
Balances st w o =
    ((o.code ≡ a_ok)
      × (worker_thread_delete true (ended st o.worker) o.world
          ≡ (a_ok, record { st = st; thr = none; mask = none }, w))
      × (worker_thread_delete false (ended st o.worker) o.world
          ≡ (a_e_nothread, ended st o.worker, o.world)))
    ⊎ ((o.code ≢ a_ok) × (o.world ≡ w))

-- What was added is taken off again.
taken_back :
    (w : World) (t m c : ℕ)
    → t ≡ w.threads
    → m ≡ w.masks
    → c ≡ w.sets
    → Path World (record { threads = t; masks = m; sets = c }) w
taken_back w t m c e f g = rw (e, f, g) refl

less_one : (n : ℕ) → n + 1 - 1 ≡ n
less_one n = omega arith

-- With no mask, by what the system grants.
unmasked-Balances :
    (mask_memory set_memory thread_memory starts : Bool) (in_set : ℕ → Bool) (w : World)
    (old : WorkerThread) (st : State)
    → is_stopped st ≡ true
    → Balances st w (
        worker_thread_new
          (record {
            mask_memory = mask_memory;
            set_memory = set_memory;
            thread_memory = thread_memory;
            starts = starts;
            in_set = in_set;
          })
          old
          none
          w)
unfolding worker_thread_new worker_thread_new_mask worker_thread_delete thread_create thread_start
    thread_destroy thread_join cpu_mask_delete
unmasked-Balances mm sm false starts in_set w old st stop = inr ((λ e. absurd cc), refl)
unmasked-Balances mm sm true false in_set w old st stop =
    inr ((λ e. absurd cc), taken_back w _ _ _ (less_one w.threads) refl refl)
unmasked-Balances mm sm true true in_set w old st stop = inl (
  refl,
  rw stop (
      ap (λ u. (a_ok, record { st = st; thr = none; mask = none }, u))
        (taken_back w _ _ _ (less_one w.threads) refl refl)),
  rw stop refl,
)

-- With a mask.
masked-Balances :
    (mask_memory set_memory thread_memory starts : Bool) (in_set : ℕ → Bool) (w : World)
    (old : WorkerThread) (cpu : ℕ) (st : State)
    → is_stopped st ≡ true
    → Balances st w (
        worker_thread_new
          (record {
            mask_memory = mask_memory;
            set_memory = set_memory;
            thread_memory = thread_memory;
            starts = starts;
            in_set = in_set;
          })
          old
          (some cpu)
          w)
unfolding worker_thread_new worker_thread_new_mask worker_thread_delete thread_create thread_start
    thread_destroy thread_join cpu_mask_delete cpu_mask_new cpu_mask_set
masked-Balances false sm tm starts in_set w old cpu st stop = inr ((λ e. absurd cc), refl)
masked-Balances true false tm starts in_set w old cpu st stop =
    inr ((λ e. absurd cc), taken_back w _ _ _ refl (less_one w.masks) refl)
masked-Balances true true false starts in_set w old cpu st stop =
    inr ((λ e. absurd cc), taken_back w _ _ _ refl (less_one w.masks) (less_one w.sets))
masked-Balances true true true false in_set w old cpu st stop =
    inr (
      (λ e. absurd cc),
      taken_back w _ _ _ (less_one w.threads) (less_one w.masks) (less_one w.sets),
    )
masked-Balances true true true true in_set w old cpu st stop = inl (
  refl,
  rw stop (
      ap (λ u. (a_ok, record { st = st; thr = none; mask = none }, u))
        (taken_back w _ _ _ (less_one w.threads) (less_one w.masks) (less_one w.sets))),
  rw stop refl,
)

-- Whatever the system grants, with a CPU or without: `worker_thread_new` gives A_OK, and once the
-- thread of a worker that is stopped or told to stop has ended, `worker_thread_delete` joins it, gives
-- A_OK and leaves the system as it was before, or, where it cannot join it, gives A_E_NOTHREAD and
-- changes nothing; or it gives an error, and the system is as it was before.
pub worker_thread_new-Balances :
    (luck : Luck) (w : World) (old : WorkerThread) (cpu_core : Option ℕ) (st : State)
    → is_stopped st ≡ true
    → Balances st w (worker_thread_new luck old cpu_core w)
worker_thread_new-Balances luck w old none st stop =
    unmasked-Balances luck.mask_memory luck.set_memory luck.thread_memory luck.starts luck.in_set w
      old st stop
worker_thread_new-Balances luck w old (some cpu) st stop =
    masked-Balances luck.mask_memory luck.set_memory luck.thread_memory luck.starts luck.in_set w
      old cpu st stop
