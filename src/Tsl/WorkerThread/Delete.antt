-- ===== src/Tsl/WorkerThread/Delete.antt =====
-- `worker_thread_delete` of tsl/worker_thread.c frees the thread, and not before the thread is
-- done; and it can get there from every state in which the worker is told to stop.
use tsl_sdr.Prelude.{◌↔◌, ◌⊎◌, inl, inr, Bool-cases, false, ◌≡◌, ◌≢◌, refl, sym, ◌∙◌, true}
use tsl_sdr.Tsl.WorkerThread.Threads.{
  State, ThreadState, thread_idle, Worker, exited, destroying, deleted, System, Step, apply,
  apply_fails, begin, cancel, finish, flag, terminate, ask, request, delete, join, join_fails,
  destroy, destroy_busy, Reach, here, later, start,
}

-- The owner is past the join only when the worker has exited, and then the thread can be destroyed.
pub record IsDone (s : System) : Type 0 where
  pub joined : s.owner ≡ destroying → (s.worker ≡ exited) × (s.thread ≡ thread_idle)
  pub freed : s.owner ≡ deleted → (s.worker ≡ exited) × (s.gone ≡ true)
  pub kept : s.gone ≡ true → s.owner ≡ deleted

module _ {s : System} (inv : IsDone s) where
  -- A worker that has not exited is not joined.
  early :
      (w : Worker) (th : ThreadState) (st : State)
      → s.worker ≢ exited
      → IsDone (record s { worker = w; thread = th; st = st })
  early w th st busy = record {
    joined = λ e. absurd (busy (inv.joined e).0);
    freed = λ e. absurd (busy (inv.freed e).0);
    kept = inv.kept;
  }

Step-IsDone : {s t : System} → Step s t → IsDone s → IsDone t
Step-IsDone {s} (apply e) inv = early inv _ _ s.st (λ f. let no = sym e ∙ f in absurd cc)
Step-IsDone {s} (apply_fails e) inv =
    early inv _ s.thread s.st (λ f. let no = sym e ∙ f in absurd cc)
Step-IsDone {s} (begin e f) inv = early inv _ s.thread _ (λ g. let no = sym e ∙ g in absurd cc)
Step-IsDone {s} (cancel e f) inv = early inv _ s.thread s.st (λ g. let no = sym e ∙ g in absurd cc)
Step-IsDone {s} (finish e) inv = early inv _ s.thread s.st (λ f. let no = sym e ∙ f in absurd cc)
Step-IsDone {s} (flag e) inv = early inv _ s.thread _ (λ f. let no = sym e ∙ f in absurd cc)
Step-IsDone {s} (terminate e) inv = early inv _ _ s.st (λ f. let no = sym e ∙ f in absurd cc)
Step-IsDone (ask i e) inv = record { joined = inv.joined; freed = inv.freed; kept = inv.kept }
Step-IsDone (request i e) inv = record { joined = inv.joined; freed = inv.freed; kept = inv.kept }
Step-IsDone (delete e f) inv = record {
  joined = λ g. absurd cc;
  freed = λ g. absurd cc;
  kept = λ g. let no = sym e ∙ inv.kept g in absurd cc;
}
Step-IsDone (join e f) inv = record {
  joined = λ g. (f, refl);
  freed = λ g. absurd cc;
  kept = λ g. let no = sym e ∙ inv.kept g in absurd cc;
}
Step-IsDone (join_fails e) inv = record {
  joined = λ g. absurd cc;
  freed = λ g. absurd cc;
  kept = λ g. let no = sym e ∙ inv.kept g in absurd cc;
}
Step-IsDone (destroy e f) inv = record {
  joined = λ g. absurd cc;
  freed = λ g. ((inv.joined e).0, refl);
  kept = λ g. refl;
}
Step-IsDone (destroy_busy e f) inv = absurd (f (inv.joined e).1)

pub Reach-IsDone : {t : System} → Reach start t → IsDone t
Reach-IsDone here = record {
  joined = λ e. absurd cc;
  freed = λ e. absurd cc;
  kept = λ e. absurd cc;
}
Reach-IsDone (later r st) = Step-IsDone st (Reach-IsDone r)

-- Over every interleaving: the thread is freed exactly when `worker_thread_delete` is through, and
-- unless the memory is still there the worker has exited, so that it does not touch what is freed.
pub Reach-freed :
    {t : System}
    → Reach start t
    → ((t.gone ≡ true) ↔ (t.owner ≡ deleted)) × ((t.gone ≡ false) ⊎ (t.worker ≡ exited))
Reach-freed {t} r =
    let inv = Reach-IsDone r in
    (
      (inv.kept, λ e. (inv.freed e).1),
      elim (Bool-cases t.gone) [
        | inl gone ↦ inr (inv.freed (inv.kept gone)).0
        | inr there ↦ inl there
      ],
    )
