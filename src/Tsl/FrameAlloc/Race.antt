-- ===== src/Tsl/FrameAlloc/Race.antt =====
-- The last free frame, and two threads that allocate at once. After a failed swap the loop of
-- `_frame_alloc_pop_free` in tsl/frame_alloc.c goes on with the head that the swap loaded, and does
-- not look again whether it is NULL.
use tsl_sdr.Prelude.{◌≡◌, ◌≢◌, refl, inl, sym, ◌∙◌}
use tsl_sdr.Tsl.FrameAlloc.State.{Ptr}
use tsl_sdr.Tsl.FrameAlloc.Threads.{
  Owner, client, Memory, idle, pop_loaded, pop_ready, crashed, set_owner, swap, pop_load, pop_read,
  pop_crash, pop_win, pop_lose, System, set_pc, pick, Reach, here, later, start,
}

module _ (next : Ptr → Ptr) (owner : Ptr → Owner) (p : Ptr) (ne : p ≢ 0) (last : next p ≡ 0) where
  -- Thread 0 and then thread 1 load the head and read its link.
  abbrev pub both_ready : System
  both_ready = record {
    mem = (start next p owner).mem;
    pc =
        set_pc
          (set_pc (set_pc (set_pc (λ _. idle) 0 (pop_loaded p 0 0)) 0 (pop_ready p 0 (next p) 0)) 1
            (pop_loaded p 0 0))
          1 (pop_ready p 0 (next p) 0);
  }

  pub Reach-both_ready : Reach (start next p owner) both_ready
  unfolding set_pc
  Reach-both_ready =
      later
        (later (later (later here (pick 0 (pop_load ne))) (pick 0 (pop_read ne)))
          (pick 1 (pop_load ne)))
        (pick 1 (pop_read ne))

  -- Thread 0 wins its swap and empties the list; thread 1 loses, and loads the NULL.
  abbrev pub emptied : Memory
  emptied = swap both_ready.mem (next p) 0 (set_owner owner p client)

  abbrev pub one_left : System
  one_left = record {
    mem = emptied;
    pc = set_pc (set_pc both_ready.pc 0 idle) 1 (pop_loaded (next p) 1 1);
  }

  pub Reach-one_left : Reach (start next p owner) one_left
  unfolding set_pc
  Reach-one_left =
      later (later Reach-both_ready (pick 0 (pop_win refl refl)))
        (pick 1 (pop_lose (inl (λ e. ne (sym e ∙ last)))))

  -- With one frame left, two threads that allocate at once can get to the read of `next` at NULL.
  pub pop_free-crashed : (t : System) × Reach (start next p owner) t × (t.pc 1 ≡ crashed)
  unfolding set_pc
  pop_free-crashed = (
    record { mem = emptied; pc = set_pc one_left.pc 1 crashed },
    later Reach-one_left (pick 1 (pop_crash last)),
    refl,
  )
