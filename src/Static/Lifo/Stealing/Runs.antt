-- ===== src/Static/Lifo/Stealing/Runs.antt =====
-- Runs of the owner and the thieves of one queue (async/src/no_alloc/lifo.rs).
use uefi_async.Base.{ℕ, ◌^◌, ◌<◌, refl, List, [], ◌∷◌}
use uefi_async.Static.Lifo.Stealing.{
  Shared, Event, book, copy, publish, push_item, pop_item, step, run,
}
use uefi_async.Static.Lifo.Stealing.Atomic.{Spec, spec_step, spec_run, Careful, CarefulRun}
use uefi_async.Static.Lifo.Stealing.Moves.{Implements, pop-Implements, push-Implements}
use uefi_async.Static.Lifo.Stealing.Bookings.{book-Implements}
use uefi_async.Static.Lifo.Stealing.Endings.{copy-Implements, publish-Implements}

module _ (k : ℕ) (small : k < 32) where
  step-Implements :
      (e : Event) (s : Shared) (a : Spec)
      → Careful (2 ^ k) e a
      → Implements k small s a
      → Implements k small (step (2 ^ k) e s) (spec_step (2 ^ k) e a)
  unfolding step spec_step
  step-Implements (book count_fn max_count) s a careful h =
      book-Implements k small s a count_fn max_count s.theft refl h.theft h
  step-Implements copy s a careful h = copy-Implements k small s a s.theft refl h.theft h
  step-Implements publish s a careful h = publish-Implements k small s a s.theft refl h.theft h
  step-Implements (push_item x) s a careful h = push-Implements k small s a x careful h
  step-Implements pop_item s a careful h = pop-Implements k small s a h

  -- However the accesses of the owner and of any number of thieves follow one another, as long as
  -- each push during a steal finds room behind the items of that steal: the queue does what a list
  -- does from whose front a steal takes its items in one step when it books them. The same pushes are
  -- refused, the same items are popped, and the thieves get the same items in the same order.
  pub run_refines :
      (es : List Event) (s : Shared) (a : Spec)
      → CarefulRun (2 ^ k) es a
      → Implements k small s a
      → Implements k small (run (2 ^ k) es s) (spec_run (2 ^ k) es a)
  unfolding run spec_run
  run_refines [] s a careful h = h
  run_refines (e ∷ es) s a (careful, rest) h =
      run_refines es (step (2 ^ k) e s) (spec_step (2 ^ k) e a) rest
        (step-Implements e s a careful h)
