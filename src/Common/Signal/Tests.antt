-- ===== src/Common/Signal/Tests.antt =====
-- A run of the signal of async/src/common/signal.rs: a signal overtaken by a reset, and one more.
use uefi_async.Base.{◌≡◌, refl, ℕ, [], ◌∷◌, none, some, true, false}
use uefi_async.Common.Signal.{
  MultiCoreSignal, write, set, unset, clear, check, take, finish, step, new, run,
}
use uefi_async.Common.Signal.Mailbox.{mailbox_delivers}

abbrev full : MultiCoreSignal ℕ
full = record {
  data_ = some 9;
  has_data = true;
  writers = 0;
  resets = 0;
  pollers = 1;
  taking = false;
}

calls-full : run (write 5 ∷ unset ∷ set ∷ check ∷ clear ∷ write 9 ∷ set ∷ []) new ≡ some full
unfolding step
calls-full = refl

mailbox_delivers_example :
    run (check ∷ take ∷ finish ∷ []) full
    ≡ some (record full { data_ = none; has_data = false; taking = false })
mailbox_delivers_example =
    mailbox_delivers (write 5 ∷ unset ∷ set ∷ check ∷ clear ∷ write 9 ∷ set ∷ []) 9 full calls-full
      refl refl refl
