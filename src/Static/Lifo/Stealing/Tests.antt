-- ===== src/Static/Lifo/Stealing/Tests.antt =====
-- A steal of two of three items, during which the owner pops the third and pushes another.
use uefi_async.Base.{◌<◌, ◌≡◌, refl, List, [], ◌∷◌, none, arith, inr}
use uefi_async.Static.Lifo.Deque
use uefi_async.Static.Lifo.Stealing.{Shared, Event, book, copy, publish, push_item, pop_item, run}
use uefi_async.Static.Lifo.Stealing.Atomic.{
  Spec, spec_run, spec_step, CarefulRun, pushed_to, popped_to, book_share, share_of,
}
use uefi_async.Static.Lifo.Stealing.Moves.{Implements}
use uefi_async.Static.Lifo.Stealing.Runs.{run_refines}

-- The counters are just before their wrap-around.
abbrev before : Shared
before = record {
  queue = record {
    push_count = 1;
    pop_count_and_head = 4294967294;
    head = 4294967294;
    buffer = 13 ∷ 0 ∷ 11 ∷ 12 ∷ [];
  };
  theft = none;
  stolen = [];
  popped = [];
  refused = [];
}

abbrev three_items : Spec
three_items = record {
  deque = 11 ∷ 12 ∷ 13 ∷ [];
  held = [];
  copied = 0;
  stolen = [];
  popped = [];
  refused = [];
}

two_small : 2 < 32
two_small = omega arith

before-Implements : Implements 2 two_small before three_items
before-Implements = record {
  valid = record {
    room = refl;
    pushes = omega arith;
    packed = omega arith;
    settled = refl;
    fits = omega arith;
  };
  deque = refl;
  fits = omega arith;
  theft = (refl, refl, refl);
  stolen = refl;
  popped = refl;
  refused = refl;
}

abbrev events : List Event
events = book (λ n. 2) 10 ∷ copy ∷ pop_item ∷ push_item 14 ∷ copy ∷ publish ∷ []

steals : (spec_run 4 events three_items).stolen ≡ 11 ∷ 12 ∷ []
unfolding spec_run spec_step pushed_to Deque.push popped_to Deque.pop book_share share_of
steals = refl

events_careful : CarefulRun 4 events three_items
unfolding spec_step pushed_to Deque.push popped_to Deque.pop book_share share_of
events_careful = (tt, (tt, (tt, (inr (omega arith), (tt, (tt, tt))))))

run_refines_example : Implements 2 two_small (run 4 events before) (spec_run 4 events three_items)
run_refines_example =
    run_refines 2 two_small events before three_items events_careful before-Implements
