-- ===== src/Static/Lifo/Stealing/Atomic.antt =====
-- What the queue of async/src/no_alloc/lifo.rs promises to its owner and its thieves together: a list
-- from whose front a steal takes its items in one step, when it books them.
use uefi_async.Base.{
  ℕ, ◌+◌, ◌%◌, ◌^◌, ◌<◌, ◌≡◌, ◌⊎◌, List, [], ◌∷◌, ◌++◌, Option, length, min, take, drop, ◌==◌,
  if◌then◌else◌,
}
use uefi_async.Static.Lifo.{Result, ok, err}
use uefi_async.Static.Lifo.Deque
use uefi_async.Static.Lifo.Stealing.{Event, book, copy, publish, push_item, pop_item}

-- `held` are the items of the steal in progress, none if there is none, of which `copied` are read.
pub record Spec : Type 0 where
  pub deque : List ℕ
  pub held : List ℕ
  pub copied : ℕ
  pub stolen : List ℕ
  pub popped : List (Option ℕ)
  pub refused : List ℕ

unfoldable pub share_of : List ℕ → (ℕ → ℕ) → ℕ → ℕ
share_of xs count_fn max_count = min (min (count_fn (length xs)) max_count % 2 ^ 32) (length xs)

unfoldable pub pushed_to : Spec → Result ℕ (Unit {0}) × List ℕ → Spec
pushed_to a (ok u, xs) = record a { deque = xs }
pushed_to a (err x, xs) = record a { deque = xs; refused = x ∷ a.refused }

unfoldable pub popped_to : Spec → Option ℕ × List ℕ → Spec
popped_to a (r, xs) = record a { deque = xs; popped = r ∷ a.popped }

unfoldable pub book_share : Spec → List ℕ → ℕ → Spec
book_share a [] n = record a { deque = drop n a.deque; held = take n a.deque; copied = 0 }
book_share a (x ∷ xs) n = a

unfoldable pub spec_step : ℕ → Event → Spec → Spec
spec_step cap (book count_fn max_count) a =
    book_share a a.held (share_of a.deque count_fn max_count)
spec_step cap copy a = if a.copied == length a.held then a else record a { copied = a.copied + 1 }
spec_step cap publish a =
    if a.copied == length a.held
    then record a { held = []; copied = 0; stolen = a.stolen ++ a.held }
    else a
spec_step cap (push_item x) a = pushed_to a (Deque.push cap a.deque x)
spec_step cap pop_item a = popped_to a (Deque.pop a.deque)

unfoldable pub spec_run : ℕ → List Event → Spec → Spec
spec_run cap [] a = a
spec_run cap (e ∷ es) a = spec_run cap es (spec_step cap e a)

-- A push with a steal in progress finds room behind the items that it holds, as `spare_capacity`
-- reports it.
abbrev pub Careful : ℕ → Event → Spec → Type 0
Careful cap (push_item x) a = (a.held ≡ []) ⊎ (length a.deque + length a.held < cap)
Careful cap (book count_fn max_count) a = Unit
Careful cap copy a = Unit
Careful cap publish a = Unit
Careful cap pop_item a = Unit

abbrev pub CarefulRun : ℕ → List Event → Spec → Type 0
CarefulRun cap [] a = Unit
CarefulRun cap (e ∷ es) a = Careful cap e a × CarefulRun cap es (spec_step cap e a)
