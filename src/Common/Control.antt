-- ===== src/Common/Control.antt =====
-- async/src/common/control.rs: the combinators behind `join!`, `try_join!`, `join_all!`, `select!`.
-- A future is its state with a poll function; polls of both children share one world.
pub mod Joins
pub mod TryJoins
pub mod JoinAlls
pub mod Selects
use uefi_async.Base.{
  Bool, true, false, not, ◌&&◌, Option, none, some, Poll, ready, pending, PollFn, is_ready,
  if◌then◌else◌,
}

-- `Join<H, T>` and `TryJoin<H, T>` have the same fields.
pub record Join (H T : Type 0) : Type 0 where
  pub head : H
  pub tail : T
  pub head_done : Bool
  pub tail_done : Bool

-- `JoinAll<H, T>`
pub record JoinAll (H T A B : Type 0) : Type 0 where
  pub head : H
  pub tail : T
  pub head_res : Option A
  pub tail_res : Option B

-- `Select<H, T>`
pub record Select (H T : Type 0) : Type 0 where
  pub head : H
  pub tail : T

pub data Either (A B : Type 0) : Type 0 where
  left : A → Either A B
  right : B → Either A B

-- `Result<(), E>`
pub data Tried (E : Type 0) : Type 0 where
  ok : Tried E
  err : E → Tried E

-- `JoinAll::new`, `Select::new`
unfoldable pub new_join_all : {H T A B : Type 0} → H → T → JoinAll H T A B
new_join_all head tail = record { head = head; tail = tail; head_res = none; tail_res = none }

unfoldable pub new_select : {H T : Type 0} → H → T → Select H T
new_select head tail = record { head = head; tail = tail }

-- The end of `JoinAll::poll`: both results are taken out together, or neither.
unfoldable pub all_take : {H T A B : Type 0} → JoinAll H T A B → Poll (A × B) × JoinAll H T A B
all_take j = elim j.head_res [
  | none ↦ (pending, j)
  | some a ↦ elim j.tail_res [
    | none ↦ (pending, j)
    | some b ↦ (ready (a, b), record j { head_res = none; tail_res = none })
  ]
]

module _ {H T W : Type 0} where
  -- The first two statements of `Join::poll`.
  unfoldable pub join_head : PollFn H (Unit {0}) W → Join H T → W → Join H T × W
  join_head poll_head j w =
      let (r, head', w') = poll_head j.head w in
      if j.head_done then (j, w) else (record j { head = head'; head_done = is_ready r }, w')

  unfoldable pub join_tail : PollFn T (Unit {0}) W → Join H T → W → Join H T × W
  join_tail poll_tail j w =
      let (r, tail', w') = poll_tail j.tail w in
      if j.tail_done then (j, w) else (record j { tail = tail'; tail_done = is_ready r }, w')

  -- `Join::poll`
  unfoldable pub join_poll :
      PollFn H (Unit {0}) W → PollFn T (Unit {0}) W → PollFn (Join H T) (Unit {0}) W
  unfolding join_head join_tail
  join_poll poll_head poll_tail j w =
      let (j', w') = join_head poll_head j w in
      let (j'', w'') = join_tail poll_tail j' w' in
      (if j''.head_done && j''.tail_done then ready tt else pending, j'', w'')

  module _ {E : Type 0} where
    -- The first half of `TryJoin::poll`: an error to return at once, or none.
    unfoldable pub try_head : PollFn H (Tried E) W → Join H T → W → Option E × Join H T × W
    try_head poll_head j w =
        let (r, head', w') = poll_head j.head w in
        if j.head_done then (none, j, w) else elim r [
          | ready t ↦ elim t [
            | err e ↦ (some e, record j { head = head' }, w')
            | ok ↦ (none, record j { head = head'; head_done = true }, w')
          ]
          | pending ↦ (none, record j { head = head' }, w')
        ]

    unfoldable pub try_tail : PollFn T (Tried E) W → Join H T → W → Option E × Join H T × W
    try_tail poll_tail j w =
        let (r, tail', w') = poll_tail j.tail w in
        if j.tail_done then (none, j, w) else elim r [
          | ready t ↦ elim t [
            | err e ↦ (some e, record j { tail = tail' }, w')
            | ok ↦ (none, record j { tail = tail'; tail_done = true }, w')
          ]
          | pending ↦ (none, record j { tail = tail' }, w')
        ]

    -- `TryJoin::poll`
    unfoldable pub try_join_poll :
        PollFn H (Tried E) W → PollFn T (Tried E) W → PollFn (Join H T) (Tried E) W
    unfolding try_head try_tail
    try_join_poll poll_head poll_tail j w =
        let (early, j', w') = try_head poll_head j w in
        let (late, j'', w'') = try_tail poll_tail j' w' in
        elim early [
          | some e ↦ (ready (err e), j', w')
          | none ↦ elim late [
            | some e ↦ (ready (err e), j'', w'')
            | none ↦ (if j''.head_done && j''.tail_done then ready ok else pending, j'', w'')
          ]
        ]

  module _ {A B : Type 0} where
    unfoldable pub all_head : PollFn H A W → JoinAll H T A B → W → JoinAll H T A B × W
    all_head poll_head j w =
        let (r, head', w') = poll_head j.head w in
        elim j.head_res [
          | some a ↦ (j, w)
          | none ↦ elim r [
            | ready a ↦ (record j { head = head'; head_res = some a }, w')
            | pending ↦ (record j { head = head' }, w')
          ]
        ]

    unfoldable pub all_tail : PollFn T B W → JoinAll H T A B → W → JoinAll H T A B × W
    all_tail poll_tail j w =
        let (r, tail', w') = poll_tail j.tail w in
        elim j.tail_res [
          | some b ↦ (j, w)
          | none ↦ elim r [
            | ready b ↦ (record j { tail = tail'; tail_res = some b }, w')
            | pending ↦ (record j { tail = tail' }, w')
          ]
        ]

    -- `JoinAll::poll`
    unfoldable pub join_all_poll : PollFn H A W → PollFn T B W → PollFn (JoinAll H T A B) (A × B) W
    unfolding all_head all_tail all_take
    join_all_poll poll_head poll_tail j w =
        let (j', w') = all_head poll_head j w in
        let (j'', w'') = all_tail poll_tail j' w' in let (r, j3) = all_take j'' in (r, j3, w'')

    -- `Select::poll`
    unfoldable pub select_poll : PollFn H A W → PollFn T B W → PollFn (Select H T) (Either A B) W
    select_poll poll_head poll_tail s w =
        let (r, head', w') = poll_head s.head w in
        let (q, tail', w'') = poll_tail s.tail w' in
        elim r [
          | ready a ↦ (ready (left a), record s { head = head' }, w')
          | pending ↦ elim q [
            | ready b ↦ (ready (right b), record s { head = head'; tail = tail' }, w'')
            | pending ↦ (pending, record s { head = head'; tail = tail' }, w'')
          ]
        ]
