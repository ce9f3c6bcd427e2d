-- ===== src/Common/Time/Timeouts.antt =====
-- `Timeout` (async/src/common/time.rs) polled at a sequence of readings of the counter.
use uefi_async.Base.{
  ℕ, suc, ◌+◌, ◌≤◌, ◌<◌, ◌≡◌, ap, ◌∙◌, arith, List, [], ◌∷◌, ◌++◌, Poll, ready, pending, PollFn,
  Finishes, Result, ok, err, All, poll_times, length, saturating_add, subst,
}
use uefi_async.Common.Time.{Timeout, new_timeout, poll_timeout}

-- Polls at these readings until one is ready, with the readings left over, the state and the world.
abbrev pub drive :
    {F A W : Type 0}
    → PollFn F A W
    → List ℕ
    → Timeout F
    → W
    → Poll (Result (Unit {0}) A) × Timeout F × W
drive poll [] t w = (pending, t, w)
drive poll (now ∷ later) t w =
    let (r, t', w') = poll_timeout poll now t w in
    let rest = drive poll later t' w' in elim r [ ready a ↦ (ready a, t', w') | pending ↦ rest ]

-- One more poll before the deadline.
drive-pending :
    {F A W : Type 0} (poll : PollFn F A W) (now : ℕ) (later : List ℕ) (f : F) (d : ℕ) (w : W)
    → now < d
    → (poll f w).0 ≡ pending
    → drive poll (now ∷ later) (record { future = f; deadline = d }) w
      ≡ drive poll later (record { future = (poll f w).1; deadline = d }) (poll f w).2
unfolding poll_timeout
drive-pending poll now later f d w lt e = ground arith

drive-ready :
    {F A W : Type 0} (poll : PollFn F A W) (now : ℕ) (later : List ℕ) (f : F) (d : ℕ) (w : W)
    (a : A)
    → now < d
    → (poll f w).0 ≡ ready a
    → (drive poll (now ∷ later) (record { future = f; deadline = d }) w).0 ≡ ready (ok a)
unfolding poll_timeout
drive-ready poll now later f d w a lt e = ground arith

drive-late :
    {F A W : Type 0} (poll : PollFn F A W) (now : ℕ) (later : List ℕ) (f : F) (d : ℕ) (w : W)
    → d ≤ now
    → drive poll (now ∷ later) (record { future = f; deadline = d }) w
      ≡ (ready (err tt), record { future = f; deadline = d }, w)
unfolding poll_timeout
drive-late poll now later f d w le = ground arith

in_time :
    {F A W : Type 0} (poll : PollFn F A W) (early : List ℕ) (now : ℕ) (later : List ℕ) (d : ℕ)
    (a : A) (f : F) (w : W)
    → All (λ t. t < d) early
    → now < d
    → Finishes poll (length early) a f
    → (drive poll (early ++ now ∷ later) (record { future = f; deadline = d }) w).0 ≡ ready (ok a)
in_time poll [] now later d a f w hs lt fin = drive-ready poll now later f d w a lt (fin w)
in_time poll (t ∷ early) now later d a f w hs lt fin =
    ap (λ r. r.0) (drive-pending poll t (early ++ now ∷ later) f d w hs.0 (fin w).0)
    ∙ in_time poll early now later d a (poll f w).1 (poll f w).2 hs.1 lt (fin w).1

late :
    {F A W : Type 0} (poll : PollFn F A W) (early : List ℕ) (now : ℕ) (later : List ℕ) (d n : ℕ)
    (a : A) (f : F) (w : W)
    → All (λ t. t < d) early
    → d ≤ now
    → Finishes poll (length early + n) a f
    → drive poll (early ++ now ∷ later) (record { future = f; deadline = d }) w ≡ (
        let (f', w') = poll_times poll (length early) f w in
        (ready (err tt), record { future = f'; deadline = d }, w'))
late poll [] now later d n a f w hs le fin = drive-late poll now later f d w le
late poll (t ∷ early) now later d n a f w hs le fin =
    drive-pending poll t (early ++ now ∷ later) f d w hs.0 (fin' w).0
    ∙ late poll early now later d n a (poll f w).1 (poll f w).2 hs.1 le (fin' w).1
  where
    fin' : Finishes poll (suc (length early + n)) a f
    fin' =
        subst (λ m. Finishes poll m a f) {x = suc (length early) + n} {y = suc (length early + n)}
          (omega arith) fin

-- A future that finishes at a reading before the deadline gives its output.
pub timeout-in_time :
    {F A W : Type 0} (poll : PollFn F A W) (start ticks : ℕ) (early : List ℕ) (now : ℕ)
    (later : List ℕ) (a : A) (f : F) (w : W)
    → All (λ t. t < saturating_add start ticks) early
    → now < saturating_add start ticks
    → Finishes poll (length early) a f
    → (drive poll (early ++ now ∷ later) (new_timeout start f ticks) w).0 ≡ ready (ok a)
timeout-in_time poll start ticks early now later a f w hs lt fin =
    in_time poll early now later (saturating_add start ticks) a f w hs lt fin

-- A future that has not finished at the first reading at or behind the deadline is given up there,
-- and is not polled at that reading: it has been polled at the readings before it only.
pub timeout-late :
    {F A W : Type 0} (poll : PollFn F A W) (start ticks : ℕ) (early : List ℕ) (now : ℕ)
    (later : List ℕ) (n : ℕ) (a : A) (f : F) (w : W)
    → All (λ t. t < saturating_add start ticks) early
    → saturating_add start ticks ≤ now
    → Finishes poll (length early + n) a f
    → drive poll (early ++ now ∷ later) (new_timeout start f ticks) w ≡ (
        let (f', w') = poll_times poll (length early) f w in
        (ready (err tt), record { future = f'; deadline = saturating_add start ticks }, w'))
timeout-late poll start ticks early now later n a f w hs le fin =
    late poll early now later (saturating_add start ticks) n a f w hs le fin
