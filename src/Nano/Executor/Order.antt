-- ===== src/Nano/Executor/Order.antt =====
-- What one pass of the nano executor (async/src/nano_alloc/executor.rs, `run_step`) does to the
-- list of tasks.
use native.Mathlib.Decide.{dec_le}
use uefi_async.Base.{
  ℕ, ◌≤◌, ◌<◌, ◌≡◌, refl, List, [], ◌∷◌, ◌++◌, true, false, PollFn, Poll, ready, pending, add_u64,
  sym, subst, ◌∙◌, append_assoc, append-nil, arith,
}
use uefi_async.Nano.Executor.{TaskNode, pass}

-- A poll as it was made: the future, what it returned, and the future behind it.
pub record Made (F : Type 0) : Type 0 where
  pub before : F
  pub result : Poll (Unit {0})
  pub later : F

abbrev moved : {F : Type 0} → TaskNode F → F → ℕ → TaskNode F
moved n f time = record n { future = f; next_run_time = add_u64 time n.interval }

-- How a pass at `time` goes over a list: the nodes before it, the nodes it leaves, and the polls it
-- makes. Each node has one fate.
pub data Passed {F : Type 0} (time : ℕ)
    : List (TaskNode F) → List (TaskNode F) → List (Made F) → Type 0 where
  over : Passed time [] [] []
  -- not due: it stays, with no poll
  waits :
      {n : TaskNode F} {ns ns' : List (TaskNode F)} {ps : List (Made F)}
      → time < n.next_run_time
      → Passed time ns ns' ps
      → Passed time (n ∷ ns) (n ∷ ns') ps
  -- due and pending: one poll, and it stays for a later time
  runs :
      {n : TaskNode F} {f : F} {ns ns' : List (TaskNode F)} {ps : List (Made F)}
      → n.next_run_time ≤ time
      → Passed time ns ns' ps
      → Passed time
          (n ∷ ns)
          (moved n f time ∷ ns')
          (record { before = n.future; result = pending; later = f } ∷ ps)
  -- due and ready, with no node behind it: one poll, and it leaves
  ends :
      {n : TaskNode F} {f : F}
      → n.next_run_time ≤ time
      → Passed time (n ∷ []) [] (record { before = n.future; result = ready tt; later = f } ∷ [])
  -- due and ready: one poll, and it leaves; the node behind it stays as it is, due or not
  skips :
      {n m : TaskNode F} {f : F} {ns ns' : List (TaskNode F)} {ps : List (Made F)}
      → n.next_run_time ≤ time
      → Passed time ns ns' ps
      → Passed time
          (n ∷ m ∷ ns)
          (m ∷ ns')
          (record { before = n.future; result = ready tt; later = f } ∷ ps)

module _ {F W : Type 0} (poll : PollFn F (Unit {0}) W) where
  -- The same futures, with the polls made written down beside the world.
  unfoldable pub logging : PollFn F (Unit {0}) (W × List (Made F))
  logging f (w, made) =
      let (r, f', w') = poll f w in
      (r, f', (w', made ++ record { before = f; result = r; later = f' } ∷ []))

  pass-waits :
      (time : ℕ) (n : TaskNode F) (ns : List (TaskNode F)) (w : W)
      → time < n.next_run_time
      → let (ns', w') = pass poll false time ns w in pass poll false time (n ∷ ns) w ≡ (n ∷ ns', w')
  unfolding pass
  pass-waits time n ns w h = ground arith

  pass-runs :
      (time : ℕ) (n : TaskNode F) (ns : List (TaskNode F)) (w : W)
      → n.next_run_time ≤ time
      → (poll n.future w).0 ≡ pending
      → let (ns', w') = pass poll false time ns (poll n.future w).2 in
        pass poll false time (n ∷ ns) w ≡ (moved n (poll n.future w).1 time ∷ ns', w')
  unfolding pass
  pass-runs time n ns w h e = ground arith

  pass-leaves :
      (time : ℕ) (n : TaskNode F) (ns : List (TaskNode F)) (w : W)
      → n.next_run_time ≤ time
      → (poll n.future w).0 ≡ ready tt
      → pass poll false time (n ∷ ns) w ≡ pass poll true time ns (poll n.future w).2
  unfolding pass
  pass-leaves time n ns w h e = ground arith

module _ {F W : Type 0} (poll : PollFn F (Unit {0}) W) where
  -- What the pass `out` on `ns` did, with the polls `made` before it.
  abbrev Goes :
      ℕ → List (TaskNode F) → List (TaskNode F) × (W × List (Made F)) → List (Made F) → Type 0
  Goes time ns out made = (ps : List (Made F)) × (out.1.1 ≡ made ++ ps) × Passed time ns out.0 ps

  -- The same for the rest `ns` of a pass that has just unlinked `n`.
  abbrev Skips : ℕ → TaskNode F → List (TaskNode F) → W × List (Made F) → Type 0
  Skips time n ns c =
      let out = pass (logging poll) true time ns c in
      (ps : List (Made F)) × (out.1.1 ≡ c.1 ++ ps)
      × ((f : F)
          → Passed time (n ∷ ns) out.0
              (record { before = n.future; result = ready tt; later = f } ∷ ps))

  made_by : TaskNode F → W × List (Made F) → Made F
  made_by n c = record {
    before = n.future;
    result = (poll n.future c.0).0;
    later = (poll n.future c.0).1;
  }

  due-Passed :
      (time : ℕ) (n : TaskNode F) (ns : List (TaskNode F)) (c : W × List (Made F))
      → n.next_run_time ≤ time
      → ((c' : W × List (Made F)) → Goes time ns (pass (logging poll) false time ns c') c'.1)
      → ((c' : W × List (Made F)) → Skips time n ns c')
      → (r : Poll (Unit {0})) → (poll n.future c.0).0 ≡ r
      → Goes time (n ∷ ns) (pass (logging poll) false time (n ∷ ns) c) c.1
  unfolding logging made_by
  due-Passed time n ns c h goes skip (ready u) e =
      let (ps, more, rest) = skip (logging poll n.future c).2 in
      rw (pass-leaves (logging poll) time n ns c h e) (
        made_by n c ∷ ps,
        more ∙ append_assoc c.1 (made_by n c ∷ []) ps,
        subst
            (λ r.
              Passed time (n ∷ ns) (pass (logging poll) true time ns (logging poll n.future c).2).0
                (record (made_by n c) { result = r } ∷ ps))
            (sym e) (rest (poll n.future c.0).1),
      )
  due-Passed time n ns c h goes skip pending e =
      let (ps, more, rest) = goes (logging poll n.future c).2 in
      rw (pass-runs (logging poll) time n ns c h e) (
        made_by n c ∷ ps,
        more ∙ append_assoc c.1 (made_by n c ∷ []) ps,
        subst
            (λ r.
              Passed time (n ∷ ns)
                (moved n (poll n.future c.0).1 time
                  ∷ (pass (logging poll) false time ns (logging poll n.future c).2).0)
                (record (made_by n c) { result = r } ∷ ps))
            (sym e) (runs h rest),
      )

  node-Passed :
      (time : ℕ) (n : TaskNode F) (ns : List (TaskNode F)) (c : W × List (Made F))
      → ((c' : W × List (Made F)) → Goes time ns (pass (logging poll) false time ns c') c'.1)
      → (n.next_run_time ≤ time → (c' : W × List (Made F)) → Skips time n ns c')
      → Goes time (n ∷ ns) (pass (logging poll) false time (n ∷ ns) c) c.1
  node-Passed time n ns c goes skip = elim (dec_le n.next_run_time time) [
    | yes due ↦ due-Passed time n ns c due goes (skip due) (poll n.future c.0).0 refl
    | no late ↦
        let (ps, more, rest) = goes c in
        rw (pass-waits (logging poll) time n ns c (omega arith))
          (ps, more, waits (omega arith) rest)
  ]

  -- A pass gives each node one fate. The node behind one that leaves stays as it is and is not polled,
  -- whether it is due or not. Any other node that is not due stays as it is and is not polled. Any
  -- other node that is due is polled exactly once, in the order of the list: when it is pending it
  -- stays, with its new future, and `interval` added to the time of the pass is its next time; when
  -- it is ready it leaves. No other poll is made.
  pub pass-Passed :
      (time : ℕ) (ns : List (TaskNode F)) (c : W × List (Made F))
      → let out = pass (logging poll) false time ns c in
        (ps : List (Made F)) × (out.1.1 ≡ c.1 ++ ps) × Passed time ns out.0 ps
  unfolding pass
  pass-Passed time [] c = ([], sym (append-nil c.1), over)
  pass-Passed time (n ∷ []) c =
      node-Passed time n [] c (λ c'. pass-Passed time [] c')
        (λ due c'. ([], sym (append-nil c'.1), λ f. ends due))
  pass-Passed time (n ∷ m ∷ ns) c =
      node-Passed time n (m ∷ ns) c (λ c'. pass-Passed time (m ∷ ns) c')
        (λ due c'. let (ps, more, rest) = pass-Passed time ns c' in (ps, more, λ f. skips due rest))
