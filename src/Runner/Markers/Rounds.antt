-- ===== src/Runner/Markers/Rounds.antt =====
-- How long `wait_marker` of tools/qemu-test/src/main.rs waits, and what its verdict rests on.
use Prim.Native.String.{String}
use uefi_async.Base.{
  ℕ, zero, suc, ◌+◌, ◌-◌, ◌*◌, ◌/◌, ◌≤◌, Bool, true, false, Option, none, some, leb, Option-cases,
  le→leb, if◌then◌else◌, ◌≡◌, refl, sym, ap, ◌∙◌, inl, inr, arith,
}
use uefi_async.Runner.Host.{Host, unwrap_or}
use uefi_async.Runner.Markers.{
  contains, Verdict, passed, exited, test_failed, panicked, timed_out, decide, look, after_look,
  wait_from, wait_marker,
}

module _ {W : Type 0} (host : Host W) where
  -- What the documentation says of the clock: it does not go back, and a pause is at least as long as asked.
  pub record Clock : Type 0 where
    pub slept : (n : ℕ) (w : W) → host.now w + n ≤ host.now (host.sleep n w)
    pub looked : (w : W) → host.now w ≤ host.now (host.try_wait w).1

  -- After `n` rounds that decide nothing, each with its pause, the next one gives `v`.
  abbrev pub Seen : String → ℕ → ℕ → ℕ → W → Verdict → W → Type 0
  Seen path timeout start zero w v w' = look host path timeout start w ≡ (some v, w')
  Seen path timeout start (suc n) w v w' =
      ((look host path timeout start w).0 ≡ none)
      × Seen path timeout start n (host.sleep 500 (look host path timeout start w).1) v w'

  some_of :
      (a b c : Bool)
      → (v : Verdict) × ((if a
            then some passed
            else if b
            then some test_failed
            else if c
            then some panicked
            else some timed_out)
          ≡ some v)
  some_of true b c = (passed, refl)
  some_of false true c = (test_failed, refl)
  some_of false false true = (panicked, refl)
  some_of false false false = (timed_out, refl)

  decide_late :
      (status : Option (Option (Option ℕ))) (log : String)
      → (v : Verdict) × (decide host status log true ≡ some v)
  unfolding decide
  decide_late (some (some code)) log = (exited code, refl)
  decide_late none log =
      some_of (contains log "SELFTEST PASS") (contains log "SELFTEST FAIL")
        (contains log "panicked at")
  decide_late (some none) log =
      some_of (contains log "SELFTEST PASS") (contains log "SELFTEST FAIL")
        (contains log "panicked at")

  look_late :
      (path : String) (timeout start : ℕ) (w : W)
      → timeout ≤ host.now (host.try_wait w).1 - start
      → (v : Verdict) × ((look host path timeout start w).0 ≡ some v)
  unfolding look
  look_late path timeout start w h =
      let (status, w') = host.try_wait w in
      let (v, e) = decide_late status (unwrap_or "" (host.read_to_string path w')) in
      (
        v,
        ap (decide host status (unwrap_or "" (host.read_to_string path w')))
              (le→leb timeout (host.now w' - start) h)
            ∙ e,
      )

  look_ends :
      (path : String) (timeout start : ℕ) (w : W)
      → (look host path timeout start w).1 ≡ (host.try_wait w).1
  unfolding look
  look_ends path timeout start w = refl

  -- The loop returns with so many rounds left.
  abbrev Ends : ℕ → String → ℕ → ℕ → W → Type 0
  Ends n path timeout start w =
      (k : ℕ) × (v : Verdict) × (w' : W) × (k ≤ n)
      × (wait_from host (suc n) path timeout start w ≡ (some v, w'))
      × Seen path timeout start k w v w'

  Ends-now :
      (n : ℕ) (path : String) (timeout start : ℕ) (w : W) (v : Verdict) (w' : W)
      → look host path timeout start w ≡ (some v, w')
      → Ends n path timeout start w
  unfolding wait_from after_look
  Ends-now n path timeout start w v w' e = (
    0,
    v,
    w',
    omega arith,
    ap (after_look host (λ u. wait_from host n path timeout start u)) e,
    e,
  )

  Ends-later :
      (n : ℕ) (path : String) (timeout start : ℕ) (w : W)
      → (look host path timeout start w).0 ≡ none
      → Ends n path timeout start (host.sleep 500 (look host path timeout start w).1)
      → Ends (suc n) path timeout start w
  unfolding wait_from after_look
  Ends-later n path timeout start w e (k, v, w', le, r, seen) = (
    suc k,
    v,
    w',
    omega (arith, le),
    ap
          (λ o.
            after_look host (λ u. wait_from host (suc n) path timeout start u)
              (o, (look host path timeout start w).1))
          e
        ∙ r,
    (e, seen),
  )

  wait_from_lem :
      Clock
      → (n : ℕ) (path : String) (timeout start : ℕ) (w : W) → start ≤ host.now w
      → timeout ≤ host.now w - start + 500 * n
      → Ends n path timeout start w
  wait_from_lem clock zero path timeout start w started enough =
      let (v, e) = look_late path timeout start w (omega (arith, enough, clock.looked w)) in
      Ends-now zero path timeout start w v (look host path timeout start w).1
        (ap (λ r. (r, (look host path timeout start w).1)) e)
  wait_from_lem clock (suc n) path timeout start w started enough =
      let w1 = (look host path timeout start w).1 in
      let passes : host.now w + 500 ≤ host.now (host.sleep 500 w1) =
        omega (
          arith,
          clock.slept 500 w1,
          clock.looked w,
          ap host.now (look_ends path timeout start w),
        ) in
      let later =
        wait_from_lem clock n path timeout start (host.sleep 500 w1) (omega arith) (omega arith) in
      elim (Option-cases (look host path timeout start w).0) [
        | inl e ↦ Ends-later n path timeout start w e later
        | inr p ↦ Ends-now (suc n) path timeout start w p.0 w1 (ap (λ r. (r, w1)) p.1)
      ]

  -- On a system whose clock does not go back, the wait for the marker always returns: after at most
  -- `timeout / 500 + 1` pauses it has the verdict of the first look that gives one.
  pub wait_marker_returns :
      Clock
      → (path : String) (timeout : ℕ) (w : W)
      → (k : ℕ) × (v : Verdict) × (w' : W) × (k ≤ timeout / 500 + 1)
        × (wait_marker host path timeout w ≡ (some v, w'))
        × Seen path timeout (host.now w) k w v w'
  unfolding wait_marker
  wait_marker_returns clock path timeout w =
      wait_from_lem clock (timeout / 500 + 1) path timeout (host.now w) w (omega arith)
        (omega arith)

  passed_of :
      (a b c d : Bool)
      → (if a
          then some passed
          else if b
          then some test_failed
          else if c
          then some panicked
          else if d
          then some timed_out
          else none)
        ≡ some passed
      → a ≡ true
  passed_of true b c d e = refl
  passed_of false true c d e = absurd (ground (arith, e))
  passed_of false false true d e = absurd (ground (arith, e))
  passed_of false false false true e = absurd (ground (arith, e))
  passed_of false false false false e = absurd (ground (arith, e))

  decide-passed :
      (status : Option (Option (Option ℕ))) (log : String) (late : Bool)
      → decide host status log late ≡ some passed
      → contains log "SELFTEST PASS" ≡ true
  unfolding decide
  decide-passed (some (some code)) log late e = absurd (ground (arith, e))
  decide-passed none log late e =
      passed_of (contains log "SELFTEST PASS") (contains log "SELFTEST FAIL")
        (contains log "panicked at") late e
  decide-passed (some none) log late e =
      passed_of (contains log "SELFTEST PASS") (contains log "SELFTEST FAIL")
        (contains log "panicked at") late e

  -- A pass was in the log.
  pub Seen-passed :
      (k : ℕ) (path : String) (timeout start : ℕ) (w w' : W)
      → Seen path timeout start k w passed w'
      → contains (unwrap_or "" (host.read_to_string path w')) "SELFTEST PASS" ≡ true
  unfolding look
  Seen-passed zero path timeout start w w' e =
      let (status, w1) = host.try_wait w in
      let log = unwrap_or "" (host.read_to_string path w1) in
      let in_log = decide-passed status log (leb timeout (host.now w1 - start)) (ap (λ p. p.0) e) in
      ap (λ u. contains (unwrap_or "" (host.read_to_string path u)) "SELFTEST PASS")
        (sym (ap (λ p. p.1) e))
      ∙ in_log
  Seen-passed (suc k) path timeout start w w' (e, seen) = Seen-passed k path timeout start _ w' seen
