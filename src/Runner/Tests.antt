-- ===== src/Runner/Tests.antt =====
-- A system on which the marker is in the log after 1200 ms.
use uefi_async.Base.{
  ℕ, ◌+◌, ◌/◌, ◌≤◌, ◌≡◌, refl, true, false, [], ◌∷◌, none, some, arith, leb, if◌then◌else◌,
}
use uefi_async.Runner.Host.{Host, unwrap_or}
use uefi_async.Runner.Images.{
  stdout_of, run, first_existing, built, build_testy, format_with, make_fat_image, written,
  populate,
}
use uefi_async.Runner.Markers.{
  Verdict, passed, timed_out, wait_marker, wait_from, after_look, look, decide, contains,
}
use uefi_async.Runner.Markers.Rounds.{Clock, Seen, wait_marker_returns}
use uefi_async.Runner.Exits.{
  clean, Exits, main, main-Exits, use_efi, launch, finish, exit_code, or_exit,
}

-- The state is the time.
abbrev system : Host ℕ
system = record {
  output = λ dir cmd args w. (some (record { success = true; stdout = ""; stderr = "" }), w + 20);
  spawn = λ cmd args w. (true, w + 3);
  try_wait = λ w. (some none, w);
  kill = λ w. w;
  wait = λ w. w;
  exists = λ path w. true;
  read = λ path w. some (77 ∷ 90 ∷ []);
  read_to_string = λ path w. if leb 1200 w then some "boot\nSELFTEST PASS\n" else none;
  write = λ path bytes w. (true, w);
  remove_file = λ path w. w;
  remove_dir_all = λ path w. w;
  create_dir_all = λ path w. w;
  now = λ w. w;
  sleep = λ n w. w + n;
}

system-Clock : Clock system
system-Clock = record { slept = λ n w. omega arith; looked = λ w. omega arith }

too_soon : (wait_marker system "serial.log" 900 0).0 ≡ some timed_out
unfolding wait_marker wait_from after_look look decide contains unwrap_or
too_soon = refl

in_time : wait_marker system "serial.log" 5000 0 ≡ (some passed, 1500)
unfolding wait_marker wait_from after_look look decide contains unwrap_or
in_time = refl

ends_well : (main system false 0).0 ≡ some 0
unfolding main use_efi launch finish exit_code or_exit wait_marker wait_from after_look look decide
    contains unwrap_or stdout_of run first_existing built build_testy format_with make_fat_image
    written populate clean
ends_well = refl

wait_marker_returns_example :
    (k : ℕ) × (v : Verdict) × (w' : ℕ) × (k ≤ 5000 / 500 + 1)
    × (wait_marker system "serial.log" 5000 0 ≡ (some v, w'))
    × Seen system "serial.log" 5000 0 k 0 v w'
wait_marker_returns_example = wait_marker_returns system system-Clock "serial.log" 5000 0

main-Exits_example : Exits system (main system false 0)
main-Exits_example = main-Exits system system-Clock false 0
