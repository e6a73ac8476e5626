-- ===== src/Motion/Tests.antt =====
-- A visitor who turns motion off and reloads.
use astrea.Prelude.{◌≡◌, refl, true, false, some, List, [], ◌∷◌, codes, Text-discrete}
use astrea.Motion.{
  MotionPreference, parse_motion_preference, writable, read_stored_motion_preference,
  write_stored_motion_preference, MotionEvent, choose, flip, mount, provider, motion_step,
  run_motion, resolve_reduced_motion, is_reduced,
}
use astrea.Motion.Stored.{run_motion-reload}

abbrev motion_events : List MotionEvent
motion_events =
    flip true ∷ choose (MotionPreference.full) ∷ choose (MotionPreference.reduced) ∷ flip false ∷ []

turns_off :
    is_reduced
      (run_motion motion_events (mount (provider (some false) (writable (some (codes "bogus"))))))
    ≡ true
unfolding run_motion mount motion_step read_stored_motion_preference parse_motion_preference
    write_stored_motion_preference resolve_reduced_motion Text-discrete
turns_off = refl

run_motion-reload_example :
    let p =
      run_motion motion_events (mount (provider (some false) (writable (some (codes "bogus"))))) in
    ((mount (provider p.media p.storage)).preference ≡ p.preference)
    × (is_reduced (mount (provider p.media p.storage)) ≡ is_reduced p)
run_motion-reload_example = run_motion-reload (some false) (some (codes "bogus")) motion_events
