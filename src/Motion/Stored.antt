-- ===== src/Motion/Stored.antt =====
-- What of a visitor's choice outlives a reload.
use astrea.Prelude.{
  ◌≡◌, refl, sym, ap, ◌∙◌, Bool, Option, none, some, List, [], ◌∷◌, Text, Text-discrete, arith,
  if◌then◌else◌,
}
use astrea.Motion.{
  MotionPreference, parse_motion_preference, resolve_reduced_motion, writable,
  read_stored_motion_preference, item_of, write_stored_motion_preference, Provider, MotionEvent,
  choose, flip, mount, provider, reported, listens, flipped, motion_step, run_motion, is_reduced,
}

parse-item_of : (p : MotionPreference) → parse_motion_preference (item_of p) ≡ p
unfolding parse_motion_preference Text-discrete
parse-item_of MotionPreference.system = refl
parse-item_of MotionPreference.reduced = refl
parse-item_of MotionPreference.full = refl

-- The store holds the choice that is in effect, and what is known of the system is what it says.
pub record Kept (p : Provider) : Type 0 where
  pub item : Option Text
  pub stored : p.storage ≡ writable item
  pub same_choice : parse_motion_preference item ≡ p.preference
  pub watches : p.watching ≡ listens p.media
  pub same_system : p.system_prefers_reduced ≡ reported p.media

mount-Kept :
    (media : Option Bool) (item : Option Text) → Kept (mount (provider media (writable item)))
unfolding mount read_stored_motion_preference
mount-Kept media item = record {
  item = item;
  stored = refl;
  same_choice = refl;
  watches = refl;
  same_system = refl;
}

flip-Watched :
    (media : Option Bool) (b watching seen : Bool)
    → watching ≡ listens media
    → seen ≡ reported media
    → (watching ≡ listens (flipped media b))
      × ((if watching then reported (flipped media b) else seen) ≡ reported (flipped media b))
flip-Watched none b watching seen w s = (w, ground arith)
flip-Watched (some m) b watching seen w s = (w, ground arith)

motion_step-Kept : (e : MotionEvent) (p : Provider) → Kept p → Kept (motion_step e p)
unfolding motion_step write_stored_motion_preference
motion_step-Kept (choose next) p k = record {
  item = item_of next;
  stored = ap (write_stored_motion_preference next) k.stored;
  same_choice = parse-item_of next;
  watches = k.watches;
  same_system = k.same_system;
}
motion_step-Kept (flip b) p k =
    let (watches, same) =
      flip-Watched p.media b p.watching p.system_prefers_reduced k.watches k.same_system in
    record {
      item = k.item;
      stored = k.stored;
      same_choice = k.same_choice;
      watches = watches;
      same_system = same;
    }

run_motion-Kept : (es : List MotionEvent) (p : Provider) → Kept p → Kept (run_motion es p)
unfolding run_motion
run_motion-Kept [] p k = k
run_motion-Kept (e ∷ es) p k = run_motion-Kept es (motion_step e p) (motion_step-Kept e p k)

reload-Kept :
    (p : Provider)
    → Kept p
    → ((mount (provider p.media p.storage)).preference ≡ p.preference)
      × (is_reduced (mount (provider p.media p.storage)) ≡ is_reduced p)
unfolding mount read_stored_motion_preference
reload-Kept p k =
    let choice = ap read_stored_motion_preference k.stored ∙ k.same_choice in
    (
      choice,
      ap (λ c. resolve_reduced_motion c (reported p.media)) choice
          ∙ ap (resolve_reduced_motion p.preference) (sym k.same_system),
    )

-- Where the store can be written, a reload changes nothing: whatever the store held, and whatever the
-- visitor chose and the system said since, the page mounted afresh has the same preference and shows
-- as much motion.
pub run_motion-reload :
    (media : Option Bool) (item : Option Text) (es : List MotionEvent)
    → let p = run_motion es (mount (provider media (writable item))) in
      ((mount (provider p.media p.storage)).preference ≡ p.preference)
      × (is_reduced (mount (provider p.media p.storage)) ≡ is_reduced p)
run_motion-reload media item es =
    reload-Kept (run_motion es (mount (provider media (writable item))))
      (run_motion-Kept es (mount (provider media (writable item))) (mount-Kept media item))
