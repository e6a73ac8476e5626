-- ===== src/Motion.antt =====
-- apps/web/src/lib/motion-preference.ts: whether the site may animate, by the visitor's own choice or
-- else by the system's.
use astrea.Prelude.{
  Bool, true, false, Option, none, some, List, [], ◌∷◌, Text, codes, ◌===◌, if◌then◌else◌,
}
pub mod Stored
mod Tests

pub data MotionPreference : Type 0 where
  system : MotionPreference
  reduced : MotionPreference
  full : MotionPreference

-- The texts of the type's union.
abbrev pub to_text : MotionPreference → Text
to_text MotionPreference.system = codes "system"
to_text MotionPreference.reduced = codes "reduced"
to_text MotionPreference.full = codes "full"

-- `isMotionPreference(raw) ? raw : "system"`; null is no text.
unfoldable pub parse_motion_preference : Option Text → MotionPreference
parse_motion_preference none = MotionPreference.system
parse_motion_preference (some raw) =
    if raw === codes "system"
    then MotionPreference.system
    else if raw === codes "reduced"
    then MotionPreference.reduced
    else if raw === codes "full"
    then MotionPreference.full
    else MotionPreference.system

unfoldable pub resolve_reduced_motion : MotionPreference → Bool → Bool
resolve_reduced_motion MotionPreference.reduced system_prefers_reduced = true
resolve_reduced_motion MotionPreference.full system_prefers_reduced = false
resolve_reduced_motion MotionPreference.system system_prefers_reduced = system_prefers_reduced

abbrev pub preference_for_toggle : Bool → MotionPreference
preference_for_toggle true = MotionPreference.reduced
preference_for_toggle false = MotionPreference.full

-- `window.localStorage` at the module's key: what its calls answer, and the item. A store that is
-- `blocked` throws at every call; one that is `full` throws at a write.
pub data Storage : Type 0 where
  blocked : Storage
  read_only : Option Text → Storage
  writable : Option Text → Storage

unfoldable pub read_stored_motion_preference : Storage → MotionPreference
read_stored_motion_preference blocked = MotionPreference.system
read_stored_motion_preference (read_only item) = parse_motion_preference item
read_stored_motion_preference (writable item) = parse_motion_preference item

abbrev pub item_of : MotionPreference → Option Text
item_of MotionPreference.system = none
item_of p = some (to_text p)

-- What a write that throws leaves behind is what was there.
unfoldable pub write_stored_motion_preference : MotionPreference → Storage → Storage
write_stored_motion_preference p blocked = blocked
write_stored_motion_preference p (read_only item) = read_only item
write_stored_motion_preference p (writable item) = writable (item_of p)

-- MotionPreferenceProvider of apps/web/src/hooks/use-reduced-motion.tsx, with the media query that
-- it watches, if there is one, and the store.
pub record Provider : Type 0 where
  pub preference : MotionPreference
  pub system_prefers_reduced : Bool
  pub watching : Bool
  pub media : Option Bool
  pub storage : Storage

-- What can happen from the layout effect on until the provider goes with its page.
pub data MotionEvent : Type 0 where
  -- `setPreference`, of a control on the page.
  choose : MotionPreference → MotionEvent
  -- The system's setting is flipped.
  flip : Bool → MotionEvent

abbrev pub provider : Option Bool → Storage → Provider
provider media storage = record {
  preference = MotionPreference.system;
  system_prefers_reduced = false;
  watching = false;
  media = media;
  storage = storage;
}

-- `watchReducedMotion`: what it reports at once, and whether it goes on to listen.
abbrev pub reported : Option Bool → Bool
reported none = false
reported (some matches) = matches

abbrev pub listens : Option Bool → Bool
listens none = false
listens (some matches) = true

abbrev pub flipped : Option Bool → Bool → Option Bool
flipped none b = none
flipped (some matches) b = some b

-- The layout effect.
unfoldable pub mount : Provider → Provider
mount p = record p {
  preference = read_stored_motion_preference p.storage;
  system_prefers_reduced = reported p.media;
  watching = listens p.media;
}

unfoldable pub motion_step : MotionEvent → Provider → Provider
motion_step (choose next) p = record p {
  preference = next;
  storage = write_stored_motion_preference next p.storage;
}
motion_step (flip b) p = record p {
  media = flipped p.media b;
  system_prefers_reduced =
      if p.watching then reported (flipped p.media b) else p.system_prefers_reduced;
}

unfoldable pub run_motion : List MotionEvent → Provider → Provider
run_motion [] p = p
run_motion (e ∷ es) p = run_motion es (motion_step e p)

-- What the components act on.
abbrev pub is_reduced : Provider → Bool
is_reduced p = resolve_reduced_motion p.preference p.system_prefers_reduced
