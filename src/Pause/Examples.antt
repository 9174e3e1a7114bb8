-- ===== src/Pause/Examples.antt =====
-- Tests of the pause table, and the theorems at concrete tables.
use esp32_ad_blocker_reborn.Common.{◌≡◌, ◌⊎◌, refl, arith, true, false, ◌||◌, [], ◌∷◌}
use esp32_ad_blocker_reborn.Pause.{
  PauseTable, empty_slot, pause_ip_all, pause_set, pause_active_for, active_loop, observe,
  observe_during, slot_write,
}
use esp32_ad_blocker_reborn.Pause.Slots.{paused, armed_count, has_armed}
use esp32_ad_blocker_reborn.Pause.Effect.{IsSound, pause_active_for-pause_set}
use esp32_ad_blocker_reborn.Pause.Torn.{active_loop-observe_during}

-- One client paused until second 700, and the wildcard until second 500.
abbrev table : PauseTable
table = record {
  ready = true;
  slots =
      record { ip = 0xc0a8_0105; expires_s = 700 }
      ∷ record { ip = 0; expires_s = 500 }
      ∷ empty_slot
      ∷ empty_slot
      ∷ empty_slot
      ∷ empty_slot
      ∷ empty_slot
      ∷ empty_slot
      ∷ [];
  armed = 2;
}

table-IsSound : IsSound table
unfolding armed_count has_armed
table-IsSound = record {
  ready = refl;
  eight = refl;
  counted = refl;
  distinct = (
    λ _. refl,
    (
      λ _. refl,
      (
        λ h. absurd (h refl),
        (
          λ h. absurd (h refl),
          (
            λ h. absurd (h refl),
            (λ h. absurd (h refl), (λ h. absurd (h refl), (λ h. absurd (h refl), tt))),
          ),
        ),
      ),
    ),
  );
}

pause_set-ten_minutes :
    pause_active_for 650 0xc0a8_0107 (pause_set 100 100 101 0xc0a8_0107 10 table).0 ≡ true
unfolding pause_set pause_active_for
pause_set-ten_minutes = refl

pause_set-other_client :
    pause_active_for 650 0xc0a8_0109 (pause_set 100 100 101 0xc0a8_0107 10 table).0 ≡ false
unfolding pause_set pause_active_for
pause_set-other_client = refl

pause_set-succeeds : (pause_set 100 100 101 0xc0a8_0107 10 table).1 ≡ true
unfolding pause_set
pause_set-succeeds = refl

pause_active_for-pause_set_example :
    pause_active_for 650 0xc0a8_0107 (pause_set 100 100 101 0xc0a8_0107 10 table).0
    ≡ (paused 650 pause_ip_all table.slots || true)
pause_active_for-pause_set_example =
    pause_active_for-pause_set 100 100 101 0xc0a8_0107 10 650 0xc0a8_0107 table table-IsSound
      (omega arith) (omega arith) (omega arith) (omega arith) (omega arith) pause_set-succeeds

straddled :
    active_loop 600 5 (observe_during 0 3 3 5 700 (record { ip = 5; expires_s = 700 }) ∷ []) ≡ true
unfolding pause_active_for observe_during
straddled = refl

-- The reader loads the expiry, the writer stores all, the reader loads the rest.
active_loop-observe_during_example :
    (active_loop 600 5 (observe (record { ip = 5; expires_s = 700 }) ∷ []) ≡ true)
    ⊎ (active_loop 600 5 (observe (slot_write 5 700) ∷ []) ≡ true)
active_loop-observe_during_example =
    active_loop-observe_during 600 5 0 3 3 5 700 (record { ip = 5; expires_s = 700 }) (omega arith)
      (omega arith) (omega arith) straddled
