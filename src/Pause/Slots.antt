-- ===== src/Pause/Slots.antt =====
-- The slots as a set of paused addresses: what the loops of pause.c keep and change.
use esp32_ad_blocker_reborn.Common.{
  ℕ, zero, suc, ◌+◌, ◌≤◌, ◌≡◌, ◌≢◌, refl, ◌∙◌, arith, Bool, false, not, ◌&&◌, ◌||◌, Option, none,
  some, List, [], ◌∷◌, map, ltb, ◌==◌, if◌then◌else◌, set, length, ◌⊎◌,
}
use esp32_ad_blocker_reborn.Pause.{
  PauseSlot, sweep_slots, find_ip, find_empty, find_target, clear_loop, slot_write, disarm,
  active_loop, observe, pause_ip_all,
}

-- An unexpired slot of the address.
unfoldable pub paused : ℕ → ℕ → List PauseSlot → Bool
paused now ip [] = false
paused now ip (s ∷ ss) = (ltb now s.expires_s && s.ip == ip) || paused now ip ss

-- A slot of the address that is armed, expired or not.
unfoldable pub has_armed : ℕ → List PauseSlot → Bool
has_armed ip [] = false
has_armed ip (s ∷ ss) = (not (s.expires_s == 0) && s.ip == ip) || has_armed ip ss

unfoldable pub armed_count : List PauseSlot → ℕ
armed_count [] = 0
armed_count (s ∷ ss) = (if s.expires_s == 0 then 0 else 1) + armed_count ss

-- No address is armed twice.
abbrev pub IsDistinct : List PauseSlot → Type 0
IsDistinct [] = Unit {0}
IsDistinct (s ∷ ss) = (s.expires_s ≢ 0 → has_armed s.ip ss ≡ false) × IsDistinct ss

pub paused-sweep_slots :
    (now t ip : ℕ) (ss : List PauseSlot)
    → now ≤ t
    → paused t ip (sweep_slots now ss).0 ≡ paused t ip ss
unfolding paused sweep_slots
paused-sweep_slots now t ip [] h = refl
paused-sweep_slots now t ip (s ∷ ss) h = ground (arith, paused-sweep_slots now t ip ss h)

pub armed_count-sweep_slots :
    (now : ℕ) (ss : List PauseSlot) → (sweep_slots now ss).1 ≡ armed_count (sweep_slots now ss).0
unfolding armed_count sweep_slots
armed_count-sweep_slots now [] = refl
armed_count-sweep_slots now (s ∷ ss) = ground (arith, armed_count-sweep_slots now ss)

pub has_armed-sweep_slots :
    (now ip : ℕ) (ss : List PauseSlot)
    → has_armed ip ss ≡ false
    → has_armed ip (sweep_slots now ss).0 ≡ false
unfolding has_armed sweep_slots
has_armed-sweep_slots now ip [] h = refl
has_armed-sweep_slots now ip (s ∷ ss) h = ground (arith, has_armed-sweep_slots now ip ss)

pub sweep_slots-IsDistinct :
    (now : ℕ) (ss : List PauseSlot) → IsDistinct ss → IsDistinct (sweep_slots now ss).0
unfolding sweep_slots
sweep_slots-IsDistinct now [] d = tt
sweep_slots-IsDistinct now (s ∷ ss) d =
    ground (arith, sweep_slots-IsDistinct now ss d.1, has_armed-sweep_slots now s.ip ss)

pub paused_of_disarmed :
    (t ip : ℕ) (ss : List PauseSlot) → has_armed ip ss ≡ false → paused t ip ss ≡ false
unfolding paused has_armed
paused_of_disarmed t ip [] h = refl
paused_of_disarmed t ip (s ∷ ss) h = ground (arith, paused_of_disarmed t ip ss)

pub paused_of_unarmed :
    (t ip : ℕ) (ss : List PauseSlot) → armed_count ss ≡ 0 → paused t ip ss ≡ false
unfolding paused armed_count
paused_of_unarmed t ip [] h = refl
paused_of_unarmed t ip (s ∷ ss) h = ground (arith, paused_of_unarmed t ip ss)

-- The reader's loop finds the wildcard or the client itself.
pub active_loop-paused :
    (now client : ℕ) (ss : List PauseSlot)
    → active_loop now client (map observe ss) ≡ (paused now pause_ip_all ss || paused now client ss)
unfolding active_loop observe paused
active_loop-paused now client [] = refl
active_loop-paused now client (s ∷ ss) = ground (arith, active_loop-paused now client ss)

-- The slot to write for an address: empty or the address's own, and no other is armed for it.
abbrev pub IsTarget : ℕ → List PauseSlot → ℕ → Type 0
IsTarget ip [] i = ⊥
IsTarget ip (s ∷ ss) zero = ((s.expires_s ≡ 0) ⊎ (s.ip ≡ ip)) × (has_armed ip ss ≡ false)
IsTarget ip (s ∷ ss) (suc i) = ((not (s.expires_s == 0) && s.ip == ip) ≡ false) × IsTarget ip ss i

has_armed-find_ip : (ip : ℕ) (ss : List PauseSlot) → find_ip ip ss ≡ none → has_armed ip ss ≡ false
unfolding has_armed find_ip
has_armed-find_ip ip [] h = refl
has_armed-find_ip ip (s ∷ ss) h = ground (arith, has_armed-find_ip ip ss)

find_ip-IsTarget :
    (ip : ℕ) (ss : List PauseSlot) (i : ℕ)
    → IsDistinct ss
    → find_ip ip ss ≡ some i
    → IsTarget ip ss i
unfolding find_ip
find_ip-IsTarget ip [] i d h = cc
find_ip-IsTarget ip (s ∷ ss) zero d h = ground (arith, d.0)
find_ip-IsTarget ip (s ∷ ss) (suc i) d h = ground (arith, find_ip-IsTarget ip ss i d.1)

find_empty-IsTarget :
    (ip : ℕ) (ss : List PauseSlot) (i : ℕ)
    → has_armed ip ss ≡ false
    → find_empty ss ≡ some i
    → IsTarget ip ss i
unfolding find_empty has_armed
find_empty-IsTarget ip [] i d h = cc
find_empty-IsTarget ip (s ∷ ss) zero d h = ground arith
find_empty-IsTarget ip (s ∷ ss) (suc i) d h = ground (arith, find_empty-IsTarget ip ss i)

pub find_target-IsTarget :
    (ip : ℕ) (ss : List PauseSlot) (i : ℕ)
    → IsDistinct ss
    → find_target ip ss ≡ some i
    → IsTarget ip ss i
unfolding find_target
find_target-IsTarget ip ss i d h = go (find_ip ip ss) refl h
  where
    go :
        (o : Option ℕ)
        → find_ip ip ss ≡ o
        → elim o as (λ _. Option ℕ) [ some j ↦ some j | none ↦ find_empty ss ] ≡ some i
        → IsTarget ip ss i
    go none e k = find_empty-IsTarget ip ss i (has_armed-find_ip ip ss e) k
    go (some j) e k = find_ip-IsTarget ip ss i d (e ∙ k)

module _ (ip e : ℕ) where
  pub paused-set_other :
      (t ip' : ℕ) (ss : List PauseSlot) (i : ℕ)
      → ip' ≢ ip
      → IsTarget ip ss i
      → paused t ip' (set ss i (slot_write ip e)) ≡ paused t ip' ss
  unfolding paused slot_write
  paused-set_other t ip' [] i ne h = absurd h
  paused-set_other t ip' (s ∷ ss) zero ne h = ground arith
  paused-set_other t ip' (s ∷ ss) (suc i) ne h = rw (paused-set_other t ip' ss i ne h.1)

  pub paused-set_self :
      (t : ℕ) (ss : List PauseSlot) (i : ℕ)
      → IsTarget ip ss i
      → paused t ip (set ss i (slot_write ip e)) ≡ ltb t e
  unfolding paused slot_write
  paused-set_self t [] i h = absurd h
  paused-set_self t (s ∷ ss) zero h = ground (arith, paused_of_disarmed t ip ss h.1)
  paused-set_self t (s ∷ ss) (suc i) h = ground (arith, paused-set_self t ss i h.1)

  has_armed-set :
      (ip' : ℕ) (ss : List PauseSlot) (i : ℕ)
      → ip' ≢ ip
      → has_armed ip' ss ≡ false
      → has_armed ip' (set ss i (slot_write ip e)) ≡ false
  unfolding has_armed slot_write
  has_armed-set ip' [] i ne h = refl
  has_armed-set ip' (s ∷ ss) zero ne h = ground arith
  has_armed-set ip' (s ∷ ss) (suc i) ne h = ground (arith, has_armed-set ip' ss i ne)

  pub set-IsDistinct :
      (ss : List PauseSlot) (i : ℕ)
      → IsDistinct ss
      → IsTarget ip ss i
      → IsDistinct (set ss i (slot_write ip e))
  unfolding slot_write
  set-IsDistinct [] i d h = absurd h
  set-IsDistinct (s ∷ ss) zero d h = (λ _. h.1, d.1)
  set-IsDistinct (s ∷ ss) (suc i) d h = (
    λ armed. has_armed-set s.ip ss i (ground (arith, armed, h.0)) (d.0 armed),
    set-IsDistinct ss i d.1 h.1,
  )

armed_count_full : (ss : List PauseSlot) → find_empty ss ≡ none → armed_count ss ≡ length ss
unfolding find_empty armed_count
armed_count_full [] h = refl
armed_count_full (s ∷ ss) h = ground (arith, armed_count_full ss)

-- The table is full for an address: nothing is armed for it, and no slot is empty.
pub find_target_full :
    (ip t : ℕ) (ss : List PauseSlot)
    → find_target ip ss ≡ none
    → (paused t ip ss ≡ false) × (armed_count ss ≡ length ss)
unfolding find_target
find_target_full ip t ss h = go (find_ip ip ss) refl h
  where
    go :
        (o : Option ℕ)
        → find_ip ip ss ≡ o
        → elim o as (λ _. Option ℕ) [ some j ↦ some j | none ↦ find_empty ss ] ≡ none
        → (paused t ip ss ≡ false) × (armed_count ss ≡ length ss)
    go none e k = (paused_of_disarmed t ip ss (has_armed-find_ip ip ss e), armed_count_full ss k)
    go (some j) e k = cc

pub paused-clear_loop_self :
    (now ip t : ℕ) (ss : List PauseSlot) → now ≤ t → paused t ip (clear_loop now ip ss).0 ≡ false
unfolding paused clear_loop
paused-clear_loop_self now ip t [] h = refl
paused-clear_loop_self now ip t (s ∷ ss) h = ground (arith, paused-clear_loop_self now ip t ss h)

pub paused-clear_loop_other :
    (now ip t ip' : ℕ) (ss : List PauseSlot)
    → ip' ≢ ip
    → paused t ip' (clear_loop now ip ss).0 ≡ paused t ip' ss
unfolding paused clear_loop
paused-clear_loop_other now ip t ip' [] ne = refl
paused-clear_loop_other now ip t ip' (s ∷ ss) ne =
    ground (arith, paused-clear_loop_other now ip t ip' ss ne)

pub clear_loop-found :
    (now ip : ℕ) (ss : List PauseSlot) → (clear_loop now ip ss).1 ≡ paused now ip ss
unfolding paused clear_loop
clear_loop-found now ip [] = refl
clear_loop-found now ip (s ∷ ss) = ground (arith, clear_loop-found now ip ss)

has_armed-clear_loop :
    (now ip ip' : ℕ) (ss : List PauseSlot)
    → has_armed ip' ss ≡ false
    → has_armed ip' (clear_loop now ip ss).0 ≡ false
unfolding has_armed clear_loop
has_armed-clear_loop now ip ip' [] h = refl
has_armed-clear_loop now ip ip' (s ∷ ss) h = ground (arith, has_armed-clear_loop now ip ip' ss)

pub clear_loop-IsDistinct :
    (now ip : ℕ) (ss : List PauseSlot) → IsDistinct ss → IsDistinct (clear_loop now ip ss).0
unfolding clear_loop
clear_loop-IsDistinct now ip [] d = tt
clear_loop-IsDistinct now ip (s ∷ ss) d =
    ground (arith, clear_loop-IsDistinct now ip ss d.1, has_armed-clear_loop now ip s.ip ss)

pub length-sweep_slots : (now : ℕ) (ss : List PauseSlot) → length (sweep_slots now ss).0 ≡ length ss
unfolding sweep_slots
length-sweep_slots now [] = refl
length-sweep_slots now (s ∷ ss) = ground (arith, length-sweep_slots now ss)

pub length-clear_loop :
    (now ip : ℕ) (ss : List PauseSlot) → length (clear_loop now ip ss).0 ≡ length ss
unfolding clear_loop
length-clear_loop now ip [] = refl
length-clear_loop now ip (s ∷ ss) = ground (arith, length-clear_loop now ip ss)

pub armed_count-disarm : (ss : List PauseSlot) → armed_count (map disarm ss) ≡ 0
unfolding armed_count disarm
armed_count-disarm [] = refl
armed_count-disarm (s ∷ ss) = ground (arith, armed_count-disarm ss)

pub map-disarm-IsDistinct : (ss : List PauseSlot) → IsDistinct (map disarm ss)
unfolding disarm
map-disarm-IsDistinct [] = tt
map-disarm-IsDistinct (s ∷ ss) = (λ ne. absurd (ne refl), map-disarm-IsDistinct ss)
