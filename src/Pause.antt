-- ===== src/Pause.antt =====
-- main/pause.c: the table of timed pauses. A reading of the clock, in seconds since the boot, is an
-- argument; a function that reads it more than once takes one argument for each reading.
pub mod Slots
pub mod Effect
pub mod Torn
mod Examples
use esp32_ad_blocker_reborn.Common.{
  ℕ, zero, suc, ◌+◌, ◌*◌, ◌-◌, ◌%◌, ◌^◌, Bool, true, false, not, ◌&&◌, ◌||◌, Option, none, some,
  List, [], ◌∷◌, map, ltb, leb, ◌==◌, if◌then◌else◌, set, u32,
}

abbrev pub pause_max_minutes : ℕ
pause_max_minutes = 1440

abbrev pub pause_ip_all : ℕ
pause_ip_all = 0

-- An expiry of 0 means that the slot is empty.
pub record PauseSlot : Type 0 where
  pub ip : ℕ
  pub expires_s : ℕ

-- The file's statics; `ready` says that the mutex exists.
pub record PauseTable : Type 0 where
  pub ready : Bool
  pub slots : List PauseSlot
  pub armed : ℕ

abbrev pub empty_slot : PauseSlot
empty_slot = record { ip = 0; expires_s = 0 }

-- The three stores of a writer, as seen after the last one.
pub slot_write : ℕ → ℕ → PauseSlot
slot_write ip expires = record { ip = ip; expires_s = expires }

-- The slot after the first stores of `slot_write`: expiry 0, then the address, then the expiry.
pub after_stores : ℕ → ℕ → ℕ → PauseSlot → PauseSlot
unfolding slot_write
after_stores zero ip expires s = s
after_stores (suc zero) ip expires s = record s { expires_s = 0 }
after_stores (suc (suc zero)) ip expires s = record { ip = ip; expires_s = 0 }
after_stores (suc (suc (suc k))) ip expires s = slot_write ip expires

-- `sweep_locked`: the slots without the expired ones, and the number of armed slots.
pub sweep_slots : ℕ → List PauseSlot → List PauseSlot × ℕ
sweep_slots now [] = ([], 0)
sweep_slots now (s ∷ ss) =
    let (rest, n) = sweep_slots now ss in
    if s.expires_s == 0
    then (s ∷ rest, n)
    else (if leb s.expires_s now then (record s { expires_s = 0 } ∷ rest, n) else (s ∷ rest, n + 1))

pub sweep_locked : ℕ → PauseTable → PauseTable
sweep_locked now p =
    let (slots, n) = sweep_slots now p.slots in record p { slots = slots; armed = n }

-- `PAUSE_MAX` empty slots; the mutex is created.
unfoldable pub pause_init : PauseTable
pause_init = record {
  ready = true;
  slots =
      empty_slot ∷ empty_slot ∷ empty_slot ∷ empty_slot ∷ empty_slot ∷ empty_slot ∷ empty_slot
      ∷ empty_slot ∷ [];
  armed = 0;
}

-- The first slot that is armed for an address.
pub find_ip : ℕ → List PauseSlot → Option ℕ
find_ip ip [] = none
find_ip ip (s ∷ ss) =
    let rest = find_ip ip ss in
    if not (s.expires_s == 0) && s.ip == ip
    then some 0
    else elim rest [ none ↦ none | some i ↦ some (suc i) ]

-- The first empty slot.
pub find_empty : List PauseSlot → Option ℕ
find_empty [] = none
find_empty (s ∷ ss) =
    let rest = find_empty ss in
    if s.expires_s == 0 then some 0 else elim rest [ none ↦ none | some i ↦ some (suc i) ]

pub find_target : ℕ → List PauseSlot → Option ℕ
find_target ip slots = elim (find_ip ip slots) [ some i ↦ some i | none ↦ find_empty slots ]

-- The store into the slot found, and the second sweep.
pub finish_set : ℕ → ℕ → ℕ → PauseTable → Option ℕ → PauseTable × Bool
finish_set t2 ip expires swept none = (sweep_locked t2 swept, false)
finish_set t2 ip expires swept (some i) =
    (sweep_locked t2 (record swept { slots = set swept.slots i (slot_write ip expires) }), true)

-- The clock is read for the expiry and by the two sweeps.
unfoldable pub pause_set : ℕ → ℕ → ℕ → ℕ → ℕ → PauseTable → PauseTable × Bool
unfolding finish_set sweep_locked sweep_slots find_target find_ip find_empty slot_write
pause_set t0 t1 t2 ip minutes p =
    if not p.ready || minutes == 0 || ltb pause_max_minutes minutes
    then (p, false)
    else (let expires = u32 (t0 + u32 (minutes * 60)) in
        let swept = sweep_locked t1 p in
        finish_set t2 ip expires swept (find_target ip swept.slots))

-- The loop of `pause_clear`: the slots after it, and whether one was found.
pub clear_loop : ℕ → ℕ → List PauseSlot → List PauseSlot × Bool
clear_loop now ip [] = ([], false)
clear_loop now ip (s ∷ ss) =
    let (rest, found) = clear_loop now ip ss in
    if ltb now s.expires_s && s.ip == ip
    then (record s { expires_s = 0 } ∷ rest, true)
    else (s ∷ rest, found)

unfoldable pub pause_clear : ℕ → ℕ → ℕ → PauseTable → PauseTable × Bool
unfolding clear_loop sweep_locked sweep_slots
pause_clear t0 t1 ip p =
    if not p.ready
    then (p, false)
    else (let (slots, found) = clear_loop t0 ip p.slots in
        (sweep_locked t1 (record p { slots = slots }), found))

pub disarm : PauseSlot → PauseSlot
disarm s = record s { expires_s = 0 }

unfoldable pub pause_clear_all : ℕ → PauseTable → PauseTable × ℕ
unfolding sweep_locked sweep_slots disarm
pause_clear_all t0 p =
    if not p.ready
    then (p, 0)
    else (let swept = sweep_locked t0 p in
        (record swept { slots = map disarm swept.slots; armed = 0 }, swept.armed))

-- The loop of `pause_list`, with the room that is left: addresses and remaining seconds.
pub list_loop : ℕ → ℕ → List PauseSlot → List (ℕ × ℕ)
list_loop now zero ss = []
list_loop now (suc room) [] = []
list_loop now (suc room) (s ∷ ss) =
    let skip = list_loop now (suc room) ss in
    let keep = (s.ip, s.expires_s - now) ∷ list_loop now room ss in
    if s.expires_s == 0 || leb s.expires_s now then skip else keep

unfoldable pub pause_list : ℕ → ℕ → ℕ → PauseTable → PauseTable × List (ℕ × ℕ)
unfolding list_loop sweep_locked sweep_slots
pause_list t0 t1 max p =
    if not p.ready
    then (p, [])
    else (let swept = sweep_locked t0 p in (swept, list_loop t1 max swept.slots))

unfoldable pub pause_count : ℕ → PauseTable → PauseTable × ℕ
unfolding sweep_locked sweep_slots
pause_count t0 p =
    if not p.ready then (p, 0) else (let swept = sweep_locked t0 p in (swept, swept.armed))

-- What a reader loads of one slot: the expiry, the address, and the expiry again.
pub record Observation : Type 0 where
  pub e1 : ℕ
  pub ip : ℕ
  pub e2 : ℕ

-- With no writer between, a reader sees the slot.
pub observe : PauseSlot → Observation
observe s = record { e1 = s.expires_s; ip = s.ip; e2 = s.expires_s }

-- A reader whose three loads come after `a`, `b` and `c` stores of a writer.
pub observe_during : ℕ → ℕ → ℕ → ℕ → ℕ → PauseSlot → Observation
unfolding after_stores
observe_during a b c ip expires s = record {
  e1 = (after_stores a ip expires s).expires_s;
  ip = (after_stores b ip expires s).ip;
  e2 = (after_stores c ip expires s).expires_s;
}

pub active_loop : ℕ → ℕ → List Observation → Bool
active_loop now client [] = false
active_loop now client (o ∷ os) =
    let rest = active_loop now client os in
    if o.e1 == 0 || leb o.e1 now
    then rest
    else (if not (o.e2 == o.e1)
        then rest
        else (if o.ip == pause_ip_all || o.ip == client then true else rest))

unfoldable pub pause_active_for : ℕ → ℕ → PauseTable → Bool
unfolding active_loop observe
pause_active_for now client p =
    if p.armed == 0 then false else active_loop now client (map observe p.slots)
