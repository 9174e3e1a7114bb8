-- ===== src/Pause/Effect.antt =====
-- What the operations of pause.c do to the paused addresses, at every later time.
use esp32_ad_blocker_reborn.Common.{
  ℕ, ◌+◌, ◌*◌, ◌^◌, ◌≤◌, ◌<◌, ◌≡◌, ◌≢◌, refl, sym, ◌∙◌, ap, ap₂, subst, arith, Bool, true, false,
  not, ◌||◌, Option, none, some, List, map, length-map, ltb, ◌==◌, if◌then◌else◌, set, u32, length,
  length-set, Bool-cases, inl, inr, ==_iff,
}
use esp32_ad_blocker_reborn.Pause.{
  PauseSlot, PauseTable, sweep_slots, sweep_locked, find_target, finish_set, clear_loop, slot_write,
  disarm, pause_ip_all, pause_max_minutes, pause_set, pause_clear, pause_clear_all,
  pause_active_for,
}
use esp32_ad_blocker_reborn.Pause.Slots.{
  paused, armed_count, IsDistinct, IsTarget, paused-sweep_slots, armed_count-sweep_slots,
  sweep_slots-IsDistinct, paused_of_unarmed, active_loop-paused, find_target-IsTarget,
  paused-set_other, paused-set_self, set-IsDistinct, find_target_full, paused-clear_loop_self,
  paused-clear_loop_other, clear_loop-found, clear_loop-IsDistinct, length-sweep_slots,
  length-clear_loop, armed_count-disarm, map-disarm-IsDistinct,
}

-- The table between two operations: eight slots, counted, with no address armed twice.
pub record IsSound (p : PauseTable) : Type 0 where
  pub ready : p.ready ≡ true
  pub eight : length p.slots ≡ 8
  pub counted : p.armed ≡ armed_count p.slots
  pub distinct : IsDistinct p.slots

-- In a sound table a query finds blocking paused exactly when an unexpired slot holds the wildcard
-- or the client's own address.
pub pause_active_for-paused :
    (now client : ℕ) (p : PauseTable)
    → IsSound p
    → pause_active_for now client p ≡ (paused now pause_ip_all p.slots || paused now client p.slots)
unfolding pause_active_for
pause_active_for-paused now client p sound = elim (Bool-cases (p.armed == 0)) [
  | inr e ↦ rw (pause_active_for, e) (active_loop-paused now client p.slots)
  | inl e ↦
      let unarmed : armed_count p.slots ≡ 0 = sym sound.counted ∙ (==_iff p.armed 0).0 e in
      rw (
        pause_active_for,
        e,
        paused_of_unarmed now pause_ip_all p.slots unarmed,
        paused_of_unarmed now client p.slots unarmed,
      )
]

sweep_locked-IsSound :
    (now : ℕ) (p : PauseTable)
    → p.ready ≡ true
    → length p.slots ≡ 8
    → IsDistinct p.slots
    → IsSound (sweep_locked now p)
unfolding sweep_locked
sweep_locked-IsSound now p ready eight distinct = record {
  ready = ready;
  eight = length-sweep_slots now p.slots ∙ eight;
  counted = armed_count-sweep_slots now p.slots;
  distinct = sweep_slots-IsDistinct now p.slots distinct;
}

-- What `pause_set` may do: on success the address is paused up to the expiry and no longer, on
-- failure the table is full; no other address changes.
abbrev pub Sets : ℕ → ℕ → ℕ → ℕ → PauseTable → PauseTable × Bool → Type 0
Sets t1 t2 ip expires p (p', true) =
    IsSound p'
    × ((t : ℕ) → t2 ≤ t → paused t ip p'.slots ≡ ltb t expires)
    × ((t other : ℕ) → t2 ≤ t → other ≢ ip → paused t other p'.slots ≡ paused t other p.slots)
Sets t1 t2 ip expires p (p', false) =
    IsSound p'
    × (armed_count (sweep_slots t1 p.slots).0 ≡ 8)
    × ((t : ℕ) → t2 ≤ t → paused t ip p.slots ≡ false)
    × ((t other : ℕ) → t2 ≤ t → paused t other p'.slots ≡ paused t other p.slots)

abbrev swept : ℕ → PauseTable → PauseTable
swept now p = sweep_locked now p

swept-slots : (now : ℕ) (p : PauseTable) → (sweep_locked now p).slots ≡ (sweep_slots now p.slots).0
unfolding sweep_locked
swept-slots now p = refl

paused-swept :
    (now t ip : ℕ) (p : PauseTable)
    → now ≤ t
    → paused t ip (sweep_locked now p).slots ≡ paused t ip p.slots
unfolding sweep_locked
paused-swept now t ip p h = paused-sweep_slots now t ip p.slots h

finish_set-Sets :
    (t1 t2 ip expires : ℕ) (p : PauseTable)
    → IsSound p
    → t1 ≤ t2
    → (o : Option ℕ) → find_target ip (sweep_locked t1 p).slots ≡ o
    → Sets t1 t2 ip expires p (finish_set t2 ip expires (sweep_locked t1 p) o)
unfolding finish_set
finish_set-Sets t1 t2 ip expires p sound order none e =
    let q : PauseTable = sweep_locked t1 p in
    let qs : IsSound q = sweep_locked-IsSound t1 p sound.ready sound.eight sound.distinct in
    (
      sweep_locked-IsSound t2 q qs.ready qs.eight qs.distinct,
      ap armed_count (sym (swept-slots t1 p)) ∙ (find_target_full ip 0 q.slots e).1 ∙ qs.eight,
      λ t h. sym (paused-swept t1 t ip p (omega arith)) ∙ (find_target_full ip t q.slots e).0,
      λ t other h. paused-swept t2 t other q h ∙ paused-swept t1 t other p (omega arith),
    )
finish_set-Sets t1 t2 ip expires p sound order (some i) e =
    let q : PauseTable = sweep_locked t1 p in
    let qs : IsSound q = sweep_locked-IsSound t1 p sound.ready sound.eight sound.distinct in
    let at : IsTarget ip q.slots i = find_target-IsTarget ip q.slots i qs.distinct e in
    let w : PauseTable = record q { slots = set q.slots i (slot_write ip expires) } in
    (
      sweep_locked-IsSound t2 w qs.ready (length-set q.slots i (slot_write ip expires) ∙ qs.eight)
          (set-IsDistinct ip expires q.slots i qs.distinct at),
      λ t h. paused-swept t2 t ip w h ∙ paused-set_self ip expires t q.slots i at,
      λ t other h ne.
          paused-swept t2 t other w h
          ∙ paused-set_other ip expires t other q.slots i ne at
          ∙ paused-swept t1 t other p (omega arith),
    )

-- For 1 to 1440 minutes, clock readings in order and an expiry that fits 32 bits, `pause_set` on a
-- sound table leaves a sound table. If it returns true, the address is paused from the last reading
-- on until exactly the first reading plus the minutes, whatever was set for it before; if it returns
-- false, all eight slots were unexpired at the second reading and the address is not paused. No
-- other address changes.
pub pause_set-Sets :
    (t0 t1 t2 ip minutes : ℕ) (p : PauseTable)
    → IsSound p
    → 1 ≤ minutes
    → minutes ≤ pause_max_minutes
    → t0 + minutes * 60 < 2 ^ 32
    → t1 ≤ t2
    → Sets t1 t2 ip (t0 + minutes * 60) p (pause_set t0 t1 t2 ip minutes p)
unfolding pause_set
pause_set-Sets t0 t1 t2 ip minutes p sound least most fits order =
    rw (pause_set, in_range p.ready minutes sound.ready least most, exact)
      (finish_set-Sets t1 t2 ip (t0 + minutes * 60) p sound order
        (find_target ip (swept t1 p).slots) refl)
  where
    exact : u32 (t0 + u32 (minutes * 60)) ≡ t0 + minutes * 60
    exact = omega arith

    in_range :
        (ready : Bool) (m : ℕ)
        → ready ≡ true
        → 1 ≤ m
        → m ≤ 1440
        → (not ready || m == 0 || ltb 1440 m) ≡ false
    in_range ready m r a b = ground arith

-- `pause_clear` on a sound table leaves a sound table in which the address is not paused at any
-- time from the first reading on and no other address has changed; it returns true exactly when the
-- address was paused at the first reading.
pub pause_clear-paused :
    (t0 t1 ip : ℕ) (p : PauseTable)
    → IsSound p
    → t0 ≤ t1
    → let (p', found) = pause_clear t0 t1 ip p in
      IsSound p'
      × (found ≡ paused t0 ip p.slots)
      × ((t : ℕ) → t1 ≤ t → paused t ip p'.slots ≡ false)
      × ((t other : ℕ) → t1 ≤ t → other ≢ ip → paused t other p'.slots ≡ paused t other p.slots)
unfolding pause_clear
pause_clear-paused t0 t1 ip p sound order =
    let w : PauseTable = record p { slots = (clear_loop t0 ip p.slots).0 } in
    rw (pause_clear, ap not sound.ready)
      (
        sweep_locked-IsSound t1 w sound.ready (length-clear_loop t0 ip p.slots ∙ sound.eight)
            (clear_loop-IsDistinct t0 ip p.slots sound.distinct),
        clear_loop-found t0 ip p.slots,
        λ t h. paused-swept t1 t ip w h ∙ paused-clear_loop_self t0 ip t p.slots (omega arith),
        λ t other h ne.
            paused-swept t1 t other w h ∙ paused-clear_loop_other t0 ip t other p.slots ne,
      )

-- `pause_clear_all` on a sound table leaves a sound table in which no address is paused, and returns
-- the number of slots that were unexpired.
pub pause_clear_all-paused :
    (t0 : ℕ) (p : PauseTable)
    → IsSound p
    → let (p', n) = pause_clear_all t0 p in
      IsSound p'
      × (n ≡ armed_count (sweep_slots t0 p.slots).0)
      × ((t ip : ℕ) → paused t ip p'.slots ≡ false)
unfolding pause_clear_all
pause_clear_all-paused t0 p sound =
    let ss : List PauseSlot = (sweep_slots t0 p.slots).0 in
    rw (pause_clear_all, ap not sound.ready)
      (
        record {
          ready = sound.ready;
          eight = length-map disarm ss ∙ length-sweep_slots t0 p.slots ∙ sound.eight;
          counted = sym (armed_count-disarm ss);
          distinct = map-disarm-IsDistinct ss;
        },
        armed_count-sweep_slots t0 p.slots,
        λ t ip. paused_of_unarmed t ip (map disarm ss) (armed_count-disarm ss),
      )

-- After a successful `pause_set` on a sound table, a query from any client finds blocking paused
-- exactly while the new pause runs for everyone or for that client, or another pause did already;
-- the answer holds from the last reading of the clock on.
pub pause_active_for-pause_set :
    (t0 t1 t2 ip minutes t client : ℕ) (p : PauseTable)
    → IsSound p
    → 1 ≤ minutes
    → minutes ≤ pause_max_minutes
    → t0 + minutes * 60 < 2 ^ 32
    → t1 ≤ t2
    → t2 ≤ t
    → (pause_set t0 t1 t2 ip minutes p).1 ≡ true
    → let after = λ (a : ℕ). if a == ip then ltb t (t0 + minutes * 60) else paused t a p.slots in
      pause_active_for t client (pause_set t0 t1 t2 ip minutes p).0
      ≡ (after pause_ip_all || after client)
pause_active_for-pause_set t0 t1 t2 ip minutes t client p sound least most fits order late ok =
    go (pause_set t0 t1 t2 ip minutes p)
      (pause_set-Sets t0 t1 t2 ip minutes p sound least most fits order) ok
  where
    go :
        (r : PauseTable × Bool)
        → Sets t1 t2 ip (t0 + minutes * 60) p r
        → r.1 ≡ true
        → pause_active_for t client r.0 ≡ (
            (if pause_ip_all == ip
              then ltb t (t0 + minutes * 60)
              else paused t pause_ip_all p.slots)
            || (if client == ip then ltb t (t0 + minutes * 60) else paused t client p.slots))
    go (p', true) (sound', self, others) e =
        pause_active_for-paused t client p' sound' ∙ ap₂ ◌||◌ (at pause_ip_all) (at client)
      where
        at :
            (a : ℕ)
            → paused t a p'.slots
              ≡ (if a == ip then ltb t (t0 + minutes * 60) else paused t a p.slots)
        at a = elim (Bool-cases (a == ip)) [
          | inl e ↦ rw e (
              subst (λ (b : ℕ). paused t b p'.slots ≡ ltb t (t0 + minutes * 60))
                (sym ((==_iff a ip).0 e)) (self t late))
          | inr e ↦ rw e (others t a late (λ same. cc (sym ((==_iff a ip).1 same) ∙ e)))
        ]
    go (p', false) h e = cc
