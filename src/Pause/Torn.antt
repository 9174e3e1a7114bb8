-- ===== src/Pause/Torn.antt =====
-- `pause_active_for` against a writer that stores into the slot while it is read.
use esp32_ad_blocker_reborn.Common.{ℕ, zero, suc, ◌≤◌, ◌≡◌, ◌⊎◌, arith, true, [], ◌∷◌}
use esp32_ad_blocker_reborn.Pause.{PauseSlot, slot_write, observe, observe_during, active_loop}

-- When the loads of a reader come after `a`, `b` and `c` of the three stores of one `slot_write`, in
-- that order, the slot counts as an active pause of the client only if it did before the write or
-- does after it: a torn read never pauses blocking for a client that neither value pauses.
pub active_loop-observe_during :
    (now client a b c ip expires : ℕ) (s : PauseSlot)
    → a ≤ b
    → b ≤ c
    → c ≤ 3
    → active_loop now client (observe_during a b c ip expires s ∷ []) ≡ true
    → (active_loop now client (observe s ∷ []) ≡ true)
      ⊎ (active_loop now client (observe (slot_write ip expires) ∷ []) ≡ true)
unfolding active_loop observe_during observe slot_write
active_loop-observe_during now client zero zero zero ip e s p q r h = ground arith
active_loop-observe_during now client zero zero (suc zero) ip e s p q r h = ground arith
active_loop-observe_during now client zero zero (suc (suc zero)) ip e s p q r h = ground arith
active_loop-observe_during now client zero zero (suc (suc (suc c))) ip e s p q r h = ground arith
active_loop-observe_during now client zero (suc zero) zero ip e s p q r h = absurd (omega arith)
active_loop-observe_during now client zero (suc zero) (suc zero) ip e s p q r h = ground arith
active_loop-observe_during now client zero (suc zero) (suc (suc zero)) ip e s p q r h = ground arith
active_loop-observe_during now client zero (suc zero) (suc (suc (suc c))) ip e s p q r h =
    ground arith
active_loop-observe_during now client zero (suc (suc zero)) zero ip e s p q r h =
    absurd (omega arith)
active_loop-observe_during now client zero (suc (suc zero)) (suc zero) ip e s p q r h =
    absurd (omega arith)
active_loop-observe_during now client zero (suc (suc zero)) (suc (suc zero)) ip e s p q r h =
    ground arith
active_loop-observe_during now client zero (suc (suc zero)) (suc (suc (suc c))) ip e s p q r h =
    ground arith
active_loop-observe_during now client zero (suc (suc (suc b))) zero ip e s p q r h =
    absurd (omega arith)
active_loop-observe_during now client zero (suc (suc (suc b))) (suc zero) ip e s p q r h =
    absurd (omega arith)
active_loop-observe_during now client zero (suc (suc (suc b))) (suc (suc zero)) ip e s p q r h =
    absurd (omega arith)
active_loop-observe_during now client zero (suc (suc (suc b))) (suc (suc (suc c))) ip e s p q r h =
    ground arith
active_loop-observe_during now client (suc zero) b c ip e s p q r h = absurd (ground arith)
active_loop-observe_during now client (suc (suc zero)) b c ip e s p q r h = absurd (ground arith)
active_loop-observe_during now client (suc (suc (suc a))) zero c ip e s p q r h =
    absurd (omega arith)
active_loop-observe_during now client (suc (suc (suc a))) (suc zero) c ip e s p q r h =
    absurd (omega arith)
active_loop-observe_during now client (suc (suc (suc a))) (suc (suc zero)) c ip e s p q r h =
    absurd (omega arith)
active_loop-observe_during now client (suc (suc (suc a))) (suc (suc (suc b))) zero ip e s p q r h =
    absurd (omega arith)
active_loop-observe_during now client (suc (suc (suc a))) (suc (suc (suc b))) (suc zero) ip e s p q
      r h =
    absurd (omega arith)
active_loop-observe_during now client (suc (suc (suc a))) (suc (suc (suc b))) (suc (suc zero)) ip e
      s p q r h =
    absurd (omega arith)
active_loop-observe_during now client (suc (suc (suc a))) (suc (suc (suc b))) (suc (suc (suc c))) ip
      e s p q r h =
    ground arith
