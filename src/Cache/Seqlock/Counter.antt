-- ===== src/Cache/Seqlock/Counter.antt =====
-- While the counter stays even and the same, the cache stays the same.
use esp32_ad_blocker_reborn.Common.{ℕ, ◌+◌, ◌%◌, ◌^◌, ◌≤◌, ◌<◌, ◌≡◌, refl, arith, u32}
use esp32_ad_blocker_reborn.Cache.{Cache}
use esp32_ad_blocker_reborn.Cache.Seqlock.{Shared, Step, Steps}

Steps-le : {a b : Shared} → Steps a b → a.ticks ≤ b.ticks
Steps-le Steps.stay = omega arith
Steps-le (Steps.then_step s (Step.begin n c e)) = omega (arith, Steps-le s)
Steps-le (Steps.then_step s (Step.write n c d e)) = Steps-le s
Steps-le (Steps.then_step s (Step.end n c e)) = omega (arith, Steps-le s)

Steps-same : {a b : Shared} → Steps a b → a.ticks % 2 ≡ 0 → a.ticks ≡ b.ticks → b.cache ≡ a.cache
Steps-same Steps.stay even same = refl
Steps-same (Steps.then_step s (Step.begin n c e)) even same =
    absurd (omega (arith, Steps-le s, same))
Steps-same (Steps.then_step s (Step.write n c d e)) even same =
    absurd (omega (arith, e, even, same))
Steps-same (Steps.then_step s (Step.end n c e)) even same = absurd (omega (arith, Steps-le s, same))

-- Between two loads of the counter with one even value the cache does not change, if the counter was
-- counted up fewer than 2^32 times.
pub Steps-between :
    (a b z : Shared)
    → Steps a b
    → Steps b z
    → u32 a.ticks % 2 ≡ 0
    → u32 z.ticks ≡ u32 a.ticks
    → z.ticks < a.ticks + 2 ^ 32
    → b.cache ≡ a.cache
Steps-between a b z s t even same few =
    Steps-same s (omega (arith, even)) (omega (arith, Steps-le s, Steps-le t, same, few))

-- A store as it stands in the code: the counter is odd while the entry is written.
pub store-Steps :
    (n : ℕ) (c d : Cache)
    → n % 2 ≡ 0
    → Steps (record { ticks = n; cache = c }) (record { ticks = n + 1 + 1; cache = d })
store-Steps n c d even =
    Steps.then_step
      (Steps.then_step (Steps.then_step Steps.stay (Step.begin n c even))
        (Step.write (n + 1) c d (omega (arith, even))))
      (Step.end (n + 1) d (omega (arith, even)))
