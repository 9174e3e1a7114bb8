-- ===== src/Dedup.antt =====
-- main/bl_table.c: dropping equal neighbours from sorted arrays, in place.
-- A record is the list of its bytes; the flags of an exception stand beside its record.
pub mod Records
pub mod Exceptions
pub mod Flags
pub mod Merged
mod Examples
use esp32_ad_blocker_reborn.Common.{
  ℕ, zero, suc, ◌+◌, ◌-◌, Bool, true, false, not, ◌&&◌, ◌||◌, List, [], ◌∷◌, ◌==◌, bit_and, bit_or,
  if◌then◌else◌, length, set, eq_bytes, Run, done, ◌>>=◌, load,
}
use esp32_ad_blocker_reborn.Gate.{rule_exact, rule_important}

-- The loop of `bl_dedup_records` from `i` on: the array and the number of records kept.
pub dedup_loop : ℕ → ℕ → ℕ → List (List ℕ) → Run (List (List ℕ) × ℕ)
dedup_loop zero i u recs = done (recs, u)
dedup_loop (suc left) i u recs = load recs i >>= λ cur. load recs (u - 1) >>= λ last.
    let same = eq_bytes cur last in
    dedup_loop left (i + 1) (if same then u else u + 1) (if same then recs else set recs u cur)

unfoldable pub bl_dedup_records : List (List ℕ) → ℕ → Run (List (List ℕ) × ℕ)
unfolding dedup_loop
bl_dedup_records recs zero = done (recs, 0)
bl_dedup_records recs (suc n) = dedup_loop n 1 1 recs

-- The flags of two rules for one name: important if one is, exact if both are.
pub merge_flags : ℕ → ℕ → ℕ
merge_flags last cur =
    let imp = not (bit_and last rule_important == 0) || not (bit_and cur rule_important == 0) in
    let ex = not (bit_and last rule_exact == 0) && not (bit_and cur rule_exact == 0) in
    bit_or (if imp then rule_important else 0) (if ex then rule_exact else 0)

pub record Exception : Type 0 where
  pub rec : List ℕ
  pub flags : ℕ

-- The loop of `bl_dedup_exceptions` from `i` on.
pub exceptions_loop : ℕ → ℕ → ℕ → List Exception → Run (List Exception × ℕ)
unfolding merge_flags
exceptions_loop zero i u es = done (es, u)
exceptions_loop (suc left) i u es = load es i >>= λ cur. load es (u - 1) >>= λ last.
    let same = eq_bytes cur.rec last.rec in
    exceptions_loop left (i + 1) (if same then u else u + 1) (
      if same
      then set es (u - 1) (record last { flags = merge_flags last.flags cur.flags })
      else (if u == i then es else set es u cur))

unfoldable pub bl_dedup_exceptions : List Exception → ℕ → Run (List Exception × ℕ)
unfolding exceptions_loop
bl_dedup_exceptions es zero = done (es, 0)
bl_dedup_exceptions es (suc n) = exceptions_loop n 1 1 es
