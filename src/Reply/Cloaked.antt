-- ===== src/Reply/Cloaked.antt =====
-- What the search of an answer's names finds.
use esp32_ad_blocker_reborn.Common.{
  ℕ, zero, suc, ◌+◌, ◌≤◌, ◌≡◌, refl, ◌∙◌, sym, subst, arith, Bool, true, false, Option, none, some,
  List, ◌==◌, ==_iff, ltb, ltb→lt, ltb→le, if◌then◌else◌, length, Run, done, ◌>>=◌, Returns,
  Returns-bind, Returns_mono, inl, inr,
}
use esp32_ad_blocker_reborn.Ttl.{load16}
use esp32_ad_blocker_reborn.Reply.{
  Answer, read_answer, target_is_blocked, chain_loop, cname_chain_is_blocked,
}
use esp32_ad_blocker_reborn.Reply.Chain.{
  RecordAt, answer_of, BlockedName, IsCloaked, Decides, load16_reads, target_is_blocked-Decides,
  not-IsCloaked, Read, read_answer-Read,
}

module _ (blocked : List ℕ → Bool) (pkt : List ℕ) (len : ℕ) (inside : len ≤ length pkt) where
  -- Whether a record is a CNAME to a blocked name.
  target-Decides :
      {off : ℕ} (r : RecordAt pkt len off) (b : Bool)
      → (r.rtype == 5) ≡ b
      → Returns
          (if b then target_is_blocked blocked pkt len (r.at + 10) else done false)
          (λ hit. Decides hit ((r.rtype ≡ 5) × BlockedName blocked pkt len (r.at + 10)))
  target-Decides r true e =
      Returns_mono (target_is_blocked blocked pkt len (r.at + 10))
        (target_is_blocked-Decides blocked pkt len inside (r.at + 10)) (λ hit d. on hit d)
    where
      on :
          (hit : Bool)
          → Decides hit (BlockedName blocked pkt len (r.at + 10))
          → Decides hit ((r.rtype ≡ 5) × BlockedName blocked pkt len (r.at + 10))
      on true b = ((==_iff r.rtype 5).0 e, b)
      on false away = λ (_, b). away b
  target-Decides r false e =
      λ (five, _). (let wrong : true ≡ false = sym ((==_iff r.rtype 5).1 five) ∙ e in absurd (cc))

  chain_loop-Decides :
      (left off : ℕ)
      → Returns
          (chain_loop blocked left pkt len off)
          (λ b. Decides b (IsCloaked blocked pkt len left off))
  unfolding chain_loop
  chain_loop-Decides zero off = λ h. h
  chain_loop-Decides (suc left) off =
      Returns-bind (read_answer pkt len off) _ (λ b. Decides b Cloaked)
        (read_answer-Read blocked pkt len inside off)
        (λ r read. answered r read (λ next. chain_loop-Decides left next))
    where
      Again : Type 0
      Again =
          (next : ℕ)
          → Returns (chain_loop blocked left pkt len next)
              (λ b. Decides b (IsCloaked blocked pkt len left next))

      Cloaked : Type 0
      Cloaked = IsCloaked blocked pkt len (suc left) off

      on_hit : Answer → Bool → Run Bool
      on_hit a hit = elim hit as (λ x. Run Bool) [
        | true ↦ done true
        | false ↦ chain_loop blocked left pkt len a.next
      ]

      last :
          (r : RecordAt pkt len off)
          → blocked r.name ≡ false
          → Again
          → (b : Bool) → Decides b ((r.rtype ≡ 5) × BlockedName blocked pkt len (r.at + 10))
          → Returns (on_hit (answer_of r) b) (λ b. Decides b Cloaked)
      last r miss again true found = (r, inr (inl found))
      last r miss again false away =
          Returns_mono (chain_loop blocked left pkt len (r.at + 10 + r.rdlen))
            (again (r.at + 10 + r.rdlen)) (λ b d. on b d)
        where
          on :
              (b : Bool)
              → Decides b (IsCloaked blocked pkt len left (r.at + 10 + r.rdlen))
              → Decides b Cloaked
          on true rest = (r, inr (inr rest))
          on false none_later = not-IsCloaked blocked pkt len inside left off r miss away none_later

      whole : Answer → Bool → Run Bool
      whole a b = elim b as (λ x. Run Bool) [
        | true ↦ done true
        | false ↦
            (if a.rtype == 5 then target_is_blocked blocked pkt len a.rdata else done false)
            >>= on_hit a
      ]

      owned :
          (r : RecordAt pkt len off) (b : Bool)
          → blocked r.name ≡ b
          → Again
          → Returns (whole (answer_of r) b) (λ b. Decides b Cloaked)
      owned r true hit again = (r, inl hit)
      owned r false miss again =
          Returns-bind
            (if r.rtype == 5 then target_is_blocked blocked pkt len (r.at + 10) else done false)
            (on_hit (answer_of r)) (λ b. Decides b Cloaked) (target-Decides r (r.rtype == 5) refl)
            (λ b d. last r miss again b d)

      answered :
          (r : Option Answer)
          → Read blocked pkt len inside off r
          → Again
          → Returns
              (elim r as (λ x. Run Bool) [ none ↦ done false | some a ↦ whole a (blocked a.name) ])
              (λ b. Decides b Cloaked)
      answered none none_here again = λ (q, _). none_here q
      answered (some a) (r, same) again =
          subst (λ (x : Answer). Returns (whole x (blocked x.name)) (λ b. Decides b Cloaked))
            (sym same) (owned r (blocked r.name) refl again)

  -- Whatever the packet holds, if its bytes are there, the search for cloaking ends without an access
  -- out of bounds. It answers yes exactly if one of the answers that the header counts can be
  -- reached over whole records and is whole itself, and its owner's name is blocked or it is
  -- a CNAME whose target can be read and is blocked. In a packet without a whole header it answers no.
  pub cname_chain_is_blocked-Decides :
      (qend : ℕ)
      → Returns (cname_chain_is_blocked blocked pkt len qend) (λ b. Decides b (
          (12 ≤ len)
          × (ancount : ℕ) × (load16 pkt 6 ≡ done ancount)
          × IsCloaked blocked pkt len ancount qend))
  unfolding cname_chain_is_blocked
  cname_chain_is_blocked-Decides qend = at (ltb len 12) refl
    where
      Found : Type 0
      Found =
          (12 ≤ len)
          × (ancount : ℕ) × (load16 pkt 6 ≡ done ancount)
          × IsCloaked blocked pkt len ancount qend

      at :
          (b : Bool)
          → ltb len 12 ≡ b
          → Returns
              (if b
                then done false
                else (load16 pkt 6 >>= λ ancount. chain_loop blocked ancount pkt len qend))
              (λ b. Decides b Found)
      at true short = λ (whole, _, _, _). absurd (omega (arith, ltb→lt len 12 short, whole))
      at false enough =
          Returns-bind (load16 pkt 6) (λ ancount. chain_loop blocked ancount pkt len qend)
            (λ b. Decides b Found)
            (load16_reads pkt 6 (omega (arith, ltb→le len 12 enough, inside)))
            (λ ancount e.
              Returns_mono (chain_loop blocked ancount pkt len qend)
                (chain_loop-Decides ancount qend) (λ b d. on ancount e b d))
        where
          on :
              (ancount : ℕ)
              → load16 pkt 6 ≡ done ancount
              → (b : Bool) → Decides b (IsCloaked blocked pkt len ancount qend)
              → Decides b Found
          on ancount e true found = (ltb→le len 12 enough, ancount, e, found)
          on ancount e false away = λ (_, n, f, found).
              (let counts : done n ≡ done ancount = sym f ∙ e in
                let same : n ≡ ancount = cc in
                away (subst (λ (x : ℕ). IsCloaked blocked pkt len x qend) same found))
