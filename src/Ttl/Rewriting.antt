-- ===== src/Ttl/Rewriting.antt =====
-- `dns_rewrite_answer_ttls`: it writes inside the packet, and keeps what is outside its records.
use esp32_ad_blocker_reborn.Common.{
  ℕ, zero, suc, ◌+◌, ◌≤◌, ◌<◌, ◌≡◌, inl, inr, refl, ◌∙◌, arith, Bool, true, false, not, ◌||◌, List,
  ltb, length, get_elem?, get_elem?-set_ne, length-set, done, ◌>>=◌, store-Returns, Bool-cases,
  Returns, Run, fault, out_of_fuel, Returns_mono, Returns-bind, store, u8, ◌>>>◌,
}
use esp32_ad_blocker_reborn.Wire.{dns_skip_name}
use esp32_ad_blocker_reborn.Wire.Skip.{Skipped, dns_skip_name-Skipped}
use esp32_ad_blocker_reborn.Ttl.{load16, store32, rewrite_loop, dns_rewrite_answer_ttls}
use esp32_ad_blocker_reborn.Ttl.Safety.{load16-Returns}

-- The same length, and the same bytes below `lo` and from `hi` on.
pub record Keeps (lo hi : ℕ) (pkt pkt' : List ℕ) : Type 0 where
  pub same_length : length pkt' ≡ length pkt
  pub before : (i : ℕ) → i < lo → get_elem? pkt' i ≡ get_elem? pkt i
  pub behind : (i : ℕ) → hi ≤ i → get_elem? pkt' i ≡ get_elem? pkt i

Keeps-refl : (lo hi : ℕ) (pkt : List ℕ) → Keeps lo hi pkt pkt
Keeps-refl lo hi pkt = record { same_length = refl; before = λ i h. refl; behind = λ i h. refl }

Keeps-trans : (lo hi : ℕ) (p q r : List ℕ) → Keeps lo hi p q → Keeps lo hi q r → Keeps lo hi p r
Keeps-trans lo hi p q r a b = record {
  same_length = b.same_length ∙ a.same_length;
  before = λ i h. b.before i h ∙ a.before i h;
  behind = λ i h. b.behind i h ∙ a.behind i h;
}

store-Keeps :
    (lo hi : ℕ) (pkt : List ℕ) (i v : ℕ)
    → lo ≤ i
    → i < hi
    → hi ≤ length pkt
    → Returns (store pkt i v) (Keeps lo hi pkt)
store-Keeps lo hi pkt i v a b c =
    Returns_mono (store pkt i v) (store-Returns pkt i v (omega arith)) (λ ys e. rw e (record {
      same_length = length-set pkt i v;
      before = λ j h. get_elem?-set_ne pkt i j v (λ p. absurd (omega arith));
      behind = λ j h. get_elem?-set_ne pkt i j v (λ p. absurd (omega arith));
    }))

-- A store after stores that kept the packet.
store-Keeps_next :
    (lo hi : ℕ) (pkt p : List ℕ) (i v : ℕ)
    → lo ≤ i
    → i < hi
    → hi ≤ length pkt
    → Keeps lo hi pkt p
    → Returns (store p i v) (Keeps lo hi pkt)
store-Keeps_next lo hi pkt p i v a b c k =
    Returns_mono (store p i v) (store-Keeps lo hi p i v a b (omega (arith, k.same_length)))
      (λ q k'. Keeps-trans lo hi pkt p q k k')

store32-Keeps :
    (lo hi : ℕ) (pkt : List ℕ) (i v : ℕ)
    → lo ≤ i
    → i + 3 < hi
    → hi ≤ length pkt
    → Returns (store32 pkt i v) (Keeps lo hi pkt)
unfolding store32
store32-Keeps lo hi pkt i v a b c =
    Returns-bind (store pkt i (u8 (v >>> 24))) _ (Keeps lo hi pkt)
      (store-Keeps lo hi pkt i _ a (omega arith) c)
      (λ p1 k1.
        Returns-bind (store p1 (i + 1) (u8 (v >>> 16))) _ (Keeps lo hi pkt)
          (store-Keeps_next lo hi pkt p1 (i + 1) _ (omega arith) (omega arith) c k1)
          (λ p2 k2.
            Returns-bind (store p2 (i + 2) (u8 (v >>> 8))) _ (Keeps lo hi pkt)
              (store-Keeps_next lo hi pkt p2 (i + 2) _ (omega arith) (omega arith) c k2)
              (λ p3 k3.
                store-Keeps_next lo hi pkt p3 (i + 3) (u8 v) (omega arith) (omega arith) c k3)))

rewrite_loop-Keeps :
    (lo left len off ttl_s : ℕ) (pkt : List ℕ)
    → lo ≤ off
    → len ≤ length pkt
    → Returns (rewrite_loop left pkt len off ttl_s) (Keeps lo len pkt)
unfolding rewrite_loop
rewrite_loop-Keeps lo zero len off ttl_s pkt a inside = Keeps-refl lo len pkt
rewrite_loop-Keeps lo (suc left) len off ttl_s pkt a inside = elim (Bool-cases (ltb len off)) [
  | inl e ↦ rw (rewrite_loop, e) (Keeps-refl lo len pkt)
  | inr e ↦
      rw (rewrite_loop, e)
        (Returns-bind (dns_skip_name pkt len off) _ (Keeps lo len pkt)
          (dns_skip_name-Skipped pkt len off inside)
          (λ r moved. elim (Bool-cases (not r.0 || ltb len (r.1 + 10))) [
            | inl e ↦ rw e (Keeps-refl lo len pkt)
            | inr e ↦
                let further : off < r.1 = (moved (ground arith)).0 in
                rw e (
                  Returns-bind (store32 pkt (r.1 + 4) ttl_s) _ (Keeps lo len pkt)
                    (store32-Keeps lo len pkt (r.1 + 4) ttl_s (omega arith) (ground arith) inside)
                    (λ written k.
                      Returns-bind (load16 written (r.1 + 8)) _ (Keeps lo len pkt)
                        (load16-Returns written (r.1 + 8) (ground (arith, k.same_length)))
                        (λ rdlen _.
                          Returns_mono (rewrite_loop left written len (r.1 + 10 + rdlen) ttl_s)
                            (rewrite_loop-Keeps lo left len (r.1 + 10 + rdlen) ttl_s written
                              (omega arith) (omega (arith, k.same_length)))
                            (λ final k'. Keeps-trans lo len pkt written final k k'))))
          ]))
]

-- Where the records start, by what skipping the question's name gave: without a question, nowhere.
abbrev pub records_from : ℕ → Bool × ℕ → ℕ
records_from len (true, off) = off + 4
records_from len (false, off) = len

after_question-Keeps :
    (pkt : List ℕ) (len rrs ttl_s : ℕ)
    → len ≤ length pkt
    → (ok : Bool) (off : ℕ)
    → Returns
        (elim ok [ false ↦ done pkt | true ↦ rewrite_loop rrs pkt len (off + 4) ttl_s ])
        (Keeps (records_from len (ok, off)) len pkt)
after_question-Keeps pkt len rrs ttl_s inside true off =
    rewrite_loop-Keeps (off + 4) rrs len (off + 4) ttl_s pkt (omega arith) inside
after_question-Keeps pkt len rrs ttl_s inside false off = Keeps-refl len len pkt

-- On a packet whose bytes are there, whatever they are, `dns_rewrite_answer_ttls` returns without a
-- read or write beyond the packet. It keeps the length, and every byte of the header and of the
-- question, to the end of its class; if the question's name cannot be skipped it keeps every byte.
pub dns_rewrite_answer_ttls-Keeps :
    (pkt : List ℕ) (len ttl_s : ℕ)
    → len ≤ length pkt
    → Returns
        (dns_skip_name pkt len 12)
        (λ r. Returns (dns_rewrite_answer_ttls pkt len ttl_s) (Keeps (records_from len r) len pkt))
unfolding dns_rewrite_answer_ttls
dns_rewrite_answer_ttls-Keeps pkt len ttl_s inside =
    keeps (dns_skip_name pkt len 12) refl (dns_skip_name-Skipped pkt len 12 inside)
  where
    keeps :
        (skip : Run (Bool × ℕ))
        → dns_skip_name pkt len 12 ≡ skip
        → Returns skip (Skipped len 12)
        → Returns skip (λ r.
          Returns (dns_rewrite_answer_ttls pkt len ttl_s) (Keeps (records_from len r) len pkt))
    keeps fault e h = absurd h
    keeps out_of_fuel e h = absurd h
    keeps (done (ok, off)) e h = elim (Bool-cases (ltb len 12)) [
      | inl s ↦ rw (dns_rewrite_answer_ttls, s) (Keeps-refl _ len pkt)
      | inr s ↦
          let Q = Keeps (records_from len (ok, off)) len pkt in
          rw (dns_rewrite_answer_ttls, s)
            (Returns-bind (load16 pkt 6) _ Q (load16-Returns pkt 6 (ground arith)) (λ an _.
              Returns-bind (load16 pkt 8) _ Q (load16-Returns pkt 8 (ground arith)) (λ ns _.
                Returns-bind (load16 pkt 10) _ Q (load16-Returns pkt 10 (ground arith)) (λ ar _.
                  rw (e, ◌>>=◌)
                    (after_question-Keeps pkt len (an + ns + ar) ttl_s inside ok off)))))
    ]
