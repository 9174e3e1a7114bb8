-- ===== src/Reply/Chain.antt =====
-- The records of an answer, and what the code reads of one.
use esp32_ad_blocker_reborn.Common.{
  ℕ, zero, suc, ◌+◌, ◌≤◌, ◌<◌, ◌≡◌, ◌⊎◌, refl, ◌∙◌, sym, ap, subst, arith, Bool, true, false,
  Option, none, some, List, ltb, ltb→lt, ltb→le, if◌then◌else◌, length, Run, done, fault,
  out_of_fuel, ◌>>=◌, Returns, Returns_mono, inl, inr,
}
use esp32_ad_blocker_reborn.Wire.{dns_decompress_name}
use esp32_ad_blocker_reborn.Wire.Decompress.{dns_decompress_name-Decoded}
use esp32_ad_blocker_reborn.Ttl.{load16}
use esp32_ad_blocker_reborn.Ttl.Safety.{load16-Returns}
use esp32_ad_blocker_reborn.Reply.{Answer, read_answer, target_is_blocked}

-- A whole record at an offset: its owner's name, and what its header says.
pub record RecordAt (pkt : List ℕ) (len off : ℕ) : Type 0 where
  pub name : List ℕ
  pub at : ℕ
  pub rtype : ℕ
  pub rdlen : ℕ
  pub owner : dns_decompress_name pkt len off 256 ≡ done (some name, at)
  pub header : at + 10 ≤ len
  pub type_read : load16 pkt at ≡ done rtype
  pub size_read : load16 pkt (at + 8) ≡ done rdlen
  pub inside : at + 10 + rdlen ≤ len

-- What the code keeps of it.
abbrev pub answer_of : {pkt : List ℕ} {len off : ℕ} → RecordAt pkt len off → Answer
answer_of r = record {
  name = r.name;
  rtype = r.rtype;
  rdata = r.at + 10;
  next = r.at + 10 + r.rdlen;
}

-- A blocked name at an offset.
pub record BlockedName (blocked : List ℕ → Bool) (pkt : List ℕ) (len off : ℕ) : Type 0 where
  pub name : List ℕ
  pub behind : ℕ
  pub decoded : dns_decompress_name pkt len off 256 ≡ done (some name, behind)
  pub hit : blocked name ≡ true

-- Of `left` records from `off` on, one is reached over whole records, and is whole itself, whose
-- owner is blocked, or which is a CNAME to a blocked name.
abbrev pub IsCloaked : (List ℕ → Bool) → List ℕ → ℕ → ℕ → ℕ → Type 0
IsCloaked blocked pkt len zero off = ⊥
IsCloaked blocked pkt len (suc left) off =
    (r : RecordAt pkt len off) × ((blocked r.name ≡ true)
      ⊎ (((r.rtype ≡ 5) × BlockedName blocked pkt len (r.at + 10))
          ⊎ IsCloaked blocked pkt len left (r.at + 10 + r.rdlen)))

-- A Boolean decides a proposition.
abbrev pub Decides : Bool → Type 0 → Type 0
Decides true A = A
Decides false A = ¬ A

pub load16_value : (pkt : List ℕ) (i : ℕ) → i + 1 < length pkt → (v : ℕ) × (load16 pkt i ≡ done v)
load16_value pkt i h = at (load16 pkt i) refl (load16-Returns pkt i h)
  where
    at : (r : Run ℕ) → load16 pkt i ≡ r → Returns r (λ v. Unit) → (v : ℕ) × (load16 pkt i ≡ done v)
    at (done v) e h = (v, e)
    at fault e h = absurd h
    at out_of_fuel e h = absurd h

pub load16_reads :
    (pkt : List ℕ) (i : ℕ)
    → i + 1 < length pkt
    → Returns (load16 pkt i) (λ v. load16 pkt i ≡ done v)
load16_reads pkt i h =
    let (v, e) = load16_value pkt i h in
    subst (λ (r : Run ℕ). Returns r (λ v. load16 pkt i ≡ done v)) (sym e) e

-- How the reading of a name ends.
abbrev read_name : Option (List ℕ) → ℕ → Run (Option (List ℕ) × ℕ)
read_name n a = done (n, a)

pub name_inj :
    (n m : List ℕ) (a b : ℕ) → read_name (some n) a ≡ read_name (some m) b → (n ≡ m) × (a ≡ b)
name_inj n m a b h = (cc, cc)

pub no_name : (n : List ℕ) (a b : ℕ) → read_name none a ≡ read_name (some n) b → ⊥
no_name n a b h = absurd (cc)

module _ (blocked : List ℕ → Bool) (pkt : List ℕ) (len : ℕ) (inside : len ≤ length pkt) where
  name_returns : (off : ℕ) → Returns (dns_decompress_name pkt len off 256) (λ x. Unit)
  name_returns off =
      Returns_mono (dns_decompress_name pkt len off 256)
        (dns_decompress_name-Decoded pkt len off 256 inside) (λ x h. tt)

  pub target_is_blocked-Decides :
      (off : ℕ)
      → Returns
          (target_is_blocked blocked pkt len off)
          (λ b. Decides b (BlockedName blocked pkt len off))
  unfolding target_is_blocked
  target_is_blocked-Decides off = at (dns_decompress_name pkt len off 256) refl (name_returns off)
    where
      answer : Option (List ℕ) × ℕ → Run Bool
      answer (r, _) = elim r as (λ x. Run Bool) [
        | none ↦ done false
        | some target ↦ done (blocked target)
      ]

      on :
          (target : List ℕ) (behind : ℕ)
          → dns_decompress_name pkt len off 256 ≡ done (some target, behind)
          → (b : Bool) → blocked target ≡ b
          → Decides b (BlockedName blocked pkt len off)
      on target behind e true hit = record {
        name = target;
        behind = behind;
        decoded = e;
        hit = hit;
      }
      on target behind e false miss = λ q.
          (let (same, _) = name_inj target q.name behind q.behind (sym e ∙ q.decoded) in
            let wrong : false ≡ true = sym miss ∙ ap blocked same ∙ q.hit in absurd (cc))

      at :
          (run : Run (Option (List ℕ) × ℕ))
          → dns_decompress_name pkt len off 256 ≡ run
          → Returns run (λ x. Unit)
          → Returns (run >>= answer) (λ b. Decides b (BlockedName blocked pkt len off))
      at (done (none, behind)) e h = λ q. no_name q.name behind q.behind (sym e ∙ q.decoded)
      at (done (some target, behind)) e h = on target behind e (blocked target) refl
      at fault e h = absurd h
      at out_of_fuel e h = absurd h

  -- The record that the code reads is the one at the offset.
  same_record :
      {off : ℕ} (r q : RecordAt pkt len off)
      → (r.name ≡ q.name) × (r.at ≡ q.at) × (r.rtype ≡ q.rtype) × (r.rdlen ≡ q.rdlen)
  same_record r q =
      let (names, ats) = name_inj r.name q.name r.at q.at (sym r.owner ∙ q.owner) in
      let types : done r.rtype ≡ done q.rtype =
        sym r.type_read ∙ ap (λ (t : ℕ). load16 pkt t) ats ∙ q.type_read in
      let sizes : done r.rdlen ≡ done q.rdlen =
        sym r.size_read ∙ ap (λ (t : ℕ). load16 pkt (t + 8)) ats ∙ q.size_read in
      (names, ats, cc, cc)

  -- A record with no blocked name, and none behind it.
  pub not-IsCloaked :
      (left off : ℕ) (r : RecordAt pkt len off)
      → blocked r.name ≡ false
      → ¬ ((r.rtype ≡ 5) × BlockedName blocked pkt len (r.at + 10))
      → ¬ IsCloaked blocked pkt len left (r.at + 10 + r.rdlen)
      → ¬ IsCloaked blocked pkt len (suc left) off
  not-IsCloaked left off r miss away later (q, found) =
      let (names, ats, types, sizes) = same_record r q in at names ats types sizes found
    where
      at :
          r.name ≡ q.name
          → r.at ≡ q.at
          → r.rtype ≡ q.rtype
          → r.rdlen ≡ q.rdlen
          → (blocked q.name ≡ true)
            ⊎ (((q.rtype ≡ 5) × BlockedName blocked pkt len (q.at + 10))
                ⊎ IsCloaked blocked pkt len left (q.at + 10 + q.rdlen))
          → ⊥
      at names ats types sizes (inl hit) =
          let wrong : false ≡ true = sym miss ∙ ap blocked names ∙ hit in absurd (cc)
      at names ats types sizes (inr (inl (t, b))) =
          away (types ∙ t, subst (λ (x : ℕ). BlockedName blocked pkt len (x + 10)) (sym ats) b)
      at names ats types sizes (inr (inr rest)) =
          later
            (subst (λ (x : ℕ). IsCloaked blocked pkt len left x) (omega (arith, ats, sizes)) rest)

  -- What is read at an offset is a whole record, if there is one.
  abbrev pub Read : ℕ → Option Answer → Type 0
  Read off none = ¬ RecordAt pkt len off
  Read off (some a) = (r : RecordAt pkt len off) × (a ≡ answer_of r)

  pub read_answer-Read : (off : ℕ) → Returns (read_answer pkt len off) (λ r. Read off r)
  unfolding read_answer
  read_answer-Read off = named (dns_decompress_name pkt len off 256) refl (name_returns off)
    where
      sized :
          (name : List ℕ) (at rtype rdlen : ℕ)
          → dns_decompress_name pkt len off 256 ≡ done (some name, at)
          → at + 10 ≤ len
          → load16 pkt at ≡ done rtype
          → load16 pkt (at + 8) ≡ done rdlen
          → (short : Bool) → ltb len (at + 10 + rdlen) ≡ short
          → Read off (
              if short
              then none
              else some
                  (record { name = name; rtype = rtype; rdata = at + 10; next = at + 10 + rdlen }))
      sized name at rtype rdlen e fits t s true long = λ q.
          (let (_, ats) = name_inj name q.name at q.at (sym e ∙ q.owner) in
            let sizes : done rdlen ≡ done q.rdlen =
              sym s ∙ ap (λ (x : ℕ). load16 pkt (x + 8)) ats ∙ q.size_read in
            let same : rdlen ≡ q.rdlen = cc in
            absurd (omega (arith, ltb→lt len (at + 10 + rdlen) long, ats, same, q.inside)))
      sized name at rtype rdlen e fits t s false enough = (
        record {
          name = name;
          at = at;
          rtype = rtype;
          rdlen = rdlen;
          owner = e;
          header = fits;
          type_read = t;
          size_read = s;
          inside = ltb→le len (at + 10 + rdlen) enough;
        },
        refl,
      )

      rest : List ℕ → ℕ → Run (Option Answer)
      rest name at = load16 pkt at >>= λ rtype. load16 pkt (at + 8) >>= λ rdlen. done (
          if ltb len (at + 10 + rdlen)
          then none
          else some
              (record { name = name; rtype = rtype; rdata = at + 10; next = at + 10 + rdlen }))

      headed :
          (name : List ℕ) (at : ℕ)
          → dns_decompress_name pkt len off 256 ≡ done (some name, at)
          → (short : Bool) → ltb len (at + 10) ≡ short
          → Returns (if short then done none else rest name at) (λ r. Read off r)
      headed name at e true long = λ q.
          (let (_, ats) = name_inj name q.name at q.at (sym e ∙ q.owner) in
            absurd (omega (arith, ltb→lt len (at + 10) long, ats, q.header)))
      headed name at e false enough =
          let fits : at + 10 ≤ len = ltb→le len (at + 10) enough in
          let (rtype, t) = load16_value pkt at (omega (arith, fits, inside)) in
          let (rdlen, s) = load16_value pkt (at + 8) (omega (arith, fits, inside)) in
          rw (t, s) (sized name at rtype rdlen e fits t s (ltb len (at + 10 + rdlen)) refl)

      named :
          (run : Run (Option (List ℕ) × ℕ))
          → dns_decompress_name pkt len off 256 ≡ run
          → Returns run (λ x. Unit)
          → Returns
              (run >>= λ (r, at). elim r as (λ x. Run (Option Answer)) [
                | none ↦ done none
                | some name ↦ if ltb len (at + 10) then done none else rest name at
              ])
              (λ r. Read off r)
      named (done (none, at)) e h = λ q. no_name q.name at q.at (sym e ∙ q.owner)
      named (done (some name, at)) e h = headed name at e (ltb len (at + 10)) refl
      named fault e h = absurd h
      named out_of_fuel e h = absurd h
