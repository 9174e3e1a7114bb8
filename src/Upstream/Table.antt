-- ===== src/Upstream/Table.antt =====
-- The table in good order: no two queries in flight have one identifier.
use esp32_ad_blocker_reborn.Common.{
  ℕ, ◌≤◌, ◌≡◌, ◌≢◌, ◌⊎◌, refl, ◌∙◌, sym, ap, subst, arith, true, false, some, List, ==_iff,
  both_true, length, length-set, length-replicate, set, get_elem?, get_set, get-replicate, inl, inr,
}
use esp32_ad_blocker_reborn.Upstream.{
  UpstreamEntry, Upstream, waiters_max, table_size, has_txid, upstream_find, upstream_init,
  unused_entry,
}
use esp32_ad_blocker_reborn.Upstream.Slots.{find_entry_unique}

-- The room for the requesters that wait on an entry.
pub record HasRoom (e : UpstreamEntry) : Type 0 where
  pub waiting : e.n_wait ≤ waiters_max
  pub size : length e.waiters ≡ waiters_max

pub record IsUpstream (u : Upstream) : Type 0 where
  pub size : length u.entries ≡ table_size
  pub room : (i : ℕ) (e : UpstreamEntry) → get_elem? u.entries i ≡ some e → HasRoom e
  pub named :
      (i : ℕ) (e : UpstreamEntry)
      → get_elem? u.entries i ≡ some e
      → e.in_use ≡ true
      → e.our_txid ≢ 0
  pub distinct :
      (i j : ℕ) (e f : UpstreamEntry)
      → get_elem? u.entries i ≡ some e
      → get_elem? u.entries j ≡ some f
      → e.in_use ≡ true
      → f.in_use ≡ true
      → e.our_txid ≡ f.our_txid
      → i ≡ j

pub has_txid_parts :
    (t : ℕ) (e : UpstreamEntry) → has_txid t e ≡ true → (e.in_use ≡ true) × (e.our_txid ≡ t)
has_txid_parts t e h = let (a, b) = both_true e.in_use _ h in (a, (==_iff e.our_txid t).0 b)

pub has_txid_own : (e : UpstreamEntry) → e.in_use ≡ true → has_txid e.our_txid e ≡ true
has_txid_own e used = rw (used) ((==_iff e.our_txid e.our_txid).1 refl)

-- A query in flight is found by its identifier.
pub upstream_find_used :
    (u : Upstream)
    → IsUpstream u
    → (i : ℕ) (e : UpstreamEntry) → get_elem? u.entries i ≡ some e
    → e.in_use ≡ true
    → upstream_find e.our_txid u ≡ some i
unfolding upstream_find
upstream_find_used u inv i e there used =
    find_entry_unique (has_txid e.our_txid) u.entries i e there (has_txid_own e used)
      (λ j f at pass.
        let (busy, same) = has_txid_parts e.our_txid f pass in
        inv.distinct j i f e at there busy used same)

-- A table of which one entry is written, with its own identifier or none.
pub set-IsUpstream :
    (u v : Upstream) (slot : ℕ) (w : UpstreamEntry)
    → IsUpstream u
    → v.entries ≡ set u.entries slot w
    → HasRoom w
    → (w.in_use ≡ true → w.our_txid ≢ 0)
    → (w.in_use ≡ true
        → (j : ℕ) (f : UpstreamEntry) → slot ≢ j
        → get_elem? u.entries j ≡ some f
        → f.in_use ≡ true
        → f.our_txid ≢ w.our_txid)
    → IsUpstream v
set-IsUpstream u v slot w inv e0 room named free = record {
  size = ap length e0 ∙ length-set u.entries slot w ∙ inv.size;
  room = λ i e h. rooms i e (back i e h);
  named = λ i e h used. names i e used (back i e h);
  distinct = λ i j e f hi hj ve vf same. pair i j e f ve vf same (back i e hi) (back j f hj);
}
  where
    Was : ℕ → UpstreamEntry → Type 0
    Was i e = ((slot ≡ i) × (w ≡ e)) ⊎ ((slot ≢ i) × (get_elem? u.entries i ≡ some e))

    back : (i : ℕ) (e : UpstreamEntry) → get_elem? v.entries i ≡ some e → Was i e
    back i e h =
        get_set u.entries slot i w e (sym (ap (λ (t : List UpstreamEntry). get_elem? t i) e0) ∙ h)

    rooms : (i : ℕ) (e : UpstreamEntry) → Was i e → HasRoom e
    rooms i e (inl (_, same)) = subst HasRoom same room
    rooms i e (inr (_, at)) = inv.room i e at

    names : (i : ℕ) (e : UpstreamEntry) → e.in_use ≡ true → Was i e → e.our_txid ≢ 0
    names i e used (inl (_, same)) =
        subst (λ (t : UpstreamEntry). t.our_txid ≢ 0) same
          (named (ap (λ (t : UpstreamEntry). t.in_use) same ∙ used))
    names i e used (inr (_, at)) = inv.named i e at used

    clash :
        (j : ℕ) (e f : UpstreamEntry)
        → w ≡ e
        → e.in_use ≡ true
        → slot ≢ j
        → get_elem? u.entries j ≡ some f
        → f.in_use ≡ true
        → f.our_txid ≢ e.our_txid
    clash j e f same used ne at busy eq =
        free (ap (λ (t : UpstreamEntry). t.in_use) same ∙ used) j f ne at busy
          (eq ∙ sym (ap (λ (t : UpstreamEntry). t.our_txid) same))

    pair :
        (i j : ℕ) (e f : UpstreamEntry)
        → e.in_use ≡ true
        → f.in_use ≡ true
        → e.our_txid ≡ f.our_txid
        → Was i e
        → Was j f
        → i ≡ j
    pair i j e f ve vf same (inl (a, _)) (inl (b, _)) = sym a ∙ b
    pair i j e f ve vf same (inl (a, p)) (inr (b, at)) =
        absurd (clash j e f p ve b at vf (sym same))
    pair i j e f ve vf same (inr (a, at)) (inl (b, p)) = absurd (clash i f e p vf a at ve same)
    pair i j e f ve vf same (inr (a, at)) (inr (b, bt)) = inv.distinct i j e f at bt ve vf same

unused_entry-HasRoom : HasRoom unused_entry
unfolding unused_entry
unused_entry-HasRoom = record { waiting = omega arith; size = refl }

unused_entry_free : (e : UpstreamEntry) → unused_entry ≡ e → e.in_use ≡ true → ⊥
unfolding unused_entry
unused_entry_free e same used =
    let wrong : false ≡ true = ap (λ (t : UpstreamEntry). t.in_use) same ∙ used in absurd (cc)

-- The table at the start.
pub upstream_init-IsUpstream : IsUpstream upstream_init
unfolding upstream_init
upstream_init-IsUpstream = record {
  size = length-replicate table_size unused_entry;
  room = λ i e h. subst HasRoom (get-replicate table_size unused_entry e i h) unused_entry-HasRoom;
  named =
      λ i e h used. absurd (unused_entry_free e (get-replicate table_size unused_entry e i h) used);
  distinct = λ i j e f hi hj ve vf same.
      absurd (unused_entry_free e (get-replicate table_size unused_entry e i hi) ve);
}
