-- ===== src/CloseHashmap/Probe.antt =====
-- What the probing loops of close_hashmap.hpp find.
use public_cpp.Base.{
  ℕ, zero, suc, ◌+◌, ◌%◌, ◌<◌, ◌≡◌, refl, ◌⊎◌, inl, inr, true, false, List, Option, none, some,
  arith, ap, Bool-cases,
}
use public_cpp.CloseHashmap.{
  Key, Item, free, live, dead, found, stop, pass, at, is_live, is_free, look, probe_key,
  probe_not_live, probe_free,
}

-- `p` is among the first `rounds` positions probed from `pos`.
abbrev pub Visits : ℕ → ℕ → ℕ → ℕ → ℕ → Type 0
Visits size st zero pos p = ⊥
Visits size st (suc rounds) pos p = (pos ≡ p) ⊎ Visits size st rounds ((pos + st) % size) p

module _ {ℓ} {K V : Type ℓ} where
  -- So it is, and no free item stands before it.
  abbrev pub Reaches : List (Item K V) → ℕ → ℕ → ℕ → ℕ → ℕ → Type 0
  Reaches items size st zero pos p = ⊥
  Reaches items size st (suc rounds) pos p =
      (pos ≡ p)
      ⊎ (is_free (at items pos) ≡ false) × Reaches items size st rounds ((pos + st) % size) p

  pub Reaches-mono :
      (items items' : List (Item K V)) (size st rounds pos p : ℕ)
      → ((q : ℕ) → is_free (at items q) ≡ false → is_free (at items' q) ≡ false)
      → Reaches items size st rounds pos p
      → Reaches items' size st rounds pos p
  Reaches-mono items items' size st zero pos p keep r = r
  Reaches-mono items items' size st (suc rounds) pos p keep (inl e) = inl e
  Reaches-mono items items' size st (suc rounds) pos p keep (inr (h, r)) =
      inr (keep pos h, Reaches-mono items items' size st rounds ((pos + st) % size) p keep r)

  -- A visited item that is not live makes the loop find one, with no free item before it.
  pub probe_not_live-some :
      (items : List (Item K V)) (size st rounds pos p : ℕ)
      → 0 < size
      → pos < size
      → Visits size st rounds pos p
      → is_live (at items p) ≡ false
      → (q : ℕ) × (probe_not_live items size st rounds pos ≡ some q)
        × (is_live (at items q) ≡ false)
        × (q < size)
        × Reaches items size st rounds pos q
  unfolding probe_not_live
  probe_not_live-some items size st zero pos p s b v h = absurd v
  probe_not_live-some items size st (suc rounds) pos p s b v h =
      elim (Bool-cases (is_live (at items pos))) [
        | inr e ↦ (pos, rw (e, probe_not_live), e, b, inl refl)
        | inl e ↦
            let (q, run, l, c, r) =
              probe_not_live-some items size st rounds ((pos + st) % size) p s (omega arith)
                (next v e) h in
            (q, rw (e, probe_not_live) run, l, c, inr (not_free (at items pos) e, r))
      ]
    where
      next :
          (pos ≡ p) ⊎ Visits size st rounds ((pos + st) % size) p
          → is_live (at items pos) ≡ true
          → Visits size st rounds ((pos + st) % size) p
      next (inl same) e = ground arith
      next (inr w) e = w

      not_free : (i : Item K V) → is_live i ≡ true → is_free i ≡ false
      not_free i e = ground arith

  pub probe_not_live-not_live :
      (items : List (Item K V)) (size st rounds pos q : ℕ)
      → probe_not_live items size st rounds pos ≡ some q
      → is_live (at items q) ≡ false
  unfolding probe_not_live
  probe_not_live-not_live items size st zero pos q e = cc
  probe_not_live-not_live items size st (suc rounds) pos q e =
      elim (Bool-cases (is_live (at items pos))) [
        | inr n ↦ ground arith
        | inl l ↦
            probe_not_live-not_live items size st rounds ((pos + st) % size) q
              (rw (l, probe_not_live) at e)
      ]

  -- Where no item is dead, the loop for a free item is the loop for one that is not live.
  pub probe_free-eq :
      (items : List (Item K V)) (size st rounds pos : ℕ)
      → ((q : ℕ) → (is_free (at items q) ≡ true) ⊎ (is_live (at items q) ≡ true))
      → probe_free items size st rounds pos
        ≡ probe_not_live items size st rounds ((pos + st) % size)
  unfolding probe_free probe_not_live
  probe_free-eq items size st zero pos h = refl
  probe_free-eq items size st (suc rounds) pos h =
      let next = (pos + st) % size in
      ground (arith, h next, probe_free-eq items size st rounds next h)

module _ {ℓ} {K V : Type ℓ} ⦃key : Key K⦄ where
  -- The search with its first test inside the loop.
  unfoldable pub search_from : List (Item K V) → ℕ → ℕ → K → ℕ → ℕ → Option ℕ
  search_from items size st k zero pos = none
  search_from items size st k (suc rounds) pos = elim (look k (at items pos)) [
    | found ↦ some pos
    | stop ↦ none
    | pass ↦ search_from items size st k rounds ((pos + st) % size)
  ]

  pub probe_key-eq :
      (items : List (Item K V)) (size st : ℕ) (k : K) (rounds pos : ℕ)
      → probe_key items size st k rounds pos
        ≡ search_from items size st k rounds ((pos + st) % size)
  unfolding probe_key search_from
  probe_key-eq items size st k zero pos = refl
  probe_key-eq items size st k (suc rounds) pos =
      let next = (pos + st) % size in ground (arith, probe_key-eq items size st k rounds next)

  -- What each answer of the tests tells of the item.
  pub look-cases :
      (k : K) (i : Item K V)
      → ((look k i ≡ found) × (v : V) × (i ≡ live k v))
        ⊎ (look k i ≡ stop) × (is_free i ≡ true)
        ⊎ (look k i ≡ pass) × (is_free i ≡ false)
  unfolding look
  look-cases k free = inr (inl (refl, refl))
  look-cases k (live j v) = elim (Bool-cases (key.key_equal k j)) [
    | inl e ↦ inl (rw e, v, rw ((key.key_equal_iff k j).0 e))
    | inr e ↦ inr (inr (rw e, refl))
  ]
  look-cases k (dead j v) = inr (inr (refl, refl))

  pub look-live : (k : K) (v : V) → look k (live k v) ≡ found
  unfolding look
  look-live k v = rw ((key.key_equal_iff k k).1 refl)

  -- A position that the search returns holds the key.
  pub search_from-some :
      (items : List (Item K V)) (size st : ℕ) (k : K) (rounds pos p : ℕ)
      → search_from items size st k rounds pos ≡ some p
      → (v : V) × (at items p ≡ live k v)
  unfolding search_from
  search_from-some items size st k zero pos p e = cc
  search_from-some items size st k (suc rounds) pos p e = elim (look-cases k (at items pos)) [
    | inl (s, v, h) ↦ let same : pos ≡ p = ground arith in (v, rw (← same) h)
    | inr (inl (s, f)) ↦ absurd (ground arith)
    | inr (inr (s, f)) ↦
        search_from-some items size st k rounds ((pos + st) % size) p (rw (s, search_from) at e)
  ]

  -- The search finds a key that its probes reach, where the key stands at one position only.
  pub search_from-reached :
      (items : List (Item K V)) (size st : ℕ) (k : K) (v : V) (rounds pos p : ℕ)
      → at items p ≡ live k v
      → ((q : ℕ) (w : V) → at items q ≡ live k w → q ≡ p)
      → Reaches items size st rounds pos p
      → search_from items size st k rounds pos ≡ some p
  unfolding search_from
  search_from-reached items size st k v zero pos p h once r = absurd r
  search_from-reached items size st k v (suc rounds) pos p h once (inl e) =
      let s : look k (at items pos) ≡ found = rw (e, h) (look-live k v) in
      rw (s, search_from) (ap some e)
  search_from-reached items size st k v (suc rounds) pos p h once (inr (f, r)) =
      elim (look-cases k (at items pos)) [
        | inl (s, w, e) ↦ rw (s, search_from) (ap some (once pos w e))
        | inr (inl (s, g)) ↦ absurd (ground arith)
        | inr (inr (s, g)) ↦
            rw (s, search_from)
              (search_from-reached items size st k v rounds ((pos + st) % size) p h once r)
      ]
