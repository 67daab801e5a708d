-- ===== src/CloseHashmap/Loss.antt =====
-- Where `Resize` of close_hashmap.hpp goes to a size that a step divides.
use public_cpp.Base.{
  ℕ, zero, suc, ◌+◌, ◌%◌, ◌≡◌, ◌≢◌, ◌⊎◌, inl, inr, refl, sym, ◌∙◌, List, none, some, arith,
  Option-cases,
}
use public_cpp.CloseHashmap.{Key, Item, live, Map, at, step, get, get_item_or_null, resize}
use public_cpp.CloseHashmap.Probe.{search_from, look-cases, search_from-some}
use public_cpp.CloseHashmap.Invariant.{home, get_item-search}

abbrev IsEither : ℕ → Type 0
IsEither p = (p ≡ 0) ⊎ (p ≡ 53)

next_of : (pos : ℕ) → IsEither pos → IsEither ((pos + 53) % 106)
next_of pos h = ground arith

module _ {ℓ} {K V : Type ℓ} ⦃key : Key K⦄ where
  search_from-IsEither :
      (items : List (Item K V)) (k : K) (rounds pos p : ℕ)
      → IsEither pos
      → search_from items 106 53 k rounds pos ≡ some p
      → IsEither p
  unfolding search_from
  search_from-IsEither items k zero pos p h e = cc
  search_from-IsEither items k (suc rounds) pos p h e = elim (look-cases k (at items pos)) [
    | inl (s, v, _) ↦ let same : pos ≡ p = ground arith in rw (← same) h
    | inr (inl (s, _)) ↦ absurd (ground arith)
    | inr (inr (s, _)) ↦
        search_from-IsEither items k rounds ((pos + 53) % 106) p (next_of pos h)
          (rw (s, search_from) at e)
  ]

  -- A key whose first position is 0 is found at 0 or 53, if at all.
  found_at :
      (m : Map K V) (k : K)
      → m.size_array ≡ 106
      → home k 106 ≡ 0
      → get m k ≢ none
      → (p : ℕ) × (v : V) × (at m.items p ≡ live k v) × IsEither p
  unfolding get step
  found_at m k s h g =
      let e = get_item-search 106 m k s (omega arith) in
      let e' : get_item_or_null m k ≡ search_from m.items 106 53 k 106 0 = rw h at e in
      elim (Option-cases (get_item_or_null m k)) [
        | inl n ↦ absurd (g (rw (n, get)))
        | inr (p, r) ↦
            let run = sym e' ∙ r in
            let (v, a) = search_from-some m.items 106 53 k 106 0 p run in
            (p, v, a, search_from-IsEither m.items k 106 0 p (inl refl) run)
      ]

  same_key :
      (m : Map K V) (a b : K) (p : ℕ) (v w : V)
      → at m.items p ≡ live a v
      → at m.items p ≡ live b w
      → a ≡ b
  same_key m a b p v w h k = ground arith

  -- `Resize` of an array of 71 items goes to 106, which is 2 * 53: of three different keys whose
  -- hashes are multiples of 106, at least one is not found afterwards, whether or not the map held
  -- them before.
  pub resize-loses :
      (m : Map K V) (a b c : K)
      → m.size_array ≡ 71
      → a ≢ b
      → a ≢ c
      → b ≢ c
      → key.hash a % 106 ≡ 0
      → key.hash b % 106 ≡ 0
      → key.hash c % 106 ≡ 0
      → ¬ ((get (resize m) a ≢ none) × (get (resize m) b ≢ none) × (get (resize m) c ≢ none))
  resize-loses m a b c s ab ac bc ha hb hc (ga, gb, gc) =
      let size : (resize m).size_array ≡ 106 = unfold resize in ground arith in
      let (p, u, pu, hp) = found_at (resize m) a size ha ga in
      let (q, v, qv, hq) = found_at (resize m) b size hb gb in
      let (r, w, rw', hr) = found_at (resize m) c size hc gc in
      ground (
        arith,
        same_key (resize m) a b p u v pu,
        same_key (resize m) a c p u w pu,
        same_key (resize m) b c q v w qv,
      )
