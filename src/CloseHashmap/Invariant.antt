-- ===== src/CloseHashmap/Invariant.antt =====
-- The invariant of the table of close_hashmap.hpp, and what a lookup finds under it.
use public_cpp.Base.{
  ℕ, zero, suc, ◌+◌, ◌%◌, ◌≤◌, ◌<◌, ◌≡◌, refl, sym, ◌∙◌, ◌≢◌, ◌⊎◌, inl, inr, true, false, List, [],
  ◌∷◌, none, some, arith, length, get_or, set, if◌then◌else◌, Bool-cases, Option-cases,
}
use public_cpp.CloseHashmap.{
  Key, Item, free, live, dead, Map, at, is_live, step, get_item_or_null, get,
}
use public_cpp.CloseHashmap.Probe.{
  Visits, Reaches, search_from, probe_key-eq, search_from-some, search_from-reached,
}

-- Every position is among those probed from any other.
abbrev pub Covers : ℕ → Type 0
Covers size = (h p : ℕ) → h < size → p < size → Visits size (step h) size h p

module _ {ℓ} {K V : Type ℓ} where
  unfoldable pub count_live : List (Item K V) → ℕ
  count_live [] = 0
  count_live (i ∷ items) = if is_live i then count_live items + 1 else count_live items

  -- The table holds `v` under `k`.
  abbrev pub Stores : List (Item K V) → K → V → Type ℓ
  Stores items k v = (p : ℕ) × (at items p ≡ live k v)

  abbrev pub Lacks : List (Item K V) → K → Type ℓ
  Lacks items k = (p : ℕ) (v : V) → at items p ≢ live k v

  pub at-lt :
      (items : List (Item K V)) (p : ℕ) (k : K) (v : V) → at items p ≡ live k v → p < length items
  unfolding get_or
  at-lt [] p k v h = absurd (ground arith)
  at-lt (i ∷ items) zero k v h = omega arith
  at-lt (i ∷ items) (suc p) k v h = omega (arith, at-lt items p k v h)

  pub count_live-le : (items : List (Item K V)) → count_live items ≤ length items
  unfolding count_live
  count_live-le [] = omega arith
  count_live-le (i ∷ items) = ground (arith, count_live-le items)

  pub count_live-set :
      (items : List (Item K V)) (p : ℕ) (i : Item K V)
      → p < length items
      → count_live (set items p i) + (if is_live (at items p) then 1 else 0)
        ≡ count_live items + (if is_live i then 1 else 0)
  unfolding count_live set get_or
  count_live-set [] p i h = absurd (omega arith)
  count_live-set (j ∷ items) zero i h = ground arith
  count_live-set (j ∷ items) (suc p) i h = ground (arith, count_live-set items p i)

  -- Where fewer items are live than there are, one is not.
  pub not_live_exists :
      (items : List (Item K V))
      → count_live items < length items
      → (p : ℕ) × (p < length items) × (is_live (at items p) ≡ false)
  unfolding count_live get_or
  not_live_exists [] h = absurd (omega arith)
  not_live_exists (i ∷ items) h = elim (Bool-cases (is_live i)) [
    | inr e ↦ (0, omega arith, e)
    | inl e ↦ let (p, b, n) = not_live_exists items (ground arith) in (suc p, omega arith, n)
  ]

  pub live_of : (i : Item K V) → is_live i ≡ true → (k : K) × (v : V) × (i ≡ live k v)
  live_of free e = absurd (ground arith)
  live_of (live k v) e = (k, v, refl)
  live_of (dead k v) e = absurd (ground arith)

module _ {ℓ} {K : Type ℓ} ⦃key : Key K⦄ where
  abbrev pub home : K → ℕ → ℕ
  home k size = key.hash k % size

module _ {ℓ} {K V : Type ℓ} ⦃key : Key K⦄ where
  -- A key stands at one position at most, where its probes reach it.
  pub record IsTable (size : ℕ) (items : List (Item K V)) : Type ℓ where
    pub measured : length items ≡ size
    pub reached :
        (p : ℕ) (k : K) (v : V)
        → at items p ≡ live k v
        → Reaches items size (step (home k size)) size (home k size) p
    pub unique : (p q : ℕ) (k : K) (v w : V) → at items p ≡ live k v → at items q ≡ live k w → p ≡ q

  pub record IsValid (m : Map K V) : Type ℓ where
    pub sized : 0 < m.size_array
    pub table : IsTable m.size_array m.items
    pub covered : Covers m.size_array
    pub counted : m.num_elm ≡ count_live m.items

  pub get_item-search :
      (size : ℕ) (m : Map K V) (k : K)
      → m.size_array ≡ size
      → 0 < size
      → get_item_or_null m k ≡ search_from m.items size (step (home k size)) k size (home k size)
  unfolding get_item_or_null search_from
  get_item-search zero m k e h = absurd (omega arith)
  get_item-search (suc n) m k e h =
      let pos = home k (suc n) in ground (arith, probe_key-eq m.items (suc n) (step pos) k n pos)

  pub get_item-cases :
      (m : Map K V) (k : K)
      → 0 < m.size_array
      → IsTable m.size_array m.items
      → ((get_item_or_null m k ≡ none) × Lacks m.items k)
        ⊎ ((p : ℕ) × (v : V) × (get_item_or_null m k ≡ some p) × (at m.items p ≡ live k v))
  get_item-cases m k h t =
      let size = m.size_array in
      let e = get_item-search size m k refl h in
      elim (Option-cases (get_item_or_null m k)) [
        | inl n ↦ inl (
          n,
          λ p v a.
              let r =
                search_from-reached m.items size (step (home k size)) k v size (home k size) p a
                  (λ q w b. t.unique q p k w v b a) (t.reached p k v a) in
              absurd (ground arith),
        )
        | inr (p, s) ↦
            let (v, a) =
              search_from-some m.items size (step (home k size)) k size (home k size) p
                (sym e ∙ s) in
            inr (p, v, s, a)
      ]

  -- A lookup returns exactly what the table holds.
  pub get-cases :
      (m : Map K V) (k : K)
      → 0 < m.size_array
      → IsTable m.size_array m.items
      → ((get m k ≡ none) × Lacks m.items k)
        ⊎ ((p : ℕ) × (v : V) × (get m k ≡ some v) × (at m.items p ≡ live k v))
  unfolding get
  get-cases m k h t = elim (get_item-cases m k h t) [
    | inl (n, l) ↦ inl (rw (n, get), l)
    | inr (p, v, s, a) ↦ inr (p, v, rw (s, get) (rw a), a)
  ]

  pub get-of-Stores :
      (m : Map K V) (k : K) (v : V)
      → 0 < m.size_array
      → IsTable m.size_array m.items
      → Stores m.items k v
      → get m k ≡ some v
  get-of-Stores m k v h t (q, b) = elim (get-cases m k h t) [
    | inl (n, l) ↦ absurd (l q v b)
    | inr (p, w, s, a) ↦
        let same = t.unique p q k w v a b in
        let both : live k w ≡ live k v = rw (← a, same) b in s ∙ ground arith
  ]

  pub get-of-Lacks :
      (m : Map K V) (k : K)
      → 0 < m.size_array
      → IsTable m.size_array m.items
      → Lacks m.items k
      → get m k ≡ none
  get-of-Lacks m k h t l = elim (get-cases m k h t) [
    | inl (n, _) ↦ n
    | inr (p, w, s, a) ↦ absurd (l p w a)
  ]

  -- A search finds nothing that the array lacks, also where the table is not in order.
  pub get-lacking : (m : Map K V) (k : K) → 0 < m.size_array → Lacks m.items k → get m k ≡ none
  unfolding get
  get-lacking m k h l =
      let size = m.size_array in
      elim (Option-cases (get_item_or_null m k)) [
        | inl n ↦ rw (n, get)
        | inr (p, s) ↦
            let (v, a) =
              search_from-some m.items size (step (home k size)) k size (home k size) p
                (sym (get_item-search size m k refl h) ∙ s) in
            absurd (l p v a)
      ]

  -- Two tables that hold the same under a key answer a lookup of it alike.
  pub get-eq :
      (m m' : Map K V) (k : K)
      → 0 < m.size_array
      → IsTable m.size_array m.items
      → 0 < m'.size_array
      → IsTable m'.size_array m'.items
      → ((v : V) → Stores m.items k v → Stores m'.items k v)
      → ((v : V) → Stores m'.items k v → Stores m.items k v)
      → get m' k ≡ get m k
  get-eq m m' k h t h' t' to from = elim (get-cases m k h t) [
    | inl (n, l) ↦ get-of-Lacks m' k h' t' (λ p v a. let (q, b) = from v (p, a) in l q v b) ∙ sym n
    | inr (p, v, s, a) ↦ get-of-Stores m' k v h' t' (to v (p, a)) ∙ sym s
  ]
