-- ===== src/Tables/Contiguous.antt =====
-- The ordinals of a log: under each prefix they count from 0 on.
use keri_ts.Prelude.{
  ℕ, zero, suc, if◌then◌else◌, ◌+◌, ◌≤◌, ◌≡◌, refl, sym, ◌∙◌, ap, true, false, List, [], ◌∷◌, ◌++◌,
  map, String, str_eq, eq_iff, length, length-append, keep, Bool-cases, inl, inr, arith, leb,
}
use keri_ts.Tables.{KelItem, next_on, append_on}

-- The ordinals under a prefix, in insertion order.
unfoldable pub ordinals : String → List KelItem → List ℕ
ordinals pre items = map (λ item. item.sn) (keep (λ item. str_eq item.pre pre) items)

-- `[n, n + 1, …]`, of a length
unfoldable pub count_from : ℕ → ℕ → List ℕ
count_from n zero = []
count_from n (suc k) = n ∷ count_from (suc n) k

abbrev pub IsContiguous : List KelItem → Type 0
IsContiguous items =
    (pre : String) → ordinals pre items ≡ count_from 0 (length (ordinals pre items))

module _ (pre : String) (last : KelItem) where
  ordinals-other :
      (items : List KelItem)
      → str_eq last.pre pre ≡ false
      → ordinals pre (items ++ last ∷ []) ≡ ordinals pre items
  unfolding ordinals
  ordinals-other [] other = rw other refl
  ordinals-other (item ∷ items) other = elim (Bool-cases (str_eq item.pre pre)) [
    | inl same ↦ rw same (ap (λ ns. item.sn ∷ ns) (ordinals-other items other))
    | inr not_it ↦ rw not_it (ordinals-other items other)
  ]

  ordinals-same :
      (items : List KelItem)
      → str_eq last.pre pre ≡ true
      → ordinals pre (items ++ last ∷ []) ≡ ordinals pre items ++ last.sn ∷ []
  unfolding ordinals
  ordinals-same [] this = rw this refl
  ordinals-same (item ∷ items) this = elim (Bool-cases (str_eq item.pre pre)) [
    | inl same ↦ rw same (ap (λ ns. item.sn ∷ ns) (ordinals-same items this))
    | inr not_it ↦ rw not_it (ordinals-same items this)
  ]

-- The largest ordinal of a list, plus one.
above : List ℕ → ℕ
above [] = 0
above (n ∷ ns) = let rest = above ns in if leb rest n then suc n else rest

next-above : (pre : String) (items : List KelItem) → next_on pre items ≡ above (ordinals pre items)
unfolding next_on above ordinals
next-above pre [] = refl
next-above pre (item ∷ items) = elim (Bool-cases (str_eq item.pre pre)) [
  | inl same ↦ rw same (rw (next-above pre items) refl)
  | inr other ↦ rw other (next-above pre items)
]

above-le : (n k : ℕ) → above (count_from n k) ≤ n + k
unfolding above count_from
above-le n zero = omega arith
above-le n (suc k) = ground (arith, above-le (suc n) k)

above-count : (n k : ℕ) → above (count_from n (suc k)) ≡ n + suc k
unfolding above count_from
above-count n zero = ground arith
above-count n (suc k) = ground (arith, above-count (suc n) k)

nothing_above : above (count_from 0 0) ≡ 0
unfolding above count_from
nothing_above = refl

count_from-snoc : (n k : ℕ) → count_from n k ++ (n + k) ∷ [] ≡ count_from n (suc k)
unfolding count_from
count_from-snoc n zero = ap (λ (m : ℕ). m ∷ []) (omega arith)
count_from-snoc n (suc k) =
    ap (λ (m : ℕ). n ∷ (count_from (suc n) k ++ m ∷ [])) (omega arith)
    ∙ ap (λ ns. n ∷ ns) (count_from-snoc (suc n) k)

-- In a contiguous log, the next ordinal of a prefix is the number of its entries.
pub next-length :
    (items : List KelItem) (pre : String)
    → IsContiguous items
    → next_on pre items ≡ length (ordinals pre items)
next-length items pre c =
    next-above pre items ∙ ap above (c pre) ∙ counted (length (ordinals pre items))
  where
    counted : (k : ℕ) → above (count_from 0 k) ≡ k
    counted zero = nothing_above
    counted (suc k) = above-count 0 k ∙ omega arith

one_more :
    (ns : List ℕ) (n : ℕ)
    → ns ≡ count_from 0 (length ns)
    → n ≡ length ns
    → ns ++ n ∷ [] ≡ count_from 0 (length (ns ++ n ∷ []))
one_more ns n counts last =
    ap (λ ms. ms ++ n ∷ []) counts
    ∙ ap (λ (m : ℕ). count_from 0 (length ns) ++ m ∷ []) (omega (arith, last))
    ∙ count_from-snoc 0 (length ns)
    ∙ ap (count_from 0) (omega (arith, length-append ns (n ∷ [])))

-- An append keeps a log contiguous, under every prefix.
pub append-IsContiguous :
    (pre said : String) (items : List KelItem)
    → IsContiguous items
    → IsContiguous (append_on pre said items)
unfolding append_on
append-IsContiguous pre said items c other = elim (Bool-cases (str_eq pre other)) [
  | inr differs ↦
      let same = ordinals-other other appended items differs in
      same ∙ c other ∙ ap (λ ns. count_from 0 (length ns)) (sym same)
  | inl this ↦
      let more = ordinals-same other appended items this in
      let next : next_on pre items ≡ length (ordinals other items) =
        ap (λ p. next_on p items) ((eq_iff pre other).0 this) ∙ next-length items other c in
      more
      ∙ one_more (ordinals other items) (next_on pre items) (c other) next
      ∙ ap (λ ns. count_from 0 (length ns)) (sym more)
]
  where
    appended : KelItem
    appended = record { pre = pre; sn = next_on pre items; said = said }
