-- ===== src/Threshold/Tholder/Slots.antt =====
-- Which slots `satisfy` marks.
use keri_ts.Prelude.{
  ℕ, zero, suc, ◌<◌, ◌≡◌, refl, ap, Bool, true, false, ◌&&◌, ◌||◌, List, [], ◌∷◌, ltb, ◌==◌, length,
  set, replicate, arith, Bool-cases, inl, inr,
}
use keri_ts.Prelude.Sets.{nat_eq, has, of_list, has-of_list}
use keri_ts.Prelude.Sort.{sort_by, has-sort_by}
use keri_ts.Threshold.Tholder.{mark_all, signed}

signed-set :
    (sats : List Bool) (i o : ℕ)
    → i < length sats
    → signed (set sats i true) o ≡ (o == i || signed sats o)
unfolding signed
signed-set [] i o h = elim h [ ]
signed-set (b ∷ sats) zero zero h = refl
signed-set (b ∷ sats) zero (suc o) h = ground arith
signed-set (b ∷ sats) (suc i) zero h = ground arith
signed-set (b ∷ sats) (suc i) (suc o) h = ground (arith, signed-set sats i o)

length-set : (sats : List Bool) (i : ℕ) → length (set sats i true) ≡ length sats
length-set [] i = refl
length-set (b ∷ sats) zero = refl
length-set (b ∷ sats) (suc i) = ap suc (length-set sats i)

signed-lt : (sats : List Bool) (o : ℕ) → signed sats o ≡ true → o < length sats
unfolding signed
signed-lt [] o h = cc
signed-lt (b ∷ sats) zero h = omega arith
signed-lt (b ∷ sats) (suc o) h = omega (arith, signed-lt sats o h)

signed-mark_all :
    (sats : List Bool) (indices : List ℕ) (o : ℕ)
    → signed (mark_all sats indices) o ≡ (signed sats o || (ltb o (length sats) && has o indices))
unfolding mark_all has
signed-mark_all sats [] o = ground arith
signed-mark_all sats (i ∷ rest) o = elim (Bool-cases (ltb i (length sats))) [
  | inl inside ↦ rw inside (
      ground (
        arith,
        inside,
        signed-mark_all (set sats i true) rest o,
        signed-set sats i o,
        length-set sats i,
      ))
  | inr outside ↦ rw outside (ground (arith, outside, signed-mark_all sats rest o))
]

signed-replicate : (n o : ℕ) → signed (replicate n false) o ≡ false
unfolding signed
signed-replicate zero o = refl
signed-replicate (suc n) zero = refl
signed-replicate (suc n) (suc o) = signed-replicate n o

length-replicate : (n : ℕ) → length (replicate n false) ≡ n
length-replicate zero = refl
length-replicate (suc n) = ap suc (length-replicate n)

-- A slot is marked exactly if it exists and its index is among the signers'.
pub signed-marked :
    (size : ℕ) (indices : List ℕ) (o : ℕ)
    → signed (mark_all (replicate size false) (sort_by (λ i. i) (of_list indices))) o
      ≡ (ltb o size && has o indices)
signed-marked size indices o = ground (
  arith,
  signed-mark_all (replicate size false) (sort_by (λ i. i) (of_list indices)) o,
  signed-replicate size o,
  length-replicate size,
  has-sort_by (λ i. i) o (of_list indices),
  has-of_list o indices,
)
