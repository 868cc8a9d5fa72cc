-- ===== src/Diff/Load/Ordered.antt =====
-- The maps and sets that `load_summary` of src/diff.cpp fills, in order.

use whyrun.Common.{
  ◌≡◌, refl, true, false, [], ◌∷◌, none, Bytes, equal, equal_iff, All, arith, Bool-cases, inl, inr,
}
use whyrun.Diff.Faithful.{HasKeys, All-map}
use whyrun.Diff.Load.{put_counts}
use whyrun.Diff.{Counts, Activity, Summary, find}
use whyrun.Store.Metadata.{less}

less_irrefl : (s : Bytes) → less s s ≡ false
unfolding less
less_irrefl [] = refl
less_irrefl (c ∷ s) = ground (arith, less_irrefl s)

less_trans : (s t u : Bytes) → less s t ≡ true → less t u ≡ true → less s u ≡ true
unfolding less
less_trans s t [] h k = cc
less_trans s [] (e ∷ u) h k = ground arith
less_trans [] (d ∷ t) (e ∷ u) h k = refl
less_trans (c ∷ s) (d ∷ t) (e ∷ u) h k = ground (arith, less_trans s t u)

less_total : (s t : Bytes) → equal s t ≡ false → less s t ≡ false → less t s ≡ true
unfolding less equal
less_total [] [] distinct not_less = cc
less_total (c ∷ s) [] distinct not_less = refl
less_total [] (d ∷ t) distinct not_less = cc
less_total (c ∷ s) (d ∷ t) distinct not_less = ground (arith, less_total s t)

-- The keys rise, as those of a `std::map` do.
abbrev Above : Bytes → Activity → Type 0
Above n = All (λ (k, c). less n k ≡ true)

abbrev pub Ordered : Activity → Type 0
Ordered [] = Unit
Ordered ((n, c) ∷ m) = Above n m × Ordered m

Above-put_counts :
    (n name : Bytes) (counts : Counts) (m : Activity)
    → less n name ≡ true
    → Above n m
    → Above n (put_counts name counts m)
unfolding put_counts
Above-put_counts n name counts [] below above = (below, tt)
Above-put_counts n name counts ((k, c) ∷ m) below (first, above) =
    ground (arith, Above-put_counts n name counts m below above)

pub Ordered-put_counts :
    (name : Bytes) (counts : Counts) (m : Activity) → Ordered m → Ordered (put_counts name counts m)
unfolding put_counts
Ordered-put_counts name counts [] h = (tt, tt)
Ordered-put_counts name counts ((k, c) ∷ m) (above, h) = elim (Bool-cases (equal k name)) [
  | inl same ↦ rw same (rw (← (equal_iff k name).0 same) above, h)
  | inr distinct ↦ elim (Bool-cases (less k name)) [
    | inl below ↦
        rw (distinct, below)
          (Above-put_counts k name counts m below above, Ordered-put_counts name counts m h)
    | inr above_it ↦
        let lt = less_total k name distinct above_it in
        rw (distinct, above_it)
          ((lt, All-map m (λ (j, d) later. less_trans name k j lt later) above), (above, h))
  ]
]

Above-find : (n : Bytes) (m : Activity) → Above n m → find n m ≡ none
unfolding find
Above-find n [] above = refl
Above-find n ((k, c) ∷ m) (first, above) =
    ground (arith, equal_iff k n, less_irrefl n, Above-find n m above)

pub Ordered-HasKeys : (m : Activity) → Ordered m → HasKeys m
Ordered-HasKeys [] h = tt
Ordered-HasKeys ((n, c) ∷ m) (above, h) = (Above-find n m above, Ordered-HasKeys m h)

pub record IsMap (s : Summary) : Type 0 where
  pub reads : Ordered s.reads
  pub writes : Ordered s.writes
  pub network : Ordered s.network
  pub local_ipc : Ordered s.local_ipc
