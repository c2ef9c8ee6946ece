-- ===== src/ZoxFs/Blocks/Bytes.antt =====
-- What a round leaves of the source: its length, and the clusters that it needs.
use spovm4_labs.Base.{
  length, take, drop, ℕ, zero, suc, ◌-◌, ◌/◌, ◌≤◌, ◌<◌, min, ◌≡◌, refl, ◌⊎◌, List, [], ◌∷◌, arith,
}
use spovm4_labs.ZoxFs.Bytes.{AreBytes}
use spovm4_labs.ZoxFs.Cluster.{file_cluster_data_size}

pub take-AreBytes : (n : ℕ) (bs : List ℕ) → AreBytes bs → AreBytes (take n bs)
take-AreBytes zero bs h = tt
take-AreBytes (suc n) [] h = tt
take-AreBytes (suc n) (b ∷ bs) h = (h.0, take-AreBytes n bs h.1)

pub drop-AreBytes : (n : ℕ) (bs : List ℕ) → AreBytes bs → AreBytes (drop n bs)
drop-AreBytes zero bs h = h
drop-AreBytes (suc n) [] h = tt
drop-AreBytes (suc n) (b ∷ bs) h = drop-AreBytes n bs h.1

pub length-take-drop :
    (n : ℕ) (bs : List ℕ)
    → (length (take n bs) ≡ min n (length bs)) × (length (drop n bs) ≡ length bs - n)
length-take-drop zero bs = omega arith
length-take-drop (suc n) [] = omega arith
length-take-drop (suc n) (b ∷ bs) = omega (arith, length-take-drop n bs)

pub drop_all : (n : ℕ) (bs : List ℕ) → length bs ≤ n → drop n bs ≡ []
drop_all zero [] h = refl
drop_all zero (b ∷ bs) h = absurd (omega arith)
drop_all (suc n) [] h = refl
drop_all (suc n) (b ∷ bs) h = drop_all n bs (omega arith)

-- The clusters that suffice for the bytes left, before and after a round.
pub room-next :
    (r b r' free free' : ℕ)
    → b ≡ min file_cluster_data_size r
    → r' ≡ r - file_cluster_data_size
    → r / file_cluster_data_size < free
    → free ≡ suc free'
    → (b < file_cluster_data_size) ⊎ (r' / file_cluster_data_size < free')
room-next r b r' free free' e e' h f = omega arith
