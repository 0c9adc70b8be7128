-- ===== src/Maps/Ascending.antt =====
-- The order of the keys of a `std::map<int, T>`.
use tcp_server_client.Prelude.{
  true, false, none, List, [], ◌∷◌, ◌≡◌, refl, subst, arith, Bool-cases, inl, inr,
}
use tcp_server_client.Prelude.Int.{ℤ, pos, negsuc, ltb_ℤ, eqb_ℤ, eqb_ℤ_iff}
use tcp_server_client.Maps.{find, set, erase, keys}

ltb_ℤ-trans : (a b c : ℤ) → ltb_ℤ a b ≡ true → ltb_ℤ b c ≡ true → ltb_ℤ a c ≡ true
ltb_ℤ-trans (pos a) (pos b) (pos c) p q = ground arith
ltb_ℤ-trans (negsuc a) (negsuc b) (negsuc c) p q = ground arith
ltb_ℤ-trans _ _ _ p q = ground arith

ltb_ℤ_total : (a b : ℤ) → eqb_ℤ a b ≡ false → ltb_ℤ b a ≡ false → ltb_ℤ a b ≡ true
ltb_ℤ_total (pos a) (pos b) p q = ground arith
ltb_ℤ_total (negsuc a) (negsuc b) p q = ground arith
ltb_ℤ_total _ _ p q = ground arith

pub ltb_ℤ-eqb_ℤ : (a b : ℤ) → ltb_ℤ a b ≡ true → eqb_ℤ a b ≡ false
ltb_ℤ-eqb_ℤ (pos a) (pos b) p = ground arith
ltb_ℤ-eqb_ℤ (negsuc a) (negsuc b) p = ground arith
ltb_ℤ-eqb_ℤ _ _ p = ground arith

-- All are greater than `k`.
abbrev pub IsAbove : ℤ → List ℤ → Type 0
IsAbove k [] = Unit
IsAbove k (j ∷ rest) = (ltb_ℤ k j ≡ true) × IsAbove k rest

abbrev pub IsAscending : List ℤ → Type 0
IsAscending [] = Unit
IsAscending (k ∷ rest) = IsAbove k rest × IsAscending rest

IsAbove-trans : (k j : ℤ) (l : List ℤ) → ltb_ℤ k j ≡ true → IsAbove j l → IsAbove k l
IsAbove-trans k j [] p h = tt
IsAbove-trans k j (i ∷ l) p h = (ltb_ℤ-trans k j i p h.0, IsAbove-trans k j l p h.1)

module _ {T : Type 0} where
  IsAbove-set :
      (i k : ℤ) (v : T) (m : List (ℤ × T))
      → ltb_ℤ i k ≡ true
      → IsAbove i (keys m)
      → IsAbove i (keys (set k v m))
  unfolding set
  IsAbove-set i k v [] p h = (p, tt)
  IsAbove-set i k v ((j, w) ∷ rest) p h = ground (arith, IsAbove-set i k v rest p h.1)

  pub IsAscending-set :
      (k : ℤ) (v : T) (m : List (ℤ × T)) → IsAscending (keys m) → IsAscending (keys (set k v m))
  unfolding set
  IsAscending-set k v [] h = (tt, tt)
  IsAscending-set k v ((j, w) ∷ rest) h = elim (Bool-cases (eqb_ℤ j k)) [
    | inl e ↦ rw e (subst (λ i. IsAbove i (keys rest)) ((eqb_ℤ_iff j k).0 e) h.0, h.1)
    | inr e ↦ elim (Bool-cases (ltb_ℤ k j)) [
      | inl l ↦ rw (e, l) ((l, IsAbove-trans k j (keys rest) l h.0), h)
      | inr l ↦
          rw (e, l) (IsAbove-set j k v rest (ltb_ℤ_total j k e l) h.0, IsAscending-set k v rest h.1)
    ]
  ]

  IsAbove-erase : (i k : ℤ) (m : List (ℤ × T)) → IsAbove i (keys m) → IsAbove i (keys (erase k m))
  unfolding erase
  IsAbove-erase i k [] h = tt
  IsAbove-erase i k ((j, w) ∷ rest) h = ground (arith, IsAbove-erase i k rest h.1)

  pub IsAscending-erase :
      (k : ℤ) (m : List (ℤ × T)) → IsAscending (keys m) → IsAscending (keys (erase k m))
  unfolding erase
  IsAscending-erase k [] h = tt
  IsAscending-erase k ((j, w) ∷ rest) h =
      ground (arith, IsAbove-erase j k rest h.0, IsAscending-erase k rest h.1)

  -- A key that is smaller than all others has no other entry.
  pub find-IsAbove : (k : ℤ) (m : List (ℤ × T)) → IsAbove k (keys m) → find k m ≡ none
  unfolding find
  find-IsAbove k [] h = refl
  find-IsAbove k ((j, w) ∷ rest) h =
      ground (arith, eqb_ℤ_iff j k, ltb_ℤ-eqb_ℤ k j, find-IsAbove k rest h.1)
