-- ===== src/Maps.antt =====
-- `std::map<int, T>` as an association list in ascending order of its keys.
pub mod Ascending
use tcp_server_client.Prelude.{
  Option, none, some, List, [], ◌∷◌, map, ◌≡◌, refl, arith, if◌then◌else◌,
}
use tcp_server_client.Prelude.Int.{ℤ, ltb_ℤ, eqb_ℤ, eqb_ℤ_iff}

module _ {T : Type 0} where
  unfoldable pub find : ℤ → List (ℤ × T) → Option T
  find k [] = none
  find k ((j, v) ∷ rest) = if eqb_ℤ j k then some v else find k rest

  -- `m[k] = v`
  unfoldable pub set : ℤ → T → List (ℤ × T) → List (ℤ × T)
  set k v [] = (k, v) ∷ []
  set k v ((j, w) ∷ rest) =
      if eqb_ℤ j k
      then (k, v) ∷ rest
      else if ltb_ℤ k j
      then (k, v) ∷ (j, w) ∷ rest
      else (j, w) ∷ set k v rest

  -- `m.erase(k)`
  unfoldable pub erase : ℤ → List (ℤ × T) → List (ℤ × T)
  erase k [] = []
  erase k ((j, v) ∷ rest) = if eqb_ℤ j k then erase k rest else (j, v) ∷ erase k rest

  abbrev pub keys : List (ℤ × T) → List ℤ
  keys = map (λ e. e.0)

  pub find-set :
      (k j : ℤ) (v : T) (m : List (ℤ × T))
      → find j (set k v m) ≡ (if eqb_ℤ k j then some v else find j m)
  unfolding find set
  find-set k j v [] = refl
  find-set k j v ((i, w) ∷ rest) =
      ground (arith, eqb_ℤ_iff i k, eqb_ℤ_iff k j, eqb_ℤ_iff i j, find-set k j v rest)

  pub find-erase :
      (k j : ℤ) (m : List (ℤ × T)) → find j (erase k m) ≡ (if eqb_ℤ k j then none else find j m)
  unfolding find erase
  find-erase k j [] = ground arith
  find-erase k j ((i, w) ∷ rest) =
      ground (arith, eqb_ℤ_iff i k, eqb_ℤ_iff k j, eqb_ℤ_iff i j, find-erase k j rest)
