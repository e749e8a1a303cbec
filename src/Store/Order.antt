-- ===== src/Store/Order.antt =====
-- The map of `kvStore` has no order: `saveCredentials` of cmd/server/kv.go ranges over it in any.
use migp.Base.{
  ◌≡◌, refl, ap, ap₂, sym, ◌∙◌, Bytes, All, List, ◌∷◌, ◌++◌, arith, false, bytes_eq, bytes_eq_iff,
  if◌then◌else◌,
}
use mathlib.Core.Path.{subst}
use mathlib.Core.Logic.{∥∥₁_elim}
use mathlib.Core.List.{Permᴰ, Perm}
use migp.Base.Outcome.{ok}
use migp.Store.{KvStore, find, get, save_credentials}
use migp.Store.Files.{FileSystem, IsFileSystem}
use migp.Store.Memory.{IsMap}
use migp.Store.Paths.{IsId}
use migp.Store.Save.{saved, get-saved, saved-save_credentials}

All-Permᴰ {ℓ} : {A : Type ℓ} (P : A → Type 0) {xs ys : List A} → Permᴰ xs ys → All P xs → All P ys
All-Permᴰ P Permᴰ.nil h = h
All-Permᴰ P (Permᴰ.cons e p) (one, h) = (subst P e one, All-Permᴰ P p h)
All-Permᴰ P (Permᴰ.swap e e') (one, (two, h)) = (subst P e' two, (subst P e one, h))
All-Permᴰ P (Permᴰ.trans p q) h = All-Permᴰ P q (All-Permᴰ P p h)

-- A map in two orders.
SameMap : List (Bytes × Bytes) → List (Bytes × Bytes) → Type 0
SameMap m m' = IsMap m' × ((j : Bytes) → find j m ≡ find j m')

swapped :
    (a b : Bytes × Bytes) (m : List (Bytes × Bytes))
    → IsMap (a ∷ b ∷ m)
    → SameMap (a ∷ b ∷ m) (b ∷ a ∷ m)
unfolding IsMap find SameMap
swapped (k, v) (k', v') m ((differ, lacks), (lacks', h)) = (
  ((ground (arith, bytes_eq_iff k k', bytes_eq_iff k' k, differ), lacks'), (lacks, h)),
  λ j. ground (arith, bytes_eq_iff k j, bytes_eq_iff k' j, bytes_eq_iff k' k, differ),
)

IsMap-Permᴰ : {m m' : List (Bytes × Bytes)} → Permᴰ m m' → IsMap m → SameMap m m'
unfolding IsMap find SameMap
IsMap-Permᴰ Permᴰ.nil h = (h, λ j. refl)
IsMap-Permᴰ (Permᴰ.cons {a} {l₁ = m} {l₂ = m'} e p) (lacks, h) =
    let (h', same) = IsMap-Permᴰ p h in
    subst (λ b. SameMap (a ∷ m) (b ∷ m')) e
      (
        (All-Permᴰ (λ b. bytes_eq b.0 a.0 ≡ false) p lacks, h'),
        λ j. ap (λ t. if bytes_eq a.0 j then a.1 else t) (same j),
      )
IsMap-Permᴰ (Permᴰ.swap {a} {b} {l = m} e e') h =
    subst {A = (Bytes × Bytes) × (Bytes × Bytes)} (λ x. SameMap (a ∷ b ∷ m) (x.0 ∷ x.1 ∷ m))
      (ap₂ (λ s t. (s, t)) e' e) (swapped a b m h)
IsMap-Permᴰ (Permᴰ.trans p q) h =
    let (h', same) = IsMap-Permᴰ p h in
    let (h'', same') = IsMap-Permᴰ q h' in (h'', λ j. same j ∙ same' j)

module _ (fs : FileSystem) (lawful : IsFileSystem fs) where
  -- Whatever order the map is saved in, if both saves succeed then `Get` returns the same for every
  -- identifier afterwards.
  pub get-save_credentials_order :
      (kv kv' : KvStore) (disk : fs.State)
      → IsMap kv.store
      → All (λ p. IsId p.0) kv.store
      → Perm kv.store kv'.store
      → (save_credentials fs kv disk).0 ≡ ok tt
      → (save_credentials fs kv' disk).0 ≡ ok tt
      → (id : Bytes) → IsId id
      → get fs (save_credentials fs kv disk).1 id ≡ get fs (save_credentials fs kv' disk).1 id
  unfolding SameMap
  get-save_credentials_order kv kv' disk map ids perm done done' id hid =
      let same : saved fs lawful (save_credentials fs kv disk).1 id
          ≡ saved fs lawful (save_credentials fs kv' disk).1 id =
        ∥∥₁_elim perm (hlevel) (λ p.
          let (map', finds) = IsMap-Permᴰ p map in
          saved-save_credentials fs lawful kv disk id map ids hid done
          ∙ ap (λ t. saved fs lawful disk id ++ t) (finds id)
          ∙ sym (
              saved-save_credentials fs lawful kv' disk id map' (All-Permᴰ (λ b. IsId b.0) p ids)
                hid done')) in
      get-saved fs lawful _ id hid ∙ ap ok same ∙ sym (get-saved fs lawful _ id hid)
