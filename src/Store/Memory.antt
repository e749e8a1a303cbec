-- ===== src/Store/Memory.antt =====
-- The map of `kvStore` of cmd/server/kv.go: `Put` and `Append`.
use migp.Base.{
  ◌≡◌, refl, ap, ◌∙◌, inl, inr, false, Bytes, All, append-nil, List, [], ◌∷◌, ◌++◌, arith, bytes_eq,
  bytes_eq_iff, Bool-cases, if◌then◌else◌,
}
use mathlib.Core.Path.{subst}
use migp.Store.{KvStore, find, assign, put, append}

pub find-assign :
    (id j value : Bytes) (m : List (Bytes × Bytes))
    → find j (assign id value m) ≡ (if bytes_eq id j then value else find j m)
unfolding find assign
find-assign id j value [] = refl
find-assign id j value ((k, v) ∷ m) =
    ground (arith, bytes_eq_iff k id, bytes_eq_iff k j, bytes_eq_iff id j, find-assign id j value m)

-- `Put` replaces the bucket of its key, `Append` lengthens it at the end, and neither changes any
-- other bucket.
pub put-append_lem :
    (kv : KvStore) (id j value : Bytes)
    → (find j (put kv id value).store ≡ (if bytes_eq id j then value else find j kv.store))
      × (find j (append kv id value).store
          ≡ (if bytes_eq id j then find id kv.store ++ value else find j kv.store))
unfolding put append
put-append_lem kv id j value =
    (find-assign id j value kv.store, find-assign id j (find id kv.store ++ value) kv.store)

-- All the values of a key, one behind the other.
unfoldable pub all_of : Bytes → List (Bytes × Bytes) → Bytes
all_of j [] = []
all_of j ((k, v) ∷ m) = (if bytes_eq k j then v else []) ++ all_of j m

-- No key twice, as in a Go map.
abbrev pub Lacks : Bytes → List (Bytes × Bytes) → Type 0
Lacks k = All (λ p. bytes_eq p.0 k ≡ false)

unfoldable pub IsMap : List (Bytes × Bytes) → Type 0
IsMap [] = Unit
IsMap ((k, v) ∷ m) = Lacks k m × IsMap m

all_of-Lacks : (j : Bytes) (m : List (Bytes × Bytes)) → Lacks j m → all_of j m ≡ []
unfolding all_of
all_of-Lacks j [] h = refl
all_of-Lacks j ((k, v) ∷ m) (e, h) = rw e (all_of-Lacks j m h)

pub all_of-eq-find : (j : Bytes) (m : List (Bytes × Bytes)) → IsMap m → all_of j m ≡ find j m
unfolding all_of find IsMap
all_of-eq-find j [] h = refl
all_of-eq-find j ((k, v) ∷ m) (lacks, h) = elim (Bool-cases (bytes_eq k j)) [
  | inl same ↦
      let e = (bytes_eq_iff k j).0 same in
      rw same (ap (λ t. v ++ t) (all_of-Lacks j m (subst (λ i. Lacks i m) e lacks)) ∙ append-nil v)
  | inr differ ↦ rw differ (all_of-eq-find j m h)
]
