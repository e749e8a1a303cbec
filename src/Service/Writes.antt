-- ===== src/Service/Writes.antt =====
-- What the calls that `insert` of cmd/server/server.go is made of write to a store.
use migp.Base.{
  ◌≡◌, refl, ap, ap₂, sym, ◌∙◌, inl, inr, Bytes, [], ◌++◌, bytes_eq, bytes_eq_iff, Bool-cases,
  append_assoc, append-nil, if◌then◌else◌,
}
use migp.Base.Outcome.{Outcome, ok, err, panic, ◌>>=◌, ok-injective, >>=_assoc, >>=-eq-ok}
use migp.Store.{KvStore, find, append}
use migp.Store.Memory.{put-append_lem}
use migp.Service.{Run, and_then}

-- One bucket is longer by some bytes, and every other is the same.
abbrev pub Grows : Bytes → Bytes → KvStore → KvStore → Type 0
Grows id added kv kv' =
    (j : Bytes) → find j kv'.store ≡ find j kv.store ++ (if bytes_eq id j then added else [])

pub Grows-append : (id added : Bytes) (kv : KvStore) → Grows id added kv (append kv id added)
Grows-append id added kv j = (put-append_lem kv id j added).1 ∙ elim (Bool-cases (bytes_eq id j)) [
  | inl same ↦ rw same (ap (λ i. find i kv.store ++ added) ((bytes_eq_iff id j).0 same))
  | inr differ ↦ rw differ (sym (append-nil _))
]

pub Grows-nothing : (id : Bytes) (kv : KvStore) → Grows id [] kv kv
Grows-nothing id kv j = elim (Bool-cases (bytes_eq id j)) [
  | inl same ↦ rw same (sym (append-nil _))
  | inr differ ↦ rw differ (sym (append-nil _))
]

pub Grows-trans :
    (id a b : Bytes) (kv kv' kv'' : KvStore)
    → Grows id a kv kv'
    → Grows id b kv' kv''
    → Grows id (a ++ b) kv kv''
Grows-trans id a b kv kv' kv'' g h j =
    h j
    ∙ ap (λ t. t ++ (if bytes_eq id j then b else [])) (g j)
    ∙ append_assoc (find j kv.store) (if bytes_eq id j then a else [])
        (if bytes_eq id j then b else [])
    ∙ ap (λ t. find j kv.store ++ t)
        (elim (Bool-cases (bytes_eq id j)) [
          | inl same ↦ rw same refl
          | inr differ ↦ rw differ refl
        ])

-- A call that fails as a description does, and that lengthens one bucket: by the described bytes if it
-- succeeds, and by some otherwise.
pub record Writes (id : Bytes) (described : Outcome Bytes) (kv : KvStore) (r : Run) : Type 0 where
  pub added : Bytes
  pub grows : Grows id added kv r.1
  pub result : r.0 ≡ (described >>= λ b. ok tt)
  pub exact : (b : Bytes) → described ≡ ok b → added ≡ b

pub Writes-ok :
    (id b : Bytes) (kv kv' : KvStore) → Grows id b kv kv' → Writes id (ok b) kv (ok tt, kv')
Writes-ok id b kv kv' g = record {
  added = b;
  grows = g;
  result = refl;
  exact = λ b' e. ok-injective e;
}

pub Writes-fail :
    (id : Bytes) (d : Outcome Bytes) (kv : KvStore) (r : Outcome (Unit {0}))
    → r ≡ (d >>= λ b. ok tt)
    → ((b : Bytes) → d ≡ ok b → [] ≡ b)
    → Writes id d kv (r, kv)
Writes-fail id d kv r e x = record {
  added = [];
  grows = Grows-nothing id kv;
  result = e;
  exact = x;
}

-- The bytes that two calls write, one behind the other.
abbrev pub both : Outcome Bytes → Outcome Bytes → Outcome Bytes
both d d' = d >>= λ a. d' >>= λ b. ok (a ++ b)

pub Writes-and_then :
    (id : Bytes) (d d' : Outcome Bytes) (kv : KvStore) (r : Run) (next : KvStore → Run)
    → Writes id d kv r
    → ((kv' : KvStore) → Writes id d' kv' (next kv'))
    → Writes id (both d d') kv (and_then r next)
Writes-and_then id (ok a) d' kv (ok u, kv') next w v =
    let second = v kv' in
    record {
      added = w.added ++ second.added;
      grows = Grows-trans id w.added second.added kv kv' (next kv').1 w.grows second.grows;
      result = second.result ∙ sym (>>=_assoc d' (λ b. ok (a ++ b)) (λ b. ok tt));
      exact = λ b e.
          let (b', done, rest) = >>=-eq-ok d' (λ b. ok (a ++ b)) e in
          ap₂ (λ x y. x ++ y) (w.exact a refl) (second.exact b' done) ∙ ok-injective rest;
    }
Writes-and_then id (err e) d' kv (err e', kv') next w v = record {
  added = w.added;
  grows = w.grows;
  result = w.result;
  exact = λ b h. cc;
}
Writes-and_then id panic d' kv (panic, kv') next w v = record {
  added = w.added;
  grows = w.grows;
  result = w.result;
  exact = λ b h. cc;
}
Writes-and_then id (ok a) d' kv (err e', kv') next w v = let bad = w.result in absurd (cc)
Writes-and_then id (ok a) d' kv (panic, kv') next w v = let bad = w.result in absurd (cc)
Writes-and_then id (err e) d' kv (ok u, kv') next w v = let bad = w.result in absurd (cc)
Writes-and_then id (err e) d' kv (panic, kv') next w v = let bad = w.result in absurd (cc)
Writes-and_then id panic d' kv (ok u, kv') next w v = let bad = w.result in absurd (cc)
Writes-and_then id panic d' kv (err e', kv') next w v = let bad = w.result in absurd (cc)
