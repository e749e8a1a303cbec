-- ===== src/Protocol/Server/Configured.antt =====
-- `Config` of a server that `NewServer` of pkg/migp/server.go has made.
use migp.Base.{ℕ, ◌≡◌, refl, ap, sym, ◌∙◌, inl, inr, ◌==◌, Bool-cases, arith}
use migp.Base.Outcome.{
  ok, err, or_fail, >>=-eq-ok, ok-injective, oprf_failed, unsupported_bucket_hasher,
  unsupported_slow_hasher, unsupported_bucket_encryptor,
}
use migp.Protocol.Common.{
  bucket_hasher_sha256, slow_hasher_null, slow_hasher_scrypt, bucket_encryptor_hkdf_sha256,
}
use migp.Protocol.Libraries.{Oprf}
use migp.Protocol.Hasher.{
  BucketHasher, SlowHasher, bucket_hasher_id, slow_hasher_id, new_bucket_hasher, new_slow_hasher,
}
use migp.Protocol.Encryptor.{BucketEncryptor, encryptor_id, new_bucket_encryptor}
use migp.Protocol.Server.{ServerConfig, Server, server_config, new_server}

bucket_hasher_id-new_bucket_hasher :
    (id : ℕ) (h : BucketHasher) → new_bucket_hasher id ≡ ok h → bucket_hasher_id h ≡ id
unfolding new_bucket_hasher
bucket_hasher_id-new_bucket_hasher id h e = elim (Bool-cases (id == bucket_hasher_sha256)) [
  | inl is ↦ ground (arith, ap bucket_hasher_id (ok-injective (rw (is) at e)), is)
  | inr other ↦ let wrong : err unsupported_bucket_hasher ≡ ok h = rw (other) at e in absurd (cc)
]

slow_hasher_id-new_slow_hasher :
    (id : ℕ) (h : SlowHasher) → new_slow_hasher id ≡ ok h → slow_hasher_id h ≡ id
unfolding new_slow_hasher
slow_hasher_id-new_slow_hasher id h e = elim (Bool-cases (id == slow_hasher_null)) [
  | inl is ↦ ground (arith, ap slow_hasher_id (ok-injective (rw (is) at e)), is)
  | inr other ↦ elim (Bool-cases (id == slow_hasher_scrypt)) [
    | inl is ↦ ground (arith, ap slow_hasher_id (ok-injective (rw (other, is) at e)), is)
    | inr neither ↦
        let wrong : err unsupported_slow_hasher ≡ ok h = rw (other, neither) at e in absurd (cc)
  ]
]

encryptor_id-new_bucket_encryptor :
    (id : ℕ) (h : BucketEncryptor) → new_bucket_encryptor id ≡ ok h → encryptor_id h ≡ id
unfolding new_bucket_encryptor
encryptor_id-new_bucket_encryptor id h e = elim (Bool-cases (id == bucket_encryptor_hkdf_sha256)) [
  | inl is ↦ ground (arith, ap encryptor_id (ok-injective (rw (is) at e)), is)
  | inr other ↦ let wrong : err unsupported_bucket_encryptor ≡ ok h = rw (other) at e in absurd (cc)
]

-- A server that a configuration makes shows this configuration, with its key.
pub server_config-new_server :
    (o : Oprf) (cfg : ServerConfig o) (s : Server o)
    → new_server o cfg ≡ ok s
    → server_config o s ≡ cfg
unfolding server_config new_server
server_config-new_server o cfg s e =
    let (hasher, h, e) = >>=-eq-ok (new_bucket_hasher cfg.config.bucket_hasher_id) _ e in
    let (slow, l, e) = >>=-eq-ok (new_slow_hasher cfg.config.slow_hasher_id) _ e in
    let (encryptor, n, e) = >>=-eq-ok (new_bucket_encryptor cfg.config.bucket_encryptor_id) _ e in
    let (oprf, p, e) =
      >>=-eq-ok (or_fail oprf_failed (o.new_server cfg.config.oprf_suite cfg.private_key)) _ e in
    ap (server_config o) (sym (ok-injective e))
    ∙ rw
        (
          bucket_hasher_id-new_bucket_hasher cfg.config.bucket_hasher_id hasher h,
          slow_hasher_id-new_slow_hasher cfg.config.slow_hasher_id slow l,
          encryptor_id-new_bucket_encryptor cfg.config.bucket_encryptor_id encryptor n,
        )
        refl
