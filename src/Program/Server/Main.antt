-- ===== src/Program/Server/Main.antt =====
-- What a run of `main` of cmd/server/main.go leaves.
use migp.Base.{
  some, none, ◌≡◌, refl, ap, sym, ◌∙◌, ℕ, inl, inr, Bool, true, false, Bytes, Bool-cases,
}
use mathlib.Core.Path.{subst}
use migp.Base.Outcome.{Outcome, ok, err, panic, ◌>>=◌, Outcome-cases, >>=-eq-ok, ok-injective}
use migp.Protocol.Libraries.{Crypto, Oprf}
use migp.Protocol.Json.{Json}
use migp.Protocol.Server.{Server, ServerConfig, new_server}
use migp.Protocol.ServerConfig.{marshal_json}
use migp.Store.{new_kv_store}
use migp.Store.Files.{FileSystem, IsFileSystem}
use migp.Service.{DemoServer, new_demo_server}
use migp.Service.System.{System}
use migp.Program.Server.{
  Flags, Surroundings, Ending, dumped, serving, loaded, load, main_config, run_server, server_main,
}
use migp.Program.Server.Input.{Loads, load-Loads}

module _ (o : Oprf) (c : Crypto) (fs : FileSystem) (sum32 : Bytes → ℕ) where
  abbrev pub start : fs.State → System fs
  start disk = record { kv = new_kv_store; disk = disk }

  made_demo_server :
      (cfg : ServerConfig o) (d : DemoServer o)
      → new_demo_server o cfg ≡ ok d
      → (new_server o cfg ≡ ok d.migp_server) × (d.kv ≡ new_kv_store)
  unfolding new_demo_server
  made_demo_server cfg d e =
      let (s, made, same) = >>=-eq-ok (new_server o cfg) _ e in
      let same = ok-injective same in
      (made ∙ ap (λ t. ok t.migp_server) same, sym (ap (λ t. t.kv) same))

  unfoldable is_loaded : Ending → Bool
  is_loaded loaded = true
  is_loaded _ = false

  not_loaded :
      {A : Type 0} (m : Outcome A) (f : A → Ending)
      → ((a : A) → is_loaded (f a) ≡ false)
      → (m >>= λ a. ok (f a)) ≡ ok loaded
      → ⊥
  unfolding is_loaded
  not_loaded (ok a) f h e =
      let same : is_loaded (f a) ≡ true = ap is_loaded (ok-injective e) in let other = h a in cc
  not_loaded (err x) f h e = cc
  not_loaded panic f h e = cc

  run_server-load :
      (s : Server o) (flags : Flags) (around : Surroundings o) (disk : fs.State)
      → (run_server o c fs sum32 s flags around (start disk)).0 ≡ ok loaded
      → ((load o c fs sum32 s flags around (start disk)).0 ≡ ok tt)
        × ((run_server o c fs sum32 s flags around (start disk)).1
            ≡ (load o c fs sum32 s flags around (start disk)).1)
  unfolding run_server is_loaded
  run_server-load s flags around disk e = elim (Bool-cases flags.start) [
    | inl started ↦
        let wrong : ok (serving none) ≡ ok loaded = rw (started, run_server) at e in
        absurd (not_loaded (ok tt) (λ u. serving none) (λ u. refl) wrong)
    | inr not_started ↦ elim (Bool-cases flags.test) [
      | inl tested ↦
          let wrong = rw (not_started, tested, run_server) at e in
          absurd (not_loaded _ (λ r. serving (some r)) (λ r. refl) wrong)
      | inr loads ↦
          let ends = rw (not_started, loads, run_server) at e in
          let (u, done, same) =
            >>=-eq-ok (load o c fs sum32 s flags around (start disk)).0 (λ u. ok loaded) ends in
          let left : (run_server o c fs sum32 s flags around (start disk)).1
              ≡ (load o c fs sum32 s flags around (start disk)).1 =
            rw (not_started, loads, run_server) in
          (done, left)
    ]
  ]

  module _ (json : Json) (flags : Flags) (around : Surroundings o) (disk : fs.State) where
    abbrev pub run : Outcome Ending × System fs
    run = server_main o c fs sum32 json flags around disk

    -- How a run of `main` has loaded its input.
    pub record LoadedBy (cfg : ServerConfig o) (s : Server o) : Type 0 where
      pub read : main_config o json flags around ≡ ok cfg
      pub made : new_server o cfg ≡ ok s
      pub done : (load o c fs sum32 s flags around (start disk)).0 ≡ ok tt
      pub left : run.1 ≡ (load o c fs sum32 s flags around (start disk)).1

    pub server_main-LoadedBy :
        run.0 ≡ ok loaded → (cfg : ServerConfig o) × (s : Server o) × LoadedBy cfg s
    unfolding server_main is_loaded
    server_main-LoadedBy e = elim (Outcome-cases (main_config o json flags around)) [
      | inr (inl (x, m)) ↦ let wrong = rw (m, server_main) at e in absurd (cc)
      | inr (inr m) ↦ let wrong = rw (m, server_main) at e in absurd (cc)
      | inl (cfg, m) ↦ elim (Bool-cases flags.dump_config) [
        | inl dumps ↦
            let wrong = rw (m, dumps, server_main) at e in
            absurd (not_loaded (marshal_json o json cfg) (λ t. dumped t) (λ t. refl) wrong)
        | inr runs ↦ elim (Outcome-cases (new_demo_server o cfg)) [
          | inr (inl (x, made)) ↦ let wrong = rw (m, runs, made, server_main) at e in absurd (cc)
          | inr (inr made) ↦ let wrong = rw (m, runs, made, server_main) at e in absurd (cc)
          | inl (d, made) ↦
              let (server_made, new) = made_demo_server cfg d made in
              let same : run ≡ run_server o c fs sum32 d.migp_server flags around (start disk) =
                rw (m, runs, made, new, server_main) in
              let (done, left) =
                run_server-load d.migp_server flags around disk (ap (λ r. r.0) (sym same) ∙ e) in
              (
                cfg,
                d.migp_server,
                record {
                  read = m;
                  made = server_made;
                  done = done;
                  left = ap (λ r. r.1) same ∙ left;
                },
              )
        ]
      ]
    ]

    -- If a run of the server program ends after loading its input, then there are a configuration and a
    -- server made from it, and for every bucket `Get` returns afterwards what it returned before, with
    -- these bytes behind it: for each line of the file, or of each visible file of the directory that
    -- is walked, in order, the entries that `insert` makes for its pair, up to the first that fails, if
    -- the bucket is that of the username.
    pub server_main-Loads :
        (lawful : IsFileSystem fs)
        → run.0 ≡ ok loaded
        → (cfg : ServerConfig o) × (s : Server o) × (main_config o json flags around ≡ ok cfg)
          × (new_server o cfg ≡ ok s)
          × Loads o c sum32 s flags around fs lawful disk run.1.disk
    server_main-Loads lawful e =
        let (cfg, s, by) = server_main-LoadedBy e in
        (
          cfg,
          s,
          by.read,
          by.made,
          subst (λ z. Loads o c sum32 s flags around fs lawful disk z.disk) (sym by.left)
              (load-Loads o c sum32 s flags around fs lawful (start disk) refl by.done),
        )
