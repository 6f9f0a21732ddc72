-- ===== src/Startup/Outcome.antt =====
-- When the server starts, and as what.
use bundle_broadcaster.Common.{
  String, ℕ, Option, none, some, ◌≡◌, ◌≢◌, ◌==◌, ◌↔◌, ◌∙◌, ap, refl, false, arith, eq_iff,
  Bool-cases, Option-cases, inl, inr, subst,
}
use bundle_broadcaster.Config.{Config, load_config}
use bundle_broadcaster.Signer.{new_signer}
use bundle_broadcaster.Relays.Registry.{RelayBuilders}
use bundle_broadcaster.Manager.Build.{new_relay_manager}
use bundle_broadcaster.Auth.Guard.{AuthGuard, Request, new_auth_guard}
use bundle_broadcaster.Auth.Handler.{Moment, metrics, metrics_handler}
use bundle_broadcaster.Auth.Access.{HasSession, metrics_iff_HasSession}
use bundle_broadcaster.Startup.Begin.{
  Environment, config_path, choose_key, choose_guard, Running, Start, no_config, no_key, bad_key,
  running, begin_with, begin_signed, begin,
}

module _ (e : Environment) (builders : RelayBuilders) where
  -- The configuration was read and gives or leaves to the environment a key, which makes the signer.
  pub record Began (r : Running e) : Type 1 where
    pub cfg : Config
    pub loaded : load_config e.read_file e.unmarshal (config_path e) ≡ some cfg
    pub keyed : (choose_key e cfg == "") ≡ false
    pub signed : new_signer e.crypto (choose_key e cfg) ≡ some r.signer
    pub managed : r.manager ≡ new_relay_manager builders cfg
    pub guarded : r.guard ≡ choose_guard e cfg

  -- What is known of each way to start.
  abbrev Known : Start e → Type 1
  Known (running r) = Began r
  Known no_config = Unit
  Known no_key = Unit
  Known bad_key = Unit

  begin_signed-Known :
      (cfg : Config)
      → load_config e.read_file e.unmarshal (config_path e) ≡ some cfg
      → Known (begin_signed e builders cfg)
  unfolding begin_signed begin_with
  begin_signed-Known cfg loaded = elim (Bool-cases (choose_key e cfg == "")) [
    | inl keyless ↦ rw (keyless, begin_signed) tt
    | inr keyed ↦ elim (Option-cases (new_signer e.crypto (choose_key e cfg))) [
      | inl bad ↦ rw (keyed, bad, begin_signed) tt
      | inr (signer, signed) ↦
          rw (keyed, signed, begin_signed)
            (record {
              cfg = cfg;
              loaded = loaded;
              keyed = keyed;
              signed = signed;
              managed = refl;
              guarded = refl;
            })
    ]
  ]

  begin-Known : Known (begin e builders)
  unfolding begin
  begin-Known = elim (Option-cases (load_config e.read_file e.unmarshal (config_path e))) [
    | inl missing ↦ rw (missing, begin) tt
    | inr (cfg, loaded) ↦ rw (loaded, begin) (begin_signed-Known cfg loaded)
  ]

  pub begin-Began : (r : Running e) → begin e builders ≡ running r → Began r
  begin-Began r h = subst Known h begin-Known

abbrev guard_of : Config → AuthGuard
guard_of cfg = new_auth_guard cfg.auth.password_hash cfg.auth.max_attempts cfg.auth.lockout_minutes

-- A visit with no session cookie to the page of a guard.
module _ (md5_hex : String → String) (format : ℕ → String) (t : Moment) (q : Request) where
  metrics-no_guard :
      (o : Option AuthGuard) → o ≡ none → (metrics_handler md5_hex format t q o).1 ≡ metrics
  unfolding metrics_handler
  metrics-no_guard o h = rw h refl

  guarded_visit :
      (o : Option AuthGuard) (a : AuthGuard)
      → o ≡ some a
      → q.cookie ≡ none
      → (metrics_handler md5_hex format t q o).1 ≢ metrics
  unfolding metrics_handler
  guarded_visit o a h bare shown =
      let session : HasSession t q a =
        (metrics_iff_HasSession md5_hex format t q a).0 (rw h at shown) in
      cc (session.presented, bare)

  -- After a start, a visitor with no session cookie is shown the metrics exactly if the configuration
  -- has no password hash.
  pub metrics_after_begin :
      (e : Environment) (builders : RelayBuilders) (r : Running e) (cfg : Config)
      → begin e builders ≡ running r
      → load_config e.read_file e.unmarshal (config_path e) ≡ some cfg
      → q.cookie ≡ none
      → ((metrics_handler md5_hex format t q r.guard).1 ≡ metrics) ↔ (cfg.auth.password_hash ≡ "")
  unfolding choose_guard
  metrics_after_begin e builders r cfg h loaded bare =
      let b = begin-Began e builders r h in
      let same : b.cfg ≡ cfg = cc (b.loaded) in
      let guard : r.guard ≡ choose_guard e cfg = b.guarded ∙ ap (choose_guard e) same in
      elim (Bool-cases (cfg.auth.password_hash == "")) [
        | inl empty ↦ (
          λ _. (eq_iff cfg.auth.password_hash "").0 empty,
          λ _. metrics-no_guard r.guard (guard ∙ rw empty refl),
        )
        | inr set ↦ (
          λ shown. absurd (guarded_visit r.guard (guard_of cfg) (guard ∙ rw set refl) bare shown),
          λ none_set. absurd (ground (arith, eq_iff cfg.auth.password_hash "", set, none_set)),
        )
      ]
