-- ===== src/Endorser/Main/Starts.antt =====
-- What a configuration that `Validate` accepts makes of the start.
use fabric_x_samples.Prelude.{
  String, Option, none, some, List, [], ◌∷◌, ◌≡◌, arith, eq_iff, refl, sym, subst, ◌⊎◌, true, false,
}
use fabric_x_samples.Go.{Outcome, ok, err, panic, wrapping, peek, ◌>>=◌, ◌>>◌}
use fabric_x_samples.Endorser.Config.{Config, validate, to_peer_conf, PeerConf, IdentityConfig}
use fabric_x_samples.Endorser.Config.Laws.{validate_iff}
use fabric_x_samples.Endorser.Client.{need}
use fabric_x_samples.Endorser.Executor.{execute}
use fabric_x_samples.Endorser.Service.{Service, new, new_with_signer, network_of}
use fabric_x_samples.Endorser.Types.{fabric, fabric_x, Call, Platform}
use fabric_x_samples.Endorser.Main.{Command, check, start, run, create, override}

module _ (P : Platform) where
  -- A configuration without an identity that `Validate` accepts makes the program panic before it
  -- makes any call.
  pub run_panics :
      (cmd : Command) (cfg : Config) (h : List Call)
      → cmd.open_config ≡ ok tt
      → cmd.read_config ≡ ok tt
      → cmd.unmarshal_config ≡ ok cfg
      → validate cfg ≡ []
      → cfg.identity ≡ none
      → run P cmd h ≡ (panic "nil pointer dereference", h)
  unfolding run start create to_peer_conf
  run_panics cmd cfg h opened read unmarshalled valid absent =
      ground (arith, (validate_iff cfg).0 valid)

  -- The network and its versions are those that the protocol names.
  abbrev pub NamesNetwork : Config → Service → Type 0
  NamesNetwork cfg svc =
      ((cfg.protocol ≡ "fabric") × (svc.builder ≡ some fabric) × (svc.monotonic_versions ≡ false))
      ⊎ (((cfg.protocol ≡ "fabric-x") ⊎ (cfg.protocol ≡ ""))
          × (svc.builder ≡ some fabric_x)
          × (svc.monotonic_versions ≡ true))

  -- The service is one of the protocol's network, for the channel of the configuration.
  abbrev pub Starts : Config → Outcome Service × List Call → Type 0
  Starts cfg (ok svc, h') =
      (svc.channel ≡ cfg.channel_id)
      × (svc.executors ≡ ("mynamespace", execute P) ∷ [])
      × (svc.synchronizer ≡ svc.builder)
      × NamesNetwork cfg svc
  Starts cfg (err e, h') = Unit
  Starts cfg (panic why, h') = Unit

  new-Starts :
      (cfg : Config) (committer : PeerConf) (dir id : String) (h : List Call)
      → ((cfg.protocol ≡ "") ⊎ (cfg.protocol ≡ "fabric") ⊎ (cfg.protocol ≡ "fabric-x"))
      → Starts cfg (
          wrapping "failed to create service"
            (new P
              (record {
                channel_id = cfg.channel_id;
                protocol = cfg.protocol;
                committer = committer;
                db_conn_str = cfg.conn_str;
              })
              dir
              id
              (("mynamespace", execute P) ∷ []))
            h)
  unfolding new new_with_signer network_of
  new-Starts cfg committer dir id h known =
      ground (
        arith,
        eq_iff cfg.protocol "",
        eq_iff cfg.protocol "fabric",
        eq_iff cfg.protocol "fabric-x",
      )

  create-Starts :
      (cfg : Config) (h : List Call)
      → ((cfg.protocol ≡ "") ⊎ (cfg.protocol ≡ "fabric") ⊎ (cfg.protocol ≡ "fabric-x"))
      → Starts cfg (create P cfg h)
  unfolding create to_peer_conf
  create-Starts cfg h known = by_settings (to_peer_conf cfg.committer) cfg.identity
    where
      by_settings :
          (r : Outcome PeerConf) (i : Option IdentityConfig)
          → Starts cfg (
              (peek (λ (_ : List Call). r) >>= λ committer. need i >>= λ identity.
              wrapping "failed to create service" (
                new P
                  (record {
                    channel_id = cfg.channel_id;
                    protocol = cfg.protocol;
                    committer = committer;
                    db_conn_str = cfg.conn_str;
                  })
                  identity.msp_dir
                  identity.msp_id
                  (("mynamespace", execute P) ∷ [])))
                h)
      by_settings (ok committer) (some identity) =
          new-Starts cfg committer identity.msp_dir identity.msp_id h known
      by_settings (ok committer) none = tt
      by_settings (err e) i = tt
      by_settings (panic why) i = tt

  override-Starts :
      (cfg : Config) (level : Option String) (r : Outcome Service × List Call)
      → Starts (override level cfg) r
      → Starts cfg r
  override-Starts cfg none r t = t
  override-Starts cfg (some level) (ok svc, h') t = t
  override-Starts cfg (some level) (err e, h') t = tt
  override-Starts cfg (some level) (panic why, h') t = tt

  known_protocol :
      (cfg : Config) (level : Option String)
      → ((cfg.protocol ≡ "") ⊎ (cfg.protocol ≡ "fabric") ⊎ (cfg.protocol ≡ "fabric-x"))
      → (((override level cfg).protocol ≡ "")
          ⊎ ((override level cfg).protocol ≡ "fabric")
          ⊎ ((override level cfg).protocol ≡ "fabric-x"))
  known_protocol cfg none known = known
  known_protocol cfg (some level) known = known

  checked-Starts :
      (cfg : Config) (level : Option String) (h : List Call) (errors : List String)
      → validate cfg ≡ errors
      → Starts cfg ((check errors >> create P (override level cfg)) h)
  checked-Starts cfg level h [] valid = override-Starts cfg level _ (
      create-Starts (override level cfg) h
        (known_protocol cfg level ((validate_iff cfg).0 valid).2))
  checked-Starts cfg level h (text ∷ texts) invalid = tt

  -- A service that the program starts from a configuration has its channel, the sample executor for
  -- "mynamespace" alone, and the builder and the synchronizer of the network that its protocol names,
  -- Fabric-X if it names none; versions are monotonic exactly for Fabric-X.
  pub start-Starts :
      (cmd : Command) (cfg : Config) (h : List Call)
      → cmd.unmarshal_config ≡ ok cfg
      → Starts cfg (start P cmd h)
  unfolding start
  start-Starts cmd cfg h unmarshalled =
      subst
        (λ (m : Outcome Config). Starts cfg (
          (wrapping "failed to open config" (peek (λ (_ : List Call). cmd.open_config))
              >> (wrapping "failed to read config" (peek (λ (_ : List Call). cmd.read_config))
                  >> (wrapping "invalid config" (peek (λ (_ : List Call). m)) >>= λ cfg.
                      check (validate cfg) >> create P (override cmd.log_level cfg))))
            h))
        (sym unmarshalled) (by_file cmd.open_config cmd.read_config)
    where
      by_file :
          (opened read : Outcome (Unit {0}))
          → Starts cfg (
              (wrapping "failed to open config" (peek (λ (_ : List Call). opened))
                  >> (wrapping "failed to read config" (peek (λ (_ : List Call). read))
                      >> (check (validate cfg) >> create P (override cmd.log_level cfg))))
                h)
      by_file (ok _) (ok _) = checked-Starts cfg cmd.log_level h (validate cfg) refl
      by_file (ok _) (err e) = tt
      by_file (ok _) (panic why) = tt
      by_file (err e) read = tt
      by_file (panic why) read = tt
