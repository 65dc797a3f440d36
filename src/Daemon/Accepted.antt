-- ===== src/Daemon/Accepted.antt =====
-- internal/daemon/config.go: what a configuration that is loaded gives the parts of the process.
use watchd.Base.{
  ℕ, ◌≡◌, refl, Bool, true, false, not, ◌||◌, List, [], ◌∷◌, Option, none, some, Text, codes,
  text_eq, text_eq_refl, Result, ok, err, require, or_err, is_empty, bind_ok, require-ok, or_err-ok,
  ok-injective, sym, Bool-cases, inl, inr, arith, subst,
}
use watchd.Cdc.Failure.{Failure}
use watchd.Cdc.Config.{ReaderConfig, FloatOrder, accepted_config}
use watchd.Server.{Server, new_server}
use watchd.Watch.Registry.{Watcher, Projection}
use watchd.Watch.Serve.{new_hub, projections_of, assemble}
use watchd.Daemon.Config.{
  Config, invalid_config, ProjectionConfig, Codec, specs_of, hub_config, reader_config,
  server_config, configured, validate_specs, validate_ops, validate, is_negative, complete,
  projection_specs, parse_json_config, parse_yaml_config, parse_config, load_config,
}

abbrev pub is_none {ℓ} : {A : Type ℓ} → Option A → Bool
is_none none = true
is_none (some a) = false

-- A projection whose name is empty.
unfoldable pub has_unnamed : List (Text × ProjectionConfig) → Bool
has_unnamed [] = false
has_unnamed ((name, projection) ∷ rest) = is_empty name || has_unnamed rest

projections-named :
    (source_id : Text) (ps : List (Text × ProjectionConfig))
    → is_none (projections_of source_id (specs_of source_id ps)) ≡ has_unnamed ps
unfolding projections_of specs_of has_unnamed
projections-named source_id [] = refl
projections-named source_id ((name, p) ∷ rest) =
    rw (text_eq_refl source_id) (ground (arith, projections-named source_id rest))

specs-empty :
    (source_id : Text) (ps : List (Text × ProjectionConfig))
    → is_empty (specs_of source_id ps) ≡ is_empty ps
unfolding specs_of
specs-empty source_id [] = refl
specs-empty source_id (p ∷ rest) = refl

server_named :
    (source_id : Text) (s : Server)
    → new_server (server_config source_id) ≡ some s
    → is_empty source_id ≡ false
unfolding new_server
server_named source_id s e = ground arith

configured-ok {ℓ} :
    {A : Type ℓ} (r : Result Failure A) (u : Unit {0}) → configured r ≡ ok u → (a : A) × (r ≡ ok a)
configured-ok (ok a) u e = (a, refl)
configured-ok (err x) u e = absurd (cc)

nonempty {ℓ} : {A : Type ℓ} (xs : List A) → not (is_empty xs) ≡ true → is_empty xs ≡ false
nonempty [] e = absurd (cc)
nonempty (x ∷ xs) e = refl

module _ {F : Type 0} (f : FloatOrder F) (memory : ℕ → Watcher) where
  -- The parts that `Serve` builds from the configuration: the reader accepts its part, the server is
  -- made, and so is the hub, but where a projection has no name.
  abbrev pub Startable : Config F → Type 0
  Startable c =
      ((c' : ReaderConfig F) × (accepted_config f (reader_config f c) true ≡ ok c'))
      × ((s : Server) × (new_server (server_config c.source_id) ≡ some s))
      × (is_none (new_hub memory (hub_config f c)) ≡ has_unnamed c.projections)

  hub_made :
      (c : Config F)
      → is_empty c.source_id ≡ false
      → is_empty c.projections ≡ false
      → is_none (new_hub memory (hub_config f c)) ≡ has_unnamed c.projections
  unfolding new_hub hub_config
  hub_made c named some_projections =
      rw
        (
          named,
          specs-empty c.source_id c.projections,
          some_projections,
          sym (projections-named c.source_id c.projections),
        )
        (go (projections_of c.source_id (specs_of c.source_id c.projections)))
    where
      go :
          (o : Option (List (Text × Projection)))
          → is_none (assemble memory c.source_id (some 10_000) (some 1024) o) ≡ is_none o
      go none = refl
      go (some ps) = refl

  validate-Startable : (c : Config F) (u : Unit {0}) → validate f c ≡ ok u → Startable c
  unfolding validate
  validate-Startable c u e =
      let url = bind_ok (require (not (is_empty c.database_url)) invalid_config) _ u e in
      let address = bind_ok (require (not (is_empty c.listen_address)) invalid_config) _ u url.2 in
      let projections =
        bind_ok (require (not (is_empty c.projections)) invalid_config) _ u address.2 in
      let timeout =
        bind_ok (require (not (is_negative c.shutdown_timeout)) invalid_config) _ u projections.2 in
      let ops = bind_ok (validate_ops c.ops) _ u timeout.2 in
      let reader = bind_ok (configured (accepted_config f (reader_config f c) true)) _ u ops.2 in
      let specs = bind_ok (validate_specs (projection_specs f c)) _ u reader.2 in
      let server =
        bind_ok (or_err (new_server (server_config c.source_id)) invalid_config) _ u specs.2 in
      let made = or_err-ok _ _ server.0 server.1 in
      (
        configured-ok _ reader.0 reader.1,
        (server.0, made),
        hub_made c (server_named c.source_id server.0 made)
            (nonempty c.projections (require-ok _ _ projections.0 projections.1)),
      )

  parse_json-Startable :
      (codec : Codec f) (url : Text) (file : Option Text) (c : Config F)
      → parse_json_config f codec url file ≡ ok c
      → Startable c
  unfolding parse_json_config
  parse_json-Startable codec url file c e =
      let text = bind_ok (or_err file invalid_config) _ c e in
      let converted =
        bind_ok (or_err (codec.yaml_to_json_strict text.0) invalid_config) _ c text.2 in
      let decoded = bind_ok (or_err (codec.decode text.0) invalid_config) _ c converted.2 in
      let more = bind_ok (require (not (codec.more text.0)) invalid_config) _ c decoded.2 in
      let valid = bind_ok (validate f (complete f codec url decoded.0)) _ c more.2 in
      subst Startable (ok-injective valid.2)
        (validate-Startable (complete f codec url decoded.0) valid.0 valid.1)

  parse_yaml-Startable :
      (codec : Codec f) (url : Text) (file : Option Text) (c : Config F)
      → parse_yaml_config f codec url file ≡ ok c
      → Startable c
  unfolding parse_yaml_config
  parse_yaml-Startable codec url file c e =
      let text = bind_ok (or_err file invalid_config) _ c e in
      let converted =
        bind_ok (or_err (codec.yaml_to_json_strict text.0) invalid_config) _ c text.2 in
      parse_json-Startable codec url (some converted.0) c converted.2

  parse_config-Startable :
      (codec : Codec f) (url ext : Text) (file : Option Text) (c : Config F)
      → parse_config f codec url ext file ≡ ok c
      → Startable c
  unfolding parse_config
  parse_config-Startable codec url ext file c e = elim (Bool-cases (text_eq ext (codes ".json"))) [
    | inl json ↦ parse_json-Startable codec url file c (rw json at e)
    | inr other ↦ elim (Bool-cases (text_eq ext (codes ".yaml") || text_eq ext (codes ".yml"))) [
      | inl yaml ↦ parse_yaml-Startable codec url file c (rw (other, yaml) at e)
      | inr unknown ↦ absurd (let h = rw (other, unknown) at e in cc)
    ]
  ]

  -- From a configuration that is loaded, whatever the file's format, `Serve` builds its parts: the
  -- reader goes on with its part of it, the server is made, and the hub is made exactly where every
  -- projection has a name, which the checks of the configuration do not look at.
  pub load_config-Startable :
      (codec : Codec f) (url path : Text) (file : Option (Option Text)) (c : Config F)
      → load_config f codec url path file ≡ ok c
      → Startable c
  unfolding load_config
  load_config-Startable codec url path none c e = absurd (cc)
  load_config-Startable codec url path (some file) c e = parse_config-Startable codec url _ file c e
