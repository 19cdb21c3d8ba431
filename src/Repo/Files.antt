-- ===== src/Repo/Files.antt =====
-- The files that the repository's functions open are closed.
use asio_ipfs.Base.{
  ◌≡◌, refl, String, str_eq, Bool, true, false, Option, none, some, List, [], ◌∷◌, remove, ==_refl,
  Result, good, bad, ◌>>=◌, Ends, Keeps, Keeps-bind, Keeps-pure, Keeps-fail, Keeps-check, Keeps-if,
}
use asio_ipfs.Config.{AsioConfig, Config, Handle}
use asio_ipfs.World
use asio_ipfs.World.{
  Op, Reply, Call, Libraries, IoError, IoKind, not_exist, permission_denied, other_kind,
}
use asio_ipfs.System.{System, perform}
use asio_ipfs.System.Stable.{Keeps-call}
use asio_ipfs.Repo.{
  check_io, config_unlocked, write_swarm_key, update_repo, try_create, unstatable, check_found,
  check_writable, apply_profile, refuse_existing, init_repo, store_config, open_repo,
}

-- The files that were created and not closed.
abbrev pub unclosed : List Call → List Handle
unclosed [] = []
unclosed ((World.Op.create path, good f) ∷ t) = f ∷ unclosed t
unclosed ((World.Op.close_file f, u) ∷ t) = remove f (unclosed t)
unclosed (c ∷ t) = unclosed t

module _ {W : Type 0} (x : Libraries W) (open_files : List Handle) where
  abbrev IsClosed : System W → Type 0
  IsClosed s = unclosed s.trace ≡ open_files

  closed_again : (f : Handle) (fs : List Handle) → fs ≡ open_files → remove f (f ∷ fs) ≡ open_files
  closed_again f fs h = rw (==_refl f) h

  check_io-Keeps : {A : Type 0} (r : Result IoError A) → Keeps IsClosed (check_io r)
  unfolding check_io
  check_io-Keeps (good a) = Keeps-pure a
  check_io-Keeps (bad e) = Keeps-fail e.message

  created_lem :
      (path key : String) (s : System W) (r : Result IoError Handle) (w : W)
      → IsClosed s
      → Ends
          (λ u. IsClosed)
          IsClosed
          ((check_io r >>= λ f. perform x (World.Op.write_string f key) >>= λ written.
              perform x (World.Op.close_file f) >>= λ u. check_io written)
            (record s { world = w; trace = (World.Op.create path, r) ∷ s.trace }))
  unfolding check_io perform ◌>>=◌
  created_lem path key s (bad e) w h = h
  created_lem path key s (good f) w h =
      (check_io-Keeps _).at _ (closed_again f (unclosed s.trace) h)

  Keeps-write_swarm_key : (spath key : String) → Keeps IsClosed (write_swarm_key x spath key)
  unfolding write_swarm_key perform ◌>>=◌
  Keeps-write_swarm_key spath key = record { at = λ s h. created_lem spath key s _ _ h }

  Keeps-update_repo :
      (repo_root : String) (acfg : AsioConfig) → Keeps IsClosed (update_repo x repo_root acfg)
  unfolding update_repo
  Keeps-update_repo repo_root acfg =
      Keeps-if (str_eq acfg.swarm_key "") (Keeps-pure tt) (Keeps-write_swarm_key _ acfg.swarm_key)

  tried_lem :
      (dir path : String) (s : System W) (r : Result IoError Handle) (w : W)
      → IsClosed s
      → Ends
          (λ u. IsClosed)
          IsClosed
          (try_create x dir path r
            (record s { world = w; trace = (World.Op.create path, r) ∷ s.trace }))
  unfolding try_create perform ◌>>=◌
  tried_lem dir path s (bad e) w h = h
  tried_lem dir path s (good f) w h = (check_io-Keeps _).at _ (closed_again f (unclosed s.trace) h)

  Keeps-unstatable :
      (dir : String) (e : IoError) (k : IoKind) → Keeps IsClosed (unstatable x dir e k)
  unfolding unstatable ◌>>=◌
  Keeps-unstatable dir e not_exist =
      Keeps-bind (Keeps-call x (World.Op.mkdir dir 0o775) λ s r w h. h) λ made. check_io-Keeps made
  Keeps-unstatable dir e permission_denied = Keeps-fail _
  Keeps-unstatable dir e other_kind = Keeps-fail _

  Keeps-check_found : (dir : String) (o : Option IoError) → Keeps IsClosed (check_found x dir o)
  unfolding check_found perform ◌>>=◌
  Keeps-check_found dir none = record { at = λ s h. tried_lem dir (x.join dir "test") s _ _ h }
  Keeps-check_found dir (some e) = Keeps-unstatable dir e e.kind

  Keeps-check_writable : (dir : String) → Keeps IsClosed (check_writable x dir)
  unfolding check_writable ◌>>=◌
  Keeps-check_writable dir =
      Keeps-bind (Keeps-call x (World.Op.stat dir) λ s r w h. h) λ r. Keeps-check_found dir r

  Keeps-apply_profile :
      (profile : String) (conf : Config) → Keeps IsClosed (apply_profile x profile conf)
  unfolding apply_profile ◌>>=◌
  Keeps-apply_profile profile conf = Keeps-if (str_eq profile "") (Keeps-pure conf) (
      Keeps-if (x.has_profile profile)
        (Keeps-bind (Keeps-call x (World.Op.transform profile conf) λ s r w h. h) Keeps-check)
        (Keeps-fail _))

  Keeps-refuse_existing :
      (repo_root : String) (b : Bool) → Keeps IsClosed (refuse_existing x repo_root b)
  unfolding refuse_existing
  Keeps-refuse_existing repo_root true = Keeps-fail _
  Keeps-refuse_existing repo_root false = Keeps-pure tt

  Keeps-init_repo :
      (repo_root : String) (asiocfg : AsioConfig) → Keeps IsClosed (init_repo x repo_root asiocfg)
  unfolding init_repo ◌>>=◌
  Keeps-init_repo repo_root asiocfg =
      Keeps-bind (Keeps-bind (Keeps-call x _ λ s r w h. h) Keeps-check) λ identity.
        Keeps-bind (Keeps-bind (Keeps-call x _ λ s r w h. h) Keeps-check) λ conf.
          Keeps-bind (Keeps-check_writable repo_root) λ u.
            Keeps-bind (Keeps-call x _ λ s r w h. h) λ initialized.
              Keeps-bind (Keeps-refuse_existing repo_root initialized) λ v.
                Keeps-bind (Keeps-apply_profile asiocfg.default_profile conf) λ profiled.
                  Keeps-bind (Keeps-check _) λ updated.
                    Keeps-bind (Keeps-bind (Keeps-call x _ λ s r w h. h) Keeps-check)
                      λ y. Keeps-update_repo repo_root asiocfg

  Keeps-store_config :
      (repo_root : String) (asiocfg : AsioConfig) (repo : Handle) (conf : Config) (b : Bool)
      → Keeps IsClosed (store_config x repo_root asiocfg repo conf b)
  unfolding store_config ◌>>=◌
  Keeps-store_config repo_root asiocfg repo conf false = Keeps-pure repo
  Keeps-store_config repo_root asiocfg repo conf true = Keeps-bind (Keeps-check _) λ updated.
      Keeps-bind (Keeps-bind (Keeps-call x _ λ s r w h. h) Keeps-check)
        λ u. Keeps-bind (Keeps-update_repo repo_root asiocfg) λ v. Keeps-pure repo

  Keeps-config_unlocked : (repo_root : String) → Keeps IsClosed (config_unlocked x repo_root)
  unfolding config_unlocked ◌>>=◌
  Keeps-config_unlocked repo_root = Keeps-bind (Keeps-call x _ λ s r w h. h) λ r. Keeps-pure _

  Keeps-open_repo :
      (repo_root : String) (asiocfg : AsioConfig) → Keeps IsClosed (open_repo x repo_root asiocfg)
  unfolding open_repo ◌>>=◌
  Keeps-open_repo repo_root asiocfg =
      Keeps-bind (Keeps-bind (Keeps-call x _ λ s r w h. h) Keeps-check) λ repo.
        Keeps-bind (Keeps-bind (Keeps-call x _ λ s r w h. h) Keeps-check) λ conf.
          Keeps-bind (Keeps-bind (Keeps-call x _ λ s r w h. h) Keeps-check) λ clone.
            Keeps-bind (Keeps-config_unlocked repo_root)
              λ unlocked. Keeps-store_config repo_root asiocfg repo clone unlocked

module _ {W : Type 0} (x : Libraries W) where
  -- Making a repository and opening one leave open no file that they have created, whether they
  -- return or fail, and at whichever step.
  pub repo_closes_files :
      (s : System W) (repo_root : String) (asiocfg : AsioConfig)
      → Ends
          (λ u t. unclosed t.trace ≡ unclosed s.trace)
          (λ t. unclosed t.trace ≡ unclosed s.trace)
          (init_repo x repo_root asiocfg s)
        × Ends
            (λ repo t. unclosed t.trace ≡ unclosed s.trace)
            (λ t. unclosed t.trace ≡ unclosed s.trace)
            (open_repo x repo_root asiocfg s)
  repo_closes_files s repo_root asiocfg = (
    (Keeps-init_repo x (unclosed s.trace) repo_root asiocfg).at s refl,
    (Keeps-open_repo x (unclosed s.trace) repo_root asiocfg).at s refl,
  )
