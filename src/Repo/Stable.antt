-- ===== src/Repo/Stable.antt =====
-- The repository's functions keep every stable property.
use asio_ipfs.Base.{
  ◌>>=◌, String, Bool, true, false, Option, none, some, Result, good, bad, refl, str_eq,
  keeps_rules, Keeps-bind, Keeps-pure, Keeps-fail, Keeps-check, Keeps-if, Keeps,
}
use asio_ipfs.Config.{AsioConfig, Config, Handle}
use asio_ipfs.World.{Libraries, IoError, IoKind, not_exist, permission_denied, other_kind}
use asio_ipfs.System.{System}
use asio_ipfs.System.Stable.{Stable, Keeps-perform}
use asio_ipfs.Repo.{
  form_repo_path, check_io, config_unlocked, write_swarm_key, update_repo, try_create, unstatable,
  check_found, check_writable, apply_profile, refuse_existing, init_repo, store_config, open_repo,
}

module _ {W : Type 0} (x : Libraries W) {P : System W → Type 0} (stable : Stable P) where
  Keeps-check_io : {A : Type 0} (r : Result IoError A) → Keeps P (check_io r)
  unfolding check_io
  Keeps-check_io (good a) = search keeps_rules
  Keeps-check_io (bad e) = search keeps_rules

  Keeps-write_swarm_key : (spath key : String) → Keeps P (write_swarm_key x spath key)
  unfolding write_swarm_key ◌>>=◌
  Keeps-write_swarm_key spath key = Keeps-bind (Keeps-perform stable.called x _ refl) λ created.
      Keeps-bind (Keeps-check_io created) λ f.
        Keeps-bind (Keeps-perform stable.called x _ refl) λ written.
          Keeps-bind (Keeps-perform stable.called x _ refl) λ closed. Keeps-check_io written

  pub Keeps-update_repo :
      (repo_root : String) (acfg : AsioConfig) → Keeps P (update_repo x repo_root acfg)
  unfolding update_repo ◌>>=◌
  Keeps-update_repo repo_root acfg =
      Keeps-if (str_eq acfg.swarm_key "") (Keeps-pure tt)
        (Keeps-write_swarm_key (form_repo_path x repo_root "swarm.key") acfg.swarm_key)

  Keeps-config_unlocked : (repo_root : String) → Keeps P (config_unlocked x repo_root)
  unfolding config_unlocked ◌>>=◌
  Keeps-config_unlocked repo_root =
      Keeps-bind (Keeps-perform stable.called x _ refl) λ r. Keeps-pure _

  Keeps-try_create :
      (dir testfile : String) (r : Result IoError Handle) → Keeps P (try_create x dir testfile r)
  unfolding try_create ◌>>=◌
  Keeps-try_create dir testfile (bad e) = Keeps-fail _
  Keeps-try_create dir testfile (good fi) =
      Keeps-bind (Keeps-perform stable.called x _ refl) λ closed.
        Keeps-bind (Keeps-perform stable.called x _ refl) λ removed. Keeps-check_io removed

  Keeps-unstatable : (dir : String) (e : IoError) (k : IoKind) → Keeps P (unstatable x dir e k)
  unfolding unstatable ◌>>=◌
  Keeps-unstatable dir e not_exist =
      Keeps-bind (Keeps-perform stable.called x _ refl) λ made. Keeps-check_io made
  Keeps-unstatable dir e permission_denied = Keeps-fail _
  Keeps-unstatable dir e other_kind = Keeps-fail _

  Keeps-check_found : (dir : String) (r : Option IoError) → Keeps P (check_found x dir r)
  unfolding check_found ◌>>=◌
  Keeps-check_found dir none =
      Keeps-bind (Keeps-perform stable.called x _ refl) λ created. Keeps-try_create dir _ created
  Keeps-check_found dir (some e) = Keeps-unstatable dir e e.kind

  Keeps-check_writable : (dir : String) → Keeps P (check_writable x dir)
  unfolding check_writable ◌>>=◌
  Keeps-check_writable dir =
      Keeps-bind (Keeps-perform stable.called x _ refl) λ r. Keeps-check_found dir r

  Keeps-apply_profile : (profile : String) (conf : Config) → Keeps P (apply_profile x profile conf)
  unfolding apply_profile ◌>>=◌
  Keeps-apply_profile profile conf = Keeps-if (str_eq profile "") (Keeps-pure conf) (
      Keeps-if (x.has_profile profile)
        (Keeps-bind (Keeps-perform stable.called x _ refl) λ r. Keeps-check r) (Keeps-fail _))

  Keeps-refuse_existing : (repo_root : String) (b : Bool) → Keeps P (refuse_existing x repo_root b)
  unfolding refuse_existing ◌>>=◌
  Keeps-refuse_existing repo_root true = Keeps-fail _
  Keeps-refuse_existing repo_root false = Keeps-pure tt

  pub Keeps-init_repo :
      (repo_root : String) (asiocfg : AsioConfig) → Keeps P (init_repo x repo_root asiocfg)
  unfolding init_repo ◌>>=◌
  Keeps-init_repo repo_root asiocfg =
      Keeps-bind (Keeps-bind (Keeps-perform stable.called x _ refl) Keeps-check) λ identity.
        Keeps-bind (Keeps-bind (Keeps-perform stable.called x _ refl) Keeps-check) λ conf.
          Keeps-bind (Keeps-check_writable repo_root) λ _.
            Keeps-bind (Keeps-perform stable.called x _ refl) λ initialized.
              Keeps-bind (Keeps-refuse_existing repo_root initialized) λ _.
                Keeps-bind (Keeps-apply_profile asiocfg.default_profile conf) λ profiled.
                  Keeps-bind (Keeps-check _) λ updated.
                    Keeps-bind (Keeps-bind (Keeps-perform stable.called x _ refl) Keeps-check)
                      λ _. Keeps-update_repo repo_root asiocfg

  Keeps-store_config :
      (repo_root : String) (asiocfg : AsioConfig) (repo : Handle) (conf : Config) (b : Bool)
      → Keeps P (store_config x repo_root asiocfg repo conf b)
  unfolding store_config ◌>>=◌
  Keeps-store_config repo_root asiocfg repo conf false = Keeps-pure repo
  Keeps-store_config repo_root asiocfg repo conf true = Keeps-bind (Keeps-check _) λ updated.
      Keeps-bind (Keeps-bind (Keeps-perform stable.called x _ refl) Keeps-check)
        λ _. Keeps-bind (Keeps-update_repo repo_root asiocfg) λ _. Keeps-pure repo

  pub Keeps-open_repo :
      (repo_root : String) (asiocfg : AsioConfig) → Keeps P (open_repo x repo_root asiocfg)
  unfolding open_repo ◌>>=◌
  Keeps-open_repo repo_root asiocfg =
      Keeps-bind (Keeps-bind (Keeps-perform stable.called x _ refl) Keeps-check) λ repo.
        Keeps-bind (Keeps-bind (Keeps-perform stable.called x _ refl) Keeps-check) λ conf.
          Keeps-bind (Keeps-bind (Keeps-perform stable.called x _ refl) Keeps-check) λ clone.
            Keeps-bind (Keeps-config_unlocked repo_root)
              λ unlocked. Keeps-store_config repo_root asiocfg repo clone unlocked
