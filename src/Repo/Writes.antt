-- ===== src/Repo/Writes.antt =====
-- Opening the repository while its configuration is locked.
use asio_ipfs.Base.{
  ◌≡◌, refl, String, Bool, true, false, Option, List, [], ◌∷◌, ◌>>=◌, Ends, Keeps-bind, Keeps-check,
  Ensures, Ensures-bind, Ensures-after, if◌then◌else◌,
}
use asio_ipfs.Config.{AsioConfig, Config, Handle}
use asio_ipfs.World
use asio_ipfs.World.{Op, Reply, Call, Libraries, IoError}
use asio_ipfs.System.{System, perform}
use asio_ipfs.System.Stable.{Keeps-call}
use asio_ipfs.Repo.{form_repo_path, config_unlocked, is_missing, store_config, open_repo}

-- The calls that change what is on the disk.
abbrev pub is_write : Op → Bool
is_write (World.Op.create _) = true
is_write (World.Op.remove _) = true
is_write (World.Op.mkdir _ _) = true
is_write (World.Op.write_string _ _) = true
is_write (World.Op.set_config _ _) = true
is_write (World.Op.init_repo _ _) = true
is_write op = false

abbrev pub writes : List Call → List Op
writes [] = []
writes ((op, r) ∷ t) = let ws = writes t in if is_write op then op ∷ ws else ws

module _ {W : Type 0} (x : Libraries W) where
  abbrev pub IsUnwritten : List Op → System W → Type 0
  IsUnwritten ws s = writes s.trace ≡ ws

  abbrev pub lock_of : String → Op
  lock_of repo_root = World.Op.stat (form_repo_path x repo_root "config.lock")

  pub Ensures-config_unlocked :
      (b : Bool) (repo_root : String) (P : System W → Type 0)
      → ((w : W) → is_missing (x.answer (lock_of repo_root) w).0 ≡ b)
      → ((s : System W) (r : Option IoError) (w : W)
          → P s
          → P (record s { world = w; trace = (lock_of repo_root, r) ∷ s.trace }))
      → Ensures P (config_unlocked x repo_root) (λ u s. (u ≡ b) × P s) P
  unfolding config_unlocked perform ◌>>=◌
  Ensures-config_unlocked b repo_root P lock kept = record {
    at = λ s k. (lock s.world, kept s _ _ k);
  }

  locked_lem :
      (ws : List Op) (repo_root : String) (asiocfg : AsioConfig) (repo : Handle) (conf : Config)
      (u : Bool)
      → Ensures
          (λ s. (u ≡ false) × IsUnwritten ws s)
          (store_config x repo_root asiocfg repo conf u)
          (λ _. IsUnwritten ws)
          (IsUnwritten ws)
  unfolding store_config
  locked_lem ws repo_root asiocfg repo conf false = record { at = λ s k. k.1 }
  locked_lem ws repo_root asiocfg repo conf true = record { at = λ s k. absurd (cc) }

  -- While `config.lock` is there, opening the repository writes nothing: no file, no directory and
  -- no configuration, whether it returns the repository or fails.
  pub open_repo_locked :
      (s : System W) (repo_root : String) (asiocfg : AsioConfig)
      → ((w : W) → is_missing (x.answer (lock_of repo_root) w).0 ≡ false)
      → Ends
          (λ repo t. writes t.trace ≡ writes s.trace)
          (λ t. writes t.trace ≡ writes s.trace)
          (open_repo x repo_root asiocfg s)
  unfolding open_repo ◌>>=◌
  open_repo_locked s repo_root asiocfg lock =
      (Ensures-after (Keeps-bind (Keeps-call x _ λ t r w k. k) Keeps-check) λ repo.
          Ensures-after (Keeps-bind (Keeps-call x _ λ t r w k. k) Keeps-check) λ conf.
            Ensures-after (Keeps-bind (Keeps-call x _ λ t r w k. k) Keeps-check) λ clone.
              Ensures-bind (λ u t. (u ≡ false) × IsUnwritten (writes s.trace) t)
                (Ensures-config_unlocked false repo_root (IsUnwritten (writes s.trace)) lock
                  (λ t r w k. k))
                λ u. locked_lem (writes s.trace) repo_root asiocfg repo clone u).at
        s refl
