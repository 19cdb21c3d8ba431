-- ===== src/Repo.antt =====
-- src/ipfs_bindings/ipfs_repo.go, and `formRepoPath`, `configUnlocked` and `updateRepo` of
-- ipfs_config.go: the repository on disk. The calls go to the libraries and to the operating system.
pub mod Stable
pub mod Writes
pub mod Stored
pub mod Files
use asio_ipfs.Base.{
  String, ◌<>◌, str_eq, Bool, true, false, Option, none, some, Result, good, bad, ◌>>=◌, ◌>>◌, pure,
  fail, check, if◌then◌else◌,
}
use asio_ipfs.Config.{AsioConfig, Config, Handle, update_config}
use asio_ipfs.World
use asio_ipfs.World.{Libraries, IoError, IoKind, not_exist, permission_denied, other_kind}
use asio_ipfs.System.{Fallible, perform}

-- An error of the operating system, passed on as it is.
unfoldable pub check_io : {W A : Type 0} → Result IoError A → Fallible W A
check_io (good a) = pure a
check_io (bad e) = fail e.message

-- `errors.Is(err, os.ErrNotExist)`
unfoldable pub is_not_exist : IoKind → Bool
is_not_exist not_exist = true
is_not_exist _ = false

-- Whether `os.Stat` finds that there is no such file. Any other error counts as a file.
unfoldable pub is_missing : Option IoError → Bool
is_missing none = false
is_missing (some e) = is_not_exist e.kind

module _ {W : Type 0} (x : Libraries W) where
  unfoldable pub form_repo_path : String → String → String
  form_repo_path repo_root fname = x.join (x.clean repo_root) fname

  unfoldable pub config_unlocked : String → Fallible W Bool
  config_unlocked repo_root = do
    r ← perform x (World.Op.stat (form_repo_path repo_root "config.lock"))
    pure (is_missing r)

  -- `defer f.Close()` closes the file after the write, whether or not that failed.
  unfoldable pub write_swarm_key : String → String → Fallible W (Unit {0})
  write_swarm_key spath key = do
    created ← perform x (World.Op.create spath)
    f ← check_io created
    written ← perform x (World.Op.write_string f key)
    perform x (World.Op.close_file f)
    check_io written

  unfoldable pub update_repo : String → AsioConfig → Fallible W (Unit {0})
  update_repo repo_root acfg =
      if str_eq acfg.swarm_key ""
      then pure tt
      else write_swarm_key (form_repo_path repo_root "swarm.key") acfg.swarm_key

  unfoldable pub not_writable : String → IoError → String
  not_writable dir e = elim e.kind [
    | permission_denied ↦ dir <> " is not writeable by the current user"
    | _ ↦ "unexpected error while checking writeablility of repo root: " <> e.message
  ]

  -- The test file is created, closed and removed again.
  unfoldable pub try_create : String → String → Result IoError Handle → Fallible W (Unit {0})
  try_create dir testfile (bad e) = fail (not_writable dir e)
  try_create dir testfile (good fi) = do
    perform x (World.Op.close_file fi)
    removed ← perform x (World.Op.remove testfile)
    check_io removed

  unfoldable pub unstatable : String → IoError → IoKind → Fallible W (Unit {0})
  unstatable dir e not_exist = do made ← perform x (World.Op.mkdir dir 0o775); check_io made
  unstatable dir e permission_denied =
      fail ("cannot write to " <> e.message <> ", incorrect permissions")
  unstatable dir e other_kind = fail e.message

  unfoldable pub check_found : String → Option IoError → Fallible W (Unit {0})
  check_found dir none = do
    created ← perform x (World.Op.create (x.join dir "test"))
    try_create dir (x.join dir "test") created
  check_found dir (some e) = unstatable dir e e.kind

  unfoldable pub check_writable : String → Fallible W (Unit {0})
  check_writable dir = do r ← perform x (World.Op.stat dir); check_found dir r

  -- `config.Profiles` is asked first whether it knows the profile.
  unfoldable pub apply_profile : String → Config → Fallible W Config
  apply_profile profile conf =
      if str_eq profile ""
      then pure conf
      else if x.has_profile profile
      then (perform x (World.Op.transform profile conf) >>= check)
      else fail "Unable to find default server profile."

  unfoldable pub refuse_existing : String → Bool → Fallible W (Unit {0})
  refuse_existing repo_root true = fail ("Repo already exists at " <> repo_root)
  refuse_existing repo_root false = pure tt

  unfoldable pub init_repo : String → AsioConfig → Fallible W (Unit {0})
  init_repo repo_root asiocfg = do
    identity ← perform x World.Op.create_identity >>= check
    conf ← perform x (World.Op.init_with_identity identity) >>= check
    check_writable repo_root
    initialized ← perform x (World.Op.is_initialized repo_root)
    refuse_existing repo_root initialized
    profiled ← apply_profile asiocfg.default_profile conf
    updated ← check (update_config x.parsers profiled asiocfg)
    perform x (World.Op.init_repo repo_root updated) >>= check
    update_repo repo_root asiocfg

  -- The configuration is written back unless it is locked.
  unfoldable pub store_config : String → AsioConfig → Handle → Config → Bool → Fallible W Handle
  store_config repo_root asiocfg repo conf false = pure repo
  store_config repo_root asiocfg repo conf true = do
    updated ← check (update_config x.parsers conf asiocfg)
    perform x (World.Op.set_config repo updated) >>= check
    update_repo repo_root asiocfg
    pure repo

  unfoldable pub open_repo : String → AsioConfig → Fallible W Handle
  open_repo repo_root asiocfg = do
    repo ← perform x (World.Op.open_repo repo_root) >>= check
    conf ← perform x (World.Op.repo_config repo) >>= check
    clone ← perform x (World.Op.clone_config conf) >>= check
    unlocked ← config_unlocked repo_root
    store_config repo_root asiocfg repo clone unlocked
