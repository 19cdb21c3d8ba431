-- ===== src/Repo/Stored.antt =====
-- Opening the repository while its configuration is not locked.
use asio_ipfs.Base.{
  ◌≡◌, refl, inl, inr, ◌≢◌, String, str_eq, eq_iff, Bool, true, false, Bool-cases, ◌∷◌, Result,
  good, bad, ◌>>=◌, check, Ends, Ensures, Ensures-bind, Ensures-weaken,
}
use asio_ipfs.Config.{AsioConfig, Config, Handle, update_config}
use asio_ipfs.Config.Ports.Laws.{IfGood}
use asio_ipfs.Config.Laws.{IsUpdated, update_config_good}
use asio_ipfs.World
use asio_ipfs.World.{IsMade, Op, Reply, Call, Libraries, IoError}
use asio_ipfs.System.{System, Fallible, perform}
use asio_ipfs.Repo.{
  form_repo_path, is_missing, check_io, write_swarm_key, update_repo, store_config, open_repo,
}
use asio_ipfs.Repo.Writes.{lock_of, Ensures-config_unlocked}

module _ {W : Type 0} (x : Libraries W) where
  Ensures-call :
      {P T : System W → Type 0} {E : Type 0} (op : Op) (R : Reply op → System W → Type 0)
      → ((s : System W) (r : Reply op) (w : W)
          → P s
          → R r (record s { world = w; trace = (op, r) ∷ s.trace }))
      → Ensures P (perform x {E = E} op) R T
  unfolding perform
  Ensures-call op R h = record { at = λ s k. h s _ _ k }

  -- The caller's swarm key, if there is one, was written without an error to the file that was
  -- created as `swarm.key` in the repository.
  abbrev pub IsKeyWritten : String → String → System W → Type 0
  IsKeyWritten repo_root key s =
      (key ≢ "")
      → (f : Handle) × IsMade (World.Op.create (x.join (x.clean repo_root) "swarm.key")) (good f)
          s.trace
        × IsMade (World.Op.write_string f key) (good tt) s.trace

  -- The repository was opened as `repo`, and `conf` is the clone of its configuration.
  abbrev pub IsOpened : String → Handle → Config → System W → Type 0
  IsOpened repo_root repo conf s =
      IsMade (World.Op.open_repo repo_root) (good repo) s.trace
      × (cfg : Config) × IsMade (World.Op.repo_config repo) (good cfg) s.trace
      × IsMade (World.Op.clone_config cfg) (good conf) s.trace

  -- The configuration of the repository was set, without an error, to an update of the clone of
  -- what it was.
  abbrev pub IsStored : String → AsioConfig → Handle → System W → Type 0
  IsStored repo_root asiocfg repo s =
      (conf : Config) × (updated : Config) × IsOpened repo_root repo conf s
      × IsUpdated x.parsers conf asiocfg updated
      × IsMade (World.Op.set_config repo updated) (good tt) s.trace

  -- `P` is kept by every call of a library.
  abbrev Grows : (System W → Type 0) → Type 0
  Grows P =
      (s : System W) (op : Op) (r : Reply op) (w : W)
      → P s
      → P (record s { world = w; trace = (op, r) ∷ s.trace })

  IsOpened-Grows :
      (repo_root : String) (repo : Handle) (conf : Config) → Grows (IsOpened repo_root repo conf)
  IsOpened-Grows repo_root repo conf s op r w (h, cfg, k, l) = (inr h, cfg, inr k, inr l)

  IsStored-Grows :
      (repo_root : String) (asiocfg : AsioConfig) (repo : Handle)
      → Grows (IsStored repo_root asiocfg repo)
  IsStored-Grows repo_root asiocfg repo s op r w (conf, updated, h, k, l) =
      (conf, updated, IsOpened-Grows repo_root repo conf s op r w h, k, inr l)

  check_lem :
      {A : Type 0} (R : Result String A → System W → Type 0) (r : Result String A)
      → Ensures (R r) (check r) (λ a. R (good a)) (λ _. Unit)
  check_lem R (good a) = record { at = λ s h. h }
  check_lem R (bad e) = record { at = λ s h. tt }

  check_io_lem :
      {A : Type 0} (R : Result IoError A → System W → Type 0) (r : Result IoError A)
      → Ensures (R r) (check_io r) (λ a. R (good a)) (λ _. Unit)
  unfolding check_io
  check_io_lem R (good a) = record { at = λ s h. h }
  check_io_lem R (bad e) = record { at = λ s h. tt }

  -- What holds of a reply holds of the value that its check gives.
  checked :
      {A : Type 0} {P : System W → Type 0} {m : Fallible W (Result String A)}
      (R : Result String A → System W → Type 0)
      → Ensures P m R (λ _. Unit)
      → Ensures P (m >>= check) (λ a. R (good a)) (λ _. Unit)
  checked R h = Ensures-bind R h λ r. check_lem R r

  written_lem :
      (P : System W → Type 0) (repo_root key : String) (f : Handle) (r : Result IoError (Unit {0}))
      → Ensures
          (λ s.
            P s
            × IsMade (World.Op.create (x.join (x.clean repo_root) "swarm.key")) (good f) s.trace
            × IsMade (World.Op.write_string f key) r s.trace)
          (check_io r)
          (λ u s. P s × IsKeyWritten repo_root key s)
          (λ _. Unit)
  unfolding check_io
  written_lem P repo_root key f (good u) = record { at = λ s (k, c, m). (k, λ some_key. (f, c, m)) }
  written_lem P repo_root key f (bad e) = record { at = λ s k. tt }

  Ensures-write_swarm_key :
      (P : System W → Type 0) (repo_root key : String)
      → Grows P
      → Ensures P
          (write_swarm_key x (form_repo_path x repo_root "swarm.key") key)
          (λ u s. P s × IsKeyWritten repo_root key s)
          (λ _. Unit)
  unfolding write_swarm_key form_repo_path ◌>>=◌
  Ensures-write_swarm_key P repo_root key grows =
      let create = World.Op.create (x.join (x.clean repo_root) "swarm.key") in
      Ensures-bind (λ r s. P s × IsMade create r s.trace)
        (Ensures-call create _ λ s r w h. (grows s create r w h, inl refl))
        λ created.
          Ensures-bind (λ f s. P s × IsMade create (good f) s.trace)
            (check_io_lem (λ r s. P s × IsMade create r s.trace) created)
            λ f.
              let write = World.Op.write_string f key in
              Ensures-bind (λ r s. P s × IsMade create (good f) s.trace × IsMade write r s.trace)
                (Ensures-call write _ λ s r w (h, k). (grows s write r w h, inr k, inl refl))
                λ written.
                  Ensures-bind
                    (λ u s. P s × IsMade create (good f) s.trace × IsMade write written s.trace)
                    (Ensures-call (World.Op.close_file f) _
                      λ s r w (h, k, l). (grows s (World.Op.close_file f) r w h, inr k, inr l))
                    λ u. written_lem P repo_root key f written

  Ensures-update_repo :
      (P : System W → Type 0) (repo_root : String) (asiocfg : AsioConfig)
      → Grows P
      → Ensures P
          (update_repo x repo_root asiocfg)
          (λ u s. P s × IsKeyWritten repo_root asiocfg.swarm_key s)
          (λ _. Unit)
  unfolding update_repo
  Ensures-update_repo P repo_root asiocfg grows = elim (Bool-cases (str_eq asiocfg.swarm_key "")) [
    | inl none_given ↦ rw none_given (record {
      at = λ s k. (k, λ some_key. absurd (some_key ((eq_iff asiocfg.swarm_key "").0 none_given)));
    })
    | inr given ↦ rw given (Ensures-write_swarm_key P repo_root asiocfg.swarm_key grows)
  ]

  updated_lem :
      (P : System W → Type 0) (asiocfg : AsioConfig) (conf : Config) (r : Result String Config)
      → IfGood (IsUpdated x.parsers conf asiocfg) r
      → Ensures P
          (check r)
          (λ updated s. P s × IsUpdated x.parsers conf asiocfg updated)
          (λ _. Unit)
  updated_lem P asiocfg conf (good updated) h = record { at = λ s k. (k, h) }
  updated_lem P asiocfg conf (bad e) h = record { at = λ s k. tt }

  store_lem :
      (repo_root : String) (asiocfg : AsioConfig) (repo : Handle) (conf : Config) (u : Bool)
      → Ensures
          (λ s. (u ≡ true) × IsOpened repo_root repo conf s)
          (store_config x repo_root asiocfg repo conf u)
          (λ opened s.
            IsStored repo_root asiocfg opened s × IsKeyWritten repo_root asiocfg.swarm_key s)
          (λ _. Unit)
  unfolding store_config ◌>>=◌
  store_lem repo_root asiocfg repo conf false = record { at = λ s k. absurd (cc) }
  store_lem repo_root asiocfg repo conf true =
      Ensures-bind
        (λ updated s. IsOpened repo_root repo conf s × IsUpdated x.parsers conf asiocfg updated)
        (record {
          at = λ s (k, h).
              (updated_lem (IsOpened repo_root repo conf) asiocfg conf
                  (update_config x.parsers conf asiocfg)
                  (update_config_good x.parsers conf asiocfg)).at
                s h;
        })
        λ updated.
          let set = World.Op.set_config repo updated in
          Ensures-bind (λ u. IsStored repo_root asiocfg repo)
            (checked
              (λ r s.
                (c : Config) × (d : Config) × IsOpened repo_root repo c s
                × IsUpdated x.parsers c asiocfg d
                × IsMade (World.Op.set_config repo d) r s.trace)
              (Ensures-call set _ λ s r w (h, k).
                (conf, updated, IsOpened-Grows repo_root repo conf s set r w h, k, inl refl)))
            λ u.
              Ensures-bind
                (λ v s.
                  IsStored repo_root asiocfg repo s × IsKeyWritten repo_root asiocfg.swarm_key s)
                (Ensures-update_repo (IsStored repo_root asiocfg repo) repo_root asiocfg
                  (IsStored-Grows repo_root asiocfg repo))
                λ v. record { at = λ s k. k }

  Ensures-open_repo :
      (repo_root : String) (asiocfg : AsioConfig)
      → ((w : W) → is_missing (x.answer (lock_of x repo_root) w).0 ≡ true)
      → Ensures
          (λ t. Unit {0})
          (open_repo x repo_root asiocfg)
          (λ repo t. IsStored repo_root asiocfg repo t × IsKeyWritten repo_root asiocfg.swarm_key t)
          (λ t. Unit {0})
  unfolding open_repo ◌>>=◌
  Ensures-open_repo repo_root asiocfg lock =
      let opening = World.Op.open_repo repo_root in
      Ensures-bind (λ repo s. IsMade opening (good repo) s.trace)
        (checked (λ r s. IsMade opening r s.trace) (Ensures-call opening _ λ s r w h. inl refl))
        λ repo.
          let reading = World.Op.repo_config repo in
          Ensures-bind
            (λ cfg s. IsMade opening (good repo) s.trace × IsMade reading (good cfg) s.trace)
            (checked (λ r s. IsMade opening (good repo) s.trace × IsMade reading r s.trace)
              (Ensures-call reading _ λ s r w h. (inr h, inl refl)))
            λ cfg.
              Ensures-bind (λ conf. IsOpened repo_root repo conf)
                (checked
                  (λ r s.
                    IsMade opening (good repo) s.trace
                    × (c : Config) × IsMade reading (good c) s.trace
                    × IsMade (World.Op.clone_config c) r s.trace)
                  (Ensures-call (World.Op.clone_config cfg) _
                    λ s r w (h, k). (inr h, cfg, inr k, inl refl)))
                λ clone.
                  Ensures-bind (λ u s. (u ≡ true) × IsOpened repo_root repo clone s)
                    (Ensures-weaken (IsOpened repo_root repo clone) (λ s h. tt)
                      (Ensures-config_unlocked x true repo_root (IsOpened repo_root repo clone) lock
                        λ s r w h. IsOpened-Grows repo_root repo clone s _ r w h))
                    λ u. store_lem repo_root asiocfg repo clone u

  -- Without `config.lock`, a repository that is opened has had its configuration read, cloned and
  -- set, without an error, to what `updateConfig` with the caller's settings makes of it, and the
  -- caller's swarm key, if there is one, was written, without an error, to the file `swarm.key` of
  -- the repository.
  pub open_repo_unlocked :
      (s : System W) (repo_root : String) (asiocfg : AsioConfig)
      → ((w : W) → is_missing (x.answer (lock_of x repo_root) w).0 ≡ true)
      → Ends
          (λ repo t. IsStored repo_root asiocfg repo t × IsKeyWritten repo_root asiocfg.swarm_key t)
          (λ t. Unit)
          (open_repo x repo_root asiocfg s)
  open_repo_unlocked s repo_root asiocfg lock = (Ensures-open_repo repo_root asiocfg lock).at s tt
