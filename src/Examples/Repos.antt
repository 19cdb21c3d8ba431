-- ===== src/Examples/Repos.antt =====
-- The theorems on the repository at concrete data: one whose configuration is locked, and one whose
-- configuration is not.
use asio_ipfs.Base.{ℕ, ◌+◌, ◌≡◌, refl, some, Ends}
use asio_ipfs.Config.{AsioConfig}
use asio_ipfs.World.{Op, Reply, Libraries, not_exist}
use asio_ipfs.Repo.{is_missing, is_not_exist, init_repo, open_repo}
use asio_ipfs.Repo.Writes.{writes, open_repo_locked}
use asio_ipfs.Repo.Stored.{IsStored, IsKeyWritten, open_repo_unlocked}
use asio_ipfs.Repo.Files.{unclosed, repo_closes_files}
use asio_ipfs.Examples.{empty, settings}
use asio_ipfs.Examples.Starts.{listed, configured, configured_answers}

open_repo_locked_example :
    Ends
      (λ repo t. writes t.trace ≡ writes empty.trace)
      (λ t. writes t.trace ≡ writes empty.trace)
      (open_repo (configured listed) "/repo" settings empty)
unfolding is_missing
open_repo_locked_example = open_repo_locked (configured listed) empty "/repo" settings (λ w. refl)

-- There is no lock file, and the caller has a swarm key.
abbrev unlocked_answers : (op : Op) → ℕ → Reply op × ℕ
unlocked_answers (Op.stat path) w =
    (some (record { kind = not_exist; message = "no such file" }), w + 1)
unlocked_answers op w = configured_answers listed op w

abbrev unlocked : Libraries ℕ
unlocked = record (configured listed) { answer = unlocked_answers }

abbrev keyed : AsioConfig
keyed = record settings { swarm_key = "/key/swarm/psk/1.0.0/" }

open_repo_unlocked_example :
    Ends
      (λ repo t.
        IsStored unlocked "/repo" keyed repo t × IsKeyWritten unlocked "/repo" keyed.swarm_key t)
      (λ t. Unit)
      (open_repo unlocked "/repo" keyed empty)
unfolding is_missing is_not_exist
open_repo_unlocked_example = open_repo_unlocked unlocked empty "/repo" keyed (λ w. refl)

repo_closes_files_example :
    Ends
      (λ u t. unclosed t.trace ≡ unclosed empty.trace)
      (λ t. unclosed t.trace ≡ unclosed empty.trace)
      (init_repo unlocked "/repo" keyed empty)
    × Ends
        (λ repo t. unclosed t.trace ≡ unclosed empty.trace)
        (λ t. unclosed t.trace ≡ unclosed empty.trace)
        (open_repo unlocked "/repo" keyed empty)
repo_closes_files_example = repo_closes_files unlocked empty "/repo" keyed
