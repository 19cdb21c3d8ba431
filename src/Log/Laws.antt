-- ===== src/Log/Laws.antt =====
-- What is logged after a redirection.
use asio_ipfs.Base.{
  ℕ, ◌+◌, ◌≡◌, refl, ◌≢◌, some, [], ◌∷◌, ◌++◌, arith, Bytes, length, length-append, ret, panicked,
  log_cb_nil, ==_refl,
}
use asio_ipfs.Log.{Logger, LogState, drop_last, go_asio_ipfs_redirect_logs, write}

drop_last-append : (line : Bytes) (c : ℕ) → drop_last (line ++ (c ∷ [])) ≡ some line
unfolding drop_last
drop_last-append [] c = refl
drop_last-append (b ∷ []) c = refl
drop_last-append (b ∷ d ∷ line) c = rw (drop_last-append (d ∷ line) c, drop_last) refl

-- After a redirection to a callback that is not nil, a line goes to that callback without its last
-- byte, and counts as written whole; the copy that was made for C is freed.
pub redirect_logs-write :
    (log_cb : ℕ) (l : Logger) (line : Bytes) (newline : ℕ) (s : LogState)
    → log_cb ≢ 0
    → write (go_asio_ipfs_redirect_logs log_cb l).output (line ++ (newline ∷ [])) s
      ≡ ret
          (length line + 1)
          (record s { calls = (log_cb, line) ∷ s.calls; next_ptr = s.next_ptr + 1 })
unfolding go_asio_ipfs_redirect_logs write
redirect_logs-write log_cb l line newline s h =
    ground
      (arith, drop_last-append line newline, length-append line (newline ∷ []), ==_refl s.next_ptr)

-- After a redirection to nil, which the source means to restore stderr, any write panics.
pub redirect_logs_nil_panics :
    (l : Logger) (bytes : Bytes) (s : LogState)
    → write (go_asio_ipfs_redirect_logs 0 l).output bytes s ≡ panicked log_cb_nil
unfolding go_asio_ipfs_redirect_logs write
redirect_logs_nil_panics l bytes s = refl
