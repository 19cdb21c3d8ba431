-- ===== src/Http/Stable.antt =====
-- The servers keep every stable property.
use asio_ipfs.Base.{
  ℕ, refl, String, List, [], ◌∷◌, Bytes, is_empty, ◌>>=◌, Keeps, Keeps-bind, Keeps-pure,
  Keeps-check, Keeps-wrap, Keeps-if, Keeps-panic,
}
use asio_ipfs.Config.{AsioConfig, Handle}
use asio_ipfs.World.{Libraries, CommandContext}
use asio_ipfs.System.{System, ServeOption}
use asio_ipfs.System.Stable.{
  Allows, Stable, Keeps-perform, Keeps-load, Keeps-deref, Keeps-spawn, Keeps-make_chan,
}
use asio_ipfs.Start.Env.Stable.{Keeps-construct_node}
use asio_ipfs.Http.{
  Messages, spawn_servers, serve_all, first, listen_all, config_of, serve_api, maybe_serve_http_api,
  serve_gateway, maybe_serve_http_gateway,
}

module _ {W : Type 0} (x : Libraries W) {P : System W → Type 0} (called : Allows P) where
  pub Keeps-first : (ls : List Handle) → Keeps P (first {W = W} ls)
  unfolding first
  Keeps-first [] = Keeps-panic _
  Keeps-first (l ∷ ls) = Keeps-pure l

  pub Keeps-listen_all : (m : Messages) (addrs : List Bytes) → Keeps P (listen_all x m addrs)
  unfolding listen_all ◌>>=◌
  Keeps-listen_all m [] = Keeps-pure []
  Keeps-listen_all m (addr ∷ addrs) = Keeps-bind (Keeps-wrap _ (Keeps-check _)) λ maddr.
      Keeps-bind (Keeps-wrap _ (Keeps-bind (Keeps-perform called x _ refl) Keeps-check))
        λ lis. Keeps-bind (Keeps-listen_all m addrs) λ ls. Keeps-pure _

  pub Keeps-config_of : (what : String) (cctx : CommandContext) → Keeps P (config_of x what cctx)
  unfolding config_of ◌>>=◌
  Keeps-config_of what cctx = Keeps-wrap _ (Keeps-bind (Keeps-perform called x _ refl) Keeps-check)

module _ {W : Type 0} (x : Libraries W) {P : System W → Type 0} (stable : Stable P) where
  Keeps-spawn_servers :
      (errc : ℕ) (node : Handle) (opts : List ServeOption) (ls : List Handle)
      → Keeps P (spawn_servers {W = W} errc node opts ls)
  unfolding spawn_servers ◌>>=◌
  Keeps-spawn_servers errc node opts [] = Keeps-pure tt
  Keeps-spawn_servers errc node opts (l ∷ ls) =
      Keeps-bind (Keeps-spawn stable _) λ _. Keeps-spawn_servers errc node opts ls

  Keeps-serve_all :
      (node : Handle) (opts : List ServeOption) (ls : List Handle)
      → Keeps P (serve_all {W = W} node opts ls)
  unfolding serve_all ◌>>=◌
  Keeps-serve_all node opts ls = Keeps-bind (Keeps-make_chan stable) λ errc.
      Keeps-bind (Keeps-spawn_servers errc node opts ls)
        λ _. Keeps-bind (Keeps-spawn stable _) λ _. Keeps-pure _

  Keeps-serve_api : (n : ℕ) → Keeps P (serve_api x n)
  unfolding serve_api ◌>>=◌
  Keeps-serve_api n = Keeps-bind (Keeps-load n) λ node. Keeps-bind (Keeps-deref _) λ cctx.
      Keeps-bind (Keeps-config_of x stable.called _ cctx) λ cfg.
        Keeps-bind (Keeps-listen_all x stable.called _ cfg.api) λ ls.
          Keeps-bind (Keeps-deref _) λ ipfs_node. Keeps-bind (Keeps-first x stable.called ls) λ lis.
            Keeps-bind
              (Keeps-wrap _ (Keeps-bind (Keeps-perform stable.called x _ refl) Keeps-check))
              λ _. Keeps-serve_all ipfs_node _ ls

  pub Keeps-maybe_serve_http_api :
      (n : ℕ) (acfg : AsioConfig) → Keeps P (maybe_serve_http_api x n acfg)
  unfolding maybe_serve_http_api
  Keeps-maybe_serve_http_api n acfg =
      Keeps-if (is_empty acfg.api_address) (Keeps-pure _) (Keeps-serve_api n)

  Keeps-serve_gateway : (n : ℕ) → Keeps P (serve_gateway x n)
  unfolding serve_gateway ◌>>=◌
  Keeps-serve_gateway n = Keeps-bind (Keeps-load n) λ node. Keeps-bind (Keeps-deref _) λ cctx.
      Keeps-bind (Keeps-config_of x stable.called _ cctx) λ cfg.
        Keeps-bind (Keeps-listen_all x stable.called _ cfg.gateway) λ ls.
          Keeps-bind (Keeps-wrap _ (Keeps-construct_node n))
            λ ipfs_node. Keeps-serve_all ipfs_node _ ls

  pub Keeps-maybe_serve_http_gateway :
      (n : ℕ) (acfg : AsioConfig) → Keeps P (maybe_serve_http_gateway x n acfg)
  unfolding maybe_serve_http_gateway
  Keeps-maybe_serve_http_gateway n acfg =
      Keeps-if (is_empty acfg.gateway_address) (Keeps-pure _) (Keeps-serve_gateway n)
