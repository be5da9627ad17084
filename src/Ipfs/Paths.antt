-- ===== src/Ipfs/Paths.antt =====
-- ipfs/namesys.go and ipfs/resolver.go.
use nopfs.Prelude.{Bytes, Option, none, some, List}
use nopfs.Libs.{Libs, Cid, IpfsPath}
use nopfs.Ipfs.{World, Reply, failure, ServiceError, status_error, path_error}
use nopfs.Status.{StatusError}

-- The types that name systems and resolvers hand on. `async_error` is the channel that is closed
-- behind one result, an error at a path.
pub record Names : Type 1 where
  pub NameResult : Type 0
  pub AsyncChannel : Type 0
  pub async_error : Option IpfsPath → ServiceError → AsyncChannel
  pub PrivKey : Type 0
  pub Node : Type 0
  pub Link : Type 0

-- The interface `namesys.NameSystem`.
pub record NameSystem (N : Names) (S : Type 0) : Type 0 where
  pub resolve : IpfsPath → S → Reply N.NameResult × S
  pub resolve_async : IpfsPath → S → N.AsyncChannel × S
  pub publish : N.PrivKey → IpfsPath → S → Reply (Unit {0}) × S

-- The interface `resolver.Resolver`.
pub record Resolver (N : Names) (S : Type 0) : Type 0 where
  pub resolve_to_last_node : IpfsPath → S → Reply (Cid × List Bytes) × S
  pub resolve_path : IpfsPath → S → Reply (N.Node × N.Link) × S
  pub resolve_path_components : IpfsPath → S → Reply (List N.Node) × S

module _ (L : Libs) (W : World) (N : Names) where
  abbrev pub unless_path_denied :
      {A : Type 0}
      → Option StatusError
      → (W.State → Reply A × W.State)
      → W.State
      → Reply A × W.State
  unless_path_denied none call s = call s
  unless_path_denied (some e) call s = (failure (status_error e), s)

  -- `ResolveAsync` answers at the path of the blocker's response.
  abbrev pub async_unless_denied :
      Option StatusError → (W.State → N.AsyncChannel × W.State) → W.State → N.AsyncChannel × W.State
  async_unless_denied none call s = call s
  async_unless_denied (some e) call s = (N.async_error e.response.path (status_error e), s)

  -- `WrapNameSystem`, with the methods of the wrapper.
  unfoldable pub wrap_name_system : NameSystem N W.State → NameSystem N W.State
  wrap_name_system ns = record {
    resolve = λ p s. unless_path_denied (path_error L W s p) (ns.resolve p) s;
    resolve_async = λ p s. async_unless_denied (path_error L W s p) (ns.resolve_async p) s;
    publish = ns.publish;
  }

  -- `WrapResolver`, with the methods of the wrapper.
  unfoldable pub wrap_resolver : Resolver N W.State → Resolver N W.State
  wrap_resolver res = record {
    resolve_to_last_node =
        λ p s. unless_path_denied (path_error L W s p) (res.resolve_to_last_node p) s;
    resolve_path = λ p s. unless_path_denied (path_error L W s p) (res.resolve_path p) s;
    resolve_path_components =
        λ p s. unless_path_denied (path_error L W s p) (res.resolve_path_components p) s;
  }
