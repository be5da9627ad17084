-- ===== src/Ipfs/CitingPaths.antt =====
-- Why the wrapped name system and the wrapped resolver refuse a path.
use nopfs.Prelude.{◌≡◌, ◌⊎◌, inl, inr, refl, subst, none, some, Bytes, bytes_eq, arith}
use nopfs.Prelude.GoMap.{get}
use nopfs.Libs.{Libs, IpfsPath}
use nopfs.Status.{StatusResponse}
use nopfs.Denylist.{Denylist}
use nopfs.Denylist.Lookup
use nopfs.Denylist.Citing.Asking.{AsksPath, CitesIn}
use nopfs.Denylist.Citing.Paths.{is_path_blocked-Cites}
use nopfs.Blocker
use nopfs.Blocker.Citing.{is_path_blocked-FromDenylist}
use nopfs.Ipfs.{World, failure, status_error, path_error}
use nopfs.Ipfs.Paths.{Names, NameSystem, Resolver, wrap_name_system, wrap_resolver}
use nopfs.Ipfs.Filtering.{Denies, Permits, to_error_permitted}
use nopfs.Ipfs.Guarding.{wrap_paths_denied}
use nopfs.Ipfs.Citing.{status_cases}

module _ (L : Libs) (W : World) (N : Names) (ns : NameSystem N W.State) (res : Resolver N W.State)
    (s : W.State) (p : IpfsPath) where
  -- Every method asks the wrapped service for the path.
  pub record IsPassed : Type 0 where
    pub resolve : (wrap_name_system L W N ns).resolve p s ≡ ns.resolve p s
    pub resolve_async : (wrap_name_system L W N ns).resolve_async p s ≡ ns.resolve_async p s
    pub resolve_to_last_node :
        (wrap_resolver L W N res).resolve_to_last_node p s ≡ res.resolve_to_last_node p s
    pub resolve_path : (wrap_resolver L W N res).resolve_path p s ≡ res.resolve_path p s
    pub resolve_path_components :
        (wrap_resolver L W N res).resolve_path_components p s ≡ res.resolve_path_components p s

  -- Every method fails with the response of a denylist that the blocker holds, which is "blocked" or
  -- "errored" and cites what it comes from; nothing changes.
  pub record IsPathRefused : Type 0 where
    pub filename : Bytes
    pub dl : Denylist
    pub held : get (W.blocker s).denylists filename ≡ some dl
    pub word : StatusResponse
    pub said : Lookup.is_path_blocked L dl ((W.path_order s p).codes filename) p ≡ word
    pub denies : Denies word
    pub cites : CitesIn dl (AsksPath L p) word
    pub resolve :
        (wrap_name_system L W N ns).resolve p s
        ≡ (failure (status_error (record { response = word })), s)
    pub resolve_async :
        (wrap_name_system L W N ns).resolve_async p s
        ≡ (N.async_error word.path (status_error (record { response = word })), s)
    pub resolve_to_last_node :
        (wrap_resolver L W N res).resolve_to_last_node p s
        ≡ (failure (status_error (record { response = word })), s)
    pub resolve_path :
        (wrap_resolver L W N res).resolve_path p s
        ≡ (failure (status_error (record { response = word })), s)
    pub resolve_path_components :
        (wrap_resolver L W N res).resolve_path_components p s
        ≡ (failure (status_error (record { response = word })), s)

  abbrev word : StatusResponse
  word = Blocker.is_path_blocked L (W.blocker s) (W.path_order s p) p

  Permits-IsPassed : Permits word → IsPassed
  unfolding wrap_name_system wrap_resolver
  Permits-IsPassed permits =
      let free : path_error L W s p ≡ none = to_error_permitted word permits in
      record {
        resolve = rw free;
        resolve_async = rw free;
        resolve_to_last_node = rw free;
        resolve_path = rw free;
        resolve_path_components = rw free;
      }

  Denies-IsPathRefused : Denies word → IsPathRefused
  Denies-IsPathRefused d =
      let order = W.path_order s p in
      let (name, dl, held, said) =
        is_path_blocked-FromDenylist L (W.blocker s) order p (λ silent. ground arith) in
      let (a, b, c, e, f) = wrap_paths_denied L W N s p ns res word refl d in
      record {
        filename = name;
        dl = dl;
        held = held;
        word = word;
        said = said;
        denies = d;
        cites =
            subst (CitesIn dl (AsksPath L p)) said
              (is_path_blocked-Cites L dl (order.codes name) p);
        resolve = a;
        resolve_async = b;
        resolve_to_last_node = c;
        resolve_path = e;
        resolve_path_components = f;
      }

  -- Every path is resolved as the wrapped name system and resolver do it, or it is refused for a
  -- reason: every method but `Publish` fails and changes nothing, with the response of a denylist
  -- that the blocker holds then. If it says "blocked", it has the block rule that decides, the last
  -- one that matches what stands behind the name or the CID, among the rules for paths alone, those
  -- for the name's key or for the CID's multihash, or the double hashes of the path's texts; else it
  -- has the error that the query met and no rule. This holds whatever the blocker holds and in
  -- whatever order its maps are ranged over.
  pub wrap_paths_decides : IsPassed ⊎ IsPathRefused
  wrap_paths_decides = elim (status_cases word word.status refl) [
    | inl permits ↦ inl (Permits-IsPassed permits)
    | inr denies ↦ inr (Denies-IsPathRefused denies)
  ]
